-- ===== src/Metadata/Edit.antt =====
-- src/episode_recorder_node.cpp: what `write_metadata` changes in the document, and what it keeps.
use rosetta_recorder_cpp.Prelude.{
  ◌≡◌, ◌≢◌, refl, sym, ◌∙◌, if◌then◌else◌, Text, true, none, some, is_empty, text_eq, text_eq-ne,
  Bool-cases, Option-cases, inl, inr,
}
use rosetta_recorder_cpp.Metadata.{
  Tree, metadata_key, custom_data_key, prompt_key, contract_key, goal_id_key, as_map, map_at,
  put_text, edit_custom, edit,
}

-- The documented behaviour of a mapping.
pub record TreeLaws (T : Tree) : Type 0 where
  pub map_empty : T.is_map T.empty_map ≡ true
  pub get_empty : (k : Text) → T.get T.empty_map k ≡ none
  pub map_put : (d e : T.Doc) (k : Text) → T.is_map d ≡ true → T.is_map (T.put d k e) ≡ true
  pub get_put_self : (d e : T.Doc) (k : Text) → T.is_map d ≡ true → T.get (T.put d k e) k ≡ some e
  pub get_put_other :
      (d e : T.Doc) (j k : Text) → T.is_map d ≡ true → j ≢ k → T.get (T.put d k e) j ≡ T.get d j

prompt-goal_id : prompt_key ≢ goal_id_key
unfolding text_eq
prompt-goal_id = text_eq-ne prompt_key goal_id_key refl

prompt-contract : prompt_key ≢ contract_key
unfolding text_eq
prompt-contract = text_eq-ne prompt_key contract_key refl

contract-goal_id : contract_key ≢ goal_id_key
unfolding text_eq
contract-goal_id = text_eq-ne contract_key goal_id_key refl

module _ (T : Tree) (laws : TreeLaws T) where
  as_map_map : (d : T.Doc) → T.is_map (as_map T d) ≡ true
  unfolding as_map
  as_map_map d = elim (Bool-cases (T.is_map d)) [
    | inl e ↦ rw (e, e)
    | inr e ↦ rw (e, laws.map_empty)
  ]

  map_at_map : (d : T.Doc) (k : Text) → T.is_map (map_at T d k) ≡ true
  unfolding map_at
  map_at_map d k = elim (Option-cases (T.get d k)) [
    | inl e ↦ rw (map_at, e) laws.map_empty
    | inr (m, e) ↦ rw (map_at, e) (as_map_map m)
  ]

  map_at-some : (d m : T.Doc) (k : Text) → T.get d k ≡ some m → T.is_map m ≡ true → map_at T d k ≡ m
  unfolding map_at as_map
  map_at-some d m k e is_map = rw (map_at, e, is_map)

  put_text_map :
      (key text : Text) (d : T.Doc) → T.is_map d ≡ true → T.is_map (put_text T key text d) ≡ true
  unfolding put_text
  put_text_map key text d h = elim (Bool-cases (is_empty text)) [
    | inl e ↦ rw (e, h)
    | inr e ↦ rw e (laws.map_put d _ key h)
  ]

  get-put_text_self :
      (key text : Text) (d e : T.Doc)
      → T.is_map d ≡ true
      → T.get d key ≡ T.get e key
      → T.get (put_text T key text d) key
        ≡ (if is_empty text then T.get e key else some (T.scalar text))
  unfolding put_text
  get-put_text_self key text d e h same = elim (Bool-cases (is_empty text)) [
    | inl none_given ↦ rw (none_given, same)
    | inr given ↦ rw given (laws.get_put_self d _ key h)
  ]

  get-put_text_other :
      (key text j : Text) (d : T.Doc)
      → T.is_map d ≡ true
      → j ≢ key
      → T.get (put_text T key text d) j ≡ T.get d j
  unfolding put_text
  get-put_text_other key text j d h apart = elim (Bool-cases (is_empty text)) [
    | inl e ↦ rw e
    | inr e ↦ rw e (laws.get_put_other d _ j key h apart)
  ]

  -- The entries of the custom data.
  abbrev pub custom_of : T.Doc → T.Doc
  custom_of d = map_at T (map_at T d metadata_key) custom_data_key

  edit_custom_map :
      (p c g : Text) (d : T.Doc) → T.is_map d ≡ true → T.is_map (edit_custom T p c g d) ≡ true
  unfolding edit_custom
  edit_custom_map p c g d h =
      put_text_map goal_id_key g _ (put_text_map contract_key c _ (put_text_map prompt_key p d h))

  custom_of-edit :
      (p c g : Text) (d : T.Doc)
      → custom_of (edit T p c g d) ≡ edit_custom T p c g (custom_of (as_map T d))
  unfolding edit
  custom_of-edit p c g d =
      let meta = as_map T d in
      let info = map_at T meta metadata_key in
      let custom = edit_custom T p c g (map_at T info custom_data_key) in
      let info' = T.put info custom_data_key custom in
      rw
        (map_at-some (T.put meta metadata_key info') info' metadata_key
          (laws.get_put_self meta info' metadata_key (as_map_map d))
          (laws.map_put info custom custom_data_key (map_at_map meta metadata_key)))
        (map_at-some info' custom custom_data_key
          (laws.get_put_self info custom custom_data_key (map_at_map meta metadata_key))
          (edit_custom_map p c g _ (map_at_map info custom_data_key)))

  -- What a key of the custom data has after the edit: its text, or what it had if the text is empty.
  abbrev pub Has : Text → Text → T.Doc → T.Doc → Type 0
  Has key text d d' = T.get d' key ≡ (if is_empty text then T.get d key else some (T.scalar text))

  -- What the document says after the edit.
  pub record Edited (p c g : Text) (d d' : T.Doc) : Type 0 where
    pub prompt : Has prompt_key p (custom_of (as_map T d)) (custom_of d')
    pub contract_text : Has contract_key c (custom_of (as_map T d)) (custom_of d')
    pub goal_id : Has goal_id_key g (custom_of (as_map T d)) (custom_of d')
    pub custom :
        (k : Text)
        → k ≢ prompt_key
        → k ≢ contract_key
        → k ≢ goal_id_key
        → T.get (custom_of d') k ≡ T.get (custom_of (as_map T d)) k
    pub information :
        (k : Text)
        → k ≢ custom_data_key
        → T.get (map_at T d' metadata_key) k ≡ T.get (map_at T (as_map T d) metadata_key) k
    pub document : (k : Text) → k ≢ metadata_key → T.get d' k ≡ T.get (as_map T d) k

  edit_custom-prompt :
      (p c g : Text) (d : T.Doc) → T.is_map d ≡ true → Has prompt_key p d (edit_custom T p c g d)
  unfolding edit_custom
  edit_custom-prompt p c g d h =
      let h1 = put_text_map prompt_key p d h in
      get-put_text_other goal_id_key g prompt_key _ (put_text_map contract_key c _ h1)
        prompt-goal_id
      ∙ get-put_text_other contract_key c prompt_key _ h1 prompt-contract
      ∙ get-put_text_self prompt_key p d d h refl

  edit_custom-contract :
      (p c g : Text) (d : T.Doc) → T.is_map d ≡ true → Has contract_key c d (edit_custom T p c g d)
  unfolding edit_custom
  edit_custom-contract p c g d h =
      let h1 = put_text_map prompt_key p d h in
      get-put_text_other goal_id_key g contract_key _ (put_text_map contract_key c _ h1)
        contract-goal_id
      ∙ get-put_text_self contract_key c _ d h1
          (get-put_text_other prompt_key p contract_key d h (λ e. prompt-contract (sym e)))

  edit_custom-goal_id :
      (p c g : Text) (d : T.Doc) → T.is_map d ≡ true → Has goal_id_key g d (edit_custom T p c g d)
  unfolding edit_custom
  edit_custom-goal_id p c g d h =
      let h1 = put_text_map prompt_key p d h in
      get-put_text_self goal_id_key g _ d (put_text_map contract_key c _ h1) (
        get-put_text_other contract_key c goal_id_key _ h1 (λ e. contract-goal_id (sym e))
        ∙ get-put_text_other prompt_key p goal_id_key d h (λ e. prompt-goal_id (sym e)))

  edit_custom-other :
      (p c g k : Text) (d : T.Doc)
      → T.is_map d ≡ true
      → k ≢ prompt_key
      → k ≢ contract_key
      → k ≢ goal_id_key
      → T.get (edit_custom T p c g d) k ≡ T.get d k
  unfolding edit_custom
  edit_custom-other p c g k d h np nc ng =
      let h1 = put_text_map prompt_key p d h in
      get-put_text_other goal_id_key g k _ (put_text_map contract_key c _ h1) ng
      ∙ get-put_text_other contract_key c k _ h1 nc
      ∙ get-put_text_other prompt_key p k d h np

  map_at-edit :
      (p c g : Text) (d : T.Doc)
      → let info = map_at T (as_map T d) metadata_key in
        map_at T (edit T p c g d) metadata_key
        ≡ T.put info custom_data_key (edit_custom T p c g (map_at T info custom_data_key))
  unfolding edit
  map_at-edit p c g d =
      let meta = as_map T d in
      let info = map_at T meta metadata_key in
      map_at-some _ _ metadata_key (laws.get_put_self meta _ metadata_key (as_map_map d))
        (laws.map_put info _ custom_data_key (map_at_map meta metadata_key))

  get-edit :
      (p c g k : Text) (d : T.Doc)
      → k ≢ metadata_key
      → T.get (edit T p c g d) k ≡ T.get (as_map T d) k
  unfolding edit
  get-edit p c g k d apart = laws.get_put_other (as_map T d) _ k metadata_key (as_map_map d) apart

  -- With mappings that behave as documented, each text that is not empty stands under its key in
  -- the custom data after the edit, and the entry under the key of an empty text, and every other
  -- entry of the custom data, of the bag's information and of the document, is what it was.
  pub edit-Edited : (p c g : Text) (d : T.Doc) → Edited p c g d (edit T p c g d)
  edit-Edited p c g d =
      let custom_map = map_at_map (map_at T (as_map T d) metadata_key) custom_data_key in
      record {
        prompt = rw (custom_of-edit p c g d) (edit_custom-prompt p c g _ custom_map);
        contract_text = rw (custom_of-edit p c g d) (edit_custom-contract p c g _ custom_map);
        goal_id = rw (custom_of-edit p c g d) (edit_custom-goal_id p c g _ custom_map);
        custom = λ k np nc ng.
            rw (custom_of-edit p c g d) (edit_custom-other p c g k _ custom_map np nc ng);
        information = λ k apart.
            rw (map_at-edit p c g d) (
              laws.get_put_other _ _ k custom_data_key (map_at_map (as_map T d) metadata_key)
                apart);
        document = λ k apart. get-edit p c g k d apart;
      }
