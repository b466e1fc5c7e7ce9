-- ===== src/Metadata.antt =====
-- src/episode_recorder_node.cpp: `write_metadata`, with the keys of
-- include/rosetta_recorder_cpp/episode_recorder_node.hpp.
pub mod Edit
pub mod Retry
pub mod Truncated
use rosetta_recorder_cpp.Prelude.{
  ℕ, zero, suc, Text, codes, decimal, Bool, true, false, not, ◌&&◌, Option, none, some, [], ◌∷◌,
  ◌++◌, is_empty, Outcome, ok, throw, if◌then◌else◌,
}

-- What yaml-cpp's nodes are read and written by: a mapping's entry is there or not.
pub record Tree : Type 1 where
  pub Doc : Type 0
  pub empty_map : Doc
  pub is_map : Doc → Bool
  pub get : Doc → Text → Option Doc
  pub put : Doc → Text → Doc → Doc
  pub scalar : Text → Doc

abbrev pub metadata_key : Text
metadata_key = codes "rosbag2_bagfile_information"

abbrev pub custom_data_key : Text
custom_data_key = codes "custom_data"

abbrev pub prompt_key : Text
prompt_key = codes "lerobot.operator_prompt"

abbrev pub contract_key : Text
contract_key = codes "rosetta.contract_yaml"

abbrev pub goal_id_key : Text
goal_id_key = codes "rosetta.goal_id"

abbrev pub metadata_retry_count : ℕ
metadata_retry_count = 10

module _ (T : Tree) where
  -- A node that is no mapping is replaced by an empty one.
  unfoldable pub as_map : T.Doc → T.Doc
  as_map d = if T.is_map d then d else T.empty_map

  unfoldable pub map_at : T.Doc → Text → T.Doc
  unfolding as_map
  map_at d key = elim (T.get d key) [ none ↦ T.empty_map | some e ↦ as_map e ]

  unfoldable pub put_text : Text → Text → T.Doc → T.Doc
  put_text key text d = if is_empty text then d else T.put d key (T.scalar text)

  unfoldable pub edit_custom : Text → Text → Text → T.Doc → T.Doc
  edit_custom prompt contract_text goal_id d =
      put_text goal_id_key goal_id
        (put_text contract_key contract_text (put_text prompt_key prompt d))

  -- The document that is written back. The nodes below `info` are shared with it, so an edit of the
  -- custom data is one of the whole document.
  unfoldable pub edit : Text → Text → Text → T.Doc → T.Doc
  edit prompt contract_text goal_id d =
      let meta = as_map d in
      let info = map_at meta metadata_key in
      let custom = map_at info custom_data_key in
      T.put meta metadata_key
        (T.put info custom_data_key (edit_custom prompt contract_text goal_id custom))

-- What one attempt meets: whether the file is there, what reading it gives, whether it opens for
-- writing, and whether the document is flushed.
pub record Attempt (Doc : Type 0) : Type 0 where
  pub present : Bool
  pub load : Outcome Text Doc
  pub opens : Bool
  pub flushes : Bool

pub data Tried (Doc : Type 0) : Type 0 where
  missing : Tried Doc
  failed : Text → Tried Doc
  wrote : Doc → Tried Doc

module _ (T : Tree) where
  abbrev after_load : (T.Doc → T.Doc) → Attempt T.Doc → Outcome Text T.Doc → Tried T.Doc
  after_load change a (throw what) = failed what
  after_load change a (ok d) =
      if not a.opens
      then failed (codes "cannot open metadata.yaml for writing")
      else if not a.flushes
      then failed (codes "failed to flush metadata.yaml")
      else wrote (change d)

  -- The body of the loop.
  unfoldable pub try_once : (T.Doc → T.Doc) → Attempt T.Doc → Tried T.Doc
  try_once change a = if not a.present then missing else after_load change a a.load

  -- How often the loop slept, and the document that it wrote, or the last error.
  pub record Retried : Type 0 where
    pub sleeps : ℕ
    pub outcome : Outcome Text T.Doc

  unfoldable pub retry : ℕ → (ℕ → Tried T.Doc) → ℕ → Text → Retried
  retry zero tried attempt last_error = record { sleeps = attempt; outcome = throw last_error }
  retry (suc rounds) tried attempt last_error = elim (tried attempt) [
    | wrote d ↦ record { sleeps = attempt; outcome = ok d }
    | missing ↦ retry rounds tried (suc attempt) last_error
    | failed what ↦ retry rounds tried (suc attempt) what
  ]

  abbrev pub gave_up : Text → Text → Text
  gave_up meta_path last_error =
      codes "Failed to write prompt to "
      ++ (meta_path
          ++ (codes " after "
              ++ (decimal metadata_retry_count ++ (codes " attempts. Last error: " ++ last_error))))

  abbrev pub rethrown : Text → Outcome Text T.Doc → Outcome Text (Option T.Doc)
  rethrown meta_path (ok d) = ok (some d)
  rethrown meta_path (throw last_error) = throw (gave_up meta_path last_error)

  -- The document that was written, or the text of the exception; nothing is written if there is
  -- nothing to write.
  unfoldable pub write_metadata :
      (ℕ → Attempt T.Doc) → Text → Text → Text → Text → Outcome Text (Option T.Doc)
  write_metadata attempts meta_path prompt contract_text goal_id =
      if is_empty prompt && (is_empty contract_text && is_empty goal_id)
      then ok none
      else rethrown meta_path
          (retry metadata_retry_count
            (λ i. try_once (edit T prompt contract_text goal_id) (attempts i)) 0
            (codes "metadata.yaml never appeared")).outcome
