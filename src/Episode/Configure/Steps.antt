-- ===== src/Episode/Configure/Steps.antt =====
-- The steps of `on_configure`: what each sets, or the reason why it fails.
use rosetta_recorder_cpp.Floats.{Floats}
use rosetta_recorder_cpp.Prelude.{
  ◌≡◌, ◌≢◌, refl, inl, inr, Text, is_empty, Bool, true, false, not, ◌&&◌, Bool-cases, Option, none,
  some, Option-cases, ◌++◌, ok, throw, Outcome-cases, Post, Post-ok, Post-throw, Post-if,
}
use rosetta_recorder_cpp.Contract.{RmwPolicies, Contract, Failure}
use rosetta_recorder_cpp.Contract.Yaml.{Yaml}
use rosetta_recorder_cpp.Contract.Load.{load_contract}
use rosetta_recorder_cpp.Directory.{BagNameStyle, parse_bag_name_style}
use rosetta_recorder_cpp.Directory.Naming.{style_name, parse_bag_name_style_iff}
use rosetta_recorder_cpp.Episode.{Node}
use rosetta_recorder_cpp.Episode.Configure.{
  Parameters, Host, State, default_blacklist, with_contract, with_base, with_style, with_excluded,
  with_included, read_contract_file, make_base, read_values, read_style, compile_excluded,
  compile_included,
}
use rosetta_recorder_cpp.Episode.Configure.Patterns.{
  alternation, non_empty, exclude_pattern-alternation, include_pattern-alternation,
}

-- The compiled pattern of `include_topics` is there exactly if one of its texts is not empty.
pub data Included (H : Host) (pattern : Text) : Option (Text → Bool) → Type 0 where
  no_pattern : is_empty pattern ≡ true → Included H pattern none
  compiled :
      (r : Text → Bool)
      → is_empty pattern ≡ false
      → H.regex pattern ≡ some r
      → Included H pattern (some r)

-- The node but for its contract.
abbrev pub Keeps : {D : Type 0} → Node D → Node D → Type 0
Keeps {D} old new = record new { contract = old.contract } ≡ old

module _ (F : Floats) (Y : Yaml F.Double) (rmw : RmwPolicies) (H : Host)
    (P : Parameters F.Double) where
  -- The state with the contract and the base directory.
  abbrev pub based : Contract F.Double → State F.Double → State F.Double
  based c st = with_base P.bag_base_dir (with_contract c st)

  -- Then with the values and the style.
  abbrev pub styled : Contract F.Double → BagNameStyle → State F.Double → State F.Double
  styled c style st = with_style style (read_values F Y rmw H P (based c st))

  -- Why the steps fail at `st`, and the state that they leave.
  pub data Fails (st : State F.Double) : State F.Double → Type 0 where
    no_contract_path : is_empty P.contract_path ≡ true → Fails st st
    bad_contract : (e : Failure) → load_contract F Y rmw P.contract_path ≡ throw e → Fails st st
    no_base :
        (c : Contract F.Double)
        → load_contract F Y rmw P.contract_path ≡ ok c
        → H.create_directories_error P.bag_base_dir && not (H.exists P.bag_base_dir) ≡ true
        → Fails st (based c st)
    bad_style :
        (c : Contract F.Double)
        → load_contract F Y rmw P.contract_path ≡ ok c
        → ((style : BagNameStyle) → P.bag_name_style ≢ style_name style)
        → Fails st (read_values F Y rmw H P (based c st))
    bad_exclude :
        (c : Contract F.Double) (style : BagNameStyle)
        → load_contract F Y rmw P.contract_path ≡ ok c
        → P.bag_name_style ≡ style_name style
        → H.regex (alternation (default_blacklist ++ non_empty P.exclude_topics)) ≡ none
        → Fails st (styled c style st)
    bad_include :
        (c : Contract F.Double) (style : BagNameStyle) (r : Text → Bool)
        → load_contract F Y rmw P.contract_path ≡ ok c
        → P.bag_name_style ≡ style_name style
        → H.regex (alternation (default_blacklist ++ non_empty P.exclude_topics)) ≡ some r
        → is_empty (alternation (non_empty P.include_topics)) ≡ false
        → H.regex (alternation (non_empty P.include_topics)) ≡ none
        → Fails st (with_included none (with_excluded r (styled c style st)))

  pub Fails-Keeps : (st left : State F.Double) → Fails st left → Keeps st.node left.node
  unfolding read_values
  Fails-Keeps st left (no_contract_path e) = refl
  Fails-Keeps st left (bad_contract e l) = refl
  Fails-Keeps st left (no_base c l e) = refl
  Fails-Keeps st left (bad_style c l e) = refl
  Fails-Keeps st left (bad_exclude c style l s e) = refl
  Fails-Keeps st left (bad_include c style r l s x e i) = refl

  pub read_contract_file-Post :
      (st : State F.Double)
      → Post
          (λ new.
            (c : Contract F.Double) × (load_contract F Y rmw P.contract_path ≡ ok c)
            × (new ≡ with_contract c st))
          (Fails st)
          (read_contract_file F Y rmw H P st)
  unfolding read_contract_file
  read_contract_file-Post st = elim (Bool-cases (is_empty P.contract_path)) [
    | inl e ↦ rw e (Post-throw _ (no_contract_path e))
    | inr e ↦ rw e (elim (Outcome-cases (load_contract F Y rmw P.contract_path)) [
      | inl (c, l) ↦ rw l (Post-ok _ (c, refl, refl))
      | inr (x, l) ↦ rw l (Post-throw _ (bad_contract x l))
    ])
  ]

  pub make_base-Post :
      (st : State F.Double)
      → Post
          (λ new. new ≡ with_base P.bag_base_dir st)
          (λ left.
            (H.create_directories_error P.bag_base_dir && not (H.exists P.bag_base_dir) ≡ true)
            × (left ≡ with_base P.bag_base_dir st))
          (make_base F Y rmw H P st)
  unfolding make_base
  make_base-Post st = Post-if _ _ _ (λ e. Post-throw _ (e, refl)) (λ e. Post-ok _ refl)

  pub read_style-Post :
      (st : State F.Double)
      → Post
          (λ new.
            (style : BagNameStyle) × (P.bag_name_style ≡ style_name style)
            × (new ≡ with_style style st))
          (λ left. ((style : BagNameStyle) → P.bag_name_style ≢ style_name style) × (left ≡ st))
          (read_style F Y rmw H P st)
  unfolding read_style
  read_style-Post st = elim (Outcome-cases (parse_bag_name_style P.bag_name_style)) [
    | inl (style, e) ↦
        rw (read_style, e) (Post-ok _ (style, (parse_bag_name_style_iff _ style).0 e, refl))
    | inr (x, e) ↦ rw (read_style, e) (Post-throw _ (unknown x e, refl))
  ]
    where
      unknown :
          (x : Text)
          → parse_bag_name_style P.bag_name_style ≡ throw x
          → (style : BagNameStyle) → P.bag_name_style ≢ style_name style
      unknown x e style named = cc ((parse_bag_name_style_iff _ style).1 named, e)

  pub compile_excluded-Post :
      (st : State F.Double)
      → Post
          (λ new.
            (r : Text → Bool) × (H.regex
                (alternation (default_blacklist ++ non_empty P.exclude_topics))
              ≡ some r)
            × (new ≡ with_excluded r st))
          (λ left.
            (H.regex (alternation (default_blacklist ++ non_empty P.exclude_topics)) ≡ none)
            × (left ≡ st))
          (compile_excluded F Y rmw H P st)
  unfolding compile_excluded
  compile_excluded-Post st =
      rw (compile_excluded, exclude_pattern-alternation P.exclude_topics)
        (elim (Option-cases
          (H.regex (alternation (default_blacklist ++ non_empty P.exclude_topics)))) [
            | inl e ↦ rw e (Post-throw _ (refl, refl))
            | inr (r, e) ↦ rw e (Post-ok _ (r, refl, refl))
          ])

  pub compile_included-Post :
      (st : State F.Double)
      → Post
          (λ new.
            (r : Option (Text → Bool)) × Included H (alternation (non_empty P.include_topics)) r
            × (new ≡ with_included r st))
          (λ left.
            (is_empty (alternation (non_empty P.include_topics)) ≡ false)
            × (H.regex (alternation (non_empty P.include_topics)) ≡ none)
            × (left ≡ with_included none st))
          (compile_included F Y rmw H P st)
  unfolding compile_included
  compile_included-Post st =
      rw (compile_included, include_pattern-alternation P.include_topics)
        (Post-if _ _ _ (λ e. Post-ok _ (none, no_pattern e, refl))
          λ some_text. elim (Option-cases (H.regex (alternation (non_empty P.include_topics)))) [
            | inl e ↦ rw e (Post-throw _ (some_text, refl, refl))
            | inr (r, e) ↦ rw e (Post-ok _ (some r, compiled r some_text e, refl))
          ])
