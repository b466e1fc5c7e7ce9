-- ===== src/Contract/Scalars.antt =====
-- src/contract.cpp: `lower_trim`, `require_str` and `parse_qos`.
use rosetta_recorder_cpp.Prelude.{
  ℕ, suc, ◌+◌, ◌-◌, ℤ, pos, is_non_positive, Text, codes, text_eq, is_empty, Bool, not, ◌&&◌, ◌||◌,
  Option, none, some, [], ◌∷◌, map, take, drop, leb, ◌==◌, if◌then◌else◌, Outcome, ok, throw, ◌>>=◌,
  ◌>>◌, throw_if,
}
use rosetta_recorder_cpp.Contract.{
  QosSpec, default_qos, RmwPolicies, missing_field, empty_field, Failure, invalid, yaml,
}
use rosetta_recorder_cpp.Contract.Yaml.{Yaml}

-- One of the four characters of `" \t\r\n"`.
abbrev pub is_blank : ℕ → Bool
is_blank c = c == b' ' || c == 9 || c == 13 || c == 10

-- `find_first_not_of` and `find_last_not_of`; `none` stands for `npos`.
unfoldable pub find_first_not_blank : Text → Option ℕ
find_first_not_blank [] = none
find_first_not_blank (c ∷ s) =
    if is_blank c
    then elim (find_first_not_blank s) [ none ↦ none | some i ↦ some (suc i) ]
    else some 0

unfoldable pub find_last_not_blank : Text → Option ℕ
find_last_not_blank [] = none
find_last_not_blank (c ∷ s) = elim (find_last_not_blank s) [
  | none ↦ if is_blank c then none else some 0
  | some i ↦ some (suc i)
]

-- `std::tolower` in the "C" locale.
unfoldable pub to_lower : ℕ → ℕ
to_lower c = if leb b'A' c && leb c b'Z' then c + 32 else c

-- Where the first search finds nothing, so does the second, and the result is empty.
unfoldable pub lower_trim : Text → Text
unfolding find_first_not_blank find_last_not_blank to_lower
lower_trim s = elim (find_first_not_blank s) [
  | none ↦ []
  | some b ↦ elim (find_last_not_blank s) [
    | none ↦ []
    | some e ↦ map to_lower (take (suc e - b) (drop b s))
  ]
]

module _ {Double : Type 0} (Y : Yaml Double) where
  open Y use {Node, is_defined, is_null, is_map, size, member, as_string_or, as_int_or}

  -- `n[key]`, with the exception of the YAML library as the failure.
  unfoldable pub at : Node → Text → Outcome Failure Node
  at n key = elim (member n key) [ ok m ↦ ok m | throw e ↦ throw (yaml e) ]

  unfoldable pub require_str : Node → Text → Text → Outcome Failure Text
  require_str n field ctx = do
    m ← at n field
    throw_if (not (is_defined m) || is_null m) (invalid (missing_field field ctx))
    throw_if (is_empty (as_string_or m [])) (invalid (empty_field field ctx))
    ok (as_string_or m [])

  -- `if (n[key]) … lower_trim(n[key].as<std::string>(fallback)) …`
  unfoldable pub choice : Node → Text → Text → (Text → Bool) → Bool → Outcome Failure Bool
  choice n key fallback test old = do
    m ← at n key
    ok (if is_defined m then test (lower_trim (as_string_or m fallback)) else old)

  -- `if (n["depth"]) q.depth = n["depth"].as<int>(10);`
  unfoldable pub depth_of : Node → ℤ → Outcome Failure ℤ
  depth_of n old = do
    m ← at n (codes "depth")
    ok (if is_defined m then as_int_or m (pos 10) else old)

  -- The members of a `qos:` block, over the defaults.
  unfoldable pub qos_of_map : Node → Outcome Failure QosSpec
  qos_of_map n = do
    reliable ←
        choice n (codes "reliability") (codes "reliable")
          (λ s. not (text_eq s (codes "best_effort"))) default_qos.reliable
    keep_last ←
        choice n (codes "history") (codes "keep_last") (λ s. not (text_eq s (codes "keep_all")))
          default_qos.keep_last
    transient_local ←
        choice n (codes "durability") (codes "volatile") (λ s. text_eq s (codes "transient_local"))
          default_qos.transient_local
    depth ← depth_of n default_qos.depth
    ok (record default_qos {
      reliable = reliable;
      keep_last = keep_last;
      transient_local = transient_local;
      depth = if is_non_positive depth then pos 10 else depth;
    })

  unfoldable pub parse_qos : RmwPolicies → Node → Outcome Failure QosSpec
  parse_qos rmw n =
      if not (is_defined n) || not (is_map n) || size n == 0
      then ok (record default_qos { liveliness = rmw.liveliness_automatic })
      else qos_of_map n
