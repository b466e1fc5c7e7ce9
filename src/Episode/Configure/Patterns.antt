-- ===== src/Episode/Configure/Patterns.antt =====
-- The alternations that `on_configure` compiles.
use rosetta_recorder_cpp.Prelude.{
  ◌≡◌, refl, sym, ◌∙◌, Text, codes, is_empty, List, [], ◌∷◌, ◌++◌, if◌then◌else◌,
}
use rosetta_recorder_cpp.Episode.Configure.{
  default_blacklist, join_all, join_excluded, join_included, exclude_pattern, include_pattern,
}
use mathlib.Core.List.{append_assoc, append-nil}

abbrev pub non_empty : List Text → List Text
non_empty [] = []
non_empty (p ∷ ps) = if is_empty p then non_empty ps else p ∷ non_empty ps

-- Each pattern after a bar.
abbrev pub barred : List Text → Text
barred [] = []
barred (p ∷ ps) = codes "|" ++ (p ++ barred ps)

-- The patterns with a bar between any two.
abbrev pub alternation : List Text → Text
alternation [] = []
alternation (p ∷ ps) = p ++ barred ps

join_excluded-barred :
    (ps : List Text) (joined : Text) → join_excluded ps joined ≡ joined ++ barred (non_empty ps)
unfolding join_excluded
join_excluded-barred [] joined = sym (append-nil joined)
join_excluded-barred ([] ∷ ps) joined = join_excluded-barred ps joined
join_excluded-barred ((x ∷ p) ∷ ps) joined =
    join_excluded-barred ps (joined ++ (codes "|" ++ x ∷ p))
    ∙ append_assoc joined (codes "|" ++ x ∷ p) (barred (non_empty ps))

join_included-barred :
    (ps : List Text) (x : _) (included : Text)
    → join_included ps (x ∷ included) ≡ (x ∷ included) ++ barred (non_empty ps)
unfolding join_included
join_included-barred [] x included = sym (append-nil (x ∷ included))
join_included-barred ([] ∷ ps) x included = join_included-barred ps x included
join_included-barred ((y ∷ p) ∷ ps) x included =
    join_included-barred ps x (included ++ (codes "|" ++ y ∷ p))
    ∙ append_assoc (x ∷ included) (codes "|" ++ y ∷ p) (barred (non_empty ps))

-- What is compiled for `exclude_topics` is the alternation of the two default patterns and of the
-- parameter's patterns, without its empty ones, in their order.
pub exclude_pattern-alternation :
    (ps : List Text) → exclude_pattern ps ≡ alternation (default_blacklist ++ non_empty ps)
unfolding exclude_pattern join_all
exclude_pattern-alternation ps = join_excluded-barred ps _

-- And for `include_topics` it is the alternation of the parameter's patterns, without its empty
-- ones.
pub include_pattern-alternation : (ps : List Text) → include_pattern ps ≡ alternation (non_empty ps)
unfolding include_pattern join_included
include_pattern-alternation [] = refl
include_pattern-alternation ([] ∷ ps) = from_empty ps
  where
    from_empty : (qs : List Text) → join_included qs [] ≡ alternation (non_empty qs)
    from_empty [] = refl
    from_empty ([] ∷ qs) = from_empty qs
    from_empty ((x ∷ q) ∷ qs) = join_included-barred qs x q
include_pattern-alternation ((x ∷ p) ∷ ps) = join_included-barred ps x p
