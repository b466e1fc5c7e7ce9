-- ===== src/Episode/Service/GoalId.antt =====
-- src/episode_recorder_node.cpp: `format_goal_id`, "the same shape Python's uuid.UUID prints".
use rosetta_recorder_cpp.Prelude.{
  ℕ, suc, ◌/◌, ◌%◌, ◌<◌, ◌≡◌, refl, ap, Text, codes, Bool, true, false, List, [], ◌∷◌, ◌++◌,
  if◌then◌else◌, arith, All,
}
use rosetta_recorder_cpp.Episode.Service.{hex_digit, is_dash_after, format_from, format_goal_id}

hex_digit-injective : (d e : ℕ) → d < 16 → e < 16 → hex_digit d ≡ hex_digit e → d ≡ e
hex_digit-injective d e small small' same = ground arith

digits :
    (b c : ℕ)
    → b < 256
    → c < 256
    → hex_digit (b / 16) ≡ hex_digit (c / 16)
    → hex_digit (b % 16) ≡ hex_digit (c % 16)
    → b ≡ c
digits b c small small' high low =
    let h : b / 16 ≡ c / 16 = hex_digit-injective _ _ (omega arith) (omega arith) high in
    let l : b % 16 ≡ c % 16 = hex_digit-injective _ _ (omega arith) (omega arith) low in omega arith

head_of : ℕ → Text → ℕ
head_of d [] = d
head_of d (c ∷ cs) = c

tail_of : Text → Text
tail_of [] = []
tail_of (c ∷ cs) = cs

cons-parts : (x y : ℕ) (xs ys : Text) → x ∷ xs ≡ y ∷ ys → (x ≡ y) × (xs ≡ ys)
unfolding head_of tail_of
cons-parts x y xs ys e = (ap (head_of 0) e, ap tail_of e)

abbrev dashed : Bool → Text → Text
dashed b rest = (if b then codes "-" else []) ++ rest

dashed-injective : (b : Bool) (s t : Text) → dashed b s ≡ dashed b t → s ≡ t
dashed-injective true s t e = (cons-parts _ _ s t e).1
dashed-injective false s t e = e

abbrev pub IsByte : ℕ → Type 0
IsByte b = b < 256

format_from-injective :
    (i : ℕ) (bs cs : List ℕ)
    → All IsByte bs
    → All IsByte cs
    → format_from i bs ≡ format_from i cs
    → bs ≡ cs
unfolding format_from
format_from-injective i [] [] hb hc e = refl
format_from-injective i [] (c ∷ cs) hb hc e = absurd (cc e)
format_from-injective i (b ∷ bs) [] hb hc e = absurd (cc e)
format_from-injective i (b ∷ bs) (c ∷ cs) hb hc e =
    let (high, more) = cons-parts _ _ _ _ e in
    let (low, rest) = cons-parts _ _ _ _ more in
    let tails =
      format_from-injective (suc i) bs cs hb.1 hc.1
        (dashed-injective (is_dash_after (suc i)) _ _ rest) in
    let heads = digits b c hb.0 hc.0 high low in rw (heads, tails)

-- Two goals whose bytes have one text are one goal: the text in the bag's metadata identifies it.
pub format_goal_id-injective :
    (bs cs : List ℕ)
    → All IsByte bs
    → All IsByte cs
    → format_goal_id bs ≡ format_goal_id cs
    → bs ≡ cs
format_goal_id-injective bs cs hb hc e = format_from-injective 0 bs cs hb hc e
