-- ===== src/Prelude/Decimal.antt =====
-- Decimal numerals: they can be read back, and a newline ends them.
use Prim.Native.Nat.{ℕ, zero, suc, ◌+◌, ◌-◌, ◌*◌, ◌/◌, ◌%◌, ◌≤◌, ◌<◌}
use mathlib.Core.Path.{◌≡◌, refl, sym, ap, subst, ◌∙◌}
use mathlib.Core.Logic.{◌≢◌, inl, inr}
use mathlib.Core.List.{[], ◌∷◌, ◌++◌}
use native.Mathlib.Omega.{arith}
use rosetta_recorder_cpp.Prelude.Tests.{ltb, Bool-cases}
use rosetta_recorder_cpp.Prelude.Int.{ℤ, pos, negsuc}
use rosetta_recorder_cpp.Prelude.Lists.{All, All-append}
use rosetta_recorder_cpp.Prelude.Texts.{Text, decimal_from, decimal, decimal_int}

-- The number that a text of digits denotes.
abbrev pub value_from : ℕ → Text → ℕ
value_from acc [] = acc
value_from acc (c ∷ s) = value_from (10 * acc + (c - b'0')) s

value_from-append :
    (acc c : ℕ) (s : Text) → value_from acc (s ++ c ∷ []) ≡ 10 * value_from acc s + (c - b'0')
value_from-append acc c [] = refl
value_from-append acc c (d ∷ s) = value_from-append (10 * acc + (d - b'0')) c s

value_from-decimal_from : (fuel n : ℕ) → n < fuel → value_from 0 (decimal_from fuel n) ≡ n
unfolding decimal_from
value_from-decimal_from zero n h = absurd (omega arith)
value_from-decimal_from (suc fuel) n h = elim (Bool-cases (ltb n 10)) [
  | inl small ↦ rw small (omega arith)
  | inr large ↦
      rw (large, value_from-append 0 (b'0' + n % 10) (decimal_from fuel (n / 10)))
        (omega (arith, value_from-decimal_from fuel (n / 10) (ground (arith, large))))
]

pub value_from-decimal : (n : ℕ) → value_from 0 (decimal n) ≡ n
unfolding decimal
value_from-decimal n = value_from-decimal_from (suc n) n (omega arith)

abbrev pub IsDigit : ℕ → Type 0
IsDigit c = (b'0' ≤ c) × (c ≤ b'9')

decimal_from-IsDigit : (fuel n : ℕ) → All IsDigit (decimal_from fuel n)
unfolding decimal_from
decimal_from-IsDigit zero n = tt
decimal_from-IsDigit (suc fuel) n = elim (Bool-cases (ltb n 10)) [
  | inl small ↦ rw small (ground (arith, small))
  | inr large ↦ rw large (
      All-append IsDigit (decimal_from fuel (n / 10)) ((b'0' + n % 10) ∷ [])
        (decimal_from-IsDigit fuel (n / 10)) (omega arith))
]

pub decimal-IsDigit : (n : ℕ) → All IsDigit (decimal n)
unfolding decimal
decimal-IsDigit n = decimal_from-IsDigit (suc n) n

-- A byte that no numeral has.
abbrev pub Differs : ℕ → ℕ → Type 0
Differs end c = c ≢ end

pub All-weaken : {P Q : ℕ → Type 0} (s : Text) → ((c : ℕ) → P c → Q c) → All P s → All Q s
All-weaken [] f h = tt
All-weaken (c ∷ s) f h = (f c h.0, All-weaken s f h.1)

decimal_int-ends : (z : ℤ) → All (Differs 10) (decimal_int z)
unfolding decimal_int
decimal_int-ends (pos n) = All-weaken (decimal n) (λ c h. omega arith) (decimal-IsDigit n)
decimal_int-ends (negsuc n) =
    (omega arith, All-weaken (decimal (suc n)) (λ c h. omega arith) (decimal-IsDigit (suc n)))

no_sign : (m : ℕ) (s : Text) → decimal m ≢ b'-' ∷ s
no_sign m s h = let digits = subst (All IsDigit) h (decimal-IsDigit m) in omega arith

decimal_int-injective : (y z : ℤ) → decimal_int y ≡ decimal_int z → y ≡ z
unfolding decimal_int
decimal_int-injective (pos m) (pos n) h =
    ap pos (sym (value_from-decimal m) ∙ ap (value_from 0) h ∙ value_from-decimal n)
decimal_int-injective (negsuc m) (negsuc n) h =
    ground (arith, value_from-decimal (suc m), value_from-decimal (suc n), h)
decimal_int-injective (pos m) (negsuc n) h = absurd (no_sign m (decimal (suc n)) h)
decimal_int-injective (negsuc m) (pos n) h = absurd (no_sign n (decimal (suc m)) (sym h))

-- Two texts that the same byte ends are equal if what they begin is.
pub split_at :
    (end : ℕ) (s t r u : Text)
    → All (Differs end) s
    → All (Differs end) t
    → s ++ end ∷ r ≡ t ++ end ∷ u
    → (s ≡ t) × (r ≡ u)
split_at end [] [] r u hs ht h = (refl, ground arith)
split_at end [] (d ∷ t) r u hs ht h = absurd (ground arith)
split_at end (c ∷ s) [] r u hs ht h = absurd (ground arith)
split_at end (c ∷ s) (d ∷ t) r u hs ht h = ground (arith, split_at end s t r u hs.1 ht.1)

pub append_cancel : (l s t : Text) → l ++ s ≡ l ++ t → s ≡ t
append_cancel [] s t h = h
append_cancel (c ∷ l) s t h = append_cancel l s t (ground arith)

-- `os << label << z << "\n" << rest`
unfoldable pub entry : Text → ℤ → Text → Text
entry label z rest = label ++ (decimal_int z ++ 10 ∷ rest)

-- An entry shows its number, and what follows it.
pub entry-injective :
    (label : Text) (y z : ℤ) (r u : Text) → entry label y r ≡ entry label z u → (y ≡ z) × (r ≡ u)
unfolding entry
entry-injective label y z r u h =
    let parts =
      split_at 10 (decimal_int y) (decimal_int z) r u (decimal_int-ends y) (decimal_int-ends z)
        (append_cancel label _ _ h) in
    (decimal_int-injective y z parts.0, parts.1)
