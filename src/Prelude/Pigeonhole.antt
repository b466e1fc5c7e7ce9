-- ===== src/Prelude/Pigeonhole.antt =====
-- A list does not hold all values of an injective sequence.
use Prim.Native.Nat.{ℕ, suc, ◌≤◌}
use mathlib.Core.Path.{◌≡◌, sym, ◌∙◌}
use mathlib.Core.Logic.{◌≢◌, ◌⊎◌, inl, inr}
use mathlib.Core.List.{List, [], ◌∷◌}
use native.Mathlib.Omega.{arith}
use rosetta_recorder_cpp.Prelude.Tests.{ltb, if◌then◌else◌}
use rosetta_recorder_cpp.Prelude.Lists.{length, All}

-- `k`, with `n` left out.
abbrev skip : ℕ → ℕ → ℕ
skip n k = if ltb k n then k else suc k

skip-injective : (n j k : ℕ) → skip n j ≡ skip n k → j ≡ k
skip-injective n j k e = ground arith

skip-ne : (n k : ℕ) → skip n k ≢ n
skip-ne n k e = ground arith

skip-le : (n k : ℕ) → skip n k ≤ suc k
skip-le n k = ground arith

module _ {A : Type 0} (same_or_not : (a b : A) → (a ≡ b) ⊎ (a ≢ b)) where
  abbrev pub Injective : (ℕ → A) → Type 0
  Injective f = (j k : ℕ) → f j ≡ f k → j ≡ k

  abbrev pub Absent : A → List A → Type 0
  Absent a = All (λ b. a ≢ b)

  -- Among the first `length xs + 1` values there is one that the list does not hold.
  pub pigeonhole :
      (xs : List A) (f : ℕ → A) → Injective f → (n : ℕ) × (n ≤ length xs) × Absent (f n) xs
  pigeonhole [] f inj = (0, omega arith, tt)
  pigeonhole (x ∷ xs) f inj =
      let (n, bound, absent) = pigeonhole xs f inj in
      elim (same_or_not (f n) x) [
        | inr other ↦ (n, omega arith, (other, absent))
        | inl hit ↦
            let (m, bound', absent') =
              pigeonhole xs (λ k. f (skip n k)) (λ j k e. skip-injective n j k (inj _ _ e)) in
            (
              skip n m,
              omega (arith, skip-le n m),
              ((λ e. skip-ne n m (inj _ _ (e ∙ sym hit))), absent'),
            )
      ]
