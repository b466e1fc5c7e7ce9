-- ===== src/Prelude/Outcomes.antt =====
-- Code that may throw: a value, or the exception.
use mathlib.Core.Path.{◌≡◌, refl, subst}
use mathlib.Core.Logic.{◌⊎◌, inl, inr}
use mathlib.Core.Bool.{Bool, true, false}
use rosetta_recorder_cpp.Prelude.Tests.{if◌then◌else◌}

pub data Outcome {ℓ} (E : Type 0) (A : Type ℓ) : Type ℓ where
  ok : A → Outcome E A
  throw : E → Outcome E A

infixl 5 ◌>>=◌ ◌>>◌
unfoldable pub ◌>>=◌ {ℓ κ} :
    {E : Type 0} {A : Type ℓ} {B : Type κ} → Outcome E A → (A → Outcome E B) → Outcome E B
ok a >>= f = f a
throw e >>= f = throw e

abbrev pub ◌>>◌ {ℓ} : {E : Type 0} {B : Type ℓ} → Outcome E (Unit {0}) → Outcome E B → Outcome E B
m >> k = m >>= λ _. k

-- `if (test) throw e;`
unfoldable pub throw_if : {E : Type 0} → Bool → E → Outcome E (Unit {0})
throw_if true e = throw e
throw_if false e = ok tt

module _ {ℓ κ} {E : Type 0} {A : Type ℓ} {B : Type κ} where
  -- A bind that succeeds is a success of both parts.
  pub >>=-eq-ok :
      (m : Outcome E A) (f : A → Outcome E B) {b : B}
      → (m >>= f) ≡ ok b
      → (a : A) × (m ≡ ok a) × (f a ≡ ok b)
  unfolding ◌>>=◌
  >>=-eq-ok (ok a) f h = (a, refl, h)
  >>=-eq-ok (throw e) f h = cc

  pub ok-bind : (a : A) (f : A → Outcome E B) → (ok a >>= f) ≡ f a
  unfolding ◌>>=◌
  ok-bind a f = refl

  pub throw-bind : (e : E) (f : A → Outcome E B) → (throw e >>= f) ≡ throw e
  unfolding ◌>>=◌
  throw-bind e f = refl

pub throw_if-eq-ok :
    {E : Type 0} (b : Bool) (e : E) {u : Unit {0}} → throw_if b e ≡ ok u → b ≡ false
unfolding throw_if
throw_if-eq-ok true e h = cc
throw_if-eq-ok false e h = refl

pub throw_if-bind {κ} :
    {E : Type 0} {B : Type κ} (b : Bool) (e : E) (k : Outcome E B)
    → (throw_if b e >> k) ≡ (if b then throw e else k)
unfolding throw_if ◌>>=◌
throw_if-bind true e k = refl
throw_if-bind false e k = refl

pub Outcome-cases {ℓ} :
    {E : Type 0} {A : Type ℓ} (m : Outcome E A) → ((a : A) × (m ≡ ok a)) ⊎ ((e : E) × (m ≡ throw e))
Outcome-cases (ok a) = inl (a, refl)
Outcome-cases (throw e) = inr (e, refl)

module _ {ℓ κ} {E : Type 0} {A : Type ℓ} where
  abbrev Holds : (A → Type κ) → (E → Type κ) → Outcome E A → Type κ
  Holds P X (ok a) = P a
  Holds P X (throw e) = X e

  -- What a result satisfies: `P` of the value, or `X` of the exception.
  pub record Post (P : A → Type κ) (X : E → Type κ) (m : Outcome E A) : Type κ where
    at : Holds P X m

module _ {ℓ κ} {E : Type 0} {A : Type ℓ} {P : A → Type κ} {X : E → Type κ} where
  pub Post-ok : (a : A) → P a → Post P X (ok a)
  Post-ok a h = record { at = h }

  pub Post-throw : (e : E) → X e → Post P X (throw e)
  Post-throw e h = record { at = h }

  pub Post-weaken {ρ} :
      {Q : A → Type ρ} {Y : E → Type ρ} {m : Outcome E A}
      → Post P X m
      → ((a : A) → P a → Q a)
      → ((e : E) → X e → Y e)
      → Post Q Y m
  Post-weaken {m = ok a} h f g = record { at = f a h.at }
  Post-weaken {m = throw e} h f g = record { at = g e h.at }

  pub Post-eq-ok : {m : Outcome E A} {a : A} → Post P X m → m ≡ ok a → P a
  Post-eq-ok {m = ok b} {a} h e = subst P (cc) h.at
  Post-eq-ok {m = throw x} h e = cc

  pub Post-eq-throw : {m : Outcome E A} {x : E} → Post P X m → m ≡ throw x → X x
  Post-eq-throw {m = ok b} h e = cc
  Post-eq-throw {m = throw y} {x} h e = subst X (cc) h.at

  pub Post-if :
      (b : Bool) (m n : Outcome E A)
      → (b ≡ true → Post P X m)
      → (b ≡ false → Post P X n)
      → Post P X (if b then m else n)
  Post-if true m n hm hn = hm refl
  Post-if false m n hm hn = hn refl

module _ {κ} {E : Type 0} {A : Type κ} {P : A → Type κ} {X : E → Type κ} where
  -- The value comes with the equation that it was returned.
  pub Post-eq : {m : Outcome E A} → Post P X m → Post (λ a. m ≡ ok a) X m
  Post-eq {m = ok a} h = record { at = refl }
  Post-eq {m = throw e} h = record { at = h.at }

pub Post-tt {κ} :
    {E : Type 0} {A : Type κ} {X : E → Type κ} (m : Outcome E A)
    → ((e : E) → X e)
    → Post (λ _. Unit {κ}) X m
Post-tt (ok a) h = record { at = tt }
Post-tt (throw e) h = record { at = h e }

module _ {ℓ κ ρ} {E : Type 0} {A : Type ℓ} {B : Type κ} {P : A → Type ρ} {Q : B → Type ρ}
    {X : E → Type ρ} where
  pub Post-bind :
      {m : Outcome E A} {f : A → Outcome E B}
      → Post P X m
      → ((a : A) → P a → Post Q X (f a))
      → Post Q X (m >>= f)
  unfolding ◌>>=◌
  Post-bind {m = ok a} h k = k a h.at
  Post-bind {m = throw e} h k = record { at = h.at }

module _ {κ ρ} {E : Type 0} {B : Type κ} {Q : B → Type ρ} {X : E → Type ρ} where
  pub Post-throw_if :
      (b : Bool) (e : E) (k : Outcome E B)
      → X e
      → (b ≡ false → Post Q X k)
      → Post Q X (throw_if b e >> k)
  unfolding ◌>>=◌ throw_if
  Post-throw_if true e k h l = record { at = h }
  Post-throw_if false e k h l = l refl
