-- ===== src/Topics/Tidy.antt =====
-- What a topic may retain.
use mathlib.Core.Option.{some-injective}
use rosetta_recorder_cpp.Prelude.{
  ℕ, zero, suc, ◌≤◌, ◌≡◌, refl, sym, subst, true, false, some, List, [], ◌∷◌, length, get_elem?,
  set, to_unsigned, All, arith, is_empty,
}
use rosetta_recorder_cpp.Contract.Sections.{is_buffering}
use rosetta_recorder_cpp.Topics.{TopicState}

abbrev pub depth_of : TopicState → ℕ
depth_of st = to_unsigned 64 st.spec.qos.depth

-- Not more than its depth, and something only if it is latched and buffers.
pub record IsTidy (t : TopicState) : Type 0 where
  pub fits : length t.buffer ≤ depth_of t
  pub latched :
      is_empty t.buffer ≡ false
      → (t.spec.qos.transient_local ≡ true) × (is_buffering t.spec.strategy ≡ true)

pub IsTidy-same : (t u : TopicState) → u ≡ t → IsTidy t → IsTidy u
IsTidy-same t u e h = subst IsTidy (sym e) h

-- The other members do not matter.
pub IsTidy-kept : (t u : TopicState) → u.spec ≡ t.spec → u.buffer ≡ t.buffer → IsTidy t → IsTidy u
IsTidy-kept t u s b h = record { fits = rw (s, b) h.fits; latched = rw (s, b) h.latched }

pub IsTidy-empty : (t : TopicState) → t.buffer ≡ [] → IsTidy t
IsTidy-empty t e = record { fits = rw e (omega arith); latched = λ held. cc (e, held) }

pub set-All :
    (P : TopicState → Type 0) (xs : List TopicState) (i : ℕ) (x : TopicState)
    → All P xs
    → P x
    → All P (set xs i x)
set-All P [] i x a p = tt
set-All P (y ∷ ys) zero x a p = (p, a.1)
set-All P (y ∷ ys) (suc i) x a p = (a.0, set-All P ys i x a.1 p)

pub get-All :
    (P : TopicState → Type 0) (xs : List TopicState) (i : ℕ) {x : TopicState}
    → All P xs
    → get_elem? xs i ≡ some x
    → P x
get-All P [] i a h = cc
get-All P (y ∷ ys) zero a h = subst P (some-injective _ _ h) a.0
get-All P (y ∷ ys) (suc i) a h = get-All P ys i a.1 h

pub All-positions :
    (P : TopicState → Type 0) (xs : List TopicState)
    → ((i : ℕ) (x : TopicState) → get_elem? xs i ≡ some x → P x)
    → All P xs
All-positions P [] h = tt
All-positions P (x ∷ xs) h = (h zero x refl, All-positions P xs (λ i y at. h (suc i) y at))
