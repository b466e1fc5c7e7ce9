-- ===== src/Topics/Shapes.antt =====
-- What of the topic table a callback may not change while the table stands: specs, subscriptions and
-- where each topic came from; and that what is retained stays within its bounds.
use rosetta_recorder_cpp.Prelude.{
  ℕ, zero, suc, ◌≡◌, refl, ap, ◌∙◌, Bool, Option, some, List, [], ◌∷◌, get_elem?, set, sym, subst,
  All,
}
use rosetta_recorder_cpp.Contract.{RecordTopic}
use rosetta_recorder_cpp.Topics.Tidy.{IsTidy}
use rosetta_recorder_cpp.Topics.{Subscription, TopicState, Topics}

pub record Shape : Type 0 where
  pub spec : RecordTopic
  pub sub : Option Subscription
  pub discovered : Bool

abbrev pub shape : TopicState → Shape
shape t = record { spec = t.spec; sub = t.sub; discovered = t.discovered }

abbrev pub shapes : List TopicState → List Shape
shapes [] = []
shapes (t ∷ ts) = shape t ∷ shapes ts

pub record SameShape (old new : Topics) : Type 0 where
  pub same_shapes : shapes new.topics ≡ shapes old.topics
  pub same_index : new.topic_index ≡ old.topic_index
  pub tidy : All IsTidy old.topics → All IsTidy new.topics

pub SameShape-refl : (ts : Topics) → SameShape ts ts
SameShape-refl ts = record { same_shapes = refl; same_index = refl; tidy = λ h. h }

pub SameShape-eq : {old new : Topics} → new ≡ old → SameShape old new
SameShape-eq e = record {
  same_shapes = ap (λ (t : Topics). shapes t.topics) e;
  same_index = ap (λ (t : Topics). t.topic_index) e;
  tidy = subst (λ (t : Topics). All IsTidy t.topics) (sym e);
}

pub SameShape-trans : {a b c : Topics} → SameShape a b → SameShape b c → SameShape a c
SameShape-trans f g = record {
  same_shapes = g.same_shapes ∙ f.same_shapes;
  same_index = g.same_index ∙ f.same_index;
  tidy = λ h. g.tidy (f.tidy h);
}

pub SameShape-topics :
    (ts : Topics) (new : List TopicState)
    → shapes new ≡ shapes ts.topics
    → (All IsTidy ts.topics → All IsTidy new)
    → SameShape ts (record ts { topics = new })
SameShape-topics ts new e t = record { same_shapes = e; same_index = refl; tidy = t }

-- The entry at a position, in a table of the same shapes.
pub shapes-at :
    (xs ys : List TopicState) (i : ℕ) (t : TopicState)
    → shapes ys ≡ shapes xs
    → get_elem? ys i ≡ some t
    → (u : TopicState) × (get_elem? xs i ≡ some u) × (shape t ≡ shape u)
shapes-at [] [] i t e at = cc
shapes-at [] (y ∷ ys) i t e at = cc
shapes-at (x ∷ xs) [] i t e at = cc
shapes-at (x ∷ xs) (y ∷ ys) zero t e at = (x, refl, cc)
shapes-at (x ∷ xs) (y ∷ ys) (suc i) t e at = shapes-at xs ys i t (cc) at

pub shapes-set :
    (xs : List TopicState) (i : ℕ) (old new : TopicState)
    → get_elem? xs i ≡ some old
    → shape new ≡ shape old
    → shapes (set xs i new) ≡ shapes xs
shapes-set [] i old new at e = refl
shapes-set (x ∷ xs) zero old new at e = cc
shapes-set (x ∷ xs) (suc i) old new at e = ap (◌∷◌ (shape x)) (shapes-set xs i old new at e)

pub set-set : (xs : List TopicState) (i : ℕ) (a b : TopicState) → set (set xs i a) i b ≡ set xs i b
set-set [] i a b = refl
set-set (x ∷ xs) zero a b = refl
set-set (x ∷ xs) (suc i) a b = ap (◌∷◌ x) (set-set xs i a b)
