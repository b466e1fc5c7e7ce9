-- ===== src/Topics/Reindex.antt =====
-- The index that `destroy_discovered_subscriptions` rebuilds is exact.
use mathlib.Core.Option.{some-injective}
use rosetta_recorder_cpp.Prelude.{
  ℕ, zero, suc, ◌+◌, ◌<◌, ◌≡◌, ◌≢◌, refl, sym, ap, subst, ◌∙◌, ◌⊎◌, inl, inr, Text, text_eq,
  text_eq_iff, Option, none, some, List, [], ◌∷◌, length, get_elem?, arith, Bool-cases,
}
use rosetta_recorder_cpp.Topics.{TopicState, Topics, assign}
use rosetta_recorder_cpp.Topics.Discovery.{
  erase_discovered, rebuild_index, destroy_discovered_subscriptions,
}
use rosetta_recorder_cpp.Topics.Indexed.{IsIndexed}
use rosetta_recorder_cpp.Topics.Survivors.{keep, erase_discovered-eq-keep}

-- No entry of `ts` has the name.
abbrev pub Absent : Text → List TopicState → Type 0
Absent name [] = Unit {0}
Absent name (t ∷ ts) = (t.spec.topic ≢ name) × Absent name ts

abbrev pub Distinct : List TopicState → Type 0
Distinct [] = Unit {0}
Distinct (t ∷ ts) = Absent t.spec.topic ts × Distinct ts

module _ (index : Text → Option ℕ) where
  Positions : ℕ → List TopicState → Type 0
  Positions k ts =
      (i : ℕ) (t : TopicState) → get_elem? ts i ≡ some t → index t.spec.topic ≡ some (k + i)

  Positions-tail :
      (k : ℕ) (x : TopicState) (xs : List TopicState) → Positions k (x ∷ xs) → Positions (suc k) xs
  unfolding Positions
  Positions-tail k x xs p i t h = p (suc i) t h ∙ ap some (omega arith)

  Positions-Absent :
      (name : Text) (j k : ℕ) (xs : List TopicState)
      → index name ≡ some j
      → j < k
      → Positions k xs
      → Absent name xs
  unfolding Positions
  Positions-Absent name j k [] e lt p = tt
  Positions-Absent name j k (x ∷ xs) e lt p = (
    λ same. later (p 0 x refl) (subst (λ m. index m ≡ some j) (sym same) e),
    Positions-Absent name j (suc k) xs e (omega arith) (Positions-tail k x xs p),
  )
    where
      later : {a : Text} → index a ≡ some (k + 0) → index a ≡ some j → ⊥
      later u v = ground arith

  Positions-Distinct : (k : ℕ) (xs : List TopicState) → Positions k xs → Distinct xs
  unfolding Positions
  Positions-Distinct k [] p = tt
  Positions-Distinct k (x ∷ xs) p = (
    Positions-Absent x.spec.topic k (suc k) xs (first p) (omega arith) (Positions-tail k x xs p),
    Positions-Distinct (suc k) xs (Positions-tail k x xs p),
  )
    where
      first : Positions k (x ∷ xs) → index x.spec.topic ≡ some k
      first q = q 0 x refl ∙ ap some (omega arith)

pub IsIndexed-Distinct : (ts : Topics) → IsIndexed ts → Distinct ts.topics
unfolding Positions
IsIndexed-Distinct ts v =
    Positions-Distinct ts.topic_index 0 ts.topics (λ i t h. v.finds i t h ∙ ap some (omega arith))

keep-Absent : (name : Text) (ts : List TopicState) → Absent name ts → Absent name (keep ts)
keep-Absent name [] a = tt
keep-Absent name (t ∷ ts) a = ground (arith, keep-Absent name ts a.1, a.0)

keep-Distinct : (ts : List TopicState) → Distinct ts → Distinct (keep ts)
keep-Distinct [] d = tt
keep-Distinct (t ∷ ts) d = ground (arith, keep-Distinct ts d.1, keep-Absent t.spec.topic ts d.0)

rebuild_index-Absent :
    (k : ℕ) (xs : List TopicState) (index : Text → Option ℕ) (name : Text)
    → Absent name xs
    → rebuild_index k xs index name ≡ index name
unfolding rebuild_index
rebuild_index-Absent k [] index name a = refl
rebuild_index-Absent k (t ∷ ts) index name a =
    rebuild_index-Absent (suc k) ts (assign index t.spec.topic k) name a.1
    ∙ ground (arith, text_eq_iff t.spec.topic name, a.0)

rebuild_index-finds :
    (k : ℕ) (xs : List TopicState) (index : Text → Option ℕ) (j : ℕ) (t : TopicState)
    → Distinct xs
    → get_elem? xs j ≡ some t
    → rebuild_index k xs index t.spec.topic ≡ some (k + j)
unfolding rebuild_index
rebuild_index-finds k [] index j t d h = cc
rebuild_index-finds k (x ∷ xs) index zero t d h =
    subst (λ u. rebuild_index (suc k) xs (assign index x.spec.topic k) u.spec.topic ≡ some (k + 0))
      (some-injective _ _ h)
      (rebuild_index-Absent (suc k) xs (assign index x.spec.topic k) x.spec.topic d.0
        ∙ ground (arith, text_eq_iff x.spec.topic x.spec.topic))
rebuild_index-finds k (x ∷ xs) index (suc j) t d h =
    rebuild_index-finds (suc k) xs (assign index x.spec.topic k) j t d.1 h ∙ ap some (omega arith)

rebuild_index-found :
    (k : ℕ) (xs : List TopicState) (index : Text → Option ℕ) (name : Text) (n : ℕ)
    → rebuild_index k xs index name ≡ some n
    → (index name ≡ some n)
      ⊎ ((j : ℕ) × (t : TopicState) × (get_elem? xs j ≡ some t)
          × (t.spec.topic ≡ name)
          × (n ≡ k + j))
unfolding rebuild_index
rebuild_index-found k [] index name n h = inl h
rebuild_index-found k (x ∷ xs) index name n h =
    elim (rebuild_index-found (suc k) xs (assign index x.spec.topic k) name n h) [
      | inr (j, t, at, named, e) ↦ inr (suc j, t, at, named, omega arith)
      | inl e ↦ elim (Bool-cases (text_eq x.spec.topic name)) [
        | inl same ↦
            inr (zero, x, refl, (text_eq_iff x.spec.topic name).0 same, ground (arith, same, e))
        | inr other ↦ inl (ground (arith, other, e))
      ]
    ]

-- Of a table whose index is exact, the discovered topics are removed and no other, the order of
-- the rest stays, and the rebuilt index is exact again.
pub destroy-IsIndexed :
    (ts : Topics)
    → IsIndexed ts
    → ((destroy_discovered_subscriptions ts).topics ≡ keep ts.topics)
      × IsIndexed (destroy_discovered_subscriptions ts)
unfolding destroy_discovered_subscriptions
destroy-IsIndexed ts v = (
  erase_discovered-eq-keep ts.topics,
  record {
    finds = λ i t h. rebuild_index-finds 0 _ (λ _. none) i t distinct h ∙ ap some (omega arith);
    found = λ name i h. elim (rebuild_index-found 0 _ (λ _. none) name i h) [
      | inl never ↦ cc
      | inr (j, t, at, named, e) ↦
          let position : j ≡ i = omega arith in
          (
            t,
            subst (λ k. get_elem? (erase_discovered (length ts.topics) ts.topics) k ≡ some t)
                position at,
            named,
          )
    ];
  },
)
  where
    distinct : Distinct (erase_discovered (length ts.topics) ts.topics)
    distinct =
        rw (erase_discovered-eq-keep ts.topics) (keep-Distinct ts.topics (IsIndexed-Distinct ts v))
