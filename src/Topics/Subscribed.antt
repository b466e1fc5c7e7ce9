-- ===== src/Topics/Subscribed.antt =====
-- The loop of `on_configure` that subscribes: each topic's callback captures the topic's position.
use mathlib.Core.Option.{some-injective}
use rosetta_recorder_cpp.Prelude.{
  ℕ, zero, suc, ◌+◌, ◌≤◌, ◌<◌, ◌≡◌, ◌≢◌, ◌⊎◌, refl, sym, ap, subst, ◌∙◌, some, List, [], ◌∷◌,
  length, get_elem?, set, get_elem?-set_self, get_elem?-lt, get_elem?-some, length-set, arith,
  Option-cases, inl, inr,
}
use rosetta_recorder_cpp.Topics.{
  Subscription, TopicState, Topics, subscribe, create_subscription_for, subscribe_from,
  subscribe_all,
}
use rosetta_recorder_cpp.Topics.Indexed.{IsIndexed}

get_elem?-set_other :
    (xs : List TopicState) (i j : ℕ) (v : TopicState)
    → j ≢ i
    → get_elem? (set xs i v) j ≡ get_elem? xs j
get_elem?-set_other [] i j v apart = refl
get_elem?-set_other (x ∷ xs) zero zero v apart = absurd (apart refl)
get_elem?-set_other (x ∷ xs) zero (suc j) v apart = refl
get_elem?-set_other (x ∷ xs) (suc i) zero v apart = refl
get_elem?-set_other (x ∷ xs) (suc i) (suc j) v apart =
    get_elem?-set_other xs i j v (λ e. apart (ap suc e))

-- The topic has a subscription to itself, whose callback captured the position `i`.
pub record IsSubscribed (i : ℕ) (st : TopicState) : Type 0 where
  pub sub : Subscription
  pub present : st.sub ≡ some sub
  pub captured : sub.captured ≡ i
  pub topic_name : sub.topic_name ≡ st.spec.topic
  pub topic_type : sub.topic_type ≡ st.spec.type

subscribe-IsSubscribed : (i : ℕ) (st : TopicState) → IsSubscribed i (subscribe i st)
unfolding subscribe
subscribe-IsSubscribed i st = record {
  sub = _;
  present = refl;
  captured = refl;
  topic_name = refl;
  topic_type = refl;
}

create_subscription_for-topics :
    (i : ℕ) (ts : Topics) (st : TopicState)
    → get_elem? ts.topics i ≡ some st
    → (create_subscription_for i ts).topics ≡ set ts.topics i (subscribe i st)
unfolding create_subscription_for
create_subscription_for-topics i ts st e = rw (create_subscription_for, e)

create_subscription_for-index :
    (i : ℕ) (ts : Topics) → (create_subscription_for i ts).topic_index ≡ ts.topic_index
unfolding create_subscription_for
create_subscription_for-index i ts = elim (Option-cases (get_elem? ts.topics i)) [
  | inl e ↦ rw (create_subscription_for, e)
  | inr (st, e) ↦ rw (create_subscription_for, e)
]

subscribe_from-index :
    (rounds i : ℕ) (ts : Topics) → (subscribe_from rounds i ts).topic_index ≡ ts.topic_index
unfolding subscribe_from
subscribe_from-index zero i ts = refl
subscribe_from-index (suc rounds) i ts =
    subscribe_from-index rounds (suc i) (create_subscription_for i ts)
    ∙ create_subscription_for-index i ts

-- The position `j` of the table once the loop is past `i`: subscribed below `i`, untouched above.
subscribe_from-length :
    (rounds i : ℕ) (ts : Topics)
    → i + rounds ≡ length ts.topics
    → length (subscribe_from rounds i ts).topics ≡ length ts.topics
unfolding subscribe_from
subscribe_from-length zero i ts bound = refl
subscribe_from-length (suc rounds) i ts bound =
    let (st, e) = get_elem?-some ts.topics i (omega (arith, bound)) in
    let same = ap length (create_subscription_for-topics i ts st e) ∙ length-set ts.topics i _ in
    subscribe_from-length rounds (suc i) (create_subscription_for i ts) (omega (arith, bound, same))
    ∙ same

subscribe_from-before :
    (rounds i : ℕ) (ts : Topics) (j : ℕ)
    → i + rounds ≡ length ts.topics
    → j < i
    → get_elem? (subscribe_from rounds i ts).topics j ≡ get_elem? ts.topics j
unfolding subscribe_from
subscribe_from-before zero i ts j bound lt = refl
subscribe_from-before (suc rounds) i ts j bound lt =
    let (st, e) = get_elem?-some ts.topics i (omega (arith, bound)) in
    let set_i = create_subscription_for-topics i ts st e in
    let same = ap length set_i ∙ length-set ts.topics i _ in
    subscribe_from-before rounds (suc i) (create_subscription_for i ts) j
      (omega (arith, bound, same)) (omega (arith, lt))
    ∙ ap (λ xs. get_elem? xs j) set_i
    ∙ get_elem?-set_other ts.topics i j _ (λ same_place. omega (arith, same_place, lt))

subscribe_from-at :
    (rounds i : ℕ) (ts : Topics) (j : ℕ) (st : TopicState)
    → i + rounds ≡ length ts.topics
    → i ≤ j
    → get_elem? ts.topics j ≡ some st
    → get_elem? (subscribe_from rounds i ts).topics j ≡ some (subscribe j st)
unfolding subscribe_from
subscribe_from-at zero i ts j st bound le at =
    absurd (omega (arith, bound, le, get_elem?-lt ts.topics j at))
subscribe_from-at (suc rounds) i ts j st bound le at =
    let (here, e) = get_elem?-some ts.topics i (omega (arith, bound)) in
    let set_i = create_subscription_for-topics i ts here e in
    let same = ap length set_i ∙ length-set ts.topics i _ in
    elim (≤-cases i j le) [
      | inl past ↦
          subscribe_from-at rounds (suc i) (create_subscription_for i ts) j st
            (omega (arith, bound, same)) past
            (ap (λ xs. get_elem? xs j) set_i
              ∙ get_elem?-set_other ts.topics i j _ (λ same_place. omega (arith, same_place, past))
              ∙ at)
      | inr now ↦
          subst
            (λ k.
              get_elem? (subscribe_from rounds (suc i) (create_subscription_for i ts)).topics k
              ≡ some (subscribe k st))
            now
            (subscribe_from-before rounds (suc i) (create_subscription_for i ts) i
                (omega (arith, bound, same)) (omega arith)
              ∙ ap (λ xs. get_elem? xs i) set_i
              ∙ get_elem?-set_self ts.topics i _ (omega (arith, bound))
              ∙ ap (λ t. some (subscribe i t))
                  (some-injective _ _
                    (sym e ∙ subst (λ k. get_elem? ts.topics k ≡ some st) (sym now) at)))
    ]
  where
    ≤-cases : (a b : ℕ) → a ≤ b → (suc a ≤ b) ⊎ (a ≡ b)
    ≤-cases a b h = omega (arith, h)

-- The loop subscribes every topic of the table, each with its own position in the callback, and
-- changes nothing else of it.
pub subscribe_all-at :
    (ts : Topics) (i : ℕ) (st : TopicState)
    → get_elem? ts.topics i ≡ some st
    → get_elem? (subscribe_all ts).topics i ≡ some (subscribe i st)
unfolding subscribe_all
subscribe_all-at ts i st at =
    subscribe_from-at (length ts.topics) 0 ts i st (omega arith) (omega arith) at

pub subscribe_all-length : (ts : Topics) → length (subscribe_all ts).topics ≡ length ts.topics
unfolding subscribe_all
subscribe_all-length ts = subscribe_from-length (length ts.topics) 0 ts (omega arith)

-- The entry that the loop started from.
pub subscribe_all-from :
    (ts : Topics) (i : ℕ) (new : TopicState)
    → get_elem? (subscribe_all ts).topics i ≡ some new
    → (st : TopicState) × (get_elem? ts.topics i ≡ some st) × (subscribe i st ≡ new)
subscribe_all-from ts i new at =
    let short = get_elem?-lt (subscribe_all ts).topics i at in
    let (st, e) = get_elem?-some ts.topics i (omega (arith, short, subscribe_all-length ts)) in
    (st, e, some-injective _ _ (sym (subscribe_all-at ts i st e) ∙ at))

pub subscribe_all-IsSubscribed :
    (ts : Topics) (i : ℕ) (st : TopicState)
    → get_elem? (subscribe_all ts).topics i ≡ some st
    → IsSubscribed i st
subscribe_all-IsSubscribed ts i st at =
    let (old, e, made) = subscribe_all-from ts i st at in
    subst (IsSubscribed i) made (subscribe-IsSubscribed i old)

pub subscribe_all-IsIndexed : (ts : Topics) → IsIndexed ts → IsIndexed (subscribe_all ts)
unfolding subscribe_all subscribe
subscribe_all-IsIndexed ts v = record {
  finds = λ i new at.
      let (old, e, made) = subscribe_all-from ts i new at in
      ap (λ f. f new.spec.topic) kept
      ∙ ap (λ t. ts.topic_index t.spec.topic) (sym made)
      ∙ v.finds i old e;
  found = λ name i h.
      let (old, e, named) = v.found name i (ap (λ f. f name) (sym kept) ∙ h) in
      (subscribe i old, subscribe_all-at ts i old e, named);
}
  where
    kept : (subscribe_all ts).topic_index ≡ ts.topic_index
    kept = subscribe_from-index (length ts.topics) 0 ts
