-- ===== src/Topics/Listed.antt =====
-- What `build_topic_list` takes from the contract's topics: the first spec of each name.
use mathlib.Core.List.{append-nil, append_assoc}
use rosetta_recorder_cpp.Prelude.{
  ℕ, ◌≡◌, refl, sym, ap, subst, ◌∙◌, ◌||◌, inl, inr, Text, text_eq, text_eq_iff, Bool, true, false,
  Option, none, some, List, [], ◌∷◌, ◌++◌, get_elem?, if◌then◌else◌, arith, get_elem?-lt,
  get_elem?-append_left, get_elem?-append_last, Bool-cases, Option-cases,
}
use rosetta_recorder_cpp.Contract.{RecordTopic, RmwPolicies}
use rosetta_recorder_cpp.Topics.{
  TopicState, Topics, no_topics, push_topic, add_topic, add_topics, clock_topic, build_topic_list,
}
use rosetta_recorder_cpp.Topics.Indexed.{IsIndexed, no_topics-IsIndexed, add_topic-IsIndexed}

abbrev pub spec_part : Option TopicState → Option RecordTopic
spec_part none = none
spec_part (some t) = some t.spec

-- The spec that the table has for a name.
abbrev pub spec_at : List TopicState → Option ℕ → Option RecordTopic
spec_at ts none = none
spec_at ts (some i) = spec_part (get_elem? ts i)

abbrev pub spec_of : Topics → Text → Option RecordTopic
spec_of ts name = spec_at ts.topics (ts.topic_index name)

-- The first of the listed specs that has a name.
abbrev pub first_named : Text → List RecordTopic → Option RecordTopic
first_named name [] = none
first_named name (spec ∷ specs) =
    if text_eq spec.topic name then some spec else first_named name specs

abbrev pub or_else : Option RecordTopic → Option RecordTopic → Option RecordTopic
or_else none b = b
or_else (some a) b = some a

spec_of-push_topic :
    (spec : RecordTopic) (ts : Topics) (name : Text)
    → ts.topic_index spec.topic ≡ none
    → IsIndexed ts
    → spec_of (push_topic false spec ts) name
      ≡ (if text_eq spec.topic name then some spec else spec_of ts name)
unfolding push_topic
spec_of-push_topic spec ts name fresh v = elim (Bool-cases (text_eq spec.topic name)) [
  | inl same ↦ rw (same, get_elem?-append_last ts.topics _)
  | inr other ↦ rw other (elim (Option-cases (ts.topic_index name)) [
    | inl e ↦ rw e
    | inr (i, e) ↦
        let (t, at, named) = v.found name i e in
        rw (e, get_elem?-append_left ts.topics _ i (get_elem?-lt ts.topics i at))
  ])
]

spec_of-none : (ts : Topics) (name : Text) → ts.topic_index name ≡ none → spec_of ts name ≡ none
spec_of-none ts name h = rw h

spec_of-some :
    (ts : Topics) (name : Text) {i : ℕ}
    → ts.topic_index name ≡ some i
    → IsIndexed ts
    → (spec : RecordTopic) × (spec_of ts name ≡ some spec)
spec_of-some ts name {i} h v = let (t, at, named) = v.found name i h in (t.spec, rw (h, at))

spec_of-add_topic :
    (spec : RecordTopic) (ts : Topics) (name : Text)
    → IsIndexed ts
    → spec_of (add_topic spec ts) name
      ≡ or_else (spec_of ts name) (if text_eq spec.topic name then some spec else none)
unfolding add_topic
spec_of-add_topic spec ts name v = elim (Option-cases (ts.topic_index spec.topic)) [
  | inl fresh ↦
      rw (fresh, add_topic)
        (spec_of-push_topic spec ts name fresh v ∙ elim (Bool-cases (text_eq spec.topic name)) [
          | inl same ↦ rw (
            same,
            spec_of-none ts name
                (subst (λ k. ts.topic_index k ≡ none) ((text_eq_iff spec.topic name).0 same) fresh),
          )
          | inr other ↦ rw other (or_none (spec_of ts name))
        ])
  | inr (i, dup) ↦
      rw (dup, add_topic)
        (elim (Bool-cases (text_eq spec.topic name)) [
          | inl same ↦
              let (old, e) =
                spec_of-some ts name
                  (subst (λ k. ts.topic_index k ≡ some i) ((text_eq_iff spec.topic name).0 same)
                    dup)
                  v in
              rw e
          | inr other ↦ rw other (or_none (spec_of ts name))
        ])
]
  where
    or_none : (o : Option RecordTopic) → o ≡ or_else o none
    or_none none = refl
    or_none (some a) = refl

spec_of-add_topics :
    (specs : List RecordTopic) (ts : Topics) (name : Text)
    → IsIndexed ts
    → spec_of (add_topics specs ts) name ≡ or_else (spec_of ts name) (first_named name specs)
unfolding add_topics
spec_of-add_topics [] ts name v = ground arith
spec_of-add_topics (spec ∷ specs) ts name v =
    spec_of-add_topics specs (add_topic spec ts) name (add_topic-IsIndexed spec ts v)
    ∙ rw (spec_of-add_topic spec ts name v) (regroup (spec_of ts name) (text_eq spec.topic name))
  where
    regroup :
        (o : Option RecordTopic) (b : Bool)
        → or_else (or_else o (if b then some spec else none)) (first_named name specs)
          ≡ or_else o (if b then some spec else first_named name specs)
    regroup o b = ground arith

-- Whether one of the listed specs has a name.
abbrev listed : Text → List RecordTopic → Bool
listed name [] = false
listed name (spec ∷ specs) = text_eq spec.topic name || listed name specs

-- The listed specs but for those whose name an earlier one has, or one of `earlier`.
abbrev pub distinct : (earlier : List RecordTopic) → List RecordTopic → List RecordTopic
distinct earlier [] = []
distinct earlier (spec ∷ specs) =
    let rest = distinct (spec ∷ earlier) specs in
    if listed spec.topic earlier then rest else spec ∷ rest

abbrev pub specs_of : List TopicState → List RecordTopic
specs_of [] = []
specs_of (t ∷ ts) = t.spec ∷ specs_of ts

specs_of-append : (ts us : List TopicState) → specs_of (ts ++ us) ≡ specs_of ts ++ specs_of us
specs_of-append [] us = refl
specs_of-append (t ∷ ts) us = ap (λ xs. t.spec ∷ xs) (specs_of-append ts us)

-- The index knows the names of these specs, and no other.
abbrev Knows : Topics → List RecordTopic → Type 0
Knows ts earlier =
    ((name : Text) → ts.topic_index name ≡ none → listed name earlier ≡ false)
    × ((name : Text) → listed name earlier ≡ false → ts.topic_index name ≡ none)

add_topic-Knows :
    (spec : RecordTopic) (ts : Topics) (earlier : List RecordTopic)
    → Knows ts earlier
    → Knows (add_topic spec ts) (spec ∷ earlier)
unfolding add_topic push_topic
add_topic-Knows spec ts earlier (fresh, free) = elim (Option-cases (ts.topic_index spec.topic)) [
  | inl e ↦
      rw (e, add_topic)
        (λ name h. ground (arith, h, fresh name), λ name h. ground (arith, h, free name))
  | inr (i, e) ↦
      rw (e, add_topic)
        (
          λ name h. ground (arith, h, e, fresh name, text_eq_iff spec.topic name),
          λ name h. ground (arith, h, free name),
        )
]

specs_of-add_topic :
    (spec : RecordTopic) (ts : Topics) (earlier rest : List RecordTopic)
    → Knows ts earlier
    → specs_of (add_topic spec ts).topics ++ rest
      ≡ specs_of ts.topics ++ (if listed spec.topic earlier then rest else spec ∷ rest)
unfolding add_topic push_topic
specs_of-add_topic spec ts earlier rest (fresh, free) =
    elim (Option-cases (ts.topic_index spec.topic)) [
      | inl e ↦
          rw (e, add_topic, fresh spec.topic e, specs_of-append ts.topics _)
            (append_assoc (specs_of ts.topics) (spec ∷ []) rest)
      | inr (i, e) ↦ elim (Bool-cases (listed spec.topic earlier)) [
        | inl old ↦ rw (e, add_topic, old)
        | inr new ↦ cc (free spec.topic new, e)
      ]
    ]

specs_of-add_topics :
    (specs : List RecordTopic) (ts : Topics) (earlier : List RecordTopic)
    → Knows ts earlier
    → specs_of (add_topics specs ts).topics ≡ specs_of ts.topics ++ distinct earlier specs
unfolding add_topics
specs_of-add_topics [] ts earlier k = sym (append-nil _)
specs_of-add_topics (spec ∷ specs) ts earlier k =
    specs_of-add_topics specs (add_topic spec ts) (spec ∷ earlier)
      (add_topic-Knows spec ts earlier k)
    ∙ specs_of-add_topic spec ts earlier (distinct (spec ∷ earlier) specs) k

add_topics-append :
    (xs ys : List RecordTopic) (ts : Topics)
    → add_topics (xs ++ ys) ts ≡ add_topics ys (add_topics xs ts)
unfolding add_topics
add_topics-append [] ys ts = refl
add_topics-append (x ∷ xs) ys ts = add_topics-append xs ys (add_topic x ts)

-- The simulated clock's topic is added like one more topic of the contract.
build_topic_list-add_topics :
    (rmw : RmwPolicies) (sim : Bool) (specs : List RecordTopic)
    → build_topic_list rmw sim specs
      ≡ add_topics (specs ++ (if sim then clock_topic rmw ∷ [] else [])) no_topics
unfolding build_topic_list add_topics
build_topic_list-add_topics rmw true specs = sym (add_topics-append specs (clock_topic rmw ∷ []) _)
build_topic_list-add_topics rmw false specs = rw (append-nil specs)

-- The table has the specs of the contract's topics, and on simulated time the node's own one of
-- `/clock` after them, in their order and each once: a spec whose name an earlier one has is
-- dropped. So under each name stands the first spec that is listed under it, and nothing if none is.
pub build_topic_list-first :
    (rmw : RmwPolicies) (sim : Bool) (specs : List RecordTopic)
    → let all = specs ++ (if sim then clock_topic rmw ∷ [] else []) in
      (specs_of (build_topic_list rmw sim specs).topics ≡ distinct [] all)
      × ((name : Text) → spec_of (build_topic_list rmw sim specs) name ≡ first_named name all)
build_topic_list-first rmw sim specs = rw (build_topic_list-add_topics rmw sim specs) (
  specs_of-add_topics _ no_topics [] (λ name h. refl, λ name h. refl),
  λ name. spec_of-add_topics _ no_topics name no_topics-IsIndexed,
)
