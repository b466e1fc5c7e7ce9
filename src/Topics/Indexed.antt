-- ===== src/Topics/Indexed.antt =====
-- The topic table and its index agree, after each operation that builds or grows the table.
use rosetta_recorder_cpp.Prelude.{
  ℕ, ◌≡◌, subst, ◌∙◌, inl, inr, Text, text_eq, text_eq_iff, Bool, true, false, none, some, List, [],
  ◌∷◌, ◌++◌, length, get_elem?, arith, get_elem?-lt, get_elem?-append_left, get_elem?-append_last,
  get_elem?-append_cases, Bool-cases, Option-cases,
}
use rosetta_recorder_cpp.Contract.{RecordTopic, RmwPolicies}
use rosetta_recorder_cpp.Topics.{
  TopicState, Topics, no_topics, fresh_topic, assign, push_topic, add_topic, add_topics,
  build_topic_list,
}

-- Each topic is found under its name, at its position, and nothing else is found: so no two
-- entries have one name.
pub record IsIndexed (ts : Topics) : Type 0 where
  pub finds :
      (i : ℕ) (t : TopicState)
      → get_elem? ts.topics i ≡ some t
      → ts.topic_index t.spec.topic ≡ some i
  pub found :
      (name : Text) (i : ℕ)
      → ts.topic_index name ≡ some i
      → (t : TopicState) × (get_elem? ts.topics i ≡ some t) × (t.spec.topic ≡ name)

pub no_topics-IsIndexed : IsIndexed no_topics
no_topics-IsIndexed = record { finds = λ i t h. cc; found = λ name i h. cc }

-- An entry under a new name goes to the end.
pub append-IsIndexed :
    (new : TopicState) (ts : Topics)
    → ts.topic_index new.spec.topic ≡ none
    → IsIndexed ts
    → IsIndexed (record {
      topics = ts.topics ++ new ∷ [];
      topic_index = assign ts.topic_index new.spec.topic (length ts.topics);
    })
append-IsIndexed new ts fresh v = record {
  finds = λ i t h. elim (get_elem?-append_cases ts.topics new i h) [
    | inl old ↦ ground (arith, text_eq_iff new.spec.topic t.spec.topic, v.finds i t old)
    | inr (e, last) ↦ ground (arith, text_eq_iff new.spec.topic t.spec.topic)
  ];
  found = λ name i h. elim (Bool-cases (text_eq new.spec.topic name)) [
    | inl same ↦ (
      new,
      subst (λ k. get_elem? (ts.topics ++ new ∷ []) k ≡ some new) (at_end name i same h)
          (get_elem?-append_last ts.topics new),
      (text_eq_iff new.spec.topic name).0 same,
    )
    | inr other ↦
        let (t, at, named) = v.found name i (before name i other h) in
        (t, get_elem?-append_left ts.topics (new ∷ []) i (get_elem?-lt ts.topics i at) ∙ at, named)
  ];
}
  where
    at_end :
        (name : Text) (i : ℕ)
        → text_eq new.spec.topic name ≡ true
        → assign ts.topic_index new.spec.topic (length ts.topics) name ≡ some i
        → length ts.topics ≡ i
    at_end name i same h = ground (arith, same, h)

    before :
        (name : Text) (i : ℕ)
        → text_eq new.spec.topic name ≡ false
        → assign ts.topic_index new.spec.topic (length ts.topics) name ≡ some i
        → ts.topic_index name ≡ some i
    before name i other h = ground (arith, other, h)

pub push_topic-IsIndexed :
    (d : Bool) (spec : RecordTopic) (ts : Topics)
    → ts.topic_index spec.topic ≡ none
    → IsIndexed ts
    → IsIndexed (push_topic d spec ts)
unfolding push_topic
push_topic-IsIndexed d spec ts fresh v = append-IsIndexed (fresh_topic d spec) ts fresh v

pub add_topic-IsIndexed :
    (spec : RecordTopic) (ts : Topics) → IsIndexed ts → IsIndexed (add_topic spec ts)
unfolding add_topic
add_topic-IsIndexed spec ts v = elim (Option-cases (ts.topic_index spec.topic)) [
  | inl fresh ↦ rw (fresh, add_topic) (push_topic-IsIndexed false spec ts fresh v)
  | inr (i, dup) ↦ rw (dup, add_topic) v
]

pub add_topics-IsIndexed :
    (specs : List RecordTopic) (ts : Topics) → IsIndexed ts → IsIndexed (add_topics specs ts)
unfolding add_topics
add_topics-IsIndexed [] ts v = v
add_topics-IsIndexed (spec ∷ specs) ts v =
    add_topics-IsIndexed specs (add_topic spec ts) (add_topic-IsIndexed spec ts v)

-- Whatever the contract lists, duplicates included, every entry of the table is found under its
-- name at its own position, and so no name stands in the table twice.
pub build_topic_list-IsIndexed :
    (rmw : RmwPolicies) (sim : Bool) (specs : List RecordTopic)
    → IsIndexed (build_topic_list rmw sim specs)
unfolding build_topic_list
build_topic_list-IsIndexed rmw sim specs = elim (Bool-cases sim) [
  | inl e ↦ rw e (add_topic-IsIndexed _ _ built)
  | inr e ↦ rw e built
]
  where
    built : IsIndexed (add_topics specs no_topics)
    built = add_topics-IsIndexed specs no_topics no_topics-IsIndexed
