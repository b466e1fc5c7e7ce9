-- ===== src/Topics/Exact/Built.antt =====
-- The table that `on_configure` builds and subscribes is exact, with topics of the contract only.
use rosetta_recorder_cpp.Prelude.{
  ℕ, zero, suc, ◌≡◌, refl, sym, ap, subst, ◌∙◌, Bool, true, false, some, Option-cases, inl, inr,
  List, [], ◌∷◌, get_elem?, All, All-append,
}
use rosetta_recorder_cpp.Contract.{RecordTopic, RmwPolicies}
use rosetta_recorder_cpp.Topics.Tidy.{IsTidy, IsTidy-empty, IsTidy-kept, get-All, All-positions}
use rosetta_recorder_cpp.Topics.{
  TopicState, Topics, no_topics, fresh_topic, push_topic, add_topic, add_topics, clock_topic,
  build_topic_list, subscribe, subscribe_all,
}
use rosetta_recorder_cpp.Topics.Indexed.{build_topic_list-IsIndexed}
use rosetta_recorder_cpp.Topics.Subscribed.{subscribe_all-from, subscribe_all-IsIndexed}
use rosetta_recorder_cpp.Topics.Episode.{IsFromContract}
use rosetta_recorder_cpp.Topics.Exact.{Ordered, IsExact}

-- What holds of a fresh topic of the contract holds of every topic of a new table.
module _ (P : TopicState → Type 0) (fresh : (spec : RecordTopic) → P (fresh_topic false spec)) where
  push_topic-All :
      (spec : RecordTopic) (ts : Topics) → All P ts.topics → All P (push_topic false spec ts).topics
  unfolding push_topic
  push_topic-All spec ts a = All-append P ts.topics (fresh_topic false spec ∷ []) a (fresh spec, tt)

  add_topic-All :
      (spec : RecordTopic) (ts : Topics) → All P ts.topics → All P (add_topic spec ts).topics
  unfolding add_topic
  add_topic-All spec ts a = elim (Option-cases (ts.topic_index spec.topic)) [
    | inl none_yet ↦ rw (add_topic, none_yet) (push_topic-All spec ts a)
    | inr (i, dup) ↦ rw (add_topic, dup) a
  ]

  add_topics-All :
      (specs : List RecordTopic) (ts : Topics)
      → All P ts.topics
      → All P (add_topics specs ts).topics
  unfolding add_topics
  add_topics-All [] ts a = a
  add_topics-All (spec ∷ specs) ts a =
      add_topics-All specs (add_topic spec ts) (add_topic-All spec ts a)

  build_topic_list-All :
      (rmw : RmwPolicies) (sim : Bool) (specs : List RecordTopic)
      → All P (build_topic_list rmw sim specs).topics
  unfolding build_topic_list
  build_topic_list-All rmw true specs =
      add_topic-All (clock_topic rmw) _ (add_topics-All specs no_topics tt)
  build_topic_list-All rmw false specs = add_topics-All specs no_topics tt

  -- The same of a topic of the table once it is subscribed.
  subscribed_from :
      (rmw : RmwPolicies) (sim : Bool) (specs : List RecordTopic) (i : ℕ) (t : TopicState)
      → get_elem? (subscribe_all (build_topic_list rmw sim specs)).topics i ≡ some t
      → (old : TopicState) × P old × (subscribe i old ≡ t)
  subscribed_from rmw sim specs i t at =
      let built = build_topic_list rmw sim specs in
      let (old, e, made) = subscribe_all-from built i t at in
      (old, get-All P built.topics i (build_topic_list-All rmw sim specs) e, made)

own_positions-Ordered :
    (ts : List TopicState)
    → ((i : ℕ) (t : TopicState) → get_elem? ts i ≡ some t → t.discovered ≡ false)
    → Ordered ts
own_positions-Ordered [] h = tt
own_positions-Ordered (t ∷ ts) h =
    (λ d. cc (h zero t refl, d), own_positions-Ordered ts (λ i u at. h (suc i) u at))

pub subscribe_all-IsExact :
    (rmw : RmwPolicies) (sim : Bool) (specs : List RecordTopic)
    → IsExact (subscribe_all (build_topic_list rmw sim specs))
unfolding subscribe
subscribe_all-IsExact rmw sim specs =
    let built = build_topic_list rmw sim specs in
    record {
      indexed = subscribe_all-IsIndexed built (build_topic_list-IsIndexed rmw sim specs);
      placed = λ i t at. let (old, e, made) = subscribe_all-from built i t at in cc made;
      ordered = own_positions-Ordered _ (λ i t at.
          let (old, own, made) =
            subscribed_from IsFromContract (λ spec. refl) rmw sim specs i t at in
          ap (λ (u : TopicState). u.discovered) (sym made) ∙ own);
      tidy = All-positions IsTidy _ (λ i t at.
          let (old, h, made) =
            subscribed_from IsTidy (λ spec. IsTidy-empty (fresh_topic false spec) refl) rmw sim
              specs i t at in
          subst IsTidy made (IsTidy-kept old (subscribe i old) refl refl h));
    }
