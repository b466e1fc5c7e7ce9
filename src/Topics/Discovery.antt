-- ===== src/Topics/Discovery.antt =====
-- src/episode_recorder_node.cpp: `discover_topics` and `destroy_discovered_subscriptions`.
use rosetta_recorder_cpp.Prelude.{
  ℕ, zero, suc, ℤ, Text, Bool, true, false, not, ◌&&◌, Option, none, some, List, [], ◌∷◌, length,
  get_elem?, if◌then◌else◌, to_signed,
}
use rosetta_recorder_cpp.Contract.{QosSpec, default_qos, RecordTopic, no_buffer}
use rosetta_recorder_cpp.Topics.{TopicState, Topics, assign, push_topic, create_subscription_for}

-- What `qos_profile()` of a publisher says; durations are unsigned 64-bit.
pub record PublisherQos : Type 0 where
  pub depth : ℕ
  pub is_reliable : Bool
  pub is_keep_all : Bool
  pub is_transient_local : Bool
  pub liveliness : ℤ
  pub deadline_sec : ℕ
  pub deadline_nsec : ℕ
  pub lifespan_sec : ℕ
  pub lifespan_nsec : ℕ
  pub lease_sec : ℕ
  pub lease_nsec : ℕ

-- What the node sees of the graph, and its two compiled patterns. `matches` of a pattern is
-- `std::regex_search`.
pub record Graph : Type 0 where
  pub names_and_types : List (Text × List Text)
  pub publishers : Text → List PublisherQos
  pub include_regex : Option (Text → Bool)
  pub exclude_regex : Option (Text → Bool)

abbrev pub matches : Option (Text → Bool) → Text → Bool
matches none name = false
matches (some search) name = search name

-- The whole profile of the publisher, narrowed to the fields' types.
unfoldable pub qos_of_publisher : PublisherQos → QosSpec
qos_of_publisher p = record {
  depth = to_signed 32 p.depth;
  reliable = p.is_reliable;
  keep_last = not p.is_keep_all;
  transient_local = p.is_transient_local;
  liveliness = p.liveliness;
  match_publisher_profile = true;
  deadline_sec = to_signed 64 p.deadline_sec;
  deadline_nsec = to_signed 64 p.deadline_nsec;
  lifespan_sec = to_signed 64 p.lifespan_sec;
  lifespan_nsec = to_signed 64 p.lifespan_nsec;
  liveliness_lease_sec = to_signed 64 p.lease_sec;
  liveliness_lease_nsec = to_signed 64 p.lease_nsec;
}

abbrev pub first_qos : List PublisherQos → QosSpec
first_qos [] = default_qos
first_qos (p ∷ ps) = qos_of_publisher p

abbrev pub is_known : Topics → Text → Bool
is_known ts name = elim (ts.topic_index name) [ none ↦ false | some i ↦ true ]

-- The `continue`s of the first loop: known, untyped, and excluded but not included.
unfoldable pub wanted : Graph → Topics → Text → List Text → Option RecordTopic
wanted g ts name [] = none
wanted g ts name (type ∷ types) =
    if is_known ts name
    then none
    else if not (matches g.include_regex name) && matches g.exclude_regex name
    then none
    else some (record {
      topic = name;
      type = type;
      qos = first_qos (g.publishers name);
      strategy = no_buffer;
    })

unfoldable pub find_wanted : Graph → Topics → List (Text × List Text) → List RecordTopic
find_wanted g ts [] = []
find_wanted g ts ((name, types) ∷ rest) = elim (wanted g ts name types) [
  | none ↦ find_wanted g ts rest
  | some t ↦ t ∷ find_wanted g ts rest
]

-- The second loop: each topic that is still unknown is added and subscribed to.
unfoldable pub add_discovered : RecordTopic → Topics → Topics
add_discovered t ts =
    if is_known ts t.topic
    then ts
    else create_subscription_for (length ts.topics) (push_topic true t ts)

unfoldable pub add_all_discovered : List RecordTopic → Topics → Topics
add_all_discovered [] ts = ts
add_all_discovered (t ∷ found) ts = add_all_discovered found (add_discovered t ts)

unfoldable pub discover_topics : Graph → Topics → Topics
discover_topics g ts = add_all_discovered (find_wanted g ts g.names_and_types) ts

-- `topics_.erase(topics_.begin() + i)`
abbrev pub erase_at : ℕ → List TopicState → List TopicState
erase_at i [] = []
erase_at zero (t ∷ ts) = ts
erase_at (suc i) (t ∷ ts) = t ∷ erase_at i ts

-- The body of the loop, at `topics_[i]`.
abbrev pub erase_if_discovered : ℕ → List TopicState → Option TopicState → List TopicState
erase_if_discovered i ts none = ts
erase_if_discovered i ts (some st) = if st.discovered then erase_at i ts else ts

-- `for (size_t i = topics_.size(); i-- > 0; )`, from the back. The entries that it erases from the
-- index are rebuilt below.
unfoldable pub erase_discovered : ℕ → List TopicState → List TopicState
erase_discovered zero ts = ts
erase_discovered (suc i) ts = erase_discovered i (erase_if_discovered i ts (get_elem? ts i))

-- `for (i = 0; i < topics_.size(); ++i) topic_index_[topics_[i]->spec.topic] = i;`
unfoldable pub rebuild_index : ℕ → List TopicState → (Text → Option ℕ) → Text → Option ℕ
rebuild_index i [] index = index
rebuild_index i (t ∷ ts) index = rebuild_index (suc i) ts (assign index t.spec.topic i)

unfoldable pub destroy_discovered_subscriptions : Topics → Topics
destroy_discovered_subscriptions ts =
    let kept = erase_discovered (length ts.topics) ts.topics in
    record { topics = kept; topic_index = rebuild_index 0 kept (λ _. none) }
