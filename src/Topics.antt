-- ===== src/Topics.antt =====
-- include/rosetta_recorder_cpp/episode_recorder_node.hpp, the topics of the node, and the part of
-- src/episode_recorder_node.cpp under "Topics" that builds the table. `Discovery` has the topics of
-- record_all.
pub mod Discovery
pub mod Indexed
pub mod Listed
pub mod Survivors
pub mod Reindex
pub mod Episode
pub mod Subscribed
pub mod Tidy
pub mod Shapes
pub mod Exact
use rosetta_recorder_cpp.Prelude.{
  ℕ, zero, suc, Text, codes, text_eq, Bool, true, false, Option, none, some, List, [], ◌∷◌, ◌++◌,
  length, get_elem?, set, if◌then◌else◌,
}
use rosetta_recorder_cpp.Contract.{QosSpec, default_qos, RecordTopic, no_buffer, RmwPolicies}

-- `rclcpp::SerializedMessage`: the bytes, and the length that its C structure states.
pub record SerializedMessage : Type 0 where
  pub contents : List ℕ
  pub buffer_length : ℕ

pub record BufferedMessage : Type 0 where
  pub message : SerializedMessage
  pub timestamp_ns : ℕ

-- A live subscription: what it asked for, and the index that its callback captured.
pub record Subscription : Type 0 where
  pub topic_name : Text
  pub topic_type : Text
  pub requested : QosSpec
  pub captured : ℕ

pub record TopicState : Type 0 where
  pub spec : RecordTopic
  pub sub : Option Subscription
  pub buffer : List BufferedMessage
  pub written : ℕ
  pub discovered : Bool

-- `topics_` and `topic_index_`.
pub record Topics : Type 0 where
  pub topics : List TopicState
  pub topic_index : Text → Option ℕ

abbrev pub no_topics : Topics
no_topics = record { topics = []; topic_index = λ _. none }

-- `topic_index_[key] = i`
abbrev pub assign : (Text → Option ℕ) → Text → ℕ → Text → Option ℕ
assign index key i name = if text_eq key name then some i else index name

-- `std::make_unique<TopicState>()` with its spec and its flag.
abbrev pub fresh_topic : Bool → RecordTopic → TopicState
fresh_topic discovered spec = record {
  spec = spec;
  sub = none;
  buffer = [];
  written = 0;
  discovered = discovered;
}

-- A fresh entry for `spec`, and the index that points to it.
unfoldable pub push_topic : Bool → RecordTopic → Topics → Topics
push_topic discovered spec ts = record {
  topics = ts.topics ++ fresh_topic discovered spec ∷ [];
  topic_index = assign ts.topic_index spec.topic (length ts.topics);
}

-- The λ `add` of `build_topic_list`: a duplicate is dropped.
unfoldable pub add_topic : RecordTopic → Topics → Topics
add_topic spec ts = elim (ts.topic_index spec.topic) [
  | none ↦ push_topic false spec ts
  | some i ↦ ts
]

unfoldable pub add_topics : List RecordTopic → Topics → Topics
add_topics [] ts = ts
add_topics (spec ∷ specs) ts = add_topics specs (add_topic spec ts)

abbrev pub clock_topic : RmwPolicies → RecordTopic
clock_topic rmw = record {
  topic = codes "/clock";
  type = codes "rosgraph_msgs/msg/Clock";
  qos = record default_qos { liveliness = rmw.liveliness_automatic };
  strategy = no_buffer;
}

-- `specs` are the topics of the contract.
unfoldable pub build_topic_list : RmwPolicies → Bool → List RecordTopic → Topics
build_topic_list rmw use_sim_time specs =
    let ts = add_topics specs no_topics in
    if use_sim_time then add_topic (clock_topic rmw) ts else ts

unfoldable pub subscribe : ℕ → TopicState → TopicState
subscribe index st = record st {
  sub = some (record {
    topic_name = st.spec.topic;
    topic_type = st.spec.type;
    requested = st.spec.qos;
    captured = index;
  });
}

-- `index` is below `topics_.size()` at every call.
unfoldable pub create_subscription_for : ℕ → Topics → Topics
unfolding subscribe
create_subscription_for index ts = elim (get_elem? ts.topics index) [
  | none ↦ ts
  | some st ↦ record ts { topics = set ts.topics index (subscribe index st) }
]

-- The loop of `on_configure`: `for (i = 0; i < topics_.size(); ++i) create_subscription_for(i);`
unfoldable pub subscribe_from : ℕ → ℕ → Topics → Topics
subscribe_from zero i ts = ts
subscribe_from (suc rounds) i ts = subscribe_from rounds (suc i) (create_subscription_for i ts)

unfoldable pub subscribe_all : Topics → Topics
subscribe_all ts = subscribe_from (length ts.topics) 0 ts
