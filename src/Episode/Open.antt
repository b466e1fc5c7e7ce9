-- ===== src/Episode/Open.antt =====
-- src/episode_recorder_node.cpp: `prepare_resubscribes` and `open_writer`.
use rosetta_recorder_cpp.Prelude.{
  ℕ, zero, suc, Text, codes, Bool, true, false, Option, none, some, List, [], ◌∷◌, ◌++◌, length,
  get_elem?, set, if◌then◌else◌,
}
use rosetta_recorder_cpp.Contract.{
  BufferingStrategy, no_buffer, accumulate, resubscribe_on_start, RmwPolicies,
}
use rosetta_recorder_cpp.Contract.Qos.{to_offered_qos_yaml}
use rosetta_recorder_cpp.Topics.{BufferedMessage, TopicState, Topics, create_subscription_for}
use rosetta_recorder_cpp.Topics.Discovery.{Graph, discover_topics}
use rosetta_recorder_cpp.Pipeline.{
  Pipeline, BagMessage, set_bag_timestamp, TopicMetadata, Bag, Storage, increment,
}

abbrev pub is_resubscribing : BufferingStrategy → Bool
is_resubscribing no_buffer = false
is_resubscribing accumulate = false
is_resubscribing resubscribe_on_start = true

-- One topic's subscription is recreated, with an empty buffer.
unfoldable pub resubscribe : ℕ → TopicState → Topics → Topics
resubscribe i st ts =
    create_subscription_for i
      (record ts { topics = set ts.topics i (record st { buffer = []; sub = none }) })

-- The loop over `topics_`, in `rounds` rounds from `i` on, with `pending_resubscribed_`.
unfoldable pub resubscribe_from : ℕ → ℕ → Topics → List ℕ → Topics × List ℕ
resubscribe_from zero i ts pending = (ts, pending)
resubscribe_from (suc rounds) i ts pending = elim (get_elem? ts.topics i) [
  | none ↦ (ts, pending)
  | some st ↦
      if is_resubscribing st.spec.strategy
      then resubscribe_from rounds (suc i) (resubscribe i st ts) (pending ++ i ∷ [])
      else resubscribe_from rounds (suc i) ts pending
]

unfoldable pub prepare_resubscribes : Bool → Graph → Topics → Topics × List ℕ
prepare_resubscribes record_all g ts =
    let found = if record_all then discover_topics g ts else ts in
    resubscribe_from (length found.topics) 0 found []

abbrev pub metadata_of : RmwPolicies → TopicState → TopicMetadata
metadata_of rmw st = record {
  name = st.spec.topic;
  type = st.spec.type;
  serialization_format = codes "cdr";
  offered_qos_profiles = to_offered_qos_yaml rmw st.spec.qos;
}

-- The loop that registers the topics: what is left of the topics and the bag, and the text of the
-- exception that ended it, if one did.
unfoldable pub register_topics :
    RmwPolicies → Storage → List TopicState → Bag → List TopicState × Bag × Option Text
register_topics rmw S [] bag = ([], bag, none)
register_topics rmw S (st ∷ sts) bag = elim (S.create_error bag (metadata_of rmw st)) [
  | some what ↦ (st ∷ sts, bag, some what)
  | none ↦
      let (rest, after, error) =
        register_topics rmw S sts (record bag { topics = bag.topics ++ metadata_of rmw st ∷ [] }) in
      (record st { written = 0 } ∷ rest, after, error)
]

-- The flush of retained messages: the bag, `messages_written_`, and the exception.
pub record Flush : Type 0 where
  pub bag : Bag
  pub count : ℕ
  pub error : Option Text

abbrev pub retained : ℕ → Text → BufferedMessage → BagMessage
retained start name bm =
    set_bag_timestamp start
      (record { topic_name = name; time_stamp = 0; serialized_data = bm.message })

-- The messages of one topic, with its `written`.
unfoldable pub flush_buffer : Storage → ℕ → Text → List BufferedMessage → Bag → ℕ → ℕ → ℕ × Flush
flush_buffer S start name [] bag count written =
    (written, record { bag = bag; count = count; error = none })
flush_buffer S start name (bm ∷ bms) bag count written =
    elim (S.write_error bag (retained start name bm)) [
      | some what ↦ (written, record { bag = bag; count = count; error = some what })
      | none ↦
          flush_buffer S start name bms
            (record bag { messages = bag.messages ++ retained start name bm ∷ [] })
            (increment count) (increment written)
    ]

unfoldable pub flush_topics : Storage → ℕ → List TopicState → Bag → ℕ → List TopicState × Flush
flush_topics S start [] bag count = ([], record { bag = bag; count = count; error = none })
flush_topics S start (st ∷ sts) bag count =
    let (written, flushed) = flush_buffer S start st.spec.topic st.buffer bag count st.written in
    let (rest, later) = flush_topics S start sts flushed.bag flushed.count in
    elim flushed.error [
      | some what ↦ (record st { written = written } ∷ sts, flushed)
      | none ↦ (record st { written = written } ∷ rest, later)
    ]

-- The thread is started once; while it runs, its queue is left alone.
unfoldable pub start_thread : Pipeline → Pipeline
start_thread p = if p.writer_thread_running then p else record p {
  queue = [];
  queue_bytes = 0;
  flush_requested = false;
  flush_done = false;
  writer_thread_running = true;
}

-- From the move into `writer_` on.
unfoldable pub flush_retained : Storage → ℕ → Bag → Pipeline → Pipeline × Option Text
flush_retained S start bag p =
    let (topics, flushed) = flush_topics S start p.table.topics bag p.messages_written in
    let q = record p {
      table = record p.table { topics = topics };
      messages_written = flushed.count;
      writer = some flushed.bag;
    } in
    elim flushed.error [ some what ↦ (q, some what) | none ↦ (start_thread q, none) ]

-- After the registration of the topics, which left these topics and this bag, or threw.
unfoldable pub after_registering :
    Storage → ℕ → Pipeline → List TopicState × Bag × Option Text → Pipeline × Option Text
after_registering S start p (topics, bag, none) =
    flush_retained S start bag (record p { table = record p.table { topics = topics } })
after_registering S start p (topics, bag, some what) =
    (record p { table = record p.table { topics = topics } }, some what)

-- With the text of the exception that leaves it, if one does.
unfoldable pub open_writer :
    RmwPolicies → Storage → Text → Text → ℕ → Pipeline → Pipeline × Option Text
open_writer rmw S uri storage_id start p = elim (S.open_error uri storage_id) [
  | some what ↦ (p, some what)
  | none ↦ after_registering S start p (
      register_topics rmw S p.table.topics
        (record { uri = uri; storage_id = storage_id; topics = []; messages = [] }))
]
