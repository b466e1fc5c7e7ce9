-- ===== src/Pipeline/Receive.antt =====
-- src/episode_recorder_node.cpp: `on_message`.
pub mod Retention
pub mod Bounds
use rosetta_recorder_cpp.Prelude.{
  ℕ, suc, ◌+◌, ◌%◌, ◌^◌, Bool, true, false, not, ◌&&◌, ◌||◌, Option, none, some, List, [], ◌∷◌,
  ◌++◌, length, get_elem?, set, ltb, leb, if◌then◌else◌, to_unsigned,
}
use rosetta_recorder_cpp.Contract.Sections.{is_buffering}
use rosetta_recorder_cpp.Topics.{SerializedMessage, BufferedMessage, TopicState, Topics}
use rosetta_recorder_cpp.Pipeline.{
  Pipeline, QueuedMessage, max_buffer_bytes, writer_queue_max_messages, writer_queue_max_bytes,
  increment,
}

-- `while (buffer.size() > depth) buffer.pop_front();`
unfoldable pub trim : ℕ → List BufferedMessage → List BufferedMessage
trim depth [] = []
trim depth (b ∷ bs) =
    let rest = trim depth bs in if ltb depth (suc (length bs)) then rest else b ∷ bs

-- A message that arrives while nothing is recorded: only a latched, buffering topic keeps it.
unfoldable pub retain : ℕ → SerializedMessage → TopicState → TopicState
retain now msg st =
    if not st.spec.qos.transient_local || not (is_buffering st.spec.strategy)
    then st
    else if ltb max_buffer_bytes msg.buffer_length
    then st
    else record st {
      buffer =
          trim (to_unsigned 64 st.spec.qos.depth)
            (st.buffer ++ record { message = msg; timestamp_ns = now } ∷ []);
    }

unfoldable pub retain_at : ℕ → ℕ → SerializedMessage → List TopicState → List TopicState
retain_at now index msg topics = elim (get_elem? topics index) [
  | none ↦ topics
  | some st ↦ set topics index (retain now msg st)
]

-- The writer queue has no room for `nbytes` more.
abbrev pub is_full : ℕ → Pipeline → Bool
is_full nbytes p =
    leb writer_queue_max_messages (length p.queue)
    || ltb writer_queue_max_bytes ((p.queue_bytes + nbytes) % 2 ^ 64)

unfoldable pub enqueue : QueuedMessage → Pipeline → Pipeline
enqueue qm p =
    if is_full qm.message.buffer_length p
    then record p { messages_dropped = increment p.messages_dropped }
    else record p {
      queue = p.queue ++ qm ∷ [];
      queue_bytes = (p.queue_bytes + qm.message.buffer_length) % 2 ^ 64;
    }

-- `now` is the node clock's reading at the call.
unfoldable pub on_message : ℕ → ℕ → SerializedMessage → Pipeline → Pipeline
on_message now topic_index msg p =
    if not p.is_recording
    then record p {
      table = record p.table { topics = retain_at now topic_index msg p.table.topics };
    }
    else enqueue (record { message = msg; timestamp_ns = now; topic_index = topic_index }) p
