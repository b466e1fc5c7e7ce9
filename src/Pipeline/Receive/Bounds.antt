-- ===== src/Pipeline/Receive/Bounds.antt =====
-- The writer queue is bounded, and its byte count is exact.
use rosetta_recorder_cpp.Prelude.{
  ℕ, ◌+◌, ◌^◌, ◌≤◌, ◌<◌, ◌≡◌, List, [], ◌∷◌, ◌++◌, length, arith, length-append, Bool-cases, inl,
  inr,
}
use rosetta_recorder_cpp.Topics.{SerializedMessage}
use rosetta_recorder_cpp.Pipeline.{
  Pipeline, QueuedMessage, writer_queue_max_messages, writer_queue_max_bytes,
}
use rosetta_recorder_cpp.Pipeline.Receive.{is_full, enqueue, on_message}

abbrev pub total_bytes : List QueuedMessage → ℕ
total_bytes [] = 0
total_bytes (qm ∷ queue) = qm.message.buffer_length + total_bytes queue

pub total_bytes-append :
    (xs ys : List QueuedMessage) → total_bytes (xs ++ ys) ≡ total_bytes xs + total_bytes ys
total_bytes-append [] ys = omega arith
total_bytes-append (x ∷ xs) ys = omega (arith, total_bytes-append xs ys)

-- The queue is within both of its limits, and `queue_bytes_` is what it holds.
pub record IsBounded (p : Pipeline) : Type 0 where
  pub messages : length p.queue ≤ writer_queue_max_messages
  pub exact : p.queue_bytes ≡ total_bytes p.queue
  pub bytes : p.queue_bytes ≤ writer_queue_max_bytes

enqueue-IsBounded :
    (qm : QueuedMessage) (p : Pipeline)
    → qm.message.buffer_length < 2 ^ 63
    → IsBounded p
    → IsBounded (enqueue qm p)
unfolding enqueue
enqueue-IsBounded qm p small v = elim (Bool-cases (is_full qm.message.buffer_length p)) [
  | inl full ↦ simp full (record { messages = v.messages; exact = v.exact; bytes = v.bytes })
  | inr room ↦ simp room (record {
    messages = ground (arith, room, v.messages, length-append p.queue (qm ∷ []));
    exact = ground (arith, room, v.exact, v.bytes, small, total_bytes-append p.queue (qm ∷ []));
    bytes = ground (arith, room);
  })
]

-- Whatever arrives, as long as no message is half the address space long, the queue stays within
-- its limits and its byte count exact.
pub on_message-IsBounded :
    (now index : ℕ) (msg : SerializedMessage) (p : Pipeline)
    → msg.buffer_length < 2 ^ 63
    → IsBounded p
    → IsBounded (on_message now index msg p)
unfolding on_message
on_message-IsBounded now index msg p small v = elim (Bool-cases p.is_recording) [
  | inl on ↦ simp on (enqueue-IsBounded _ p small v)
  | inr off ↦ simp off (record { messages = v.messages; exact = v.exact; bytes = v.bytes })
]
