-- ===== src/Pipeline/Drain.antt =====
-- src/episode_recorder_node.cpp: `writer_thread_main`, cut where it takes or drops a lock, and the
-- parts of `finish_recording` that run beside it.
pub mod Fifo
pub mod Contents
pub mod Order
pub mod Race
pub mod Log
pub mod Refines
pub mod Bounded
pub mod Failure
pub mod Run
pub mod Flush
pub mod Stop
use Prim.Native.Nat.{min}
use rosetta_recorder_cpp.Prelude.{
  ℕ, zero, suc, ◌+◌, ◌-◌, ◌%◌, ◌^◌, Text, codes, Bool, true, false, not, ◌&&◌, ◌||◌, Option, none,
  some, List, [], ◌∷◌, ◌++◌, length, get_elem?, set, is_empty, if◌then◌else◌, ◌≡◌,
}
use rosetta_recorder_cpp.Topics.{SerializedMessage, TopicState, Topics}
use rosetta_recorder_cpp.Pipeline.{
  Pipeline, QueuedMessage, BagMessage, set_bag_timestamp, Bag, Storage, increment,
}
use rosetta_recorder_cpp.Pipeline.Receive.{on_message}

-- Where the thread stands: in the wait, with a batch out of the queue, after the batch, or gone.
pub data Thread : Type 0 where
  waiting : Thread
  holding : (batch : List QueuedMessage) (flushing : Bool) → Thread
  written : (flushing : Bool) → Thread
  exited : Thread

-- The predicate of `queue_cv_.wait`.
abbrev pub can_wake : Pipeline → Bool
can_wake p = not (is_empty p.queue) || p.flush_requested || not p.writer_thread_running

-- `take` rounds of the loop that moves the front of the queue to the batch.
unfoldable pub drain :
    ℕ → List QueuedMessage → ℕ → List QueuedMessage → List QueuedMessage × ℕ × List QueuedMessage
drain zero queue bytes batch = (queue, bytes, batch)
drain (suc rounds) [] bytes batch = ([], bytes, batch)
drain (suc rounds) (qm ∷ queue) bytes batch =
    drain rounds queue ((bytes + 2 ^ 64 - qm.message.buffer_length) % 2 ^ 64) (batch ++ qm ∷ [])

pub record Machine : Type 0 where
  pub pipe : Pipeline
  pub thread : Thread

-- The section under `queue_mutex_` after the wait.
unfoldable pub take_batch : Pipeline → Machine
take_batch p =
    if not p.writer_thread_running && is_empty p.queue
    then record { pipe = p; thread = exited }
    else let (queue, bytes, batch) = drain (min (length p.queue) 256) p.queue p.queue_bytes [] in
      record {
        pipe = record p { queue = queue; queue_bytes = bytes };
        thread = holding batch (p.flush_requested && is_empty queue);
      }

abbrev pub to_bag : Text → QueuedMessage → BagMessage
to_bag name qm =
    set_bag_timestamp qm.timestamp_ns
      (record { topic_name = name; time_stamp = 0; serialized_data = qm.message })

unfoldable pub count_written : ℕ → List TopicState → List TopicState
count_written index topics = elim (get_elem? topics index) [
  | none ↦ topics
  | some st ↦ set topics index (record st { written = increment st.written })
]

-- The `try` block for one message of the batch, on an open bag.
unfoldable pub write_queued : Storage → Bag → TopicState → QueuedMessage → Pipeline → Pipeline
unfolding count_written
write_queued S bag st qm p = elim (S.write_error bag (to_bag st.spec.topic qm)) [
  | none ↦ record p {
    writer = some (record bag { messages = bag.messages ++ to_bag st.spec.topic qm ∷ [] });
    messages_written = increment p.messages_written;
    table = record p.table { topics = count_written qm.topic_index p.table.topics };
  }
  | some what ↦ record p {
    write_failed = true;
    write_error =
        if p.write_failed
        then p.write_error
        else codes "Write failed on " ++ (st.spec.topic ++ (codes ": " ++ what));
    stop_requested = true;
  }
]

-- An index that is out of range is skipped.
unfoldable pub write_next : Storage → QueuedMessage → Pipeline → Pipeline
write_next S qm p = elim p.writer [
  | none ↦ p
  | some bag ↦ elim (get_elem? p.table.topics qm.topic_index) [
    | none ↦ p
    | some st ↦ write_queued S bag st qm p
  ]
]

-- The section under `writer_mutex_`: without a writer the whole batch is passed over.
unfoldable pub write_batch : Storage → List QueuedMessage → Pipeline → Pipeline
write_batch S [] p = p
write_batch S (qm ∷ batch) p = write_batch S batch (write_next S qm p)

-- `if (flushing) { … if (queue_.empty()) … }`
unfoldable pub acknowledge : Bool → Pipeline → Pipeline
acknowledge flushing p =
    if flushing && is_empty p.queue
    then record p { flush_requested = false; flush_done = true }
    else p

-- The head of `finish_recording`, up to the wait for the flush.
unfoldable pub request_flush : Pipeline → Pipeline
request_flush p =
    if p.writer_thread_running
    then record p { is_recording = false; flush_requested = true; flush_done = false }
    else record p { is_recording = false }

-- The predicate of `flush_cv_.wait_for`.
abbrev pub is_flushed : Pipeline → Bool
is_flushed p = p.flush_done || is_empty p.queue

-- There is no wait without a writer thread.
abbrev pub may_close : Pipeline → Bool
may_close p = is_flushed p || not p.writer_thread_running

-- The wait ran out of its ten seconds: what is still queued is dropped.
abbrev pub abandon : Pipeline → Pipeline
abandon p = record p { queue = []; queue_bytes = 0 }

-- After the wait, and `close_writer` where `close` does not throw.
unfoldable pub close_bag : Pipeline → Pipeline
close_bag p = elim p.writer [
  | none ↦ record p { flush_requested = false }
  | some bag ↦ record p { flush_requested = false; writer = none; closed = p.closed ++ bag ∷ [] }
]

-- What the writer thread does next, by itself: it stays where it is while it may not wake.
unfoldable pub step_at : Storage → Pipeline → Thread → Machine
step_at S p waiting = if can_wake p then take_batch p else record { pipe = p; thread = waiting }
step_at S p (holding batch flushing) = record {
  pipe = write_batch S batch p;
  thread = written flushing;
}
step_at S p (written flushing) = record { pipe = acknowledge flushing p; thread = waiting }
step_at S p exited = record { pipe = p; thread = exited }

-- So many sections of the thread, while the executor waits.
unfoldable pub run_thread : ℕ → Storage → Machine → Machine
run_thread zero S m = m
run_thread (suc rounds) S m = run_thread rounds S (step_at S m.pipe m.thread)

-- `stop_writer_thread`: the executor waits in `join` for so many sections of the thread. A thread
-- that is blocked in its wait gets the notification here; the code, which sets the flag without the
-- lock, may lose it.
unfoldable pub stop_writer_thread : ℕ → Storage → Machine → Machine
stop_writer_thread rounds S m =
    if m.pipe.writer_thread_running
    then run_thread rounds S (record m { pipe = record m.pipe { writer_thread_running = false } })
    else m

-- One step of either thread. Each runs one locked section at a time, so these interleave freely.
pub data Step (S : Storage) : Machine → Machine → Type 0 where
  receive :
      (m : Machine) (now index : ℕ) (msg : SerializedMessage)
      → Step S m (record m { pipe = on_message now index msg m.pipe })
  wake : (m : Machine) → m.thread ≡ waiting → can_wake m.pipe ≡ true → Step S m (take_batch m.pipe)
  write :
      (m : Machine) (batch : List QueuedMessage) (flushing : Bool)
      → m.thread ≡ holding batch flushing
      → Step S m (record { pipe = write_batch S batch m.pipe; thread = written flushing })
  reply :
      (m : Machine) (flushing : Bool)
      → m.thread ≡ written flushing
      → Step S m (record { pipe = acknowledge flushing m.pipe; thread = waiting })
  finish :
      (m : Machine)
      → m.pipe.is_recording ≡ true
      → Step S m (record m { pipe = request_flush m.pipe })
  close :
      (m : Machine)
      → m.pipe.is_recording ≡ false
      → may_close m.pipe ≡ true
      → Step S m (record m { pipe = close_bag m.pipe })
  expire :
      (m : Machine)
      → m.pipe.is_recording ≡ false
      → is_flushed m.pipe ≡ false
      → Step S m (record m { pipe = close_bag (abandon m.pipe) })

pub data Reach (S : Storage) (m : Machine) : Machine → Type 0 where
  here : Reach S m m
  next : {n k : Machine} → Reach S m n → Step S n k → Reach S m k
