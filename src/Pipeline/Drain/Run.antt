-- ===== src/Pipeline/Drain/Run.antt =====
-- src/episode_recorder_node.cpp: `writer_thread_main` by itself, as a run of the step relation, and
-- what it leaves alone.
use rosetta_recorder_cpp.Prelude.{
  ℕ, zero, suc, ◌+◌, ◌≡◌, refl, ◌∙◌, Bool, not, ◌&&◌, some, List, [], ◌∷◌, get_elem?, is_empty,
  arith, Bool-cases, Option-cases, inl, inr,
}
use rosetta_recorder_cpp.Topics.{TopicState}
use rosetta_recorder_cpp.Pipeline.{Pipeline, QueuedMessage, Bag, Storage}
use rosetta_recorder_cpp.Pipeline.Drain.{
  to_bag, Thread, waiting, holding, written, exited, Machine, take_batch, write_queued, write_next,
  write_batch, acknowledge, can_wake, step_at, run_thread, wake, write, reply, Reach, next,
}
use rosetta_recorder_cpp.Pipeline.Drain.Contents.{write_next-none}
use rosetta_recorder_cpp.Pipeline.Drain.Fifo.{write_next-skip}

-- What the writer thread does not write.
pub record Spares (p q : Pipeline) : Type 0 where
  pub is_recording : q.is_recording ≡ p.is_recording
  pub running : q.writer_thread_running ≡ p.writer_thread_running
  pub closed : q.closed ≡ p.closed

-- What it leaves alone between two of its looks at the queue.
pub record Apart (p q : Pipeline) : Type 0 where
  pub spares : Spares p q
  pub queue : q.queue ≡ p.queue
  pub bytes : q.queue_bytes ≡ p.queue_bytes
  pub requested : q.flush_requested ≡ p.flush_requested
  pub done : q.flush_done ≡ p.flush_done

pub Spares-refl : (p : Pipeline) → Spares p p
Spares-refl p = record { is_recording = refl; running = refl; closed = refl }

pub Spares-trans : {p q r : Pipeline} → Spares p q → Spares q r → Spares p r
Spares-trans a b = record {
  is_recording = b.is_recording ∙ a.is_recording;
  running = b.running ∙ a.running;
  closed = b.closed ∙ a.closed;
}

Apart-refl : (p : Pipeline) → Apart p p
Apart-refl p = record {
  spares = Spares-refl p;
  queue = refl;
  bytes = refl;
  requested = refl;
  done = refl;
}

Apart-trans : {p q r : Pipeline} → Apart p q → Apart q r → Apart p r
Apart-trans a b = record {
  spares = Spares-trans a.spares b.spares;
  queue = b.queue ∙ a.queue;
  bytes = b.bytes ∙ a.bytes;
  requested = b.requested ∙ a.requested;
  done = b.done ∙ a.done;
}

write_queued-Apart :
    (S : Storage) (bag : Bag) (st : TopicState) (qm : QueuedMessage) (p : Pipeline)
    → Apart p (write_queued S bag st qm p)
unfolding write_queued
write_queued-Apart S bag st qm p =
    elim (Option-cases (S.write_error bag (to_bag st.spec.topic qm))) [
      | inl e ↦
          rw (e, write_queued)
            (record {
              spares = record { is_recording = refl; running = refl; closed = refl };
              queue = refl;
              bytes = refl;
              requested = refl;
              done = refl;
            })
      | inr (what, e) ↦
          rw (e, write_queued)
            (record {
              spares = record { is_recording = refl; running = refl; closed = refl };
              queue = refl;
              bytes = refl;
              requested = refl;
              done = refl;
            })
    ]

pub write_next-queued :
    (S : Storage) (qm : QueuedMessage) (p : Pipeline) (bag : Bag) (st : TopicState)
    → p.writer ≡ some bag
    → get_elem? p.table.topics qm.topic_index ≡ some st
    → write_next S qm p ≡ write_queued S bag st qm p
unfolding write_next
write_next-queued S qm p bag st w e = ground arith

write_next-Apart : (S : Storage) (qm : QueuedMessage) (p : Pipeline) → Apart p (write_next S qm p)
write_next-Apart S qm p = elim (Option-cases p.writer) [
  | inl e ↦ rw (write_next-none S qm p e) (Apart-refl p)
  | inr (bag, e) ↦ elim (Option-cases (get_elem? p.table.topics qm.topic_index)) [
    | inl absent ↦ rw (write_next-skip S qm p absent) (Apart-refl p)
    | inr (st, found) ↦
        rw (write_next-queued S qm p bag st e found) (write_queued-Apart S bag st qm p)
  ]
]

pub write_batch-Apart :
    (S : Storage) (batch : List QueuedMessage) (p : Pipeline) → Apart p (write_batch S batch p)
unfolding write_batch
write_batch-Apart S [] p = Apart-refl p
write_batch-Apart S (qm ∷ batch) p =
    Apart-trans (write_next-Apart S qm p) (write_batch-Apart S batch (write_next S qm p))

pub take_batch-Spares : (p : Pipeline) → Spares p (take_batch p).pipe
unfolding take_batch
take_batch-Spares p = elim (Bool-cases (not p.writer_thread_running && is_empty p.queue)) [
  | inl e ↦ simp e (Spares-refl p)
  | inr e ↦ simp e (record { is_recording = refl; running = refl; closed = refl })
]

pub acknowledge-Spares : (flushing : Bool) (p : Pipeline) → Spares p (acknowledge flushing p)
unfolding acknowledge
acknowledge-Spares flushing p = elim (Bool-cases (flushing && is_empty p.queue)) [
  | inl e ↦ simp e (record { is_recording = refl; running = refl; closed = refl })
  | inr e ↦ simp e (Spares-refl p)
]

step_at-Spares : (S : Storage) (p : Pipeline) (t : Thread) → Spares p (step_at S p t).pipe
unfolding step_at
step_at-Spares S p waiting = elim (Bool-cases (can_wake p)) [
  | inl e ↦ simp e (take_batch-Spares p)
  | inr e ↦ simp e (Spares-refl p)
]
step_at-Spares S p (holding batch flushing) = (write_batch-Apart S batch p).spares
step_at-Spares S p (written flushing) = acknowledge-Spares flushing p
step_at-Spares S p exited = Spares-refl p

pub run_thread-Spares :
    (rounds : ℕ) (S : Storage) (m : Machine) → Spares m.pipe (run_thread rounds S m).pipe
unfolding run_thread
run_thread-Spares zero S m = Spares-refl m.pipe
run_thread-Spares (suc rounds) S m =
    Spares-trans (step_at-Spares S m.pipe m.thread)
      (run_thread-Spares rounds S (step_at S m.pipe m.thread))

-- A step of the thread is one of the step relation, or none.
step_at-Reach :
    (S : Storage) (start : Machine) (p : Pipeline) (t : Thread)
    → Reach S start (record { pipe = p; thread = t })
    → Reach S start (step_at S p t)
unfolding step_at
step_at-Reach S start p waiting r = elim (Bool-cases (can_wake p)) [
  | inl e ↦ simp e (next r (wake _ refl e))
  | inr e ↦ simp e r
]
step_at-Reach S start p (holding batch flushing) r = next r (write _ batch flushing refl)
step_at-Reach S start p (written flushing) r = next r (reply _ flushing refl)
step_at-Reach S start p exited r = r

pub run_thread-Reach :
    (rounds : ℕ) (S : Storage) (start m : Machine)
    → Reach S start m
    → Reach S start (run_thread rounds S m)
unfolding run_thread
run_thread-Reach zero S start m r = r
run_thread-Reach (suc rounds) S start m r =
    run_thread-Reach rounds S start (step_at S m.pipe m.thread)
      (step_at-Reach S start m.pipe m.thread r)

pub run_thread_add :
    (a b c : ℕ) (S : Storage) (m : Machine)
    → a + b ≡ c
    → run_thread c S m ≡ run_thread b S (run_thread a S m)
unfolding run_thread
run_thread_add zero b c S m e = let e' : b ≡ c = omega arith in rw (← e')
run_thread_add (suc a) b zero S m e = absurd (omega arith)
run_thread_add (suc a) b (suc c) S m e =
    run_thread_add a b c S (step_at S m.pipe m.thread) (omega arith)
