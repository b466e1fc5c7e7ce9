-- ===== src/Pipeline/Shapes.antt =====
-- Messages and the writer thread leave the shapes of the topic table alone.
use rosetta_recorder_cpp.Prelude.{
  ℕ, zero, suc, ◌≡◌, refl, false, Bool-cases, Option-cases, inl, inr, List, [], ◌∷◌, get_elem?,
  arith, All,
}
use rosetta_recorder_cpp.Topics.Tidy.{IsTidy, IsTidy-kept, set-All, get-All}
use rosetta_recorder_cpp.Pipeline.Receive.Retention.{retain_at-IsTidy}
use rosetta_recorder_cpp.Topics.{SerializedMessage, TopicState}
use rosetta_recorder_cpp.Topics.Shapes.{
  shape, shapes, SameShape, SameShape-refl, SameShape-eq, SameShape-trans, SameShape-topics,
  shapes-set,
}
use rosetta_recorder_cpp.Pipeline.{Pipeline, QueuedMessage, Bag, Storage}
use rosetta_recorder_cpp.Pipeline.Receive.{is_full, retain, retain_at, enqueue, on_message}
use rosetta_recorder_cpp.Pipeline.Drain.{
  Thread, waiting, holding, written, exited, Machine, can_wake, to_bag, count_written, write_queued,
  write_next, write_batch, step_at, run_thread, stop_writer_thread,
}
use rosetta_recorder_cpp.Pipeline.Drain.Order.{take_batch-table, acknowledge-table}
use rosetta_recorder_cpp.Pipeline.Drain.Contents.{write_next-none}
use rosetta_recorder_cpp.Pipeline.Drain.Fifo.{write_next-skip}
use rosetta_recorder_cpp.Pipeline.Drain.Run.{write_next-queued}

abbrev pub SameTable : Pipeline → Pipeline → Type 0
SameTable p q = SameShape p.table q.table

retain-shape :
    (now : ℕ) (msg : SerializedMessage) (st : TopicState) → shape (retain now msg st) ≡ shape st
unfolding retain
retain-shape now msg st = ground arith

retain_at-shapes :
    (now i : ℕ) (msg : SerializedMessage) (xs : List TopicState)
    → shapes (retain_at now i msg xs) ≡ shapes xs
unfolding retain_at
retain_at-shapes now i msg xs = elim (Option-cases (get_elem? xs i)) [
  | inl e ↦ rw (e, retain_at)
  | inr (st, e) ↦ rw (e, retain_at) (shapes-set xs i st _ e (retain-shape now msg st))
]

pub on_message-SameTable :
    (now i : ℕ) (msg : SerializedMessage) (p : Pipeline) → SameTable p (on_message now i msg p)
unfolding on_message enqueue
on_message-SameTable now i msg p = elim (Bool-cases p.is_recording) [
  | inr off ↦ simp off (
      SameShape-topics p.table _ (retain_at-shapes now i msg p.table.topics)
        (retain_at-IsTidy now i msg p.table.topics))
  | inl on ↦ elim (Bool-cases (is_full msg.buffer_length p)) [
    | inl full ↦ simp (on, full) (SameShape-refl p.table)
    | inr room ↦ simp (on, room) (SameShape-refl p.table)
  ]
]

count_written-shapes : (i : ℕ) (xs : List TopicState) → shapes (count_written i xs) ≡ shapes xs
unfolding count_written
count_written-shapes i xs = elim (Option-cases (get_elem? xs i)) [
  | inl e ↦ rw (e, count_written)
  | inr (st, e) ↦ rw (e, count_written) (shapes-set xs i st _ e refl)
]

count_written-IsTidy :
    (i : ℕ) (xs : List TopicState) → All IsTidy xs → All IsTidy (count_written i xs)
unfolding count_written
count_written-IsTidy i xs h = elim (Option-cases (get_elem? xs i)) [
  | inl e ↦ rw (e, count_written) h
  | inr (st, e) ↦
      rw (e, count_written)
        (set-All IsTidy xs i _ h (IsTidy-kept st _ refl refl (get-All IsTidy xs i h e)))
]

write_queued-SameTable :
    (S : Storage) (bag : Bag) (st : TopicState) (qm : QueuedMessage) (p : Pipeline)
    → SameTable p (write_queued S bag st qm p)
unfolding write_queued
write_queued-SameTable S bag st qm p =
    elim (Option-cases (S.write_error bag (to_bag st.spec.topic qm))) [
      | inl e ↦
          rw (e, write_queued)
            (SameShape-topics p.table _ (count_written-shapes qm.topic_index p.table.topics)
              (count_written-IsTidy qm.topic_index p.table.topics))
      | inr (what, e) ↦ rw (e, write_queued) (SameShape-refl p.table)
    ]

write_next-SameTable :
    (S : Storage) (qm : QueuedMessage) (p : Pipeline) → SameTable p (write_next S qm p)
write_next-SameTable S qm p = elim (Option-cases p.writer) [
  | inl e ↦ rw (write_next-none S qm p e) (SameShape-refl p.table)
  | inr (bag, e) ↦ elim (Option-cases (get_elem? p.table.topics qm.topic_index)) [
    | inl absent ↦ rw (write_next-skip S qm p absent) (SameShape-refl p.table)
    | inr (st, found) ↦
        rw (write_next-queued S qm p bag st e found) (write_queued-SameTable S bag st qm p)
  ]
]

pub write_batch-SameTable :
    (S : Storage) (batch : List QueuedMessage) (p : Pipeline) → SameTable p (write_batch S batch p)
unfolding write_batch
write_batch-SameTable S [] p = SameShape-refl p.table
write_batch-SameTable S (qm ∷ batch) p =
    SameShape-trans (write_next-SameTable S qm p)
      (write_batch-SameTable S batch (write_next S qm p))

step_at-SameTable : (S : Storage) (p : Pipeline) (t : Thread) → SameTable p (step_at S p t).pipe
unfolding step_at
step_at-SameTable S p waiting = elim (Bool-cases (can_wake p)) [
  | inl e ↦ simp e (SameShape-eq (take_batch-table p).0)
  | inr e ↦ simp e (SameShape-refl p.table)
]
step_at-SameTable S p (holding batch flushing) = write_batch-SameTable S batch p
step_at-SameTable S p (written flushing) = SameShape-eq (acknowledge-table flushing p).0
step_at-SameTable S p exited = SameShape-refl p.table

pub run_thread-SameTable :
    (rounds : ℕ) (S : Storage) (m : Machine) → SameTable m.pipe (run_thread rounds S m).pipe
unfolding run_thread
run_thread-SameTable zero S m = SameShape-refl m.pipe.table
run_thread-SameTable (suc rounds) S m =
    SameShape-trans (step_at-SameTable S m.pipe m.thread)
      (run_thread-SameTable rounds S (step_at S m.pipe m.thread))

pub stop_writer_thread-SameTable :
    (rounds : ℕ) (S : Storage) (m : Machine) → SameTable m.pipe (stop_writer_thread rounds S m).pipe
unfolding stop_writer_thread
stop_writer_thread-SameTable rounds S m = elim (Bool-cases m.pipe.writer_thread_running) [
  | inr e ↦ simp e (SameShape-refl m.pipe.table)
  | inl e ↦ simp e (
      run_thread-SameTable rounds S
        (record m { pipe = record m.pipe { writer_thread_running = false } }))
]
