-- ===== src/Pipeline/Drain/Stop.antt =====
-- src/episode_recorder_node.cpp: `stop_writer_thread` returns where no wake-up can be lost.
use Prim.Native.Nat.{min}
use rosetta_recorder_cpp.Prelude.{
  ℕ, zero, suc, ◌+◌, ◌*◌, ◌-◌, ◌≤◌, ◌≡◌, ◌≢◌, refl, ◌∙◌, Bool, true, false, List, [], length,
  length-drop, is_empty, arith, Bool-cases, inl, inr,
}
use rosetta_recorder_cpp.Pipeline.{Pipeline, QueuedMessage, Storage}
use rosetta_recorder_cpp.Pipeline.Drain.{
  Thread, waiting, holding, written, exited, Machine, take_batch, write_batch, acknowledge,
  can_wake, step_at, run_thread, stop_writer_thread,
}
use rosetta_recorder_cpp.Pipeline.Drain.Run.{write_batch-Apart, acknowledge-Spares, run_thread_add}
use rosetta_recorder_cpp.Pipeline.Drain.Flush.{
  drain-drop, drop-min, rest_of, finish_batch, empty-of, nonempty-length,
}

acknowledge-queue : (flushing : Bool) (p : Pipeline) → (acknowledge flushing p).queue ≡ p.queue
unfolding acknowledge
acknowledge-queue flushing p = ground arith

can_wake-stopped : (p : Pipeline) → p.writer_thread_running ≡ false → can_wake p ≡ true
can_wake-stopped p stopped = ground arith

-- Three sections of a thread that is to stop, while something is queued.
record Leaves (p : Pipeline) (m : Machine) : Type 0 where
  thread : m.thread ≡ waiting
  queue : m.pipe.queue ≡ rest_of p
  running : m.pipe.writer_thread_running ≡ false

written-Leaves :
    (S : Storage) (p q : Pipeline) (batch : List QueuedMessage) (flushing : Bool)
    → q.queue ≡ rest_of p
    → q.writer_thread_running ≡ false
    → Leaves p (run_thread 2 S (record { pipe = q; thread = holding batch flushing }))
written-Leaves S p q batch flushing queue stopped =
    let apart = write_batch-Apart S batch q in
    rw (finish_batch S q batch flushing) (record {
      thread = refl;
      queue = acknowledge-queue flushing (write_batch S batch q) ∙ apart.queue ∙ queue;
      running =
          (acknowledge-Spares flushing (write_batch S batch q)).running
          ∙ apart.spares.running
          ∙ stopped;
    })

first_section :
    (S : Storage) (p : Pipeline)
    → p.writer_thread_running ≡ false
    → run_thread 1 S (record { pipe = p; thread = waiting }) ≡ take_batch p
unfolding run_thread step_at
first_section S p stopped = simp (can_wake-stopped p stopped) refl

take_batch-Leaves :
    (S : Storage) (p : Pipeline)
    → p.writer_thread_running ≡ false
    → is_empty p.queue ≡ false
    → Leaves p (run_thread 2 S (take_batch p))
unfolding take_batch
take_batch-Leaves S p stopped more =
    let r = drain-drop (min (length p.queue) 256) p.queue p.queue_bytes [] ∙ drop-min 256 p.queue in
    simp (stopped, more) (written-Leaves S p _ _ _ r refl)

take_batch-exited :
    (p : Pipeline)
    → p.writer_thread_running ≡ false
    → is_empty p.queue ≡ true
    → take_batch p ≡ record { pipe = p; thread = exited }
unfolding take_batch
take_batch-exited p stopped none_left = simp (stopped, none_left) refl

run_thread_exited :
    (rounds : ℕ) (S : Storage) (p : Pipeline)
    → run_thread rounds S (record { pipe = p; thread = exited })
      ≡ record { pipe = p; thread = exited }
unfolding run_thread step_at
run_thread_exited zero S p = refl
run_thread_exited (suc rounds) S p = run_thread_exited rounds S p

-- The thread has exited, and nothing is queued.
pub record Stopped (m : Machine) : Type 0 where
  pub thread : m.thread ≡ exited
  pub queue : m.pipe.queue ≡ []

waiting_at : (m : Machine) → m.thread ≡ waiting → m ≡ record { pipe = m.pipe; thread = waiting }
waiting_at m waits = rw (← waits)

exits :
    (rounds : ℕ) (S : Storage) (p : Pipeline)
    → p.writer_thread_running ≡ false
    → is_empty p.queue ≡ true
    → 1 ≤ rounds
    → Stopped (run_thread rounds S (record { pipe = p; thread = waiting }))
exits rounds S p stopped none_left enough =
    rw
      (
        run_thread_add 1 (rounds - 1) rounds S (record { pipe = p; thread = waiting })
            (omega arith),
        first_section S p stopped,
        take_batch-exited p stopped none_left,
        run_thread_exited (rounds - 1) S p,
      )
      (record { thread = refl; queue = empty-of p.queue none_left })

leaves :
    (S : Storage) (p : Pipeline)
    → p.writer_thread_running ≡ false
    → is_empty p.queue ≡ false
    → Leaves p (run_thread 3 S (record { pipe = p; thread = waiting }))
leaves S p stopped more =
    rw
      (
        run_thread_add 1 2 3 S (record { pipe = p; thread = waiting }) (omega arith),
        first_section S p stopped,
      )
      (take_batch-Leaves S p stopped more)

run_thread-Stopped :
    (batches rounds : ℕ) (S : Storage) (m : Machine)
    → m.thread ≡ waiting
    → m.pipe.writer_thread_running ≡ false
    → length m.pipe.queue ≤ 256 * batches
    → 3 * batches + 1 ≤ rounds
    → Stopped (run_thread rounds S m)
run_thread-Stopped zero rounds S m waits stopped short enough =
    rw (waiting_at m waits) (elim (Bool-cases (is_empty m.pipe.queue)) [
      | inl e ↦ exits rounds S m.pipe stopped e (omega arith)
      | inr e ↦ absurd (omega (arith, nonempty-length m.pipe.queue e))
    ])
run_thread-Stopped (suc less) rounds S m waits stopped short enough =
    let start : Machine = record { pipe = m.pipe; thread = waiting } in
    rw (waiting_at m waits) (elim (Bool-cases (is_empty m.pipe.queue)) [
      | inl e ↦ exits rounds S m.pipe stopped e (omega arith)
      | inr e ↦
          let c = leaves S m.pipe stopped e in
          rw (run_thread_add 3 (rounds - 3) rounds S start (omega arith)) (
            run_thread-Stopped less (rounds - 3) S (run_thread 3 S start) c.thread c.running
              (rw c.queue (omega (arith, length-drop 256 m.pipe.queue))) (omega arith))
    ])

-- A thread that has not exited is at its wait after at most two sections.
record Returns (p : Pipeline) (S : Storage) (t : Thread) : Type 0 where
  sections : ℕ
  few : sections ≤ 2
  thread : (run_thread sections S (record { pipe = p; thread = t })).thread ≡ waiting
  queue : (run_thread sections S (record { pipe = p; thread = t })).pipe.queue ≡ p.queue
  running :
      (run_thread sections S (record { pipe = p; thread = t })).pipe.writer_thread_running
      ≡ p.writer_thread_running

step_at-Returns : (S : Storage) (p : Pipeline) (t : Thread) → t ≢ exited → Returns p S t
unfolding run_thread step_at
step_at-Returns S p waiting alive = record {
  sections = 0;
  few = omega arith;
  thread = refl;
  queue = refl;
  running = refl;
}
step_at-Returns S p (holding batch flushing) alive =
    let apart = write_batch-Apart S batch p in
    record {
      sections = 2;
      few = omega arith;
      thread = refl;
      queue = acknowledge-queue flushing (write_batch S batch p) ∙ apart.queue;
      running =
          (acknowledge-Spares flushing (write_batch S batch p)).running ∙ apart.spares.running;
    }
step_at-Returns S p (written flushing) alive = record {
  sections = 1;
  few = omega arith;
  thread = refl;
  queue = acknowledge-queue flushing p;
  running = (acknowledge-Spares flushing p).running;
}
step_at-Returns S p exited alive = absurd (alive refl)

-- A running thread that is not blocked in its wait, and so needs no wake-up: it holds a batch or has
-- written one, or the wait's predicate is true already. A blocked one may miss the notification, since
-- the flag is set without the lock.
abbrev pub IsAwake : Machine → Type 0
IsAwake m = (m.thread ≢ exited) × (m.thread ≡ waiting → can_wake m.pipe ≡ true)

-- If the thread is told to stop while it is not blocked in its wait, then it empties the queue and
-- exits, after three sections for each batch of 256 and at most three more, so the join returns.
pub stop_writer_thread-Stopped :
    (batches rounds : ℕ) (S : Storage) (m : Machine)
    → m.pipe.writer_thread_running ≡ true
    → IsAwake m
    → length m.pipe.queue ≤ 256 * batches
    → 3 * batches + 3 ≤ rounds
    → Stopped (stop_writer_thread rounds S m)
unfolding stop_writer_thread
stop_writer_thread-Stopped batches rounds S m running (alive, awake) short enough =
    let told : Pipeline = record m.pipe { writer_thread_running = false } in
    let r = step_at-Returns S told m.thread alive in
    simp running (
      rw
        (run_thread_add r.sections (rounds - r.sections) rounds S
          (record { pipe = told; thread = m.thread }) (omega (arith, r.few)))
        (run_thread-Stopped batches (rounds - r.sections) S _ r.thread r.running (rw r.queue short)
          (omega (arith, r.few))))
