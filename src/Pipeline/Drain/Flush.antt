-- ===== src/Pipeline/Drain/Flush.antt =====
-- src/episode_recorder_node.cpp: the writer thread answers a flush, and after how many sections.
use Prim.Native.Nat.{min}
use rosetta_recorder_cpp.Prelude.{
  ℕ, zero, suc, ◌*◌, ◌-◌, ◌≤◌, ◌≡◌, refl, sym, ap, subst, ◌∙◌, Bool, true, false, not, List, [],
  ◌∷◌, ◌++◌, length, drop, length-drop, is_empty, arith, Bool-cases, inl, inr,
}
use rosetta_recorder_cpp.Pipeline.{Pipeline, QueuedMessage, Storage}
use rosetta_recorder_cpp.Pipeline.Drain.{
  waiting, holding, Machine, drain, take_batch, write_batch, acknowledge, can_wake, step_at,
  run_thread,
}
use rosetta_recorder_cpp.Pipeline.Drain.Run.{write_batch-Apart, run_thread_add}

pub drain-drop :
    (rounds : ℕ) (queue : List QueuedMessage) (bytes : ℕ) (batch : List QueuedMessage)
    → let (rest, _, _) = drain rounds queue bytes batch in rest ≡ drop rounds queue
unfolding drain
drain-drop zero queue bytes batch = refl
drain-drop (suc rounds) [] bytes batch = refl
drain-drop (suc rounds) (qm ∷ queue) bytes batch = drain-drop rounds queue _ (batch ++ qm ∷ [])

pub drop-min :
    (n : ℕ) (queue : List QueuedMessage) → drop (min (length queue) n) queue ≡ drop n queue
drop-min zero queue = let e : min (length queue) 0 ≡ 0 = omega arith in rw e
drop-min (suc n) [] = let e : min 0 (suc n) ≡ 0 = omega arith in rw e
drop-min (suc n) (qm ∷ queue) =
    let e : min (suc (length queue)) (suc n) ≡ suc (min (length queue) n) = omega arith in
    rw e (drop-min n queue)

-- What the thread leaves in the queue when it takes a batch.
abbrev pub rest_of : Pipeline → List QueuedMessage
rest_of p = drop 256 p.queue

-- Three sections of the thread, from the wait to the wait, on a running thread with a flush
-- requested.
pub record Cycle (p : Pipeline) (m : Machine) : Type 0 where
  pub thread : m.thread ≡ waiting
  pub queue : m.pipe.queue ≡ rest_of p
  pub running : m.pipe.writer_thread_running ≡ true
  pub requested : m.pipe.flush_requested ≡ not (is_empty (rest_of p))
  pub done : is_empty (rest_of p) ≡ true → m.pipe.flush_done ≡ true

record Takes (p : Pipeline) (m : Machine) : Type 0 where
  batch : List QueuedMessage
  bytes : ℕ
  taken : m ≡ record {
    pipe = record p { queue = rest_of p; queue_bytes = bytes };
    thread = holding batch (is_empty (rest_of p));
  }

take_batch-Takes :
    (p : Pipeline)
    → p.writer_thread_running ≡ true
    → p.flush_requested ≡ true
    → Takes p (take_batch p)
unfolding take_batch
take_batch-Takes p running requested =
    let r = drain-drop (min (length p.queue) 256) p.queue p.queue_bytes [] ∙ drop-min 256 p.queue in
    record {
      batch = (drain (min (length p.queue) 256) p.queue p.queue_bytes []).2;
      bytes = (drain (min (length p.queue) 256) p.queue p.queue_bytes []).1;
      taken = simp (running, requested, r) refl;
    }

can_wake-requested : (p : Pipeline) → p.flush_requested ≡ true → can_wake p ≡ true
can_wake-requested p requested = ground arith

-- The first section of the three.
first_section :
    (S : Storage) (p : Pipeline)
    → p.flush_requested ≡ true
    → run_thread 1 S (record { pipe = p; thread = waiting }) ≡ take_batch p
unfolding run_thread step_at
first_section S p requested = simp (can_wake-requested p requested) refl

-- The other two.
pub finish_batch :
    (S : Storage) (p : Pipeline) (batch : List QueuedMessage) (flushing : Bool)
    → run_thread 2 S (record { pipe = p; thread = holding batch flushing })
      ≡ record { pipe = acknowledge flushing (write_batch S batch p); thread = waiting }
unfolding run_thread step_at
finish_batch S p batch flushing = refl

acknowledge-Cycle :
    (p q : Pipeline)
    → q.queue ≡ rest_of p
    → q.writer_thread_running ≡ true
    → q.flush_requested ≡ true
    → Cycle p (record { pipe = acknowledge (is_empty (rest_of p)) q; thread = waiting })
unfolding acknowledge
acknowledge-Cycle p q queue running requested = elim (Bool-cases (is_empty (rest_of p))) [
  | inl e ↦
      simp (queue, e)
        (record {
          thread = refl;
          queue = refl;
          running = running;
          requested = simp e refl;
          done = λ _. refl;
        })
  | inr e ↦
      simp (queue, e)
        (record {
          thread = refl;
          queue = queue;
          running = running;
          requested = simp e requested;
          done = λ some_left. cc;
        })
]

run_thread-Cycle :
    (S : Storage) (p : Pipeline)
    → p.writer_thread_running ≡ true
    → p.flush_requested ≡ true
    → Cycle p (run_thread 3 S (record { pipe = p; thread = waiting }))
run_thread-Cycle S p running requested =
    let t = take_batch-Takes p running requested in
    let apart =
      write_batch-Apart S t.batch (record p { queue = rest_of p; queue_bytes = t.bytes }) in
    rw
      (
        run_thread_add 1 2 3 S (record { pipe = p; thread = waiting }) (omega arith),
        first_section S p requested ∙ t.taken,
        finish_batch S (record p { queue = rest_of p; queue_bytes = t.bytes }) t.batch
            (is_empty (rest_of p)),
      )
      (acknowledge-Cycle p _ apart.queue (apart.spares.running ∙ running)
        (apart.requested ∙ requested))

-- The flush is answered, and the thread waits for the next message.
pub record Answered (m : Machine) : Type 0 where
  pub thread : m.thread ≡ waiting
  pub queue : m.pipe.queue ≡ []
  pub running : m.pipe.writer_thread_running ≡ true
  pub requested : m.pipe.flush_requested ≡ false
  pub done : m.pipe.flush_done ≡ true

pub empty-of : (queue : List QueuedMessage) → is_empty queue ≡ true → queue ≡ []
empty-of [] e = refl
empty-of (qm ∷ queue) e = cc

pub nonempty-length : (queue : List QueuedMessage) → is_empty queue ≡ false → 1 ≤ length queue
nonempty-length [] e = cc
nonempty-length (qm ∷ queue) e = omega arith

step_at-Answered : (S : Storage) (m : Machine) → Answered m → step_at S m.pipe m.thread ≡ m
unfolding step_at
step_at-Answered S m a = rw a.thread (simp (a.queue, a.requested, a.running) refl)

Answered-run_thread :
    (rounds : ℕ) (S : Storage) (m : Machine) → Answered m → run_thread rounds S m ≡ m
unfolding run_thread
Answered-run_thread zero S m a = refl
Answered-run_thread (suc rounds) S m a =
    rw (step_at-Answered S m a) (Answered-run_thread rounds S m a)

Cycle-Answered : (p : Pipeline) (m : Machine) → Cycle p m → is_empty (rest_of p) ≡ true → Answered m
Cycle-Answered p m c e = record {
  thread = c.thread;
  queue = c.queue ∙ empty-of (rest_of p) e;
  running = c.running;
  requested = c.requested ∙ ap not e;
  done = c.done e;
}

Machine-Cycle :
    (S : Storage) (m : Machine)
    → m.thread ≡ waiting
    → m.pipe.writer_thread_running ≡ true
    → m.pipe.flush_requested ≡ true
    → Cycle m.pipe (run_thread 3 S m)
Machine-Cycle S m waits running requested =
    let same : m ≡ record { pipe = m.pipe; thread = waiting } = rw (← waits) in
    subst (λ n. Cycle m.pipe (run_thread 3 S n)) (sym same)
      (run_thread-Cycle S m.pipe running requested)

-- The last cycle, and the rounds that are left.
last-Cycle :
    (rounds : ℕ) (S : Storage) (m : Machine)
    → Cycle m.pipe (run_thread 3 S m)
    → is_empty (rest_of m.pipe) ≡ true
    → Answered (run_thread rounds S (run_thread 3 S m))
last-Cycle rounds S m c e =
    let answered = Cycle-Answered m.pipe _ c e in
    rw (Answered-run_thread rounds S _ answered) answered

-- Once a flush is requested of a waiting thread, and nothing more arrives, the thread answers it
-- with an empty queue, however many messages are queued: three sections for each batch of 256
-- suffice, and it then stays in its wait.
pub run_thread-Answered :
    (batches rounds : ℕ) (S : Storage) (m : Machine)
    → m.thread ≡ waiting
    → m.pipe.writer_thread_running ≡ true
    → m.pipe.flush_requested ≡ true
    → length m.pipe.queue ≤ 256 * suc batches
    → 3 * suc batches ≤ rounds
    → Answered (run_thread rounds S m)
run_thread-Answered zero rounds S m waits running requested short enough =
    let c = Machine-Cycle S m waits running requested in
    rw (run_thread_add 3 (rounds - 3) rounds S m (omega arith))
      (elim (Bool-cases (is_empty (rest_of m.pipe))) [
        | inl e ↦ last-Cycle (rounds - 3) S m c e
        | inr e ↦
            absurd (omega (arith, nonempty-length (rest_of m.pipe) e, length-drop 256 m.pipe.queue))
      ])
run_thread-Answered (suc less) rounds S m waits running requested short enough =
    let c = Machine-Cycle S m waits running requested in
    rw (run_thread_add 3 (rounds - 3) rounds S m (omega arith))
      (elim (Bool-cases (is_empty (rest_of m.pipe))) [
        | inl e ↦ last-Cycle (rounds - 3) S m c e
        | inr e ↦
            run_thread-Answered less (rounds - 3) S (run_thread 3 S m) c.thread c.running
              (c.requested ∙ ap not e) (rw c.queue (omega (arith, length-drop 256 m.pipe.queue)))
              (omega arith)
      ])
