-- ===== src/Pipeline/Drain/Race.antt =====
-- src/episode_recorder_node.cpp: `finish_recording` against a batch that is in the writer thread's
-- hands, and `writer_thread_main` when the flush is answered.
use Prim.Native.Nat.{min}
use rosetta_recorder_cpp.Prelude.{
  ℕ, ◌≤◌, ◌≡◌, ◌≢◌, refl, Bool, true, false, ◌&&◌, none, some, List, [], ◌∷◌, ◌++◌, length,
  is_empty, arith, Bool-cases, inl, inr, sym, ◌∙◌,
}
use rosetta_recorder_cpp.Pipeline.{Pipeline, QueuedMessage, Bag, Storage}
use rosetta_recorder_cpp.Pipeline.Drain.{
  waiting, holding, written, Machine, drain, take_batch, write_batch, request_flush, close_bag,
  may_close, can_wake, wake, write, finish, close, Reach, here, next,
}
use rosetta_recorder_cpp.Pipeline.Drain.Contents.{write_batch-none, batch_of, contents}
use rosetta_recorder_cpp.Pipeline.Drain.Fifo.{IsHealthy, names, bagged}
use rosetta_recorder_cpp.Pipeline.Drain.Order.{accepted_all, Reach-contents}
use mathlib.Core.List.{append_assoc, append-nil}

drain-all :
    (queue : List QueuedMessage) (bytes : ℕ) (batch : List QueuedMessage)
    → let (_, _, taken) = drain (length queue) queue bytes batch in taken ≡ batch ++ queue
unfolding drain
drain-all [] bytes batch = sym (append-nil batch)
drain-all (qm ∷ queue) bytes batch =
    drain-all queue _ (batch ++ qm ∷ []) ∙ append_assoc batch (qm ∷ []) queue

drain-rest :
    (queue : List QueuedMessage) (bytes : ℕ) (batch : List QueuedMessage)
    → let (rest, _, taken) = drain (length queue) queue bytes batch in rest ≡ []
unfolding drain
drain-rest [] bytes batch = refl
drain-rest (qm ∷ queue) bytes batch = drain-rest queue _ (batch ++ qm ∷ [])

is_empty-cons : (queue : List QueuedMessage) → queue ≢ [] → is_empty queue ≡ false
is_empty-cons [] h = absurd (h refl)
is_empty-cons (qm ∷ queue) h = refl

min-within : (n : ℕ) → n ≤ 256 → min n 256 ≡ n
min-within n h = omega arith

-- The thread takes a queue that fits into one batch as a whole, and changes nothing else.
pub record Takes (p : Pipeline) (m : Machine) : Type 0 where
  pub batch : List QueuedMessage
  pub flushing : Bool
  pub holds : m.thread ≡ holding batch flushing
  pub all : batch ≡ p.queue
  pub bytes : ℕ
  pub emptied : m.pipe ≡ record p { queue = []; queue_bytes = bytes }

pub take_batch-Takes :
    (p : Pipeline)
    → p.queue ≢ []
    → length p.queue ≤ 256
    → p.writer_thread_running ≡ true
    → Takes p (take_batch p)
unfolding take_batch
take_batch-Takes p some_queued small running =
    let e = is_empty-cons p.queue some_queued in
    let r = drain-rest p.queue p.queue_bytes [] in
    record {
      batch = (drain (length p.queue) p.queue p.queue_bytes []).2;
      flushing = p.flush_requested && true;
      holds = simp (e, running, min-within (length p.queue) small, r) refl;
      all = drain-all p.queue p.queue_bytes [];
      bytes = (drain (length p.queue) p.queue p.queue_bytes []).1;
      emptied = simp (e, running, min-within (length p.queue) small, r) refl;
    }

-- What the race leaves: the bag was closed as it was, and the messages are nowhere, not even in
-- the count of what was dropped.
pub record Lost (p : Pipeline) (bag : Bag) (n : Machine) : Type 0 where
  pub closed_as_is : n.pipe.closed ≡ p.closed ++ bag ∷ []
  pub shut : n.pipe.writer ≡ none
  pub none_queued : n.pipe.queue ≡ []
  pub none_held : batch_of n.thread ≡ []
  pub same_dropped : n.pipe.messages_dropped ≡ p.messages_dropped
  pub same_failed : n.pipe.write_failed ≡ p.write_failed

-- `finish_recording` beside a thread that holds the batch: nothing is queued, so it does not wait.
abbrev pub closed_over : Pipeline → Pipeline
closed_over q = close_bag (request_flush q)

closed_over-Lost :
    (S : Storage) (p : Pipeline) (bag : Bag) (bytes : ℕ) (batch : List QueuedMessage)
    (flushing : Bool)
    → p.writer ≡ some bag
    → p.writer_thread_running ≡ true
    → let q = closed_over (record p { queue = []; queue_bytes = bytes }) in
      Lost p bag (record { pipe = write_batch S batch q; thread = written flushing })
unfolding close_bag request_flush
closed_over-Lost S p bag bytes batch flushing w running =
    let q = closed_over (record p { queue = []; queue_bytes = bytes }) in
    let shut : q.writer ≡ none = simp (running, w) refl in
    rw (write_batch-none S batch q shut) (record {
      closed_as_is = simp (running, w) refl;
      shut = shut;
      none_queued = simp (running, w) refl;
      none_held = refl;
      same_dropped = simp (running, w) refl;
      same_failed = simp (running, w) refl;
    })

pub wakes : (p : Pipeline) → p.queue ≢ [] → can_wake p ≡ true
wakes p some_queued = simp (is_empty-cons p.queue some_queued) refl

request_flush-stops : (p : Pipeline) → (request_flush p).is_recording ≡ false
unfolding request_flush
request_flush-stops p = ground arith

pub request_flush-may_close : (p : Pipeline) → p.queue ≡ [] → may_close (request_flush p) ≡ true
unfolding request_flush
request_flush-may_close p e = elim (Bool-cases p.writer_thread_running) [
  | inl r ↦ simp (r, e) refl
  | inr r ↦ simp (r, e) (ground arith)
]

-- Each time that, while recording, the thread waits beside an open bag and between 1 and 256
-- queued messages, the two
-- threads can come to a state where the bag was closed without any of those messages, and no
-- dropped message or failed write was noted.
pub finish-Lost :
    (S : Storage) (p : Pipeline) (bag : Bag)
    → p.is_recording ≡ true
    → p.writer_thread_running ≡ true
    → p.writer ≡ some bag
    → p.queue ≢ []
    → length p.queue ≤ 256
    → (n : Machine) × Reach S (record { pipe = p; thread = waiting }) n × Lost p bag n
finish-Lost S p bag on running w some_queued small =
    let takes = take_batch-Takes p some_queued small running in
    let start : Machine = record { pipe = p; thread = waiting } in
    let p1 = (take_batch p).pipe in
    let recording : p1.is_recording ≡ true = rw takes.emptied on in
    let taken : Reach S start (take_batch p) = next here (wake start refl (wakes p some_queued)) in
    let finished = next taken (finish (take_batch p) recording) in
    let shut =
      next finished
        (close _ (request_flush-stops p1) (request_flush-may_close p1 (rw takes.emptied refl))) in
    (
      _,
      next shut (write _ takes.batch takes.flushing takes.holds),
      rw takes.emptied (closed_over-Lost S p bag takes.bytes takes.batch takes.flushing w running),
    )

close_bag-closed :
    (p : Pipeline) (bag : Bag) → p.writer ≡ some bag → (close_bag p).closed ≡ p.closed ++ bag ∷ []
unfolding close_bag
close_bag-closed p bag w = rw (close_bag, w)

-- If no write fails and the bag is closed when nothing is queued and the writer thread holds no
-- batch, then the closed bag has what was there at the start of the run and every message that was
-- accepted since, in order.
close_bag-contents :
    {S : Storage} {m n : Machine} (bag : Bag)
    → IsHealthy S
    → (r : Reach S m n) → n.pipe.writer ≡ some bag
    → n.pipe.queue ≡ []
    → batch_of n.thread ≡ []
    → ((close_bag n.pipe).closed ≡ n.pipe.closed ++ bag ∷ [])
      × (bag.messages ≡ contents m ++ bagged (names m.pipe.table.topics) (accepted_all r))
close_bag-contents {n = n} bag healthy r w queue batch = (
  close_bag-closed n.pipe bag w,
  sym (all n bag w queue batch) ∙ Reach-contents healthy r (λ e. cc),
)
  where
    all :
        (n : Machine) (bag : Bag)
        → n.pipe.writer ≡ some bag
        → n.pipe.queue ≡ []
        → batch_of n.thread ≡ []
        → contents n ≡ bag.messages
    all n bag w queue batch = rw (w, queue, batch) (append-nil bag.messages)
