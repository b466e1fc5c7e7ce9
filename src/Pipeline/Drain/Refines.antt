-- ===== src/Pipeline/Drain/Refines.antt =====
-- The two threads of src/episode_recorder_node.cpp refine the abstract recorder.
use mathlib.Core.List.{append-nil}
use rosetta_recorder_cpp.Prelude.{
  ◌≡◌, refl, sym, ap, subst, ◌∙◌, none, some, List, [], ◌∷◌, ◌++◌, Bool-cases, Option-cases, inl,
  inr, ℕ, Bool,
}
use rosetta_recorder_cpp.Topics.{SerializedMessage, Topics}
use rosetta_recorder_cpp.Pipeline.{Pipeline, BagMessage, Bag, QueuedMessage, Storage}
use rosetta_recorder_cpp.Pipeline.Receive.{is_full, enqueue, on_message}
use rosetta_recorder_cpp.Pipeline.Drain.{
  Machine, take_batch, write_batch, request_flush, abandon, close_bag, Step, receive, wake, write,
  reply, finish, close, expire, Reach, here, next, holding, written,
}
use rosetta_recorder_cpp.Pipeline.Drain.Run.{
  take_batch-Spares, acknowledge-Spares, write_batch-Apart,
}
use rosetta_recorder_cpp.Pipeline.Drain.Fifo.{
  bagged, bagged-append, names, IsHealthy, write_batch-Stores,
}
use rosetta_recorder_cpp.Pipeline.Drain.Contents.{
  contents, accepted, batch_of, on_message-queue, on_message-contents, take_batch-contents,
  write_batch-contents, acknowledge-contents, request_flush-contents, close_bag-shut,
  write_batch-none,
}
use rosetta_recorder_cpp.Pipeline.Drain.Order.{
  IsOpen, accepted_all, take_batch-table, acknowledge-table, request_flush-table,
}
use rosetta_recorder_cpp.Pipeline.Drain.Log.{
  Log, recording, saved, LogStep, append, save, rest, LogReach, log_here, log_next, Shows,
  shows_open, shows_saved, Refined,
}

-- A step that closes nothing, and adds `new` to an open bag's contents.
record Plain (m n : Machine) (new : List BagMessage) : Type 0 where
  same_closed : n.pipe.closed ≡ m.pipe.closed
  shut : m.pipe.writer ≡ none → n.pipe.writer ≡ none
  stays_open : IsOpen m → IsOpen n
  grown : IsOpen m → contents n ≡ contents m ++ new

same_writer :
    (m n : Machine) (new : List BagMessage)
    → n.pipe.closed ≡ m.pipe.closed
    → n.pipe.writer ≡ m.pipe.writer
    → contents n ≡ contents m ++ new
    → Plain m n new
same_writer m n new c w g = record {
  same_closed = c;
  shut = λ e. w ∙ e;
  stays_open = λ o e. o (sym w ∙ e);
  grown = λ o. g;
}

Plain-Refined :
    {before : List Bag} {m n : Machine} {new : List BagMessage} {l : Log}
    → Plain m n new
    → Shows before m l
    → Refined before l new n
Plain-Refined {m} {n} {new} p (shows_open o c) = record {
  log = recording (contents n);
  step =
      subst (λ k. LogStep new (recording (contents m)) (recording k)) (sym (p.grown o))
        (append (contents m) new);
  shown = shows_open (p.stays_open o) (p.same_closed ∙ c);
}
Plain-Refined {new} p (shows_saved bag w c) = record {
  log = saved bag.messages;
  step = rest bag.messages new;
  shown = shows_saved bag (p.shut w) (p.same_closed ∙ c);
}

on_message-closed :
    (now i : ℕ) (msg : SerializedMessage) (p : Pipeline)
    → (on_message now i msg p).closed ≡ p.closed
unfolding on_message enqueue
on_message-closed now i msg p = elim (Bool-cases p.is_recording) [
  | inr off ↦ simp off refl
  | inl on ↦ elim (Bool-cases (is_full msg.buffer_length p)) [
    | inl full ↦ simp (on, full) refl
    | inr room ↦ simp (on, room) refl
  ]
]

request_flush-closed : (p : Pipeline) → (request_flush p).closed ≡ p.closed
unfolding request_flush
request_flush-closed p = elim (Bool-cases p.writer_thread_running) [
  | inl e ↦ simp e refl
  | inr e ↦ simp e refl
]

write-Plain :
    (S : Storage) (m : Machine) (batch : List QueuedMessage) (flushing : Bool)
    → IsHealthy S
    → m.thread ≡ holding batch flushing
    → Plain m (record { pipe = write_batch S batch m.pipe; thread = written flushing }) []
write-Plain S m batch flushing healthy t =
    let kept = (write_batch-Apart S batch m.pipe).spares.closed in
    elim (Option-cases m.pipe.writer) [
      | inl w ↦ record {
        same_closed = kept;
        shut = λ e. ap (λ (p : Pipeline). p.writer) (write_batch-none S batch m.pipe w) ∙ w;
        stays_open = λ o. absurd (o w);
        grown = λ o. absurd (o w);
      }
      | inr (bag, w) ↦
          let done = write_batch-Stores S batch m.pipe bag healthy w in
          record {
            same_closed = kept;
            shut = λ e. cc (w, e);
            stays_open = λ o e. cc (done.opened, e);
            grown = λ o.
                write_batch-contents S m batch flushing bag healthy w t
                ∙ sym (append-nil (contents m));
          }
    ]

close_bag-open :
    (p : Pipeline) (bag : Bag) → p.writer ≡ some bag → (close_bag p).closed ≡ p.closed ++ bag ∷ []
unfolding close_bag
close_bag-open p bag w = rw (w, close_bag)

close_bag-none : (p : Pipeline) → p.writer ≡ none → (close_bag p).closed ≡ p.closed
unfolding close_bag
close_bag-none p w = rw (w, close_bag)

-- `p` is the pipeline at the close: that of `m`, or with its queue dropped.
close_bag-Refined :
    {before : List Bag} {l : Log} (m : Machine) (p : Pipeline)
    → p.writer ≡ m.pipe.writer
    → p.closed ≡ m.pipe.closed
    → Shows before m l
    → Refined before l [] (record m { pipe = close_bag p })
close_bag-Refined {before} m p w c (shows_open o same) = elim (Option-cases m.pipe.writer) [
  | inl e ↦ absurd (o e)
  | inr (bag, e) ↦
      let lost = bagged (names m.pipe.table.topics) (batch_of m.thread ++ m.pipe.queue) in
      record {
        log = saved bag.messages;
        step = rw e (save bag.messages lost);
        shown =
            shows_saved bag (close_bag-shut p)
              (close_bag-open p bag (w ∙ e) ∙ ap (λ bags. bags ++ bag ∷ []) (c ∙ same));
      }
]
close_bag-Refined {before} m p w c (shows_saved bag e same) = record {
  log = saved bag.messages;
  step = rest bag.messages [];
  shown = shows_saved bag (close_bag-shut p) (close_bag-none p (w ∙ e) ∙ (c ∙ same));
}

same_contents :
    (m n : Machine)
    → n.pipe.closed ≡ m.pipe.closed
    → n.pipe.writer ≡ m.pipe.writer
    → contents n ≡ contents m
    → Plain m n []
same_contents m n c w g = same_writer m n [] c w (g ∙ sym (append-nil (contents m)))

Step-Refined :
    {S : Storage} {before : List Bag} {m n : Machine} {l : Log}
    → IsHealthy S
    → (s : Step S m n) → Shows before m l
    → Refined before l (bagged (names m.pipe.table.topics) (accepted s)) n
Step-Refined healthy (receive m now index msg) v =
    let (queued, named, w) = on_message-queue now index msg m.pipe in
    Plain-Refined
      (same_writer m _ _ (on_message-closed now index msg m.pipe) w
        (on_message-contents now index msg m))
      v
Step-Refined healthy (wake m t w) v =
    Plain-Refined
      (same_contents m (take_batch m.pipe) (take_batch-Spares m.pipe).closed
        (take_batch-table m.pipe).1 (take_batch-contents m t))
      v
Step-Refined {S} healthy (write m batch flushing t) v =
    Plain-Refined (write-Plain S m batch flushing healthy t) v
Step-Refined healthy (reply m flushing t) v =
    Plain-Refined
      (same_contents m _ (acknowledge-Spares flushing m.pipe).closed
        (acknowledge-table flushing m.pipe).1 (acknowledge-contents m flushing t))
      v
Step-Refined healthy (finish m r) v =
    Plain-Refined
      (same_contents m _ (request_flush-closed m.pipe) (request_flush-table m.pipe).1
        (request_flush-contents m))
      v
Step-Refined healthy (close m r f) v = close_bag-Refined m m.pipe refl refl v
Step-Refined healthy (expire m r f) v = close_bag-Refined m (abandon m.pipe) refl refl v

write_batch-names :
    (S : Storage) (batch : List QueuedMessage) (p : Pipeline)
    → IsHealthy S
    → names (write_batch S batch p).table.topics ≡ names p.table.topics
write_batch-names S batch p healthy = elim (Option-cases p.writer) [
  | inl w ↦ ap (λ (q : Pipeline). names q.table.topics) (write_batch-none S batch p w)
  | inr (bag, w) ↦ (write_batch-Stores S batch p bag healthy w).same_names
]

close_bag-names : (p : Pipeline) → names (close_bag p).table.topics ≡ names p.table.topics
unfolding close_bag
close_bag-names p = elim (Option-cases p.writer) [
  | inl w ↦ rw (close_bag, w)
  | inr (bag, w) ↦ rw (close_bag, w)
]

Step-names :
    {S : Storage} {m n : Machine}
    → IsHealthy S
    → Step S m n
    → names n.pipe.table.topics ≡ names m.pipe.table.topics
Step-names healthy (receive m now index msg) =
    let (queued, named, w) = on_message-queue now index msg m.pipe in named
Step-names healthy (wake m t w) = ap (λ (t : Topics). names t.topics) (take_batch-table m.pipe).0
Step-names {S} healthy (write m batch flushing t) = write_batch-names S batch m.pipe healthy
Step-names healthy (reply m flushing t) =
    ap (λ (t : Topics). names t.topics) (acknowledge-table flushing m.pipe).0
Step-names healthy (finish m r) = ap (λ (t : Topics). names t.topics) (request_flush-table m.pipe).0
Step-names healthy (close m r f) = close_bag-names m.pipe
Step-names healthy (expire m r f) = close_bag-names (abandon m.pipe)

Reach-names :
    {S : Storage} {m n : Machine}
    → IsHealthy S
    → Reach S m n
    → names n.pipe.table.topics ≡ names m.pipe.table.topics
Reach-names healthy here = refl
Reach-names healthy (next r s) = Step-names healthy s ∙ Reach-names healthy r

-- If no write fails, every run of the two threads is a run of the abstract recorder on the messages
-- that were accepted: while the bag is open they are all there, in order, and what a close saves is
-- a first part of them, in order, that nothing changes any more, whatever the thread still holds.
pub Reach-refines :
    {S : Storage} {before : List Bag} {m n : Machine} {l : Log}
    → IsHealthy S
    → Shows before m l
    → (r : Reach S m n)
    → (k : Log) × LogReach l (bagged (names m.pipe.table.topics) (accepted_all r)) k
      × Shows before n k
Reach-refines {l} healthy v here = (l, log_here, v)
Reach-refines {m} {l} healthy v (next r s) =
    let (k, steps, shown) = Reach-refines healthy v r in
    let last = Step-Refined healthy s shown in
    let ns = names m.pipe.table.topics in
    (
      last.log,
      subst (λ all. LogReach l all last.log)
          (ap (λ at. bagged ns (accepted_all r) ++ bagged at (accepted s)) (Reach-names healthy r)
            ∙ sym (bagged-append ns (accepted_all r) (accepted s)))
          (log_next steps last.step),
      last.shown,
    )
