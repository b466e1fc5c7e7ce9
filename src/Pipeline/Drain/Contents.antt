-- ===== src/Pipeline/Drain/Contents.antt =====
-- What is stored in the open bag and on its way to it, and what each locked section does to it.
use mathlib.Core.List.{append_assoc, append-nil}
use Prim.Native.Nat.{min}
use rosetta_recorder_cpp.Prelude.{
  ℕ, zero, suc, ◌≡◌, refl, sym, ap, ◌∙◌, Bool, not, ◌&&◌, Option, none, some, List, [], ◌∷◌, ◌++◌,
  length, get_elem?, is_empty, if◌then◌else◌, arith, Bool-cases, Option-cases, inl, inr,
}
use rosetta_recorder_cpp.Topics.{SerializedMessage, TopicState}
use rosetta_recorder_cpp.Pipeline.{Pipeline, QueuedMessage, BagMessage, Bag, Storage}
use rosetta_recorder_cpp.Pipeline.Receive.{is_full, enqueue, retain, retain_at, on_message}
use rosetta_recorder_cpp.Pipeline.Drain.{
  Thread, waiting, holding, written, exited, Machine, drain, take_batch, write_next, write_batch,
  acknowledge, request_flush, close_bag, Step, receive, wake, write, reply, finish, close, expire,
}
use rosetta_recorder_cpp.Pipeline.Drain.Fifo.{
  names, bagged, bagged-append, names-set, IsHealthy, write_batch-Stores,
}

drain-order :
    (rounds : ℕ) (queue : List QueuedMessage) (bytes : ℕ) (batch : List QueuedMessage)
    → let (rest, _, taken) = drain rounds queue bytes batch in taken ++ rest ≡ batch ++ queue
unfolding drain
drain-order zero queue bytes batch = refl
drain-order (suc rounds) [] bytes batch = refl
drain-order (suc rounds) (qm ∷ queue) bytes batch =
    drain-order rounds queue _ (batch ++ qm ∷ []) ∙ append_assoc batch (qm ∷ []) queue

abbrev pub batch_of : Thread → List QueuedMessage
batch_of waiting = []
batch_of (holding batch flushing) = batch
batch_of (written flushing) = []
batch_of exited = []

abbrev pub messages_of : Option Bag → List BagMessage
messages_of none = []
messages_of (some bag) = bag.messages

-- What is stored in the open bag, then in the thread's batch, then in the queue.
abbrev pub contents : Machine → List BagMessage
contents m =
    messages_of m.pipe.writer
    ++ bagged (names m.pipe.table.topics) (batch_of m.thread ++ m.pipe.queue)

-- What a call of `on_message` puts into the queue.
abbrev pub accepts : ℕ → ℕ → SerializedMessage → Pipeline → List QueuedMessage
accepts now index msg p =
    if p.is_recording && not (is_full msg.buffer_length p)
    then record { message = msg; timestamp_ns = now; topic_index = index } ∷ []
    else []

abbrev pub accepted : {S : Storage} {m n : Machine} → Step S m n → List QueuedMessage
accepted (receive m now index msg) = accepts now index msg m.pipe
accepted (wake m t w) = []
accepted (write m batch flushing t) = []
accepted (reply m flushing t) = []
accepted (finish m r) = []
accepted (close m r f) = []
accepted (expire m r f) = []

retain-topic :
    (now : ℕ) (msg : SerializedMessage) (st : TopicState)
    → (retain now msg st).spec.topic ≡ st.spec.topic
unfolding retain
retain-topic now msg st = ground arith

names-retain_at :
    (now i : ℕ) (msg : SerializedMessage) (xs : List TopicState)
    → names (retain_at now i msg xs) ≡ names xs
unfolding retain_at
names-retain_at now i msg xs = elim (Option-cases (get_elem? xs i)) [
  | inl e ↦ rw (e, retain_at)
  | inr (st, e) ↦ rw (e, retain_at) (names-set xs i st _ e (retain-topic now msg st))
]

-- What `on_message` changes, as far as the contents go.
pub on_message-queue :
    (now index : ℕ) (msg : SerializedMessage) (p : Pipeline)
    → let q = on_message now index msg p in
      (q.queue ≡ p.queue ++ accepts now index msg p)
      × (names q.table.topics ≡ names p.table.topics)
      × (q.writer ≡ p.writer)
unfolding on_message enqueue
on_message-queue now index msg p = elim (Bool-cases p.is_recording) [
  | inr off ↦
      simp off (sym (append-nil p.queue), names-retain_at now index msg p.table.topics, refl)
  | inl on ↦ elim (Bool-cases (is_full msg.buffer_length p)) [
    | inl full ↦ simp (on, full) (sym (append-nil p.queue), refl, refl)
    | inr room ↦ simp (on, room) (refl, refl, refl)
  ]
]

pub on_message-contents :
    (now index : ℕ) (msg : SerializedMessage) (m : Machine)
    → contents (record m { pipe = on_message now index msg m.pipe })
      ≡ contents m ++ bagged (names m.pipe.table.topics) (accepts now index msg m.pipe)
on_message-contents now index msg m =
    let (queued, named, open_bag) = on_message-queue now index msg m.pipe in
    let ns = names m.pipe.table.topics in
    let new = accepts now index msg m.pipe in
    rw (queued, named, open_bag)
      (ap (λ l. messages_of m.pipe.writer ++ l)
          (ap (bagged ns) (sym (append_assoc (batch_of m.thread) m.pipe.queue new))
            ∙ bagged-append ns (batch_of m.thread ++ m.pipe.queue) new)
        ∙ sym (append_assoc (messages_of m.pipe.writer) _ (bagged ns new)))

pub take_batch-contents :
    (m : Machine) → m.thread ≡ waiting → contents (take_batch m.pipe) ≡ contents m
unfolding take_batch
take_batch-contents m t =
    elim (Bool-cases (not m.pipe.writer_thread_running && is_empty m.pipe.queue)) [
      | inl gone ↦ simp (t, gone)
      | inr more ↦
          simp (t, more)
            (ap (λ l. messages_of m.pipe.writer ++ bagged (names m.pipe.table.topics) l)
              (drain-order (min (length m.pipe.queue) 256) m.pipe.queue m.pipe.queue_bytes []))
    ]

pub write_batch-contents :
    (S : Storage) (m : Machine) (batch : List QueuedMessage) (flushing : Bool) (bag : Bag)
    → IsHealthy S
    → m.pipe.writer ≡ some bag
    → m.thread ≡ holding batch flushing
    → contents (record { pipe = write_batch S batch m.pipe; thread = written flushing })
      ≡ contents m
write_batch-contents S m batch flushing bag healthy w t =
    let done = write_batch-Stores S batch m.pipe bag healthy w in
    let ns = names m.pipe.table.topics in
    rw (done.opened, done.same_names, done.same_queue, w, t, done.stored)
      (append_assoc bag.messages (bagged ns batch) (bagged ns m.pipe.queue)
        ∙ ap (λ l. bag.messages ++ l) (sym (bagged-append ns batch m.pipe.queue)))

pub acknowledge-contents :
    (m : Machine) (flushing : Bool)
    → m.thread ≡ written flushing
    → contents (record { pipe = acknowledge flushing m.pipe; thread = waiting }) ≡ contents m
unfolding acknowledge
acknowledge-contents m flushing t = elim (Bool-cases (flushing && is_empty m.pipe.queue)) [
  | inl e ↦ simp (t, e)
  | inr e ↦ simp (t, e)
]

pub request_flush-contents :
    (m : Machine) → contents (record m { pipe = request_flush m.pipe }) ≡ contents m
unfolding request_flush
request_flush-contents m = elim (Bool-cases m.pipe.writer_thread_running) [
  | inl e ↦ simp e
  | inr e ↦ simp e
]

pub close_bag-shut : (p : Pipeline) → (close_bag p).writer ≡ none
unfolding close_bag
close_bag-shut p = ground arith

pub write_next-none :
    (S : Storage) (qm : QueuedMessage) (p : Pipeline) → p.writer ≡ none → write_next S qm p ≡ p
unfolding write_next
write_next-none S qm p w = ground arith

-- Without a writer the batch is passed over.
pub write_batch-none :
    (S : Storage) (batch : List QueuedMessage) (p : Pipeline)
    → p.writer ≡ none
    → write_batch S batch p ≡ p
unfolding write_batch
write_batch-none S [] p w = refl
write_batch-none S (qm ∷ batch) p w = rw (write_next-none S qm p w) (write_batch-none S batch p w)
