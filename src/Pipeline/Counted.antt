-- ===== src/Pipeline/Counted.antt =====
-- `messages_written_` is the number of messages in the open bag, in its 64 bits.
use mathlib.Core.Option.{some-injective}
use rosetta_recorder_cpp.Prelude.{
  ℕ, zero, suc, ◌%◌, ◌^◌, ◌≡◌, refl, sym, ap, ◌∙◌, Bool, Bool-cases, Option, none, some,
  Option-cases, inl, inr, List, [], ◌∷◌, ◌++◌, length, length-append, get_elem?, arith, not, ◌&&◌,
  is_empty,
}
use rosetta_recorder_cpp.Topics.{SerializedMessage, TopicState}
use rosetta_recorder_cpp.Pipeline.{Pipeline, QueuedMessage, BagMessage, Bag, Storage, increment}
use rosetta_recorder_cpp.Pipeline.Receive.{is_full, enqueue, on_message}
use rosetta_recorder_cpp.Pipeline.Drain.{
  Thread, waiting, holding, written, exited, Machine, can_wake, take_batch, to_bag, write_queued,
  write_next, write_batch, acknowledge, request_flush, step_at, run_thread,
}
use rosetta_recorder_cpp.Pipeline.Drain.Contents.{write_next-none}
use rosetta_recorder_cpp.Pipeline.Drain.Fifo.{write_next-skip}
use rosetta_recorder_cpp.Pipeline.Drain.Run.{write_next-queued}

abbrev pub Counts : ℕ → Option Bag → Type 0
Counts count writer = (bag : Bag) → writer ≡ some bag → count ≡ length bag.messages % 2 ^ 64

abbrev pub Counted : Pipeline → Type 0
Counted p = Counts p.messages_written p.writer

pub increment-length :
    (count : ℕ) (xs : List BagMessage) (x : BagMessage)
    → count ≡ length xs % 2 ^ 64
    → increment count ≡ length (xs ++ x ∷ []) % 2 ^ 64
increment-length count xs x e = rw (length-append xs (x ∷ [])) (omega (arith, e))

pub Counts-some :
    (count : ℕ) (bag : Bag) → count ≡ length bag.messages % 2 ^ 64 → Counts count (some bag)
Counts-some count bag e new at =
    e ∙ ap (λ (b : Bag). length b.messages % 2 ^ 64) (some-injective _ _ at)

pub Counts-none : (count : ℕ) → Counts count none
Counts-none count bag at = cc

-- What a section of the thread may do to the writer and the count.
pub record Advances (p q : Pipeline) : Type 0 where
  pub counted : Counted p → Counted q
  pub shut : p.writer ≡ none → (q.writer ≡ none) × (q.messages_written ≡ p.messages_written)
  pub opened : (bag : Bag) → p.writer ≡ some bag → (now : Bag) × (q.writer ≡ some now)

pub Advances-same :
    (p q : Pipeline) → q.writer ≡ p.writer → q.messages_written ≡ p.messages_written → Advances p q
Advances-same p q w c = record {
  counted = λ h bag at. c ∙ h bag (sym w ∙ at);
  shut = λ e. (w ∙ e, c);
  opened = λ bag e. (bag, w ∙ e);
}

pub Advances-trans : {p q r : Pipeline} → Advances p q → Advances q r → Advances p r
Advances-trans f g = record {
  counted = λ h. g.counted (f.counted h);
  shut = λ e.
      let (none_yet, same) = f.shut e in
      let (none_still, same') = g.shut none_yet in (none_still, same' ∙ same);
  opened = λ bag e. let (now, at) = f.opened bag e in g.opened now at;
}

write_queued-Advances :
    (S : Storage) (bag : Bag) (st : TopicState) (qm : QueuedMessage) (p : Pipeline)
    → p.writer ≡ some bag
    → Advances p (write_queued S bag st qm p)
unfolding write_queued
write_queued-Advances S bag st qm p w =
    elim (Option-cases (S.write_error bag (to_bag st.spec.topic qm))) [
      | inr (what, e) ↦ rw (e, write_queued) (Advances-same p _ refl refl)
      | inl e ↦
          rw (e, write_queued)
            (record {
              counted = λ h.
                  Counts-some _ _
                    (increment-length _ bag.messages (to_bag st.spec.topic qm) (h bag w));
              shut = λ none_open. cc (w, none_open);
              opened = λ old e. (_, refl);
            })
    ]

write_next-Advances :
    (S : Storage) (qm : QueuedMessage) (p : Pipeline) → Advances p (write_next S qm p)
write_next-Advances S qm p = elim (Option-cases p.writer) [
  | inl e ↦ rw (write_next-none S qm p e) (Advances-same p p refl refl)
  | inr (bag, e) ↦ elim (Option-cases (get_elem? p.table.topics qm.topic_index)) [
    | inl absent ↦ rw (write_next-skip S qm p absent) (Advances-same p p refl refl)
    | inr (st, found) ↦
        rw (write_next-queued S qm p bag st e found) (write_queued-Advances S bag st qm p e)
  ]
]

write_batch-Advances :
    (S : Storage) (batch : List QueuedMessage) (p : Pipeline) → Advances p (write_batch S batch p)
unfolding write_batch
write_batch-Advances S [] p = Advances-same p p refl refl
write_batch-Advances S (qm ∷ batch) p =
    Advances-trans (write_next-Advances S qm p) (write_batch-Advances S batch (write_next S qm p))

take_batch-Advances : (p : Pipeline) → Advances p (take_batch p).pipe
unfolding take_batch
take_batch-Advances p = elim (Bool-cases (not p.writer_thread_running && is_empty p.queue)) [
  | inl e ↦ simp e (Advances-same p p refl refl)
  | inr e ↦ simp e (Advances-same p _ refl refl)
]

acknowledge-Advances : (flushing : Bool) (p : Pipeline) → Advances p (acknowledge flushing p)
unfolding acknowledge
acknowledge-Advances flushing p = elim (Bool-cases (flushing && is_empty p.queue)) [
  | inl e ↦ simp e (Advances-same p _ refl refl)
  | inr e ↦ simp e (Advances-same p p refl refl)
]

step_at-Advances : (S : Storage) (p : Pipeline) (t : Thread) → Advances p (step_at S p t).pipe
unfolding step_at
step_at-Advances S p waiting = elim (Bool-cases (can_wake p)) [
  | inl e ↦ simp e (take_batch-Advances p)
  | inr e ↦ simp e (Advances-same p p refl refl)
]
step_at-Advances S p (holding batch flushing) = write_batch-Advances S batch p
step_at-Advances S p (written flushing) = acknowledge-Advances flushing p
step_at-Advances S p exited = Advances-same p p refl refl

pub run_thread-Advances :
    (rounds : ℕ) (S : Storage) (m : Machine) → Advances m.pipe (run_thread rounds S m).pipe
unfolding run_thread
run_thread-Advances zero S m = Advances-same m.pipe m.pipe refl refl
run_thread-Advances (suc rounds) S m =
    Advances-trans (step_at-Advances S m.pipe m.thread)
      (run_thread-Advances rounds S (step_at S m.pipe m.thread))

pub on_message-Advances :
    (now i : ℕ) (msg : SerializedMessage) (p : Pipeline) → Advances p (on_message now i msg p)
unfolding on_message enqueue
on_message-Advances now i msg p = elim (Bool-cases p.is_recording) [
  | inr off ↦ simp off (Advances-same p _ refl refl)
  | inl on ↦ elim (Bool-cases (is_full msg.buffer_length p)) [
    | inl full ↦ simp (on, full) (Advances-same p _ refl refl)
    | inr room ↦ simp (on, room) (Advances-same p _ refl refl)
  ]
]

pub request_flush-Advances : (p : Pipeline) → Advances p (request_flush p)
unfolding request_flush
request_flush-Advances p = elim (Bool-cases p.writer_thread_running) [
  | inl e ↦ simp e (Advances-same p _ refl refl)
  | inr e ↦ simp e (Advances-same p _ refl refl)
]
