-- ===== src/Pipeline/Drain/Failure.antt =====
-- What a failed write of a batch leaves: the first failure counts.
use mathlib.Core.Option.{some-injective}
use rosetta_recorder_cpp.Prelude.{
  ℕ, zero, suc, ◌≡◌, refl, sym, ap, subst, ◌∙◌, Text, codes, true, false, not, ◌&&◌, Bool-cases,
  Option, none, some, Option-cases, inl, inr, List, [], ◌∷◌, ◌++◌, get_elem?, is_empty,
}
use rosetta_recorder_cpp.Topics.{TopicState}
use rosetta_recorder_cpp.Pipeline.{Pipeline, QueuedMessage, Bag, Storage}
use rosetta_recorder_cpp.Pipeline.Drain.{
  to_bag, write_queued, write_next, write_batch, Thread, waiting, holding, written, exited, Machine,
  can_wake, take_batch, acknowledge, step_at, run_thread,
}
use rosetta_recorder_cpp.Pipeline.Drain.Contents.{write_next-none}
use rosetta_recorder_cpp.Pipeline.Drain.Fifo.{write_next-skip}
use rosetta_recorder_cpp.Pipeline.Drain.Run.{write_next-queued}

abbrev pub failure_text : Text → Text → Text
failure_text topic what = codes "Write failed on " ++ (topic ++ (codes ": " ++ what))

abbrev noted : Text → Option Text → Option Text
noted topic none = none
noted topic (some what) = some (failure_text topic what)

abbrev failure_in : Storage → QueuedMessage → Bag → Option TopicState → Option Text
failure_in S qm bag none = none
failure_in S qm bag (some st) = noted st.spec.topic (S.write_error bag (to_bag st.spec.topic qm))

-- Why the write of one message fails, if it does.
abbrev failure_of : Storage → QueuedMessage → Pipeline → Option Bag → Option Text
failure_of S qm p none = none
failure_of S qm p (some bag) = failure_in S qm bag (get_elem? p.table.topics qm.topic_index)

-- The first failure of a batch.
unfoldable pub first_failure : Storage → List QueuedMessage → Pipeline → Option Text
first_failure S [] p = none
first_failure S (qm ∷ batch) p = elim (failure_of S qm p p.writer) [
  | some text ↦ some text
  | none ↦ first_failure S batch (write_next S qm p)
]

-- The failure is noted, or nothing is.
pub record Notes (failure : Option Text) (p q : Pipeline) : Type 0 where
  pub fine :
      failure ≡ none
      → (q.write_failed ≡ p.write_failed)
        × (q.write_error ≡ p.write_error)
        × (q.stop_requested ≡ p.stop_requested)
  pub broken :
      (text : Text)
      → failure ≡ some text
      → (q.write_failed ≡ true)
        × (q.stop_requested ≡ true)
        × (p.write_failed ≡ false → q.write_error ≡ text)
        × (p.write_failed ≡ true → q.write_error ≡ p.write_error)

Notes-none : (p : Pipeline) → Notes none p p
Notes-none p = record { fine = λ e. (refl, refl, refl); broken = λ text e. cc e }

write_queued-Notes :
    (S : Storage) (bag : Bag) (st : TopicState) (qm : QueuedMessage) (p : Pipeline)
    → Notes (failure_in S qm bag (some st)) p (write_queued S bag st qm p)
unfolding write_queued
write_queued-Notes S bag st qm p =
    elim (Option-cases (S.write_error bag (to_bag st.spec.topic qm))) [
      | inl e ↦
          rw (e, write_queued) (record { fine = λ f. (refl, refl, refl); broken = λ text f. cc f })
      | inr (what, e) ↦
          rw (e, write_queued)
            (record {
              fine = λ f. cc f;
              broken =
                  λ text f. (refl, refl, λ sound. simp sound (cc f), λ failed. simp failed refl);
            })
    ]

write_next-Notes :
    (S : Storage) (qm : QueuedMessage) (p : Pipeline)
    → Notes (failure_of S qm p p.writer) p (write_next S qm p)
write_next-Notes S qm p = elim (Option-cases p.writer) [
  | inl e ↦
      rw (write_next-none S qm p e)
        (subst (λ f. Notes f p p) (sym (ap (failure_of S qm p) e)) (Notes-none p))
  | inr (bag, e) ↦ elim (Option-cases (get_elem? p.table.topics qm.topic_index)) [
    | inl absent ↦ rw (write_next-skip S qm p absent) (
        subst (λ f. Notes f p p) (sym (ap (failure_of S qm p) e ∙ ap (failure_in S qm bag) absent))
          (Notes-none p))
    | inr (st, found) ↦ rw (write_next-queued S qm p bag st e found) (
        subst (λ f. Notes f p (write_queued S bag st qm p))
          (sym (ap (failure_of S qm p) e ∙ ap (failure_in S qm bag) found))
          (write_queued-Notes S bag st qm p))
  ]
]

-- Once a failure is noted, later ones of the batch are not.
write_batch-failed :
    (S : Storage) (batch : List QueuedMessage) (p : Pipeline)
    → p.write_failed ≡ true
    → p.stop_requested ≡ true
    → let q = write_batch S batch p in
      (q.write_failed ≡ true) × (q.stop_requested ≡ true) × (q.write_error ≡ p.write_error)
unfolding write_batch
write_batch-failed S [] p failed stop = (failed, stop, refl)
write_batch-failed S (qm ∷ batch) p failed stop =
    let one = write_next-Notes S qm p in
    elim (Option-cases (failure_of S qm p p.writer)) [
      | inl e ↦
          let (f, t, s) = one.fine e in
          let (f', s', t') =
            write_batch-failed S batch (write_next S qm p) (f ∙ failed) (s ∙ stop) in
          (f', s', t' ∙ t)
      | inr (text, e) ↦
          let (f, s, first, later) = one.broken text e in
          let (f', s', t') = write_batch-failed S batch (write_next S qm p) f s in
          (f', s', t' ∙ later failed)
    ]

-- From a pipeline where no write failed yet: if no write of the batch fails, none is noted; else the
-- first one is noted with its topic, and a stop is requested, while the rest of the batch is tried.
pub write_batch-Notes :
    (S : Storage) (batch : List QueuedMessage) (p : Pipeline)
    → p.write_failed ≡ false
    → Notes (first_failure S batch p) p (write_batch S batch p)
unfolding write_batch first_failure
write_batch-Notes S [] p sound = Notes-none p
write_batch-Notes S (qm ∷ batch) p sound =
    let one = write_next-Notes S qm p in
    elim (Option-cases (failure_of S qm p p.writer)) [
      | inl e ↦
          let (f, t, s) = one.fine e in
          let rest = write_batch-Notes S batch (write_next S qm p) (f ∙ sound) in
          rw (first_failure, e)
            (record {
              fine =
                  λ none_later. let (f', t', s') = rest.fine none_later in (f' ∙ f, t' ∙ t, s' ∙ s);
              broken = λ text later.
                  let (f', s', first, next) = rest.broken text later in
                  (f', s', λ h. first (f ∙ h), λ h. next (f ∙ h) ∙ t);
            })
      | inr (text, e) ↦
          let (f, s, first, later) = one.broken text e in
          let (f', s', t') = write_batch-failed S batch (write_next S qm p) f s in
          rw (first_failure, e)
            (record {
              fine = λ h. cc h;
              broken = λ other h. (
                f',
                s',
                λ ok_before. t' ∙ first ok_before ∙ some-injective _ _ h,
                λ failed. cc (sound, failed),
              );
            })
    ]

failure_in-nonempty :
    (S : Storage) (qm : QueuedMessage) (bag : Bag) (st : Option TopicState) (text : Text)
    → failure_in S qm bag st ≡ some text
    → is_empty text ≡ false
failure_in-nonempty S qm bag none text e = cc e
failure_in-nonempty S qm bag (some st) text e =
    elim (Option-cases (S.write_error bag (to_bag st.spec.topic qm))) [
      | inl fine ↦ cc (sym (ap (noted st.spec.topic) fine) ∙ e)
      | inr (what, broken) ↦
          ap (λ t. is_empty t)
            (sym (
              some-injective (failure_text st.spec.topic what) text
                (sym (ap (noted st.spec.topic) broken) ∙ e)))
    ]

failure_of-nonempty :
    (S : Storage) (qm : QueuedMessage) (p : Pipeline) (writer : Option Bag) (text : Text)
    → failure_of S qm p writer ≡ some text
    → is_empty text ≡ false
failure_of-nonempty S qm p none text e = cc e
failure_of-nonempty S qm p (some bag) text e = failure_in-nonempty S qm bag _ text e

pub first_failure-nonempty :
    (S : Storage) (batch : List QueuedMessage) (p : Pipeline) (text : Text)
    → first_failure S batch p ≡ some text
    → is_empty text ≡ false
unfolding first_failure
first_failure-nonempty S [] p text e = cc e
first_failure-nonempty S (qm ∷ batch) p text e = elim (Option-cases (failure_of S qm p p.writer)) [
  | inl fine ↦ first_failure-nonempty S batch (write_next S qm p) text (rest fine)
  | inr (other, broken) ↦ failure_of-nonempty S qm p p.writer text (broken ∙ first broken)
]
  where
    rest : failure_of S qm p p.writer ≡ none → first_failure S batch (write_next S qm p) ≡ some text
    rest fine = sym (rw (first_failure, fine) refl) ∙ e

    first : {other : Text} → failure_of S qm p p.writer ≡ some other → some other ≡ some text
    first broken = sym (rw (first_failure, broken) refl) ∙ e

step_at-failed :
    (S : Storage) (p : Pipeline) (t : Thread)
    → p.write_failed ≡ true
    → p.stop_requested ≡ true
    → let q = (step_at S p t).pipe in
      (q.write_failed ≡ true) × (q.stop_requested ≡ true) × (q.write_error ≡ p.write_error)
unfolding step_at take_batch acknowledge
step_at-failed S p waiting failed stop = elim (Bool-cases (can_wake p)) [
  | inr e ↦ simp e (failed, stop, refl)
  | inl e ↦ elim (Bool-cases (not p.writer_thread_running && is_empty p.queue)) [
    | inl gone ↦ simp (e, gone) (failed, stop, refl)
    | inr taken ↦ simp (e, taken) (failed, stop, refl)
  ]
]
step_at-failed S p (holding batch flushing) failed stop = write_batch-failed S batch p failed stop
step_at-failed S p (written flushing) failed stop =
    elim (Bool-cases (flushing && is_empty p.queue)) [
      | inl e ↦ simp e (failed, stop, refl)
      | inr e ↦ simp e (failed, stop, refl)
    ]
step_at-failed S p exited failed stop = (failed, stop, refl)

-- A failure that was noted before so many sections of the thread is what it was after them.
pub run_thread-failed :
    (rounds : ℕ) (S : Storage) (m : Machine)
    → m.pipe.write_failed ≡ true
    → m.pipe.stop_requested ≡ true
    → ((run_thread rounds S m).pipe.write_failed ≡ true)
      × ((run_thread rounds S m).pipe.write_error ≡ m.pipe.write_error)
unfolding run_thread
run_thread-failed zero S m failed stop = (failed, refl)
run_thread-failed (suc rounds) S m failed stop =
    let (f, s, t) = step_at-failed S m.pipe m.thread failed stop in
    let (f', t') = run_thread-failed rounds S (step_at S m.pipe m.thread) f s in (f', t' ∙ t)
