-- ===== src/Pipeline/Finish/Complete.antt =====
-- src/episode_recorder_node.cpp: with enough time for the writer thread, `finish_recording` loses
-- nothing.
use rosetta_recorder_cpp.Prelude.{
  ℕ, zero, suc, ◌*◌, ◌≤◌, ◌≡◌, refl, sym, ap, ◌∙◌, true, false, none, some, [], ◌∷◌, ◌++◌, length,
  arith, Bool-cases, inl, inr,
}
use rosetta_recorder_cpp.Pipeline.{Pipeline, Bag, Storage}
use rosetta_recorder_cpp.Pipeline.Drain.{
  Machine, waiting, run_thread, request_flush, may_close, close_bag, Thread, holding, written,
  exited, step_at, can_wake,
}
use rosetta_recorder_cpp.Pipeline.Drain.Run.{run_thread-Spares}
use rosetta_recorder_cpp.Pipeline.Drain.Contents.{
  contents, take_batch-contents, write_batch-contents, acknowledge-contents, request_flush-contents,
}
use rosetta_recorder_cpp.Pipeline.Drain.Fifo.{IsHealthy, names, bagged, write_batch-Stores}
use rosetta_recorder_cpp.Pipeline.Drain.Order.{take_batch-table, acknowledge-table}
use rosetta_recorder_cpp.Pipeline.Drain.Flush.{Answered, run_thread-Answered}
use rosetta_recorder_cpp.Pipeline.Finish.{after_wait, close_and_destroy, end_bag}
use mathlib.Core.List.{append-nil}

request_flush-recording : (p : Pipeline) → (request_flush p).is_recording ≡ false
unfolding request_flush
request_flush-recording p = ground arith

close_bag-recording : (p : Pipeline) → (close_bag p).is_recording ≡ p.is_recording
unfolding close_bag
close_bag-recording p = ground arith

pub after_wait-recording :
    (rounds : ℕ) (S : Storage) (m : Machine) → (after_wait rounds S m).pipe.is_recording ≡ false
unfolding after_wait
after_wait-recording rounds S m =
    let told : Machine = record m { pipe = request_flush m.pipe } in
    let off = (run_thread-Spares rounds S told).is_recording ∙ request_flush-recording m.pipe in
    elim (Bool-cases (may_close (run_thread rounds S told).pipe)) [
      | inl e ↦ simp e off
      | inr e ↦ simp e off
    ]

pub end_bag-recording :
    (rounds : ℕ) (S : Storage) (m : Machine) → (end_bag rounds S m).pipe.is_recording ≡ false
unfolding end_bag close_and_destroy
end_bag-recording rounds S m = close_bag-recording _ ∙ after_wait-recording rounds S m

-- The bag stays open, and what is in it and on its way to it stays the same.
record Carries (m n : Machine) : Type 0 where
  bag : Bag
  opened : n.pipe.writer ≡ some bag
  carried : contents n ≡ contents m

step_at-Carries :
    (S : Storage) (p : Pipeline) (t : Thread) (bag : Bag)
    → IsHealthy S
    → p.writer ≡ some bag
    → Carries (record { pipe = p; thread = t }) (step_at S p t)
unfolding step_at
step_at-Carries S p waiting bag healthy w = elim (Bool-cases (can_wake p)) [
  | inl e ↦ simp e (record {
    bag = bag;
    opened = (take_batch-table p).1 ∙ w;
    carried = take_batch-contents (record { pipe = p; thread = waiting }) refl;
  })
  | inr e ↦ simp e (record { bag = bag; opened = w; carried = refl })
]
step_at-Carries S p (holding batch flushing) bag healthy w =
    let stores = write_batch-Stores S batch p bag healthy w in
    record {
      bag = stores.bag;
      opened = stores.opened;
      carried =
          write_batch-contents S (record { pipe = p; thread = holding batch flushing }) batch
            flushing bag healthy w refl;
    }
step_at-Carries S p (written flushing) bag healthy w = record {
  bag = bag;
  opened = (acknowledge-table flushing p).1 ∙ w;
  carried = acknowledge-contents (record { pipe = p; thread = written flushing }) flushing refl;
}
step_at-Carries S p exited bag healthy w = record { bag = bag; opened = w; carried = refl }

run_thread-Carries :
    (rounds : ℕ) (S : Storage) (m : Machine) (bag : Bag)
    → IsHealthy S
    → m.pipe.writer ≡ some bag
    → Carries m (run_thread rounds S m)
unfolding run_thread
run_thread-Carries zero S m bag healthy w = record { bag = bag; opened = w; carried = refl }
run_thread-Carries (suc rounds) S m bag healthy w =
    let one = step_at-Carries S m.pipe m.thread bag healthy w in
    let rest = run_thread-Carries rounds S (step_at S m.pipe m.thread) one.bag healthy one.opened in
    record { bag = rest.bag; opened = rest.opened; carried = rest.carried ∙ one.carried }

request_flush-lem :
    (p : Pipeline)
    → p.writer_thread_running ≡ true
    → request_flush p
      ≡ record p { is_recording = false; flush_requested = true; flush_done = false }
unfolding request_flush
request_flush-lem p running = simp running refl

-- What a bag holds in the end.
pub record Completes (m : Machine) (bag : Bag) (n : Machine) : Type 0 where
  pub final : Bag
  pub closed : n.pipe.closed ≡ m.pipe.closed ++ final ∷ []
  pub messages : final.messages ≡ bag.messages ++ bagged (names m.pipe.table.topics) m.pipe.queue
  pub shut : n.pipe.writer ≡ none
  pub none_queued : n.pipe.queue ≡ []

after_wait-Answered :
    (rounds : ℕ) (S : Storage) (m : Machine)
    → Answered (run_thread rounds S (record m { pipe = request_flush m.pipe }))
    → after_wait rounds S m ≡ run_thread rounds S (record m { pipe = request_flush m.pipe })
unfolding after_wait
after_wait-Answered rounds S m a = simp (a.done) refl

close_and_destroy-lem :
    (p : Pipeline) (bag : Bag)
    → p.writer ≡ some bag
    → ((close_and_destroy p).closed ≡ p.closed ++ bag ∷ [])
      × ((close_and_destroy p).writer ≡ none)
      × ((close_and_destroy p).queue ≡ p.queue)
unfolding close_and_destroy close_bag
close_and_destroy-lem p bag w = rw (close_bag, w) (refl, refl, refl)

contents-waiting :
    (m : Machine) (bag : Bag)
    → m.thread ≡ waiting
    → m.pipe.writer ≡ some bag
    → contents m ≡ bag.messages ++ bagged (names m.pipe.table.topics) m.pipe.queue
contents-waiting m bag waits w = rw (waits, w)

-- If no write fails and the wait is long enough for the writer thread, which was waiting, then
-- `finish_recording` closes a bag that has what was stored and then everything that was queued, in
-- order, and nothing stays behind.
pub end_bag-Completes :
    (batches rounds : ℕ) (S : Storage) (m : Machine) (bag : Bag)
    → IsHealthy S
    → m.thread ≡ waiting
    → m.pipe.writer_thread_running ≡ true
    → m.pipe.writer ≡ some bag
    → length m.pipe.queue ≤ 256 * suc batches
    → 3 * suc batches ≤ rounds
    → Completes m bag (end_bag rounds S m)
unfolding end_bag
end_bag-Completes batches rounds S m bag healthy waits running w short enough =
    let told : Machine = record m { pipe = request_flush m.pipe } in
    let e = request_flush-lem m.pipe running in
    let a =
      run_thread-Answered batches rounds S told waits (rw e running) (rw e) (rw e short) enough in
    let c = run_thread-Carries rounds S told bag healthy (rw e w) in
    let n = run_thread rounds S told in
    let (closed, shut, queue) = close_and_destroy-lem n.pipe c.bag c.opened in
    rw (after_wait-Answered rounds S m a) (record {
      final = c.bag;
      closed =
          closed
          ∙ ap (λ l. l ++ c.bag ∷ [])
              ((run_thread-Spares rounds S told).closed ∙ ap (λ (p : Pipeline). p.closed) e);
      messages =
          sym (append-nil c.bag.messages)
          ∙ ap (λ q. c.bag.messages ++ bagged (names n.pipe.table.topics) q) (sym a.queue)
          ∙ sym (contents-waiting n c.bag a.thread c.opened)
          ∙ c.carried
          ∙ request_flush-contents m
          ∙ contents-waiting m bag waits w;
      shut = shut;
      none_queued = queue ∙ a.queue;
    })
