-- ===== src/Episode/Lifecycle/Failed.antt =====
-- src/episode_recorder_node.cpp: how a failed write ends an episode, and where it does not.
use rosetta_recorder_cpp.Floats.{Floats}
use rosetta_recorder_cpp.Prelude.{
  ℕ, suc, ◌-◌, ◌<◌, arith, ◌≡◌, refl, sym, ap, subst, ◌∙◌, Text, Bool, true, false, Bool-cases,
  none, some, Option-cases, inl, inr, List, [], ◌∷◌, ◌++◌, is_empty,
}
use rosetta_recorder_cpp.Pipeline.{Pipeline, QueuedMessage, Storage}
use rosetta_recorder_cpp.Pipeline.Drain.{
  holding, written, Machine, run_thread, step_at, write_batch, request_flush, may_close, close_bag,
}
use rosetta_recorder_cpp.Pipeline.Drain.Run.{write_batch-Apart, run_thread_add}
use rosetta_recorder_cpp.Pipeline.Drain.Failure.{
  first_failure, first_failure-nonempty, write_batch-Notes, run_thread-failed,
}
use rosetta_recorder_cpp.Pipeline.Finish.{after_wait, close_and_destroy, end_bag}
use rosetta_recorder_cpp.Episode.{GoalHandle, EpisodeResult, Node, Surroundings, machine_of}
use rosetta_recorder_cpp.Episode.Reason.{Reasons}
use rosetta_recorder_cpp.Episode.Settle.{terminal_of, settle_goal}
use rosetta_recorder_cpp.Episode.Lifecycle.{
  with_dropped, result_of, finish_recording, on_recording_tick,
}
use rosetta_recorder_cpp.Episode.Lifecycle.Table.{Ends, finish_recording-Ends}
use rosetta_recorder_cpp.Episode.Phase.Services.{works}
use rosetta_recorder_cpp.Episode.Transitions.Taken.{settle_goal-told}

works-writes :
    {D : Type 0} (S : Storage) (n : Node D) (batch : List QueuedMessage) (flushing : Bool)
    → n.thread ≡ holding batch flushing
    → works 1 S n ≡ record n { pipe = write_batch S batch n.pipe; thread = written flushing }
unfolding run_thread step_at
works-writes S n batch flushing held = simp held refl

-- The goal was told that its episode ended as an error, with this text.
pub record EndsFailed {D : Type 0} (R : Reasons) (n m : Node D) (h : GoalHandle D) (text : Text)
    : Type 0 where
  pub result : EpisodeResult
  pub told :
      m.settled
      ≡ n.settled
        ++ record { goal = h.uuid; terminal = terminal_of R h R.error; result = result } ∷ []
  pub why : result.termination_reason ≡ R.error
  pub dropped : ℕ
  pub message : result.message ≡ with_dropped text dropped
  pub released : m.goal_handle ≡ none

finish_recording-EndsFailed :
    {D : Type 0} (R : Reasons) (w : Surroundings) (text : Text) (n : Node D) (h : GoalHandle D)
    → n.pipe.is_recording ≡ true
    → n.goal_handle ≡ some h
    → w.metadata_error ≡ []
    → EndsFailed R n (finish_recording R w R.error text n) h text
unfolding finish_recording settle_goal result_of
finish_recording-EndsFailed R w text n h on has fine = record {
  result =
      result_of R [] R.error text n.current_bag_dir
        (end_bag w.rounds w.storage (machine_of n)).pipe;
  told = simp (on, has, fine) refl;
  why = refl;
  dropped = (end_bag w.rounds w.storage (machine_of n)).pipe.messages_dropped;
  message = refl;
  released = simp (on, has) refl;
}

tick-fails :
    (F : Floats) (R : Reasons) (w : Surroundings) (elapsed : F.Double) (n : Node F.Double)
    → n.pipe.is_recording ≡ true
    → n.pipe.write_failed ≡ true
    → is_empty n.pipe.write_error ≡ false
    → on_recording_tick F R w elapsed n ≡ finish_recording R w R.error n.pipe.write_error n
unfolding on_recording_tick
tick-fails F R w elapsed n on broken text = simp (on, broken, text) refl

-- If a write of the batch that the thread holds is the first of the episode to fail, then the next
-- tick after the thread's section ends the episode, whatever else is requested, and tells the goal
-- the error with the topic and the storage's text of that first failure, if the metadata is written.
pub failed_write-Ends :
    (F : Floats) (R : Reasons) (w : Surroundings) (elapsed : F.Double) (n : Node F.Double)
    (h : GoalHandle F.Double) (batch : List QueuedMessage) (flushing : Bool) (text : Text)
    → n.pipe.is_recording ≡ true
    → n.goal_handle ≡ some h
    → n.thread ≡ holding batch flushing
    → n.pipe.write_failed ≡ false
    → first_failure w.storage batch n.pipe ≡ some text
    → w.metadata_error ≡ []
    → EndsFailed R n (on_recording_tick F R w elapsed (works 1 w.storage n)) h text
failed_write-Ends F R w elapsed n h batch flushing text on has held sound fails fine =
    let S = w.storage in
    let after : Node F.Double = record n {
      pipe = write_batch S batch n.pipe;
      thread = written flushing;
    } in
    let (failed, stop, first, later) = (write_batch-Notes S batch n.pipe sound).broken text fails in
    let note = first sound in
    let recording = (write_batch-Apart S batch n.pipe).spares.is_recording ∙ on in
    let ended = finish_recording-EndsFailed R w text after h recording has fine in
    subst (λ m. EndsFailed R n m h text)
      (sym (
        ap (on_recording_tick F R w elapsed) (works-writes S n batch flushing held)
        ∙ tick-fails F R w elapsed after recording failed
            (ap (λ t. is_empty t) note ∙ first_failure-nonempty S batch n.pipe text fails)
        ∙ ap (λ t. finish_recording R w R.error t after) note))
      (record {
        result = ended.result;
        told = ended.told;
        why = ended.why;
        dropped = ended.dropped;
        message = ended.message;
        released = ended.released;
      })

close_and_destroy-same :
    (p : Pipeline)
    → ((close_and_destroy p).write_failed ≡ p.write_failed)
      × ((close_and_destroy p).write_error ≡ p.write_error)
unfolding close_and_destroy close_bag
close_and_destroy-same p = elim (Option-cases p.writer) [
  | inl e ↦ rw (close_bag, e) (refl, refl)
  | inr (bag, e) ↦ rw (close_bag, e) (refl, refl)
]

-- The threads when `finish_recording` begins to wait.
abbrev pub begins_wait : {D : Type 0} → Node D → Machine
begins_wait n = record (machine_of n) { pipe = request_flush (machine_of n).pipe }

after_wait-same :
    (rounds : ℕ) (S : Storage) (m : Machine)
    → let waited = run_thread rounds S (record m { pipe = request_flush m.pipe }) in
      ((after_wait rounds S m).pipe.write_failed ≡ waited.pipe.write_failed)
      × ((after_wait rounds S m).pipe.write_error ≡ waited.pipe.write_error)
unfolding after_wait
after_wait-same rounds S m =
    let waited = run_thread rounds S (record m { pipe = request_flush m.pipe }) in
    elim (Bool-cases (may_close waited.pipe)) [
      | inl e ↦ simp e (refl, refl)
      | inr e ↦ simp e (refl, refl)
    ]

one_section :
    (S : Storage) (m : Machine) (batch : List QueuedMessage) (flushing : Bool)
    → m.thread ≡ holding batch flushing
    → run_thread 1 S m ≡ record { pipe = write_batch S batch m.pipe; thread = written flushing }
unfolding run_thread step_at
one_section S m batch flushing held = simp held refl

-- The failure of a batch that the thread holds after `count` sections is there after more of them.
run_thread-notes :
    (count rounds : ℕ) (S : Storage) (m : Machine) (batch : List QueuedMessage) (flushing : Bool)
    (text : Text)
    → count < rounds
    → let at = run_thread count S m in
      at.thread ≡ holding batch flushing
      → at.pipe.write_failed ≡ false
      → first_failure S batch at.pipe ≡ some text
      → ((run_thread rounds S m).pipe.write_failed ≡ true)
        × ((run_thread rounds S m).pipe.write_error ≡ text)
run_thread-notes count rounds S m batch flushing text within held sound fails =
    let at = run_thread count S m in
    let (failed, stop, first, later) =
      (write_batch-Notes S batch at.pipe sound).broken text fails in
    let next : Machine = record { pipe = write_batch S batch at.pipe; thread = written flushing } in
    let (f, t) = run_thread-failed (rounds - suc count) S next failed stop in
    rw
      (
        run_thread_add count (rounds - count) rounds S m (omega (arith, within)),
        run_thread_add 1 (rounds - suc count) (rounds - count) S at (omega (arith, within)),
        one_section S at batch flushing held,
      )
      (f, t ∙ first sound)

finish_recording-pipe :
    {D : Type 0} (R : Reasons) (w : Surroundings) (reason detail : Text) (n : Node D)
    → n.pipe.is_recording ≡ true
    → (finish_recording R w reason detail n).pipe ≡ (end_bag w.rounds w.storage (machine_of n)).pipe
unfolding finish_recording
finish_recording-pipe R w reason detail n on = simp (on, settle_goal-told R) refl

-- If the first write of the episode to fail is in a batch that the thread holds after any number of
-- sections of the wait for the flush, and writes within the wait, then the failure is noted in the
-- node, but the goal is told the reason and gets the state that it would have without it, if the
-- metadata is written.
pub failed_flush-Ends :
    {D : Type 0} (R : Reasons) (w : Surroundings) (reason detail : Text) (n : Node D)
    (h : GoalHandle D) (count : ℕ) (batch : List QueuedMessage) (flushing : Bool) (text : Text)
    → n.pipe.is_recording ≡ true
    → n.goal_handle ≡ some h
    → count < w.rounds
    → (run_thread count w.storage (begins_wait n)).thread ≡ holding batch flushing
    → (run_thread count w.storage (begins_wait n)).pipe.write_failed ≡ false
    → first_failure w.storage batch (run_thread count w.storage (begins_wait n)).pipe ≡ some text
    → w.metadata_error ≡ []
    → let m = finish_recording R w reason detail n in
      (m.pipe.write_failed ≡ true)
      × (m.pipe.write_error ≡ text)
      × Ends n m h reason (terminal_of R h reason)
unfolding end_bag
failed_flush-Ends R w reason detail n h count batch flushing text on has within held sound fails
      fine =
    let S = w.storage in
    let (f, t) =
      run_thread-notes count w.rounds S (begins_wait n) batch flushing text within held sound
        fails in
    let (f', t') = after_wait-same w.rounds S (machine_of n) in
    let (f'', t'') = close_and_destroy-same (after_wait w.rounds S (machine_of n)).pipe in
    let e = finish_recording-pipe R w reason detail n on in
    (
      ap (λ (p : Pipeline). p.write_failed) e ∙ f'' ∙ f' ∙ f,
      ap (λ (p : Pipeline). p.write_error) e ∙ t'' ∙ t' ∙ t,
      finish_recording-Ends R w reason detail n h on has fine,
    )
