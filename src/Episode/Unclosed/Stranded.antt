-- ===== src/Episode/Unclosed/Stranded.antt =====
-- src/episode_recorder_node.cpp: what an exception from closing the bag does to the goal.
use rosetta_recorder_cpp.Prelude.{
  ◌≡◌, refl, ◌∙◌, Text, true, false, some, throw, Option-cases, inl, inr,
}
use rosetta_recorder_cpp.Pipeline.Finish.{after_wait}
use rosetta_recorder_cpp.Pipeline.Finish.Complete.{after_wait-recording}
use rosetta_recorder_cpp.Episode.{GoalHandle, Node, Surroundings, machine_of}
use rosetta_recorder_cpp.Episode.Reason.{Reasons}
use rosetta_recorder_cpp.Episode.Lifecycle.{close_writer}
use rosetta_recorder_cpp.Episode.Phase.{Phase, idle, pending, live}
use rosetta_recorder_cpp.Episode.Transitions.{take_away, on_error}
use rosetta_recorder_cpp.Episode.Transitions.Taken.{cancel_pending_start-skip}
use rosetta_recorder_cpp.Episode.Unclosed.{close_writer_error, left_open, try_finish_recording}

-- The node is quiet but still holds its goal, which nothing has settled, and neither a later tick
-- nor a later transition will.
pub record Stranded {D : Type 0} (R : Reasons) (h : GoalHandle D) (n m : Node D) : Type 0 where
  pub recording : m.pipe.is_recording ≡ false
  pub timer : m.recording_timer ≡ false
  pub held : m.goal_handle ≡ some h
  pub settled : m.settled ≡ n.settled
  pub no_phase : ¬ Phase m
  pub taken_away :
      (w : Surroundings) (reason before detail : Text)
      → (take_away R w reason before detail m).settled ≡ n.settled
  pub errored : (w : Surroundings) → (on_error R w m).settled ≡ n.settled

close_writer-settled : {D : Type 0} (n : Node D) → (close_writer n).settled ≡ n.settled
unfolding close_writer
close_writer-settled n = elim (Option-cases n.pipe.writer) [
  | inl e ↦ rw (e, close_writer)
  | inr (bag, e) ↦ rw (e, close_writer)
]

take_away_idle :
    {D : Type 0} (R : Reasons) (w : Surroundings) (reason before detail : Text) (m : Node D)
    → m.pipe.is_recording ≡ false
    → m.start_pending ≡ false
    → (take_away R w reason before detail m).settled ≡ m.settled
unfolding take_away
take_away_idle R w reason before detail m r p =
    let closed : Node _ = record m { accepting_goals = false } in
    rw (cancel_pending_start-skip R reason before closed p) (simp r refl)

quiet-Stranded :
    {D : Type 0} (R : Reasons) (h : GoalHandle D) (n m : Node D)
    → m.pipe.is_recording ≡ false
    → m.recording_timer ≡ false
    → m.start_pending ≡ false
    → m.goal_handle ≡ some h
    → m.settled ≡ n.settled
    → Stranded R h n m
unfolding on_error
quiet-Stranded R h n m r t p held same = record {
  recording = r;
  timer = t;
  held = held;
  settled = same;
  no_phase = λ phase. no_phase phase;
  taken_away = λ w reason before detail. take_away_idle R w reason before detail m r p ∙ same;
  errored = λ w.
      close_writer-settled (take_away R w R.error _ _ m)
      ∙ take_away_idle R w R.error _ _ m r p
      ∙ same;
}
  where
    no_phase : Phase m → ⊥
    no_phase (idle q none_held) = cc (held, none_held)
    no_phase (pending r' t' p' timer) = cc (p, p')
    no_phase (live r' t' p') = cc (r, r')

-- If the bag of a running episode cannot be closed, the exception leaves the node outside its
-- phases: nothing is recorded and no timer runs, but the goal is held and not settled, and no
-- later transition settles it.
pub try_finish_recording-Stranded :
    {D : Type 0} (R : Reasons) (w : Surroundings) (reason detail what : Text) (h : GoalHandle D)
    (n : Node D)
    → n.pipe.is_recording ≡ true
    → n.start_pending ≡ false
    → n.goal_handle ≡ some h
    → close_writer_error w.storage (after_wait w.rounds w.storage (machine_of n)).pipe.writer
      ≡ some what
    → (m : Node D) × (try_finish_recording R w reason detail n ≡ throw (m, what)) × Stranded R h n m
unfolding try_finish_recording left_open
try_finish_recording-Stranded R w reason detail what h n r p held e = (
  left_open w n,
  simp (r, e) refl,
  quiet-Stranded R h n (left_open w n) (after_wait-recording w.rounds w.storage (machine_of n)) refl
      p held refl,
)
