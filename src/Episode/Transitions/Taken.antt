-- ===== src/Episode/Transitions/Taken.antt =====
-- src/episode_recorder_node.cpp: what a transition out of active does to an episode.
use rosetta_recorder_cpp.Prelude.{
  ◌≡◌, refl, ap, Text, true, false, Option, none, some, List, [], ◌∷◌, ◌++◌, Option-cases, inl, inr,
}
use rosetta_recorder_cpp.Pipeline.Finish.Complete.{end_bag-recording}
use rosetta_recorder_cpp.Episode.{
  GoalHandle, EpisodeResult, Settled, Node, Surroundings, machine_of,
}
use rosetta_recorder_cpp.Episode.Reason.{Reasons}
use rosetta_recorder_cpp.Episode.Settle.{terminal_of, settle_goal}
use rosetta_recorder_cpp.Episode.Lifecycle.{
  cancel_pending_start, empty_result, result_of, finish_recording,
}
use rosetta_recorder_cpp.Episode.Phase.{Quiet, Phase, idle, pending, live}
use rosetta_recorder_cpp.Episode.Transitions.{take_away}

-- What the action server has been told after `settle_goal`.
abbrev pub told :
    {D : Type 0} → Reasons → EpisodeResult → Option (GoalHandle D) → List Settled → List Settled
told R result none settled = settled
told R result (some h) settled =
    settled
    ++ record {
      goal = h.uuid;
      terminal = terminal_of R h result.termination_reason;
      result = result;
    }
      ∷ []

pub settle_goal-told :
    {D : Type 0} (R : Reasons) (result : EpisodeResult) (n : Node D)
    → settle_goal R result n
      ≡ record n { goal_handle = none; settled = told R result n.goal_handle n.settled }
unfolding settle_goal
settle_goal-told R result n = elim (Option-cases n.goal_handle) [
  | inl e ↦ rw (settle_goal, e) (ap (λ g. record n { goal_handle = g }) e)
  | inr (h, e) ↦ rw (settle_goal, e)
]

-- No episode runs or is about to, no goal is held, and none will be accepted.
pub record Away {D : Type 0} (m : Node D) : Type 0 where
  pub accepting : m.accepting_goals ≡ false
  pub quiet : Quiet m
  pub released : m.goal_handle ≡ none

-- How the episode in progress was reported, by the result that it came to.
pub record Reported {D : Type 0} (R : Reasons) (reason : Text) (n m : Node D) : Type 0 where
  pub result : EpisodeResult
  pub settled : m.settled ≡ told R result n.goal_handle n.settled
  pub why : result.termination_reason ≡ reason

cancel_pending_start-Away :
    {D : Type 0} (R : Reasons) (reason before : Text) (n : Node D)
    → n.accepting_goals ≡ false
    → n.pipe.is_recording ≡ false
    → n.recording_timer ≡ false
    → n.start_pending ≡ true
    → Away (cancel_pending_start R reason before n)
      × Reported R reason n (cancel_pending_start R reason before n)
unfolding cancel_pending_start
cancel_pending_start-Away R reason before n closed r t p =
    simp (p, settle_goal-told R)
      (
        record {
          accepting = closed;
          quiet = record { recording = r; timer = t; pending = refl };
          released = refl;
        },
        record { result = empty_result reason before; settled = refl; why = refl },
      )

pub cancel_pending_start-skip :
    {D : Type 0} (R : Reasons) (reason before : Text) (n : Node D)
    → n.start_pending ≡ false
    → cancel_pending_start R reason before n ≡ n
unfolding cancel_pending_start
cancel_pending_start-skip R reason before n p = simp p refl

finish_recording-Away :
    {D : Type 0} (R : Reasons) (w : Surroundings) (reason detail : Text) (n : Node D)
    → n.accepting_goals ≡ false
    → n.pipe.is_recording ≡ true
    → n.start_pending ≡ false
    → Away (finish_recording R w reason detail n)
unfolding finish_recording
finish_recording-Away R w reason detail n closed r p =
    simp (r, settle_goal-told R)
      (record {
        accepting = closed;
        quiet = record {
          recording = end_bag-recording w.rounds w.storage (machine_of n);
          timer = refl;
          pending = p;
        };
        released = refl;
      })

finish_recording-Reported :
    {D : Type 0} (R : Reasons) (w : Surroundings) (reason detail : Text) (n : Node D)
    → n.pipe.is_recording ≡ true
    → w.metadata_error ≡ []
    → Reported R reason n (finish_recording R w reason detail n)
unfolding finish_recording result_of
finish_recording-Reported R w reason detail n r fine =
    simp (r, fine, settle_goal-told R) (record { result = _; settled = refl; why = refl })

-- Whatever the phase, the node is quiet after it, takes no goal, and holds none.
pub take_away-Away :
    {D : Type 0} (R : Reasons) (w : Surroundings) (reason before detail : Text) (n : Node D)
    → Phase n
    → Away (take_away R w reason before detail n)
unfolding take_away
take_away-Away R w reason before detail n (idle q none_held) =
    let closed : Node _ = record n { accepting_goals = false } in
    rw (cancel_pending_start-skip R reason before closed q.pending) (
      simp q.recording (record {
        accepting = refl;
        quiet = record { recording = q.recording; timer = q.timer; pending = q.pending };
        released = none_held;
      }))
take_away-Away R w reason before detail n (pending r t p timer) =
    let closed : Node _ = record n { accepting_goals = false } in
    let (away, reported) = cancel_pending_start-Away R reason before closed refl r t p in
    simp away.quiet.recording away
take_away-Away R w reason before detail n (live r t p) =
    let closed : Node _ = record n { accepting_goals = false } in
    rw (cancel_pending_start-skip R reason before closed p)
      (simp r (finish_recording-Away R w reason detail closed refl r p))

-- What was in progress has been reported once, to its goal, with the reason of the transition, if
-- the metadata was written.
pub take_away-Reported :
    {D : Type 0} (R : Reasons) (w : Surroundings) (reason before detail : Text) (n : Node D)
    → w.metadata_error ≡ []
    → Phase n
    → Reported R reason n (take_away R w reason before detail n)
unfolding take_away
take_away-Reported R w reason before detail n fine (idle q none_held) =
    let closed : Node _ = record n { accepting_goals = false } in
    rw (cancel_pending_start-skip R reason before closed q.pending) (
      simp q.recording
        (record { result = empty_result reason before; settled = rw none_held; why = refl }))
take_away-Reported R w reason before detail n fine (pending r t p timer) =
    let closed : Node _ = record n { accepting_goals = false } in
    let (away, reported) = cancel_pending_start-Away R reason before closed refl r t p in
    simp away.quiet.recording
      (record { result = reported.result; settled = reported.settled; why = reported.why })
take_away-Reported R w reason before detail n fine (live r t p) =
    let closed : Node _ = record n { accepting_goals = false } in
    let reported = finish_recording-Reported R w reason detail closed r fine in
    rw (cancel_pending_start-skip R reason before closed p)
      (simp r (record { result = reported.result; settled = reported.settled; why = reported.why }))
