-- ===== src/Episode/Phase/Ends.antt =====
-- src/episode_recorder_node.cpp: the ways an episode ends, and the delayed start, as they lead from
-- phase to phase.
use rosetta_recorder_cpp.Floats.{Floats}
use rosetta_recorder_cpp.Prelude.{
  ◌≡◌, refl, ◌∙◌, Text, false, none, [], Bool-cases, Option-cases, inl, inr,
}
use rosetta_recorder_cpp.Pipeline.Finish.Complete.{end_bag-recording}
use rosetta_recorder_cpp.Episode.{Settings, Node, Surroundings, machine_of}
use rosetta_recorder_cpp.Episode.Reason.{Reasons}
use rosetta_recorder_cpp.Episode.Lifecycle.{
  complete_start, cancel_pending_start, finish_recording, publish_feedback, on_recording_tick,
  is_canceling, remaining,
}
use rosetta_recorder_cpp.Episode.Phase.{
  Phase, idle, pending, live, begin_episode-cases, settle_goal-idle,
}

-- A phase looks at the flag, the timers, and whether there is a goal.
pub Phase-same :
    {D : Type 0} (n m : Node D)
    → m.pipe.is_recording ≡ n.pipe.is_recording
    → m.recording_timer ≡ n.recording_timer
    → m.start_pending ≡ n.start_pending
    → m.pending_start_timer ≡ n.pending_start_timer
    → (n.goal_handle ≡ none → m.goal_handle ≡ none)
    → Phase n
    → Phase m
Phase-same n m r t s p g (idle q e) =
    idle (record { recording = r ∙ q.recording; timer = t ∙ q.timer; pending = s ∙ q.pending })
      (g e)
Phase-same n m r t s p g (pending r' t' s' p') = pending (r ∙ r') (t ∙ t') (s ∙ s') (p ∙ p')
Phase-same n m r t s p g (live r' t' s') = live (r ∙ r') (t ∙ t') (s ∙ s')

pub finish_recording-Phase :
    {D : Type 0} (R : Reasons) (w : Surroundings) (reason detail : Text) (n : Node D)
    → Phase n
    → Phase (finish_recording R w reason detail n)
unfolding finish_recording
finish_recording-Phase R w reason detail n (idle q e) = simp q.recording (idle q e)
finish_recording-Phase R w reason detail n (pending r t s p) = simp r (pending r t s p)
finish_recording-Phase R w reason detail n (live r t s) = simp r (
    Phase-same _ _ refl refl refl refl (λ e. e)
      (settle_goal-idle R _ _ (record {
        recording = end_bag-recording w.rounds w.storage (machine_of n);
        timer = refl;
        pending = s;
      })))

publish_feedback-Phase :
    {D : Type 0} (elapsed : D) (n : Node D) → Phase n → Phase (publish_feedback elapsed n)
unfolding publish_feedback
publish_feedback-Phase elapsed n v = elim (Option-cases n.goal_handle) [
  | inl e ↦ rw (e, publish_feedback) v
  | inr (h, e) ↦
      rw (e, publish_feedback) (Phase-same n _ refl refl refl refl (λ none_held. none_held) v)
]

-- Whatever holds of the node, of its ended episode and of the node after its feedback holds after a
-- tick.
pub on_recording_tick-elim :
    (F : Floats) (R : Reasons) (w : Surroundings) (elapsed : F.Double) (n : Node F.Double)
    (P : Node F.Double → Type 0)
    → P n
    → ((reason detail : Text) → P (finish_recording R w reason detail n))
    → P (publish_feedback elapsed n)
    → P (on_recording_tick F R w elapsed n)
unfolding on_recording_tick
on_recording_tick-elim F R w elapsed n P same ends goes_on = elim (Bool-cases n.pipe.is_recording) [
  | inr off ↦ simp off same
  | inl on ↦ elim (Bool-cases n.pipe.write_failed) [
    | inl broken ↦ simp (on, broken) (ends _ _)
    | inr sound ↦ elim (Bool-cases n.pipe.stop_requested) [
      | inl stop ↦ simp (on, sound, stop) (ends _ _)
      | inr go_on ↦ elim (Bool-cases (is_canceling n.goal_handle)) [
        | inl cancel ↦ simp (on, sound, go_on, cancel) (ends _ _)
        | inr keep ↦
            elim (Bool-cases (F.le (remaining F n.current_max_duration elapsed) (F.of_ℕ 0))) [
              | inl up ↦ simp (on, sound, go_on, keep, up) (ends _ _)
              | inr left ↦ simp (on, sound, go_on, keep, left) goes_on
            ]
      ]
    ]
  ]
]

pub on_recording_tick-Phase :
    (F : Floats) (R : Reasons) (w : Surroundings) (elapsed : F.Double) (n : Node F.Double)
    → Phase n
    → Phase (on_recording_tick F R w elapsed n)
on_recording_tick-Phase F R w elapsed n v =
    on_recording_tick-elim F R w elapsed n Phase v
      (λ reason detail. finish_recording-Phase R w reason detail n v)
      (publish_feedback-Phase elapsed n v)

pub complete_start-Phase :
    {D : Type 0} (R : Reasons) (s : Settings D) (w : Surroundings) (n : Node D)
    → Phase n
    → Phase (complete_start R s w n)
unfolding complete_start
complete_start-Phase R s w n (idle q e) =
    simp q.pending (idle (record { recording = q.recording; timer = q.timer; pending = refl }) e)
complete_start-Phase R s w n (live r t p) = simp p (live r t refl)
complete_start-Phase {D} R s w n (pending r t p timer) =
    let start : Node D = record n {
      pending_start_timer = false;
      start_pending = false;
      pending_resubscribed = [];
    } in
    elim (begin_episode-cases s w start (record { recording = r; timer = t; pending = refl })) [
      | inl (fine, phase) ↦ rw (complete_start, p, fine) phase
      | inr (what, threw, quiet, same) ↦
          rw (complete_start, p, threw) (settle_goal-idle R _ _ quiet)
    ]

pub cancel_pending_start-Phase :
    {D : Type 0} (R : Reasons) (reason detail : Text) (n : Node D)
    → Phase n
    → Phase (cancel_pending_start R reason detail n)
unfolding cancel_pending_start
cancel_pending_start-Phase R reason detail n (idle q e) = simp q.pending (idle q e)
cancel_pending_start-Phase R reason detail n (live r t p) = simp p (live r t p)
cancel_pending_start-Phase R reason detail n (pending r t p timer) = simp p (
    Phase-same _ _ refl refl refl refl (λ e. e)
      (settle_goal-idle R _ _ (record { recording = r; timer = t; pending = refl })))
