-- ===== src/Episode/Transitions/Resting.antt =====
-- src/episode_recorder_node.cpp: a node that is not active stays at rest, whatever callback runs.
use rosetta_recorder_cpp.Floats.{Floats}
use rosetta_recorder_cpp.Prelude.{◌≡◌, refl, sym, ◌∙◌, Text, Bool, true, false, none}
use rosetta_recorder_cpp.Pipeline.Drain.Run.{run_thread-Spares}
use rosetta_recorder_cpp.Episode.{Settings, Node, Surroundings, machine_of}
use rosetta_recorder_cpp.Episode.Reason.{Reasons}
use rosetta_recorder_cpp.Episode.Lifecycle.{start_recording, complete_start, on_recording_tick}
use rosetta_recorder_cpp.Episode.Service.{handle_goal, on_start_service, on_cancel_response}
use rosetta_recorder_cpp.Episode.Phase.Services.{
  on_cancel_service-elim, on_delete_last_bag_service-elim, on_message-recording,
}
use rosetta_recorder_cpp.Episode.Phase.Callbacks.{
  becomes_canceling, Turn, accept, cancel, start, settle, tick, cancel_service, cancel_response,
  delete_service, receive, work,
}
use rosetta_recorder_cpp.Episode.Transitions.Taken.{Away}

pub Away-same :
    {D : Type 0} (n m : Node D)
    → m.accepting_goals ≡ n.accepting_goals
    → m.pipe.is_recording ≡ n.pipe.is_recording
    → m.recording_timer ≡ n.recording_timer
    → m.start_pending ≡ n.start_pending
    → (n.goal_handle ≡ none → m.goal_handle ≡ none)
    → Away n
    → Away m
Away-same n m a r t s g v = record {
  accepting = a ∙ v.accepting;
  quiet = record {
    recording = r ∙ v.quiet.recording;
    timer = t ∙ v.quiet.timer;
    pending = s ∙ v.quiet.pending;
  };
  released = g v.released;
}

handle_goal-refused : {D : Type 0} (n : Node D) → Away n → handle_goal n ≡ false
handle_goal-refused n v = simp v.accepting refl

on_start_service-Away :
    (F : Floats) (s : Settings F.Double) (w : Surroundings) (prompt : Text) (n : Node F.Double)
    → Away n
    → Away (on_start_service F s w prompt n).0
unfolding on_start_service start_recording
on_start_service-Away F s w prompt n v =
    simp v.accepting (Away-same n _ (sym v.accepting) refl refl refl (λ e. refl) v)

complete_start-Away :
    {D : Type 0} (R : Reasons) (s : Settings D) (w : Surroundings) (n : Node D)
    → Away n
    → Away (complete_start R s w n)
unfolding complete_start
complete_start-Away R s w n v =
    simp v.quiet.pending (Away-same n _ refl refl refl (sym v.quiet.pending) (λ e. e) v)

on_recording_tick-Away :
    (F : Floats) (R : Reasons) (w : Surroundings) (elapsed : F.Double) (n : Node F.Double)
    → Away n
    → Away (on_recording_tick F R w elapsed n)
unfolding on_recording_tick
on_recording_tick-Away F R w elapsed n v = simp v.quiet.recording v

on_cancel_response-Away :
    {D : Type 0} (accepted : Bool) (n : Node D) → Away n → Away (on_cancel_response accepted n)
on_cancel_response-Away true n v = v
on_cancel_response-Away false n v = Away-same n _ refl refl refl refl (λ e. e) v

pub Turn-Away :
    (F : Floats) (R : Reasons) (s : Settings F.Double) (n m : Node F.Double)
    → Turn F R s n m
    → Away n
    → Away m
Turn-Away F R s n m (accept w h free) v = cc (handle_goal-refused n v, free)
Turn-Away F R s n m cancel v =
    Away-same n (becomes_canceling n) refl refl refl refl (λ e. simp e refl) v
Turn-Away F R s n m (start w prompt) v = on_start_service-Away F s w prompt n v
Turn-Away F R s n m (settle w) v = complete_start-Away R s w n v
Turn-Away F R s n m (tick w elapsed) v = on_recording_tick-Away F R w elapsed n v
Turn-Away F R s n m (cancel_service client) v =
    on_cancel_service-elim client n Away v (Away-same n _ refl refl refl refl (λ e. e) v)
      (Away-same n _ refl refl refl refl (λ e. e) v)
Turn-Away F R s n m (cancel_response accepted) v = on_cancel_response-Away accepted n v
Turn-Away F R s n m (delete_service fs) v =
    on_delete_last_bag_service-elim fs n Away v (Away-same n _ refl refl refl refl (λ e. e) v)
Turn-Away F R s n m (receive now i msg) v =
    Away-same n _ refl (on_message-recording now i msg n.pipe) refl refl (λ e. e) v
Turn-Away F R s n m (work rounds S) v =
    Away-same n _ refl (run_thread-Spares rounds S (machine_of n)).is_recording refl refl (λ e. e) v
