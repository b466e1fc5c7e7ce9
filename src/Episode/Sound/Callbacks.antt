-- ===== src/Episode/Sound/Callbacks.antt =====
-- Every callback of src/episode_recorder_node.cpp leaves the node sound.
use rosetta_recorder_cpp.Floats.{Floats}
use rosetta_recorder_cpp.Prelude.{ℕ, refl, Bool, true, false}
use rosetta_recorder_cpp.Topics.{SerializedMessage}
use rosetta_recorder_cpp.Pipeline.{Storage}
use rosetta_recorder_cpp.Pipeline.Shapes.{on_message-SameTable, run_thread-SameTable}
use rosetta_recorder_cpp.Pipeline.Counted.{on_message-Advances, run_thread-Advances}
use rosetta_recorder_cpp.Pipeline.Drain.Run.{run_thread-Spares}
use rosetta_recorder_cpp.Episode.{Settings, Node, machine_of}
use rosetta_recorder_cpp.Episode.Reason.{Reasons}
use rosetta_recorder_cpp.Episode.Service.{on_cancel_response}
use rosetta_recorder_cpp.Episode.Phase.Services.{
  on_cancel_service-elim, on_delete_last_bag_service-elim, on_message-recording, receives, works,
}
use rosetta_recorder_cpp.Episode.Phase.Callbacks.{
  Turn, accept, cancel, start, settle, tick, cancel_service, cancel_response, delete_service,
  receive, work,
}
use rosetta_recorder_cpp.Episode.Sound.{Sound, Sound-same, Sound-step}
use rosetta_recorder_cpp.Episode.Sound.Starts.{
  handle_accepted-Sound, on_start_service-Sound, complete_start-Sound,
}
use rosetta_recorder_cpp.Episode.Sound.Ends.{on_recording_tick-Sound}

receives-Sound :
    {D : Type 0} (now i : ℕ) (msg : SerializedMessage) (n : Node D)
    → Sound n
    → Sound (receives now i msg n)
receives-Sound now i msg n =
    Sound-step n _ (on_message-SameTable now i msg n.pipe) (on_message-Advances now i msg n.pipe)
      (on_message-recording now i msg n.pipe) refl

pub works-Sound :
    {D : Type 0} (rounds : ℕ) (S : Storage) (n : Node D) → Sound n → Sound (works rounds S n)
works-Sound rounds S n =
    Sound-step n _ (run_thread-SameTable rounds S (machine_of n))
      (run_thread-Advances rounds S (machine_of n))
      (run_thread-Spares rounds S (machine_of n)).is_recording refl

on_cancel_response-Sound :
    {D : Type 0} (accepted : Bool) (n : Node D) → Sound n → Sound (on_cancel_response accepted n)
on_cancel_response-Sound true n v = v
on_cancel_response-Sound false n v = Sound-same n _ refl refl refl refl refl v

pub Turn-Sound :
    (F : Floats) (R : Reasons) (s : Settings F.Double) (n m : Node F.Double)
    → Turn F R s n m
    → Sound n
    → Sound m
Turn-Sound F R s n m (accept w h free) v = handle_accepted-Sound F R s w h n v
Turn-Sound F R s n m cancel v = Sound-same n _ refl refl refl refl refl v
Turn-Sound F R s n m (start w prompt) v = on_start_service-Sound F s w prompt n v
Turn-Sound F R s n m (settle w) v = complete_start-Sound R s w n v
Turn-Sound F R s n m (tick w elapsed) v = on_recording_tick-Sound F R w elapsed n v
Turn-Sound F R s n m (cancel_service client) v =
    on_cancel_service-elim client n Sound v (Sound-same n _ refl refl refl refl refl v)
      (Sound-same n _ refl refl refl refl refl v)
Turn-Sound F R s n m (cancel_response accepted) v = on_cancel_response-Sound accepted n v
Turn-Sound F R s n m (delete_service fs) v =
    on_delete_last_bag_service-elim fs n Sound v (Sound-same n _ refl refl refl refl refl v)
Turn-Sound F R s n m (receive now i msg) v = receives-Sound now i msg n v
Turn-Sound F R s n m (work rounds S) v = works-Sound rounds S n v
