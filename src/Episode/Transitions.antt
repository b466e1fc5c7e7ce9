-- ===== src/Episode/Transitions.antt =====
-- src/episode_recorder_node.cpp: the lifecycle transitions but `on_configure`, which is in
-- Configure. The base class's part of a transition is not in them.
pub mod Taken
pub mod Released
pub mod Leaving
pub mod Resting
use rosetta_recorder_cpp.Prelude.{
  ℕ, Text, codes, Bool, true, false, Option, none, some, [], if◌then◌else◌,
}
use rosetta_recorder_cpp.Topics.{no_topics}
use rosetta_recorder_cpp.Pipeline.{Pipeline, Storage}
use rosetta_recorder_cpp.Pipeline.Drain.{Machine, stop_writer_thread}
use rosetta_recorder_cpp.Episode.{Interfaces, Node, Surroundings, machine_of}
use rosetta_recorder_cpp.Episode.Reason.{Reasons}
use rosetta_recorder_cpp.Episode.Lifecycle.{close_writer, cancel_pending_start, finish_recording}

abbrev pub on_activate : {D : Type 0} → Node D → Node D
on_activate n = record n { accepting_goals = true }

-- The part that the transitions out of active share: no goal is accepted from here on, and a start
-- that waits or an episode that runs is ended, each with its own text.
unfoldable pub take_away :
    {D : Type 0} → Reasons → Surroundings → Text → Text → Text → Node D → Node D
take_away R w reason before_start detail n =
    let left = cancel_pending_start R reason before_start (record n { accepting_goals = false }) in
    if left.pipe.is_recording then finish_recording R w reason detail left else left

unfoldable pub on_deactivate : {D : Type 0} → Reasons → Surroundings → Node D → Node D
on_deactivate R w n =
    take_away R w R.node_deactivated (codes "Stopped: node deactivated before recording started")
      (codes "node deactivated") n

abbrev pub join_writer : {D : Type 0} → Surroundings → Node D → Node D
join_writer w n =
    let m = stop_writer_thread w.rounds w.storage (machine_of n) in
    record n { pipe = m.pipe; thread = m.thread }

abbrev pub clear_queue : Pipeline → Pipeline
clear_queue p = record p {
  queue = [];
  queue_bytes = 0;
  flush_requested = false;
  flush_done = false;
}

abbrev pub no_interfaces : Interfaces
no_interfaces = record {
  action_server = false;
  action_cancel_client = false;
  start_service = false;
  cancel_service = false;
  delete_last_bag_service = false;
}

unfoldable pub on_cleanup : {D : Type 0} → Reasons → Surroundings → Node D → Node D
on_cleanup R w n =
    let joined = join_writer w (
      take_away R w R.node_deactivated (codes "Stopped: node cleanup before recording started")
        (codes "node cleanup") n) in
    record joined {
      pipe = record (clear_queue joined.pipe) { table = no_topics };
      recording_timer = false;
      interfaces = no_interfaces;
      contract = none;
    }

unfoldable pub on_shutdown : {D : Type 0} → Reasons → Surroundings → Node D → Node D
on_shutdown R w n =
    let joined = join_writer w (
      take_away R w R.node_deactivated (codes "Stopped: node shutdown before recording started")
        (codes "node shutdown") n) in
    record joined {
      pipe = record joined.pipe { table = no_topics };
      recording_timer = false;
      interfaces = record joined.interfaces { action_server = false };
    }

-- Nothing in its `try` block throws here.
unfoldable pub on_error : {D : Type 0} → Reasons → Surroundings → Node D → Node D
on_error R w n = close_writer (
    take_away R w R.error (codes "Stopped: node error before recording started")
      (codes "node error") n)

-- The destructor.
unfoldable pub destroy : {D : Type 0} → Surroundings → Node D → Node D
destroy w n =
    join_writer w
      (record n { pipe = record n.pipe { stop_requested = true; is_recording = false } })
