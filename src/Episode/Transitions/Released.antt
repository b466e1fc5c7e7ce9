-- ===== src/Episode/Transitions/Released.antt =====
-- src/episode_recorder_node.cpp: what `on_cleanup` leaves.
use rosetta_recorder_cpp.Prelude.{ℕ, ◌≡◌, refl, ◌∙◌, codes, false, none, [], Bool-cases, inl, inr}
use rosetta_recorder_cpp.Topics.{no_topics}
use rosetta_recorder_cpp.Pipeline.{Storage}
use rosetta_recorder_cpp.Pipeline.Drain.{Machine, stop_writer_thread}
use rosetta_recorder_cpp.Pipeline.Drain.Run.{run_thread-Spares}
use rosetta_recorder_cpp.Episode.{Node, Surroundings, machine_of}
use rosetta_recorder_cpp.Episode.Reason.{Reasons}
use rosetta_recorder_cpp.Episode.Phase.{Phase}
use rosetta_recorder_cpp.Episode.Transitions.{take_away, no_interfaces, on_cleanup}
use rosetta_recorder_cpp.Episode.Transitions.Taken.{
  Away, Reported, take_away-Away, take_away-Reported,
}

-- What a join leaves alone, and that the thread is told to stop.
pub record Joins (m n : Machine) : Type 0 where
  pub stopped : n.pipe.writer_thread_running ≡ false
  pub same_recording : n.pipe.is_recording ≡ m.pipe.is_recording

pub stop_writer_thread-Joins :
    (rounds : ℕ) (S : Storage) (m : Machine) → Joins m (stop_writer_thread rounds S m)
unfolding stop_writer_thread
stop_writer_thread-Joins rounds S m = elim (Bool-cases m.pipe.writer_thread_running) [
  | inr e ↦ simp e (record { stopped = e; same_recording = refl })
  | inl e ↦
      let spares =
        run_thread-Spares rounds S
          (record m { pipe = record m.pipe { writer_thread_running = false } }) in
      simp e (record { stopped = spares.running; same_recording = spares.is_recording })
]

-- Nothing of a configuration is left.
pub record Released {D : Type 0} (m : Node D) : Type 0 where
  pub away : Away m
  pub stopped : m.pipe.writer_thread_running ≡ false
  pub queue : m.pipe.queue ≡ []
  pub queue_bytes : m.pipe.queue_bytes ≡ 0
  pub flush_requested : m.pipe.flush_requested ≡ false
  pub table : m.pipe.table ≡ no_topics
  pub interfaces : m.interfaces ≡ no_interfaces
  pub contract : m.contract ≡ none

pub on_cleanup-Away :
    {D : Type 0} (R : Reasons) (w : Surroundings) (n : Node D) → Phase n → Away (on_cleanup R w n)
unfolding on_cleanup
on_cleanup-Away R w n phase =
    let before = codes "Stopped: node cleanup before recording started" in
    let detail = codes "node cleanup" in
    let away = take_away-Away R w R.node_deactivated before detail n phase in
    let left = take_away R w R.node_deactivated before detail n in
    let joins = stop_writer_thread-Joins w.rounds w.storage (machine_of left) in
    record {
      accepting = away.accepting;
      quiet = record {
        recording = joins.same_recording ∙ away.quiet.recording;
        timer = refl;
        pending = away.quiet.pending;
      };
      released = away.released;
    }

-- Cleaning up in any phase ends and reports what is in progress, if the metadata was written, and
-- leaves no topic, no queued message, no contract and no interface, with the writer thread told to
-- stop.
pub on_cleanup-Released :
    {D : Type 0} (R : Reasons) (w : Surroundings) (n : Node D)
    → w.metadata_error ≡ []
    → Phase n
    → Released (on_cleanup R w n) × Reported R R.node_deactivated n (on_cleanup R w n)
unfolding on_cleanup
on_cleanup-Released R w n fine phase =
    let before = codes "Stopped: node cleanup before recording started" in
    let detail = codes "node cleanup" in
    let reported = take_away-Reported R w R.node_deactivated before detail n fine phase in
    let left = take_away R w R.node_deactivated before detail n in
    (
      record {
        away = on_cleanup-Away R w n phase;
        stopped = (stop_writer_thread-Joins w.rounds w.storage (machine_of left)).stopped;
        queue = refl;
        queue_bytes = refl;
        flush_requested = refl;
        table = refl;
        interfaces = refl;
        contract = refl;
      },
      record { result = reported.result; settled = reported.settled; why = reported.why },
    )
