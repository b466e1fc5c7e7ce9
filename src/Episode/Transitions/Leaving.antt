-- ===== src/Episode/Transitions/Leaving.antt =====
-- src/episode_recorder_node.cpp: every transition out of active ends what is in progress.
use rosetta_recorder_cpp.Prelude.{◌≡◌, refl, ◌∙◌, Text, codes, [], Option-cases, inl, inr}
use rosetta_recorder_cpp.Episode.{Node, Surroundings, machine_of}
use rosetta_recorder_cpp.Episode.Reason.{Reasons}
use rosetta_recorder_cpp.Episode.Lifecycle.{close_writer}
use rosetta_recorder_cpp.Episode.Phase.{Phase}
use rosetta_recorder_cpp.Episode.Transitions.{
  take_away, on_deactivate, on_cleanup, on_shutdown, on_error,
}
use rosetta_recorder_cpp.Episode.Transitions.Taken.{
  Away, Reported, take_away-Away, take_away-Reported,
}
use rosetta_recorder_cpp.Episode.Transitions.Released.{
  stop_writer_thread-Joins, on_cleanup-Away, on_cleanup-Released,
}

-- The transitions out of active, each with its reason.
pub data Leaving {D : Type 0} (R : Reasons) (w : Surroundings) (n : Node D)
    : Text → Node D → Type 0 where
  deactivated : Leaving R w n R.node_deactivated (on_deactivate R w n)
  cleaned_up : Leaving R w n R.node_deactivated (on_cleanup R w n)
  shut_down : Leaving R w n R.node_deactivated (on_shutdown R w n)
  errored : Leaving R w n R.error (on_error R w n)

on_shutdown-Away :
    {D : Type 0} (R : Reasons) (w : Surroundings) (n : Node D) → Phase n → Away (on_shutdown R w n)
unfolding on_shutdown
on_shutdown-Away R w n phase =
    let before = codes "Stopped: node shutdown before recording started" in
    let detail = codes "node shutdown" in
    let away = take_away-Away R w R.node_deactivated before detail n phase in
    let left = take_away R w R.node_deactivated before detail n in
    let joins = stop_writer_thread-Joins w.rounds w.storage (machine_of left) in
    record {
      accepting = away.accepting;
      quiet = record {
        recording = joins.same_recording ∙ away.quiet.recording;
        timer = refl;
        pending = away.quiet.pending;
      };
      released = away.released;
    }

on_shutdown-Reported :
    {D : Type 0} (R : Reasons) (w : Surroundings) (n : Node D)
    → w.metadata_error ≡ []
    → Phase n
    → Reported R R.node_deactivated n (on_shutdown R w n)
unfolding on_shutdown
on_shutdown-Reported R w n fine phase =
    let reported =
      take_away-Reported R w R.node_deactivated _ (codes "node shutdown") n fine phase in
    record { result = reported.result; settled = reported.settled; why = reported.why }

close_writer-Away : {D : Type 0} (m : Node D) → Away m → Away (close_writer m)
unfolding close_writer
close_writer-Away m away = elim (Option-cases m.pipe.writer) [
  | inl e ↦ rw (e, close_writer) away
  | inr (bag, e) ↦
      rw (e, close_writer)
        (record {
          accepting = away.accepting;
          quiet = record {
            recording = away.quiet.recording;
            timer = away.quiet.timer;
            pending = away.quiet.pending;
          };
          released = away.released;
        })
]

close_writer-Reported :
    {D : Type 0} (R : Reasons) (reason : Text) (n m : Node D)
    → Reported R reason n m
    → Reported R reason n (close_writer m)
unfolding close_writer
close_writer-Reported R reason n m reported = elim (Option-cases m.pipe.writer) [
  | inl e ↦ rw (e, close_writer) reported
  | inr (bag, e) ↦
      rw (e, close_writer)
        (record { result = reported.result; settled = reported.settled; why = reported.why })
]

pub Leaving-left :
    {D : Type 0} (R : Reasons) (w : Surroundings) (n m : Node D) (reason : Text)
    → Phase n
    → Leaving R w n reason m
    → Away m
unfolding on_deactivate on_error
Leaving-left R w n m reason phase deactivated = take_away-Away R w R.node_deactivated _ _ n phase
Leaving-left R w n m reason phase cleaned_up = on_cleanup-Away R w n phase
Leaving-left R w n m reason phase shut_down = on_shutdown-Away R w n phase
Leaving-left R w n m reason phase errored =
    close_writer-Away _ (take_away-Away R w R.error _ _ n phase)

Leaving-Reported :
    {D : Type 0} (R : Reasons) (w : Surroundings) (n m : Node D) (reason : Text)
    → w.metadata_error ≡ []
    → Phase n
    → Leaving R w n reason m
    → Reported R reason n m
unfolding on_deactivate on_error
Leaving-Reported R w n m reason fine phase deactivated =
    take_away-Reported R w R.node_deactivated _ _ n fine phase
Leaving-Reported R w n m reason fine phase cleaned_up = (on_cleanup-Released R w n fine phase).1
Leaving-Reported R w n m reason fine phase shut_down = on_shutdown-Reported R w n fine phase
Leaving-Reported R w n m reason fine phase errored =
    close_writer-Reported R R.error n _ (take_away-Reported R w R.error _ _ n fine phase)

-- Whatever the phase and whichever transition, the node is quiet after it, accepts no goal and
-- holds none, and what was in progress has been reported to its goal once, with the reason of the
-- transition, if the metadata was written.
pub Leaving-Away :
    {D : Type 0} (R : Reasons) (w : Surroundings) (n m : Node D) (reason : Text)
    → w.metadata_error ≡ []
    → Phase n
    → Leaving R w n reason m
    → Away m × Reported R reason n m
Leaving-Away R w n m reason fine phase l =
    (Leaving-left R w n m reason phase l, Leaving-Reported R w n m reason fine phase l)
