-- ===== src/Tests/OnTransitions.antt =====
-- Transitions out of active while an episode is live.
use rosetta_recorder_cpp.Prelude.{refl}
use rosetta_recorder_cpp.Episode.Transitions.{on_cleanup, on_shutdown}
use rosetta_recorder_cpp.Episode.Transitions.Taken.{Reported, Away}
use rosetta_recorder_cpp.Episode.Transitions.Released.{Released, on_cleanup-Released}
use rosetta_recorder_cpp.Episode.Transitions.Leaving.{shut_down, Leaving-Away}
use rosetta_recorder_cpp.Episode.Phase.{live}
use rosetta_recorder_cpp.Tests.OnEpisode.{reasons, around, live_node}

on_cleanup-Released_example :
    Released (on_cleanup reasons around live_node)
    × Reported reasons reasons.node_deactivated live_node (on_cleanup reasons around live_node)
on_cleanup-Released_example =
    on_cleanup-Released reasons around live_node refl (live refl refl refl)

Leaving-Away_example :
    Away (on_shutdown reasons around live_node)
    × Reported reasons reasons.node_deactivated live_node (on_shutdown reasons around live_node)
Leaving-Away_example =
    Leaving-Away reasons around live_node (on_shutdown reasons around live_node)
      reasons.node_deactivated refl (live refl refl refl) shut_down
