-- ===== src/Tests/OnWorld.antt =====
-- The end of an episode, with its metadata, and on a storage that cannot close a bag.
use rosetta_recorder_cpp.Prelude.{ℕ, ◌≡◌, refl, codes, some, [], throw}
use rosetta_recorder_cpp.Pipeline.{Storage}
use rosetta_recorder_cpp.Pipeline.Drain.{request_flush, run_thread}
use rosetta_recorder_cpp.Pipeline.Finish.{after_wait}
use rosetta_recorder_cpp.Episode.{Node, Surroundings, machine_of}
use rosetta_recorder_cpp.Episode.Lifecycle.{finish_recording}
use rosetta_recorder_cpp.Episode.Unclosed.{close_writer_error, try_finish_recording}
use rosetta_recorder_cpp.Episode.Unclosed.Stranded.{Stranded, try_finish_recording-Stranded}
use rosetta_recorder_cpp.Episode.World.{World, surroundings}
use rosetta_recorder_cpp.Episode.World.Metadata.{Closes, finish_recording-Closes}
use rosetta_recorder_cpp.Tests.Samples.{rmw}
use rosetta_recorder_cpp.Tests.OnPipeline.{storage}
use rosetta_recorder_cpp.Tests.OnDirectory.{paths, stamp, since}
use rosetta_recorder_cpp.Tests.OnMetadata.{tree, appears}
use rosetta_recorder_cpp.Tests.OnEpisode.{reasons, around, handle, live_node}
use rosetta_recorder_cpp.Tests.OnConfigure.{fresh}

abbrev world : World tree
world = record {
  rmw = rmw;
  graph = around.graph;
  storage = storage;
  now_ns = 7;
  rounds = 3;
  paths = paths;
  local_stamp = stamp;
  since = since;
  fuel = 2;
  attempts = appears;
}

finish_recording-Closes_example :
    Closes tree reasons world fresh.config
      (codes "timeout")
      live_node
      (finish_recording reasons
        (surroundings tree world fresh.config live_node)
        (codes "timeout")
        []
        live_node)
      handle
finish_recording-Closes_example =
    finish_recording-Closes tree reasons world fresh.config (codes "timeout") [] live_node handle
      refl refl

abbrev broken : Storage
broken = record storage { close_error = λ bag. some (codes "disk full") }

abbrev on_broken : Surroundings
on_broken = record around { storage = broken; rounds = 0 }

breaks :
    close_writer_error broken (after_wait 0 broken (machine_of live_node)).pipe.writer
    ≡ some (codes "disk full")
unfolding after_wait run_thread request_flush
breaks = refl

try_finish_recording-Stranded_example :
    (m : Node ℕ) × (try_finish_recording reasons on_broken (codes "timeout") [] live_node
      ≡ throw (m, codes "disk full"))
    × Stranded reasons handle live_node m
try_finish_recording-Stranded_example =
    try_finish_recording-Stranded reasons on_broken (codes "timeout") [] (codes "disk full") handle
      live_node refl refl refl breaks
