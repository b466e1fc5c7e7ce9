-- ===== src/Tests/OnFailure.antt =====
-- A storage that refuses every message.
use rosetta_recorder_cpp.Prelude.{ℕ, arith, true, false, ◌≡◌, refl, codes, Text, some, []}
use rosetta_recorder_cpp.Pipeline.Drain.{
  holding, request_flush, run_thread, step_at, take_batch, drain,
}
use rosetta_recorder_cpp.Pipeline.Drain.Failure.{failure_text, first_failure}
use rosetta_recorder_cpp.Episode.{Node, Surroundings}
use rosetta_recorder_cpp.Episode.Settle.{terminal_of}
use rosetta_recorder_cpp.Episode.Lifecycle.{finish_recording, on_recording_tick}
use rosetta_recorder_cpp.Episode.Lifecycle.Failed.{
  EndsFailed, failed_write-Ends, begins_wait, failed_flush-Ends,
}
use rosetta_recorder_cpp.Episode.Lifecycle.Table.{Ends}
use rosetta_recorder_cpp.Episode.Phase.Services.{works}
use rosetta_recorder_cpp.Tests.Samples.{floats}
use rosetta_recorder_cpp.Tests.OnPipeline.{storage, queued}
use rosetta_recorder_cpp.Tests.OnEpisode.{reasons, around, handle, live_node}

abbrev full_disk : Surroundings
full_disk = record around {
  storage = record storage { write_error = λ bag bm. some (codes "no space left") };
}

abbrev text : Text
text = failure_text (codes "/map") (codes "no space left")

abbrev writing_node : Node ℕ
writing_node = record live_node { thread = holding queued.queue false }

first_text : first_failure full_disk.storage queued.queue writing_node.pipe ≡ some text
unfolding first_failure
first_text = refl

failed_write-Ends_example :
    EndsFailed reasons writing_node
      (on_recording_tick floats reasons full_disk 1 (works 1 full_disk.storage writing_node))
      handle
      text
failed_write-Ends_example =
    failed_write-Ends floats reasons full_disk 1 writing_node handle queued.queue false text refl
      refl refl refl first_text refl

abbrev waiting_node : Node ℕ
waiting_node = record live_node { pipe = record live_node.pipe { queue = queued.queue } }

-- The thread waits, and takes the batch when `finish_recording` already waits too. With three
-- sections the flush is answered.
flushed_text :
    first_failure full_disk.storage queued.queue
      (run_thread 1 full_disk.storage (begins_wait waiting_node)).pipe
    ≡ some text
unfolding first_failure run_thread step_at take_batch drain request_flush
flushed_text = refl

taken :
    (run_thread 1 full_disk.storage (begins_wait waiting_node)).thread ≡ holding queued.queue true
unfolding run_thread step_at take_batch drain request_flush
taken = refl

no_failure_yet :
    (run_thread 1 full_disk.storage (begins_wait waiting_node)).pipe.write_failed ≡ false
unfolding run_thread step_at take_batch drain request_flush
no_failure_yet = refl

failed_flush-Ends_example :
    let m = finish_recording reasons full_disk reasons.timeout [] waiting_node in
    (m.pipe.write_failed ≡ true)
    × (m.pipe.write_error ≡ text)
    × Ends waiting_node m handle reasons.timeout (terminal_of reasons handle reasons.timeout)
failed_flush-Ends_example =
    failed_flush-Ends reasons full_disk reasons.timeout [] waiting_node handle 1 queued.queue true
      text refl refl (ground arith) taken no_failure_yet flushed_text refl
