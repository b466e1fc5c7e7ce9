-- ===== src/Tests/OnThread.antt =====
-- The writer thread with one message queued.
use rosetta_recorder_cpp.Prelude.{refl, true, arith}
use rosetta_recorder_cpp.Pipeline.Drain.{Machine, waiting, run_thread, stop_writer_thread}
use rosetta_recorder_cpp.Pipeline.Drain.Flush.{Answered, run_thread-Answered}
use rosetta_recorder_cpp.Pipeline.Drain.Stop.{Stopped, stop_writer_thread-Stopped}
use rosetta_recorder_cpp.Pipeline.Finish.{end_bag}
use rosetta_recorder_cpp.Pipeline.Finish.Complete.{Completes, end_bag-Completes}
use rosetta_recorder_cpp.Tests.OnPipeline.{open_bag, storage, healthy, queued}

abbrev busy : Machine
busy = record { pipe = queued; thread = waiting }

abbrev flushing : Machine
flushing = record { pipe = record queued { flush_requested = true }; thread = waiting }

run_thread-Answered_example : Answered (run_thread 3 storage flushing)
run_thread-Answered_example =
    run_thread-Answered 0 3 storage flushing refl refl refl (ground arith) (ground arith)

stop_writer_thread-Stopped_example : Stopped (stop_writer_thread 6 storage busy)
stop_writer_thread-Stopped_example =
    stop_writer_thread-Stopped 1 6 storage busy refl (λ e. cc, λ e. refl) (ground arith)
      (ground arith)

end_bag-Completes_example : Completes busy open_bag (end_bag 3 storage busy)
end_bag-Completes_example =
    end_bag-Completes 0 3 storage busy open_bag healthy refl refl refl (ground arith) (ground arith)
