-- ===== src/Pipeline/Finish.antt =====
-- src/episode_recorder_node.cpp: the part of `finish_recording` on the state that the threads share.
pub mod Complete
use rosetta_recorder_cpp.Prelude.{ℕ, Bool, true, false, if◌then◌else◌}
use rosetta_recorder_cpp.Topics.Discovery.{destroy_discovered_subscriptions}
use rosetta_recorder_cpp.Pipeline.{Pipeline, Storage}
use rosetta_recorder_cpp.Pipeline.Drain.{
  Machine, run_thread, request_flush, may_close, abandon, close_bag,
}

-- The state when the wait for the flush is over: the writer thread has done so many sections, and
-- what is still queued then is dropped.
unfoldable pub after_wait : ℕ → Storage → Machine → Machine
after_wait rounds S m =
    let waited = run_thread rounds S (record m { pipe = request_flush m.pipe }) in
    if may_close waited.pipe then waited else record waited { pipe = abandon waited.pipe }

unfoldable pub close_and_destroy : Pipeline → Pipeline
close_and_destroy p =
    let closed = close_bag p in
    record closed { table = destroy_discovered_subscriptions closed.table }

-- From the request for the flush to the closed bag; `close` does not throw.
unfoldable pub end_bag : ℕ → Storage → Machine → Machine
end_bag rounds S m =
    let waited = after_wait rounds S m in record waited { pipe = close_and_destroy waited.pipe }
