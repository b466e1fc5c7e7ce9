-- ===== src/Episode/Unclosed.antt =====
-- src/episode_recorder_node.cpp: `finish_recording` on a storage whose `close` may throw. The call
-- of `close_writer` in it stands outside every `try` block.
pub mod Stranded
use rosetta_recorder_cpp.Floats.{Floats}
use rosetta_recorder_cpp.Prelude.{
  Text, codes, is_empty, ◌>>=◌, [], Bool, true, false, not, Option, none, some, Outcome, ok, throw,
  if◌then◌else◌,
}
use rosetta_recorder_cpp.Pipeline.{Bag, Storage}
use rosetta_recorder_cpp.Pipeline.Finish.{after_wait}
use rosetta_recorder_cpp.Episode.{Node, Surroundings, machine_of}
use rosetta_recorder_cpp.Episode.Reason.{Reasons}
use rosetta_recorder_cpp.Episode.Lifecycle.{
  close_writer, cancel_pending_start, finish_recording, publish_feedback, is_canceling, remaining,
}

-- The exception of `close_writer`.
abbrev pub close_writer_error : Storage → Option Bag → Option Text
close_writer_error S none = none
close_writer_error S (some bag) = S.close_error bag

-- What the exception leaves: the wait for the flush is over, and nothing after it has happened.
unfoldable pub left_open : {D : Type 0} → Surroundings → Node D → Node D
left_open w n =
    let m = after_wait w.rounds w.storage (machine_of n) in
    record n {
      pipe = record m.pipe { flush_requested = false };
      thread = m.thread;
      recording_timer = false;
    }

-- With the state and the text of the exception, if one leaves it.
unfoldable pub try_finish_recording :
    {D : Type 0} → Reasons → Surroundings → Text → Text → Node D → Outcome (Node D × Text) (Node D)
try_finish_recording R w reason detail n =
    if not n.pipe.is_recording
    then ok n
    else elim (close_writer_error w.storage
        (after_wait w.rounds w.storage (machine_of n)).pipe.writer) [
          | none ↦ ok (finish_recording R w reason detail n)
          | some what ↦ throw (left_open w n, what)
        ]

-- `on_recording_tick`, which lets the exception out of the timer's callback.
unfoldable pub try_on_recording_tick :
    (F : Floats)
    → Reasons
    → Surroundings
    → F.Double
    → Node F.Double
    → Outcome (Node F.Double × Text) (Node F.Double)
try_on_recording_tick F R w elapsed n =
    if not n.pipe.is_recording
    then ok n
    else if n.pipe.write_failed
    then try_finish_recording R w R.error
        (if is_empty n.pipe.write_error then codes "Write failed" else n.pipe.write_error) n
    else if n.pipe.stop_requested
    then try_finish_recording R w (if is_canceling n.goal_handle then R.cancelled else R.stopped)
        n.stop_reason n
    else if is_canceling n.goal_handle
    then try_finish_recording R w R.cancelled [] n
    else if F.le (remaining F n.current_max_duration elapsed) (F.of_ℕ 0)
    then try_finish_recording R w R.timeout [] n
    else ok (publish_feedback elapsed n)

-- What the transitions out of active share.
unfoldable pub try_take_away :
    {D : Type 0}
    → Reasons
    → Surroundings
    → Text
    → Text
    → Text
    → Node D
    → Outcome (Node D × Text) (Node D)
try_take_away R w reason before_start detail n =
    let left = cancel_pending_start R reason before_start (record n { accepting_goals = false }) in
    if left.pipe.is_recording then try_finish_recording R w reason detail left else ok left

-- After the call in the `try` block of `on_error`: the bag that is still open, if one is, is closed,
-- and an exception of either is logged.
unfoldable pub caught : {D : Type 0} → Surroundings → Outcome (Node D × Text) (Node D) → Node D
caught w (throw (left, what)) = left
caught w (ok left) = elim (close_writer_error w.storage left.pipe.writer) [
  | none ↦ close_writer left
  | some what ↦ left
]

unfoldable pub try_on_error : {D : Type 0} → Reasons → Surroundings → Node D → Node D
try_on_error R w n = caught w (
    try_take_away R w R.error (codes "Stopped: node error before recording started")
      (codes "node error") n)
