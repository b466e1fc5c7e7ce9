-- ===== src/Episode/Lifecycle.antt =====
-- src/episode_recorder_node.cpp, from `begin_episode` to `finish_recording`: how an episode starts,
-- runs and ends. `F` stands for `double`.
pub mod Table
pub mod Hurried
pub mod Failed
pub mod Leaked
use rosetta_recorder_cpp.Floats.{Floats}
use rosetta_recorder_cpp.Prelude.{
  ℕ, ◌+◌, Text, codes, decimal, Bool, true, false, not, ◌||◌, ◌==◌, Option, none, some, List, [],
  ◌∷◌, ◌++◌, length, is_empty, if◌then◌else◌, to_signed, pos,
}
use rosetta_recorder_cpp.Topics.Discovery.{destroy_discovered_subscriptions}
use rosetta_recorder_cpp.Pipeline.{Pipeline}
use rosetta_recorder_cpp.Pipeline.Drain.{Thread, waiting}
use rosetta_recorder_cpp.Pipeline.Finish.{end_bag}
use rosetta_recorder_cpp.Episode.{
  GoalHandle, EpisodeResult, Settings, Node, Surroundings, machine_of,
}
use rosetta_recorder_cpp.Episode.Reason.{Reasons}
use rosetta_recorder_cpp.Episode.Settle.{settle_goal}
use rosetta_recorder_cpp.Episode.Open.{prepare_resubscribes, open_writer}

-- The writer thread is started where it is not running.
abbrev pub started : {D : Type 0} → Node D → Thread
started n = if n.pipe.writer_thread_running then n.thread else waiting

-- With the text of the exception that leaves it, if one does.
unfoldable pub begin_episode :
    {D : Type 0} → Settings D → Surroundings → Node D → Node D × Option Text
begin_episode s w n =
    let (pipe, error) =
      open_writer w.rmw w.storage n.current_bag_dir s.storage_id w.now_ns n.pipe in
    elim error [
      | some what ↦ (record n { pipe = pipe }, some what)
      | none ↦ (
        record n {
          pipe = record pipe { is_recording = true };
          thread = started n;
          recording_start = w.now_ns;
          recording_timer = true;
        },
        none,
      )
    ]

unfoldable pub close_writer : {D : Type 0} → Node D → Node D
close_writer n = elim n.pipe.writer [
  | none ↦ n
  | some bag ↦ record n {
    pipe = record n.pipe { writer = none; closed = n.pipe.closed ++ bag ∷ [] };
  }
]

-- The state of an episode is reset for the next one.
unfoldable pub reset_episode :
    (F : Floats)
    → Settings F.Double
    → Surroundings
    → Text
    → F.Double
    → Node F.Double
    → Node F.Double
reset_episode F s w prompt max_duration_s n =
    let (table, pending) = prepare_resubscribes s.record_all w.graph n.pipe.table in
    record n {
      pipe = record n.pipe {
        stop_requested = false;
        write_failed = false;
        write_error = [];
        messages_written = 0;
        messages_dropped = 0;
        table = table;
      };
      stop_reason = [];
      current_prompt = if is_empty prompt then s.default_prompt else prompt;
      current_max_duration =
          if F.lt (F.of_ℕ 0) max_duration_s then max_duration_s else s.default_max_duration_s;
      current_bag_dir = w.bag_dir;
      pending_resubscribed = pending;
    }

abbrev pub failed_to_open : Text → Text
failed_to_open what = codes "Failed to open bag: " ++ what

-- Inline where nothing was resubscribed, else from a timer; `some` is the error that is reported.
unfoldable pub go_live : {D : Type 0} → Settings D → Surroundings → Node D → Node D × Option Text
go_live s w n =
    let (begun, error) = begin_episode s w n in
    if is_empty n.pending_resubscribed
    then elim error [
      | none ↦ (begun, none)
      | some what ↦ (close_writer begun, some (failed_to_open what))
    ]
    else (record n { start_pending = true; pending_start_timer = true }, none)

unfoldable pub start_recording :
    (F : Floats)
    → Settings F.Double
    → Surroundings
    → Text
    → F.Double
    → Node F.Double
    → Node F.Double × Option Text
start_recording F s w prompt max_duration_s n =
    if not n.accepting_goals
    then (n, some (codes "Node not active"))
    else if n.pipe.is_recording || n.start_pending
    then (n, some (codes "Already recording"))
    else go_live s w (reset_episode F s w prompt max_duration_s n)

-- The result of an episode that wrote nothing.
abbrev pub empty_result : Text → Text → EpisodeResult
empty_result reason message = record {
  termination_reason = reason;
  message = message;
  bag_path = [];
  messages_written = pos 0;
}

unfoldable pub complete_start : {D : Type 0} → Reasons → Settings D → Surroundings → Node D → Node D
complete_start R s w n =
    if not n.start_pending
    then record n { pending_start_timer = false }
    else let (begun, error) = begin_episode s w (record n {
      pending_start_timer = false;
      start_pending = false;
      pending_resubscribed = [];
    }) in
      elim error [
        | none ↦ begun
        | some what ↦
            settle_goal R (empty_result R.error (failed_to_open what)) (close_writer begun)
      ]

unfoldable pub cancel_pending_start : {D : Type 0} → Reasons → Text → Text → Node D → Node D
cancel_pending_start R reason detail n =
    if not n.start_pending
    then n
    else let settled = settle_goal R (empty_result reason detail) (record n {
      start_pending = false;
      pending_start_timer = false;
      pending_resubscribed = [];
    }) in
      record settled { current_goal_id = [] }

-- The message of a result without a metadata error.
abbrev pub with_dropped : Text → ℕ → Text
with_dropped detail dropped =
    if dropped == 0
    then detail
    else detail
      ++ ((if is_empty detail then [] else codes " ")
          ++ (decimal dropped ++ codes " dropped: writer queue full"))

unfoldable pub result_of : Reasons → Text → Text → Text → Text → Pipeline → EpisodeResult
result_of R metadata_error reason detail bag_dir p =
    if is_empty metadata_error
    then record {
      termination_reason = reason;
      message = with_dropped detail p.messages_dropped;
      bag_path = bag_dir;
      messages_written = to_signed 32 p.messages_written;
    }
    else record {
      termination_reason = R.error;
      message = codes "Recording completed but metadata failed: " ++ metadata_error;
      bag_path = bag_dir;
      messages_written = to_signed 32 p.messages_written;
    }

unfoldable pub finish_recording :
    {D : Type 0} → Reasons → Surroundings → Text → Text → Node D → Node D
finish_recording R w reason detail n =
    if not n.pipe.is_recording
    then n
    else let m = end_bag w.rounds w.storage (machine_of n) in
      let settled =
        settle_goal R (result_of R w.metadata_error reason detail n.current_bag_dir m.pipe)
          (record n {
            pipe = m.pipe;
            thread = m.thread;
            recording_timer = false;
            last_bag_dir = n.current_bag_dir;
          }) in
      record settled { current_goal_id = [] }

abbrev pub is_canceling : {D : Type 0} → Option (GoalHandle D) → Bool
is_canceling none = false
is_canceling (some h) = h.is_canceling

abbrev pub remaining : (F : Floats) → F.Double → F.Double → F.Double
remaining F max elapsed =
    if F.lt (F.of_ℕ 0) (F.minus max elapsed) then F.minus max elapsed else F.of_ℕ 0

unfoldable pub publish_feedback : {D : Type 0} → D → Node D → Node D
publish_feedback elapsed n = elim n.goal_handle [
  | none ↦ n
  | some h ↦ record n {
    feedback = n.feedback ++ (elapsed, to_signed 32 n.pipe.messages_written) ∷ [];
  }
]

-- `elapsed` is `(now() - recording_start_).seconds()`.
unfoldable pub on_recording_tick :
    (F : Floats) → Reasons → Surroundings → F.Double → Node F.Double → Node F.Double
on_recording_tick F R w elapsed n =
    if not n.pipe.is_recording
    then n
    else if n.pipe.write_failed
    then finish_recording R w R.error
        (if is_empty n.pipe.write_error then codes "Write failed" else n.pipe.write_error) n
    else if n.pipe.stop_requested
    then finish_recording R w (if is_canceling n.goal_handle then R.cancelled else R.stopped)
        n.stop_reason n
    else if is_canceling n.goal_handle
    then finish_recording R w R.cancelled [] n
    else if F.le (remaining F n.current_max_duration elapsed) (F.of_ℕ 0)
    then finish_recording R w R.timeout [] n
    else publish_feedback elapsed n
