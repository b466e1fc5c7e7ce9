-- ===== src/Tests/OnEpisode.antt =====
-- Episodes of a node without topics, with whole numbers for `double`.
use rosetta_recorder_cpp.Prelude.{
  ◌+◌, ◌*◌, List, arith, ℕ, ◌≡◌, refl, codes, true, false, none, some, [], ◌∷◌,
}
use rosetta_recorder_cpp.Topics.{no_topics}
use rosetta_recorder_cpp.Episode.Configure.{all_interfaces}
use rosetta_recorder_cpp.Episode.{succeeded, GoalHandle, Settings, Node, Surroundings}
use rosetta_recorder_cpp.Episode.Reason.{Reasons, ReasonsLaws}
use rosetta_recorder_cpp.Episode.Lifecycle.{on_recording_tick}
use rosetta_recorder_cpp.Episode.Lifecycle.Table.{
  Ends, time_is_up, on_recording_tick-Ends, timed_out,
}
use rosetta_recorder_cpp.Episode.Service.{format_from, format_goal_id}
use rosetta_recorder_cpp.Episode.Service.GoalId.{format_goal_id-injective}
use rosetta_recorder_cpp.Tests.Samples.{floats, rmw}
use rosetta_recorder_cpp.Pipeline.Drain.{waiting}
use rosetta_recorder_cpp.Tests.OnPipeline.{at_rest, recording, storage}

abbrev pub reasons : Reasons
reasons = record {
  timeout = codes "timeout";
  cancelled = codes "cancelled";
  stopped = codes "stopped";
  error = codes "error";
  node_deactivated = codes "node_deactivated";
}

reasons_laws : ReasonsLaws reasons
reasons_laws = record {
  timeout_error = λ e. cc;
  timeout_node_deactivated = λ e. cc;
  timeout_cancelled = λ e. cc;
  stopped_error = λ e. cc;
  stopped_node_deactivated = λ e. cc;
  stopped_cancelled = λ e. cc;
}

abbrev pub settings : Settings ℕ
settings = record {
  storage_id = codes "mcap";
  default_max_duration_s = 300;
  record_all = false;
  default_prompt = codes "none";
}

abbrev pub around : Surroundings
around = record {
  rmw = rmw;
  graph = record {
    names_and_types = [];
    publishers = λ name. [];
    include_regex = none;
    exclude_regex = none;
  };
  storage = storage;
  now_ns = 7;
  bag_dir = codes "bags/2";
  rounds = 3;
  metadata_error = [];
}

abbrev pub handle : GoalHandle ℕ
handle = record {
  uuid = 1 ∷ 255 ∷ [];
  prompt = codes "pick";
  max_duration_s = 10;
  is_canceling = false;
}

abbrev pub idle_node : Node ℕ
idle_node = record {
  pipe = record at_rest { table = no_topics };
  thread = waiting;
  accepting_goals = true;
  start_pending = false;
  stop_reason = [];
  current_bag_dir = [];
  last_bag_dir = [];
  current_prompt = [];
  current_goal_id = [];
  recording_start = 0;
  current_max_duration = 300;
  goal_handle = none;
  pending_start_timer = false;
  pending_resubscribed = [];
  recording_timer = false;
  settled = [];
  feedback = [];
  interfaces = all_interfaces;
  contract = none;
}

abbrev pub live_node : Node ℕ
live_node = record idle_node {
  pipe = recording;
  recording_timer = true;
  goal_handle = some handle;
  current_goal_id = codes "01ff";
}

format_test : format_goal_id (1 ∷ 35 ∷ 69 ∷ 103 ∷ 137 ∷ []) ≡ codes "01234567-89"
unfolding format_from
format_test = refl

on_recording_tick-Ends_example :
    Ends live_node
      (on_recording_tick floats reasons around 400 live_node)
      handle
      (codes "timeout")
      succeeded
on_recording_tick-Ends_example =
    on_recording_tick-Ends floats reasons around 400 live_node handle (codes "timeout") succeeded
      reasons_laws refl refl refl timed_out

time_is_up_test : time_is_up floats 400 live_node ≡ true
time_is_up_test = refl

abbrev other_uuid : List ℕ
other_uuid = (0 + 1) ∷ (2 * 127 + 1) ∷ []

format_goal_id-injective_example : handle.uuid ≡ other_uuid
format_goal_id-injective_example =
    format_goal_id-injective handle.uuid other_uuid (ground arith, (ground arith, tt))
      (ground arith, (ground arith, tt)) refl
