-- ===== src/Episode/Initial.antt =====
-- include/rosetta_recorder_cpp/episode_recorder_node.hpp: the member initialisers, and the
-- constructor of src/episode_recorder_node.cpp: the node before anything is called on it.
use rosetta_recorder_cpp.Floats.{Floats}
use rosetta_recorder_cpp.Prelude.{true, false, none, []}
use rosetta_recorder_cpp.Directory.{epoch}
use rosetta_recorder_cpp.Topics.{no_topics}
use rosetta_recorder_cpp.Pipeline.{Pipeline}
use rosetta_recorder_cpp.Pipeline.Drain.{exited}
use rosetta_recorder_cpp.Episode.{Node}
use rosetta_recorder_cpp.Episode.Transitions.{no_interfaces}
use rosetta_recorder_cpp.Episode.Configure.{Config, State}

abbrev pub initial_pipeline : Pipeline
initial_pipeline = record {
  table = no_topics;
  is_recording = false;
  stop_requested = false;
  write_failed = false;
  write_error = [];
  messages_written = 0;
  messages_dropped = 0;
  writer = none;
  closed = [];
  queue = [];
  queue_bytes = 0;
  flush_requested = false;
  flush_done = false;
  writer_thread_running = false;
}

-- There is no writer thread yet.
abbrev pub initial_node : (F : Floats) → Node F.Double
initial_node F = record {
  pipe = initial_pipeline;
  thread = exited;
  accepting_goals = false;
  start_pending = false;
  stop_reason = [];
  current_bag_dir = [];
  last_bag_dir = [];
  current_prompt = [];
  current_goal_id = [];
  recording_start = 0;
  current_max_duration = F.of_ℕ 300;
  goal_handle = none;
  pending_start_timer = false;
  pending_resubscribed = [];
  recording_timer = false;
  settled = [];
  feedback = [];
  interfaces = no_interfaces;
  contract = none;
}

abbrev pub initial_config : (F : Floats) → Config F.Double
initial_config F = record {
  settings = record {
    storage_id = [];
    default_max_duration_s = F.of_ℕ 300;
    record_all = false;
    default_prompt = [];
  };
  bag_base = [];
  feedback_rate_hz = F.of_ℕ 2;
  embed_contract = true;
  contract_text = [];
  bag_name_style = epoch;
  exclude_regex = none;
  include_regex = none;
}

abbrev pub initial : (F : Floats) → State F.Double
initial F = record { node = initial_node F; config = initial_config F }
