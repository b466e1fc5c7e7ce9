-- ===== src/Episode.antt =====
-- include/rosetta_recorder_cpp/episode_recorder_node.hpp: the recording state of the node, and the
-- goal handle of the action. The children have the episode's functions of
-- src/episode_recorder_node.cpp.
pub mod Reason
pub mod Settle
pub mod Open
pub mod Lifecycle
pub mod Service
pub mod Opens
pub mod Transitions
pub mod Configure
pub mod Phase
pub mod Sound
pub mod Unclosed
pub mod World
pub mod Initial
pub mod Goals
use rosetta_recorder_cpp.Prelude.{ℕ, ℤ, Text, Bool, Option, List}
use rosetta_recorder_cpp.Contract.{RmwPolicies, Contract}
use rosetta_recorder_cpp.Topics.Discovery.{Graph}
use rosetta_recorder_cpp.Pipeline.{Pipeline, Storage}
use rosetta_recorder_cpp.Pipeline.Drain.{Thread, Machine}

-- `rclcpp_action::ServerGoalHandle`, by what the node reads of it.
pub record GoalHandle (D : Type 0) : Type 0 where
  pub uuid : List ℕ
  pub prompt : Text
  pub max_duration_s : D
  pub is_canceling : Bool

-- `RecordEpisode::Result`.
pub record EpisodeResult : Type 0 where
  pub termination_reason : Text
  pub message : Text
  pub bag_path : Text
  pub messages_written : ℤ

-- `canceled(result)`, `abort(result)` and `succeed(result)` of a goal handle.
pub data Terminal : Type 0 where
  canceled : Terminal
  aborted : Terminal
  succeeded : Terminal

pub record Settled : Type 0 where
  pub goal : List ℕ
  pub terminal : Terminal
  pub result : EpisodeResult

-- The parameters that an episode reads.
pub record Settings (D : Type 0) : Type 0 where
  pub storage_id : Text
  pub default_max_duration_s : D
  pub record_all : Bool
  pub default_prompt : Text

-- Which of the node's servers and clients are there.
pub record Interfaces : Type 0 where
  pub action_server : Bool
  pub action_cancel_client : Bool
  pub start_service : Bool
  pub cancel_service : Bool
  pub delete_last_bag_service : Bool

-- The timers are present or not; `settled` and `feedback` collect what the action server was told.
pub record Node (D : Type 0) : Type 0 where
  pub pipe : Pipeline
  pub thread : Thread
  pub accepting_goals : Bool
  pub start_pending : Bool
  pub stop_reason : Text
  pub current_bag_dir : Text
  pub last_bag_dir : Text
  pub current_prompt : Text
  pub current_goal_id : Text
  pub recording_start : ℕ
  pub current_max_duration : D
  pub goal_handle : Option (GoalHandle D)
  pub pending_start_timer : Bool
  pub pending_resubscribed : List ℕ
  pub recording_timer : Bool
  pub settled : List Settled
  pub feedback : List (D × ℤ)
  pub interfaces : Interfaces
  pub contract : Option (Contract D)

-- What a callback finds around it: the middleware's enumerators, the graph, the storage, the clock,
-- the directory that `create_bag_dir` comes up with, how many sections the writer thread does while
-- the executor waits for it, and the text of the exception of `write_metadata`, which is empty
-- without one.
pub record Surroundings : Type 0 where
  pub rmw : RmwPolicies
  pub graph : Graph
  pub storage : Storage
  pub now_ns : ℕ
  pub bag_dir : Text
  pub rounds : ℕ
  pub metadata_error : Text

abbrev pub machine_of : {D : Type 0} → Node D → Machine
machine_of n = record { pipe = n.pipe; thread = n.thread }
