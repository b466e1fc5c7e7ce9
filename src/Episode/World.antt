-- ===== src/Episode/World.antt =====
-- src/episode_recorder_node.cpp: the surroundings of an episode as the configuration, the file
-- system and the clock make them, by create_bag_dir and write_metadata.
pub mod Metadata
use rosetta_recorder_cpp.Prelude.{ℕ, Text, codes, Option, none, some, [], Outcome, ok, throw}
use rosetta_recorder_cpp.Contract.{RmwPolicies}
use rosetta_recorder_cpp.Topics.Discovery.{Graph}
use rosetta_recorder_cpp.Pipeline.{Storage}
use rosetta_recorder_cpp.Directory.{Paths, create_bag_dir}
use rosetta_recorder_cpp.Metadata.{Tree, Attempt, write_metadata}
use rosetta_recorder_cpp.Episode.{Node, Surroundings}
use rosetta_recorder_cpp.Episode.Configure.{Config, text_or_empty}

-- `graph` is the part that the node does not configure; `since` is the reading of the system's
-- clock, and `attempts` is what each attempt to edit the metadata meets.
pub record World (T : Tree) : Type 0 where
  pub rmw : RmwPolicies
  pub graph : Graph
  pub storage : Storage
  pub now_ns : ℕ
  pub rounds : ℕ
  pub paths : Paths
  pub local_stamp : ℕ → Text
  pub since : ℕ
  pub fuel : ℕ
  pub attempts : ℕ → Attempt T.Doc

-- `metadata_error`.
abbrev pub error_text : {A : Type 0} → Outcome Text A → Text
error_text (ok a) = []
error_text (throw what) = what

module _ (T : Tree) {D : Type 0} (w : World T) (c : Config D) (n : Node D) where
  -- The call of `write_metadata` in `finish_recording`.
  abbrev pub metadata_of_bag : Outcome Text (Option T.Doc)
  metadata_of_bag =
      write_metadata T w.attempts (w.paths.join n.current_bag_dir (codes "metadata.yaml"))
        n.current_prompt c.contract_text n.current_goal_id

  abbrev pub surroundings : Surroundings
  surroundings = record {
    rmw = w.rmw;
    graph = record w.graph { include_regex = c.include_regex; exclude_regex = c.exclude_regex };
    storage = w.storage;
    now_ns = w.now_ns;
    bag_dir =
        text_or_empty
          (create_bag_dir w.fuel w.paths w.local_stamp c.bag_base c.bag_name_style w.since);
    rounds = w.rounds;
    metadata_error = error_text metadata_of_bag;
  }
