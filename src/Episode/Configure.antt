-- ===== src/Episode/Configure.antt =====
-- src/episode_recorder_node.cpp: `declare_parameters` and `on_configure`.
pub mod Patterns
pub mod Steps
pub mod Configured
pub mod Middleware
pub mod Opened
use rosetta_recorder_cpp.Floats.{Floats}
use rosetta_recorder_cpp.Prelude.{
  ℕ, zero, suc, ltb, length, get_elem?, Text, codes, is_empty, Bool, true, false, not, ◌&&◌, ◌||◌,
  Option, none, some, List, [], ◌∷◌, ◌++◌, if◌then◌else◌, Outcome, ok, throw, ◌>>=◌,
}
use rosetta_recorder_cpp.Contract.{RmwPolicies, RecordTopic, Contract}
use rosetta_recorder_cpp.Contract.Yaml.{Yaml}
use rosetta_recorder_cpp.Contract.Load.{load_contract}
use rosetta_recorder_cpp.Directory.{BagNameStyle, parse_bag_name_style}
use rosetta_recorder_cpp.Topics.{
  TopicState, Topics, build_topic_list, create_subscription_for, subscribe_all,
}
use rosetta_recorder_cpp.Episode.{Interfaces, Node, Settings}

-- `use_sim_time` is rclcpp's own parameter.
pub record Parameters (D : Type 0) : Type 0 where
  pub contract_path : Text
  pub bag_base_dir : Text
  pub storage_id : Text
  pub exclude_topics : List Text
  pub include_topics : List Text
  pub default_prompt : Text
  pub embed_contract : Bool
  pub default_max_duration_s : D
  pub feedback_rate_hz : D
  pub record_all : Bool
  pub bag_name_style : Text
  pub use_sim_time : Bool

-- The defaults, given the value of `use_sim_time`.
abbrev pub declare_parameters : (F : Floats) → Bool → Parameters F.Double
declare_parameters F use_sim_time = record {
  contract_path = [];
  bag_base_dir = codes "/workspaces/rosetta_ws/datasets/bags";
  storage_id = codes "mcap";
  exclude_topics = [] ∷ [];
  include_topics = [] ∷ [];
  default_prompt = [];
  embed_contract = true;
  default_max_duration_s = F.of_ℕ 300;
  feedback_rate_hz = F.of_ℕ 2;
  record_all = false;
  bag_name_style = codes "epoch";
  use_sim_time = use_sim_time;
}

-- What `on_configure` asks of the machine: whether `create_directories` reports an error, what
-- exists after it, a file's text if it can be read, and the compiled pattern if it is a regular
-- expression.
pub record Host : Type 0 where
  pub create_directories_error : Text → Bool
  pub exists : Text → Bool
  pub read_text : Text → Option Text
  pub regex : Text → Option (Text → Bool)

-- The members that `on_configure` sets and that are not part of `Node`.
pub record Config (D : Type 0) : Type 0 where
  pub settings : Settings D
  pub bag_base : Text
  pub feedback_rate_hz : D
  pub embed_contract : Bool
  pub contract_text : Text
  pub bag_name_style : BagNameStyle
  pub exclude_regex : Option (Text → Bool)
  pub include_regex : Option (Text → Bool)

pub record State (D : Type 0) : Type 0 where
  pub node : Node D
  pub config : Config D

abbrev pub all_interfaces : Interfaces
all_interfaces = record {
  action_server = true;
  action_cancel_client = true;
  start_service = true;
  cancel_service = true;
  delete_last_bag_service = true;
}

abbrev pub default_blacklist : List Text
default_blacklist = codes "^/rosout$" ∷ codes "^/parameter_events$" ∷ []

-- `joined += (joined.empty() ? "" : "|"); joined += p;`
abbrev pub add_pattern : Text → Text → Text
add_pattern joined p = joined ++ ((if is_empty joined then [] else codes "|") ++ p)

unfoldable pub join_all : List Text → Text → Text
join_all [] joined = joined
join_all (p ∷ ps) joined = join_all ps (add_pattern joined p)

-- The loop on `exclude_topics`.
unfoldable pub join_excluded : List Text → Text → Text
join_excluded [] joined = joined
join_excluded (p ∷ ps) joined =
    join_excluded ps (if is_empty p then joined else joined ++ (codes "|" ++ p))

-- The loop on `include_topics`.
unfoldable pub join_included : List Text → Text → Text
join_included [] included = included
join_included (p ∷ ps) included =
    join_included ps (if is_empty p then included else add_pattern included p)

unfoldable pub exclude_pattern : List Text → Text
exclude_pattern ps = join_excluded ps (join_all default_blacklist [])

unfoldable pub include_pattern : List Text → Text
include_pattern ps = join_included ps []

abbrev pub topics_of : {D : Type 0} → Option (Contract D) → List RecordTopic
topics_of none = []
topics_of (some c) = c.topics

abbrev pub with_contract : {D : Type 0} → Contract D → State D → State D
with_contract c st = record st { node = record st.node { contract = some c } }

abbrev pub with_base : {D : Type 0} → Text → State D → State D
with_base base st = record st { config = record st.config { bag_base = base } }

abbrev pub with_style : {D : Type 0} → BagNameStyle → State D → State D
with_style style st = record st { config = record st.config { bag_name_style = style } }

abbrev pub with_excluded : {D : Type 0} → (Text → Bool) → State D → State D
with_excluded r st = record st { config = record st.config { exclude_regex = some r } }

abbrev pub with_included : {D : Type 0} → Option (Text → Bool) → State D → State D
with_included r st = record st { config = record st.config { include_regex = r } }

-- The text of a file, empty if it cannot be read.
abbrev pub text_or_empty : Option Text → Text
text_or_empty none = []
text_or_empty (some t) = t

-- An early `return CallbackReturn::FAILURE` is a `throw` of the state it leaves.
module _ (F : Floats) (Y : Yaml F.Double) (rmw : RmwPolicies) (H : Host)
    (P : Parameters F.Double) where
  unfoldable pub read_contract_file : State F.Double → Outcome (State F.Double) (State F.Double)
  read_contract_file st =
      if is_empty P.contract_path then throw st else elim (load_contract F Y rmw P.contract_path) [
        | ok c ↦ ok (with_contract c st)
        | throw e ↦ throw st
      ]

  unfoldable pub make_base : State F.Double → Outcome (State F.Double) (State F.Double)
  make_base st =
      if H.create_directories_error P.bag_base_dir && not (H.exists P.bag_base_dir)
      then throw (with_base P.bag_base_dir st)
      else ok (with_base P.bag_base_dir st)

  -- The values that cannot fail, and the text of the contract.
  unfoldable pub read_values : State F.Double → State F.Double
  read_values st = record st {
    config = record st.config {
      settings = record {
        storage_id = P.storage_id;
        default_max_duration_s = P.default_max_duration_s;
        record_all = P.record_all;
        default_prompt = P.default_prompt;
      };
      feedback_rate_hz =
          if F.le P.feedback_rate_hz (F.of_ℕ 0) then F.of_ℕ 2 else P.feedback_rate_hz;
      embed_contract = P.embed_contract;
      contract_text = if P.embed_contract then text_or_empty (H.read_text P.contract_path) else [];
    };
  }

  unfoldable pub read_style : State F.Double → Outcome (State F.Double) (State F.Double)
  read_style st = elim (parse_bag_name_style P.bag_name_style) [
    | ok style ↦ ok (with_style style st)
    | throw e ↦ throw st
  ]

  unfoldable pub compile_excluded : State F.Double → Outcome (State F.Double) (State F.Double)
  compile_excluded st = elim (H.regex (exclude_pattern P.exclude_topics)) [
    | some r ↦ ok (with_excluded r st)
    | none ↦ throw st
  ]

  unfoldable pub compile_included : State F.Double → Outcome (State F.Double) (State F.Double)
  compile_included st =
      if is_empty (include_pattern P.include_topics)
      then ok (with_included none st)
      else elim (H.regex (include_pattern P.include_topics)) [
        | some r ↦ ok (with_included (some r) st)
        | none ↦ throw (with_included none st)
      ]

  unfoldable pub open_interfaces : State F.Double → State F.Double
  open_interfaces st = record st {
    node = record st.node {
      pipe = record st.node.pipe {
        table = subscribe_all (build_topic_list rmw P.use_sim_time (topics_of st.node.contract));
      };
      interfaces = all_interfaces;
    };
  }

  -- Everything before `build_topic_list`.
  unfoldable pub prepare : State F.Double → Outcome (State F.Double) (State F.Double)
  prepare st = do
    st ← read_contract_file st
    st ← make_base st
    st ← read_style (read_values st)
    st ← compile_excluded st
    compile_included st

  -- Where the middleware throws nothing.
  unfoldable pub on_configure : State F.Double → Outcome (State F.Double) (State F.Double)
  on_configure st = do st ← prepare st; ok (open_interfaces st)
