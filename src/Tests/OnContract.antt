-- ===== src/Tests/OnContract.antt =====
-- The contract loader on one file.
use rosetta_recorder_cpp.Prelude.{
  ℕ, ◌<◌, ◌≡◌, refl, pos, Text, codes, text_eq, true, false, Option, some, List, [], ◌∷◌, ok, throw,
  ◌>>=◌, throw_if, arith, decimal, entry, decimal_int,
}
use rosetta_recorder_cpp.Contract.{
  no_buffer, resubscribe_on_start, default_qos, QosSpec, RecordTopic, Contract, invalid, yaml,
  invalid_strategy, Failure, not_mapping,
}
use rosetta_recorder_cpp.Contract.Scalars.{
  find_first_not_blank, find_last_not_blank, to_lower, lower_trim, at, require_str, choice,
  depth_of, qos_of_map, parse_qos,
}
use rosetta_recorder_cpp.Contract.Sections.{
  indexed, push_each, observation_item, action_item, task_item, collect, collect_observation_like,
  collect_actions, collect_tasks, named_strategy, explicit_strategy, adjunct_strategy,
  parse_adjunct,
}
use rosetta_recorder_cpp.Contract.Load.{
  read_robot_type, read_fps, read_max_duration, storage_of, read_storage, collect_adjunct,
  observations, read_topics, read_contract, load_contract,
}
use rosetta_recorder_cpp.Contract.Valid.{
  IsValid, IsInvalid, load_contract-IsValid, load_contract-IsInvalid,
}
use rosetta_recorder_cpp.Contract.Order.{Ordered, read_topics-Ordered}
use rosetta_recorder_cpp.Contract.Strategy.{Chooses, parse_adjunct-Chooses, collect_tasks-yaml}
use rosetta_recorder_cpp.Contract.Qos.Rclcpp.{History}
use rosetta_recorder_cpp.Contract.Yaml.{loaded}
use rosetta_recorder_cpp.Contract.Qos.{to_rclcpp, to_offered_qos_yaml}
use rosetta_recorder_cpp.Contract.Qos.Profile.{
  SameOffer, to_offered_qos_yaml-injective, profile-to_rclcpp,
}
use rosetta_recorder_cpp.Tests.Samples.{
  floats, rmw, Value, text, seq, map, nil, cons, end, field, yaml_of, yaml_laws, profiles,
  profile_laws, default_profile,
}

lower_trim_test : lower_trim (codes " Best_Effort\t") ≡ codes "best_effort"
unfolding lower_trim find_first_not_blank find_last_not_blank to_lower
lower_trim_test = refl

abbrev topic_value : Text → Value
topic_value name =
    map (field (codes "topic") (text name) (field (codes "type") (text (codes "T")) end))

abbrev latched_map : Value
latched_map = map (
    field (codes "topic") (text (codes "/map")) (
      field (codes "type") (text (codes "T")) (
        field (codes "qos")
          (map (field (codes "durability") (text (codes " Transient_Local ")) end))
          (field (codes "buffering_strategy") (text (codes "Resubscribe_On_Start")) end))))

abbrev pub sample_root : Value
sample_root = map (
    field (codes "robot_type") (text (codes "arm")) (
      field (codes "tasks") (seq (cons (topic_value (codes "/task")) nil)) (
        field (codes "observations") (seq (cons (topic_value (codes "/joints")) nil))
          (field (codes "adjunct") latched_map end))))

abbrev bare_qos : QosSpec
bare_qos = record default_qos { liveliness = pos 1 }

abbrev plain_topic : Text → RecordTopic
plain_topic name = record { topic = name; type = codes "T"; qos = bare_qos; strategy = no_buffer }

abbrev map_topic : RecordTopic
map_topic = record {
  topic = codes "/map";
  type = codes "T";
  qos = record default_qos { transient_local = true };
  strategy = resubscribe_on_start;
}

abbrev sample_topics : List RecordTopic
sample_topics = plain_topic (codes "/joints") ∷ plain_topic (codes "/task") ∷ map_topic ∷ []

abbrev sample_contract : Contract ℕ
sample_contract = record {
  robot_type = codes "arm";
  fps = pos 30;
  max_duration_s = 30;
  storage = [];
  topics = sample_topics;
}

pub load_sample :
    load_contract floats (yaml_of sample_root) rmw (codes "c.yaml") ≡ ok sample_contract
unfolding load_contract read_contract read_robot_type read_fps read_max_duration storage_of
    read_storage collect_adjunct observations read_topics collect_observation_like collect_actions
    collect_tasks collect push_each observation_item action_item task_item parse_adjunct
    adjunct_strategy explicit_strategy named_strategy parse_qos qos_of_map choice depth_of
    require_str at lower_trim find_first_not_blank find_last_not_blank to_lower text_eq ◌>>=◌
    throw_if
load_sample = refl

load_contract-IsValid_example : IsValid sample_contract
load_contract-IsValid_example =
    load_contract-IsValid floats (yaml_of sample_root) rmw (yaml_laws sample_root) (codes "c.yaml")
      load_sample

-- The same file with a strategy that does not exist.
abbrev bad_root : Value
bad_root = map (
    field (codes "robot_type") (text (codes "arm")) (
      field (codes "adjunct")
        (map (
          field (codes "topic") (text (codes "/map")) (
            field (codes "type") (text (codes "T"))
              (field (codes "buffering_strategy") (text (codes "Keep")) end))))
        end))

abbrev bad_strategy : Failure
bad_strategy = invalid (invalid_strategy (codes "keep") (codes "adjunct[0]"))

load_bad : load_contract floats (yaml_of bad_root) rmw (codes "c.yaml") ≡ throw bad_strategy
unfolding load_contract read_contract read_robot_type read_fps read_max_duration storage_of
    read_storage collect_adjunct observations read_topics collect_observation_like collect_actions
    collect_tasks collect push_each observation_item action_item task_item parse_adjunct
    adjunct_strategy explicit_strategy named_strategy parse_qos qos_of_map choice depth_of
    require_str at lower_trim find_first_not_blank find_last_not_blank to_lower text_eq indexed
    decimal ◌>>=◌ throw_if
load_bad = refl

no_tasks :
    (root list : Option Value)
    → (yaml_of bad_root).load_file (codes "c.yaml") ≡ loaded root
    → at (yaml_of bad_root) root (codes "tasks") ≡ ok list
    → (i : ℕ) → i < (yaml_of bad_root).size list
    → (yaml_of bad_root).is_map ((yaml_of bad_root).elem_at list i) ≡ true
unfolding at text_eq
no_tasks root list e f i lt = absurd (ground arith)

load_contract-IsInvalid_example : IsInvalid bad_strategy
load_contract-IsInvalid_example =
    load_contract-IsInvalid floats (yaml_of bad_root) rmw (yaml_laws bad_root) (codes "c.yaml")
      no_tasks load_bad

read_topics-Ordered_example :
    Ordered floats (yaml_of sample_root) rmw (some sample_root) sample_topics
unfolding collect_adjunct observations read_topics collect_observation_like collect_actions
    collect_tasks collect push_each observation_item action_item task_item parse_adjunct
    adjunct_strategy explicit_strategy named_strategy parse_qos qos_of_map choice depth_of
    require_str at lower_trim find_first_not_blank find_last_not_blank to_lower text_eq ◌>>=◌
    throw_if
read_topics-Ordered_example =
    read_topics-Ordered floats (yaml_of sample_root) rmw (some sample_root) refl

parse_adjunct-Chooses_example :
    (named : Option Value) × (at
        (yaml_of sample_root)
        (some latched_map)
        (codes "buffering_strategy")
      ≡ ok named)
    × Chooses (yaml_of sample_root) rmw named map_topic
unfolding parse_adjunct adjunct_strategy explicit_strategy named_strategy parse_qos qos_of_map
    choice depth_of require_str at lower_trim find_first_not_blank find_last_not_blank to_lower
    text_eq ◌>>=◌ throw_if
parse_adjunct-Chooses_example =
    parse_adjunct-Chooses (yaml_of sample_root) rmw (some latched_map) 0 refl

-- A list of a mapping, which either section accepts, and a scalar.
abbrev mixed_list : Option Value
mixed_list = some (seq (cons latched_map (cons (text (codes "/joints")) nil)))

accepted_task :
    task_item (yaml_of sample_root) rmw mixed_list 0
    ≡ ok (record map_topic { strategy = no_buffer })
unfolding task_item parse_qos qos_of_map choice depth_of require_str at lower_trim
    find_first_not_blank find_last_not_blank to_lower text_eq ◌>>=◌ throw_if
accepted_task = refl

accepted_observation :
    observation_item (yaml_of sample_root) rmw (codes "observations") mixed_list 0
    ≡ ok (record map_topic { strategy = no_buffer })
unfolding observation_item parse_qos qos_of_map choice depth_of require_str at lower_trim
    find_first_not_blank find_last_not_blank to_lower text_eq ◌>>=◌ throw_if
accepted_observation = refl

collect_tasks-yaml_example :
    (collect_tasks (yaml_of sample_root) rmw mixed_list []
      ≡ throw (yaml (codes "operator[] call on a scalar")))
    × (collect_observation_like (yaml_of sample_root) rmw mixed_list (codes "observations") []
        ≡ throw (invalid (not_mapping (indexed (codes "observations") 1))))
collect_tasks-yaml_example =
    collect_tasks-yaml (yaml_of sample_root) rmw mixed_list (codes "observations") [] 1 refl refl
      (omega arith) ((_, accepted_task), tt) ((_, accepted_observation), tt) refl refl

-- test/test_contract.cpp, `OfferedQosYamlMatchesPythonForADefaultProfile`.
offered_default :
    to_offered_qos_yaml rmw default_qos
    ≡ codes
        "- history: 1\n  depth: 10\n  reliability: 1\n  durability: 2\n  deadline:\n    sec: 2147483647\n    nsec: 4294967295\n  lifespan:\n    sec: 2147483647\n    nsec: 4294967295\n  liveliness: 0\n  liveliness_lease_duration:\n    sec: 2147483647\n    nsec: 4294967295\n  avoid_ros_namespace_conventions: false"
unfolding to_offered_qos_yaml entry decimal_int decimal
offered_default = refl

to_offered_qos_yaml-injective_example :
    SameOffer default_qos (record default_qos { match_publisher_profile = true })
unfolding to_offered_qos_yaml
to_offered_qos_yaml-injective_example =
    to_offered_qos_yaml-injective rmw default_qos
      (record default_qos { match_publisher_profile = true })
      (record { history = ground arith; reliability = ground arith; durability = ground arith })
      refl

abbrev sensor_qos : QosSpec
sensor_qos = record default_qos { depth = pos 3; reliable = false }

profile-to_rclcpp_example :
    profile_laws.profile (to_rclcpp profiles sensor_qos)
    ≡ record default_profile { history = History.keep_last 3; is_reliable = false }
profile-to_rclcpp_example = profile-to_rclcpp profiles profile_laws sensor_qos
