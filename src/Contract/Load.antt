-- ===== src/Contract/Load.antt =====
-- src/contract.cpp: `load_contract`.
use rosetta_recorder_cpp.Floats.{Floats}
use rosetta_recorder_cpp.Prelude.{
  ℤ, pos, is_non_positive, Text, codes, is_empty, not, ◌&&◌, ◌||◌, List, [], if◌then◌else◌, Outcome,
  ok, throw, ◌>>=◌, ◌>>◌, throw_if,
}
use rosetta_recorder_cpp.Contract.{
  RecordTopic, Contract, RmwPolicies, file_not_found, invalid_yaml, root_not_mapping,
  robot_type_required, fps_not_positive, Failure, invalid, yaml,
}
use rosetta_recorder_cpp.Contract.Yaml.{Yaml, loaded, bad_file, bad_yaml}
use rosetta_recorder_cpp.Contract.Scalars.{at}
use rosetta_recorder_cpp.Contract.Sections.{
  push_each, collect_observation_like, collect_actions, collect_tasks, parse_adjunct,
}

module _ (F : Floats) (Y : Yaml F.Double) (rmw : RmwPolicies) where
  open Y use {
    Node, is_defined, is_null, is_map, is_sequence, size, elem_at, as_string_or, as_int_or,
    as_double_or, as_string,
  }

  unfoldable pub read_robot_type : Node → Outcome Failure Text
  read_robot_type root = do
    m ← at Y root (codes "robot_type")
    throw_if (not (is_defined m) || is_empty (as_string_or m [])) (invalid robot_type_required)
    elim (as_string m) [ ok s ↦ ok s | throw e ↦ throw (yaml e) ]

  unfoldable pub read_fps : Node → Outcome Failure ℤ
  read_fps root = do
    m ← at Y root (codes "fps")
    let fps = if is_defined m then as_int_or m (pos 30) else pos 30
    throw_if (is_non_positive fps) (invalid (fps_not_positive fps))
    ok fps

  unfoldable pub read_max_duration : Node → Outcome Failure F.Double
  read_max_duration root = do
    m ← at Y root (codes "max_duration_s")
    ok (if is_defined m then as_double_or m (F.of_ℕ 30) else F.of_ℕ 30)

  unfoldable pub storage_of : Node → Outcome Failure Text
  storage_of recording = do
    m ← at Y recording (codes "storage")
    ok (if is_defined m then as_string_or m [] else [])

  unfoldable pub read_storage : Node → Outcome Failure Text
  read_storage root = do
    m ← at Y root (codes "recording")
    if is_defined m && is_map m then storage_of m else ok []

  unfoldable pub collect_adjunct : Node → List RecordTopic → Outcome Failure (List RecordTopic)
  collect_adjunct adj out =
      if is_defined adj && not (is_null adj)
      then if is_sequence adj
        then push_each (λ i. parse_adjunct Y rmw (elem_at adj i) i) (size adj) 0 out
        else push_each (λ i. parse_adjunct Y rmw adj i) 1 0 out
      else ok out

  unfoldable pub observations : Node → Text → List RecordTopic → Outcome Failure (List RecordTopic)
  observations root section out =
      at Y root section >>= λ list. collect_observation_like Y rmw list section out

  -- The sections in the order that fixes the bag's topic ids.
  unfoldable pub read_topics : Node → Outcome Failure (List RecordTopic)
  read_topics root = do
    out ← observations root (codes "observations") []
    out ← collect_actions Y rmw (← at Y root (codes "actions")) out
    out ← observations root (codes "rewards") out
    out ← observations root (codes "signals") out
    out ← observations root (codes "info") out
    out ← observations root (codes "complementary_data") out
    out ← collect_tasks Y rmw (← at Y root (codes "tasks")) out
    collect_adjunct (← at Y root (codes "adjunct")) out

  unfoldable pub read_contract : Node → Outcome Failure (Contract F.Double)
  read_contract root = do
    throw_if (not (is_map root)) (invalid root_not_mapping)
    robot_type ← read_robot_type root
    fps ← read_fps root
    max_duration_s ← read_max_duration root
    storage ← read_storage root
    topics ← read_topics root
    ok (record {
      robot_type = robot_type;
      fps = fps;
      max_duration_s = max_duration_s;
      storage = storage;
      topics = topics;
    })

  unfoldable pub load_contract : Text → Outcome Failure (Contract F.Double)
  load_contract path = elim (Y.load_file path) [
    | loaded root ↦ read_contract root
    | bad_file ↦ throw (invalid (file_not_found path))
    | bad_yaml reason ↦ throw (invalid (invalid_yaml path reason))
  ]
