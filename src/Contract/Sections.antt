-- ===== src/Contract/Sections.antt =====
-- src/contract.cpp: the readers of the contract's sections.
use rosetta_recorder_cpp.Prelude.{
  ℕ, zero, suc, Text, codes, text_eq, Bool, true, false, not, ◌&&◌, ◌||◌, List, [], ◌∷◌, ◌++◌,
  if◌then◌else◌, decimal, Outcome, ok, throw, ◌>>=◌, ◌>>◌, throw_if,
}
use rosetta_recorder_cpp.Contract.{
  BufferingStrategy, no_buffer, accumulate, resubscribe_on_start, QosSpec, RecordTopic, RmwPolicies,
  not_mapping, publish_not_mapping, invalid_strategy, strategy_needs_latch, Failure, invalid,
}
use rosetta_recorder_cpp.Contract.Yaml.{Yaml}
use rosetta_recorder_cpp.Contract.Scalars.{lower_trim, at, require_str, parse_qos}

-- `section + "[" + std::to_string(i) + "]"`
unfoldable pub indexed : Text → ℕ → Text
indexed section i = section ++ (codes "[" ++ (decimal i ++ codes "]"))

-- A topic of a section other than `adjunct` is never buffered.
abbrev unbuffered : Text → Text → QosSpec → RecordTopic
unbuffered topic type qos = record { topic = topic; type = type; qos = qos; strategy = no_buffer }

-- `for (i = 0; i < n; ++i) { …; out.push_back(t); }`, where `item i` is the body's topic.
unfoldable pub push_each :
    (ℕ → Outcome Failure RecordTopic)
    → ℕ
    → ℕ
    → List RecordTopic
    → Outcome Failure (List RecordTopic)
push_each item zero i out = ok out
push_each item (suc rounds) i out = do t ← item i; push_each item rounds (suc i) (out ++ t ∷ [])

unfoldable pub named_strategy : Text → Text → Outcome Failure BufferingStrategy
named_strategy s ctx =
    if text_eq s (codes "no_buffer")
    then ok no_buffer
    else if text_eq s (codes "accumulate")
    then ok accumulate
    else if text_eq s (codes "resubscribe_on_start")
    then ok resubscribe_on_start
    else throw (invalid (invalid_strategy s ctx))

-- `t.strategy != BufferingStrategy::NoBuffer`
abbrev pub is_buffering : BufferingStrategy → Bool
is_buffering no_buffer = false
is_buffering accumulate = true
is_buffering resubscribe_on_start = true

-- A strategy that is written out: it must be known, and only a latched topic is buffered.
unfoldable pub explicit_strategy : Text → Text → QosSpec → Outcome Failure BufferingStrategy
explicit_strategy s ctx qos = do
  strategy ← named_strategy s ctx
  throw_if (is_buffering strategy && not qos.transient_local) (invalid (strategy_needs_latch s ctx))
  ok strategy

module _ {Double : Type 0} (Y : Yaml Double) (rmw : RmwPolicies) where
  open Y use {Node, is_defined, is_null, is_map, is_sequence, size, elem_at, as_string_or}

  unfoldable pub observation_item : Text → Node → ℕ → Outcome Failure RecordTopic
  observation_item section list i = do
    let item = elem_at list i
    let ctx = indexed section i
    throw_if (not (is_map item)) (invalid (not_mapping ctx))
    topic ← require_str Y item (codes "topic") ctx
    type ← require_str Y item (codes "type") ctx
    qos ← parse_qos Y rmw (← at Y item (codes "qos"))
    ok (unbuffered topic type qos)

  unfoldable pub action_item : Node → ℕ → Outcome Failure RecordTopic
  action_item list i = do
    let item = elem_at list i
    let ctx = indexed (codes "actions") i
    throw_if (not (is_map item)) (invalid (not_mapping ctx))
    publish ← at Y item (codes "publish")
    throw_if (not (is_defined publish) || not (is_map publish)) (invalid (publish_not_mapping ctx))
    topic ← require_str Y publish (codes "topic") (ctx ++ codes ".publish")
    type ← require_str Y publish (codes "type") (ctx ++ codes ".publish")
    qos ← parse_qos Y rmw (← at Y publish (codes "qos"))
    ok (unbuffered topic type qos)

  -- Unlike the others, it does not test that the item is a mapping.
  unfoldable pub task_item : Node → ℕ → Outcome Failure RecordTopic
  task_item list i = do
    let item = elem_at list i
    let ctx = indexed (codes "tasks") i
    topic ← require_str Y item (codes "topic") ctx
    type ← require_str Y item (codes "type") ctx
    qos ← parse_qos Y rmw (← at Y item (codes "qos"))
    ok (unbuffered topic type qos)

  unfoldable pub collect :
      (Node → ℕ → Outcome Failure RecordTopic)
      → Node
      → List RecordTopic
      → Outcome Failure (List RecordTopic)
  collect item list out =
      if not (is_defined list) || not (is_sequence list)
      then ok out
      else push_each (item list) (size list) 0 out

  unfoldable pub collect_observation_like :
      Node → Text → List RecordTopic → Outcome Failure (List RecordTopic)
  collect_observation_like list section out = collect (observation_item section) list out

  unfoldable pub collect_actions : Node → List RecordTopic → Outcome Failure (List RecordTopic)
  collect_actions list out = collect action_item list out

  unfoldable pub collect_tasks : Node → List RecordTopic → Outcome Failure (List RecordTopic)
  collect_tasks list out = collect task_item list out

  -- The strategy of an adjunct topic: the named one, or by its durability.
  unfoldable pub adjunct_strategy : Node → Text → QosSpec → Outcome Failure BufferingStrategy
  adjunct_strategy named ctx qos =
      if is_defined named && not (is_null named)
      then explicit_strategy (lower_trim (as_string_or named [])) ctx qos
      else ok (if qos.transient_local then accumulate else no_buffer)

  unfoldable pub parse_adjunct : Node → ℕ → Outcome Failure RecordTopic
  parse_adjunct item idx = do
    let ctx = indexed (codes "adjunct") idx
    throw_if (not (is_map item)) (invalid (not_mapping ctx))
    topic ← require_str Y item (codes "topic") ctx
    type ← require_str Y item (codes "type") ctx
    qos ← parse_qos Y rmw (← at Y item (codes "qos"))
    strategy ← adjunct_strategy (← at Y item (codes "buffering_strategy")) ctx qos
    ok (record { topic = topic; type = type; qos = qos; strategy = strategy })
