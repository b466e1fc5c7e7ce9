-- ===== src/Episode/Configure/Middleware.antt =====
-- src/episode_recorder_node.cpp: `on_configure` where the middleware may throw while it makes the
-- subscriptions and the interfaces.
use rosetta_recorder_cpp.Floats.{Floats}
use rosetta_recorder_cpp.Prelude.{
  ℕ, zero, suc, ltb, length, get_elem?, Bool, false, ◌||◌, Option, none, some, if◌then◌else◌,
  Outcome, ok, throw, ◌>>=◌,
}
use rosetta_recorder_cpp.Contract.{RmwPolicies, RecordTopic}
use rosetta_recorder_cpp.Contract.Yaml.{Yaml}
use rosetta_recorder_cpp.Topics.{TopicState, Topics, build_topic_list, create_subscription_for}
use rosetta_recorder_cpp.Episode.{Interfaces}
use rosetta_recorder_cpp.Episode.Configure.{
  Parameters, Host, State, all_interfaces, topics_of, prepare,
}

-- Which topics `create_generic_subscription` throws for, and, if creating an interface throws, how
-- many of the five are there by then.
pub record Middleware : Type 0 where
  pub subscription_error : RecordTopic → Bool
  pub interface_error : Option ℕ

abbrev pub refuses : Middleware → Option TopicState → Bool
refuses M none = false
refuses M (some t) = M.subscription_error t.spec

-- The loop that subscribes: an exception leaves the topics before this one subscribed.
unfoldable pub try_subscribe_from : Middleware → ℕ → ℕ → Topics → Outcome Topics Topics
try_subscribe_from M zero i ts = ok ts
try_subscribe_from M (suc rounds) i ts =
    let rest = try_subscribe_from M rounds (suc i) (create_subscription_for i ts) in
    if refuses M (get_elem? ts.topics i) then throw ts else rest

abbrev pub try_subscribe_all : Middleware → Topics → Outcome Topics Topics
try_subscribe_all M ts = try_subscribe_from M (length ts.topics) 0 ts

-- The interfaces in the order in which they are created, the first `count` of them new.
abbrev pub created : ℕ → Interfaces → Interfaces
created count old = record {
  action_server = ltb 0 count || old.action_server;
  action_cancel_client = ltb 1 count || old.action_cancel_client;
  start_service = ltb 2 count || old.start_service;
  cancel_service = ltb 3 count || old.cancel_service;
  delete_last_bag_service = ltb 4 count || old.delete_last_bag_service;
}

abbrev pub with_table : {D : Type 0} → Topics → State D → State D
with_table table st = record st {
  node = record st.node { pipe = record st.node.pipe { table = table } };
}

abbrev pub with_interfaces : {D : Type 0} → Interfaces → State D → State D
with_interfaces made st = record st { node = record st.node { interfaces = made } }

-- Given `interface_error`, and what the loop that subscribes came to.
unfoldable pub create_interfaces :
    {D : Type 0} → Option ℕ → State D → Outcome Topics Topics → Outcome (State D) (State D)
create_interfaces error st (throw left) = throw (with_table left st)
create_interfaces none st (ok table) = ok (with_interfaces all_interfaces (with_table table st))
create_interfaces (some count) st (ok table) =
    throw (with_interfaces (created count st.node.interfaces) (with_table table st))

module _ (F : Floats) (Y : Yaml F.Double) (rmw : RmwPolicies) (H : Host)
    (P : Parameters F.Double) where
  -- The part after `prepare`, whose exceptions the outer `catch` turns into FAILURE.
  unfoldable pub try_open_interfaces :
      Middleware → State F.Double → Outcome (State F.Double) (State F.Double)
  try_open_interfaces M st =
      create_interfaces M.interface_error st
        (try_subscribe_all M (build_topic_list rmw P.use_sim_time (topics_of st.node.contract)))

  unfoldable pub try_on_configure :
      Middleware → State F.Double → Outcome (State F.Double) (State F.Double)
  try_on_configure M st = do st ← prepare F Y rmw H P st; try_open_interfaces M st
