-- ===== src/Episode/Configure/Opened.antt =====
-- The end of `on_configure`, where the middleware may throw: how far it came by then.
use rosetta_recorder_cpp.Floats.{Floats}
use rosetta_recorder_cpp.Prelude.{ℕ, ◌+◌, ◌<◌, ◌≡◌, true, some, length, get_elem?}
use rosetta_recorder_cpp.Contract.{RmwPolicies}
use rosetta_recorder_cpp.Contract.Yaml.{Yaml}
use rosetta_recorder_cpp.Topics.{Topics, build_topic_list, subscribe_from, subscribe_all}
use rosetta_recorder_cpp.Episode.Configure.{Parameters, Host, State, topics_of}
use rosetta_recorder_cpp.Episode.Configure.Middleware.{
  Middleware, refuses, created, with_table, with_interfaces,
}
use rosetta_recorder_cpp.Episode.Configure.Steps.{Fails}
use rosetta_recorder_cpp.Episode.Configure.Configured.{Prepared}

-- The loop got to the position `i + count`, whose topic was refused, and subscribed those before.
record Stops (M : Middleware) (rounds i : ℕ) (ts left : Topics) : Type 0 where
  count : ℕ
  within : count < rounds
  table : left ≡ subscribe_from count i ts
  refused : (j : ℕ) → j ≡ i + count → refuses M (get_elem? left.topics j) ≡ true

module _ (F : Floats) (Y : Yaml F.Double) (rmw : RmwPolicies) (H : Host)
    (P : Parameters F.Double) where
  -- The table that the subscriptions start from.
  abbrev pub listed_table : State F.Double → Topics
  listed_table s = build_topic_list rmw P.use_sim_time (topics_of s.node.contract)

  -- Why a configuration fails at `st`, and the state that it leaves: a step before the table
  -- failed, or, after them, a topic was refused when those before it were subscribed, or an
  -- interface when all topics were subscribed and `count` interfaces were there.
  pub data Throws (M : Middleware) (st : State F.Double) : State F.Double → Type 0 where
    early : {left : State F.Double} → Fails F Y rmw H P st left → Throws M st left
    no_subscription :
        (s : State F.Double) (count : ℕ)
        → Prepared F Y rmw H P st s
        → count < length (listed_table s).topics
        → refuses M (get_elem? (subscribe_from count 0 (listed_table s)).topics count) ≡ true
        → Throws M st (with_table (subscribe_from count 0 (listed_table s)) s)
    no_interface :
        (s : State F.Double) (count : ℕ)
        → Prepared F Y rmw H P st s
        → M.interface_error ≡ some count
        → Throws M st (
            with_interfaces
              (created count s.node.interfaces)
              (with_table (subscribe_all (listed_table s)) s))
