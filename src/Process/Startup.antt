-- ===== src/Process/Startup.antt =====
-- src/main.cpp: how a node that drives itself starts.
use rosetta_recorder_cpp.Floats.{Floats}
use rosetta_recorder_cpp.Prelude.{
  ◌≡◌, refl, sym, subst, true, false, ok, throw, Outcome, Post-eq-ok, Post-eq-throw,
}
use rosetta_recorder_cpp.Contract.{RmwPolicies}
use rosetta_recorder_cpp.Contract.Yaml.{Yaml}
use rosetta_recorder_cpp.Episode.Configure.{Parameters, Host, State, on_configure}
use rosetta_recorder_cpp.Episode.Configure.Steps.{Fails}
use rosetta_recorder_cpp.Episode.Configure.Configured.{IsConfigured, on_configure-Configures}
use rosetta_recorder_cpp.Process.{
  StateMachine, StateMachineLaws, Started, exited, spinning, activate, after_configure, self_driven,
  start_up,
}

module _ (F : Floats) (Y : Yaml F.Double) (rmw : RmwPolicies) (H : Host)
    (P : Parameters F.Double) where
  -- The node spins as the configuration left it, and takes goals, or the process exits with what a
  -- configuration that failed left.
  pub data Starts (st : State F.Double) : Started F.Double → Type 0 where
    ready :
        (m : State F.Double)
        → on_configure F Y rmw H P st ≡ ok m
        → IsConfigured F Y rmw H P m
        → Starts st (spinning (record m { node = record m.node { accepting_goals = true } }))
    failed : (left : State F.Double) → Fails F Y rmw H P st left → Starts st (exited 1 left)

  after_configure-inactive :
      (L : StateMachine) (st : State F.Double)
      → StateMachineLaws L
      → after_configure L (L.configured true) st ≡ spinning (activate st)
  unfolding after_configure
  after_configure-inactive L st laws =
      rw (laws.configured_success, laws.base_success, laws.activated_success) refl

  after_configure-unconfigured :
      (L : StateMachine) (st : State F.Double)
      → StateMachineLaws L
      → after_configure L (L.configured false) st ≡ exited 1 st
  unfolding after_configure
  after_configure-unconfigured L st laws = rw laws.configured_failure refl

  self_driven-Starts :
      (L : StateMachine) (st : State F.Double) (r : Outcome (State F.Double) (State F.Double))
      → StateMachineLaws L
      → on_configure F Y rmw H P st ≡ r
      → Starts st (self_driven L r)
  self_driven-Starts L st (ok m) laws e =
      subst (Starts st) (sym (after_configure-inactive L m laws))
        (ready m e (Post-eq-ok (on_configure-Configures F Y rmw H P st) e))
  self_driven-Starts L st (throw left) laws e =
      subst (Starts st) (sym (after_configure-unconfigured L left laws))
        (failed left (Post-eq-throw (on_configure-Configures F Y rmw H P st) e))

  -- Without a lifecycle manager the process either reaches its spin with the node configured as
  -- its parameters and its contract say, and accepting goals, or it exits with 1 and the
  -- configuration has a reason to fail.
  pub start_up-Starts :
      (L : StateMachine) (st : State F.Double)
      → StateMachineLaws L
      → Starts st (start_up F Y rmw H P L false st)
  unfolding start_up
  start_up-Starts L st laws = self_driven-Starts L st (on_configure F Y rmw H P st) laws refl
