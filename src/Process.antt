-- ===== src/Process.antt =====
-- src/main.cpp: the process, with the executor's spin as a parameter.
pub mod Startup
pub mod Exits
pub mod Life
use rosetta_recorder_cpp.Floats.{Floats}
use rosetta_recorder_cpp.Prelude.{
  ℕ, ◌≡◌, Bool, true, false, if◌then◌else◌, Text, Outcome, ok, throw,
}
use rosetta_recorder_cpp.Contract.{RmwPolicies}
use rosetta_recorder_cpp.Contract.Yaml.{Yaml}
use rosetta_recorder_cpp.Episode.Transitions.{on_activate, destroy}
use rosetta_recorder_cpp.Episode.{Node, Surroundings}
use rosetta_recorder_cpp.Episode.Configure.{Parameters, Host, State, on_configure}

-- The primary states of lifecycle_msgs/msg/state.hpp.
pub data Primary : Type 0 where
  unconfigured : Primary
  inactive : Primary
  active : Primary
  finalized : Primary

abbrev pub is_inactive : Primary → Bool
is_inactive inactive = true
is_inactive p = false

abbrev pub is_active : Primary → Bool
is_active active = true
is_active p = false

-- The state machine of rclcpp_lifecycle: the state after a transition whose callback returned
-- SUCCESS or FAILURE, and whether the base class's `on_activate` returns SUCCESS.
pub record StateMachine : Type 0 where
  pub configured : Bool → Primary
  pub activated : Bool → Primary
  pub base_on_activate : Bool

-- What rclcpp_lifecycle documents.
pub record StateMachineLaws (L : StateMachine) : Type 0 where
  pub configured_success : L.configured true ≡ inactive
  pub configured_failure : L.configured false ≡ unconfigured
  pub activated_success : L.activated true ≡ active
  pub base_success : L.base_on_activate ≡ true

-- The process returns an exit code from the startup, or the executor spins on the node.
pub data Started (D : Type 0) : Type 0 where
  exited : (code : ℕ) → State D → Started D
  spinning : State D → Started D

abbrev pub activate : {D : Type 0} → State D → State D
activate st = record st { node = on_activate st.node }

-- The second half of the condition: `activate()` is called only if the node is inactive.
unfoldable pub after_configure : {D : Type 0} → StateMachine → Primary → State D → Started D
after_configure L p st =
    if is_inactive p
    then if is_active (L.activated L.base_on_activate)
      then spinning (activate st)
      else exited 1 (activate st)
    else exited 1 st

-- The condition of the startup, given what `on_configure` came to.
abbrev pub self_driven : {D : Type 0} → StateMachine → Outcome (State D) (State D) → Started D
self_driven L (ok st) = after_configure L (L.configured true) st
self_driven L (throw left) = after_configure L (L.configured false) left

-- `lifecycle` is `kLifecycle`.
module _ (F : Floats) (Y : Yaml F.Double) (rmw : RmwPolicies) (H : Host)
    (P : Parameters F.Double) where
  unfoldable pub start_up : StateMachine → (lifecycle : Bool) → State F.Double → Started F.Double
  start_up L lifecycle st =
      if lifecycle then spinning st else self_driven L (on_configure F Y rmw H P st)

-- `executor.spin()`: the state that it leaves when it returns, or with the exception that ends it.
abbrev pub Spin : Type 0 → Type 0
Spin D = State D → Outcome (State D × Text) (State D)

-- The exit code of the process, and the node as its destructor leaves it.
pub record Exit (D : Type 0) : Type 0 where
  pub code : ℕ
  pub node : Node D

-- The `try` block around the spin: an exception is logged, and the process ends as without one.
unfoldable pub after_spin :
    {D : Type 0} → Surroundings → Outcome (State D × Text) (State D) → Exit D
after_spin w (ok st) = record { code = 0; node = destroy w st.node }
after_spin w (throw (st, what)) = record { code = 0; node = destroy w st.node }

unfoldable pub after_start_up : {D : Type 0} → Surroundings → Spin D → Started D → Exit D
after_start_up w spin (exited code st) = record { code = code; node = destroy w st.node }
after_start_up w spin (spinning st) = after_spin w (spin st)

module _ (F : Floats) (Y : Yaml F.Double) (rmw : RmwPolicies) (H : Host)
    (P : Parameters F.Double) where
  unfoldable pub main :
      Surroundings
      → StateMachine
      → Spin F.Double
      → (lifecycle : Bool) → State F.Double
      → Exit F.Double
  main w L spin lifecycle st = after_start_up w spin (start_up F Y rmw H P L lifecycle st)
