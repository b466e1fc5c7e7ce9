-- ===== src/Process/Life.antt =====
-- src/main.cpp and src/episode_recorder_node.cpp: the node through its lifecycle, from its creation
-- on.
pub mod Holds
pub mod Answered
pub mod Detached
use rosetta_recorder_cpp.Floats.{Floats}
use rosetta_recorder_cpp.Prelude.{◌≡◌, ◌≢◌, ok, throw}
use rosetta_recorder_cpp.Contract.{RmwPolicies}
use rosetta_recorder_cpp.Contract.Yaml.{Yaml}
use rosetta_recorder_cpp.Episode.{Node, Surroundings}
use rosetta_recorder_cpp.Episode.Reason.{Reasons}
use rosetta_recorder_cpp.Episode.Initial.{initial}
use rosetta_recorder_cpp.Episode.Configure.{Parameters, Host, State, on_configure}
use rosetta_recorder_cpp.Episode.Transitions.{on_deactivate, on_cleanup, on_shutdown, on_error}
use rosetta_recorder_cpp.Episode.Phase.Callbacks.{Turn}
use rosetta_recorder_cpp.Process.{Primary, unconfigured, inactive, active, finalized, activate}

abbrev pub with_node : {D : Type 0} → State D → Node D → State D
with_node st n = record st { node = n }

module _ (F : Floats) (Y : Yaml F.Double) (rmw : RmwPolicies) (R : Reasons) where
  -- The states that a node comes to, with the primary state that rclcpp_lifecycle has it in. Files
  -- and parameters may be others at each configuration. An error is one that left the node as it
  -- was. Closing a bag does not throw, nor does creating a subscription or an interface.
  pub data Life : Primary → State F.Double → Type 0 where
    created : Life unconfigured (initial F)
    configured :
        (H : Host) (P : Parameters F.Double) (st m : State F.Double)
        → Life unconfigured st
        → on_configure F Y rmw H P st ≡ ok m
        → Life inactive m
    refused :
        (H : Host) (P : Parameters F.Double) (st left : State F.Double)
        → Life unconfigured st
        → on_configure F Y rmw H P st ≡ throw left
        → Life unconfigured left
    activated : (st : State F.Double) → Life inactive st → Life active (activate st)
    deactivated :
        (w : Surroundings) (st : State F.Double)
        → Life active st
        → Life inactive (with_node st (on_deactivate R w st.node))
    cleaned_up :
        (w : Surroundings) (st : State F.Double)
        → Life inactive st
        → Life unconfigured (with_node st (on_cleanup R w st.node))
    shut_down :
        (w : Surroundings) (p : Primary) (st : State F.Double)
        → p ≢ finalized
        → Life p st
        → Life finalized (with_node st (on_shutdown R w st.node))
    errored :
        (w : Surroundings) (p : Primary) (st : State F.Double)
        → p ≢ finalized
        → Life p st
        → Life unconfigured (with_node st (on_error R w st.node))
    runs :
        (p : Primary) (st : State F.Double) (n : Node F.Double)
        → Life p st
        → Turn F R st.config.settings st.node n
        → Life p (with_node st n)
