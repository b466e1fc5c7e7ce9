-- ===== src/Process/Life/Holds.antt =====
-- What holds of a node at any time of its life.
use rosetta_recorder_cpp.Floats.{Floats}
use rosetta_recorder_cpp.Prelude.{◌≢◌, refl, sym, ap, subst, ◌∙◌, Text, Post-eq-ok, Post-eq-throw}
use rosetta_recorder_cpp.Contract.{RmwPolicies}
use rosetta_recorder_cpp.Contract.Yaml.{Yaml}
use rosetta_recorder_cpp.Topics.Exact.{no_topics-IsExact}
use rosetta_recorder_cpp.Episode.{Node, Surroundings}
use rosetta_recorder_cpp.Episode.Reason.{Reasons}
use rosetta_recorder_cpp.Episode.Initial.{initial_node}
use rosetta_recorder_cpp.Episode.Configure.{Parameters, Host, State}
use rosetta_recorder_cpp.Episode.Configure.Configured.{Installs, on_configure-Installs}
use rosetta_recorder_cpp.Episode.Configure.Steps.{Keeps}
use rosetta_recorder_cpp.Episode.Phase.{Phase, idle}
use rosetta_recorder_cpp.Episode.Phase.Ends.{Phase-same}
use rosetta_recorder_cpp.Episode.Phase.Callbacks.{Turn-Phase}
use rosetta_recorder_cpp.Episode.Transitions.Taken.{Away}
use rosetta_recorder_cpp.Episode.Transitions.Leaving.{Leaving, Leaving-left}
use rosetta_recorder_cpp.Episode.Transitions.Resting.{Away-same, Turn-Away}
use rosetta_recorder_cpp.Episode.Sound.{Sound, Sound-same}
use rosetta_recorder_cpp.Episode.Sound.Ends.{shut-Sound}
use rosetta_recorder_cpp.Episode.Sound.Callbacks.{Turn-Sound}
use rosetta_recorder_cpp.Episode.Sound.Transitions.{Leaving-Sound, Installs-Sound, Keeps-Sound}
use rosetta_recorder_cpp.Process.{Primary, unconfigured, inactive, active, finalized}
use rosetta_recorder_cpp.Process.Life.{
  Life, created, configured, refused, activated, deactivated, cleaned_up, shut_down, errored, runs,
}

-- One of the three phases, a sound table, bag and counters, and nothing in progress outside of
-- active.
pub record Holds {D : Type 0} (p : Primary) (n : Node D) : Type 0 where
  pub phase : Phase n
  pub sound : Sound n
  pub away : p ≢ active → Away n

-- A node at rest is idle.
Away-Holds : {D : Type 0} (p : Primary) (n : Node D) → Away n → Sound n → Holds p n
Away-Holds p n away v = record {
  phase = idle away.quiet away.released;
  sound = v;
  away = λ e. away;
}

initial_node-Holds : (F : Floats) → Holds unconfigured (initial_node F)
initial_node-Holds F =
    Away-Holds unconfigured (initial_node F)
      (record {
        accepting = refl;
        quiet = record { recording = refl; timer = refl; pending = refl };
        released = refl;
      })
      (shut-Sound (initial_node F) no_topics-IsExact refl refl (λ waits. refl))

Installs-Holds :
    (F : Floats) (Y : Yaml F.Double) (rmw : RmwPolicies) (H : Host) (P : Parameters F.Double)
    (n m : Node F.Double)
    → Holds unconfigured n
    → Installs F Y rmw H P n m
    → Holds inactive m
Installs-Holds F Y rmw H P n m v installs =
    let away = v.away (λ e. cc e) in
    let (c, e) = installs in
    Away-Holds inactive m
      (subst Away (sym e) (Away-same n _ refl refl refl refl (λ none_held. none_held) away))
      (Installs-Sound F Y rmw H P n m away installs v.sound)

Keeps-Holds : {D : Type 0} (n m : Node D) → Holds unconfigured n → Keeps n m → Holds unconfigured m
Keeps-Holds n m v e =
    Away-Holds unconfigured m
      (Away-same n m (ap (λ (k : Node _). k.accepting_goals) e)
        (ap (λ (k : Node _). k.pipe.is_recording) e) (ap (λ (k : Node _). k.recording_timer) e)
        (ap (λ (k : Node _). k.start_pending) e)
        (λ none_held. ap (λ (k : Node _). k.goal_handle) e ∙ none_held) (v.away (λ h. cc h)))
      (Keeps-Sound n m e v.sound)

Leaving-Holds :
    {D : Type 0} (R : Reasons) (w : Surroundings) (p q : Primary) (n m : Node D) (reason : Text)
    → Leaving R w n reason m
    → Holds p n
    → Holds q m
Leaving-Holds R w p q n m reason leaving v =
    Away-Holds q m (Leaving-left R w n m reason v.phase leaving)
      (Leaving-Sound R w n m reason v.phase leaving v.sound)

-- At any time of its life, as long as neither closing a bag nor making a subscription or an
-- interface throws, whatever was configured, refused, activated, recorded, ended or torn down before,
-- in any order, the node is idle, pending or live;
-- each topic is subscribed under its own position, with the index exact and the discovered topics
-- last; a topic retains no more than its depth, and nothing unless it is latched and buffers; a bag
-- is open exactly while something is recorded, with as many messages in it as are counted, in 64
-- bits; and outside of active nothing is recorded or about to be, no goal is held, and none is
-- accepted.
pub Life-Holds :
    (F : Floats) (Y : Yaml F.Double) (rmw : RmwPolicies) (R : Reasons) (p : Primary)
    (st : State F.Double)
    → Life F Y rmw R p st
    → Holds p st.node
Life-Holds F Y rmw R p st created = initial_node-Holds F
Life-Holds F Y rmw R p st (configured H P before m life e) =
    Installs-Holds F Y rmw H P before.node st.node (Life-Holds F Y rmw R unconfigured before life)
      (Post-eq-ok (on_configure-Installs F Y rmw H P before) e)
Life-Holds F Y rmw R p st (refused H P before left life e) =
    Keeps-Holds before.node st.node (Life-Holds F Y rmw R unconfigured before life)
      (Post-eq-throw (on_configure-Installs F Y rmw H P before) e)
Life-Holds F Y rmw R p st (activated before life) =
    let v = Life-Holds F Y rmw R inactive before life in
    record {
      phase = Phase-same before.node _ refl refl refl refl (λ e. e) v.phase;
      sound = Sound-same before.node _ refl refl refl refl refl v.sound;
      away = λ e. absurd (e refl);
    }
Life-Holds F Y rmw R p st (deactivated w before life) =
    Leaving-Holds R w active inactive before.node _ _ Leaving.deactivated
      (Life-Holds F Y rmw R active before life)
Life-Holds F Y rmw R p st (cleaned_up w before life) =
    Leaving-Holds R w inactive unconfigured before.node _ _ Leaving.cleaned_up
      (Life-Holds F Y rmw R inactive before life)
Life-Holds F Y rmw R p st (shut_down w q before not_yet life) =
    Leaving-Holds R w q finalized before.node _ _ Leaving.shut_down
      (Life-Holds F Y rmw R q before life)
Life-Holds F Y rmw R p st (errored w q before not_yet life) =
    Leaving-Holds R w q unconfigured before.node _ _ Leaving.errored
      (Life-Holds F Y rmw R q before life)
Life-Holds F Y rmw R p st (runs q before n life t) =
    let v = Life-Holds F Y rmw R q before life in
    record {
      phase = Turn-Phase F R before.config.settings before.node n t v.phase;
      sound = Turn-Sound F R before.config.settings before.node n t v.sound;
      away = λ e. Turn-Away F R before.config.settings before.node n t (v.away e);
    }
