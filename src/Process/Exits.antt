-- ===== src/Process/Exits.antt =====
-- src/main.cpp: how the process ends.
use rosetta_recorder_cpp.Floats.{Floats}
use rosetta_recorder_cpp.Prelude.{ℕ, ◌≡◌, refl, Bool, true, false, ok, throw, Outcome, Text}
use rosetta_recorder_cpp.Contract.{RmwPolicies}
use rosetta_recorder_cpp.Contract.Yaml.{Yaml}
use rosetta_recorder_cpp.Episode.{Node, Surroundings, machine_of}
use rosetta_recorder_cpp.Episode.Configure.{Parameters, Host, State, on_configure}
use rosetta_recorder_cpp.Episode.Configure.Steps.{Fails}
use rosetta_recorder_cpp.Episode.Configure.Configured.{IsConfigured}
use rosetta_recorder_cpp.Episode.Transitions.{destroy}
use rosetta_recorder_cpp.Episode.Transitions.Released.{stop_writer_thread-Joins}
use rosetta_recorder_cpp.Process.{
  StateMachine, StateMachineLaws, Started, start_up, Spin, Exit, after_spin, after_start_up, main,
}
use rosetta_recorder_cpp.Process.Startup.{Starts, ready, failed, start_up-Starts}

-- Nothing is recorded, and the writer thread was told to stop before it was joined.
pub record Destroyed {D : Type 0} (n : Node D) : Type 0 where
  pub recording : n.pipe.is_recording ≡ false
  pub stopped : n.pipe.writer_thread_running ≡ false

destroy-Destroyed : {D : Type 0} (w : Surroundings) (n : Node D) → Destroyed (destroy w n)
unfolding destroy
destroy-Destroyed {D} w n =
    let told : Node D = record n {
      pipe = record n.pipe { stop_requested = true; is_recording = false };
    } in
    let joins = stop_writer_thread-Joins w.rounds w.storage (machine_of told) in
    record { recording = joins.same_recording; stopped = joins.stopped }

-- The state that a spin leaves, by a return or by an exception.
abbrev pub spun : {D : Type 0} → Outcome (State D × Text) (State D) → State D
spun (ok st) = st
spun (throw (st, what)) = st

-- The process ends with this code, and its node is destroyed as this state has it.
pub record Ends {D : Type 0} (w : Surroundings) (status : ℕ) (st : State D) (e : Exit D)
    : Type 0 where
  pub code : e.code ≡ status
  pub node : e.node ≡ destroy w st.node
  pub destroyed : Destroyed e.node

after_spin-Ends :
    {D : Type 0} (w : Surroundings) (r : Outcome (State D × Text) (State D))
    → Ends w 0 (spun r) (after_spin w r)
unfolding after_spin
after_spin-Ends w (ok st) = record {
  code = refl;
  node = refl;
  destroyed = destroy-Destroyed w st.node;
}
after_spin-Ends w (throw (st, what)) = record {
  code = refl;
  node = refl;
  destroyed = destroy-Destroyed w st.node;
}

module _ (F : Floats) (Y : Yaml F.Double) (rmw : RmwPolicies) (H : Host)
    (P : Parameters F.Double) where
  -- The executor spun on the node of a lifecycle manager, or on one that configured and activated
  -- itself, or the configuration failed.
  pub data Exits (w : Surroundings) (spin : Spin F.Double) (st : State F.Double) (lifecycle : Bool)
      (e : Exit F.Double) : Type 0 where
    managed : lifecycle ≡ true → Ends w 0 (spun (spin st)) e → Exits w spin st lifecycle e
    served :
        (m : State F.Double)
        → lifecycle ≡ false
        → on_configure F Y rmw H P st ≡ ok m
        → IsConfigured F Y rmw H P m
        → Ends w 0 (spun (spin (record m { node = record m.node { accepting_goals = true } }))) e
        → Exits w spin st lifecycle e
    failed_start :
        (left : State F.Double)
        → lifecycle ≡ false
        → Fails F Y rmw H P st left
        → Ends w 1 left e
        → Exits w spin st lifecycle e

  after_start_up-Exits :
      (w : Surroundings) (spin : Spin F.Double) (st : State F.Double) (r : Started F.Double)
      → Starts F Y rmw H P st r
      → Exits w spin st false (after_start_up w spin r)
  unfolding after_start_up
  after_start_up-Exits w spin st r (ready m e configured) =
      served m refl e configured (after_spin-Ends w _)
  after_start_up-Exits w spin st r (failed left why) =
      failed_start left refl why
        (record { code = refl; node = refl; destroyed = destroy-Destroyed w left.node })

  managed-Exits :
      (w : Surroundings) (L : StateMachine) (spin : Spin F.Double) (st : State F.Double)
      → Exits w spin st true (main F Y rmw H P w L spin true st)
  unfolding main start_up after_start_up
  managed-Exits w L spin st = managed refl (after_spin-Ends w (spin st))

  -- With a state machine as documented and a middleware that throws nothing, the process ends in
  -- one of three ways. For a lifecycle manager the executor spins on the node as constructed, and
  -- without one, if the configuration succeeds, on what it left, configured as its parameters and its
  -- contract say, with goals accepted. Whether that spin returns or throws, the process exits with 0
  -- and destroys the node that the spin left. If the configuration fails, it exits with 1 and destroys
  -- the node that this failure leaves. After the destruction nothing is recorded any more and the
  -- writer thread was told to stop.
  pub main-Exits :
      (w : Surroundings) (L : StateMachine) (spin : Spin F.Double) (lifecycle : Bool)
      (st : State F.Double)
      → StateMachineLaws L
      → Exits w spin st lifecycle (main F Y rmw H P w L spin lifecycle st)
  unfolding main
  main-Exits w L spin true st laws = managed-Exits w L spin st
  main-Exits w L spin false st laws =
      after_start_up-Exits w spin st _ (start_up-Starts F Y rmw H P L st laws)
