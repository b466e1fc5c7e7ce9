-- ===== src/Episode/Sound/Transitions.antt =====
-- The transitions of src/episode_recorder_node.cpp leave the node sound.
use rosetta_recorder_cpp.Floats.{Floats}
use rosetta_recorder_cpp.Prelude.{
  ℕ, ◌≡◌, refl, sym, ap, subst, ◌∙◌, Text, codes, false, Bool-cases, inl, inr, none,
}
use rosetta_recorder_cpp.Contract.{RmwPolicies}
use rosetta_recorder_cpp.Contract.Yaml.{Yaml}
use rosetta_recorder_cpp.Pipeline.{Storage}
use rosetta_recorder_cpp.Pipeline.Counted.{
  Advances, Advances-same, Advances-trans, run_thread-Advances,
}
use rosetta_recorder_cpp.Pipeline.Drain.{Machine, stop_writer_thread}
use rosetta_recorder_cpp.Topics.Exact.{no_topics-IsExact}
use rosetta_recorder_cpp.Topics.Exact.Built.{subscribe_all-IsExact}
use rosetta_recorder_cpp.Episode.{Node, Surroundings, machine_of}
use rosetta_recorder_cpp.Episode.Reason.{Reasons}
use rosetta_recorder_cpp.Episode.Configure.{Parameters, Host}
use rosetta_recorder_cpp.Episode.Configure.Configured.{Installs}
use rosetta_recorder_cpp.Episode.Configure.Steps.{Keeps}
use rosetta_recorder_cpp.Episode.Phase.{Phase}
use rosetta_recorder_cpp.Episode.Transitions.{on_deactivate, on_cleanup, on_shutdown, on_error}
use rosetta_recorder_cpp.Episode.Transitions.Taken.{Away, take_away-Away}
use rosetta_recorder_cpp.Episode.Transitions.Released.{stop_writer_thread-Joins}
use rosetta_recorder_cpp.Episode.Transitions.Leaving.{
  Leaving, deactivated, cleaned_up, shut_down, errored,
}
use rosetta_recorder_cpp.Episode.Sound.{Sound, Sound-same}
use rosetta_recorder_cpp.Episode.Sound.Ends.{shut-Sound, take_away-Sound, close_writer-Sound}

stop_writer_thread-Advances :
    (rounds : ℕ) (S : Storage) (m : Machine) → Advances m.pipe (stop_writer_thread rounds S m).pipe
unfolding stop_writer_thread
stop_writer_thread-Advances rounds S m = elim (Bool-cases m.pipe.writer_thread_running) [
  | inr e ↦ simp e (Advances-same m.pipe m.pipe refl refl)
  | inl e ↦
      let told : Machine = record m { pipe = record m.pipe { writer_thread_running = false } } in
      simp e (
        Advances-trans (Advances-same m.pipe told.pipe refl refl)
          (run_thread-Advances rounds S told))
]

-- Nothing is open in a node at rest whose writer thread is joined.
joined-shut :
    {D : Type 0} (w : Surroundings) (n : Node D)
    → Away n
    → Sound n
    → let joined = stop_writer_thread w.rounds w.storage (machine_of n) in
      (joined.pipe.writer ≡ none) × (joined.pipe.is_recording ≡ false)
joined-shut w n away v =
    let advances = stop_writer_thread-Advances w.rounds w.storage (machine_of n) in
    let joins = stop_writer_thread-Joins w.rounds w.storage (machine_of n) in
    ((advances.shut (v.shut away.quiet.recording)).0, joins.same_recording ∙ away.quiet.recording)

on_cleanup-Sound :
    {D : Type 0} (R : Reasons) (w : Surroundings) (n : Node D)
    → Phase n
    → Sound n
    → Sound (on_cleanup R w n)
unfolding on_cleanup
on_cleanup-Sound R w n phase v =
    let before = codes "Stopped: node cleanup before recording started" in
    let detail = codes "node cleanup" in
    let away = take_away-Away R w R.node_deactivated before detail n phase in
    let (shut, off) =
      joined-shut w _ away (take_away-Sound R w R.node_deactivated before detail n v) in
    shut-Sound _ no_topics-IsExact shut off (λ waits. cc (away.quiet.pending, waits))

on_shutdown-Sound :
    {D : Type 0} (R : Reasons) (w : Surroundings) (n : Node D)
    → Phase n
    → Sound n
    → Sound (on_shutdown R w n)
unfolding on_shutdown
on_shutdown-Sound R w n phase v =
    let before = codes "Stopped: node shutdown before recording started" in
    let detail = codes "node shutdown" in
    let away = take_away-Away R w R.node_deactivated before detail n phase in
    let (shut, off) =
      joined-shut w _ away (take_away-Sound R w R.node_deactivated before detail n v) in
    shut-Sound _ no_topics-IsExact shut off (λ waits. cc (away.quiet.pending, waits))

pub Leaving-Sound :
    {D : Type 0} (R : Reasons) (w : Surroundings) (n m : Node D) (reason : Text)
    → Phase n
    → Leaving R w n reason m
    → Sound n
    → Sound m
unfolding on_deactivate on_error
Leaving-Sound R w n m reason phase deactivated v = take_away-Sound R w R.node_deactivated _ _ n v
Leaving-Sound R w n m reason phase cleaned_up v = on_cleanup-Sound R w n phase v
Leaving-Sound R w n m reason phase shut_down v = on_shutdown-Sound R w n phase v
Leaving-Sound R w n m reason phase errored v =
    close_writer-Sound _ (take_away-Away R w R.error _ _ n phase).quiet.recording
      (take_away-Sound R w R.error _ _ n v)

-- A configuration puts an exact table in the place of the old one.
pub Installs-Sound :
    (F : Floats) (Y : Yaml F.Double) (rmw : RmwPolicies) (H : Host) (P : Parameters F.Double)
    (n m : Node F.Double)
    → Away n
    → Installs F Y rmw H P n m
    → Sound n
    → Sound m
Installs-Sound F Y rmw H P n m away (c, e) v = subst Sound (sym e) (
    shut-Sound _ (subscribe_all-IsExact rmw P.use_sim_time c.topics) (v.shut away.quiet.recording)
      away.quiet.recording (λ waits. cc (away.quiet.pending, waits)))

pub Keeps-Sound : {D : Type 0} (n m : Node D) → Keeps n m → Sound n → Sound m
Keeps-Sound n m e v =
    Sound-same n m (ap (λ (k : Node _). k.pipe.table) e) (ap (λ (k : Node _). k.pipe.writer) e)
      (ap (λ (k : Node _). k.pipe.messages_written) e) (ap (λ (k : Node _). k.pipe.is_recording) e)
      (ap (λ (k : Node _). k.start_pending) e) v
