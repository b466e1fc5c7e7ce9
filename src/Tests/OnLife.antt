-- ===== src/Tests/OnLife.antt =====
-- A node that is configured from the sample contract, activated and started; the end of an episode
-- with one message queued; and two episodes that share a batch.
use rosetta_recorder_cpp.Prelude.{
  ℕ, ◌≡◌, ◌≢◌, refl, codes, true, false, none, [], ◌∷◌, ◌++◌, Outcome, ok, throw, ◌>>=◌, text_eq,
  arith,
}
use rosetta_recorder_cpp.Directory.{parse_bag_name_style}
use rosetta_recorder_cpp.Topics.{build_topic_list, subscribe_all}
use rosetta_recorder_cpp.Topics.Discovery.{erase_discovered, destroy_discovered_subscriptions}
use rosetta_recorder_cpp.Topics.Exact.Built.{subscribe_all-IsExact}
use rosetta_recorder_cpp.Pipeline.Counted.{Counts-some}
use rosetta_recorder_cpp.Pipeline.Drain.{
  run_thread, step_at, take_batch, drain, request_flush, close_bag,
}
use rosetta_recorder_cpp.Pipeline.Finish.{after_wait, close_and_destroy, end_bag}
use rosetta_recorder_cpp.Episode.{Node}
use rosetta_recorder_cpp.Episode.Initial.{initial}
use rosetta_recorder_cpp.Episode.Configure.{
  State, prepare, on_configure, read_contract_file, make_base, read_values, read_style,
  compile_excluded, compile_included, include_pattern, join_included,
}
use rosetta_recorder_cpp.Episode.Open.{prepare_resubscribes, resubscribe_from}
use rosetta_recorder_cpp.Episode.Settle.{settle_goal}
use rosetta_recorder_cpp.Episode.Lifecycle.{finish_recording, reset_episode, start_recording}
use rosetta_recorder_cpp.Episode.Lifecycle.Hurried.{hurried}
use rosetta_recorder_cpp.Episode.Lifecycle.Leaked.{Leaked, finish-Leaks}
use rosetta_recorder_cpp.Episode.Service.{handle_goal, handle_accepted, on_start_service}
use rosetta_recorder_cpp.Episode.Transitions.{on_deactivate}
use rosetta_recorder_cpp.Episode.Goals.{held, settled_goals}
use rosetta_recorder_cpp.Process.Life.Answered.{Life-Answers}
use rosetta_recorder_cpp.Process.{inactive, active, activate}
use rosetta_recorder_cpp.Episode.Phase.Services.{works}
use rosetta_recorder_cpp.Episode.Phase.Callbacks.{accept, start}
use rosetta_recorder_cpp.Episode.Sound.{Sound}
use rosetta_recorder_cpp.Episode.Sound.Accounts.{Accounts, finish_recording-Accounts}
use rosetta_recorder_cpp.Process.Life.{
  Life, with_node, created, configured, activated, deactivated, runs,
}
use rosetta_recorder_cpp.Process.Life.Holds.{Holds, Life-Holds}
use rosetta_recorder_cpp.Tests.Samples.{floats, rmw, yaml_of}
use rosetta_recorder_cpp.Tests.OnContract.{sample_root, load_sample}
use rosetta_recorder_cpp.Tests.OnConfigure.{parameters, host, succeeds}
use rosetta_recorder_cpp.Tests.OnPipeline.{latched, open_bag, queued}
use rosetta_recorder_cpp.Tests.OnEpisode.{reasons, settings, around, handle, live_node}

abbrev ok_or : {E : Type 0} {A : Type 0} → A → Outcome E A → A
ok_or d (ok a) = a
ok_or d (throw e) = d

succeeds-ok :
    {E : Type 0} {A : Type 0} (d : A) (m : Outcome E A) → succeeds m ≡ true → m ≡ ok (ok_or d m)
succeeds-ok d (ok a) e = refl
succeeds-ok d (throw x) e = cc

configured_test :
    succeeds (on_configure floats (yaml_of sample_root) rmw host parameters (initial floats)) ≡ true
unfolding on_configure prepare read_contract_file make_base read_values read_style compile_excluded
    compile_included include_pattern join_included parse_bag_name_style text_eq ◌>>=◌
configured_test = rw load_sample refl

abbrev ready : State ℕ
ready =
    ok_or (initial floats)
      (on_configure floats (yaml_of sample_root) rmw host parameters (initial floats))

ready-eq : on_configure floats (yaml_of sample_root) rmw host parameters (initial floats) ≡ ok ready
ready-eq = succeeds-ok (initial floats) _ configured_test

abbrev serving : Life floats (yaml_of sample_root) rmw reasons active (activate ready)
serving = activated ready (configured host parameters (initial floats) ready created ready-eq)

abbrev after_start : Node ℕ
after_start =
    (on_start_service floats ready.config.settings around (codes "pick") (activate ready).node).0

Life-Holds_example : Holds active after_start
Life-Holds_example =
    Life-Holds floats (yaml_of sample_root) rmw reasons active
      (with_node (activate ready) after_start)
      (runs active (activate ready) after_start serving (start around (codes "pick")))

ready_life : Life floats (yaml_of sample_root) rmw reasons inactive ready
ready_life = configured host parameters (initial floats) ready created ready-eq

handle_goal-serving : handle_goal (activate ready).node ≡ true
handle_goal-serving =
    let away =
      (Life-Holds floats (yaml_of sample_root) rmw reasons inactive ready ready_life).away
        (λ e. cc e) in
    simp (away.quiet.recording, away.quiet.pending) refl

-- A goal is accepted, and the node is deactivated.
abbrev with_goal : Node ℕ
with_goal = handle_accepted floats reasons ready.config.settings around handle (activate ready).node

abbrev stopped : State ℕ
stopped = with_node (with_node (activate ready) with_goal) (on_deactivate reasons around with_goal)

abbrev stopped_life : Life floats (yaml_of sample_root) rmw reasons inactive stopped
stopped_life =
    deactivated around (with_node (activate ready) with_goal)
      (runs active (activate ready) with_goal serving (accept around handle handle_goal-serving))

Life-Answers_example :
    (settled_goals stopped.node.settled ++ held stopped.node.goal_handle ≡ handle.uuid ∷ [])
    × (inactive ≢ active → settled_goals stopped.node.settled ≡ handle.uuid ∷ [])
Life-Answers_example = Life-Answers inactive stopped stopped_life (tt, tt)

-- One message is queued when the episode ends.
abbrev busy_node : Node ℕ
busy_node = record live_node {
  pipe = record queued { table = subscribe_all (build_topic_list rmw false (latched.spec ∷ [])) };
}

busy_node-Sound : Sound busy_node
busy_node-Sound = record {
  exact = subscribe_all-IsExact rmw false (latched.spec ∷ []);
  counted = Counts-some 0 open_bag refl;
  shut = λ off. cc off;
  opened = λ on. (open_bag, refl);
  fresh = λ waits. cc waits;
}

finish_recording-Accounts_example :
    Accounts reasons busy_node (finish_recording reasons around (codes "timeout") [] busy_node)
finish_recording-Accounts_example =
    finish_recording-Accounts reasons around (codes "timeout") [] busy_node busy_node-Sound refl

-- The same with a topic that is not subscribed again.
abbrev racing_node : Node ℕ
racing_node = record live_node { pipe = queued }

abbrev ended : Node ℕ
ended =
    finish_recording reasons (hurried around) (codes "timeout") []
      (works 1 around.storage racing_node)

settled_at_once :
    (reset_episode floats settings around (codes "pick") 0 ended).pending_resubscribed ≡ []
unfolding finish_recording end_bag after_wait run_thread step_at take_batch drain request_flush
    close_and_destroy close_bag destroy_discovered_subscriptions settle_goal reset_episode
    prepare_resubscribes resubscribe_from erase_discovered
settled_at_once = refl

finish-Leaks_example :
    let reset = reset_episode floats settings around (codes "pick") 0 ended in
    let (begun, error) = start_recording floats settings around (codes "pick") 0 ended in
    (error ≡ none) × Leaked around racing_node ended reset (works 1 around.storage begun) open_bag
finish-Leaks_example =
    finish-Leaks floats reasons settings around (codes "timeout") [] (codes "pick") 0 racing_node
      open_bag
      (record { opens = λ uri id. refl; creates = λ bag meta. refl; writes = λ bag bm. refl }) refl
      refl refl refl (λ e. cc) (ground arith) refl refl settled_at_once
