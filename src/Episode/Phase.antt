-- ===== src/Episode/Phase.antt =====
-- The three phases of the recording state, and that every callback of
-- src/episode_recorder_node.cpp leads from one to one.
pub mod Ends
pub mod Services
pub mod Callbacks
use rosetta_recorder_cpp.Floats.{Floats}
use rosetta_recorder_cpp.Prelude.{
  ℕ, ◌≡◌, refl, sym, ap, subst, ◌∙◌, Text, Bool, true, false, not, ◌&&◌, ◌||◌, Option, none, some,
  List, [], ◌∷◌, ◌++◌, is_empty, if◌then◌else◌, arith, Bool-cases, Option-cases, ◌⊎◌, inl, inr,
}
use rosetta_recorder_cpp.Contract.{RmwPolicies}
use rosetta_recorder_cpp.Topics.{TopicState}
use rosetta_recorder_cpp.Pipeline.{Pipeline, Bag, Storage}
use rosetta_recorder_cpp.Pipeline.Drain.{request_flush, may_close, abandon, close_bag}
use rosetta_recorder_cpp.Episode.{GoalHandle, EpisodeResult, Settings, Node, Surroundings}
use rosetta_recorder_cpp.Episode.Reason.{Reasons}
use rosetta_recorder_cpp.Episode.Settle.{settle_goal}
use rosetta_recorder_cpp.Episode.Open.{
  register_topics, flush_topics, start_thread, flush_retained, after_registering, open_writer,
}
use rosetta_recorder_cpp.Episode.Lifecycle.{
  begin_episode, close_writer, reset_episode, go_live, start_recording, complete_start,
  cancel_pending_start, finish_recording, publish_feedback, on_recording_tick, is_canceling,
}
use rosetta_recorder_cpp.Episode.Service.{
  handle_goal, handle_cancel, handle_accepted, on_start_service, CancelClient, on_cancel_response,
  on_cancel_service, FileSystem, on_delete_last_bag_service,
}

-- Nothing is recorded or about to be.
pub record Quiet {D : Type 0} (n : Node D) : Type 0 where
  pub recording : n.pipe.is_recording ≡ false
  pub timer : n.recording_timer ≡ false
  pub pending : n.start_pending ≡ false

-- An idle node holds no goal; a pending one has the timer that will start it; a live one has the
-- timer that will end it.
pub data Phase {D : Type 0} (n : Node D) : Type 0 where
  idle : Quiet n → n.goal_handle ≡ none → Phase n
  pending :
      n.pipe.is_recording ≡ false
      → n.recording_timer ≡ false
      → n.start_pending ≡ true
      → n.pending_start_timer ≡ true
      → Phase n
  live : n.pipe.is_recording ≡ true → n.recording_timer ≡ true → n.start_pending ≡ false → Phase n

start_thread-recording : (p : Pipeline) → (start_thread p).is_recording ≡ p.is_recording
unfolding start_thread
start_thread-recording p = elim (Bool-cases p.writer_thread_running) [
  | inl e ↦ simp e refl
  | inr e ↦ simp e refl
]

flush_retained-recording :
    (S : Storage) (start : ℕ) (bag : Bag) (p : Pipeline)
    → (flush_retained S start bag p).0.is_recording ≡ p.is_recording
unfolding flush_retained
flush_retained-recording S start bag p =
    elim (Option-cases (flush_topics S start p.table.topics bag p.messages_written).1.error) [
      | inl e ↦ rw (e, flush_retained) (start_thread-recording _)
      | inr (what, e) ↦ rw (e, flush_retained)
    ]

after_registering-recording :
    (S : Storage) (start : ℕ) (p : Pipeline) (r : List TopicState × Bag × Option Text)
    → (after_registering S start p r).0.is_recording ≡ p.is_recording
unfolding after_registering
after_registering-recording S start p (topics, bag, none) = flush_retained-recording S start bag _
after_registering-recording S start p (topics, bag, some what) = refl

open_writer-recording :
    (rmw : RmwPolicies) (S : Storage) (uri storage_id : Text) (start : ℕ) (p : Pipeline)
    → (open_writer rmw S uri storage_id start p).0.is_recording ≡ p.is_recording
unfolding open_writer
open_writer-recording rmw S uri storage_id start p =
    elim (Option-cases (S.open_error uri storage_id)) [
      | inr (what, e) ↦ rw (e, open_writer)
      | inl e ↦ rw (e, open_writer) (after_registering-recording S start p _)
    ]

-- An attempt to go live: it worked, or the node is as quiet as before and holds the same goal.
pub data Attempt {D : Type 0} (goal : Option (GoalHandle D)) (m : Node D)
    : Option Text → Type 0 where
  worked : Phase m → Attempt goal m none
  failed : (what : Text) → Quiet m → m.goal_handle ≡ goal → Attempt goal m (some what)

begin_episode-Attempt :
    {D : Type 0} (s : Settings D) (w : Surroundings) (n : Node D)
    → Quiet n
    → let (m, error) = begin_episode s w n in Attempt n.goal_handle m error
unfolding begin_episode
begin_episode-Attempt s w n q =
    let opened = open_writer w.rmw w.storage n.current_bag_dir s.storage_id w.now_ns n.pipe in
    let same =
      open_writer-recording w.rmw w.storage n.current_bag_dir s.storage_id w.now_ns n.pipe in
    elim (Option-cases opened.1) [
      | inl e ↦ rw (e, begin_episode) (worked (live refl refl q.pending))
      | inr (what, e) ↦
          rw (e, begin_episode)
            (failed what
              (record { recording = same ∙ q.recording; timer = q.timer; pending = q.pending })
              refl)
    ]

close_writer-Quiet :
    {D : Type 0} (n : Node D)
    → Quiet n
    → Quiet (close_writer n) × ((close_writer n).goal_handle ≡ n.goal_handle)
unfolding close_writer
close_writer-Quiet n q = elim (Option-cases n.pipe.writer) [
  | inl e ↦ rw (e, close_writer) (q, refl)
  | inr (bag, e) ↦
      rw (e, close_writer)
        (record { recording = q.recording; timer = q.timer; pending = q.pending }, refl)
]

pub Attempt-cases :
    {D : Type 0} (goal : Option (GoalHandle D)) (m : Node D) (error : Option Text)
    → Attempt goal m error
    → ((error ≡ none) × Phase m)
      ⊎ ((what : Text) × (error ≡ some what) × Quiet m × (m.goal_handle ≡ goal))
Attempt-cases goal m error (worked phase) = inl (refl, phase)
Attempt-cases goal m error (failed what q e) = inr (what, refl, q, e)

-- `begin_episode`, with the bag closed again where it threw.
pub begin_episode-cases :
    {D : Type 0} (s : Settings D) (w : Surroundings) (n : Node D)
    → Quiet n
    → let (m, error) = begin_episode s w n in
      ((error ≡ none) × Phase m)
      ⊎ ((what : Text) × (error ≡ some what)
          × Quiet (close_writer m)
          × ((close_writer m).goal_handle ≡ n.goal_handle))
begin_episode-cases s w n q = elim (Attempt-cases _ _ _ (begin_episode-Attempt s w n q)) [
  | inl (fine, phase) ↦ inl (fine, phase)
  | inr (what, threw, quiet, same) ↦
      let (quiet', same') = close_writer-Quiet (begin_episode s w n).0 quiet in
      inr (what, threw, quiet', same' ∙ same)
]

go_live-Attempt :
    {D : Type 0} (s : Settings D) (w : Surroundings) (n : Node D)
    → Quiet n
    → let (m, error) = go_live s w n in Attempt n.goal_handle m error
unfolding go_live
go_live-Attempt s w n q = elim (Bool-cases (is_empty n.pending_resubscribed)) [
  | inr e ↦ rw (e, go_live) (worked (pending q.recording q.timer refl refl))
  | inl e ↦ elim (begin_episode-cases s w n q) [
    | inl (fine, phase) ↦ rw (e, go_live, fine) (worked phase)
    | inr (what, threw, quiet, same) ↦ rw (e, go_live, threw) (failed _ quiet same)
  ]
]

reset_episode-Quiet :
    (F : Floats) (s : Settings F.Double) (w : Surroundings) (prompt : Text) (max : F.Double)
    (n : Node F.Double)
    → Quiet n
    → Quiet (reset_episode F s w prompt max n)
      × ((reset_episode F s w prompt max n).goal_handle ≡ n.goal_handle)
unfolding reset_episode
reset_episode-Quiet F s w prompt max n q =
    (record { recording = q.recording; timer = q.timer; pending = q.pending }, refl)

pub start_recording-Attempt :
    (F : Floats) (s : Settings F.Double) (w : Surroundings) (prompt : Text) (max : F.Double)
    (n : Node F.Double)
    → Quiet n
    → let (m, error) = start_recording F s w prompt max n in Attempt n.goal_handle m error
unfolding start_recording
start_recording-Attempt F s w prompt max n q = elim (Bool-cases n.accepting_goals) [
  | inr e ↦ simp e (failed _ q refl)
  | inl e ↦
      let (quiet, same) = reset_episode-Quiet F s w prompt max n q in
      simp (e, q.recording, q.pending)
        (subst
          (λ goal.
            Attempt goal (go_live s w (reset_episode F s w prompt max n)).0
              (go_live s w (reset_episode F s w prompt max n)).1)
          same (go_live-Attempt s w _ quiet))
]

pub settle_goal-idle :
    {D : Type 0} (R : Reasons) (result : EpisodeResult) (n : Node D)
    → Quiet n
    → Phase (settle_goal R result n)
unfolding settle_goal
settle_goal-idle R result n q = elim (Option-cases n.goal_handle) [
  | inl e ↦ rw (e, settle_goal) (idle q e)
  | inr (h, e) ↦
      rw (e, settle_goal)
        (idle (record { recording = q.recording; timer = q.timer; pending = q.pending }) refl)
]
