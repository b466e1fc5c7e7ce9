-- ===== src/Episode/Goals.antt =====
-- src/episode_recorder_node.cpp: what each function does to the goals that were accepted: those that
-- were settled, and the one that is held.
use rosetta_recorder_cpp.Floats.{Floats}
use rosetta_recorder_cpp.Prelude.{
  ℕ, ◌≡◌, refl, ap, ◌∙◌, Text, false, ◌||◌, Bool-cases, Option, none, some, Option-cases, inl, inr,
  List, [], ◌∷◌, ◌++◌, map, is_empty,
}
use mathlib.Core.List.{append-nil}
use rosetta_recorder_cpp.Episode.{GoalHandle, EpisodeResult, Settled, Settings, Node, Surroundings}
use rosetta_recorder_cpp.Episode.Reason.{Reasons}
use rosetta_recorder_cpp.Episode.Settle.{settle_goal}
use rosetta_recorder_cpp.Episode.Open.{open_writer}
use rosetta_recorder_cpp.Episode.Lifecycle.{
  begin_episode, close_writer, reset_episode, go_live, start_recording, complete_start,
  cancel_pending_start, finish_recording, publish_feedback, on_recording_tick,
}
use rosetta_recorder_cpp.Episode.Phase.Ends.{on_recording_tick-elim}
use rosetta_recorder_cpp.Episode.Transitions.{take_away}

abbrev pub held : {D : Type 0} → Option (GoalHandle D) → List (List ℕ)
held none = []
held (some h) = h.uuid ∷ []

abbrev pub settled_goals : List Settled → List (List ℕ)
settled_goals = map λ s. s.goal

-- The ids of the goals that were settled, in order, and then of the one that is held.
abbrev pub goals : {D : Type 0} → Node D → List (List ℕ)
goals n = settled_goals n.settled ++ held n.goal_handle

-- The same goals, the same answers.
pub record SameGoals {D : Type 0} (n m : Node D) : Type 0 where
  pub settled : m.settled ≡ n.settled
  pub goal : m.goal_handle ≡ n.goal_handle

pub SameGoals-goals : {D : Type 0} (n m : Node D) → SameGoals n m → goals m ≡ goals n
SameGoals-goals n m s = cc (s.settled, s.goal)

settled_goals-append :
    (xs : List Settled) (s : Settled)
    → settled_goals (xs ++ s ∷ []) ≡ settled_goals xs ++ s.goal ∷ []
settled_goals-append [] s = refl
settled_goals-append (x ∷ xs) s = ap (◌∷◌ x.goal) (settled_goals-append xs s)

-- The held goal becomes the last that was settled.
pub settle_goal-goals :
    {D : Type 0} (R : Reasons) (result : EpisodeResult) (n : Node D)
    → goals (settle_goal R result n) ≡ goals n
unfolding settle_goal
settle_goal-goals R result n = elim (Option-cases n.goal_handle) [
  | inl e ↦ rw (settle_goal, e) (ap (λ g. settled_goals n.settled ++ held g) e)
  | inr (h, e) ↦ rw (settle_goal, e) (append-nil _ ∙ settled_goals-append n.settled _)
]

begin_episode-SameGoals :
    {D : Type 0} (s : Settings D) (w : Surroundings) (n : Node D)
    → SameGoals n (begin_episode s w n).0
unfolding begin_episode
begin_episode-SameGoals s w n =
    elim (Option-cases
      (open_writer w.rmw w.storage n.current_bag_dir s.storage_id w.now_ns n.pipe).1) [
        | inl e ↦ rw (e, begin_episode) (record { settled = refl; goal = refl })
        | inr (what, e) ↦ rw (e, begin_episode) (record { settled = refl; goal = refl })
      ]

close_writer-SameGoals : {D : Type 0} (n m : Node D) → SameGoals n m → SameGoals n (close_writer m)
unfolding close_writer
close_writer-SameGoals n m s = elim (Option-cases m.pipe.writer) [
  | inl e ↦ rw (e, close_writer) s
  | inr (bag, e) ↦ rw (e, close_writer) (record { settled = s.settled; goal = s.goal })
]

go_live-SameGoals :
    {D : Type 0} (s : Settings D) (w : Surroundings) (n : Node D) → SameGoals n (go_live s w n).0
unfolding go_live
go_live-SameGoals s w n = elim (Bool-cases (is_empty n.pending_resubscribed)) [
  | inr e ↦ rw (go_live, e) (record { settled = refl; goal = refl })
  | inl e ↦ elim (Option-cases (begin_episode s w n).1) [
    | inl fine ↦ rw (go_live, e, fine) (begin_episode-SameGoals s w n)
    | inr (what, threw) ↦
        rw (go_live, e, threw) (close_writer-SameGoals n _ (begin_episode-SameGoals s w n))
  ]
]

reset_episode-SameGoals :
    (F : Floats) (s : Settings F.Double) (w : Surroundings) (prompt : Text) (max : F.Double)
    (n : Node F.Double)
    → SameGoals n (reset_episode F s w prompt max n)
unfolding reset_episode
reset_episode-SameGoals F s w prompt max n = record { settled = refl; goal = refl }

pub start_recording-SameGoals :
    (F : Floats) (s : Settings F.Double) (w : Surroundings) (prompt : Text) (max : F.Double)
    (n : Node F.Double)
    → SameGoals n (start_recording F s w prompt max n).0
unfolding start_recording
start_recording-SameGoals F s w prompt max n =
    let reset = reset_episode F s w prompt max n in
    let first = reset_episode-SameGoals F s w prompt max n in
    let second = go_live-SameGoals s w reset in
    elim (Bool-cases n.accepting_goals) [
      | inr e ↦ simp e (record { settled = refl; goal = refl })
      | inl e ↦ elim (Bool-cases (n.pipe.is_recording || n.start_pending)) [
        | inl busy ↦ simp (e, busy) (record { settled = refl; goal = refl })
        | inr free ↦
            simp (e, free)
              (record { settled = second.settled ∙ first.settled; goal = second.goal ∙ first.goal })
      ]
    ]

pub finish_recording-goals :
    {D : Type 0} (R : Reasons) (w : Surroundings) (reason detail : Text) (n : Node D)
    → goals (finish_recording R w reason detail n) ≡ goals n
unfolding finish_recording
finish_recording-goals R w reason detail n = elim (Bool-cases n.pipe.is_recording) [
  | inr e ↦ simp e refl
  | inl e ↦ simp e (settle_goal-goals R _ _)
]

publish_feedback-SameGoals :
    {D : Type 0} (elapsed : D) (n : Node D) → SameGoals n (publish_feedback elapsed n)
unfolding publish_feedback
publish_feedback-SameGoals elapsed n = elim (Option-cases n.goal_handle) [
  | inl e ↦ rw (e, publish_feedback) (record { settled = refl; goal = e })
  | inr (h, e) ↦ rw (e, publish_feedback) (record { settled = refl; goal = e })
]

pub on_recording_tick-goals :
    (F : Floats) (R : Reasons) (w : Surroundings) (elapsed : F.Double) (n : Node F.Double)
    → goals (on_recording_tick F R w elapsed n) ≡ goals n
on_recording_tick-goals F R w elapsed n =
    on_recording_tick-elim F R w elapsed n (λ m. goals m ≡ goals n) refl
      (λ reason detail. finish_recording-goals R w reason detail n)
      (SameGoals-goals n _ (publish_feedback-SameGoals elapsed n))

pub cancel_pending_start-goals :
    {D : Type 0} (R : Reasons) (reason detail : Text) (n : Node D)
    → goals (cancel_pending_start R reason detail n) ≡ goals n
unfolding cancel_pending_start
cancel_pending_start-goals R reason detail n = elim (Bool-cases n.start_pending) [
  | inr e ↦ simp e refl
  | inl e ↦ simp e (settle_goal-goals R _ _)
]

pub complete_start-goals :
    {D : Type 0} (R : Reasons) (s : Settings D) (w : Surroundings) (n : Node D)
    → goals (complete_start R s w n) ≡ goals n
unfolding complete_start
complete_start-goals {D} R s w n = elim (Bool-cases n.start_pending) [
  | inr e ↦ simp e refl
  | inl e ↦
      let start : Node D = record n {
        pending_start_timer = false;
        start_pending = false;
        pending_resubscribed = [];
      } in
      let begun = begin_episode-SameGoals s w start in
      elim (Option-cases (begin_episode s w start).1) [
        | inl fine ↦ rw (complete_start, e, fine) (SameGoals-goals start _ begun)
        | inr (what, threw) ↦
            rw (complete_start, e, threw)
              (settle_goal-goals R _ _
                ∙ SameGoals-goals start _ (close_writer-SameGoals start _ begun))
      ]
]

pub take_away-goals :
    {D : Type 0} (R : Reasons) (w : Surroundings) (reason before detail : Text) (n : Node D)
    → goals (take_away R w reason before detail n) ≡ goals n
unfolding take_away
take_away-goals R w reason before detail n =
    let closed : Node _ = record n { accepting_goals = false } in
    let left = cancel_pending_start-goals R reason before closed in
    elim (Bool-cases (cancel_pending_start R reason before closed).pipe.is_recording) [
      | inl e ↦ simp e (finish_recording-goals R w reason detail _ ∙ left)
      | inr e ↦ simp e left
    ]

pub close_writer-goals : {D : Type 0} (n : Node D) → goals (close_writer n) ≡ goals n
close_writer-goals n =
    SameGoals-goals n _ (close_writer-SameGoals n n (record { settled = refl; goal = refl }))
