-- ===== src/Episode/Phase/Callbacks.antt =====
-- src/episode_recorder_node.cpp: the callbacks as steps, and that each leads from a phase to one.
use rosetta_recorder_cpp.Floats.{Floats}
use rosetta_recorder_cpp.Prelude.{
  ℕ, ◌≡◌, refl, subst, Text, Bool, true, false, not, ◌&&◌, ◌||◌, none, some, [], arith, Bool-cases,
  inl, inr,
}
use rosetta_recorder_cpp.Episode.{GoalHandle, Settings, Node, Surroundings}
use rosetta_recorder_cpp.Episode.Reason.{Reasons}
use rosetta_recorder_cpp.Episode.Lifecycle.{
  start_recording, complete_start, cancel_pending_start, finish_recording, on_recording_tick,
}
use rosetta_recorder_cpp.Episode.Service.{
  handle_goal, handle_cancel, handle_accepted, on_start_service, CancelClient, on_cancel_response,
  on_cancel_service, FileSystem, on_delete_last_bag_service,
}
use rosetta_recorder_cpp.Episode.Phase.{
  Quiet, Phase, idle, pending, live, Attempt-cases, start_recording-Attempt, settle_goal-idle,
}
use rosetta_recorder_cpp.Topics.{SerializedMessage}
use rosetta_recorder_cpp.Pipeline.{Storage}
use rosetta_recorder_cpp.Episode.Transitions.{on_activate, take_away}
use rosetta_recorder_cpp.Episode.Phase.Services.{
  on_cancel_response-Phase, on_cancel_service-Phase, on_delete_last_bag_service-Phase, receives,
  receives-Phase, works, works-Phase, take_away-Phase,
}
use rosetta_recorder_cpp.Episode.Phase.Ends.{
  Phase-same, finish_recording-Phase, on_recording_tick-Phase, complete_start-Phase,
  cancel_pending_start-Phase,
}

pub handle_goal-busy :
    {D : Type 0} (n : Node D)
    → handle_goal n ≡ true
    → (n.pipe.is_recording || n.start_pending) ≡ false
handle_goal-busy n free = elim (Bool-cases (n.pipe.is_recording || n.start_pending)) [
  | inl e ↦
      absurd (busy n.accepting_goals (subst (λ b. (n.accepting_goals && not b) ≡ true) e free))
  | inr e ↦ e
]
  where
    busy : (b : Bool) → (b && false) ≡ true → ⊥
    busy b e = ground (arith, e)

handle_accepted-Phase :
    (F : Floats) (R : Reasons) (s : Settings F.Double) (w : Surroundings) (h : GoalHandle F.Double)
    (n : Node F.Double)
    → handle_goal n ≡ true
    → Phase n
    → Phase (handle_accepted F R s w h n)
unfolding handle_accepted
handle_accepted-Phase F R s w h n free (pending r t p timer) =
    absurd (ground (arith, handle_goal-busy n free, p))
handle_accepted-Phase F R s w h n free (live r t p) =
    absurd (ground (arith, handle_goal-busy n free, r))
handle_accepted-Phase F R s w h n free (idle q e) =
    let start : Node F.Double = record n { goal_handle = some h } in
    let quiet : Quiet start = record {
      recording = q.recording;
      timer = q.timer;
      pending = q.pending;
    } in
    elim (Attempt-cases _ _ _
      (start_recording-Attempt F s w h.prompt h.max_duration_s start quiet)) [
        | inl (fine, phase) ↦
            rw (handle_accepted, fine) (Phase-same _ _ refl refl refl refl (λ e. e) phase)
        | inr (what, refused, quiet', same) ↦
            rw (handle_accepted, refused) (settle_goal-idle R _ _ quiet')
      ]

start_recording-busy :
    (F : Floats) (s : Settings F.Double) (w : Surroundings) (prompt : Text) (max : F.Double)
    (n : Node F.Double)
    → (n.pipe.is_recording || n.start_pending) ≡ true
    → (start_recording F s w prompt max n).0 ≡ n
unfolding start_recording
start_recording-busy F s w prompt max n busy = elim (Bool-cases n.accepting_goals) [
  | inl e ↦ simp (e, busy) refl
  | inr e ↦ simp e refl
]

on_start_service-Phase :
    (F : Floats) (s : Settings F.Double) (w : Surroundings) (prompt : Text) (n : Node F.Double)
    → Phase n
    → Phase (on_start_service F s w prompt n).0
unfolding on_start_service
on_start_service-Phase F s w prompt n (pending r t p timer) =
    let busy : (n.pipe.is_recording || n.start_pending) ≡ true = ground (arith, p) in
    rw
      (start_recording-busy F s w prompt (F.of_ℕ 0)
        (record n { goal_handle = none; current_goal_id = [] }) busy)
      (pending r t p timer)
on_start_service-Phase F s w prompt n (live r t p) =
    let busy : (n.pipe.is_recording || n.start_pending) ≡ true = ground (arith, r) in
    rw
      (start_recording-busy F s w prompt (F.of_ℕ 0)
        (record n { goal_handle = none; current_goal_id = [] }) busy)
      (live r t p)
on_start_service-Phase F s w prompt n (idle q e) =
    let start : Node F.Double = record n { goal_handle = none; current_goal_id = [] } in
    let quiet : Quiet start = record {
      recording = q.recording;
      timer = q.timer;
      pending = q.pending;
    } in
    elim (Attempt-cases _ _ _ (start_recording-Attempt F s w prompt (F.of_ℕ 0) start quiet)) [
      | inl (fine, phase) ↦ phase
      | inr (what, refused, quiet', same) ↦ idle quiet' same
    ]

-- The action server moves a goal to canceling once `handle_cancel` accepted it.
abbrev pub becomes_canceling : {D : Type 0} → Node D → Node D
becomes_canceling n = record (handle_cancel n) {
  goal_handle = elim n.goal_handle [
    | none ↦ none
    | some h ↦ some (record h { is_canceling = true })
  ];
}

-- One callback of the executor, a message, or sections of the writer thread.
pub data Turn (F : Floats) (R : Reasons) (s : Settings F.Double) (n : Node F.Double)
    : Node F.Double → Type 0 where
  accept :
      (w : Surroundings) (h : GoalHandle F.Double)
      → handle_goal n ≡ true
      → Turn F R s n (handle_accepted F R s w h n)
  cancel : Turn F R s n (becomes_canceling n)
  start : (w : Surroundings) (prompt : Text) → Turn F R s n (on_start_service F s w prompt n).0
  settle : (w : Surroundings) → Turn F R s n (complete_start R s w n)
  tick : (w : Surroundings) (elapsed : F.Double) → Turn F R s n (on_recording_tick F R w elapsed n)
  cancel_service : (client : CancelClient) → Turn F R s n (on_cancel_service client n).0
  cancel_response : (accepted : Bool) → Turn F R s n (on_cancel_response accepted n)
  delete_service : (fs : FileSystem) → Turn F R s n (on_delete_last_bag_service fs n).0
  receive : (now i : ℕ) (msg : SerializedMessage) → Turn F R s n (receives now i msg n)
  work : (rounds : ℕ) (S : Storage) → Turn F R s n (works rounds S n)

-- A turn, or a part of the transitions. `leave` is the part that the transitions out of active
-- share; `reason` and the texts are those of the transition.
data Callback (F : Floats) (R : Reasons) (s : Settings F.Double) (n : Node F.Double)
    : Node F.Double → Type 0 where
  turn : {m : Node F.Double} → Turn F R s n m → Callback F R s n m
  activate : Callback F R s n (on_activate n)
  leave :
      (w : Surroundings) (reason before detail : Text)
      → Callback F R s n (take_away R w reason before detail n)
  finish :
      (w : Surroundings) (reason detail : Text)
      → Callback F R s n (finish_recording R w reason detail n)
  cancel_pending :
      (reason detail : Text) → Callback F R s n (cancel_pending_start R reason detail n)

pub Turn-Phase :
    (F : Floats) (R : Reasons) (s : Settings F.Double) (n m : Node F.Double)
    → Turn F R s n m
    → Phase n
    → Phase m
Turn-Phase F R s n m (accept w h free) v = handle_accepted-Phase F R s w h n free v
Turn-Phase F R s n m cancel v = Phase-same n _ refl refl refl refl (λ e. simp e refl) v
Turn-Phase F R s n m (start w prompt) v = on_start_service-Phase F s w prompt n v
Turn-Phase F R s n m (settle w) v = complete_start-Phase R s w n v
Turn-Phase F R s n m (tick w elapsed) v = on_recording_tick-Phase F R w elapsed n v
Turn-Phase F R s n m (cancel_service client) v = on_cancel_service-Phase client n v
Turn-Phase F R s n m (cancel_response accepted) v = on_cancel_response-Phase accepted n v
Turn-Phase F R s n m (delete_service fs) v = on_delete_last_bag_service-Phase fs n v
Turn-Phase F R s n m (receive now i msg) v = receives-Phase now i msg n v
Turn-Phase F R s n m (work rounds S) v = works-Phase rounds S n v

-- Whatever callback runs, or the part that the transitions out of active share, whatever message
-- arrives and however far the writer thread works in between, a node that is idle without a goal,
-- pending with the timer that starts the episode, or live with the timer that ends it, is again in
-- one of these phases, as long as closing a bag does not throw.
Callback-Phase :
    (F : Floats) (R : Reasons) (s : Settings F.Double) (n m : Node F.Double)
    → Callback F R s n m
    → Phase n
    → Phase m
Callback-Phase F R s n m (turn t) v = Turn-Phase F R s n m t v
Callback-Phase F R s n m activate v = Phase-same n _ refl refl refl refl (λ e. e) v
Callback-Phase F R s n m (leave w reason before detail) v =
    take_away-Phase R w reason before detail n v
Callback-Phase F R s n m (finish w reason detail) v = finish_recording-Phase R w reason detail n v
Callback-Phase F R s n m (cancel_pending reason detail) v =
    cancel_pending_start-Phase R reason detail n v
