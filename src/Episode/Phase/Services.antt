-- ===== src/Episode/Phase/Services.antt =====
-- src/episode_recorder_node.cpp: the services, the messages, the writer thread and the transitions
-- out of active lead from a phase to one.
use rosetta_recorder_cpp.Prelude.{
  ℕ, ◌≡◌, refl, Text, Bool, true, false, not, ◌&&◌, is_empty, [], Bool-cases, Option-cases, inl,
  inr,
}
use rosetta_recorder_cpp.Topics.{SerializedMessage}
use rosetta_recorder_cpp.Pipeline.{Pipeline, Storage}
use rosetta_recorder_cpp.Pipeline.Receive.{is_full, enqueue, on_message}
use rosetta_recorder_cpp.Pipeline.Drain.{run_thread}
use rosetta_recorder_cpp.Pipeline.Drain.Run.{run_thread-Spares}
use rosetta_recorder_cpp.Episode.{Node, Surroundings, machine_of}
use rosetta_recorder_cpp.Episode.Reason.{Reasons}
use rosetta_recorder_cpp.Episode.Lifecycle.{cancel_pending_start}
use rosetta_recorder_cpp.Episode.Transitions.{take_away}
use rosetta_recorder_cpp.Episode.Service.{
  CancelClient, request_action_cancel, stopped_by_service, on_cancel_response, on_cancel_service,
  FileSystem, on_delete_last_bag_service,
}
use rosetta_recorder_cpp.Episode.Phase.{Phase}
use rosetta_recorder_cpp.Episode.Phase.Ends.{
  Phase-same, finish_recording-Phase, cancel_pending_start-Phase,
}

pub on_cancel_response-Phase :
    {D : Type 0} (accepted : Bool) (n : Node D) → Phase n → Phase (on_cancel_response accepted n)
on_cancel_response-Phase true n v = v
on_cancel_response-Phase false n v = Phase-same n _ refl refl refl refl (λ e. e) v

-- Whatever holds with the reason noted, and the stop requested or not, holds after the service.
pub on_cancel_service-elim :
    {D : Type 0} (client : CancelClient) (n : Node D) (P : Node D → Type 0)
    → P n
    → P (record n { stop_reason = stopped_by_service })
    → P (record n {
      stop_reason = stopped_by_service;
      pipe = record n.pipe { stop_requested = true };
    })
    → P (on_cancel_service client n).0
unfolding on_cancel_service
on_cancel_service-elim client n P same noted stopped =
    elim (Bool-cases (not n.pipe.is_recording && not n.start_pending)) [
      | inl e ↦ simp e same
      | inr e ↦ elim (Bool-cases (request_action_cancel client n.goal_handle).0) [
        | inl sent ↦ simp (e, sent) noted
        | inr unsent ↦ simp (e, unsent) stopped
      ]
    ]

pub on_cancel_service-Phase :
    {D : Type 0} (client : CancelClient) (n : Node D)
    → Phase n
    → Phase (on_cancel_service client n).0
on_cancel_service-Phase client n v =
    on_cancel_service-elim client n Phase v
      (Phase-same n _ refl refl refl refl (λ none_held. none_held) v)
      (Phase-same n _ refl refl refl refl (λ none_held. none_held) v)

-- The deletion of a bag forgets its path or changes nothing.
pub on_delete_last_bag_service-elim :
    {D : Type 0} (fs : FileSystem) (n : Node D) (P : Node D → Type 0)
    → P n
    → P (record n { last_bag_dir = [] })
    → P (on_delete_last_bag_service fs n).0
unfolding on_delete_last_bag_service
on_delete_last_bag_service-elim fs n P same deleted = elim (Bool-cases n.pipe.is_recording) [
  | inl e ↦ simp e same
  | inr e ↦ elim (Bool-cases (is_empty n.last_bag_dir)) [
    | inl e' ↦ simp (e, e') same
    | inr e' ↦ elim (Bool-cases (fs.exists n.last_bag_dir)) [
      | inr absent ↦ simp (e, e', absent) same
      | inl there ↦ elim (Option-cases (fs.remove_error n.last_bag_dir)) [
        | inl gone ↦ rw (on_delete_last_bag_service, e, e', there, gone) deleted
        | inr (what, kept) ↦ rw (on_delete_last_bag_service, e, e', there, kept) same
      ]
    ]
  ]
]

pub on_delete_last_bag_service-Phase :
    {D : Type 0} (fs : FileSystem) (n : Node D)
    → Phase n
    → Phase (on_delete_last_bag_service fs n).0
on_delete_last_bag_service-Phase fs n v =
    on_delete_last_bag_service-elim fs n Phase v
      (Phase-same n _ refl refl refl refl (λ none_held. none_held) v)

abbrev pub receives : {D : Type 0} → ℕ → ℕ → SerializedMessage → Node D → Node D
receives now i msg n = record n { pipe = on_message now i msg n.pipe }

abbrev pub works : {D : Type 0} → ℕ → Storage → Node D → Node D
works rounds S n =
    let m = run_thread rounds S (machine_of n) in record n { pipe = m.pipe; thread = m.thread }

pub on_message-recording :
    (now i : ℕ) (msg : SerializedMessage) (p : Pipeline)
    → (on_message now i msg p).is_recording ≡ p.is_recording
unfolding on_message enqueue
on_message-recording now i msg p = elim (Bool-cases p.is_recording) [
  | inr e ↦ simp e refl
  | inl e ↦ elim (Bool-cases (is_full msg.buffer_length p)) [
    | inl full ↦ simp (e, full) refl
    | inr room ↦ simp (e, room) refl
  ]
]

pub receives-Phase :
    {D : Type 0} (now i : ℕ) (msg : SerializedMessage) (n : Node D)
    → Phase n
    → Phase (receives now i msg n)
receives-Phase now i msg n v =
    Phase-same n _ (on_message-recording now i msg n.pipe) refl refl refl (λ e. e) v

pub works-Phase :
    {D : Type 0} (rounds : ℕ) (S : Storage) (n : Node D) → Phase n → Phase (works rounds S n)
works-Phase rounds S n v =
    Phase-same n _ (run_thread-Spares rounds S (machine_of n)).is_recording refl refl refl (λ e. e)
      v

pub take_away-Phase :
    {D : Type 0} (R : Reasons) (w : Surroundings) (reason before detail : Text) (n : Node D)
    → Phase n
    → Phase (take_away R w reason before detail n)
unfolding take_away
take_away-Phase R w reason before detail n v =
    let closed : Node _ = record n { accepting_goals = false } in
    let left =
      cancel_pending_start-Phase R reason before closed
        (Phase-same n closed refl refl refl refl (λ e. e) v) in
    elim (Bool-cases (cancel_pending_start R reason before closed).pipe.is_recording) [
      | inl e ↦ simp e (finish_recording-Phase R w reason detail _ left)
      | inr e ↦ simp e left
    ]
