-- ===== src/Episode/Lifecycle/Table.antt =====
-- The table in README.md, "How an episode ends", against `on_recording_tick` and `settle_goal`.
use rosetta_recorder_cpp.Floats.{Floats}
use rosetta_recorder_cpp.Prelude.{
  ◌≡◌, ◌≢◌, refl, subst, Text, text_eq, text_eq_iff, Bool, true, false, none, some, [], ◌∷◌, ◌++◌,
  if◌then◌else◌, is_empty, codes, Bool-cases, inl, inr,
}
use rosetta_recorder_cpp.Episode.{
  machine_of, GoalHandle, EpisodeResult, Terminal, canceled, aborted, succeeded, Node, Surroundings,
}
use rosetta_recorder_cpp.Episode.Reason.{Reasons, ReasonsLaws}
use rosetta_recorder_cpp.Episode.Settle.{terminal_of, settle_goal}
use rosetta_recorder_cpp.Episode.Lifecycle.{
  result_of, end_bag, finish_recording, remaining, publish_feedback, on_recording_tick,
}

-- By a failed write, a requested stop, a goal that is being canceled and a time that is up: the
-- reason of the result, and the state of the goal.
pub data Verdict (R : Reasons) : Bool → Bool → Bool → Bool → Text → Terminal → Type 0 where
  failed : (stop up : Bool) → Verdict R true stop false up R.error aborted
  failed_canceling : (stop up : Bool) → Verdict R true stop true up R.error canceled
  cancelled : (stop up : Bool) → Verdict R false stop true up R.cancelled canceled
  stopped : (up : Bool) → Verdict R false true false up R.stopped succeeded
  timed_out : Verdict R false false false true R.timeout succeeded

-- The goal was told how it ended, once, with the bag's directory, and the node has let go of it.
pub record Ends {D : Type 0} (n m : Node D) (h : GoalHandle D) (reason : Text) (terminal : Terminal)
    : Type 0 where
  pub result : EpisodeResult
  pub told :
      m.settled ≡ n.settled ++ record { goal = h.uuid; terminal = terminal; result = result } ∷ []
  pub why : result.termination_reason ≡ reason
  pub path : result.bag_path ≡ n.current_bag_dir
  pub released : m.goal_handle ≡ none
  pub timer : m.recording_timer ≡ false
  pub kept_dir : m.last_bag_dir ≡ n.current_bag_dir

pub finish_recording-Ends :
    {D : Type 0} (R : Reasons) (w : Surroundings) (reason detail : Text) (n : Node D)
    (h : GoalHandle D)
    → n.pipe.is_recording ≡ true
    → n.goal_handle ≡ some h
    → w.metadata_error ≡ []
    → Ends n (finish_recording R w reason detail n) h reason (terminal_of R h reason)
unfolding finish_recording settle_goal result_of
finish_recording-Ends R w reason detail n h on has fine = record {
  result =
      result_of R [] reason detail n.current_bag_dir
        (end_bag w.rounds w.storage (machine_of n)).pipe;
  told = simp (on, has, fine) refl;
  why = refl;
  path = refl;
  released = simp (on, has) refl;
  timer = simp (on, has) refl;
  kept_dir = simp (on, has) refl;
}

text_eq_refl : (s : Text) → text_eq s s ≡ true
text_eq_refl s = (text_eq_iff s s).1 refl

text_eq-apart : (s t : Text) → s ≢ t → text_eq s t ≡ false
text_eq-apart s t apart = elim (Bool-cases (text_eq s t)) [
  | inl e ↦ absurd (apart ((text_eq_iff s t).0 e))
  | inr e ↦ e
]

abbrev pub time_is_up : (F : Floats) → F.Double → Node F.Double → Bool
time_is_up F elapsed n = F.le (remaining F n.current_max_duration elapsed) (F.of_ℕ 0)

-- The message of a result after a failed write.
abbrev failure : {D : Type 0} → Node D → Text
failure n = if is_empty n.pipe.write_error then codes "Write failed" else n.pipe.write_error

-- What the tick comes to, and that the handle's state follows from the reason.
abbrev pub Decides :
    (F : Floats)
    → Reasons
    → Surroundings
    → F.Double
    → Node F.Double
    → GoalHandle F.Double
    → Text
    → Terminal
    → Type 0
Decides F R w elapsed n h reason terminal =
    (detail : Text) × (on_recording_tick F R w elapsed n ≡ finish_recording R w reason detail n)
    × (terminal_of R h reason ≡ terminal)

tick-Decides :
    (F : Floats) (R : Reasons) (w : Surroundings) (elapsed : F.Double) (n : Node F.Double)
    (h : GoalHandle F.Double) (f s c u : Bool) (reason : Text) (terminal : Terminal)
    → ReasonsLaws R
    → n.pipe.is_recording ≡ true
    → n.goal_handle ≡ some h
    → n.pipe.write_failed ≡ f
    → n.pipe.stop_requested ≡ s
    → h.is_canceling ≡ c
    → time_is_up F elapsed n ≡ u
    → Verdict R f s c u reason terminal
    → Decides F R w elapsed n h reason terminal
unfolding on_recording_tick
tick-Decides F R w elapsed n h true s false u reason terminal laws on has ef es ec eu
      (failed stop up) =
    (failure n, simp (on, ef) refl, simp (ec, text_eq_refl R.error) refl)
tick-Decides F R w elapsed n h true s true u reason terminal laws on has ef es ec eu
      (failed_canceling stop up) =
    (failure n, simp (on, ef) refl, simp ec refl)
tick-Decides F R w elapsed n h false true true u reason terminal laws on has ef es ec eu
      (cancelled stop up) =
    (n.stop_reason, simp (on, ef, es, has, ec) refl, simp ec refl)
tick-Decides F R w elapsed n h false false true u reason terminal laws on has ef es ec eu
      (cancelled stop up) =
    ([], simp (on, ef, es, has, ec) refl, simp ec refl)
tick-Decides F R w elapsed n h false true false u reason terminal laws on has ef es ec eu
      (stopped up) =
    (
      n.stop_reason,
      simp (on, ef, es, has, ec) refl,
      simp
          (
            ec,
            text_eq-apart _ _ laws.stopped_error,
            text_eq-apart _ _ laws.stopped_node_deactivated,
            text_eq-apart _ _ laws.stopped_cancelled,
          )
          refl,
    )
tick-Decides F R w elapsed n h false false false true reason terminal laws on has ef es ec eu
      timed_out =
    (
      [],
      simp (on, ef, es, has, ec, eu) refl,
      simp
          (
            ec,
            text_eq-apart _ _ laws.timeout_error,
            text_eq-apart _ _ laws.timeout_node_deactivated,
            text_eq-apart _ _ laws.timeout_cancelled,
          )
          refl,
    )
tick-Decides F R w elapsed n h false false false false reason terminal laws on has ef es ec eu v =
    elim v [ ]

-- While nothing failed, nobody asked to stop and time is left, a tick of an episode that has a goal
-- only reports progress.
pub on_recording_tick-publish_feedback :
    (F : Floats) (R : Reasons) (w : Surroundings) (elapsed : F.Double) (n : Node F.Double)
    (h : GoalHandle F.Double)
    → n.pipe.is_recording ≡ true
    → n.goal_handle ≡ some h
    → n.pipe.write_failed ≡ false
    → n.pipe.stop_requested ≡ false
    → h.is_canceling ≡ false
    → time_is_up F elapsed n ≡ false
    → on_recording_tick F R w elapsed n ≡ publish_feedback elapsed n
unfolding on_recording_tick
on_recording_tick-publish_feedback F R w elapsed n h on has ef es ec eu =
    simp (on, ef, es, has, ec, eu) refl

-- A tick of an episode that has a goal, with the metadata written: where the table has a row, the
-- goal is settled as the row says, once, with the bag's directory, and let go.
pub on_recording_tick-Ends :
    (F : Floats) (R : Reasons) (w : Surroundings) (elapsed : F.Double) (n : Node F.Double)
    (h : GoalHandle F.Double) (reason : Text) (terminal : Terminal)
    → ReasonsLaws R
    → n.pipe.is_recording ≡ true
    → n.goal_handle ≡ some h
    → w.metadata_error ≡ []
    → Verdict R n.pipe.write_failed n.pipe.stop_requested h.is_canceling
        (time_is_up F elapsed n)
        reason
        terminal
    → Ends n (on_recording_tick F R w elapsed n) h reason terminal
on_recording_tick-Ends F R w elapsed n h reason terminal laws on has fine v =
    let (detail, same, settled) =
      tick-Decides F R w elapsed n h _ _ _ _ reason terminal laws on has refl refl refl refl v in
    rw same (
      subst (Ends n (finish_recording R w reason detail n) h reason) settled
        (finish_recording-Ends R w reason detail n h on has fine))
