-- ===== src/Process/Life/Answered.antt =====
-- What becomes of the goals that a node accepts in its life.
use rosetta_recorder_cpp.Floats.{Floats}
use rosetta_recorder_cpp.Prelude.{
  ℕ, ◌≡◌, ◌≢◌, refl, sym, ap, ◌∙◌, Text, Bool, true, false, none, some, List, [], ◌∷◌, ◌++◌,
  Option-cases, inl, inr, Post-eq-ok, Post-eq-throw, arith,
}
use mathlib.Core.List.{append-nil}
use rosetta_recorder_cpp.Contract.{RmwPolicies}
use rosetta_recorder_cpp.Contract.Yaml.{Yaml}
use rosetta_recorder_cpp.Episode.{GoalHandle, Settings, Node, Surroundings}
use rosetta_recorder_cpp.Episode.Reason.{Reasons}
use rosetta_recorder_cpp.Episode.Goals.{
  held, settled_goals, goals, SameGoals-goals, settle_goal-goals, start_recording-SameGoals,
  on_recording_tick-goals, complete_start-goals, take_away-goals, close_writer-goals,
}
use rosetta_recorder_cpp.Episode.Configure.{State}
use rosetta_recorder_cpp.Episode.Configure.Configured.{on_configure-Installs}
use rosetta_recorder_cpp.Episode.Configure.Steps.{Keeps}
use rosetta_recorder_cpp.Episode.Lifecycle.{start_recording}
use rosetta_recorder_cpp.Episode.Service.{
  handle_goal, handle_accepted, on_start_service, on_cancel_response,
}
use rosetta_recorder_cpp.Episode.Phase.{Phase, idle, pending, live}
use rosetta_recorder_cpp.Episode.Phase.Services.{
  on_cancel_service-elim, on_delete_last_bag_service-elim,
}
use rosetta_recorder_cpp.Episode.Phase.Callbacks.{
  becomes_canceling, handle_goal-busy, Turn, accept, cancel, start, settle, tick, cancel_service,
  cancel_response, delete_service, receive, work,
}
use rosetta_recorder_cpp.Episode.Transitions.{on_deactivate, on_cleanup, on_shutdown, on_error}
use rosetta_recorder_cpp.Episode.Transitions.Leaving.{
  Leaving, deactivated, cleaned_up, shut_down, errored,
}
use rosetta_recorder_cpp.Process.{Primary, unconfigured, inactive, active}
use rosetta_recorder_cpp.Process.Life.{
  Life, created, configured, refused, activated, deactivated, cleaned_up, shut_down, errored, runs,
}
use rosetta_recorder_cpp.Process.Life.Holds.{Life-Holds}

-- An accepted goal comes to a node that holds none.
handle_goal-free : {D : Type 0} (n : Node D) → handle_goal n ≡ true → Phase n → n.goal_handle ≡ none
handle_goal-free n free (idle q e) = e
handle_goal-free n free (pending r t p timer) = absurd (ground (arith, handle_goal-busy n free, p))
handle_goal-free n free (live r t p) = absurd (ground (arith, handle_goal-busy n free, r))

handle_accepted-goals :
    (F : Floats) (R : Reasons) (s : Settings F.Double) (w : Surroundings) (h : GoalHandle F.Double)
    (n : Node F.Double)
    → n.goal_handle ≡ none
    → goals (handle_accepted F R s w h n) ≡ goals n ++ h.uuid ∷ []
unfolding handle_accepted
handle_accepted-goals F R s w h n free =
    let holding : Node F.Double = record n { goal_handle = some h } in
    let same = start_recording-SameGoals F s w h.prompt h.max_duration_s holding in
    let gained : goals holding ≡ goals n ++ h.uuid ∷ [] =
      ap (λ l. l ++ h.uuid ∷ []) (sym (append-nil (settled_goals n.settled)))
      ∙ ap (λ g. (settled_goals n.settled ++ held g) ++ h.uuid ∷ []) (sym free) in
    let kept = SameGoals-goals holding _ same ∙ gained in
    elim (Option-cases (start_recording F s w h.prompt h.max_duration_s holding).1) [
      | inl e ↦ rw (handle_accepted, e) kept
      | inr (what, e) ↦ rw (handle_accepted, e) (settle_goal-goals R _ _ ∙ kept)
    ]

on_start_service-goals :
    (F : Floats) (s : Settings F.Double) (w : Surroundings) (prompt : Text) (n : Node F.Double)
    → n.goal_handle ≡ none
    → goals (on_start_service F s w prompt n).0 ≡ goals n
unfolding on_start_service
on_start_service-goals F s w prompt n free =
    let detached : Node F.Double = record n { goal_handle = none; current_goal_id = [] } in
    SameGoals-goals detached _ (start_recording-SameGoals F s w prompt (F.of_ℕ 0) detached)
    ∙ ap (λ g. settled_goals n.settled ++ held g) (sym free)

on_cancel_response-goals :
    {D : Type 0} (accepted : Bool) (n : Node D) → goals (on_cancel_response accepted n) ≡ goals n
on_cancel_response-goals true n = refl
on_cancel_response-goals false n = refl

becomes_canceling-goals : {D : Type 0} (n : Node D) → goals (becomes_canceling n) ≡ goals n
becomes_canceling-goals n = elim (Option-cases n.goal_handle) [
  | inl e ↦ simp e refl
  | inr (h, e) ↦ simp e refl
]

module _ {F : Floats} {R : Reasons} where
  -- The id of the goal that a turn accepts.
  abbrev pub accepted_by :
      {s : Settings F.Double} {n m : Node F.Double} → Turn F R s n m → List (List ℕ)
  accepted_by (accept w h free) = h.uuid ∷ []
  accepted_by t = []

  -- A start request finds no goal held.
  abbrev pub Attached : {s : Settings F.Double} {n m : Node F.Double} → Turn F R s n m → Type 0
  Attached {n = n} (start w prompt) = n.goal_handle ≡ none
  Attached t = Unit

  pub Turn-goals :
      (s : Settings F.Double) (n m : Node F.Double) (t : Turn F R s n m)
      → Attached t
      → Phase n
      → goals m ≡ goals n ++ accepted_by t
  Turn-goals s n m (accept w h free) a v =
      handle_accepted-goals F R s w h n (handle_goal-free n free v)
  Turn-goals s n m cancel a v = becomes_canceling-goals n ∙ sym (append-nil (goals n))
  Turn-goals s n m (start w prompt) a v =
      on_start_service-goals F s w prompt n a ∙ sym (append-nil (goals n))
  Turn-goals s n m (settle w) a v = complete_start-goals R s w n ∙ sym (append-nil (goals n))
  Turn-goals s n m (tick w elapsed) a v =
      on_recording_tick-goals F R w elapsed n ∙ sym (append-nil (goals n))
  Turn-goals s n m (cancel_service client) a v =
      on_cancel_service-elim client n (λ k. goals k ≡ goals n) refl refl refl
      ∙ sym (append-nil (goals n))
  Turn-goals s n m (cancel_response accepted) a v =
      on_cancel_response-goals accepted n ∙ sym (append-nil (goals n))
  Turn-goals s n m (delete_service fs) a v =
      on_delete_last_bag_service-elim fs n (λ k. goals k ≡ goals n) refl refl
      ∙ sym (append-nil (goals n))
  Turn-goals s n m (receive now i msg) a v = sym (append-nil (goals n))
  Turn-goals s n m (work rounds S) a v = sym (append-nil (goals n))

Leaving-goals :
    {D : Type 0} (R : Reasons) (w : Surroundings) (n m : Node D) (reason : Text)
    → Leaving R w n reason m
    → goals m ≡ goals n
unfolding on_deactivate on_cleanup on_shutdown on_error
Leaving-goals R w n m reason Leaving.deactivated = take_away-goals R w R.node_deactivated _ _ n
Leaving-goals R w n m reason Leaving.cleaned_up = take_away-goals R w R.node_deactivated _ _ n
Leaving-goals R w n m reason Leaving.shut_down = take_away-goals R w R.node_deactivated _ _ n
Leaving-goals R w n m reason Leaving.errored =
    close_writer-goals _ ∙ take_away-goals R w R.error _ _ n

Keeps-goals : {D : Type 0} (n m : Node D) → Keeps n m → goals m ≡ goals n
Keeps-goals n m e = ap goals e

module _ {F : Floats} {Y : Yaml F.Double} {rmw : RmwPolicies} {R : Reasons} where
  -- The ids of the goals that were accepted, in order.
  abbrev pub accepted_goals :
      {p : Primary} {st : State F.Double} → Life F Y rmw R p st → List (List ℕ)
  accepted_goals created = []
  accepted_goals (configured H P st m l e) = accepted_goals l
  accepted_goals (refused H P st left l e) = accepted_goals l
  accepted_goals (activated st l) = accepted_goals l
  accepted_goals (deactivated w st l) = accepted_goals l
  accepted_goals (cleaned_up w st l) = accepted_goals l
  accepted_goals (shut_down w p st not_yet l) = accepted_goals l
  accepted_goals (errored w p st not_yet l) = accepted_goals l
  accepted_goals (runs p st n l t) = accepted_goals l ++ accepted_by t

  abbrev pub AllAttached : {p : Primary} {st : State F.Double} → Life F Y rmw R p st → Type 0
  AllAttached created = Unit
  AllAttached (configured H P st m l e) = AllAttached l
  AllAttached (refused H P st left l e) = AllAttached l
  AllAttached (activated st l) = AllAttached l
  AllAttached (deactivated w st l) = AllAttached l
  AllAttached (cleaned_up w st l) = AllAttached l
  AllAttached (shut_down w p st not_yet l) = AllAttached l
  AllAttached (errored w p st not_yet l) = AllAttached l
  AllAttached (runs p st n l t) = AllAttached l × Attached t

  Life-goals :
      (p : Primary) (st : State F.Double) (l : Life F Y rmw R p st)
      → AllAttached l
      → goals st.node ≡ accepted_goals l
  Life-goals p st created a = refl
  Life-goals p st (configured H P before m l e) a =
      let (c, installed) = Post-eq-ok (on_configure-Installs F Y rmw H P before) e in
      ap goals installed ∙ Life-goals unconfigured before l a
  Life-goals p st (refused H P before left l e) a =
      Keeps-goals before.node st.node (Post-eq-throw (on_configure-Installs F Y rmw H P before) e)
      ∙ Life-goals unconfigured before l a
  Life-goals p st (activated before l) a = Life-goals inactive before l a
  Life-goals p st (deactivated w before l) a =
      Leaving-goals R w before.node _ _ Leaving.deactivated ∙ Life-goals active before l a
  Life-goals p st (cleaned_up w before l) a =
      Leaving-goals R w before.node _ _ Leaving.cleaned_up ∙ Life-goals inactive before l a
  Life-goals p st (shut_down w q before not_yet l) a =
      Leaving-goals R w before.node _ _ Leaving.shut_down ∙ Life-goals q before l a
  Life-goals p st (errored w q before not_yet l) a =
      Leaving-goals R w before.node _ _ Leaving.errored ∙ Life-goals q before l a
  Life-goals p st (runs q before n l t) (a, attached) =
      Turn-goals before.config.settings before.node n t attached
        (Life-Holds F Y rmw R q before l).phase
      ∙ ap (λ gs. gs ++ accepted_by t) (Life-goals q before l a)

  -- Over the whole life of a node in which closing a bag does not throw and no start request of the
  -- service arrives while a goal is held: every goal that was accepted has been settled exactly once, in the order of acceptance,
  -- but for the one that is held; and outside of active all of them have been settled.
  pub Life-Answers :
      (p : Primary) (st : State F.Double) (l : Life F Y rmw R p st)
      → AllAttached l
      → (settled_goals st.node.settled ++ held st.node.goal_handle ≡ accepted_goals l)
        × (p ≢ active → settled_goals st.node.settled ≡ accepted_goals l)
  Life-Answers p st l a = (
    Life-goals p st l a,
    λ away.
        let none_held = ((Life-Holds F Y rmw R p st l).away away).released in
        sym (append-nil (settled_goals st.node.settled))
        ∙ ap (λ g. settled_goals st.node.settled ++ held g) (sym none_held)
        ∙ Life-goals p st l a,
  )
