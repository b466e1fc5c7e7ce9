-- ===== src/Episode/World/Metadata.antt =====
-- src/episode_recorder_node.cpp: how the outcome of `write_metadata` decides the end of an episode.
use rosetta_recorder_cpp.Prelude.{
  ℕ, ◌≡◌, refl, sym, ap, ◌∙◌, Text, true, false, ◌&&◌, Option, none, some, is_empty, Bool-cases,
  inl, inr, Outcome, ok, throw, Outcome-cases,
}
use rosetta_recorder_cpp.Metadata.{Tree, Attempt, rethrown, write_metadata}
use rosetta_recorder_cpp.Episode.{machine_of, GoalHandle, Node, Surroundings}
use rosetta_recorder_cpp.Episode.Reason.{Reasons}
use rosetta_recorder_cpp.Episode.Settle.{terminal_of, settle_goal}
use rosetta_recorder_cpp.Episode.Lifecycle.{result_of, finish_recording}
use rosetta_recorder_cpp.Pipeline.Finish.{end_bag}
use rosetta_recorder_cpp.Episode.Lifecycle.Table.{Ends, finish_recording-Ends}
use rosetta_recorder_cpp.Episode.Configure.{Config}
use rosetta_recorder_cpp.Episode.World.{World, metadata_of_bag, error_text, surroundings}

-- Only an exception has a text.
rethrown-nonempty :
    (T : Tree) (path what : Text) (r : Outcome Text T.Doc)
    → rethrown T path r ≡ throw what
    → is_empty what ≡ false
rethrown-nonempty T path what (ok d) e = cc
rethrown-nonempty T path what (throw last) e = sym (ap (λ r. is_empty (error_text r)) e)

nothing_thrown :
    (T : Tree) (what : Text) (r : Outcome Text (Option T.Doc))
    → r ≡ ok none
    → r ≡ throw what
    → is_empty what ≡ false
nothing_thrown T what r a b = cc

write_metadata-nonempty :
    (T : Tree) (attempts : ℕ → Attempt T.Doc) (path p c g what : Text)
    → write_metadata T attempts path p c g ≡ throw what
    → is_empty what ≡ false
unfolding write_metadata
write_metadata-nonempty T attempts path p c g what e =
    elim (Bool-cases (is_empty p && (is_empty c && is_empty g))) [
      | inl nothing ↦ nothing_thrown T what _ (simp nothing refl) e
      | inr something ↦ rethrown-nonempty T path what _ (simp something at e)
    ]

-- An episode with a goal that the exception of `write_metadata` fails.
pub finish_recording-Fails :
    {D : Type 0} (R : Reasons) (w : Surroundings) (reason detail : Text) (n : Node D)
    (h : GoalHandle D)
    → n.pipe.is_recording ≡ true
    → n.goal_handle ≡ some h
    → is_empty w.metadata_error ≡ false
    → Ends n (finish_recording R w reason detail n) h R.error (terminal_of R h R.error)
unfolding finish_recording settle_goal result_of
finish_recording-Fails R w reason detail n h on has fails = record {
  result =
      result_of R w.metadata_error reason detail n.current_bag_dir
        (end_bag w.rounds w.storage (machine_of n)).pipe;
  told = simp (on, has, fails) refl;
  why = simp fails refl;
  path = simp fails refl;
  released = simp (on, has) refl;
  timer = simp (on, has) refl;
  kept_dir = simp (on, has) refl;
}

-- How the end of an episode goes by the metadata of its bag.
pub data Closes (T : Tree) {D : Type 0} (R : Reasons) (w : World T) (c : Config D) (reason : Text)
    (n m : Node D) (h : GoalHandle D) : Type 0 where
  written :
      (doc : Option T.Doc)
      → metadata_of_bag T w c n ≡ ok doc
      → Ends n m h reason (terminal_of R h reason)
      → Closes T R w c reason n m h
  unwritten :
      (what : Text)
      → metadata_of_bag T w c n ≡ throw what
      → Ends n m h R.error (terminal_of R h R.error)
      → Closes T R w c reason n m h

-- The end of an episode with a goal settles the goal in either case: with the reason that ended it
-- if `write_metadata` returns on the episode's bag, and as an error if it throws.
pub finish_recording-Closes :
    (T : Tree) {D : Type 0} (R : Reasons) (w : World T) (c : Config D) (reason detail : Text)
    (n : Node D) (h : GoalHandle D)
    → n.pipe.is_recording ≡ true
    → n.goal_handle ≡ some h
    → Closes T R w c reason n (finish_recording R (surroundings T w c n) reason detail n) h
finish_recording-Closes T R w c reason detail n h on has =
    elim (Outcome-cases (metadata_of_bag T w c n)) [
      | inl (doc, e) ↦ written doc e (
          finish_recording-Ends R (surroundings T w c n) reason detail n h on has (ap error_text e))
      | inr (what, e) ↦ unwritten what e (
          finish_recording-Fails R (surroundings T w c n) reason detail n h on has (
            ap (λ r. is_empty (error_text r)) e
            ∙ write_metadata-nonempty T w.attempts _ _ _ _ what e))
    ]
