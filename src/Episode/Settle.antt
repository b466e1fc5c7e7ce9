-- ===== src/Episode/Settle.antt =====
-- src/episode_recorder_node.cpp: `settle_goal`.
use rosetta_recorder_cpp.Prelude.{
  Text, text_eq, Bool, ◌||◌, none, some, [], ◌∷◌, ◌++◌, if◌then◌else◌,
}
use rosetta_recorder_cpp.Episode.{
  GoalHandle, EpisodeResult, Terminal, canceled, aborted, succeeded, Node,
}
use rosetta_recorder_cpp.Episode.Reason.{Reasons}

abbrev pub is_abort_reason : Reasons → Text → Bool
is_abort_reason R r = text_eq r R.error || (text_eq r R.node_deactivated || text_eq r R.cancelled)

abbrev pub terminal_of : {D : Type 0} → Reasons → GoalHandle D → Text → Terminal
terminal_of R h reason =
    if h.is_canceling then canceled else if is_abort_reason R reason then aborted else succeeded

unfoldable pub settle_goal : {D : Type 0} → Reasons → EpisodeResult → Node D → Node D
settle_goal R result n = elim n.goal_handle [
  | none ↦ n
  | some h ↦ record n {
    goal_handle = none;
    settled =
        n.settled
        ++ record {
          goal = h.uuid;
          terminal = terminal_of R h result.termination_reason;
          result = result;
        }
          ∷ [];
  }
]
