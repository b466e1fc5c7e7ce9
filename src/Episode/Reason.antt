-- ===== src/Episode/Reason.antt =====
-- The interface package of the action, as far as the node uses it: the strings `TERMINATION_*` of
-- its result, and that they differ.
use rosetta_recorder_cpp.Prelude.{Text, ◌≢◌}

pub record Reasons : Type 0 where
  pub timeout : Text
  pub cancelled : Text
  pub stopped : Text
  pub error : Text
  pub node_deactivated : Text

-- An episode that is stopped or runs out is told from the three reasons that abort a goal.
pub record ReasonsLaws (R : Reasons) : Type 0 where
  pub timeout_error : R.timeout ≢ R.error
  pub timeout_node_deactivated : R.timeout ≢ R.node_deactivated
  pub timeout_cancelled : R.timeout ≢ R.cancelled
  pub stopped_error : R.stopped ≢ R.error
  pub stopped_node_deactivated : R.stopped ≢ R.node_deactivated
  pub stopped_cancelled : R.stopped ≢ R.cancelled
