-- ===== src/Process/Life/Detached.antt =====
-- src/episode_recorder_node.cpp: `on_start_service` while an episode runs for a goal, and what
-- becomes of that goal.
use rosetta_recorder_cpp.Floats.{Floats}
use rosetta_recorder_cpp.Prelude.{ℕ, List, [], ◌++◌}
use rosetta_recorder_cpp.Episode.{Settings, Node}
use rosetta_recorder_cpp.Episode.Reason.{Reasons}
use rosetta_recorder_cpp.Episode.Phase.{Phase}
use rosetta_recorder_cpp.Episode.Phase.Callbacks.{Turn}
use rosetta_recorder_cpp.Process.Life.Answered.{accepted_by, Attached}

module _ (F : Floats) (R : Reasons) (s : Settings F.Double) where
  -- Turns of the callbacks, none of which takes a goal from its episode, with the goals accepted.
  pub data Turns (n : Node F.Double) : Node F.Double → List (List ℕ) → Type 0 where
    done : Turns n n []
    next :
        {m k : Node F.Double} {ids : List (List ℕ)} (t : Turn F R s m k)
        → Turns n m ids
        → Attached t
        → Turns n k (ids ++ accepted_by t)
