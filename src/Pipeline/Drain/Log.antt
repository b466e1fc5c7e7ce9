-- ===== src/Pipeline/Drain/Log.antt =====
-- What an episode's bag promises to whoever reads it: an abstract recorder, and how a machine of the
-- two threads shows one.
use rosetta_recorder_cpp.Prelude.{◌≡◌, none, List, [], ◌∷◌, ◌++◌}
use rosetta_recorder_cpp.Pipeline.{BagMessage, Bag}
use rosetta_recorder_cpp.Pipeline.Drain.{Machine}
use rosetta_recorder_cpp.Pipeline.Drain.Contents.{contents}
use rosetta_recorder_cpp.Pipeline.Drain.Order.{IsOpen}

-- The messages that were accepted so far, or those that were saved.
pub data Log : Type 0 where
  recording : List BagMessage → Log
  saved : List BagMessage → Log

-- A step by the messages that were accepted in it. They are added at the end; saving keeps a first
-- part of all; what is saved stays.
pub data LogStep : List BagMessage → Log → Log → Type 0 where
  append : (old new : List BagMessage) → LogStep new (recording old) (recording (old ++ new))
  save : (kept lost : List BagMessage) → LogStep [] (recording (kept ++ lost)) (saved kept)
  rest : (kept new : List BagMessage) → LogStep new (saved kept) (saved kept)

-- A run by all the messages that were accepted in it.
pub data LogReach (l : Log) : List BagMessage → Log → Type 0 where
  log_here : LogReach l [] l
  log_next :
      {all new : List BagMessage} {k j : Log}
      → LogReach l all k
      → LogStep new k j
      → LogReach l (all ++ new) j

-- `before` are the bags that were closed before this one.
pub data Shows (before : List Bag) (m : Machine) : Log → Type 0 where
  shows_open : IsOpen m → m.pipe.closed ≡ before → Shows before m (recording (contents m))
  shows_saved :
      (bag : Bag)
      → m.pipe.writer ≡ none
      → m.pipe.closed ≡ before ++ bag ∷ []
      → Shows before m (saved bag.messages)

pub record Refined (before : List Bag) (l : Log) (new : List BagMessage) (n : Machine)
    : Type 0 where
  pub log : Log
  pub step : LogStep new l log
  pub shown : Shows before n log
