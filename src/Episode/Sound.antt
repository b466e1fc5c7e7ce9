-- ===== src/Episode/Sound.antt =====
-- What holds of the topic table, the bag and the counters of the node between two callbacks of
-- src/episode_recorder_node.cpp, whatever is recorded.
pub mod Resubscribed
pub mod Opened
pub mod Ends
pub mod Accounts
pub mod Starts
pub mod Callbacks
pub mod Transitions
use rosetta_recorder_cpp.Prelude.{◌≡◌, refl, sym, ◌∙◌, Bool, true, false, none, some}
use rosetta_recorder_cpp.Topics.Shapes.{SameShape-eq}
use rosetta_recorder_cpp.Topics.Exact.{IsExact, SameShape-IsExact}
use rosetta_recorder_cpp.Pipeline.{Bag}
use rosetta_recorder_cpp.Pipeline.Shapes.{SameTable}
use rosetta_recorder_cpp.Pipeline.Counted.{Counted, Advances, Advances-same}
use rosetta_recorder_cpp.Episode.{Node}

-- The table is exact, `messages_written_` counts the open bag, a bag is open exactly while
-- something is recorded, and a start that waits has written nothing yet.
pub record Sound {D : Type 0} (n : Node D) : Type 0 where
  pub exact : IsExact n.pipe.table
  pub counted : Counted n.pipe
  pub shut : n.pipe.is_recording ≡ false → n.pipe.writer ≡ none
  pub opened : n.pipe.is_recording ≡ true → (bag : Bag) × (n.pipe.writer ≡ some bag)
  pub fresh : n.start_pending ≡ true → (n.pipe.is_recording ≡ false) × (n.pipe.messages_written ≡ 0)

-- A step that neither starts nor ends anything, as sections of the writer thread and messages do.
pub Sound-step :
    {D : Type 0} (n m : Node D)
    → SameTable n.pipe m.pipe
    → Advances n.pipe m.pipe
    → m.pipe.is_recording ≡ n.pipe.is_recording
    → m.start_pending ≡ n.start_pending
    → Sound n
    → Sound m
Sound-step n m t a r s v = record {
  exact = SameShape-IsExact t v.exact;
  counted = a.counted v.counted;
  shut = λ off. (a.shut (v.shut (sym r ∙ off))).0;
  opened = λ on. let (bag, at) = v.opened (sym r ∙ on) in a.opened bag at;
  fresh = λ waits.
      let (off, zero_written) = v.fresh (sym s ∙ waits) in
      (r ∙ off, (a.shut (v.shut off)).1 ∙ zero_written);
}

-- A step on the other members.
pub Sound-same :
    {D : Type 0} (n m : Node D)
    → m.pipe.table ≡ n.pipe.table
    → m.pipe.writer ≡ n.pipe.writer
    → m.pipe.messages_written ≡ n.pipe.messages_written
    → m.pipe.is_recording ≡ n.pipe.is_recording
    → m.start_pending ≡ n.start_pending
    → Sound n
    → Sound m
Sound-same n m t w c r s v = Sound-step n m (SameShape-eq t) (Advances-same n.pipe m.pipe w c) r s v
