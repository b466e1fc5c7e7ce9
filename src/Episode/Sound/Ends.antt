-- ===== src/Episode/Sound/Ends.antt =====
-- The ends of an episode, and of a start that waits, leave the node sound.
use rosetta_recorder_cpp.Floats.{Floats}
use rosetta_recorder_cpp.Prelude.{
  ℕ, ◌≡◌, refl, sym, subst, Text, true, false, Bool-cases, none, Option-cases, inl, inr, [],
}
use rosetta_recorder_cpp.Topics.Shapes.{SameShape-refl, SameShape-trans, SameShape-eq}
use rosetta_recorder_cpp.Topics.Exact.{IsExact, SameShape-IsExact, destroy-IsExact}
use rosetta_recorder_cpp.Pipeline.{Pipeline, Storage}
use rosetta_recorder_cpp.Pipeline.Shapes.{SameTable, run_thread-SameTable}
use rosetta_recorder_cpp.Pipeline.Counted.{
  Counts, Counts-none, Advances, Advances-same, Advances-trans, run_thread-Advances,
  request_flush-Advances,
}
use rosetta_recorder_cpp.Pipeline.Drain.{Machine, run_thread, request_flush, may_close, close_bag}
use rosetta_recorder_cpp.Pipeline.Finish.{after_wait, close_and_destroy, end_bag}
use rosetta_recorder_cpp.Pipeline.Finish.Complete.{end_bag-recording}
use rosetta_recorder_cpp.Episode.{Node, EpisodeResult, Surroundings, machine_of}
use rosetta_recorder_cpp.Episode.Reason.{Reasons}
use rosetta_recorder_cpp.Episode.Settle.{settle_goal}
use rosetta_recorder_cpp.Episode.Lifecycle.{
  close_writer, cancel_pending_start, finish_recording, publish_feedback, on_recording_tick,
}
use rosetta_recorder_cpp.Episode.Transitions.{take_away}
use rosetta_recorder_cpp.Episode.Transitions.Taken.{settle_goal-told}
use rosetta_recorder_cpp.Episode.Phase.Ends.{on_recording_tick-elim}
use rosetta_recorder_cpp.Episode.Sound.{Sound, Sound-same}

request_flush-SameTable : (p : Pipeline) → SameTable p (request_flush p)
unfolding request_flush
request_flush-SameTable p = elim (Bool-cases p.writer_thread_running) [
  | inl e ↦ simp e (SameShape-refl p.table)
  | inr e ↦ simp e (SameShape-refl p.table)
]

after_wait-SameTable :
    (rounds : ℕ) (S : Storage) (m : Machine) → SameTable m.pipe (after_wait rounds S m).pipe
unfolding after_wait
after_wait-SameTable rounds S m =
    let told : Machine = record m { pipe = request_flush m.pipe } in
    let waited =
      SameShape-trans (request_flush-SameTable m.pipe) (run_thread-SameTable rounds S told) in
    elim (Bool-cases (may_close (run_thread rounds S told).pipe)) [
      | inl e ↦ simp e waited
      | inr e ↦ simp e waited
    ]

pub after_wait-Advances :
    (rounds : ℕ) (S : Storage) (m : Machine) → Advances m.pipe (after_wait rounds S m).pipe
unfolding after_wait
after_wait-Advances rounds S m =
    let told : Machine = record m { pipe = request_flush m.pipe } in
    let waited =
      Advances-trans (request_flush-Advances m.pipe) (run_thread-Advances rounds S told) in
    elim (Bool-cases (may_close (run_thread rounds S told).pipe)) [
      | inl e ↦ simp e waited
      | inr e ↦ simp e (Advances-trans waited (Advances-same _ _ refl refl))
    ]

close_bag-shut : (p : Pipeline) → ((close_bag p).writer ≡ none) × ((close_bag p).table ≡ p.table)
unfolding close_bag
close_bag-shut p = elim (Option-cases p.writer) [
  | inl e ↦ rw (close_bag, e) (e, refl)
  | inr (bag, e) ↦ rw (close_bag, e) (refl, refl)
]

-- The bag is closed, and the table exact.
record Closes (p : Pipeline) : Type 0 where
  writer : p.writer ≡ none
  exact : IsExact p.table

end_bag-Closes :
    (rounds : ℕ) (S : Storage) (m : Machine)
    → IsExact m.pipe.table
    → Closes (end_bag rounds S m).pipe
unfolding end_bag close_and_destroy
end_bag-Closes rounds S m v =
    let (shut, same) = close_bag-shut (after_wait rounds S m).pipe in
    record {
      writer = shut;
      exact = destroy-IsExact _ (
          SameShape-IsExact (SameShape-trans (after_wait-SameTable rounds S m) (SameShape-eq same))
            v);
    }

-- A node that is not recording, with no bag.
pub shut-Sound :
    {D : Type 0} (n : Node D)
    → IsExact n.pipe.table
    → n.pipe.writer ≡ none
    → n.pipe.is_recording ≡ false
    → (n.start_pending ≡ true → n.pipe.messages_written ≡ 0)
    → Sound n
shut-Sound n v w off f = record {
  exact = v;
  counted = subst (Counts n.pipe.messages_written) (sym w) (Counts-none n.pipe.messages_written);
  shut = λ e. w;
  opened = λ on. cc (off, on);
  fresh = λ waits. (off, f waits);
}

pub settle_goal-Sound :
    {D : Type 0} (R : Reasons) (result : EpisodeResult) (n : Node D)
    → Sound n
    → Sound (settle_goal R result n)
settle_goal-Sound R result n v =
    rw (settle_goal-told R result n) (Sound-same n _ refl refl refl refl refl v)

pub finish_recording-Sound :
    {D : Type 0} (R : Reasons) (w : Surroundings) (reason detail : Text) (n : Node D)
    → Sound n
    → Sound (finish_recording R w reason detail n)
unfolding finish_recording
finish_recording-Sound R w reason detail n v = elim (Bool-cases n.pipe.is_recording) [
  | inr off ↦ simp off v
  | inl on ↦
      let closes = end_bag-Closes w.rounds w.storage (machine_of n) v.exact in
      let ended : Node _ = record n {
        pipe = (end_bag w.rounds w.storage (machine_of n)).pipe;
        thread = (end_bag w.rounds w.storage (machine_of n)).thread;
        recording_timer = false;
        last_bag_dir = n.current_bag_dir;
      } in
      simp on (
        Sound-same _ _ refl refl refl refl refl (
          settle_goal-Sound R _ ended (
            shut-Sound ended closes.exact closes.writer
              (end_bag-recording w.rounds w.storage (machine_of n))
              (λ waits. cc (on, (v.fresh waits).0)))))
]

publish_feedback-Sound :
    {D : Type 0} (elapsed : D) (n : Node D) → Sound n → Sound (publish_feedback elapsed n)
unfolding publish_feedback
publish_feedback-Sound elapsed n v = elim (Option-cases n.goal_handle) [
  | inl e ↦ rw (e, publish_feedback) v
  | inr (h, e) ↦ rw (e, publish_feedback) (Sound-same n _ refl refl refl refl refl v)
]

pub on_recording_tick-Sound :
    (F : Floats) (R : Reasons) (w : Surroundings) (elapsed : F.Double) (n : Node F.Double)
    → Sound n
    → Sound (on_recording_tick F R w elapsed n)
on_recording_tick-Sound F R w elapsed n v =
    on_recording_tick-elim F R w elapsed n Sound v
      (λ reason detail. finish_recording-Sound R w reason detail n v)
      (publish_feedback-Sound elapsed n v)

pub cancel_pending_start-Sound :
    {D : Type 0} (R : Reasons) (reason detail : Text) (n : Node D)
    → Sound n
    → Sound (cancel_pending_start R reason detail n)
unfolding cancel_pending_start
cancel_pending_start-Sound R reason detail n v = elim (Bool-cases n.start_pending) [
  | inr e ↦ simp e v
  | inl e ↦
      let (off, written) = v.fresh e in
      let left : Node _ = record n {
        start_pending = false;
        pending_start_timer = false;
        pending_resubscribed = [];
      } in
      simp e (
        Sound-same _ _ refl refl refl refl refl (
          settle_goal-Sound R _ left (shut-Sound left v.exact (v.shut off) off (λ waits. written))))
]

pub take_away-Sound :
    {D : Type 0} (R : Reasons) (w : Surroundings) (reason before detail : Text) (n : Node D)
    → Sound n
    → Sound (take_away R w reason before detail n)
unfolding take_away
take_away-Sound R w reason before detail n v =
    let closed : Node _ = record n { accepting_goals = false } in
    let left =
      cancel_pending_start-Sound R reason before closed
        (Sound-same n closed refl refl refl refl refl v) in
    elim (Bool-cases (cancel_pending_start R reason before closed).pipe.is_recording) [
      | inl e ↦ simp e (finish_recording-Sound R w reason detail _ left)
      | inr e ↦ simp e left
    ]

pub close_writer-Sound :
    {D : Type 0} (n : Node D) → n.pipe.is_recording ≡ false → Sound n → Sound (close_writer n)
unfolding close_writer
close_writer-Sound n off v = rw (close_writer, v.shut off) v
