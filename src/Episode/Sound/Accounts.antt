-- ===== src/Episode/Sound/Accounts.antt =====
-- What a goal is told of its bag when its episode ends.
use rosetta_recorder_cpp.Prelude.{
  ℕ, ◌%◌, ◌^◌, ◌≡◌, refl, ap, ◌∙◌, Text, true, Bool-cases, some, inl, inr, [], ◌∷◌, ◌++◌, length,
  arith, to_signed, is_empty,
}
use rosetta_recorder_cpp.Pipeline.{Pipeline, Bag, Storage}
use rosetta_recorder_cpp.Pipeline.Counted.{Counted}
use rosetta_recorder_cpp.Pipeline.Drain.{Machine, run_thread, request_flush, may_close, close_bag}
use rosetta_recorder_cpp.Pipeline.Drain.Run.{run_thread-Spares}
use rosetta_recorder_cpp.Pipeline.Finish.{after_wait, close_and_destroy, end_bag}
use rosetta_recorder_cpp.Episode.{Node, EpisodeResult, Surroundings, machine_of}
use rosetta_recorder_cpp.Episode.Reason.{Reasons}
use rosetta_recorder_cpp.Episode.Lifecycle.{result_of, finish_recording}
use rosetta_recorder_cpp.Episode.Transitions.Taken.{told, settle_goal-told}
use rosetta_recorder_cpp.Episode.Sound.{Sound}
use rosetta_recorder_cpp.Episode.Sound.Ends.{after_wait-Advances}

low_bits : (k : ℕ) → to_signed 32 (k % 2 ^ 64) ≡ to_signed 32 k
low_bits k = let e : k % 2 ^ 64 % 2 ^ 32 ≡ k % 2 ^ 32 = omega arith in rw e refl

pub request_flush-closed : (p : Pipeline) → (request_flush p).closed ≡ p.closed
unfolding request_flush
request_flush-closed p = ground arith

after_wait-closed :
    (rounds : ℕ) (S : Storage) (m : Machine) → (after_wait rounds S m).pipe.closed ≡ m.pipe.closed
unfolding after_wait
after_wait-closed rounds S m =
    let told : Machine = record m { pipe = request_flush m.pipe } in
    let same = (run_thread-Spares rounds S told).closed ∙ request_flush-closed m.pipe in
    elim (Bool-cases (may_close (run_thread rounds S told).pipe)) [
      | inl e ↦ simp e same
      | inr e ↦ simp e same
    ]

pub close_bag-one :
    (p : Pipeline) (bag : Bag)
    → p.writer ≡ some bag
    → ((close_bag p).closed ≡ p.closed ++ bag ∷ [])
      × ((close_bag p).messages_written ≡ p.messages_written)
unfolding close_bag
close_bag-one p bag w = rw (close_bag, w) (refl, refl)

-- The bag that the end of an episode closed, and how many messages are in it.
record Closed (m n : Machine) : Type 0 where
  bag : Bag
  closed : n.pipe.closed ≡ m.pipe.closed ++ bag ∷ []
  count : n.pipe.messages_written ≡ length bag.messages % 2 ^ 64

end_bag-Closed :
    (rounds : ℕ) (S : Storage) (m : Machine) (bag : Bag)
    → Counted m.pipe
    → m.pipe.writer ≡ some bag
    → Closed m (end_bag rounds S m)
unfolding end_bag close_and_destroy
end_bag-Closed rounds S m bag counted w =
    let advances = after_wait-Advances rounds S m in
    let (last, at) = advances.opened bag w in
    let (closed, same) = close_bag-one (after_wait rounds S m).pipe last at in
    record {
      bag = last;
      closed = closed ∙ ap (λ l. l ++ last ∷ []) (after_wait-closed rounds S m);
      count = same ∙ advances.counted counted last at;
    }

-- One bag was closed, and the goal, if there is one, was told its directory and its number of
-- messages.
pub record Accounts {D : Type 0} (R : Reasons) (n m : Node D) : Type 0 where
  pub bag : Bag
  pub closed : m.pipe.closed ≡ n.pipe.closed ++ bag ∷ []
  pub result : EpisodeResult
  pub settled : m.settled ≡ told R result n.goal_handle n.settled
  pub path : result.bag_path ≡ n.current_bag_dir
  pub count : result.messages_written ≡ to_signed 32 (length bag.messages)

result_of-counts :
    (R : Reasons) (metadata_error reason detail dir : Text) (p : Pipeline)
    → ((result_of R metadata_error reason detail dir p).bag_path ≡ dir)
      × ((result_of R metadata_error reason detail dir p).messages_written
          ≡ to_signed 32 p.messages_written)
unfolding result_of
result_of-counts R metadata_error reason detail dir p =
    elim (Bool-cases (is_empty metadata_error)) [
      | inl e ↦ simp e (refl, refl)
      | inr e ↦ simp e (refl, refl)
    ]

-- When an episode of a sound node ends, however far the writer thread came and whether the metadata
-- was written or not, exactly one bag is closed, and what the goal is told as `messages_written` is
-- the number of messages in that bag, in the 32 bits of the field.
pub finish_recording-Accounts :
    {D : Type 0} (R : Reasons) (w : Surroundings) (reason detail : Text) (n : Node D)
    → Sound n
    → n.pipe.is_recording ≡ true
    → Accounts R n (finish_recording R w reason detail n)
unfolding finish_recording
finish_recording-Accounts R w reason detail n v on =
    let (bag, at) = v.opened on in
    let ended = end_bag-Closed w.rounds w.storage (machine_of n) bag v.counted at in
    let p = (end_bag w.rounds w.storage (machine_of n)).pipe in
    let (path, count) = result_of-counts R w.metadata_error reason detail n.current_bag_dir p in
    simp (on, settle_goal-told R)
      (record {
        bag = ended.bag;
        closed = ended.closed;
        result = result_of R w.metadata_error reason detail n.current_bag_dir p;
        settled = refl;
        path = path;
        count = count ∙ ap (to_signed 32) ended.count ∙ low_bits (length ended.bag.messages);
      })
