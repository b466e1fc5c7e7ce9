-- ===== src/Pipeline/Drain/Order.antt =====
-- While the bag is open, what it holds and what is on its way to it is what the executor accepted,
-- in that order, however the two threads interleave.
use mathlib.Core.List.{append_assoc, append-nil}
use rosetta_recorder_cpp.Prelude.{
  ◌≡◌, ◌≢◌, refl, sym, ap, ◌∙◌, Bool, not, ◌&&◌, none, List, [], ◌++◌, is_empty, Bool-cases,
  Option-cases, inl, inr,
}
use rosetta_recorder_cpp.Topics.{Topics}
use rosetta_recorder_cpp.Pipeline.{Pipeline, QueuedMessage, Storage}
use rosetta_recorder_cpp.Pipeline.Drain.{
  Machine, take_batch, acknowledge, request_flush, Step, receive, wake, write, reply, finish, close,
  expire, Reach, here, next,
}
use rosetta_recorder_cpp.Pipeline.Drain.Fifo.{
  names, bagged, bagged-append, IsHealthy, write_batch-Stores,
}
use rosetta_recorder_cpp.Pipeline.Drain.Contents.{
  contents, accepted, on_message-queue, on_message-contents, take_batch-contents,
  write_batch-contents, acknowledge-contents, request_flush-contents, close_bag-shut,
  write_batch-none,
}

abbrev pub IsOpen : Machine → Type 0
IsOpen m = m.pipe.writer ≢ none

-- A step to a machine whose bag is open: it was open before, the names are the same, and the
-- contents grew by what the step accepted.
record Keeps (m n : Machine) (new : List QueuedMessage) : Type 0 where
  was_open : IsOpen m
  same_names : names n.pipe.table.topics ≡ names m.pipe.table.topics
  grown : contents n ≡ contents m ++ bagged (names m.pipe.table.topics) new

pub take_batch-table :
    (p : Pipeline) → ((take_batch p).pipe.table ≡ p.table) × ((take_batch p).pipe.writer ≡ p.writer)
unfolding take_batch
take_batch-table p = elim (Bool-cases (not p.writer_thread_running && is_empty p.queue)) [
  | inl e ↦ simp e (refl, refl)
  | inr e ↦ simp e (refl, refl)
]

pub acknowledge-table :
    (flushing : Bool) (p : Pipeline)
    → ((acknowledge flushing p).table ≡ p.table) × ((acknowledge flushing p).writer ≡ p.writer)
unfolding acknowledge
acknowledge-table flushing p = elim (Bool-cases (flushing && is_empty p.queue)) [
  | inl e ↦ simp e (refl, refl)
  | inr e ↦ simp e (refl, refl)
]

pub request_flush-table :
    (p : Pipeline) → ((request_flush p).table ≡ p.table) × ((request_flush p).writer ≡ p.writer)
unfolding request_flush
request_flush-table p = elim (Bool-cases p.writer_thread_running) [
  | inl e ↦ simp e (refl, refl)
  | inr e ↦ simp e (refl, refl)
]

unchanged :
    (m n : Machine)
    → (n.pipe.table ≡ m.pipe.table) × (n.pipe.writer ≡ m.pipe.writer)
    → contents n ≡ contents m
    → IsOpen n
    → Keeps m n []
unchanged m n (table, open_bag) same is_open = record {
  was_open = λ w. is_open (open_bag ∙ w);
  same_names = ap (λ (t : Topics). names t.topics) table;
  grown = same ∙ sym (append-nil (contents m));
}

Step-Keeps :
    {S : Storage} {m n : Machine}
    → IsHealthy S
    → (s : Step S m n) → IsOpen n
    → Keeps m n (accepted s)
Step-Keeps healthy (receive m now index msg) o =
    let (queued, named, w) = on_message-queue now index msg m.pipe in
    record {
      was_open = λ e. o (w ∙ e);
      same_names = named;
      grown = on_message-contents now index msg m;
    }
Step-Keeps healthy (wake m t w) o =
    unchanged m (take_batch m.pipe) (take_batch-table m.pipe) (take_batch-contents m t) o
Step-Keeps {S} healthy (write m batch flushing t) o = elim (Option-cases m.pipe.writer) [
  | inl w ↦ absurd (o (ap (λ (p : Pipeline). p.writer) (write_batch-none S batch m.pipe w) ∙ w))
  | inr (bag, w) ↦
      let done = write_batch-Stores S batch m.pipe bag healthy w in
      record {
        was_open = λ e. cc;
        same_names = done.same_names;
        grown =
            write_batch-contents S m batch flushing bag healthy w t ∙ sym (append-nil (contents m));
      }
]
Step-Keeps healthy (reply m flushing t) o =
    unchanged m _ (acknowledge-table flushing m.pipe) (acknowledge-contents m flushing t) o
Step-Keeps healthy (finish m r) o =
    unchanged m _ (request_flush-table m.pipe) (request_flush-contents m) o
Step-Keeps healthy (close m r f) o = absurd (o (close_bag-shut m.pipe))
Step-Keeps healthy (expire m r f) o = absurd (o (close_bag-shut _))

-- All that was accepted along a run, oldest first.
abbrev pub accepted_all : {S : Storage} {m n : Machine} → Reach S m n → List QueuedMessage
accepted_all here = []
accepted_all (next r s) = accepted_all r ++ accepted s

Reach-Keeps :
    {S : Storage} {m n : Machine}
    → IsHealthy S
    → (r : Reach S m n) → IsOpen n
    → Keeps m n (accepted_all r)
Reach-Keeps {m} healthy here o = record {
  was_open = o;
  same_names = refl;
  grown = sym (append-nil (contents m));
}
Reach-Keeps {m} healthy (next r s) o =
    let last = Step-Keeps healthy s o in
    let before = Reach-Keeps healthy r last.was_open in
    let ns = names m.pipe.table.topics in
    record {
      was_open = before.was_open;
      same_names = last.same_names ∙ before.same_names;
      grown =
          last.grown
          ∙ rw (before.grown, before.same_names)
              (append_assoc (contents m) (bagged ns (accepted_all r)) (bagged ns (accepted s))
                ∙ ap (λ l. contents m ++ l) (sym (bagged-append ns (accepted_all r) (accepted s))));
    }

-- However the executor and the writer thread interleave, if no write fails and the bag is still
-- open, then the bag, the thread's batch and the queue together hold what they held at the start
-- followed by every message that was accepted since: none lost, none twice, all in order.
pub Reach-contents :
    {S : Storage} {m n : Machine}
    → IsHealthy S
    → (r : Reach S m n) → IsOpen n
    → contents n ≡ contents m ++ bagged (names m.pipe.table.topics) (accepted_all r)
Reach-contents healthy r o = (Reach-Keeps healthy r o).grown
