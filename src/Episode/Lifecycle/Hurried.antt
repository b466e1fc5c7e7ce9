-- ===== src/Episode/Lifecycle/Hurried.antt =====
-- src/episode_recorder_node.cpp: an episode that ends while the writer thread holds a batch, without
-- a wait for it.
use rosetta_recorder_cpp.Prelude.{
  ◌≤◌, ◌≡◌, ◌≢◌, refl, sym, ap, subst, ◌∙◌, Text, Bool, true, false, Bool-cases, none, some, inl,
  inr, List, [], ◌∷◌, ◌++◌, length,
}
use rosetta_recorder_cpp.Pipeline.{Pipeline, QueuedMessage, Bag, Storage}
use rosetta_recorder_cpp.Pipeline.Drain.{
  waiting, holding, Machine, take_batch, can_wake, run_thread, step_at, request_flush, close_bag,
}
use rosetta_recorder_cpp.Pipeline.Drain.Race.{take_batch-Takes, wakes, request_flush-may_close}
use rosetta_recorder_cpp.Pipeline.Finish.{after_wait, close_and_destroy, end_bag}
use rosetta_recorder_cpp.Pipeline.Finish.Complete.{end_bag-recording}
use rosetta_recorder_cpp.Episode.{Node, Surroundings, machine_of}
use rosetta_recorder_cpp.Episode.Reason.{Reasons}
use rosetta_recorder_cpp.Episode.Lifecycle.{finish_recording}
use rosetta_recorder_cpp.Episode.Phase.Services.{works}
use rosetta_recorder_cpp.Episode.Transitions.Taken.{settle_goal-told}
use rosetta_recorder_cpp.Episode.Sound.Accounts.{close_bag-one, request_flush-closed}

request_flush-same :
    (p : Pipeline)
    → ((request_flush p).writer ≡ p.writer)
      × ((request_flush p).writer_thread_running ≡ p.writer_thread_running)
unfolding request_flush
request_flush-same p = elim (Bool-cases p.writer_thread_running) [
  | inl e ↦ simp e (refl, refl)
  | inr e ↦ simp e (refl, refl)
]

close_bag-open :
    (p : Pipeline) (bag : Bag)
    → p.writer ≡ some bag
    → ((close_bag p).writer ≡ none)
      × ((close_bag p).writer_thread_running ≡ p.writer_thread_running)
unfolding close_bag
close_bag-open p bag w = rw (close_bag, w) (refl, refl)

-- Closed with its batch still on the way.
record Hurried (m n : Machine) (bag : Bag) : Type 0 where
  closed : n.pipe.closed ≡ m.pipe.closed ++ bag ∷ []
  shut : n.pipe.writer ≡ none
  running : n.pipe.writer_thread_running ≡ m.pipe.writer_thread_running
  thread : n.thread ≡ m.thread

-- The end of a bag that nothing is queued for does not wait.
end_bag-Hurried :
    (S : Storage) (m : Machine) (bag : Bag)
    → m.pipe.queue ≡ []
    → m.pipe.writer ≡ some bag
    → Hurried m (end_bag 0 S m) bag
unfolding end_bag after_wait close_and_destroy run_thread
end_bag-Hurried S m bag empty w =
    let told = request_flush m.pipe in
    let (same, running) = request_flush-same m.pipe in
    let (closed, counted) = close_bag-one told bag (same ∙ w) in
    let (shut, running') = close_bag-open told bag (same ∙ w) in
    simp (request_flush-may_close m.pipe empty) (record {
      closed = closed ∙ ap (λ l. l ++ bag ∷ []) (request_flush-closed m.pipe);
      shut = shut;
      running = running' ∙ running;
      thread = refl;
    })

works-takes :
    {D : Type 0} (S : Storage) (n : Node D)
    → n.thread ≡ waiting
    → can_wake n.pipe ≡ true
    → works 1 S n
      ≡ record n { pipe = (take_batch n.pipe).pipe; thread = (take_batch n.pipe).thread }
unfolding run_thread step_at
works-takes S n waits awake = simp (waits, awake) refl

-- The surroundings of an end that gives the writer thread no time.
abbrev pub hurried : Surroundings → Surroundings
hurried w = record w { rounds = 0 }

-- The episode is over, with a batch still in the thread's hands.
pub record Leaves {D : Type 0} (n : Node D) (batch : List QueuedMessage) (ended : Node D)
    (bag : Bag) : Type 0 where
  pub flushing : Bool
  pub held : ended.thread ≡ holding batch flushing
  pub closed : ended.pipe.closed ≡ n.pipe.closed ++ bag ∷ []
  pub shut : ended.pipe.writer ≡ none
  pub running : ended.pipe.writer_thread_running ≡ true
  pub recording : ended.pipe.is_recording ≡ false
  pub pending : ended.start_pending ≡ n.start_pending
  pub accepting : ended.accepting_goals ≡ n.accepting_goals

finish_recording-hurries :
    {D : Type 0} (R : Reasons) (w : Surroundings) (reason detail : Text) (n : Node D) (bag : Bag)
    (batch : List QueuedMessage) (flushing : Bool)
    → n.thread ≡ holding batch flushing
    → n.pipe.is_recording ≡ true
    → n.pipe.writer_thread_running ≡ true
    → n.pipe.writer ≡ some bag
    → n.pipe.queue ≡ []
    → Leaves n batch (finish_recording R (hurried w) reason detail n) bag
unfolding finish_recording
finish_recording-hurries R w reason detail n bag batch flushing held on running open_bag empty =
    let hurry = end_bag-Hurried w.storage (machine_of n) bag empty open_bag in
    simp (on, settle_goal-told R)
      (record {
        flushing = flushing;
        held = hurry.thread ∙ held;
        closed = hurry.closed;
        shut = hurry.shut;
        running = hurry.running ∙ running;
        recording = end_bag-recording 0 w.storage (machine_of n);
        pending = refl;
        accepting = refl;
      })

pub finish_recording-Leaves :
    {D : Type 0} (R : Reasons) (w : Surroundings) (reason detail : Text) (n : Node D) (bag : Bag)
    → n.thread ≡ waiting
    → n.pipe.is_recording ≡ true
    → n.pipe.writer_thread_running ≡ true
    → n.pipe.writer ≡ some bag
    → n.pipe.queue ≢ []
    → length n.pipe.queue ≤ 256
    → Leaves n n.pipe.queue (finish_recording R (hurried w) reason detail (works 1 w.storage n)) bag
finish_recording-Leaves {D} R w reason detail n bag waits on running open_bag queued small =
    let takes = take_batch-Takes n.pipe queued small running in
    let e = takes.emptied in
    let taken : Node D = record n {
      pipe = (take_batch n.pipe).pipe;
      thread = (take_batch n.pipe).thread;
    } in
    let left =
      finish_recording-hurries R w reason detail taken bag n.pipe.queue takes.flushing
        (takes.holds ∙ ap (λ b. holding b takes.flushing) takes.all)
        (ap (λ (p : Pipeline). p.is_recording) e ∙ on)
        (ap (λ (p : Pipeline). p.writer_thread_running) e ∙ running)
        (ap (λ (p : Pipeline). p.writer) e ∙ open_bag) (ap (λ (p : Pipeline). p.queue) e) in
    subst (λ t. Leaves n n.pipe.queue (finish_recording R (hurried w) reason detail t) bag)
      (sym (works-takes w.storage n waits (wakes n.pipe queued)))
      (record {
        flushing = left.flushing;
        held = left.held;
        closed = left.closed ∙ ap (λ (p : Pipeline). p.closed ++ bag ∷ []) e;
        shut = left.shut;
        running = left.running;
        recording = left.recording;
        pending = left.pending;
        accepting = left.accepting;
      })
