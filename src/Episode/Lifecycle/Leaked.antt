-- ===== src/Episode/Lifecycle/Leaked.antt =====
-- src/episode_recorder_node.cpp: an episode that starts while the writer thread holds the last
-- batch of the one before.
use rosetta_recorder_cpp.Floats.{Floats}
use rosetta_recorder_cpp.Prelude.{
  ℕ, ◌≤◌, ◌≡◌, ◌≢◌, refl, sym, ap, subst, ◌∙◌, Text, Bool, true, false, none, some, List, [], ◌∷◌,
  ◌++◌, length, is_empty,
}
use rosetta_recorder_cpp.Topics.{TopicState}
use rosetta_recorder_cpp.Topics.Shapes.{shapes}
use rosetta_recorder_cpp.Pipeline.{Pipeline, QueuedMessage, Bag, Storage}
use rosetta_recorder_cpp.Pipeline.Drain.{waiting, holding, run_thread, step_at}
use rosetta_recorder_cpp.Pipeline.Drain.Fifo.{names, bagged, write_batch-Stores}
use rosetta_recorder_cpp.Episode.{Settings, Node, Surroundings}
use rosetta_recorder_cpp.Episode.Reason.{Reasons}
use rosetta_recorder_cpp.Episode.Open.{open_writer}
use rosetta_recorder_cpp.Episode.Opens.{retained_of, Accepts, open_writer-Opens}
use rosetta_recorder_cpp.Episode.Lifecycle.{
  begin_episode, reset_episode, go_live, start_recording, finish_recording,
}
use rosetta_recorder_cpp.Episode.Phase.Services.{works}
use rosetta_recorder_cpp.Episode.Sound.Opened.{open_writer-Counting}
use rosetta_recorder_cpp.Episode.Lifecycle.Hurried.{hurried, finish_recording-Leaves}

names-shapes : (xs ys : List TopicState) → shapes ys ≡ shapes xs → names ys ≡ names xs
names-shapes [] [] e = refl
names-shapes [] (y ∷ ys) e = cc
names-shapes (x ∷ xs) [] e = cc
names-shapes (x ∷ xs) (y ∷ ys) e = cc (names-shapes xs ys (cc))

-- The thread's next section, in a node whose bag is open and whose thread holds a batch.
works-Stores :
    {D : Type 0} (S : Storage) (n : Node D) (bag : Bag) (batch : List QueuedMessage)
    (flushing : Bool)
    → Accepts S
    → n.thread ≡ holding batch flushing
    → n.pipe.writer ≡ some bag
    → (new : Bag) × ((works 1 S n).pipe.writer ≡ some new)
      × (new.messages ≡ bag.messages ++ bagged (names n.pipe.table.topics) batch)
unfolding run_thread step_at
works-Stores S n bag batch flushing a held w =
    let stores = write_batch-Stores S batch n.pipe bag a.writes w in
    simp held (stores.bag, stores.opened, stores.stored)

-- The bag that was opened has the batch behind what the topics retained.
pub record Leaks (start : ℕ) (topics : List TopicState) (batch : List QueuedMessage) (p : Pipeline)
    : Type 0 where
  pub new : Bag
  pub opened : p.writer ≡ some new
  pub leaked : new.messages ≡ retained_of start topics ++ bagged (names topics) batch

begin_episode-Leaks :
    {D : Type 0} (s : Settings D) (w : Surroundings) (n : Node D) (batch : List QueuedMessage)
    (flushing : Bool)
    → Accepts w.storage
    → n.thread ≡ holding batch flushing
    → n.pipe.writer_thread_running ≡ true
    → n.pipe.messages_written ≡ 0
    → n.pipe.writer ≡ none
    → let (begun, error) = begin_episode s w n in
      (error ≡ none) × Leaks w.now_ns n.pipe.table.topics batch (works 1 w.storage begun).pipe
unfolding begin_episode
begin_episode-Leaks s w n batch flushing a held running uncounted shut =
    let opened = open_writer w.rmw w.storage n.current_bag_dir s.storage_id w.now_ns n.pipe in
    let (fine, at, runs) =
      open_writer-Opens w.rmw w.storage n.current_bag_dir s.storage_id w.now_ns n.pipe a in
    let counting =
      open_writer-Counting w.rmw w.storage n.current_bag_dir s.storage_id w.now_ns n.pipe uncounted
        shut in
    let begun : Node _ = record n {
      pipe = record opened.0 { is_recording = true };
      thread = n.thread;
      recording_start = w.now_ns;
      recording_timer = true;
    } in
    let (new, now, stored) = works-Stores w.storage begun _ batch flushing a held at in
    rw (begin_episode, fine)
      (simp running (
        refl,
        record {
          new = new;
          opened = now;
          leaked =
              stored
              ∙ ap (λ ns. retained_of w.now_ns n.pipe.table.topics ++ bagged ns batch)
                  (names-shapes n.pipe.table.topics opened.0.table.topics
                    counting.same.same_shapes);
        },
      ))

-- What the next bag retains, and behind it the queue of the episode before.
pub record Leaked {D : Type 0} (w : Surroundings) (n ended restarted last : Node D) (bag : Bag)
    : Type 0 where
  pub closed : ended.pipe.closed ≡ n.pipe.closed ++ bag ∷ []
  pub leaks : Leaks w.now_ns restarted.pipe.table.topics n.pipe.queue last.pipe

go_live-inline :
    {D : Type 0} (s : Settings D) (w : Surroundings) (n : Node D)
    → n.pending_resubscribed ≡ []
    → (begin_episode s w n).1 ≡ none
    → go_live s w n ≡ begin_episode s w n
unfolding go_live
go_live-inline s w n none_pending fine =
    let e : is_empty n.pending_resubscribed ≡ true = ap (λ l. is_empty l) none_pending in
    rw (go_live, e, fine) refl

start_recording-begins :
    (F : Floats) (s : Settings F.Double) (w : Surroundings) (prompt : Text) (max : F.Double)
    (n : Node F.Double)
    → n.accepting_goals ≡ true
    → n.pipe.is_recording ≡ false
    → n.start_pending ≡ false
    → start_recording F s w prompt max n ≡ go_live s w (reset_episode F s w prompt max n)
unfolding start_recording
start_recording-begins F s w prompt max n accepts off free = simp (accepts, off, free) refl

-- What a start finds after a hurried end.
reset_episode-same :
    (F : Floats) (s : Settings F.Double) (w : Surroundings) (prompt : Text) (max : F.Double)
    (n : Node F.Double)
    → ((reset_episode F s w prompt max n).thread ≡ n.thread)
      × ((reset_episode F s w prompt max n).pipe.writer_thread_running
          ≡ n.pipe.writer_thread_running)
      × ((reset_episode F s w prompt max n).pipe.messages_written ≡ 0)
      × ((reset_episode F s w prompt max n).pipe.writer ≡ n.pipe.writer)
unfolding reset_episode
reset_episode-same F s w prompt max n = (refl, refl, refl, refl)

-- Take a recording node whose writer thread waits beside an open bag and between 1 and 256 queued
-- messages. If the thread takes them, the episode ends before it writes them, and a next one starts
-- that resubscribes no topic, with a storage that refuses nothing, then the bag of the first is
-- closed without them, and the thread writes them into the bag of the second.
pub finish-Leaks :
    (F : Floats) (R : Reasons) (s : Settings F.Double) (w : Surroundings)
    (reason detail prompt : Text) (max : F.Double) (n : Node F.Double) (bag : Bag)
    → Accepts w.storage
    → n.thread ≡ waiting
    → n.pipe.is_recording ≡ true
    → n.pipe.writer_thread_running ≡ true
    → n.pipe.writer ≡ some bag
    → n.pipe.queue ≢ []
    → length n.pipe.queue ≤ 256
    → n.accepting_goals ≡ true
    → n.start_pending ≡ false
    → let ended = finish_recording R (hurried w) reason detail (works 1 w.storage n) in
      let reset = reset_episode F s w prompt max ended in
      reset.pending_resubscribed ≡ []
      → let (begun, error) = start_recording F s w prompt max ended in
        (error ≡ none) × Leaked w n ended reset (works 1 w.storage begun) bag
finish-Leaks F R s w reason detail prompt max n bag a waits on running opened queued small accepts
      free settled =
    let left =
      finish_recording-Leaves R w reason detail n bag waits on running opened queued small in
    let ended = finish_recording R (hurried w) reason detail (works 1 w.storage n) in
    let reset = reset_episode F s w prompt max ended in
    let (thread, running', unwritten, writer) = reset_episode-same F s w prompt max ended in
    let (fine, leaks) =
      begin_episode-Leaks s w reset n.pipe.queue left.flushing a (thread ∙ left.held)
        (running' ∙ left.running) unwritten (writer ∙ left.shut) in
    subst (λ r. (r.1 ≡ none) × Leaked w n ended reset (works 1 w.storage r.0) bag)
      (sym (
        start_recording-begins F s w prompt max ended (left.accepting ∙ accepts) left.recording
          (left.pending ∙ free)
        ∙ go_live-inline s w reset settled fine))
      (fine, record { closed = left.closed; leaks = leaks })
