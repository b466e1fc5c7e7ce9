-- ===== src/Tests/OnPipeline.antt =====
-- The message path and the writer thread on a table with one latched topic.
use rosetta_recorder_cpp.Prelude.{
  map, ℕ, ◌≡◌, refl, codes, true, false, none, some, [], ◌∷◌, ◌++◌, length, pos, arith,
}
use rosetta_recorder_cpp.Contract.{default_qos, accumulate}
use rosetta_recorder_cpp.Topics.{SerializedMessage, BufferedMessage, TopicState, no_topics}
use rosetta_recorder_cpp.Pipeline.{Pipeline, Bag, Storage}
use rosetta_recorder_cpp.Pipeline.Receive.{enqueue, on_message}
use rosetta_recorder_cpp.Pipeline.Drain.{
  Machine, waiting, Reach, here, next, receive, wake, take_batch, drain, can_wake,
}
use rosetta_recorder_cpp.Pipeline.Drain.Fifo.{IsHealthy, names, bagged}
use rosetta_recorder_cpp.Pipeline.Drain.Contents.{contents}
use rosetta_recorder_cpp.Pipeline.Drain.Order.{IsOpen, accepted_all, Reach-contents}
use rosetta_recorder_cpp.Pipeline.Drain.Log.{Log, LogReach, Shows, shows_open}
use rosetta_recorder_cpp.Pipeline.Drain.Bounded.{Within, Reach-Within}
use rosetta_recorder_cpp.Pipeline.Drain.Refines.{Reach-refines}
use rosetta_recorder_cpp.Episode.Open.{metadata_of, open_writer}
use rosetta_recorder_cpp.Episode.Opens.{retained_of, open_writer-Opens}
use rosetta_recorder_cpp.Tests.Samples.{rmw}
use rosetta_recorder_cpp.Pipeline.Drain.Race.{Lost, finish-Lost}

abbrev message : ℕ → SerializedMessage
message n = record { contents = n ∷ []; buffer_length = 1 }

abbrev held : ℕ → BufferedMessage
held n = record { message = message n; timestamp_ns = n }

-- A depth of two, and a buffer that is full.
abbrev pub latched : TopicState
latched = record {
  spec = record {
    topic = codes "/map";
    type = codes "T";
    qos = record default_qos { depth = pos 2; transient_local = true };
    strategy = accumulate;
  };
  sub = none;
  buffer = held 1 ∷ held 2 ∷ [];
  written = 0;
  discovered = false;
}

abbrev pub open_bag : Bag
open_bag = record { uri = codes "bags/1"; storage_id = codes "mcap"; topics = []; messages = [] }

abbrev pub recording : Pipeline
recording = record {
  table = record no_topics { topics = latched ∷ [] };
  is_recording = true;
  stop_requested = false;
  write_failed = false;
  write_error = [];
  messages_written = 0;
  messages_dropped = 0;
  writer = some open_bag;
  closed = [];
  queue = [];
  queue_bytes = 0;
  flush_requested = false;
  flush_done = false;
  writer_thread_running = true;
}

abbrev pub at_rest : Pipeline
at_rest = record recording { is_recording = false; writer = none }

abbrev pub storage : Storage
storage = record {
  open_error = λ uri id. none;
  create_error = λ bag meta. none;
  write_error = λ bag bm. none;
  close_error = λ bag. none;
}

pub healthy : IsHealthy storage
healthy = λ bag bm. refl

abbrev machine : Machine
machine = record { pipe = recording; thread = waiting }

-- A message arrives, the thread takes it, and a second one arrives before it is written.
abbrev taken : Machine
taken = take_batch (on_message 3 0 (message 3) recording)

abbrev last : Machine
last = record taken { pipe = on_message 4 0 (message 4) taken.pipe }

wakes : can_wake (on_message 3 0 (message 3) recording) ≡ true
unfolding on_message enqueue
wakes = refl

abbrev run : Reach storage machine last
run =
    next (next (next here (receive machine 3 0 (message 3))) (wake _ refl wakes))
      (receive taken 4 0 (message 4))

still-IsOpen : IsOpen last
unfolding on_message enqueue take_batch drain
still-IsOpen e = cc

Reach-contents_example :
    contents last ≡ contents machine ++ bagged (names machine.pipe.table.topics) (accepted_all run)
Reach-contents_example = Reach-contents healthy run still-IsOpen

Reach-refines_example :
    (k : Log) × LogReach
      (Log.recording (contents machine))
      (bagged (names machine.pipe.table.topics) (accepted_all run))
      k
    × Shows [] last k
Reach-refines_example = Reach-refines healthy (shows_open (λ e. cc) refl) run

Reach-Within_example : Within last
Reach-Within_example =
    Reach-Within run (((tt, ground arith), tt), ground arith)
      (record {
        queue = record { messages = ground arith; exact = refl; bytes = ground arith };
        batch = ground arith;
      })

two_accepted : length (accepted_all run) ≡ 2
unfolding on_message enqueue take_batch drain
two_accepted = refl

abbrev pub queued : Pipeline
queued = record recording {
  queue = record { message = message 3; timestamp_ns = 3; topic_index = 0 } ∷ [];
  queue_bytes = 1;
}

finish-Lost_example :
    (n : Machine) × Reach storage (record { pipe = queued; thread = waiting }) n
    × Lost queued open_bag n
finish-Lost_example = finish-Lost storage queued open_bag refl refl refl (λ e. cc) (ground arith)

open_writer-Opens_example :
    let (q, error) = open_writer rmw storage (codes "bags/2") (codes "mcap") 9 at_rest in
    (error ≡ none)
    × (q.writer
        ≡ some (record {
          uri = codes "bags/2";
          storage_id = codes "mcap";
          topics = map (metadata_of rmw) at_rest.table.topics;
          messages = retained_of 9 at_rest.table.topics;
        }))
    × (q.writer_thread_running ≡ true)
open_writer-Opens_example =
    open_writer-Opens rmw storage (codes "bags/2") (codes "mcap") 9 at_rest
      (record { opens = λ uri id. refl; creates = λ bag meta. refl; writes = λ bag bm. refl })

two_retained : length (retained_of 9 at_rest.table.topics) ≡ 2
two_retained = refl
