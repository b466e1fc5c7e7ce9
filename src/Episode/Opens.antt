-- ===== src/Episode/Opens.antt =====
-- src/episode_recorder_node.cpp: what is in the bag when `open_writer` is done.
use mathlib.Core.List.{append_assoc, append-nil}
use rosetta_recorder_cpp.Prelude.{
  ℕ, ◌≡◌, refl, sym, ap, ◌∙◌, Text, true, none, some, List, [], ◌∷◌, ◌++◌, map, Bool-cases, inl,
  inr,
}
use rosetta_recorder_cpp.Contract.{RmwPolicies}
use rosetta_recorder_cpp.Topics.{BufferedMessage, TopicState}
use rosetta_recorder_cpp.Pipeline.{Pipeline, BagMessage, TopicMetadata, Bag, Storage, increment}
use rosetta_recorder_cpp.Episode.Open.{
  metadata_of, register_topics, retained, Flush, flush_buffer, flush_topics, start_thread,
  flush_retained, after_registering, open_writer,
}

-- What the topics retain, topic by topic, each message stamped with the start of the bag.
abbrev pub retained_of : ℕ → List TopicState → List BagMessage
retained_of start [] = []
retained_of start (st ∷ sts) = map (retained start st.spec.topic) st.buffer ++ retained_of start sts

-- A storage that refuses nothing.
pub record Accepts (S : Storage) : Type 0 where
  pub opens : (uri storage_id : Text) → S.open_error uri storage_id ≡ none
  pub creates : (bag : Bag) (meta : TopicMetadata) → S.create_error bag meta ≡ none
  pub writes : (bag : Bag) (bm : BagMessage) → S.write_error bag bm ≡ none

abbrev uncounted : TopicState → TopicState
uncounted st = record st { written = 0 }

abbrev with_topics : Bag → List TopicMetadata → Bag
with_topics bag metas = record bag { topics = bag.topics ++ metas }

abbrev with_messages : Bag → List BagMessage → Bag
with_messages bag bms = record bag { messages = bag.messages ++ bms }

register_topics-all :
    (rmw : RmwPolicies) (S : Storage) (sts : List TopicState) (bag : Bag)
    → Accepts S
    → register_topics rmw S sts bag
      ≡ (map uncounted sts, with_topics bag (map (metadata_of rmw) sts), none)
unfolding register_topics
register_topics-all rmw S [] bag a =
    ap (λ l. ([], record bag { topics = l }, none)) (sym (append-nil bag.topics))
register_topics-all rmw S (st ∷ sts) bag a =
    rw
      (
        register_topics,
        a.creates bag (metadata_of rmw st),
        register_topics-all rmw S sts (with_topics bag (metadata_of rmw st ∷ [])) a,
      )
      (ap (λ l. (map uncounted (st ∷ sts), record bag { topics = l }, none))
        (append_assoc bag.topics (metadata_of rmw st ∷ []) (map (metadata_of rmw) sts)))

-- What a flush leaves if nothing is refused.
record Flushed (bag : Bag) (bms : List BagMessage) (f : Flush) : Type 0 where
  stored : f.bag ≡ with_messages bag bms
  fine : f.error ≡ none

flush_buffer-all :
    (S : Storage) (start : ℕ) (name : Text) (bms : List BufferedMessage) (bag : Bag)
    (count written : ℕ)
    → Accepts S
    → Flushed bag
        (map (retained start name) bms)
        (flush_buffer S start name bms bag count written).1
unfolding flush_buffer
flush_buffer-all S start name [] bag count written a = record {
  stored = ap (λ l. record bag { messages = l }) (sym (append-nil bag.messages));
  fine = refl;
}
flush_buffer-all S start name (bm ∷ bms) bag count written a =
    let rest =
      flush_buffer-all S start name bms (with_messages bag (retained start name bm ∷ []))
        (increment count) (increment written) a in
    rw (flush_buffer, a.writes bag (retained start name bm))
      (record {
        stored =
            rest.stored
            ∙ ap (λ l. record bag { messages = l })
                (append_assoc bag.messages (retained start name bm ∷ [])
                  (map (retained start name) bms));
        fine = rest.fine;
      })

flush_topics-all :
    (S : Storage) (start : ℕ) (sts : List TopicState) (bag : Bag) (count : ℕ)
    → Accepts S
    → Flushed bag (retained_of start sts) (flush_topics S start sts bag count).1
unfolding flush_topics
flush_topics-all S start [] bag count a = record {
  stored = ap (λ l. record bag { messages = l }) (sym (append-nil bag.messages));
  fine = refl;
}
flush_topics-all S start (st ∷ sts) bag count a =
    let one = flush_buffer-all S start st.spec.topic st.buffer bag count st.written a in
    let counts = (flush_buffer S start st.spec.topic st.buffer bag count st.written).1.count in
    let rest =
      flush_topics-all S start sts
        (flush_buffer S start st.spec.topic st.buffer bag count st.written).1.bag counts a in
    rw (flush_topics, one.fine)
      (record {
        stored =
            rest.stored
            ∙ ap (λ b. with_messages b (retained_of start sts)) one.stored
            ∙ ap (λ l. record bag { messages = l })
                (append_assoc bag.messages (map (retained start st.spec.topic) st.buffer)
                  (retained_of start sts));
        fine = rest.fine;
      })

start_thread-lem :
    (p : Pipeline)
    → ((start_thread p).writer ≡ p.writer) × ((start_thread p).writer_thread_running ≡ true)
unfolding start_thread
start_thread-lem p = elim (Bool-cases p.writer_thread_running) [
  | inl e ↦ simp e (refl, refl)
  | inr e ↦ simp e (refl, refl)
]

-- The counters are no part of what a topic retains.
retained_of-uncounted :
    (start : ℕ) (sts : List TopicState)
    → retained_of start (map uncounted sts) ≡ retained_of start sts
retained_of-uncounted start [] = refl
retained_of-uncounted start (st ∷ sts) =
    ap (◌++◌ (map (retained start st.spec.topic) st.buffer)) (retained_of-uncounted start sts)

flush_retained-all :
    (S : Storage) (start : ℕ) (bag : Bag) (p : Pipeline)
    → Accepts S
    → let (q, error) = flush_retained S start bag p in
      (error ≡ none)
      × (q.writer ≡ some (with_messages bag (retained_of start p.table.topics)))
      × (q.writer_thread_running ≡ true)
unfolding flush_retained
flush_retained-all S start bag p a =
    let f = flush_topics-all S start p.table.topics bag p.messages_written a in
    rw (flush_retained, f.fine)
      (refl, (start_thread-lem _).0 ∙ ap some f.stored, (start_thread-lem _).1)

-- If the storage refuses nothing, the writer opens without an exception, with the writer thread
-- running, and its bag has been given every topic of the table, in order, and then every message
-- that the topics retain, in order and with the start of the bag as its time.
pub open_writer-Opens :
    (rmw : RmwPolicies) (S : Storage) (uri storage_id : Text) (start : ℕ) (p : Pipeline)
    → Accepts S
    → let (q, error) = open_writer rmw S uri storage_id start p in
      (error ≡ none)
      × (q.writer
          ≡ some (record {
            uri = uri;
            storage_id = storage_id;
            topics = map (metadata_of rmw) p.table.topics;
            messages = retained_of start p.table.topics;
          }))
      × (q.writer_thread_running ≡ true)
unfolding open_writer after_registering
open_writer-Opens rmw S uri storage_id start p a =
    let new : Bag = record { uri = uri; storage_id = storage_id; topics = []; messages = [] } in
    let (fine, opened, running) =
      flush_retained-all S start (with_topics new (map (metadata_of rmw) p.table.topics))
        (record p { table = record p.table { topics = map uncounted p.table.topics } }) a in
    rw (open_writer, a.opens uri storage_id, register_topics-all rmw S p.table.topics new a)
      (
        fine,
        opened
            ∙ ap
                (λ l.
                  some (with_messages (with_topics new (map (metadata_of rmw) p.table.topics)) l))
                (retained_of-uncounted start p.table.topics),
        running,
      )
