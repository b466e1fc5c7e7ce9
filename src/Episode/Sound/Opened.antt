-- ===== src/Episode/Sound/Opened.antt =====
-- `open_writer` keeps the shapes of the topic table and counts what it writes.
use rosetta_recorder_cpp.Prelude.{
  ℕ, ◌%◌, ◌^◌, ◌≡◌, refl, sym, ap, subst, ◌∙◌, Bool-cases, Option, none, some, Option-cases, inl,
  inr, List, [], ◌∷◌, ◌++◌, length, Text, All,
}
use rosetta_recorder_cpp.Contract.{RmwPolicies}
use rosetta_recorder_cpp.Topics.Tidy.{IsTidy, IsTidy-kept}
use rosetta_recorder_cpp.Topics.{BufferedMessage, TopicState}
use rosetta_recorder_cpp.Topics.Shapes.{
  shape, shapes, SameShape-refl, SameShape-trans, SameShape-topics,
}
use rosetta_recorder_cpp.Pipeline.{Pipeline, Bag, Storage, increment}
use rosetta_recorder_cpp.Pipeline.Shapes.{SameTable}
use rosetta_recorder_cpp.Pipeline.Counted.{
  Counts, Counted, Counts-some, Counts-none, increment-length,
}
use rosetta_recorder_cpp.Episode.Open.{
  metadata_of, register_topics, retained, Flush, flush_buffer, flush_topics, start_thread,
  flush_retained, after_registering, open_writer,
}

-- Registering changes the counters of the topics only, and adds no message.
record Registers (old new : List TopicState) (bag after : Bag) : Type 0 where
  same : shapes new ≡ shapes old
  tidy : All IsTidy old → All IsTidy new
  messages : after.messages ≡ bag.messages

register_topics-Registers :
    (rmw : RmwPolicies) (S : Storage) (sts : List TopicState) (bag : Bag)
    → let (rest, after, error) = register_topics rmw S sts bag in Registers sts rest bag after
unfolding register_topics
register_topics-Registers rmw S [] bag = record { same = refl; tidy = λ h. h; messages = refl }
register_topics-Registers rmw S (st ∷ sts) bag =
    elim (Option-cases (S.create_error bag (metadata_of rmw st))) [
      | inr (what, e) ↦
          rw (e, register_topics) (record { same = refl; tidy = λ h. h; messages = refl })
      | inl e ↦
          let later =
            register_topics-Registers rmw S sts
              (record bag { topics = bag.topics ++ metadata_of rmw st ∷ [] }) in
          rw (e, register_topics)
            (record {
              same = ap (◌∷◌ (shape st)) later.same;
              tidy = λ (h, hs). (IsTidy-kept st _ refl refl h, later.tidy hs);
              messages = later.messages;
            })
    ]

-- A flush whose count is that of its bag.
abbrev Tallies : Flush → Type 0
Tallies f = f.count ≡ length f.bag.messages % 2 ^ 64

flush_buffer-Tallies :
    (S : Storage) (start : ℕ) (name : Text) (bms : List BufferedMessage) (bag : Bag)
    (count written : ℕ)
    → count ≡ length bag.messages % 2 ^ 64
    → Tallies (flush_buffer S start name bms bag count written).1
unfolding flush_buffer
flush_buffer-Tallies S start name [] bag count written e = e
flush_buffer-Tallies S start name (bm ∷ bms) bag count written e =
    elim (Option-cases (S.write_error bag (retained start name bm))) [
      | inr (what, h) ↦ rw (h, flush_buffer) e
      | inl h ↦
          rw (h, flush_buffer)
            (flush_buffer-Tallies S start name bms
              (record bag { messages = bag.messages ++ retained start name bm ∷ [] })
              (increment count) (increment written)
              (increment-length count bag.messages (retained start name bm) e))
    ]

record Flushes (sts new : List TopicState) (f : Flush) : Type 0 where
  same : shapes new ≡ shapes sts
  tidy : All IsTidy sts → All IsTidy new
  tallies : Tallies f

flush_topics-Flushes :
    (S : Storage) (start : ℕ) (sts : List TopicState) (bag : Bag) (count : ℕ)
    → count ≡ length bag.messages % 2 ^ 64
    → let (new, f) = flush_topics S start sts bag count in Flushes sts new f
unfolding flush_topics
flush_topics-Flushes S start [] bag count e = record { same = refl; tidy = λ h. h; tallies = e }
flush_topics-Flushes S start (st ∷ sts) bag count e =
    let one = flush_buffer S start st.spec.topic st.buffer bag count st.written in
    let tallied = flush_buffer-Tallies S start st.spec.topic st.buffer bag count st.written e in
    elim (Option-cases one.1.error) [
      | inr (what, h) ↦
          rw (h, flush_topics)
            (record {
              same = refl;
              tidy = λ (h0, hs). (IsTidy-kept st _ refl refl h0, hs);
              tallies = tallied;
            })
      | inl h ↦
          let later = flush_topics-Flushes S start sts one.1.bag one.1.count tallied in
          rw (h, flush_topics)
            (record {
              same = ap (◌∷◌ (shape st)) later.same;
              tidy = λ (h0, hs). (IsTidy-kept st _ refl refl h0, later.tidy hs);
              tallies = later.tallies;
            })
    ]

-- The same shapes in the table, and a count that is that of the bag, which is open unless an
-- exception was thrown.
pub record Counting (p q : Pipeline) (error : Option Text) : Type 0 where
  pub same : SameTable p q
  pub counted : Counted q
  pub has_bag : error ≡ none → (bag : Bag) × (q.writer ≡ some bag)
  pub same_recording : q.is_recording ≡ p.is_recording

start_thread-Counting : (p q : Pipeline) → Counting p q none → Counting p (start_thread q) none
unfolding start_thread
start_thread-Counting p q o = elim (Bool-cases q.writer_thread_running) [
  | inl e ↦ simp e o
  | inr e ↦ simp e (record {
    same = SameShape-trans o.same (SameShape-refl q.table);
    counted = o.counted;
    has_bag = o.has_bag;
    same_recording = o.same_recording;
  })
]

flush_retained-Counting :
    (S : Storage) (start : ℕ) (bag : Bag) (p : Pipeline)
    → p.messages_written ≡ length bag.messages % 2 ^ 64
    → let (q, error) = flush_retained S start bag p in Counting p q error
unfolding flush_retained
flush_retained-Counting S start bag p e =
    let new = flush_topics S start p.table.topics bag p.messages_written in
    let q : Pipeline = record p {
      table = record p.table { topics = new.0 };
      messages_written = new.1.count;
      writer = some new.1.bag;
    } in
    elim (Option-cases new.1.error) [
      | inl h ↦ rw (h, flush_retained) (start_thread-Counting p q (opens none))
      | inr (what, h) ↦ rw (h, flush_retained) (opens (some what))
    ]
  where
    opens :
        (error : Option Text)
        → let (topics, flushed) = flush_topics S start p.table.topics bag p.messages_written in
          Counting p
            (record p {
              table = record p.table { topics = topics };
              messages_written = flushed.count;
              writer = some flushed.bag;
            })
            error
    opens error =
        let new = flush_topics S start p.table.topics bag p.messages_written in
        let flushed = flush_topics-Flushes S start p.table.topics bag p.messages_written e in
        record {
          same = SameShape-topics p.table new.0 flushed.same flushed.tidy;
          counted = Counts-some _ _ flushed.tallies;
          has_bag = λ fine. (new.1.bag, refl);
          same_recording = refl;
        }

after_registering-Counting :
    (S : Storage) (start : ℕ) (p : Pipeline) (bag : Bag) (r : List TopicState × Bag × Option Text)
    → Registers p.table.topics r.0 bag r.1
    → bag.messages ≡ []
    → p.messages_written ≡ 0
    → p.writer ≡ none
    → let (q, error) = after_registering S start p r in Counting p q error
unfolding after_registering
after_registering-Counting S start p bag (topics, after, some what) g new c w = record {
  same = SameShape-topics p.table topics g.same g.tidy;
  counted = subst (Counts p.messages_written) (sym w) (Counts-none p.messages_written);
  has_bag = λ fine. absurd (cc fine);
  same_recording = refl;
}
after_registering-Counting S start p bag (topics, after, none) g new c w =
    let q : Pipeline = record p { table = record p.table { topics = topics } } in
    let none_yet : length after.messages ≡ 0 = ap (λ l. length l) (g.messages ∙ new) in
    let opened =
      flush_retained-Counting S start after q (c ∙ ap (λ k. k % 2 ^ 64) (sym none_yet)) in
    record {
      same = SameShape-trans (SameShape-topics p.table topics g.same g.tidy) opened.same;
      counted = opened.counted;
      has_bag = opened.has_bag;
      same_recording = opened.same_recording;
    }

pub open_writer-Counting :
    (rmw : RmwPolicies) (S : Storage) (uri storage_id : Text) (start : ℕ) (p : Pipeline)
    → p.messages_written ≡ 0
    → p.writer ≡ none
    → let (q, error) = open_writer rmw S uri storage_id start p in Counting p q error
unfolding open_writer
open_writer-Counting rmw S uri storage_id start p c w =
    let bag : Bag = record { uri = uri; storage_id = storage_id; topics = []; messages = [] } in
    elim (Option-cases (S.open_error uri storage_id)) [
      | inr (what, e) ↦
          rw (e, open_writer)
            (record {
              same = SameShape-refl p.table;
              counted = subst (Counts p.messages_written) (sym w) (Counts-none p.messages_written);
              has_bag = λ fine. absurd (cc fine);
              same_recording = refl;
            })
      | inl e ↦
          rw (e, open_writer)
            (after_registering-Counting S start p bag (register_topics rmw S p.table.topics bag)
              (register_topics-Registers rmw S p.table.topics bag) refl c w)
    ]
