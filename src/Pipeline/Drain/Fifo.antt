-- ===== src/Pipeline/Drain/Fifo.antt =====
-- The writer thread stores what the executor accepted, in order, while the bag is open.
use mathlib.Core.List.{append_assoc, append-nil}
use rosetta_recorder_cpp.Prelude.{
  ℕ, zero, suc, ◌≡◌, refl, sym, ap, ◌∙◌, Text, Option, none, some, List, [], ◌∷◌, ◌++◌, map,
  get_elem?, set, arith, Option-cases, inl, inr,
}
use rosetta_recorder_cpp.Topics.{TopicState}
use rosetta_recorder_cpp.Pipeline.{Pipeline, QueuedMessage, BagMessage, Bag, Storage, increment}
use rosetta_recorder_cpp.Pipeline.Drain.{
  to_bag, count_written, write_queued, write_next, write_batch,
}

abbrev pub names : List TopicState → List Text
names = map λ t. t.spec.topic

abbrev pub bag_one : Option Text → QueuedMessage → List BagMessage
bag_one none qm = []
bag_one (some name) qm = to_bag name qm ∷ []

-- The bag messages of some queued ones; an index that names no topic gives none.
abbrev pub bagged : List Text → List QueuedMessage → List BagMessage
bagged ns [] = []
bagged ns (qm ∷ queue) = bag_one (get_elem? ns qm.topic_index) qm ++ bagged ns queue

pub bagged-append :
    (ns : List Text) (xs ys : List QueuedMessage)
    → bagged ns (xs ++ ys) ≡ bagged ns xs ++ bagged ns ys
bagged-append ns [] ys = refl
bagged-append ns (x ∷ xs) ys =
    rw (bagged-append ns xs ys) (sym (append_assoc (bag_one _ x) (bagged ns xs) (bagged ns ys)))

-- No write fails.
abbrev pub IsHealthy : Storage → Type 0
IsHealthy S = (bag : Bag) (bm : BagMessage) → S.write_error bag bm ≡ none

pub names-set :
    (xs : List TopicState) (i : ℕ) (st st' : TopicState)
    → get_elem? xs i ≡ some st
    → st'.spec.topic ≡ st.spec.topic
    → names (set xs i st') ≡ names xs
names-set [] i st st' h e = refl
names-set (x ∷ xs) zero st st' h e = ground (arith, e, h)
names-set (x ∷ xs) (suc i) st st' h e = ap (◌∷◌ x.spec.topic) (names-set xs i st st' h e)

get_elem?-names :
    (xs : List TopicState) (i : ℕ) {st : TopicState}
    → get_elem? xs i ≡ some st
    → get_elem? (names xs) i ≡ some st.spec.topic
get_elem?-names [] i h = cc
get_elem?-names (x ∷ xs) zero h = ground arith
get_elem?-names (x ∷ xs) (suc i) h = get_elem?-names xs i h

get_elem?-names-none :
    (xs : List TopicState) (i : ℕ) → get_elem? xs i ≡ none → get_elem? (names xs) i ≡ none
get_elem?-names-none [] i h = refl
get_elem?-names-none (x ∷ xs) zero h = cc
get_elem?-names-none (x ∷ xs) (suc i) h = get_elem?-names-none xs i h

names-count_written : (i : ℕ) (xs : List TopicState) → names (count_written i xs) ≡ names xs
unfolding count_written
names-count_written i xs = elim (Option-cases (get_elem? xs i)) [
  | inl e ↦ rw (e, count_written)
  | inr (st, e) ↦ rw (e, count_written) (names-set xs i st _ e refl)
]

-- After writing `batch` to `bag`, at the names `ns` and with the queue `queue`.
pub record Stores (ns : List Text) (old : List BagMessage) (batch : List QueuedMessage)
    (p q : Pipeline) : Type 0 where
  pub bag : Bag
  pub opened : q.writer ≡ some bag
  pub stored : bag.messages ≡ old ++ bagged ns batch
  pub same_names : names q.table.topics ≡ names p.table.topics
  pub same_queue : q.queue ≡ p.queue
  pub same_flush : q.flush_requested ≡ p.flush_requested

pub write_next-skip :
    (S : Storage) (qm : QueuedMessage) (p : Pipeline)
    → get_elem? p.table.topics qm.topic_index ≡ none
    → write_next S qm p ≡ p
unfolding write_next
write_next-skip S qm p e = ground arith

-- The state after a message was written.
abbrev stored_one : Bag → TopicState → QueuedMessage → Pipeline → Pipeline
stored_one bag st qm p = record p {
  writer = some (record bag { messages = bag.messages ++ to_bag st.spec.topic qm ∷ [] });
  messages_written = increment p.messages_written;
  table = record p.table { topics = count_written qm.topic_index p.table.topics };
}

write_next-store :
    (S : Storage) (qm : QueuedMessage) (p : Pipeline) (bag : Bag) (st : TopicState)
    → p.writer ≡ some bag
    → get_elem? p.table.topics qm.topic_index ≡ some st
    → S.write_error bag (to_bag st.spec.topic qm) ≡ none
    → write_next S qm p ≡ stored_one bag st qm p
unfolding write_next write_queued
write_next-store S qm p bag st w e h = ground arith

write_next-Stores :
    (S : Storage) (qm : QueuedMessage) (p : Pipeline) (bag : Bag)
    → IsHealthy S
    → p.writer ≡ some bag
    → Stores (names p.table.topics) bag.messages (qm ∷ []) p (write_next S qm p)
write_next-Stores S qm p bag healthy w =
    elim (Option-cases (get_elem? p.table.topics qm.topic_index)) [
      | inl e ↦ rw (write_next-skip S qm p e) (record {
        bag = bag;
        opened = w;
        stored =
            rw (get_elem?-names-none p.table.topics qm.topic_index e)
              (sym (append-nil bag.messages));
        same_names = refl;
        same_queue = refl;
        same_flush = refl;
      })
      | inr (st, e) ↦ rw (write_next-store S qm p bag st w e (healthy bag _)) (record {
        bag = _;
        opened = refl;
        stored = rw (get_elem?-names p.table.topics qm.topic_index e);
        same_names = names-count_written qm.topic_index p.table.topics;
        same_queue = refl;
        same_flush = refl;
      })
    ]

pub write_batch-Stores :
    (S : Storage) (batch : List QueuedMessage) (p : Pipeline) (bag : Bag)
    → IsHealthy S
    → p.writer ≡ some bag
    → Stores (names p.table.topics) bag.messages batch p (write_batch S batch p)
unfolding write_batch
write_batch-Stores S [] p bag healthy w = record {
  bag = bag;
  opened = w;
  stored = sym (append-nil bag.messages);
  same_names = refl;
  same_queue = refl;
  same_flush = refl;
}
write_batch-Stores S (qm ∷ batch) p bag healthy w =
    let one = write_next-Stores S qm p bag healthy w in
    let rest = write_batch-Stores S batch (write_next S qm p) one.bag healthy one.opened in
    record {
      bag = rest.bag;
      opened = rest.opened;
      stored = chain one rest;
      same_names = rest.same_names ∙ one.same_names;
      same_queue = rest.same_queue ∙ one.same_queue;
      same_flush = rest.same_flush ∙ one.same_flush;
    }
  where
    chain :
        (one : Stores (names p.table.topics) bag.messages (qm ∷ []) p (write_next S qm p))
        → (rest : Stores
            (names (write_next S qm p).table.topics)
            one.bag.messages
            batch
            (write_next S qm p)
            (write_batch S batch (write_next S qm p)))
        → rest.bag.messages ≡ bag.messages ++ bagged (names p.table.topics) (qm ∷ batch)
    chain one rest =
        rw (rest.stored, one.stored, one.same_names)
          (append_assoc bag.messages _ (bagged (names p.table.topics) batch)
            ∙ ap (λ l. bag.messages ++ (l ++ bagged (names p.table.topics) batch))
                (append-nil (bag_one (get_elem? (names p.table.topics) qm.topic_index) qm)))
