-- ===== src/Topics/Episode.antt =====
-- What an episode's discovery leaves behind: nothing.
use mathlib.Core.List.{append_assoc, append-nil}
use rosetta_recorder_cpp.Prelude.{
  ℕ, ◌≡◌, refl, sym, ap, subst, ◌∙◌, inl, inr, Text, true, false, none, some, List, [], ◌∷◌, ◌++◌,
  length, get_elem?, set, All, All-append, arith, get_elem?-append_last, Option-cases,
}
use rosetta_recorder_cpp.Contract.{RecordTopic}
use rosetta_recorder_cpp.Topics.{
  TopicState, Topics, fresh_topic, push_topic, subscribe, create_subscription_for,
}
use rosetta_recorder_cpp.Topics.Discovery.{
  Graph, is_known, add_discovered, add_all_discovered, find_wanted, discover_topics,
  destroy_discovered_subscriptions,
}
use rosetta_recorder_cpp.Topics.Indexed.{IsIndexed, append-IsIndexed}
use rosetta_recorder_cpp.Topics.Survivors.{keep, keep-append}
use rosetta_recorder_cpp.Topics.Reindex.{destroy-IsIndexed}

abbrev pub IsDiscovered : TopicState → Type 0
IsDiscovered t = t.discovered ≡ true

abbrev pub IsFromContract : TopicState → Type 0
IsFromContract t = t.discovered ≡ false

-- `ts` has `new` behind the topics of `old`, and all of `new` are discovered.
record Grows (old ts : Topics) : Type 0 where
  new : List TopicState
  extends : ts.topics ≡ old.topics ++ new
  discovered : All IsDiscovered new

set-append_last {ℓ} :
    {A : Type ℓ} (xs : List A) (x y : A) → set (xs ++ x ∷ []) (length xs) y ≡ xs ++ y ∷ []
set-append_last [] x y = refl
set-append_last (z ∷ xs) x y = ap (◌∷◌ z) (set-append_last xs x y)

-- Subscribing changes neither the names nor the index.
pub subscribed_last :
    (t : RecordTopic) (ts : Topics)
    → create_subscription_for (length ts.topics) (push_topic true t ts)
      ≡ record (push_topic true t ts) {
        topics = ts.topics ++ subscribe (length ts.topics) (fresh_topic true t) ∷ [];
      }
unfolding create_subscription_for push_topic
subscribed_last t ts =
    rw (get_elem?-append_last ts.topics (fresh_topic true t), create_subscription_for)
      (rw (set-append_last ts.topics (fresh_topic true t)))

-- One discovered topic more, unless its name is known.
add_discovered-Grows :
    (t : RecordTopic) (old ts : Topics)
    → Grows old ts
    → IsIndexed ts
    → Grows old (add_discovered t ts) × IsIndexed (add_discovered t ts)
unfolding add_discovered push_topic subscribe
add_discovered-Grows t old ts g v = elim (Option-cases (ts.topic_index t.topic)) [
  | inr (i, known) ↦ rw (known, is_known, add_discovered) (g, v)
  | inl fresh ↦
      rw (fresh, is_known, add_discovered) (rw (subscribed_last t ts) (grown, indexed fresh))
]
  where
    entry : TopicState
    entry = subscribe (length ts.topics) (fresh_topic true t)

    grown : Grows old (record (push_topic true t ts) { topics = ts.topics ++ entry ∷ [] })
    grown = record {
      new = g.new ++ entry ∷ [];
      extends = ap (λ l. l ++ entry ∷ []) g.extends ∙ append_assoc old.topics g.new (entry ∷ []);
      discovered = All-append IsDiscovered g.new (entry ∷ []) g.discovered (refl, tt);
    }

    indexed :
        ts.topic_index t.topic ≡ none
        → IsIndexed (record (push_topic true t ts) { topics = ts.topics ++ entry ∷ [] })
    indexed fresh = append-IsIndexed entry ts fresh v

add_all_discovered-Grows :
    (found : List RecordTopic) (old ts : Topics)
    → Grows old ts
    → IsIndexed ts
    → Grows old (add_all_discovered found ts) × IsIndexed (add_all_discovered found ts)
unfolding add_all_discovered
add_all_discovered-Grows [] old ts g v = (g, v)
add_all_discovered-Grows (t ∷ found) old ts g v =
    let (g', v') = add_discovered-Grows t old ts g v in
    add_all_discovered-Grows found old (add_discovered t ts) g' v'

keep-IsFromContract : (ts : List TopicState) → All IsFromContract ts → keep ts ≡ ts
keep-IsFromContract [] a = refl
keep-IsFromContract (t ∷ ts) a = ground (arith, keep-IsFromContract ts a.1)

keep-IsDiscovered : (ts : List TopicState) → All IsDiscovered ts → keep ts ≡ []
keep-IsDiscovered [] a = refl
keep-IsDiscovered (t ∷ ts) a = ground (arith, keep-IsDiscovered ts a.1)

-- Two exact indices of one table answer alike.
IsIndexed-unique :
    (a b : Topics) (name : Text)
    → IsIndexed a
    → IsIndexed b
    → a.topics ≡ b.topics
    → a.topic_index name ≡ b.topic_index name
IsIndexed-unique a b name va vb e = elim (Option-cases (a.topic_index name)) [
  | inr (i, at) ↦ at ∙ sym (transfer a b i va vb e at)
  | inl absent ↦ elim (Option-cases (b.topic_index name)) [
    | inl absent' ↦ absent ∙ sym absent'
    | inr (j, at) ↦ absurd (cc (transfer b a j vb va (sym e) at))
  ]
]
  where
    transfer :
        (x y : Topics) (i : ℕ)
        → IsIndexed x
        → IsIndexed y
        → x.topics ≡ y.topics
        → x.topic_index name ≡ some i
        → y.topic_index name ≡ some i
    transfer x y i vx vy e at =
        let (t, here, named) = vx.found name i at in
        subst (λ n. y.topic_index n ≡ some i) named
          (vy.finds i t (subst (λ l. get_elem? l i ≡ some t) e here))

-- For a table of contract topics with an exact index, whatever the graph offers, the table after
-- discovery and the teardown at the end of the episode is the table before: the same topics with the same state at the same positions, so the index
-- that each surviving callback captured is still its own, and every name is found where it was.
pub discover-destroy :
    (g : Graph) (ts : Topics)
    → All IsFromContract ts.topics
    → IsIndexed ts
    → ((destroy_discovered_subscriptions (discover_topics g ts)).topics ≡ ts.topics)
      × ((name : Text)
          → (destroy_discovered_subscriptions (discover_topics g ts)).topic_index name
            ≡ ts.topic_index name)
unfolding discover_topics
discover-destroy g ts own v =
    let start : Grows ts ts = record {
      new = [];
      extends = sym (append-nil ts.topics);
      discovered = tt;
    } in
    let (grown, indexed) =
      add_all_discovered-Grows (find_wanted g ts g.names_and_types) ts ts start v in
    let (kept, indexed') = destroy-IsIndexed _ indexed in
    let same = kept ∙ restored grown in (same, λ name. IsIndexed-unique _ ts name indexed' v same)
  where
    restored : {now : Topics} → Grows ts now → keep now.topics ≡ ts.topics
    restored g =
        rw
          (
            g.extends,
            keep-append ts.topics g.new,
            keep-IsFromContract ts.topics own,
            keep-IsDiscovered g.new g.discovered,
          )
          (append-nil ts.topics)
