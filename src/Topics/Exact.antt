-- ===== src/Topics/Exact.antt =====
-- The topic table between two callbacks: exact index, each topic subscribed at its own position, and
-- the contract's topics before the discovered ones, and what each retains within its bounds.
pub mod Built
use rosetta_recorder_cpp.Prelude.{
  ℕ, zero, suc, ◌≡◌, refl, sym, ap, subst, ◌∙◌, Bool, true, false, Bool-cases, Option, none, some,
  Option-cases, inl, inr, List, [], ◌∷◌, ◌++◌, length, get_elem?, set, get_elem?-set_self,
  get_elem?-lt, get_elem?-append_cases, All, arith, if◌then◌else◌, Text, All-append,
}
use rosetta_recorder_cpp.Contract.{RecordTopic}
use rosetta_recorder_cpp.Topics.Tidy.{IsTidy, IsTidy-empty}
use rosetta_recorder_cpp.Topics.{
  Subscription, TopicState, Topics, no_topics, fresh_topic, push_topic, subscribe,
  create_subscription_for,
}
use rosetta_recorder_cpp.Topics.Indexed.{IsIndexed, no_topics-IsIndexed, append-IsIndexed}
use rosetta_recorder_cpp.Topics.Shapes.{
  shape, shapes, SameShape, SameShape-refl, SameShape-trans, SameShape-topics, shapes-at,
  shapes-set, set-set,
}
use rosetta_recorder_cpp.Topics.Discovery.{
  Graph, is_known, add_discovered, add_all_discovered, find_wanted, discover_topics,
  destroy_discovered_subscriptions,
}
use rosetta_recorder_cpp.Topics.Survivors.{keep}
use rosetta_recorder_cpp.Topics.Reindex.{destroy-IsIndexed}
use rosetta_recorder_cpp.Topics.Episode.{IsDiscovered, subscribed_last}

-- What `create_subscription_for` makes for the topic at a position.
abbrev pub subscription : ℕ → RecordTopic → Subscription
subscription i spec = record {
  topic_name = spec.topic;
  topic_type = spec.type;
  requested = spec.qos;
  captured = i;
}

-- Behind a discovered topic there are only discovered ones.
abbrev pub Ordered : List TopicState → Type 0
Ordered [] = Unit
Ordered (t ∷ ts) = (t.discovered ≡ true → All IsDiscovered ts) × Ordered ts

abbrev pub Placed : List TopicState → Type 0
Placed ts =
    (i : ℕ) (t : TopicState) → get_elem? ts i ≡ some t → t.sub ≡ some (subscription i t.spec)

pub record IsExact (ts : Topics) : Type 0 where
  pub indexed : IsIndexed ts
  pub placed : Placed ts.topics
  pub ordered : Ordered ts.topics
  pub tidy : All IsTidy ts.topics

pub no_topics-IsExact : IsExact no_topics
no_topics-IsExact = record {
  indexed = no_topics-IsIndexed;
  placed = λ i t at. cc;
  ordered = tt;
  tidy = tt;
}

IsDiscovered-shapes :
    (xs ys : List TopicState) → shapes ys ≡ shapes xs → All IsDiscovered xs → All IsDiscovered ys
IsDiscovered-shapes [] [] e a = tt
IsDiscovered-shapes [] (y ∷ ys) e a = cc
IsDiscovered-shapes (x ∷ xs) [] e a = cc
IsDiscovered-shapes (x ∷ xs) (y ∷ ys) e (a, rest) = (cc, IsDiscovered-shapes xs ys (cc) rest)

Ordered-shapes : (xs ys : List TopicState) → shapes ys ≡ shapes xs → Ordered xs → Ordered ys
Ordered-shapes [] [] e o = tt
Ordered-shapes [] (y ∷ ys) e o = cc
Ordered-shapes (x ∷ xs) [] e o = cc
Ordered-shapes (x ∷ xs) (y ∷ ys) e (o, os) =
    (λ d. IsDiscovered-shapes xs ys (cc) (o (cc)), Ordered-shapes xs ys (cc) os)

pub SameShape-IsExact : {old new : Topics} → SameShape old new → IsExact old → IsExact new
SameShape-IsExact {old} {new} s v = record {
  indexed = record {
    finds = λ i t at.
        let (u, at', e) = shapes-at old.topics new.topics i t s.same_shapes at in
        cc (v.indexed.finds i u at', s.same_index, e);
    found = λ name i h.
        let (t, at, named) = v.indexed.found name i (ap (λ f. f name) (sym s.same_index) ∙ h) in
        let (u, at', e) = shapes-at new.topics old.topics i t (sym s.same_shapes) at in
        (u, at', cc);
  };
  placed = λ i t at.
      let (u, at', e) = shapes-at old.topics new.topics i t s.same_shapes at in
      cc (v.placed i u at', e);
  ordered = Ordered-shapes old.topics new.topics s.same_shapes v.ordered;
  tidy = s.tidy v.tidy;
}

Ordered-append :
    (xs : List TopicState) (new : TopicState)
    → new.discovered ≡ true
    → Ordered xs
    → Ordered (xs ++ new ∷ [])
Ordered-append [] new d o = (λ e. tt, tt)
Ordered-append (x ∷ xs) new d (o, os) = (λ e. all_append xs (o e), Ordered-append xs new d os)
  where
    all_append : (ys : List TopicState) → All IsDiscovered ys → All IsDiscovered (ys ++ new ∷ [])
    all_append [] a = (d, tt)
    all_append (y ∷ ys) (a, rest) = (a, all_append ys rest)

add_discovered-IsExact :
    (t : RecordTopic) (ts : Topics) → IsExact ts → IsExact (add_discovered t ts)
unfolding add_discovered push_topic subscribe
add_discovered-IsExact t ts v = elim (Option-cases (ts.topic_index t.topic)) [
  | inr (i, known) ↦ rw (known, is_known, add_discovered) v
  | inl fresh ↦
      rw (fresh, is_known, add_discovered)
        (rw (subscribed_last t ts) (record {
          indexed = append-IsIndexed entry ts fresh v.indexed;
          placed = λ i u at. elim (get_elem?-append_cases ts.topics entry i at) [
            | inl old ↦ v.placed i u old
            | inr (e, last) ↦ cc
          ];
          ordered = Ordered-append ts.topics entry refl v.ordered;
          tidy = All-append IsTidy ts.topics (entry ∷ []) v.tidy (IsTidy-empty entry refl, tt);
        }))
]
  where
    entry : TopicState
    entry = subscribe (length ts.topics) (fresh_topic true t)

add_all_discovered-IsExact :
    (found : List RecordTopic) (ts : Topics) → IsExact ts → IsExact (add_all_discovered found ts)
unfolding add_all_discovered
add_all_discovered-IsExact [] ts v = v
add_all_discovered-IsExact (t ∷ found) ts v =
    add_all_discovered-IsExact found (add_discovered t ts) (add_discovered-IsExact t ts v)

pub discover_topics-IsExact :
    (g : Graph) (ts : Topics) → IsExact ts → IsExact (discover_topics g ts)
unfolding discover_topics
discover_topics-IsExact g ts v =
    add_all_discovered-IsExact (find_wanted g ts g.names_and_types) ts v

keep-none : (ts : List TopicState) → All IsDiscovered ts → keep ts ≡ []
keep-none [] a = refl
keep-none (t ∷ ts) (a, rest) = rw a (keep-none ts rest)

-- The topics that are kept are where they were.
keep-at :
    (ts : List TopicState) (i : ℕ) (t : TopicState)
    → Ordered ts
    → get_elem? (keep ts) i ≡ some t
    → get_elem? ts i ≡ some t
keep-at [] i t o at = cc
keep-at (x ∷ xs) i t (o, os) at = elim (Bool-cases x.discovered) [
  | inl d ↦ cc (keep-none xs (o d), d, at)
  | inr d ↦ kept (λ j h. keep-at xs j t os h) i (simp d at at)
]
  where
    kept :
        ((j : ℕ) → get_elem? (keep xs) j ≡ some t → get_elem? xs j ≡ some t)
        → (j : ℕ) → get_elem? (x ∷ keep xs) j ≡ some t
        → get_elem? (x ∷ xs) j ≡ some t
    kept later zero h = h
    kept later (suc j) h = later j h

keep-Ordered : (ts : List TopicState) → Ordered ts → Ordered (keep ts)
keep-Ordered [] o = tt
keep-Ordered (t ∷ ts) (o, os) = elim (Bool-cases t.discovered) [
  | inl d ↦ rw d (keep-Ordered ts os)
  | inr d ↦ simp d (λ e. cc, keep-Ordered ts os)
]

keep-IsTidy : (ts : List TopicState) → All IsTidy ts → All IsTidy (keep ts)
keep-IsTidy [] h = tt
keep-IsTidy (t ∷ ts) (h, hs) = elim (Bool-cases t.discovered) [
  | inl d ↦ rw d (keep-IsTidy ts hs)
  | inr d ↦ simp d (h, keep-IsTidy ts hs)
]

pub destroy-IsExact : (ts : Topics) → IsExact ts → IsExact (destroy_discovered_subscriptions ts)
destroy-IsExact ts v =
    let (kept, indexed) = destroy-IsIndexed ts v.indexed in
    record {
      indexed = indexed;
      placed = λ i t at.
          v.placed i t
            (keep-at ts.topics i t v.ordered (subst (λ l. get_elem? l i ≡ some t) kept at));
      ordered = subst Ordered (sym kept) (keep-Ordered ts.topics v.ordered);
      tidy = subst (All IsTidy) (sym kept) (keep-IsTidy ts.topics v.tidy);
    }
