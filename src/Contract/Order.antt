-- ===== src/Contract/Order.antt =====
-- The order of a contract's topics, which fixes the topic ids of every bag.
use rosetta_recorder_cpp.Floats.{Floats}
use rosetta_recorder_cpp.Prelude.{
  ℕ, zero, suc, ◌≡◌, refl, Text, codes, true, false, not, ◌&&◌, ◌||◌, List, [], ◌∷◌, ◌++◌, length,
  Outcome, ok, Post, Post-weaken, Post-ok, Post-bind, Post-tt, Post-eq, Post-eq-ok, Bool-cases, inl,
  inr, arith, ◌>>=◌, ◌⊎◌, sym, ◌∙◌, ap,
}
use rosetta_recorder_cpp.Contract.{RecordTopic, RmwPolicies, Failure}
use rosetta_recorder_cpp.Contract.Yaml.{Yaml}
use rosetta_recorder_cpp.Contract.Scalars.{at}
use rosetta_recorder_cpp.Contract.Sections.{
  push_each, collect, observation_item, action_item, task_item, parse_adjunct,
  collect_observation_like, collect_actions, collect_tasks,
}
use rosetta_recorder_cpp.Contract.Load.{observations, collect_adjunct, read_topics}
use mathlib.Core.List.{append-nil, append_assoc}

-- `ts` is what `item` reads at `i`, `i + 1` and so on.
abbrev pub ReadsFrom : (ℕ → Outcome Failure RecordTopic) → ℕ → List RecordTopic → Type 0
ReadsFrom item i [] = Unit {0}
ReadsFrom item i (t ∷ ts) = (item i ≡ ok t) × ReadsFrom item (suc i) ts

-- `out` was extended by the topics of `rounds` items from the `i`-th on.
abbrev pub Extends :
    (ℕ → Outcome Failure RecordTopic) → ℕ → ℕ → List RecordTopic → List RecordTopic → Type 0
Extends item i rounds out res =
    (ts : List RecordTopic) × (res ≡ out ++ ts) × (length ts ≡ rounds) × ReadsFrom item i ts

push_each-Extends :
    (item : ℕ → Outcome Failure RecordTopic) (rounds i : ℕ) (out : List RecordTopic)
    → Post (Extends item i rounds out) (λ _. Unit {0}) (push_each item rounds i out)
unfolding push_each
push_each-Extends item zero i out = Post-ok _ ([], sym (append-nil out), refl, tt)
push_each-Extends item (suc rounds) i out = Post-bind (Post-eq (Post-tt (item i) (λ _. tt))) λ t e.
    Post-weaken (push_each-Extends item rounds (suc i) (out ++ t ∷ []))
      (λ res (ts, p, n, r). (t ∷ ts, p ∙ append_assoc out (t ∷ []) ts, ap suc n, (e, r)))
      (λ _ _. tt)

module _ (F : Floats) (Y : Yaml F.Double) (rmw : RmwPolicies) where
  -- The topics of one section: none if `list` is no sequence, else one for each element in turn.
  abbrev pub IsSection :
      (Y.Node → ℕ → Outcome Failure RecordTopic) → Y.Node → List RecordTopic → Type 0
  IsSection item list ts =
      ((Y.is_defined list && Y.is_sequence list ≡ false) × (ts ≡ []))
      ⊎ ((Y.is_defined list && Y.is_sequence list ≡ true)
          × (length ts ≡ Y.size list)
          × ReadsFrom (item list) 0 ts)

  -- The topics of `adjunct`, which may also be a single mapping.
  abbrev pub IsAdjunct : Y.Node → List RecordTopic → Type 0
  IsAdjunct adj ts =
      ((Y.is_defined adj && not (Y.is_null adj) ≡ false) × (ts ≡ []))
      ⊎ ((Y.is_defined adj && not (Y.is_null adj) ≡ true)
          × (Y.is_sequence adj ≡ true)
          × (length ts ≡ Y.size adj)
          × ReadsFrom (λ i. parse_adjunct Y rmw (Y.elem_at adj i) i) 0 ts)
      ⊎ ((Y.is_defined adj && not (Y.is_null adj) ≡ true)
          × (Y.is_sequence adj ≡ false)
          × (t : RecordTopic) × (ts ≡ t ∷ [])
          × (parse_adjunct Y rmw adj 0 ≡ ok t))

  -- The section under `key` of the root.
  abbrev pub Section :
      Y.Node → Text → (Y.Node → ℕ → Outcome Failure RecordTopic) → List RecordTopic → Type 0
  Section root key item ts = (list : Y.Node) × (at Y root key ≡ ok list) × IsSection item list ts

  Appends : (List RecordTopic → Type 0) → List RecordTopic → List RecordTopic → Type 0
  Appends P out res = (ts : List RecordTopic) × (res ≡ out ++ ts) × P ts

  collect-IsSection :
      (item : Y.Node → ℕ → Outcome Failure RecordTopic) (list : Y.Node) (out : List RecordTopic)
      → Post (Appends (IsSection item list) out) (λ _. Unit {0}) (collect Y rmw item list out)
  unfolding collect Appends
  collect-IsSection item list out =
      elim (Bool-cases (not (Y.is_defined list) || not (Y.is_sequence list))) [
        | inl e ↦ rw e (Post-ok _ ([], sym (append-nil out), inl (ground (arith, e), refl)))
        | inr e ↦ rw e (
            Post-weaken (push_each-Extends (item list) (Y.size list) 0 out)
              (λ res (ts, p, n, r). (ts, p, inr (ground (arith, e), n, r))) (λ _ _. tt))
      ]

  Section-Appends :
      (root : Y.Node) (key : Text) (item : Y.Node → ℕ → Outcome Failure RecordTopic)
      (out : List RecordTopic)
      → Post
          (Appends (Section root key item) out)
          (λ _. Unit {0})
          (at Y root key >>= λ list. collect Y rmw item list out)
  unfolding Appends
  Section-Appends root key item out =
      Post-bind (Post-eq (Post-tt (at Y root key) (λ _. tt))) λ list e.
        Post-weaken (collect-IsSection item list out) (λ res (ts, p, s). (ts, p, (list, e, s)))
          (λ _ _. tt)

  IsAdjunct-Appends :
      (adj : Y.Node) (out : List RecordTopic)
      → Post (Appends (IsAdjunct adj) out) (λ _. Unit {0}) (collect_adjunct F Y rmw adj out)
  unfolding collect_adjunct Appends
  IsAdjunct-Appends adj out = elim (Bool-cases (Y.is_defined adj && not (Y.is_null adj))) [
    | inr e ↦ rw e (Post-ok _ ([], sym (append-nil out), inl (e, refl)))
    | inl e ↦ elim (Bool-cases (Y.is_sequence adj)) [
      | inl s ↦
          rw (e, s)
            (Post-weaken (push_each-Extends _ (Y.size adj) 0 out)
              (λ res (ts, p, n, r). (ts, p, inr (inl (e, s, n, r)))) (λ _ _. tt))
      | inr s ↦
          rw (e, s)
            (Post-weaken (push_each-Extends _ 1 0 out)
              (λ res (ts, p, n, r). (ts, p, inr (inr (single e s ts n r)))) (λ _ _. tt))
    ]
  ]
    where
      single :
          Y.is_defined adj && not (Y.is_null adj) ≡ true
          → Y.is_sequence adj ≡ false
          → (ts : List RecordTopic) → length ts ≡ 1
          → ReadsFrom (λ i. parse_adjunct Y rmw adj i) 0 ts
          → (Y.is_defined adj && not (Y.is_null adj) ≡ true)
            × (Y.is_sequence adj ≡ false)
            × (t : RecordTopic) × (ts ≡ t ∷ [])
            × (parse_adjunct Y rmw adj 0 ≡ ok t)
      single e s [] n r = absurd (omega arith)
      single e s (t ∷ []) n r = (e, s, t, refl, r.0)
      single e s (t ∷ u ∷ ts) n r = absurd (omega arith)

  -- The topics of a contract, section by section.
  pub record Ordered (root : Y.Node) (topics : List RecordTopic) : Type 0 where
    pub observed : List RecordTopic
    pub actions : List RecordTopic
    pub rewards : List RecordTopic
    pub signals : List RecordTopic
    pub info : List RecordTopic
    pub complementary : List RecordTopic
    pub tasks : List RecordTopic
    pub adjunct : List RecordTopic
    pub from_observations :
        Section root (codes "observations") (observation_item Y rmw (codes "observations")) observed
    pub from_actions : Section root (codes "actions") (action_item Y rmw) actions
    pub from_rewards :
        Section root (codes "rewards") (observation_item Y rmw (codes "rewards")) rewards
    pub from_signals :
        Section root (codes "signals") (observation_item Y rmw (codes "signals")) signals
    pub from_info : Section root (codes "info") (observation_item Y rmw (codes "info")) info
    pub from_complementary :
        Section root
          (codes "complementary_data")
          (observation_item Y rmw (codes "complementary_data"))
          complementary
    pub from_tasks : Section root (codes "tasks") (task_item Y rmw) tasks
    pub from_adjunct :
        (adj : Y.Node) × (at Y root (codes "adjunct") ≡ ok adj) × IsAdjunct adj adjunct
    pub in_order :
        topics
        ≡ observed ++ actions ++ rewards ++ signals ++ info ++ complementary ++ tasks ++ adjunct

  -- The topics that are read stand in the order observations, actions, rewards, signals, info,
  -- complementary data, tasks, adjunct, and each section's in the order of its items: one topic
  -- for each item, none left out and none added.
  pub read_topics-Ordered :
      (root : Y.Node) {topics : List RecordTopic}
      → read_topics F Y rmw root ≡ ok topics
      → Ordered root topics
  unfolding read_topics observations collect_observation_like collect_actions collect_tasks Appends
  read_topics-Ordered root {topics} reads =
      Post-eq-ok {P = Ordered root} {X = λ _. Unit {0}}
        (Post-bind (Section-Appends root (codes "observations") _ []) λ _ (os, po, so).
          Post-bind (lookup (codes "actions")) λ al ea.
            Post-bind (collect-IsSection _ al _) λ _ (as', pa, sa).
              Post-bind (Section-Appends root (codes "rewards") _ _) λ _ (rs, pr, sr).
                Post-bind (Section-Appends root (codes "signals") _ _) λ _ (ss, ps, sS).
                  Post-bind (Section-Appends root (codes "info") _ _) λ _ (is, pi, si).
                    Post-bind (Section-Appends root (codes "complementary_data") _ _)
                      λ _ (cs, pc, sc). Post-bind (lookup (codes "tasks")) λ tl et.
                        Post-bind (collect-IsSection _ tl _) λ _ (ts, pt, st).
                          Post-bind (lookup (codes "adjunct")) λ jl ej.
                            Post-weaken (IsAdjunct-Appends jl _)
                              (λ res (js, pj, sj). record {
                                observed = os;
                                actions = as';
                                rewards = rs;
                                signals = ss;
                                info = is;
                                complementary = cs;
                                tasks = ts;
                                adjunct = js;
                                from_observations = so;
                                from_actions = (al, ea, sa);
                                from_rewards = sr;
                                from_signals = sS;
                                from_info = si;
                                from_complementary = sc;
                                from_tasks = (tl, et, st);
                                from_adjunct = (jl, ej, sj);
                                in_order = cc;
                              })
                              (λ _ _. tt))
        reads
    where
      lookup : (key : Text) → Post (λ list. at Y root key ≡ ok list) (λ _. Unit {0}) (at Y root key)
      lookup key = Post-eq (Post-tt (at Y root key) (λ _. tt))
