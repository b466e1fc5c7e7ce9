-- ===== src/Contract/Sound.antt =====
-- What the readers of a section return, and what they throw.
use rosetta_recorder_cpp.Prelude.{
  ℕ, zero, suc, ◌+◌, ◌<◌, ◌≡◌, refl, ℤ, pos, is_non_positive, Text, codes, is_empty, Bool, true,
  false, not, ◌&&◌, ◌||◌, List, [], ◌∷◌, ◌++◌, if◌then◌else◌, Outcome, ok, Post, Post-ok,
  Post-throw, Post-if, Post-bind, Post-throw_if, Bool-cases, inl, inr, All, All-append, arith,
  text_eq, ◌==◌,
}
use rosetta_recorder_cpp.Contract.{
  BufferingStrategy, no_buffer, accumulate, resubscribe_on_start, QosSpec, RecordTopic, RmwPolicies,
  ContractError, Failure, invalid,
}
use rosetta_recorder_cpp.Contract.Yaml.{Yaml}
use rosetta_recorder_cpp.Contract.Scalars.{at, require_str, choice, depth_of, qos_of_map, parse_qos}
use rosetta_recorder_cpp.Contract.Sections.{
  push_each, observation_item, action_item, task_item, parse_adjunct, named_strategy,
  explicit_strategy, collect, is_buffering, adjunct_strategy,
}

-- What holds of the QoS of every topic that a contract names.
pub record IsContractQos (q : QosSpec) : Type 0 where
  pub positive : is_non_positive q.depth ≡ false
  pub plain : q.match_publisher_profile ≡ false

-- A topic that the recorder can subscribe to: it has a name and a type, keeps at least one
-- message, and is buffered only if it is latched.
pub record IsSound (t : RecordTopic) : Type 0 where
  pub named : is_empty t.topic ≡ false
  pub typed : is_empty t.type ≡ false
  pub qos : IsContractQos t.qos
  pub latched : is_buffering t.strategy && not t.qos.transient_local ≡ false

depth_rule : (d : ℤ) → is_non_positive (if is_non_positive d then pos 10 else d) ≡ false
depth_rule d = elim (Bool-cases (is_non_positive d)) [ inl e ↦ rw e | inr e ↦ rw e e ]

pub push_each-Post :
    (X : Failure → Type 0) (P : RecordTopic → Type 0) (item : ℕ → Outcome Failure RecordTopic)
    (rounds i : ℕ) (out : List RecordTopic)
    → ((k : ℕ) → k < i + rounds → Post P X (item k))
    → All P out
    → Post (All P) X (push_each item rounds i out)
unfolding push_each
push_each-Post X P item zero i out h done = Post-ok _ done
push_each-Post X P item (suc rounds) i out h done = Post-bind (h i (omega arith)) λ t p.
    push_each-Post X P item rounds (suc i) (out ++ t ∷ []) (λ k lt. h k (omega arith))
      (All-append P out (t ∷ []) done (p, tt))

module _ {Double : Type 0} (Y : Yaml Double) (rmw : RmwPolicies) (X : Failure → Type 0)
    (own : (c : ContractError) → X (invalid c)) where
  -- The members of `n` can be looked up, or the exception is one of `X`.
  abbrev pub Reads : Y.Node → Type 0
  Reads n = (key : Text) → Post (λ _. Unit {0}) X (at Y n key)

  require_str-Post :
      (n : Y.Node) (field ctx : Text)
      → Reads n
      → Post (λ s. is_empty s ≡ false) X (require_str Y n field ctx)
  unfolding require_str
  require_str-Post n field ctx r =
      Post-bind (r field)
        λ m _. Post-throw_if _ _ _ (own _) λ _. Post-throw_if _ _ _ (own _) λ e. Post-ok _ e

  choice-Post :
      (n : Y.Node) (key fallback : Text) (test : Text → Bool) (old : Bool)
      → Reads n
      → Post (λ _. Unit {0}) X (choice Y n key fallback test old)
  unfolding choice
  choice-Post n key fallback test old r = Post-bind (r key) λ m _. Post-ok _ tt

  depth_of-Post : (n : Y.Node) (old : ℤ) → Reads n → Post (λ _. Unit {0}) X (depth_of Y n old)
  unfolding depth_of
  depth_of-Post n old r = Post-bind (r _) λ m _. Post-ok _ tt

  qos_of_map-Post : (n : Y.Node) → Reads n → Post IsContractQos X (qos_of_map Y n)
  unfolding qos_of_map
  qos_of_map-Post n r = Post-bind (choice-Post n _ _ _ _ r) λ reliable _.
      Post-bind (choice-Post n _ _ _ _ r) λ keep_last _.
        Post-bind (choice-Post n _ _ _ _ r) λ transient_local _.
          Post-bind (depth_of-Post n _ r)
            λ depth _. Post-ok _ (record { positive = depth_rule depth; plain = refl })

  -- A node is read as it is only if it is a mapping.
  abbrev pub MapsRead : Type 0
  MapsRead = (n : Y.Node) → Y.is_map n ≡ true → Reads n

  parse_qos-Post : (n : Y.Node) → MapsRead → Post IsContractQos X (parse_qos Y rmw n)
  unfolding parse_qos
  parse_qos-Post n maps =
      elim (Bool-cases (not (Y.is_defined n) || not (Y.is_map n) || Y.size n == 0)) [
        | inl e ↦ rw e (Post-ok _ (record { positive = refl; plain = refl }))
        | inr e ↦ rw e (qos_of_map-Post n (maps n (ground (arith, e))))
      ]

  pub observation_item-Post :
      (section : Text) (list : Y.Node) (i : ℕ)
      → MapsRead
      → Post IsSound X (observation_item Y rmw section list i)
  unfolding observation_item
  observation_item-Post section list i maps = Post-throw_if _ _ _ (own _) λ e.
      let reads = maps (Y.elem_at list i) (ground (arith, e)) in
      Post-bind (require_str-Post _ _ _ reads) λ topic named.
        Post-bind (require_str-Post _ _ _ reads) λ type typed. Post-bind (reads _) λ q _.
          Post-bind (parse_qos-Post q maps) λ qos good.
            Post-ok _ (record { named = named; typed = typed; qos = good; latched = refl })

  pub action_item-Post :
      (list : Y.Node) (i : ℕ) → MapsRead → Post IsSound X (action_item Y rmw list i)
  unfolding action_item
  action_item-Post list i maps = Post-throw_if _ _ _ (own _) λ e.
      Post-bind (maps (Y.elem_at list i) (ground (arith, e)) _) λ publish _.
        Post-throw_if _ _ _ (own _) λ e'.
          let reads = maps publish (ground (arith, e')) in
          Post-bind (require_str-Post _ _ _ reads) λ topic named.
            Post-bind (require_str-Post _ _ _ reads) λ type typed. Post-bind (reads _) λ q _.
              Post-bind (parse_qos-Post q maps) λ qos good.
                Post-ok _ (record { named = named; typed = typed; qos = good; latched = refl })

  -- A task is not tested, so that it can be read is a premise of its own.
  pub task_item-Post :
      (list : Y.Node) (i : ℕ)
      → MapsRead
      → Reads (Y.elem_at list i)
      → Post IsSound X (task_item Y rmw list i)
  unfolding task_item
  task_item-Post list i maps reads = Post-bind (require_str-Post _ _ _ reads) λ topic named.
      Post-bind (require_str-Post _ _ _ reads) λ type typed. Post-bind (reads _) λ q _.
        Post-bind (parse_qos-Post q maps) λ qos good.
          Post-ok _ (record { named = named; typed = typed; qos = good; latched = refl })

  abbrev Latched : QosSpec → BufferingStrategy → Type 0
  Latched qos strategy = is_buffering strategy && not qos.transient_local ≡ false

  named_strategy-Post : (s ctx : Text) → Post (λ _. Unit {0}) X (named_strategy s ctx)
  unfolding named_strategy
  named_strategy-Post s ctx =
      Post-if (text_eq s (codes "no_buffer")) (ok no_buffer) _ (λ _. Post-ok _ tt)
        λ _.
          Post-if (text_eq s (codes "accumulate")) (ok accumulate) _ (λ _. Post-ok _ tt)
            λ _.
              Post-if (text_eq s (codes "resubscribe_on_start")) (ok resubscribe_on_start) _
                (λ _. Post-ok _ tt) λ _. Post-throw _ (own _)

  explicit_strategy-Post :
      (s ctx : Text) (qos : QosSpec) → Post (Latched qos) X (explicit_strategy s ctx qos)
  unfolding explicit_strategy
  explicit_strategy-Post s ctx qos =
      Post-bind (named_strategy-Post s ctx)
        λ strategy _. Post-throw_if _ _ _ (own _) λ e. Post-ok _ e

  adjunct_strategy-Post :
      (n : Y.Node) (ctx : Text) (qos : QosSpec)
      → Post (Latched qos) X (adjunct_strategy Y rmw n ctx qos)
  unfolding adjunct_strategy
  adjunct_strategy-Post n ctx qos = elim (Bool-cases (Y.is_defined n && not (Y.is_null n))) [
    | inl e ↦ rw e (explicit_strategy-Post _ ctx qos)
    | inr e ↦ rw e (Post-ok _ (automatic qos.transient_local))
  ]
    where
      automatic : (b : Bool) → is_buffering (if b then accumulate else no_buffer) && not b ≡ false
      automatic true = refl
      automatic false = refl

  pub parse_adjunct-Post :
      (n : Y.Node) (i : ℕ) → MapsRead → Post IsSound X (parse_adjunct Y rmw n i)
  unfolding parse_adjunct
  parse_adjunct-Post n i maps = Post-throw_if _ _ _ (own _) λ e.
      let reads = maps n (ground (arith, e)) in
      Post-bind (require_str-Post _ _ _ reads) λ topic named.
        Post-bind (require_str-Post _ _ _ reads) λ type typed. Post-bind (reads _) λ q _.
          Post-bind (parse_qos-Post q maps) λ qos good. Post-bind (reads _) λ b _.
            Post-bind (adjunct_strategy-Post b _ qos) λ strategy latched.
              Post-ok _ (record { named = named; typed = typed; qos = good; latched = latched })

  pub collect-Post :
      (item : Y.Node → ℕ → Outcome Failure RecordTopic) (list : Y.Node) (out : List RecordTopic)
      → ((i : ℕ) → i < Y.size list → Post IsSound X (item list i))
      → All IsSound out
      → Post (All IsSound) X (collect Y rmw item list out)
  unfolding collect
  collect-Post item list out h done =
      elim (Bool-cases (not (Y.is_defined list) || not (Y.is_sequence list))) [
        | inl e ↦ rw e (Post-ok _ done)
        | inr e ↦ rw e (
            push_each-Post X IsSound (item list) (Y.size list) 0 out (λ k lt. h k (omega arith))
              done)
      ]
