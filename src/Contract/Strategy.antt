-- ===== src/Contract/Strategy.antt =====
-- The buffering strategies that a contract may name, and the reader that skips a test.
use rosetta_recorder_cpp.Prelude.{
  ℕ, zero, suc, ◌+◌, ◌∙◌, ◌∷◌, ◌++◌, subst, ◌<◌, ◌≡◌, ◌≢◌, refl, Text, codes, text_eq, text_eq_iff,
  true, false, not, ◌&&◌, List, [], if◌then◌else◌, Outcome, ok, throw, throw_if-bind, Post, Post-ok,
  Post-throw, Post-if, Post-eq, Post-tt, Post-bind, Post-throw_if, Post-weaken, Post-eq-ok,
  Bool-cases, inl, inr, ok-bind, throw-bind, arith,
}
use rosetta_recorder_cpp.Contract.{
  BufferingStrategy, no_buffer, accumulate, resubscribe_on_start, to_string, QosSpec, RecordTopic,
  RmwPolicies, invalid_strategy, strategy_needs_latch, not_mapping, Failure, invalid, yaml,
}
use rosetta_recorder_cpp.Contract.Yaml.{Yaml}
use rosetta_recorder_cpp.Contract.Scalars.{lower_trim, at, require_str, parse_qos}
use rosetta_recorder_cpp.Contract.Sections.{
  push_each, is_buffering, named_strategy, explicit_strategy, adjunct_strategy, parse_adjunct,
  observation_item, task_item, collect, collect_observation_like, collect_tasks, indexed,
}

named_strategy-to_string :
    (st : BufferingStrategy) (ctx : Text) → named_strategy (to_string st) ctx ≡ ok st
unfolding named_strategy to_string text_eq
named_strategy-to_string no_buffer ctx = refl
named_strategy-to_string accumulate ctx = refl
named_strategy-to_string resubscribe_on_start ctx = refl

named_strategy-unknown :
    (s ctx : Text)
    → ((st : BufferingStrategy) → s ≢ to_string st)
    → named_strategy s ctx ≡ throw (invalid (invalid_strategy s ctx))
unfolding named_strategy to_string
named_strategy-unknown s ctx h = ground (
  arith,
  h no_buffer,
  h accumulate,
  h resubscribe_on_start,
  text_eq_iff s (codes "no_buffer"),
  text_eq_iff s (codes "accumulate"),
  text_eq_iff s (codes "resubscribe_on_start"),
)

-- A strategy that is written out is the one of that name, provided that the topic is latched or
-- the strategy buffers nothing; on a volatile topic a buffering strategy is refused, and so is
-- any text that is no strategy's name.
explicit_strategy_lem :
    (s ctx : Text) (qos : QosSpec)
    → ((st : BufferingStrategy)
        → s ≡ to_string st
        → explicit_strategy s ctx qos ≡ (
            if is_buffering st && not qos.transient_local
            then throw (invalid (strategy_needs_latch s ctx))
            else ok st))
      × (((st : BufferingStrategy) → s ≢ to_string st)
          → explicit_strategy s ctx qos ≡ throw (invalid (invalid_strategy s ctx)))
unfolding explicit_strategy
explicit_strategy_lem s ctx qos = (
  λ st e. rw (e, named_strategy-to_string st ctx, ok-bind st) (throw_if-bind _ _ _),
  λ h. rw (named_strategy-unknown s ctx h) (throw-bind _ _),
)

explicit_strategy_sound :
    (s ctx : Text) (qos : QosSpec)
    → Post (λ st. s ≡ to_string st) (λ _. Unit {0}) (explicit_strategy s ctx qos)
unfolding explicit_strategy named_strategy to_string
explicit_strategy_sound s ctx qos =
    Post-bind {P = λ st. s ≡ to_string st}
      (Post-if (text_eq s (codes "no_buffer")) (ok no_buffer) _
        (λ e. Post-ok _ ((text_eq_iff _ _).0 e))
        λ _.
          Post-if (text_eq s (codes "accumulate")) (ok accumulate) _
            (λ e. Post-ok _ ((text_eq_iff _ _).0 e))
            λ _.
              Post-if (text_eq s (codes "resubscribe_on_start")) (ok resubscribe_on_start) _
                (λ e. Post-ok _ ((text_eq_iff _ _).0 e)) λ _. Post-throw _ tt)
      λ st e. Post-throw_if _ _ _ tt λ _. Post-ok _ e

module _ {Double : Type 0} (Y : Yaml Double) (rmw : RmwPolicies) where
  -- The strategy of an adjunct topic: the one that `named` names, without case and surrounding
  -- blanks, or the one for its durability if `named` is absent or null.
  abbrev pub Chooses : Y.Node → RecordTopic → Type 0
  Chooses named t =
      (Y.is_defined named && not (Y.is_null named) ≡ true
        → lower_trim (Y.as_string_or named []) ≡ to_string t.strategy)
      × (Y.is_defined named && not (Y.is_null named) ≡ false
          → t.strategy ≡ (if t.qos.transient_local then accumulate else no_buffer))

  adjunct_strategy-Chooses :
      (n : Y.Node) (ctx topic type : Text) (qos : QosSpec)
      → Post
          (λ st. Chooses n (record { topic = topic; type = type; qos = qos; strategy = st }))
          (λ _. Unit {0})
          (adjunct_strategy Y rmw n ctx qos)
  unfolding adjunct_strategy
  adjunct_strategy-Chooses n ctx topic type qos =
      elim (Bool-cases (Y.is_defined n && not (Y.is_null n))) [
        | inl e ↦
            rw e (
              Post-weaken (explicit_strategy_sound _ ctx qos) (λ st s. (λ _. s, λ f. cc))
                (λ _ x. x))
        | inr e ↦ rw e (Post-ok _ (λ f. cc, λ _. refl))
      ]

  -- An adjunct topic that is accepted has the strategy that its entry names (in any case, with
  -- blanks around it), and with no entry or a null one it accumulates exactly if it is latched.
  pub parse_adjunct-Chooses :
      (item : Y.Node) (i : ℕ) {t : RecordTopic}
      → parse_adjunct Y rmw item i ≡ ok t
      → (named : Y.Node) × (at Y item (codes "buffering_strategy") ≡ ok named) × Chooses named t
  unfolding parse_adjunct
  parse_adjunct-Chooses item i {t} parsed =
      Post-eq-ok {P = Found} {X = λ _. Unit {0}}
        (Post-throw_if _ _ _ tt λ _. Post-bind (Post-tt (require_str Y item _ _) λ _. tt) λ topic _.
          Post-bind (Post-tt (require_str Y item _ _) λ _. tt) λ type _.
            Post-bind (Post-tt (at Y item _) λ _. tt) λ q _.
              Post-bind (Post-tt (parse_qos Y rmw q) λ _. tt) λ qos _.
                Post-bind (Post-eq (Post-tt (at Y item _) λ _. tt)) λ named e.
                  Post-bind (adjunct_strategy-Chooses named _ topic type qos)
                    λ st c. Post-ok _ (named, e, c))
        parsed
    where
      Found : RecordTopic → Type 0
      Found t =
          (named : Y.Node) × (at Y item (codes "buffering_strategy") ≡ ok named) × Chooses named t

at-yaml :
    {Double : Type 0} (Y : Yaml Double) (n : Y.Node) (key : Text) {reason : Text}
    → Y.member n key ≡ throw reason
    → at Y n key ≡ throw (yaml reason)
unfolding at
at-yaml Y n key h = rw (h, at)

task_item-yaml :
    {Double : Type 0} (Y : Yaml Double) (rmw : RmwPolicies) (list : Y.Node) (i : ℕ) {reason : Text}
    → Y.member (Y.elem_at list i) (codes "topic") ≡ throw reason
    → task_item Y rmw list i ≡ throw (yaml reason)
unfolding task_item require_str
task_item-yaml Y rmw list i {reason} fails =
    rw (unreadable, throw-bind (yaml reason)) (throw-bind (yaml reason) _)
  where
    unreadable : at Y (Y.elem_at list i) (codes "topic") ≡ throw (yaml reason)
    unreadable = at-yaml Y _ _ fails

observation_item-invalid :
    {Double : Type 0} (Y : Yaml Double) (rmw : RmwPolicies) (section : Text) (list : Y.Node) (i : ℕ)
    → Y.is_map (Y.elem_at list i) ≡ false
    → observation_item Y rmw section list i ≡ throw (invalid (not_mapping (indexed section i)))
unfolding observation_item
observation_item-invalid Y rmw section list i scalar = rw scalar (throw_if-bind _ _ _)

-- The first `count` items from `i` on are accepted.
abbrev pub Accepts : (ℕ → Outcome Failure RecordTopic) → ℕ → ℕ → Type 0
Accepts item i zero = Unit
Accepts item i (suc count) = ((t : RecordTopic) × (item i ≡ ok t)) × Accepts item (suc i) count

push_each-throw :
    (item : ℕ → Outcome Failure RecordTopic) (count rounds i : ℕ) (out : List RecordTopic)
    {e : Failure}
    → count < rounds
    → Accepts item i count
    → ((j : ℕ) → j ≡ i + count → item j ≡ throw e)
    → push_each item rounds i out ≡ throw e
unfolding push_each
push_each-throw item count zero i out within before h = absurd (omega (arith, within))
push_each-throw item zero (suc rounds) i out {e} within before h =
    rw (h i (omega arith)) (throw-bind e _)
push_each-throw item (suc count) (suc rounds) i out {e} within ((t, accepted), later) h =
    rw accepted (
      ok-bind t _
      ∙ push_each-throw item count rounds (suc i) (out ++ t ∷ []) (omega (arith, within)) later
          (λ j e. h j (omega (arith, e))))

-- If an item of the list is a scalar, which the YAML library cannot look into, and the items before
-- it are accepted, then among the tasks it is not refused by a `ContractValidationError`: the
-- library's own exception leaves the loop. In a section of observations the same item is refused by
-- a `ContractValidationError` that names its position.
pub collect_tasks-yaml :
    {Double : Type 0} (Y : Yaml Double) (rmw : RmwPolicies) (list : Y.Node) (section : Text)
    (out : List RecordTopic) (i : ℕ) {reason : Text}
    → Y.is_defined list ≡ true
    → Y.is_sequence list ≡ true
    → i < Y.size list
    → Accepts (task_item Y rmw list) 0 i
    → Accepts (observation_item Y rmw section list) 0 i
    → Y.is_map (Y.elem_at list i) ≡ false
    → Y.member (Y.elem_at list i) (codes "topic") ≡ throw reason
    → (collect_tasks Y rmw list out ≡ throw (yaml reason))
      × (collect_observation_like Y rmw list section out
          ≡ throw (invalid (not_mapping (indexed section i))))
unfolding collect_tasks collect_observation_like collect
collect_tasks-yaml Y rmw list section out i {reason} defined sequence within tasks seen scalar
      fails =
    rw (defined, sequence)
      (
        push_each-throw _ i (Y.size list) 0 out within tasks (λ j e.
            subst (λ k. task_item Y rmw list k ≡ throw (yaml reason)) (omega (arith, e)) task),
        push_each-throw _ i (Y.size list) 0 out within seen (λ j e.
            subst
              (λ k.
                observation_item Y rmw section list k
                ≡ throw (invalid (not_mapping (indexed section i))))
              (omega (arith, e)) observation),
      )
  where
    task : task_item Y rmw list i ≡ throw (yaml reason)
    task = task_item-yaml Y rmw list i fails

    observation :
        observation_item Y rmw section list i ≡ throw (invalid (not_mapping (indexed section i)))
    observation = observation_item-invalid Y rmw section list i scalar
