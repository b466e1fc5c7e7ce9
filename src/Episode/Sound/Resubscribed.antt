-- ===== src/Episode/Sound/Resubscribed.antt =====
-- `prepare_resubscribes` keeps the topic table exact: a subscription is recreated as it was.
use rosetta_recorder_cpp.Prelude.{
  ℕ, zero, suc, ◌≡◌, refl, sym, ap, Bool, true, false, Bool-cases, none, some, Option-cases, inl,
  inr, List, [], ◌∷◌, ◌++◌, get_elem?, set, get_elem?-set_self, get_elem?-lt,
}
use rosetta_recorder_cpp.Topics.Tidy.{IsTidy, IsTidy-empty, set-All}
use rosetta_recorder_cpp.Topics.{TopicState, Topics, subscribe, create_subscription_for}
use rosetta_recorder_cpp.Topics.Shapes.{
  SameShape, SameShape-eq, SameShape-trans, SameShape-topics, shapes-set, set-set,
}
use rosetta_recorder_cpp.Topics.Discovery.{Graph, discover_topics}
use rosetta_recorder_cpp.Topics.Exact.{IsExact, SameShape-IsExact, discover_topics-IsExact}
use rosetta_recorder_cpp.Episode.Open.{
  is_resubscribing, resubscribe, resubscribe_from, prepare_resubscribes,
}

-- What a topic is once its subscription is recreated.
abbrev renewed : ℕ → TopicState → TopicState
renewed i st = subscribe i (record st { buffer = []; sub = none })

resubscribe-set :
    (i : ℕ) (st : TopicState) (ts : Topics)
    → get_elem? ts.topics i ≡ some st
    → resubscribe i st ts ≡ record ts { topics = set ts.topics i (renewed i st) }
unfolding resubscribe create_subscription_for
resubscribe-set i st ts at =
    let bare : TopicState = record st { buffer = []; sub = none } in
    rw (create_subscription_for, get_elem?-set_self ts.topics i bare (get_elem?-lt ts.topics i at))
      (ap (λ l. record ts { topics = l }) (set-set ts.topics i bare (renewed i st)))

resubscribe-SameShape :
    (i : ℕ) (st : TopicState) (ts : Topics)
    → IsExact ts
    → get_elem? ts.topics i ≡ some st
    → SameShape ts (resubscribe i st ts)
unfolding subscribe
resubscribe-SameShape i st ts v at =
    SameShape-trans
      (SameShape-topics ts (set ts.topics i (renewed i st))
        (shapes-set ts.topics i st (renewed i st) at (
          ap (λ s. record { spec = st.spec; sub = s; discovered = st.discovered })
            (sym (v.placed i st at))))
        (λ h. set-All IsTidy ts.topics i (renewed i st) h (IsTidy-empty (renewed i st) refl)))
      (SameShape-eq (resubscribe-set i st ts at))

resubscribe_from-IsExact :
    (rounds i : ℕ) (ts : Topics) (pending : List ℕ)
    → IsExact ts
    → IsExact (resubscribe_from rounds i ts pending).0
unfolding resubscribe_from
resubscribe_from-IsExact zero i ts pending v = v
resubscribe_from-IsExact (suc rounds) i ts pending v = elim (Option-cases (get_elem? ts.topics i)) [
  | inl e ↦ rw (e, resubscribe_from) v
  | inr (st, e) ↦ elim (Bool-cases (is_resubscribing st.spec.strategy)) [
    | inl again ↦
        rw (e, resubscribe_from, again)
          (resubscribe_from-IsExact rounds (suc i) (resubscribe i st ts) (pending ++ i ∷ [])
            (SameShape-IsExact (resubscribe-SameShape i st ts v e) v))
    | inr keep ↦
        rw (e, resubscribe_from, keep) (resubscribe_from-IsExact rounds (suc i) ts pending v)
  ]
]

pub prepare_resubscribes-IsExact :
    (record_all : Bool) (g : Graph) (ts : Topics)
    → IsExact ts
    → IsExact (prepare_resubscribes record_all g ts).0
unfolding prepare_resubscribes
prepare_resubscribes-IsExact true g ts v =
    resubscribe_from-IsExact _ 0 (discover_topics g ts) [] (discover_topics-IsExact g ts v)
prepare_resubscribes-IsExact false g ts v = resubscribe_from-IsExact _ 0 ts [] v
