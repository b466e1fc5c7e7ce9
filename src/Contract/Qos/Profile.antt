-- ===== src/Contract/Qos/Profile.antt =====
-- What the three renderings of a QoS say.
use rosetta_recorder_cpp.Prelude.{
  ℕ, ℤ, Bool, true, false, ◌≡◌, ◌≢◌, refl, sym, if◌then◌else◌, to_unsigned, entry-injective,
}
use rosetta_recorder_cpp.Contract.{QosSpec, RmwPolicies}
use rosetta_recorder_cpp.Contract.Qos.Rclcpp.{History, Profile, RclcppQos, RclcppQosLaws}
use rosetta_recorder_cpp.Contract.Qos.{
  duration_from, with_history, with_reliability, with_durability, with_publisher_profile, to_rclcpp,
  to_offered_qos, to_offered_qos_yaml,
}

-- The enumerators of one policy differ.
pub record RmwDistinct (rmw : RmwPolicies) : Type 0 where
  pub history : rmw.history_keep_last ≢ rmw.history_keep_all
  pub reliability : rmw.reliability_reliable ≢ rmw.reliability_best_effort
  pub durability : rmw.durability_transient_local ≢ rmw.durability_volatile

-- All that the metadata text records of a QoS.
pub record SameOffer (p q : QosSpec) : Type 0 where
  pub keep_last : p.keep_last ≡ q.keep_last
  pub depth : p.depth ≡ q.depth
  pub reliable : p.reliable ≡ q.reliable
  pub transient_local : p.transient_local ≡ q.transient_local
  pub deadline_sec : p.deadline_sec ≡ q.deadline_sec
  pub deadline_nsec : p.deadline_nsec ≡ q.deadline_nsec
  pub lifespan_sec : p.lifespan_sec ≡ q.lifespan_sec
  pub lifespan_nsec : p.lifespan_nsec ≡ q.lifespan_nsec
  pub liveliness : p.liveliness ≡ q.liveliness
  pub lease_sec : p.liveliness_lease_sec ≡ q.liveliness_lease_sec
  pub lease_nsec : p.liveliness_lease_nsec ≡ q.liveliness_lease_nsec

choice-injective :
    (x y : ℤ) (a b : Bool) → x ≢ y → (if a then x else y) ≡ (if b then x else y) → a ≡ b
choice-injective x y true true h e = refl
choice-injective x y true false h e = absurd (h e)
choice-injective x y false true h e = absurd (h (sym e))
choice-injective x y false false h e = refl

-- Where the middleware's enumerators differ, the metadata text loses nothing: specs with one
-- text agree in every policy that the bag stores, that is in all but whether the subscription requests the publisher-only ones.
pub to_offered_qos_yaml-injective :
    (rmw : RmwPolicies) (p q : QosSpec)
    → RmwDistinct rmw
    → to_offered_qos_yaml rmw p ≡ to_offered_qos_yaml rmw q
    → SameOffer p q
unfolding to_offered_qos_yaml
to_offered_qos_yaml-injective rmw p q distinct h =
    let (history, h) = entry-injective _ _ _ _ _ h in
    let (depth, h) = entry-injective _ _ _ _ _ h in
    let (reliability, h) = entry-injective _ _ _ _ _ h in
    let (durability, h) = entry-injective _ _ _ _ _ h in
    let (deadline_sec, h) = entry-injective _ _ _ _ _ h in
    let (deadline_nsec, h) = entry-injective _ _ _ _ _ h in
    let (lifespan_sec, h) = entry-injective _ _ _ _ _ h in
    let (lifespan_nsec, h) = entry-injective _ _ _ _ _ h in
    let (liveliness, h) = entry-injective _ _ _ _ _ h in
    let (lease_sec, h) = entry-injective _ _ _ _ _ h in
    let (lease_nsec, h) = entry-injective _ _ _ _ _ h in
    record {
      keep_last = choice-injective _ _ _ _ distinct.history history;
      depth = depth;
      reliable = choice-injective _ _ _ _ distinct.reliability reliability;
      transient_local = choice-injective _ _ _ _ distinct.durability durability;
      deadline_sec = deadline_sec;
      deadline_nsec = deadline_nsec;
      lifespan_sec = lifespan_sec;
      lifespan_nsec = lifespan_nsec;
      liveliness = liveliness;
      lease_sec = lease_sec;
      lease_nsec = lease_nsec;
    }

module _ (Q : RclcppQos) (laws : RclcppQosLaws Q) where
  abbrev history_of : QosSpec → History
  history_of q =
      if q.keep_last then History.keep_last (to_unsigned 64 q.depth) else History.keep_all

  -- The profile that is offered in a bag: every policy as the spec states it.
  abbrev pub stated : QosSpec → Profile Q.Duration
  stated q = record {
    history = history_of q;
    is_reliable = q.reliable;
    is_transient_local = q.transient_local;
    deadline = duration_from Q q.deadline_sec q.deadline_nsec;
    lifespan = duration_from Q q.lifespan_sec q.lifespan_nsec;
    liveliness = q.liveliness;
    lease = duration_from Q q.liveliness_lease_sec q.liveliness_lease_nsec;
  }

  history-profile :
      (b : Bool) (n : ℕ)
      → laws.profile (if b then Q.keep_last n else Q.keep_all)
        ≡ record laws.default { history = if b then History.keep_last n else History.keep_all }
  history-profile true n = laws.profile-keep_last n
  history-profile false n = laws.profile-keep_all

  profile-with_history :
      (q : QosSpec)
      → laws.profile (with_history Q q) ≡ record laws.default { history = history_of q }
  unfolding with_history
  profile-with_history q = history-profile q.keep_last _

  reliability-profile :
      (b : Bool) (p : Q.QoS)
      → laws.profile (if b then Q.reliable p else Q.best_effort p)
        ≡ record (laws.profile p) { is_reliable = b }
  reliability-profile true p = laws.profile-reliable p
  reliability-profile false p = laws.profile-best_effort p

  profile-with_reliability :
      (q : QosSpec) (p : Q.QoS)
      → laws.profile (with_reliability Q q p) ≡ record (laws.profile p) { is_reliable = q.reliable }
  unfolding with_reliability
  profile-with_reliability q p = reliability-profile q.reliable p

  durability-profile :
      (b : Bool) (p : Q.QoS)
      → laws.profile (if b then Q.transient_local p else Q.durability_volatile p)
        ≡ record (laws.profile p) { is_transient_local = b }
  durability-profile true p = laws.profile-transient_local p
  durability-profile false p = laws.profile-durability_volatile p

  profile-with_durability :
      (q : QosSpec) (p : Q.QoS)
      → laws.profile (with_durability Q q p)
        ≡ record (laws.profile p) { is_transient_local = q.transient_local }
  unfolding with_durability
  profile-with_durability q p = durability-profile q.transient_local p

  profile-with_publisher_profile :
      (q : QosSpec) (p : Q.QoS)
      → laws.profile (with_publisher_profile Q q p) ≡ record (laws.profile p) {
        deadline = duration_from Q q.deadline_sec q.deadline_nsec;
        lifespan = duration_from Q q.lifespan_sec q.lifespan_nsec;
        liveliness = q.liveliness;
        lease = duration_from Q q.liveliness_lease_sec q.liveliness_lease_nsec;
      }
  unfolding with_publisher_profile
  profile-with_publisher_profile q p =
      simp
        (laws.profile-lease, laws.profile-liveliness, laws.profile-lifespan, laws.profile-deadline)

  match-profile :
      (b : Bool) (p q : Q.QoS)
      → laws.profile (if b then p else q) ≡ (if b then laws.profile p else laws.profile q)
  match-profile true p q = refl
  match-profile false p q = refl

  -- A subscription requests the history, reliability and durability of its spec; the rest of the
  -- profile is the spec's if it matches a publisher, and the library's default if not.
  pub profile-to_rclcpp :
      (q : QosSpec)
      → laws.profile (to_rclcpp Q q) ≡ (
          if q.match_publisher_profile then stated q else record laws.default {
            history = history_of q;
            is_reliable = q.reliable;
            is_transient_local = q.transient_local;
          })
  unfolding to_rclcpp
  profile-to_rclcpp q = simp (
    match-profile, profile-with_publisher_profile, profile-with_durability,
    profile-with_reliability, profile-with_history,
  )

  -- The object form of the metadata states every policy, whatever the subscription requests.
  profile-to_offered_qos : (q : QosSpec) → laws.profile (to_offered_qos Q q) ≡ stated q
  unfolding to_offered_qos
  profile-to_offered_qos q = profile-to_rclcpp (record q { match_publisher_profile = true })
