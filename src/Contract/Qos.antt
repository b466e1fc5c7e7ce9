-- ===== src/Contract/Qos.antt =====
-- src/contract.cpp: `QosSpec::to_rclcpp`, `to_offered_qos` and `to_offered_qos_yaml`.
pub mod Rclcpp
pub mod Profile
use rosetta_recorder_cpp.Prelude.{
  ℕ, ℤ, Text, codes, Bool, true, if◌then◌else◌, to_unsigned, to_signed, entry,
}
use rosetta_recorder_cpp.Contract.{QosSpec, RmwPolicies}
use Rclcpp.{RclcppQos}

-- The QoS value that the bag metadata states, as a text.
unfoldable pub to_offered_qos_yaml : RmwPolicies → QosSpec → Text
to_offered_qos_yaml rmw q =
    entry (codes "- history: ")
      (if q.keep_last then rmw.history_keep_last else rmw.history_keep_all)
      (entry (codes "  depth: ") q.depth (
        entry (codes "  reliability: ")
          (if q.reliable then rmw.reliability_reliable else rmw.reliability_best_effort)
          (entry (codes "  durability: ")
            (if q.transient_local then rmw.durability_transient_local else rmw.durability_volatile)
            (entry (codes "  deadline:\n    sec: ") q.deadline_sec (
              entry (codes "    nsec: ") q.deadline_nsec (
                entry (codes "  lifespan:\n    sec: ") q.lifespan_sec (
                  entry (codes "    nsec: ") q.lifespan_nsec (
                    entry (codes "  liveliness: ") q.liveliness (
                      entry (codes "  liveliness_lease_duration:\n    sec: ") q.liveliness_lease_sec
                        (entry (codes "    nsec: ") q.liveliness_lease_nsec
                          (codes "  avoid_ros_namespace_conventions: false")))))))))))

module _ (Q : RclcppQos) where
  -- `rclcpp::Duration(static_cast<int32_t>(sec), static_cast<uint32_t>(nsec))`
  unfoldable pub duration_from : ℤ → ℤ → Q.Duration
  duration_from sec nsec = Q.duration (to_signed 32 (to_unsigned 32 sec)) (to_unsigned 32 nsec)

  unfoldable pub with_history : QosSpec → Q.QoS
  with_history q = if q.keep_last then Q.keep_last (to_unsigned 64 q.depth) else Q.keep_all

  unfoldable pub with_reliability : QosSpec → Q.QoS → Q.QoS
  with_reliability q p = if q.reliable then Q.reliable p else Q.best_effort p

  unfoldable pub with_durability : QosSpec → Q.QoS → Q.QoS
  with_durability q p = if q.transient_local then Q.transient_local p else Q.durability_volatile p

  -- The setters under `if (match_publisher_profile)`.
  unfoldable pub with_publisher_profile : QosSpec → Q.QoS → Q.QoS
  with_publisher_profile q p =
      let p = Q.deadline p (duration_from q.deadline_sec q.deadline_nsec) in
      let p = Q.lifespan p (duration_from q.lifespan_sec q.lifespan_nsec) in
      let p = Q.liveliness p q.liveliness in
      Q.liveliness_lease_duration p (duration_from q.liveliness_lease_sec q.liveliness_lease_nsec)

  unfoldable pub to_rclcpp : QosSpec → Q.QoS
  to_rclcpp q =
      let p = with_durability q (with_reliability q (with_history q)) in
      if q.match_publisher_profile then with_publisher_profile q p else p

  unfoldable pub to_offered_qos : QosSpec → Q.QoS
  to_offered_qos q = to_rclcpp (record q { match_publisher_profile = true })
