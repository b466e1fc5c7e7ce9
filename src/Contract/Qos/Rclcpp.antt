-- ===== src/Contract/Qos/Rclcpp.antt =====
-- `rclcpp::QoS` and `rclcpp::Duration` as an interface: the constructors and setters that
-- contract.cpp calls, and the documented effect of each on the profile that the value holds.
use rosetta_recorder_cpp.Prelude.{ℕ, ℤ, Bool, true, false, ◌≡◌}

pub data History : Type 0 where
  keep_last : ℕ → History
  keep_all : History

pub record Profile (Duration : Type 0) : Type 0 where
  pub history : History
  pub is_reliable : Bool
  pub is_transient_local : Bool
  pub deadline : Duration
  pub lifespan : Duration
  pub liveliness : ℤ
  pub lease : Duration

pub record RclcppQos : Type 1 where
  pub QoS : Type 0
  pub Duration : Type 0
  pub duration : ℤ → ℕ → Duration
  -- `QoS(KeepLast(n))` and `QoS(KeepAll())`.
  pub keep_last : ℕ → QoS
  pub keep_all : QoS
  pub reliable : QoS → QoS
  pub best_effort : QoS → QoS
  pub transient_local : QoS → QoS
  pub durability_volatile : QoS → QoS
  pub deadline : QoS → Duration → QoS
  pub lifespan : QoS → Duration → QoS
  pub liveliness : QoS → ℤ → QoS
  pub liveliness_lease_duration : QoS → Duration → QoS

-- What a value holds, and that each setter changes its own field and no other.
pub record RclcppQosLaws (Q : RclcppQos) : Type 0 where
  pub profile : Q.QoS → Profile Q.Duration
  pub default : Profile Q.Duration
  pub profile-keep_last :
      (n : ℕ) → profile (Q.keep_last n) ≡ record default { history = History.keep_last n }
  pub profile-keep_all : profile Q.keep_all ≡ record default { history = History.keep_all }
  pub profile-reliable :
      (q : Q.QoS) → profile (Q.reliable q) ≡ record (profile q) { is_reliable = true }
  pub profile-best_effort :
      (q : Q.QoS) → profile (Q.best_effort q) ≡ record (profile q) { is_reliable = false }
  pub profile-transient_local :
      (q : Q.QoS) → profile (Q.transient_local q) ≡ record (profile q) { is_transient_local = true }
  pub profile-durability_volatile :
      (q : Q.QoS)
      → profile (Q.durability_volatile q) ≡ record (profile q) { is_transient_local = false }
  pub profile-deadline :
      (q : Q.QoS) (d : Q.Duration) → profile (Q.deadline q d) ≡ record (profile q) { deadline = d }
  pub profile-lifespan :
      (q : Q.QoS) (d : Q.Duration) → profile (Q.lifespan q d) ≡ record (profile q) { lifespan = d }
  pub profile-liveliness :
      (q : Q.QoS) (n : ℤ) → profile (Q.liveliness q n) ≡ record (profile q) { liveliness = n }
  pub profile-lease :
      (q : Q.QoS) (d : Q.Duration)
      → profile (Q.liveliness_lease_duration q d) ≡ record (profile q) { lease = d }
