-- ===== src/Contract.antt =====
-- include/rosetta_recorder_cpp/contract.hpp: the recording-oriented view of a contract.
-- The children read it from YAML and print its QoS.
pub mod Yaml
pub mod Scalars
pub mod Sections
pub mod Load
pub mod Sound
pub mod Valid
pub mod Order
pub mod Qos
pub mod Strategy
use rosetta_recorder_cpp.Prelude.{
  ℤ, pos, Text, codes, Bool, true, false, List, ◌++◌, decimal, decimal_int,
}

pub data BufferingStrategy : Type 0 where
  no_buffer accumulate resubscribe_on_start : BufferingStrategy

unfoldable pub to_string : BufferingStrategy → Text
to_string no_buffer = codes "no_buffer"
to_string accumulate = codes "accumulate"
to_string resubscribe_on_start = codes "resubscribe_on_start"

abbrev pub infinite_sec : ℤ
infinite_sec = pos 2147483647

abbrev pub infinite_nsec : ℤ
infinite_nsec = pos 4294967295

pub record QosSpec : Type 0 where
  pub depth : ℤ
  pub reliable : Bool
  pub keep_last : Bool
  pub transient_local : Bool
  pub liveliness : ℤ
  pub match_publisher_profile : Bool
  pub deadline_sec : ℤ
  pub deadline_nsec : ℤ
  pub lifespan_sec : ℤ
  pub lifespan_nsec : ℤ
  pub liveliness_lease_sec : ℤ
  pub liveliness_lease_nsec : ℤ

-- `QosSpec{}`, by the member initialisers.
abbrev pub default_qos : QosSpec
default_qos = record {
  depth = pos 10;
  reliable = true;
  keep_last = true;
  transient_local = false;
  liveliness = pos 0;
  match_publisher_profile = false;
  deadline_sec = infinite_sec;
  deadline_nsec = infinite_nsec;
  lifespan_sec = infinite_sec;
  lifespan_nsec = infinite_nsec;
  liveliness_lease_sec = infinite_sec;
  liveliness_lease_nsec = infinite_nsec;
}

pub record RecordTopic : Type 0 where
  pub topic : Text
  pub type : Text
  pub qos : QosSpec
  pub strategy : BufferingStrategy

pub record Contract (Double : Type 0) : Type 0 where
  pub robot_type : Text
  pub fps : ℤ
  pub max_duration_s : Double
  pub storage : Text
  pub topics : List RecordTopic

-- What a `ContractValidationError` says, one constructor for each `throw`.
pub data ContractError : Type 0 where
  missing_field : (field ctx : Text) → ContractError
  empty_field : (field ctx : Text) → ContractError
  not_mapping : (ctx : Text) → ContractError
  publish_not_mapping : (ctx : Text) → ContractError
  invalid_strategy : (s ctx : Text) → ContractError
  strategy_needs_latch : (s ctx : Text) → ContractError
  file_not_found : (path : Text) → ContractError
  invalid_yaml : (path reason : Text) → ContractError
  root_not_mapping : ContractError
  robot_type_required : ContractError
  fps_not_positive : (fps : ℤ) → ContractError

pub what : ContractError → Text
what (missing_field field ctx) =
    codes "Missing required field '" ++ (field ++ (codes "' in " ++ ctx))
what (empty_field field ctx) = codes "Empty " ++ (field ++ (codes " in " ++ ctx))
what (not_mapping ctx) = ctx ++ codes " must be a mapping"
what (publish_not_mapping ctx) = codes "'publish' must be a mapping in " ++ ctx
what (invalid_strategy s ctx) =
    codes "Invalid buffering_strategy '"
    ++ (s
        ++ (codes "' in "
            ++ (ctx ++ codes ". Must be one of: [accumulate, no_buffer, resubscribe_on_start]")))
what (strategy_needs_latch s ctx) =
    codes "buffering_strategy '"
    ++ (s ++ (codes "' can only be used with transient_local durability in " ++ ctx))
what (file_not_found path) = codes "Contract file not found: " ++ path
what (invalid_yaml path reason) = codes "Invalid YAML in " ++ (path ++ (codes ": " ++ reason))
what root_not_mapping = codes "Contract must be a YAML mapping"
what robot_type_required = codes "robot_type is required"
what (fps_not_positive fps) = codes "fps must be positive, got " ++ decimal_int fps

-- What leaves the loader: a `ContractValidationError`, or an exception of the YAML library
-- with its text.
pub data Failure : Type 0 where
  invalid : ContractError → Failure
  yaml : Text → Failure

-- The enumerators of rmw/types.h that the sources name.
pub record RmwPolicies : Type 0 where
  pub history_keep_last : ℤ
  pub history_keep_all : ℤ
  pub reliability_reliable : ℤ
  pub reliability_best_effort : ℤ
  pub durability_transient_local : ℤ
  pub durability_volatile : ℤ
  pub liveliness_automatic : ℤ
