-- ===== src/Tests/Samples.antt =====
-- Concrete stand-ins for the interfaces: a YAML tree, whole numbers for `double`, the enumerators
-- of rmw/types.h, and a QoS value that is its profile.
use rosetta_recorder_cpp.Floats.{Floats}
use rosetta_recorder_cpp.Prelude.{
  ℕ, zero, suc, ◌-◌, ◌/◌, ◌≡◌, ◌≢◌, refl, ℤ, pos, Text, codes, text_eq, Bool, true, false, Option,
  none, some, [], ltb, leb, if◌then◌else◌, Outcome, ok, throw,
}
use rosetta_recorder_cpp.Contract.{RmwPolicies}
use rosetta_recorder_cpp.Contract.Yaml.{Yaml, YamlLaws, loaded, bad_file}
use rosetta_recorder_cpp.Contract.Qos.Rclcpp.{History, Profile, RclcppQos, RclcppQosLaws}

abbrev pub floats : Floats
floats = record { Double = ℕ; of_ℕ = λ n. n; lt = ltb; le = leb; minus = ◌-◌; over = ◌/◌ }

abbrev pub rmw : RmwPolicies
rmw = record {
  history_keep_last = pos 1;
  history_keep_all = pos 2;
  reliability_reliable = pos 1;
  reliability_best_effort = pos 2;
  durability_transient_local = pos 1;
  durability_volatile = pos 2;
  liveliness_automatic = pos 1;
}

mutual
  pub data Value : Type 0 where
    null : Value
    text : Text → Value
    int : ℤ → Value
    seq : Items → Value
    map : Fields → Value

  pub data Items : Type 0 where
    nil : Items
    cons : Value → Items → Items

  pub data Fields : Type 0 where
    end : Fields
    field : Text → Value → Fields → Fields

abbrev pub item : Items → ℕ → Option Value
item nil i = none
item (cons v vs) zero = some v
item (cons v vs) (suc i) = item vs i

abbrev pub count : Items → ℕ
count nil = 0
count (cons v vs) = suc (count vs)

abbrev pub count_fields : Fields → ℕ
count_fields end = 0
count_fields (field k v fs) = suc (count_fields fs)

abbrev pub get : Fields → Text → Option Value
get end key = none
get (field k v fs) key = if text_eq k key then some v else get fs key

abbrev pub is_some : Option Value → Bool
is_some none = false
is_some (some v) = true

abbrev pub null_node : Option Value → Bool
null_node (some null) = true
null_node v = false

abbrev pub map_node : Option Value → Bool
map_node (some (map fs)) = true
map_node v = false

abbrev pub seq_node : Option Value → Bool
seq_node (some (seq vs)) = true
seq_node v = false

abbrev pub size_of : Option Value → ℕ
size_of (some (seq vs)) = count vs
size_of (some (map fs)) = count_fields fs
size_of v = 0

-- A scalar has no members.
abbrev pub member_of : Option Value → Text → Outcome Text (Option Value)
member_of (some (map fs)) key = ok (get fs key)
member_of (some (text t)) key = throw (codes "operator[] call on a scalar")
member_of (some (int z)) key = throw (codes "operator[] call on a scalar")
member_of v key = ok none

abbrev pub elem_of : Option Value → ℕ → Option Value
elem_of (some (seq vs)) i = item vs i
elem_of v i = none

abbrev pub text_or : Option Value → Text → Text
text_or (some (text t)) d = t
text_or v d = d

abbrev pub int_or : Option Value → ℤ → ℤ
int_or (some (int z)) d = z
int_or v d = d

abbrev pub text_of : Option Value → Outcome Text Text
text_of (some (text t)) = ok t
text_of v = throw (codes "bad conversion")

-- A file system with one file, `root`.
abbrev pub yaml_of : Value → Yaml ℕ
yaml_of root = record {
  Node = Option Value;
  load_file = λ path. if text_eq path (codes "c.yaml") then loaded (some root) else bad_file;
  is_defined = is_some;
  is_null = null_node;
  is_map = map_node;
  is_sequence = seq_node;
  size = size_of;
  member = member_of;
  elem_at = elem_of;
  as_string_or = text_or;
  as_int_or = int_or;
  as_double_or = λ v d. d;
  as_string = text_of;
}

pub map_member_of :
    (n : Option Value) (key : Text)
    → map_node n ≡ true
    → (m : Option Value) × (member_of n key ≡ ok m)
map_member_of none key h = cc
map_member_of (some null) key h = cc
map_member_of (some (text t)) key h = cc
map_member_of (some (int z)) key h = cc
map_member_of (some (seq vs)) key h = cc
map_member_of (some (map fs)) key h = (get fs key, refl)

pub text_or_agrees : (n : Option Value) → text_or n [] ≢ [] → text_of n ≡ ok (text_or n [])
text_or_agrees none h = absurd (h refl)
text_or_agrees (some null) h = absurd (h refl)
text_or_agrees (some (text t)) h = refl
text_or_agrees (some (int z)) h = absurd (h refl)
text_or_agrees (some (seq vs)) h = absurd (h refl)
text_or_agrees (some (map fs)) h = absurd (h refl)

abbrev pub yaml_laws : (root : Value) → YamlLaws (yaml_of root)
yaml_laws root = record { map_member = map_member_of; string_agrees = text_or_agrees }

abbrev pub DurationPair : Type 0
DurationPair = ℤ × ℕ

abbrev pub default_profile : Profile DurationPair
default_profile = record {
  history = History.keep_last 10;
  is_reliable = true;
  is_transient_local = false;
  deadline = (pos 0, 0);
  lifespan = (pos 0, 0);
  liveliness = pos 0;
  lease = (pos 0, 0);
}

abbrev pub profiles : RclcppQos
profiles = record {
  QoS = Profile DurationPair;
  Duration = DurationPair;
  duration = λ s n. (s, n);
  keep_last = λ n. record default_profile { history = History.keep_last n };
  keep_all = record default_profile { history = History.keep_all };
  reliable = λ q. record q { is_reliable = true };
  best_effort = λ q. record q { is_reliable = false };
  transient_local = λ q. record q { is_transient_local = true };
  durability_volatile = λ q. record q { is_transient_local = false };
  deadline = λ q d. record q { deadline = d };
  lifespan = λ q d. record q { lifespan = d };
  liveliness = λ q n. record q { liveliness = n };
  liveliness_lease_duration = λ q d. record q { lease = d };
}

abbrev pub profile_laws : RclcppQosLaws profiles
profile_laws = record {
  profile = λ q. q;
  default = default_profile;
  profile-keep_last = λ n. refl;
  profile-keep_all = refl;
  profile-reliable = λ q. refl;
  profile-best_effort = λ q. refl;
  profile-transient_local = λ q. refl;
  profile-durability_volatile = λ q. refl;
  profile-deadline = λ q d. refl;
  profile-lifespan = λ q d. refl;
  profile-liveliness = λ q n. refl;
  profile-lease = λ q d. refl;
}
