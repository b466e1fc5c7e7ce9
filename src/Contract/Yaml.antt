-- ===== src/Contract/Yaml.antt =====
-- The part of yaml-cpp that contract.cpp calls, as an interface.
use rosetta_recorder_cpp.Prelude.{ℕ, ℤ, Text, Bool, true, ◌≡◌, ◌≢◌, [], Outcome, ok}

-- What `YAML::LoadFile` does: it returns the root, or throws `BadFile`, or throws another
-- `YAML::Exception` with a text.
pub data Loaded (Node : Type 0) : Type 0 where
  loaded : Node → Loaded Node
  bad_file : Loaded Node
  bad_yaml : Text → Loaded Node

pub record Yaml (Double : Type 0) : Type 1 where
  pub Node : Type 0
  pub load_file : Text → Loaded Node
  -- `static_cast<bool>(n)`: the node is there.
  pub is_defined : Node → Bool
  pub is_null : Node → Bool
  pub is_map : Node → Bool
  pub is_sequence : Node → Bool
  pub size : Node → ℕ
  -- `n[key]` throws, with a text, at a node that has no members.
  pub member : Node → Text → Outcome Text Node
  -- `n[i]` at a sequence.
  pub elem_at : Node → ℕ → Node
  -- `n.as<T>(fallback)` never throws; `n.as<std::string>()` may.
  pub as_string_or : Node → Text → Text
  pub as_int_or : Node → ℤ → ℤ
  pub as_double_or : Node → Double → Double
  pub as_string : Node → Outcome Text Text

-- The documented behaviour that some theorems rely on.
pub record YamlLaws {Double : Type 0} (Y : Yaml Double) : Type 0 where
  -- A mapping has members: the look-up of an absent key gives an undefined node.
  pub map_member :
      (n : Y.Node) (key : Text) → Y.is_map n ≡ true → (m : Y.Node) × (Y.member n key ≡ ok m)
  -- The two conversions agree where the one with a fallback did not fall back.
  pub string_agrees :
      (n : Y.Node) → Y.as_string_or n [] ≢ [] → Y.as_string n ≡ ok (Y.as_string_or n [])
