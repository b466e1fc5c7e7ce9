-- ===== src/Directory.antt =====
-- src/episode_recorder_node.cpp: `parse_bag_name_style` and `create_bag_dir`.
pub mod Fresh
pub mod Naming
use rosetta_recorder_cpp.Prelude.{
  ℕ, zero, suc, ◌-◌, ◌/◌, ◌%◌, ◌^◌, Text, codes, text_eq, Bool, true, false, Option, none, some,
  List, [], ◌∷◌, ◌++◌, length, decimal, Outcome, ok, throw, if◌then◌else◌,
}

pub data BagNameStyle : Type 0 where
  epoch : BagNameStyle
  date_time : BagNameStyle

-- With the text of the exception.
unfoldable pub parse_bag_name_style : Text → Outcome Text BagNameStyle
parse_bag_name_style name =
    if text_eq name (codes "epoch")
    then ok epoch
    else if text_eq name (codes "datetime")
    then ok date_time
    else throw (codes "unknown bag_name_style '" ++ (name ++ codes "', expected epoch or datetime"))

-- `std::setfill('0') << std::setw(width)`
abbrev pub zeros : ℕ → Text
zeros zero = []
zeros (suc n) = b'0' ∷ zeros n

unfoldable pub padded : ℕ → ℕ → Text
padded width n = zeros (width - length (decimal n)) ++ decimal n

-- `since` is the clock's reading in nanoseconds; `local_stamp` is `strftime` of `localtime_r`.
unfoldable pub base_name : (ℕ → Text) → BagNameStyle → ℕ → Text
base_name local_stamp epoch since =
    padded 10 (since / 10 ^ 9) ++ (codes "_" ++ padded 9 (since % 10 ^ 9))
base_name local_stamp date_time since =
    local_stamp (since / 10 ^ 9) ++ (codes "-" ++ padded 3 (since % 10 ^ 9 / 10 ^ 6))

-- The name of the `n`-th try.
abbrev pub numbered : Text → ℕ → Text
numbered base zero = base
numbered base (suc n) = base ++ (codes "-" ++ decimal (suc n))

-- `fs::exists`, without its exceptions, and `operator/`.
pub record Paths : Type 0 where
  pub exists : Text → Bool
  pub join : Text → Text → Text

-- The loop on the directory, in `fuel` rounds from the `n`-th try on.
unfoldable pub first_free : ℕ → Paths → Text → Text → ℕ → Option Text
first_free zero fs bag_base base n = none
first_free (suc fuel) fs bag_base base n =
    let rest = first_free fuel fs bag_base base (suc n) in
    if fs.exists (fs.join bag_base (numbered base n))
    then rest
    else some (fs.join bag_base (numbered base n))

unfoldable pub create_bag_dir : ℕ → Paths → (ℕ → Text) → Text → BagNameStyle → ℕ → Option Text
create_bag_dir fuel fs local_stamp bag_base style since =
    first_free fuel fs bag_base (base_name local_stamp style since) 0
