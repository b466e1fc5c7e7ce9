-- ===== src/Tests/OnDirectory.antt =====
-- A bag whose first name is taken.
use rosetta_recorder_cpp.Prelude.{
  ℕ, ◌+◌, ◌≡◌, ◌≢◌, refl, Text, codes, text_eq, text_eq_iff, false, Bool-cases, inl, inr, [], ◌∷◌,
  ◌++◌, All, arith, decimal,
}
use rosetta_recorder_cpp.Directory.{epoch, padded, base_name, Paths, create_bag_dir}
use rosetta_recorder_cpp.Directory.Fresh.{Finds, create_bag_dir-Finds}
use rosetta_recorder_cpp.Directory.Naming.{base_name-injective}

abbrev pub stamp : ℕ → Text
stamp seconds = codes "20260101-000000"

abbrev pub since : ℕ
since = 1700000000000000042

name_test : base_name stamp epoch since ≡ codes "1700000000_000000042"
unfolding base_name padded decimal
name_test = refl

abbrev taken_path : Text
taken_path = codes "b/" ++ base_name stamp epoch since

abbrev pub paths : Paths
paths = record {
  exists = λ path. text_eq path taken_path;
  join = λ base name. base ++ (codes "/" ++ name);
}

not_listed :
    (path : Text) → All (λ other. path ≢ other) (taken_path ∷ []) → text_eq path taken_path ≡ false
not_listed path (apart, end) = elim (Bool-cases (text_eq path taken_path)) [
  | inl same ↦ absurd (apart ((text_eq_iff path taken_path).0 same))
  | inr other ↦ other
]

create_bag_dir-Finds_example :
    Finds paths
      (codes "b")
      (base_name stamp epoch since)
      0
      (create_bag_dir 2 paths stamp (codes "b") epoch since)
create_bag_dir-Finds_example =
    create_bag_dir-Finds paths (taken_path ∷ []) stamp (codes "b") epoch since 2 (λ s t e. cc)
      not_listed (ground arith)

abbrev same_reading : ℕ
same_reading = 1700000000000000000 + 42

base_name-injective_example : since ≡ same_reading
base_name-injective_example = base_name-injective stamp since same_reading refl
