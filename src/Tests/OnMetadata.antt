-- ===== src/Tests/OnMetadata.antt =====
-- The metadata of a bag as a tree of values.
use rosetta_recorder_cpp.Prelude.{
  ℕ, zero, suc, ◌<◌, ◌≡◌, ◌≢◌, refl, Text, codes, text_eq, text_eq_iff, Bool, true, false,
  Bool-cases, inl, inr, Option, none, some, [], ok, throw, arith,
}
use rosetta_recorder_cpp.Metadata.{
  Tree, Attempt, try_once, metadata_key, custom_data_key, map_at, edit, write_metadata, gave_up,
  metadata_retry_count,
}
use rosetta_recorder_cpp.Metadata.Edit.{TreeLaws, Edited, edit-Edited}
use rosetta_recorder_cpp.Metadata.Truncated.{write_metadata-loses}
use rosetta_recorder_cpp.Metadata.Retry.{
  IsFailure, errors, write_metadata-edit, write_metadata-gave_up,
}
use rosetta_recorder_cpp.Tests.Samples.{Value, null, text, int, seq, map, end, field, get}

abbrev is_map : Value → Bool
is_map (map fs) = true
is_map v = false

abbrev entry_of : Value → Text → Option Value
entry_of (map fs) key = get fs key
entry_of v key = none

abbrev put : Value → Text → Value → Value
put (map fs) key v = map (field key v fs)
put d key v = d

abbrev pub tree : Tree
tree = record {
  Doc = Value;
  empty_map = map end;
  is_map = is_map;
  get = entry_of;
  put = put;
  scalar = text;
}

is_map-put : (d e : Value) (k : Text) → is_map d ≡ true → is_map (put d k e) ≡ true
is_map-put (map fs) e k h = refl
is_map-put null e k h = cc
is_map-put (text t) e k h = cc
is_map-put (int z) e k h = cc
is_map-put (seq vs) e k h = cc

entry_of-put_self : (d e : Value) (k : Text) → is_map d ≡ true → entry_of (put d k e) k ≡ some e
entry_of-put_self (map fs) e k h = rw ((text_eq_iff k k).1 refl)
entry_of-put_self null e k h = cc
entry_of-put_self (text t) e k h = cc
entry_of-put_self (int z) e k h = cc
entry_of-put_self (seq vs) e k h = cc

differ : (j k : Text) → j ≢ k → text_eq k j ≡ false
differ j k apart = elim (Bool-cases (text_eq k j)) [
  | inl same ↦ absurd (apart (cc ((text_eq_iff k j).0 same)))
  | inr other ↦ other
]

entry_of-put_other :
    (d e : Value) (j k : Text) → is_map d ≡ true → j ≢ k → entry_of (put d k e) j ≡ entry_of d j
entry_of-put_other (map fs) e j k h apart = rw (differ j k apart)
entry_of-put_other null e j k h apart = refl
entry_of-put_other (text t) e j k h apart = refl
entry_of-put_other (int z) e j k h apart = refl
entry_of-put_other (seq vs) e j k h apart = refl

tree_laws : TreeLaws tree
tree_laws = record {
  map_empty = refl;
  get_empty = λ k. refl;
  map_put = is_map-put;
  get_put_self = entry_of-put_self;
  get_put_other = entry_of-put_other;
}

abbrev version_key : Text
version_key = codes "version"

-- What rosbag2 wrote.
abbrev bag_document : Value
bag_document = map (field metadata_key (map (field version_key (text (codes "5")) end)) end)

edit-Edited_example :
    Edited tree tree_laws
      (codes "pick")
      []
      (codes "01ff")
      bag_document
      (edit tree (codes "pick") [] (codes "01ff") bag_document)
edit-Edited_example = edit-Edited tree tree_laws (codes "pick") [] (codes "01ff") bag_document

-- The file appears between the first attempt and the second.
abbrev absent : Attempt Value
absent = record { present = false; load = throw (codes "bad file"); opens = false; flushes = false }

abbrev pub appears : ℕ → Attempt Value
appears zero = absent
appears (suc i) = record { present = true; load = ok bag_document; opens = true; flushes = true }

absent-IsFailure :
    (i : ℕ) → i < 1 → IsFailure (try_once tree (edit tree (codes "pick") [] []) (appears i))
unfolding try_once
absent-IsFailure zero h = tt
absent-IsFailure (suc i) h = absurd (omega (arith, h))

write_metadata-edit_example :
    write_metadata tree appears (codes "b/metadata.yaml") (codes "pick") [] []
    ≡ ok (some (edit tree (codes "pick") [] [] bag_document))
write_metadata-edit_example =
    write_metadata-edit tree appears (codes "b/metadata.yaml") (codes "pick") [] [] 1 bag_document
      refl (ground arith) absent-IsFailure
      (record { present = refl; loads = refl; opens = refl; flushes = refl })

never-IsFailure :
    (i : ℕ)
    → i < metadata_retry_count
    → IsFailure (try_once tree (edit tree (codes "pick") [] []) absent)
unfolding try_once
never-IsFailure i h = tt

write_metadata-gave_up_example :
    write_metadata tree (λ i. absent) (codes "b/metadata.yaml") (codes "pick") [] []
    ≡ throw (
        gave_up tree (codes "b/metadata.yaml") (
          errors tree metadata_retry_count
            (λ i. try_once tree (edit tree (codes "pick") [] []) absent)
            0
            (codes "metadata.yaml never appeared")))
write_metadata-gave_up_example =
    write_metadata-gave_up tree (λ i. absent) (codes "b/metadata.yaml") (codes "pick") [] [] refl
      never-IsFailure

abbrev full_disk : ℕ → Attempt Value
full_disk zero = record { present = true; load = ok bag_document; opens = true; flushes = false }
full_disk (suc i) = record { present = true; load = ok null; opens = true; flushes = true }

write_metadata-loses_example :
    (written : Value) × (write_metadata tree full_disk
        (codes "b/metadata.yaml")
        (codes "pick")
        []
        []
      ≡ ok (some written))
    × ((k : Text) → k ≢ custom_data_key → entry_of (map_at tree written metadata_key) k ≡ none)
write_metadata-loses_example =
    write_metadata-loses tree tree_laws full_disk (codes "b/metadata.yaml") (codes "pick") [] []
      bag_document null refl
      (record { present = refl; loads = refl; opens = refl; unflushed = refl })
      (record { present = refl; loads = refl; opens = refl; flushes = refl }) refl
