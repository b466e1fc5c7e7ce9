-- ===== src/Metadata/Truncated.antt =====
-- src/episode_recorder_node.cpp: `write_metadata` after a flush that failed, which leaves the file
-- that `std::ofstream` truncated.
use rosetta_recorder_cpp.Prelude.{
  ℕ, zero, suc, ◌<◌, ◌≡◌, ◌≢◌, ◌∙◌, Text, true, false, ◌&&◌, none, some, is_empty, ok, arith,
}
use rosetta_recorder_cpp.Metadata.{
  Tree, Attempt, metadata_key, custom_data_key, as_map, map_at, edit, try_once, write_metadata,
}
use rosetta_recorder_cpp.Metadata.Edit.{TreeLaws, edit-Edited}
use rosetta_recorder_cpp.Metadata.Retry.{IsFailure, Works, write_metadata-edit}

-- An attempt that reads `d`, opens the file for writing and cannot flush it.
pub record Truncates {Doc : Type 0} (a : Attempt Doc) (d : Doc) : Type 0 where
  pub present : a.present ≡ true
  pub loads : a.load ≡ ok d
  pub opens : a.opens ≡ true
  pub unflushed : a.flushes ≡ false

module _ (T : Tree) (laws : TreeLaws T) where
  Truncates-IsFailure :
      (change : T.Doc → T.Doc) (a : Attempt T.Doc) (d : T.Doc)
      → Truncates a d
      → IsFailure (try_once T change a)
  unfolding try_once
  Truncates-IsFailure change a d t = rw (t.present, t.loads, t.opens, t.unflushed) tt

  -- The bag's information after an edit of a document that is no mapping has the custom data only.
  information-edit :
      (p c g k : Text) (empty : T.Doc)
      → T.is_map empty ≡ false
      → k ≢ custom_data_key
      → T.get (map_at T (edit T p c g empty) metadata_key) k ≡ none
  unfolding as_map map_at
  information-edit p c g k empty no_map apart =
      (edit-Edited T laws p c g empty).information k apart
      ∙ rw (no_map, map_at, laws.get_empty metadata_key) (laws.get_empty k)

  -- With something to write, if the flush of the first attempt fails and the second one works on
  -- the file that is empty by then, which is no mapping, the call succeeds, and the bag's information
  -- in what it writes has no entry but the custom data, whatever the first attempt had read.
  pub write_metadata-loses :
      (attempts : ℕ → Attempt T.Doc) (meta_path p c g : Text) (d empty : T.Doc)
      → (is_empty p && (is_empty c && is_empty g)) ≡ false
      → Truncates (attempts 0) d
      → Works T (attempts 1) empty
      → T.is_map empty ≡ false
      → (written : T.Doc) × (write_metadata T attempts meta_path p c g ≡ ok (some written))
        × ((k : Text) → k ≢ custom_data_key → T.get (map_at T written metadata_key) k ≡ none)
  write_metadata-loses attempts meta_path p c g d empty something first second no_map = (
    edit T p c g empty,
    write_metadata-edit T attempts meta_path p c g 1 empty something (ground arith) before second,
    λ k apart. information-edit p c g k empty no_map apart,
  )
    where
      before : (i : ℕ) → i < 1 → IsFailure (try_once T (edit T p c g) (attempts i))
      before zero h = Truncates-IsFailure (edit T p c g) (attempts 0) d first
      before (suc i) h = absurd (omega (arith, h))
