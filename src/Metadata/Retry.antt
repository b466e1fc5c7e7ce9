-- ===== src/Metadata/Retry.antt =====
-- src/episode_recorder_node.cpp: the retry loop of `write_metadata`.
use rosetta_recorder_cpp.Prelude.{
  ℕ, zero, suc, ◌+◌, ◌<◌, ◌≡◌, refl, sym, ap, subst, ◌∙◌, Text, codes, true, false, ◌&&◌, some,
  is_empty, arith, ok, throw,
}
use rosetta_recorder_cpp.Metadata.{
  Tree, Attempt, Tried, missing, failed, wrote, metadata_retry_count, edit, try_once, retry,
  gave_up, write_metadata,
}

abbrev pub IsFailure : {Doc : Type 0} → Tried Doc → Type 0
IsFailure missing = Unit
IsFailure (failed what) = Unit
IsFailure (wrote d) = ⊥

abbrev pub error_after : {Doc : Type 0} → Text → Tried Doc → Text
error_after last_error missing = last_error
error_after last_error (failed what) = what
error_after last_error (wrote d) = last_error

module _ (T : Tree) where
  retry-failed :
      (rounds : ℕ) (tried : ℕ → Tried T.Doc) (attempt : ℕ) (last_error : Text)
      → IsFailure (tried attempt)
      → retry T (suc rounds) tried attempt last_error
        ≡ retry T rounds tried (suc attempt) (error_after last_error (tried attempt))
  unfolding retry
  retry-failed rounds tried attempt last_error h = go (tried attempt) refl h
    where
      go :
          (t : Tried T.Doc)
          → tried attempt ≡ t
          → IsFailure t
          → retry T (suc rounds) tried attempt last_error
            ≡ retry T rounds tried (suc attempt) (error_after last_error (tried attempt))
      go missing e h = rw (retry, e)
      go (failed what) e h = rw (retry, e)
      go (wrote d) e h = elim h [ ]

  -- The loop ends at the first attempt that writes.
  retry-wrote :
      (k rounds : ℕ) (tried : ℕ → Tried T.Doc) (attempt : ℕ) (last_error : Text) (d : T.Doc)
      → k < rounds
      → ((i : ℕ) → i < k → IsFailure (tried (attempt + i)))
      → tried (attempt + k) ≡ wrote d
      → retry T rounds tried attempt last_error ≡ record { sleeps = attempt + k; outcome = ok d }
  unfolding retry
  retry-wrote k zero tried attempt last_error d bound fails e = absurd (omega arith)
  retry-wrote zero (suc rounds) tried attempt last_error d bound fails e =
      let here : attempt + 0 ≡ attempt = omega arith in
      let now : tried attempt ≡ wrote d = sym (ap tried here) ∙ e in rw (here, retry, now)
  retry-wrote (suc k) (suc rounds) tried attempt last_error d bound fails e =
      let here : attempt + 0 ≡ attempt = omega arith in
      let later : (i : ℕ) → suc attempt + i ≡ attempt + suc i = λ i. omega arith in
      retry-failed rounds tried attempt last_error
        (subst (λ j. IsFailure (tried j)) here (fails 0 (omega arith)))
      ∙ retry-wrote k rounds tried (suc attempt) _ d (omega arith)
          (λ i h. subst (λ j. IsFailure (tried j)) (sym (later i)) (fails (suc i) (omega arith)))
          (ap tried (later k) ∙ e)
      ∙ rw (later k)

  -- The last error of so many attempts from one on.
  abbrev pub errors : ℕ → (ℕ → Tried T.Doc) → ℕ → Text → Text
  errors zero tried attempt last_error = last_error
  errors (suc rounds) tried attempt last_error =
      errors rounds tried (suc attempt) (error_after last_error (tried attempt))

  -- Without such an attempt it gives up after all of them, with the last error.
  retry-threw :
      (rounds : ℕ) (tried : ℕ → Tried T.Doc) (attempt : ℕ) (last_error : Text)
      → ((i : ℕ) → i < rounds → IsFailure (tried (attempt + i)))
      → retry T rounds tried attempt last_error ≡ record {
        sleeps = attempt + rounds;
        outcome = throw (errors rounds tried attempt last_error);
      }
  unfolding retry
  retry-threw zero tried attempt last_error fails =
      let here : attempt + 0 ≡ attempt = omega arith in rw here
  retry-threw (suc rounds) tried attempt last_error fails =
      let here : attempt + 0 ≡ attempt = omega arith in
      let later : (i : ℕ) → suc attempt + i ≡ attempt + suc i = λ i. omega arith in
      retry-failed rounds tried attempt last_error
        (subst (λ j. IsFailure (tried j)) here (fails 0 (omega arith)))
      ∙ retry-threw rounds tried (suc attempt) _
          (λ i h. subst (λ j. IsFailure (tried j)) (sym (later i)) (fails (suc i) (omega arith)))
      ∙ rw (later rounds)

  -- An attempt at which nothing goes wrong, on the document `d`.
  pub record Works (a : Attempt T.Doc) (d : T.Doc) : Type 0 where
    pub present : a.present ≡ true
    pub loads : a.load ≡ ok d
    pub opens : a.opens ≡ true
    pub flushes : a.flushes ≡ true

  try_once-wrote :
      (change : T.Doc → T.Doc) (a : Attempt T.Doc) (d : T.Doc)
      → Works a d
      → try_once T change a ≡ wrote (change d)
  unfolding try_once
  try_once-wrote change a d w = simp (w.present, w.loads, w.opens, w.flushes) refl

  from_zero : (P : ℕ → Type 0) (i : ℕ) → P i → P (0 + i)
  from_zero P i h = let e : i ≡ 0 + i = omega arith in subst P e h

  -- With something to write: if one of the ten attempts works and those before it failed, the
  -- document that it read is written back edited.
  pub write_metadata-edit :
      (attempts : ℕ → Attempt T.Doc) (meta_path p c g : Text) (k : ℕ) (d : T.Doc)
      → (is_empty p && (is_empty c && is_empty g)) ≡ false
      → k < metadata_retry_count
      → ((i : ℕ) → i < k → IsFailure (try_once T (edit T p c g) (attempts i)))
      → Works (attempts k) d
      → write_metadata T attempts meta_path p c g ≡ ok (some (edit T p c g d))
  unfolding write_metadata
  write_metadata-edit attempts meta_path p c g k d something bound fails works =
      let tried : ℕ → Tried T.Doc = λ i. try_once T (edit T p c g) (attempts i) in
      rw (
        something,
        retry-wrote k metadata_retry_count tried 0 (codes "metadata.yaml never appeared")
            (edit T p c g d) bound (λ i h. from_zero (λ j. IsFailure (tried j)) i (fails i h))
            (from_zero (λ j. tried j ≡ wrote (edit T p c g d)) k
              (try_once-wrote (edit T p c g) (attempts k) d works)),
      )

  -- With something to write: if all ten attempts fail, the exception names the file and the error
  -- of the last attempt that had one.
  pub write_metadata-gave_up :
      (attempts : ℕ → Attempt T.Doc) (meta_path p c g : Text)
      → (is_empty p && (is_empty c && is_empty g)) ≡ false
      → ((i : ℕ) → i < metadata_retry_count → IsFailure (try_once T (edit T p c g) (attempts i)))
      → write_metadata T attempts meta_path p c g
        ≡ throw (
            gave_up T meta_path (
              errors metadata_retry_count
                (λ i. try_once T (edit T p c g) (attempts i))
                0
                (codes "metadata.yaml never appeared")))
  unfolding write_metadata
  write_metadata-gave_up attempts meta_path p c g something fails =
      let tried : ℕ → Tried T.Doc = λ i. try_once T (edit T p c g) (attempts i) in
      rw (
        something,
        retry-threw metadata_retry_count tried 0 (codes "metadata.yaml never appeared")
            (λ i h. from_zero (λ j. IsFailure (tried j)) i (fails i h)),
      )
