-- ===== src/Directory/Fresh.antt =====
-- src/episode_recorder_node.cpp: `create_bag_dir` ends, with a directory that is not there yet.
use rosetta_recorder_cpp.Prelude.{
  ℕ, zero, suc, ◌+◌, ◌≤◌, ◌<◌, ◌≡◌, ◌≢◌, refl, sym, ap, ◌∙◌, Text, text_eq, text_eq_iff, true,
  false, Option, some, List, [], ◌∷◌, ◌++◌, length, decimal, ◌==◌, subst, arith, Bool-cases, ◌⊎◌,
  inl, inr, All, pigeonhole, value_from, value_from-decimal, append_cancel,
}
use rosetta_recorder_cpp.Directory.{
  BagNameStyle, base_name, numbered, Paths, first_free, create_bag_dir,
}

same_or_not : (s t : Text) → (s ≡ t) ⊎ (s ≢ t)
same_or_not s t = elim (Bool-cases (text_eq s t)) [
  | inl e ↦ inl ((text_eq_iff s t).0 e)
  | inr e ↦ inr (λ same. cc ((text_eq_iff s t).1 same))
]

longer : (base s : Text) (c : ℕ) → base ≢ base ++ c ∷ s
longer [] s c e = cc
longer (b ∷ base) s c e = longer base s c (ground (arith, e))

numbered-injective : (base : Text) (j k : ℕ) → numbered base j ≡ numbered base k → j ≡ k
numbered-injective base zero zero e = refl
numbered-injective base zero (suc k) e = absurd (longer base _ b'-' e)
numbered-injective base (suc j) zero e = absurd (longer base _ b'-' (sym e))
numbered-injective base (suc j) (suc k) e =
    let same : decimal (suc j) ≡ decimal (suc k) =
      append_cancel (b'-' ∷ []) _ _ (append_cancel base _ _ e) in
    sym (value_from-decimal (suc j)) ∙ ap (value_from 0) same ∙ value_from-decimal (suc k)

equal : (k i : ℕ) → (k == i) ≡ true → k ≡ i
equal k i e = ground (arith, e)

differ : false ≢ true
differ e = cc

-- The search came to try `n`, the first of those from `i` on that is free.
pub record Finds (fs : Paths) (bag_base base : Text) (i : ℕ) (dir : Option Text) : Type 0 where
  pub n : ℕ
  pub found : dir ≡ some (fs.join bag_base (numbered base n))
  pub free : fs.exists (fs.join bag_base (numbered base n)) ≡ false
  pub taken : (k : ℕ) → i ≤ k → k < n → fs.exists (fs.join bag_base (numbered base k)) ≡ true

first_free-Finds :
    (fuel : ℕ) (fs : Paths) (bag_base base : Text) (i n : ℕ)
    → fs.exists (fs.join bag_base (numbered base n)) ≡ false
    → i ≤ n
    → n < i + fuel
    → Finds fs bag_base base i (first_free fuel fs bag_base base i)
unfolding first_free
first_free-Finds zero fs bag_base base i n free from enough = absurd (omega arith)
first_free-Finds (suc fuel) fs bag_base base i n free from enough =
    elim (Bool-cases (fs.exists (fs.join bag_base (numbered base i)))) [
      | inr e ↦
          simp e (record { n = i; found = refl; free = e; taken = λ k a b. absurd (omega arith) })
      | inl e ↦
          let later =
            first_free-Finds fuel fs bag_base base (suc i) n free (other e) (omega arith) in
          simp e (record {
            n = later.n;
            found = later.found;
            free = later.free;
            taken = λ k a b. elim (Bool-cases (k == i)) [
              | inl here ↦
                  subst (λ j. fs.exists (fs.join bag_base (numbered base j)) ≡ true)
                    (sym (equal k i here)) e
              | inr there ↦ later.taken k (ground (arith, there)) b
            ];
          })
    ]
  where
    other : fs.exists (fs.join bag_base (numbered base i)) ≡ true → suc i ≤ n
    other e = elim (Bool-cases (n == i)) [
      | inl same ↦ absurd (
          differ (
            sym (
              subst (λ j. fs.exists (fs.join bag_base (numbered base j)) ≡ false) (equal n i same)
                free)
            ∙ e))
      | inr apart ↦ ground (arith, apart, from)
    ]

-- If different names give different paths and none but the listed paths exist, then one round more
-- than are listed is enough: the loop ends, with a path that does not exist, and with the least
-- number that is free.
pub create_bag_dir-Finds :
    (fs : Paths) (listing : List Text) (local_stamp : ℕ → Text) (bag_base : Text)
    (style : BagNameStyle) (since fuel : ℕ)
    → ((s t : Text) → fs.join bag_base s ≡ fs.join bag_base t → s ≡ t)
    → ((path : Text) → All (λ other. path ≢ other) listing → fs.exists path ≡ false)
    → length listing < fuel
    → Finds fs bag_base
        (base_name local_stamp style since)
        0
        (create_bag_dir fuel fs local_stamp bag_base style since)
unfolding create_bag_dir
create_bag_dir-Finds fs listing local_stamp bag_base style since fuel join_injective closed enough =
    let base = base_name local_stamp style since in
    let (n, bound, absent) =
      pigeonhole same_or_not listing (λ k. fs.join bag_base (numbered base k))
        (λ j k e. numbered-injective base j k (join_injective _ _ e)) in
    first_free-Finds fuel fs bag_base base 0 n (closed _ absent) (omega arith) (omega arith)
