-- ===== src/Topics/Survivors.antt =====
-- `destroy_discovered_subscriptions` undoes `discover_topics`: the indices that the surviving
-- callbacks captured stay valid.
use mathlib.Core.List.{append_assoc, append-nil}
use rosetta_recorder_cpp.Prelude.{
  ℕ, zero, suc, ◌<◌, ◌≤◌, ◌≡◌, refl, ap, ◌∙◌, Bool, true, false, some, List, [], ◌∷◌, ◌++◌, length,
  get_elem?, take, drop, if◌then◌else◌, arith, take-suc, drop-get_elem?, take-length, drop-length,
  get_elem?-some,
}
use rosetta_recorder_cpp.Topics.{TopicState}
use rosetta_recorder_cpp.Topics.Discovery.{erase_at, erase_if_discovered, erase_discovered}

-- The topics that were not discovered, in order.
abbrev pub keep : List TopicState → List TopicState
keep [] = []
keep (t ∷ ts) = if t.discovered then keep ts else t ∷ keep ts

pub keep-append : (xs ys : List TopicState) → keep (xs ++ ys) ≡ keep xs ++ keep ys
keep-append [] ys = refl
keep-append (x ∷ xs) ys = ground (arith, keep-append xs ys)

take-erase_at : (i : ℕ) (ts : List TopicState) → take i (erase_at i ts) ≡ take i ts
take-erase_at zero [] = refl
take-erase_at zero (t ∷ ts) = refl
take-erase_at (suc i) [] = refl
take-erase_at (suc i) (t ∷ ts) = ap (◌∷◌ t) (take-erase_at i ts)

drop-erase_at : (i : ℕ) (ts : List TopicState) → drop i (erase_at i ts) ≡ drop (suc i) ts
drop-erase_at zero [] = refl
drop-erase_at zero (t ∷ ts) = refl
drop-erase_at (suc i) [] = refl
drop-erase_at (suc i) (t ∷ ts) = drop-erase_at i ts

length-erase_at :
    (i : ℕ) (ts : List TopicState) → i < length ts → suc (length (erase_at i ts)) ≡ length ts
length-erase_at i [] h = elim h [ ]
length-erase_at zero (t ∷ ts) h = refl
length-erase_at (suc i) (t ∷ ts) h = ap suc (length-erase_at i ts (omega arith))

erase_round :
    (b : Bool) (i : ℕ) (st : TopicState) (ts : List TopicState)
    → st.discovered ≡ b
    → get_elem? ts i ≡ some st
    → keep (take i (if b then erase_at i ts else ts)) ++ drop i (if b then erase_at i ts else ts)
      ≡ (keep (take i ts) ++ (if b then [] else st ∷ [])) ++ drop (suc i) ts
erase_round true i st ts e at =
    rw (take-erase_at i ts, drop-erase_at i ts, append-nil (keep (take i ts)))
erase_round false i st ts e at =
    rw (drop-get_elem? i ts at, append_assoc (keep (take i ts)) (st ∷ []) (drop (suc i) ts))

-- Below `i` the discovered topics go, and from `i` on nothing does.
erase_discovered-keep :
    (i : ℕ) (ts : List TopicState)
    → i ≤ length ts
    → erase_discovered i ts ≡ keep (take i ts) ++ drop i ts
unfolding erase_discovered
erase_discovered-keep zero ts h = refl
erase_discovered-keep (suc i) ts h =
    let (st, at) = get_elem?-some ts i h in
    rw (at, erase_discovered-keep i (erase_if_discovered i ts (some st)) (bounded st))
      (one_round st at)
  where
    bounded : (st : TopicState) → i ≤ length (erase_if_discovered i ts (some st))
    bounded st = ground (arith, length-erase_at i ts h)

    one_round :
        (st : TopicState)
        → get_elem? ts i ≡ some st
        → keep (take i (erase_if_discovered i ts (some st)))
            ++ drop i (erase_if_discovered i ts (some st))
          ≡ keep (take (suc i) ts) ++ drop (suc i) ts
    one_round st at =
        rw (take-suc i ts at, keep-append (take i ts) (st ∷ []))
          (erase_round st.discovered i st ts refl at)

pub erase_discovered-eq-keep : (ts : List TopicState) → erase_discovered (length ts) ts ≡ keep ts
erase_discovered-eq-keep ts =
    erase_discovered-keep (length ts) ts (omega arith)
    ∙ rw (take-length ts, drop-length ts) (append-nil (keep ts))
