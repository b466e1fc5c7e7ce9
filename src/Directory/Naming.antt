-- ===== src/Directory/Naming.antt =====
-- src/episode_recorder_node.cpp: what the name of a bag says. In the epoch style it gives back the
-- clock's reading.
use rosetta_recorder_cpp.Prelude.{
  ℕ, zero, suc, ◌-◌, ◌/◌, ◌%◌, ◌^◌, ◌≡◌, refl, sym, ap, ◌∙◌, Text, codes, ◌++◌, length, decimal,
  arith, All, All-append, value_from, value_from-decimal, decimal-IsDigit, IsDigit, Differs,
  All-weaken, split_at, ◌↔◌, ok, text_eq, text_eq_iff, Bool-cases, inl, inr,
}
use rosetta_recorder_cpp.Directory.{
  BagNameStyle, epoch, date_time, zeros, padded, base_name, parse_bag_name_style,
}

zeros-IsDigit : (n : ℕ) → All IsDigit (zeros n)
zeros-IsDigit zero = tt
zeros-IsDigit (suc n) = (omega arith, zeros-IsDigit n)

padded-IsDigit : (width n : ℕ) → All IsDigit (padded width n)
unfolding padded
padded-IsDigit width n =
    All-append IsDigit (zeros (width - length (decimal n))) (decimal n) (zeros-IsDigit _)
      (decimal-IsDigit n)

value_from-zeros : (n : ℕ) (s : Text) → value_from 0 (zeros n ++ s) ≡ value_from 0 s
value_from-zeros zero s = refl
value_from-zeros (suc n) s = value_from-zeros n s

value_from-padded : (width n : ℕ) → value_from 0 (padded width n) ≡ n
unfolding padded
value_from-padded width n =
    value_from-zeros (width - length (decimal n)) (decimal n) ∙ value_from-decimal n

-- A separator of names.
padded-Differs : (width n : ℕ) → All (Differs b'_') (padded width n)
padded-Differs width n = All-weaken (padded width n) (λ c h. omega arith) (padded-IsDigit width n)

-- In the epoch style, bags that start at different readings of the clock have different names.
pub base_name-injective :
    (local_stamp : ℕ → Text) (a b : ℕ)
    → base_name local_stamp epoch a ≡ base_name local_stamp epoch b
    → a ≡ b
unfolding base_name
base_name-injective local_stamp a b e =
    let (high, low) =
      split_at b'_' (padded 10 (a / 10 ^ 9)) (padded 10 (b / 10 ^ 9)) (padded 9 (a % 10 ^ 9))
        (padded 9 (b % 10 ^ 9)) (padded-Differs 10 _) (padded-Differs 10 _) e in
    let secs : a / 10 ^ 9 ≡ b / 10 ^ 9 = back 10 _ _ high in
    let nanos : a % 10 ^ 9 ≡ b % 10 ^ 9 = back 9 _ _ low in omega arith
  where
    back : (width m n : ℕ) → padded width m ≡ padded width n → m ≡ n
    back width m n e =
        sym (value_from-padded width m) ∙ ap (value_from 0) e ∙ value_from-padded width n

-- The name of each style.
abbrev pub style_name : BagNameStyle → Text
style_name epoch = codes "epoch"
style_name date_time = codes "datetime"

-- The parameter's text is accepted exactly if it is the name of a style, and then gives that style.
pub parse_bag_name_style_iff :
    (name : Text) (style : BagNameStyle)
    → (parse_bag_name_style name ≡ ok style) ↔ (name ≡ style_name style)
unfolding parse_bag_name_style text_eq
parse_bag_name_style_iff name style = (accepted name style, given name style)
  where
    accepted :
        (name : Text) (style : BagNameStyle)
        → parse_bag_name_style name ≡ ok style
        → name ≡ style_name style
    accepted name epoch h = elim (Bool-cases (text_eq name (codes "epoch"))) [
      | inl e ↦ (text_eq_iff name (codes "epoch")).0 e
      | inr e ↦ elim (Bool-cases (text_eq name (codes "datetime"))) [
        | inl e' ↦ absurd (cc (simp (e, e') at h))
        | inr e' ↦ absurd (cc (simp (e, e') at h))
      ]
    ]
    accepted name date_time h = elim (Bool-cases (text_eq name (codes "epoch"))) [
      | inl e ↦ absurd (cc (simp e at h))
      | inr e ↦ elim (Bool-cases (text_eq name (codes "datetime"))) [
        | inl e' ↦ (text_eq_iff name (codes "datetime")).0 e'
        | inr e' ↦ absurd (cc (simp (e, e') at h))
      ]
    ]

    given :
        (name : Text) (style : BagNameStyle)
        → name ≡ style_name style
        → parse_bag_name_style name ≡ ok style
    given name epoch h = rw h
    given name date_time h = rw h
