-- ===== src/Format/Align.antt =====
-- The columns that `py_indented_format` aligns values to.
use mathlib.Core.Path.{ap₂}
use python_nss_ng.Prelude.{
  ◌==ℤ◌, ==ℤ_eq, ℕ, zero, suc, ◌+◌, ◌-◌, ◌≤◌, Bytes, false, List, [], ◌∷◌, ◌++◌, length, take, drop,
  ltb, if◌then◌else◌, ℤ, map, ◌≡◌, ◌⊎◌, refl, sym, ap, ◌∙◌, subst, arith, All, Bool-cases, inl, inr,
  length-drop, take-append-drop,
}
use python_nss_ng.Format.{
  LineInfo, has_value, justify, group_len, widest, value_column, align, to_int,
}

-- A line without a value, or one whose value starts in a column behind the label.
abbrev pub OnColumn : ℕ → LineInfo → Type 0
OnColumn c l = (has_value l ≡ false) ⊎ (length l.label + l.justification_len ≡ c)

-- The lines behind one of indentation `i` whose column is `c`: a line of the same indentation
-- has the same column.
abbrev pub Follows : ℤ → ℕ → List LineInfo → Type 0
Follows i c [] = Unit
Follows i c (l ∷ ls) =
    (d : ℕ) × ((((i ==ℤ l.indent_len) ≡ false) ⊎ (d ≡ c))
      × (OnColumn d l × Follows l.indent_len d ls))

abbrev pub Aligned : List LineInfo → Type 0
Aligned [] = Unit
Aligned (l ∷ ls) = (c : ℕ) × (OnColumn c l × Follows l.indent_len c ls)

-- What the group's widest label bounds.
abbrev Within : ℕ → LineInfo → Type 0
Within w l = (has_value l ≡ false) ⊎ (length l.label ≤ w)

label_first : (w n : ℕ) → n ≤ w → n + (value_column w - n) ≡ value_column w
label_first w n h = ground arith

fits : (w : ℕ) (l : LineInfo) → Within w l → OnColumn (value_column w) (justify (value_column w) l)
unfolding justify
fits w l (inl e) = rw (justify, e) (inl e)
fits w l (inr h) = elim (Bool-cases (has_value l)) [
  | inl e ↦ rw (justify, e) (inr (label_first w (length l.label) h))
  | inr e ↦ rw (justify, e) (inl e)
]

indent-justify : (c : ℕ) (l : LineInfo) → (justify c l).indent_len ≡ l.indent_len
unfolding justify
indent-justify c l = elim (Bool-cases (has_value l)) [
  | inl e ↦ rw (justify, e) refl
  | inr e ↦ rw (justify, e) refl
]

step : ℕ → LineInfo → ℕ
step a l = if has_value l then (if ltb a (length l.label) then length l.label else a) else a

step_lem : (a : ℕ) (l : LineInfo) → (a ≤ step a l) × Within (step a l) l
unfolding step
step_lem a l = elim (Bool-cases (has_value l)) [
  | inl e ↦ rw (step, e) (ground arith, inr (ground arith))
  | inr e ↦ rw (step, e) (omega arith, inl refl)
]

Within-le : (v w : ℕ) (l : LineInfo) → v ≤ w → Within v l → Within w l
Within-le v w l h (inl e) = inl e
Within-le v w l h (inr k) = inr (omega arith)

widest_lem : (a : ℕ) (ls : List LineInfo) → (a ≤ widest a ls) × All (Within (widest a ls)) ls
unfolding widest step
widest_lem a [] = (omega arith, tt)
widest_lem a (l ∷ ls) =
    let (up, here) = step_lem a l in
    let (more, all) = widest_lem (step a l) ls in
    (omega arith, (Within-le (step a l) (widest (step a l) ls) l more here, all))

abbrev SameIndent : ℤ → LineInfo → Type 0
SameIndent i l = i ≡ l.indent_len

-- The next group begins at another indentation.
abbrev HeadDiffers : ℤ → List LineInfo → Type 0
HeadDiffers i [] = Unit
HeadDiffers i (l ∷ ls) = (i ==ℤ l.indent_len) ≡ false

group_lem :
    (i : ℤ) (ls : List LineInfo)
    → All (SameIndent i) (take (group_len i ls) ls) × HeadDiffers i (drop (group_len i ls) ls)
unfolding group_len
group_lem i [] = (tt, tt)
group_lem i (l ∷ ls) = elim (Bool-cases (i ==ℤ l.indent_len)) [
  | inl e ↦ rw (group_len, e) ((==ℤ_eq i l.indent_len e, (group_lem i ls).0), (group_lem i ls).1)
  | inr e ↦ rw (group_len, e) (tt, e)
]

new_group : (i : ℤ) (c : ℕ) (ls : List LineInfo) → HeadDiffers i ls → Aligned ls → Follows i c ls
new_group i c [] h a = tt
new_group i c (l ∷ ls) h (d, (on, next)) = (d, (inl h, (on, next)))

same_group :
    (i : ℤ) (w : ℕ) (group rest : List LineInfo)
    → All (SameIndent i) group
    → All (Within w) group
    → Follows i (value_column w) rest
    → Follows i (value_column w) (map (justify (value_column w)) group ++ rest)
same_group i w [] rest same within next = next
same_group i w (l ∷ group) rest (s, same) (h, within) next = (
  value_column w,
  (
    inr refl,
    (
      fits w l h,
      subst (λ k. Follows k (value_column w) (map (justify (value_column w)) group ++ rest))
          (s ∙ sym (indent-justify (value_column w) l))
          (same_group i w group rest same within next),
    ),
  ),
)

align-HeadDiffers :
    (i : ℤ) (fuel : ℕ) (ls : List LineInfo) → HeadDiffers i ls → HeadDiffers i (align fuel ls)
unfolding align
align-HeadDiffers i zero ls h = h
align-HeadDiffers i (suc fuel) [] h = tt
align-HeadDiffers i (suc fuel) (l ∷ ls) h =
    subst (λ k. (i ==ℤ k) ≡ false)
      (sym (
        indent-justify (value_column (widest 0 (l ∷ take (group_len (to_int l.indent_len) ls) ls)))
          l))
      h

-- Step 2: a group in each round.
-- An indentation that fits a C int.
abbrev pub FitsInt : LineInfo → Type 0
FitsInt l = to_int l.indent_len ≡ l.indent_len

All-drop : (n : ℕ) (ls : List LineInfo) → All FitsInt ls → All FitsInt (drop n ls)
All-drop zero ls h = h
All-drop (suc n) [] h = tt
All-drop (suc n) (l ∷ ls) (h, hs) = All-drop n ls hs

align-Aligned :
    (fuel : ℕ) (ls : List LineInfo) → length ls ≤ fuel → All FitsInt ls → Aligned (align fuel ls)
unfolding align
align-Aligned zero [] h fit = tt
align-Aligned zero (l ∷ ls) h fit = absurd (omega arith)
align-Aligned (suc fuel) [] h fit = tt
align-Aligned (suc fuel) (l ∷ ls) h (fit, fits_rest) =
    let i = to_int l.indent_len in
    let n = group_len i ls in
    let group = take n ls in
    let w = widest 0 (l ∷ group) in
    let (same, differs) = group_lem i ls in
    let (_, (here, within)) = widest_lem 0 (l ∷ group) in
    (
      value_column w,
      (
        fits w l here,
        subst
            (λ k.
              Follows k (value_column w)
                (map (justify (value_column w)) group ++ align fuel (drop n ls)))
            (fit ∙ sym (indent-justify (value_column w) l))
            (same_group i w group (align fuel (drop n ls)) same within (
              new_group i (value_column w) (align fuel (drop n ls))
                (align-HeadDiffers i fuel (drop n ls) differs)
                (align-Aligned fuel (drop n ls) (omega (arith, length-drop n ls))
                  (All-drop n ls fits_rest)))),
      ),
    )

-- What the alignment leaves of a line.
abbrev pub texts : LineInfo → ℤ × (Bytes × Bytes)
texts l = (l.indent_len, (l.label, l.value))

texts-justify : (c : ℕ) (l : LineInfo) → texts (justify c l) ≡ texts l
unfolding justify
texts-justify c l = elim (Bool-cases (has_value l)) [
  | inl e ↦ rw (justify, e) refl
  | inr e ↦ rw (justify, e) refl
]

kept :
    (c : ℕ) (group rest rest' : List LineInfo)
    → map texts rest ≡ map texts rest'
    → map texts (map (justify c) group ++ rest) ≡ map texts (group ++ rest')
kept c [] rest rest' h = h
kept c (l ∷ group) rest rest' h =
    ap₂ (λ x xs. x ∷ xs) (texts-justify c l) (kept c group rest rest' h)

align-texts : (fuel : ℕ) (ls : List LineInfo) → map texts (align fuel ls) ≡ map texts ls
unfolding align
align-texts zero ls = refl
align-texts (suc fuel) [] = refl
align-texts (suc fuel) (l ∷ ls) =
    let n = group_len (to_int l.indent_len) ls in
    let group = l ∷ take n ls in
    kept (value_column (widest 0 group)) group (align fuel (drop n ls)) (drop n ls)
      (align-texts fuel (drop n ls))
    ∙ ap (λ t. map texts (l ∷ t)) (take-append-drop n ls)

-- With a round for each line and indentations that fit a C int, in each run of lines of one
-- indentation the values start in one column, and the indentations, labels and values stay as they
-- are.
pub align_lem :
    (fuel : ℕ) (ls : List LineInfo)
    → length ls ≤ fuel
    → All FitsInt ls
    → Aligned (align fuel ls) × (map texts (align fuel ls) ≡ map texts ls)
align_lem fuel ls h fit = (align-Aligned fuel ls h fit, align-texts fuel ls)
