-- ===== src/SecItem/Index.antt =====
-- Items and slices of a SecItem.
use python_nss_ng.Prelude.{
  ℕ, zero, suc, ◌+◌, ◌-◌, ◌≤◌, ◌<◌, Bytes, true, false, Option, none, some, List, [], ◌∷◌, length,
  ltb, leb, ltb→lt, not_ltb→le, subst, map, min, pos_part, ◌≡◌, inl, inr, refl, sym, ap, ◌∙◌, arith,
  if◌then◌else◌, take, drop, get_elem?, ◌==◌, ℤ, pos, negsuc, ◌+ℤ◌, All, Bool-cases,
}
use python_nss_ng.SecItem.{
  Kind, load, copy, clamp_high, Access, octet, index_error, SecItem_item, subscript_index,
  SecItem_slice, slice_loop, subscript_slice, octet_at,
}
use python_nss_ng.SecItem.Compare.{held}

get_elem?-in : (d : Bytes) (i : ℕ) → i < length d → (c : ℕ) × (get_elem? d i ≡ some c)
get_elem?-in [] i h = absurd (omega arith)
get_elem?-in (x ∷ d) zero h = (x, refl)
get_elem?-in (x ∷ d) (suc i) h = get_elem?-in d i (omega arith)

-- The octet at a position, or the IndexError where there is none.
abbrev pub octet_or_error : Option ℕ → Access
octet_or_error none = index_error
octet_or_error (some c) = octet c

get_elem?-out : (d : Bytes) (i : ℕ) → length d ≤ i → get_elem? d i ≡ none
get_elem?-out [] i h = refl
get_elem?-out (x ∷ d) zero h = absurd (omega arith)
get_elem?-out (x ∷ d) (suc i) h = get_elem?-out d i (omega arith)

loaded :
    (d : Bytes) (t : ℕ) (k : Kind) (i c : ℕ)
    → get_elem? d i ≡ some c
    → load (held d t k) i ≡ octet_or_error (get_elem? d i)
loaded d t k i c e = rw e refl

wrapped : (i n : ℕ) → i < n → negsuc i +ℤ pos n ≡ pos (n - suc i)
wrapped i n h = ground arith

before_first : (i n : ℕ) → n ≤ i → negsuc i +ℤ pos n ≡ negsuc (i - n)
before_first i n h = ground arith

load_lem :
    (d : Bytes) (t : ℕ) (k : Kind) (i : ℕ)
    → i < length d
    → load (held d t k) i ≡ octet_or_error (get_elem? d i)
load_lem d t k i h = let (c, e) = get_elem?-in d i h in loaded d t k i c e

item_lem :
    (d : Bytes) (t : ℕ) (k : Kind) (i : ℕ)
    → SecItem_item (held d t k) (pos i) ≡ octet_or_error (get_elem? d i)
unfolding SecItem_item
item_lem d t k i = elim (Bool-cases (leb (length d) i)) [
  | inl h ↦ rw (h, get_elem?-out d i (ground arith)) refl
  | inr h ↦ rw h (load_lem d t k i (ground arith))
]

-- The position that a Python index stands for in `n` octets, `none` if it is before the first.
abbrev pub position : ℕ → ℤ → Option ℕ
position n (pos i) = some i
position n (negsuc i) = if ltb i n then some (n - suc i) else none

abbrev pub at_position : Bytes → Option ℕ → Access
at_position d none = index_error
at_position d (some i) = octet_or_error (get_elem? d i)

-- An index, negative ones counted from the end, gives the octet at its position, or the
-- IndexError, and never reads out of bounds.
pub subscript_index_lem :
    (d : Bytes) (t : ℕ) (k : Kind) (i : ℤ)
    → subscript_index (held d t k) i ≡ at_position d (position (length d) i)
unfolding subscript_index SecItem_item
subscript_index_lem d t k (pos i) = item_lem d t k i
subscript_index_lem d t k (negsuc i) = elim (Bool-cases (ltb i (length d))) [
  | inl h ↦ rw (h, wrapped i (length d) (ltb→lt _ _ h)) (item_lem d t k (length d - suc i))
  | inr h ↦ rw (h, before_first i (length d) (not_ltb→le _ _ h)) refl
]

-- The positions that a loop of `n` rounds visits.
abbrev pub positions : ℕ → ℤ → ℤ → List ℤ
positions zero cur step = []
positions (suc n) cur step = cur ∷ positions n (cur +ℤ step) step

-- A position inside the data, which is where `PySlice_GetIndicesEx` promises all of them to be.
abbrev pub InData : Bytes → ℤ → Type 0
InData d (pos i) = i < length d
InData d (negsuc i) = ⊥

-- The octets at some positions are read.
abbrev pub Reads : Bytes → List ℤ → Option Bytes → Type 0
Reads d ps result = (cs : Bytes) × ((result ≡ some cs) × (map some cs ≡ map (octet_at d) ps))

add_one_pos : (i : ℕ) → pos i +ℤ pos 1 ≡ pos (suc i)
add_one_pos i = ground arith

octet_at-in : (d : Bytes) (p : ℤ) → InData d p → (c : ℕ) × (octet_at d p ≡ some c)
octet_at-in d (pos i) h = get_elem?-in d i h
octet_at-in d (negsuc i) h = absurd h

Reads-next :
    (d : Bytes) (n : ℕ) (cur step : ℤ) (c : ℕ) (cs : Bytes)
    → octet_at d cur ≡ some c
    → slice_loop d n (cur +ℤ step) step ≡ some cs
    → slice_loop d (suc n) cur step ≡ some (c ∷ cs)
unfolding slice_loop
Reads-next d n cur step c cs e h = rw (slice_loop, e, h) refl

slice_loop-Reads :
    (d : Bytes) (n : ℕ) (cur step : ℤ)
    → All (InData d) (positions n cur step)
    → Reads d (positions n cur step) (slice_loop d n cur step)
unfolding slice_loop
slice_loop-Reads d zero cur step _ = ([], (refl, refl))
slice_loop-Reads d (suc n) cur step (h, hs) =
    let (c, e) = octet_at-in d cur h in
    let (cs, (r, m)) = slice_loop-Reads d n (cur +ℤ step) step hs in
    (c ∷ cs, (Reads-next d n cur step c cs e r, rw (e, m) refl))

-- The copy of the contiguous octets.
drop-get : (d : Bytes) (i c : ℕ) → get_elem? d i ≡ some c → drop i d ≡ c ∷ drop (suc i) d
drop-get [] i c e = ground arith
drop-get (x ∷ d) zero c e = ground arith
drop-get (x ∷ d) (suc i) c e = drop-get d i c e

slice_loop_one :
    (d : Bytes) (n i : ℕ)
    → i + n ≤ length d
    → slice_loop d n (pos i) (pos 1) ≡ some (take n (drop i d))
unfolding slice_loop
slice_loop_one d zero i h = refl
slice_loop_one d (suc n) i h =
    let (c, e) = get_elem?-in d i (omega arith) in
    Reads-next d n (pos i) (pos 1) c (take n (drop (suc i) d)) e (
      ap (λ p. slice_loop d n p (pos 1)) (add_one_pos i) ∙ slice_loop_one d n (suc i) (omega arith))
    ∙ ap (λ t. some (take (suc n) t)) (sym (drop-get d i c e))

last_in :
    (d : Bytes) (n i : ℕ)
    → All (InData d) (positions (suc n) (pos i) (pos 1))
    → i + suc n ≤ length d
last_in d zero i (h, hs) = omega arith
last_in d (suc n) i (h, hs) = omega (
  arith,
  last_in d n (suc i)
      (subst (λ p. All (InData d) (positions (suc n) p (pos 1))) (add_one_pos i) hs),
)

le→leb : (a b : ℕ) → a ≤ b → leb a b ≡ true
le→leb a b h = ground arith

==→eq : (a b : ℕ) → (a == b) ≡ true → a ≡ b
==→eq a b h = ground arith

not_empty : (n : ℕ) (r : Option Bytes) → (if suc n == 0 then some [] else r) ≡ r
not_empty n r = ground arith

copied : (d : Bytes) (n s : ℕ) → s + n ≤ length d → copy d s n ≡ slice_loop d n (pos s) (pos 1)
copied d n s h = rw (le→leb (s + n) (length d) h) (sym (slice_loop_one d n s h))

contiguous :
    (d : Bytes) (n s m : ℕ)
    → m ≡ 1
    → All (InData d) (positions (suc n) (pos s) (pos m))
    → Reads d (positions (suc n) (pos s) (pos m)) (copy d s (suc n))
contiguous d n s m e h =
    subst
      (λ m.
        All (InData d) (positions (suc n) (pos s) (pos m))
        → Reads d (positions (suc n) (pos s) (pos m)) (copy d s (suc n)))
      (sym e)
      (λ h.
        subst (Reads d (positions (suc n) (pos s) (pos 1)))
          (sym (copied d (suc n) s (last_in d n s h)))
          (slice_loop-Reads d (suc n) (pos s) (pos 1) h))
      h

by_step :
    (d : Bytes) (n s m : ℕ)
    → All (InData d) (positions (suc n) (pos s) (pos m))
    → Reads d
        (positions (suc n) (pos s) (pos m))
        (if m == 1 then copy d s (suc n) else slice_loop d (suc n) (pos s) (pos m))
by_step d n s m h = elim (Bool-cases (m == 1)) [
  | inl e ↦ rw e (contiguous d n s m (==→eq m 1 e) h)
  | inr e ↦ rw e (slice_loop-Reads d (suc n) (pos s) (pos m) h)
]

-- A slice reads the octets at its positions, if those all lie inside the data; the copy of the
-- case `step == 1` as well as the loop.
pub subscript_slice_lem :
    (d : Bytes) (t : ℕ) (k : Kind) (start step : ℤ) (n : ℕ)
    → All (InData d) (positions n start step)
    → Reads d (positions n start step) (subscript_slice (held d t k) start step n)
unfolding subscript_slice
subscript_slice_lem d t k (negsuc s) step zero h = ([], (refl, refl))
subscript_slice_lem d t k (negsuc s) step (suc n) (h, hs) = absurd h
subscript_slice_lem d t k (pos s) (negsuc m) zero h = ([], (refl, refl))
subscript_slice_lem d t k (pos s) (negsuc m) (suc n) h =
    subst (Reads d (positions (suc n) (pos s) (negsuc m))) (sym (not_empty n _))
      (slice_loop-Reads d (suc n) (pos s) (negsuc m) h)
subscript_slice_lem d t k (pos s) (pos m) zero h = ([], (refl, refl))
subscript_slice_lem d t k (pos s) (pos m) (suc n) h =
    subst (Reads d (positions (suc n) (pos s) (pos m))) (sym (not_empty n _)) (by_step d n s m h)

high_low : (n i j : ℕ) → clamp_high n i j - i ≡ min j n - i
high_low n i j = ground arith

high_fits : (n i j : ℕ) → (clamp_high n i j == i) ≡ false → i + (clamp_high n i j - i) ≤ n
high_fits n i j h = ground arith

low_high : (n i j : ℕ) → (clamp_high n i j == i) ≡ true → min j n - i ≡ 0
low_high n i j h = ground arith

cut :
    (d : Bytes) (i j : ℕ)
    → (if clamp_high (length d) i j == i then some [] else copy d i (clamp_high (length d) i j - i))
      ≡ some (take (min j (length d) - i) (drop i d))
cut d i j = elim (Bool-cases (clamp_high (length d) i j == i)) [
  | inl e ↦ rw e (ap (λ n. some (take n (drop i d))) (sym (low_high (length d) i j e)))
  | inr e ↦
      rw (e, le→leb _ _ (high_fits (length d) i j e))
        (ap (λ n. some (take n (drop i d))) (high_low (length d) i j))
]

-- A slice with two bounds never reads out of bounds, and gives the octets from the lower bound to
-- the upper one, both cut to the data.
pub slice_lem :
    (d : Bytes) (t : ℕ) (k : Kind) (i j : ℤ)
    → SecItem_slice (held d t k) i j
      ≡ some (take (min (pos_part j) (length d) - pos_part i) (drop (pos_part i) d))
unfolding SecItem_slice
slice_lem d t k (pos i) (pos j) = cut d i j
slice_lem d t k (pos i) (negsuc j) = cut d i 0
slice_lem d t k (negsuc i) (pos j) = cut d 0 j
slice_lem d t k (negsuc i) (negsuc j) = cut d 0 0
