-- ===== src/Hex/Write.antt =====
-- What `raw_data_to_hex` writes: the sizes it allocates, and its two layouts against each other.
use mathlib.Core.List.{flatten}
use python_nss_ng.Prelude.{
  ℕ, zero, suc, ◌+◌, ◌-◌, ◌*◌, ◌≤◌, ◌<◌, Bytes, [], ◌∷◌, ◌++◌, length, drop, ltb, ◌≡◌, refl, sym,
  ap, ◌∙◌, arith, Bool-cases, inl, inr, length-append, length-drop, append_assoc, ltb→lt,
  not_ltb→le,
}
use python_nss_ng.Hex.{
  octet_chars, separator_before, hex_line, last_line_size, line_size, num_lines, hex_lines,
}

sub_one : (n : ℕ) → suc n - 1 ≡ n
sub_one n = omega arith

length-octet_chars : (o : ℕ) → length (octet_chars o) ≡ 2
unfolding octet_chars
length-octet_chars o = refl

length-separator :
    (sep rest : Bytes) → 0 < length rest → length (separator_before sep rest) ≡ length sep
unfolding separator_before
length-separator sep [] h = absurd (omega arith)
length-separator sep (o ∷ rest) h = refl

length-separator_end : (sep : Bytes) → length (separator_before sep []) ≡ 0
unfolding separator_before
length-separator_end sep = refl

-- A line that ends before the data does.
length-hex_line_inner :
    (sep : Bytes) (n : ℕ) (octets : Bytes)
    → n < length octets
    → length (hex_line sep n octets) ≡ n * (2 + length sep)
unfolding hex_line
length-hex_line_inner sep zero octets h = omega arith
length-hex_line_inner sep (suc n) [] h = absurd (omega arith)
length-hex_line_inner sep (suc n) (o ∷ rest) h = omega (
  arith,
  length-append (octet_chars o) (separator_before sep rest ++ hex_line sep n rest),
  length-append (separator_before sep rest) (hex_line sep n rest),
  length-octet_chars o,
  length-separator sep rest (omega arith),
  length-hex_line_inner sep n rest (omega arith),
)

last_line_size_step : (k m : ℕ) → last_line_size (suc (suc k)) m ≡ last_line_size (suc k) m + 2 + m
last_line_size_step k m =
    omega (arith, ap (λ (t : ℕ). t * m) (sub_one (suc k)), ap (λ (t : ℕ). t * m) (sub_one k))

-- The line with which the data end.
length-hex_line_last :
    (sep : Bytes) (n : ℕ) (octets : Bytes)
    → length octets ≤ n
    → length (hex_line sep n octets) ≡ last_line_size (length octets) (length sep)
unfolding hex_line
length-hex_line_last sep zero [] h = omega arith
length-hex_line_last sep zero (o ∷ rest) h = absurd (omega arith)
length-hex_line_last sep (suc n) [] h = omega arith
length-hex_line_last sep (suc n) (o ∷ []) h = omega (
  arith,
  length-append (octet_chars o) (separator_before sep [] ++ hex_line sep n []),
  length-append (separator_before sep []) (hex_line sep n []),
  length-octet_chars o,
  length-separator_end sep,
  length-hex_line_last sep n [] (omega arith),
)
length-hex_line_last sep (suc n) (o ∷ p ∷ rest) h = omega (
  arith,
  length-append (octet_chars o) (separator_before sep (p ∷ rest) ++ hex_line sep n (p ∷ rest)),
  length-append (separator_before sep (p ∷ rest)) (hex_line sep n (p ∷ rest)),
  length-octet_chars o,
  length-separator sep (p ∷ rest) (omega arith),
  length-hex_line_last sep n (p ∷ rest) (omega arith),
  last_line_size_step (length rest) (length sep),
)

-- Every line fills the buffer that is allocated for it, to the byte.
pub length-hex_line :
    (sep : Bytes) (n : ℕ) (octets : Bytes)
    → length (hex_line sep n octets) ≡ line_size n (length octets) (length sep)
unfolding line_size
length-hex_line sep n octets = elim (Bool-cases (ltb n (length octets))) [
  | inl h ↦ rw h (length-hex_line_inner sep n octets (ltb→lt _ _ h))
  | inr h ↦ rw h (length-hex_line_last sep n octets (not_ltb→le _ _ h))
]

hex_line-nil : (sep : Bytes) (n : ℕ) → hex_line sep n [] ≡ []
unfolding hex_line
hex_line-nil sep zero = refl
hex_line-nil sep (suc n) = refl

-- The first lines and the rest, side by side, are the one long line.
hex_line_split :
    (sep : Bytes) (n m : ℕ) (octets : Bytes)
    → n ≤ m
    → hex_line sep n octets ++ hex_line sep (m - n) (drop n octets) ≡ hex_line sep m octets
unfolding hex_line
hex_line_split sep zero m octets h = ap (λ k. hex_line sep k octets) (omega arith)
hex_line_split sep (suc n) zero octets h = absurd (omega arith)
hex_line_split sep (suc n) (suc m) [] h = hex_line-nil sep (suc m - suc n)
hex_line_split sep (suc n) (suc m) (o ∷ rest) h =
    ap
      (λ k.
        (octet_chars o ++ (separator_before sep rest ++ hex_line sep n rest))
        ++ hex_line sep k (drop n rest))
      (omega arith)
    ∙ append_assoc (octet_chars o) (separator_before sep rest ++ hex_line sep n rest) _
    ∙ ap (λ l. octet_chars o ++ l)
        (append_assoc (separator_before sep rest) (hex_line sep n rest) _
          ∙ ap (λ l. separator_before sep rest ++ l) (hex_line_split sep n m rest (omega arith)))

-- A line is no longer than the data.
hex_line_enough :
    (sep : Bytes) (n : ℕ) (octets : Bytes)
    → length octets ≤ n
    → hex_line sep n octets ≡ hex_line sep (length octets) octets
unfolding hex_line
hex_line_enough sep zero [] h = refl
hex_line_enough sep zero (o ∷ rest) h = absurd (omega arith)
hex_line_enough sep (suc n) [] h = refl
hex_line_enough sep (suc n) (o ∷ rest) h =
    ap (λ l. octet_chars o ++ (separator_before sep rest ++ l))
      (hex_line_enough sep n rest (omega arith))

drop_shorter : (n : ℕ) (octets : Bytes) → length (drop n octets) ≤ length octets + n - n
drop_shorter n octets = omega (arith, length-drop n octets)

-- The lines of several-line layout, put together, are the line of the one-line layout, for a
-- positive number of octets per line and fuel for the data's length.
pub flatten-hex_lines :
    (fuel : ℕ) (sep : Bytes) (n : ℕ) (octets : Bytes)
    → 0 < n
    → length octets ≤ fuel
    → flatten (hex_lines fuel sep n octets) ≡ hex_line sep (length octets) octets
unfolding flatten hex_lines
flatten-hex_lines zero sep n [] p h = sym (hex_line-nil sep 0)
flatten-hex_lines zero sep n (o ∷ rest) p h = absurd (omega arith)
flatten-hex_lines (suc fuel) sep n [] p h = sym (hex_line-nil sep 0)
flatten-hex_lines (suc fuel) sep n (o ∷ rest) p h =
    let octets : Bytes = o ∷ rest in
    let m : ℕ = length octets + n in
    ap (λ l. hex_line sep n octets ++ l)
      (flatten-hex_lines fuel sep n (drop n octets) p (omega (arith, length-drop n octets))
        ∙ sym (hex_line_enough sep (m - n) (drop n octets) (drop_shorter n octets)))
    ∙ hex_line_split sep n m octets (omega arith)
    ∙ hex_line_enough sep m octets (omega arith)

pub num_lines_step : (n len : ℕ) → 0 < n → 0 < len → num_lines n len ≡ 1 + num_lines n (len - n)
num_lines_step n len p q = grind arith

-- The list of lines has the size that is computed for it before the loop, for a positive number of
-- octets per line and fuel for the data's length.
pub length-hex_lines :
    (fuel : ℕ) (sep : Bytes) (n : ℕ) (octets : Bytes)
    → 0 < n
    → length octets ≤ fuel
    → length (hex_lines fuel sep n octets) ≡ num_lines n (length octets)
unfolding hex_lines
length-hex_lines zero sep n [] p h = grind arith
length-hex_lines zero sep n (o ∷ rest) p h = absurd (omega arith)
length-hex_lines (suc fuel) sep n [] p h = grind arith
length-hex_lines (suc fuel) sep n (o ∷ rest) p h =
    let octets : Bytes = o ∷ rest in
    ap suc (
      length-hex_lines fuel sep n (drop n octets) p (omega (arith, length-drop n octets))
      ∙ ap (num_lines n) (length-drop n octets))
    ∙ omega (arith, num_lines_step n (length octets) p (omega arith))
