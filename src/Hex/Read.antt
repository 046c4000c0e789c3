-- ===== src/Hex/Read.antt =====
-- `read_hex`: it reads back what `raw_data_to_hex` writes, stays in its buffer and ends.
use mathlib.Core.List.{flatten}
use python_nss_ng.Prelude.{
  ℕ, zero, suc, ◌+◌, ◌*◌, ◌/◌, ◌%◌, ◌≤◌, ◌<◌, Bytes, true, false, Option, none, some, [], ◌∷◌, ◌++◌,
  length, take, drop, lt→ltb, List, ◌^◌, ◌==◌, bit_or, ◌≡◌, ◌≢◌, refl, ap, ◌∙◌, arith, Bool-cases,
  Option-cases, inl, inr, length-append, length-drop, append_assoc, append-nil, All, ℤ, pos_part,
  ==_iff,
}
use python_nss_ng.Hex.{
  octet_chars, separator_before, hex_line, HexText, one_line, lines, separator_or_empty,
  raw_data_to_hex, int_num_lines, num_lines, hex_lines, hex_value, tolower, is_in, skip_separators,
  skip_0x, HexRead, ok, invalid, read_digit, read_octets, read_hex,
}
use python_nss_ng.Hex.Octets.{octet_lem, high_char, low_char}
use python_nss_ng.Hex.Write.{flatten-hex_lines, length-hex_lines}

-- A separator set that holds no hexadecimal digit, so that it cannot eat one.
abbrev pub NoDigit : Bytes → Type 0
NoDigit = All (λ c. hex_value c ≡ none)

abbrev pub AllOctets : Bytes → Type 0
AllOctets = All (λ o. o < 256)

-- Every character of `sep` is one of `separators`.
abbrev pub AllIn : Bytes → Bytes → Type 0
AllIn separators = All (λ c. is_in c separators ≡ true)

digit_not_in :
    (separators : Bytes) (c v : ℕ)
    → NoDigit separators
    → hex_value c ≡ some v
    → is_in c separators ≡ false
digit_not_in [] c v _ h = refl
digit_not_in (d ∷ separators) c v (nd, ns) h = elim (Bool-cases (c == d)) [
  | inl same ↦ absurd (cc (nd, h, (==_iff c d).0 same))
  | inr other ↦ rw other (digit_not_in separators c v ns h)
]

skip-append :
    (separators sep src : Bytes)
    → AllIn separators sep
    → skip_separators separators (sep ++ src) ≡ skip_separators separators src
unfolding skip_separators
skip-append separators [] src _ = refl
skip-append separators (c ∷ sep) src (h, hs) = rw h (skip-append separators sep src hs)

-- A digit is where the skipping stops.
skip_digit :
    (separators src : Bytes) (c v : ℕ)
    → NoDigit separators
    → hex_value c ≡ some v
    → skip_separators separators (c ∷ src) ≡ c ∷ src
unfolding skip_separators
skip_digit separators src c v n h = rw (digit_not_in separators c v n h)

not_x : (c v : ℕ) → hex_value c ≡ some v → c ≢ b'x'
unfolding hex_value
not_x c v h = ground arith

-- No `0x` is seen in front of a pair of digits.
skip_0x_pair :
    (hi lo v : ℕ) (src : Bytes)
    → hex_value (tolower lo) ≡ some v
    → skip_0x (hi ∷ lo ∷ src) ≡ hi ∷ lo ∷ src
unfolding skip_0x
skip_0x_pair hi lo v src h = ground (arith, not_x (tolower lo) v h)

-- One octet is read.
read_octet :
    (fuel : ℕ) (separators : Bytes) (len o : ℕ) (sep src done : Bytes)
    → NoDigit separators
    → o < 256
    → AllIn separators sep
    → read_octets (suc fuel) separators len (sep ++ (octet_chars o ++ src)) done
      ≡ read_octets fuel separators len src (done ++ o ∷ [])
unfolding read_octets
read_octet fuel separators len o sep src done n h i =
    let octet = octet_lem o h in
    let skipped = skip-append separators sep (octet_chars o ++ src) i in
    let pair = skip_digit separators (low_char o ∷ src) (high_char o) (o / 16) n octet.high in
    let plain = skip_0x_pair (high_char o) (low_char o) (o % 16) src octet.low_lower in
    rw (
      skipped, read_octets, octet.chars, pair, plain, octet.high_lower, plain, octet.low_lower,
      plain, octet.joined,
    )

-- What is left of a line behind an octet: separators and digits in turn.
read_gap :
    (fuel : ℕ) (separators : Bytes) (len : ℕ) (sep rest done : Bytes)
    → NoDigit separators
    → AllOctets rest
    → AllIn separators sep
    → length rest < fuel
    → read_octets fuel separators len
        (separator_before sep rest ++ hex_line sep (length rest) rest)
        done
      ≡ some (ok (done ++ rest))
unfolding separator_before hex_line
read_gap zero separators len sep rest done n h i lt = absurd (omega arith)
read_gap (suc fuel) separators len sep [] done n h i lt =
    unfold read_octets skip_separators in rw append-nil
read_gap (suc fuel) separators len sep (o ∷ r) done n (h, hs) i lt =
    read_octet fuel separators len o sep (separator_before sep r ++ hex_line sep (length r) r) done
      n h i
    ∙ read_gap fuel separators len sep r (done ++ o ∷ []) n hs i (omega arith)
    ∙ ap (λ l. some (ok l)) (append_assoc done (o ∷ []) r)

read_line :
    (fuel : ℕ) (separators : Bytes) (len : ℕ) (sep octets : Bytes)
    → NoDigit separators
    → AllOctets octets
    → AllIn separators sep
    → length octets < fuel
    → read_octets fuel separators len (hex_line sep (length octets) octets) [] ≡ some (ok octets)
unfolding hex_line separator_before
read_line zero separators len sep octets n h i lt = absurd (omega arith)
read_line (suc fuel) separators len sep [] n h i lt =
    read_gap (suc fuel) separators len sep [] [] n h i lt
read_line (suc fuel) separators len sep (o ∷ r) n (h, hs) i lt =
    read_octet fuel separators len o [] (separator_before sep r ++ hex_line sep (length r) r) [] n h
      tt
    ∙ read_gap fuel separators len sep r (o ∷ []) n hs i (omega arith)

-- The text of a layout, its lines put side by side.
abbrev pub text_of : HexText → Bytes
text_of (one_line s) = s
text_of (lines ls) = flatten ls

take_whole : (l : List Bytes) (n : ℕ) → length l ≡ n → take n l ≡ l
take_whole [] zero h = refl
take_whole [] (suc n) h = refl
take_whole (x ∷ l) zero h = absurd (omega arith)
take_whole (x ∷ l) (suc n) h = ap (λ t. x ∷ t) (take_whole l n (omega arith))

int_size : (n len : ℕ) → len + n ≤ 2 ^ 31 → int_num_lines n len ≡ num_lines n len
unfolding int_num_lines
int_size n len h = rw (lt→ltb (len + n) (2 ^ 31 + 1) (omega arith)) refl

text_of-hex :
    (octets : Bytes) (per_line : ℤ) (separator : Option Bytes)
    → length octets + pos_part per_line ≤ 2 ^ 31
    → text_of (raw_data_to_hex octets per_line separator)
      ≡ hex_line (separator_or_empty separator) (length octets) octets
unfolding raw_data_to_hex int_num_lines
text_of-hex octets per_line separator fits = elim (Bool-cases (pos_part per_line == 0)) [
  | inl one ↦ rw one
  | inr more ↦
      rw
        (
          more,
          int_size (pos_part per_line) (length octets) fits,
          take_whole
              (hex_lines (length octets) (separator_or_empty separator) (pos_part per_line) octets)
              (num_lines (pos_part per_line) (length octets))
              (length-hex_lines (length octets) (separator_or_empty separator) (pos_part per_line)
                octets (ground arith) (omega arith)),
        )
        (flatten-hex_lines (length octets) (separator_or_empty separator) (pos_part per_line) octets
          (ground arith) (omega arith))
]

-- `read_hex` gives back the octets, numbers below 256, that `raw_data_to_hex` wrote, in either
-- layout, if its separator set has every character of the separator and no hexadecimal digit,
-- there is more fuel than octets, the octets and those of a line are not more than 2^31 in all,
-- and the octets times two more than the length of the separator are fewer.
pub read_hex-raw_data_to_hex :
    (fuel : ℕ) (octets : Bytes) (per_line : ℤ) (separator : Option Bytes) (separators : Bytes)
    → NoDigit separators
    → AllOctets octets
    → AllIn separators (separator_or_empty separator)
    → length octets < fuel
    → length octets + pos_part per_line ≤ 2 ^ 31
    → length octets * (2 + length (separator_or_empty separator)) < 2 ^ 31
    → read_hex fuel (text_of (raw_data_to_hex octets per_line separator)) (some separators)
      ≡ some (ok octets)
unfolding read_hex
read_hex-raw_data_to_hex fuel octets per_line separator separators n h i lt fits size =
    rw (text_of-hex octets per_line separator fits)
      (read_line fuel separators _ (separator_or_empty separator) octets n h i lt)

length-skip : (separators src : Bytes) → length (skip_separators separators src) ≤ length src
unfolding skip_separators
length-skip separators [] = omega arith
length-skip separators (c ∷ src) = ground (arith, length-skip separators src)

length-skip_0x : (src : Bytes) → length (skip_0x src) ≤ length src
unfolding skip_0x
length-skip_0x src = ground (arith, length-drop 2 src)

-- A digit stands before the end of the text.
digit_inside : (src : Bytes) (v : ℕ) → read_digit src 1 ≡ some v → 2 ≤ length src
unfolding hex_value tolower
digit_inside [] v h = cc
digit_inside (c ∷ []) v h = cc
digit_inside (c ∷ d ∷ src) v h = omega arith

-- The answers that keep to the buffer of half the input's length and to the input.
abbrev pub ReadOutcome : ℕ → ℕ → ℕ → Option HexRead → Type 0
ReadOutcome input_len left had none = ⊥
ReadOutcome input_len left had (some (ok out)) = length out * 2 ≤ had * 2 + left
ReadOutcome input_len left had (some (invalid offset)) = offset ≤ input_len

ReadOutcome-le :
    (len left had left' had' : ℕ) (r : Option HexRead)
    → had' * 2 + left' ≤ had * 2 + left
    → ReadOutcome len left' had' r
    → ReadOutcome len left had r
ReadOutcome-le len left had left' had' none h o = o
ReadOutcome-le len left had left' had' (some (ok out)) h o = omega arith
ReadOutcome-le len left had left' had' (some (invalid offset)) h o = o

-- One round, given those behind it, where the digits are at `p`.
read_step :
    (fuel : ℕ) (separators : Bytes) (len c : ℕ) (src r done : Bytes)
    → ((src' done' : Bytes)
        → length src' < fuel
        → ReadOutcome len (length src') (length done') (read_octets fuel separators len src' done'))
    → length src < suc fuel
    → skip_separators separators src ≡ c ∷ r
    → ReadOutcome len (length src) (length done) (read_octets (suc fuel) separators len src done)
unfolding read_octets
read_step fuel separators len c src r done ih lt e =
    let p : Bytes = skip_0x (c ∷ r) in
    let shorter : length p ≤ length src =
      omega (arith, length-skip_0x (c ∷ r), length-skip separators src, ap length e) in
    elim (Option-cases (read_digit p 0)) [
      | inl bad ↦ rw (e, ReadOutcome, read_octets, bad) (omega arith)
      | inr (hi, high) ↦ elim (Option-cases (read_digit p 1)) [
        | inl bad ↦ rw (e, ReadOutcome, read_octets, high, bad) (omega arith)
        | inr (lo, low) ↦
            let inside = digit_inside p lo low in
            rw (e, ReadOutcome, read_octets, high, low)
              (ReadOutcome-le len (length src) (length done) (length (drop 2 p))
                (length (done ++ bit_or (hi * 16) lo ∷ [])) _
                (omega (arith, length-drop 2 p, length-append done (bit_or (hi * 16) lo ∷ [])))
                (ih (drop 2 p) (done ++ bit_or (hi * 16) lo ∷ []) (omega (arith, length-drop 2 p))))
      ]
    ]

read_octets_lem :
    (fuel : ℕ) (separators : Bytes) (len : ℕ) (src done : Bytes)
    → length src < fuel
    → ReadOutcome len (length src) (length done) (read_octets fuel separators len src done)
unfolding read_octets
read_octets_lem zero separators len src done lt = absurd (omega arith)
read_octets_lem (suc fuel) separators len src done lt =
    split (skip_separators separators src) refl (read_octets_lem fuel separators len)
  where
    split :
        (s : Bytes)
        → skip_separators separators src ≡ s
        → ((src' done' : Bytes)
            → length src' < fuel
            → ReadOutcome len
                (length src')
                (length done')
                (read_octets fuel separators len src' done'))
        → ReadOutcome len
            (length src)
            (length done)
            (read_octets (suc fuel) separators len src done)
    split [] e ih = rw (e, ReadOutcome, read_octets) (omega arith)
    split (c ∷ r) e ih = read_step fuel separators len c src r done ih lt e

-- With more fuel than the input is long `read_hex` answers: it stores at most half as many octets
-- as the input has characters, and complains at an offset inside the input.
pub read_hex_lem :
    (fuel : ℕ) (input : Bytes) (separators : Option Bytes)
    → length input < fuel
    → ReadOutcome (length input) (length input) 0 (read_hex fuel input separators)
unfolding read_hex
read_hex_lem fuel input separators lt = read_octets_lem fuel _ (length input) input [] lt
