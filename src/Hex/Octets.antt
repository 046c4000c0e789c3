-- ===== src/Hex/Octets.antt =====
-- Facts on one octet, checked over all 256 of them.
use python_nss_ng.Prelude.{
  ℕ, ◌*◌, ◌/◌, ◌%◌, ◌<◌, true, false, Option, some, none, Bool, ◌≡◌, refl, ◌==◌, ==_iff, bit_or,
  all_below, all_below_sound, arith, get_or, [], ◌∷◌,
}
use python_nss_ng.Hex.{octet_chars, hex_value, tolower, hex_chars}

abbrev digit_is : Option ℕ → ℕ → Bool
digit_is none n = false
digit_is (some m) n = m == n

digit_is_sound : (o : Option ℕ) (n : ℕ) → digit_is o n ≡ true → o ≡ some n
digit_is_sound none n h = cc
digit_is_sound (some m) n h = ground arith

abbrev pub high_char : ℕ → ℕ
high_char o = get_or hex_chars (o / 16) 0

abbrev pub low_char : ℕ → ℕ
low_char o = get_or hex_chars (o % 16) 0

below_256 : (p : ℕ → Bool) → all_below 256 p ≡ true → (o : ℕ) → o < 256 → p o ≡ true
below_256 p table o h = all_below_sound 256 p o table h

abbrev reads_as : (ℕ → Option ℕ) → (ℕ → ℕ) → ℕ → Bool
reads_as f g o = digit_is (f o) (g o)

high_table : all_below 256 (reads_as (λ o. hex_value (high_char o)) (λ o. o / 16)) ≡ true
unfolding all_below hex_value
high_table = refl

high_lower_table :
    all_below 256 (reads_as (λ o. hex_value (tolower (high_char o))) (λ o. o / 16)) ≡ true
unfolding all_below hex_value tolower
high_lower_table = refl

low_lower_table :
    all_below 256 (reads_as (λ o. hex_value (tolower (low_char o))) (λ o. o % 16)) ≡ true
unfolding all_below hex_value tolower
low_lower_table = refl

high_char_table : all_below 256 (λ o. get_or (octet_chars o) 0 0 == high_char o) ≡ true
unfolding all_below octet_chars
high_char_table = refl

low_char_table : all_below 256 (λ o. get_or (octet_chars o) 1 0 == low_char o) ≡ true
unfolding all_below octet_chars
low_char_table = refl

joined_table : all_below 256 (λ o. bit_or (o / 16 * 16) (o % 16) == o) ≡ true
unfolding all_below
joined_table = refl

pub record IsOctet (o : ℕ) : Type 0 where
  pub chars : octet_chars o ≡ high_char o ∷ low_char o ∷ []
  pub high_lower : hex_value (tolower (high_char o)) ≡ some (o / 16)
  pub high : hex_value (high_char o) ≡ some (o / 16)
  pub low_lower : hex_value (tolower (low_char o)) ≡ some (o % 16)
  pub joined : bit_or (o / 16 * 16) (o % 16) ≡ o

two_chars : (o : ℕ) → octet_chars o ≡ get_or (octet_chars o) 0 0 ∷ get_or (octet_chars o) 1 0 ∷ []
unfolding octet_chars
two_chars o = refl

-- Every octet is written as two digits that are read back as it.
pub octet_lem : (o : ℕ) → o < 256 → IsOctet o
octet_lem o h =
    let high_written = (==_iff _ (high_char o)).0 (below_256 _ high_char_table o h) in
    let low_written = (==_iff _ (low_char o)).0 (below_256 _ low_char_table o h) in
    record {
      chars = cc (two_chars o, high_written, low_written);
      high_lower = digit_is_sound _ _ (below_256 _ high_lower_table o h);
      high = digit_is_sound _ _ (below_256 _ high_table o h);
      low_lower = digit_is_sound _ _ (below_256 _ low_lower_table o h);
      joined = (==_iff _ o).0 (below_256 _ joined_table o h);
    }
