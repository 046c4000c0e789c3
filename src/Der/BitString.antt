-- ===== src/Der/BitString.antt =====
-- `der_bitstring_to_nss_bitstring`. The octets are a memory, since the code reads one octet past the
-- length that it decodes; `src_len` stops at 0 here, which the code only tests by `<= 0`.
use Prim.Native.Nat.{bit_or-bitwise}
use python_nss_ng.Prelude.{
  ℕ, zero, suc, ◌+◌, ◌-◌, ◌*◌, ◌^◌, ◌%◌, ◌<◌, Bool, true, false, Option, none, some, leb, ltb, ◌==◌,
  if◌then◌else◌, bit_and, bit_or, ◌≡◌, refl, arith, not, all_below, all_below_sound, ==_iff,
  bit_and-le_seven,
}

pub record SrcItem : Type 0 where
  pub mem : ℕ → ℕ
  pub len : ℕ

-- SECSuccess with `dst->len` and the offset of `dst->data`, or an error.
pub data BitString : Type 0 where
  invalid_args : BitString
  bad_data : BitString
  decoded : ℕ → Option ℕ → BitString

-- The pointer `src_data`, as an offset, and `src_len`.
pub record Cursor : Type 0 where
  pub at : ℕ
  pub left : ℕ

abbrev pub advance : Cursor → Cursor
advance c = record { at = c.at + 1; left = c.left - 1 }

-- The rounds of the `for` on the length's octets, where `octet` was fetched before: the step of the
-- loop fetches the next one, after the last round too.
unfoldable pub read_length : ℕ → SrcItem → Cursor → ℕ → ℕ → ℕ × Cursor
read_length zero src c octet data_len = (data_len, c)
read_length (suc n) src c octet data_len =
    read_length n src (advance c) (src.mem c.at) (bit_or (data_len * 256 % 2 ^ 64) octet)

-- From the octet with the count of unused bits on.
unfoldable pub read_bits : SrcItem → Cursor → ℕ → BitString
read_bits src c data_len =
    let unused = src.mem c.at in
    let c' = advance c in
    if c.left == 0
    then bad_data
    else if leb data_len 1
    then bad_data
    else decoded (((data_len - 1) * 8 + 2 ^ 32 - bit_and unused 0x07) % 2 ^ 32)
        (if ltb 0 c'.left then some c'.at else none)

-- From the first octet of the length on.
unfoldable pub read_header : SrcItem → Cursor → BitString
unfolding read_length read_bits
read_header src c =
    let octet = src.mem c.at in
    let c' = advance c in
    let len_count = bit_and octet 0x7f in
    let long = read_length len_count src (advance c') (src.mem c'.at) 0 in
    if c.left == 0
    then bad_data
    else if bit_and octet 0x80 == 0
    then read_bits src c' octet
    else if ltb c'.left len_count
    then bad_data
    else read_bits src long.1 long.0

unfoldable pub der_bitstring_to_nss_bitstring : Bool → Option SrcItem → BitString
unfolding read_header
der_bitstring_to_nss_bitstring dst_null none = invalid_args
der_bitstring_to_nss_bitstring dst_null (some src) =
    let header = read_header src (record { at = 1; left = src.len - 1 }) in
    if dst_null
    then invalid_args
    else if src.len == 0
    then bad_data
    else if not (bit_and (src.mem 0) 0x1f == 3)
    then bad_data
    else header

mask_table : all_below 128 (λ n. bit_and n 0x80 == 0) ≡ true
unfolding all_below
mask_table = refl

low_table : all_below 8 (λ n. bit_and n 0x07 == n) ≡ true
unfolding all_below
low_table = refl

low_three : (n : ℕ) → n < 8 → bit_and n 0x07 ≡ n
low_three n h = (==_iff _ n).0 (all_below_sound 8 (λ m. bit_and m 0x07 == m) n low_table h)

zero_or : (n : ℕ) → bit_or 0 n ≡ n
zero_or n = bit_or-bitwise 0 n

-- An item of tag 3 with a length of 2 to 127 octets in the short form, all of them present, and at
-- most 7 unused bits is decoded to its content's bits less the unused ones, from the fourth octet
-- on.
pub short_bitstring :
    (src : SrcItem) (n : ℕ)
    → src.len ≡ n + 2
    → src.mem 0 ≡ 3
    → src.mem 1 ≡ n
    → src.mem 2 < 8
    → 1 < n
    → n < 128
    → der_bitstring_to_nss_bitstring false (some src) ≡ decoded ((n - 1) * 8 - src.mem 2) (some 3)
unfolding der_bitstring_to_nss_bitstring
short_bitstring src n size tag len unused p q = ground (
  arith,
  low_three (src.mem 2) unused,
  all_below_sound 128 (λ m. bit_and m 0x80 == 0) n mask_table q,
)

-- An item of tag 3 with a length of 3 to 255 octets in the long form with one octet, all of them
-- present: the octet that says how many bits are unused is passed over, and the first octet of the
-- bits is taken for it; the bits start one octet late.
pub long_bitstring :
    (src : SrcItem) (n : ℕ)
    → src.len ≡ n + 3
    → src.mem 0 ≡ 3
    → src.mem 1 ≡ 0x81
    → src.mem 2 ≡ n
    → 2 < n
    → n < 256
    → der_bitstring_to_nss_bitstring false (some src)
      ≡ decoded ((n - 1) * 8 - bit_and (src.mem 4) 0x07) (some 5)
unfolding der_bitstring_to_nss_bitstring
long_bitstring src n size tag form len p q =
    rw (tag, form, len, zero_or n) (ground (arith, bit_and-le_seven (src.mem 4)))
