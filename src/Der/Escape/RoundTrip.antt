-- ===== src/Der/Escape/RoundTrip.antt =====
-- Escaped text can be read back, and fills its buffer.
use python_nss_ng.Prelude.{
  ℕ, ◌+◌, ◌-◌, ◌*◌, ◌<◌, Bytes, Bool, true, false, [], ◌∷◌, ◌++◌, Option, none, some, length, leb,
  ◌==◌, if◌then◌else◌, ◌≡◌, refl, sym, ap, ◌∙◌, arith, all_below, all_below_sound, length-append,
  ==_iff, All,
}
use python_nss_ng.Der.Escape.{
  encode, ascii_encoding_table, ascii_encoded_strnlen, write_escapes,
  ascii_string_secitem_to_escaped_ascii_pystr,
}

-- A reader of C escapes, which is not part of the code: the upper case digits, the letters that
-- stand for control characters, and the characters that stand for themselves.
abbrev pub upper_digit : ℕ → ℕ
upper_digit c = if leb c b'9' then c - b'0' else c - b'A' + 10

abbrev pub letter : ℕ → ℕ
letter c =
    if c == b'a'
    then 7
    else if c == b'b'
    then 8
    else if c == b't'
    then 9
    else if c == b'n'
    then 10
    else if c == b'v'
    then 11
    else if c == b'f'
    then 12
    else if c == b'r'
    then 13
    else c

-- Where the reader is: between escapes, behind a backslash, behind `\x`, and behind its first digit.
pub data Reading : Type 0 where
  plain escaped hex : Reading
  digit : ℕ → Reading

unfoldable pub unescape : Reading → Bytes → Bytes
unescape r [] = []
unescape plain (c ∷ s) = elim (c == b'\\') [
  | true ↦ unescape escaped s
  | false ↦ c ∷ unescape plain s
]
unescape escaped (c ∷ s) = elim (c == b'x') [
  | true ↦ unescape hex s
  | false ↦ letter c ∷ unescape plain s
]
unescape hex (c ∷ s) = unescape (digit (upper_digit c)) s
unescape (digit high) (c ∷ s) = (high * 16 + upper_digit c) ∷ unescape plain s

-- The octet that a single escape stands for.
abbrev meaning : Bytes → Option ℕ
meaning (c ∷ []) = if c == b'\\' then none else some c
meaning (b ∷ c ∷ []) = if b == b'\\' then (if c == b'x' then none else some (letter c)) else none
meaning (b ∷ x ∷ h ∷ l ∷ []) =
    if b == b'\\'
    then (if x == b'x' then some (upper_digit h * 16 + upper_digit l) else none)
    else none
meaning _ = none

abbrev means : Bytes → ℕ → Bool
means e o = elim (meaning e) [ none ↦ false | some v ↦ v == o ]

escape_table : all_below 256 (λ o. means (encode o).encoded o) ≡ true
unfolding all_below encode ascii_encoding_table
escape_table = refl

len_table : all_below 256 (λ o. (encode o).len == length (encode o).encoded) ≡ true
unfolding all_below encode ascii_encoding_table
len_table = refl

abbrev pub AllOctets : Bytes → Type 0
AllOctets = All (λ o. o < 256)

unescape-one :
    (e : Bytes) (o : ℕ) (rest : Bytes)
    → means e o ≡ true
    → unescape plain (e ++ rest) ≡ o ∷ unescape plain rest
unfolding unescape
unescape-one [] o rest h = ground arith
unescape-one (c ∷ []) o rest h = ground arith
unescape-one (b ∷ c ∷ []) o rest h = ground arith
unescape-one (b ∷ x ∷ h ∷ []) o rest m = ground arith
unescape-one (b ∷ x ∷ h ∷ l ∷ []) o rest m = ground arith
unescape-one (b ∷ x ∷ h ∷ l ∷ y ∷ e) o rest m = ground arith

unescape-write_escapes :
    (octets : Bytes) → AllOctets octets → unescape plain (write_escapes octets) ≡ octets
unfolding write_escapes unescape
unescape-write_escapes [] _ = refl
unescape-write_escapes (o ∷ octets) (h, hs) =
    unescape-one (encode o).encoded o (write_escapes octets)
      (all_below_sound 256 (λ o. means (encode o).encoded o) o escape_table h)
    ∙ ap (λ l. o ∷ l) (unescape-write_escapes octets hs)

length-write_escapes :
    (octets : Bytes)
    → AllOctets octets
    → length (write_escapes octets) ≡ ascii_encoded_strnlen octets
unfolding write_escapes ascii_encoded_strnlen
length-write_escapes [] _ = refl
length-write_escapes (o ∷ octets) (h, hs) =
    let len =
      (==_iff (encode o).len (length (encode o).encoded)).0
        (all_below_sound 256 (λ o. (encode o).len == length (encode o).encoded) o len_table h) in
    omega (
      arith,
      length-append (encode o).encoded (write_escapes octets),
      length-write_escapes octets hs,
      len,
    )

-- For octets below 256 a reader of the escapes gets back the octets, and the size that is computed
-- for the text is the number of its characters.
pub escape_lem :
    (octets : Bytes)
    → AllOctets octets
    → (unescape plain (ascii_string_secitem_to_escaped_ascii_pystr octets).1 ≡ octets)
      × ((ascii_string_secitem_to_escaped_ascii_pystr octets).0
          ≡ length (ascii_string_secitem_to_escaped_ascii_pystr octets).1)
unfolding ascii_string_secitem_to_escaped_ascii_pystr
escape_lem octets h = (unescape-write_escapes octets h, sym (length-write_escapes octets h))
