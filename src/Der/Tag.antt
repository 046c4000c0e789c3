-- ===== src/Der/Tag.antt =====
-- `sec_strip_tag_and_length`, `boolean_secitem_to_pystr` and `der_boolean_secitem_to_pystr`.
use python_nss_ng.Prelude.{
  ℕ, ◌+◌, ◌≤◌, ◌<◌, Bytes, Bool, true, false, Option, none, some, [], ◌∷◌, ◌++◌, length, drop,
  get_or, ltb, ◌==◌, if◌then◌else◌, bit_and, ◌≡◌, refl, arith, codes, all_below, all_below_sound,
  ==_iff, length-append, drop-append, le→not_ltb,
}

-- `item->data[1] & 0x80`, and the octets that tag and length take.
unfoldable pub is_long : ℕ → Bool
is_long octet = if bit_and octet 0x80 == 0 then false else true

unfoldable pub content_start : ℕ → ℕ
unfolding is_long
content_start octet = if is_long octet then bit_and octet 0x7f + 2 else 2

-- `none` is SECFailure: no item, no data, fewer than two octets, or a header past the end.
unfoldable pub sec_strip_tag_and_length : Option Bytes → Option Bytes
sec_strip_tag_and_length none = none
sec_strip_tag_and_length (some octets) =
    let start = content_start (get_or octets 1 0) in
    if ltb (length octets) 2
    then none
    else if ltb (length octets) start
    then none
    else some (drop start octets)

-- The first octet decides; no data and no octets are false.
unfoldable pub boolean_secitem_to_pystr : Option Bytes → Bytes
boolean_secitem_to_pystr none = codes "False"
boolean_secitem_to_pystr (some []) = codes "False"
boolean_secitem_to_pystr (some (octet ∷ rest)) = if octet == 0 then codes "False" else codes "True"

unfoldable pub der_boolean_secitem_to_pystr : Option Bytes → Option Bytes
der_boolean_secitem_to_pystr item = elim (sec_strip_tag_and_length item) [
  | none ↦ none
  | some rest ↦ some (boolean_secitem_to_pystr (some rest))
]

-- The header of a DER value: a tag, then the length in one octet, or the number of the length's
-- octets with the high bit set and those octets.
pub data Header : Bytes → Type 0 where
  short : (tag n : ℕ) → n < 128 → Header (tag ∷ n ∷ [])
  long :
      (tag : ℕ) (octets : Bytes)
      → length octets < 128
      → Header (tag ∷ (128 + length octets) ∷ octets)

short_table : all_below 128 (λ n. content_start n == 2) ≡ true
unfolding all_below content_start
short_table = refl

long_table : all_below 128 (λ n. content_start (128 + n) == n + 2) ≡ true
unfolding all_below content_start
long_table = refl

pub content_start_short : (n : ℕ) → n < 128 → content_start n ≡ 2
content_start_short n h =
    (==_iff _ 2).0 (all_below_sound 128 (λ m. content_start m == 2) n short_table h)

pub content_start_long : (n : ℕ) → n < 128 → content_start (128 + n) ≡ n + 2
content_start_long n h =
    (==_iff _ (n + 2)).0
      (all_below_sound 128 (λ m. content_start (128 + m) == m + 2) n long_table h)

-- Where the header has `start` octets, those are what is stripped.
strip_start :
    (header content : Bytes)
    → 2 ≤ length header
    → content_start (get_or (header ++ content) 1 0) ≡ length header
    → sec_strip_tag_and_length (some (header ++ content)) ≡ some content
unfolding sec_strip_tag_and_length
strip_start header content h e =
    let size = length-append header content in
    rw (
      e,
      le→not_ltb (length (header ++ content)) 2 (omega arith),
      le→not_ltb (length (header ++ content)) (length header) (omega arith),
      drop-append header content,
    )

-- Stripping a DER header leaves the content, for lengths in the short form and in the long one.
pub sec_strip_tag_and_length_lem :
    {header : Bytes} (content : Bytes)
    → Header header
    → sec_strip_tag_and_length (some (header ++ content)) ≡ some content
sec_strip_tag_and_length_lem content (short tag n h) =
    strip_start (tag ∷ n ∷ []) content (omega arith) (content_start_short n h)
sec_strip_tag_and_length_lem content (long tag octets h) =
    strip_start (tag ∷ (128 + length octets) ∷ octets) content (omega arith)
      (omega (arith, content_start_long (length octets) h))

-- A DER boolean is read as its content octet says, whatever the form of its length.
pub der_boolean_lem :
    {header : Bytes} (octet : ℕ)
    → Header header
    → der_boolean_secitem_to_pystr (some (header ++ octet ∷ []))
      ≡ some (if octet == 0 then codes "False" else codes "True")
unfolding der_boolean_secitem_to_pystr boolean_secitem_to_pystr
der_boolean_lem octet h =
    rw (der_boolean_secitem_to_pystr, sec_strip_tag_and_length_lem (octet ∷ []) h)
