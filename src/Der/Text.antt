-- ===== src/Der/Text.antt =====
-- `der_any_secitem_to_pystr` and what it calls in src/py_nss.c: a DER item as Python text.
--
-- The numbers of the ASN.1 types are those of X.690, which NSS's header names. What NSS and Python
-- decode is a parameter, Decoders. `beyond` is the memory behind an item (see Sequence).
pub mod Trees
pub mod Dropped
pub mod Tests
use python_nss_ng.Prelude.{
  ℕ, zero, suc, ◌+◌, ◌-◌, ◌%◌, ◌^◌, Bytes, Bool, true, false, Option, none, some, [], ◌∷◌, ◌++◌,
  length, take, drop, get_or, ltb, ◌==◌, if◌then◌else◌, bit_and, codes, ℤ, pos,
}
use python_nss_ng.Hex.{HexText, one_line, lines, raw_data_to_hex}
use python_nss_ng.Der.Tag.{sec_strip_tag_and_length, der_boolean_secitem_to_pystr}
use python_nss_ng.Der.Integer.{integer_secitem_to_pylong}
use python_nss_ng.Der.Sequence.{member_size}
use python_nss_ng.Der.Escape.{ascii_string_secitem_to_escaped_ascii_pystr}

-- What is taken from NSS and Python: the times as text, the description and the dotted form of an
-- OID, the decoders of Unicode, and `str` of an int.
pub record Decoders : Type 0 where
  pub utc_time : Bytes → Option Bytes
  pub generalized_time : Bytes → Option Bytes
  pub oid_description : Bytes → Option Bytes
  pub oid_string : Bytes → Option Bytes
  pub utf_8 : Bytes → Option Bytes
  pub utf_16 : Bytes → Option Bytes
  pub utf_32 : Bytes → Option Bytes
  pub decimal : ℤ → Bytes

-- A Python object that is returned, or a NULL. `undefined` is what C leaves undefined.
mutual
  pub data Object : Type 0 where
    str : Bytes → Object
    none_object : Object
    list : Objects → Object
    null : Object
    undefined : Object

  pub data Objects : Type 0 where
    nil : Objects
    cons : Object → Objects → Objects

-- `PyList_Append`, which refuses a NULL; the callers drop its answer.
unfoldable pub add_last : Objects → Object → Objects
add_last nil o = cons o nil
add_last (cons x xs) o = cons x (add_last xs o)

unfoldable pub append_object : Objects → Object → Objects
append_object xs null = xs
append_object xs (str s) = add_last xs (str s)
append_object xs none_object = add_last xs none_object
append_object xs (list ys) = add_last xs (list ys)
append_object xs undefined = add_last xs undefined

abbrev pub or_null : Option Bytes → Object
or_null none = null
or_null (some s) = str s

abbrev pub or_none : Option Bytes → Object
or_none none = none_object
or_none (some s) = str s

-- `raw_data_to_hex(data, len, 0, HEX_SEPARATOR_DEFAULT)`.
abbrev pub one_line_text : HexText → Bytes
one_line_text (one_line t) = t
one_line_text (lines ls) = []

unfoldable pub secitem_to_pystr_hex : Bytes → Bytes
secitem_to_pystr_hex octets = one_line_text (raw_data_to_hex octets (pos 0) (some (codes ":")))

-- The types that the `switch` tells apart.
pub data Kind : Type 0 where
  integer object_id boolean utf8 ascii generalized_time utc_time null_type set octet_string
        bit_string :
      Kind
  bmp universal other : Kind

unfoldable pub kind : ℕ → Kind
kind tag =
    if tag == 0x0a
    then integer
    else if tag == 0x02
    then integer
    else if tag == 0x06
    then object_id
    else if tag == 0x01
    then boolean
    else if tag == 0x0c
    then utf8
    else if tag == 0x13
    then ascii
    else if tag == 0x1a
    then ascii
    else if tag == 0x16
    then ascii
    else if tag == 0x14
    then ascii
    else if tag == 0x18
    then generalized_time
    else if tag == 0x17
    then utc_time
    else if tag == 0x05
    then null_type
    else if tag == 0x11
    then set
    else if tag == 0x10
    then set
    else if tag == 0x04
    then octet_string
    else if tag == 0x03
    then bit_string
    else if tag == 0x1e
    then bmp
    else if tag == 0x1c
    then universal
    else other

abbrev pub is_set : Kind → Bool
is_set set = true
is_set _ = false

module _ (lib : Decoders) where
  open lib use {oid_description, oid_string, utf_8, utf_16, utf_32, decimal}

  unfoldable pub der_context_specific_secitem_to_pystr : Bytes → Object
  der_context_specific_secitem_to_pystr octets =
      let label = codes "[" ++ decimal (pos (bit_and (get_or octets 0 0) 0x1f)) ++ codes "]" in
      if bit_and (get_or octets 0 0) 0x20 == 0
      then elim (sec_strip_tag_and_length (some octets)) [
        | none ↦ str label
        | some content ↦ str (label ++ codes " " ++ secitem_to_pystr_hex content)
      ]
      else str label

  unfoldable pub integer_secitem_to_pystr : Bytes → Bytes
  integer_secitem_to_pystr octets = decimal (integer_secitem_to_pylong (some octets))

  -- The converters of a content, and the common step in front of them.
  abbrev pub stripped : Bytes → Object → (Bytes → Object) → Object
  stripped octets failure convert = elim (sec_strip_tag_and_length (some octets)) [
    | none ↦ failure
    | some content ↦ convert content
  ]

  unfoldable pub der_integer_secitem_to_pystr : Bytes → Object
  der_integer_secitem_to_pystr octets = stripped octets null (λ c. str (integer_secitem_to_pystr c))

  -- Without a description and a dotted form the SECItem is cast to a Python object.
  unfoldable pub oid_secitem_to_pystr_desc : Bytes → Object
  oid_secitem_to_pystr_desc oid = elim (oid_description oid) [
    | some desc ↦ str desc
    | none ↦ elim (oid_string oid) [ none ↦ undefined | some s ↦ str s ]
  ]

  unfoldable pub der_oid_secitem_to_pystr_desc : Bytes → Object
  der_oid_secitem_to_pystr_desc octets = stripped octets null oid_secitem_to_pystr_desc

  unfoldable pub der_utf8_string_secitem_to_pyunicode : Bytes → Object
  der_utf8_string_secitem_to_pyunicode octets = stripped octets null (λ c. or_null (utf_8 c))

  unfoldable pub der_bmp_string_secitem_to_pyunicode : Bytes → Object
  der_bmp_string_secitem_to_pyunicode octets =
      stripped octets null (λ c. if length c % 2 == 0 then or_null (utf_16 c) else null)

  unfoldable pub der_universal_string_secitem_to_pyunicode : Bytes → Object
  der_universal_string_secitem_to_pyunicode octets =
      stripped octets null (λ c. if length c % 4 == 0 then or_null (utf_32 c) else null)

  unfoldable pub der_ascii_string_secitem_to_escaped_ascii_pystr : Bytes → Object
  der_ascii_string_secitem_to_escaped_ascii_pystr octets =
      stripped octets null (λ c. str (ascii_string_secitem_to_escaped_ascii_pystr c).1)

  unfoldable pub der_octet_secitem_to_pystr : Bytes → Object
  der_octet_secitem_to_pystr octets = stripped octets null (λ c. str (secitem_to_pystr_hex c))

  abbrev pub unused_note : ℕ → Bytes
  unused_note n =
      if n == 0 then [] else codes "(" ++ decimal (pos n) ++ codes " least significant bits unused)"

  abbrev pub bits_text : Bytes → Object
  bits_text [] = none_object
  bits_text (unused ∷ []) = none_object
  bits_text (unused ∷ octet ∷ octets) =
      str (secitem_to_pystr_hex (octet ∷ octets) ++ unused_note unused)

  unfoldable pub der_bit_string_secitem_to_pystr : Bytes → Object
  der_bit_string_secitem_to_pystr octets = stripped octets none_object bits_text

  -- The `switch` but for SET and SEQUENCE. The text of a bit string is dropped.
  unfoldable pub primitive_to_pystr : Kind → Bytes → Object
  primitive_to_pystr integer octets = der_integer_secitem_to_pystr octets
  primitive_to_pystr object_id octets = der_oid_secitem_to_pystr_desc octets
  primitive_to_pystr boolean octets = or_null (der_boolean_secitem_to_pystr (some octets))
  primitive_to_pystr utf8 octets = der_utf8_string_secitem_to_pyunicode octets
  primitive_to_pystr ascii octets = der_ascii_string_secitem_to_escaped_ascii_pystr octets
  primitive_to_pystr generalized_time octets = or_none (lib.generalized_time octets)
  primitive_to_pystr utc_time octets = or_none (lib.utc_time octets)
  primitive_to_pystr null_type octets = str (codes "(null)")
  primitive_to_pystr set octets = str (secitem_to_pystr_hex octets)
  primitive_to_pystr octet_string octets = der_octet_secitem_to_pystr octets
  primitive_to_pystr bit_string octets = none_object
  primitive_to_pystr bmp octets = der_bmp_string_secitem_to_pyunicode octets
  primitive_to_pystr universal octets = der_universal_string_secitem_to_pyunicode octets
  primitive_to_pystr other octets = str (secitem_to_pystr_hex octets)

  -- An item, and the loop over the members of a SET or SEQUENCE. The fuel bounds the depth and the
  -- number of the members together; `none` is running out of it.
  unfoldable mutual
    pub der_any_secitem_to_pystr : ℕ → Bytes → Bytes → Option Object
    der_any_secitem_to_pystr zero octets beyond = none
    der_any_secitem_to_pystr (suc fuel) [] beyond = some (str (codes "(null)"))
    der_any_secitem_to_pystr (suc fuel) (tag ∷ octets) beyond = elim (bit_and tag 0xc0 == 0x80) [
      | true ↦ some (der_context_specific_secitem_to_pystr (tag ∷ octets))
      | false ↦ elim (bit_and tag 0xc0 == 0) [
        | false ↦ some (str (secitem_to_pystr_hex (tag ∷ octets)))
        | true ↦ elim (is_set (kind (bit_and tag 0x1f))) [
          | false ↦ some (primitive_to_pystr (kind (bit_and tag 0x1f)) (tag ∷ octets))
          | true ↦ elim (bit_and tag 0x20 == 0) [
            | true ↦ some (str (secitem_to_pystr_hex (tag ∷ octets)))
            | false ↦ elim (sec_strip_tag_and_length (some (tag ∷ octets))) [
              | none ↦ some none_object
              | some content ↦ members_to_pylist fuel content beyond nil
            ]
          ]
        ]
      ]
    ]

    pub members_to_pylist : ℕ → Bytes → Bytes → Objects → Option Object
    members_to_pylist zero octets beyond items = none
    members_to_pylist (suc fuel) octets beyond items = elim (ltb (length octets) 2) [
      | true ↦ some (list items)
      | false ↦ elim (member_size octets beyond) [
        | none ↦ some (list items)
        | some size ↦
            let n = if ltb (length octets) size then length octets else size in
            elim (der_any_secitem_to_pystr fuel (take n octets) (drop n octets ++ beyond)) [
              | none ↦ none
              | some item ↦ members_to_pylist fuel (drop n octets) beyond (append_object items item)
            ]
      ]
    ]
