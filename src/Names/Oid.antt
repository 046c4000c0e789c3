-- ===== src/Names/Oid.antt =====
-- Names of OIDs: dotted decimals, the names of the parts of a distinguished name, and the object that
-- stands for a tag (src/py_nss.c).
pub mod Dotted
pub mod Ava
use python_nss_ng.Prelude.{
  ℕ, suc, ◌+◌, Bytes, Bool, true, false, ◌&&◌, ◌||◌, Option, none, some, List, [], ◌∷◌, ltb, leb,
  ◌==◌, if◌then◌else◌, codes, drop,
}
use python_nss_ng.Pem.{c_string}
use python_nss_ng.Names.{
  Str, Registry, ascii_lower, starts_with, Answer, found, key_error, type_error, value_error,
  oid_tag_from_name,
}

-- In the C locale.
abbrev pub isdigit : ℕ → Bool
isdigit c = leb 48 c && leb c 57

abbrev pub isspace : ℕ → Bool
isspace c = (c == 32) || (leb 9 c && leb c 13)

abbrev pub all_space : Bytes → Bool
all_space [] = true
all_space (c ∷ p) = isspace c && all_space p

-- The loop over a C string. `in_integer` tells whether the character before was a digit, which is
-- where the inner loop stands.
unfoldable pub scan_oid : Bool → Bytes → ℕ → ℕ → Bool
scan_oid in_integer [] n_integers n_dots = ltb 0 n_integers && (n_integers == n_dots + 1)
scan_oid in_integer (c ∷ p) n_integers n_dots =
    let digit = scan_oid true p (if in_integer then n_integers else n_integers + 1) n_dots in
    let dot = scan_oid false p n_integers (n_dots + 1) in
    if isdigit c
    then digit
    else if c == 46
    then dot
    else all_space (c ∷ p) && ltb 0 n_integers && (n_integers == n_dots + 1)

unfoldable pub is_oid_string : Bytes → Bool
is_oid_string oid_string =
    let p = if starts_with (codes "OID.") oid_string then drop 4 oid_string else oid_string in
    scan_oid false p 0 0

-- The tags that NSS gives the parts of a name, and the ASN.1 types of their values.
pub record Tags : Type 0 where
  pub unknown : ℕ
  pub common_name : ℕ
  pub state_or_province : ℕ
  pub organization_name : ℕ
  pub organizational_unit_name : ℕ
  pub dn_qualifier : ℕ
  pub country_name : ℕ
  pub serial_number : ℕ
  pub locality : ℕ
  pub title : ℕ
  pub surname : ℕ
  pub given_name : ℕ
  pub initials : ℕ
  pub generation_qualifier : ℕ
  pub dc : ℕ
  pub rfc1274_mail : ℕ
  pub rfc1274_uid : ℕ
  pub postal_address : ℕ
  pub postal_code : ℕ
  pub post_office_box : ℕ
  pub house_identifier : ℕ
  pub pkcs9_email_address : ℕ
  pub utf8_string : ℕ
  pub printable_string : ℕ
  pub ia5_string : ℕ

pub record DnAvaProps : Type 0 where
  pub name : Bytes
  pub max_len : ℕ
  pub oid_tag : ℕ
  pub value_type : ℕ

abbrev row : Bytes → ℕ → ℕ → ℕ → DnAvaProps
row name max_len oid_tag value_type = record {
  name = name;
  max_len = max_len;
  oid_tag = oid_tag;
  value_type = value_type;
}

-- The last entry, with SEC_OID_UNKNOWN and no name, is the end of the list.
unfoldable pub dn_ava_props : Tags → List DnAvaProps
dn_ava_props t =
    row (codes "CN") 64 t.common_name t.utf8_string
    ∷ row (codes "ST") 128 t.state_or_province t.utf8_string
    ∷ row (codes "O") 64 t.organization_name t.utf8_string
    ∷ row (codes "OU") 64 t.organizational_unit_name t.utf8_string
    ∷ row (codes "dnQualifier") 32767 t.dn_qualifier t.printable_string
    ∷ row (codes "C") 2 t.country_name t.printable_string
    ∷ row (codes "serialNumber") 64 t.serial_number t.printable_string
    ∷ row (codes "L") 128 t.locality t.utf8_string
    ∷ row (codes "title") 64 t.title t.utf8_string
    ∷ row (codes "SN") 64 t.surname t.utf8_string
    ∷ row (codes "givenName") 64 t.given_name t.utf8_string
    ∷ row (codes "initials") 64 t.initials t.utf8_string
    ∷ row (codes "generationQualifier") 64 t.generation_qualifier t.utf8_string
    ∷ row (codes "DC") 128 t.dc t.ia5_string
    ∷ row (codes "MAIL") 256 t.rfc1274_mail t.ia5_string
    ∷ row (codes "UID") 256 t.rfc1274_uid t.utf8_string
    ∷ row (codes "postalAddress") 128 t.postal_address t.utf8_string
    ∷ row (codes "postalCode") 40 t.postal_code t.utf8_string
    ∷ row (codes "postOfficeBox") 40 t.post_office_box t.utf8_string
    ∷ row (codes "houseIdentifier") 64 t.house_identifier t.utf8_string
    ∷ row (codes "E") 128 t.pkcs9_email_address t.ia5_string
    ∷ []

-- `strcasecmp(name, other) == 0`.
unfoldable pub same_ignoring_case : Bytes → Bytes → Bool
same_ignoring_case [] [] = true
same_ignoring_case [] (c ∷ t) = false
same_ignoring_case (c ∷ s) [] = false
same_ignoring_case (c ∷ s) (d ∷ t) =
    let rest = same_ignoring_case s t in if ascii_lower c == ascii_lower d then rest else false

-- The loops end at SEC_OID_UNKNOWN, which may also be the tag of an entry.
unfoldable pub find_tag : ℕ → ℕ → List DnAvaProps → Option DnAvaProps
find_tag unknown tag [] = none
find_tag unknown tag (ava ∷ rest) =
    let found = find_tag unknown tag rest in
    if ava.oid_tag == unknown then none else if ava.oid_tag == tag then some ava else found

unfoldable pub ava_oid_tag_to_name : Tags → ℕ → Option Bytes
unfolding find_tag
ava_oid_tag_to_name t tag = elim (find_tag t.unknown tag (dn_ava_props t)) [
  | none ↦ none
  | some ava ↦ some ava.name
]

unfoldable pub ava_oid_tag_to_value_type : Tags → ℕ → ℕ
ava_oid_tag_to_value_type t tag = elim (find_tag t.unknown tag (dn_ava_props t)) [
  | none ↦ t.utf8_string
  | some ava ↦ ava.value_type
]

unfoldable pub find_name : ℕ → Bytes → List DnAvaProps → ℕ
find_name unknown name [] = unknown
find_name unknown name (ava ∷ rest) =
    let found = find_name unknown name rest in
    if ava.oid_tag == unknown
    then unknown
    else if same_ignoring_case ava.name name
    then ava.oid_tag
    else found

unfoldable pub ava_name_to_oid_tag : Tags → Bytes → ℕ
unfolding find_name
ava_name_to_oid_tag t name = find_name t.unknown name (dn_ava_props t)

-- What `get_oid_tag_from_object` is given: a string in UTF-8, none where it has no encoding, an
-- integer, the octets of a SecItem, or another object.
pub data OidObject : Type 0 where
  oid_text : Option Bytes → OidObject
  oid_integer : ℕ → OidObject
  oid_item : Bytes → OidObject
  oid_other : OidObject

-- SEC_StringToOID, and SECOID_FindOIDTag of an item.
pub record OidLibrary : Type 0 where
  pub string_to_oid : Bytes → Option Bytes
  pub find_oid_tag : Bytes → ℕ

-- A name is asked for after the names of parts and the dotted decimals; `null_used` is the failure
-- of the encoding.
pub data OidTag : Type 0 where
  tag : ℕ → OidTag
  oid_key_error oid_value_error oid_type_error null_used : OidTag

abbrev looked_up : Answer ℕ → OidTag
looked_up (found n) = tag n
looked_up key_error = oid_key_error
looked_up type_error = oid_type_error
looked_up value_error = oid_value_error

unfoldable pub get_oid_tag_from_object : Str → Registry → OidLibrary → Tags → OidObject → OidTag
unfolding is_oid_string ava_name_to_oid_tag
get_oid_tag_from_object str r lib t (oid_text none) = null_used
get_oid_tag_from_object str r lib t (oid_text (some text)) =
    let type_string = c_string text in
    let dotted = elim (lib.string_to_oid type_string) as (λ _. OidTag) [
      | none ↦ oid_value_error
      | some item ↦ tag (lib.find_oid_tag item)
    ] in
    let named = looked_up (oid_tag_from_name str r type_string) in
    if ava_name_to_oid_tag t type_string == t.unknown
    then (if is_oid_string type_string then dotted else named)
    else tag (ava_name_to_oid_tag t type_string)
get_oid_tag_from_object str r lib t (oid_integer n) = tag n
get_oid_tag_from_object str r lib t (oid_item item) = tag (lib.find_oid_tag item)
get_oid_tag_from_object str r lib t oid_other = oid_type_error
