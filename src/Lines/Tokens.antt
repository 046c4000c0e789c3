-- ===== src/Lines/Tokens.antt =====
-- The lines of tokens: the `format_lines` functions of PK11Slot, PK11SymKey, InitParameters,
-- PKCS12DecodeItem and PKCS12Decoder in src/py_nss.c.
--
-- The fields are what the getters and the methods answer, `none` for a NULL. The results that the
-- code hands on without a test for NULL, to a function that does not take one, are taken as given.
use python_nss_ng.Prelude.{
  ◌+◌, Bytes, Bool, Option, none, some, List, [], ◌∷◌, length, ltb, if◌then◌else◌, pos, codes,
}
use python_nss_ng.Format.{Object}
use python_nss_ng.Lines.{
  Api, Formatter, steps, checked, call_format_lines, each, fmt_obj, fmt_label_and_append, label,
  value, append_hex, obj_sprintf,
}

pub record Slot : Type 0 where
  pub slot_name : Option Object
  pub token_name : Option Object
  pub is_hw : Option Object
  pub is_present : Option Object
  pub is_read_only : Option Object
  pub is_internal : Option Object
  pub need_login : Option Object
  pub need_user_init : Option Object
  pub is_friendly : Option Object
  pub is_removable : Option Object
  pub has_protected_authentication_path : Option Object
  pub is_disabled : Option Object
  pub disabled_reason : Option Object
  pub has_root_certs : Option Object
  pub best_wrap_mechanism : Option Object
  pub mechanism_name : Object

-- The key's octets, or the text of the Python exception that the getter raised.
pub data KeyData : Type 0 where
  key_octets : Option Bytes → KeyData
  key_error : Option Object → KeyData

pub record SymKey : Type 0 where
  pub mechanism : Object
  pub key_mechanism_name : Object
  pub key_length : Option Object
  pub key_data : KeyData
  pub slot : Option Slot

pub record InitParameters : Type 0 where
  pub password_required : Option Object
  pub min_password_len : Option Object
  pub manufacturer_id : Option Object
  pub library_description : Option Object
  pub crypto_token_description : Option Object
  pub db_token_description : Option Object
  pub fips_token_description : Option Object
  pub crypto_slot_description : Option Object
  pub db_slot_description : Option Object
  pub fips_slot_description : Option Object

-- The bag's kind, of a certificate with whether it has a key.
pub data Bag : Type 0 where
  cert_bag : Bool → Bag
  key_bag shrouded_key_bag other_bag : Bag

pub record DecodeItem : Type 0 where
  pub bag_name : Option Object
  pub bag : Bag
  pub py_cert : Option Object
  pub cert_signature : Option Object
  pub friendly_name : Option Object
  pub shroud_algorithm : Option Object

module _ (api : Api) where
  unfoldable pub disabled_lines : Slot → Formatter
  disabled_lines slot = checked slot.is_disabled (λ disabled.
      checked slot.disabled_reason (λ reason.
        checked (obj_sprintf api (codes "%s (%s)") (disabled ∷ reason ∷ []))
          (value api 0 "Is Disabled")))

  unfoldable pub pk11_slot_format_lines : Slot → Formatter
  unfolding disabled_lines
  pk11_slot_format_lines slot = steps (
      fmt_obj api 0 (some (codes "Slot Name")) slot.slot_name
      ∷ fmt_obj api 0 (some (codes "Token Name")) slot.token_name
      ∷ checked slot.is_hw (value api 0 "Is Hardware")
      ∷ checked slot.is_present (value api 0 "Is Present")
      ∷ checked slot.is_read_only (value api 0 "Is Read Only")
      ∷ checked slot.is_internal (value api 0 "Is Internal")
      ∷ checked slot.need_login (value api 0 "Needs Login")
      ∷ checked slot.need_user_init (value api 0 "Needs User Init")
      ∷ checked slot.is_friendly (value api 0 "Is Friendly")
      ∷ checked slot.is_removable (value api 0 "Is Removable")
      ∷ checked slot.has_protected_authentication_path
          (value api 0 "Has Protected Authentication Path")
      ∷ disabled_lines slot
      ∷ checked slot.has_root_certs (value api 0 "Has Root Certs")
      ∷ checked slot.best_wrap_mechanism (λ mechanism.
        checked (obj_sprintf api (codes "%s (%#x)") (slot.mechanism_name ∷ mechanism ∷ []))
          (value api 0 "Best Wrap Mechanism"))
      ∷ [])

  unfoldable pub key_data_lines : KeyData → Formatter
  key_data_lines (key_octets octets) =
      steps (label api 0 "Key Data" ∷ checked octets (append_hex api 1) ∷ [])
  key_data_lines (key_error text) = fmt_obj api 0 (some (codes "Key Data")) text

  unfoldable pub pk11_sym_key_format_lines : SymKey → Formatter
  pk11_sym_key_format_lines key = steps (
      checked (obj_sprintf api (codes "%s (%#x)") (key.key_mechanism_name ∷ key.mechanism ∷ []))
        (value api 0 "Mechanism")
      ∷ fmt_obj api 0 (some (codes "Key Length")) key.key_length
      ∷ key_data_lines key.key_data
      ∷ label api 0 "PK11 Slot"
      ∷ checked key.slot (λ slot. call_format_lines 1 (pk11_slot_format_lines slot))
      ∷ [])

  unfoldable pub init_parameters_format_lines : InitParameters → Formatter
  init_parameters_format_lines params = steps (
      checked params.password_required (value api 0 "Password Required")
      ∷ checked params.min_password_len (value api 0 "Minimum Password Length")
      ∷ checked params.manufacturer_id (value api 0 "Manufacturer ID")
      ∷ checked params.library_description (value api 0 "Library Description")
      ∷ checked params.crypto_token_description (value api 0 "Crypto Token Description")
      ∷ checked params.db_token_description (value api 0 "Database Token Description")
      ∷ checked params.fips_token_description (value api 0 "FIPS Token Description")
      ∷ checked params.crypto_slot_description (value api 0 "Crypto Slot Description")
      ∷ checked params.db_slot_description (value api 0 "Database Slot Description")
      ∷ checked params.fips_slot_description (value api 0 "FIPS Slot Description")
      ∷ [])

  unfoldable pub name_and_algorithm_lines : DecodeItem → Formatter
  name_and_algorithm_lines item = steps (
      fmt_obj api 0 (some (codes "Friendly Name")) item.friendly_name
      ∷ fmt_obj api 0 (some (codes "Encryption algorithm")) item.shroud_algorithm
      ∷ [])

  unfoldable pub bag_lines : DecodeItem → Bag → Formatter
  bag_lines item (cert_bag has_key) = steps (
      label api 0 (if has_key then "Certificate (has private key)" else "Certificate")
      ∷ fmt_obj api 1 none item.py_cert
      ∷ fmt_obj api 0 (some (codes "Signature")) item.cert_signature
      ∷ name_and_algorithm_lines item
      ∷ [])
  bag_lines item shrouded_key_bag =
      steps (label api 0 "Key (shrouded)" ∷ name_and_algorithm_lines item ∷ [])
  bag_lines item key_bag = steps (label api 0 "Key" ∷ name_and_algorithm_lines item ∷ [])
  bag_lines item other_bag = label api 0 "unknown bag type"

  unfoldable pub pkcs12_decode_item_format_lines : DecodeItem → Formatter
  unfolding bag_lines
  pkcs12_decode_item_format_lines item =
      steps (fmt_obj api 0 (some (codes "Type")) item.bag_name ∷ bag_lines item item.bag ∷ [])

  -- A text that PR_smprintf cannot make gives a line without a label. The items are what
  -- PKCS12Decoder_item returns; a line without texts separates them.
  unfoldable pub pkcs12_decoder_format_lines : List (Option DecodeItem) → Formatter
  pkcs12_decoder_format_lines items = steps (
      fmt_label_and_append api 0
        (api.smprintf (codes "%d PKCS12 Decode Items") (pos (length items) ∷ []))
      ∷ each
          (λ i item. steps (
            fmt_label_and_append api 0 (api.smprintf (codes "Item %d") (pos (i + 1) ∷ []))
            ∷ checked item (λ it. call_format_lines 1 (pkcs12_decode_item_format_lines it))
            ∷ (if ltb (i + 1) (length items) then fmt_label_and_append api 0 none else steps [])
            ∷ []))
          0 items
      ∷ [])
