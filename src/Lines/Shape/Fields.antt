-- ===== src/Lines/Shape/Fields.antt =====
-- The levels of the lines of octets, integers, fingerprints and SECItems.
use Prim.Native.String.{String}
use python_nss_ng.Prelude.{ℕ, Bytes, Bool, Option, length, ltb, Bool-cases, inl, inr}
use python_nss_ng.Lines.{
  Api, append_hex, secitem_integer_format_lines, fmt_sec_int_obj, fingerprint_format_lines,
  nss_fingerprint_format_lines, sec_item_format_lines,
}
use python_nss_ng.Lines.Shape.{IsShaped, shape_rules}

module _ (api : Api) (blanks : Bool) where
  pub append_hex-IsShaped :
      (offset : ℕ) (octets : Bytes) → IsShaped blanks (append_hex api offset octets)
  unfolding append_hex
  append_hex-IsShaped offset octets = search (shape_rules)

  pub secitem_integer-IsShaped :
      (octets : Bytes) → IsShaped blanks (secitem_integer_format_lines api octets)
  unfolding secitem_integer_format_lines
  secitem_integer-IsShaped octets = elim (Bool-cases (ltb 8 (length octets))) [
    | inl e ↦ rw (secitem_integer_format_lines, e) (append_hex-IsShaped 0 octets)
    | inr e ↦ rw (secitem_integer_format_lines, e) (search (shape_rules))
  ]

  pub fmt_sec_int_obj-IsShaped :
      (offset : ℕ) (text : String) (octets : Bytes)
      → IsShaped blanks (fmt_sec_int_obj api offset text octets)
  unfolding fmt_sec_int_obj
  fmt_sec_int_obj-IsShaped offset text octets = search (shape_rules, secitem_integer-IsShaped)

  pub fingerprint-IsShaped :
      (octets : Bytes) → IsShaped blanks (fingerprint_format_lines api octets)
  unfolding fingerprint_format_lines
  fingerprint-IsShaped octets = search (shape_rules, append_hex-IsShaped) depth 20

  pub nss_fingerprint-IsShaped :
      (octets : Option Bytes) → IsShaped blanks (nss_fingerprint_format_lines api octets)
  unfolding nss_fingerprint_format_lines
  nss_fingerprint-IsShaped octets = search (shape_rules, fingerprint-IsShaped)

  pub sec_item-IsShaped :
      (octets : Option Bytes) → IsShaped blanks (sec_item_format_lines api octets)
  unfolding sec_item_format_lines
  sec_item-IsShaped octets = search (shape_rules, append_hex-IsShaped)
