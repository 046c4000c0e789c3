-- ===== src/Der/Text/Dropped.antt =====
-- The text of a bit string, which `der_universal_secitem_to_pystr` makes and drops.
use python_nss_ng.Prelude.{ℕ, suc, ◌<◌, Bytes, some, ◌∷◌, ◌++◌, ◌≡◌, refl}
use python_nss_ng.Der.Text.{
  Decoders, str, none_object, secitem_to_pystr_hex, unused_note, stripped, kind, primitive_to_pystr,
  der_bit_string_secitem_to_pystr, der_any_secitem_to_pystr, members_to_pylist,
}
use python_nss_ng.Der.Text.Trees.{strip-short}

-- A bit string with a length in the short form and at least one octet of bits has a text, but
-- `der_any_secitem_to_pystr` returns None for it.
pub bit_string_dropped :
    (lib : Decoders) (fuel n unused octet : ℕ) (octets beyond : Bytes)
    → n < 128
    → (der_bit_string_secitem_to_pystr lib (0x03 ∷ n ∷ unused ∷ octet ∷ octets)
        ≡ str (secitem_to_pystr_hex (octet ∷ octets) ++ unused_note lib unused))
      × (der_any_secitem_to_pystr lib (suc fuel) (0x03 ∷ n ∷ unused ∷ octet ∷ octets) beyond
          ≡ some none_object)
unfolding der_bit_string_secitem_to_pystr der_any_secitem_to_pystr members_to_pylist kind
    primitive_to_pystr
bit_string_dropped lib fuel n unused octet octets beyond h = (
  rw (der_bit_string_secitem_to_pystr, stripped, strip-short 0x03 n (unused ∷ octet ∷ octets) h)
      refl,
  refl,
)
