-- ===== src/Der/Text/Tests.antt =====
-- The text of concrete DER items.
use python_nss_ng.Prelude.{some, [], ◌∷◌, ◌++◌, codes, ◌≡◌, refl, arith, length}
use python_nss_ng.Der.Escape.{
  ascii_string_secitem_to_escaped_ascii_pystr, write_escapes, encode, ascii_encoding_table,
}
use python_nss_ng.Der.Escape.RoundTrip.{unescape, plain, escape_lem}
use python_nss_ng.Der.Text.{
  Decoders, der_any_secitem_to_pystr, str, kind, none_object, secitem_to_pystr_hex,
  der_bit_string_secitem_to_pystr, unused_note,
}
use python_nss_ng.Der.Text.Trees
use python_nss_ng.Der.Text.Trees.{leaf, node, next, end, Tree, text, IsDer, der_any_lem}
use python_nss_ng.Der.Text.Dropped.{bit_string_dropped}

-- Decoders that show their input.
abbrev plain_decoders : Decoders
plain_decoders = record {
  utc_time = λ b. some b;
  generalized_time = λ b. some b;
  oid_description = λ b. some b;
  oid_string = λ b. some b;
  utf_8 = λ b. some b;
  utf_16 = λ b. some b;
  utf_32 = λ b. some b;
  decimal = λ n. codes "n";
}

abbrev pair : Tree
pair = node 0x30 (next (leaf 0x01 (0xff ∷ [])) (next (leaf 0x0c (codes "hi")) end))

pair-IsDer : IsDer pair
unfolding IsDer Trees.encode kind
pair-IsDer = (
  (refl, (refl, refl)),
  (
    omega arith,
    (
      ((refl, refl), (omega arith, (omega arith, tt))),
      (((refl, refl), (omega arith, (omega arith, (omega arith, tt)))), tt),
    ),
  ),
)

der_any_lem_example :
    der_any_secitem_to_pystr plain_decoders 9 (Trees.encode pair) []
    ≡ some (text plain_decoders pair)
unfolding Trees.rounds
der_any_lem_example = der_any_lem plain_decoders 9 pair [] pair-IsDer (omega arith)

bit_string_dropped_example :
    (der_bit_string_secitem_to_pystr plain_decoders (0x03 ∷ 2 ∷ 1 ∷ 0xfe ∷ [])
      ≡ str (secitem_to_pystr_hex (0xfe ∷ []) ++ unused_note plain_decoders 1))
    × (der_any_secitem_to_pystr plain_decoders 1 (0x03 ∷ 2 ∷ 1 ∷ 0xfe ∷ []) [] ≡ some none_object)
bit_string_dropped_example = bit_string_dropped plain_decoders 0 2 1 0xfe [] [] (omega arith)

escape_lem_example :
    (unescape plain (ascii_string_secitem_to_escaped_ascii_pystr (7 ∷ 0xff ∷ codes "a?")).1
      ≡ 7 ∷ 0xff ∷ codes "a?")
    × ((ascii_string_secitem_to_escaped_ascii_pystr (7 ∷ 0xff ∷ codes "a?")).0
        ≡ length (ascii_string_secitem_to_escaped_ascii_pystr (7 ∷ 0xff ∷ codes "a?")).1)
escape_lem_example =
    escape_lem (7 ∷ 0xff ∷ codes "a?")
      (omega arith, (omega arith, (omega arith, (omega arith, tt))))

escaped : write_escapes (7 ∷ 0xff ∷ codes "a?") ≡ codes "\\a\\xFFa\\?"
unfolding write_escapes encode ascii_encoding_table
escaped = refl
