-- ===== src/Der/Tests.antt =====
-- Runs of the DER decoders, and their theorems at concrete data.
use python_nss_ng.Prelude.{
  Bytes, Bool, false, codes, none, some, [], ◌∷◌, ◌++◌, ◌≡◌, refl, arith, pos, negsuc, get_or, ◌*◌,
  ◌-◌, Option,
}
use python_nss_ng.Der.Sequence.{cut_members, cut_members_hangs, wrapping}
use python_nss_ng.Der.BitString.{SrcItem, decoded, der_bitstring_to_nss_bitstring, long_bitstring}
use python_nss_ng.Der.BitTable.{Entry, as_index, tuple, number, bitstr_table_to_tuple, member}
use python_nss_ng.Der.BitTable.Bits.{enabled, bit, mask_at, entry_items, bitstr_table_lem}
use python_nss_ng.Der.Integer.{integer_secitem_to_pylong, signed, integer_lem}

abbrev two_members : Bytes
two_members = 0x05 ∷ 0x00 ∷ 0x02 ∷ 0x81 ∷ 0x01 ∷ 0x07 ∷ []

cut_members_hangs_example : cut_members 1000 (wrapping ++ []) [] [] ≡ none
cut_members_hangs_example = cut_members_hangs 1000 [] [] []

abbrev short_item : SrcItem
short_item = record { mem = λ i. get_or (0x03 ∷ 0x02 ∷ 0x05 ∷ 0xa0 ∷ []) i 0; len = 4 }

abbrev long_item : SrcItem
long_item = record { mem = λ i. get_or (0x03 ∷ 0x81 ∷ 0x03 ∷ 0x05 ∷ 0xa1 ∷ 0xc0 ∷ []) i 0; len = 6 }

long_bitstring_example :
    der_bitstring_to_nss_bitstring false (some long_item) ≡ decoded (2 * 8 - 1) (some 5)
long_bitstring_example = long_bitstring long_item 3 refl refl refl refl (omega arith) (omega arith)

abbrev named : Bytes → Entry
named d = record { enum_value = pos 0; enum_name = d; enum_description = some d }

abbrev hidden : Entry
hidden = record { enum_value = negsuc 0; enum_name = codes "-1"; enum_description = none }

bitstr_table_lem_example :
    bitstr_table_to_tuple
      (some (0xa1 ∷ 0x80 ∷ []))
      9
      (named (codes "a") ∷ named (codes "b") ∷ hidden ∷ [])
      as_index
    ≡ tuple 1 (number (pos 0) ∷ [])
unfolding enabled bit mask_at entry_items member
bitstr_table_lem_example =
    bitstr_table_lem (0xa1 ∷ 0x80 ∷ []) 9 (named (codes "a") ∷ named (codes "b") ∷ hidden ∷ [])
      as_index (cc) (omega arith)

minus_27066 : integer_secitem_to_pylong (some (0x96 ∷ 0x46 ∷ [])) ≡ negsuc 27065
unfolding integer_secitem_to_pylong
minus_27066 = refl

integer_lem_example : integer_secitem_to_pylong (some (0x80 ∷ [])) ≡ signed (0x80 ∷ [])
integer_lem_example = integer_lem (0x80 ∷ []) (omega arith)

abbrev echo : Bool → Bytes → Option Bytes
echo to_unicode octets = some octets
