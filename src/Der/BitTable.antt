-- ===== src/Der/BitTable.antt =====
-- `bitstr_table_to_tuple`: the enabled bits of a decoded bit string, by a table of their names.
pub mod Bits
use python_nss_ng.Prelude.{
  ℕ, zero, suc, ◌+◌, ◌-◌, ◌*◌, ◌/◌, ◌^◌, ◌%◌, ◌≤◌, ◌<◌, Bytes, Bool, true, false, Option, none,
  some, List, [], ◌∷◌, ◌++◌, length, drop, get_or, get_elem?, ltb, ◌==◌, if◌then◌else◌, bit_and,
  min, ◌≡◌, refl, sym, ap, ◌∙◌, arith, Bool-cases, inl, inr, not, ◌&&◌, ℤ, pos, length-append,
  append_assoc, ◌⊎◌,
}

pub record Entry : Type 0 where
  pub enum_value : ℤ
  pub enum_name : Bytes
  pub enum_description : Option Bytes

-- The kinds that the `switch` knows, and the others of `RepresentationKind`.
pub data RepresentationKind : Type 0 where
  as_enum as_enum_name as_enum_description as_index unsupported : RepresentationKind

pub data Item : Type 0 where
  number : ℤ → Item
  text : Bytes → Item

-- One member of the tuple; `none` is the ValueError.
unfoldable pub member : RepresentationKind → ℕ → Entry → Bytes → Option Item
member as_enum i e description = some (number e.enum_value)
member as_enum_name i e description = some (text e.enum_name)
member as_enum_description i e description = some (text description)
member as_index i e description = some (number (pos i))
member unsupported i e description = none

-- `octet`, `mask` and `data` at the head of a round.
pub record Walk : Type 0 where
  pub octet : ℕ
  pub mask : ℕ
  pub rest : Bytes

-- A fresh octet and mask where `(i % 8) == 0`. The loops are entered with an octet left for each
-- of their reads.
unfoldable pub fetch : ℕ → Walk → Walk
fetch i w =
    if i % 8 == 0
    then record { octet = get_or w.rest 0 0; mask = 0x80; rest = drop 1 w.rest }
    else w

abbrev pub shift_mask : Walk → Walk
shift_mask w = record w { mask = w.mask / 2 }

abbrev pub is_set : Walk → Bool
is_set w = if bit_and w.octet w.mask == 0 then false else true

-- `if (table[i].enum_description)`.
abbrev pub is_defined : Option Bytes → Bool
is_defined none = false
is_defined (some d) = true

-- The first loop: how many bits are enabled and in the table. The list is the table from `i` on,
-- cut at `len`.
unfoldable pub count_bits : ℕ → Walk → List Entry → ℕ → ℕ
unfolding fetch
count_bits i w [] count = count
count_bits i w (e ∷ es) count =
    let w' = fetch i w in
    count_bits (i + 1) (shift_mask w') es
      (if is_set w' && is_defined e.enum_description then count + 1 else count)

-- The second loop, with the members set so far.
unfoldable pub populate :
    RepresentationKind → ℕ → Walk → List Entry → List Item → Option (List Item)
unfolding fetch member
populate kind i w [] items = some items
populate kind i w (e ∷ es) items =
    let w' = fetch i w in
    let skip = populate kind (i + 1) (shift_mask w') es items in
    elim (is_set w') [
      | false ↦ skip
      | true ↦ elim e.enum_description [
        | none ↦ skip
        | some d ↦ elim (member kind i e d) [
          | none ↦ none
          | some item ↦ populate kind (i + 1) (shift_mask w') es (items ++ item ∷ [])
        ]
      ]
    ]

abbrev pub take_entries : ℕ → List Entry → List Entry
take_entries zero es = []
take_entries (suc n) [] = []
take_entries (suc n) (e ∷ es) = e ∷ take_entries n es

abbrev pub start : Bytes → Walk
start octets = record { octet = 0; mask = 0x80; rest = octets }

-- The tuple: its size is allocated by the first loop, and the second one sets its members. No data
-- makes it empty, as does a count of 0, before the kind is looked at. Both loops read an octet for
-- each eight entries they look at, so that with fewer octets they read past the data.
pub data Tuple : Type 0 where
  tuple : ℕ → List Item → Tuple
  value_error out_of_bounds : Tuple

unfoldable pub bitstr_table_to_tuple : Option Bytes → ℕ → List Entry → RepresentationKind → Tuple
unfolding count_bits populate
bitstr_table_to_tuple none bitstr_len table kind = tuple 0 []
bitstr_table_to_tuple (some octets) bitstr_len table kind =
    let entries = take_entries bitstr_len table in
    let count = count_bits 0 (start octets) entries 0 in
    if ltb (length octets * 8) (length entries)
    then out_of_bounds
    else if count == 0
    then tuple 0 []
    else elim (populate kind 0 (start octets) entries []) [
      | none ↦ value_error
      | some items ↦ tuple count items
    ]
