-- ===== src/Der/BitTable/Bits.antt =====
-- `bitstr_table_to_tuple` against the bits of the string.
use python_nss_ng.Prelude.{
  ℕ, zero, suc, ◌+◌, ◌/◌, ◌%◌, Bytes, Bool, true, false, Option, none, some, List, [], ◌∷◌, ◌++◌,
  length, drop, get_or, ◌==◌, if◌then◌else◌, bit_and, ◌≡◌, refl, sym, ap, ◌∙◌, arith, Bool-cases,
  inl, inr, length-append, append_assoc, ◌≢◌, append-nil, ne→not_eq, Option-cases, le→not_ltb, ◌≤◌,
  ◌*◌,
}
use python_nss_ng.Der.BitTable.{
  Entry, RepresentationKind, as_enum, as_enum_name, as_enum_description, as_index, unsupported,
  Item, member, Walk, fetch, shift_mask, is_set, count_bits, populate, take_entries, start, tuple,
  value_error, bitstr_table_to_tuple,
}

-- 0x80, shifted right `j` times.
unfoldable pub mask_at : ℕ → ℕ
mask_at zero = 0x80
mask_at (suc j) = mask_at j / 2

-- Bit `i` of a string, whose first bit is the highest of the first octet.
unfoldable pub bit : Bytes → ℕ → Bool
bit octets i = if bit_and (get_or octets (i / 8) 0) (mask_at (i % 8)) == 0 then false else true

-- The entry at a bit that is set and that the table defines.
unfoldable pub entry_items : RepresentationKind → ℕ → Entry → Option Bytes → List Item
entry_items kind i e none = []
entry_items kind i e (some d) = elim (member kind i e d) [ none ↦ [] | some item ↦ item ∷ [] ]

-- The members for the bits from `i` on, in order.
unfoldable pub enabled : RepresentationKind → Bytes → ℕ → List Entry → List Item
enabled kind octets i [] = []
enabled kind octets i (e ∷ es) =
    (if bit octets i then entry_items kind i e e.enum_description else [])
    ++ enabled kind octets (i + 1) es

record IsAt (octets : Bytes) (i : ℕ) (w : Walk) : Type 0 where
  fresh : i % 8 ≡ 0 → w.rest ≡ drop (i / 8) octets
  octet : i % 8 ≢ 0 → w.octet ≡ get_or octets (i / 8) 0
  mask : i % 8 ≢ 0 → w.mask ≡ mask_at (i % 8)
  rest : i % 8 ≢ 0 → w.rest ≡ drop (suc (i / 8)) octets

record IsFetched (octets : Bytes) (i : ℕ) (w : Walk) : Type 0 where
  octet : w.octet ≡ get_or octets (i / 8) 0
  mask : w.mask ≡ mask_at (i % 8)
  rest : w.rest ≡ drop (suc (i / 8)) octets

get_or-drop : (k : ℕ) (l : Bytes) → get_or (drop k l) 0 0 ≡ get_or l k 0
get_or-drop zero l = refl
get_or-drop (suc k) [] = refl
get_or-drop (suc k) (x ∷ l) = get_or-drop k l

drop-one : (k : ℕ) (l : Bytes) → drop 1 (drop k l) ≡ drop (suc k) l
drop-one zero l = refl
drop-one (suc k) [] = refl
drop-one (suc k) (x ∷ l) = drop-one k l

fetch-IsFetched :
    (octets : Bytes) (i : ℕ) (w : Walk) → IsAt octets i w → IsFetched octets i (fetch i w)
unfolding fetch mask_at
fetch-IsFetched octets i w h = elim (Bool-cases (i % 8 == 0)) [
  | inl new ↦
      let at : i % 8 ≡ 0 = ground arith in
      rw new (record {
        octet = ap (λ r. get_or r 0 0) (h.fresh at) ∙ get_or-drop (i / 8) octets;
        mask = ap mask_at (sym at);
        rest = ap (drop 1) (h.fresh at) ∙ drop-one (i / 8) octets;
      })
  | inr old ↦
      let at : i % 8 ≢ 0 = ground arith in
      rw old (record { octet = h.octet at; mask = h.mask at; rest = h.rest at })
]

next_bit : (i : ℕ) → (i + 1) % 8 ≢ 0 → suc (i % 8) ≡ (i + 1) % 8
next_bit i h = omega arith

same_octet : (i : ℕ) → (i + 1) % 8 ≢ 0 → i / 8 ≡ (i + 1) / 8
same_octet i h = omega arith

turn_octet : (i : ℕ) → (i + 1) % 8 ≡ 0 → suc (i / 8) ≡ (i + 1) / 8
turn_octet i h = omega arith

shift-IsAt :
    (octets : Bytes) (i : ℕ) (w : Walk) → IsFetched octets i w → IsAt octets (i + 1) (shift_mask w)
unfolding mask_at
shift-IsAt octets i w h = record {
  fresh = λ e. h.rest ∙ ap (λ k. drop k octets) (turn_octet i e);
  octet = λ e. h.octet ∙ ap (λ k. get_or octets k 0) (same_octet i e);
  mask = λ e. ap (λ m. m / 2) h.mask ∙ ap mask_at (next_bit i e);
  rest = λ e. h.rest ∙ ap (λ k. drop (suc k) octets) (same_octet i e);
}

is_set-bit : (octets : Bytes) (i : ℕ) (w : Walk) → IsFetched octets i w → is_set w ≡ bit octets i
unfolding bit
is_set-bit octets i w h = rw (h.octet, h.mask)

member-some :
    (kind : RepresentationKind) (i : ℕ) (e : Entry) (d : Bytes)
    → kind ≢ unsupported
    → (item : Item) × (member kind i e d ≡ some item)
unfolding member
member-some as_enum i e d h = (_, refl)
member-some as_enum_name i e d h = (_, refl)
member-some as_enum_description i e d h = (_, refl)
member-some as_index i e d h = (_, refl)
member-some unsupported i e d h = absurd (h refl)

entry_items-some :
    (kind : RepresentationKind) (i : ℕ) (e : Entry) (o : Option Bytes) (d : Bytes) (item : Item)
    → o ≡ some d
    → member kind i e d ≡ some item
    → entry_items kind i e o ≡ item ∷ []
unfolding entry_items
entry_items-some kind i e none d item named made = absurd (cc)
entry_items-some kind i e (some c) d item named made = ground arith

entry_items-none :
    (kind : RepresentationKind) (i : ℕ) (e : Entry) (o : Option Bytes)
    → o ≡ none
    → entry_items kind i e o ≡ []
unfolding entry_items
entry_items-none kind i e none named = refl
entry_items-none kind i e (some c) named = absurd (cc)

-- What is found at bit `i`.
found : RepresentationKind → Bytes → ℕ → Entry → List Item
found kind octets i e = if bit octets i then entry_items kind i e e.enum_description else []

-- One round of each loop, by what is found there.
populate_round :
    (kind : RepresentationKind) (octets : Bytes)
    → kind ≢ unsupported
    → (i : ℕ) (w : Walk) (e : Entry) (es : List Entry) (items : List Item)
    → is_set (fetch i w) ≡ bit octets i
    → populate kind i w (e ∷ es) items
      ≡ populate kind (i + 1) (shift_mask (fetch i w)) es (items ++ found kind octets i e)
unfolding populate found
populate_round kind octets known i w e es items set = elim (Bool-cases (bit octets i)) [
  | inr unset ↦ rw (set, unset, populate, append-nil)
  | inl one ↦ elim (Option-cases e.enum_description) [
    | inl hidden ↦
        simp (set, one, populate, hidden, entry_items-none kind i e none refl, append-nil)
    | inr (d, named) ↦
        let (item, made) = member-some kind i e d known in
        simp (set, one, populate, named, made, entry_items-some kind i e (some d) d item refl made)
  ]
]

count_round :
    (kind : RepresentationKind) (octets : Bytes)
    → kind ≢ unsupported
    → (i : ℕ) (w : Walk) (e : Entry) (es : List Entry) (count : ℕ)
    → is_set (fetch i w) ≡ bit octets i
    → count_bits i w (e ∷ es) count
      ≡ count_bits (i + 1) (shift_mask (fetch i w)) es (count + length (found kind octets i e))
unfolding count_bits found
count_round kind octets known i w e es count set = elim (Bool-cases (bit octets i)) [
  | inr unset ↦ rw (set, unset) (ap (count_bits (i + 1) (shift_mask (fetch i w)) es) (omega arith))
  | inl one ↦ elim (Option-cases e.enum_description) [
    | inl hidden ↦
        simp (set, one, hidden, entry_items-none kind i e none refl)
          (ap (count_bits (i + 1) (shift_mask (fetch i w)) es) (omega arith))
    | inr (d, named) ↦
        let (item, made) = member-some kind i e d known in
        simp (set, one, named, entry_items-some kind i e (some d) d item refl made)
  ]
]

module _ (kind : RepresentationKind) (octets : Bytes) (known : kind ≢ unsupported) where
  populate_lem :
      (i : ℕ) (w : Walk) (es : List Entry) (items : List Item)
      → IsAt octets i w
      → populate kind i w es items ≡ some (items ++ enabled kind octets i es)
  unfolding enabled found
  populate_lem i w [] items h = unfold populate in rw append-nil
  populate_lem i w (e ∷ es) items h =
      let at = fetch-IsFetched octets i w h in
      populate_round kind octets known i w e es items (is_set-bit octets i (fetch i w) at)
      ∙ populate_lem (i + 1) (shift_mask (fetch i w)) es (items ++ found kind octets i e)
          (shift-IsAt octets i (fetch i w) at)
      ∙ ap some (append_assoc items (found kind octets i e) (enabled kind octets (i + 1) es))

  count_lem :
      (i : ℕ) (w : Walk) (es : List Entry) (count : ℕ)
      → IsAt octets i w
      → count_bits i w es count ≡ count + length (enabled kind octets i es)
  unfolding enabled found
  count_lem i w [] count h = unfold count_bits in omega arith
  count_lem i w (e ∷ es) count h =
      let at = fetch-IsFetched octets i w h in
      count_round kind octets known i w e es count (is_set-bit octets i (fetch i w) at)
      ∙ count_lem (i + 1) (shift_mask (fetch i w)) es (count + length (found kind octets i e))
          (shift-IsAt octets i (fetch i w) at)
      ∙ omega (arith, length-append (found kind octets i e) (enabled kind octets (i + 1) es))

length-zero : (l : List Item) → length l ≡ 0 → l ≡ []
length-zero [] h = refl
length-zero (x ∷ l) h = absurd (omega arith)

tuple_of :
    (count : ℕ) (items : List Item) (made : Option (List Item))
    → count ≡ length items
    → made ≡ some items
    → (if count == 0
        then tuple 0 []
        else (elim made [ none ↦ value_error | some l ↦ tuple count l ]))
      ≡ tuple (length items) items
tuple_of count [] made size e = rw size
tuple_of count (x ∷ items) made size e =
    rw (e, size, ne→not_eq (length (x ∷ items)) 0 (omega arith))

start-IsAt : (octets : Bytes) → IsAt octets 0 (start octets)
start-IsAt octets = record {
  fresh = λ e. refl;
  octet = λ e. absurd (e refl);
  mask = λ e. absurd (e refl);
  rest = λ e. absurd (e refl);
}

-- For a kind that the code knows and octets that hold as many bits as are looked at, the tuple has
-- the size that the first loop counts, and holds the member of each described table entry whose
-- bit is set among the first `bitstr_len` bits, the highest bit of an octet first.
pub bitstr_table_lem :
    (octets : Bytes) (bitstr_len : ℕ) (table : List Entry) (kind : RepresentationKind)
    → kind ≢ unsupported
    → length (take_entries bitstr_len table) ≤ length octets * 8
    → let items = enabled kind octets 0 (take_entries bitstr_len table) in
      bitstr_table_to_tuple (some octets) bitstr_len table kind ≡ tuple (length items) items
unfolding bitstr_table_to_tuple
bitstr_table_lem octets bitstr_len table kind known enough =
    let entries = take_entries bitstr_len table in
    let items = enabled kind octets 0 entries in
    let at = start-IsAt octets in
    let size = count_lem kind octets known 0 (start octets) entries 0 at in
    let made = populate_lem kind octets known 0 (start octets) entries [] at in
    rw (le→not_ltb (length octets * 8) (length entries) enough) (
      tuple_of (count_bits 0 (start octets) entries 0) items
        (populate kind 0 (start octets) entries []) (omega (arith, size)) made)
