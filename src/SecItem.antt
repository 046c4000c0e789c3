-- ===== src/SecItem.antt =====
-- The SecItem type (src/py_nss.c): `SecItem_init`, comparison, length, items and slices.
--
-- `data` is the allocated octets, `none` a NULL pointer, and `len` the length an item claims, an
-- unsigned int. Signed sizes and Python indices are ℤ. Reading past the end of the data is a
-- result of its own. What `PySlice_GetIndicesEx` returns is a parameter of the slices.
pub mod Compare
pub mod Index
pub mod Tests
use python_nss_ng.Prelude.{
  ℕ, zero, suc, ◌+◌, ◌-◌, ◌%◌, ◌^◌, Bytes, Bool, true, false, not, ◌||◌, Option, none, some, List,
  [], ◌∷◌, length, take, drop, get_elem?, ltb, leb, ◌==◌, if◌then◌else◌, ℤ, pos, negsuc, ltb_ℤ,
  ◌+ℤ◌,
}
use python_nss_ng.Pem
use python_nss_ng.Pem.{Library, Decoded, base64_to_sec_item}

pub data Kind : Type 0 where
  unknown buffer dist_name session_id signed_data signature algorithm iv_param wrapped_key : Kind
  cert_extension_oid cert_extension_value oid utf8_string bit_string certificate : Kind
  sym_key_params : Kind

pub record SecItem : Type 0 where
  pub data_type : ℕ
  pub len : ℕ
  pub octets : Option Bytes
  pub kind : Kind

-- `unsigned int len`.
abbrev pub to_uint32 : ℕ → ℕ
to_uint32 n = n % 2 ^ 32

-- `type = siBuffer`.
abbrev pub si_buffer : ℕ
si_buffer = 0

-- The allocation is taken to succeed.
unfoldable pub SecItem_init_from_data : Bytes → ℕ → Kind → SecItem
SecItem_init_from_data d data_type kind = record {
  data_type = data_type;
  len = to_uint32 (length d);
  octets = some d;
  kind = kind;
}

abbrev pub empty_item : SecItem
empty_item = record { data_type = si_buffer; len = 0; octets = none; kind = buffer }

pub data Init : Type 0 where
  created : SecItem → Init
  raised : Pem.Error → Init

-- `SecItem(data, type, ascii)`; the caller's buffer comes back as it is left.
unfoldable pub SecItem_init : Library → Option Bytes → ℕ → Bool → Init × Option Bytes
SecItem_init lib none data_type ascii = (created empty_item, none)
SecItem_init lib (some input) data_type false =
    (created (SecItem_init_from_data input data_type buffer), some input)
SecItem_init lib (some input) data_type true =
    let (r, left) = base64_to_sec_item lib input in
    (
      elim r [
        | Decoded.decoded d ↦ created (SecItem_init_from_data d data_type buffer)
        | Decoded.failed e ↦ raised e
      ],
      some left,
    )

-- The sign of a comparison.
pub data Sign : Type 0 where
  less same greater : Sign

-- `memcmp` on the first `n` octets; `none` is a read past the end of one of the two.
unfoldable pub memcmp : ℕ → Bytes → Bytes → Option Sign
memcmp zero a b = some same
memcmp (suc n) [] b = none
memcmp (suc n) (x ∷ a) [] = none
memcmp (suc n) (x ∷ a) (y ∷ b) =
    let more = memcmp n a b in
    elim more [
      | none ↦ none
      | some r ↦ some (if ltb x y then less else if ltb y x then greater else r)
    ]

pub data Op : Type 0 where
  lt le eq ne gt ge : Op

-- RETURN_COMPARE_RESULT.
abbrev pub is_less : Sign → Bool
is_less less = true
is_less same = false
is_less greater = false

abbrev pub is_same : Sign → Bool
is_same less = false
is_same same = true
is_same greater = false

abbrev pub is_greater : Sign → Bool
is_greater less = false
is_greater same = false
is_greater greater = true

unfoldable pub compare_result : Op → Sign → Bool
compare_result lt r = is_less r
compare_result le r = not (is_greater r)
compare_result eq r = is_same r
compare_result ne r = not (is_same r)
compare_result gt r = is_greater r
compare_result ge r = not (is_less r)

-- The comparison of the lengths, which stays only if one of the items has no data.
abbrev pub by_length : ℕ → ℕ → Sign
by_length n m = if ltb m n then greater else if ltb n m then less else same

abbrev pub cmp_items : SecItem → SecItem → Option Sign
cmp_items self other = elim (self.octets) [
  | none ↦ some (by_length (self.len) (other.len))
  | some a ↦ elim (other.octets) [
    | none ↦ some (by_length (self.len) (other.len))
    | some b ↦ memcmp (self.len) a b
  ]
]

unfoldable pub SecItem_richcompare : SecItem → SecItem → Op → Option Bool
SecItem_richcompare self other op = elim (cmp_items self other) [
  | none ↦ none
  | some r ↦ some (compare_result op r)
]

unfoldable pub SecItem_length : SecItem → ℕ
SecItem_length self = self.len

-- One octet, the IndexError, or a read where there are no data.
pub data Access : Type 0 where
  octet : ℕ → Access
  index_error : Access
  out_of_bounds : Access

abbrev pub octets_of : SecItem → Bytes
octets_of self = elim (self.octets) [ none ↦ [] | some d ↦ d ]

abbrev pub load : SecItem → ℕ → Access
load self i = elim (get_elem? (octets_of self) i) [ none ↦ out_of_bounds | some c ↦ octet c ]

unfoldable pub SecItem_item : SecItem → ℤ → Access
SecItem_item self (negsuc n) = index_error
SecItem_item self (pos i) = if leb (self.len) i then index_error else load self i

-- A negative index counts from the end.
unfoldable pub subscript_index : SecItem → ℤ → Access
subscript_index self (pos i) = SecItem_item self (pos i)
subscript_index self (negsuc n) = SecItem_item self (negsuc n +ℤ pos (self.len))

-- `data + start`, of which `n` octets are copied; `none` is a read past the end.
abbrev pub copy : Bytes → ℕ → ℕ → Option Bytes
copy d start n = if leb (start + n) (length d) then some (take n (drop start d)) else none

-- The clamping of `SecItem_slice`.
abbrev pub clamp_low : ℤ → ℕ
clamp_low (pos i) = i
clamp_low (negsuc n) = 0

abbrev pub clamp_high : ℕ → ℕ → ℕ → ℕ
clamp_high size i j = let k = if ltb size j then size else j in if ltb k i then i else k

-- Where the slice is empty nothing is read, wherever it starts.
unfoldable pub SecItem_slice : SecItem → ℤ → ℤ → Option Bytes
SecItem_slice self i j =
    let low = clamp_low i in
    let high = clamp_high (self.len) low (clamp_low j) in
    if high == low then some [] else copy (octets_of self) low (high - low)

abbrev pub octet_at : Bytes → ℤ → Option ℕ
octet_at d (pos i) = get_elem? d i
octet_at d (negsuc n) = none

-- `for (cur = start, i = 0; i < slice_len; cur += step, i++)`.
unfoldable pub slice_loop : Bytes → ℕ → ℤ → ℤ → Option Bytes
slice_loop src zero cur step = some []
slice_loop src (suc n) cur step =
    let rest = slice_loop src n (cur +ℤ step) step in
    elim (octet_at src cur) [
      | none ↦ none
      | some c ↦ elim rest [ none ↦ none | some cs ↦ some (c ∷ cs) ]
    ]

-- `self[start:stop:step]`, with what `PySlice_GetIndicesEx` makes of it.
unfoldable pub subscript_slice : SecItem → ℤ → ℤ → ℕ → Option Bytes
subscript_slice self (negsuc k) step slice_len =
    if slice_len == 0 then some [] else slice_loop (octets_of self) slice_len (negsuc k) step
subscript_slice self (pos start) (negsuc k) slice_len =
    if slice_len == 0 then some [] else slice_loop (octets_of self) slice_len (pos start) (negsuc k)
subscript_slice self (pos start) (pos step) slice_len =
    if slice_len == 0
    then some []
    else if step == 1
    then copy (octets_of self) start slice_len
    else slice_loop (octets_of self) slice_len (pos start) (pos step)
