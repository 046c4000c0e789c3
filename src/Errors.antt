-- ===== src/Errors.antt =====
-- The table of NSPR errors (src/py_nspr_error.c): its check at start, its binary search, and the
-- description of an error code. What NSPR knows of the current error is a parameter.
pub mod Order
pub mod Search
pub mod Tests
use python_nss_ng.Prelude.{
  ◌==ℤ◌, ℕ, zero, suc, ◌+◌, ◌-◌, ◌/◌, ◌^◌, ◌%◌, Bytes, Bool, true, false, Option, none, some, List,
  [], ◌∷◌, ◌++◌, length, get_elem?, ltb, ◌==◌, if◌then◌else◌, ℤ, pos, negsuc, ltb_ℤ, pos_part,
  neg_part, codes, not, sub_ℕ,
}

pub record NsprErrorDesc : Type 0 where
  pub num : ℤ
  pub name : Bytes
  pub string : Bytes

-- `cmp_error`, for qsort.
unfoldable pub cmp_error : NsprErrorDesc → NsprErrorDesc → ℤ
cmp_error e1 e2 =
    if ltb_ℤ e1.num e2.num then negsuc 0 else if ltb_ℤ e2.num e1.num then pos 1 else pos 0

-- (PRInt32)0x80000000
abbrev pub int32_min : ℤ
int32_min = negsuc (2 ^ 31 - 1)

-- The loop of `init_nspr_errors` behind qsort: `ok` is the result so far, true for SECSuccess. The
-- lines that it prints on stderr are left out.
unfoldable pub check_sequence : ℤ → Bool → List NsprErrorDesc → Bool
check_sequence last_num ok [] = ok
check_sequence last_num ok (e ∷ es) =
    check_sequence e.num (if not (ltb_ℤ last_num e.num) then false else ok) es

-- `qsort` is a parameter: the C library's, called with `cmp_error`. The table as it is left is
-- returned beside the result.
unfoldable pub init_nspr_errors :
    ((NsprErrorDesc → NsprErrorDesc → ℤ) → List NsprErrorDesc → List NsprErrorDesc)
    → List NsprErrorDesc
    → List NsprErrorDesc × Bool
unfolding check_sequence
init_nspr_errors qsort table =
    let sorted = qsort cmp_error table in (sorted, check_sequence int32_min true sorted)

-- What a lookup ends with: an entry, NULL, or an access outside of the table.
pub data Lookup : Type 0 where
  hit : NsprErrorDesc → Lookup
  miss : Lookup
  out_of_bounds : Lookup

-- The two tests behind the loop.
unfoldable pub test_ends : List NsprErrorDesc → ℤ → ℕ → ℕ → Lookup
test_ends table num low high = elim (get_elem? table low) [
  | none ↦ out_of_bounds
  | some l ↦ elim (num ==ℤ l.num) [
    | true ↦ hit l
    | false ↦ elim (get_elem? table high) [
      | none ↦ out_of_bounds
      | some h ↦ elim (num ==ℤ h.num) [ true ↦ hit h | false ↦ miss ]
    ]
  ]
]

-- `while (low + 1 < high)` with fuel; `none` means that the fuel ran out.
unfoldable pub search_table : ℕ → List NsprErrorDesc → ℤ → ℕ → ℕ → Option Lookup
search_table zero table num low high = none
search_table (suc fuel) table num low high = elim (ltb (low + 1) high) [
  | false ↦ some (test_ends table num low high)
  | true ↦ elim (get_elem? table ((low + high) / 2)) [
    | none ↦ some out_of_bounds
    | some e ↦ elim (num ==ℤ e.num) [
      | true ↦ some (hit e)
      | false ↦ elim (ltb_ℤ num e.num) [
        | true ↦ search_table fuel table num low ((low + high) / 2)
        | false ↦ search_table fuel table num ((low + high) / 2) high
      ]
    ]
  ]
]

-- The table has an entry at least, so that `nspr_error_count - 1` is not negative. The distance of
-- `low` and `high` falls in every round, so that the table's length is fuel enough.
unfoldable pub lookup_nspr_error : List NsprErrorDesc → ℤ → Option Lookup
lookup_nspr_error table num = search_table (length table) table num 0 (length table - 1)

-- What NSPR answers: PR_GetError, the text of PR_GetErrorText if there is one and room for it, and
-- how PR_smprintf writes a number.
pub record Nspr : Type 0 where
  pub get_error : ℤ
  pub error_text : Option Bytes
  pub decimal : ℤ → Bytes

-- The conversion of a `long` to `PRErrorCode`.
unfoldable pub to_int32 : ℤ → ℤ
to_int32 n =
    let w = (pos_part n + 2 ^ 63 - neg_part n) % 2 ^ 32 in
    if ltb w (2 ^ 31) then pos w else negsuc (2 ^ 32 - 1 - w)

abbrev found : Option Lookup → Option NsprErrorDesc
found (some (hit e)) = some e
found _ = none

-- The four formats of the message.
unfoldable pub final_message : Nspr → Option Bytes → Option NsprErrorDesc → ℤ → Bytes
final_message nspr (some msg) (some e) code = msg ++ codes " (" ++ e.name ++ codes ") " ++ e.string
final_message nspr none (some e) code = codes "(" ++ e.name ++ codes ") " ++ e.string
final_message nspr (some msg) none code = msg
final_message nspr none none code = codes "error (" ++ nspr.decimal code ++ codes ") unknown"

-- No pointer, or a code of -1 behind it, asks NSPR, and stores its code behind the pointer.
abbrev pub asks_nspr : Option ℤ → Bool
asks_nspr none = true
asks_nspr (some code) = code ==ℤ negsuc 0

abbrev pub code_or_zero : Option ℤ → ℤ
code_or_zero none = pos 0
code_or_zero (some code) = to_int32 code

abbrev pub stored : Option ℤ → ℤ → Option ℤ
stored none code = none
stored (some old) code = some code

-- The message, and the code that is then behind the pointer.
unfoldable pub get_error_desc : Nspr → List NsprErrorDesc → Option ℤ → Bytes × Option ℤ
unfolding final_message
get_error_desc nspr table p_error_code =
    let asked = asks_nspr p_error_code in
    let code = if asked then nspr.get_error else code_or_zero p_error_code in
    let msg = if asked then nspr.error_text else none in
    (
      final_message nspr msg (found (lookup_nspr_error table code)) code,
      if asked then stored p_error_code nspr.get_error else p_error_code,
    )
