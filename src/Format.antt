-- ===== src/Format.antt =====
-- Indented lines (src/py_nss.c): `line_fmt_tuple`, `make_line_fmt_tuples` and `py_indented_format`.
--
-- A Python object is what the code asks of it; a string is its UTF-8 octets, and any other object
-- has a number that stands for its identity. `LineInfo` holds the texts of which the code caches the
-- lengths: its `indent_len` is a Py_ssize_t, which `cur_indent_len` cuts to a C int. Requests for
-- memory are taken to be granted; where the size of the text is refused nothing is written.
pub mod Size
pub mod Align
pub mod Tests
use python_nss_ng.Prelude.{
  ◌==ℤ◌, ℕ, zero, suc, ◌+◌, ◌-◌, ◌*◌, Bytes, Bool, true, false, Option, none, some, List, [], ◌∷◌,
  ◌++◌, length, take, drop, replicate, ltb, ◌==◌, if◌then◌else◌, ℤ, pos, negsuc, pos_part, neg_part,
  sub_ℕ, ◌+ℤ◌, map, codes, ◌^◌, ◌%◌,
}

pub data Object : Type 0 where
  integer : ℤ → Object
  string : Bytes → Object
  object : ℕ → Object

pub data Line : Type 0 where
  tuple : List Object → Line
  not_tuple : Line

-- A C int of a wider number.
unfoldable pub int_of : ℕ → ℤ
int_of w = if ltb w (2 ^ 31) then pos w else negsuc (2 ^ 32 - 1 - w)

unfoldable pub to_int : ℤ → ℤ
unfolding int_of
to_int (pos n) = int_of (n % 2 ^ 32)
to_int (negsuc n) = int_of (2 ^ 32 - 1 - n % 2 ^ 32)

-- `str(value)` of an object that is no string is a parameter, `none` where it raises.
abbrev pub label_items : Option Bytes → List Object
label_items none = []
label_items (some label) = string (label ++ b':' ∷ []) ∷ []

abbrev pub one_item : Option Bytes → Option (List Object)
one_item none = none
one_item (some s) = some (string s ∷ [])

abbrev pub value_items : (Object → Option Bytes) → Option Object → Option (List Object)
value_items str none = some []
value_items str (some (string s)) = some (string s ∷ [])
value_items str (some (integer n)) = one_item (str (integer n))
value_items str (some (object o)) = one_item (str (object o))

-- The level is a C int.
unfoldable pub line_fmt_tuple :
    (Object → Option Bytes) → ℤ → Option Bytes → Option Object → Option Line
line_fmt_tuple str level label value = elim (value_items str value) [
  | none ↦ none
  | some items ↦ some (tuple (integer level ∷ label_items label ++ items))
]

-- A list or a tuple, or one object that is neither.
pub data Source : Type 0 where
  sequence : List Object → Source
  single : Object → Source

-- A line and those behind it, none if one of them is missing.
abbrev pub line_and : Option Line → Option (List Line) → Option (List Line)
line_and none ls = none
line_and (some l) none = none
line_and (some l) (some ls) = some (l ∷ ls)

-- The loop over the objects; the first that has no text ends it. `make_line_fmt_tuples` then returns
-- the list that it has released: its `none` is that list.
unfoldable pub fmt_objects : (Object → Option Bytes) → ℤ → List Object → Option (List Line)
fmt_objects str level [] = some []
fmt_objects str level (obj ∷ objs) =
    line_and (line_fmt_tuple str level none (some obj)) (fmt_objects str level objs)

unfoldable pub make_line_fmt_tuples : (Object → Option Bytes) → ℤ → Source → Option (List Line)
make_line_fmt_tuples str level (sequence objs) = fmt_objects str level objs
make_line_fmt_tuples str level (single obj) = fmt_objects str level (obj ∷ [])

-- The TypeErrors.
pub data Error : Type 0 where
  must_be_tuple bad_length level_not_integer level_negative label_not_string value_not_string :
      Error

pub record LineInfo : Type 0 where
  pub indent_len : ℤ
  pub label : Bytes
  pub value : Bytes
  pub justification_len : ℕ

pub data Scan (A : Type 0) : Type 0 where
  scanned : A → Scan A
  refused : Error → Scan A

-- `line_level * indent_len`.
unfoldable pub indentation : ℕ → ℤ → ℤ
indentation level (pos n) = pos (level * n)
indentation level (negsuc n) = sub_ℕ 0 (level * suc n)

unfoldable pub line_info : ℤ → ℕ → Bytes → Bytes → LineInfo
unfolding indentation
line_info indent_len level label value = record {
  indent_len = indentation level indent_len;
  label = label;
  value = value;
  justification_len = 0;
}

-- The label and the value of a tuple, in the order in which they are tested.
unfoldable pub scan_texts : ℤ → ℕ → List Object → Scan LineInfo
unfolding line_info
scan_texts indent_len level [] = scanned (line_info indent_len level [] [])
scan_texts indent_len level (string label ∷ []) = scanned (line_info indent_len level label [])
scan_texts indent_len level (string label ∷ string value ∷ []) =
    scanned (line_info indent_len level label value)
scan_texts indent_len level (string label ∷ integer n ∷ []) = refused value_not_string
scan_texts indent_len level (string label ∷ object o ∷ []) = refused value_not_string
scan_texts indent_len level (integer n ∷ rest) = refused label_not_string
scan_texts indent_len level (object o ∷ rest) = refused label_not_string
scan_texts indent_len level (string label ∷ value ∷ more ∷ rest) = refused bad_length

-- The checks of step 1 on one line; the length comes before the items. PyLong_AsLong answers -1 for
-- a level that does not fit a long.
unfoldable pub scan_items : ℤ → List Object → Scan LineInfo
unfolding scan_texts
scan_items indent_len [] = refused bad_length
scan_items indent_len (integer (pos level) ∷ texts) =
    if ltb level (2 ^ 63) then scan_texts indent_len level texts else refused level_negative
scan_items indent_len (integer (negsuc n) ∷ texts) = refused level_negative
scan_items indent_len (string s ∷ texts) = refused level_not_integer
scan_items indent_len (object o ∷ texts) = refused level_not_integer

unfoldable pub scan_line : ℤ → Line → Scan LineInfo
scan_line indent_len not_tuple = refused must_be_tuple
scan_line indent_len (tuple items) =
    if ltb 3 (length items) then refused bad_length else scan_items indent_len items

-- Step 1. The first bad line ends it.
unfoldable pub scan_lines : ℤ → List Line → Scan (List LineInfo)
scan_lines indent_len [] = scanned []
scan_lines indent_len (l ∷ ls) = elim (scan_line indent_len l) [
  | refused e ↦ refused e
  | scanned info ↦ elim (scan_lines indent_len ls) [
    | refused e ↦ refused e
    | scanned infos ↦ scanned (info ∷ infos)
  ]
]

abbrev pub has_value : LineInfo → Bool
has_value l = if length l.value == 0 then false else true

-- How many lines share the indentation: `j - i`, from the line behind `i` on.
unfoldable pub group_len : ℤ → List LineInfo → ℕ
group_len cur [] = 0
group_len cur (l ∷ ls) = let more = group_len cur ls in if cur ==ℤ l.indent_len then suc more else 0

-- The widest label of the lines with a value.
unfoldable pub widest : ℕ → List LineInfo → ℕ
widest max_align [] = max_align
widest max_align (l ∷ ls) =
    widest
      (if has_value l
        then (if ltb max_align (length l.label) then length l.label else max_align)
        else max_align)
      ls

-- `if (max_align) max_align += 1`.
abbrev pub value_column : ℕ → ℕ
value_column max_align = if max_align == 0 then 0 else max_align + 1

unfoldable pub justify : ℕ → LineInfo → LineInfo
justify column l =
    if has_value l then record l { justification_len = column - length l.label } else l

-- Step 2, a group in each round, which takes one line at least: `cur_indent_len` is a C int.
unfoldable pub align : ℕ → List LineInfo → List LineInfo
align zero ls = ls
align (suc fuel) [] = []
align (suc fuel) (l ∷ ls) =
    let n = group_len (to_int l.indent_len) ls in
    let group = l ∷ take n ls in
    map (justify (value_column (widest 0 group))) group ++ align fuel (drop n ls)

-- Step 3: the size of the buffer, in signed numbers.
abbrev pub line_len : LineInfo → ℤ
line_len l = l.indent_len +ℤ pos (length l.label + l.justification_len + length l.value + 1)

unfoldable pub sum_lines : ℤ → List LineInfo → ℤ
sum_lines size [] = size
sum_lines size (l ∷ ls) = sum_lines (size +ℤ line_len l) ls

unfoldable pub buffer_size : List LineInfo → ℤ
unfolding sum_lines
buffer_size [] = pos 0
buffer_size (l ∷ ls) = sum_lines (pos 0) (l ∷ ls) +ℤ negsuc 0

-- Step 4: the text that is written.
unfoldable pub write_line : LineInfo → Bytes
write_line l =
    replicate (pos_part (to_int l.indent_len)) b' '
    ++ (l.label ++ (replicate l.justification_len b' ' ++ l.value))

unfoldable pub write_lines : List LineInfo → Bytes
write_lines [] = []
write_lines (l ∷ []) = write_line l
write_lines (l ∷ m ∷ ls) = write_line l ++ b'\n' ∷ write_lines (m ∷ ls)

-- The size that was allocated and the octets that are written to it, or the TypeError.
pub data Formatted : Type 0 where
  formatted : ℤ → Bytes → Formatted
  type_error : Error → Formatted

unfoldable pub py_indented_format : List Line → ℤ → Formatted
py_indented_format lines indent_len = elim (scan_lines indent_len lines) [
  | refused e ↦ type_error e
  | scanned infos ↦
      let aligned = align (length infos) infos in
      formatted (buffer_size aligned) (write_lines aligned)
]
