-- ===== src/Lines.antt =====
-- The lines that objects are shown by: the macros `FMT_...` and `APPEND_...` of
-- src/py_nspr_common.h, and `fmt_label`, `obj_sprintf`, `format_from_lines` and the `format_lines`
-- functions of src/py_nss.c and src/py_ssl.c.
--
-- A formatter takes the level and gives the list of lines, or `none` for a NULL; on the way it
-- fails for good, so that the list that it fills is the lines of its steps. Levels are not
-- negative; a formatter writes them as ever larger numbers, and the code in C ints, so that it
-- speaks of lines whose levels are below 2^31. An object is a record of what its getters answer, `none` for a NULL: this module and
-- its children say what the code makes of the answers.
pub mod Shape
pub mod Keys
pub mod Extensions
pub mod Certificates
pub mod Tokens
pub mod Ssl
pub mod VerifyLog
pub mod Printable
pub mod Tests
use Prim.Native.String.{String}
use python_nss_ng.Prelude.{
  ℕ, zero, suc, ◌+◌, Bytes, Bool, ◌&&◌, ◌==ℤ◌, true, false, Option, none, some, List, [], ◌∷◌, ◌++◌,
  length, take, ltb, ◌==◌, if◌then◌else◌, ℤ, pos, map, codes,
}
use python_nss_ng.Format.{
  Object, integer, string, Line, line_fmt_tuple, line_and, fmt_objects, to_int, Formatted,
  py_indented_format,
}
use python_nss_ng.Hex.{HexText, one_line, lines, raw_data_to_hex}
use python_nss_ng.Der.Integer.{integer_secitem_to_pylong}

-- What Python, NSPR and NSS answer: `str(object)`, `format % args`, PyUnicode_FromFormat,
-- PyBytes_FromFormat, PR_smprintf, the two hashes of PK11_HashBuf, and the objects True and False.
pub record Api : Type 0 where
  pub str : Object → Option Bytes
  pub unicode_format : Bytes → List Object → Option Object
  pub unicode_from_format : Bytes → List Object → Option Object
  pub bytes_from_format : Bytes → List Object → Option Bytes
  pub smprintf : Bytes → List ℤ → Option Bytes
  pub md5 : Bytes → Option Bytes
  pub sha1 : Bytes → Option Bytes
  pub py_true : Object
  pub py_false : Object

abbrev pub Formatter : Type 0
Formatter = ℕ → Option (List Line)

abbrev pub joined : Option (List Line) → Option (List Line) → Option (List Line)
joined none ms = none
joined (some ls) none = none
joined (some ls) (some ms) = some (ls ++ ms)

-- One step after the other, and `goto fail` at the first that fails.
unfoldable pub steps : List Formatter → Formatter
steps [] level = some []
steps (f ∷ fs) level = joined (f level) (steps fs level)

-- A call whose NULL is tested for, and what is done with its answer.
unfoldable pub checked : {A : Type 0} → Option A → (A → Formatter) → Formatter
checked none f level = none
checked (some x) f level = f x level

-- APPEND_LINE_TUPLES_AND_CLEAR: nothing for a NULL.
unfoldable pub append_line_tuples : Option (List Line) → Option (List Line)
append_line_tuples none = some []
append_line_tuples (some ls) = some ls

-- CALL_FORMAT_LINES_AND_APPEND at `level + offset`. A NULL makes PyObject_CallMethod fail.
unfoldable pub call_format_lines : ℕ → Formatter → Formatter
call_format_lines offset f level = f (level + offset)

-- A call of another `format_lines` function at `level + offset` and APPEND_LINE_TUPLES_AND_CLEAR.
unfoldable pub append_or_skip : ℕ → Formatter → Formatter
unfolding append_line_tuples
append_or_skip offset f level = append_line_tuples (f (level + offset))

-- A step at a level of its own.
unfoldable pub at_level : ℕ → Formatter → Formatter
at_level own f level = f own

-- A loop with its counter.
unfoldable pub each : {A : Type 0} → (ℕ → A → Formatter) → ℕ → List A → Formatter
each f i [] level = some []
each f i (x ∷ xs) level = joined (f i x level) (each f (suc i) xs level)

-- How many arguments `obj_sprintf` takes: a `%` counts unless a `%` stands before it.
unfoldable pub count_formats : ℕ → Bytes → ℕ
count_formats before [] = 0
count_formats before (c ∷ s) =
    let rest = count_formats c s in
    if c == b'%' then (if before == b'%' then rest else suc rest) else rest

module _ (api : Api) where
  unfoldable pub obj_sprintf : Bytes → List Object → Option Object
  unfolding count_formats
  obj_sprintf fmt args = api.unicode_format fmt (take (count_formats 0 fmt) args)

  -- FMT_OBJ_AND_APPEND at `level + offset`; the object may be NULL.
  unfoldable pub fmt_obj : ℕ → Option Bytes → Option Object → Formatter
  fmt_obj offset label value level =
      line_and (line_fmt_tuple api.str (pos (level + offset)) label value) (some [])

  -- `fmt_label`, and FMT_LABEL_AND_APPEND at `level + offset`.
  unfoldable pub fmt_label : ℤ → Option Bytes → Option Line
  fmt_label level label = line_fmt_tuple api.str level label none

  unfoldable pub fmt_label_and_append : ℕ → Option Bytes → Formatter
  unfolding fmt_label
  fmt_label_and_append offset label level =
      line_and (fmt_label (pos (level + offset)) label) (some [])

  -- APPEND_LINES_AND_CLEAR at `level + offset`.
  unfoldable pub append_lines : ℕ → List Object → Formatter
  append_lines offset src_lines level = fmt_objects api.str (pos (level + offset)) src_lines

  -- A label, and FMT_OBJ_AND_APPEND for an object that was tested for NULL.
  abbrev pub label : ℕ → String → Formatter
  label offset text = fmt_label_and_append offset (some (codes text))

  abbrev pub value : ℕ → String → Object → Formatter
  value offset text obj = fmt_obj offset (some (codes text)) (some obj)

  abbrev pub alone : ℕ → Object → Formatter
  alone offset obj = fmt_obj offset none (some obj)

  -- The objects of the list that `raw_data_to_hex` gives, for a line of 16 octets.
  abbrev pub hex_objects : HexText → List Object
  hex_objects (one_line s) = string s ∷ []
  hex_objects (lines ls) = map string ls

  unfoldable pub append_hex : ℕ → Bytes → Formatter
  append_hex offset octets =
      append_lines offset (hex_objects (raw_data_to_hex octets (pos 16) (some (codes ":"))))

  unfoldable pub secitem_integer_format_lines : Bytes → Formatter
  unfolding append_hex obj_sprintf
  secitem_integer_format_lines octets =
      if ltb 8 (length octets)
      then append_hex 0 octets
      else (let obj = integer (integer_secitem_to_pylong (some octets)) in
          checked (obj_sprintf (codes "%d (%#x)") (obj ∷ obj ∷ [])) (alone 0))

  -- FMT_SEC_INT_OBJ_APPEND_AND_CLEAR at `level + offset`.
  unfoldable pub fmt_sec_int_obj : ℕ → String → Bytes → Formatter
  fmt_sec_int_obj offset text octets = steps (
      label offset text ∷ call_format_lines (offset + 1) (secitem_integer_format_lines octets) ∷ [])

  unfoldable pub fingerprint_format_lines : Bytes → Formatter
  fingerprint_format_lines octets = steps (
      label 0 "Fingerprint (MD5)"
      ∷ checked (api.md5 octets) (append_hex 1)
      ∷ label 0 "Fingerprint (SHA1)"
      ∷ checked (api.sha1 octets) (append_hex 1)
      ∷ [])

  -- `none` is an argument that is no SecItem and cannot be made one.
  unfoldable pub nss_fingerprint_format_lines : Option Bytes → Formatter
  nss_fingerprint_format_lines data_param = checked data_param fingerprint_format_lines

  unfoldable pub sec_item_format_lines : Option Bytes → Formatter
  sec_item_format_lines octets = steps (label 0 "Data" ∷ checked octets (append_hex 1) ∷ [])

-- A Python exception of the formatter, or what `indented_format` answers.
pub data Printed : Type 0 where
  failed : Printed
  printed : Formatted → Printed

-- The format `i` of the arguments.
abbrev pub fits_int : ℤ → Bool
fits_int z = to_int z ==ℤ z

-- The level that a `format_lines` function is called with from Python.
unfoldable pub called : Formatter → Formatter
called formatter level = if fits_int (pos level) then formatter level else none

unfoldable pub format_from_lines : Formatter → ℕ → ℤ → Printed
format_from_lines formatter level indent_len =
    if fits_int (pos level) && fits_int indent_len
    then elim (formatter level) [
      | none ↦ failed
      | some py_lines ↦ printed (py_indented_format py_lines indent_len)
    ]
    else failed
