-- ===== src/Format/Size.antt =====
-- The buffer of `py_indented_format` against what is written to it.
use mathlib.Core.Path.{ap₂}
use python_nss_ng.Prelude.{
  ℕ, zero, suc, ◌+◌, ◌-◌, ◌*◌, ◌≤◌, Bytes, List, [], ◌∷◌, ◌++◌, length, take, drop, replicate, ℤ,
  pos, negsuc, pos_part, ◌<◌, ◌^◌, ◌%◌, lt→ltb, le→not_ltb, neg_part, sub_ℕ, ◌+ℤ◌, map, ◌≡◌, refl,
  ap, ◌∙◌, arith, All, All-append, append-nil, Bool-cases, inl, inr, length-append,
  length-replicate,
}
use python_nss_ng.Format.{
  Object, integer, string, Line, tuple, not_tuple, LineInfo, Scan, scanned, indentation, line_info,
  scan_texts, scan_items, scan_line, scan_lines, justify, has_value, align, group_len, widest,
  value_column, line_len, sum_lines, buffer_size, write_line, write_lines, Formatted, formatted,
  type_error, py_indented_format, to_int, int_of,
}

-- A tuple of a level that is not negative and at most two strings.
abbrev pub IsTuple : List Object → Type 0
IsTuple (integer (pos level) ∷ []) = Unit
IsTuple (integer (pos level) ∷ string label ∷ []) = Unit
IsTuple (integer (pos level) ∷ string label ∷ string value ∷ []) = Unit
IsTuple _ = ⊥

abbrev pub IsLine : Line → Type 0
IsLine (tuple items) = IsTuple items
IsLine not_tuple = ⊥

-- A level that fits a long, whose indentation for a width fits a C int.
abbrev pub InRange : ℕ → Line → Type 0
InRange n (tuple (integer (pos level) ∷ texts)) = (level < 2 ^ 63) × (level * n < 2 ^ 31)
InRange n _ = Unit

-- An indentation that is not negative and fits a C int.
abbrev IsIndented : LineInfo → Type 0
IsIndented l = (neg_part l.indent_len ≡ 0) × (to_int l.indent_len ≡ l.indent_len)

pub to_int_pos : (n : ℕ) → n < 2 ^ 31 → to_int (pos n) ≡ pos n
unfolding to_int int_of
to_int_pos n h =
    let small : n % 2 ^ 32 ≡ n = omega arith in rw (to_int, int_of, small) (ground arith)

abbrev IsScanned : Scan LineInfo → Type 0
IsScanned r = (l : LineInfo) × ((r ≡ scanned l) × IsIndented l)

scan_tuple :
    (n : ℕ) (items : List Object)
    → IsTuple items
    → InRange n (tuple items)
    → IsScanned (scan_line (pos n) (tuple items))
unfolding scan_line scan_items scan_texts line_info indentation
scan_tuple n (integer (pos level) ∷ []) h (l, m) = (
  line_info (pos n) level [] [],
  (rw (scan_line, scan_items, lt→ltb level (2 ^ 63) l) refl, (refl, to_int_pos (level * n) m)),
)
scan_tuple n (integer (pos level) ∷ string label ∷ []) h (l, m) = (
  line_info (pos n) level label [],
  (rw (scan_line, scan_items, lt→ltb level (2 ^ 63) l) refl, (refl, to_int_pos (level * n) m)),
)
scan_tuple n (integer (pos level) ∷ string label ∷ string value ∷ []) h (l, m) = (
  line_info (pos n) level label value,
  (rw (scan_line, scan_items, lt→ltb level (2 ^ 63) l) refl, (refl, to_int_pos (level * n) m)),
)
scan_tuple n _ h m = absurd h

scan_every :
    (n : ℕ) (lines : List Line)
    → All IsLine lines
    → All (InRange n) lines
    → (infos : List LineInfo) × ((scan_lines (pos n) lines ≡ scanned infos) × All IsIndented infos)
unfolding scan_lines
scan_every n [] h ms = ([], (refl, tt))
scan_every n (not_tuple ∷ lines) (h, hs) ms = absurd h
scan_every n (tuple items ∷ lines) (h, hs) (m, ms) =
    let (l, (e, i)) = scan_tuple n items h m in
    let (ls, (es, is)) = scan_every n lines hs ms in
    (l ∷ ls, (rw (scan_lines, e, es) refl, (i, is)))

-- Justification leaves the indentation, and so does the alignment.
justify-IsIndented : (column : ℕ) (l : LineInfo) → IsIndented l → IsIndented (justify column l)
unfolding justify
justify-IsIndented column l h = elim (Bool-cases (has_value l)) [
  | inl e ↦ rw (justify, e) h
  | inr e ↦ rw (justify, e) h
]

justified :
    (column : ℕ) (ls : List LineInfo) → All IsIndented ls → All IsIndented (map (justify column) ls)
justified column [] _ = tt
justified column (l ∷ ls) (h, hs) = (justify-IsIndented column l h, justified column ls hs)

taken : (n : ℕ) (ls : List LineInfo) → All IsIndented ls → All IsIndented (take n ls)
taken zero ls _ = tt
taken (suc n) [] _ = tt
taken (suc n) (l ∷ ls) (h, hs) = (h, taken n ls hs)

dropped : (n : ℕ) (ls : List LineInfo) → All IsIndented ls → All IsIndented (drop n ls)
dropped zero ls h = h
dropped (suc n) [] _ = tt
dropped (suc n) (l ∷ ls) (h, hs) = dropped n ls hs

align-IsIndented :
    (fuel : ℕ) (ls : List LineInfo) → All IsIndented ls → All IsIndented (align fuel ls)
unfolding align
align-IsIndented zero ls h = h
align-IsIndented (suc fuel) [] h = tt
align-IsIndented (suc fuel) (l ∷ ls) (h, hs) =
    let n = group_len (to_int l.indent_len) ls in
    let group = l ∷ take n ls in
    All-append IsIndented (map (justify (value_column (widest 0 group))) group)
      (align fuel (drop n ls)) (justified (value_column (widest 0 group)) group (h, taken n ls hs))
      (align-IsIndented fuel (drop n ls) (dropped n ls hs))

spaces : (n : ℕ) → length {A = ℕ} (replicate n b' ') ≡ n
spaces n = length-replicate {A = ℕ} n b' '

length-write_line :
    (l : LineInfo)
    → IsIndented l
    → length (write_line l)
      ≡ pos_part l.indent_len + (length l.label + (l.justification_len + length l.value))
unfolding write_line
length-write_line l (_, fit) =
    rw (write_line, fit)
      (omega (
        arith,
        length-append (replicate (pos_part l.indent_len) b' ')
            (l.label ++ (replicate l.justification_len b' ' ++ l.value)),
        length-append l.label (replicate l.justification_len b' ' ++ l.value),
        length-append (replicate l.justification_len b' ') l.value,
        spaces (pos_part l.indent_len),
        spaces l.justification_len,
      ))

add_line : (n m : ℕ) (z : ℤ) → neg_part z ≡ 0 → pos n +ℤ (z +ℤ pos m) ≡ pos (n + (pos_part z + m))
add_line n m (pos k) h = ground arith
add_line n m (negsuc k) h = absurd (omega arith)

next_size :
    (n : ℕ) (l : LineInfo)
    → IsIndented l
    → pos n +ℤ line_len l ≡ pos (n + length (write_line l) + 1)
next_size n l h =
    add_line n (length l.label + l.justification_len + length l.value + 1) l.indent_len h.0
    ∙ ap pos (omega (arith, length-write_line l h))

sum_written :
    (n : ℕ) (l : LineInfo) (ls : List LineInfo)
    → All IsIndented (l ∷ ls)
    → sum_lines (pos n) (l ∷ ls) ≡ pos (n + length (write_lines (l ∷ ls)) + 1)
unfolding sum_lines write_lines
sum_written n l [] (h, hs) = next_size n l h
sum_written n l (m ∷ ls) (h, hs) =
    ap (λ s. sum_lines s (m ∷ ls)) (next_size n l h)
    ∙ sum_written (n + length (write_line l) + 1) m ls hs
    ∙ ap pos (omega (arith, length-append (write_line l) (b'\n' ∷ write_lines (m ∷ ls))))

last_newline : (n : ℕ) → pos (0 + n + 1) +ℤ negsuc 0 ≡ pos n
last_newline n = ground arith

buffer_size_lem :
    (ls : List LineInfo) → All IsIndented ls → buffer_size ls ≡ pos (length (write_lines ls))
unfolding buffer_size write_lines
buffer_size_lem [] h = refl
buffer_size_lem (l ∷ ls) h =
    ap (λ s. s +ℤ negsuc 0) (sum_written 0 l ls h) ∙ last_newline (length (write_lines (l ∷ ls)))

-- The text fills its buffer.
abbrev pub FormatOutcome : Formatted → Type 0
FormatOutcome (formatted size written) = size ≡ pos (length written)
FormatOutcome (type_error e) = ⊥

-- For tuples of a level that is not negative and at most two strings, and a width that is not
-- negative, where each level fits a long and each level times the width a C int,
-- `py_indented_format` gives a text, and what it writes fills the buffer that it asks for, to the
-- octet.
pub format_lem :
    (lines : List Line) (indent_len : ℕ)
    → All IsLine lines
    → All (InRange indent_len) lines
    → FormatOutcome (py_indented_format lines (pos indent_len))
unfolding py_indented_format
format_lem lines indent_len h in_range =
    let (infos, (e, i)) = scan_every indent_len lines h in_range in
    rw (py_indented_format, e)
      (buffer_size_lem (align (length infos) infos) (align-IsIndented (length infos) infos i))

shorter :
    (m len : ℕ)
    → m ≤ len
    → (pos 0 +ℤ (sub_ℕ 0 m +ℤ pos (len + 0 + 0 + 1))) +ℤ negsuc 0 ≡ pos (len - m)
shorter m len h = ground arith

not_positive : (n : ℕ) → n < 2 ^ 31 → pos_part (to_int (negsuc n)) ≡ 0
unfolding to_int int_of
not_positive n h =
    let small : n % 2 ^ 32 ≡ n = omega arith in
    let not_low = le→not_ltb (2 ^ 32 - 1 - n) (2 ^ 31) (omega arith) in
    rw (to_int, int_of, small, not_low) refl

below_zero : (n : ℕ) → sub_ℕ 0 (suc n) ≡ negsuc n
below_zero n = ground arith

no_indent : (m : ℕ) → m < 2 ^ 31 → pos_part (to_int (sub_ℕ 0 m)) ≡ 0
unfolding to_int int_of
no_indent zero h = refl
no_indent (suc n) h = ap (λ z. pos_part (to_int z)) (below_zero n) ∙ not_positive n (omega arith)

-- With a negative width of at most the length of the label in all, which is below 2^31, a line
-- with a label and no value is given a buffer that is shorter, by the level times the width, than
-- the label that is written to it.
pub format_overflows :
    (level n : ℕ) (label : Bytes)
    → level * suc n ≤ length label
    → length label < 2 ^ 31
    → py_indented_format (tuple (integer (pos level) ∷ string label ∷ []) ∷ []) (negsuc n)
      ≡ formatted (pos (length label - level * suc n)) label
unfolding py_indented_format scan_lines scan_line scan_items scan_texts line_info indentation align
    group_len widest justify buffer_size sum_lines write_lines write_line
format_overflows level n label h small =
    rw (py_indented_format, scan_lines, scan_line, scan_items, lt→ltb level (2 ^ 63) (omega arith))
      (ap₂ formatted (shorter (level * suc n) (length label) h) (
        ap (λ k. replicate k b' ' ++ (label ++ [])) (no_indent (level * suc n) (omega arith))
        ∙ append-nil label))
