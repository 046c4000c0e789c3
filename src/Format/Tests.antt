-- ===== src/Format/Tests.antt =====
-- Formatted lines on concrete texts.
use python_nss_ng.Prelude.{codes, List, [], ◌∷◌, pos, negsuc, ◌≡◌, refl, arith, map}
use python_nss_ng.Format.{
  integer, string, tuple, Line, LineInfo, line_info, align, formatted, py_indented_format,
  scan_lines, scan_line, scan_items, scan_texts, indentation, group_len, widest, justify, to_int,
  int_of, buffer_size, sum_lines, write_lines, write_line,
}
use python_nss_ng.Format.Size.{FormatOutcome, format_lem, format_overflows}
use python_nss_ng.Format.Align.{Aligned, texts, align_lem}

abbrev two_lines : List Line
two_lines =
    tuple (integer (pos 0) ∷ string (codes "a:") ∷ string (codes "1") ∷ [])
    ∷ tuple (integer (pos 0) ∷ string (codes "long:") ∷ string (codes "2") ∷ [])
    ∷ []

aligned_text : py_indented_format two_lines (pos 4) ≡ formatted (pos 15) (codes "a:    1\nlong: 2")
unfolding py_indented_format scan_lines scan_line scan_items scan_texts line_info indentation align
    group_len widest justify buffer_size sum_lines write_lines write_line to_int int_of
aligned_text = refl

format_lem_example : FormatOutcome (py_indented_format two_lines (pos 4))
format_lem_example =
    format_lem two_lines 4 (tt, (tt, tt))
      ((omega arith, omega arith), ((omega arith, omega arith), tt))

format_overflows_example :
    py_indented_format (tuple (integer (pos 1) ∷ string (codes "label") ∷ []) ∷ []) (negsuc 0)
    ≡ formatted (pos 4) (codes "label")
format_overflows_example = format_overflows 1 0 (codes "label") (omega arith) (omega arith)

abbrev infos : List LineInfo
infos =
    record { indent_len = pos 0; label = codes "a:"; value = codes "1"; justification_len = 0 }
    ∷ record { indent_len = pos 4; label = codes "long:"; value = codes "2"; justification_len = 0 }
    ∷ []

align_lem_example : Aligned (align 2 infos) × (map texts (align 2 infos) ≡ map texts infos)
unfolding to_int int_of
align_lem_example = align_lem 2 infos (omega arith) (refl, (refl, tt))
