-- ===== src/Lines/Tests.antt =====
-- The lines of concrete objects.
use mathlib.Core.Option
use python_nss_ng.Prelude.{◌+◌, true, some, [], ◌∷◌, pos, codes, map, arith, ◌≡◌, refl}
use python_nss_ng.Format.{
  integer, string, object, tuple, line_fmt_tuple, fmt_objects, to_int, int_of,
}
use python_nss_ng.Lines.{
  Api, steps, checked, call_format_lines, fmt_obj, called, sec_item_format_lines,
  fmt_label_and_append, fmt_label, append_hex, append_lines,
}
use python_nss_ng.Hex.{
  raw_data_to_hex, hex_line, hex_lines, octet_chars, separator_before, int_num_lines,
}
use python_nss_ng.Lines.Extensions.{
  CertificateExtension, basic_constraints, certificate_extension_format_lines,
  extension_value_lines, basic_constraints_format_lines,
}
use python_nss_ng.Lines.Shape.{raise}
use python_nss_ng.Lines.Printable.{sec_item, format_lines, format_lines-IsRelative}

abbrev api : Api
api = record {
  str = λ obj. some (codes "True");
  unicode_format = λ fmt args. some (string fmt);
  unicode_from_format = λ fmt args. some (string fmt);
  bytes_from_format = λ fmt args. some fmt;
  smprintf = λ fmt args. some fmt;
  md5 = λ octets. some (codes "0123456789abcdef");
  sha1 = λ octets. some (codes "0123456789abcdef0123");
  py_true = object 1;
  py_false = object 0;
}

abbrev constraints : CertificateExtension
constraints = record {
  extension_name = some (string (codes "Basic Constraints"));
  critical = some (object 0);
  extension_value = basic_constraints (some (record { is_ca = true; path_len_constraint = pos 3 }));
}

extension_runs :
    certificate_extension_format_lines api constraints 2
    ≡ some (
        tuple (integer (pos 2) ∷ string (codes "Name:") ∷ string (codes "Basic Constraints") ∷ [])
        ∷ tuple (integer (pos 2) ∷ string (codes "Critical:") ∷ string (codes "True") ∷ [])
        ∷ tuple (integer (pos 2) ∷ string (codes "Is CA:") ∷ string (codes "True") ∷ [])
        ∷ tuple (integer (pos 2) ∷ string (codes "Path Length:") ∷ string (codes "%d") ∷ [])
        ∷ [])
unfolding certificate_extension_format_lines steps checked fmt_obj line_fmt_tuple
    extension_value_lines basic_constraints_format_lines call_format_lines
extension_runs = refl

format_lines-IsRelative_example :
    called (format_lines api (sec_item (some (codes "ab")))) (1 + 2)
    ≡ Option.map (map (raise true 2)) (called (format_lines api (sec_item (some (codes "ab")))) 1)
unfolding called sec_item_format_lines steps fmt_label_and_append fmt_label line_fmt_tuple checked
    append_hex append_lines fmt_objects raw_data_to_hex hex_line hex_lines octet_chars
    separator_before int_num_lines to_int int_of
format_lines-IsRelative_example =
    format_lines-IsRelative api (sec_item (some (codes "ab"))) 2 1 (omega arith)
      ((omega arith, omega arith), ((omega arith, omega arith), tt))
