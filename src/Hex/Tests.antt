-- ===== src/Hex/Tests.antt =====
-- Runs of the hexadecimal code, and its theorems at concrete texts.
use python_nss_ng.Prelude.{Bytes, codes, none, some, [], ◌∷◌, ◌≡◌, refl, arith, pos}
use python_nss_ng.Hex.{
  int_num_lines, hex_line, hex_lines, one_line, lines, raw_data_to_hex, ok, invalid, read_hex,
  octet_chars, separator_before, read_octets, skip_separators, skip_0x, hex_value, tolower,
  default_separators,
}
use python_nss_ng.Hex.Read.{ReadOutcome, text_of, read_hex-raw_data_to_hex, read_hex_lem}

abbrev sample : Bytes
sample = 0x01 ∷ 0x23 ∷ 0xab ∷ []

one_line_runs : raw_data_to_hex sample (pos 0) (some (codes ":")) ≡ one_line (codes "01:23:ab")
unfolding raw_data_to_hex hex_line octet_chars separator_before
one_line_runs = refl

two_lines_run :
    raw_data_to_hex sample (pos 2) (some (codes ":")) ≡ lines (codes "01:23:" ∷ codes "ab" ∷ [])
unfolding raw_data_to_hex hex_line hex_lines octet_chars separator_before int_num_lines
two_lines_run = refl

prefixed_runs : read_hex 99 (codes "0x01, 0X23, AB") none ≡ some (ok sample)
unfolding read_hex read_octets skip_separators skip_0x hex_value tolower
prefixed_runs = refl

half_octet_fails : read_hex 99 (codes "01 2") none ≡ some (invalid 3)
unfolding read_hex read_octets skip_separators skip_0x hex_value tolower
half_octet_fails = refl

read_hex-raw_data_to_hex_example :
    read_hex 4
      (text_of (raw_data_to_hex sample (pos 2) (some (codes ":"))))
      (some default_separators)
    ≡ some (ok sample)
unfolding hex_value
read_hex-raw_data_to_hex_example =
    read_hex-raw_data_to_hex 4 sample (pos 2) (some (codes ":")) default_separators
      (refl, (refl, (refl, (refl, (refl, tt))))) (omega arith) (refl, tt) (omega arith)
      (omega arith) (omega arith)

read_hex_lem_example : ReadOutcome 4 4 0 (read_hex 5 (codes "01 2") none)
read_hex_lem_example = read_hex_lem 5 (codes "01 2") none (omega arith)
