-- ===== src/Der/Escape.antt =====
-- Escaped text: `ascii_encoding_table`, `ascii_encoded_strnlen` and
-- `ascii_string_secitem_to_escaped_ascii_pystr` of src/py_nss.c. An octet is a number below 256.
pub mod RoundTrip
use Prim.Native.String.{String}
use python_nss_ng.Prelude.{
  ℕ, ◌+◌, Bytes, List, [], ◌∷◌, ◌++◌, Option, none, some, length, get_elem?, codes, ◌==◌,
  if◌then◌else◌,
}

pub record AsciiEscapes : Type 0 where
  pub len : ℕ
  pub encoded : Bytes

abbrev escape : ℕ → String → AsciiEscapes
escape len encoded = record { len = len; encoded = codes encoded }

-- The table, as the source lists it.
unfoldable pub ascii_encoding_table : List AsciiEscapes
ascii_encoding_table =
    escape 4 "\\x00"
    ∷ escape 4 "\\x01"
    ∷ escape 4 "\\x02"
    ∷ escape 4 "\\x03"
    ∷ escape 4 "\\x04"
    ∷ escape 4 "\\x05"
    ∷ escape 4 "\\x06"
    ∷ escape 2 "\\a"
    ∷ escape 2 "\\b"
    ∷ escape 2 "\\t"
    ∷ escape 2 "\\n"
    ∷ escape 2 "\\v"
    ∷ escape 2 "\\f"
    ∷ escape 2 "\\r"
    ∷ escape 4 "\\x0E"
    ∷ escape 4 "\\x0F"
    ∷ escape 4 "\\x10"
    ∷ escape 4 "\\x11"
    ∷ escape 4 "\\x12"
    ∷ escape 4 "\\x13"
    ∷ escape 4 "\\x14"
    ∷ escape 4 "\\x15"
    ∷ escape 4 "\\x16"
    ∷ escape 4 "\\x17"
    ∷ escape 4 "\\x18"
    ∷ escape 4 "\\x19"
    ∷ escape 4 "\\x1A"
    ∷ escape 4 "\\x1B"
    ∷ escape 4 "\\x1C"
    ∷ escape 4 "\\x1D"
    ∷ escape 4 "\\x1E"
    ∷ escape 4 "\\x1F"
    ∷ escape 1 " "
    ∷ escape 1 "!"
    ∷ escape 2 "\\\""
    ∷ escape 1 "#"
    ∷ escape 1 "$"
    ∷ escape 1 "%"
    ∷ escape 1 "&"
    ∷ escape 2 "\\'"
    ∷ escape 1 "("
    ∷ escape 1 ")"
    ∷ escape 1 "*"
    ∷ escape 1 "+"
    ∷ escape 1 ","
    ∷ escape 1 "-"
    ∷ escape 1 "."
    ∷ escape 1 "/"
    ∷ escape 1 "0"
    ∷ escape 1 "1"
    ∷ escape 1 "2"
    ∷ escape 1 "3"
    ∷ escape 1 "4"
    ∷ escape 1 "5"
    ∷ escape 1 "6"
    ∷ escape 1 "7"
    ∷ escape 1 "8"
    ∷ escape 1 "9"
    ∷ escape 1 ":"
    ∷ escape 1 ";"
    ∷ escape 1 "<"
    ∷ escape 1 "="
    ∷ escape 1 ">"
    ∷ escape 2 "\\?"
    ∷ escape 1 "@"
    ∷ escape 1 "A"
    ∷ escape 1 "B"
    ∷ escape 1 "C"
    ∷ escape 1 "D"
    ∷ escape 1 "E"
    ∷ escape 1 "F"
    ∷ escape 1 "G"
    ∷ escape 1 "H"
    ∷ escape 1 "I"
    ∷ escape 1 "J"
    ∷ escape 1 "K"
    ∷ escape 1 "L"
    ∷ escape 1 "M"
    ∷ escape 1 "N"
    ∷ escape 1 "O"
    ∷ escape 1 "P"
    ∷ escape 1 "Q"
    ∷ escape 1 "R"
    ∷ escape 1 "S"
    ∷ escape 1 "T"
    ∷ escape 1 "U"
    ∷ escape 1 "V"
    ∷ escape 1 "W"
    ∷ escape 1 "X"
    ∷ escape 1 "Y"
    ∷ escape 1 "Z"
    ∷ escape 1 "["
    ∷ escape 2 "\\\\"
    ∷ escape 1 "]"
    ∷ escape 1 "^"
    ∷ escape 1 "_"
    ∷ escape 1 "`"
    ∷ escape 1 "a"
    ∷ escape 1 "b"
    ∷ escape 1 "c"
    ∷ escape 1 "d"
    ∷ escape 1 "e"
    ∷ escape 1 "f"
    ∷ escape 1 "g"
    ∷ escape 1 "h"
    ∷ escape 1 "i"
    ∷ escape 1 "j"
    ∷ escape 1 "k"
    ∷ escape 1 "l"
    ∷ escape 1 "m"
    ∷ escape 1 "n"
    ∷ escape 1 "o"
    ∷ escape 1 "p"
    ∷ escape 1 "q"
    ∷ escape 1 "r"
    ∷ escape 1 "s"
    ∷ escape 1 "t"
    ∷ escape 1 "u"
    ∷ escape 1 "v"
    ∷ escape 1 "w"
    ∷ escape 1 "x"
    ∷ escape 1 "y"
    ∷ escape 1 "z"
    ∷ escape 1 "{"
    ∷ escape 1 "|"
    ∷ escape 1 "}"
    ∷ escape 1 "~"
    ∷ escape 4 "\\x7F"
    ∷ escape 4 "\\x80"
    ∷ escape 4 "\\x81"
    ∷ escape 4 "\\x82"
    ∷ escape 4 "\\x83"
    ∷ escape 4 "\\x84"
    ∷ escape 4 "\\x85"
    ∷ escape 4 "\\x86"
    ∷ escape 4 "\\x87"
    ∷ escape 4 "\\x88"
    ∷ escape 4 "\\x89"
    ∷ escape 4 "\\x8A"
    ∷ escape 4 "\\x8B"
    ∷ escape 4 "\\x8C"
    ∷ escape 4 "\\x8D"
    ∷ escape 4 "\\x8E"
    ∷ escape 4 "\\x8F"
    ∷ escape 4 "\\x90"
    ∷ escape 4 "\\x91"
    ∷ escape 4 "\\x92"
    ∷ escape 4 "\\x93"
    ∷ escape 4 "\\x94"
    ∷ escape 4 "\\x95"
    ∷ escape 4 "\\x96"
    ∷ escape 4 "\\x97"
    ∷ escape 4 "\\x98"
    ∷ escape 4 "\\x99"
    ∷ escape 4 "\\x9A"
    ∷ escape 4 "\\x9B"
    ∷ escape 4 "\\x9C"
    ∷ escape 4 "\\x9D"
    ∷ escape 4 "\\x9E"
    ∷ escape 4 "\\x9F"
    ∷ escape 4 "\\xA0"
    ∷ escape 4 "\\xA1"
    ∷ escape 4 "\\xA2"
    ∷ escape 4 "\\xA3"
    ∷ escape 4 "\\xA4"
    ∷ escape 4 "\\xA5"
    ∷ escape 4 "\\xA6"
    ∷ escape 4 "\\xA7"
    ∷ escape 4 "\\xA8"
    ∷ escape 4 "\\xA9"
    ∷ escape 4 "\\xAA"
    ∷ escape 4 "\\xAB"
    ∷ escape 4 "\\xAC"
    ∷ escape 4 "\\xAD"
    ∷ escape 4 "\\xAE"
    ∷ escape 4 "\\xAF"
    ∷ escape 4 "\\xB0"
    ∷ escape 4 "\\xB1"
    ∷ escape 4 "\\xB2"
    ∷ escape 4 "\\xB3"
    ∷ escape 4 "\\xB4"
    ∷ escape 4 "\\xB5"
    ∷ escape 4 "\\xB6"
    ∷ escape 4 "\\xB7"
    ∷ escape 4 "\\xB8"
    ∷ escape 4 "\\xB9"
    ∷ escape 4 "\\xBA"
    ∷ escape 4 "\\xBB"
    ∷ escape 4 "\\xBC"
    ∷ escape 4 "\\xBD"
    ∷ escape 4 "\\xBE"
    ∷ escape 4 "\\xBF"
    ∷ escape 4 "\\xC0"
    ∷ escape 4 "\\xC1"
    ∷ escape 4 "\\xC2"
    ∷ escape 4 "\\xC3"
    ∷ escape 4 "\\xC4"
    ∷ escape 4 "\\xC5"
    ∷ escape 4 "\\xC6"
    ∷ escape 4 "\\xC7"
    ∷ escape 4 "\\xC8"
    ∷ escape 4 "\\xC9"
    ∷ escape 4 "\\xCA"
    ∷ escape 4 "\\xCB"
    ∷ escape 4 "\\xCC"
    ∷ escape 4 "\\xCD"
    ∷ escape 4 "\\xCE"
    ∷ escape 4 "\\xCF"
    ∷ escape 4 "\\xD0"
    ∷ escape 4 "\\xD1"
    ∷ escape 4 "\\xD2"
    ∷ escape 4 "\\xD3"
    ∷ escape 4 "\\xD4"
    ∷ escape 4 "\\xD5"
    ∷ escape 4 "\\xD6"
    ∷ escape 4 "\\xD7"
    ∷ escape 4 "\\xD8"
    ∷ escape 4 "\\xD9"
    ∷ escape 4 "\\xDA"
    ∷ escape 4 "\\xDB"
    ∷ escape 4 "\\xDC"
    ∷ escape 4 "\\xDD"
    ∷ escape 4 "\\xDE"
    ∷ escape 4 "\\xDF"
    ∷ escape 4 "\\xE0"
    ∷ escape 4 "\\xE1"
    ∷ escape 4 "\\xE2"
    ∷ escape 4 "\\xE3"
    ∷ escape 4 "\\xE4"
    ∷ escape 4 "\\xE5"
    ∷ escape 4 "\\xE6"
    ∷ escape 4 "\\xE7"
    ∷ escape 4 "\\xE8"
    ∷ escape 4 "\\xE9"
    ∷ escape 4 "\\xEA"
    ∷ escape 4 "\\xEB"
    ∷ escape 4 "\\xEC"
    ∷ escape 4 "\\xED"
    ∷ escape 4 "\\xEE"
    ∷ escape 4 "\\xEF"
    ∷ escape 4 "\\xF0"
    ∷ escape 4 "\\xF1"
    ∷ escape 4 "\\xF2"
    ∷ escape 4 "\\xF3"
    ∷ escape 4 "\\xF4"
    ∷ escape 4 "\\xF5"
    ∷ escape 4 "\\xF6"
    ∷ escape 4 "\\xF7"
    ∷ escape 4 "\\xF8"
    ∷ escape 4 "\\xF9"
    ∷ escape 4 "\\xFA"
    ∷ escape 4 "\\xFB"
    ∷ escape 4 "\\xFC"
    ∷ escape 4 "\\xFD"
    ∷ escape 4 "\\xFE"
    ∷ escape 4 "\\xFF"
    ∷ []

-- Where an index is not in the table, which an octet always is.
abbrev pub no_escape : AsciiEscapes
no_escape = record { len = 0; encoded = [] }

unfoldable pub encode : ℕ → AsciiEscapes
encode o = elim (get_elem? ascii_encoding_table o) [ none ↦ no_escape | some e ↦ e ]

unfoldable pub ascii_encoded_strnlen : Bytes → ℕ
ascii_encoded_strnlen [] = 0
ascii_encoded_strnlen (o ∷ str) = (encode o).len + ascii_encoded_strnlen str

-- The loop that writes the escapes.
unfoldable pub write_escapes : Bytes → Bytes
write_escapes [] = []
write_escapes (o ∷ str) = (encode o).encoded ++ write_escapes str

-- The size of the buffer and the text that is written to it.
unfoldable pub ascii_string_secitem_to_escaped_ascii_pystr : Bytes → ℕ × Bytes
ascii_string_secitem_to_escaped_ascii_pystr octets =
    (ascii_encoded_strnlen octets, write_escapes octets)
