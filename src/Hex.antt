-- ===== src/Hex.antt =====
-- Hexadecimal text (src/py_nss.c): `raw_data_to_hex` and `read_hex`.
--
-- A C string is the list of its bytes before the NUL; `char_at` past its end is that NUL. An octet
-- is a number below 256. The number of lines is computed in a C int; the sizes of
-- the lines are taken to fit one.
pub mod Octets
pub mod Write
pub mod Read
pub mod Tests
use python_nss_ng.Prelude.{
  ℕ, zero, suc, ◌+◌, ◌-◌, ◌*◌, ◌/◌, ◌^◌, Bytes, Bool, true, false, ◌&&◌, Option, none, some, List,
  [], ◌∷◌, ◌++◌, length, take, drop, get_or, ltb, leb, ◌==◌, if◌then◌else◌, bit_and, bit_or, codes,
  ℤ, pos_part,
}

abbrev pub hex_chars : Bytes
hex_chars = codes "0123456789abcdef"

-- The two characters of an octet.
unfoldable pub octet_chars : ℕ → Bytes
octet_chars octet =
    get_or hex_chars (bit_and octet 0xf0 / 16) 0 ∷ get_or hex_chars (bit_and octet 0xf) 0 ∷ []

-- `if (i < data_len-1)`: the separator follows every octet but the last one of the data.
unfoldable pub separator_before : Bytes → Bytes → Bytes
separator_before separator [] = []
separator_before separator (o ∷ rest) = separator

-- The loop that fills a line with `n` octets, fewer where the data end.
unfoldable pub hex_line : Bytes → ℕ → Bytes → Bytes
hex_line separator zero octets = []
hex_line separator (suc n) [] = []
hex_line separator (suc n) (o ∷ rest) =
    octet_chars o ++ (separator_before separator rest ++ hex_line separator n rest)

-- `line_size` as each branch computes it, for `n` octets and a separator of `m` bytes.
abbrev pub last_line_size : ℕ → ℕ → ℕ
last_line_size n m = n * 2 + (n - 1) * m

unfoldable pub line_size : ℕ → ℕ → ℕ → ℕ
line_size octets_per_line left m =
    if ltb octets_per_line left then octets_per_line * (2 + m) else last_line_size left m

abbrev pub num_lines : ℕ → ℕ → ℕ
num_lines octets_per_line data_len = (data_len + octets_per_line - 1) / octets_per_line

-- The same in a C int, for a length and a width below 2^31: where the sum wraps it is negative, the
-- quotient is not positive, and the size of the list is set to 0.
unfoldable pub int_num_lines : ℕ → ℕ → ℕ
int_num_lines octets_per_line data_len =
    if ltb (data_len + octets_per_line) (2 ^ 31 + 1) then num_lines octets_per_line data_len else 0

-- The lines of at most `n` octets. A round with octets left takes at least one of them where
-- `0 < n`, so the data's length is fuel enough.
unfoldable pub hex_lines : ℕ → Bytes → ℕ → Bytes → List Bytes
hex_lines zero separator n octets = []
hex_lines (suc fuel) separator n [] = []
hex_lines (suc fuel) separator n (o ∷ rest) =
    hex_line separator n (o ∷ rest) ∷ hex_lines fuel separator n (drop n (o ∷ rest))

pub data HexText : Type 0 where
  one_line : Bytes → HexText
  lines : List Bytes → HexText

abbrev pub separator_or_empty : Option Bytes → Bytes
separator_or_empty none = []
separator_or_empty (some s) = s

-- A negative `octets_per_line` counts as 0. A line past the size of the list is refused by
-- PyList_SetItem and lost.
unfoldable pub raw_data_to_hex : Bytes → ℤ → Option Bytes → HexText
raw_data_to_hex octets octets_per_line separator =
    let sep = separator_or_empty separator in
    let n = pos_part octets_per_line in
    if n == 0
    then one_line (hex_line sep (length octets) octets)
    else lines (take (int_num_lines n (length octets)) (hex_lines (length octets) sep n octets))

unfoldable pub tolower : ℕ → ℕ
tolower c = if leb b'A' c && leb c b'Z' then c + 32 else c

abbrev pub char_at : Bytes → ℕ → ℕ
char_at s i = get_or s i 0

-- The `switch` on a digit.
unfoldable pub hex_value : ℕ → Option ℕ
hex_value c =
    if leb b'0' c && leb c b'9'
    then some (c - b'0')
    else if leb b'a' c && leb c b'f'
    then some (c - b'a' + 10)
    else none

abbrev pub is_in : ℕ → Bytes → Bool
is_in c [] = false
is_in c (d ∷ s) = if c == d then true else is_in c s

unfoldable pub skip_separators : Bytes → Bytes → Bytes
skip_separators separators [] = []
skip_separators separators (c ∷ src) =
    let more = skip_separators separators src in if is_in c separators then more else c ∷ src

unfoldable pub skip_0x : Bytes → Bytes
unfolding tolower
skip_0x src = if char_at src 0 == b'0' && tolower (char_at src 1) == b'x' then drop 2 src else src

-- `ok`, or a ValueError with the offset at which it complains.
pub data HexRead : Type 0 where
  ok : Bytes → HexRead
  invalid : ℕ → HexRead

abbrev pub read_digit : Bytes → ℕ → Option ℕ
read_digit src i = hex_value (tolower (char_at src i))

-- The loop of `read_hex`; `data` holds the octets that were read, `none` is running out of fuel.
unfoldable pub read_octets : ℕ → Bytes → ℕ → Bytes → Bytes → Option HexRead
read_octets zero separators input_len src octets = none
read_octets (suc fuel) separators input_len src octets = elim (skip_separators separators src) [
  | [] ↦ some (ok octets)
  | c ∷ r ↦
      let p = skip_0x (c ∷ r) in
      elim (read_digit p 0) [
        | none ↦ some (invalid (input_len - length p))
        | some hi ↦ elim (read_digit p 1) [
          | none ↦ some (invalid (input_len - length p))
          | some lo ↦
              read_octets fuel separators input_len (drop 2 p) (octets ++ bit_or (hi * 16) lo ∷ [])
        ]
      ]
]

abbrev pub default_separators : Bytes
default_separators = codes " ,:\t\n"

unfoldable pub read_hex : ℕ → Bytes → Option Bytes → Option HexRead
read_hex fuel input separators =
    read_octets fuel (elim separators [ none ↦ default_separators | some s ↦ s ]) (length input)
      input []
