-- ===== src/Pem.antt =====
-- Base64 and PEM text (src/py_nss.c): `base64_to_SECItem` and `SECItem_to_base64`.
--
-- NSS's base64 codec and NSPR's `PL_strnstr` are parameters. A buffer is its bytes before the NUL
-- that ends it, and may hold NULs of its own.
pub mod Chunks
pub mod Parse
pub mod Tests
use python_nss_ng.Prelude.{
  ℕ, zero, suc, ◌+◌, ◌-◌, Bytes, Bool, true, false, Option, none, some, List, [], ◌∷◌, ◌++◌, length,
  take, drop, ltb, ◌==◌, if◌then◌else◌, codes, min, map,
}

-- `strchr`: the offset of a character before the first NUL.
unfoldable pub strchr : ℕ → Bytes → Option ℕ
strchr c [] = none
strchr c (d ∷ s) =
    let more = strchr c s in
    if d == c
    then some 0
    else if d == 0
    then none
    else elim more [ none ↦ none | some i ↦ some (suc i) ]

-- The C string at the start of a buffer.
unfoldable pub c_string : Bytes → Bytes
c_string [] = []
c_string (c ∷ s) = let more = c_string s in if c == 0 then [] else c ∷ more

abbrev pub begin_mark : Bytes
begin_mark = codes "-----BEGIN"

abbrev pub end_mark : Bytes
end_mark = codes "-----END"

pub data Error : Type 0 where
  no_line_ending no_pem_end decode_failed encode_failed : Error

pub data Decoded : Type 0 where
  decoded : Bytes → Decoded
  failed : Error → Decoded

-- What the code takes from NSPR and NSS: the search in a buffer of a known length, and the codec.
pub record Library : Type 0 where
  pub strnstr : Bytes → Bytes → Option ℕ
  pub decode : Bytes → Option Bytes
  pub encode : Bytes → Option Bytes

-- The end of the line, `\n` or else `\r`.
unfoldable pub line_end : Bytes → Option ℕ
line_end p = elim (strchr b'\n' p) [ none ↦ strchr b'\r' p | some e ↦ some e ]

-- `*der_end = '\0'` in the buffer.
unfoldable pub put_nul : ℕ → Bytes → Bytes
put_nul i buffer = take i buffer ++ 0 ∷ drop (i + 1) buffer

-- `while(src < src_end)`: lines of `n` characters. Each round takes some where `0 < n`.
unfoldable pub chunks : ℕ → ℕ → Bytes → List Bytes
chunks zero n src = []
chunks (suc fuel) n [] = []
chunks (suc fuel) n (c ∷ s) =
    take (min n (length (c ∷ s))) (c ∷ s) ∷ chunks fuel n (drop (min n (length (c ∷ s))) (c ∷ s))

pub data Encoded : Type 0 where
  text : Bytes → Encoded
  lines : List Bytes → Encoded
  refused : Error → Encoded

abbrev pub begin_line : Bytes → Bytes
begin_line pem_type = begin_mark ++ b' ' ∷ pem_type ++ codes "-----"

abbrev pub end_line : Bytes → Bytes
end_line pem_type = end_mark ++ b' ' ∷ pem_type ++ codes "-----"

-- A PEM type asks for lines; 64 characters if no width is given.
abbrev pub line_width : ℕ → Option Bytes → ℕ
line_width chars_per_line none = chars_per_line
line_width chars_per_line (some pem_type) = if chars_per_line == 0 then 64 else chars_per_line

abbrev pub framed : Option Bytes → List Bytes → List Bytes
framed none ls = ls
framed (some pem_type) ls = begin_line pem_type ∷ ls ++ end_line pem_type ∷ []

unfoldable pub lay_out : ℕ → Option Bytes → Bytes → Encoded
unfolding chunks
lay_out n pem_type base64 =
    if n == 0 then text base64 else lines (framed pem_type (chunks (length base64) n base64))

module _ (lib : Library) where
  open lib use {strnstr, decode, encode}

  unfoldable pub decode_region : Bytes → Decoded
  decode_region region = elim (decode region) [ none ↦ failed decode_failed | some d ↦ decoded d ]

  -- The result, and the buffer as it is left: the function writes to its input.
  unfoldable pub base64_to_sec_item : Bytes → Decoded × Bytes
  base64_to_sec_item input = elim (strnstr input begin_mark) [
    | none ↦ (decode_region (c_string input), input)
    | some b ↦ elim (line_end (drop b input)) [
      | none ↦ (failed no_line_ending, input)
      | some e ↦ elim (strnstr (drop (e + 1) (drop b input)) end_mark) [
        | none ↦ (failed no_pem_end, input)
        | some d ↦
            (decode_region (take d (drop (e + 1) (drop b input))), put_nul (b + (e + 1) + d) input)
      ]
    ]
  ]

  unfoldable pub sec_item_to_base64 : Bytes → ℕ → Option Bytes → Encoded
  sec_item_to_base64 octets chars_per_line pem_type = elim (encode octets) [
    | none ↦ refused encode_failed
    | some base64 ↦ lay_out (line_width chars_per_line pem_type) pem_type base64
  ]
