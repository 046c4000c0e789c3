-- ===== src/Der/Ucs2.antt =====
-- `secport_ucs2_swap_bytes` and `secport_ucs2_to_utf8`. The conversion itself is NSS's
-- `PORT_UCS2_UTF8Conversion`: a parameter.
use python_nss_ng.Prelude.{
  suc, ◌%◌, Bytes, Bool, true, false, Option, none, some, [], ◌∷◌, length, ◌==◌, if◌then◌else◌, not,
  ◌&&◌, ◌≡◌, refl, ap, arith,
}

-- The loop over pairs; `none` is SECFailure, for no item or an odd length.
unfoldable pub swap_pairs : Bytes → Bytes
swap_pairs [] = []
swap_pairs (a ∷ []) = a ∷ []
swap_pairs (a ∷ b ∷ rest) = b ∷ a ∷ swap_pairs rest

unfoldable pub secport_ucs2_swap_bytes : Option Bytes → Option Bytes
secport_ucs2_swap_bytes none = none
secport_ucs2_swap_bytes (some octets) =
    if length octets % 2 == 0 then some (swap_pairs octets) else none

-- `none` is PR_FALSE. `convert` answers for `PORT_UCS2_UTF8Conversion`.
unfoldable pub secport_ucs2_to_utf8 :
    (Bool → Bytes → Option Bytes) → Bool → Bytes → Bool → Option Bytes
secport_ucs2_to_utf8 convert to_unicode in_buf swap_bytes =
    if not to_unicode && swap_bytes
    then (elim (secport_ucs2_swap_bytes (some in_buf)) [
      | none ↦ none
      | some swapped ↦ convert to_unicode swapped
    ])
    else convert to_unicode in_buf

swap_twice : (octets : Bytes) → swap_pairs (swap_pairs octets) ≡ octets
unfolding swap_pairs
swap_twice [] = refl
swap_twice (a ∷ []) = refl
swap_twice (a ∷ b ∷ rest) = ap (λ l. a ∷ b ∷ l) (swap_twice rest)

length-swap_pairs : (octets : Bytes) → length (swap_pairs octets) ≡ length octets
unfolding swap_pairs
length-swap_pairs [] = refl
length-swap_pairs (a ∷ []) = refl
length-swap_pairs (a ∷ b ∷ rest) = ap (λ n. suc (suc n)) (length-swap_pairs rest)

-- To read text of the other byte order with swapping is to read the text without; a text of odd
-- length is refused, and the conversion is not asked. Towards Unicode nothing is swapped.
pub ucs2_to_utf8_lem :
    (convert : Bool → Bytes → Option Bytes) (octets : Bytes)
    → (secport_ucs2_to_utf8 convert false (swap_pairs octets) true ≡ (
        if length octets % 2 == 0 then secport_ucs2_to_utf8 convert false octets false else none))
      × (secport_ucs2_to_utf8 convert true octets true
          ≡ secport_ucs2_to_utf8 convert true octets false)
unfolding secport_ucs2_to_utf8 secport_ucs2_swap_bytes
ucs2_to_utf8_lem convert octets =
    (rw (length-swap_pairs octets, swap_twice octets) (ground arith), refl)
