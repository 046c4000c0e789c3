-- ===== src/Der/Integer.antt =====
-- `integer_secitem_to_pylong`: an ASN.1 integer of any size. Python's `<<` and `|` on negative
-- numbers go by two's complement.
use native.Mathlib.Nat.{pow-suc}
use mathlib.Core.Path.{ap₂}
use python_nss_ng.Prelude.{
  ℕ, suc, ◌+◌, ◌-◌, ◌*◌, ◌^◌, ◌<◌, Bytes, true, false, Option, none, some, [], ◌∷◌, length, leb,
  ◌==◌, if◌then◌else◌, bit_and, bit_or, ℤ, pos, negsuc, sub_ℕ, ◌≡◌, refl, ap, ◌∙◌, arith, All,
  or_octet, and_octet, Bool-cases, inl, inr, all_below, all_below_sound,
}

-- `PyNumber_Lshift(l, eight)`.
unfoldable pub lshift_8 : ℤ → ℤ
lshift_8 (pos n) = pos (n * 256)
lshift_8 (negsuc n) = negsuc (n * 256 + 255)

-- `PyNumber_Or(l, new_bits)`, where the second number is not negative: ~n | o is ~(n & ~o).
unfoldable pub or_bits : ℤ → ℕ → ℤ
or_bits (pos n) o = pos (bit_or n o)
or_bits (negsuc n) o = negsuc (n - bit_and n o)

-- The loop over the octets.
unfoldable pub shift_in : ℤ → Bytes → ℤ
unfolding lshift_8 or_bits
shift_in l [] = l
shift_in l (octet ∷ rest) = shift_in (or_bits (lshift_8 l) octet) rest

unfoldable pub integer_secitem_to_pylong : Option Bytes → ℤ
unfolding shift_in
integer_secitem_to_pylong none = pos 0
integer_secitem_to_pylong (some []) = pos 0
integer_secitem_to_pylong (some (octet ∷ rest)) =
    shift_in (if bit_and octet 0x80 == 0 then pos 0 else negsuc 0) (octet ∷ rest)

abbrev pub AllOctets : Bytes → Type 0
AllOctets = All (λ o. o < 256)

-- The octets as an unsigned number, the first one highest, behind `n`.
unfoldable pub unsigned : ℕ → Bytes → ℕ
unsigned n [] = n
unsigned n (octet ∷ rest) = unsigned (n * 256 + octet) rest

-- The octets as a signed number: with the highest bit set it is 256 ^ length below the unsigned one.
unfoldable pub signed : Bytes → ℤ
signed [] = pos 0
signed (octet ∷ rest) =
    if leb 128 octet
    then sub_ℕ (unsigned 0 (octet ∷ rest)) (256 ^ length (octet ∷ rest))
    else pos (unsigned 0 (octet ∷ rest))

high_bit_table :
    all_below 256 (λ o. (if bit_and o 0x80 == 0 then 0 else 1) == (if leb 128 o then 1 else 0))
    ≡ true
unfolding all_below
high_bit_table = refl

high_bit :
    (octet : ℕ) → octet < 256 → (bit_and octet 0x80 == 0) ≡ (if leb 128 octet then false else true)
high_bit octet h = ground (
  arith,
  all_below_sound 256 (λ o. (if bit_and o 0x80 == 0 then 0 else 1) == (if leb 128 o then 1 else 0))
      octet high_bit_table h,
)

shift_in_pos :
    (n : ℕ) (octets : Bytes) → AllOctets octets → shift_in (pos n) octets ≡ pos (unsigned n octets)
unfolding shift_in unsigned
shift_in_pos n [] h = refl
shift_in_pos n (octet ∷ rest) (h, hs) =
    ap (λ m. shift_in (pos m) rest) (or_octet (n * 256) octet (omega arith) h)
    ∙ shift_in_pos (n * 256 + octet) rest hs

power_step : (p k : ℕ) → p * 256 * 256 ^ k ≡ p * 256 ^ suc k
power_step p k = omega (arith, ap (λ (t : ℕ). p * t) (pow-suc 256 k))

-- Where `negsuc n` was read from an unsigned number that `power` exceeds.
shift_in_negsuc :
    (n power : ℕ) (octets : Bytes)
    → n < power
    → AllOctets octets
    → shift_in (negsuc n) octets
      ≡ sub_ℕ (unsigned (power - suc n) octets) (power * 256 ^ length octets)
unfolding shift_in unsigned
shift_in_negsuc n power [] lt h = ground arith
shift_in_negsuc n power (octet ∷ rest) lt (h, hs) =
    let m : ℕ = n * 256 + 255 - bit_and (n * 256 + 255) octet in
    let low = and_octet (n * 256 + 255) octet (omega arith) h in
    shift_in_negsuc m (power * 256) rest (omega arith) hs
    ∙ ap₂ (λ u p. sub_ℕ (unsigned u rest) p) (omega (arith, low)) (power_step power (length rest))

-- For octets below 256 the Python number is their value in two's complement, of any length; no
-- octets are 0.
pub integer_lem :
    (octets : Bytes) → AllOctets octets → integer_secitem_to_pylong (some octets) ≡ signed octets
unfolding integer_secitem_to_pylong signed
integer_lem [] h = refl
integer_lem (octet ∷ rest) h = elim (Bool-cases (leb 128 octet)) [
  | inl high ↦
      rw (high, high_bit octet h.0, high)
        (shift_in_negsuc 0 1 (octet ∷ rest) (omega arith) h
          ∙ ap (λ p. sub_ℕ (unsigned 0 (octet ∷ rest)) p) (omega arith))
  | inr low ↦ rw (low, high_bit octet h.0, low) (shift_in_pos 0 (octet ∷ rest) h)
]
