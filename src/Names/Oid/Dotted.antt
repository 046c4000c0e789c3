-- ===== src/Names/Oid/Dotted.antt =====
-- Which texts are dotted decimals for `is_oid_string` (src/py_nss.c): the grammar, read from the left.
use python_nss_ng.Prelude.{
  ℕ, ◌+◌, ◌≤◌, Bytes, Bool, true, false, ◌&&◌, [], ◌∷◌, ltb, ◌==◌, if◌then◌else◌, ◌≡◌, refl, arith,
  codes, drop, Bool-cases, inl, inr,
}
use python_nss_ng.Names.{starts_with}
use python_nss_ng.Names.Oid.{isdigit, all_space, scan_oid, is_oid_string}

-- Integers with one dot between each two, and white space at the end; `true` is inside an integer.
unfoldable pub dotted : Bool → Bytes → Bool
dotted in_integer [] = in_integer
dotted in_integer (c ∷ p) =
    let digit = dotted true p in
    let dot = dotted false p in
    if isdigit c
    then digit
    else if c == 46
    then in_integer && dot
    else in_integer && all_space (c ∷ p)

end_lost : (space : Bool) (n d : ℕ) → n ≤ d → (space && ltb 0 n && (n == d + 1)) ≡ false
end_lost true n d h = ground arith
end_lost false n d h = refl

end_found : (space : Bool) (n d : ℕ) → n ≡ d + 1 → (space && ltb 0 n && (n == d + 1)) ≡ space
end_found true n d h = ground arith
end_found false n d h = refl

below : (b : Bool) (n d : ℕ) → (if b then n else n + 1) ≤ d → n + 1 ≤ d + 1
below true n d h = omega (arith, h)
below false n d h = omega (arith, h)

low : (b : Bool) (n d : ℕ) → (if b then n else n + 1) ≤ d → n ≤ d
low true n d h = h
low false n d h = omega (arith, h)

-- Too many dots are never made up for.
scan_lost :
    (b : Bool) (p : Bytes) (n d : ℕ) → (if b then n else n + 1) ≤ d → scan_oid b p n d ≡ false
unfolding scan_oid
scan_lost true [] n d h = end_lost true n d h
scan_lost false [] n d h = end_lost true n d (omega (arith, h))
scan_lost b (c ∷ p) n d h = elim (Bool-cases (isdigit c)) [
  | inl e ↦ rw (scan_oid, e) (scan_lost true p (if b then n else n + 1) d h)
  | inr e ↦ elim (Bool-cases (c == 46)) [
    | inl g ↦ rw (scan_oid, e, g) (scan_lost false p n (d + 1) (below b n d h))
    | inr g ↦ rw (scan_oid, e, g) (end_lost (all_space (c ∷ p)) n d (low b n d h))
  ]
]

scan_dot :
    (b : Bool) (p : Bytes) (n d : ℕ)
    → (if b then n else n + 1) ≡ d + 1
    → (n + 1 ≡ (d + 1) + 1 → scan_oid false p n (d + 1) ≡ dotted false p)
    → scan_oid false p n (d + 1) ≡ (b && dotted false p)
scan_dot true p n d h rest = rest (omega (arith, h))
scan_dot false p n d h rest = scan_lost false p n (d + 1) (omega (arith, h))

scan_end :
    (b space : Bool) (n d : ℕ)
    → (if b then n else n + 1) ≡ d + 1
    → (space && ltb 0 n && (n == d + 1)) ≡ (b && space)
scan_end true space n d h = end_found space n d h
scan_end false space n d h = end_lost space n d (omega (arith, h))

scan_dotted :
    (b : Bool) (p : Bytes) (n d : ℕ)
    → (if b then n else n + 1) ≡ d + 1
    → scan_oid b p n d ≡ dotted b p
unfolding scan_oid dotted
scan_dotted true [] n d h = ground (arith, h)
scan_dotted false [] n d h = ground (arith, h)
scan_dotted b (c ∷ p) n d h = elim (Bool-cases (isdigit c)) [
  | inl e ↦ rw (scan_oid, dotted, e) (scan_dotted true p (if b then n else n + 1) d h)
  | inr e ↦ elim (Bool-cases (c == 46)) [
    | inl g ↦ rw (scan_oid, dotted, e, g) (scan_dot b p n d h (scan_dotted false p n (d + 1)))
    | inr g ↦ rw (scan_oid, dotted, e, g) (scan_end b (all_space (c ∷ p)) n d h)
  ]
]

-- What `is_oid_string` accepts, by its counts of integers and dots, is behind an optional prefix
-- `OID.` one or more integers with one dot between each two and white space at the end, and
-- nothing else.
pub is_oid_string_lem :
    (oid_string : Bytes)
    → is_oid_string oid_string
      ≡ dotted false
          (if starts_with (codes "OID.") oid_string then drop 4 oid_string else oid_string)
unfolding is_oid_string
is_oid_string_lem oid_string =
    scan_dotted false
      (if starts_with (codes "OID.") oid_string then drop 4 oid_string else oid_string) 0 0 refl
