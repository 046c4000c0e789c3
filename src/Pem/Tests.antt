-- ===== src/Pem/Tests.antt =====
-- PEM text on concrete texts, with a search that has the documented laws.
use python_nss_ng.Prelude.{
  ℕ, suc, ◌≤◌, ◌<◌, Bytes, Bool, true, false, [], ◌∷◌, ◌++◌, length, ◌≡◌, ◌≢◌, refl, sym, ap, ◌∙◌,
  arith, All, Option, none, some, ◌==◌, if◌then◌else◌, ==_self, Bool-cases, inl, inr, codes,
  ne→not_eq, length-append, append_assoc,
}
use python_nss_ng.Pem.{
  end_mark, Library, decode_region, base64_to_sec_item, chunks, sec_item_to_base64, failed,
  no_pem_end, lines, lay_out,
}
use python_nss_ng.Pem.Parse.{StrnstrLaws, IsPem, pem_text, parse_once, parse_again}

unfoldable starts : Bytes → Bytes → Bool
starts [] s = true
starts (m ∷ mark) [] = false
starts (m ∷ mark) (c ∷ s) = let more = starts mark s in if m == c then more else false

unfoldable first_at : Bytes → Bytes → Option ℕ
first_at [] mark = if starts mark [] then some 0 else none
first_at (c ∷ s) mark =
    let more = first_at s mark in
    if starts mark (c ∷ s)
    then some 0
    else if c == 0
    then none
    else elim more [ none ↦ none | some i ↦ some (suc i) ]

starts-append : (mark q : Bytes) → starts mark (mark ++ q) ≡ true
unfolding starts
starts-append [] q = refl
starts-append (m ∷ mark) q = rw (==_self m) (starts-append mark q)

-- A mark that does not fit at the start of a long enough text does not fit there in a longer one.
starts-prefix :
    (mark p q : Bytes)
    → length mark ≤ length p
    → starts mark p ≡ false
    → starts mark (p ++ q) ≡ false
unfolding starts
starts-prefix [] p q n h = h
starts-prefix (m ∷ mark) [] q n h = absurd (omega arith)
starts-prefix (m ∷ mark) (c ∷ p) q n h = elim (Bool-cases (m == c)) [
  | inl e ↦ rw e (starts-prefix mark p q (omega arith) (ground arith))
  | inr e ↦ rw e refl
]

-- Nor does it fit there when a NUL comes first.
starts-nul :
    (mark p q r : Bytes)
    → All (λ c. c ≢ 0) mark
    → starts mark (p ++ r) ≡ false
    → starts mark (p ++ 0 ∷ q) ≡ false
unfolding starts
starts-nul [] p q r h e = e
starts-nul (m ∷ mark) [] q r (z, h) e = rw (ne→not_eq m 0 z) refl
starts-nul (m ∷ mark) (c ∷ p) q r (z, h) e = elim (Bool-cases (m == c)) [
  | inl k ↦ rw k (starts-nul mark p q r h (ground arith))
  | inr k ↦ rw k refl
]

first_at-zero : (s mark : Bytes) → starts mark s ≡ true → first_at s mark ≡ some 0
unfolding first_at
first_at-zero [] mark h = rw h refl
first_at-zero (c ∷ s) mark h = rw h refl

first_at-next :
    (c : ℕ) (s mark : Bytes) (n : ℕ)
    → starts mark (c ∷ s) ≡ false
    → (c == 0) ≡ false
    → first_at s mark ≡ some n
    → first_at (c ∷ s) mark ≡ some (suc n)
unfolding first_at
first_at-next c s mark n h z r = rw (h, z, r) refl

first_at-nul : (mark q : Bytes) → starts mark (0 ∷ q) ≡ false → first_at (0 ∷ q) mark ≡ none
unfolding first_at
first_at-nul mark q h = rw h refl

starts_nul_head : (m : ℕ) (mark q : Bytes) → m ≢ 0 → starts (m ∷ mark) (0 ∷ q) ≡ false
unfolding starts
starts_nul_head m mark q z = rw (ne→not_eq m 0 z) refl

first_at-skip :
    (c : ℕ) (s mark : Bytes)
    → starts mark (c ∷ s) ≡ false
    → first_at s mark ≡ none
    → first_at (c ∷ s) mark ≡ none
unfolding first_at
first_at-skip c s mark h r = elim (Bool-cases (c == 0)) [
  | inl z ↦ rw (h, z) refl
  | inr z ↦ rw (h, z, r) refl
]

-- What a later occurrence says of the first character.
first_at-later :
    (c : ℕ) (s mark : Bytes) (n : ℕ)
    → first_at (c ∷ s) mark ≡ some (suc n)
    → (starts mark (c ∷ s) ≡ false) × (((c == 0) ≡ false) × (first_at s mark ≡ some n))
unfolding first_at
first_at-later c s mark n h = ground arith

first_at-first :
    (p mark q : Bytes)
    → first_at (p ++ mark) mark ≡ some (length p)
    → first_at (p ++ (mark ++ q)) mark ≡ some (length p)
first_at-first [] mark q h = first_at-zero (mark ++ q) mark (starts-append mark q)
first_at-first (c ∷ p) mark q h =
    let (s, (z, r)) = first_at-later c (p ++ mark) mark (length p) h in
    first_at-next c (p ++ (mark ++ q)) mark (length p)
      (ap (λ t. starts mark (c ∷ t)) (sym (append_assoc p mark q))
        ∙ starts-prefix mark (c ∷ p ++ mark) q (omega (arith, length-append p mark)) s)
      z (first_at-first p mark q r)

first_at-stops :
    (p mark q : Bytes)
    → All (λ c. c ≢ 0) mark
    → 0 < length mark
    → first_at (p ++ mark) mark ≡ some (length p)
    → first_at (p ++ 0 ∷ q) mark ≡ none
first_at-stops [] [] q nz l h = absurd (omega arith)
first_at-stops [] (m ∷ mark) q (z, nz) l h = first_at-nul (m ∷ mark) q (starts_nul_head m mark q z)
first_at-stops (c ∷ p) mark q nz l h =
    let (s, (z, r)) = first_at-later c (p ++ mark) mark (length p) h in
    first_at-skip c (p ++ 0 ∷ q) mark (starts-nul mark (c ∷ p) q mark nz s)
      (first_at-stops p mark q nz l r)

-- A codec that leaves every text as it is.
abbrev plain : Library
plain = record { strnstr = first_at; decode = λ s. some s; encode = λ s. some s }

plain_laws : StrnstrLaws first_at
plain_laws = record { first = first_at-first; stops = first_at-stops }

is_pem : IsPem first_at (codes "\n") (codes " CERT-----") (codes "QUJD\n")
unfolding first_at starts
is_pem = record { at_begin = refl; in_line = ground arith; at_end = refl }

parse_once_example :
    base64_to_sec_item plain
      (pem_text (codes "\n") (codes " CERT-----") (codes "QUJD\n" ++ (end_mark ++ codes "\n")))
    ≡ (
      decode_region plain (codes "QUJD\n"),
      pem_text (codes "\n") (codes " CERT-----") (codes "QUJD\n" ++ 0 ∷ codes "----END\n"),
    )
parse_once_example =
    parse_once plain plain_laws (codes "\n") (codes " CERT-----") (codes "QUJD\n") (codes "\n")
      is_pem

parse_again_example :
    base64_to_sec_item plain
      (pem_text (codes "\n") (codes " CERT-----") (codes "QUJD\n" ++ 0 ∷ codes "----END\n"))
    ≡ (
      failed no_pem_end,
      pem_text (codes "\n") (codes " CERT-----") (codes "QUJD\n" ++ 0 ∷ codes "----END\n"),
    )
parse_again_example =
    parse_again plain plain_laws (codes "\n") (codes " CERT-----") (codes "QUJD\n")
      (codes "----END\n") is_pem

three_lines :
    sec_item_to_base64 plain (codes "QUJDR") 2 (some (codes "X"))
    ≡ lines (
        codes "-----BEGIN X-----"
        ∷ codes "QU"
        ∷ codes "JD"
        ∷ codes "R"
        ∷ codes "-----END X-----"
        ∷ [])
unfolding sec_item_to_base64 lay_out chunks
three_lines = refl
