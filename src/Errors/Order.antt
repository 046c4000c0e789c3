-- ===== src/Errors/Order.antt =====
-- What the check of `init_nspr_errors` says of the table, by index.
use python_nss_ng.Prelude.{
  ◌==ℤ◌, ℕ, zero, suc, ◌+◌, ◌<◌, true, false, some, List, [], ◌∷◌, length, get_elem?, ℤ, ltb_ℤ,
  pos_part, neg_part, ◌≡◌, ◌↔◌, ◌≢◌, refl, ap, subst, arith, Bool-cases, inl, inr, ltb→lt, lt→ltb,
}
use python_nss_ng.Errors.{NsprErrorDesc, check_sequence}

infix 50 ◌<ℤ◌
abbrev pub ◌<ℤ◌ : ℤ → ℤ → Type 0
a <ℤ b = pos_part a + neg_part b < pos_part b + neg_part a

pub <ℤ_trans : (a b c : ℤ) → a <ℤ b → b <ℤ c → a <ℤ c
<ℤ_trans a b c p q = omega arith

pub ==ℤ_self : (a : ℤ) → (a ==ℤ a) ≡ true
==ℤ_self a = ground arith

pub <ℤ_irrefl : (a b : ℤ) → a <ℤ b → a ≢ b
<ℤ_irrefl a b h e = omega (arith, ap pos_part e, ap neg_part e)

-- Every number is above the one before it, the first one above `last`.
abbrev pub IsAscending : ℤ → List NsprErrorDesc → Type 0
IsAscending last [] = Unit
IsAscending last (e ∷ es) = (last <ℤ e.num) × IsAscending e.num es

check_false : (last : ℤ) (es : List NsprErrorDesc) → check_sequence last false es ≡ false
unfolding check_sequence
check_false last [] = refl
check_false last (e ∷ es) = ground (arith, check_false e.num es)

-- The check succeeds exactly when the numbers ascend.
pub check_sequence_lem :
    (last : ℤ) (es : List NsprErrorDesc)
    → (check_sequence last true es ≡ true) ↔ IsAscending last es
unfolding check_sequence
check_sequence_lem last [] = ((λ h. tt), λ h. refl)
check_sequence_lem last (e ∷ es) = elim (Bool-cases (ltb_ℤ last e.num)) [
  | inl up ↦ rw up (
    (λ h. (ltb→lt _ _ up, (check_sequence_lem e.num es).0 h)),
    λ (h, hs). (check_sequence_lem e.num es).1 hs,
  )
  | inr down ↦
      rw down
        ((λ h. absurd (cc (h, check_false e.num es))), λ (h, hs). absurd (cc (down, lt→ltb _ _ h)))
]

pub get_elem?-lt :
    (es : List NsprErrorDesc) (i : ℕ) (e : NsprErrorDesc) → get_elem? es i ≡ some e → i < length es
get_elem?-lt [] i e h = absurd (cc)
get_elem?-lt (x ∷ es) zero e h = omega arith
get_elem?-lt (x ∷ es) (suc i) e h = omega (arith, get_elem?-lt es i e h)

pub get_elem?-some :
    (es : List NsprErrorDesc) (i : ℕ)
    → i < length es
    → (e : NsprErrorDesc) × (get_elem? es i ≡ some e)
get_elem?-some [] i h = absurd (omega arith)
get_elem?-some (x ∷ es) zero h = (x, refl)
get_elem?-some (x ∷ es) (suc i) h = get_elem?-some es i (omega arith)

above_last :
    (last : ℤ) (es : List NsprErrorDesc) (i : ℕ) (e : NsprErrorDesc)
    → IsAscending last es
    → get_elem? es i ≡ some e
    → last <ℤ e.num
above_last last [] i e h g = absurd (cc)
above_last last (x ∷ es) zero e (h, hs) g = ground arith
above_last last (x ∷ es) (suc i) e (h, hs) g =
    <ℤ_trans last x.num e.num h (above_last x.num es i e hs g)

-- In an ascending table a later entry has the greater number.
pub ascending_lt :
    (last : ℤ) (es : List NsprErrorDesc) (i j : ℕ) (a b : NsprErrorDesc)
    → IsAscending last es
    → i < j
    → get_elem? es i ≡ some a
    → get_elem? es j ≡ some b
    → a.num <ℤ b.num
ascending_lt last [] i j a b h lt p q = absurd (cc)
ascending_lt last (x ∷ es) i zero a b h lt p q = absurd (omega arith)
ascending_lt last (x ∷ es) zero (suc j) a b (h, hs) lt p q =
    let first : x ≡ a = cc in subst (λ y. y.num <ℤ b.num) first (above_last x.num es j b hs q)
ascending_lt last (x ∷ es) (suc i) (suc j) a b (h, hs) lt p q =
    ascending_lt x.num es i j a b hs (omega arith) p q
