-- ===== src/Callbacks/Nickname/Length.antt =====
-- The length of the SECItem that the nickname callback returns, against the octets of its allocation
-- (src/py_nss.c).
use python_nss_ng.Prelude.{
  ℕ, ◌<◌, Bytes, Bool, true, false, some, [], ◌∷◌, ◌++◌, length, ◌==◌, ◌≡◌, refl, ap, ◌∙◌, arith,
  Bool-cases, inl, inr, length-append,
}
use python_nss_ng.Pem.{c_string}
use python_nss_ng.Callbacks.{Python}
use python_nss_ng.Callbacks.Nickname.{Nickname, answered, copied, nickname_answer}

c_string-zero : (c : ℕ) (s : Bytes) → (c == 0) ≡ true → c_string (c ∷ s) ≡ []
unfolding c_string
c_string-zero c s e = rw (c_string, e) refl

c_string-other : (c : ℕ) (s : Bytes) → (c == 0) ≡ false → c_string (c ∷ s) ≡ c ∷ c_string s
unfolding c_string
c_string-other c s e = rw (c_string, e) refl

c_string-nul : (text rest : Bytes) → c_string text ≡ text → c_string (text ++ 0 ∷ rest) ≡ text
unfolding c_string
c_string-nul [] rest h = refl
c_string-nul (c ∷ text) rest h = elim (Bool-cases (c == 0)) [
  | inl e ↦ absurd (cc (h, c_string-zero c text e))
  | inr e ↦
      c_string-other c (text ++ 0 ∷ rest) e
      ∙ ap (λ t. c ∷ t) (c_string-nul text rest (cc (h, c_string-other c text e)))
]

-- A new nickname with a NUL before its last character is copied up to the NUL, but the SECItem
-- that NSS gets has a length that is larger than the allocation.
pub nickname_answer-nul :
    (py : Python) (cancel : Bool) (text rest : Bytes) (c : ℕ)
    → c_string text ≡ text
    → (nickname : Nickname) × (nickname_answer py cancel (some (some (text ++ 0 ∷ c ∷ rest)))
        ≡ answered cancel (some nickname))
      × (nickname.octets ≡ text ++ (0 ∷ []))
      × (length nickname.octets < nickname.len)
unfolding nickname_answer
nickname_answer-nul py cancel text rest c h =
    let cut = ap (λ t. t ++ (0 ∷ [])) (c_string-nul text (c ∷ rest) h) in
    (
      copied py (text ++ 0 ∷ c ∷ rest),
      refl,
      cut,
      rw (cut, length-append text (0 ∷ []), length-append text (0 ∷ c ∷ rest)) (omega arith),
    )
