-- ===== src/SecItem/Compare.antt =====
-- What the comparison of two SecItems says of their octets.
use python_nss_ng.Prelude.{
  ℕ, zero, suc, ◌<◌, Bytes, Bool, true, Option, none, some, [], ◌∷◌, ◌++◌, length, ltb, ◌%◌, ◌^◌,
  ◌≡◌, ◌↔◌, refl, sym, ap, subst, ◌⊎◌, inl, inr, ◌∙◌, arith, if◌then◌else◌, length-append,
}
use python_nss_ng.SecItem.{
  SecItem, SecItem_init_from_data, Kind, memcmp, Sign, less, same, greater, Op, lt, eq, gt,
  compare_result, SecItem_richcompare,
}

-- The item that `SecItem_init_from_data` makes of fewer than 2^32 octets: its length is theirs.
abbrev pub held : Bytes → ℕ → Kind → SecItem
held d data_type kind = record {
  data_type = data_type;
  len = length d;
  octets = some d;
  kind = kind;
}

small : (n : ℕ) → n < 2 ^ 32 → n % 2 ^ 32 ≡ n
small n h = omega arith

pub init_from_data-held :
    (d : Bytes) (t : ℕ) (k : Kind) → length d < 2 ^ 32 → SecItem_init_from_data d t k ≡ held d t k
unfolding SecItem_init_from_data
init_from_data-held d t k h =
    ap (λ n. record { data_type = t; len = n; octets = some d; kind = k }) (small (length d) h)

abbrev pub flip : Sign → Sign
flip less = greater
flip same = same
flip greater = less

abbrev pub flip_option : Option Sign → Option Sign
flip_option none = none
flip_option (some r) = some (flip r)

step : ℕ → ℕ → Option Sign → Option Sign
step x y more = elim more [
  | none ↦ none
  | some r ↦ some (if ltb x y then less else if ltb y x then greater else r)
]

flip_step :
    (x y : ℕ) (r s : Option Sign) → s ≡ flip_option r → step y x s ≡ flip_option (step x y r)
unfolding step
flip_step x y none s h = rw h refl
flip_step x y (some r) s h = rw h (ground arith)

same_step : (x y : ℕ) (r : Option Sign) → step x y r ≡ some same → (x ≡ y) × (r ≡ some same)
unfolding step
same_step x y none h = ground arith
same_step x y (some r) h = ground arith

memcmp-flip :
    (n : ℕ) (a b : Bytes) → length a ≡ n → length b ≡ n → memcmp n b a ≡ flip_option (memcmp n a b)
unfolding memcmp step
memcmp-flip zero a b p q = refl
memcmp-flip (suc n) [] b p q = absurd (omega arith)
memcmp-flip (suc n) (x ∷ a) [] p q = absurd (omega arith)
memcmp-flip (suc n) (x ∷ a) (y ∷ b) p q =
    let ih : memcmp n b a ≡ flip_option (memcmp n a b) =
      memcmp-flip n a b (omega arith) (omega arith) in
    flip_step x y (memcmp n a b) (memcmp n b a) ih

memcmp-same : (a b : Bytes) → length a ≡ length b → memcmp (length a) a b ≡ some same → a ≡ b
unfolding memcmp step
memcmp-same [] [] p h = refl
memcmp-same [] (y ∷ b) p h = absurd (omega arith)
memcmp-same (x ∷ a) [] p h = absurd (omega arith)
memcmp-same (x ∷ a) (y ∷ b) p h =
    let ih : memcmp (length a) a b ≡ some same → a ≡ b = memcmp-same a b (omega arith) in
    let (e, m) = same_step x y (memcmp (length a) a b) h in rw (e, ih m) refl

memcmp-prefix : (a b : Bytes) → memcmp (length a) a (a ++ b) ≡ some same
unfolding memcmp
memcmp-prefix [] b = refl
memcmp-prefix (x ∷ a) b = rw (memcmp-prefix a b) (ground arith)

memcmp-longer : (n : ℕ) (a b : Bytes) → length b < n → memcmp n a b ≡ none
unfolding memcmp
memcmp-longer zero a b h = absurd (omega arith)
memcmp-longer (suc n) [] b h = refl
memcmp-longer (suc n) (x ∷ a) [] h = refl
memcmp-longer (suc n) (x ∷ a) (y ∷ b) h = rw (memcmp-longer n a b (omega arith)) refl

memcmp_self : (a : Bytes) → memcmp (length a) a a ≡ some same
unfolding memcmp
memcmp_self [] = refl
memcmp_self (x ∷ a) = rw (memcmp_self a) (ground arith)

abbrev pub answered : Op → Option Sign → Option Bool
answered op r = elim r [ none ↦ none | some s ↦ some (compare_result op s) ]

to_eq : (r : Option Sign) → answered eq r ≡ some true → r ≡ some same
unfolding compare_result
to_eq none h = ground arith
to_eq (some less) h = ground arith
to_eq (some same) h = refl
to_eq (some greater) h = ground arith

flip_answer : (r : Option Sign) → answered gt (flip_option r) ≡ answered lt r
unfolding compare_result
flip_answer none = refl
flip_answer (some less) = refl
flip_answer (some same) = refl
flip_answer (some greater) = refl

-- Two items of one length are equal exactly if they hold the same octets, and the one is less than
-- the other exactly if the other is greater than the one.
pub compare_lem :
    (a b : Bytes) (t u : ℕ) (k l : Kind)
    → length a ≡ length b
    → ((SecItem_richcompare (held a t k) (held b u l) eq ≡ some true) ↔ (a ≡ b))
      × (SecItem_richcompare (held a t k) (held b u l) lt
          ≡ SecItem_richcompare (held b u l) (held a t k) gt)
unfolding SecItem_richcompare compare_result
compare_lem a b t u k l h = (
  (
    λ e. memcmp-same a b h (to_eq (memcmp (length a) a b) e),
    λ e.
        subst (λ c. answered eq (memcmp (length a) a c) ≡ some true) e
          (ap (λ r. answered eq r) (memcmp_self a)),
  ),
  sym (
      ap (λ n. answered gt (memcmp n b a)) (sym h)
      ∙ ap (λ r. answered gt r) (memcmp-flip (length a) a b refl (sym h))
      ∙ flip_answer (memcmp (length a) a b)),
)

over :
    (a b : Bytes) (t u : ℕ) (k l : Kind) (op : Op)
    → (b ≡ []) ⊎ (SecItem_richcompare (held (a ++ b) u l) (held a t k) op ≡ none)
unfolding SecItem_richcompare
over a [] t u k l op = inl refl
over a (x ∷ b) t u k l op = inr (
    rw
      (
        SecItem_richcompare,
        memcmp-longer (length (a ++ x ∷ b)) (a ++ x ∷ b) a (omega (arith, length-append a (x ∷ b))),
      )
      refl)

-- An item equals every item whose octets begin with its own, and is compared with a shorter one by
-- a read past that one's end, whatever the operator.
pub compare_prefix :
    (a b : Bytes) (t u : ℕ) (k l : Kind) (op : Op)
    → (SecItem_richcompare (held a t k) (held (a ++ b) u l) eq ≡ some true)
      × ((b ≡ []) ⊎ (SecItem_richcompare (held (a ++ b) u l) (held a t k) op ≡ none))
unfolding SecItem_richcompare compare_result
compare_prefix a b t u k l op =
    (rw (SecItem_richcompare, memcmp-prefix a b) refl, over a b t u k l op)
