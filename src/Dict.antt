-- ===== src/Dict.antt =====
-- Python dicts as association lists: what the modules of the bindings use of them. The test of keys
-- is a parameter.
use python_nss_ng.Prelude.{
  ℕ, Bytes, Bool, true, false, Option, none, some, List, [], ◌∷◌, ◌==◌, if◌then◌else◌, ◌≡◌, refl,
  sym, subst, ◌∙◌, arith, Bool-cases, inl, inr, ==_self, ==_iff,
}

-- A test of keys that decides their equality.
pub record KeyTest (K : Type 0) : Type 0 where
  pub same : K → K → Bool
  pub same_self : (k : K) → same k k ≡ true
  pub same_eq : (k l : K) → same k l ≡ true → k ≡ l

-- Octet strings.
abbrev pub same_bytes : Bytes → Bytes → Bool
same_bytes [] [] = true
same_bytes [] (c ∷ t) = false
same_bytes (c ∷ s) [] = false
same_bytes (c ∷ s) (d ∷ t) = let rest = same_bytes s t in if c == d then rest else false

pub same_bytes_self : (s : Bytes) → same_bytes s s ≡ true
same_bytes_self [] = refl
same_bytes_self (c ∷ s) = ground (arith, same_bytes_self s)

pub same_bytes_eq : (s t : Bytes) → same_bytes s t ≡ true → s ≡ t
same_bytes_eq [] [] h = refl
same_bytes_eq [] (c ∷ t) h = ground arith
same_bytes_eq (c ∷ s) [] h = ground arith
same_bytes_eq (c ∷ s) (d ∷ t) h = ground (arith, same_bytes_eq s t)

unfoldable pub bytes_test : KeyTest Bytes
bytes_test = record { same = same_bytes; same_self = same_bytes_self; same_eq = same_bytes_eq }

-- Numbers.
unfoldable pub number_test : KeyTest ℕ
number_test = record { same = ◌==◌; same_self = ==_self; same_eq = λ a b. (==_iff a b).0 }

module _ {K : Type 0} (test : KeyTest K) where
  open test use {same, same_self, same_eq}

  other_key : (k l m : K) → same k l ≡ false → same l m ≡ true → same k m ≡ false
  other_key k l m h e = subst (λ m. same k m ≡ false) (same_eq l m e) h

  pub not_same : (k l : K) → same k l ≡ false → same l k ≡ false
  not_same k l h = elim (Bool-cases (same l k)) [
    | inl e ↦ absurd (cc (h, same_self l, same_eq l k e))
    | inr e ↦ e
  ]

module _ {K V : Type 0} (test : KeyTest K) where
  open test use {same, same_self, same_eq}

  unfoldable pub get : K → List (K × V) → Option V
  get k [] = none
  get k ((l, v) ∷ d) = let rest = get k d in if same k l then some v else rest

  -- A key keeps its place, and a new one goes to the end.
  unfoldable pub set : K → V → List (K × V) → List (K × V)
  set k v [] = (k, v) ∷ []
  set k v ((l, w) ∷ d) = let rest = set k v d in if same k l then (l, v) ∷ d else (l, w) ∷ rest

  -- A dict holds a key once, so that removing the first is enough.
  unfoldable pub delete : K → List (K × V) → List (K × V)
  delete k [] = []
  delete k ((l, w) ∷ d) = let rest = delete k d in if same k l then d else (l, w) ∷ rest

  pub get-set : (k : K) (v : V) (d : List (K × V)) → get k (set k v d) ≡ some v
  unfolding get set
  get-set k v [] = rw (same_self k) refl
  get-set k v ((l, w) ∷ d) = elim (Bool-cases (same k l)) [
    | inl e ↦ rw (set, e, get, e) refl
    | inr e ↦ rw (set, e, get, e) (get-set k v d)
  ]

  pub get-set_other :
      (k l : K) (v : V) (d : List (K × V)) → same k l ≡ false → get k (set l v d) ≡ get k d
  unfolding get set
  get-set_other k l v [] h = rw h refl
  get-set_other k l v ((m, w) ∷ d) h = elim (Bool-cases (same l m)) [
    | inl e ↦ rw (set, e, get, get, other_key test k l m h e) refl
    | inr e ↦ elim (Bool-cases (same k m)) [
      | inl g ↦ rw (set, e, get, g) refl
      | inr g ↦ rw (set, e, get, g) (get-set_other k l v d h)
    ]
  ]

  -- Every key stands once.
  abbrev pub Once : List (K × V) → Type 0
  Once [] = Unit
  Once ((k, v) ∷ d) = (get k d ≡ none) × Once d

  pub set-Once : (k : K) (v : V) (d : List (K × V)) → Once d → Once (set k v d)
  unfolding set
  set-Once k v [] _ = ((unfold get in refl), tt)
  set-Once k v ((l, w) ∷ d) (h, hs) = elim (Bool-cases (same k l)) [
    | inl e ↦ rw (set, e) (h, hs)
    | inr e ↦ rw (set, e) (get-set_other l k v d (not_same test k l e) ∙ h, set-Once k v d hs)
  ]

  pub get-delete : (k : K) (d : List (K × V)) → Once d → get k (delete k d) ≡ none
  unfolding get delete
  get-delete k [] _ = refl
  get-delete k ((l, w) ∷ d) (h, hs) = elim (Bool-cases (same k l)) [
    | inl e ↦ rw (delete, e) (subst (λ m. get m d ≡ none) (sym (same_eq k l e)) h)
    | inr e ↦ rw (delete, e, get, e) (get-delete k d hs)
  ]

  pub get-delete_other :
      (k l : K) (d : List (K × V)) → same k l ≡ false → get k (delete l d) ≡ get k d
  unfolding get delete
  get-delete_other k l [] h = refl
  get-delete_other k l ((m, w) ∷ d) h = elim (Bool-cases (same l m)) [
    | inl e ↦ rw (delete, e, get, other_key test k l m h e) refl
    | inr e ↦ elim (Bool-cases (same k m)) [
      | inl g ↦ rw (delete, e, get, g) refl
      | inr g ↦ rw (delete, e, get, g) (get-delete_other k l d h)
    ]
  ]
