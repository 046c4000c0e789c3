-- ===== src/Names/Ssl/Distinct.antt =====
-- Constants with no prefix and names that are different in lower case: none is there when its turn
-- comes, and no other name is touched (src/py_nss.c).
use python_nss_ng.Prelude.{
  ℕ, Bytes, Bool, true, false, not, none, some, List, [], ◌∷◌, map, ◌&&◌, ◌≡◌, refl, sym, ◌∙◌,
  Option-cases, inl, inr,
}
use python_nss_ng.Dict.{bytes_test, number_test, same_bytes, get, set, not_same, get-set_other}
use python_nss_ng.Names.{Str, Registry, add_names, name_sans_prefix, add, add_all}
use python_nss_ng.Names.RoundTrip.{AllFresh, constant_added, stopped, gone_on}
use python_nss_ng.Names.Ssl.{plain}

-- No key of the list is `k`.
unfoldable pub absent : Bytes → List Bytes → Bool
absent k [] = true
absent k (l ∷ ks) = not (same_bytes k l) && absent k ks

-- The keys are different from each other.
unfoldable pub apart : List Bytes → Bool
unfolding absent
apart [] = true
apart (k ∷ ks) = absent k ks && apart ks

-- The table has none of the keys.
unfoldable pub AllAbsent : List Bytes → List (Bytes × ℕ) → Type 0
AllAbsent [] d = Unit
AllAbsent (k ∷ ks) d = (get bytes_test k d ≡ none) × AllAbsent ks d

pub and_left : (a b : Bool) → (a && b) ≡ true → a ≡ true
and_left true b h = refl
and_left false b h = h

pub and_right : (a b : Bool) → (a && b) ≡ true → b ≡ true
and_right true b h = h
and_right false b h = absurd (cc h)

tail_true : (a b : Bool) → (not a && b) ≡ true → b ≡ true
tail_true a b h = and_right (not a) b h

flipped : (b : Bool) → not b ≡ true → b ≡ false
flipped true h = absurd (cc h)
flipped false h = refl

head_false : (a b : Bool) → (not a && b) ≡ true → a ≡ false
head_false a b h = flipped a (and_left (not a) b h)

module _ (str : Str) where
  open str use {lower}

  abbrev pub lower_names : List (Bytes × ℕ) → List Bytes
  lower_names pairs = map (λ p. lower p.0) pairs

  pub plain_added :
      (p : Bytes × ℕ) (r r' : Registry)
      → add str (plain p) r ≡ some r'
      → (r'.name_to_value ≡ set bytes_test (lower p.0) p.1 r.name_to_value)
        × (r'.value_to_name ≡ set number_test p.1 p.0 r.value_to_name)
  unfolding add add_names name_sans_prefix
  plain_added p r r' h = constant_added str p.0 p.1 none r r' h

  get-plain :
      (k : Bytes) (p : Bytes × ℕ) (r r' : Registry)
      → add str (plain p) r ≡ some r'
      → same_bytes k (lower p.0) ≡ false
      → get bytes_test k r'.name_to_value ≡ get bytes_test k r.name_to_value
  unfolding bytes_test
  get-plain k p r r' h e =
      rw (plain_added p r r' h).0 (get-set_other bytes_test k (lower p.0) p.1 r.name_to_value e)

  absent_after :
      (ks : List Bytes) (p : Bytes × ℕ) (r r' : Registry)
      → add str (plain p) r ≡ some r'
      → absent (lower p.0) ks ≡ true
      → AllAbsent ks r.name_to_value
      → AllAbsent ks r'.name_to_value
  unfolding absent AllAbsent bytes_test
  absent_after [] p r r' h a all = tt
  absent_after (k ∷ ks) p r r' h a (one, all) = (
    get-plain k p r r' h (
          not_same bytes_test (lower p.0) k
            (head_false (same_bytes (lower p.0) k) (absent (lower p.0) ks) a))
        ∙ one,
    absent_after ks p r r' h (tail_true (same_bytes (lower p.0) k) (absent (lower p.0) ks) a) all,
  )

  pub distinct-AllFresh :
      (pairs : List (Bytes × ℕ)) (r : Registry)
      → apart (lower_names pairs) ≡ true
      → AllAbsent (lower_names pairs) r.name_to_value
      → AllFresh str (map plain pairs) r
  unfolding AllFresh apart AllAbsent name_sans_prefix
  distinct-AllFresh [] r a all = tt
  distinct-AllFresh (p ∷ pairs) r a (one, all) = (
    (one, λ s h. absurd (cc h)),
    λ r' h.
        distinct-AllFresh pairs r'
          (and_right (absent (lower p.0) (lower_names pairs)) (apart (lower_names pairs)) a)
          (absent_after (lower_names pairs) p r r' h
            (and_left (absent (lower p.0) (lower_names pairs)) (apart (lower_names pairs)) a) all),
  )

  -- A key that is none of the names has what it had.
  pub get-add_all :
      (k : Bytes) (pairs : List (Bytes × ℕ)) (r r' : Registry)
      → absent k (lower_names pairs) ≡ true
      → add_all str (map plain pairs) r ≡ some r'
      → get bytes_test k r'.name_to_value ≡ get bytes_test k r.name_to_value
  unfolding add_all absent
  get-add_all k [] r r' a h = let same : r ≡ r' = cc h in rw same refl
  get-add_all k (p ∷ pairs) r r' a h = elim (Option-cases (add str (plain p) r)) [
    | inl e ↦ absurd (cc (h, stopped str (plain p) (map plain pairs) r e))
    | inr (next, e) ↦
        get-add_all k pairs next r'
          (tail_true (same_bytes k (lower p.0)) (absent k (lower_names pairs)) a)
          (sym (gone_on str (plain p) (map plain pairs) r next e) ∙ h)
        ∙ get-plain k p r next e
            (head_false (same_bytes k (lower p.0)) (absent k (lower_names pairs)) a)
  ]
