-- ===== src/Errors/Search.antt =====
-- The binary search of `lookup_nspr_error` on a table that the check accepts.
use python_nss_ng.Prelude.{
  ◌==ℤ◌, ==ℤ_eq, ℕ, zero, suc, ◌+◌, ◌-◌, ◌/◌, ◌≤◌, ◌<◌, true, false, Option, none, some, List, [],
  ◌∷◌, length, get_elem?, ℤ, ltb_ℤ, ltb, ◌≡◌, ◌↔◌, ◌≢◌, ◌⊎◌, refl, sym, ap, subst, arith,
  Bool-cases, inl, inr, ltb→lt, not_ltb→le, All,
}
use python_nss_ng.Errors.{
  NsprErrorDesc, Lookup, hit, miss, out_of_bounds, test_ends, search_table, lookup_nspr_error,
  init_nspr_errors, check_sequence, int32_min, cmp_error,
}
use python_nss_ng.Errors.Order.{
  ◌<ℤ◌, ==ℤ_self, <ℤ_irrefl, <ℤ_trans, IsAscending, check_sequence_lem, get_elem?-lt,
  get_elem?-some, ascending_lt,
}

abbrev pub In : NsprErrorDesc → List NsprErrorDesc → Type 0
In e table = (i : ℕ) × (get_elem? table i ≡ some e)

-- What the search keeps: the miss as a statement about each entry.
abbrev LookupFound : List NsprErrorDesc → ℤ → Option Lookup → Type 0
LookupFound table num none = ⊥
LookupFound table num (some (hit e)) = (e.num ≡ num) × In e table
LookupFound table num (some miss) = (e : NsprErrorDesc) → In e table → e.num ≢ num
LookupFound table num (some out_of_bounds) = ⊥

one_of : (i low high : ℕ) → high ≤ low + 1 → low ≤ i → i ≤ high → (i ≡ low) ⊎ (i ≡ high)
one_of i low high p q r = ground arith

mid_inside : (low high : ℕ) → low + 1 < high → (low < (low + high) / 2) × ((low + high) / 2 < high)
mid_inside low high h = omega arith

greater : (a b : ℤ) → (a ==ℤ b) ≡ false → ltb_ℤ a b ≡ false → b <ℤ a
greater a b p q = ground arith

still_some :
    (l m : List NsprErrorDesc)
    → ((e : NsprErrorDesc) → In e l ↔ In e m)
    → 0 < length l
    → 0 < length m
still_some [] m same h = absurd (omega arith)
still_some (x ∷ l) m same h =
    let (i, at) = (same x).0 (0, refl) in omega (arith, get_elem?-lt m i x at)

keeps_outcome :
    (l m : List NsprErrorDesc) (num : ℤ)
    → ((e : NsprErrorDesc) → In e l ↔ In e m)
    → (r : Option Lookup) → LookupFound m num r
    → LookupFound l num r
keeps_outcome l m num same none o = o
keeps_outcome l m num same (some (hit e)) (is_num, there) = (is_num, (same e).1 there)
keeps_outcome l m num same (some miss) o = λ e there. o e ((same e).0 there)
keeps_outcome l m num same (some out_of_bounds) o = o

module _ (table : List NsprErrorDesc) (num last : ℤ) (ascending : IsAscending last table) where
  -- An entry with the number can only stand from `low` to `high`.
  abbrev IsBetween : ℕ → ℕ → Type 0
  IsBetween low high =
      (i : ℕ) (e : NsprErrorDesc)
      → get_elem? table i ≡ some e
      → e.num ≡ num
      → (low ≤ i) × (i ≤ high)

  not_num : (e : NsprErrorDesc) → (num ==ℤ e.num) ≡ false → e.num ≢ num
  not_num e h same = cc (h, ap (λ n. num ==ℤ n) same, ==ℤ_self num)

  no_entry :
      (low high : ℕ) (l h : NsprErrorDesc)
      → high ≤ low + 1
      → IsBetween low high
      → get_elem? table low ≡ some l
      → get_elem? table high ≡ some h
      → l.num ≢ num
      → h.num ≢ num
      → (e : NsprErrorDesc) → In e table
      → e.num ≢ num
  no_entry low high l h near between at_low at_high p q e (i, at) same =
      let (above, below) = between i e at same in
      elim (one_of i low high near above below) [
        | inl low_one ↦ p (cc (at, at_low, ap (get_elem? table) low_one, same))
        | inr high_one ↦ q (cc (at, at_high, ap (get_elem? table) high_one, same))
      ]

  ends_lem :
      (low high : ℕ)
      → low < length table
      → high < length table
      → high ≤ low + 1
      → IsBetween low high
      → LookupFound table num (some (test_ends table num low high))
  unfolding test_ends
  ends_lem low high p q near between =
      let (l, at_low) = get_elem?-some table low p in
      let (h, at_high) = get_elem?-some table high q in
      elim (Bool-cases (num ==ℤ l.num)) [
        | inl same ↦
            rw (LookupFound, test_ends, at_low, same) (sym (==ℤ_eq num l.num same), (low, at_low))
        | inr other ↦ elim (Bool-cases (num ==ℤ h.num)) [
          | inl same ↦
              rw (LookupFound, test_ends, at_low, other, at_high, same)
                (sym (==ℤ_eq num h.num same), (high, at_high))
          | inr other' ↦
              rw (LookupFound, test_ends, at_low, other, at_high, other')
                (no_entry low high l h near between at_low at_high (not_num l other)
                  (not_num h other'))
        ]
      ]

  below_mid :
      (low high mid : ℕ) (m : NsprErrorDesc)
      → IsBetween low high
      → get_elem? table mid ≡ some m
      → num <ℤ m.num
      → IsBetween low mid
  below_mid low high mid m between at less i e got same = elim (Bool-cases (ltb mid i)) [
    | inl past ↦ absurd (
        <ℤ_irrefl num num
          (<ℤ_trans num m.num num less (
            subst (λ n. m.num <ℤ n) same
              (ascending_lt last table mid i m e ascending (ltb→lt _ _ past) at got)))
          refl)
    | inr kept ↦ ((between i e got same).0, not_ltb→le _ _ kept)
  ]

  above_mid :
      (low high mid : ℕ) (m : NsprErrorDesc)
      → IsBetween low high
      → get_elem? table mid ≡ some m
      → m.num <ℤ num
      → IsBetween mid high
  above_mid low high mid m between at less i e got same = elim (Bool-cases (ltb i mid)) [
    | inl before ↦ absurd (
        <ℤ_irrefl num num
          (<ℤ_trans num m.num num
            (subst (λ n. n <ℤ m.num) same
              (ascending_lt last table i mid e m ascending (ltb→lt _ _ before) got at))
            less)
          refl)
    | inr kept ↦ (not_ltb→le _ _ kept, (between i e got same).1)
  ]

  search_lem :
      (fuel low high : ℕ)
      → low ≤ high
      → high < low + fuel
      → low < length table
      → high < length table
      → IsBetween low high
      → LookupFound table num (search_table fuel table num low high)
  unfolding search_table
  search_lem zero low high le lt p q between = absurd (omega arith)
  search_lem (suc fuel) low high le lt p q between =
      let mid : ℕ = (low + high) / 2 in
      elim (Bool-cases (ltb (low + 1) high)) [
        | inr near ↦
            rw (near, LookupFound, search_table)
              (ends_lem low high p q (not_ltb→le _ _ near) between)
        | inl far ↦
            let between_ends : (low < mid) × (mid < high) = mid_inside low high (ltb→lt _ _ far) in
            let (m, at) = get_elem?-some table mid (omega arith) in
            elim (Bool-cases (num ==ℤ m.num)) [
              | inl same ↦
                  rw (far, LookupFound, search_table, at, same)
                    (sym (==ℤ_eq num m.num same), (mid, at))
              | inr other ↦ elim (Bool-cases (ltb_ℤ num m.num)) [
                | inl less ↦
                    rw (far, LookupFound, search_table, at, other, less)
                      (search_lem fuel low mid (omega arith) (omega arith) p (omega arith)
                        (below_mid low high mid m between at (ltb→lt _ _ less)))
                | inr more ↦
                    rw (far, LookupFound, search_table, at, other, more)
                      (search_lem fuel mid high (omega arith) (omega arith) (omega arith) q
                        (above_mid low high mid m between at (greater num m.num other more)))
              ]
            ]
      ]

lookup_found :
    (table : List NsprErrorDesc) (num : ℤ)
    → check_sequence int32_min true table ≡ true
    → 0 < length table
    → LookupFound table num (lookup_nspr_error table num)
unfolding lookup_nspr_error
lookup_found table num accepted some_entry =
    search_lem table num int32_min ((check_sequence_lem int32_min table).0 accepted) (length table)
      0 (length table - 1) (omega arith) (omega arith) some_entry (omega arith)
      λ i e got same. (omega arith, omega (arith, get_elem?-lt table i e got))

-- The entry with the number, or NULL where no entry has it; the table is not left.
abbrev pub LookupOutcome : List NsprErrorDesc → ℤ → Option Lookup → Type 0
LookupOutcome table num none = ⊥
LookupOutcome table num (some (hit e)) = (e.num ≡ num) × In e table
LookupOutcome table num (some miss) = All (λ e. e.num ≢ num) table
LookupOutcome table num (some out_of_bounds) = ⊥

every :
    (num : ℤ) (l : List NsprErrorDesc)
    → ((e : NsprErrorDesc) → In e l → e.num ≢ num)
    → All (λ e. e.num ≢ num) l
every num [] h = tt
every num (x ∷ l) h = (h x (0, refl), every num l (λ e there. h e (suc there.0, there.1)))

to_outcome :
    (table : List NsprErrorDesc) (num : ℤ) (r : Option Lookup)
    → LookupFound table num r
    → LookupOutcome table num r
to_outcome table num none o = o
to_outcome table num (some (hit e)) o = o
to_outcome table num (some miss) o = every num table o
to_outcome table num (some out_of_bounds) o = o

-- On a table with an entry that the check accepts the search ends, stays in the table, and gives
-- an entry with the number, or NULL only if no entry has it.
lookup_nspr_error_lem :
    (table : List NsprErrorDesc) (num : ℤ)
    → check_sequence int32_min true table ≡ true
    → 0 < length table
    → LookupOutcome table num (lookup_nspr_error table num)
lookup_nspr_error_lem table num accepted some_entry =
    to_outcome table num (lookup_nspr_error table num) (lookup_found table num accepted some_entry)

-- What the code relies on in `qsort`: it keeps the entries, and adds none.
pub record QsortLaws
    (qsort : (NsprErrorDesc → NsprErrorDesc → ℤ) → List NsprErrorDesc → List NsprErrorDesc)
    : Type 0 where
  pub keeps :
      (cmp : NsprErrorDesc → NsprErrorDesc → ℤ) (l : List NsprErrorDesc) (e : NsprErrorDesc)
      → In e l ↔ In e (qsort cmp l)

-- When `init_nspr_errors` succeeds, looking up a number in the table that it leaves gives an entry
-- of the original table with that number, or NULL only if none has it, for a table with an entry
-- and a `qsort` that keeps the entries.
pub lookup-init :
    (qsort : (NsprErrorDesc → NsprErrorDesc → ℤ) → List NsprErrorDesc → List NsprErrorDesc)
    (laws : QsortLaws qsort) (table : List NsprErrorDesc) (num : ℤ)
    → (init_nspr_errors qsort table).1 ≡ true
    → 0 < length table
    → LookupOutcome table num (lookup_nspr_error (init_nspr_errors qsort table).0 num)
unfolding init_nspr_errors
lookup-init qsort laws table num accepted some_entry =
    to_outcome table num (lookup_nspr_error (qsort cmp_error table) num) (
      keeps_outcome table (qsort cmp_error table) num (laws.keeps cmp_error table) _ (
        lookup_found (qsort cmp_error table) num accepted
          (still_some table _ (laws.keeps cmp_error table) some_entry)))
