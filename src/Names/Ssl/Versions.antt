-- ===== src/Names/Ssl/Versions.antt =====
-- The names and the aliases of the SSL versions lead back to the versions (src/py_ssl.c).
use python_nss_ng.Prelude.{
  ℕ, Bytes, Bool, true, Option, none, some, List, [], ◌∷◌, map, leb, ◌&&◌, ◌≡◌, ◌⊎◌, refl, sym, ap,
  ◌∙◌, subst, Bool-cases, Option-cases, inl, inr,
}
use python_nss_ng.Dict.{bytes_test, number_test, get, get-set, get-set_other}
use python_nss_ng.Names.{Str, Registry, ascii_lower, add, add_all, found}
use python_nss_ng.Names.RoundTrip.{IsConsistent, add_all-IsConsistent, stopped, gone_on, found_lem}
use python_nss_ng.Names.Ssl.{
  Numbers, names, aliases, plain, new_tables, SslTables, init_ssl_library_versions,
  ssl_library_version_to_py_enum_name, ssl_library_version_to_py_string,
  ssl_library_version_from_name,
}
use python_nss_ng.Names.Ssl.Distinct.{
  absent, apart, AllAbsent, lower_names, plain_added, distinct-AllFresh, get-add_all, and_left,
  and_right,
}

abbrev pub is_ascii : Bytes → Bool
is_ascii [] = true
is_ascii (c ∷ t) = leb c 127 && is_ascii t

abbrev all_ascii : List (Bytes × ℕ) → Bool
all_ascii [] = true
all_ascii (p ∷ pairs) = is_ascii p.0 && all_ascii pairs

abbrev lowered : List (Bytes × ℕ) → List Bytes
lowered pairs = map (λ p. map ascii_lower p.0) pairs

abbrev disjoint : List Bytes → List Bytes → Bool
disjoint [] ls = true
disjoint (k ∷ ks) ls = absent k ls && disjoint ks ls

module _ (str : Str) where
  open str use {lower}

  lower_names-ascii :
      (pairs : List (Bytes × ℕ))
      → ((t : Bytes) → is_ascii t ≡ true → lower t ≡ map ascii_lower t)
      → all_ascii pairs ≡ true
      → lower_names str pairs ≡ lowered pairs
  lower_names-ascii [] law h = refl
  lower_names-ascii (p ∷ pairs) law h = rw (law p.0 (and_left (is_ascii p.0) (all_ascii pairs) h)) (
      ap (λ t. map ascii_lower p.0 ∷ t)
        (lower_names-ascii pairs law (and_right (is_ascii p.0) (all_ascii pairs) h)))

  -- No name that the registry gives is in the table.
  abbrev IsOutside : List (Bytes × ℕ) → Registry → Type 0
  IsOutside table r =
      (value : ℕ) (name : Bytes)
      → get number_test value r.value_to_name ≡ some name
      → get bytes_test (lower name) table ≡ none

  add-IsOutside :
      (table : List (Bytes × ℕ)) (p : Bytes × ℕ) (r r' : Registry)
      → IsOutside table r
      → get bytes_test (lower p.0) table ≡ none
      → add str (plain p) r ≡ some r'
      → IsOutside table r'
  add-IsOutside table p r r' outside one h value name e =
      let values = (plain_added str p r r' h).1 in
      elim (Bool-cases (number_test.same value p.1)) [
        | inl same ↦ cc (
          values,
          e,
          number_test.same_eq value p.1 same,
          get-set number_test p.1 p.0 r.value_to_name,
          one,
        )
        | inr differ ↦
            outside value name
              (cc (values, e, get-set_other number_test value p.1 p.0 r.value_to_name differ))
      ]

  add_all-IsOutside :
      (table pairs : List (Bytes × ℕ)) (r r' : Registry)
      → IsOutside table r
      → AllAbsent (lower_names str pairs) table
      → add_all str (map plain pairs) r ≡ some r'
      → IsOutside table r'
  unfolding add_all AllAbsent
  add_all-IsOutside table [] r r' outside all h =
      let same : r ≡ r' = cc h in subst (IsOutside table) same outside
  add_all-IsOutside table (p ∷ pairs) r r' outside (one, all) h =
      elim (Option-cases (add str (plain p) r)) [
        | inl e ↦ absurd (cc (h, stopped str (plain p) (map plain pairs) r e))
        | inr (next, e) ↦
            add_all-IsOutside table pairs next r' (add-IsOutside table p r next outside one e) all
              (sym (gone_on str (plain p) (map plain pairs) r next e) ∙ h)
      ]

  add_all-AllAbsent :
      (ks : List Bytes) (pairs : List (Bytes × ℕ)) (r r' : Registry)
      → disjoint ks (lower_names str pairs) ≡ true
      → AllAbsent ks r.name_to_value
      → add_all str (map plain pairs) r ≡ some r'
      → AllAbsent ks r'.name_to_value
  unfolding AllAbsent
  add_all-AllAbsent [] pairs r r' d all h = tt
  add_all-AllAbsent (k ∷ ks) pairs r r' d (one, all) h =
      let ls = lower_names str pairs in
      (
        get-add_all str k pairs r r' (and_left (absent k ls) (disjoint ks ls) d) h ∙ one,
        add_all-AllAbsent ks pairs r r' (and_right (absent k ls) (disjoint ks ls) d) all h,
      )

  pub new-AllAbsent :
      (ks : List Bytes) (module_dict : List (Bytes × ℕ))
      → AllAbsent ks (new_tables module_dict).name_to_value
  unfolding AllAbsent get
  new-AllAbsent [] module_dict = tt
  new-AllAbsent (k ∷ ks) module_dict = (refl, new-AllAbsent ks module_dict)

  new-IsConsistent : (module_dict : List (Bytes × ℕ)) → IsConsistent str (new_tables module_dict)
  unfolding get
  new-IsConsistent module_dict value name e = absurd (cc e)

  new-IsOutside : (table module_dict : List (Bytes × ℕ)) → IsOutside table (new_tables module_dict)
  unfolding get
  new-IsOutside table module_dict value name e = absurd (cc e)

  second_stage :
      (by_name : Registry) (o : Option Registry) (t : SslTables)
      → (elim o as (λ _. Option SslTables) [
        | none ↦ none
        | some by_alias ↦ some (record { by_name = by_name; by_alias = by_alias })
      ])
        ≡ some t
      → (by_name ≡ t.by_name) × (o ≡ some t.by_alias)
  second_stage by_name none t h = absurd (cc h)
  second_stage by_name (some by_alias) t h =
      let tables : record { by_name = by_name; by_alias = by_alias } ≡ t = cc h in
      (ap (λ x. x.by_name) tables, ap (λ x. some x.by_alias) tables)

  first_stage :
      (o : Option Registry) (next : Registry → Option SslTables) (t : SslTables)
      → (elim o as (λ _. Option SslTables) [ none ↦ none | some by_name ↦ next by_name ]) ≡ some t
      → (by_name : Registry) × (o ≡ some by_name) × (next by_name ≡ some t)
  first_stage none next t h = absurd (cc h)
  first_stage (some by_name) next t h = (by_name, refl, h)

  abbrev alias_stage : Numbers → Registry → Option SslTables
  alias_stage n by_name =
      elim (add_all str (map plain (aliases n)) (new_tables by_name.module_dict))
        as (λ _. Option SslTables) [
          | none ↦ none
          | some by_alias ↦ some (record { by_name = by_name; by_alias = by_alias })
        ]

  stages :
      (n : Numbers) (module_dict : List (Bytes × ℕ)) (t : SslTables)
      → init_ssl_library_versions str n module_dict ≡ some t
      → (add_all str (map plain (names n)) (new_tables module_dict) ≡ some t.by_name)
        × (add_all str (map plain (aliases n)) (new_tables t.by_name.module_dict) ≡ some t.by_alias)
  unfolding init_ssl_library_versions
  stages n module_dict t h =
      let (by_name, e, rest) =
        first_stage (add_all str (map plain (names n)) (new_tables module_dict)) (alias_stage n) t
          h in
      let (same, f) =
        second_stage by_name (add_all str (map plain (aliases n)) (new_tables by_name.module_dict))
          t rest in
      (
        e ∙ ap some same,
        ap (λ r. add_all str (map plain (aliases n)) (new_tables r.module_dict)) (sym same) ∙ f,
      )

  -- The names and the aliases, in lower case, are all different.
  all_apart :
      (n : Numbers)
      → ((t : Bytes) → is_ascii t ≡ true → lower t ≡ map ascii_lower t)
      → (apart (lower_names str (names n)) ≡ true)
        × (apart (lower_names str (aliases n)) ≡ true)
        × (disjoint (lower_names str (aliases n)) (lower_names str (names n)) ≡ true)
  unfolding apart absent names aliases
  all_apart n law =
      let in_names = sym (lower_names-ascii (names n) law refl) in
      let in_aliases = sym (lower_names-ascii (aliases n) law refl) in
      (
        subst (λ ls. apart ls ≡ true) in_names refl,
        subst (λ ls. apart ls ≡ true) in_aliases refl,
        subst (λ ls. disjoint (lower_names str (aliases n)) ls ≡ true) in_names
            (subst (λ ks. disjoint ks (lowered (names n)) ≡ true) in_aliases refl),
      )

  pub tables_lem :
      (n : Numbers) (module_dict : List (Bytes × ℕ)) (t : SslTables)
      → ((t : Bytes) → is_ascii t ≡ true → lower t ≡ map ascii_lower t)
      → init_ssl_library_versions str n module_dict ≡ some t
      → IsConsistent str t.by_name
        × IsConsistent str t.by_alias
        × IsOutside t.by_name.name_to_value t.by_alias
  tables_lem n module_dict t law h =
      let (first, second) = stages n module_dict t h in
      let (a, b, c) = all_apart n law in
      let ks = lower_names str (names n) in
      let ls = lower_names str (aliases n) in
      (
        add_all-IsConsistent str (map plain (names n)) (new_tables module_dict) t.by_name
            (new-IsConsistent module_dict)
            (distinct-AllFresh str (names n) (new_tables module_dict) a
              (new-AllAbsent ks module_dict))
            first,
        add_all-IsConsistent str (map plain (aliases n)) (new_tables t.by_name.module_dict)
            t.by_alias (new-IsConsistent t.by_name.module_dict)
            (distinct-AllFresh str (aliases n) (new_tables t.by_name.module_dict) b
              (new-AllAbsent ls t.by_name.module_dict))
            second,
        add_all-IsOutside t.by_name.name_to_value (aliases n) (new_tables t.by_name.module_dict)
            t.by_alias (new-IsOutside t.by_name.name_to_value t.by_name.module_dict)
            (add_all-AllAbsent ls (names n) (new_tables module_dict) t.by_name c
              (new-AllAbsent ls module_dict) first)
            second,
      )

  -- Where the tables of the versions were filled, whatever numbers NSS gives them, and `lower` is
  -- as documented on ASCII: the name or the alias that a version is shown by is read as that
  -- version, in every spelling with the same lower case.
  pub ssl_library_version_lem :
      (n : Numbers) (module_dict : List (Bytes × ℕ)) (t : SslTables) (version : ℕ)
      (name spelling : Bytes)
      → ((t : Bytes) → is_ascii t ≡ true → lower t ≡ map ascii_lower t)
      → init_ssl_library_versions str n module_dict ≡ some t
      → (ssl_library_version_to_py_enum_name str t version ≡ found name)
        ⊎ (ssl_library_version_to_py_string str t version ≡ found name)
      → lower spelling ≡ lower name
      → ssl_library_version_from_name str t (some spelling) ≡ found version
  unfolding ssl_library_version_to_py_enum_name ssl_library_version_to_py_string
      ssl_library_version_from_name
  ssl_library_version_lem n module_dict t version name spelling law h shown same =
      let (by_name, by_alias, outside) = tables_lem n module_dict t law h in
      elim shown [
        | inl e ↦
            rw (ssl_library_version_from_name, same, by_name version name (found_lem str e)) refl
        | inr e ↦
            rw
              (
                ssl_library_version_from_name,
                same,
                outside version name (found_lem str e),
                same,
                by_alias version name (found_lem str e),
              )
              refl
      ]
