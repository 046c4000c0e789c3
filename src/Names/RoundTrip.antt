-- ===== src/Names/RoundTrip.antt =====
-- The tables after a module has filled them (src/py_nss.c): the name that a number is given leads
-- back to the number.
use python_nss_ng.Prelude.{
  ℕ, Bytes, Option, none, some, List, [], ◌∷◌, ◌≡◌, refl, sym, ap, ◌∙◌, subst, Bool-cases,
  Option-cases, inl, inr,
}
use python_nss_ng.Dict.{bytes_test, number_test, get, set, get-set, get-set_other}
use python_nss_ng.Names.{
  Str, Registry, add_names, name_sans_prefix, add_int_constant_with_lookup, add_int_constant_alias,
  Constant, constant, constant_alias, add, add_all, found, or_key_error, oid_tag_from_name,
  oid_tag_to_pystr_name,
}

module _ (str : Str) where
  open str use {lower}

  -- The name of every number leads back to the number.
  abbrev pub IsConsistent : Registry → Type 0
  IsConsistent r =
      (value : ℕ) (name : Bytes)
      → get number_test value r.value_to_name ≡ some name
      → get bytes_test (lower name) r.name_to_value ≡ some value

  -- The constant's spellings are not in the table of names.
  abbrev pub IsFresh : Constant → Registry → Type 0
  IsFresh (constant name value prefix) r =
      (get bytes_test (lower name) r.name_to_value ≡ none)
      × ((sans : Bytes)
          → name_sans_prefix str name prefix ≡ some sans
          → get bytes_test sans r.name_to_value ≡ none)
  IsFresh (constant_alias name value) r = get bytes_test (lower name) r.name_to_value ≡ none

  set_fresh :
      (k l : Bytes) (v w : ℕ) (d : List (Bytes × ℕ))
      → get bytes_test k d ≡ some v
      → get bytes_test l d ≡ none
      → get bytes_test k (set bytes_test l w d) ≡ some v
  set_fresh k l v w d h fresh = elim (Bool-cases (bytes_test.same k l)) [
    | inl e ↦ absurd (cc (h, fresh, bytes_test.same_eq k l e))
    | inr e ↦ get-set_other bytes_test k l w d e ∙ h
  ]

  set_same :
      (k l : Bytes) (v : ℕ) (d : List (Bytes × ℕ))
      → get bytes_test k d ≡ some v
      → get bytes_test k (set bytes_test l v d) ≡ some v
  set_same k l v d h = elim (Bool-cases (bytes_test.same k l)) [
    | inl e ↦
        subst (λ m. get bytes_test m (set bytes_test l v d) ≡ some v)
          (sym (bytes_test.same_eq k l e)) (get-set bytes_test l v d)
    | inr e ↦ get-set_other bytes_test k l v d e ∙ h
  ]

  names_keep :
      (k lower_name : Bytes) (sans : Option Bytes) (v value : ℕ) (names : List (Bytes × ℕ))
      → get bytes_test lower_name names ≡ none
      → ((s : Bytes) → sans ≡ some s → get bytes_test s names ≡ none)
      → get bytes_test k names ≡ some v
      → get bytes_test k (add_names lower_name sans value names) ≡ some v
  unfolding add_names
  names_keep k lower_name none v value names fresh sans_fresh h =
      set_fresh k lower_name v value names h fresh
  names_keep k lower_name (some s) v value names fresh sans_fresh h =
      let kept = set_fresh k lower_name v value names h fresh in
      elim (Bool-cases (bytes_test.same k s)) [
        | inl e ↦ absurd (cc (h, sans_fresh s refl, bytes_test.same_eq k s e))
        | inr e ↦
            get-set_other bytes_test k s value (set bytes_test lower_name value names) e ∙ kept
      ]

  names_new :
      (lower_name : Bytes) (sans : Option Bytes) (value : ℕ) (names : List (Bytes × ℕ))
      → get bytes_test lower_name (add_names lower_name sans value names) ≡ some value
  unfolding add_names
  names_new lower_name none value names = get-set bytes_test lower_name value names
  names_new lower_name (some s) value names =
      set_same lower_name s value (set bytes_test lower_name value names)
        (get-set bytes_test lower_name value names)

  unless_there :
      (there : Option ℕ) (r r' : Registry)
      → (elim there as (λ _. Option Registry) [ none ↦ some r | some v ↦ none ]) ≡ some r'
      → r ≡ r'
  unless_there none r r' h = cc h
  unless_there (some v) r r' h = absurd (cc h)

  abbrev with_constant : Bytes → ℕ → Option Bytes → Registry → Registry
  with_constant name value prefix r = record {
    module_dict = set bytes_test name value r.module_dict;
    name_to_value = add_names (lower name) (name_sans_prefix str name prefix) value r.name_to_value;
    value_to_name = set number_test value name r.value_to_name;
  }

  -- What adding a constant does to the two tables.
  pub constant_added :
      (name : Bytes) (value : ℕ) (prefix : Option Bytes) (r r' : Registry)
      → add_int_constant_with_lookup str name value prefix r ≡ some r'
      → (r'.name_to_value
          ≡ add_names (lower name) (name_sans_prefix str name prefix) value r.name_to_value)
        × (r'.value_to_name ≡ set number_test value name r.value_to_name)
  unfolding add_int_constant_with_lookup
  constant_added name value prefix r r' h =
      let e =
        unless_there (get bytes_test name r.module_dict) (with_constant name value prefix r) r' h in
      (ap (λ x. x.name_to_value) (sym e), ap (λ x. x.value_to_name) (sym e))

  alias_added :
      (name : Bytes) (value : ℕ) (r r' : Registry)
      → add_int_constant_alias str name value r ≡ some r'
      → (r'.name_to_value ≡ set bytes_test (lower name) value r.name_to_value)
        × (r'.value_to_name ≡ r.value_to_name)
  unfolding add_int_constant_alias
  alias_added name value r r' h =
      let e =
        unless_there (get bytes_test name r.name_to_value)
          (record r { name_to_value = set bytes_test (lower name) value r.name_to_value }) r' h in
      (ap (λ x. x.name_to_value) (sym e), ap (λ x. x.value_to_name) (sym e))

  pub add-IsConsistent :
      (c : Constant) (r r' : Registry)
      → IsConsistent r
      → IsFresh c r
      → add str c r ≡ some r'
      → IsConsistent r'
  unfolding add
  add-IsConsistent (constant name value prefix) r r' consistent (fresh, sans_fresh) h number given
        e =
      let (names, values) = constant_added name value prefix r r' h in
      elim (Bool-cases (number_test.same number value)) [
        | inl same ↦ cc (
          values,
          e,
          number_test.same_eq number value same,
          get-set number_test value name r.value_to_name,
          names,
          names_new (lower name) (name_sans_prefix str name prefix) value r.name_to_value,
        )
        | inr other ↦
            let before =
              consistent number given (
                cc
                  (values, e, get-set_other number_test number value name r.value_to_name other)) in
            rw names (
              names_keep (lower given) (lower name) (name_sans_prefix str name prefix) number value
                r.name_to_value fresh sans_fresh before)
      ]
  add-IsConsistent (constant_alias name value) r r' consistent fresh h number given e =
      let (names, values) = alias_added name value r r' h in
      rw names (
        set_fresh (lower given) (lower name) number value r.name_to_value
          (consistent number given (rw (sym values) e)) fresh)

  -- Every constant of the list is fresh when its turn comes.
  unfoldable pub AllFresh : List Constant → Registry → Type 0
  AllFresh [] r = Unit
  AllFresh (c ∷ rest) r = IsFresh c r × ((r' : Registry) → add str c r ≡ some r' → AllFresh rest r')

  pub stopped :
      (c : Constant) (rest : List Constant) (r : Registry)
      → add str c r ≡ none
      → add_all str (c ∷ rest) r ≡ none
  unfolding add_all
  stopped c rest r e = rw (add_all, e) refl

  pub gone_on :
      (c : Constant) (rest : List Constant) (r next : Registry)
      → add str c r ≡ some next
      → add_all str (c ∷ rest) r ≡ add_all str rest next
  unfolding add_all
  gone_on c rest r next e = rw (add_all, e) refl

  pub add_all-IsConsistent :
      (constants : List Constant) (r r' : Registry)
      → IsConsistent r
      → AllFresh constants r
      → add_all str constants r ≡ some r'
      → IsConsistent r'
  unfolding add_all AllFresh
  add_all-IsConsistent [] r r' consistent fresh h =
      let same : r ≡ r' = cc h in subst IsConsistent same consistent
  add_all-IsConsistent (c ∷ rest) r r' consistent fresh h = elim (Option-cases (add str c r)) [
    | inl e ↦ absurd (cc (h, stopped c rest r e))
    | inr (next, e) ↦
        add_all-IsConsistent rest next r' (add-IsConsistent c r next consistent fresh.0 e)
          (fresh.1 next e) (sym (gone_on c rest r next e) ∙ h)
  ]

  pub found_lem : {A : Type 0} → {o : Option A} → {a : A} → or_key_error o ≡ found a → o ≡ some a
  found_lem {o = none} h = absurd (cc h)
  found_lem {o = some b} h = cc h

  -- When every constant of a list is added, to tables where the name of each number leads back to
  -- it, and none of the spellings of a constant is in the table of names at its turn, then each
  -- name that a number is shown by is read as that number, in every spelling with the same lower
  -- case.
  pub oid_tag_from_name-oid_tag_to_pystr_name :
      (constants : List Constant) (r r' : Registry) (oid_tag : ℕ) (name spelling : Bytes)
      → IsConsistent r
      → AllFresh constants r
      → add_all str constants r ≡ some r'
      → lower spelling ≡ lower name
      → oid_tag_to_pystr_name str r' oid_tag ≡ found name
      → oid_tag_from_name str r' spelling ≡ found oid_tag
  unfolding oid_tag_from_name oid_tag_to_pystr_name
  oid_tag_from_name-oid_tag_to_pystr_name constants r r' oid_tag name spelling consistent fresh h
        same e =
      let back =
        add_all-IsConsistent constants r r' consistent fresh h oid_tag name (found_lem e) in
      rw (same, back) refl
