-- ===== src/Names.antt =====
-- The tables of names and numbers of the constants (src/py_nss.c, src/py_ssl.c): how the modules fill
-- them, and how a name and a number are looked up.
--
-- Names are code points, numbers are not negative, and allocations succeed. `str.lower` and
-- `str.replace` of Python are parameters.
pub mod Rdn
pub mod RoundTrip
pub mod Oid
pub mod Ssl
pub mod Tests
use python_nss_ng.Prelude.{
  ℕ, ◌+◌, Bytes, Bool, true, false, ◌&&◌, Option, none, some, List, [], ◌∷◌, length, ltb, leb, ◌==◌,
  if◌then◌else◌, codes,
}
use python_nss_ng.Dict.{bytes_test, number_test, get, set}

-- `replace_first` removes the first occurrence of its second argument.
pub record Str : Type 0 where
  pub lower : Bytes → Bytes
  pub replace_first : Bytes → Bytes → Bytes

-- The dict of the module and the two tables of a family of constants.
pub record Registry : Type 0 where
  pub module_dict : List (Bytes × ℕ)
  pub name_to_value : List (Bytes × ℕ)
  pub value_to_name : List (ℕ × Bytes)

abbrev pub ascii_lower : ℕ → ℕ
ascii_lower c = if leb 65 c && leb c 90 then c + 32 else c

-- `strncasecmp(prefix, name, strlen(prefix)) == 0`.
unfoldable pub starts_with : Bytes → Bytes → Bool
starts_with [] name = true
starts_with (c ∷ prefix) [] = false
starts_with (c ∷ prefix) (d ∷ name) =
    let rest = starts_with prefix name in if ascii_lower c == ascii_lower d then rest else false

-- The lower-case name and, if there is one, the name without its prefix.
unfoldable pub add_names : Bytes → Option Bytes → ℕ → List (Bytes × ℕ) → List (Bytes × ℕ)
add_names lower_name none value names = set bytes_test lower_name value names
add_names lower_name (some name_sans) value names =
    set bytes_test name_sans value (set bytes_test lower_name value names)

-- The constants of a module.
pub data Constant : Type 0 where
  constant : Bytes → ℕ → Option Bytes → Constant
  constant_alias : Bytes → ℕ → Constant

pub data Answer (A : Type 0) : Type 0 where
  found : A → Answer A
  key_error type_error value_error : Answer A

abbrev pub or_key_error : {A : Type 0} → Option A → Answer A
or_key_error none = key_error
or_key_error (some a) = found a

module _ (str : Str) where
  open str use {lower, replace_first}

  -- The name without its prefix, if it is longer than that and starts with it.
  unfoldable pub name_sans_prefix : Bytes → Option Bytes → Option Bytes
  name_sans_prefix name none = none
  name_sans_prefix name (some prefix) =
      if ltb (length prefix) (length name) && starts_with prefix name
      then some (replace_first (lower name) (lower prefix))
      else none

  -- `none` is the SystemError of a name that the module has.
  unfoldable pub add_int_constant_with_lookup :
      Bytes → ℕ → Option Bytes → Registry → Option Registry
  add_int_constant_with_lookup name value prefix r =
      let added : Registry = record {
        module_dict = set bytes_test name value r.module_dict;
        name_to_value = add_names (lower name) (name_sans_prefix name prefix) value r.name_to_value;
        value_to_name = set number_test value name r.value_to_name;
      } in
      elim (get bytes_test name r.module_dict) [ none ↦ some added | some v ↦ none ]

  -- `none` is the SystemError of a name that the table has.
  unfoldable pub add_int_constant_alias : Bytes → ℕ → Registry → Option Registry
  add_int_constant_alias name value r = elim (get bytes_test name r.name_to_value) [
    | none ↦ some (record r { name_to_value = set bytes_test (lower name) value r.name_to_value })
    | some v ↦ none
  ]

  unfoldable pub add : Constant → Registry → Option Registry
  add (constant name value prefix) r = add_int_constant_with_lookup name value prefix r
  add (constant_alias name value) r = add_int_constant_alias name value r

  -- In order.
  unfoldable pub add_all : List Constant → Registry → Option Registry
  add_all [] r = some r
  add_all (c ∷ rest) r = elim (add c r) [ none ↦ none | some added ↦ add_all rest added ]

  unfoldable pub oid_tag_from_name : Registry → Bytes → Answer ℕ
  oid_tag_from_name r name = or_key_error (get bytes_test (lower name) r.name_to_value)

  unfoldable pub oid_tag_to_pystr_name : Registry → ℕ → Answer Bytes
  oid_tag_to_pystr_name r oid_tag = or_key_error (get number_test oid_tag r.value_to_name)

  unfoldable pub cipher_suite_to_name : Registry → ℕ → Answer Bytes
  cipher_suite_to_name r cipher_suite = or_key_error (get number_test cipher_suite r.value_to_name)

  -- `none` is an object that is no string.
  unfoldable pub cipher_suite_from_name : Registry → Option Bytes → Answer ℕ
  cipher_suite_from_name r none = type_error
  cipher_suite_from_name r (some name) = or_key_error (get bytes_test (lower name) r.name_to_value)
