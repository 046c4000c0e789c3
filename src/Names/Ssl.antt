-- ===== src/Names/Ssl.antt =====
-- The versions of the SSL library, their names and their aliases (src/py_ssl.c).
pub mod Distinct
pub mod Versions
use python_nss_ng.Prelude.{
  ℕ, Bytes, Bool, true, false, Option, none, some, List, [], ◌∷◌, map, ◌==◌, if◌then◌else◌, codes,
}
use python_nss_ng.Dict.{bytes_test, number_test, get}
use python_nss_ng.Names.{
  Str, Registry, Constant, constant, add_all, Answer, found, key_error, type_error, value_error,
  or_key_error,
}

-- The numbers that NSS gives the versions.
pub record Numbers : Type 0 where
  pub ssl_library_version_2 : ℕ
  pub ssl_library_version_3_0 : ℕ
  pub ssl_library_version_tls_1_0 : ℕ
  pub ssl_library_version_tls_1_1 : ℕ
  pub ssl_library_version_tls_1_2 : ℕ
  pub ssl_library_version_tls_1_3 : ℕ

unfoldable pub names : Numbers → List (Bytes × ℕ)
names n =
    (codes "SSL_LIBRARY_VERSION_2", n.ssl_library_version_2)
    ∷ (codes "SSL_LIBRARY_VERSION_3_0", n.ssl_library_version_3_0)
    ∷ (codes "SSL_LIBRARY_VERSION_TLS_1_0", n.ssl_library_version_tls_1_0)
    ∷ (codes "SSL_LIBRARY_VERSION_TLS_1_1", n.ssl_library_version_tls_1_1)
    ∷ (codes "SSL_LIBRARY_VERSION_TLS_1_2", n.ssl_library_version_tls_1_2)
    ∷ (codes "SSL_LIBRARY_VERSION_TLS_1_3", n.ssl_library_version_tls_1_3)
    ∷ []

unfoldable pub aliases : Numbers → List (Bytes × ℕ)
aliases n =
    (codes "ssl2", n.ssl_library_version_2)
    ∷ (codes "ssl3", n.ssl_library_version_3_0)
    ∷ (codes "tls1.0", n.ssl_library_version_tls_1_0)
    ∷ (codes "tls1.1", n.ssl_library_version_tls_1_1)
    ∷ (codes "tls1.2", n.ssl_library_version_tls_1_2)
    ∷ (codes "tls1.3", n.ssl_library_version_tls_1_3)
    ∷ []

-- No prefix.
abbrev pub plain : Bytes × ℕ → Constant
plain p = constant p.0 p.1 none

abbrev pub new_tables : List (Bytes × ℕ) → Registry
new_tables module_dict = record {
  module_dict = module_dict;
  name_to_value = [];
  value_to_name = [];
}

-- The tables of the names and those of the aliases.
pub record SslTables : Type 0 where
  pub by_name : Registry
  pub by_alias : Registry

pub data RepresentationKind : Type 0 where
  as_object as_string as_type_string as_type_enum as_labeled_string as_enum as_enum_name :
      RepresentationKind
  as_enum_description as_index as_dotted_decimal : RepresentationKind

pub data Representation : Type 0 where
  number : ℕ → Representation
  text : Bytes → Representation

-- An object for a version: an integer, a string, or another one.
pub data Version : Type 0 where
  integer : ℕ → Version
  string : Bytes → Version
  another : Version

module _ (str : Str) where
  open str use {lower}

  -- The module's dict is the one of the module; `none` where it has one of the names.
  unfoldable pub init_ssl_library_versions : Numbers → List (Bytes × ℕ) → Option SslTables
  init_ssl_library_versions n module_dict =
      elim (add_all str (map plain (names n)) (new_tables module_dict)) [
        | none ↦ none
        | some by_name ↦
            elim (add_all str (map plain (aliases n)) (new_tables by_name.module_dict)) [
              | none ↦ none
              | some by_alias ↦ some (record { by_name = by_name; by_alias = by_alias })
            ]
      ]

  unfoldable pub ssl_library_version_to_py_enum_name : SslTables → ℕ → Answer Bytes
  ssl_library_version_to_py_enum_name t version =
      or_key_error (get number_test version t.by_name.value_to_name)

  unfoldable pub ssl_library_version_to_py_string : SslTables → ℕ → Answer Bytes
  ssl_library_version_to_py_string t version =
      or_key_error (get number_test version t.by_alias.value_to_name)

  -- `none` is an object that is no string.
  unfoldable pub ssl_library_version_from_name : SslTables → Option Bytes → Answer ℕ
  ssl_library_version_from_name t none = type_error
  ssl_library_version_from_name t (some name) =
      elim (get bytes_test (lower name) t.by_name.name_to_value) [
        | some value ↦ found value
        | none ↦ or_key_error (get bytes_test (lower name) t.by_alias.name_to_value)
      ]

  -- An integer is taken as it is.
  unfoldable pub ssl_library_version_from_pyobject : SslTables → Version → Answer ℕ
  unfolding ssl_library_version_from_name
  ssl_library_version_from_pyobject t (integer value) = found value
  ssl_library_version_from_pyobject t (string name) = ssl_library_version_from_name t (some name)
  ssl_library_version_from_pyobject t another = type_error

  abbrev as_text : Answer Bytes → Answer Representation
  as_text (found name) = found (text name)
  as_text key_error = key_error
  as_text type_error = type_error
  as_text value_error = value_error

  unfoldable pub ssl_library_version_to_repr_kind :
      SslTables → ℕ → RepresentationKind → Answer Representation
  unfolding ssl_library_version_to_py_enum_name ssl_library_version_to_py_string
  ssl_library_version_to_repr_kind t version as_enum = found (number version)
  ssl_library_version_to_repr_kind t version as_enum_name =
      as_text (ssl_library_version_to_py_enum_name t version)
  ssl_library_version_to_repr_kind t version as_string =
      as_text (ssl_library_version_to_py_string t version)
  ssl_library_version_to_repr_kind t version kind = value_error

  -- The version of the two numbers on the wire.
  unfoldable pub version_enum : Numbers → ℕ → ℕ → Option ℕ
  version_enum n major minor =
      if major == 3
      then (if minor == 0
          then some n.ssl_library_version_3_0
          else if minor == 1
          then some n.ssl_library_version_tls_1_0
          else if minor == 2
          then some n.ssl_library_version_tls_1_1
          else if minor == 3
          then some n.ssl_library_version_tls_1_2
          else if minor == 4
          then some n.ssl_library_version_tls_1_3
          else none)
      else none

  unfoldable pub ssl_version_to_repr_kind :
      Numbers → SslTables → ℕ → ℕ → RepresentationKind → Answer Representation
  unfolding ssl_library_version_to_repr_kind
  ssl_version_to_repr_kind n t major minor kind = elim (version_enum n major minor) [
    | none ↦ value_error
    | some version ↦ ssl_library_version_to_repr_kind t version kind
  ]

  -- The smallest and the largest version of a range; the error of the first that has one.
  unfoldable pub ssl_version_range_to_tuple :
      SslTables → ℕ × ℕ → RepresentationKind → Answer (Representation × Representation)
  ssl_version_range_to_tuple t range kind = elim (ssl_library_version_to_repr_kind t range.0 kind) [
    | found py_min ↦ elim (ssl_library_version_to_repr_kind t range.1 kind) [
      | found py_max ↦ found (py_min, py_max)
      | key_error ↦ key_error
      | type_error ↦ type_error
      | value_error ↦ value_error
    ]
    | key_error ↦ key_error
    | type_error ↦ type_error
    | value_error ↦ value_error
  ]
