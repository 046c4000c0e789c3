-- ===== src/Names/Tests.antt =====
-- Small tables of constants.
use python_nss_ng.Prelude.{
  Bytes, true, false, some, none, [], ◌∷◌, map, codes, ◌≡◌, inr, refl, drop,
}
use python_nss_ng.Dict.{bytes_test, number_test, get, set}
use python_nss_ng.Names.Rdn.{certava_value_to_pystr, certrdn_to_pystr, certrdn_to_pystr_lem}
use python_nss_ng.Names.{
  Str, Registry, Constant, constant, ascii_lower, starts_with, name_sans_prefix, add_names,
  add_int_constant_with_lookup, add, add_all, found, oid_tag_from_name, oid_tag_to_pystr_name,
}
use python_nss_ng.Names.RoundTrip.{IsConsistent, AllFresh, oid_tag_from_name-oid_tag_to_pystr_name}
use python_nss_ng.Names.Oid.{
  Tags, dn_ava_props, same_ignoring_case, find_tag, ava_oid_tag_to_name, ava_name_to_oid_tag,
  is_oid_string,
}
use python_nss_ng.Names.Oid.Dotted.{dotted, is_oid_string_lem}
use python_nss_ng.Names.Oid.Ava.{ava_name_to_oid_tag-ava_oid_tag_to_name}
use python_nss_ng.Names.Ssl.{
  Numbers, names, aliases, SslTables, init_ssl_library_versions, ssl_library_version_to_py_string,
  ssl_library_version_from_name,
}
use python_nss_ng.Names.Ssl.Versions.{ssl_library_version_lem}

abbrev drop_all : Bytes → Bytes → Bytes
drop_all name [] = name
drop_all [] (c ∷ prefix) = []
drop_all (d ∷ name) (c ∷ prefix) = drop_all name prefix

-- `lower` on ASCII, and a `replace` of texts that start with what is replaced.
abbrev ascii : Str
ascii = record { lower = map ascii_lower; replace_first = drop_all }

abbrev no_constants : Registry
no_constants = record { module_dict = []; name_to_value = []; value_to_name = [] }

no_constants-IsConsistent : IsConsistent ascii no_constants
unfolding get
no_constants-IsConsistent value name e = absurd (cc e)

abbrev sha : Constant
sha = constant (codes "SEC_OID_SHA1") 4 (some (codes "SEC_OID_"))

abbrev with_sha : Registry
with_sha = record {
  module_dict = (codes "SEC_OID_SHA1", 4) ∷ [];
  name_to_value = (codes "sec_oid_sha1", 4) ∷ (codes "sha1", 4) ∷ [];
  value_to_name = (4, codes "SEC_OID_SHA1") ∷ [];
}

sha_added : add_all ascii (sha ∷ []) no_constants ≡ some with_sha
unfolding add_all add add_int_constant_with_lookup add_names name_sans_prefix starts_with get set
    bytes_test number_test
sha_added = refl

sha-AllFresh : AllFresh ascii (sha ∷ []) no_constants
unfolding AllFresh get
sha-AllFresh = ((refl, λ sans h. refl), λ r' h. tt)

oid_tag_from_name-oid_tag_to_pystr_name_example :
    oid_tag_from_name ascii with_sha (codes "sec_OID_Sha1") ≡ found 4
unfolding oid_tag_to_pystr_name get number_test
oid_tag_from_name-oid_tag_to_pystr_name_example =
    oid_tag_from_name-oid_tag_to_pystr_name ascii (sha ∷ []) no_constants with_sha 4
      (codes "SEC_OID_SHA1") (codes "sec_OID_Sha1") no_constants-IsConsistent sha-AllFresh sha_added
      refl refl

sha_without_prefix : oid_tag_from_name ascii with_sha (codes "SHA1") ≡ found 4
unfolding oid_tag_from_name get bytes_test
sha_without_prefix = refl

abbrev nss_numbers : Numbers
nss_numbers = record {
  ssl_library_version_2 = 0x0002;
  ssl_library_version_3_0 = 0x0300;
  ssl_library_version_tls_1_0 = 0x0301;
  ssl_library_version_tls_1_1 = 0x0302;
  ssl_library_version_tls_1_2 = 0x0303;
  ssl_library_version_tls_1_3 = 0x0304;
}

nss_tables :
    (t : SslTables) × (init_ssl_library_versions ascii nss_numbers [] ≡ some t)
    × (ssl_library_version_to_py_string ascii t 0x0303 ≡ found (codes "tls1.2"))
unfolding init_ssl_library_versions names aliases add_all add add_int_constant_with_lookup add_names
    name_sans_prefix get set bytes_test number_test ssl_library_version_to_py_string
nss_tables = (_, refl, refl)

ssl_library_version_lem_example :
    ssl_library_version_from_name ascii nss_tables.0 (some (codes "TLS1.2")) ≡ found 0x0303
ssl_library_version_lem_example =
    ssl_library_version_lem ascii nss_numbers [] nss_tables.0 0x0303 (codes "tls1.2")
      (codes "TLS1.2") (λ t h. refl) nss_tables.1 (inr nss_tables.2) refl

is_oid_string_lem_example :
    is_oid_string (codes "oid.1.2.840 ") ≡ dotted false (drop 4 (codes "oid.1.2.840 "))
unfolding starts_with
is_oid_string_lem_example = is_oid_string_lem (codes "oid.1.2.840 ")

oid_strings :
    (dotted false (codes "1.2.840 ") ≡ true)
    × (dotted false (codes "1..2") ≡ false)
    × (dotted false (codes ".1") ≡ false)
    × (dotted false (codes "1.") ≡ false)
unfolding dotted
oid_strings = (refl, refl, refl, refl)

abbrev nss_tags : Tags
nss_tags = record {
  unknown = 0;
  common_name = 41;
  country_name = 42;
  locality = 43;
  state_or_province = 44;
  organization_name = 45;
  organizational_unit_name = 46;
  dn_qualifier = 47;
  dc = 48;
  serial_number = 49;
  title = 50;
  surname = 51;
  given_name = 52;
  initials = 53;
  generation_qualifier = 54;
  rfc1274_mail = 55;
  rfc1274_uid = 56;
  postal_address = 57;
  postal_code = 58;
  post_office_box = 59;
  house_identifier = 60;
  pkcs9_email_address = 61;
  utf8_string = 12;
  printable_string = 19;
  ia5_string = 22;
}

ava_name_to_oid_tag-ava_oid_tag_to_name_example : ava_name_to_oid_tag nss_tags (codes "cn") ≡ 41
unfolding ava_oid_tag_to_name find_tag dn_ava_props same_ignoring_case
ava_name_to_oid_tag-ava_oid_tag_to_name_example =
    ava_name_to_oid_tag-ava_oid_tag_to_name nss_tags 41 (codes "CN") (codes "cn") refl refl

certrdn_to_pystr_lem_example :
    certrdn_to_pystr (
      some (
        record { attr_name = some (codes "CN"); oid_name = none; quoted_value = some (codes "a") }
        ∷ record {
          attr_name = none;
          oid_name = some (codes "1.2");
          quoted_value = some (codes "b");
        }
        ∷ []))
    ≡ some (codes "CN=a+1.2=b")
unfolding certava_value_to_pystr
certrdn_to_pystr_lem_example = certrdn_to_pystr_lem (
    record { attr_name = some (codes "CN"); oid_name = none; quoted_value = some (codes "a") }
    ∷ record { attr_name = none; oid_name = some (codes "1.2"); quoted_value = some (codes "b") }
    ∷ [])
