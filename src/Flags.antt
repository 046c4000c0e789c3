-- ===== src/Flags.antt =====
-- Bit flags as lists: the macros BIT_FLAGS_TO_LIST and the functions that use them (src/py_nss.c).
--
-- A row of a table is the number of a flag, which NSS defines, its name and its description. The
-- sorting of Python lists is a parameter, `none` where it raises.
pub mod Total
pub mod Tests
use Prim.Native.String.{String}
use python_nss_ng.Prelude.{
  ℕ, ◌+◌, ◌-◌, Bytes, Bool, true, false, Option, none, some, List, [], ◌∷◌, ◌++◌, map, ◌==◌,
  if◌then◌else◌, bit_and, codes,
}
use python_nss_ng.Names.Ssl.{
  RepresentationKind, as_enum, as_enum_name, as_enum_description, Representation, number, text,
}

pub record Flag : Type 0 where
  pub value : ℕ
  pub name : Bytes
  pub description : Bytes

-- BIT_FLAGS_TO_LIST for each row: the rows that are found, and the flags that are left.
unfoldable pub bit_flags : List Flag → ℕ → List Flag × ℕ
bit_flags [] flags = ([], flags)
bit_flags (flag ∷ table) flags =
    let found = bit_flags table (flags - bit_and flags flag.value) in
    let absent = bit_flags table flags in
    if bit_and flags flag.value == 0 then absent else (flag ∷ found.0, found.1)

-- The object for a row, none where the kind is not supported.
unfoldable pub py_flag : RepresentationKind → Option (Flag → Representation)
py_flag as_enum = some (λ f. number f.value)
py_flag as_enum_name = some (λ f. text f.name)
py_flag as_enum_description = some (λ f. text f.description)
py_flag kind = none

pub data FlagList : Type 0 where
  listed : List Representation → FlagList
  value_error sort_error : FlagList

-- What Python's lists and texts do: the sort, and `"unknown bit flags %#x"`.
pub record Lists : Type 0 where
  pub sort : List Representation → Option (List Representation)
  pub unknown_bit_flags : ℕ → Bytes

unfoldable pub unknown_flags : Lists → ℕ → List Representation
unknown_flags lib flags = if flags == 0 then [] else text (lib.unknown_bit_flags flags) ∷ []

unfoldable pub bit_flags_to_list : Lists → List Flag → ℕ → RepresentationKind → FlagList
unfolding unknown_flags
bit_flags_to_list lib table flags repr_kind = elim (py_flag repr_kind) [
  | none ↦ value_error
  | some convert ↦
      let (found, left) = bit_flags table flags in
      elim (lib.sort (map convert found ++ unknown_flags lib left)) [
        | none ↦ sort_error
        | some l ↦ listed l
      ]
]

module _ (nss : Bytes → ℕ) where
  -- The number that NSS gives a constant.
  abbrev flag : String → String → Flag
  flag name description = record {
    value = nss (codes name);
    name = codes name;
    description = codes description;
  }

  -- From NSS 3.13 on.
  unfoldable pub cert_trust_flags_table : List Flag
  cert_trust_flags_table =
      flag "CERTDB_TERMINAL_RECORD" "Terminal Record"
      ∷ flag "CERTDB_TRUSTED" "Trusted"
      ∷ flag "CERTDB_SEND_WARN" "Warn When Sending"
      ∷ flag "CERTDB_VALID_CA" "Valid CA"
      ∷ flag "CERTDB_TRUSTED_CA" "Trusted CA"
      ∷ flag "CERTDB_NS_TRUSTED_CA" "Netscape Trusted CA"
      ∷ flag "CERTDB_USER" "User"
      ∷ flag "CERTDB_TRUSTED_CLIENT_CA" "Trusted Client CA"
      ∷ flag "CERTDB_GOVT_APPROVED_CA" "Step-up"
      ∷ []

  unfoldable pub cert_trust_flags : Lists → ℕ → RepresentationKind → FlagList
  unfolding bit_flags_to_list cert_trust_flags_table
  cert_trust_flags lib flags repr_kind =
      bit_flags_to_list lib cert_trust_flags_table flags repr_kind

  unfoldable pub cert_usage_flags_table : List Flag
  cert_usage_flags_table =
      flag "certificateUsageSSLClient" "SSL Client"
      ∷ flag "certificateUsageSSLServer" "SSL Server"
      ∷ flag "certificateUsageSSLServerWithStepUp" "SSL Server With StepUp"
      ∷ flag "certificateUsageSSLCA" "SSL CA"
      ∷ flag "certificateUsageEmailSigner" "Email Signer"
      ∷ flag "certificateUsageEmailRecipient" "Email Recipient"
      ∷ flag "certificateUsageObjectSigner" "Object Signer"
      ∷ flag "certificateUsageUserCertImport" "User Certificate Import"
      ∷ flag "certificateUsageVerifyCA" "Verify CA"
      ∷ flag "certificateUsageProtectedObjectSigner" "Protected Object Signer"
      ∷ flag "certificateUsageStatusResponder" "Status Responder"
      ∷ flag "certificateUsageAnyCA" "Any CA"
      ∷ []

  unfoldable pub cert_usage_flags : Lists → ℕ → RepresentationKind → FlagList
  unfolding bit_flags_to_list cert_usage_flags_table
  cert_usage_flags lib flags repr_kind =
      bit_flags_to_list lib cert_usage_flags_table flags repr_kind

  -- With KU_DECIPHER_ONLY.
  unfoldable pub key_usage_flags_table : List Flag
  key_usage_flags_table =
      flag "KU_DIGITAL_SIGNATURE" "Digital Signature"
      ∷ flag "KU_NON_REPUDIATION" "Non-Repudiation"
      ∷ flag "KU_KEY_ENCIPHERMENT" "Key Encipherment"
      ∷ flag "KU_DATA_ENCIPHERMENT" "Data Encipherment"
      ∷ flag "KU_KEY_AGREEMENT" "Key Agreement"
      ∷ flag "KU_KEY_CERT_SIGN" "Certificate Signing"
      ∷ flag "KU_CRL_SIGN" "CRL Signing"
      ∷ flag "KU_ENCIPHER_ONLY" "Encipher Only"
      ∷ flag "KU_DECIPHER_ONLY" "Decipher Only"
      ∷ flag "KU_DIGITAL_SIGNATURE_OR_NON_REPUDIATION" "Digital Signature or Non-Repudiation"
      ∷ flag "KU_KEY_AGREEMENT_OR_ENCIPHERMENT" "Key Agreement or Data Encipherment"
      ∷ flag "KU_NS_GOVT_APPROVED" "Government Approved"
      ∷ []

  unfoldable pub key_usage_flags : Lists → ℕ → RepresentationKind → FlagList
  unfolding bit_flags_to_list key_usage_flags_table
  key_usage_flags lib flags repr_kind = bit_flags_to_list lib key_usage_flags_table flags repr_kind

  unfoldable pub cert_type_flags_table : List Flag
  cert_type_flags_table =
      flag "NS_CERT_TYPE_SSL_CLIENT" "SSL Client"
      ∷ flag "NS_CERT_TYPE_SSL_SERVER" "SSL Server"
      ∷ flag "NS_CERT_TYPE_EMAIL" "Email"
      ∷ flag "NS_CERT_TYPE_OBJECT_SIGNING" "Object Signing"
      ∷ flag "NS_CERT_TYPE_RESERVED" "Reserved"
      ∷ flag "NS_CERT_TYPE_SSL_CA" "SSL CA"
      ∷ flag "NS_CERT_TYPE_EMAIL_CA" "Email CA"
      ∷ flag "NS_CERT_TYPE_OBJECT_SIGNING_CA" "Object Signing CA"
      ∷ flag "EXT_KEY_USAGE_TIME_STAMP" "Key Usage Timestamp"
      ∷ flag "EXT_KEY_USAGE_STATUS_RESPONDER" "Key Usage Status Responder"
      ∷ []

  unfoldable pub cert_type_flags : Lists → ℕ → RepresentationKind → FlagList
  unfolding bit_flags_to_list cert_type_flags_table
  cert_type_flags lib flags repr_kind = bit_flags_to_list lib cert_type_flags_table flags repr_kind

  unfoldable pub nss_init_flags_table : List Flag
  nss_init_flags_table =
      flag "NSS_INIT_READONLY" "Read Only"
      ∷ flag "NSS_INIT_NOCERTDB" "No Certificate Database"
      ∷ flag "NSS_INIT_NOMODDB" "No Module Database"
      ∷ flag "NSS_INIT_FORCEOPEN" "Force Open"
      ∷ flag "NSS_INIT_NOROOTINIT" "No Root Init"
      ∷ flag "NSS_INIT_OPTIMIZESPACE" "Optimize Space"
      ∷ flag "NSS_INIT_PK11THREADSAFE" "PK11 Thread Safe"
      ∷ flag "NSS_INIT_PK11RELOAD" "PK11 Reload"
      ∷ flag "NSS_INIT_NOPK11FINALIZE" "No PK11 Finalize"
      ∷ flag "NSS_INIT_RESERVED" "Reserved"
      ∷ []

  unfoldable pub nss_init_flags : Lists → ℕ → RepresentationKind → FlagList
  unfolding bit_flags_to_list nss_init_flags_table
  nss_init_flags lib flags repr_kind = bit_flags_to_list lib nss_init_flags_table flags repr_kind
