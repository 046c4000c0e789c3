-- ===== src/Lines/Keys.antt =====
-- The lines of keys and algorithms: the `format_lines` functions of AlgorithmID, its parameters,
-- KEYPQGParams, RSAPublicKey, DSAPublicKey, PublicKey, SubjectPublicKeyInfo and SignedData in
-- src/py_nss.c, in a build with HAVE_RSA_PSS.
--
-- A parameter of an AlgorithmID is given as what the decoder of its tag makes of it, so that the
-- AlgorithmIDs inside are parts of the value. An integer or another SECItem is its octets; `none`
-- is a getter that fails, and for what is shown as octets also an object without a buffer.
use Prim.Native.String.{String}
use python_nss_ng.Prelude.{
  Bytes, Bool, true, false, Option, none, some, [], ◌∷◌, ◌==◌, if◌then◌else◌, codes,
}
use python_nss_ng.Format.{Object, string}
use python_nss_ng.Lines.{
  Api, Formatter, steps, checked, call_format_lines, append_or_skip, fmt_obj, label, value,
  append_hex, fmt_sec_int_obj, fingerprint_format_lines,
}

-- The fields of SECKEYRSAPSSParams; `none` is a field that is not there. A description may be
-- NULL, and the mask's parameters may be no AlgorithmID.
pub data MaskHash : Type 0 where
  described : Option Object → MaskHash
  invalid : MaskHash

pub record RsaPss : Type 0 where
  pub hash_alg : Option (Option Object)
  pub mask_alg : Option (Option Object × MaskHash)
  pub salt_length : Option (Option Object)

-- The tags for which SEC_PKCS5IsAlgorithmPBEAlgTag holds.
pub data PbeTag : Type 0 where
  pbkdf2 pbes2 pbmac1 other_pbe : PbeTag

-- `undecoded` is a failure of the arena or of the decoder. The fields are those that the code
-- reads, in its order.
mutual
  pub data AlgorithmId : Type 0 where
    algorithm_id : Option Object → Bytes → Parameters → AlgorithmId

  pub data NewAlgorithmId : Type 0 where
    null : NewAlgorithmId
    new : AlgorithmId → NewAlgorithmId

  pub data Parameters : Type 0 where
    undecoded : PbeTag → Parameters
    kdf2 : Option Object → Option Object → Option Object → NewAlgorithmId → Parameters
    pkcs5_v2 : NewAlgorithmId → NewAlgorithmId → Parameters
    pbmac : NewAlgorithmId → NewAlgorithmId → Parameters
    pbe : Option Object → Option Object → Parameters
    rsa_pss : Option RsaPss → Parameters
    other : Parameters

pub record KeyPqgParams : Type 0 where
  pub prime : Option Bytes
  pub subprime : Option Bytes
  pub base : Option Bytes

pub record RsaPublicKey : Type 0 where
  pub modulus : Option Bytes
  pub exponent : Option Bytes

pub record DsaPublicKey : Type 0 where
  pub pqg_params : Option KeyPqgParams
  pub public_value : Option Bytes

-- By `keyType`; the last one is of any other type, by the answer of PublicKey_get_key_type_str.
pub data PublicKey : Type 0 where
  rsa_key : RsaPublicKey → PublicKey
  dsa_key : DsaPublicKey → PublicKey
  other_key : Option Object → PublicKey

pub record SubjectPublicKeyInfo : Type 0 where
  pub algorithm : Option AlgorithmId
  pub public_key : Option PublicKey

pub record SignedData : Type 0 where
  pub signed_algorithm : Option AlgorithmId
  pub signature : Option Bytes
  pub der : Bytes

-- What is written in place of a field that is not there.
abbrev pub or_text : Option (Option Object) → String → Option Object
or_text none text = some (string (codes text))
or_text (some obj) text = obj

abbrev pub mask_hash_object : MaskHash → Option Object
mask_hash_object (described obj) = obj
mask_hash_object invalid = some (string (codes "Invalid mask generation algorithm parameters"))

abbrev pub mask_objects : Option (Option Object × MaskHash) → Option Object × Option Object
mask_objects none = (some (string (codes "default, MGF1")), some (string (codes "default, SHA-1")))
mask_objects (some (obj, hash)) = (obj, mask_hash_object hash)

-- No parameters, or those of an ASN.1 NULL.
abbrev pub is_asn1_null : Bytes → Bool
is_asn1_null [] = true
is_asn1_null (a ∷ b ∷ []) = if a == 5 then b == 0 else false
is_asn1_null _ = false

abbrev pub parameters_label : PbeTag → String
parameters_label pbkdf2 = "Parameters"
parameters_label pbes2 = "Encryption"
parameters_label pbmac1 = "MAC"
parameters_label other_pbe = "Parameters"

module _ (api : Api) where
  -- `none` is a failure of the arena or of the decoder.
  unfoldable pub rsapss_params_format_lines : Option RsaPss → Formatter
  rsapss_params_format_lines decoded = checked decoded (λ params. steps (
      fmt_obj api 0 (some (codes "Hash algorithm")) (or_text params.hash_alg "default, SHA-1")
      ∷ fmt_obj api 0 (some (codes "Mask Algorithm")) (mask_objects params.mask_alg).0
      ∷ fmt_obj api 0 (some (codes "Mask hash algorithm")) (mask_objects params.mask_alg).1
      ∷ fmt_obj api 0 (some (codes "Salt length")) (or_text params.salt_length "default, 20")
      ∷ []))

  unfoldable pub pbe_params_format_lines : Option Object → Option Object → Formatter
  pbe_params_format_lines salt iteration_count = steps (
      fmt_obj api 0 (some (codes "Salt")) salt
      ∷ fmt_obj api 0 (some (codes "Iteration Count")) iteration_count
      ∷ [])

  -- The AlgorithmIDs inside are given by their method, `none` at every level for a NULL.
  unfoldable pub kdf2_params_format_lines :
      Option Object → Option Object → Option Object → Formatter → Formatter
  kdf2_params_format_lines salt iteration_count key_length kdf_alg = steps (
      fmt_obj api 0 (some (codes "Salt")) salt
      ∷ fmt_obj api 0 (some (codes "Iteration Count")) iteration_count
      ∷ fmt_obj api 0 (some (codes "Key Length")) key_length
      ∷ label api 0 "KDF Algorithm"
      ∷ call_format_lines 1 kdf_alg
      ∷ [])

  unfoldable pub pkcs5_v2_params_format_lines : Formatter → Formatter → Formatter
  pkcs5_v2_params_format_lines kdf_alg cipher_alg = steps (
      label api 0 "KDF"
      ∷ call_format_lines 1 kdf_alg
      ∷ label api 0 "Cipher"
      ∷ call_format_lines 1 cipher_alg
      ∷ [])

  unfoldable mutual
    pub algorithm_id_format_lines : AlgorithmId → Formatter
    algorithm_id_format_lines (algorithm_id algorithm raw parameters) = steps (
        fmt_obj api 0 (some (codes "Algorithm")) algorithm
        ∷ parameters_format_lines parameters
        ∷ (if is_asn1_null raw
            then steps []
            else steps (label api 0 "Raw Parameter Data" ∷ append_hex api 1 raw ∷ []))
        ∷ [])

    -- The `switch` on the tag, and the test for RSA-PSS.
    pub parameters_format_lines : Parameters → Formatter
    parameters_format_lines (undecoded tag) =
        steps (label api 0 (parameters_label tag) ∷ append_or_skip 1 (λ level. none) ∷ [])
    parameters_format_lines (kdf2 salt iteration_count key_length kdf_alg) = steps (
        label api 0 "Parameters"
        ∷ append_or_skip 1
            (kdf2_params_format_lines salt iteration_count key_length (new_format_lines kdf_alg))
        ∷ [])
    parameters_format_lines (pkcs5_v2 kdf_alg cipher_alg) = steps (
        label api 0 "Encryption"
        ∷ append_or_skip 1
            (pkcs5_v2_params_format_lines (new_format_lines kdf_alg) (new_format_lines cipher_alg))
        ∷ [])
    parameters_format_lines (pbmac kdf_alg cipher_alg) = steps (
        label api 0 "MAC"
        ∷ append_or_skip 1
            (pkcs5_v2_params_format_lines (new_format_lines kdf_alg) (new_format_lines cipher_alg))
        ∷ [])
    parameters_format_lines (pbe salt iteration_count) = steps (
        label api 0 "Parameters"
        ∷ append_or_skip 1 (pbe_params_format_lines salt iteration_count)
        ∷ [])
    parameters_format_lines (rsa_pss decoded) =
        steps
          (label api 0 "Parameters" ∷ append_or_skip 1 (rsapss_params_format_lines decoded) ∷ [])
    parameters_format_lines other = steps []

    -- The method of an object that may be NULL.
    pub new_format_lines : NewAlgorithmId → Formatter
    new_format_lines null = λ level. none
    new_format_lines (new id) = algorithm_id_format_lines id

  unfoldable pub keypqg_params_format_lines : KeyPqgParams → Formatter
  keypqg_params_format_lines params = steps (
      checked params.prime (fmt_sec_int_obj api 0 "Prime")
      ∷ checked params.subprime (fmt_sec_int_obj api 0 "SubPrime")
      ∷ checked params.base (fmt_sec_int_obj api 0 "Base")
      ∷ [])

  unfoldable pub rsa_public_key_format_lines : RsaPublicKey → Formatter
  rsa_public_key_format_lines key = steps (
      checked key.modulus (fmt_sec_int_obj api 0 "Modulus")
      ∷ checked key.exponent (fmt_sec_int_obj api 0 "Exponent")
      ∷ [])

  unfoldable pub dsa_public_key_format_lines : DsaPublicKey → Formatter
  dsa_public_key_format_lines key = steps (
      checked key.pqg_params (λ params. call_format_lines 0 (keypqg_params_format_lines params))
      ∷ checked key.public_value (fmt_sec_int_obj api 0 "Public Value")
      ∷ [])

  unfoldable pub public_key_format_lines : PublicKey → Formatter
  public_key_format_lines (rsa_key key) =
      steps
        (label api 0 "RSA Public Key" ∷ call_format_lines 1 (rsa_public_key_format_lines key) ∷ [])
  public_key_format_lines (dsa_key key) =
      steps
        (label api 0 "DSA Public Key" ∷ call_format_lines 1 (dsa_public_key_format_lines key) ∷ [])
  public_key_format_lines (other_key key_type) = checked key_type (value api 0 "Key Type")

  unfoldable pub subject_public_key_info_format_lines : SubjectPublicKeyInfo → Formatter
  subject_public_key_info_format_lines info = steps (
      checked info.algorithm (λ id. steps (
        label api 0 "Public Key Algorithm"
        ∷ call_format_lines 1 (algorithm_id_format_lines id)
        ∷ []))
      ∷ checked info.public_key (λ key. call_format_lines 0 (public_key_format_lines key))
      ∷ [])

  unfoldable pub signed_data_format_lines : SignedData → Formatter
  signed_data_format_lines signed = steps (
      checked signed.signed_algorithm (λ id. steps (
        label api 0 "Signature Algorithm"
        ∷ call_format_lines 1 (algorithm_id_format_lines id)
        ∷ []))
      ∷ label api 0 "Signature"
      ∷ checked signed.signature (append_hex api 1)
      ∷ append_or_skip 0 (fingerprint_format_lines api signed.der)
      ∷ [])
