-- ===== src/Lines/Shape/Keys.antt =====
-- The levels of the lines of keys and algorithms.
use python_nss_ng.Prelude.{Bytes, Bool, Option}
use python_nss_ng.Format.{Object}
use python_nss_ng.Lines.{Api, Formatter}
use python_nss_ng.Lines.Shape.{IsShaped, shape_rules, never-IsShaped, no_steps-IsShaped}
use python_nss_ng.Lines.Shape.Fields.{
  append_hex-IsShaped, fmt_sec_int_obj-IsShaped, fingerprint-IsShaped,
}
use python_nss_ng.Lines.Keys.{
  RsaPss, PbeTag, AlgorithmId, algorithm_id, NewAlgorithmId, null, new, Parameters, undecoded, kdf2,
  pkcs5_v2, pbmac, pbe, rsa_pss, other, KeyPqgParams, RsaPublicKey, DsaPublicKey, PublicKey,
  rsa_key, dsa_key, other_key, SubjectPublicKeyInfo, SignedData, rsapss_params_format_lines,
  pbe_params_format_lines, kdf2_params_format_lines, pkcs5_v2_params_format_lines,
  algorithm_id_format_lines, parameters_format_lines, new_format_lines, keypqg_params_format_lines,
  rsa_public_key_format_lines, dsa_public_key_format_lines, public_key_format_lines,
  subject_public_key_info_format_lines, signed_data_format_lines,
}

module _ (api : Api) (blanks : Bool) where
  pub rsapss-IsShaped :
      (decoded : Option RsaPss) → IsShaped blanks (rsapss_params_format_lines api decoded)
  unfolding rsapss_params_format_lines
  rsapss-IsShaped decoded = search (shape_rules) depth 20

  pub pbe-IsShaped :
      (salt iteration_count : Option Object)
      → IsShaped blanks (pbe_params_format_lines api salt iteration_count)
  unfolding pbe_params_format_lines
  pbe-IsShaped salt iteration_count = search (shape_rules) depth 20

  pub kdf2-IsShaped :
      (salt iteration_count key_length : Option Object) (kdf_alg : Formatter)
      → IsShaped blanks kdf_alg
      → IsShaped blanks (kdf2_params_format_lines api salt iteration_count key_length kdf_alg)
  unfolding kdf2_params_format_lines
  kdf2-IsShaped salt iteration_count key_length kdf_alg h = search (shape_rules) depth 20

  pub pkcs5_v2-IsShaped :
      (kdf_alg cipher_alg : Formatter)
      → IsShaped blanks kdf_alg
      → IsShaped blanks cipher_alg
      → IsShaped blanks (pkcs5_v2_params_format_lines api kdf_alg cipher_alg)
  unfolding pkcs5_v2_params_format_lines
  pkcs5_v2-IsShaped kdf_alg cipher_alg h k = search (shape_rules) depth 20

  -- The cases of the AlgorithmID, its parameters and what these hold.
  algorithm_id_case :
      (algorithm : Option Object) (raw : Bytes) (parameters : Parameters)
      → IsShaped blanks (parameters_format_lines api parameters)
      → IsShaped blanks (algorithm_id_format_lines api (algorithm_id algorithm raw parameters))
  unfolding algorithm_id_format_lines
  algorithm_id_case algorithm raw parameters h = search (shape_rules, append_hex-IsShaped) depth 20

  undecoded_case : (tag : PbeTag) → IsShaped blanks (parameters_format_lines api (undecoded tag))
  unfolding parameters_format_lines
  undecoded_case tag = search (shape_rules) depth 20

  kdf2_case :
      (salt iteration_count key_length : Option Object) (kdf_alg : NewAlgorithmId)
      → IsShaped blanks (new_format_lines api kdf_alg)
      → IsShaped blanks (parameters_format_lines api (kdf2 salt iteration_count key_length kdf_alg))
  unfolding parameters_format_lines
  kdf2_case salt iteration_count key_length kdf_alg h = search (shape_rules, kdf2-IsShaped) depth 20

  pkcs5_v2_case :
      (kdf_alg cipher_alg : NewAlgorithmId)
      → IsShaped blanks (new_format_lines api kdf_alg)
      → IsShaped blanks (new_format_lines api cipher_alg)
      → IsShaped blanks (parameters_format_lines api (pkcs5_v2 kdf_alg cipher_alg))
        × IsShaped blanks (parameters_format_lines api (pbmac kdf_alg cipher_alg))
  unfolding parameters_format_lines
  pkcs5_v2_case kdf_alg cipher_alg h k = (
    search (shape_rules, pkcs5_v2-IsShaped) depth 20,
    search (shape_rules, pkcs5_v2-IsShaped) depth 20,
  )

  pbe_case :
      (salt iteration_count : Option Object)
      → IsShaped blanks (parameters_format_lines api (pbe salt iteration_count))
  unfolding parameters_format_lines
  pbe_case salt iteration_count = search (shape_rules, pbe-IsShaped) depth 20

  rsa_pss_case :
      (decoded : Option RsaPss) → IsShaped blanks (parameters_format_lines api (rsa_pss decoded))
  unfolding parameters_format_lines
  rsa_pss_case decoded = search (shape_rules, rsapss-IsShaped) depth 20

  other_case : IsShaped blanks (parameters_format_lines api other)
  unfolding parameters_format_lines
  other_case = no_steps-IsShaped

  null_case : IsShaped blanks (new_format_lines api null)
  unfolding new_format_lines
  null_case = never-IsShaped

  new_case :
      (id : AlgorithmId)
      → IsShaped blanks (algorithm_id_format_lines api id)
      → IsShaped blanks (new_format_lines api (new id))
  unfolding new_format_lines
  new_case id h = h

  mutual
    pub algorithm_id-IsShaped :
        (id : AlgorithmId) → IsShaped blanks (algorithm_id_format_lines api id)
    algorithm_id-IsShaped (algorithm_id algorithm raw parameters) =
        algorithm_id_case algorithm raw parameters (parameters-IsShaped parameters)

    pub parameters-IsShaped :
        (parameters : Parameters) → IsShaped blanks (parameters_format_lines api parameters)
    parameters-IsShaped (undecoded tag) = undecoded_case tag
    parameters-IsShaped (kdf2 salt iteration_count key_length kdf_alg) =
        kdf2_case salt iteration_count key_length kdf_alg (new-IsShaped kdf_alg)
    parameters-IsShaped (pkcs5_v2 kdf_alg cipher_alg) =
        (pkcs5_v2_case kdf_alg cipher_alg (new-IsShaped kdf_alg) (new-IsShaped cipher_alg)).0
    parameters-IsShaped (pbmac kdf_alg cipher_alg) =
        (pkcs5_v2_case kdf_alg cipher_alg (new-IsShaped kdf_alg) (new-IsShaped cipher_alg)).1
    parameters-IsShaped (pbe salt iteration_count) = pbe_case salt iteration_count
    parameters-IsShaped (rsa_pss decoded) = rsa_pss_case decoded
    parameters-IsShaped other = other_case

    pub new-IsShaped : (id : NewAlgorithmId) → IsShaped blanks (new_format_lines api id)
    new-IsShaped null = null_case
    new-IsShaped (new id) = new_case id (algorithm_id-IsShaped id)

  pub keypqg-IsShaped :
      (params : KeyPqgParams) → IsShaped blanks (keypqg_params_format_lines api params)
  unfolding keypqg_params_format_lines
  keypqg-IsShaped params = search (shape_rules, fmt_sec_int_obj-IsShaped) depth 20

  pub rsa-IsShaped : (key : RsaPublicKey) → IsShaped blanks (rsa_public_key_format_lines api key)
  unfolding rsa_public_key_format_lines
  rsa-IsShaped key = search (shape_rules, fmt_sec_int_obj-IsShaped) depth 20

  pub dsa-IsShaped : (key : DsaPublicKey) → IsShaped blanks (dsa_public_key_format_lines api key)
  unfolding dsa_public_key_format_lines
  dsa-IsShaped key = search (shape_rules, keypqg-IsShaped, fmt_sec_int_obj-IsShaped) depth 20

  pub public_key-IsShaped : (key : PublicKey) → IsShaped blanks (public_key_format_lines api key)
  unfolding public_key_format_lines
  public_key-IsShaped (rsa_key key) = search (shape_rules, rsa-IsShaped) depth 20
  public_key-IsShaped (dsa_key key) = search (shape_rules, dsa-IsShaped) depth 20
  public_key-IsShaped (other_key key_type) = search (shape_rules) depth 20

  pub key_info-IsShaped :
      (info : SubjectPublicKeyInfo)
      → IsShaped blanks (subject_public_key_info_format_lines api info)
  unfolding subject_public_key_info_format_lines
  key_info-IsShaped info = search (shape_rules, algorithm_id-IsShaped, public_key-IsShaped) depth 20

  pub signed_data-IsShaped :
      (signed : SignedData) → IsShaped blanks (signed_data_format_lines api signed)
  unfolding signed_data_format_lines
  signed_data-IsShaped signed =
      search (shape_rules, algorithm_id-IsShaped, append_hex-IsShaped, fingerprint-IsShaped) depth
        20
