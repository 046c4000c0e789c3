-- ===== src/Lines/Certificates.antt =====
-- The lines of certificates and certificate requests: `Certificate_summary_format_lines` and the
-- `format_lines` functions of Certificate, CertAttribute and CertificateRequest in src/py_nss.c.
--
-- The fields are what the getters answer, `none` for a NULL.
use Prim.Native.String.{String}
use python_nss_ng.Prelude.{
  ℕ, Bool, true, false, Option, none, List, [], ◌∷◌, ◌||◌, ◌+ℤ◌, if◌then◌else◌, ℤ, pos, codes,
}
use python_nss_ng.Format.{Object, integer}
use python_nss_ng.Lines.{
  Api, Formatter, steps, checked, call_format_lines, at_level, each, fmt_label_and_append, label,
  value, alone, append_lines, obj_sprintf,
}
use python_nss_ng.Lines.Keys.{
  AlgorithmId, SubjectPublicKeyInfo, SignedData, algorithm_id_format_lines,
  subject_public_key_info_format_lines, signed_data_format_lines,
}
use python_nss_ng.Lines.Extensions.{
  CertificateExtension, certificate_extension_format_lines, size_of,
}

-- What a trust getter returns: None, or a list.
pub data TrustFlags : Type 0 where
  py_none : TrustFlags
  flag_list : List Object → TrustFlags

pub record Certificate : Type 0 where
  pub version : Option ℤ
  pub serial_number : Option Object
  pub signature_algorithm : Option AlgorithmId
  pub issuer : Option Object
  pub valid_not_before_str : Option Object
  pub valid_not_after_str : Option Object
  pub subject : Option Object
  pub subject_public_key_info : Option SubjectPublicKeyInfo
  pub extensions : Option (List CertificateExtension)
  pub ssl_trust_str : Option TrustFlags
  pub email_trust_str : Option TrustFlags
  pub signing_trust_str : Option TrustFlags
  pub signed_data : Option SignedData

-- The values of an attribute, by its OID: extensions, or others by their text.
pub data AttributeValues : Type 0 where
  extension_values : List (Option CertificateExtension) → AttributeValues
  any_values : List (Option Object) → AttributeValues

pub record CertAttribute : Type 0 where
  pub attr_type : Option Object
  pub attr_values : AttributeValues

pub record CertificateRequest : Type 0 where
  pub req_version : Option Object
  pub req_subject : Option Object
  pub req_public_key_info : Option SubjectPublicKeyInfo
  pub attributes : Option (List CertAttribute)

abbrev pub is_flag_list : TrustFlags → Bool
is_flag_list py_none = false
is_flag_list (flag_list flags) = true

abbrev pub n_values : AttributeValues → Object
n_values (extension_values values) = size_of values
n_values (any_values values) = size_of values

module _ (api : Api) where
  unfoldable pub certificate_summary_format_lines : Certificate → Formatter
  certificate_summary_format_lines cert = steps (
      checked cert.subject (value api 0 "Subject")
      ∷ checked cert.issuer (value api 0 "Issuer")
      ∷ checked cert.valid_not_before_str (λ not_before.
        checked cert.valid_not_after_str (λ not_after.
          checked (obj_sprintf api (codes "[%s] - [%s]") (not_before ∷ not_after ∷ []))
            (value api 0 "Validity")))
      ∷ [])

  -- The first number is the version plus one, the second the version.
  unfoldable pub version_lines : Option ℤ → Formatter
  version_lines version = checked version (λ n.
      checked (obj_sprintf api (codes "%d (%#x)") (integer (n +ℤ pos 1) ∷ integer n ∷ []))
        (value api 2 "Version"))

  unfoldable pub trust_list_lines : String → TrustFlags → Formatter
  trust_list_lines text py_none = steps []
  trust_list_lines text (flag_list flags) = steps (label api 3 text ∷ append_lines api 4 flags ∷ [])

  unfoldable pub trust_lines : Certificate → Formatter
  unfolding trust_list_lines
  trust_lines cert = checked cert.ssl_trust_str (λ ssl. checked cert.email_trust_str (λ email.
      checked cert.signing_trust_str (λ signing.
        if is_flag_list ssl || is_flag_list email || is_flag_list signing
        then steps (
            label api 2 "Certificate Trust Flags"
            ∷ trust_list_lines "SSL Flags" ssl
            ∷ trust_list_lines "Email Flags" email
            ∷ trust_list_lines "Object Signing Flags" signing
            ∷ [])
        else steps [])))

  -- The blank line behind an extension stands at level 0.
  unfoldable pub extensions_lines : List CertificateExtension → Formatter
  extensions_lines exts =
      each
        (λ i ext. steps (
          call_format_lines 2 (certificate_extension_format_lines api ext)
          ∷ at_level 0 (fmt_label_and_append api 0 none)
          ∷ []))
        0 exts

  unfoldable pub certificate_format_lines : Certificate → Formatter
  unfolding version_lines extensions_lines trust_lines
  certificate_format_lines cert = steps (
      label api 0 "Data"
      ∷ version_lines cert.version
      ∷ checked cert.serial_number (λ serial.
        checked (obj_sprintf api (codes "%d (%#x)") (serial ∷ serial ∷ []))
          (value api 2 "Serial Number"))
      ∷ checked cert.signature_algorithm (λ id. steps (
          label api 2 "Signature Algorithm"
          ∷ call_format_lines 3 (algorithm_id_format_lines api id)
          ∷ []))
      ∷ checked cert.issuer (value api 2 "Issuer")
      ∷ label api 2 "Validity"
      ∷ checked cert.valid_not_before_str (value api 3 "Not Before")
      ∷ checked cert.valid_not_after_str (value api 3 "Not After")
      ∷ checked cert.subject (value api 2 "Subject")
      ∷ label api 2 "Subject Public Key Info"
      ∷ checked cert.subject_public_key_info
          (λ info. call_format_lines 3 (subject_public_key_info_format_lines api info))
      ∷ checked cert.extensions (λ exts. steps (
          checked
            (api.unicode_from_format (codes "Signed Extensions: (%zd total)") (size_of exts ∷ []))
            (alone api 1)
          ∷ extensions_lines exts
          ∷ []))
      ∷ trust_lines cert
      ∷ label api 1 "Signature"
      ∷ checked cert.signed_data
          (λ signed. call_format_lines 2 (signed_data_format_lines api signed))
      ∷ [])

  unfoldable pub numbered_value : ℕ → Formatter
  numbered_value i =
      checked (api.unicode_from_format (codes "Value [%zd]") (integer (pos i) ∷ [])) (alone api 1)

  unfoldable pub values_lines : AttributeValues → Formatter
  unfolding numbered_value
  values_lines (extension_values values) =
      each
        (λ i ext. steps (
          numbered_value i
          ∷ checked ext (λ made. call_format_lines 2 (certificate_extension_format_lines api made))
          ∷ []))
        0 values
  values_lines (any_values values) =
      each (λ i obj. steps (numbered_value i ∷ checked obj (alone api 2) ∷ [])) 0 values

  unfoldable pub cert_attribute_format_lines : CertAttribute → Formatter
  cert_attribute_format_lines attr = steps (
      checked attr.attr_type (value api 0 "Type")
      ∷ checked
          (api.unicode_from_format (codes "Values (%zd total)") (n_values attr.attr_values ∷ []))
          (alone api 0)
      ∷ values_lines attr.attr_values
      ∷ [])

  -- The blank line behind an attribute stands at level 0.
  unfoldable pub attributes_lines : List CertAttribute → Formatter
  attributes_lines attrs =
      each
        (λ i attr. steps (
          checked (api.unicode_from_format (codes "Attribute [%zd]") (integer (pos i) ∷ []))
            (alone api 2)
          ∷ call_format_lines 3 (cert_attribute_format_lines attr)
          ∷ at_level 0 (fmt_label_and_append api 0 none)
          ∷ []))
        0 attrs

  unfoldable pub certificate_request_format_lines : CertificateRequest → Formatter
  certificate_request_format_lines req = steps (
      label api 1 "Data"
      ∷ checked req.req_version (λ version.
        checked (obj_sprintf api (codes "%d (%#x)") (version ∷ version ∷ []))
          (value api 2 "Version"))
      ∷ checked req.req_subject (value api 2 "Subject")
      ∷ label api 2 "Subject Public Key Info"
      ∷ checked req.req_public_key_info
          (λ info. call_format_lines 3 (subject_public_key_info_format_lines api info))
      ∷ checked req.attributes (λ attrs. steps (
          checked (api.unicode_from_format (codes "Attributes: (%zd total)") (size_of attrs ∷ []))
            (alone api 1)
          ∷ attributes_lines attrs
          ∷ []))
      ∷ [])
