-- ===== src/Lines/Printable.antt =====
-- All objects with a `format_lines` function, and `format`: `format_from_lines` of that function.
use python_nss_ng.Prelude.{
  ℕ, ◌<◌, ◌^◌, ◌==ℤ◌, ==ℤ_refl, ap, ◌∙◌, arith, All, Bytes, Bool, true, false, Option, none, some,
  List, ℤ, pos, ◌+◌, ◌≡◌, map,
}
use mathlib.Core.Option
use python_nss_ng.Format.{Line}
use python_nss_ng.Format.Size.{InRange, to_int_pos, FormatOutcome}
use python_nss_ng.Errors.{NsprErrorDesc}
use python_nss_ng.Lines.{
  Api, Formatter, Printed, failed, printed, called, fits_int, nss_fingerprint_format_lines,
  sec_item_format_lines,
}
use python_nss_ng.Lines.Keys.{
  AlgorithmId, KeyPqgParams, RsaPublicKey, DsaPublicKey, PublicKey, SubjectPublicKeyInfo,
  SignedData, algorithm_id_format_lines, keypqg_params_format_lines, rsa_public_key_format_lines,
  dsa_public_key_format_lines, public_key_format_lines, subject_public_key_info_format_lines,
  signed_data_format_lines,
}
use python_nss_ng.Lines.Extensions.{
  DistributionPoint, AuthorityInfoAccess, AuthKeyId, BasicConstraints, CertificateExtension,
  crl_distribution_pt_format_lines, crl_distribution_pts_format_lines,
  authority_info_access_format_lines, authority_info_accesses_format_lines,
  auth_key_id_format_lines, basic_constraints_format_lines, certificate_extension_format_lines,
}
use python_nss_ng.Lines.Certificates.{
  Certificate, CertAttribute, CertificateRequest, certificate_format_lines,
  cert_attribute_format_lines, certificate_request_format_lines,
}
use python_nss_ng.Lines.Tokens.{
  Slot, SymKey, InitParameters, DecodeItem, pk11_slot_format_lines, pk11_sym_key_format_lines,
  init_parameters_format_lines, pkcs12_decode_item_format_lines, pkcs12_decoder_format_lines,
}
use python_nss_ng.Lines.Ssl.{
  ChannelInfo, SuiteInfo, connection_info_format_lines, cipher_suite_information_format_lines,
  channel_information_format_lines,
}
use python_nss_ng.Lines.VerifyLog.{
  LogNode, cert_verify_log_node_format_lines, cert_verify_log_format_lines,
}
use python_nss_ng.Lines.Shape.{IsShaped, raise}
use python_nss_ng.Lines.Shape.Fields.{nss_fingerprint-IsShaped, sec_item-IsShaped}
use python_nss_ng.Lines.Shape.Keys
use python_nss_ng.Lines.Shape.Certificates
use python_nss_ng.Lines.Shape.Others

pub data Printable : Type 0 where
  fingerprint : Option Bytes → Printable
  sec_item : Option Bytes → Printable
  algorithm_id : AlgorithmId → Printable
  key_pqg_params : KeyPqgParams → Printable
  rsa_public_key : RsaPublicKey → Printable
  dsa_public_key : DsaPublicKey → Printable
  public_key : PublicKey → Printable
  subject_public_key_info : SubjectPublicKeyInfo → Printable
  signed_data : SignedData → Printable
  crl_distribution_pt : Option DistributionPoint → Printable
  crl_distribution_pts : List (Option (Option DistributionPoint)) → Printable
  authority_info_access : Option AuthorityInfoAccess → Printable
  authority_info_accesses : List (Option (Option AuthorityInfoAccess)) → Printable
  auth_key_id : Option AuthKeyId → Printable
  basic_constraints : BasicConstraints → Printable
  certificate_extension : CertificateExtension → Printable
  certificate : Certificate → Printable
  cert_attribute : CertAttribute → Printable
  certificate_request : CertificateRequest → Printable
  pk11_slot : Slot → Printable
  pk11_sym_key : SymKey → Printable
  init_parameters : InitParameters → Printable
  pkcs12_decode_item : DecodeItem → Printable
  pkcs12_decoder : List (Option DecodeItem) → Printable
  ssl_socket : Option ChannelInfo → Option SuiteInfo → Printable
  cipher_suite_information : SuiteInfo → Printable
  channel_information : ChannelInfo → Printable
  cert_verify_log_node : List NsprErrorDesc → LogNode → Printable
  cert_verify_log : List NsprErrorDesc → ℤ → List LogNode → Printable

-- Which function shows an object.
abbrev pub format_lines : Api → Printable → Formatter
format_lines api (fingerprint data_param) = nss_fingerprint_format_lines api data_param
format_lines api (sec_item octets) = sec_item_format_lines api octets
format_lines api (algorithm_id id) = algorithm_id_format_lines api id
format_lines api (key_pqg_params params) = keypqg_params_format_lines api params
format_lines api (rsa_public_key key) = rsa_public_key_format_lines api key
format_lines api (dsa_public_key key) = dsa_public_key_format_lines api key
format_lines api (public_key key) = public_key_format_lines api key
format_lines api (subject_public_key_info info) = subject_public_key_info_format_lines api info
format_lines api (signed_data signed) = signed_data_format_lines api signed
format_lines api (crl_distribution_pt pt) = crl_distribution_pt_format_lines api pt
format_lines api (crl_distribution_pts pts) = crl_distribution_pts_format_lines api pts
format_lines api (authority_info_access aia) = authority_info_access_format_lines api aia
format_lines api (authority_info_accesses aias) = authority_info_accesses_format_lines api aias
format_lines api (auth_key_id id) = auth_key_id_format_lines api id
format_lines api (basic_constraints bc) = basic_constraints_format_lines api bc
format_lines api (certificate_extension ext) = certificate_extension_format_lines api ext
format_lines api (certificate cert) = certificate_format_lines api cert
format_lines api (cert_attribute attr) = cert_attribute_format_lines api attr
format_lines api (certificate_request req) = certificate_request_format_lines api req
format_lines api (pk11_slot slot) = pk11_slot_format_lines api slot
format_lines api (pk11_sym_key key) = pk11_sym_key_format_lines api key
format_lines api (init_parameters params) = init_parameters_format_lines api params
format_lines api (pkcs12_decode_item item) = pkcs12_decode_item_format_lines api item
format_lines api (pkcs12_decoder items) = pkcs12_decoder_format_lines api items
format_lines api (ssl_socket channel suite) = connection_info_format_lines api channel suite
format_lines api (cipher_suite_information info) = cipher_suite_information_format_lines api info
format_lines api (channel_information info) = channel_information_format_lines api info
format_lines api (cert_verify_log_node table node) =
    cert_verify_log_node_format_lines api table node
format_lines api (cert_verify_log table count nodes) =
    cert_verify_log_format_lines api table count nodes

-- Whether lines without texts are raised with the level: not where they are written at level 0.
abbrev pub raises_blanks : Printable → Bool
raises_blanks (certificate cert) = false
raises_blanks (certificate_request req) = false
raises_blanks _ = true

shape : (api : Api) (p : Printable) → IsShaped (raises_blanks p) (format_lines api p)
shape api (fingerprint data_param) = nss_fingerprint-IsShaped api true data_param
shape api (sec_item octets) = sec_item-IsShaped api true octets
shape api (algorithm_id id) = Keys.algorithm_id-IsShaped api true id
shape api (key_pqg_params params) = Keys.keypqg-IsShaped api true params
shape api (rsa_public_key key) = Keys.rsa-IsShaped api true key
shape api (dsa_public_key key) = Keys.dsa-IsShaped api true key
shape api (public_key key) = Keys.public_key-IsShaped api true key
shape api (subject_public_key_info info) = Keys.key_info-IsShaped api true info
shape api (signed_data signed) = Keys.signed_data-IsShaped api true signed
shape api (crl_distribution_pt pt) = Certificates.crl_point-IsShaped api true pt
shape api (crl_distribution_pts pts) = Certificates.crl_points-IsShaped api true pts
shape api (authority_info_access aia) = Certificates.info_access-IsShaped api true aia
shape api (authority_info_accesses aias) = Certificates.info_accesses-IsShaped api true aias
shape api (auth_key_id id) = Certificates.auth_key_id-IsShaped api true id
shape api (basic_constraints bc) = Certificates.constraints-IsShaped api true bc
shape api (certificate_extension ext) = Certificates.extension-IsShaped api true ext
shape api (certificate cert) = Certificates.certificate-IsShaped api cert
shape api (cert_attribute attr) = Certificates.attribute-IsShaped api true attr
shape api (certificate_request req) = Certificates.request-IsShaped api req
shape api (pk11_slot slot) = Others.slot-IsShaped api true slot
shape api (pk11_sym_key key) = Others.sym_key-IsShaped api true key
shape api (init_parameters params) = Others.parameters-IsShaped api true params
shape api (pkcs12_decode_item item) = Others.item-IsShaped api item
shape api (pkcs12_decoder items) = Others.decoder-IsShaped api items
shape api (ssl_socket channel suite) = Others.connection-IsShaped api true channel suite
shape api (cipher_suite_information info) = Others.suite-IsShaped api true info
shape api (channel_information info) = Others.channel-IsShaped api true info
shape api (cert_verify_log_node table node) = Others.node-IsShaped api table node
shape api (cert_verify_log table count nodes) = Others.log-IsShaped api table count nodes

-- Lines that lie in the ranges of the C ints for a width, or a failure.
abbrev pub AllInRange : ℕ → Option (List Line) → Type 0
AllInRange width none = Unit
AllInRange width (some ls) = All (InRange width) ls

fits : (n : ℕ) → n < 2 ^ 31 → fits_int (pos n) ≡ true
fits n h = ap (λ z. z ==ℤ pos n) (to_int_pos n h) ∙ ==ℤ_refl (pos n)

-- Whatever the getters, Python and NSS answer: for every object with a `format_lines` function, if
-- the level that it is called with and the levels of all its lines fit a C int, the lines for that
-- level, `level + k`, are the lines for `level`, each `k` levels higher and otherwise the same,
-- and the call fails at both levels or at none. In the lines of a certificate and of a certificate
-- request the lines without texts are not raised.
pub format_lines-IsRelative :
    (api : Api) (p : Printable) (k level : ℕ)
    → level + k < 2 ^ 31
    → AllInRange 1 (called (format_lines api p) (level + k))
    → called (format_lines api p) (level + k)
      ≡ Option.map (map (raise (raises_blanks p) k)) (called (format_lines api p) level)
unfolding called
format_lines-IsRelative api p k level below in_range =
    rw (called, fits (level + k) below, fits level (omega arith)) ((shape api p).relative k level)

-- A failure of the lines, or a text that fills its buffer.
abbrev pub PrintOutcome : Option (List Line) → Printed → Type 0
PrintOutcome none answer = answer ≡ failed
PrintOutcome (some ls) failed = ⊥
PrintOutcome (some ls) (printed text) = FormatOutcome text
