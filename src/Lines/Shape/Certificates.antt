-- ===== src/Lines/Shape/Certificates.antt =====
-- The levels of the lines of extensions, certificates and certificate requests.
use Prim.Native.String.{String}
use python_nss_ng.Prelude.{ℕ, Bool, false, Option, none, some, List, ℤ}
use python_nss_ng.Format.{Source}
use python_nss_ng.Lines.{Api}
use python_nss_ng.Lines.Shape.{
  IsShaped, shape_rules, no_steps-IsShaped, never-IsShaped, blank_line-IsShaped,
}
use python_nss_ng.Lines.Shape.Fields.{append_hex-IsShaped}
use python_nss_ng.Lines.Shape.Keys.{algorithm_id-IsShaped, key_info-IsShaped, signed_data-IsShaped}
use python_nss_ng.Lines.Extensions.{
  PointName, general_name, relative_distinguished_name, unknown_point, DistributionPoint,
  AuthorityInfoAccess, AuthKeyId, BasicConstraints, ExtensionValue, key_usage, cert_type, alt_name,
  subject_key_id, crl_dist_points, auth_info_access, auth_key_id, basic_constraints,
  other_extension, CertificateExtension, general_names_lines, point_name_lines,
  crl_distribution_pt_format_lines, crl_distribution_pts_format_lines,
  authority_info_access_format_lines, authority_info_accesses_format_lines,
  auth_key_id_format_lines, basic_constraints_format_lines, labelled_lines, extension_value_lines,
  certificate_extension_format_lines,
}
use python_nss_ng.Lines.Certificates.{
  TrustFlags, py_none, flag_list, Certificate, AttributeValues, extension_values, any_values,
  CertAttribute, CertificateRequest, certificate_summary_format_lines, version_lines,
  trust_list_lines, trust_lines, extensions_lines, certificate_format_lines, numbered_value,
  values_lines, cert_attribute_format_lines, attributes_lines, certificate_request_format_lines,
}
use python_nss_ng.Format.{Object}

module _ (api : Api) (blanks : Bool) where
  names-IsShaped : (names : Option (List Object)) → IsShaped blanks (general_names_lines api names)
  unfolding general_names_lines
  names-IsShaped names = search (shape_rules) depth 20

  point_name-IsShaped : (name : PointName) → IsShaped blanks (point_name_lines api name)
  unfolding point_name_lines
  point_name-IsShaped (general_name names) = names-IsShaped names
  point_name-IsShaped (relative_distinguished_name rdn) = search (shape_rules)
  point_name-IsShaped unknown_point = never-IsShaped

  pub crl_point-IsShaped :
      (pt : Option DistributionPoint) → IsShaped blanks (crl_distribution_pt_format_lines api pt)
  unfolding crl_distribution_pt_format_lines
  crl_point-IsShaped none = no_steps-IsShaped
  crl_point-IsShaped (some pt) = search (shape_rules, point_name-IsShaped) depth 20

  pub crl_points-IsShaped :
      (pts : List (Option (Option DistributionPoint)))
      → IsShaped blanks (crl_distribution_pts_format_lines api pts)
  unfolding crl_distribution_pts_format_lines
  crl_points-IsShaped pts = search (shape_rules, crl_point-IsShaped) depth 20

  pub info_access-IsShaped :
      (aia : Option AuthorityInfoAccess)
      → IsShaped blanks (authority_info_access_format_lines api aia)
  unfolding authority_info_access_format_lines
  info_access-IsShaped none = no_steps-IsShaped
  info_access-IsShaped (some aia) = search (shape_rules) depth 20

  pub info_accesses-IsShaped :
      (aias : List (Option (Option AuthorityInfoAccess)))
      → IsShaped blanks (authority_info_accesses_format_lines api aias)
  unfolding authority_info_accesses_format_lines
  info_accesses-IsShaped aias = search (shape_rules, info_access-IsShaped) depth 20

  pub auth_key_id-IsShaped :
      (id : Option AuthKeyId) → IsShaped blanks (auth_key_id_format_lines api id)
  unfolding auth_key_id_format_lines
  auth_key_id-IsShaped none = no_steps-IsShaped
  auth_key_id-IsShaped (some id) =
      search (shape_rules, append_hex-IsShaped, names-IsShaped) depth 20

  pub constraints-IsShaped :
      (bc : BasicConstraints) → IsShaped blanks (basic_constraints_format_lines api bc)
  unfolding basic_constraints_format_lines
  constraints-IsShaped bc = search (shape_rules) depth 20

  labelled-IsShaped :
      (text : String) (found : Option Source) → IsShaped blanks (labelled_lines api text found)
  unfolding labelled_lines
  labelled-IsShaped text found = search (shape_rules) depth 20

  ext_value-IsShaped : (v : ExtensionValue) → IsShaped blanks (extension_value_lines api v)
  unfolding extension_value_lines
  ext_value-IsShaped (key_usage found) = labelled-IsShaped "Usages" found
  ext_value-IsShaped (cert_type found) = labelled-IsShaped "Types" found
  ext_value-IsShaped (alt_name found) = labelled-IsShaped "Names" found
  ext_value-IsShaped (subject_key_id item) = search (shape_rules, append_hex-IsShaped) depth 20
  ext_value-IsShaped (crl_dist_points pts) = search (shape_rules, crl_points-IsShaped) depth 20
  ext_value-IsShaped (auth_info_access aias) = search (shape_rules, info_accesses-IsShaped) depth 20
  ext_value-IsShaped (auth_key_id id) = search (shape_rules, auth_key_id-IsShaped) depth 20
  ext_value-IsShaped (basic_constraints bc) = search (shape_rules, constraints-IsShaped) depth 20
  ext_value-IsShaped other_extension = no_steps-IsShaped

  pub extension-IsShaped :
      (ext : CertificateExtension) → IsShaped blanks (certificate_extension_format_lines api ext)
  unfolding certificate_extension_format_lines
  extension-IsShaped ext = search (shape_rules, ext_value-IsShaped) depth 20

  pub summary-IsShaped :
      (cert : Certificate) → IsShaped blanks (certificate_summary_format_lines api cert)
  unfolding certificate_summary_format_lines
  summary-IsShaped cert = search (shape_rules) depth 20

  version-IsShaped : (version : Option ℤ) → IsShaped blanks (version_lines api version)
  unfolding version_lines
  version-IsShaped version = search (shape_rules) depth 20

  trust_list-IsShaped :
      (text : String) (flags : TrustFlags) → IsShaped blanks (trust_list_lines api text flags)
  unfolding trust_list_lines
  trust_list-IsShaped text py_none = no_steps-IsShaped
  trust_list-IsShaped text (flag_list flags) = search (shape_rules) depth 20

  trust-IsShaped : (cert : Certificate) → IsShaped blanks (trust_lines api cert)
  unfolding trust_lines
  trust-IsShaped cert = search (shape_rules, trust_list-IsShaped) depth 20

  number-IsShaped : (i : ℕ) → IsShaped blanks (numbered_value api i)
  unfolding numbered_value
  number-IsShaped i = search (shape_rules) depth 20

  values-IsShaped : (values : AttributeValues) → IsShaped blanks (values_lines api values)
  unfolding values_lines
  values-IsShaped (extension_values values) =
      search (shape_rules, number-IsShaped, extension-IsShaped) depth 20
  values-IsShaped (any_values values) = search (shape_rules, number-IsShaped) depth 20

  pub attribute-IsShaped :
      (attr : CertAttribute) → IsShaped blanks (cert_attribute_format_lines api attr)
  unfolding cert_attribute_format_lines
  attribute-IsShaped attr = search (shape_rules, values-IsShaped) depth 20

-- The blank lines behind the extensions and the attributes stay at level 0.
module _ (api : Api) where
  extensions-IsShaped :
      (exts : List CertificateExtension) → IsShaped false (extensions_lines api exts)
  unfolding extensions_lines
  extensions-IsShaped exts = search (shape_rules, extension-IsShaped, blank_line-IsShaped) depth 20

  pub certificate-IsShaped :
      (cert : Certificate) → IsShaped false (certificate_format_lines api cert)
  unfolding certificate_format_lines
  certificate-IsShaped cert =
      search
        (
          shape_rules, version-IsShaped, algorithm_id-IsShaped, key_info-IsShaped,
          extensions-IsShaped, trust-IsShaped, signed_data-IsShaped,
        )
        depth 40

  attributes-IsShaped : (attrs : List CertAttribute) → IsShaped false (attributes_lines api attrs)
  unfolding attributes_lines
  attributes-IsShaped attrs = search (shape_rules, attribute-IsShaped, blank_line-IsShaped) depth 20

  pub request-IsShaped :
      (req : CertificateRequest) → IsShaped false (certificate_request_format_lines api req)
  unfolding certificate_request_format_lines
  request-IsShaped req = search (shape_rules, key_info-IsShaped, attributes-IsShaped) depth 40
