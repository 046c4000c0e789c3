-- ===== src/Lines/Extensions.antt =====
-- The lines of certificate extensions: the `format_lines` functions of CRLDistributionPt and
-- CRLDistributionPts, AuthorityInfoAccess and AuthorityInfoAccesses, AuthKeyID, BasicConstraints
-- and CertificateExtension in src/py_nss.c.
--
-- `none` is a getter or a decoder that fails. A record's value is there unless the pointer that the
-- code tests first is NULL.
use Prim.Native.String.{String}
use python_nss_ng.Prelude.{
  ◌+◌, Bytes, Bool, Option, none, some, List, [], ◌∷◌, length, if◌then◌else◌, ℤ, pos, codes,
}
use python_nss_ng.Format.{Object, integer, Source, sequence, single}
use python_nss_ng.Der.Tag.{sec_strip_tag_and_length}
use python_nss_ng.Lines.{
  Api, Formatter, steps, checked, call_format_lines, each, label, value, alone, append_lines,
  append_hex,
}

pub data PointName : Type 0 where
  general_name : Option (List Object) → PointName
  relative_distinguished_name : Option Object → PointName
  unknown_point : PointName

pub record DistributionPoint : Type 0 where
  pub point_name : PointName
  pub crl_issuer : Option Object
  pub reasons : Option Object

pub record AuthorityInfoAccess : Type 0 where
  pub method : Option Object
  pub location : Option Object

pub record AuthKeyId : Type 0 where
  pub key_id : Option Bytes
  pub serial_number : Option Object
  pub general_names : Option (List Object)

pub record BasicConstraints : Type 0 where
  pub is_ca : Bool
  pub path_len_constraint : ℤ

-- By the tag of the extension's OID; the octets are the extension's DER value. The usages, types and names are what `cert_x509_key_usage`,
-- `cert_x509_ext_key_usage`, `cert_x509_cert_type` and `cert_x509_alt_name` return; the members of
-- the two sequences are what their `item` functions return.
pub data ExtensionValue : Type 0 where
  key_usage cert_type alt_name : Option Source → ExtensionValue
  subject_key_id : Bytes → ExtensionValue
  crl_dist_points : Option (List (Option (Option DistributionPoint))) → ExtensionValue
  auth_info_access : Option (List (Option (Option AuthorityInfoAccess))) → ExtensionValue
  auth_key_id : Option (Option AuthKeyId) → ExtensionValue
  basic_constraints : Option BasicConstraints → ExtensionValue
  other_extension : ExtensionValue

pub record CertificateExtension : Type 0 where
  pub extension_name : Option Object
  pub critical : Option Object
  pub extension_value : ExtensionValue

-- What `make_line_fmt_tuples` gives a line each.
abbrev pub source_objects : Source → List Object
source_objects (sequence objs) = objs
source_objects (single obj) = obj ∷ []

abbrev pub size_of : {A : Type 0} → List A → Object
size_of xs = integer (pos (length xs))

module _ (api : Api) where
  unfoldable pub general_names_lines : Option (List Object) → Formatter
  general_names_lines names = checked names (λ objs.
      checked (api.unicode_from_format (codes "General Names: [%zd total]") (size_of objs ∷ []))
        (λ total. steps (alone api 0 total ∷ append_lines api 1 objs ∷ [])))

  unfoldable pub point_name_lines : PointName → Formatter
  point_name_lines (general_name names) = general_names_lines names
  point_name_lines (relative_distinguished_name rdn) =
      checked rdn (value api 0 "Relative Distinguished Name")
  point_name_lines unknown_point = λ level. none

  unfoldable pub crl_distribution_pt_format_lines : Option DistributionPoint → Formatter
  crl_distribution_pt_format_lines none = steps []
  crl_distribution_pt_format_lines (some pt) = steps (
      point_name_lines pt.point_name
      ∷ checked pt.crl_issuer (value api 0 "Issuer")
      ∷ checked pt.reasons (value api 0 "Reasons")
      ∷ [])

  unfoldable pub crl_distribution_pts_format_lines :
      List (Option (Option DistributionPoint)) → Formatter
  crl_distribution_pts_format_lines pts = steps (
      checked
        (api.unicode_from_format (codes "CRL Distribution Points: [%zd total]") (size_of pts ∷ []))
        (alone api 0)
      ∷ each
          (λ i item. steps (
            checked (api.unicode_from_format (codes "Point [%zd]:") (integer (pos (i + 1)) ∷ []))
              (alone api 1)
            ∷ checked item (λ pt. call_format_lines 2 (crl_distribution_pt_format_lines pt))
            ∷ []))
          0 pts
      ∷ [])

  unfoldable pub authority_info_access_format_lines : Option AuthorityInfoAccess → Formatter
  authority_info_access_format_lines none = steps []
  authority_info_access_format_lines (some aia) = steps (
      checked aia.method (value api 0 "Method")
      ∷ checked aia.location (value api 0 "Location")
      ∷ [])

  unfoldable pub authority_info_accesses_format_lines :
      List (Option (Option AuthorityInfoAccess)) → Formatter
  authority_info_accesses_format_lines aias = steps (
      checked
        (api.unicode_from_format (codes "Authority Information Access: [%zd total]")
          (size_of aias ∷ []))
        (alone api 0)
      ∷ each
          (λ i item. steps (
            checked (api.unicode_from_format (codes "Info [%zd]:") (integer (pos (i + 1)) ∷ []))
              (alone api 1)
            ∷ checked item (λ aia. call_format_lines 2 (authority_info_access_format_lines aia))
            ∷ []))
          0 aias
      ∷ [])

  unfoldable pub auth_key_id_format_lines : Option AuthKeyId → Formatter
  auth_key_id_format_lines none = steps []
  auth_key_id_format_lines (some id) = steps (
      label api 0 "Key ID"
      ∷ checked id.key_id (append_hex api 1)
      ∷ checked id.serial_number (value api 0 "Serial Number")
      ∷ general_names_lines id.general_names
      ∷ [])

  unfoldable pub basic_constraints_format_lines : BasicConstraints → Formatter
  basic_constraints_format_lines bc = steps (
      value api 0 "Is CA" (if bc.is_ca then api.py_true else api.py_false)
      ∷ checked (api.unicode_from_format (codes "%d") (integer bc.path_len_constraint ∷ []))
          (value api 0 "Path Length")
      ∷ [])

  -- A label, and the lines of `make_line_fmt_tuples(level + 1, obj)`; to be given the list that this
  -- has released counts as a failure.
  unfoldable pub labelled_lines : String → Option Source → Formatter
  labelled_lines text found =
      steps (
        label api 0 text
        ∷ checked found (λ source. append_lines api 1 (source_objects source))
        ∷ [])

  unfoldable pub extension_value_lines : ExtensionValue → Formatter
  unfolding labelled_lines
  extension_value_lines (key_usage usages) = labelled_lines "Usages" usages
  extension_value_lines (cert_type types) = labelled_lines "Types" types
  extension_value_lines (alt_name names) = labelled_lines "Names" names
  extension_value_lines (subject_key_id item) =
      steps (
        label api 0 "Data" ∷ checked (sec_strip_tag_and_length (some item)) (append_hex api 1) ∷ [])
  extension_value_lines (crl_dist_points pts) =
      checked pts (λ decoded. call_format_lines 0 (crl_distribution_pts_format_lines decoded))
  extension_value_lines (auth_info_access aias) =
      checked aias (λ decoded. call_format_lines 0 (authority_info_accesses_format_lines decoded))
  extension_value_lines (auth_key_id id) =
      checked id (λ decoded. call_format_lines 0 (auth_key_id_format_lines decoded))
  extension_value_lines (basic_constraints bc) =
      checked bc (λ decoded. call_format_lines 0 (basic_constraints_format_lines decoded))
  extension_value_lines other_extension = steps []

  unfoldable pub certificate_extension_format_lines : CertificateExtension → Formatter
  certificate_extension_format_lines ext = steps (
      checked ext.extension_name (value api 0 "Name")
      ∷ checked ext.critical (value api 0 "Critical")
      ∷ extension_value_lines ext.extension_value
      ∷ [])
