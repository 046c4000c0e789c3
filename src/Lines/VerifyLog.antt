-- ===== src/Lines/VerifyLog.antt =====
-- The lines of a verification log: `CertVerifyLogNodeError_format_lines` and the `format_lines`
-- functions of CertVerifyLogNode and CertVerifyLog in src/py_nss.c.
use python_nss_ng.Prelude.{
  ℕ, suc, ◌+◌, ◌-◌, ◌^◌, Option, none, some, List, [], ◌∷◌, ◌==◌, if◌then◌else◌, ℤ, pos, codes,
}
use python_nss_ng.Format.{Object, integer, string}
use python_nss_ng.Errors.{NsprErrorDesc, Lookup, hit, miss, out_of_bounds, lookup_nspr_error}
use python_nss_ng.Lines.{
  Api, Formatter, steps, checked, call_format_lines, fmt_label_and_append, label, value,
}
use python_nss_ng.Lines.Certificates.{Certificate, certificate_summary_format_lines}

-- The cases of the `switch` on the error: what `key_usage_flags` and `cert_type_flags` answer, and
-- the issuer of the node's certificate.
pub data ErrorCase : Type 0 where
  inadequate_key_usage inadequate_cert_type : Option Object → ErrorCase
  issuer_error : Option Object → ErrorCase
  other_error : ErrorCase

-- `none` is a certificate of which no object can be made.
pub record LogNode : Type 0 where
  pub error : ℤ
  pub error_case : ErrorCase
  pub depth : ℕ
  pub certificate : Option Certificate

-- The entry of the table, or NULL. A search without an end or out of bounds counts as a failure.
abbrev pub error_object : Api → ℤ → Option Lookup → Option Object
error_object api error none = none
error_object api error (some out_of_bounds) = none
error_object api error (some (hit desc)) =
    api.unicode_from_format (codes "[%s] %s") (string desc.name ∷ string desc.string ∷ [])
error_object api error (some miss) =
    api.unicode_from_format (codes "Unknown error code %ld (%#lx)")
      (integer error ∷ integer error ∷ [])

module _ (api : Api) (table : List NsprErrorDesc) where
  unfoldable pub error_case_lines : ErrorCase → Formatter
  error_case_lines (inadequate_key_usage flags) = checked flags (value api 0 "Inadequate Key Usage")
  error_case_lines (inadequate_cert_type flags) = checked flags (value api 0 "Inadequate Cert Type")
  error_case_lines (issuer_error issuer) = checked issuer (value api 0 "Issuer")
  error_case_lines other_error = steps []

  unfoldable pub node_error_format_lines : LogNode → ℕ → Formatter
  unfolding error_case_lines
  node_error_format_lines node offset = call_format_lines offset (
      steps (
        checked (error_object api node.error (lookup_nspr_error table node.error))
          (value api 0 "Error")
        ∷ error_case_lines node.error_case
        ∷ []))

  unfoldable pub cert_verify_log_node_format_lines : LogNode → Formatter
  unfolding node_error_format_lines
  cert_verify_log_node_format_lines node = steps (
      label api 0 "Certificate"
      ∷ checked node.certificate
          (λ cert. call_format_lines 1 (certificate_summary_format_lines api cert))
      ∷ value api 0 "Depth" (integer (pos node.depth))
      ∷ node_error_format_lines node 0
      ∷ [])

  -- The certificate of a node whose depth is not the last one, and an empty line.
  unfoldable pub depth_lines : ℕ → LogNode → Formatter
  depth_lines depth node =
      if depth == node.depth
      then steps []
      else steps (
          checked
            (api.bytes_from_format (codes "Certificate at chain depth %u")
              (integer (pos node.depth) ∷ []))
            (λ text. fmt_label_and_append api 0 (some text))
          ∷ checked node.certificate
              (λ cert. call_format_lines 1 (certificate_summary_format_lines api cert))
          ∷ fmt_label_and_append api 0 none
          ∷ [])

  unfoldable pub node_lines : ℕ → ℕ → LogNode → Formatter
  unfolding depth_lines node_error_format_lines
  node_lines depth i node = steps (
      depth_lines depth node
      ∷ checked (api.bytes_from_format (codes "Validation Error #%zd") (integer (pos (i + 1)) ∷ []))
          (λ text. fmt_label_and_append api 1 (some text))
      ∷ node_error_format_lines node 2
      ∷ [])

  -- The loop, with the depth that was written last.
  unfoldable pub log_lines : ℕ → ℕ → List LogNode → Formatter
  unfolding node_lines
  log_lines depth i [] = steps []
  log_lines depth i (node ∷ nodes) =
      steps (node_lines depth i node ∷ log_lines node.depth (suc i) nodes ∷ [])

  -- The depth is an unsigned int that begins at ~0; the nodes are those of the log's list, `count`
  -- is its own field.
  unfoldable pub cert_verify_log_format_lines : ℤ → List LogNode → Formatter
  unfolding log_lines
  cert_verify_log_format_lines count nodes =
      steps (value api 0 "Validation Errors" (integer count) ∷ log_lines (2 ^ 32 - 1) 0 nodes ∷ [])
