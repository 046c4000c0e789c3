-- ===== src/Lines/Shape/Others.antt =====
-- The levels of the lines of tokens, PKCS 12 items, SSL information and verification logs.
use Prim.Native.String.{String}
use python_nss_ng.Prelude.{ℕ, suc, Bytes, Bool, true, Option, List, [], ◌∷◌, ℤ}
use python_nss_ng.Errors.{NsprErrorDesc}
use python_nss_ng.Lines.{Api}
use python_nss_ng.Lines.Shape.{
  IsShaped, shape_rules, steps-IsShaped, no_steps-IsShaped, any_label-IsShaped, any_value-IsShaped,
}
use python_nss_ng.Lines.Shape.Fields.{append_hex-IsShaped}
use python_nss_ng.Lines.Shape.Certificates.{summary-IsShaped}
use python_nss_ng.Lines.Tokens.{
  Slot, KeyData, key_octets, key_error, SymKey, InitParameters, Bag, cert_bag, key_bag,
  shrouded_key_bag, other_bag, DecodeItem, disabled_lines, pk11_slot_format_lines, key_data_lines,
  pk11_sym_key_format_lines, init_parameters_format_lines, name_and_algorithm_lines, bag_lines,
  pkcs12_decode_item_format_lines, pkcs12_decoder_format_lines,
}
use python_nss_ng.Lines.Ssl.{
  ChannelInfo, SuiteInfo, protocol_version_lines, bits_lines, named_number_lines,
  connection_info_format_lines, cipher_suite_information_format_lines,
  channel_information_format_lines,
}
use python_nss_ng.Lines.VerifyLog.{
  ErrorCase, inadequate_key_usage, inadequate_cert_type, issuer_error, other_error, LogNode,
  error_case_lines, node_error_format_lines, cert_verify_log_node_format_lines, depth_lines,
  node_lines, log_lines, cert_verify_log_format_lines,
}

module _ (api : Api) (blanks : Bool) where
  disabled-IsShaped : (slot : Slot) → IsShaped blanks (disabled_lines api slot)
  unfolding disabled_lines
  disabled-IsShaped slot = search (shape_rules) depth 20

  pub slot-IsShaped : (slot : Slot) → IsShaped blanks (pk11_slot_format_lines api slot)
  unfolding pk11_slot_format_lines
  slot-IsShaped slot = search (shape_rules, disabled-IsShaped) depth 40

  key_data-IsShaped : (k : KeyData) → IsShaped blanks (key_data_lines api k)
  unfolding key_data_lines
  key_data-IsShaped (key_octets octets) = search (shape_rules, append_hex-IsShaped) depth 20
  key_data-IsShaped (key_error text) = search (shape_rules)

  pub sym_key-IsShaped : (key : SymKey) → IsShaped blanks (pk11_sym_key_format_lines api key)
  unfolding pk11_sym_key_format_lines
  sym_key-IsShaped key = search (shape_rules, key_data-IsShaped, slot-IsShaped) depth 20

  pub parameters-IsShaped :
      (params : InitParameters) → IsShaped blanks (init_parameters_format_lines api params)
  unfolding init_parameters_format_lines
  parameters-IsShaped params = search (shape_rules) depth 40

  protocol-IsShaped :
      (text : String) (channel : ChannelInfo)
      → IsShaped blanks (protocol_version_lines api text channel)
  unfolding protocol_version_lines
  protocol-IsShaped text channel = search (shape_rules) depth 20

  bits-IsShaped :
      (text : String) (bits : ℕ) (name : Bytes) → IsShaped blanks (bits_lines api text bits name)
  unfolding bits_lines
  bits-IsShaped text bits name = search (shape_rules) depth 20

  named-IsShaped :
      (offset : ℕ) (text : String) (name : Bytes) (n : ℕ)
      → IsShaped blanks (named_number_lines api offset text name n)
  unfolding named_number_lines
  named-IsShaped offset text name n = search (shape_rules) depth 20

  pub connection-IsShaped :
      (channel : Option ChannelInfo) (suite : Option SuiteInfo)
      → IsShaped blanks (connection_info_format_lines api channel suite)
  unfolding connection_info_format_lines
  connection-IsShaped channel suite =
      search (shape_rules, protocol-IsShaped, bits-IsShaped) depth 30

  pub suite-IsShaped :
      (info : SuiteInfo) → IsShaped blanks (cipher_suite_information_format_lines api info)
  unfolding cipher_suite_information_format_lines
  suite-IsShaped info = search (shape_rules, named-IsShaped) depth 40

  pub channel-IsShaped :
      (info : ChannelInfo) → IsShaped blanks (channel_information_format_lines api info)
  unfolding channel_information_format_lines
  channel-IsShaped info =
      search (shape_rules, protocol-IsShaped, named-IsShaped, append_hex-IsShaped) depth 40

-- Here the lines without texts are raised.
module _ (api : Api) where
  name_and_algorithm-IsShaped :
      (item : DecodeItem) → IsShaped true (name_and_algorithm_lines api item)
  unfolding name_and_algorithm_lines
  name_and_algorithm-IsShaped item = search (shape_rules) depth 20

  bag-IsShaped : (item : DecodeItem) (b : Bag) → IsShaped true (bag_lines api item b)
  unfolding bag_lines
  bag-IsShaped item (cert_bag has_key) =
      search (shape_rules, any_value-IsShaped, name_and_algorithm-IsShaped) depth 20
  bag-IsShaped item shrouded_key_bag = search (shape_rules, name_and_algorithm-IsShaped) depth 20
  bag-IsShaped item key_bag = search (shape_rules, name_and_algorithm-IsShaped) depth 20
  bag-IsShaped item other_bag = search (shape_rules)

  pub item-IsShaped : (item : DecodeItem) → IsShaped true (pkcs12_decode_item_format_lines api item)
  unfolding pkcs12_decode_item_format_lines
  item-IsShaped item = search (shape_rules, bag-IsShaped) depth 20

  pub decoder-IsShaped :
      (items : List (Option DecodeItem)) → IsShaped true (pkcs12_decoder_format_lines api items)
  unfolding pkcs12_decoder_format_lines
  decoder-IsShaped items = search (shape_rules, any_label-IsShaped, item-IsShaped) depth 20

module _ (api : Api) (table : List NsprErrorDesc) where
  case-IsShaped : (c : ErrorCase) → IsShaped true (error_case_lines api table c)
  unfolding error_case_lines
  case-IsShaped (inadequate_key_usage flags) = search (shape_rules)
  case-IsShaped (inadequate_cert_type flags) = search (shape_rules)
  case-IsShaped (issuer_error issuer) = search (shape_rules)
  case-IsShaped other_error = no_steps-IsShaped

  error-IsShaped :
      (node : LogNode) (offset : ℕ) → IsShaped true (node_error_format_lines api table node offset)
  unfolding node_error_format_lines
  error-IsShaped node offset = search (shape_rules, case-IsShaped) depth 20

  pub node-IsShaped :
      (node : LogNode) → IsShaped true (cert_verify_log_node_format_lines api table node)
  unfolding cert_verify_log_node_format_lines
  node-IsShaped node = search (shape_rules, summary-IsShaped, error-IsShaped) depth 20

  depth-IsShaped : (n : ℕ) (node : LogNode) → IsShaped true (depth_lines api table n node)
  unfolding depth_lines
  depth-IsShaped n node = search (shape_rules, any_label-IsShaped, summary-IsShaped) depth 20

  entry-IsShaped : (n i : ℕ) (node : LogNode) → IsShaped true (node_lines api table n i node)
  unfolding node_lines
  entry-IsShaped n i node = search (shape_rules, depth-IsShaped, error-IsShaped) depth 20

  nodes-IsShaped : (n i : ℕ) (nodes : List LogNode) → IsShaped true (log_lines api table n i nodes)
  unfolding log_lines
  nodes-IsShaped n i [] = no_steps-IsShaped
  nodes-IsShaped n i (node ∷ nodes) =
      steps-IsShaped (node_lines api table n i node)
        (log_lines api table node.depth (suc i) nodes ∷ []) (entry-IsShaped n i node)
        (steps-IsShaped (log_lines api table node.depth (suc i) nodes) []
          (nodes-IsShaped node.depth (suc i) nodes) no_steps-IsShaped)

  pub log-IsShaped :
      (count : ℤ) (nodes : List LogNode)
      → IsShaped true (cert_verify_log_format_lines api table count nodes)
  unfolding cert_verify_log_format_lines
  log-IsShaped count nodes = search (shape_rules, nodes-IsShaped) depth 20
