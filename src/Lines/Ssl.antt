-- ===== src/Lines/Ssl.antt =====
-- The lines of src/py_ssl.c: `SSLSocket_connection_info_format_lines`,
-- `SSLCipherSuiteInformation_format_lines` and `SSLChannelInformation_format_lines`.
--
-- Texts of NSS are octets; `none` is a call that fails. The version's text is what
-- `ssl_version_to_repr_kind` answers for the kind AsString, in UTF-8.
use Prim.Native.String.{String}
use python_nss_ng.Prelude.{ℕ, ◌/◌, ◌%◌, Bytes, Bool, Option, [], ◌∷◌, if◌then◌else◌, pos, codes}
use python_nss_ng.Format.{Object, integer, string}
use python_nss_ng.Lines.{Api, Formatter, steps, checked, label, value, append_hex}

-- SSLChannelInfo and SSLCipherSuiteInfo, as far as they are shown.
pub record ChannelInfo : Type 0 where
  pub protocol_version : ℕ
  pub version_text : Option Bytes
  pub cipher_suite : ℕ
  pub suite_name : Option Bytes
  pub auth_key_bits : ℕ
  pub kea_key_bits : ℕ
  pub creation_time : Option Object
  pub last_access_time : Option Object
  pub expiration_time : Option Object
  pub compression_method_name : Bytes
  pub compression_method : ℕ
  pub session_id : Bytes

pub record SuiteInfo : Type 0 where
  pub cipher_suite_name : Bytes
  pub suite_number : ℕ
  pub auth_algorithm_name : Bytes
  pub auth_algorithm : ℕ
  pub kea_type_name : Bytes
  pub kea_type : ℕ
  pub sym_cipher_name : Bytes
  pub sym_cipher : ℕ
  pub sym_key_bits : ℕ
  pub effective_key_bits : ℕ
  pub sym_key_space : ℕ
  pub mac_algorithm_name : Bytes
  pub mac_algorithm : ℕ
  pub mac_bits : ℕ
  pub is_fips : Bool
  pub is_exportable : Bool
  pub nonstandard : Bool

abbrev pub number : ℕ → Object
number n = integer (pos n)

abbrev pub truth_text : Bool → Object
truth_text b = string (if b then codes "True" else codes "False")

module _ (api : Api) where
  -- The version's two octets and its text.
  unfoldable pub protocol_version_lines : String → ChannelInfo → Formatter
  protocol_version_lines text channel = checked channel.version_text (λ version.
      checked
        (api.unicode_from_format (codes "%d.%d (%s)") (
          number (channel.protocol_version / 256)
          ∷ number (channel.protocol_version % 256)
          ∷ string version
          ∷ []))
        (value api 0 text))

  unfoldable pub bits_lines : String → ℕ → Bytes → Formatter
  bits_lines text bits name =
      checked (api.unicode_from_format (codes "%d-bit %s") (number bits ∷ string name ∷ []))
        (value api 0 text)

  unfoldable pub named_number_lines : ℕ → String → Bytes → ℕ → Formatter
  named_number_lines offset text name n =
      checked (api.unicode_from_format (codes "%s (0x%x)") (string name ∷ number n ∷ []))
        (value api offset text)

  -- `none` is a failure of SSL_GetChannelInfo or SSL_GetCipherSuiteInfo.
  unfoldable pub connection_info_format_lines : Option ChannelInfo → Option SuiteInfo → Formatter
  unfolding protocol_version_lines bits_lines
  connection_info_format_lines channel_info suite_info = checked channel_info (λ channel.
      checked suite_info (λ suite. steps (
        protocol_version_lines "SSL Protocol Version" channel
        ∷ bits_lines "Cipher" suite.effective_key_bits suite.sym_cipher_name
        ∷ bits_lines "MAC" suite.mac_bits suite.mac_algorithm_name
        ∷ bits_lines "Auth" channel.auth_key_bits suite.auth_algorithm_name
        ∷ bits_lines "Key Exchange" channel.kea_key_bits suite.kea_type_name
        ∷ value api 0 "Compression" (string channel.compression_method_name)
        ∷ [])))

  unfoldable pub cipher_suite_information_format_lines : SuiteInfo → Formatter
  unfolding named_number_lines
  cipher_suite_information_format_lines info = steps (
      named_number_lines 0 "Cipher Suite" info.cipher_suite_name info.suite_number
      ∷ named_number_lines 1 "Auth Algorithm" info.auth_algorithm_name info.auth_algorithm
      ∷ named_number_lines 1 "Key Exchange Type" info.kea_type_name info.kea_type
      ∷ named_number_lines 1 "Symmetric Cipher" info.sym_cipher_name info.sym_cipher
      ∷ value api 1 "Symmetric Key Bits" (number info.sym_key_bits)
      ∷ value api 1 "Effective Symmetric Key Bits" (number info.effective_key_bits)
      ∷ value api 1 "Symmetric Key Space" (number info.sym_key_space)
      ∷ named_number_lines 1 "MAC Algorithm" info.mac_algorithm_name info.mac_algorithm
      ∷ value api 1 "MAC Bits" (number info.mac_bits)
      ∷ value api 1 "FIPS" (truth_text info.is_fips)
      ∷ value api 1 "Exportable" (truth_text info.is_exportable)
      ∷ value api 1 "Nonstandard" (truth_text info.nonstandard)
      ∷ [])

  unfoldable pub channel_information_format_lines : ChannelInfo → Formatter
  unfolding protocol_version_lines named_number_lines
  channel_information_format_lines info = steps (
      protocol_version_lines "Protocol Version" info
      ∷ checked info.suite_name (λ name. named_number_lines 0 "Cipher Suite" name info.cipher_suite)
      ∷ value api 0 "Auth Key Bits" (number info.auth_key_bits)
      ∷ value api 0 "Key Exchange Key Bits" (number info.kea_key_bits)
      ∷ checked info.creation_time (value api 0 "Creation Time")
      ∷ checked info.last_access_time (value api 0 "Last Access Time")
      ∷ checked info.expiration_time (value api 0 "Expiration Time")
      ∷ named_number_lines 0 "Compression Method" info.compression_method_name
          info.compression_method
      ∷ label api 0 "Session ID"
      ∷ append_hex api 1 info.session_id
      ∷ [])
