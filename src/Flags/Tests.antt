-- ===== src/Flags/Tests.antt =====
-- The flags of a small table.
use python_nss_ng.Prelude.{Option, some, none, List, [], ◌∷◌, codes, ◌≡◌, refl}
use python_nss_ng.Names.Ssl.{as_enum, Representation, number, text}
use python_nss_ng.Flags.{
  Flag, Lists, bit_flags, py_flag, unknown_flags, bit_flags_to_list, sort_error,
}

abbrev key_usages : List Flag
key_usages =
    record { value = 4; name = codes "KU_KEY_CERT_SIGN"; description = codes "Certificate Signing" }
    ∷ record { value = 2; name = codes "KU_CRL_SIGN"; description = codes "CRL Signing" }
    ∷ record { value = 1; name = codes "KU_ENCIPHER_ONLY"; description = codes "Encipher Only" }
    ∷ []

-- Lists that are left as they are, but for a text behind a number, where the sort raises.
abbrev as_given : List Representation → Option (List Representation)
as_given (number n ∷ text t ∷ l) = none
as_given l = some l

abbrev left_alone : Lists
left_alone = record { sort = λ l. some l; unknown_bit_flags = λ n. codes "unknown bit flags" }

-- Flags with numbers and a bit that no row has: the sort compares a number with a text.
unknown_bit :
    bit_flags_to_list
      (record { sort = as_given; unknown_bit_flags = λ n. codes "unknown bit flags" })
      key_usages
      12
      as_enum
    ≡ sort_error
unfolding bit_flags_to_list bit_flags py_flag unknown_flags
unknown_bit = refl
