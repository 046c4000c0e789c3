-- ===== src/GeneralNames/Tests.antt =====
-- Copies of a list of two names.
use python_nss_ng.Prelude.{
  ℕ, zero, suc, ◌<◌, Bool, true, false, none, some, [], ◌∷◌, ◌==◌, if◌then◌else◌, codes, ◌≡◌, refl,
  arith, Bytes, Option,
}
use python_nss_ng.GeneralNames.{
  Address, Content, item, Arena, copied, failed, ask, copy_general_name, link, copy_names,
  copy_general_name_list, Converters, name_tuple, filled_tuple, converter, list_to_tuple,
  list_count, count_names, walk_names,
}
use python_nss_ng.Names.Ssl.{as_string}
use python_nss_ng.GeneralNames.Rings.{IsRing, node_of}
use python_nss_ng.GeneralNames.Copies.{CopyOutcome, copy_general_name_list_lem}
use python_nss_ng.GeneralNames.Holders.{KeyIdentifier, copy_auth_key_id}
use python_nss_ng.GeneralNames.Issuers.{copy_auth_key_id_no_issuer}

abbrev two_names : ℕ → Content
two_names i = if i == 0 then item 2 (codes "a") else item 2 (codes "b")

abbrev sample : Arena
sample = record {
  heap = λ a.
      if a == 0
      then some (node_of (two_names 0) 1 1)
      else if a == 1
      then some (node_of (two_names 1) 0 0)
      else none;
  fresh = 2;
  requests = 0;
}

abbrev always : ℕ → Bool
always r = true

-- The fourth request is refused: the item of the second name is not copied.
abbrev four : ℕ → Bool
four r = if r == 3 then false else true

sample-IsRing : IsRing 2 (λ i. i) two_names sample.heap
sample-IsRing = (nodes, λ i low high e. absurd (omega arith))
  where
    nodes :
        (i : ℕ)
        → i < 2
        → (q : Address) × (sample.heap i
            ≡ some (node_of (two_names i) (if suc i == 2 then 0 else suc i) q))
    nodes zero inside = (1, refl)
    nodes (suc zero) inside = (0, refl)
    nodes (suc (suc i)) inside = absurd (omega arith)

copy_runs : (copy_general_name_list always 5 (some 0) sample).0 ≡ copied 2
unfolding copy_general_name_list copy_names copy_general_name ask link
copy_runs = refl

refused_runs : (copy_general_name_list four 5 (some 0) sample).0 ≡ failed
unfolding copy_general_name_list copy_names copy_general_name ask link
refused_runs = refl

abbrev octets : Content → Option Bytes
octets (item tag text) = some text
octets other = none

abbrev shown : Converters Bytes
shown = record {
  new_from_name = octets;
  to_pystr = octets;
  type_string = octets;
  type_number = octets;
  to_pystr_with_label = octets;
}

tuple_runs :
    list_to_tuple shown true as_string
      (copy_general_name_list always 5 (some 0) sample).1.heap
      5
      (some 2)
    ≡ name_tuple 2 (some (codes "a") ∷ some (codes "b") ∷ [])
unfolding copy_general_name_list copy_names copy_general_name ask link list_to_tuple filled_tuple
    converter list_count count_names walk_names
tuple_runs = refl

copy_general_name_list_lem_example :
    CopyOutcome 2 two_names sample (copy_general_name_list always 5 (some 0) sample)
copy_general_name_list_lem_example =
    copy_general_name_list_lem always 5 2 (λ i. i) two_names sample (omega arith) (omega arith)
      sample-IsRing (λ i h. h)

abbrev without_issuer : KeyIdentifier
without_issuer = record {
  key_id = codes "id";
  auth_cert_issuer = none;
  auth_cert_serial_number = [];
}

copy_auth_key_id_no_issuer_example : (copy_auth_key_id always 5 without_issuer sample).0 ≡ failed
copy_auth_key_id_no_issuer_example = copy_auth_key_id_no_issuer always 5 without_issuer sample refl
