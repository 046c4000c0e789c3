-- ===== src/GeneralNames/Holders.antt =====
-- The copies of what holds general names (src/py_nss.c): `CERT_CopyCRLDistributionPoint`,
-- `CERT_CopyAuthKeyID` and `CERT_CopyAuthInfoAccess`.
--
-- The holders are values, their lists of names are on the heap. A copy of an item, of a relative
-- name or of the structure itself is a request to the arena.
use python_nss_ng.Prelude.{ℕ, Bytes, Bool, true, false, Option, none, some, take}
use python_nss_ng.GeneralNames.{
  Address, Arena, ask, Copy, copied, failed, dangling, out_of_fuel, copy_general_name, finish,
  copy_general_name_list,
}

pub data PointNames : Type 0 where
  full_name : Option Address → PointNames
  relative_name : Bytes → PointNames
  unknown_type : PointNames

-- `bitsmap.len` counts bits.
pub record CrlPoint : Type 0 where
  pub point_names : PointNames
  pub reasons : Bytes
  pub bitsmap : Bytes
  pub bitsmap_len : ℕ
  pub crl_issuer : Option Address

pub record KeyIdentifier : Type 0 where
  pub key_id : Bytes
  pub auth_cert_issuer : Option Address
  pub auth_cert_serial_number : Bytes

pub record AccessDescription : Type 0 where
  pub method : Bytes
  pub der_location : Bytes
  pub location : Option Address

module _ {A B : Type 0} where
  -- `goto exit` at the first failure.
  abbrev pub and_then : Copy A × Arena → (A → Arena → Copy B × Arena) → Copy B × Arena
  and_then (copied x, arena) f = f x arena
  and_then (failed, arena) f = (failed, arena)
  and_then (dangling, arena) f = (dangling, arena)
  and_then (out_of_fuel, arena) f = (out_of_fuel, arena)

abbrev pub answered : {A : Type 0} → A → Bool × ℕ → Arena → Copy A × Arena
answered x (true, requests) arena = (copied x, record arena { requests = requests })
answered x (false, requests) arena = (failed, record arena { requests = requests })

-- An address that is stored in a field.
abbrev pub found : Copy Address × Arena → Copy (Option Address) × Arena
found (copied dst, arena) = (copied (some dst), arena)
found (failed, arena) = (failed, arena)
found (dangling, arena) = (dangling, arena)
found (out_of_fuel, arena) = (out_of_fuel, arena)

-- PORT_ArenaZNew, SECITEM_CopyItem, or some requests of which the first refusal ends the copy.
unfoldable pub request : {A : Type 0} → (ℕ → Bool) → ℕ → A → Arena → Copy A × Arena
unfolding ask
request grants n x arena = answered x (ask grants n arena.requests) arena

-- `CERT_CopyGeneralName` of a pointer that may be NULL.
abbrev pub copy_one_name : (ℕ → Bool) → Option Address → Arena → Copy (Option Address) × Arena
copy_one_name grants none arena = (failed, arena)
copy_one_name grants (some src) arena = found (copy_general_name grants src arena)

-- One name, where the issuer is there.
unfoldable pub copy_crl_issuer : (ℕ → Bool) → Option Address → Arena → Copy (Option Address) × Arena
unfolding copy_general_name
copy_crl_issuer grants none arena = (copied none, arena)
copy_crl_issuer grants (some src) arena = found (copy_general_name grants src arena)

unfoldable pub copy_auth_info_access :
    (ℕ → Bool) → AccessDescription → Arena → Copy AccessDescription × Arena
unfolding request copy_general_name
copy_auth_info_access grants src arena = finish arena.fresh (
    and_then (request grants 1 tt arena) (λ _ arena1.
      and_then (request grants 1 src.method arena1) (λ method arena2.
        and_then (request grants 1 src.der_location arena2) (λ der_location arena3.
          and_then (copy_one_name grants src.location arena3) (λ location arena4. (
            copied (record { method = method; der_location = der_location; location = location }),
            arena4,
          ))))))

module _ (grants : ℕ → Bool) (fuel : ℕ) where
  unfoldable pub copy_auth_key_id : KeyIdentifier → Arena → Copy KeyIdentifier × Arena
  unfolding request copy_general_name_list
  copy_auth_key_id src arena = finish arena.fresh (
      and_then (request grants 1 tt arena) (λ _ arena1.
        and_then (request grants 1 src.key_id arena1) (λ key_id arena2.
          and_then (found (copy_general_name_list grants fuel src.auth_cert_issuer arena2))
            (λ issuer arena3.
              request grants 1
                (record {
                  key_id = key_id;
                  auth_cert_issuer = issuer;
                  auth_cert_serial_number = src.auth_cert_serial_number;
                })
                arena3))))

  -- The `switch` on the type of the point.
  unfoldable pub copy_point_names : PointNames → Arena → Copy PointNames × Arena
  unfolding request copy_general_name_list
  copy_point_names (full_name head) arena =
      and_then (found (copy_general_name_list grants fuel head arena))
        (λ copy arena1. (copied (full_name copy), arena1))
  copy_point_names (relative_name rdn) arena = request grants 2 (relative_name rdn) arena
  copy_point_names unknown_type arena = (failed, arena)

  -- `byte_count` is the length that DER_ConvertBitString makes of a number of bits; the copy then
  -- gets the number of bits.
  unfoldable pub copy_crl_distribution_point : (ℕ → ℕ) → CrlPoint → Arena → Copy CrlPoint × Arena
  unfolding request copy_point_names copy_crl_issuer
  copy_crl_distribution_point byte_count src arena = finish arena.fresh (
      and_then (request grants 1 tt arena) (λ _ arena1.
        and_then (copy_point_names src.point_names arena1) (λ names arena2.
          and_then (request grants 1 src.reasons arena2) (λ reasons arena3.
            and_then (request grants 1 (take (byte_count src.bitsmap_len) src.bitsmap) arena3)
              (λ bitsmap arena4.
                and_then (copy_crl_issuer grants src.crl_issuer arena4) (λ issuer arena5. (
                  copied (record {
                    point_names = names;
                    reasons = reasons;
                    bitsmap = bitsmap;
                    bitsmap_len = src.bitsmap_len;
                    crl_issuer = issuer;
                  }),
                  arena5,
                )))))))
