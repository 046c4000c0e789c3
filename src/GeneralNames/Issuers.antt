-- ===== src/GeneralNames/Issuers.antt =====
-- The list of issuers in the copies of key identifiers (src/py_nss.c).
use python_nss_ng.Prelude.{ℕ, Bytes, Bool, none, ◌≡◌, refl, sym, subst, arith}
use python_nss_ng.GeneralNames.{
  Address, Heap, Arena, Copy, copied, failed, dangling, out_of_fuel, copy_general_name_list,
}
use python_nss_ng.GeneralNames.Holders.{KeyIdentifier, request, copy_auth_key_id}
use python_nss_ng.GeneralNames.Outcomes.{Outcome, Since, request_lem, finish_outcome, and_then_lem}

-- The state at the call.
at_start : (arena : Arena) → Since arena.fresh arena.heap arena
at_start arena = (λ x l. refl, omega arith)

abbrev Any : {A : Type 0} → A → Heap → Address → Type 0
Any x heap fresh = Unit

abbrev Never : {A : Type 0} → A → Heap → Address → Type 0
Never x heap fresh = ⊥

never_lem :
    {A : Type 0} (m : Address) (heap0 : Heap) (r : Copy A × Arena)
    → Outcome m heap0 Never r
    → r.0 ≡ failed
never_lem m heap0 (copied x, arena) (_, (_, p)) = absurd p
never_lem m heap0 (failed, arena) h = refl
never_lem m heap0 (dangling, arena) h = absurd h
never_lem m heap0 (out_of_fuel, arena) h = absurd h

no_issuer :
    (grants : ℕ → Bool) (fuel : ℕ) (key_id serial : Bytes) (before : Arena)
    → (copy_auth_key_id grants fuel
        (record { key_id = key_id; auth_cert_issuer = none; auth_cert_serial_number = serial })
        before).0
      ≡ failed
unfolding copy_auth_key_id copy_general_name_list
no_issuer grants fuel key_id serial before =
    let m = before.fresh in
    let heap0 = before.heap in
    never_lem m heap0 _ (
      finish_outcome m heap0 Never _ (
        and_then_lem m heap0 Any Never (request grants 1 tt before) _
          (request_lem m heap0 grants Any 1 tt before (at_start before) tt)
          (λ _ arena1 since1 _.
            and_then_lem m heap0 Any Never (request grants 1 key_id arena1) _
              (request_lem m heap0 grants Any 1 key_id arena1 since1 tt)
              (λ key arena2 since2 _. since2.0))))

-- A key identifier without names of an issuer is never copied: the copy fails whatever memory is
-- granted.
pub copy_auth_key_id_no_issuer :
    (grants : ℕ → Bool) (fuel : ℕ) (src : KeyIdentifier) (before : Arena)
    → src.auth_cert_issuer ≡ none
    → (copy_auth_key_id grants fuel src before).0 ≡ failed
copy_auth_key_id_no_issuer grants fuel src before e =
    subst
      (λ issuer.
        (copy_auth_key_id grants fuel
          (record {
            key_id = src.key_id;
            auth_cert_issuer = issuer;
            auth_cert_serial_number = src.auth_cert_serial_number;
          })
          before).0
        ≡ failed)
      (sym e) (no_issuer grants fuel src.key_id src.auth_cert_serial_number before)
