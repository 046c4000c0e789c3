-- ===== src/Callbacks/Ssl.antt =====
-- The answers of the certificate and client-authentication callbacks (src/py_ssl.c): when the
-- handshake is told SECSuccess.
use python_nss_ng.Prelude.{
  Bool, true, false, Option, none, some, List, [], ◌∷◌, length, ltb, if◌then◌else◌, ◌≡◌, ◌≢◌, ◌↔◌,
  ◌⊎◌, refl, sym, ap, ◌∙◌, subst, arith, Bool-cases, Option-cases, inl, inr,
}
use python_nss_ng.Callbacks.{
  Python, Truth, yes, no, raises, Callback, with_data, ssl_auth_certificate, ClientAuth, selected,
  failure, second_value, first_value, client_auth_result, get_client_auth_data,
}

Truth-cases : (t : Truth) → (t ≡ yes) ⊎ ((t ≡ no) ⊎ (t ≡ raises))
Truth-cases yes = inl refl
Truth-cases no = inr (inl refl)
Truth-cases raises = inr (inr refl)

module _ (py : Python) where
  open py use {
    Object, Cert, Key, call, truth, is_none, as_bool, as_tuple, as_cert, as_key, from_bool,
  }

  abbrev auth_args : Callback py → Object → Bool → Bool → List Object
  auth_args c socket check_sig is_server =
      with_data py c (socket ∷ from_bool check_sig ∷ from_bool is_server ∷ [])

  auth_raised :
      (c : Callback py) (socket : Object) (check_sig is_server : Bool)
      → call c.function (auth_args c socket check_sig is_server) ≡ none
      → ssl_auth_certificate py c socket check_sig is_server ≡ false
  unfolding ssl_auth_certificate
  auth_raised c socket check_sig is_server e = rw (ssl_auth_certificate, e) refl

  auth_refused :
      (c : Callback py) (socket : Object) (check_sig is_server : Bool) (result : Object)
      → call c.function (auth_args c socket check_sig is_server) ≡ some result
      → truth result ≡ no
      → ssl_auth_certificate py c socket check_sig is_server ≡ false
  unfolding ssl_auth_certificate
  auth_refused c socket check_sig is_server result e f = rw (ssl_auth_certificate, e, f) refl

  -- The handshake is told SECSuccess exactly if the callback raised nothing and returned a value
  -- whose truth is not false: a value whose truth cannot be told is taken for success.
  pub auth_certificate_lem :
      (c : Callback py) (socket : Object) (check_sig is_server : Bool)
      → (ssl_auth_certificate py c socket check_sig is_server ≡ true) ↔ (
          (result : Object) × (call c.function (auth_args c socket check_sig is_server)
            ≡ some result)
          × (truth result ≢ no))
  unfolding ssl_auth_certificate
  auth_certificate_lem c socket check_sig is_server =
      elim (Option-cases (call c.function (auth_args c socket check_sig is_server))) [
        | inl e ↦ (
          λ h. absurd (cc (h, auth_raised c socket check_sig is_server e)),
          λ (r, a, b). absurd (cc (a, e)),
        )
        | inr (result, e) ↦ elim (Truth-cases (truth result)) [
          | inl y ↦ (λ h. (result, e, λ f. cc (y, f)), λ h. rw (ssl_auth_certificate, e, y) refl)
          | inr (inl f) ↦ (
            λ h. absurd (cc (h, auth_refused c socket check_sig is_server result e f)),
            λ (r, a, b). absurd (b (cc (a, e, f))),
          )
          | inr (inr y) ↦
              (λ h. (result, e, λ f. cc (y, f)), λ h. rw (ssl_auth_certificate, e, y) refl)
        ]
      ]

  -- What a returned tuple must be for the handshake to have a certificate and a key.
  abbrev pub IsPair : List Object → Cert → Key → Type 0
  IsPair values c k =
      (cert : Object) × (key : Object) × (values ≡ cert ∷ key ∷ [])
      × (is_none cert ≡ false)
      × (as_cert cert ≡ some c)
      × (is_none key ≡ false)
      × (as_key key ≡ some k)

  second_none :
      (cert : Cert) (key : Object) (rest : List Object)
      → is_none key ≡ true
      → second_value py cert (key ∷ rest) ≡ failure
  unfolding second_value
  second_none cert key rest e = rw (second_value, e) refl

  second_found :
      (cert : Cert) (key : Object) (rest : List Object)
      → is_none key ≡ false
      → second_value py cert (key ∷ rest)
        ≡ elim (as_key key) [ none ↦ failure | some k ↦ selected cert k ]
  unfolding second_value
  second_found cert key rest e = rw (second_value, e) refl

  first_none :
      (cert : Object) (rest : List Object)
      → is_none cert ≡ true
      → first_value py (cert ∷ rest) ≡ failure
  unfolding first_value
  first_none cert rest e = rw (first_value, e) refl

  first_found :
      (cert : Object) (rest : List Object)
      → is_none cert ≡ false
      → first_value py (cert ∷ rest)
        ≡ elim (as_cert cert) [ none ↦ failure | some c ↦ second_value py c rest ]
  unfolding first_value
  first_found cert rest e = rw (first_value, e) refl

  key_selected :
      (cert c : Cert) (k : Key) (found : Option Key)
      → (elim found as (λ _. ClientAuth py) [ none ↦ failure | some l ↦ selected cert l ])
        ≡ selected c k
      → (cert ≡ c) × (found ≡ some k)
  key_selected cert c k none h = absurd (cc h)
  key_selected cert c k (some l) h = (cc h, cc h)

  abbrev IsSecond : List Object → Key → Type 0
  IsSecond values k =
      (key : Object) × (rest : List Object) × (values ≡ key ∷ rest)
      × (is_none key ≡ false)
      × (as_key key ≡ some k)

  second_lem :
      (cert c : Cert) (k : Key) (values : List Object)
      → second_value py cert values ≡ selected c k
      → (cert ≡ c) × IsSecond values k
  unfolding second_value
  second_lem cert c k [] h = absurd (cc h)
  second_lem cert c k (key ∷ rest) h = elim (Bool-cases (is_none key)) [
    | inl e ↦ absurd (cc (h, second_none cert key rest e))
    | inr e ↦
        let found = key_selected cert c k (as_key key) (sym (second_found cert key rest e) ∙ h) in
        (found.0, (key, rest, refl, e, found.1))
  ]

  cert_selected :
      (c : Cert) (k : Key) (found : Option Cert) (rest : List Object)
      → (elim found as (λ _. ClientAuth py) [ none ↦ failure | some d ↦ second_value py d rest ])
        ≡ selected c k
      → (found ≡ some c) × IsSecond rest k
  cert_selected c k none rest h = absurd (cc h)
  cert_selected c k (some d) rest h =
      let second = second_lem d c k rest h in (ap some second.0, second.1)

  abbrev IsShort : List Object → Type 0
  IsShort values = ltb 2 (length values) ≡ false

  second_end :
      (key : Object) (cert : Object) (rest : List Object) → IsShort (cert ∷ key ∷ rest) → rest ≡ []
  second_end key cert [] h = refl
  second_end key cert (x ∷ rest) h = ground arith

  first_selected :
      (c : Cert) (k : Key) (values : List Object)
      → IsShort values
      → first_value py values ≡ selected c k
      → IsPair values c k
  unfolding first_value
  first_selected c k [] s h = absurd (cc h)
  first_selected c k (cert ∷ rest) s h = elim (Bool-cases (is_none cert)) [
    | inl e ↦ absurd (cc (h, first_none cert rest e))
    | inr e ↦
        let found = cert_selected c k (as_cert cert) rest (sym (first_found cert rest e) ∙ h) in
        let (g, (key, more, split, i, j)) = found in
        let whole = ap (λ t. cert ∷ t) split in
        let last = second_end key cert more (subst IsShort whole s) in
        (cert, key, whole ∙ ap (λ t. cert ∷ key ∷ t) last, e, g, i, j)
  ]

  result_bool :
      (result : Object) (b : Bool)
      → as_bool result ≡ some b
      → client_auth_result py result ≡ failure
  unfolding client_auth_result
  result_bool result b e = rw (client_auth_result, e) refl

  result_other :
      (result : Object)
      → as_bool result ≡ none
      → as_tuple result ≡ none
      → client_auth_result py result ≡ failure
  unfolding client_auth_result
  result_other result e f = rw (client_auth_result, e, f) refl

  result_tuple :
      (result : Object) (values : List Object)
      → as_bool result ≡ none
      → as_tuple result ≡ some values
      → client_auth_result py result
        ≡ (if ltb 2 (length values) then failure else first_value py values)
  unfolding client_auth_result
  result_tuple result values e f = rw (client_auth_result, e, f) refl

  long :
      (values : List Object)
      → ltb 2 (length values) ≡ true
      → (if ltb 2 (length values) then failure else first_value py values) ≡ failure
  long values e = rw e refl

  few :
      (values : List Object)
      → IsShort values
      → (if ltb 2 (length values) then failure else first_value py values) ≡ first_value py values
  few values e = rw e refl

  tuple_selected :
      (c : Cert) (k : Key) (values : List Object)
      → (if ltb 2 (length values) then failure else first_value py values) ≡ selected c k
      → IsPair values c k
  tuple_selected c k values h = elim (Bool-cases (ltb 2 (length values))) [
    | inl e ↦ absurd (cc (h, long values e))
    | inr e ↦ first_selected c k values e (sym (few values e) ∙ h)
  ]

  client_raised :
      (callback : Callback py) (ca_names : Object)
      → call callback.function (with_data py callback (ca_names ∷ [])) ≡ none
      → get_client_auth_data py callback ca_names ≡ failure
  unfolding get_client_auth_data
  client_raised callback ca_names e = rw (get_client_auth_data, e) refl

  client_answer :
      (callback : Callback py) (ca_names result : Object)
      → call callback.function (with_data py callback (ca_names ∷ [])) ≡ some result
      → get_client_auth_data py callback ca_names ≡ client_auth_result py result
  unfolding get_client_auth_data
  client_answer callback ca_names result e = rw (get_client_auth_data, e) refl

  abbrev Selects : Object → Cert → Key → Type 0
  Selects result c k =
      (as_bool result ≡ none)
      × ((values : List Object) × (as_tuple result ≡ some values) × IsPair values c k)

  result_selected :
      (c : Cert) (k : Key) (result : Object)
      → client_auth_result py result ≡ selected c k
      → Selects result c k
  unfolding client_auth_result
  result_selected c k result h = elim (Option-cases (as_bool result)) [
    | inr (b, e) ↦ absurd (cc (h, result_bool result b e))
    | inl e ↦ elim (Option-cases (as_tuple result)) [
      | inl f ↦ absurd (cc (h, result_other result e f))
      | inr (values, f) ↦
          (e, (values, f, tuple_selected c k values (sym (result_tuple result values e f) ∙ h)))
    ]
  ]

  result_lem :
      (c : Cert) (k : Key) (result : Object)
      → Selects result c k
      → client_auth_result py result ≡ selected c k
  unfolding client_auth_result first_value second_value
  result_lem c k result (e, (values, f, (cert, key, split, i, g, j, l))) =
      rw (client_auth_result, e, f, split, first_value, i, g, second_value, j, l) refl

  -- The handshake is told SECSuccess with a certificate and a key exactly if the callback raised
  -- nothing and returned, not a boolean, but a tuple of exactly two values that are not None, that
  -- certificate and that key.
  pub client_auth_lem :
      (callback : Callback py) (ca_names : Object) (c : Cert) (k : Key)
      → (get_client_auth_data py callback ca_names ≡ selected c k) ↔ (
          (result : Object) × (call callback.function (with_data py callback (ca_names ∷ []))
            ≡ some result)
          × Selects result c k)
  unfolding get_client_auth_data
  client_auth_lem callback ca_names c k =
      elim (Option-cases (call callback.function (with_data py callback (ca_names ∷ [])))) [
        | inl e ↦ (
          λ h. absurd (cc (h, client_raised callback ca_names e)),
          λ (r, a, b). absurd (cc (a, e)),
        )
        | inr (result, e) ↦ (
          λ h. (
            result,
            e,
            result_selected c k result (sym (client_answer callback ca_names result e) ∙ h),
          ),
          λ (r, a, b). client_answer callback ca_names r a ∙ result_lem c k r b,
        )
      ]
