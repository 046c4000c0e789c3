-- ===== src/Callbacks.antt =====
-- Callbacks into Python: those of SSL sockets (src/py_ssl.c), the password callback and the nickname
-- callbacks (src/py_nss.c), and the thread-local store that holds them.
--
-- What Python answers is a parameter, Python. The lock of the interpreter, reference counts and the
-- text on stderr are left out, and allocations succeed.
pub mod Ssl
pub mod Nickname
pub mod Password
pub mod Own
pub mod Tests
use python_nss_ng.Prelude.{
  ℕ, zero, suc, ◌-◌, Bytes, Bool, true, false, not, ◌&&◌, Option, none, some, List, [], ◌∷◌, ◌++◌,
  length, ltb, ◌==◌, if◌then◌else◌, codes,
}
use python_nss_ng.Pem.{c_string}
use python_nss_ng.Dict.{get, set, delete, bytes_test}

-- `PyObject_IsTrue`: 1, 0, or -1 where `__bool__` raises.
pub data Truth : Type 0 where
  yes no raises : Truth

-- The objects, the tests of the C API that the callbacks make of them, and a call: `none` is an
-- exception. `as_string` is a string in UTF-8, `some none` where there is no encoding.
pub record Python : Type 1 where
  pub Object : Type 0
  pub Cert : Type 0
  pub Key : Type 0
  pub call : Object → List Object → Option Object
  pub is_callable : Object → Bool
  pub truth : Object → Truth
  pub is_none : Object → Bool
  pub as_bool : Object → Option Bool
  pub as_tuple : Object → Option (List Object)
  pub as_string : Object → Option (Option Bytes)
  pub as_cert : Object → Option Cert
  pub as_key : Object → Option Key
  pub from_bool : Bool → Object
  pub from_string : Bytes → Object
  pub from_cert : Cert → Object
  pub none_object : Object

module _ (py : Python) where
  open py use {
    Object, Cert, Key, call, is_callable, truth, is_none, as_bool, as_tuple, as_string, as_cert,
    as_key, from_bool, from_string, from_cert, none_object,
  }

  -- A callback and the tuple of data that follows its own arguments.
  pub record Callback : Type 0 where
    pub function : Object
    pub callback_data : List Object

  pub record SslSocket : Type 0 where
    pub auth_certificate : Option Callback
    pub client_auth_data : Option Callback
    pub handshake : Option Callback
    pub pk11_pin_args : Option (List Object)

  abbrev pub with_data : Callback → List Object → List Object
  with_data c base = base ++ c.callback_data

  -- `true` is SECSuccess. `socket` wraps the connection.
  unfoldable pub ssl_auth_certificate : Callback → Object → Bool → Bool → Bool
  ssl_auth_certificate c socket check_sig is_server =
      elim (call c.function
        (with_data c (socket ∷ from_bool check_sig ∷ from_bool is_server ∷ []))) [
          | none ↦ false
          | some result ↦ elim (truth result) [ yes ↦ true | no ↦ false | raises ↦ true ]
        ]

  -- SECSuccess with a certificate and a key, SECFailure, or a use of NULL.
  pub data ClientAuth : Type 0 where
    selected : Cert → Key → ClientAuth
    failure : ClientAuth
    null_used : ClientAuth

  unfoldable pub second_value : Cert → List Object → ClientAuth
  second_value cert [] = failure
  second_value cert (key ∷ rest) =
      let found : ClientAuth = elim (as_key key) [ none ↦ failure | some k ↦ selected cert k ] in
      if is_none key then failure else found

  unfoldable pub first_value : List Object → ClientAuth
  unfolding second_value
  first_value [] = null_used
  first_value (cert ∷ rest) =
      let found : ClientAuth = elim (as_cert cert) [
        | none ↦ failure
        | some c ↦ second_value c rest
      ] in
      if is_none cert then failure else found

  unfoldable pub client_auth_result : Object → ClientAuth
  unfolding first_value
  client_auth_result result = elim (as_bool result) [
    | some b ↦ failure
    | none ↦ elim (as_tuple result) [
      | none ↦ failure
      | some values ↦ if ltb 2 (length values) then failure else first_value values
    ]
  ]

  unfoldable pub get_client_auth_data : Callback → Object → ClientAuth
  get_client_auth_data c ca_names = elim (call c.function (with_data c (ca_names ∷ []))) [
    | none ↦ failure
    | some result ↦ client_auth_result result
  ]

  -- The handshake callback gives no answer: what it is called with.
  unfoldable pub ssl_handshake_callback : Callback → Object → Option Object
  ssl_handshake_callback c socket = call c.function (with_data c (socket ∷ []))

  -- The setters: the arguments are a callback and its data. `hooked` is the answer of NSS; the
  -- socket keeps the callback where NSS refuses it.
  pub data Set : Type 0 where
    done missing_callback not_callable nspr_error : Set

  unfoldable pub parse_callback : List Object → Set × Option Callback
  parse_callback [] = (missing_callback, none)
  parse_callback (callback ∷ args) =
      if is_callable callback
      then (done, some (record { function = callback; callback_data = args }))
      else (not_callable, none)

  abbrev pub hook_answer : Bool → Set
  hook_answer hooked = if hooked then done else nspr_error

  unfoldable pub set_auth_certificate_callback : Bool → SslSocket → List Object → Set × SslSocket
  set_auth_certificate_callback hooked self args = elim (parse_callback args).1 [
    | none ↦ ((parse_callback args).0, self)
    | some c ↦ (hook_answer hooked, record self { auth_certificate = some c })
  ]

  unfoldable pub set_client_auth_data_callback : Bool → SslSocket → List Object → Set × SslSocket
  set_client_auth_data_callback hooked self args = elim (parse_callback args).1 [
    | none ↦ ((parse_callback args).0, self)
    | some c ↦ (hook_answer hooked, record self { client_auth_data = some c })
  ]

  unfoldable pub set_handshake_callback : Bool → SslSocket → List Object → Set × SslSocket
  set_handshake_callback hooked self args = elim (parse_callback args).1 [
    | none ↦ ((parse_callback args).0, self)
    | some c ↦ (hook_answer hooked, record self { handshake = some c })
  ]

  -- The pin arguments are dropped again where NSS refuses them.
  unfoldable pub set_pkcs11_pin_arg : Bool → SslSocket → List Object → Set × SslSocket
  set_pkcs11_pin_arg accepted self args =
      (hook_answer accepted, record self { pk11_pin_args = if accepted then some args else none })
