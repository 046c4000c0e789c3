-- ===== src/Callbacks/Password.antt =====
-- The password callback of a thread and what the setters and the requests of NSS do with it
-- (src/py_nss.c). The store is the thread's own, and the function that NSS calls is the process's.
use python_nss_ng.Prelude.{
  ℕ, Bytes, Bool, true, false, not, ◌&&◌, Option, none, some, List, [], ◌∷◌, ◌++◌, if◌then◌else◌,
  codes,
}
use python_nss_ng.Pem.{c_string}
use python_nss_ng.Threads.{Locals, set_thread_local, get_thread_local}
use python_nss_ng.Callbacks.{Python}

abbrev pub password_key : Bytes
password_key = codes "password_callback"

module _ (py : Python) where
  open py use {Object, call, is_callable, is_none, as_tuple, as_string, from_bool}

  -- `password_func` tells whether PK11_SetPasswordFunc was given the callback of the bindings.
  pub record Bindings : Type 0 where
    pub locals : Locals Object
    pub password_func : Bool

  -- `false` is the TypeError.
  unfoldable pub pk11_set_password_callback : ℕ → Object → Bindings → Bool × Bindings
  pk11_set_password_callback thread callback b =
      if not (is_none callback) && not (is_callable callback) then (false, b) else (
        true,
        record {
          locals = set_thread_local Object thread password_key callback b.locals;
          password_func = not (is_none callback);
        },
      )

  -- The arguments that follow the slot and the flag: `none` is a NULL.
  abbrev pub pin_arguments : Option Object → List Object
  pin_arguments none = []
  pin_arguments (some pin_args) = elim (as_tuple pin_args) [ none ↦ [] | some items ↦ items ]

  -- The password, a C string; `none` is NULL.
  unfoldable pub password_answer : Option Object → Option Bytes
  password_answer none = none
  password_answer (some result) = elim (as_string result) [
    | none ↦ none
    | some none ↦ none
    | some (some text) ↦ some (c_string text)
  ]

  unfoldable pub pk11_password_callback :
      ℕ → Object → Bool → Option Object → Locals Object → Option Bytes
  unfolding password_answer
  pk11_password_callback thread slot retry pin_args locals =
      elim (get_thread_local Object thread password_key locals) [
        | none ↦ none
        | some password_callback ↦
            password_answer
              (call password_callback ((slot ∷ from_bool retry ∷ []) ++ pin_arguments pin_args))
      ]
