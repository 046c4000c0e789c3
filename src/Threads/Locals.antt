-- ===== src/Threads/Locals.antt =====
-- What the thread-local store holds after a set: the object for the thread and the name, and all
-- else as before.
use python_nss_ng.Prelude.{
  ℕ, Bytes, false, none, some, [], ◌==◌, ◌≡◌, refl, sym, ◌∙◌, ap, Option-cases, inl, inr,
}
use python_nss_ng.Dict.{bytes_test, number_test, get, set, get-set, get-set_other}
use python_nss_ng.Threads.{NssDict, Locals, nss_dict, set_thread_local, get_thread_local}

module _ {Object : Type 0} where
  get-nss_dict :
      (thread : ℕ) (name : Bytes) (locals : Locals Object)
      → get_thread_local Object thread name locals
        ≡ get bytes_test name (nss_dict Object thread locals)
  unfolding get_thread_local get nss_dict
  get-nss_dict thread name locals = elim (Option-cases (get number_test thread locals)) [
    | inl e ↦ rw (get_thread_local, nss_dict, e) refl
    | inr (d, e) ↦ rw (get_thread_local, nss_dict, e) refl
  ]

  nss_dict-set :
      (thread : ℕ) (name : Bytes) (obj : Object) (locals : Locals Object)
      → nss_dict Object thread (set_thread_local Object thread name obj locals)
        ≡ set bytes_test name obj (nss_dict Object thread locals)
  unfolding set_thread_local nss_dict number_test
  nss_dict-set thread name obj locals =
      ap (λ o. elim o as (λ _. NssDict Object) [ none ↦ [] | some d ↦ d ])
        (get-set number_test thread (set bytes_test name obj (nss_dict Object thread locals))
          locals)

  nss_dict-set_other :
      (thread thread' : ℕ) (name : Bytes) (obj : Object) (locals : Locals Object)
      → (thread == thread') ≡ false
      → nss_dict Object thread (set_thread_local Object thread' name obj locals)
        ≡ nss_dict Object thread locals
  unfolding set_thread_local nss_dict number_test
  nss_dict-set_other thread thread' name obj locals h =
      ap (λ o. elim o as (λ _. NssDict Object) [ none ↦ [] | some d ↦ d ])
        (get-set_other number_test thread thread'
          (set bytes_test name obj (nss_dict Object thread' locals)) locals h)

  pub get_thread_local-set :
      (thread : ℕ) (name : Bytes) (obj : Object) (locals : Locals Object)
      → get_thread_local Object thread name (set_thread_local Object thread name obj locals)
        ≡ some obj
  get_thread_local-set thread name obj locals =
      get-nss_dict thread name (set_thread_local Object thread name obj locals)
      ∙ ap (get bytes_test name) (nss_dict-set thread name obj locals)
      ∙ get-set bytes_test name obj (nss_dict Object thread locals)

  pub get_thread_local-set_thread :
      (thread thread' : ℕ) (name name' : Bytes) (obj : Object) (locals : Locals Object)
      → (thread == thread') ≡ false
      → get_thread_local Object thread name (set_thread_local Object thread' name' obj locals)
        ≡ get_thread_local Object thread name locals
  get_thread_local-set_thread thread thread' name name' obj locals h =
      get-nss_dict thread name (set_thread_local Object thread' name' obj locals)
      ∙ ap (get bytes_test name) (nss_dict-set_other thread thread' name' obj locals h)
      ∙ sym (get-nss_dict thread name locals)

  pub get_thread_local-set_name :
      (thread : ℕ) (name name' : Bytes) (obj : Object) (locals : Locals Object)
      → bytes_test.same name name' ≡ false
      → get_thread_local Object thread name (set_thread_local Object thread name' obj locals)
        ≡ get_thread_local Object thread name locals
  get_thread_local-set_name thread name name' obj locals h =
      get-nss_dict thread name (set_thread_local Object thread name' obj locals)
      ∙ ap (get bytes_test name) (nss_dict-set thread name' obj locals)
      ∙ get-set_other bytes_test name name' obj (nss_dict Object thread locals) h
      ∙ sym (get-nss_dict thread name locals)
