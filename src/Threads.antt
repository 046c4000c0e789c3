-- ===== src/Threads.antt =====
-- The thread-local store of the bindings (src/py_nss.c): the dict that a thread keeps under
-- NSS_THREAD_LOCAL_KEY, if it has one. Threads have numbers, and allocations succeed.
pub mod Locals
use python_nss_ng.Prelude.{ℕ, Bytes, Option, none, some, List, [], ◌∷◌}
use python_nss_ng.Dict.{bytes_test, number_test, get, set, delete}

module _ (Object : Type 0) where
  abbrev pub NssDict : Type 0
  NssDict = List (Bytes × Object)

  abbrev pub Locals : Type 0
  Locals = List (ℕ × NssDict)

  -- The dict of a thread, a new one where it has none.
  unfoldable pub nss_dict : ℕ → Locals → NssDict
  nss_dict thread locals = elim (get number_test thread locals) [
    | none ↦ []
    | some thread_local_dict ↦ thread_local_dict
  ]

  unfoldable pub set_thread_local : ℕ → Bytes → Object → Locals → Locals
  set_thread_local thread name obj locals =
      set number_test thread (set bytes_test name obj (nss_dict thread locals)) locals

  -- `none` is NULL without an exception.
  unfoldable pub get_thread_local : ℕ → Bytes → Locals → Option Object
  get_thread_local thread name locals = elim (get number_test thread locals) [
    | none ↦ none
    | some thread_local_dict ↦ get bytes_test name thread_local_dict
  ]

  -- `none` is the failure of PyDict_DelItemString, which leaves the dict as it was.
  unfoldable pub del_thread_local : ℕ → Bytes → Locals → Option Locals
  del_thread_local thread name locals = elim (get number_test thread locals) [
    | none ↦ some locals
    | some thread_local_dict ↦ elim (get bytes_test name thread_local_dict) [
      | none ↦ none
      | some obj ↦ some (set number_test thread (delete bytes_test name thread_local_dict) locals)
    ]
  ]
