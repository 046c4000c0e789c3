-- ===== src/Callbacks/Own.antt =====
-- The callbacks of a thread after any interleaving of the setters (src/py_nss.c), against the history
-- of the calls.
use python_nss_ng.Prelude.{
  ℕ, Bytes, Bool, true, false, not, ◌&&◌, ◌||◌, Option, none, some, List, [], ◌∷◌, if◌then◌else◌,
  ◌==◌, ◌≡◌, refl, sym, ◌∙◌, Bool-cases, inl, inr, ==_iff, subst,
}
use python_nss_ng.Dict.{bytes_test, get}
use python_nss_ng.Threads.{Locals, set_thread_local, get_thread_local}
use python_nss_ng.Threads.Locals.{
  get_thread_local-set, get_thread_local-set_thread, get_thread_local-set_name,
}
use python_nss_ng.Callbacks.{Python}
use python_nss_ng.Callbacks.Password.{
  Bindings, password_key, pk11_set_password_callback, pk11_password_callback, password_answer,
  pin_arguments,
}
use python_nss_ng.Callbacks.Nickname.{nickname_key, pkcs12_set_nickname_collision_callback}

module _ (py : Python) where
  open py use {Object, call, is_callable, is_none, from_bool}

  -- A call of a setter by a thread.
  pub data Call : Type 0 where
    set_password set_nickname : ℕ → Object → Call

  unfoldable pub step : Call → Bindings py → Bindings py
  step (set_password thread callback) b = (pk11_set_password_callback py thread callback b).1
  step (set_nickname thread callback) b =
      elim (pkcs12_set_nickname_collision_callback py thread callback b.locals) [
        | none ↦ b
        | some locals ↦ record b { locals = locals }
      ]

  -- The calls, the last one first, from a process that has made none.
  unfoldable pub after : List Call → Bindings py
  after [] = record { locals = []; password_func = false }
  after (c ∷ earlier) = step c (after earlier)

  -- The object that the thread's last accepted call gave.
  unfoldable pub last_password : ℕ → List Call → Option Object
  last_password thread [] = none
  last_password thread (set_password thread' callback ∷ earlier) =
      let before = last_password thread earlier in
      if (is_none callback || is_callable callback) && (thread == thread')
      then some callback
      else before
  last_password thread (set_nickname thread' callback ∷ earlier) = last_password thread earlier

  unfoldable pub last_nickname : ℕ → List Call → Option Object
  last_nickname thread [] = none
  last_nickname thread (set_password thread' callback ∷ earlier) = last_nickname thread earlier
  last_nickname thread (set_nickname thread' callback ∷ earlier) =
      let before = last_nickname thread earlier in
      if is_callable callback && (thread == thread') then some callback else before

  -- Whether the last accepted call of any thread gave a callback and not None.
  unfoldable pub last_hooked : List Call → Bool
  last_hooked [] = false
  last_hooked (set_password thread callback ∷ earlier) =
      let before = last_hooked earlier in
      if is_none callback then false else if is_callable callback then true else before
  last_hooked (set_nickname thread callback ∷ earlier) = last_hooked earlier

  abbrev found : ℕ → Bytes → Bindings py → Option Object
  found thread name b = get_thread_local Object thread name b.locals

  same_thread : (a b : ℕ) → (a == b) ≡ true → a ≡ b
  same_thread a b h = (==_iff a b).0 h

  found-set :
      (thread thread' : ℕ) (name : Bytes) (obj : Object) (locals : Locals Object)
      → get_thread_local Object thread name (set_thread_local Object thread' name obj locals)
        ≡ (if thread == thread' then some obj else get_thread_local Object thread name locals)
  found-set thread thread' name obj locals = elim (Bool-cases (thread == thread')) [
    | inl e ↦ rw e (
        subst
          (λ t.
            get_thread_local Object t name (set_thread_local Object thread' name obj locals)
            ≡ some obj)
          (sym (same_thread thread thread' e)) (get_thread_local-set thread' name obj locals))
    | inr e ↦ rw e (get_thread_local-set_thread thread thread' name name obj locals e)
  ]

  found-set_other :
      (thread thread' : ℕ) (name name' : Bytes) (obj : Object) (locals : Locals Object)
      → bytes_test.same name name' ≡ false
      → get_thread_local Object thread name (set_thread_local Object thread' name' obj locals)
        ≡ get_thread_local Object thread name locals
  found-set_other thread thread' name name' obj locals h = elim (Bool-cases (thread == thread')) [
    | inl e ↦
        subst
          (λ t.
            get_thread_local Object t name (set_thread_local Object thread' name' obj locals)
            ≡ get_thread_local Object t name locals)
          (sym (same_thread thread thread' e))
          (get_thread_local-set_name thread' name name' obj locals h)
    | inr e ↦ get_thread_local-set_thread thread thread' name name' obj locals e
  ]

  abbrev accepted : Object → Bool
  accepted callback = is_none callback || is_callable callback

  set_either :
      (thread : ℕ) (callback : Object) (b : Bindings py)
      → (pk11_set_password_callback py thread callback b).1 ≡ (
          if accepted callback
          then record {
            locals = set_thread_local Object thread password_key callback b.locals;
            password_func = not (is_none callback);
          }
          else b)
  unfolding pk11_set_password_callback
  set_either thread callback b = elim (Bool-cases (is_none callback)) [
    | inl e ↦ rw (pk11_set_password_callback, e) refl
    | inr e ↦ elim (Bool-cases (is_callable callback)) [
      | inl g ↦ rw (pk11_set_password_callback, e, g) refl
      | inr g ↦ rw (pk11_set_password_callback, e, g) refl
    ]
  ]

  nickname_either :
      (thread : ℕ) (callback : Object) (b : Bindings py)
      → step (set_nickname thread callback) b ≡ (
          if is_callable callback
          then record b { locals = set_thread_local Object thread nickname_key callback b.locals }
          else b)
  unfolding step pkcs12_set_nickname_collision_callback
  nickname_either thread callback b = elim (Bool-cases (is_callable callback)) [
    | inl e ↦ rw (step, pkcs12_set_nickname_collision_callback, e) refl
    | inr e ↦ rw (step, pkcs12_set_nickname_collision_callback, e) refl
  ]

  password-set :
      (thread thread' : ℕ) (callback : Object) (b : Bindings py)
      → found thread password_key (step (set_password thread' callback) b) ≡ (
          if accepted callback && (thread == thread')
          then some callback
          else found thread password_key b)
  unfolding step
  password-set thread thread' callback b = elim (Bool-cases (accepted callback)) [
    | inl e ↦
        rw
          (
            step,
            set_either thread' callback b,
            e,
            found-set thread thread' password_key callback b.locals,
          )
          refl
    | inr e ↦ rw (step, set_either thread' callback b, e) refl
  ]

  nickname-set :
      (thread thread' : ℕ) (callback : Object) (b : Bindings py)
      → found thread nickname_key (step (set_nickname thread' callback) b) ≡ (
          if is_callable callback && (thread == thread')
          then some callback
          else found thread nickname_key b)
  nickname-set thread thread' callback b = elim (Bool-cases (is_callable callback)) [
    | inl e ↦
        rw
          (
            nickname_either thread' callback b,
            e,
            found-set thread thread' nickname_key callback b.locals,
          )
          refl
    | inr e ↦ rw (nickname_either thread' callback b, e) refl
  ]

  password-set_nickname :
      (thread thread' : ℕ) (callback : Object) (b : Bindings py)
      → found thread password_key (step (set_nickname thread' callback) b)
        ≡ found thread password_key b
  unfolding bytes_test
  password-set_nickname thread thread' callback b = elim (Bool-cases (is_callable callback)) [
    | inl e ↦
        rw (nickname_either thread' callback b, e)
          (found-set_other thread thread' password_key nickname_key callback b.locals refl)
    | inr e ↦ rw (nickname_either thread' callback b, e) refl
  ]

  nickname-set_password :
      (thread thread' : ℕ) (callback : Object) (b : Bindings py)
      → found thread nickname_key (step (set_password thread' callback) b)
        ≡ found thread nickname_key b
  unfolding step bytes_test
  nickname-set_password thread thread' callback b = elim (Bool-cases (accepted callback)) [
    | inl e ↦
        rw (step, set_either thread' callback b, e)
          (found-set_other thread thread' nickname_key password_key callback b.locals refl)
    | inr e ↦ rw (step, set_either thread' callback b, e) refl
  ]

  hooked-set :
      (thread : ℕ) (callback : Object) (b : Bindings py)
      → (step (set_password thread callback) b).password_func ≡ (
          if is_none callback
          then false
          else if is_callable callback
          then true
          else b.password_func)
  unfolding step pk11_set_password_callback
  hooked-set thread callback b = elim (Bool-cases (is_none callback)) [
    | inl e ↦ rw (step, pk11_set_password_callback, e) refl
    | inr e ↦ elim (Bool-cases (is_callable callback)) [
      | inl g ↦ rw (step, pk11_set_password_callback, e, g) refl
      | inr g ↦ rw (step, pk11_set_password_callback, e, g) refl
    ]
  ]

  hooked-set_nickname :
      (thread : ℕ) (callback : Object) (b : Bindings py)
      → (step (set_nickname thread callback) b).password_func ≡ b.password_func
  hooked-set_nickname thread callback b = elim (Bool-cases (is_callable callback)) [
    | inl e ↦ rw (nickname_either thread callback b, e) refl
    | inr e ↦ rw (nickname_either thread callback b, e) refl
  ]

  -- After any interleaving of the setters by any threads: the password callback and the nickname
  -- callback that a thread finds are the ones that its own last accepted calls gave, whatever the
  -- other threads did, and the function that NSS calls is set exactly if the last accepted
  -- `set_password_callback` of any thread did not give None.
  pub own_callbacks :
      (thread : ℕ) (calls : List Call)
      → (get_thread_local Object thread password_key (after calls).locals
          ≡ last_password thread calls)
        × (get_thread_local Object thread nickname_key (after calls).locals
            ≡ last_nickname thread calls)
        × ((after calls).password_func ≡ last_hooked calls)
  unfolding after last_password last_nickname last_hooked get_thread_local get
  own_callbacks thread [] = (refl, refl, refl)
  own_callbacks thread (set_password thread' callback ∷ earlier) =
      let before = own_callbacks thread earlier in
      (
        rw (last_password, sym before.0) (password-set thread thread' callback (after earlier)),
        nickname-set_password thread thread' callback (after earlier) ∙ before.1,
        rw (last_hooked, sym before.2) (hooked-set thread' callback (after earlier)),
      )
  own_callbacks thread (set_nickname thread' callback ∷ earlier) =
      let before = own_callbacks thread earlier in
      (
        password-set_nickname thread thread' callback (after earlier) ∙ before.0,
        rw (last_nickname, sym before.1) (nickname-set thread thread' callback (after earlier)),
        hooked-set_nickname thread' callback (after earlier) ∙ before.2,
      )

  -- A request for a password asks the callback of the requesting thread and no other.
  pub password_own :
      (thread : ℕ) (slot : Object) (retry : Bool) (pin_args : Option Object) (calls : List Call)
      → pk11_password_callback py thread slot retry pin_args (after calls).locals
        ≡ elim (last_password thread calls) [
          | none ↦ none
          | some callback ↦
              password_answer py
                (call callback (slot ∷ from_bool retry ∷ pin_arguments py pin_args))
        ]
  unfolding pk11_password_callback
  password_own thread slot retry pin_args calls =
      rw (pk11_password_callback, (own_callbacks thread calls).0) refl
