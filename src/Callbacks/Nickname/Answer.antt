-- ===== src/Callbacks/Nickname/Answer.antt =====
-- What the nickname callbacks tell NSS (src/py_nss.c): when an import goes on, and the nickname that
-- it gets.
use python_nss_ng.Prelude.{
  ℕ, Bytes, Bool, true, false, Option, none, some, List, [], ◌∷◌, ◌++◌, length, if◌then◌else◌, ◌≡◌,
  ◌↔◌, ◌⊎◌, refl, sym, ap, ◌∙◌, Bool-cases, Option-cases, inl, inr,
}
use python_nss_ng.Dict.{same_bytes, same_bytes_self, same_bytes_eq}
use python_nss_ng.Threads.{Locals, get_thread_local}
use python_nss_ng.Callbacks.{Python}
use python_nss_ng.Callbacks.Nickname.{
  nickname_key, Nickname, pkcs12_default_nickname_collision_callback, Collision, undefined_callback,
  answered, null_used, Memory, copied, nickname_answer, without_copy, allocated_answer, old_missing,
  arguments_answer, collision_pair, collision_answer, pkcs12_nickname_collision_callback,
}

default_made :
    (old_nickname nickname : Bytes)
    → same_bytes old_nickname nickname ≡ false
    → pkcs12_default_nickname_collision_callback (some old_nickname) (some nickname)
      ≡ some (record { octets = nickname ++ (0 ∷ []); len = length nickname })
unfolding pkcs12_default_nickname_collision_callback
default_made old_nickname nickname e = rw e refl

pub default_callback_lem :
    (old : Option Bytes) (nickname : Bytes)
    → (pkcs12_default_nickname_collision_callback old (some nickname) ≡ none)
      ↔ (old ≡ some nickname)
unfolding pkcs12_default_nickname_collision_callback
default_callback_lem none nickname = (λ h. absurd (cc h), λ h. absurd (cc h))
default_callback_lem (some old_nickname) nickname =
    elim (Bool-cases (same_bytes old_nickname nickname)) [
      | inl e ↦ (λ h. ap some (same_bytes_eq old_nickname nickname e), λ h. rw e refl)
      | inr e ↦ (
        λ h. absurd (cc (h, default_made old_nickname nickname e)),
        λ h. absurd (cc (e, h, same_bytes_self nickname)),
      )
    ]

module _ (py : Python) (memory : Memory) where
  open py use {
    Object, Cert, call, is_none, as_bool, as_tuple, as_string, from_cert, from_string, none_object,
  }

  -- The copy of a text, or only its length where the memory for the copy is refused.
  abbrev pub CopyAnswer : Bytes → Option Nickname → Type 0
  CopyAnswer text nickname =
      ((memory.copy_made ≡ true) × (nickname ≡ some (copied py text)))
      ⊎ ((memory.copy_made ≡ false) × (nickname ≡ some (record { octets = []; len = length text })))

  -- For a string: its text, or NULL where the memory for the SECItem is refused.
  abbrev pub TextAnswer : Option (Option Bytes) → Option Nickname → Type 0
  TextAnswer string nickname =
      ((memory.item_made ≡ true)
        × (text : Bytes) × (string ≡ some (some text))
        × CopyAnswer text nickname)
      ⊎ ((memory.item_made ≡ false)
          × (text : Option Bytes) × (string ≡ some text)
          × (nickname ≡ none))

  -- A nickname and `false` for the flag: the text of a string, or NULL for None.
  abbrev pub GoesOn : Object → Option Nickname → Type 0
  GoesOn result nickname =
      (new_nickname : Object) × (cancel : Object) × (as_tuple result
        ≡ some (new_nickname ∷ cancel ∷ []))
      × (as_bool cancel ≡ some false)
      × (((is_none new_nickname ≡ true) × (nickname ≡ none))
          ⊎ TextAnswer (as_string new_nickname) nickname)

  abbrev Named : Object → Option Nickname → Type 0
  Named new_nickname nickname =
      ((is_none new_nickname ≡ true) × (nickname ≡ none))
      ⊎ TextAnswer (as_string new_nickname) nickname

  copy_by :
      (copy b : Bool) (t : Bytes) (nickname : Option Nickname)
      → memory.copy_made ≡ copy
      → without_copy py copy (nickname_answer py b (some (some t))) ≡ answered false nickname
      → (b ≡ false) × CopyAnswer t nickname
  unfolding nickname_answer without_copy
  copy_by true b t nickname m h = (cc h, inl (m, cc h))
  copy_by false b t nickname m h = (cc h, inr (m, cc h))

  copy_answer :
      (b : Bool) (t : Bytes) (nickname : Option Nickname)
      → without_copy py memory.copy_made (nickname_answer py b (some (some t)))
        ≡ answered false nickname
      → (b ≡ false) × CopyAnswer t nickname
  copy_answer b t nickname h = copy_by memory.copy_made b t nickname refl h

  no_text :
      (copy : Bool) (nickname : Option Nickname)
      → ¬ (without_copy py copy null_used ≡ answered false nickname)
  unfolding without_copy
  no_text true nickname h = absurd (cc h)
  no_text false nickname h = absurd (cc h)

  made_text :
      (b : Bool) (text : Option Bytes) (nickname : Option Nickname)
      → memory.item_made ≡ true
      → without_copy py memory.copy_made (nickname_answer py b (some text))
        ≡ answered false nickname
      → (b ≡ false) × TextAnswer (some text) nickname
  unfolding nickname_answer without_copy
  made_text b none nickname m h = absurd (no_text memory.copy_made nickname h)
  made_text b (some t) nickname m h =
      let (e, answer) = copy_answer b t nickname h in (e, inl (m, t, refl, answer))

  text_goes_on :
      (b : Bool) (text : Option Bytes) (nickname : Option Nickname)
      → allocated_answer py memory b (some text) ≡ answered false nickname
      → (b ≡ false) × TextAnswer (some text) nickname
  unfolding allocated_answer nickname_answer
  text_goes_on b text nickname h = elim (Bool-cases memory.item_made) [
    | inr m ↦
        let made : answered b none ≡ answered false nickname =
          sym (rw (allocated_answer, m) refl) ∙ h in
        (cc made, inr (m, text, refl, cc made))
    | inl m ↦ made_text b text nickname m (sym (rw (allocated_answer, m) refl) ∙ h)
  ]

  flag_goes_on :
      (flag : Option Bool) (text : Option (Option Bytes)) (nickname : Option Nickname)
      → (elim flag as (λ _. Collision) [
        | none ↦ answered true none
        | some b ↦ allocated_answer py memory b text
      ])
        ≡ answered false nickname
      → (flag ≡ some false) × (((text ≡ none) × (nickname ≡ none)) ⊎ TextAnswer text nickname)
  unfolding allocated_answer nickname_answer
  flag_goes_on none text nickname h = absurd (cc h)
  flag_goes_on (some b) none nickname h = (cc h, inl (refl, cc h))
  flag_goes_on (some b) (some text) nickname h =
      let (e, answer) = text_goes_on b text nickname h in (ap some e, inr answer)

  abbrev pair_answer : Object → Object → Collision
  pair_answer new_nickname cancel = elim (as_bool cancel) as (λ _. Collision) [
    | none ↦ answered true none
    | some b ↦ allocated_answer py memory b (as_string new_nickname)
  ]

  pair_string :
      (new_nickname cancel : Object) (t : Option Bytes)
      → as_string new_nickname ≡ some t
      → collision_pair py memory (new_nickname ∷ cancel ∷ []) ≡ pair_answer new_nickname cancel
  unfolding collision_pair
  pair_string new_nickname cancel t e = rw (collision_pair, e) refl

  pair_other :
      (new_nickname cancel : Object)
      → as_string new_nickname ≡ none
      → collision_pair py memory (new_nickname ∷ cancel ∷ [])
        ≡ (if is_none new_nickname then pair_answer new_nickname cancel else answered true none)
  unfolding collision_pair
  pair_other new_nickname cancel e = rw (collision_pair, e) refl

  none_answer :
      (new_nickname cancel : Object)
      → as_string new_nickname ≡ none
      → is_none new_nickname ≡ true
      → collision_pair py memory (new_nickname ∷ cancel ∷ []) ≡ pair_answer new_nickname cancel
  none_answer new_nickname cancel e n = rw (pair_other new_nickname cancel e, n) refl

  refused_answer :
      (new_nickname cancel : Object)
      → as_string new_nickname ≡ none
      → is_none new_nickname ≡ false
      → collision_pair py memory (new_nickname ∷ cancel ∷ []) ≡ answered true none
  refused_answer new_nickname cancel e n = rw (pair_other new_nickname cancel e, n) refl

  no_tuple :
      (result : Object)
      → as_tuple result ≡ none
      → collision_answer py memory (some result) ≡ answered true none
  unfolding collision_answer
  no_tuple result e = rw (collision_answer, e) refl

  tuple_answer :
      (result : Object) (values : List Object)
      → as_tuple result ≡ some values
      → collision_answer py memory (some result) ≡ collision_pair py memory values
  unfolding collision_answer
  tuple_answer result values e = rw (collision_answer, e) refl

  two_goes_on :
      (new_nickname cancel : Object) (nickname : Option Nickname)
      → collision_pair py memory (new_nickname ∷ cancel ∷ []) ≡ answered false nickname
      → (as_bool cancel ≡ some false) × Named new_nickname nickname
  two_goes_on new_nickname cancel nickname h = elim (Option-cases (as_string new_nickname)) [
    | inr (t, e) ↦
        let (flag, named) =
          flag_goes_on (as_bool cancel) (as_string new_nickname) nickname
            (sym (pair_string new_nickname cancel t e) ∙ h) in
        (flag, elim named [ inl (f, _) ↦ absurd (cc (e, f)) | inr n ↦ inr n ])
    | inl e ↦ elim (Bool-cases (is_none new_nickname)) [
      | inl n ↦
          let (flag, named) =
            flag_goes_on (as_bool cancel) (as_string new_nickname) nickname
              (sym (none_answer new_nickname cancel e n) ∙ h) in
          (flag, elim named [ inl (_, f) ↦ inl (n, f) | inr m ↦ inr m ])
      | inr n ↦ absurd (cc (h, refused_answer new_nickname cancel e n))
    ]
  ]

  values_go_on :
      (values : List Object) (nickname : Option Nickname)
      → collision_pair py memory values ≡ answered false nickname
      → (new_nickname : Object) × (cancel : Object) × (values ≡ new_nickname ∷ cancel ∷ [])
        × (as_bool cancel ≡ some false)
        × Named new_nickname nickname
  unfolding collision_pair
  values_go_on [] nickname h = absurd (cc h)
  values_go_on (a ∷ []) nickname h = absurd (cc h)
  values_go_on (a ∷ b ∷ []) nickname h =
      let (flag, named) = two_goes_on a b nickname h in (a, b, refl, flag, named)
  values_go_on (a ∷ b ∷ c ∷ rest) nickname h = absurd (cc h)

  answered_lem :
      (answer : Option Object) (nickname : Option Nickname)
      → collision_answer py memory answer ≡ answered false nickname
      → (result : Object) × (answer ≡ some result) × GoesOn result nickname
  unfolding collision_answer
  answered_lem none nickname h = absurd (cc h)
  answered_lem (some result) nickname h = elim (Option-cases (as_tuple result)) [
    | inl e ↦ absurd (cc (h, no_tuple result e))
    | inr (values, e) ↦
        let (n, c, split, flag, named) =
          values_go_on values nickname (sym (tuple_answer result values e) ∙ h) in
        (result, refl, (n, c, e ∙ ap some split, flag, named))
  ]

  -- The object for the old nickname.
  abbrev pub old_object : Option Bytes → Object
  old_object old = elim old [ none ↦ none_object | some text ↦ from_string text ]

  undefined_answer :
      (thread : ℕ) (old : Option Bytes) (cert : Cert) (locals : Locals Object)
      → get_thread_local Object thread nickname_key locals ≡ none
      → pkcs12_nickname_collision_callback py memory thread old cert locals ≡ undefined_callback
  unfolding pkcs12_nickname_collision_callback
  undefined_answer thread old cert locals e = rw (pkcs12_nickname_collision_callback, e) refl

  asked :
      (thread : ℕ) (old : Option Bytes) (cert : Cert) (locals : Locals Object) (callback : Object)
      → get_thread_local Object thread nickname_key locals ≡ some callback
      → pkcs12_nickname_collision_callback py memory thread old cert locals
        ≡ arguments_answer py
            (old_missing py memory old)
            memory.cert_object_made
            memory.new_args_made
            (collision_answer py memory (call callback (old_object old ∷ from_cert cert ∷ [])))
  unfolding pkcs12_nickname_collision_callback
  asked thread old cert locals callback e = rw (pkcs12_nickname_collision_callback, e) refl

  arguments_given :
      (missing cert_made args_made : Bool) (answer : Collision) (nickname : Option Nickname)
      → arguments_answer py missing cert_made args_made answer ≡ answered false nickname
      → answer ≡ answered false nickname
  unfolding arguments_answer
  arguments_given false true true answer nickname h = h
  arguments_given false true false answer nickname h = absurd (cc h)
  arguments_given false false _ answer nickname h = absurd (cc h)
  arguments_given true true true answer nickname h = absurd (cc h)
  arguments_given true true false answer nickname h = absurd (cc h)
  arguments_given true false _ answer nickname h = absurd (cc h)

  -- If NSS gets a flag that is not set, and so goes on with an import, the thread has a callback,
  -- and this returned a tuple of exactly two values, the second of them False; whatever requests
  -- for memory are refused. The nickname is NULL if the first value is None; for a string it is a
  -- copy, without octets where the memory for those is refused, or NULL where the memory for the
  -- SECItem is.
  pub nickname_collision_lem :
      (thread : ℕ) (old : Option Bytes) (cert : Cert) (locals : Locals Object)
      (nickname : Option Nickname)
      → pkcs12_nickname_collision_callback py memory thread old cert locals
        ≡ answered false nickname
      → (callback : Object) × (result : Object) × (get_thread_local Object thread nickname_key
            locals
          ≡ some callback)
        × (call callback (old_object old ∷ from_cert cert ∷ []) ≡ some result)
        × GoesOn result nickname
  nickname_collision_lem thread old cert locals nickname h =
      elim (Option-cases (get_thread_local Object thread nickname_key locals)) [
        | inl e ↦ absurd (cc (h, undefined_answer thread old cert locals e))
        | inr (callback, e) ↦
            let (result, called, goes_on) =
              answered_lem (call callback (old_object old ∷ from_cert cert ∷ [])) nickname (
                arguments_given (old_missing py memory old) memory.cert_object_made
                  memory.new_args_made
                  (collision_answer py memory
                    (call callback (old_object old ∷ from_cert cert ∷ [])))
                  nickname (sym (asked thread old cert locals callback e) ∙ h)) in
            (callback, result, e, called, goes_on)
      ]
