-- ===== src/Callbacks/Nickname.antt =====
-- The nickname callbacks of the PKCS 12 decoder (src/py_nss.c): the default one, the one that asks
-- Python, and which of them an import uses.
pub mod Answer
pub mod Length
use python_nss_ng.Prelude.{
  ℕ, Bytes, Bool, true, false, not, ◌&&◌, Option, none, some, List, [], ◌∷◌, ◌++◌, length, ◌==◌,
  if◌then◌else◌, codes,
}
use python_nss_ng.Pem.{c_string}
use python_nss_ng.Dict.{same_bytes}
use python_nss_ng.Threads.{Locals, set_thread_local, get_thread_local}
use python_nss_ng.Callbacks.{Python}

abbrev pub nickname_key : Bytes
nickname_key = codes "nickname_collision_callback"

-- The SECItem of a nickname: its allocation with the NUL, and its length.
pub record Nickname : Type 0 where
  pub octets : Bytes
  pub len : ℕ

abbrev nul_terminated : Bytes → Bytes
nul_terminated text = text ++ (0 ∷ [])

-- The new nickname and the collision error: `old` is the old nickname, none if it has no octets, and
-- `made` is what CERT_MakeCANickname answers, a C string.
unfoldable pub pkcs12_default_nickname_collision_callback :
    Option Bytes → Option Bytes → Option Nickname
pkcs12_default_nickname_collision_callback old none = none
pkcs12_default_nickname_collision_callback none (some nickname) =
    some (record { octets = nul_terminated nickname; len = length nickname })
pkcs12_default_nickname_collision_callback (some old_nickname) (some nickname) =
    if same_bytes old_nickname nickname
    then none
    else some (record { octets = nul_terminated nickname; len = length nickname })

-- Which requests for memory are granted: the object for the old nickname, the object for the
-- certificate, the tuple of the arguments, the SECItem of the new nickname and the copy of its text.
pub record Memory : Type 0 where
  pub old_object_made : Bool
  pub cert_object_made : Bool
  pub new_args_made : Bool
  pub item_made : Bool
  pub copy_made : Bool

-- What NSS gets: NULL with the flag as it was, the flag and the nickname, none for NULL, or a use of
-- a NULL: the one that a failed encoding leaves, or an object for the old nickname that was not made.
pub data Collision : Type 0 where
  undefined_callback : Collision
  answered : Bool → Option Nickname → Collision
  null_used : Collision

module _ (py : Python) where
  open py use {
    Object, Cert, call, is_callable, is_none, as_bool, as_tuple, as_string, from_cert, from_string,
    none_object,
  }

  -- The strdup stops at a NUL, the length does not.
  abbrev pub copied : Bytes → Nickname
  copied text = record { octets = nul_terminated (c_string text); len = length text }

  unfoldable pub nickname_answer : Bool → Option (Option Bytes) → Collision
  nickname_answer cancel none = answered cancel none
  nickname_answer cancel (some none) = null_used
  nickname_answer cancel (some (some text)) = answered cancel (some (copied text))

  -- PORT_New, which leaves the NULL where it fails, and PORT_Strdup, which leaves a length without
  -- octets where it fails.
  unfoldable pub without_copy : Bool → Collision → Collision
  without_copy false (answered cancel (some nickname)) =
      answered cancel (some (record { octets = []; len = nickname.len }))
  without_copy _ answer = answer

  unfoldable pub allocated_answer : Memory → Bool → Option (Option Bytes) → Collision
  unfolding nickname_answer without_copy
  allocated_answer memory cancel none = nickname_answer cancel none
  allocated_answer memory cancel (some text) =
      if memory.item_made
      then without_copy memory.copy_made (nickname_answer cancel (some text))
      else answered cancel none

  -- The flag is PR_TRUE until the callback has returned a pair of the right kinds.
  unfoldable pub collision_pair : Memory → List Object → Collision
  unfolding allocated_answer
  collision_pair memory (new_nickname ∷ cancel ∷ []) =
      let refused = answered true none in
      let text = as_string new_nickname in
      let pair = elim (as_bool cancel) as (λ _. Collision) [
        | none ↦ refused
        | some flag ↦ allocated_answer memory flag text
      ] in
      let other = if is_none new_nickname then pair else refused in
      elim text [ none ↦ other | some t ↦ pair ]
  collision_pair memory values = answered true none

  unfoldable pub collision_answer : Memory → Option Object → Collision
  unfolding collision_pair
  collision_answer memory none = answered true none
  collision_answer memory (some result) = elim (as_tuple result) [
    | none ↦ answered true none
    | some values ↦ collision_pair memory values
  ]

  -- Whether the object for the old nickname is a NULL.
  abbrev pub old_missing : Memory → Option Bytes → Bool
  old_missing memory none = false
  old_missing memory (some text) = not memory.old_object_made

  -- What is answered once the callback is known: a missing object is used by Py_DECREF where there
  -- is no object for the certificate, and else by the call.
  unfoldable pub arguments_answer : Bool → Bool → Bool → Collision → Collision
  arguments_answer false cert_made args_made answer =
      if cert_made then (if args_made then answer else answered true none) else undefined_callback
  arguments_answer true cert_made args_made answer =
      if cert_made && not args_made then answered true none else null_used

  unfoldable pub pkcs12_nickname_collision_callback :
      Memory → ℕ → Option Bytes → Cert → Locals Object → Collision
  unfolding collision_answer arguments_answer
  pkcs12_nickname_collision_callback memory thread old cert locals =
      let py_old_nickname = elim old as (λ _. Object) [
        | none ↦ none_object
        | some text ↦ from_string text
      ] in
      elim (get_thread_local Object thread nickname_key locals) [
        | none ↦ undefined_callback
        | some callback ↦
            arguments_answer (old_missing memory old) memory.cert_object_made memory.new_args_made
              (collision_answer memory (call callback (py_old_nickname ∷ from_cert cert ∷ [])))
      ]

  -- `none` is the TypeError.
  unfoldable pub pkcs12_set_nickname_collision_callback :
      ℕ → Object → Locals Object → Option (Locals Object)
  pkcs12_set_nickname_collision_callback thread callback locals =
      if is_callable callback
      then some (set_thread_local Object thread nickname_key callback locals)
      else none

  -- The callback that an import hands to SEC_PKCS12DecoderValidateBags.
  pub data ImportCallback : Type 0 where
    default_callback python_callback : ImportCallback

  -- The answers of NSS to the two calls are parameters; `true` is SECSuccess.
  pub data Import : Type 0 where
    imported validate_failed import_failed : Import

  unfoldable pub import_callback : ℕ → Locals Object → ImportCallback
  import_callback thread locals = elim (get_thread_local Object thread nickname_key locals) [
    | none ↦ default_callback
    | some c ↦ python_callback
  ]

  unfoldable pub database_import : (ImportCallback → Bool) → Bool → ℕ → Locals Object → Import
  database_import validate_bags import_bags thread locals =
      if validate_bags (import_callback thread locals)
      then (if import_bags then imported else import_failed)
      else validate_failed
