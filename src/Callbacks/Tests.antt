-- ===== src/Callbacks/Tests.antt =====
-- Callbacks of a small Python, and what NSS gets of their answers.
use python_nss_ng.Prelude.{
  ℕ, Bytes, Bool, true, false, none, some, List, [], ◌∷◌, ◌++◌, ◌<◌, length, codes, ◌≡◌, ◌↔◌, refl,
}
use python_nss_ng.Pem.{c_string}
use python_nss_ng.Dict.{bytes_test, number_test, get, set}
use python_nss_ng.Threads.{nss_dict, set_thread_local, get_thread_local}
use python_nss_ng.Callbacks.{
  Python, yes, no, raises, Callback, ssl_auth_certificate, selected, null_used,
  get_client_auth_data, client_auth_result, first_value,
}
use python_nss_ng.Callbacks.Ssl.{auth_certificate_lem, client_auth_lem}
use python_nss_ng.Callbacks.Password.{
  password_key, pk11_password_callback, password_answer, pk11_set_password_callback,
}
use python_nss_ng.Callbacks.Nickname.{
  Nickname, Memory, allocated_answer, without_copy, arguments_answer, nickname_key, answered,
  copied, nickname_answer, collision_pair, collision_answer, pkcs12_nickname_collision_callback,
  pkcs12_default_nickname_collision_callback, pkcs12_set_nickname_collision_callback,
}
use python_nss_ng.Callbacks.Nickname.Answer.{
  default_callback_lem, nickname_collision_lem, GoesOn, old_object,
}
use python_nss_ng.Callbacks.Nickname.Length.{nickname_answer-nul}
use python_nss_ng.Callbacks.Own.{
  Call, set_password, set_nickname, after, step, last_password, last_nickname, last_hooked,
  own_callbacks, password_own,
}

-- Values, and a function that returns one whatever it is called with.
data Value : Type 0 where
  null : Value
  truth_value : Bool → Value
  text : Bytes → Value
  cert key : ℕ → Value
  empty : Value
  pair : Value → Value → Value
  function : Value → Value
  -- Its truth cannot be told.
  broken : Value

abbrev small : Python
small = record {
  Object = Value;
  Cert = ℕ;
  Key = ℕ;
  call = λ f _. elim f [ function v ↦ some v | _ ↦ none ];
  is_callable = λ f. elim f [ function v ↦ true | _ ↦ false ];
  truth = λ v. elim v [
    | null ↦ no
    | truth_value b ↦ elim b [ true ↦ yes | false ↦ no ]
    | broken ↦ raises
    | _ ↦ yes
  ];
  is_none = λ v. elim v [ null ↦ true | _ ↦ false ];
  as_bool = λ v. elim v [ truth_value b ↦ some b | _ ↦ none ];
  as_tuple = λ v. elim v [ empty ↦ some [] | pair a b ↦ some (a ∷ b ∷ []) | _ ↦ none ];
  as_string = λ v. elim v [ text t ↦ some (some t) | _ ↦ none ];
  as_cert = λ v. elim v [ cert n ↦ some n | _ ↦ none ];
  as_key = λ v. elim v [ key n ↦ some n | _ ↦ none ];
  from_bool = truth_value;
  from_string = text;
  from_cert = cert;
  none_object = null;
}

abbrev answering : Value → Callback small
answering v = record { function = function v; callback_data = text (codes "data") ∷ [] }

-- A result whose `__bool__` raises lets the certificate pass.
auth_certificate_lem_example : ssl_auth_certificate small (answering broken) null true false ≡ true
auth_certificate_lem_example =
    (auth_certificate_lem small (answering broken) null true false).1 (broken, refl, λ e. cc e)

client_auth_lem_example :
    get_client_auth_data small (answering (pair (cert 1) (key 2))) null ≡ selected 1 2
client_auth_lem_example = (client_auth_lem small (answering (pair (cert 1) (key 2))) null 1 2).1 (
  pair (cert 1) (key 2),
  refl,
  (refl, (cert 1 ∷ key 2 ∷ [], refl, (cert 1, key 2, refl, refl, refl, refl, refl))),
)

-- The empty tuple gives the item 0 of a tuple that has none.
empty_tuple : get_client_auth_data small (answering empty) null ≡ null_used
unfolding get_client_auth_data client_auth_result first_value
empty_tuple = refl

-- The first thread sets callbacks, the second clears its own.
abbrev two_threads : List (Call small)
two_threads =
    set_password 2 null
    ∷ set_nickname 1 (function (pair (text (codes "new")) (truth_value false)))
    ∷ set_password 1 (function (text (codes "one")))
    ∷ []

own_callbacks_example :
    (get_thread_local Value 1 password_key (after small two_threads).locals
      ≡ last_password small 1 two_threads)
    × (get_thread_local Value 1 nickname_key (after small two_threads).locals
        ≡ last_nickname small 1 two_threads)
    × ((after small two_threads).password_func ≡ last_hooked small two_threads)
own_callbacks_example = own_callbacks small 1 two_threads

password_own_example :
    pk11_password_callback small 1 null false none (after small two_threads).locals
    ≡ elim (last_password small 1 two_threads) [
      | none ↦ none
      | some callback ↦ password_answer small (small.call callback (null ∷ truth_value false ∷ []))
    ]
password_own_example = password_own small 1 null false none two_threads

-- The callback of the first thread is there, and NSS has been told to ask none.
cleared_for_all :
    (last_password small 1 two_threads ≡ some (function (text (codes "one"))))
    × (last_hooked small two_threads ≡ false)
unfolding last_password last_hooked
cleared_for_all = (refl, refl)

default_callback_lem_example :
    (pkcs12_default_nickname_collision_callback (some (codes "ca")) (some (codes "ca")) ≡ none)
    ↔ (some (codes "ca") ≡ some (codes "ca"))
default_callback_lem_example = default_callback_lem (some (codes "ca")) (codes "ca")

abbrev granted : Memory
granted = record {
  old_object_made = true;
  cert_object_made = true;
  new_args_made = true;
  item_made = true;
  copy_made = true;
}

new_answered :
    pkcs12_nickname_collision_callback small granted 1
      (some (codes "old"))
      7
      (after small two_threads).locals
    ≡ answered false (some (copied small (codes "new")))
unfolding pkcs12_nickname_collision_callback after step pkcs12_set_nickname_collision_callback
    pk11_set_password_callback set_thread_local get_thread_local nss_dict get set collision_answer
    collision_pair nickname_answer allocated_answer without_copy arguments_answer c_string
    number_test bytes_test
new_answered = refl

nickname_collision_lem_example :
    (callback : Value) × (result : Value) × (get_thread_local Value 1 nickname_key
        (after small two_threads).locals
      ≡ some callback)
    × (small.call callback (old_object small granted (some (codes "old")) ∷ cert 7 ∷ [])
        ≡ some result)
    × GoesOn small granted result (some (copied small (codes "new")))
nickname_collision_lem_example =
    nickname_collision_lem small granted 1 (some (codes "old")) 7 (after small two_threads).locals
      (some (copied small (codes "new"))) new_answered

nickname_answer-nul_example :
    (nickname : Nickname) × (nickname_answer small false
        (some (some (codes "ab" ++ 0 ∷ 99 ∷ codes "d")))
      ≡ answered false (some nickname))
    × (nickname.octets ≡ codes "ab" ++ (0 ∷ []))
    × (length nickname.octets < nickname.len)
unfolding c_string
nickname_answer-nul_example = nickname_answer-nul small false (codes "ab") (codes "d") 99 refl
