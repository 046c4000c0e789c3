-- ===== src/Names/Rdn.antt =====
-- The text of an RDN (src/py_nss.c): `CERTRDN_to_pystr` and `CERTAVA_value_to_pystr`.
--
-- What NSS answers for an AVA is its record: the name of its tag in the table, its OID as text, and
-- its value, decoded and quoted; `none` is a failure. Texts are octets, and there is memory for
-- them.
use python_nss_ng.Prelude.{
  Bytes, Bool, true, false, Option, none, some, List, [], ◌∷◌, ◌++◌, ◌≡◌, refl, ap, ◌∙◌,
  append_assoc, append-nil, sym, Option-cases, map, inl, inr,
}

pub record Ava : Type 0 where
  pub attr_name : Option Bytes
  pub oid_name : Option Bytes
  pub quoted_value : Option Bytes

-- The name, or the OID where the table has none.
abbrev pub ava_type : Option Bytes → Option Bytes → Option Bytes
ava_type (some attr_name) oid_name = some attr_name
ava_type none oid_name = oid_name

abbrev pub name_value : Option Bytes → Option Bytes → Option Bytes
name_value none value = none
name_value (some name) none = none
name_value (some name) (some value) = some (name ++ b'=' ∷ value)

-- `none` is a Python exception; an AVA that is NULL has an empty text.
unfoldable pub certava_value_to_pystr : Option Ava → Option Bytes
certava_value_to_pystr none = some []
certava_value_to_pystr (some ava) =
    name_value (ava_type ava.attr_name ava.oid_name) ava.quoted_value

-- The text so far and the next AVA; the flag is `first`.
abbrev pub extended : Bool → Bytes → Bytes → Bytes
extended true result text = text
extended false result text = result ++ b'+' ∷ text

unfoldable pub join_avas : Bool → Bytes → List Ava → Option Bytes
unfolding certava_value_to_pystr
join_avas first result [] = some result
join_avas first result (ava ∷ avas) = elim (certava_value_to_pystr (some ava)) [
  | none ↦ none
  | some text ↦ join_avas false (extended first result text) avas
]

-- `none` is a NULL RDN.
unfoldable pub certrdn_to_pystr : Option (List Ava) → Option Bytes
unfolding join_avas
certrdn_to_pystr none = some []
certrdn_to_pystr (some avas) = join_avas true [] avas

-- The texts of all AVAs, if they all have one, and these with a `+` between each two.
abbrev pub all_texts : List Ava → Option (List Bytes)
all_texts [] = some []
all_texts (ava ∷ avas) = elim (certava_value_to_pystr (some ava)) [
  | none ↦ none
  | some text ↦ elim (all_texts avas) [ none ↦ none | some texts ↦ some (text ∷ texts) ]
]

abbrev pub plus_each : List Bytes → Bytes
plus_each [] = []
plus_each (text ∷ texts) = b'+' ∷ (text ++ plus_each texts)

abbrev pub with_plus : List Bytes → Bytes
with_plus [] = []
with_plus (text ∷ texts) = text ++ plus_each texts

abbrev pub joined_texts : (List Bytes → Bytes) → Option (List Bytes) → Option Bytes
joined_texts f none = none
joined_texts f (some texts) = some (f texts)

join_rest :
    (result : Bytes) (avas : List Ava)
    → join_avas false result avas
      ≡ joined_texts (λ texts. result ++ plus_each texts) (all_texts avas)
unfolding join_avas
join_rest result [] = ap some (sym (append-nil result))
join_rest result (ava ∷ avas) = elim (Option-cases (certava_value_to_pystr (some ava))) [
  | inl e ↦ rw (join_avas, e, all_texts) refl
  | inr (text, e) ↦ elim (Option-cases (all_texts avas)) [
    | inl f ↦
        rw (join_avas, e, all_texts)
          (join_rest (result ++ b'+' ∷ text) avas
            ∙ ap (joined_texts (λ texts. (result ++ b'+' ∷ text) ++ plus_each texts)) f
            ∙ rw (f) refl)
    | inr (texts, f) ↦
        rw (join_avas, e, all_texts)
          (join_rest (result ++ b'+' ∷ text) avas
            ∙ ap (joined_texts (λ ts. (result ++ b'+' ∷ text) ++ plus_each ts)) f
            ∙ rw (f) (ap some (append_assoc result (b'+' ∷ text) (plus_each texts))))
  ]
]

-- The loop, by the texts that the function of one AVA gives.
joined_lem :
    (avas : List Ava) → certrdn_to_pystr (some avas) ≡ joined_texts with_plus (all_texts avas)
unfolding certrdn_to_pystr join_avas
joined_lem [] = refl
joined_lem (ava ∷ avas) = elim (Option-cases (certava_value_to_pystr (some ava))) [
  | inl e ↦ rw (certrdn_to_pystr, join_avas, e, all_texts) refl
  | inr (text, e) ↦ elim (Option-cases (all_texts avas)) [
    | inl f ↦
        rw (certrdn_to_pystr, join_avas, e, all_texts)
          (join_rest text avas
            ∙ ap (joined_texts (λ texts. text ++ plus_each texts)) f
            ∙ rw (f) refl)
    | inr (texts, f) ↦
        rw (certrdn_to_pystr, join_avas, e, all_texts)
          (join_rest text avas ∙ ap (joined_texts (λ ts. text ++ plus_each ts)) f ∙ rw (f) refl)
  ]
]

-- A type and a value, none where one of them cannot be had.
abbrev pub pair_of : Ava → Option (Bytes × Bytes)
pair_of ava = elim ava.attr_name [
  | some name ↦ elim ava.quoted_value [ some value ↦ some (name, value) | none ↦ none ]
  | none ↦ elim ava.oid_name [
    | some oid ↦ elim ava.quoted_value [ some value ↦ some (oid, value) | none ↦ none ]
    | none ↦ none
  ]
]

abbrev pub pairs_of : List Ava → Option (List (Bytes × Bytes))
pairs_of [] = some []
pairs_of (ava ∷ avas) = elim (pair_of ava) [
  | none ↦ none
  | some pair ↦ elim (pairs_of avas) [ none ↦ none | some pairs ↦ some (pair ∷ pairs) ]
]

-- The text of an RDN of these types and values.
abbrev pub rdn_rest : List (Bytes × Bytes) → Bytes
rdn_rest [] = []
rdn_rest ((name, value) ∷ pairs) = b'+' ∷ (name ++ b'=' ∷ (value ++ rdn_rest pairs))

abbrev pub rdn_text : List (Bytes × Bytes) → Bytes
rdn_text [] = []
rdn_text ((name, value) ∷ pairs) = name ++ b'=' ∷ (value ++ rdn_rest pairs)

abbrev pub RdnOutcome : Option (List (Bytes × Bytes)) → Option Bytes → Type 0
RdnOutcome none answer = answer ≡ none
RdnOutcome (some pairs) answer = answer ≡ some (rdn_text pairs)

abbrev pair_text : Bytes × Bytes → Bytes
pair_text (name, value) = name ++ b'=' ∷ value

abbrev map_pair : {A B : Type 0} → (A → B) → Option A → Option B
map_pair f none = none
map_pair f (some x) = some (f x)

ava_text : (ava : Ava) → certava_value_to_pystr (some ava) ≡ map_pair pair_text (pair_of ava)
unfolding certava_value_to_pystr
ava_text ava = elim (Option-cases ava.attr_name) [
  | inr (name, e) ↦ elim (Option-cases ava.quoted_value) [
    | inr (v, f) ↦ rw (certava_value_to_pystr, e, f) refl
    | inl f ↦ rw (certava_value_to_pystr, e, f) refl
  ]
  | inl e ↦ elim (Option-cases ava.oid_name) [
    | inl g ↦ rw (certava_value_to_pystr, e, g) refl
    | inr (o, g) ↦ elim (Option-cases ava.quoted_value) [
      | inr (v, f) ↦ rw (certava_value_to_pystr, e, g, f) refl
      | inl f ↦ rw (certava_value_to_pystr, e, g, f) refl
    ]
  ]
]

texts_of : (avas : List Ava) → all_texts avas ≡ map_pair (map pair_text) (pairs_of avas)
texts_of [] = refl
texts_of (ava ∷ avas) = elim (Option-cases (pair_of ava)) [
  | inl e ↦ rw (all_texts, ava_text ava, pairs_of, e) refl
  | inr (pair, e) ↦ elim (Option-cases (pairs_of avas)) [
    | inl f ↦ rw (all_texts, ava_text ava, pairs_of, e, texts_of avas, f) refl
    | inr (pairs, f) ↦ rw (all_texts, ava_text ava, pairs_of, e, texts_of avas, f) refl
  ]
]

plus_rest : (pairs : List (Bytes × Bytes)) → plus_each (map pair_text pairs) ≡ rdn_rest pairs
plus_rest [] = refl
plus_rest ((name, value) ∷ pairs) =
    ap (λ t. b'+' ∷ t)
      (append_assoc name (b'=' ∷ value) (plus_each (map pair_text pairs))
        ∙ ap (λ t. name ++ b'=' ∷ (value ++ t)) (plus_rest pairs))

plus_text : (pairs : List (Bytes × Bytes)) → with_plus (map pair_text pairs) ≡ rdn_text pairs
plus_text [] = refl
plus_text ((name, value) ∷ pairs) =
    append_assoc name (b'=' ∷ value) (plus_each (map pair_text pairs))
    ∙ ap (λ t. name ++ b'=' ∷ (value ++ t)) (plus_rest pairs)

by_pairs :
    (avas : List Ava) (pairs : Option (List (Bytes × Bytes)))
    → pairs_of avas ≡ pairs
    → RdnOutcome pairs (certrdn_to_pystr (some avas))
by_pairs avas none e =
    joined_lem avas ∙ ap (joined_texts with_plus) (texts_of avas ∙ ap (map_pair (map pair_text)) e)
by_pairs avas (some pairs) e =
    joined_lem avas
    ∙ ap (joined_texts with_plus) (texts_of avas ∙ ap (map_pair (map pair_text)) e)
    ∙ ap some (plus_text pairs)

-- The text of an RDN is, for its AVAs in order, the name of the type, or its OID where it has no
-- name, an equals sign and the value, with a `+` between each two; the answer is the exception
-- exactly if an AVA lacks both name and OID, or the value.
pub certrdn_to_pystr_lem :
    (avas : List Ava) → RdnOutcome (pairs_of avas) (certrdn_to_pystr (some avas))
certrdn_to_pystr_lem avas = by_pairs avas (pairs_of avas) refl
