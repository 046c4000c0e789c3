-- ===== src/Names/Oid/Ava.antt =====
-- The names of the parts of a distinguished name and their tags (src/py_nss.c): the one leads to the
-- other, in any case.
use python_nss_ng.Prelude.{
  ℕ, Bytes, Bool, true, false, not, ◌&&◌, Option, none, some, List, [], ◌∷◌, map, ◌==◌,
  if◌then◌else◌, ◌≡◌, refl, sym, ◌∙◌, ◌⊎◌, Bool-cases, Option-cases, inl, inr, ==_iff, ==_self,
}
use python_nss_ng.Names.{ascii_lower}
use python_nss_ng.Names.Oid.{
  Tags, DnAvaProps, dn_ava_props, same_ignoring_case, find_tag, ava_oid_tag_to_name, find_name,
  ava_name_to_oid_tag,
}

abbrev small : Bytes → Bytes
small = map ascii_lower

if_true : (a b : Bool) → (if a then b else false) ≡ true → (a ≡ true) × (b ≡ true)
if_true true b h = (refl, h)
if_true false b h = absurd (cc h)

same_small : (s t : Bytes) → same_ignoring_case s t ≡ true → small s ≡ small t
unfolding same_ignoring_case
same_small [] [] h = refl
same_small [] (d ∷ t) h = absurd (cc h)
same_small (c ∷ s) [] h = absurd (cc h)
same_small (c ∷ s) (d ∷ t) h =
    let (first, rest) = if_true (ascii_lower c == ascii_lower d) (same_ignoring_case s t) h in
    let e : ascii_lower c ≡ ascii_lower d = (==_iff (ascii_lower c) (ascii_lower d)).0 first in
    cc (e, same_small s t rest)

small_same : (s t : Bytes) → small s ≡ small t → same_ignoring_case s t ≡ true
unfolding same_ignoring_case
small_same [] [] h = refl
small_same [] (d ∷ t) h = absurd (cc h)
small_same (c ∷ s) [] h = absurd (cc h)
small_same (c ∷ s) (d ∷ t) h =
    let first : ascii_lower c ≡ ascii_lower d = cc h in
    let rest : small s ≡ small t = cc h in
    rw (same_ignoring_case, first, ==_self (ascii_lower d)) (small_same s t rest)

-- No entry's name is `name` in another case.
unfoldable clear : Bytes → List DnAvaProps → Bool
clear name [] = true
clear name (ava ∷ rest) = not (same_ignoring_case name ava.name) && clear name rest

unfoldable all_clear : List DnAvaProps → Bool
unfolding clear
all_clear [] = true
all_clear (ava ∷ rest) = clear ava.name rest && all_clear rest

and_both : (a b : Bool) → (a && b) ≡ true → (a ≡ true) × (b ≡ true)
and_both true b h = (refl, h)
and_both false b h = absurd (cc h)

-- An entry that is found is the first one or in the rest.
picked :
    (ended here : Bool) (first ava : DnAvaProps) (found : Option DnAvaProps)
    → (if ended then none else if here then some first else found) ≡ some ava
    → (ended ≡ false) × (((here ≡ true) × (first ≡ ava)) ⊎ ((here ≡ false) × (found ≡ some ava)))
picked true here first ava found h = absurd (cc h)
picked false true first ava found h = (refl, inl (refl, cc h))
picked false false first ava found h = (refl, inr (refl, h))

flipped : (b : Bool) → not b ≡ true → b ≡ false
flipped true h = absurd (cc h)
flipped false h = refl

clear_found :
    (unknown tag : ℕ) (name : Bytes) (table : List DnAvaProps) (ava : DnAvaProps)
    → clear name table ≡ true
    → find_tag unknown tag table ≡ some ava
    → same_ignoring_case name ava.name ≡ false
unfolding clear find_tag
clear_found unknown tag name [] ava c h = absurd (cc h)
clear_found unknown tag name (first ∷ rest) ava c h =
    let (apart, more) = and_both (not (same_ignoring_case name first.name)) (clear name rest) c in
    let (_, which) =
      picked (first.oid_tag == unknown) (first.oid_tag == tag) first ava (find_tag unknown tag rest)
        h in
    elim which [
      | inl (_, e) ↦ cc (e, flipped (same_ignoring_case name first.name) apart)
      | inr (_, found) ↦ clear_found unknown tag name rest ava more found
    ]

differs :
    (first name spelling : Bytes)
    → same_ignoring_case first name ≡ false
    → same_ignoring_case name spelling ≡ true
    → same_ignoring_case first spelling ≡ false
differs first name spelling d s = elim (Bool-cases (same_ignoring_case first spelling)) [
  | inl e ↦ absurd (
      cc
        (d, small_same first name (same_small first spelling e ∙ sym (same_small name spelling s))))
  | inr e ↦ e
]

table_clear : (t : Tags) → all_clear (dn_ava_props t) ≡ true
unfolding dn_ava_props all_clear clear same_ignoring_case
table_clear t = refl

no_name :
    (t : Tags) (tag : ℕ)
    → find_tag t.unknown tag (dn_ava_props t) ≡ none
    → ava_oid_tag_to_name t tag ≡ none
unfolding ava_oid_tag_to_name
no_name t tag e = rw (ava_oid_tag_to_name, e) refl

its_name :
    (t : Tags) (tag : ℕ) (ava : DnAvaProps)
    → find_tag t.unknown tag (dn_ava_props t) ≡ some ava
    → ava_oid_tag_to_name t tag ≡ some ava.name
unfolding ava_oid_tag_to_name
its_name t tag ava e = rw (ava_oid_tag_to_name, e) refl

found_named :
    (unknown tag : ℕ) (table : List DnAvaProps) (ava : DnAvaProps) (spelling : Bytes)
    → all_clear table ≡ true
    → find_tag unknown tag table ≡ some ava
    → same_ignoring_case ava.name spelling ≡ true
    → find_name unknown spelling table ≡ tag
unfolding all_clear find_tag find_name
found_named unknown tag [] ava spelling c h s = absurd (cc h)
found_named unknown tag (first ∷ rest) ava spelling c h s =
    let (apart, more) = and_both (clear first.name rest) (all_clear rest) c in
    let (going, which) =
      picked (first.oid_tag == unknown) (first.oid_tag == tag) first ava (find_tag unknown tag rest)
        h in
    elim which [
      | inl (g, e) ↦
          let named : same_ignoring_case first.name spelling ≡ true = cc (e, s) in
          rw (find_name, going, named) ((==_iff first.oid_tag tag).0 g)
      | inr (_, found) ↦
          rw
            (
              find_name,
              going,
              differs first.name ava.name spelling
                  (clear_found unknown tag first.name rest ava apart found) s,
            )
            (found_named unknown tag rest ava spelling more found s)
    ]

-- Whatever numbers NSS gives the tags, the name that a tag has in the table is read as that tag,
-- in any case of its letters.
pub ava_name_to_oid_tag-ava_oid_tag_to_name :
    (t : Tags) (tag : ℕ) (name spelling : Bytes)
    → ava_oid_tag_to_name t tag ≡ some name
    → same_ignoring_case name spelling ≡ true
    → ava_name_to_oid_tag t spelling ≡ tag
unfolding ava_oid_tag_to_name ava_name_to_oid_tag
ava_name_to_oid_tag-ava_oid_tag_to_name t tag name spelling h s =
    elim (Option-cases (find_tag t.unknown tag (dn_ava_props t))) [
      | inl e ↦ absurd (cc (h, no_name t tag e))
      | inr (ava, e) ↦
          let named : ava.name ≡ name = cc (h, its_name t tag ava e) in
          let fits : same_ignoring_case ava.name spelling ≡ true = cc (named, s) in
          found_named t.unknown tag (dn_ava_props t) ava spelling (table_clear t) e fits
    ]
