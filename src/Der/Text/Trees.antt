-- ===== src/Der/Text/Trees.antt =====
-- The text of an item against the tree of ASN.1 values that it encodes.
use python_nss_ng.Prelude.{
  ℕ, zero, suc, ◌+◌, ◌%◌, ◌^◌, ◌≤◌, ◌<◌, Bytes, true, false, some, [], ◌∷◌, ◌++◌, length, ◌==◌,
  if◌then◌else◌, bit_and, codes, ◌≡◌, refl, sym, ap, ◌∙◌, arith, all_below, all_below_sound,
  length-append, take-append, drop-append, le→not_ltb,
}
use python_nss_ng.Der.Tag.{
  is_long, sec_strip_tag_and_length, sec_strip_tag_and_length_lem, short,
  der_boolean_secitem_to_pystr, boolean_secitem_to_pystr,
}
use python_nss_ng.Der.Integer.{AllOctets, signed, integer_lem}
use python_nss_ng.Der.Sequence.{member_size}
use python_nss_ng.Der.Escape.{write_escapes, ascii_string_secitem_to_escaped_ascii_pystr}
use python_nss_ng.Der.Text.{
  Decoders, Object, str, none_object, list, null, undefined, Objects, nil, cons, add_last,
  append_object, or_null, or_none, secitem_to_pystr_hex, Kind, integer, object_id, boolean, utf8,
  ascii, generalized_time, utc_time, null_type, set, octet_string, bit_string, bmp, universal,
  other, kind, is_set, integer_secitem_to_pystr, der_integer_secitem_to_pystr,
  oid_secitem_to_pystr_desc, der_oid_secitem_to_pystr_desc, der_utf8_string_secitem_to_pyunicode,
  der_bmp_string_secitem_to_pyunicode, der_universal_string_secitem_to_pyunicode,
  der_ascii_string_secitem_to_escaped_ascii_pystr, der_octet_secitem_to_pystr, primitive_to_pystr,
  der_any_secitem_to_pystr, members_to_pylist, stripped,
}

-- Values with a tag of one octet: octets, or other values.
mutual
  pub data Tree : Type 0 where
    leaf : ℕ → Bytes → Tree
    node : ℕ → Trees → Tree

  pub data Trees : Type 0 where
    end : Trees
    next : Tree → Trees → Trees

-- Their DER form, with lengths in one octet.
unfoldable mutual
  pub encode : Tree → Bytes
  encode (leaf tag content) = tag ∷ length content ∷ content
  encode (node tag ts) = tag ∷ length (encode_all ts) ∷ encode_all ts

  pub encode_all : Trees → Bytes
  encode_all end = []
  encode_all (next t ts) = encode t ++ encode_all ts

-- The rounds that an item takes.
unfoldable mutual
  pub rounds : Tree → ℕ
  rounds (leaf tag content) = 1
  rounds (node tag ts) = suc (rounds_all ts)

  pub rounds_all : Trees → ℕ
  rounds_all end = 1
  rounds_all (next t ts) = suc (rounds t + rounds_all ts)

-- The text of a value of a universal type, by its content.
abbrev pub content_text : Decoders → Kind → Bytes → Bytes → Object
content_text lib integer item c = str (lib.decimal (signed c))
content_text lib object_id item c = oid_secitem_to_pystr_desc lib c
content_text lib boolean item c = str (boolean_secitem_to_pystr (some c))
content_text lib utf8 item c = or_null (lib.utf_8 c)
content_text lib ascii item c = str (write_escapes c)
content_text lib generalized_time item c = or_none (lib.generalized_time item)
content_text lib utc_time item c = or_none (lib.utc_time item)
content_text lib null_type item c = str (codes "(null)")
content_text lib set item c = str (secitem_to_pystr_hex item)
content_text lib octet_string item c = str (secitem_to_pystr_hex c)
content_text lib bit_string item c = none_object
content_text lib bmp item c = if length c % 2 == 0 then or_null (lib.utf_16 c) else null
content_text lib universal item c = if length c % 4 == 0 then or_null (lib.utf_32 c) else null
content_text lib other item c = str (secitem_to_pystr_hex item)

-- A list element in front of others, where a NULL is left out.
abbrev pub prepend : Object → Objects → Objects
prepend null xs = xs
prepend (str s) xs = cons (str s) xs
prepend none_object xs = cons none_object xs
prepend (list ys) xs = cons (list ys) xs
prepend undefined xs = cons undefined xs

unfoldable mutual
  pub text : Decoders → Tree → Object
  text lib (leaf tag content) =
      content_text lib (kind (bit_and tag 0x1f)) (tag ∷ length content ∷ content) content
  text lib (node tag ts) = list (texts lib ts)

  pub texts : Decoders → Trees → Objects
  texts lib end = nil
  texts lib (next t ts) = prepend (text lib t) (texts lib ts)

-- A universal tag of a primitive type or of a constructed SET or SEQUENCE, and short contents.
abbrev pub IsPrimitive : ℕ → Type 0
IsPrimitive tag = (bit_and tag 0xc0 ≡ 0) × (is_set (kind (bit_and tag 0x1f)) ≡ false)

abbrev pub IsConstructed : ℕ → Type 0
IsConstructed tag =
    (bit_and tag 0xc0 ≡ 0)
    × ((is_set (kind (bit_and tag 0x1f)) ≡ true) × ((bit_and tag 0x20 == 0) ≡ false))

unfoldable mutual
  pub IsDer : Tree → Type 0
  IsDer (leaf tag content) = IsPrimitive tag × ((length content < 128) × AllOctets content)
  IsDer (node tag ts) = IsConstructed tag × ((length (encode_all ts) < 128) × AllDer ts)

  pub AllDer : Trees → Type 0
  AllDer end = Unit
  AllDer (next t ts) = IsDer t × AllDer ts

short_length : all_below 128 (λ n. if is_long n then false else true) ≡ true
unfolding all_below is_long
short_length = refl

not_long : (n : ℕ) → n < 128 → is_long n ≡ false
not_long n h =
    ground (arith, all_below_sound 128 (λ m. if is_long m then false else true) n short_length h)

pub strip-short :
    (tag n : ℕ) (content : Bytes)
    → n < 128
    → sec_strip_tag_and_length (some (tag ∷ n ∷ content)) ≡ some content
strip-short tag n content h = sec_strip_tag_and_length_lem content (short tag n h)

small_word : (n : ℕ) → n < 128 → (n + 2) % 2 ^ 32 ≡ n + 2
small_word n h = omega arith

member_size-short :
    (tag n : ℕ) (rest beyond : Bytes) → n < 128 → member_size (tag ∷ n ∷ rest) beyond ≡ some (n + 2)
unfolding member_size
member_size-short tag n rest beyond h = rw (member_size, not_long n h) (ap some (small_word n h))

primitive_lem :
    (lib : Decoders) (k : Kind) (tag n : ℕ) (content : Bytes)
    → n < 128
    → AllOctets content
    → primitive_to_pystr lib k (tag ∷ n ∷ content) ≡ content_text lib k (tag ∷ n ∷ content) content
unfolding primitive_to_pystr der_integer_secitem_to_pystr integer_secitem_to_pystr
    der_oid_secitem_to_pystr_desc der_boolean_secitem_to_pystr der_utf8_string_secitem_to_pyunicode
    der_ascii_string_secitem_to_escaped_ascii_pystr ascii_string_secitem_to_escaped_ascii_pystr
    der_octet_secitem_to_pystr der_bmp_string_secitem_to_pyunicode
    der_universal_string_secitem_to_pyunicode
primitive_lem lib integer tag n content h o =
    rw
      (
        primitive_to_pystr,
        der_integer_secitem_to_pystr,
        integer_secitem_to_pystr,
        stripped,
        strip-short tag n content h,
        integer_lem content o,
      )
      refl
primitive_lem lib object_id tag n content h o =
    rw (primitive_to_pystr, der_oid_secitem_to_pystr_desc, stripped, strip-short tag n content h)
      refl
primitive_lem lib boolean tag n content h o =
    rw (primitive_to_pystr, der_boolean_secitem_to_pystr, stripped, strip-short tag n content h)
      refl
primitive_lem lib utf8 tag n content h o =
    rw
      (
        primitive_to_pystr,
        der_utf8_string_secitem_to_pyunicode,
        stripped,
        strip-short tag n content h,
      )
      refl
primitive_lem lib ascii tag n content h o =
    rw
      (
        primitive_to_pystr,
        der_ascii_string_secitem_to_escaped_ascii_pystr,
        stripped,
        strip-short tag n content h,
      )
      refl
primitive_lem lib generalized_time tag n content h o = refl
primitive_lem lib utc_time tag n content h o = refl
primitive_lem lib null_type tag n content h o = refl
primitive_lem lib set tag n content h o = refl
primitive_lem lib octet_string tag n content h o =
    rw (primitive_to_pystr, der_octet_secitem_to_pystr, stripped, strip-short tag n content h) refl
primitive_lem lib bit_string tag n content h o = refl
primitive_lem lib bmp tag n content h o =
    rw
      (
        primitive_to_pystr,
        der_bmp_string_secitem_to_pyunicode,
        stripped,
        strip-short tag n content h,
      )
      refl
primitive_lem lib universal tag n content h o =
    rw
      (
        primitive_to_pystr,
        der_universal_string_secitem_to_pyunicode,
        stripped,
        strip-short tag n content h,
      )
      refl
primitive_lem lib other tag n content h o = refl

-- Appending keeps the order.
unfoldable join : Objects → Objects → Objects
join nil ys = ys
join (cons x xs) ys = cons x (join xs ys)

join-add_last : (xs ys : Objects) (o : Object) → join (add_last xs o) ys ≡ join xs (cons o ys)
unfolding join add_last
join-add_last nil ys o = refl
join-add_last (cons x xs) ys o = ap (cons x) (join-add_last xs ys o)

join-append_object :
    (xs ys : Objects) (o : Object) → join (append_object xs o) ys ≡ join xs (prepend o ys)
unfolding append_object
join-append_object xs ys null = refl
join-append_object xs ys (str s) = join-add_last xs ys (str s)
join-append_object xs ys none_object = join-add_last xs ys none_object
join-append_object xs ys (list zs) = join-add_last xs ys (list zs)
join-append_object xs ys undefined = join-add_last xs ys undefined

join-nil : (xs : Objects) → join xs nil ≡ xs
unfolding join
join-nil nil = refl
join-nil (cons x xs) = ap (cons x) (join-nil xs)

-- An encoded value has the size that its header announces.
member_size-encode :
    (t : Tree) (rest beyond : Bytes)
    → IsDer t
    → (member_size (encode t ++ rest) beyond ≡ some (length (encode t))) × (2 ≤ length (encode t))
unfolding encode IsDer
member_size-encode (leaf tag content) rest beyond (p, (h, o)) = (
  member_size-short tag (length content) (content ++ rest) beyond h ∙ ap some (omega arith),
  omega arith,
)
member_size-encode (node tag ts) rest beyond (p, (h, d)) = (
  member_size-short tag (length (encode_all ts)) (encode_all ts ++ rest) beyond h
      ∙ ap some (omega arith),
  omega arith,
)

-- One round of the loop.
members_step :
    (lib : Decoders) (fuel : ℕ) (m rest beyond : Bytes) (items : Objects) (o : Object)
    → 2 ≤ length m
    → member_size (m ++ rest) beyond ≡ some (length m)
    → der_any_secitem_to_pystr lib fuel m (rest ++ beyond) ≡ some o
    → members_to_pylist lib (suc fuel) (m ++ rest) beyond items
      ≡ members_to_pylist lib fuel rest beyond (append_object items o)
unfolding der_any_secitem_to_pystr members_to_pylist
members_step lib fuel m rest beyond items o two size said =
    let long = length-append m rest in
    rw
      (
        members_to_pylist,
        le→not_ltb (length (m ++ rest)) 2 (omega arith),
        size,
        le→not_ltb (length (m ++ rest)) (length m) (omega arith),
        take-append m rest,
        drop-append m rest,
        said,
        le→not_ltb (length (m ++ rest)) (length m) (omega arith),
        drop-append m rest,
      )
      refl

mutual
  unfolding encode rounds text IsDer der_any_secitem_to_pystr members_to_pylist join

  der_any_tree :
      (lib : Decoders) (fuel : ℕ) (t : Tree) (beyond : Bytes)
      → IsDer t
      → rounds t ≤ fuel
      → der_any_secitem_to_pystr lib fuel (encode t) beyond ≡ some (text lib t)
  der_any_tree lib zero (leaf tag content) beyond d h = absurd (omega arith)
  der_any_tree lib zero (node tag ts) beyond d h = absurd (omega arith)
  der_any_tree lib (suc fuel) (leaf tag content) beyond ((u, p), (n, o)) h =
      rw (der_any_secitem_to_pystr, u, u, p)
        (ap some (primitive_lem lib (kind (bit_and tag 0x1f)) tag (length content) content n o))
  der_any_tree lib (suc fuel) (node tag ts) beyond ((u, (p, c)), (n, d)) h =
      rw
        (
          der_any_secitem_to_pystr,
          u,
          u,
          p,
          c,
          strip-short tag (length (encode_all ts)) (encode_all ts) n,
        )
        (members_trees lib fuel ts beyond nil d (omega arith))

  members_trees :
      (lib : Decoders) (fuel : ℕ) (ts : Trees) (beyond : Bytes) (items : Objects)
      → AllDer ts
      → rounds_all ts ≤ fuel
      → members_to_pylist lib fuel (encode_all ts) beyond items
        ≡ some (list (join items (texts lib ts)))
  members_trees lib zero end beyond items d h = absurd (omega arith)
  members_trees lib zero (next t ts) beyond items d h = absurd (omega arith)
  members_trees lib (suc fuel) end beyond items d h = ap (λ l. some (list l)) (sym (join-nil items))
  members_trees lib (suc fuel) (next t ts) beyond items (d, ds) h =
      let (size, two) = member_size-encode t (encode_all ts) beyond d in
      members_step lib fuel (encode t) (encode_all ts) beyond items (text lib t) two size
        (der_any_tree lib fuel t (encode_all ts ++ beyond) d (omega arith))
      ∙ members_trees lib fuel ts beyond (append_object items (text lib t)) ds (omega arith)
      ∙ ap (λ l. some (list l)) (join-append_object items (texts lib ts) (text lib t))

-- For a tree of items, each with a content of fewer than 128 octets in the short form, the leaves
-- of types that hold no others and the nodes SETs and SEQUENCEs: on the DER encoding of the tree,
-- with enough fuel, the text is the one of the tree: the lists of the members' texts, and at the
-- leaves what the type says of the content.
pub der_any_lem :
    (lib : Decoders) (fuel : ℕ) (t : Tree) (beyond : Bytes)
    → IsDer t
    → rounds t ≤ fuel
    → der_any_secitem_to_pystr lib fuel (encode t) beyond ≡ some (text lib t)
der_any_lem = der_any_tree
