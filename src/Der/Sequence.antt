-- ===== src/Der/Sequence.antt =====
-- The loop of `der_set_or_str_secitem_to_pylist_of_pystr` that cuts a SET or SEQUENCE into its
-- members. `beyond` is the memory behind the item, which the reading of a length may reach.
use python_nss_ng.Prelude.{
  ℕ, zero, suc, ◌+◌, ◌*◌, ◌^◌, ◌%◌, ◌≤◌, ◌<◌, Bytes, true, false, Option, none, some, List, [], ◌∷◌,
  ◌++◌, length, take, drop, get_or, ltb, if◌then◌else◌, bit_and, bit_or, ◌≡◌, refl, ap, ◌∙◌, arith,
  length-append, take-append, drop-append, append_assoc, le→not_ltb, append-nil,
}
use mathlib.Core.List.{flatten}
use python_nss_ng.Der.Tag.{is_long}

abbrev pub word : ℕ
word = 2 ^ 32

-- `tmp_item.len = (tmp_item.len << 8) | tmp_item.data[2+i]`, `n` times, in 32 bits.
unfoldable pub long_length : ℕ → ℕ → Bytes → ℕ
long_length zero len octets = len
long_length (suc n) len [] = long_length n (bit_or (len * 256 % word) 0) []
long_length (suc n) len (o ∷ octets) = long_length n (bit_or (len * 256 % word) o) octets

-- The size of the first member with its header; `none` is the `break` on a length of more than
-- four octets.
unfoldable pub member_size : Bytes → Bytes → Option ℕ
unfolding is_long long_length
member_size octets beyond =
    let second = get_or octets 1 0 in
    let n = bit_and second 0x7f in
    if is_long second
    then (if ltb 4 n
        then none
        else some ((long_length n 0 (drop 2 (octets ++ beyond)) + (n + 2)) % word))
    else some ((second + 2) % word)

-- The loop; `members` were cut off before, and `none` is running out of fuel.
unfoldable pub cut_members : ℕ → Bytes → Bytes → List Bytes → Option (List Bytes)
cut_members zero octets beyond members = none
cut_members (suc fuel) octets beyond members = elim (ltb (length octets) 2) [
  | true ↦ some members
  | false ↦ elim (member_size octets beyond) [
    | none ↦ some members
    | some size ↦
        let n = if ltb (length octets) size then length octets else size in
        cut_members fuel (drop n octets) beyond (members ++ take n octets ∷ [])
  ]
]

-- The members of a SEQUENCE, each in front of those behind it.
abbrev pub AllMembers : Bytes → List Bytes → Type 0
AllMembers beyond [] = Unit
AllMembers beyond (m ∷ ms) =
    (2 ≤ length m) × (member_size (m ++ flatten ms) beyond ≡ some (length m)) × AllMembers beyond ms

cut_step :
    (fuel : ℕ) (m rest beyond : Bytes) (members : List Bytes)
    → 2 ≤ length m
    → member_size (m ++ rest) beyond ≡ some (length m)
    → cut_members (suc fuel) (m ++ rest) beyond members
      ≡ cut_members fuel rest beyond (members ++ m ∷ [])
unfolding cut_members
cut_step fuel m rest beyond members h e =
    let size = length-append m rest in
    rw (
      le→not_ltb (length (m ++ rest)) 2 (omega arith),
      cut_members,
      e,
      le→not_ltb (length (m ++ rest)) (length m) (omega arith),
      take-append m rest,
      drop-append m rest,
    )

cut_all :
    (fuel : ℕ) (beyond : Bytes) (ms members : List Bytes)
    → AllMembers beyond ms
    → length ms < fuel
    → cut_members fuel (flatten ms) beyond members ≡ some (members ++ ms)
unfolding flatten
cut_all zero beyond ms members h lt = absurd (omega arith)
cut_all (suc fuel) beyond [] members h lt = unfold cut_members in rw append-nil
cut_all (suc fuel) beyond (m ∷ ms) members (two, e, hs) lt =
    cut_step fuel m (flatten ms) beyond members two e
    ∙ cut_all fuel beyond ms (members ++ m ∷ []) hs (omega arith)
    ∙ ap some (append_assoc members (m ∷ []) ms)

-- With a round for each member and one more, members that announce their sizes are cut as they
-- were put together.
pub cut_members_lem :
    (fuel : ℕ) (beyond : Bytes) (ms : List Bytes)
    → AllMembers beyond ms
    → length ms < fuel
    → cut_members fuel (flatten ms) beyond [] ≡ some ms
cut_members_lem fuel beyond ms = cut_all fuel beyond ms []

-- A length of four octets that wraps the 32 bits to a size of 0.
abbrev pub wrapping : Bytes
wrapping = 0x30 ∷ 0x84 ∷ 0xff ∷ 0xff ∷ 0xff ∷ 0xfa ∷ []

wrapping_size : (rest beyond : Bytes) → member_size (wrapping ++ rest) beyond ≡ some 0
unfolding member_size
wrapping_size rest beyond = refl

-- On content that starts with a length of 2^32 - 6 the loop makes no progress: no number of rounds
-- ends it.
pub cut_members_hangs :
    (fuel : ℕ) (rest beyond : Bytes) (members : List Bytes)
    → cut_members fuel (wrapping ++ rest) beyond members ≡ none
unfolding cut_members
cut_members_hangs zero rest beyond members = refl
cut_members_hangs (suc fuel) rest beyond members =
    let size : ℕ = length (wrapping ++ rest) in
    rw
      (
        le→not_ltb size 2 (omega arith),
        cut_members,
        wrapping_size rest beyond,
        le→not_ltb size 0 (omega arith),
      )
      (cut_members_hangs fuel rest beyond (members ++ [] ∷ []))
