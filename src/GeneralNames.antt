-- ===== src/GeneralNames.antt =====
-- Lists of general names (src/py_nss.c): `CERT_CopyGeneralName`, `CERT_CopyGeneralNameList`,
-- `CERTGeneralName_list_count` and `CERTGeneralName_list_to_tuple`.
--
-- The names are nodes of circular lists at addresses of a heap. Of what NSS does here, an arena
-- hands out addresses that no node has, and a release to a mark takes back what was handed out
-- since. Whether memory is there is a parameter: the answer to each request, by its number. A
-- copied item or directory name is equal to its source.
pub mod Rings
pub mod Copies
pub mod Walks
pub mod Holders
pub mod Outcomes
pub mod Issuers
pub mod Tests
use python_nss_ng.Prelude.{
  ℕ, zero, suc, ◌+◌, ◌-◌, Bytes, Bool, true, false, Option, none, some, List, [], ◌∷◌, map, ltb,
  ◌==◌, if◌then◌else◌,
}
use python_nss_ng.Names.Ssl.{
  RepresentationKind, as_object, as_string, as_type_string, as_type_enum, as_labeled_string,
}

abbrev pub Address : Type 0
Address = ℕ

-- The type of a name and what is copied of it: the DER form and the directory name, the name and
-- the OID, or one item of any other type.
pub data Content : Type 0 where
  directory_name : Bytes → Bytes → Content
  other_name : Bytes → Bytes → Content
  item : ℕ → Bytes → Content

pub record GeneralName : Type 0 where
  pub content : Content
  pub next : Address
  pub prev : Address

abbrev pub Heap : Type 0
Heap = Address → Option GeneralName

pub record Arena : Type 0 where
  pub heap : Heap
  pub fresh : Address
  pub requests : ℕ

abbrev pub put : Heap → Address → GeneralName → Heap
put heap p node a = if a == p then some node else heap a

-- A write through a pointer to a node.
abbrev pub update : Heap → Address → (GeneralName → GeneralName) → Heap
update heap p f a = if a == p then elim (heap a) [ none ↦ none | some n ↦ some (f n) ] else heap a

abbrev pub set_content : Content → GeneralName → GeneralName
set_content c n = record n { content = c }

abbrev pub set_next : Address → GeneralName → GeneralName
set_next q n = record n { next = q }

abbrev pub set_prev : Address → GeneralName → GeneralName
set_prev q n = record n { prev = q }

-- PORT_ArenaRelease.
abbrev pub release : Arena → Address → ℕ → Arena
release arena mark requests = record {
  heap = λ a. if ltb a mark then arena.heap a else none;
  fresh = mark;
  requests = requests;
}

-- Some requests, up to the first that is refused.
unfoldable pub ask : (ℕ → Bool) → ℕ → ℕ → Bool × ℕ
ask grants zero requests = (true, requests)
ask grants (suc n) requests =
    if grants requests then ask grants n (suc requests) else (false, suc requests)

-- How many copies the `switch` makes.
abbrev pub copies : Content → ℕ
copies (directory_name der name) = 2
copies (other_name name oid) = 2
copies (item type octets) = 1

-- `*pdst`, a SECFailure, a read through a pointer to no node, or a loop without an end.
pub data Copy (A : Type 0) : Type 0 where
  copied : A → Copy A
  failed dangling out_of_fuel : Copy A

-- The node that PORT_ArenaZNew gives, linked to itself.
abbrev pub new_name : Arena → ℕ → Arena
new_name arena requests = record {
  heap =
      put arena.heap arena.fresh
        (record { content = item 0 []; next = arena.fresh; prev = arena.fresh });
  fresh = suc arena.fresh;
  requests = requests;
}

abbrev pub fill : Content → Address → Bool × ℕ → Arena → Copy Address × Arena
fill c dst (false, requests) arena = (failed, release arena dst requests)
fill c dst (true, requests) arena =
    (copied dst, record arena { heap = update arena.heap dst (set_content c); requests = requests })

abbrev pub allocate : (ℕ → Bool) → Content → Bool × ℕ → Arena → Copy Address × Arena
allocate grants c (false, requests) arena = (failed, release arena arena.fresh requests)
allocate grants c (true, requests) arena =
    fill c arena.fresh (ask grants (copies c) requests) (new_name arena requests)

unfoldable pub copy_general_name : (ℕ → Bool) → Address → Arena → Copy Address × Arena
unfolding ask
copy_general_name grants src arena = elim (arena.heap src) [
  | none ↦ (dangling, arena)
  | some node ↦ allocate grants node.content (ask grants 1 arena.requests) arena
]

-- The four writes that put `cur` in front of the head and behind `prev`.
unfoldable pub link : Address → Address → Address → Heap → Heap
link dst_head prev cur heap =
    let heap1 = update heap cur (set_next dst_head) in
    let heap2 = update heap1 cur (set_prev prev) in
    let heap3 = update heap2 dst_head (set_prev cur) in update heap3 prev (set_next cur)

-- The head and the previous node, which are the new node in the first round.
abbrev pub head_and_prev : Option (Address × Address) → Address → Address × Address
head_and_prev none cur = (cur, cur)
head_and_prev (some (dst_head, prev)) cur = (dst_head, prev)

abbrev pub linked : Address × Address → Address → Arena → Arena
linked (dst_head, prev) cur arena = record arena { heap = link dst_head prev cur arena.heap }

-- `src = CERT_GetNextGeneralName(src)` and the test of the loop; the loop goes on with the head and
-- the last node of the copy.
abbrev pub or_next :
    (Option (Address × Address) → Address → Arena → Copy Address × Arena)
    → Address
    → Address
    → Address
    → Arena
    → Option GeneralName
    → Copy Address × Arena
or_next loop src_head dst_head cur arena none = (dangling, arena)
or_next loop src_head dst_head cur arena (some node) =
    if node.next == src_head
    then (copied dst_head, arena)
    else loop (some (dst_head, cur)) node.next arena

abbrev pub behind_link :
    (Option (Address × Address) → Address → Arena → Copy Address × Arena)
    → Address
    → Address × Address
    → Address
    → Address
    → Arena
    → Copy Address × Arena
behind_link loop src_head (dst_head, prev) src cur arena =
    let arena1 = linked (dst_head, prev) cur arena in
    or_next loop src_head dst_head cur arena1 (arena1.heap src)

-- A round behind `CERT_CopyGeneralName`.
abbrev pub behind_copy :
    (Option (Address × Address) → Address → Arena → Copy Address × Arena)
    → Address
    → Option (Address × Address)
    → Address
    → Copy Address × Arena
    → Copy Address × Arena
behind_copy loop src_head dst src (failed, arena) = (failed, arena)
behind_copy loop src_head dst src (dangling, arena) = (dangling, arena)
behind_copy loop src_head dst src (out_of_fuel, arena) = (out_of_fuel, arena)
behind_copy loop src_head dst src (copied cur, arena) =
    behind_link loop src_head (head_and_prev dst cur) src cur arena

-- The loop, with the head and the last node of the copy, if there are any.
unfoldable pub copy_names :
    (ℕ → Bool) → ℕ → Address → Option (Address × Address) → Address → Arena → Copy Address × Arena
unfolding copy_general_name link
copy_names grants zero src_head dst src arena = (out_of_fuel, arena)
copy_names grants (suc fuel) src_head dst src arena =
    behind_copy (copy_names grants fuel src_head) src_head dst src
      (copy_general_name grants src arena)

-- A failure of a copy releases what the copies before it took.
abbrev pub finish : {A : Type 0} → Address → Copy A × Arena → Copy A × Arena
finish mark (failed, arena) = (failed, release arena mark arena.requests)
finish mark (copied dst, arena) = (copied dst, arena)
finish mark (dangling, arena) = (dangling, arena)
finish mark (out_of_fuel, arena) = (out_of_fuel, arena)

-- `none` is a NULL.
unfoldable pub copy_general_name_list :
    (ℕ → Bool) → ℕ → Option Address → Arena → Copy Address × Arena
unfolding copy_names
copy_general_name_list grants fuel none arena = (failed, arena)
copy_general_name_list grants fuel (some src) arena =
    finish arena.fresh (copy_names grants fuel src none src arena)

-- The loop of `CERTGeneralName_list_count`; `none` is a pointer to no node or the end of the fuel.
unfoldable pub count_names : Heap → ℕ → Address → Address → Option ℕ
count_names heap zero head cur = none
count_names heap (suc fuel) head cur = elim (heap cur) [
  | none ↦ none
  | some node ↦
      let rest = count_names heap fuel head node.next in
      if node.next == head then some 1 else elim rest [ none ↦ none | some n ↦ some (suc n) ]
]

unfoldable pub list_count : Heap → ℕ → Option Address → Option ℕ
unfolding count_names
list_count heap fuel none = some 0
list_count heap fuel (some head) = count_names heap fuel head head

-- The loop of `CERTGeneralName_list_to_tuple`, by the contents of the names.
unfoldable pub walk_names : Heap → ℕ → Address → Address → Option (List Content)
walk_names heap zero head cur = none
walk_names heap (suc fuel) head cur = elim (heap cur) [
  | none ↦ none
  | some node ↦
      let rest = walk_names heap fuel head node.next in
      if node.next == head
      then some (node.content ∷ [])
      else elim rest [ none ↦ none | some cs ↦ some (node.content ∷ cs) ]
]

-- What the functions of the supported kinds make of a name, none for a NULL, which is stored too.
pub record Converters (A : Type 0) : Type 0 where
  pub new_from_name : Content → Option A
  pub to_pystr : Content → Option A
  pub type_string : Content → Option A
  pub type_number : Content → Option A
  pub to_pystr_with_label : Content → Option A

-- A tuple of some size and its slots, or no memory for it, or the ValueError; a list that does not
-- come back to its head gives nothing.
pub data NameTuple (A : Type 0) : Type 0 where
  name_tuple : ℕ → List (Option A) → NameTuple A
  no_memory value_error lost : NameTuple A

module _ {A : Type 0} (converters : Converters A) where
  -- The `switch` on the kind.
  unfoldable pub converter : RepresentationKind → Option (Content → Option A)
  converter as_object = some converters.new_from_name
  converter as_string = some converters.to_pystr
  converter as_type_string = some converters.type_string
  converter as_type_enum = some converters.type_number
  converter as_labeled_string = some converters.to_pystr_with_label
  converter kind = none

  -- A slot for each name that is counted, filled one after the other.
  unfoldable pub filled_tuple : Bool → RepresentationKind → ℕ → List Content → NameTuple A
  unfolding converter
  filled_tuple tuple_made repr_kind n_names contents =
      if tuple_made
      then elim (converter repr_kind) as (λ _. NameTuple A) [
        | none ↦ value_error
        | some convert ↦ name_tuple n_names (map convert contents)
      ]
      else no_memory

  -- An empty list gives an empty tuple of any kind.
  unfoldable pub list_to_tuple : Bool → RepresentationKind → Heap → ℕ → Option Address → NameTuple A
  unfolding list_count walk_names filled_tuple
  list_to_tuple tuple_made repr_kind heap fuel none =
      if tuple_made then name_tuple 0 [] else no_memory
  list_to_tuple tuple_made repr_kind heap fuel (some head) =
      elim (list_count heap fuel (some head)) as (λ _. NameTuple A) [
        | none ↦ lost
        | some n_names ↦ elim (walk_names heap fuel head head) as (λ _. NameTuple A) [
          | none ↦ lost
          | some contents ↦ filled_tuple tuple_made repr_kind n_names contents
        ]
      ]
