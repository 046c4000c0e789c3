-- ===== src/GeneralNames/Rings.antt =====
-- Circular lists of names, and what the copy of one is.
use mathlib.Core.Path.{ap₂}
use python_nss_ng.Prelude.{
  ℕ, suc, ◌+◌, ◌-◌, ◌<◌, Bool, true, false, some, ◌==◌, if◌then◌else◌, ◌≡◌, ◌≢◌, refl, sym, ◌∙◌,
  subst, arith, Bool-cases, inl, inr, ==_iff, ==_self, ne→not_eq,
}
use python_nss_ng.GeneralNames.{
  Address, Content, GeneralName, Heap, Arena, release, ask, copies, Copy, copied, failed, dangling,
  out_of_fuel, new_name, fill, allocate, copy_general_name, link,
}

-- The links of the `j`th of `n` names at addresses that follow each other from `m` on.
abbrev pub next_index : ℕ → ℕ → ℕ
next_index n j = if suc j == n then 0 else suc j

abbrev pub prev_index : ℕ → ℕ → ℕ
prev_index n j = if j == 0 then n - 1 else j - 1

abbrev pub copy_node : Address → ℕ → (ℕ → Content) → ℕ → GeneralName
copy_node m n c j = record { content = c j; next = m + next_index n j; prev = m + prev_index n j }

abbrev pub IsCopy : Address → ℕ → (ℕ → Content) → Heap → Type 0
IsCopy m n c heap = (j : ℕ) → j < n → heap (m + j) ≡ some (copy_node m n c j)

abbrev pub node_of : Content → Address → Address → GeneralName
node_of c a b = record { content = c; next = a; prev = b }

-- `n` names at the addresses `a`, the last one in front of the first, which has an address of its
-- own.
abbrev pub IsRing : ℕ → (ℕ → Address) → (ℕ → Content) → Heap → Type 0
IsRing n a c heap =
    ((i : ℕ) → i < n → (q : Address) × (heap (a i) ≡ some (node_of (c i) (a (next_index n i)) q)))
    × ((i : ℕ) → 0 < i → i < n → a i ≢ a 0)

-- What the four writes leave of the node at `a`.
abbrev relinked : Address → Address → Address → Address → GeneralName → GeneralName
relinked dst_head prev cur a n = record {
  content = n.content;
  next = if a == prev then cur else if a == cur then dst_head else n.next;
  prev = if a == dst_head then cur else if a == cur then prev else n.prev;
}

link_at :
    (dst_head prev cur a : Address) (heap : Heap) (n : GeneralName)
    → heap a ≡ some n
    → link dst_head prev cur heap a ≡ some (relinked dst_head prev cur a n)
unfolding link
link_at dst_head prev cur a heap n h = elim (Bool-cases (a == cur)) [
  | inl e ↦ elim (Bool-cases (a == dst_head)) [
    | inl d ↦ elim (Bool-cases (a == prev)) [
      | inl p ↦ rw (link, p, d, e, h) refl
      | inr p ↦ rw (link, p, d, e, h) refl
    ]
    | inr d ↦ elim (Bool-cases (a == prev)) [
      | inl p ↦ rw (link, p, d, e, h) refl
      | inr p ↦ rw (link, p, d, e, h) refl
    ]
  ]
  | inr e ↦ elim (Bool-cases (a == dst_head)) [
    | inl d ↦ elim (Bool-cases (a == prev)) [
      | inl p ↦ rw (link, p, d, e, h) refl
      | inr p ↦ rw (link, p, d, e, h) refl
    ]
    | inr d ↦ elim (Bool-cases (a == prev)) [
      | inl p ↦ rw (link, p, d, e, h) refl
      | inr p ↦ rw (link, p, d, e, h) refl
    ]
  ]
]

-- The writes touch the three nodes only.
pub link_below :
    (dst_head prev cur a : Address) (heap : Heap)
    → a < dst_head
    → a < prev
    → a < cur
    → link dst_head prev cur heap a ≡ heap a
unfolding link
link_below dst_head prev cur a heap h p c =
    rw
      (
        link,
        ne→not_eq a prev (λ e. absurd (omega arith)),
        ne→not_eq a dst_head (λ e. absurd (omega arith)),
        ne→not_eq a cur (λ e. absurd (omega arith)),
      )
      refl

-- The last node of `i` copies.
abbrev pub last_of : Address → ℕ → Address
last_of m i = m + (i - 1)

next_old :
    (m i j : ℕ)
    → j < i
    → (if m + j == last_of m i then m + i else if m + j == m + i then m else m + next_index i j)
      ≡ m + next_index (suc i) j
next_old m i j h = ground arith

prev_old :
    (m i j : ℕ)
    → j < i
    → (if m + j == m then m + i else if m + j == m + i then last_of m i else m + prev_index i j)
      ≡ m + prev_index (suc i) j
prev_old m i j h = ground arith

next_new :
    (m i : ℕ)
    → (if m + i == last_of m i then m + i else if m + i == m + i then m else m + i)
      ≡ m + next_index (suc i) i
next_new m i = ground arith

prev_new :
    (m i : ℕ)
    → (if m + i == m then m + i else if m + i == m + i then last_of m i else m + i)
      ≡ m + prev_index (suc i) i
prev_new m i = ground arith

abbrev pub self_node : Address → Content → GeneralName
self_node a c = record { content = c; next = a; prev = a }

same_node :
    (c : Content) (next next' prev prev' : Address)
    → next ≡ next'
    → prev ≡ prev'
    → some (node_of c next prev) ≡ some (node_of c next' prev')
same_node c next next' prev prev' e f = ap₂ (λ a b. some (node_of c a b)) e f

-- A new node behind `i` copies.
pub link-IsCopy :
    (m i : ℕ) (c : ℕ → Content) (heap : Heap)
    → IsCopy m i c heap
    → heap (m + i) ≡ some (self_node (m + i) (c i))
    → IsCopy m (suc i) c (link m (last_of m i) (m + i) heap)
link-IsCopy m i c heap h new j below = elim (Bool-cases (j == i)) [
  | inl e ↦
      subst (λ k. link m (last_of m i) (m + i) heap (m + k) ≡ some (copy_node m (suc i) c k))
        (sym ((==_iff j i).0 e))
        (link_at m (last_of m i) (m + i) (m + i) heap (self_node (m + i) (c i)) new
          ∙ same_node (c i) _ _ _ _ (next_new m i) (prev_new m i))
  | inr e ↦
      let old : j < i = ground arith in
      link_at m (last_of m i) (m + i) (m + j) heap (copy_node m i c j) (h j old)
      ∙ same_node (c j) _ _ _ _ (next_old m i j old) (prev_old m i j old)
]

-- What a copy of one name leaves behind.
abbrev pub CopyOne : Arena → Content → Copy Address × Arena → Type 0
CopyOne before c (copied dst, after) =
    (dst ≡ before.fresh)
    × ((after.fresh ≡ suc before.fresh)
        × ((after.heap before.fresh ≡ some (self_node before.fresh c))
            × ((a : Address) → a < before.fresh → after.heap a ≡ before.heap a)))
CopyOne before c (failed, after) = (a : Address) → a < before.fresh → after.heap a ≡ before.heap a
CopyOne before c (dangling, after) = ⊥
CopyOne before c (out_of_fuel, after) = ⊥

pub released :
    (arena : Arena) (mark requests a : ℕ)
    → a < mark
    → (release arena mark requests).heap a ≡ arena.heap a
released arena mark requests a h = ground arith

filled :
    (c : Content) (before : Arena) (r : ℕ) (answer : Bool × ℕ)
    → CopyOne before c (fill c before.fresh answer (new_name before r))
filled c before r (false, s) = λ a h.
    released (new_name before r) before.fresh s a h
    ∙ rw (ne→not_eq a before.fresh (λ e. absurd (omega arith))) refl
filled c before r (true, s) = (
  refl,
  (
    refl,
    (
      rw (==_self before.fresh) refl,
      λ a h. rw (ne→not_eq a before.fresh (λ e. absurd (omega arith))) refl,
    ),
  ),
)

allocated :
    (grants : ℕ → Bool) (c : Content) (before : Arena) (answer : Bool × ℕ)
    → CopyOne before c (allocate grants c answer before)
allocated grants c before (false, r) = λ a h. released before before.fresh r a h
allocated grants c before (true, r) = filled c before r (ask grants (copies c) r)

pub copy_one :
    (grants : ℕ → Bool) (src : Address) (before : Arena) (n : GeneralName)
    → before.heap src ≡ some n
    → CopyOne before n.content (copy_general_name grants src before)
unfolding copy_general_name
copy_one grants src before n h =
    rw (copy_general_name, h) (allocated grants n.content before (ask grants 1 before.requests))
