-- ===== src/GeneralNames/Copies.antt =====
-- The copy of a circular list of names.
use mathlib.Core.Path.{ap₂}
use python_nss_ng.Prelude.{
  ℕ, zero, suc, ◌+◌, ◌-◌, ◌≤◌, ◌<◌, Bool, Option, none, some, ◌==◌, ◌≡◌, refl, sym, ap, ◌∙◌, subst,
  arith, Bool-cases, inl, inr, ==_iff, ==_self, ne→not_eq,
}
use python_nss_ng.GeneralNames.{
  Address, Content, Heap, Arena, Copy, copied, failed, dangling, out_of_fuel, copy_general_name,
  head_and_prev, linked, or_next, behind_link, behind_copy, copy_names, finish,
  copy_general_name_list,
}
use python_nss_ng.GeneralNames.Rings.{
  next_index, IsCopy, IsRing, node_of, self_node, last_of, CopyOne, link_below, link-IsCopy,
  copy_one, released,
}

abbrev pub Below : Address → Heap → Heap → Type 0
Below m heap0 heap = (x : Address) → x < m → heap x ≡ heap0 x

-- `i` copies from `m` on, and nothing else changed.
abbrev pub Copied : Address → Heap → (ℕ → Content) → ℕ → Arena → Type 0
Copied m heap0 c i arena =
    (arena.fresh ≡ m + i) × (Below m heap0 arena.heap × IsCopy m i c arena.heap)

abbrev LoopOutcome : Address → Heap → (ℕ → Content) → ℕ → Copy Address × Arena → Type 0
LoopOutcome m heap0 c n (copied dst, arena) = (dst ≡ m) × Copied m heap0 c n arena
LoopOutcome m heap0 c n (failed, arena) = Below m heap0 arena.heap
LoopOutcome m heap0 c n (dangling, arena) = ⊥
LoopOutcome m heap0 c n (out_of_fuel, arena) = ⊥

-- The head and the last node of `i` copies.
abbrev EndsAt : Address → ℕ → Option (Address × Address) → Type 0
EndsAt m i none = i ≡ 0
EndsAt m i (some (dst_head, prev)) = (dst_head ≡ m) × (prev ≡ last_of m i)

head_and_prev_lem :
    (m i : ℕ) (dst : Option (Address × Address))
    → EndsAt m i dst
    → head_and_prev dst (m + i) ≡ (m, last_of m i)
head_and_prev_lem m i none e = ap₂ (λ x y. (x, y)) (omega arith) (omega arith)
head_and_prev_lem m i (some (dst_head, prev)) (h, p) = ap₂ (λ x y. (x, y)) h p

next_state :
    (m i : ℕ) (heap0 : Heap) (c : ℕ → Content) (before after : Arena) (d : Address)
    → Copied m heap0 c i before
    → CopyOne before (c i) (copied d, after)
    → Copied m heap0 c (suc i) (linked (m, last_of m i) (m + i) after)
next_state m i heap0 c before after d (at, (below, copy)) (_, (fresh, (new, old))) = (
  omega arith,
  (
    λ x h.
        link_below m (last_of m i) (m + i) x after.heap h (omega arith) (omega arith)
        ∙ old x (omega arith)
        ∙ below x h,
    link-IsCopy m i c after.heap (λ j h. old (m + j) (omega arith) ∙ copy j h)
        (subst (λ y. after.heap y ≡ some (self_node y (c i))) at new),
  ),
)

module _ (grants : ℕ → Bool) (m n : ℕ) (heap0 : Heap) (a : ℕ → Address) (c : ℕ → Content)
    (ring : IsRing n a c heap0) (low : (i : ℕ) → i < n → a i < m) where
  -- What the loop does behind the `i`th copy.
  abbrev Loop : Type 0
  Loop = Option (Address × Address) → Address → Arena → Copy Address × Arena

  abbrev Rest : Loop → ℕ → Type 0
  Rest loop i =
      (arena : Arena)
      → suc i < n
      → Copied m heap0 c (suc i) arena
      → LoopOutcome m heap0 c n (loop (some (m, m + i)) (a (suc i)) arena)

  next_lem :
      (loop : Loop) (i q : ℕ) (arena : Arena)
      → i < n
      → Copied m heap0 c (suc i) arena
      → Rest loop i
      → LoopOutcome m heap0 c n
          (or_next loop (a 0) m (m + i) arena (some (node_of (c i) (a (next_index n i)) q)))
  next_lem loop i q arena inside state rest = elim (Bool-cases (suc i == n)) [
    | inl last ↦
        rw (last, ==_self (a 0))
          (refl, subst (λ k. Copied m heap0 c k arena) ((==_iff (suc i) n).0 last) state)
    | inr more ↦
        let inside' : suc i < n = ground arith in
        rw (more, ne→not_eq (a (suc i)) (a 0) (ring.1 (suc i) (omega arith) inside'))
          (rest arena inside' state)
  ]

  link_lem :
      (loop : Loop) (i : ℕ) (ends : Address × Address) (cur : Address) (arena : Arena)
      → i < n
      → ends ≡ (m, last_of m i)
      → cur ≡ m + i
      → Copied m heap0 c (suc i) (linked (m, last_of m i) (m + i) arena)
      → Rest loop i
      → LoopOutcome m heap0 c n (behind_link loop (a 0) ends (a i) cur arena)
  link_lem loop i ends cur arena inside e f state rest =
      let arena1 = linked (m, last_of m i) (m + i) arena in
      let (q, node) = ring.0 i inside in
      subst (λ k. LoopOutcome m heap0 c n (behind_link loop (a 0) k (a i) cur arena)) (sym e)
        (subst
          (λ k. LoopOutcome m heap0 c n (behind_link loop (a 0) (m, last_of m i) (a i) k arena))
          (sym f)
          (subst (λ k. LoopOutcome m heap0 c n (or_next loop (a 0) m (m + i) arena1 k))
            (sym (state.1.0 (a i) (low i inside) ∙ node))
            (next_lem loop i q arena1 inside state rest)))

  round :
      (loop : Loop) (i : ℕ) (dst : Option (Address × Address)) (before : Arena)
      → i < n
      → EndsAt m i dst
      → Copied m heap0 c i before
      → Rest loop i
      → (r : Copy Address × Arena) → CopyOne before (c i) r
      → LoopOutcome m heap0 c n (behind_copy loop (a 0) dst (a i) r)
  round loop i dst before inside ends (at, (below, _)) rest (failed, after) h =
      λ x l. h x (omega arith) ∙ below x l
  round loop i dst before inside ends state rest (dangling, after) h = absurd h
  round loop i dst before inside ends state rest (out_of_fuel, after) h = absurd h
  round loop i dst before inside ends state rest (copied d, after) h =
      let here : d ≡ m + i = h.0 ∙ state.0 in
      link_lem loop i (head_and_prev dst d) d after inside
        (ap (head_and_prev dst) here ∙ head_and_prev_lem m i dst ends) here
        (next_state m i heap0 c before after d state h) rest

  copy_loop :
      (fuel k i : ℕ) (dst : Option (Address × Address)) (before : Arena)
      → i + suc k ≡ n
      → suc k ≤ fuel
      → EndsAt m i dst
      → Copied m heap0 c i before
      → LoopOutcome m heap0 c n (copy_names grants fuel (a 0) dst (a i) before)
  unfolding copy_names
  copy_loop zero k i dst before e enough ends state = absurd (omega arith)
  copy_loop (suc fuel) k i dst before e enough ends state =
      let (q, node) = ring.0 i (omega arith) in
      round (copy_names grants fuel (a 0)) i dst before (omega arith) ends state
        (λ arena more state'.
          copy_loop fuel (k - 1) (suc i) (some (m, m + i)) arena (omega arith) (omega arith)
            (refl, omega arith) state')
        (copy_general_name grants (a i) before)
        (copy_one grants (a i) before (node_of (c i) (a (next_index n i)) q)
          (state.1.0 (a i) (low i (omega arith)) ∙ node))

-- The list's copy and the arena behind it; a failure leaves all that was there, takes nothing, and
-- says so by a NULL.
abbrev pub CopyOutcome : ℕ → (ℕ → Content) → Arena → Copy Address × Arena → Type 0
CopyOutcome n c before (copied dst, after) =
    (dst ≡ before.fresh) × Copied before.fresh before.heap c n after
CopyOutcome n c before (failed, after) =
    (after.fresh ≡ before.fresh) × Below before.fresh before.heap after.heap
CopyOutcome n c before (dangling, after) = ⊥
CopyOutcome n c before (out_of_fuel, after) = ⊥

finish_lem :
    (n : ℕ) (c : ℕ → Content) (before : Arena) (r : Copy Address × Arena)
    → LoopOutcome before.fresh before.heap c n r
    → CopyOutcome n c before (finish before.fresh r)
finish_lem n c before (copied dst, after) h = h
finish_lem n c before (failed, after) h =
    (refl, λ x l. released after before.fresh after.requests x l ∙ h x l)
finish_lem n c before (dangling, after) h = absurd h
finish_lem n c before (out_of_fuel, after) h = absurd h

-- Where a circular list of one or more names lies below the next address of the arena, its first
-- name at an address of its own, and there is fuel for its length: the copy ends, whatever
-- requests for memory are refused. It lies at the arena's next addresses, with the same contents
-- in order, linked in a circle in both directions, and the heap below is as it was; or it fails,
-- nothing is taken from the arena, and the heap below is as it was.
pub copy_general_name_list_lem :
    (grants : ℕ → Bool) (fuel n : ℕ) (a : ℕ → Address) (c : ℕ → Content) (before : Arena)
    → 0 < n
    → n ≤ fuel
    → IsRing n a c before.heap
    → ((i : ℕ) → i < n → a i < before.fresh)
    → CopyOutcome n c before (copy_general_name_list grants fuel (some (a 0)) before)
unfolding copy_general_name_list
copy_general_name_list_lem grants fuel n a c before some_name enough ring low =
    finish_lem n c before (copy_names grants fuel (a 0) none (a 0) before) (
      copy_loop grants before.fresh n before.heap a c ring low fuel (n - 1) 0 none before
        (omega arith) (omega arith) refl (omega arith, (λ x h. refl, λ j h. absurd (omega arith))))
