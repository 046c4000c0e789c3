-- ===== src/GeneralNames/Outcomes.antt =====
-- What the copies of the holders of general names keep, and what they lose.
use python_nss_ng.Prelude.{ℕ, ◌≤◌, Bool, true, false, ◌∙◌}
use python_nss_ng.GeneralNames.{
  Address, Heap, Arena, ask, Copy, copied, failed, dangling, out_of_fuel, finish,
}
use python_nss_ng.GeneralNames.Rings.{released}
use python_nss_ng.GeneralNames.Copies.{Below}
use python_nss_ng.GeneralNames.Holders.{and_then, answered, request}

-- A copy with what `P` says of it, the heap and the next address, or a failure; the heap below `m` stays as it was.
abbrev pub Outcome :
    {A : Type 0} → Address → Heap → (A → Heap → Address → Type 0) → Copy A × Arena → Type 0
Outcome m heap0 P (copied x, arena) =
    Below m heap0 arena.heap × ((m ≤ arena.fresh) × P x arena.heap arena.fresh)
Outcome m heap0 P (failed, arena) = Below m heap0 arena.heap
Outcome m heap0 P (dangling, arena) = ⊥
Outcome m heap0 P (out_of_fuel, arena) = ⊥

-- An arena in which nothing below `m` has changed.
abbrev pub Since : Address → Heap → Arena → Type 0
Since m heap0 arena = Below m heap0 arena.heap × (m ≤ arena.fresh)

module _ {A : Type 0} (m : Address) (heap0 : Heap) where
  answered_lem :
      (P : A → Heap → Address → Type 0) (x : A) (answer : Bool × ℕ) (arena : Arena)
      → Since m heap0 arena
      → P x arena.heap arena.fresh
      → Outcome m heap0 P (answered x answer arena)
  answered_lem P x (true, r) arena (below, fresh) p = (below, (fresh, p))
  answered_lem P x (false, r) arena (below, fresh) p = below

  pub request_lem :
      (grants : ℕ → Bool) (P : A → Heap → Address → Type 0) (n : ℕ) (x : A) (arena : Arena)
      → Since m heap0 arena
      → P x arena.heap arena.fresh
      → Outcome m heap0 P (request grants n x arena)
  unfolding request
  request_lem grants P n x arena since p =
      answered_lem P x (ask grants n arena.requests) arena since p

  pub finish_outcome :
      (P : A → Heap → Address → Type 0) (r : Copy A × Arena)
      → Outcome m heap0 P r
      → Outcome m heap0 P (finish m r)
  finish_outcome P (copied x, arena) h = h
  finish_outcome P (failed, arena) h = λ x l. released arena m arena.requests x l ∙ h x l
  finish_outcome P (dangling, arena) h = absurd h
  finish_outcome P (out_of_fuel, arena) h = absurd h

module _ {A B : Type 0} (m : Address) (heap0 : Heap) (P : A → Heap → Address → Type 0)
    (Q : B → Heap → Address → Type 0) where
  pub and_then_lem :
      (r : Copy A × Arena) (f : A → Arena → Copy B × Arena)
      → Outcome m heap0 P r
      → ((x : A) (arena : Arena)
          → Since m heap0 arena
          → P x arena.heap arena.fresh
          → Outcome m heap0 Q (f x arena))
      → Outcome m heap0 Q (and_then r f)
  and_then_lem (copied x, arena) f (below, (fresh, p)) k = k x arena (below, fresh) p
  and_then_lem (failed, arena) f h k = h
  and_then_lem (dangling, arena) f h k = absurd h
  and_then_lem (out_of_fuel, arena) f h k = absurd h
