-- ===== src/GeneralNames/Walks.antt =====
-- What `CERTGeneralName_list_count` and `CERTGeneralName_list_to_tuple` make of a circular list, and
-- of its copy.
use python_nss_ng.Prelude.{
  ℕ, zero, suc, ◌+◌, ◌<◌, Bool, some, List, [], ◌∷◌, length, ◌≡◌, refl, ap, ◌∙◌, arith,
}
use python_nss_ng.GeneralNames.{
  Address, Content, Heap, Arena, Copy, copied, failed, dangling, out_of_fuel, list_to_tuple,
  Converters,
}
use python_nss_ng.Names.Ssl.{RepresentationKind}
use python_nss_ng.GeneralNames.Rings.{IsCopy, IsRing}
use python_nss_ng.GeneralNames.Copies.{Below}

-- The contents of `k` names from the `i`th on.
abbrev pub contents_from : (ℕ → Content) → ℕ → ℕ → List Content
contents_from c i zero = []
contents_from c i (suc k) = c i ∷ contents_from c (suc i) k

pub first : (m : ℕ) → m ≡ m + 0
first m = omega arith

-- A copy is a ring.
pub IsCopy-IsRing :
    (m n : ℕ) (c : ℕ → Content) (heap : Heap) → IsCopy m n c heap → IsRing n (λ j. m + j) c heap
IsCopy-IsRing m n c heap h = (λ i inside. (_, h i inside), λ i first inside e. absurd (omega arith))

pub kept-IsRing :
    (n : ℕ) (a : ℕ → Address) (c : ℕ → Content) (m : Address) (heap heap' : Heap)
    → IsRing n a c heap
    → ((i : ℕ) → i < n → a i < m)
    → Below m heap heap'
    → IsRing n a c heap'
kept-IsRing n a c m heap heap' (nodes, head) low below =
    (λ i inside. let (q, node) = nodes i inside in (q, below (a i) (low i inside) ∙ node), head)

length-contents_from : (c : ℕ → Content) (i k : ℕ) → length (contents_from c i k) ≡ k
length-contents_from c i zero = refl
length-contents_from c i (suc k) = ap suc (length-contents_from c (suc i) k)

-- The tuple of the list `src`, before and after the copy, and the one of the copy.
abbrev pub SameNames :
    {A : Type 0}
    → Converters A
    → Bool
    → RepresentationKind
    → ℕ
    → Address
    → Arena
    → Copy Address × Arena
    → Type 0
SameNames converters made kind fuel src before (copied dst, after) =
    (list_to_tuple converters made kind after.heap fuel (some src)
      ≡ list_to_tuple converters made kind before.heap fuel (some src))
    × (list_to_tuple converters made kind after.heap fuel (some dst)
        ≡ list_to_tuple converters made kind before.heap fuel (some src))
SameNames converters made kind fuel src before (failed, after) =
    list_to_tuple converters made kind after.heap fuel (some src)
    ≡ list_to_tuple converters made kind before.heap fuel (some src)
SameNames converters made kind fuel src before (dangling, after) = ⊥
SameNames converters made kind fuel src before (out_of_fuel, after) = ⊥
