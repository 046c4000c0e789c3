-- ===== src/Flags/Total.antt =====
-- The numbers of the flags that are listed add up to the flags (src/py_nss.c).
use python_nss_ng.Prelude.{ℕ, ◌+◌, ◌*◌, some, List, [], ◌∷◌, bit_and, ◌≡◌, All, none, Option}
use python_nss_ng.Names.Ssl.{Representation}
use python_nss_ng.Flags.{Flag, listed, FlagList, sort_error}

abbrev pub total : List ℕ → ℕ
total [] = 0
total (n ∷ ns) = n + total ns

-- A power of two.
pub data IsBit : ℕ → Type 0 where
  bit_0 : IsBit 1
  bit_suc : (n : ℕ) → IsBit n → IsBit (n * 2)

abbrev pub AllBits : List Flag → Type 0
AllBits [] = Unit
AllBits (f ∷ table) = IsBit f.value × AllBits table

abbrev pub NoneLeft : ℕ → List Flag → Type 0
NoneLeft left table = All (λ f. bit_and left f.value ≡ 0) table

-- What the sort answers.
abbrev pub sort_outcome : Option (List Representation) → FlagList
sort_outcome none = sort_error
sort_outcome (some l) = listed l
