-- ===== src/Pem/Chunks.antt =====
-- The lines that `SECItem_to_base64` cuts the base64 text into.
use mathlib.Core.List.{flatten}
use python_nss_ng.Prelude.{
  ℕ, zero, suc, ◌-◌, ◌≤◌, ◌<◌, Bytes, [], ◌∷◌, ◌++◌, length, take, drop, min, ◌≡◌, refl, ap, ◌∙◌,
  arith, All, length-take, length-drop, take-append-drop,
}
use python_nss_ng.Hex.{num_lines}
use python_nss_ng.Hex.Write.{num_lines_step}
use python_nss_ng.Pem.{chunks}

chunk_left :
    (fuel n : ℕ) (c : ℕ) (s : Bytes)
    → 0 < n
    → length (c ∷ s) ≤ suc fuel
    → length (drop (min n (length (c ∷ s))) (c ∷ s)) ≤ fuel
chunk_left fuel n c s p h = omega (arith, length-drop (min n (length (c ∷ s))) (c ∷ s))

drop-min :
    (n : ℕ) (c : ℕ) (s : Bytes)
    → length (drop (min n (length (c ∷ s))) (c ∷ s)) ≡ length (c ∷ s) - n
drop-min n c s = omega (arith, length-drop (min n (length (c ∷ s))) (c ∷ s))

-- With fuel for the text's length and a positive width the lines that the base64 text is cut into
-- are the text when put together.
flatten-chunks :
    (fuel n : ℕ) (src : Bytes) → 0 < n → length src ≤ fuel → flatten (chunks fuel n src) ≡ src
unfolding chunks flatten
flatten-chunks zero n [] p h = refl
flatten-chunks zero n (c ∷ s) p h = absurd (omega arith)
flatten-chunks (suc fuel) n [] p h = refl
flatten-chunks (suc fuel) n (c ∷ s) p h =
    let k : ℕ = min n (length (c ∷ s)) in
    ap (λ l. take k (c ∷ s) ++ l)
      (flatten-chunks fuel n (drop k (c ∷ s)) p (chunk_left fuel n c s p h))
    ∙ take-append-drop k (c ∷ s)

-- With fuel for the text's length and a positive width the number of lines is the one that the
-- list of `raw_data_to_hex` would have: the length divided by the width, rounded up.
pub length-chunks :
    (fuel n : ℕ) (src : Bytes)
    → 0 < n
    → length src ≤ fuel
    → length (chunks fuel n src) ≡ num_lines n (length src)
unfolding chunks
length-chunks zero n [] p h = grind arith
length-chunks zero n (c ∷ s) p h = absurd (omega arith)
length-chunks (suc fuel) n [] p h = grind arith
length-chunks (suc fuel) n (c ∷ s) p h =
    let k : ℕ = min n (length (c ∷ s)) in
    ap suc (
      length-chunks fuel n (drop k (c ∷ s)) p (chunk_left fuel n c s p h)
      ∙ ap (num_lines n) (drop-min n c s))
    ∙ omega (arith, num_lines_step n (length (c ∷ s)) p (omega arith))

abbrev pub IsLine : ℕ → Bytes → Type 0
IsLine n l = (0 < length l) × (length l ≤ n)

pub chunks-IsLine : (fuel n : ℕ) (src : Bytes) → 0 < n → All (IsLine n) (chunks fuel n src)
unfolding chunks
chunks-IsLine zero n src p = tt
chunks-IsLine (suc fuel) n [] p = tt
chunks-IsLine (suc fuel) n (c ∷ s) p =
    let k : ℕ = min n (length (c ∷ s)) in
    (
      (omega (arith, length-take k (c ∷ s)), omega (arith, length-take k (c ∷ s))),
      chunks-IsLine fuel n (drop k (c ∷ s)) p,
    )
