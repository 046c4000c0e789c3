-- ===== src/Socket/Line.antt =====
-- What `_readline` finds in its buffer, against a plain definition of a line.
use python_nss_ng.Prelude.{
  ℕ, zero, suc, ◌-◌, ◌≤◌, ◌<◌, Bytes, none, some, [], ◌∷◌, ◌++◌, length, take, ◌==◌, if◌then◌else◌,
  min, ℤ, pos, negsuc, pos_part, ◌≡◌, refl, ◌⊎◌, arith,
}
use python_nss_ng.Socket.{newline, scan_newline, buffered_line}

-- The first line of a stream, its newline included, cut at `limit` bytes unless that is 0.
unfoldable pub next_line : ℕ → Bytes → Bytes
next_line limit [] = []
next_line limit (c ∷ s) =
    if c == newline then c ∷ [] else if limit == 1 then c ∷ [] else c ∷ next_line (limit - 1) s

scan-le : (n : ℕ) (s : Bytes) → scan_newline n s ≤ n
unfolding scan_newline
scan-le zero s = omega arith
scan-le (suc n) [] = omega arith
scan-le (suc n) (c ∷ s) = ground (arith, scan-le n s)

-- A newline before the end of the scan closes the line.
scan_found :
    (s rest : Bytes) (limit n : ℕ)
    → (limit ≡ 0) ⊎ (n ≤ limit)
    → scan_newline n s < n
    → n ≤ length s
    → take (suc (scan_newline n s)) s ≡ next_line limit (s ++ rest)
unfolding scan_newline next_line
scan_found [] rest limit n l f h = absurd (omega arith)
scan_found (c ∷ s) rest limit zero l f h = absurd (omega arith)
scan_found (c ∷ s) rest limit (suc n) l f h =
    ground (arith, scan_found s rest (limit - 1) n, scan-le n s)

-- The size limit closes the line.
scan_full :
    (s rest : Bytes) (limit : ℕ)
    → 0 < limit
    → limit ≤ length s
    → scan_newline limit s ≡ limit
    → take limit s ≡ next_line limit (s ++ rest)
unfolding scan_newline next_line
scan_full [] rest limit p h f = absurd (omega arith)
scan_full (c ∷ s) rest zero p h f = absurd (omega arith)
scan_full (c ∷ s) rest (suc zero) p h f = ground arith
scan_full (c ∷ s) rest (suc (suc n)) p h f = ground (arith, scan_full s rest (suc n))

-- With no newline and the limit not reached the bytes are one unfinished line.
scan_open :
    (s : Bytes) (limit : ℕ)
    → (limit ≡ 0) ⊎ (length s ≤ limit)
    → scan_newline (length s) s ≡ length s
    → next_line limit s ≡ s
unfolding scan_newline next_line
scan_open [] limit l f = refl
scan_open (c ∷ s) limit l f = ground (arith, scan_open s (limit - 1))

-- A line from the buffer is the next line of the stream, whatever comes behind the buffer.
pub buffered_line-some :
    (size : ℤ) (buf rest : Bytes) (n : ℕ)
    → buffered_line size buf ≡ some n
    → (take n buf ≡ next_line (pos_part size) (buf ++ rest)) × (n ≤ length buf) × (0 < n)
unfolding buffered_line
buffered_line-some (negsuc k) buf rest n h =
    ground (arith, scan_found buf rest 0 (length buf), scan-le (length buf) buf)
buffered_line-some (pos zero) buf rest n h =
    ground (arith, scan_found buf rest 0 (length buf), scan-le (length buf) buf)
buffered_line-some (pos (suc k)) buf rest n h = ground (
  arith,
  scan_found buf rest (suc k) (min (suc k) (length buf)),
  scan_full buf rest (suc k),
  scan-le (min (suc k) (length buf)) buf,
)

-- With no line in the buffer all of it is the start of an unfinished one.
pub buffered_line-none :
    (size : ℤ) (buf : Bytes) → buffered_line size buf ≡ none → next_line (pos_part size) buf ≡ buf
unfolding buffered_line
buffered_line-none size [] h = unfold next_line in refl
buffered_line-none (negsuc k) (c ∷ s) h = ground (arith, scan_open (c ∷ s) 0)
buffered_line-none (pos zero) (c ∷ s) h = ground (arith, scan_open (c ∷ s) 0)
buffered_line-none (pos (suc k)) (c ∷ s) h =
    ground (arith, scan_open (c ∷ s) (suc k), scan-le (min (suc k) (length (c ∷ s))) (c ∷ s))
