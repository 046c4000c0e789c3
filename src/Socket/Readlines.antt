-- ===== src/Socket/Readlines.antt =====
-- `Socket.readlines` and iteration over a stream.
use python_nss_ng.Prelude.{
  ℕ, zero, suc, ◌+◌, ◌<◌, Bytes, true, false, Option, none, some, List, [], ◌∷◌, ◌++◌, length, ◌≡◌,
  ◌≢◌, refl, sym, ap, ◌∙◌, arith, Bool-cases, inl, inr, length-append, append_assoc, ℤ, pos,
  pos_part, leb, ◌==◌, ne→not_eq, ◌&&◌, if◌then◌else◌,
}
use python_nss_ng.Socket.{
  Transport, ReadAhead, Socket, ok, raised, closed, newline, is_positive, Outcome, readline,
  readlines_loop, readlines,
}
use python_nss_ng.Socket.Line.{next_line}
use python_nss_ng.Socket.Stream.{StreamLaws, IsReliable, IsValid, stream_of}
use python_nss_ng.Socket.Readline.{IsOpen, LineOutcome, readline_lem}

abbrev prepend : ℕ → List Bytes → List Bytes
prepend c [] = (c ∷ []) ∷ []
prepend c (l ∷ ls) = (c ∷ l) ∷ ls

-- The lines of a text, each with its newline; the last one may lack it, and none is empty.
unfoldable pub split_lines : Bytes → List Bytes
split_lines [] = []
split_lines (c ∷ s) =
    let rest = split_lines s in if c == newline then (c ∷ []) ∷ rest else prepend c rest

-- The lines up to the one with which `sizehint` bytes are reached, if `sizehint` is positive.
unfoldable pub hinted : ℤ → ℕ → List Bytes → List Bytes
hinted hint seen [] = []
hinted hint seen (l ∷ ls) =
    let more = hinted hint (seen + length l) ls in
    l ∷ (if is_positive hint && leb (pos_part hint) (seen + length l) then [] else more)

-- Splitting takes the next line off the front.
split_next :
    (s rest : Bytes) (c : ℕ)
    → c ∷ s ≡ next_line 0 (c ∷ s) ++ rest
    → split_lines (c ∷ s) ≡ next_line 0 (c ∷ s) ∷ split_lines rest
unfolding split_lines next_line
split_next [] rest c e = ground arith
split_next (d ∷ s) rest c e = ground (arith, split_next s rest d)

next_line-ne-nil : (limit c : ℕ) (s : Bytes) → next_line limit (c ∷ s) ≢ []
unfolding next_line
next_line-ne-nil limit c s = ground arith

next_line-nil : (limit : ℕ) → next_line limit [] ≡ []
unfolding next_line
next_line-nil limit = refl

length-ne-zero : (l : Bytes) → l ≢ [] → length l ≢ 0
length-ne-zero [] h = absurd (h refl)
length-ne-zero (x ∷ l) h = omega arith

-- At EOF the empty line is the last one.
last_line :
    (hint : ℤ) (seen : ℕ) (done : List Bytes) (line : Bytes)
    → line ≡ next_line 0 []
    → done ++ line ∷ [] ≡ done ++ hinted hint seen (split_lines [] ++ [] ∷ [])
unfolding hinted split_lines next_line
last_line hint seen done line e = ground arith

-- The line that reaches the hint is the last one.
hinted_stop :
    (hint : ℤ) (seen : ℕ) (line : Bytes) (more : List Bytes)
    → (is_positive hint && leb (pos_part hint) (seen + length line)) ≡ true
    → hinted hint seen (line ∷ more) ≡ line ∷ []
unfolding hinted
hinted_stop hint seen line more h = rw h

module _ (t : Transport) (laws : StreamLaws t) where
  open t use {Net}
  open laws use {pending}

  readline_parts :
      (fuel : ℕ) (size : ℤ) (o : Option Net) (ra : ReadAhead)
      → let s : Socket Net = record { pr_socket = o; readahead = ra } in
        IsOpen t laws s
        → IsValid ra
        → length (stream_of t laws s) < fuel
        → LineOutcome t laws (pos_part size) (stream_of t laws s) (readline t fuel s size)
  readline_parts fuel size none ra opened v lt = absurd opened
  readline_parts fuel size (some net) ra opened v lt =
      readline_lem t laws fuel size net ra (omega (arith, length-append ra.buf (pending net))) v

  -- `readline` of any open socket.
  pub readline_open :
      (fuel : ℕ) (size : ℤ) (s : Socket Net)
      → IsOpen t laws s
      → IsValid s.readahead
      → length (stream_of t laws s) < fuel
      → LineOutcome t laws (pos_part size) (stream_of t laws s) (readline t fuel s size)
  readline_open fuel size s = readline_parts fuel size s.pr_socket s.readahead

  -- What `readlines` may answer, where `done` was read before and `whole` is still to be read.
  abbrev pub LinesOutcome : ℤ → ℕ → List Bytes → Bytes → Option (Outcome t (List Bytes)) → Type 0
  LinesOutcome hint seen done whole none = ⊥
  LinesOutcome hint seen done whole (some (ok lines, s)) =
      (lines ≡ done ++ hinted hint seen (split_lines whole ++ [] ∷ [])) × IsOpen t laws s
  LinesOutcome hint seen done whole (some (raised e, s)) = (e ≢ closed) × (¬ IsReliable t)

  -- The lines behind one that was read.
  LinesOutcome-cons :
      (hint : ℤ) (seen : ℕ) (done : List Bytes) (line rest : Bytes) (whole : Bytes)
      → split_lines whole ≡ line ∷ split_lines rest
      → (is_positive hint && leb (pos_part hint) (seen + length line)) ≡ false
      → (r : Option (Outcome t (List Bytes)))
      → LinesOutcome hint (seen + length line) (done ++ line ∷ []) rest r
      → LinesOutcome hint seen done whole r
  unfolding hinted
  LinesOutcome-cons hint seen done line rest whole e h none o = o
  LinesOutcome-cons hint seen done line rest whole e h (some (raised err, s)) o = o
  LinesOutcome-cons hint seen done line rest whole e h (some (ok lines, s)) (same, opened) =
      (same ∙ append_assoc done (line ∷ []) _ ∙ rw (e, h), opened)

  -- One round, given those behind it.
  lines_step :
      (fuel rounds : ℕ) (hint : ℤ) (s : Socket Net) (done : List Bytes) (seen : ℕ)
      → ((s' : Socket Net) (done' : List Bytes) (seen' : ℕ)
          → IsOpen t laws s'
          → IsValid s'.readahead
          → length (stream_of t laws s') < rounds
          → length (stream_of t laws s') < fuel
          → LinesOutcome hint seen' done'
              (stream_of t laws s')
              (readlines_loop t fuel rounds hint s' done' seen'))
      → length (stream_of t laws s) < suc rounds
      → length (stream_of t laws s) < fuel
      → (whole : Bytes) → stream_of t laws s ≡ whole
      → (r : Option (Outcome t Bytes)) → readline t fuel s (pos 0) ≡ r
      → LineOutcome t laws 0 whole r
      → LinesOutcome hint seen done whole (readlines_loop t fuel (suc rounds) hint s done seen)
  unfolding readlines_loop
  lines_step fuel rounds hint s done seen ih lt lt' whole w none e o = absurd o
  lines_step fuel rounds hint s done seen ih lt lt' whole w (some (raised err, s')) e (a, b, c) =
      rw (e, LinesOutcome, readlines_loop) (a, c)
  lines_step fuel rounds hint s done seen ih lt lt' [] w (some (ok line, s')) e
        (first, next, v, opened) =
      elim (Bool-cases (is_positive hint && leb (pos_part hint) (seen + length line))) [
        | inl h ↦
            rw (e, LinesOutcome, readlines_loop, h) (last_line hint seen done line first, opened)
        | inr h ↦
            rw (e, LinesOutcome, readlines_loop, h, ap length (first ∙ next_line-nil 0))
              (last_line hint seen done line first, opened)
      ]
  lines_step fuel rounds hint s done seen ih lt lt' (c ∷ text) w (some (ok line, s')) e
        (first, next, v, opened) =
      let split =
        split_next text (stream_of t laws s') c (next ∙ ap (λ l. l ++ stream_of t laws s') first) in
      let split' : split_lines (c ∷ text) ≡ line ∷ split_lines (stream_of t laws s') = cc in
      let size = ap length next ∙ length-append line (stream_of t laws s') in
      let filled : length line ≢ 0 =
        length-ne-zero line λ nothing. next_line-ne-nil 0 c text (sym first ∙ nothing) in
      elim (Bool-cases (is_positive hint && leb (pos_part hint) (seen + length line))) [
        | inl h ↦
            rw (e, LinesOutcome, readlines_loop, h)
              (
                ap (λ l. done ++ l)
                    (sym (
                      ap (λ l. hinted hint seen (l ++ [] ∷ [])) split'
                      ∙ hinted_stop hint seen line _ h)),
                opened,
              )
        | inr h ↦
            rw (e, LinesOutcome, readlines_loop, h, ne→not_eq (length line) 0 filled)
              (LinesOutcome-cons hint seen done line (stream_of t laws s') (c ∷ text) split' h _ (
                ih s' (done ++ line ∷ []) (seen + length line) opened v (omega (arith, ap length w))
                  (omega (arith, ap length w))))
      ]

  lines_loop_lem :
      (fuel rounds : ℕ) (hint : ℤ) (s : Socket Net) (done : List Bytes) (seen : ℕ)
      → IsOpen t laws s
      → IsValid s.readahead
      → length (stream_of t laws s) < rounds
      → length (stream_of t laws s) < fuel
      → LinesOutcome hint seen done
          (stream_of t laws s)
          (readlines_loop t fuel rounds hint s done seen)
  lines_loop_lem fuel zero hint s done seen opened v lt lt' = absurd (omega arith)
  lines_loop_lem fuel (suc rounds) hint s done seen opened v lt lt' =
      lines_step fuel rounds hint s done seen (lines_loop_lem fuel rounds hint) lt lt' _ refl
        (readline t fuel s (pos 0)) refl (readline_open fuel (pos 0) s opened v lt')

-- On a transport that keeps the laws of a byte stream, and a buffer whose bytes fit its size: with
-- more rounds and fuel than the open socket has bytes `readlines` answers: the lines of the stream
-- and then an empty line, up to the line with which a positive `sizehint` is reached; any other
-- `sizehint` is no limit. An error means that the transport or the allocator can fail.
pub readlines_lem :
    (t : Transport) (laws : StreamLaws t) (fuel rounds : ℕ) (s : Socket (Transport.Net t))
    (sizehint : ℤ)
    → IsOpen t laws s
    → IsValid s.readahead
    → length (stream_of t laws s) < rounds
    → length (stream_of t laws s) < fuel
    → LinesOutcome t laws sizehint 0 [] (stream_of t laws s) (readlines t fuel rounds s sizehint)
unfolding readlines
readlines_lem t laws fuel rounds s sizehint = lines_loop_lem t laws fuel rounds sizehint s [] 0
