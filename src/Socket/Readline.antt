-- ===== src/Socket/Readline.antt =====
-- `Socket.readline` over a stream: how the transport cuts the bytes into packets does not show.
use python_nss_ng.Prelude.{
  ℕ, zero, suc, ◌<◌, Bytes, Option, none, some, [], ◌∷◌, ◌++◌, length, take, drop, ◌≡◌, ◌≢◌, refl,
  sym, ap, ◌∙◌, arith, Bool-cases, Option-cases, inl, inr, subst, append_assoc, append-nil,
  take-append-drop, length-drop, take_all, ℤ, pos_part,
}
use python_nss_ng.Socket.{
  Transport, ReadAhead, Socket, ok, raised, closed, Refill, refused, received, refill, Outcome,
  with_socket, return_line, buffered_line, readline_loop, readline,
}
use python_nss_ng.Socket.Line.{next_line, buffered_line-some, buffered_line-none}
use python_nss_ng.Socket.Stream.{
  StreamLaws, IsReliable, IsValid, stream, stream_of, RefillOutcome, refill_lem, stream-refill,
  pending-lt,
}

module _ (t : Transport) (laws : StreamLaws t) where
  open t use {Net, grants}
  open laws use {pending}

  abbrev pub IsOpen : Socket Net → Type 0
  IsOpen s = elim s.pr_socket [ none ↦ ⊥ | some net ↦ Unit ]

  -- What a call that should read a line may answer: a line, or an error of a transport or an
  -- allocator that can fail. Running out of fuel is no answer.
  abbrev pub LineOutcome : ℕ → Bytes → Option (Outcome t Bytes) → Type 0
  LineOutcome limit whole none = ⊥
  LineOutcome limit whole (some (ok line, s)) =
      (line ≡ next_line limit whole)
      × (whole ≡ line ++ stream_of t laws s)
      × IsValid s.readahead
      × IsOpen s
  LineOutcome limit whole (some (raised e, s)) =
      (e ≢ closed) × IsValid s.readahead × (¬ IsReliable t)

  return_line_lem :
      (limit n : ℕ) (whole : Bytes) (net : Net) (ra : ReadAhead)
      → IsValid ra
      → whole ≡ stream t laws net ra
      → take n ra.buf ≡ next_line limit whole
      → LineOutcome limit whole (some (return_line t n net ra))
  unfolding return_line
  return_line_lem limit n whole net ra v e line = elim (Bool-cases (grants n)) [
    | inl granted ↦ rw granted (
      line,
      e
          ∙ ap (λ b. b ++ pending net) (sym (take-append-drop n ra.buf))
          ∙ append_assoc (take n ra.buf) (drop n ra.buf) (pending net),
      omega (arith, length-drop n ra.buf),
      tt,
    )
    | inr denied ↦ rw denied ((cc), v, λ reliable. cc (denied, reliable.room n))
  ]

  -- One round, given the rounds behind it.
  loop_step :
      (fuel : ℕ) (size : ℤ) (net : Net) (ra : ReadAhead)
      → ((net' : Net) (ra' : ReadAhead)
          → length (pending net') < fuel
          → IsValid ra'
          → LineOutcome
              (pos_part size)
              (stream t laws net' ra')
              (readline_loop t fuel size net' ra'))
      → length (pending net) < suc fuel
      → IsValid ra
      → buffered_line size ra.buf ≡ none
      → (r : Refill t) → refill t net ra ≡ r
      → RefillOutcome t laws net ra r
      → LineOutcome (pos_part size) (stream t laws net ra) (readline_loop t (suc fuel) size net ra)
  unfolding readline_loop
  loop_step fuel size net ra ih lt v open_line (refused err net') e o =
      rw (open_line, e, LineOutcome, readline_loop) (o.0, omega arith, o.1)
  loop_step fuel size net ra ih lt v open_line (received [] net' ra') e (same, next, eof, v') =
      let whole = stream-refill t laws net net' ra ra' [] same next in
      rw (open_line, e, LineOutcome, readline_loop)
        (return_line_lem (pos_part size) (length ra'.buf) (stream t laws net ra) net' ra' v'
          (sym whole)
          (take_all (length ra'.buf) ra'.buf (omega arith)
            ∙ cc (same, append-nil ra.buf, eof refl, buffered_line-none size ra.buf open_line)))
  loop_step fuel size net ra ih lt v open_line (received (c ∷ s) net' ra') e (more, next, eof, v') =
      rw (open_line, e, LineOutcome, readline_loop)
        (subst (λ w. LineOutcome (pos_part size) w (readline_loop t fuel size net' ra'))
          (stream-refill t laws net net' ra ra' (c ∷ s) more next)
          (ih net' ra' (omega (arith, pending-lt t laws net net' c s next)) v'))

  loop_lem :
      (fuel : ℕ) (size : ℤ) (net : Net) (ra : ReadAhead)
      → length (pending net) < fuel
      → IsValid ra
      → LineOutcome (pos_part size) (stream t laws net ra) (readline_loop t fuel size net ra)
  unfolding readline_loop
  loop_lem zero size net ra lt v = absurd (omega arith)
  loop_lem (suc fuel) size net ra lt v = elim (Option-cases (buffered_line size ra.buf)) [
    | inr (n, e) ↦
        rw (e, LineOutcome, readline_loop)
          (return_line_lem (pos_part size) n _ net ra v refl
            (buffered_line-some size ra.buf (pending net) n e).0)
    | inl e ↦
        loop_step fuel size net ra (loop_lem fuel size) lt v e (refill t net ra) refl
          (refill_lem t laws net ra v)
  ]

-- On a transport that keeps the laws of a byte stream, and a buffer whose bytes fit its size:
-- whatever the packets are, with more fuel than the connection has bytes `readline` answers; the
-- answer is the first line of the buffered and pending bytes, cut at `size` if that is positive
-- and whole for any other `size`, and those behind it stay readable and the buffer is not overrun.
-- An error means that the transport or the allocator can fail.
pub readline_lem :
    (t : Transport) (laws : StreamLaws t) (fuel : ℕ) (size : ℤ) (net : Transport.Net t)
    (ra : ReadAhead)
    → length (StreamLaws.pending laws net) < fuel
    → IsValid ra
    → LineOutcome t laws
        (pos_part size)
        (stream t laws net ra)
        (readline t fuel (with_socket t net ra) size)
unfolding readline
readline_lem t laws fuel size net ra = loop_lem t laws fuel size net ra
