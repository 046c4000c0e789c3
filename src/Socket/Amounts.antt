-- ===== src/Socket/Amounts.antt =====
-- `Socket.recv` and `Socket.read` over a stream.
use python_nss_ng.Prelude.{
  ℕ, zero, suc, ◌+◌, ◌-◌, ◌≤◌, ◌<◌, ◌^◌, Bytes, true, false, Option, none, some, [], ◌∷◌, ◌++◌,
  length, take, drop, ◌≡◌, ◌≢◌, refl, sym, ap, ◌∙◌, arith, Bool-cases, inl, inr, subst,
  length-append, append_assoc, append-nil, take-append-drop, take_all, ne→not_eq, length-take,
  length-drop, pos, negsuc, leb, ltb, ◌==◌, ◌⊎◌,
}
use python_nss_ng.Socket.{
  Transport, Received, failed, got, ReadAhead, ok, raised, closed, nspr_error, ssize_max, Outcome,
  with_socket, init_readahead, refill, Refill, refused, received, recv_rest, recv_open, recv_amount,
  recv, word32, read_loop, read_requested, read,
}
use python_nss_ng.Socket.Stream.{
  StreamLaws, IsReliable, IsValid, stream, stream_of, RefillOutcome, refill_lem, stream-refill,
  pending-lt,
}
use python_nss_ng.Socket.Readline.{IsOpen}

word32_small : (n : ℕ) → n < 2 ^ 31 → word32 n ≡ n
unfolding word32
word32_small n h = omega arith

is_empty : (b : Bytes) → (length b == 0) ≡ true → b ≡ []
is_empty [] h = refl
is_empty (c ∷ b) h = ground arith

not_leb : (a b : ℕ) → b < a → leb a b ≡ false
not_leb a b h = ground arith

longer : (a b : ℕ) → ltb ssize_max a ≡ true → a ≤ b → ssize_max < b
longer a b h e = ground arith

empty_only_at_end :
    (amount : ℕ) (bytes whole : Bytes)
    → (0 < amount → bytes ≡ [] → whole ≡ [])
    → (bytes ≢ []) ⊎ ((amount ≡ 0) ⊎ (whole ≡ []))
empty_only_at_end amount (c ∷ bytes) whole h = inl (cc)
empty_only_at_end zero [] whole h = inr (inl refl)
empty_only_at_end (suc n) [] whole h = inr (inr (h (omega arith) refl))

module _ (t : Transport) (laws : StreamLaws t) where
  open t use {Net, pr_recv, grants}
  open laws use {pending, recv_next, recv_le, recv_eof}

  -- What `recv` of `amount` bytes may answer where `whole` is still to be read.
  abbrev pub AmountOutcome : ℕ → Bytes → Outcome t Bytes → Type 0
  AmountOutcome amount whole (ok bytes, s) =
      (whole ≡ bytes ++ stream_of t laws s)
      × (length bytes ≤ amount)
      × ((bytes ≢ []) ⊎ ((amount ≡ 0) ⊎ (whole ≡ [])))
      × IsValid s.readahead
      × IsOpen t laws s
  AmountOutcome amount whole (raised e, s) = (e ≢ closed) × IsValid s.readahead × (¬ IsReliable t)

  nothing_left :
      (net : Net) (have : Bytes) (wanted timeout : ℕ) (bytes : Bytes) (net' : Net)
      → 0 < wanted
      → pr_recv net wanted timeout ≡ (got bytes, net')
      → have ++ bytes ≡ []
      → have ++ pending net ≡ []
  nothing_left net [] wanted timeout [] net' p e h = recv_eof net wanted timeout net' p e
  nothing_left net [] wanted timeout (c ∷ bytes) net' p e h = cc
  nothing_left net (c ∷ have) wanted timeout bytes net' p e h = cc

  recv_rest_lem :
      (net : Net) (ra : ReadAhead) (have : Bytes) (amount wanted timeout : ℕ)
      → IsValid ra
      → ra.buf ≡ []
      → length have + wanted ≡ amount
      → (0 < amount → 0 < wanted)
      → (answer : Received × Net) → pr_recv net wanted timeout ≡ answer
      → AmountOutcome amount (have ++ pending net) (recv_rest t ra have answer)
  unfolding recv_rest
  recv_rest_lem net ra have amount wanted timeout v empty sum q (failed, net') e = (
    (cc),
    omega arith,
    λ reliable. reliable.answers net wanted timeout (ap (λ (p : Received × Net). p.0) e),
  )
  recv_rest_lem net ra have amount wanted timeout v empty sum q (got bytes, net') e = (
    ap (λ p. have ++ p) (recv_next net wanted timeout bytes net' e)
        ∙ sym (append_assoc have bytes (pending net'))
        ∙ ap (λ b. (have ++ bytes) ++ (b ++ pending net')) (sym empty),
    omega (arith, length-append have bytes, recv_le net wanted timeout bytes net' e),
    empty_only_at_end amount (have ++ bytes) (have ++ pending net) (λ some_left nothing.
        nothing_left net have wanted timeout bytes net' (q some_left) e nothing),
    v,
    tt,
  )

  recv_buffered :
      (net : Net) (ra : ReadAhead) (amount : ℕ)
      → 0 < length ra.buf
      → (rest : ReadAhead) → take amount ra.buf ++ rest.buf ≡ ra.buf
      → IsValid rest
      → AmountOutcome amount
          (stream t laws net ra)
          (ok (take amount ra.buf), with_socket t net rest)
  recv_buffered net ra amount p rest e fits = (
    ap (λ b. b ++ pending net) (sym e) ∙ append_assoc (take amount ra.buf) rest.buf (pending net),
    omega (arith, length-take amount ra.buf),
    empty_only_at_end amount (take amount ra.buf) (stream t laws net ra)
        (λ some_left nothing. absurd (omega (arith, ap length nothing, length-take amount ra.buf))),
    fits,
    tt,
  )

  recv_open_lem :
      (net : Net) (ra : ReadAhead) (amount timeout : ℕ)
      → amount < 2 ^ 31
      → IsValid ra
      → AmountOutcome amount (stream t laws net ra) (recv_open t net ra amount timeout)
  unfolding recv_open
  recv_open_lem net ra amount timeout small v = elim (Bool-cases (length ra.buf == 0)) [
    | inl h ↦
        rw (h, word32_small amount small)
          (subst
            (λ w.
              AmountOutcome amount (w ++ pending net)
                (recv_rest t ra [] (pr_recv net amount timeout)))
            (sym (is_empty ra.buf h))
            (recv_rest_lem net ra [] amount amount timeout v (is_empty ra.buf h) (omega arith)
              (λ p. p) (pr_recv net amount timeout) refl))
    | inr h ↦ elim (Bool-cases (leb amount (length ra.buf))) [
      | inl k ↦ elim (Bool-cases (length ra.buf == amount)) [
        | inl j ↦
            rw (h, k, j)
              (recv_buffered net ra amount (ground arith) init_readahead
                (append-nil (take amount ra.buf) ∙ take_all amount ra.buf (ground arith))
                (omega arith))
        | inr j ↦
            rw (h, k, j)
              (recv_buffered net ra amount (ground arith) (record ra { buf = drop amount ra.buf })
                (take-append-drop amount ra.buf) (omega (arith, length-drop amount ra.buf)))
      ]
      | inr k ↦
          rw (h, k, word32_small (amount - length ra.buf) (omega arith))
            (recv_rest_lem net init_readahead ra.buf amount (amount - length ra.buf) timeout
              (omega arith) refl (ground arith) (λ p. ground arith)
              (pr_recv net (amount - length ra.buf) timeout) refl)
    ]
  ]

-- On a transport that keeps the laws of a byte stream, and a buffer whose bytes fit its size:
-- `recv` of an amount below 2^31 hands out the next bytes of the buffer and the connection, at
-- most `amount`, and none only at the end or if none are asked for; what is behind them stays
-- readable and the buffer is not overrun. An error means that the transport or the allocator can
-- fail.
pub recv_lem :
    (t : Transport) (laws : StreamLaws t) (net : Transport.Net t) (ra : ReadAhead)
    (amount timeout : ℕ)
    → amount < 2 ^ 31
    → IsValid ra
    → AmountOutcome t laws amount
        (stream t laws net ra)
        (recv t (with_socket t net ra) (pos amount) timeout)
unfolding recv recv_amount
recv_lem t laws net ra amount timeout small v = elim (Bool-cases (Transport.grants t amount)) [
  | inl h ↦ rw h (recv_open_lem t laws net ra amount timeout small v)
  | inr h ↦ rw h ((cc), v, λ reliable. cc (h, reliable.room amount))
]

-- When the allocation is granted and `PR_Recv` fails, a `recv` that had taken part of its bytes
-- from the buffer drops them: the error comes back over an empty buffer.
pub recv_drops :
    (t : Transport) (net net' : Transport.Net t) (ra : ReadAhead) (amount timeout : ℕ)
    → Transport.grants t amount ≡ true
    → 0 < length ra.buf
    → length ra.buf < amount
    → amount < 2 ^ 31
    → Transport.pr_recv t net (amount - length ra.buf) timeout ≡ (failed, net')
    → recv t (with_socket t net ra) (pos amount) timeout
      ≡ (raised nspr_error, with_socket t net' init_readahead)
unfolding recv recv_amount recv_open recv_rest
recv_drops t net net' ra amount timeout g p h small e = rw (
  g,
  ne→not_eq (length ra.buf) 0 (omega arith),
  not_leb amount (length ra.buf) h,
  word32_small (amount - length ra.buf) (omega arith),
  e,
)

module _ (t : Transport) (laws : StreamLaws t) where
  open t use {Net, grants}
  open laws use {pending}

  -- What `read` until EOF may answer where `whole` is still to be read.
  abbrev pub WholeOutcome : Bytes → Option (Outcome t Bytes) → Type 0
  WholeOutcome whole none = ⊥
  WholeOutcome whole (some (ok bytes, s)) =
      (bytes ≡ whole) × (stream_of t laws s ≡ []) × IsOpen t laws s
  WholeOutcome whole (some (raised e, s)) =
      (e ≢ closed) × IsValid s.readahead × ((ssize_max < length whole) ⊎ (¬ IsReliable t))

  read_step :
      (fuel : ℕ) (net : Net) (ra : ReadAhead)
      → ((net' : Net) (ra' : ReadAhead)
          → length (pending net') < fuel
          → IsValid ra'
          → WholeOutcome (stream t laws net' ra') (read_loop t fuel net' ra'))
      → length (pending net) < suc fuel
      → (r : Refill t) → refill t net ra ≡ r
      → RefillOutcome t laws net ra r
      → WholeOutcome (stream t laws net ra) (read_loop t (suc fuel) net ra)
  unfolding read_loop
  read_step fuel net ra ih lt (refused err net') e o =
      rw (e, WholeOutcome, read_loop) (o.0, omega arith, inr o.1)
  read_step fuel net ra ih lt (received [] net' ra') e (same, next, eof, v) =
      let whole = stream-refill t laws net net' ra ra' [] same next in
      let done : ra'.buf ≡ stream t laws net ra = cc (same, eof refl) in
      elim (Bool-cases (ltb ssize_max (length ra'.buf))) [
        | inl big ↦
            rw (e, WholeOutcome, read_loop, big)
              (
                (cc),
                omega arith,
                inl (
                    longer (length ra'.buf) (length (stream t laws net ra)) big
                      (omega (arith, ap length done))),
              )
        | inr small ↦ elim (Bool-cases (grants (length ra'.buf))) [
          | inl granted ↦
              rw (e, WholeOutcome, read_loop, small, granted) (done, cc (next, eof refl), tt)
          | inr denied ↦
              rw (e, WholeOutcome, read_loop, small, denied)
                ((cc), v, inr (λ reliable. cc (denied, reliable.room (length ra'.buf))))
        ]
      ]
  read_step fuel net ra ih lt (received (c ∷ s) net' ra') e (same, next, eof, v) =
      let whole = stream-refill t laws net net' ra ra' (c ∷ s) same next in
      elim (Bool-cases (ltb ssize_max (length ra'.buf))) [
        | inl big ↦
            rw (e, WholeOutcome, read_loop, big)
              (
                (cc),
                omega arith,
                inl (
                    longer (length ra'.buf) (length (stream t laws net ra)) big
                      (omega (arith, ap length whole, length-append ra'.buf (pending net')))),
              )
        | inr small ↦
            rw (e, WholeOutcome, read_loop, small, ne→not_eq (length (c ∷ s)) 0 (omega arith))
              (subst (λ w. WholeOutcome w (read_loop t fuel net' ra')) whole
                (ih net' ra' (omega (arith, pending-lt t laws net net' c s next)) v))
      ]

  read_loop_lem :
      (fuel : ℕ) (net : Net) (ra : ReadAhead)
      → length (pending net) < fuel
      → IsValid ra
      → WholeOutcome (stream t laws net ra) (read_loop t fuel net ra)
  read_loop_lem zero net ra lt v = absurd (omega arith)
  read_loop_lem (suc fuel) net ra lt v =
      read_step fuel net ra (read_loop_lem fuel) lt (refill t net ra) refl
        (refill_lem t laws net ra v)

-- On a transport that keeps the laws of a byte stream, and a buffer whose bytes fit its size: with
-- more fuel than the connection has bytes `read` of a negative size answers: the whole stream, and
-- nothing is left. An error means that the transport or the allocator can fail, or that the stream
-- is longer than PY_SSIZE_T_MAX.
pub read_lem :
    (t : Transport) (laws : StreamLaws t) (fuel n : ℕ) (net : Transport.Net t) (ra : ReadAhead)
    → length (StreamLaws.pending laws net) < fuel
    → IsValid ra
    → WholeOutcome t laws (stream t laws net ra) (read t fuel (with_socket t net ra) (negsuc n))
unfolding read read_requested
read_lem t laws fuel n net ra = read_loop_lem t laws fuel net ra
