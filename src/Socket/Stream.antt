-- ===== src/Socket/Stream.antt =====
-- A transport as a stream of bytes, and one refill of the buffer over it.
use python_nss_ng.Prelude.{
  ℕ, ◌-◌, ◌≤◌, ◌<◌, Bytes, true, none, some, [], ◌∷◌, ◌++◌, length, ltb, ◌≡◌, ◌≢◌, refl, ap, arith,
  Bool-cases, inl, inr, length-append, append_assoc, subst,
}
use python_nss_ng.Socket.{
  Transport, Received, failed, got, ReadAhead, Socket, closed, grown, alloc_increment, no_timeout,
  Refill, refused, received, refill, after_recv,
}

-- What the code relies on in `PR_Recv`: it stores at most `amount` bytes, the next ones of the
-- connection, and answers 0 only when the connection has no more.
pub record StreamLaws (t : Transport) : Type 0 where
  pub pending : Transport.Net t → Bytes
  pub recv_next :
      (net : Transport.Net t) (amount timeout : ℕ) (bytes : Bytes) (net' : Transport.Net t)
      → Transport.pr_recv t net amount timeout ≡ (got bytes, net')
      → pending net ≡ bytes ++ pending net'
  pub recv_le :
      (net : Transport.Net t) (amount timeout : ℕ) (bytes : Bytes) (net' : Transport.Net t)
      → Transport.pr_recv t net amount timeout ≡ (got bytes, net')
      → length bytes ≤ amount
  pub recv_eof :
      (net : Transport.Net t) (amount timeout : ℕ) (net' : Transport.Net t)
      → 0 < amount
      → Transport.pr_recv t net amount timeout ≡ (got [], net')
      → pending net ≡ []

-- A transport that never fails, and an allocator that never refuses.
pub record IsReliable (t : Transport) : Type 0 where
  pub answers :
      (net : Transport.Net t) (amount timeout : ℕ)
      → (Transport.pr_recv t net amount timeout).0 ≢ failed
  pub room : (n : ℕ) → Transport.grants t n ≡ true

-- The bytes that are valid fit in the buffer that was allocated.
abbrev pub IsValid : ReadAhead → Type 0
IsValid ra = length ra.buf ≤ ra.alloc_len

grown-pos : (ra : ReadAhead) → IsValid ra → 0 < grown ra - length ra.buf
unfolding grown
grown-pos ra v = ground arith

grown-le : (ra : ReadAhead) → IsValid ra → length ra.buf ≤ grown ra
unfolding grown
grown-le ra v = ground arith

module _ (t : Transport) (laws : StreamLaws t) where
  open t use {Net, pr_recv, grants}
  open laws use {pending, recv_next, recv_le, recv_eof}

  -- What the reader has still to see: the buffered bytes, then those of the connection.
  abbrev pub stream : Net → ReadAhead → Bytes
  stream net ra = ra.buf ++ pending net

  -- The bytes that an open socket has still to deliver; a closed one delivers none.
  abbrev pub stream_of : Socket Net → Bytes
  stream_of s = elim s.pr_socket [ none ↦ [] | some net ↦ stream net s.readahead ]

  abbrev pub RefillOutcome : Net → ReadAhead → Refill t → Type 0
  RefillOutcome net ra (refused e net') = (e ≢ closed) × (¬ IsReliable t)
  RefillOutcome net ra (received bytes net' ra') =
      (ra'.buf ≡ ra.buf ++ bytes)
      × (pending net ≡ bytes ++ pending net')
      × (bytes ≡ [] → pending net ≡ [])
      × IsValid ra'

  after_recv_lem :
      (net : Net) (ra : ReadAhead)
      → IsValid ra
      → (answer : Received × Net) → pr_recv net (grown ra - length ra.buf) no_timeout ≡ answer
      → RefillOutcome net ra (after_recv t ra (grown ra) answer)
  unfolding after_recv
  after_recv_lem net ra v (failed, net') e =
      ((cc), λ reliable. reliable.answers net _ no_timeout (ap (λ (p : Received × Net). p.0) e))
  after_recv_lem net ra v (got bytes, net') e = (
    refl,
    recv_next net _ _ bytes net' e,
    (λ none_left. recv_eof net _ _ net' (grown-pos ra v) (
        subst (λ b. pr_recv net (grown ra - length ra.buf) no_timeout ≡ (got b, net')) none_left
          e)),
    omega (arith, length-append ra.buf bytes, recv_le net _ _ bytes net' e, grown-le ra v),
  )

  -- A refill appends the next bytes of the connection, and overruns no buffer.
  pub refill_lem :
      (net : Net) (ra : ReadAhead) → IsValid ra → RefillOutcome net ra (refill t net ra)
  unfolding refill
  refill_lem net ra v = elim (Bool-cases (grants (grown ra))) [
    | inl granted ↦ elim (Bool-cases (ltb (ra.alloc_len - length ra.buf) alloc_increment)) [
      | inl low ↦
          rw (low, granted)
            (after_recv_lem net ra v (pr_recv net (grown ra - length ra.buf) no_timeout) refl)
      | inr high ↦
          rw high (after_recv_lem net ra v (pr_recv net (grown ra - length ra.buf) no_timeout) refl)
    ]
    | inr denied ↦ elim (Bool-cases (ltb (ra.alloc_len - length ra.buf) alloc_increment)) [
      | inl low ↦ rw (low, denied) ((cc), λ reliable. cc (denied, reliable.room (grown ra)))
      | inr high ↦
          rw high (after_recv_lem net ra v (pr_recv net (grown ra - length ra.buf) no_timeout) refl)
    ]
  ]

  -- A refill moves bytes from the connection to the buffer, in order.
  pub stream-refill :
      (net net' : Net) (ra ra' : ReadAhead) (bytes : Bytes)
      → ra'.buf ≡ ra.buf ++ bytes
      → pending net ≡ bytes ++ pending net'
      → stream net' ra' ≡ stream net ra
  stream-refill net net' ra ra' bytes same next =
      rw (same, next) (append_assoc ra.buf bytes (pending net'))

  -- Bytes that arrive make what is pending shorter.
  pub pending-lt :
      (net net' : Net) (c : ℕ) (s : Bytes)
      → pending net ≡ (c ∷ s) ++ pending net'
      → length (pending net') < length (pending net)
  pending-lt net net' c s next = omega (arith, ap length next, length-append s (pending net'))
