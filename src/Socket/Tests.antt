-- ===== src/Socket/Tests.antt =====
-- A connection that delivers at most three bytes at once, and the theorems of the socket over it.
use python_nss_ng.Prelude.{
  ℕ, zero, suc, ◌≤◌, ◌<◌, Bytes, codes, true, some, [], ◌∷◌, ◌++◌, length, take, drop, ◌≡◌, refl,
  arith, min, take-append-drop, length-take, pos, negsuc,
}
use python_nss_ng.Socket.{
  Transport, Received, failed, got, ReadAhead, ok, with_socket, readline, readlines, recv, read,
  buffered_line, refill, return_line, readline_loop, grown,
}
use python_nss_ng.Socket.Stream.{StreamLaws, stream}
use python_nss_ng.Socket.Readline.{LineOutcome, readline_lem}
use python_nss_ng.Socket.Readlines.{LinesOutcome, readlines_lem}
use python_nss_ng.Socket.Amounts.{AmountOutcome, recv_lem, WholeOutcome, read_lem}

abbrev trickle : Transport
trickle = record {
  Net = Bytes;
  pr_recv = λ s amount timeout. (got (take (min 3 amount) s), drop (min 3 amount) s);
  grants = λ n. true;
}

trickle_next :
    (s : Bytes) (k : ℕ) (bytes s' : Bytes)
    → ◌≡◌ {A = Received × Bytes} (got (take k s), drop k s) (got bytes, s')
    → s ≡ bytes ++ s'
trickle_next s k bytes s' e = cc (take-append-drop k s)

trickle_le :
    (s : Bytes) (k : ℕ) (bytes s' : Bytes)
    → ◌≡◌ {A = Received × Bytes} (got (take k s), drop k s) (got bytes, s')
    → length bytes ≤ k
trickle_le s k bytes s' e = ground (arith, length-take k s)

trickle_eof :
    (s : Bytes) (k : ℕ) (s' : Bytes)
    → 0 < k
    → ◌≡◌ {A = Received × Bytes} (got (take k s), drop k s) (got [], s')
    → s ≡ []
trickle_eof [] k s' p e = refl
trickle_eof (c ∷ s) zero s' p e = absurd (omega arith)
trickle_eof (c ∷ s) (suc k) s' p e = cc

abbrev trickle_laws : StreamLaws trickle
trickle_laws = record {
  pending = λ s. s;
  recv_next = λ s amount timeout bytes s' e. trickle_next s (min 3 amount) bytes s' e;
  recv_le = λ s amount timeout bytes s' e. omega (arith, trickle_le s (min 3 amount) bytes s' e);
  recv_eof = λ s amount timeout s' p e. trickle_eof s (min 3 amount) s' (omega arith) e;
}

abbrev half_read : ReadAhead
half_read = record { buf = codes "ab"; alloc_len = 1024 }

abbrev rest : Bytes
rest = codes "c\nde\nf"

readline_runs :
    readline trickle 9 (with_socket trickle rest half_read) (pos 0)
    ≡ some (
      ok (codes "abc\n"),
      with_socket trickle (codes "e\nf") (record { buf = codes "d"; alloc_len = 2048 }),
    )
unfolding readline readline_loop buffered_line refill return_line grown
readline_runs = refl

readline_lem_example :
    LineOutcome trickle trickle_laws 3
      (stream trickle trickle_laws rest half_read)
      (readline trickle 9 (with_socket trickle rest half_read) (pos 3))
readline_lem_example =
    readline_lem trickle trickle_laws 9 (pos 3) rest half_read (omega arith) (omega arith)

readlines_lem_example :
    LinesOutcome trickle trickle_laws
      (pos 0)
      0
      []
      (codes "abc\nde\nf")
      (readlines trickle 9 9 (with_socket trickle rest half_read) (pos 0))
readlines_lem_example =
    readlines_lem trickle trickle_laws 9 9 (with_socket trickle rest half_read) (pos 0) tt
      (omega arith) (omega arith) (omega arith)

recv_lem_example :
    AmountOutcome trickle trickle_laws 4
      (codes "abc\nde\nf")
      (recv trickle (with_socket trickle rest half_read) (pos 4) 7)
recv_lem_example = recv_lem trickle trickle_laws rest half_read 4 7 (omega arith) (omega arith)

read_lem_example :
    WholeOutcome trickle trickle_laws
      (codes "abc\nde\nf")
      (read trickle 7 (with_socket trickle rest half_read) (negsuc 0))
read_lem_example = read_lem trickle trickle_laws 7 0 rest half_read (omega arith) (omega arith)

-- A connection on which every `PR_Recv` times out.
abbrev silent : Transport
silent = record { Net = Bytes; pr_recv = λ s amount timeout. (failed, s); grants = λ n. true }
