-- ===== src/Socket.antt =====
-- The buffered reads of `Socket` (src/py_nspr_io.c, with `ReadAhead` of src/py_nspr_io.h): recv, read,
-- readline, readlines and iteration, over a transport that stands for NSPR's `PR_Recv`.
--
-- `ReadAhead.buf` holds the `len` bytes that are valid, so `len` is its length. The loops of
-- `_readline`, `Socket_read` and `Socket_readlines` take fuel, and `none` means that it ran out.
pub mod Line
pub mod Stream
pub mod Readline
pub mod Readlines
pub mod Amounts
pub mod Tests
use python_nss_ng.Prelude.{
  ℕ, zero, suc, ◌+◌, ◌-◌, ◌%◌, ◌^◌, Bytes, Bool, true, false, ◌&&◌, Option, none, some, List, [],
  ◌∷◌, ◌++◌, length, take, drop, ltb, leb, ◌==◌, if◌then◌else◌, min, ℤ, pos, negsuc, pos_part,
}

-- What `PR_Recv` answers: a negative amount, or the bytes that it stored (none of them at EOF).
pub data Received : Type 0 where
  failed : Received
  got : Bytes → Received

-- The world outside: the connection behind `pr_socket`, and the allocator's answers.
pub record Transport : Type 1 where
  pub Net : Type 0
  pub pr_recv : Net → ℕ → ℕ → Received × Net
  pub grants : ℕ → Bool

pub record ReadAhead : Type 0 where
  pub buf : Bytes
  pub alloc_len : ℕ

pub record Socket (N : Type 0) : Type 0 where
  pub pr_socket : Option N
  pub readahead : ReadAhead

pub data Error : Type 0 where
  closed no_memory nspr_error system_error overflow_error : Error

pub data Reply (A : Type 0) : Type 0 where
  ok : A → Reply A
  raised : Error → Reply A

abbrev pub alloc_increment : ℕ
alloc_increment = 1024

abbrev pub no_timeout : ℕ
no_timeout = 2 ^ 32 - 1

abbrev pub ssize_max : ℕ
ssize_max = 2 ^ 63 - 1

-- INIT_READAHEAD, and what FREE_READAHEAD leaves.
abbrev pub init_readahead : ReadAhead
init_readahead = record { buf = []; alloc_len = 0 }

abbrev pub newline : ℕ
newline = b'\n'

-- `for (p = beg; p < end && *p != '\n'; p++);` over the first `n` bytes: how far `p` went.
unfoldable pub scan_newline : ℕ → Bytes → ℕ
scan_newline zero s = 0
scan_newline (suc n) [] = 0
scan_newline (suc n) (c ∷ s) = let more = scan_newline n s in if c == newline then 0 else suc more

abbrev pub is_positive : ℤ → Bool
is_positive size = ltb 0 (pos_part size)

-- The length of the line that the buffer already holds; `none` is `goto more_data`.
unfoldable pub buffered_line : ℤ → Bytes → Option ℕ
unfolding scan_newline
buffered_line size buf =
    let len = length buf in
    let end = if is_positive size then min (pos_part size) len else len in
    let line_len = scan_newline end buf in
    if len == 0
    then none
    else if is_positive size && line_len == pos_part size
    then some line_len
    else if line_len == len
    then none
    else some (line_len + 1)

-- The size of the buffer after the test on `space_available`.
unfoldable pub grown : ReadAhead → ℕ
grown ra =
    if ltb (ra.alloc_len - length ra.buf) alloc_increment
    then ra.alloc_len + alloc_increment
    else ra.alloc_len

-- The `long` that `_recv` passes to PR_Recv is cut to a PRInt32, here as its word of 32 bits.
unfoldable pub word32 : ℕ → ℕ
word32 n = n % 2 ^ 32

module _ (t : Transport) where
  open t use {Net, pr_recv, grants}

  -- One round of `more_data`, as `_readline` and `Socket_read` do it.
  pub data Refill : Type 0 where
    refused : Error → Net → Refill
    received : Bytes → Net → ReadAhead → Refill

  after_recv : ReadAhead → ℕ → Received × Net → Refill
  after_recv ra alloc (failed, net) = refused nspr_error net
  after_recv ra alloc (got bytes, net) =
      received bytes net (record { buf = ra.buf ++ bytes; alloc_len = alloc })

  unfoldable pub refill : Net → ReadAhead → Refill
  unfolding after_recv
  refill net ra =
      let alloc = grown ra in
      let answer = pr_recv net (alloc - length ra.buf) no_timeout in
      if ltb (ra.alloc_len - length ra.buf) alloc_increment
        && (if grants alloc then false else true)
      then refused no_memory net
      else after_recv ra alloc answer

  abbrev pub Outcome : Type 0 → Type 0
  Outcome A = Reply A × Socket Net

  abbrev pub with_socket : Net → ReadAhead → Socket Net
  with_socket net ra = record { pr_socket = some net; readahead = ra }

  -- `return_line:` hands out the first `line_len` bytes and moves the tail to the front.
  unfoldable pub return_line : ℕ → Net → ReadAhead → Outcome Bytes
  return_line line_len net ra =
      if grants line_len
      then (ok (take line_len ra.buf), with_socket net (record ra { buf = drop line_len ra.buf }))
      else (raised no_memory, with_socket net ra)

  unfoldable pub readline_loop : ℕ → ℤ → Net → ReadAhead → Option (Outcome Bytes)
  readline_loop zero size net ra = none
  readline_loop (suc fuel) size net ra = elim (buffered_line size ra.buf) [
    | some line_len ↦ some (return_line line_len net ra)
    | none ↦ elim (refill net ra) [
      | refused e net' ↦ some (raised e, with_socket net' init_readahead)
      | received [] net' ra' ↦ some (return_line (length ra'.buf) net' ra')
      | received (c ∷ s) net' ra' ↦ readline_loop fuel size net' ra'
    ]
  ]

  -- `SOCKET_CHECK_OPEN`, then the loop.
  unfoldable pub readline : ℕ → Socket Net → ℤ → Option (Outcome Bytes)
  readline fuel s size = elim s.pr_socket [
    | none ↦ some (raised closed, s)
    | some net ↦ readline_loop fuel size net s.readahead
  ]

  -- Iteration: the empty line at EOF ends it without an exception, which is `none` inside.
  end_if_empty : Outcome Bytes → Outcome (Option Bytes)
  end_if_empty (raised e, s) = (raised e, s)
  end_if_empty (ok [], s) = (ok none, s)
  end_if_empty (ok (c ∷ line), s) = (ok (some (c ∷ line)), s)

  unfoldable pub iternext : ℕ → Socket Net → Option (Outcome (Option Bytes))
  unfolding end_if_empty
  iternext fuel s = elim (readline fuel s (pos 0)) [ none ↦ none | some r ↦ some (end_if_empty r) ]

  -- `Socket_readlines`: `rounds` bounds the loop, `fuel` each line; the list and `amount_read` are
  -- what was read before. The line is appended before the test for EOF.
  unfoldable pub readlines_loop :
      ℕ → ℕ → ℤ → Socket Net → List Bytes → ℕ → Option (Outcome (List Bytes))
  readlines_loop fuel zero sizehint s lines amount_read = none
  readlines_loop fuel (suc rounds) sizehint s lines amount_read = elim (readline fuel s (pos 0)) [
    | none ↦ none
    | some (raised e, s') ↦ some (raised e, s')
    | some (ok line, s') ↦
        let rest =
          readlines_loop fuel rounds sizehint s' (lines ++ line ∷ []) (amount_read + length line) in
        if is_positive sizehint && leb (pos_part sizehint) (amount_read + length line)
        then some (ok (lines ++ line ∷ []), s')
        else if length line == 0
        then some (ok (lines ++ line ∷ []), s')
        else rest
  ]

  unfoldable pub readlines : ℕ → ℕ → Socket Net → ℤ → Option (Outcome (List Bytes))
  readlines fuel rounds s sizehint = readlines_loop fuel rounds sizehint s [] 0

  -- `_recv` from `PR_Recv` on: `have` is what was copied from the buffer, `ra` what is left of it.
  recv_rest : ReadAhead → Bytes → Received × Net → Outcome Bytes
  recv_rest ra have (failed, net) = (raised nspr_error, with_socket net init_readahead)
  recv_rest ra have (got bytes, net) = (ok (have ++ bytes), with_socket net ra)

  recv_open : Net → ReadAhead → ℕ → ℕ → Outcome Bytes
  unfolding recv_rest
  recv_open net ra amount timeout =
      let len = length ra.buf in
      if len == 0
      then recv_rest ra [] (pr_recv net (word32 amount) timeout)
      else if leb amount len
      then (
        ok (take amount ra.buf),
        with_socket net
            (if len == amount then init_readahead else record ra { buf = drop amount ra.buf }),
      )
      else recv_rest init_readahead ra.buf (pr_recv net (word32 (amount - len)) timeout)

  -- A negative amount is refused by `PyBytes_FromStringAndSize`.
  recv_amount : Socket Net → Net → ℤ → ℕ → Outcome Bytes
  unfolding recv_open
  recv_amount s net (negsuc n) timeout = (raised system_error, s)
  recv_amount s net (pos amount) timeout =
      if grants amount then recv_open net s.readahead amount timeout else (raised no_memory, s)

  unfoldable pub recv : Socket Net → ℤ → ℕ → Outcome Bytes
  unfolding recv_amount
  recv s requested timeout = elim s.pr_socket [
    | none ↦ (raised closed, s)
    | some net ↦ recv_amount s net requested timeout
  ]

  -- `Socket_read` until EOF.
  unfoldable pub read_loop : ℕ → Net → ReadAhead → Option (Outcome Bytes)
  read_loop zero net ra = none
  read_loop (suc fuel) net ra = elim (refill net ra) [
    | refused e net' ↦ some (raised e, with_socket net' init_readahead)
    | received bytes net' ra' ↦
        let rest = read_loop fuel net' ra' in
        if ltb ssize_max (length ra'.buf)
        then some (raised overflow_error, with_socket net' init_readahead)
        else if length bytes == 0
        then some (
            if grants (length ra'.buf)
            then (ok ra'.buf, with_socket net' init_readahead)
            else (raised no_memory, with_socket net' ra'))
        else rest
  ]

  read_requested : ℕ → Socket Net → Net → ℤ → Option (Outcome Bytes)
  read_requested fuel s net (pos amount) = some (recv s (pos amount) no_timeout)
  read_requested fuel s net (negsuc n) = read_loop fuel net s.readahead

  unfoldable pub read : ℕ → Socket Net → ℤ → Option (Outcome Bytes)
  unfolding read_requested
  read fuel s requested = elim s.pr_socket [
    | none ↦ some (raised closed, s)
    | some net ↦ read_requested fuel s net requested
  ]
