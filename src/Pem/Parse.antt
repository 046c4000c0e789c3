-- ===== src/Pem/Parse.antt =====
-- PEM text parsed by `base64_to_SECItem`: what is decoded, and what the buffer is afterwards.
use python_nss_ng.Prelude.{
  ℕ, suc, ◌+◌, ◌<◌, Bytes, [], ◌∷◌, ◌++◌, length, drop, ◌≡◌, ◌≢◌, refl, ap, ◌∙◌, subst, arith, All,
  All-append, Option, none, some, length-append, take-append, drop-append, append_assoc, ne→not_eq,
}
use python_nss_ng.Pem.{
  strchr, line_end, put_nul, begin_mark, end_mark, no_pem_end, failed, Library, decode_region,
  base64_to_sec_item,
}

-- How `PL_strnstr` is documented: it finds the first occurrence, which what follows does not
-- change, and it does not look past a NUL.
pub record StrnstrLaws (strnstr : Bytes → Bytes → Option ℕ) : Type 0 where
  pub first :
      (p mark q : Bytes)
      → strnstr (p ++ mark) mark ≡ some (length p)
      → strnstr (p ++ (mark ++ q)) mark ≡ some (length p)
  pub stops :
      (p mark q : Bytes)
      → All (λ c. c ≢ 0) mark
      → 0 < length mark
      → strnstr (p ++ mark) mark ≡ some (length p)
      → strnstr (p ++ 0 ∷ q) mark ≡ none

-- A character of the rest of the line that begins with the BEGIN mark.
abbrev pub InLine : ℕ → Type 0
InLine c = (c ≢ b'\n') × (c ≢ 0)

strchr-append :
    (rest q : Bytes) → All InLine rest → strchr b'\n' (rest ++ b'\n' ∷ q) ≡ some (length rest)
unfolding strchr
strchr-append [] q _ = refl
strchr-append (c ∷ rest) q ((n, z), h) =
    rw (strchr-append rest q h, ne→not_eq c b'\n' n, ne→not_eq c 0 z) refl

line_end_lem :
    (rest q : Bytes) → All InLine rest → line_end (rest ++ b'\n' ∷ q) ≡ some (length rest)
unfolding line_end
line_end_lem rest q h = rw (line_end, strchr-append rest q h) refl

add_one : (n : ℕ) → n + 1 ≡ suc n
add_one n = omega arith

drop-line_suc : (rest : Bytes) (c : ℕ) (q : Bytes) → drop (suc (length rest)) (rest ++ c ∷ q) ≡ q
drop-line_suc [] c q = refl
drop-line_suc (d ∷ rest) c q = drop-line_suc rest c q

drop-line : (rest : Bytes) (c : ℕ) (q : Bytes) → drop (length rest + 1) (rest ++ c ∷ q) ≡ q
drop-line rest c q =
    ap (λ k. drop k (rest ++ c ∷ q)) (add_one (length rest)) ∙ drop-line_suc rest c q

put_nul_at : (p : Bytes) (c : ℕ) (q : Bytes) → put_nul (length p) (p ++ c ∷ q) ≡ p ++ 0 ∷ q
unfolding put_nul
put_nul_at p c q = rw (take-append p (c ∷ q), drop-line p c q) refl

-- A text with a PEM section, as far as the line with the BEGIN mark.
abbrev pub pem_text : Bytes → Bytes → Bytes → Bytes
pem_text before rest q = before ++ (begin_mark ++ (rest ++ b'\n' ∷ q))

pub record IsPem (strnstr : Bytes → Bytes → Option ℕ) (before rest body : Bytes) : Type 0 where
  pub at_begin : strnstr (before ++ begin_mark) begin_mark ≡ some (length before)
  pub in_line : All InLine rest
  pub at_end : strnstr (body ++ end_mark) end_mark ≡ some (length body)

All-InLine_begin : All InLine begin_mark
All-InLine_begin = ground arith

All-InLine_mark : (rest : Bytes) → All InLine rest → All InLine (begin_mark ++ rest)
All-InLine_mark rest h = All-append InLine begin_mark rest All-InLine_begin h

body_of :
    (before rest q : Bytes)
    → drop (length (begin_mark ++ rest) + 1) (drop (length before) (pem_text before rest q)) ≡ q
body_of before rest q =
    rw (drop-append before (begin_mark ++ (rest ++ b'\n' ∷ q)))
      (drop-line (begin_mark ++ rest) b'\n' q)

line_of :
    (before rest q : Bytes)
    → All InLine rest
    → line_end (drop (length before) (pem_text before rest q)) ≡ some (length (begin_mark ++ rest))
line_of before rest q h =
    rw (drop-append before (begin_mark ++ (rest ++ b'\n' ∷ q)))
      (line_end_lem (begin_mark ++ rest) q (All-InLine_mark rest h))

pem_text-append :
    (before rest body q : Bytes) → pem_text before rest body ++ q ≡ pem_text before rest (body ++ q)
pem_text-append before rest body q =
    append_assoc before (begin_mark ++ (rest ++ b'\n' ∷ body)) q
    ∙ ap (λ l. before ++ l)
        (append_assoc begin_mark (rest ++ b'\n' ∷ body) q
          ∙ ap (λ l. begin_mark ++ l) (append_assoc rest (b'\n' ∷ body) q))

length-pem_text :
    (before rest body : Bytes)
    → length (pem_text before rest body)
      ≡ length before + (length (begin_mark ++ rest) + 1) + length body
length-pem_text before rest body = omega (
  arith,
  length-append before (begin_mark ++ (rest ++ b'\n' ∷ body)),
  length-append begin_mark (rest ++ b'\n' ∷ body),
  length-append begin_mark rest,
  length-append rest (b'\n' ∷ body),
)

-- The NUL goes where the END mark began.
put_nul_end :
    (before rest body q : Bytes)
    → put_nul
        (length before + (length (begin_mark ++ rest) + 1) + length body)
        (pem_text before rest (body ++ b'-' ∷ q))
      ≡ pem_text before rest (body ++ 0 ∷ q)
put_nul_end before rest body q =
    subst
      (λ k.
        put_nul k (pem_text before rest (body ++ b'-' ∷ q)) ≡ pem_text before rest (body ++ 0 ∷ q))
      (length-pem_text before rest body)
      (subst
        (λ t. put_nul (length (pem_text before rest body)) t ≡ pem_text before rest (body ++ 0 ∷ q))
        (pem_text-append before rest body (b'-' ∷ q))
        (put_nul_at (pem_text before rest body) b'-' q ∙ pem_text-append before rest body (0 ∷ q)))

module _ (lib : Library) (laws : StrnstrLaws (Library.strnstr lib)) where
  open lib use {strnstr}

  -- Where a BEGIN mark, the rest of its line and an END mark stand in a text, and the search is as
  -- documented, what is decoded is what stands between that line and the END mark; the first octet
  -- of the END mark is overwritten by a NUL.
  pub parse_once :
      (before rest body q : Bytes)
      → IsPem strnstr before rest body
      → base64_to_sec_item lib (pem_text before rest (body ++ (end_mark ++ q)))
        ≡ (decode_region lib body, pem_text before rest (body ++ 0 ∷ (drop 1 end_mark ++ q)))
  unfolding base64_to_sec_item
  parse_once before rest body q pem =
      rw
        (
          base64_to_sec_item,
          laws.first before begin_mark (rest ++ b'\n' ∷ (body ++ (end_mark ++ q))) pem.at_begin,
          line_of before rest (body ++ (end_mark ++ q)) pem.in_line,
          body_of before rest (body ++ (end_mark ++ q)),
          laws.first body end_mark q pem.at_end,
          body_of before rest (body ++ (end_mark ++ q)),
          take-append body (end_mark ++ q),
        )
        (ap (λ b. (decode_region lib body, b))
          (put_nul_end before rest body (drop 1 end_mark ++ q)))

  -- A text whose END mark a first parse has overwritten with a NUL is refused by a second one, for
  -- want of the END mark, and left as it is.
  pub parse_again :
      (before rest body q : Bytes)
      → IsPem strnstr before rest body
      → base64_to_sec_item lib (pem_text before rest (body ++ 0 ∷ q))
        ≡ (failed no_pem_end, pem_text before rest (body ++ 0 ∷ q))
  unfolding base64_to_sec_item
  parse_again before rest body q pem =
      rw
        (
          base64_to_sec_item,
          laws.first before begin_mark (rest ++ b'\n' ∷ (body ++ 0 ∷ q)) pem.at_begin,
          line_of before rest (body ++ 0 ∷ q) pem.in_line,
          body_of before rest (body ++ 0 ∷ q),
          laws.stops body end_mark q (ground arith) (omega arith) pem.at_end,
        )
        refl
