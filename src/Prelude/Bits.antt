-- ===== src/Prelude/Bits.antt =====
-- Facts about `bit_and` and `bit_or` at variables, from the digit recursion that they stand for.
use Prim.Native.Nat.{
  ℕ, zero, suc, ◌+◌, ◌-◌, ◌*◌, ◌/◌, ◌%◌, ◌≤◌, ◌<◌, min, max, bit_and, bit_or, digits,
  bit_and-bitwise, bit_or-bitwise,
}
use mathlib.Core.Path.{◌≡◌, refl, ap, ◌∙◌}
use mathlib.Core.Bool.{Bool, true, false}
use python_nss_ng.Prelude.Tests.{if◌then◌else◌}
use native.Mathlib.Omega.{arith}

-- A test on all numbers below a bound: evaluated where the bound is a numeral.
unfoldable pub all_below : ℕ → (ℕ → Bool) → Bool
all_below zero test = true
all_below (suc last) test =
    let earlier = all_below last test in if test last then earlier else false

-- What the test says of one of them.
pub all_below_sound :
    (bound : ℕ) (test : ℕ → Bool) (i : ℕ) → all_below bound test ≡ true → i < bound → test i ≡ true
unfolding all_below
all_below_sound zero test i passed inside = absurd (omega arith)
all_below_sound (suc last) test i passed inside =
    let earlier : all_below last test ≡ true → i < last → test i ≡ true =
      all_below_sound last test i in
    ground arith

suc_plus : (n a : ℕ) → suc n + a ≡ suc (n + a)
suc_plus n a = omega arith

minus_plus : (n a : ℕ) → a ≤ n → n ≡ n - a + a
minus_plus n a enough = omega arith

module _ (z : ℕ → ℕ) (f : ℕ → ℕ → ℕ) where
  -- Fuel beyond the first number changes nothing: one unit of it, then any amount.
  one_more : (fuel a b : ℕ) → a ≤ fuel → digits z f (suc fuel) a b ≡ digits z f fuel a b
  one_more zero zero b enough = refl
  one_more (suc less) zero b enough = refl
  one_more zero (suc a) b enough = absurd (omega arith)
  one_more (suc less) (suc a) b enough =
      let halves = one_more less (suc a / 2) (b / 2) (omega arith) in omega (arith, halves)

  spare : (extra a b : ℕ) → digits z f (extra + a) a b ≡ digits z f a a b
  spare zero a b = ap (λ n. digits z f n a b) (omega arith)
  spare (suc extra) a b =
      ap (λ n. digits z f n a b) (suc_plus extra a)
      ∙ one_more (extra + a) a b (omega arith)
      ∙ spare extra a b

  exact : (fuel a b : ℕ) → a ≤ fuel → digits z f fuel a b ≡ digits z f a a b
  exact fuel a b enough =
      ap (λ n. digits z f n a b) (minus_plus fuel a enough) ∙ spare (fuel - a) a b

-- The lowest digit of `bit_or`, and of `bit_and`.
bit_or_step : (a b : ℕ) → bit_or a b ≡ bit_or (a / 2) (b / 2) * 2 + max (a % 2) (b % 2)
bit_or_step zero b =
    let low = bit_or-bitwise 0 (b / 2) in let all = bit_or-bitwise 0 b in omega (arith, all, low)
bit_or_step (suc a) b =
    let half = suc a / 2 in
    let fuel = exact (λ d. d) max a half (b / 2) (omega arith) in
    omega (arith, fuel, bit_or-bitwise half (b / 2), bit_or-bitwise (suc a) b)

pub bit_and_step : (a b : ℕ) → bit_and a b ≡ bit_and (a / 2) (b / 2) * 2 + min (a % 2) (b % 2)
bit_and_step zero b =
    let low = bit_and-bitwise 0 (b / 2) in let all = bit_and-bitwise 0 b in omega (arith, all, low)
bit_and_step (suc a) b =
    let half = suc a / 2 in
    let fuel = exact (λ d. 0) min a half (b / 2) (omega arith) in
    omega (arith, fuel, bit_and-bitwise half (b / 2), bit_and-bitwise (suc a) b)

-- No digits on the right, for numbers up to a bound.
or_nothing : (a bound : ℕ) → a ≤ bound → bit_or a 0 ≡ a
or_nothing zero bound inside = refl
or_nothing (suc a) zero inside = absurd (omega arith)
or_nothing (suc a) (suc bound) inside =
    let half = or_nothing (suc a / 2) bound (omega arith) in
    omega (arith, half, bit_or_step (suc a) 0)

pub and_nothing : (a bound : ℕ) → a ≤ bound → bit_and a 0 ≡ 0
and_nothing zero bound inside = refl
and_nothing (suc a) zero inside = absurd (omega arith)
and_nothing (suc a) (suc bound) inside =
    let half = and_nothing (suc a / 2) bound (omega arith) in
    omega (arith, half, bit_and_step (suc a) 0)

-- Digits that go into places that are empty are added, `k` places at a time.
or_1 : (a o : ℕ) → a % 2 ≡ 0 → o < 2 → bit_or a o ≡ a + o
or_1 a o h p =
    let gone : o / 2 ≡ 0 = omega arith in
    omega
      (arith, bit_or_step a o, ap (bit_or (a / 2)) gone, or_nothing (a / 2) (a / 2) (omega arith))

or_2 : (a o : ℕ) → a % 4 ≡ 0 → o < 4 → bit_or a o ≡ a + o
or_2 a o h p = omega (arith, bit_or_step a o, or_1 (a / 2) (o / 2) (omega arith) (omega arith))

or_3 : (a o : ℕ) → a % 8 ≡ 0 → o < 8 → bit_or a o ≡ a + o
or_3 a o h p = omega (arith, bit_or_step a o, or_2 (a / 2) (o / 2) (omega arith) (omega arith))

or_4 : (a o : ℕ) → a % 16 ≡ 0 → o < 16 → bit_or a o ≡ a + o
or_4 a o h p = omega (arith, bit_or_step a o, or_3 (a / 2) (o / 2) (omega arith) (omega arith))

or_5 : (a o : ℕ) → a % 32 ≡ 0 → o < 32 → bit_or a o ≡ a + o
or_5 a o h p = omega (arith, bit_or_step a o, or_4 (a / 2) (o / 2) (omega arith) (omega arith))

or_6 : (a o : ℕ) → a % 64 ≡ 0 → o < 64 → bit_or a o ≡ a + o
or_6 a o h p = omega (arith, bit_or_step a o, or_5 (a / 2) (o / 2) (omega arith) (omega arith))

or_7 : (a o : ℕ) → a % 128 ≡ 0 → o < 128 → bit_or a o ≡ a + o
or_7 a o h p = omega (arith, bit_or_step a o, or_6 (a / 2) (o / 2) (omega arith) (omega arith))

pub or_octet : (a o : ℕ) → a % 256 ≡ 0 → o < 256 → bit_or a o ≡ a + o
or_octet a o h p = omega (arith, bit_or_step a o, or_7 (a / 2) (o / 2) (omega arith) (omega arith))

-- Digits under places that are all ones stay.
and_1 : (a o : ℕ) → a % 2 ≡ 1 → o < 2 → bit_and a o ≡ o
and_1 a o h p =
    let gone : o / 2 ≡ 0 = omega arith in
    omega (
      arith,
      bit_and_step a o,
      ap (bit_and (a / 2)) gone,
      and_nothing (a / 2) (a / 2) (omega arith),
    )

and_2 : (a o : ℕ) → a % 4 ≡ 3 → o < 4 → bit_and a o ≡ o
and_2 a o h p = omega (arith, bit_and_step a o, and_1 (a / 2) (o / 2) (omega arith) (omega arith))

and_3 : (a o : ℕ) → a % 8 ≡ 7 → o < 8 → bit_and a o ≡ o
and_3 a o h p = omega (arith, bit_and_step a o, and_2 (a / 2) (o / 2) (omega arith) (omega arith))

and_4 : (a o : ℕ) → a % 16 ≡ 15 → o < 16 → bit_and a o ≡ o
and_4 a o h p = omega (arith, bit_and_step a o, and_3 (a / 2) (o / 2) (omega arith) (omega arith))

and_5 : (a o : ℕ) → a % 32 ≡ 31 → o < 32 → bit_and a o ≡ o
and_5 a o h p = omega (arith, bit_and_step a o, and_4 (a / 2) (o / 2) (omega arith) (omega arith))

and_6 : (a o : ℕ) → a % 64 ≡ 63 → o < 64 → bit_and a o ≡ o
and_6 a o h p = omega (arith, bit_and_step a o, and_5 (a / 2) (o / 2) (omega arith) (omega arith))

and_7 : (a o : ℕ) → a % 128 ≡ 127 → o < 128 → bit_and a o ≡ o
and_7 a o h p = omega (arith, bit_and_step a o, and_6 (a / 2) (o / 2) (omega arith) (omega arith))

pub and_octet : (a o : ℕ) → a % 256 ≡ 255 → o < 256 → bit_and a o ≡ o
and_octet a o h p =
    omega (arith, bit_and_step a o, and_7 (a / 2) (o / 2) (omega arith) (omega arith))

-- Three digits are at most 7.
pub bit_and-le_seven : (n : ℕ) → bit_and n 7 ≤ 7
bit_and-le_seven n = omega (
  arith,
  bit_and_step n 7,
  bit_and_step (n / 2) 3,
  bit_and_step (n / 2 / 2) 1,
  and_nothing (n / 2 / 2 / 2) (n / 2 / 2 / 2) (omega arith),
)
