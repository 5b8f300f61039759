-- ===== src/Base/Bits.antt =====
-- The or of a field shifted up with a field that fits below it is their sum, at every width.
use Prim.Native.Nat.{
  ℕ, zero, suc, ◌+◌, ◌*◌, ◌/◌, ◌%◌, ◌^◌, ◌≤◌, ◌<◌, max, bit_or, digits, bit_or-bitwise,
}
use mathlib.Core.Path.{◌≡◌, refl, sym, ap, ◌∙◌}
use native.Mathlib.Nat.{pow-suc}
use native.Mathlib.Omega.{arith}

-- The first `rounds` digits of an or, and what the second number has above them.
abbrev or_digits : ℕ → ℕ → ℕ → ℕ
or_digits rounds = digits (λ above. above) max rounds

no_digit_left : (rounds b : ℕ) → or_digits rounds zero b ≡ bit_or 0 b
no_digit_left zero b = sym (bit_or-bitwise 0 b)
no_digit_left (suc rounds) b = sym (bit_or-bitwise 0 b)

-- With at least as many rounds as the first number, the digits are those of the or.
enough_rounds :
    (limit rounds a b : ℕ) → rounds ≤ limit → a ≤ rounds → or_digits rounds a b ≡ bit_or a b
enough_rounds limit rounds zero b within enough = no_digit_left rounds b
enough_rounds limit zero (suc a) b within enough = absurd (omega arith)
enough_rounds zero (suc rounds) (suc a) b within enough = absurd (omega arith)
enough_rounds (suc limit) (suc rounds) (suc a) b within enough = omega (
  arith,
  bit_or-bitwise (suc a) b,
  enough_rounds limit rounds (suc a / 2) (b / 2) (omega arith) (omega arith),
  enough_rounds limit a (suc a / 2) (b / 2) (omega arith) (omega arith),
)

lowest_digit : (a b : ℕ) → bit_or a b ≡ bit_or (a / 2) (b / 2) * 2 + max (a % 2) (b % 2)
lowest_digit a b = sym (enough_rounds (suc a) (suc a) a b (omega arith) (omega arith)) ∙ round a
  where
    round : (c : ℕ) → or_digits (suc c) c b ≡ bit_or (c / 2) (b / 2) * 2 + max (c % 2) (b % 2)
    round zero = omega (arith, bit_or-bitwise 0 (b / 2))
    round (suc c) =
        omega (arith, enough_rounds (suc c) (suc c) (suc c / 2) (b / 2) (omega arith) (omega arith))

or_nothing : (limit a : ℕ) → a ≤ limit → bit_or a 0 ≡ a
or_nothing limit zero within = refl
or_nothing zero (suc a) within = absurd (omega arith)
or_nothing (suc limit) (suc a) within =
    omega (arith, lowest_digit (suc a) 0, or_nothing limit (suc a / 2) (omega arith))

pub bit_or-add :
    (width high low : ℕ) → low < 2 ^ width → bit_or (high * 2 ^ width) low ≡ high * 2 ^ width + low
bit_or-add zero high low fits = ground (arith, or_nothing high high (omega arith))
bit_or-add (suc width) high low fits =
    let double = ap (λ (power : ℕ). high * power) (pow-suc 2 width) in
    let upper = bit_or-add width high (low / 2) (omega (arith, pow-suc 2 width)) in
    ground (arith, double, upper, lowest_digit (high * 2 ^ suc width) low)
