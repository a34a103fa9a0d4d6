-- ===== src/Base/Bits.antt =====
-- Laws of the bit operations at variables, for the masks that the code uses.
use Prim.Native.Nat.{
  ℕ, zero, suc, ◌+◌, ◌*◌, ◌/◌, ◌%◌, ◌^◌, ◌≤◌, min, max, bit_and, bit_or, digits, bit_and-bitwise,
  bit_or-bitwise,
}
use mathlib.Core.Path.{◌≡◌, refl, sym, ap, ◌∙◌}
use native.Mathlib.Nat.{pow-succ', div-div-eq-div-mul, mul-one, div-one}
use native.Mathlib.Omega.{arith}

-- Both operations recur on the digits of the first number; any fuel from that number on serves.
module _ (base : ℕ → ℕ) (op : ℕ → ℕ → ℕ) where
  digits_any : (n m a b : ℕ) → a ≤ n → a ≤ m → digits base op n a b ≡ digits base op m a b
  digits_any zero zero a b p q = refl
  digits_any zero (suc m) zero b p q = refl
  digits_any zero (suc m) (suc a) b p q = absurd (omega arith)
  digits_any (suc n) zero zero b p q = refl
  digits_any (suc n) zero (suc a) b p q = absurd (omega arith)
  digits_any (suc n) (suc m) zero b p q = refl
  digits_any (suc n) (suc m) (suc a) b p q =
      omega (arith, digits_any n m (suc a / 2) (b / 2) (omega arith) (omega arith))

and_zero_left : (b : ℕ) → bit_and 0 b ≡ 0
and_zero_left b = bit_and-bitwise 0 b

pub or_zero_left : (b : ℕ) → bit_or 0 b ≡ b
or_zero_left b = bit_or-bitwise 0 b

pub and_step : (a b : ℕ) → bit_and a b ≡ 2 * bit_and (a / 2) (b / 2) + min (a % 2) (b % 2)
and_step zero b = omega (arith, and_zero_left b, and_zero_left (b / 2))
and_step (suc a) b = omega (
  arith,
  bit_and-bitwise (suc a) b,
  bit_and-bitwise (suc a / 2) (b / 2),
  digits_any (λ _. zero) min a (suc a / 2) (suc a / 2) (b / 2) (omega arith) (omega arith),
)

pub or_step : (a b : ℕ) → bit_or a b ≡ 2 * bit_or (a / 2) (b / 2) + max (a % 2) (b % 2)
or_step zero b = omega (arith, or_zero_left b, or_zero_left (b / 2))
or_step (suc a) b = omega (
  arith,
  bit_or-bitwise (suc a) b,
  bit_or-bitwise (suc a / 2) (b / 2),
  digits_any (λ x. x) max a (suc a / 2) (suc a / 2) (b / 2) (omega arith) (omega arith),
)

and_zero_right_below : (n a : ℕ) → a ≤ n → bit_and a 0 ≡ 0
and_zero_right_below n zero h = refl
and_zero_right_below zero (suc a) h = absurd (omega arith)
and_zero_right_below (suc n) (suc a) h =
    omega (arith, and_step (suc a) 0, and_zero_right_below n (suc a / 2) (omega arith))

pub and_zero_right : (a : ℕ) → bit_and a 0 ≡ 0
and_zero_right a = and_zero_right_below a a (omega arith)

or_zero_right_below : (n a : ℕ) → a ≤ n → bit_or a 0 ≡ a
or_zero_right_below n zero h = refl
or_zero_right_below zero (suc a) h = absurd (omega arith)
or_zero_right_below (suc n) (suc a) h =
    omega (arith, or_step (suc a) 0, or_zero_right_below n (suc a / 2) (omega arith))

pub or_zero_right : (a : ℕ) → bit_or a 0 ≡ a
or_zero_right a = or_zero_right_below a a (omega arith)

-- `k` ones, lowest first.
abbrev pub ones : ℕ → ℕ
ones zero = 0
ones (suc k) = 2 * ones k + 1

-- The lowest `k` digits.
abbrev low : ℕ → ℕ → ℕ
low zero a = 0
low (suc k) a = 2 * low k (a / 2) + a % 2

and_odd : (a m : ℕ) → bit_and a (2 * m + 1) ≡ 2 * bit_and (a / 2) m + a % 2
and_odd a m =
    let half : (2 * m + 1) / 2 ≡ m = omega arith in
    omega (arith, and_step a (2 * m + 1), ap (bit_and (a / 2)) half)

and-ones-low : (k a : ℕ) → bit_and a (ones k) ≡ low k a
and-ones-low zero a = and_zero_right a
and-ones-low (suc k) a = omega (arith, and_odd a (ones k), and-ones-low k (a / 2))

half_mod : (p a : ℕ) → 2 * ((a / 2) % p) + a % 2 ≡ a % (2 * p)
half_mod p a = grind arith

low-mod : (k a : ℕ) → low k a ≡ a % 2 ^ k
low-mod zero a = omega arith
low-mod (suc k) a = rw (pow-succ' 2 k) (omega (arith, low-mod k (a / 2), half_mod (2 ^ k) a))

-- `a & (2^k - 1)`
pub and-ones : (k a : ℕ) → bit_and a (ones k) ≡ a % 2 ^ k
and-ones k a = and-ones-low k a ∙ low-mod k a

and_even : (a m : ℕ) → bit_and a (2 * m) ≡ 2 * bit_and (a / 2) m
and_even a m =
    let half : 2 * m / 2 ≡ m = omega arith in
    omega (arith, and_step a (2 * m), ap (bit_and (a / 2)) half)

or_even : (a m : ℕ) → bit_or a (2 * m) ≡ 2 * bit_or (a / 2) m + a % 2
or_even a m =
    let half : 2 * m / 2 ≡ m = omega arith in
    omega (arith, or_step a (2 * m), ap (bit_or (a / 2)) half)

or_odd : (a m : ℕ) → bit_or a (2 * m + 1) ≡ 2 * bit_or (a / 2) m + 1
or_odd a m =
    let half : (2 * m + 1) / 2 ≡ m = omega arith in
    omega (arith, or_step a (2 * m + 1), ap (bit_or (a / 2)) half)

shifted : (p b : ℕ) → b * (2 * p) ≡ 2 * (b * p)
shifted p b = grind arith

half_div : (p a : ℕ) → a / (2 * p) ≡ a / 2 / p
half_div p a = sym (div-div-eq-div-mul a 2 p)

-- A mask with `k` zeros below it: only the digits from `k` on meet it.
pub and_shifted : (k a b : ℕ) → bit_and a (b * 2 ^ k) ≡ bit_and (a / 2 ^ k) b * 2 ^ k
and_shifted zero a b = rw (mul-one b, div-one a, mul-one (bit_and a b))
and_shifted (suc k) a b =
    rw
      (
        pow-succ' 2 k,
        shifted (2 ^ k) b,
        half_div (2 ^ k) a,
        shifted (2 ^ k) (bit_and (a / 2 / 2 ^ k) b),
      )
      (and_even a (b * 2 ^ k) ∙ ap (◌*◌ 2) (and_shifted k (a / 2) b))

pub or_shifted : (k a b : ℕ) → bit_or a (b * 2 ^ k) ≡ bit_or (a / 2 ^ k) b * 2 ^ k + a % 2 ^ k
or_shifted zero a b = rw (mul-one b, div-one a, mul-one (bit_or a b)) (omega arith)
or_shifted (suc k) a b =
    rw
      (
        pow-succ' 2 k,
        shifted (2 ^ k) b,
        half_div (2 ^ k) a,
        shifted (2 ^ k) (bit_or (a / 2 / 2 ^ k) b),
      )
      (omega (arith, or_even a (b * 2 ^ k), or_shifted k (a / 2) b, half_mod (2 ^ k) a))

-- `a | (2^k - 1)` on `k` digits
pub or-ones : (k a : ℕ) → a ≤ ones k → bit_or a (ones k) ≡ ones k
or-ones zero a h = omega (arith, or_zero_right a)
or-ones (suc k) a h = omega (arith, or_odd a (ones k), or-ones k (a / 2) (omega arith))

-- `a | 1`
pub or_one : (a : ℕ) → bit_or a 1 ≡ 2 * (a / 2) + 1
or_one a = omega (arith, or_odd a 0, or_zero_right (a / 2))
