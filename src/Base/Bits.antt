-- ===== src/Base/Bits.antt =====
-- `&` and `|` with fields of bits, as arithmetic.
use Prim.Native.Nat.{
  ℕ, zero, suc, ◌+◌, ◌-◌, ◌*◌, ◌/◌, ◌%◌, ◌^◌, ◌≤◌, ◌<◌, min, max, digits, bit_and, bit_or,
  bit_and-bitwise, bit_or-bitwise,
}
use mathlib.Core.Path.{◌≡◌, refl, ap}
use native.Mathlib.Nat.{pow-suc, one-le-pow}
use native.Mathlib.Omega.{arith}

-- Fuel beyond the first operand changes nothing.
digits_enough :
    (z : ℕ → ℕ) (f : ℕ → ℕ → ℕ) (fuel other a b : ℕ)
    → a ≤ fuel
    → a ≤ other
    → digits z f fuel a b ≡ digits z f other a b
digits_enough z f zero zero zero b p q = refl
digits_enough z f zero (suc other) zero b p q = refl
digits_enough z f (suc fuel) zero zero b p q = refl
digits_enough z f (suc fuel) (suc other) zero b p q = refl
digits_enough z f zero other (suc a) b p q = absurd (omega arith)
digits_enough z f (suc fuel) zero (suc a) b p q = absurd (omega arith)
digits_enough z f (suc fuel) (suc other) (suc a) b p q =
    let half = digits_enough z f fuel other (suc a / 2) (b / 2) (omega arith) (omega arith) in
    ap (λ (t : ℕ). t * 2 + f (suc a % 2) (b % 2)) half

and_low_bit : (a b : ℕ) → bit_and a b ≡ bit_and (a / 2) (b / 2) * 2 + min (a % 2) (b % 2)
and_low_bit zero b = omega (arith, bit_and-bitwise 0 b, bit_and-bitwise 0 (b / 2))
and_low_bit (suc a) b = omega (
  arith,
  bit_and-bitwise (suc a) b,
  bit_and-bitwise (suc a / 2) (b / 2),
  digits_enough (λ y. 0) min a (suc a / 2) (suc a / 2) (b / 2) (omega arith) (omega arith),
)

or_low_bit : (a b : ℕ) → bit_or a b ≡ bit_or (a / 2) (b / 2) * 2 + max (a % 2) (b % 2)
or_low_bit zero b = omega (arith, bit_or-bitwise 0 b, bit_or-bitwise 0 (b / 2))
or_low_bit (suc a) b = omega (
  arith,
  bit_or-bitwise (suc a) b,
  bit_or-bitwise (suc a / 2) (b / 2),
  digits_enough (λ y. y) max a (suc a / 2) (suc a / 2) (b / 2) (omega arith) (omega arith),
)

-- An operation that works bit by bit works field by field.
module _ (op f : ℕ → ℕ → ℕ)
    (low_bit : (a b : ℕ) → op a b ≡ op (a / 2) (b / 2) * 2 + f (a % 2) (b % 2))
    (at_zero : op 0 0 ≡ 0) where
  fields :
      (k q r m l : ℕ)
      → r < 2 ^ k
      → l < 2 ^ k
      → op (q * 2 ^ k + r) (m * 2 ^ k + l) ≡ op q m * 2 ^ k + op r l
  fields zero q r m l hr hl = ground (arith, at_zero)
  fields (suc k) q r m l hr hl = ground (
    arith,
    low_bit (q * 2 ^ suc k + r) (m * 2 ^ suc k + l),
    low_bit r l,
    fields k q (r / 2) m (l / 2) (omega (arith, pow-suc 2 k)) (omega (arith, pow-suc 2 k)),
    shift q,
    shift m,
    shift (op q m),
  )
    where
      shift : (t : ℕ) → t * 2 ^ suc k ≡ 2 * (t * 2 ^ k)
      shift t = omega (arith, ap (λ (p : ℕ). t * p) (pow-suc 2 k))

pub bit_and_fields :
    (k q r m l : ℕ)
    → r < 2 ^ k
    → l < 2 ^ k
    → bit_and (q * 2 ^ k + r) (m * 2 ^ k + l) ≡ bit_and q m * 2 ^ k + bit_and r l
bit_and_fields = fields bit_and min and_low_bit refl

pub bit_or_fields :
    (k q r m l : ℕ)
    → r < 2 ^ k
    → l < 2 ^ k
    → bit_or (q * 2 ^ k + r) (m * 2 ^ k + l) ≡ bit_or q m * 2 ^ k + bit_or r l
bit_or_fields = fields bit_or max or_low_bit refl

and-zero_below : (n a : ℕ) → a ≤ n → bit_and a 0 ≡ 0
and-zero_below n zero h = refl
and-zero_below zero (suc a) h = absurd (omega arith)
and-zero_below (suc n) (suc a) h =
    omega (arith, and_low_bit (suc a) 0, and-zero_below n (suc a / 2) (omega arith))

pub bit_and-zero : (a : ℕ) → bit_and a 0 ≡ 0
bit_and-zero a = and-zero_below a a (omega arith)

or-zero_below : (n a : ℕ) → a ≤ n → bit_or a 0 ≡ a
or-zero_below n zero h = refl
or-zero_below zero (suc a) h = absurd (omega arith)
or-zero_below (suc n) (suc a) h =
    omega (arith, or_low_bit (suc a) 0, or-zero_below n (suc a / 2) (omega arith))

pub bit_or-zero : (a : ℕ) → bit_or a 0 ≡ a
bit_or-zero a = or-zero_below a a (omega arith)

pub zero-bit_or : (a : ℕ) → bit_or 0 a ≡ a
zero-bit_or a = bit_or-bitwise 0 a

-- A mask of `k` ones leaves a value of `k` bits alone.
pub bit_and-ones : (k r : ℕ) → r < 2 ^ k → bit_and r (2 ^ k - 1) ≡ r
bit_and-ones zero r h = let e : r ≡ 0 = omega arith in rw e
bit_and-ones (suc k) r h = omega (
  arith,
  and_low_bit r (2 ^ suc k - 1),
  bit_and-ones k (r / 2) (omega (arith, pow-suc 2 k)),
  halved,
  odd,
)
  where
    positive : 1 ≤ 2 ^ k
    positive = one-le-pow k 2 (omega arith)

    odd : (2 ^ suc k - 1) % 2 ≡ 1
    odd = omega (arith, pow-suc 2 k, positive)

    halved : bit_and (r / 2) ((2 ^ suc k - 1) / 2) ≡ bit_and (r / 2) (2 ^ k - 1)
    halved = ap (bit_and (r / 2)) (omega (arith, pow-suc 2 k, positive))
