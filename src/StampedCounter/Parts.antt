-- ===== src/StampedCounter/Parts.antt =====
-- stamped_counter.hpp: the two parts of a stamped counter, as arithmetic.
use Prim.Native.Nat.{bit_and, bit_or}
use scalable_non_zero_indica.Base.{
  ℕ, ◌+◌, ◌-◌, ◌*◌, ◌/◌, ◌%◌, ◌^◌, ◌<◌, ◌≡◌, ◌↔◌, arith, ==_iff, u64, true, sym, ap, ◌∙◌,
}
use mathlib.Core.Path.{ap₂}
use scalable_non_zero_indica.Base.Bits.{
  bit_and_fields, bit_or_fields, bit_and-zero, bit_or-zero, zero-bit_or, bit_and-ones,
}
use scalable_non_zero_indica.StampedCounter.{extract_stamp, extract_counter, pack, equal}

-- Without bits: the quotient and the remainder by 2 ^ 32.
pub extract_stamp_lem : (v : ℕ) → v < 2 ^ 64 → extract_stamp v ≡ v / 2 ^ 32
unfolding extract_stamp
extract_stamp_lem v h = omega (
  arith,
  split,
  bit_and_fields 32 (v / 2 ^ 32) (v % 2 ^ 32) (2 ^ 32 - 1) 0 (omega arith) (omega arith),
  bit_and-ones 32 (v / 2 ^ 32) (omega arith),
  bit_and-zero (v % 2 ^ 32),
)
  where
    split :
        bit_and v 0xffff_ffff_0000_0000
        ≡ bit_and (v / 2 ^ 32 * 2 ^ 32 + v % 2 ^ 32) ((2 ^ 32 - 1) * 2 ^ 32 + 0)
    split = ap (λ (t : ℕ). bit_and t 0xffff_ffff_0000_0000) (omega arith)

pub extract_counter_lem : (v : ℕ) → v < 2 ^ 64 → extract_counter v ≡ v % 2 ^ 32
unfolding extract_counter
extract_counter_lem v h = omega (
  arith,
  split,
  bit_and_fields 32 (v / 2 ^ 32) (v % 2 ^ 32) 0 (2 ^ 32 - 1) (omega arith) (omega arith),
  bit_and-ones 32 (v % 2 ^ 32) (omega arith),
  bit_and-zero (v / 2 ^ 32),
)
  where
    split :
        bit_and v 0xffff_ffff
        ≡ bit_and (v / 2 ^ 32 * 2 ^ 32 + v % 2 ^ 32) (0 * 2 ^ 32 + (2 ^ 32 - 1))
    split = ap (λ (t : ℕ). bit_and t 0xffff_ffff) (omega arith)

pub pack_lem : (s c : ℕ) → s < 2 ^ 32 → c < 2 ^ 32 → pack s c ≡ s * 2 ^ 32 + c
unfolding pack
pack_lem s c hs hc =
    omega (arith, split, bit_or_fields 32 s 0 0 c (omega arith) hc, bit_or-zero s, zero-bit_or c)
  where
    split : bit_or (u64 (s * 2 ^ 32)) c ≡ bit_or (s * 2 ^ 32 + 0) (0 * 2 ^ 32 + c)
    split = ap₂ bit_or (omega arith) (omega arith)

-- A stamp and a counter of 32 bits come back from the value they are packed into.
pub extract-pack :
    (s c : ℕ)
    → s < 2 ^ 32
    → c < 2 ^ 32
    → (extract_stamp (pack s c) ≡ s) × (extract_counter (pack s c) ≡ c)
extract-pack s c hs hc = (
  omega (arith, extract_stamp_lem (pack s c) below, packed),
  omega (arith, extract_counter_lem (pack s c) below, packed),
)
  where
    packed : pack s c ≡ s * 2 ^ 32 + c
    packed = pack_lem s c hs hc

    below : pack s c < 2 ^ 64
    below = omega (arith, packed)

pub stamp-lt : (v : ℕ) → v < 2 ^ 64 → extract_stamp v < 2 ^ 32
stamp-lt v h = omega (arith, extract_stamp_lem v h)

pub counter-lt : (v : ℕ) → v < 2 ^ 64 → extract_counter v < 2 ^ 32
counter-lt v h = omega (arith, extract_counter_lem v h)

-- A value of 64 bits is what its stamp and its counter pack into.
pub pack-extract : (v : ℕ) → v < 2 ^ 64 → pack (extract_stamp v) (extract_counter v) ≡ v
pack-extract v h = omega (
  arith,
  extract_stamp_lem v h,
  extract_counter_lem v h,
  pack_lem (extract_stamp v) (extract_counter v) (stamp-lt v h) (counter-lt v h),
)

-- Two stamped counters of 64 bits are equal exactly when their stamps and their counters are.
pub equal-parts :
    (v w : ℕ)
    → v < 2 ^ 64
    → w < 2 ^ 64
    → (equal v w ≡ true)
      ↔ (extract_stamp v ≡ extract_stamp w) × (extract_counter v ≡ extract_counter w)
unfolding equal
equal-parts v w hv hw = (
  (λ e. let same = (==_iff v w).0 e in (ap extract_stamp same, ap extract_counter same)),
  (λ (p, q). (==_iff v w).1 (sym (pack-extract v hv) ∙ ap₂ pack p q ∙ pack-extract w hw)),
)
