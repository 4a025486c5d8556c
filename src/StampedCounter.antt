-- ===== src/StampedCounter.antt =====
-- stamped_counter.hpp: the class `stamped_counter`, which packs a stamp and a counter of 32 bits
-- each into one 64-bit value, and its two proxies `stamp_reference` and `counter_reference`.
-- The operations of a proxy are functions of the packed value that it refers to.
pub mod Parts
pub mod Assign
pub mod Proxies
use Prim.Native.Nat.{bit_and, bit_or, bit_xor}
use scalable_non_zero_indica.Base.{
  ℕ, ◌+◌, ◌-◌, ◌*◌, ◌/◌, ◌%◌, ◌^◌, ltb, ◌==◌, if◌then◌else◌, u64, Option, none, some, Bool, not,
}
use mathlib.Core.Option

-- `stamp_type` and `counter_type`
abbrev pub u32 : ℕ → ℕ
u32 n = n % 2 ^ 32

pub extract_stamp : ℕ → ℕ
extract_stamp value = u32 (bit_and value 0xffff_ffff_0000_0000 / 2 ^ 32)

pub extract_counter : ℕ → ℕ
extract_counter value = u32 (bit_and value 0x0000_0000_ffff_ffff)

pub pack : ℕ → ℕ → ℕ
pack stamp counter = bit_or (u64 (stamp * 2 ^ 32)) counter

-- The compound assignments that both proxies overload.
pub data Compound : Type 0 where
  plus minus times over remainder : Compound
  conjunction disjunction exclusive : Compound
  left right : Compound

-- `tmp op= operand` on a 32-bit value; `none` where C++ leaves the result undefined.
pub compute : Compound → ℕ → ℕ → Option ℕ
compute plus tmp operand = some (u32 (tmp + operand))
compute minus tmp operand = some (u32 (tmp + 2 ^ 32 - operand))
compute times tmp operand = some (u32 (tmp * operand))
compute over tmp operand = if operand == 0 then none else some (u32 (tmp / operand))
compute remainder tmp operand = if operand == 0 then none else some (u32 (tmp % operand))
compute conjunction tmp operand = some (u32 (bit_and tmp operand))
compute disjunction tmp operand = some (u32 (bit_or tmp operand))
compute exclusive tmp operand = some (u32 (bit_xor tmp operand))
compute left tmp operand = if ltb operand 32 then some (u32 (tmp * 2 ^ operand)) else none
compute right tmp operand = if ltb operand 32 then some (u32 (tmp / 2 ^ operand)) else none

-- `stamp_reference`: the assignment of a stamp, and that of another proxy's.
pub stamp_assign : ℕ → ℕ → ℕ
stamp_assign value stamp = pack stamp (extract_counter value)

pub stamp_copy : ℕ → ℕ → ℕ
stamp_copy value other = stamp_assign value (extract_stamp other)

pub stamp_compound : Compound → ℕ → ℕ → Option ℕ
stamp_compound op value stamp =
    Option.map (stamp_assign value) (compute op (extract_stamp value) stamp)

pub stamp_compound_from : Compound → ℕ → ℕ → Option ℕ
stamp_compound_from op value other = stamp_compound op value (extract_stamp other)

-- The prefix forms; the postfix forms also return the old stamp.
pub stamp_prefix : Compound → ℕ → Option ℕ
stamp_prefix op value = stamp_compound op value 1

pub stamp_postfix : Compound → ℕ → Option (ℕ × ℕ)
stamp_postfix op value =
    let old = extract_stamp value in Option.map (λ v. (v, old)) (stamp_prefix op value)

-- `counter_reference`: the same, on the other part.
pub counter_assign : ℕ → ℕ → ℕ
counter_assign value counter = pack (extract_stamp value) counter

pub counter_copy : ℕ → ℕ → ℕ
counter_copy value other = counter_assign value (extract_counter other)

pub counter_compound : Compound → ℕ → ℕ → Option ℕ
counter_compound op value counter =
    Option.map (counter_assign value) (compute op (extract_counter value) counter)

pub counter_compound_from : Compound → ℕ → ℕ → Option ℕ
counter_compound_from op value other = counter_compound op value (extract_counter other)

pub counter_prefix : Compound → ℕ → Option ℕ
counter_prefix op value = counter_compound op value 1

pub counter_postfix : Compound → ℕ → Option (ℕ × ℕ)
counter_postfix op value =
    let old = extract_counter value in Option.map (λ v. (v, old)) (counter_prefix op value)

-- `operator==` and `operator!=`, on the packed values
pub equal : ℕ → ℕ → Bool
equal lhs rhs = lhs == rhs

pub unequal : ℕ → ℕ → Bool
unequal lhs rhs = not (equal lhs rhs)
