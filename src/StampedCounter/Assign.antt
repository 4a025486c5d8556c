-- ===== src/StampedCounter/Assign.antt =====
-- stamped_counter.hpp: assignments to one part of a stamped counter, as arithmetic.
use scalable_non_zero_indica.Base.{
  ℕ, ◌+◌, ◌-◌, ◌*◌, ◌/◌, ◌%◌, ◌^◌, ◌<◌, ◌≡◌, refl, arith, Option, none, some, ap, ◌∙◌,
}
use mathlib.Core.Path.{ap₂}
use mathlib.Core.Option
use scalable_non_zero_indica.StampedCounter.{
  u32, extract_stamp, extract_counter, pack, Compound, plus, minus, times, over, remainder,
  conjunction, disjunction, exclusive, left, right, compute, stamp_assign, stamp_compound,
  stamp_prefix, stamp_postfix, counter_assign, counter_compound, counter_prefix, counter_postfix,
}
use scalable_non_zero_indica.StampedCounter.Parts.{
  extract_stamp_lem, extract_counter_lem, pack_lem, stamp-lt, counter-lt, extract-pack,
  pack-extract,
}

-- What the compound assignments compute fits in 32 bits.
pub compute-lt : (op : Compound) (tmp operand t : ℕ) → compute op tmp operand ≡ some t → t < 2 ^ 32
unfolding compute
compute-lt plus tmp operand t h = ground arith
compute-lt minus tmp operand t h = ground arith
compute-lt times tmp operand t h = ground arith
compute-lt over tmp operand t h = ground arith
compute-lt remainder tmp operand t h = ground arith
compute-lt conjunction tmp operand t h = ground arith
compute-lt disjunction tmp operand t h = ground arith
compute-lt exclusive tmp operand t h = ground arith
compute-lt left tmp operand t h = ground arith
compute-lt right tmp operand t h = ground arith

-- Maps agree on an option where they agree on what it holds.
pub map_below {ℓ} :
    {A : Type ℓ} (o : Option ℕ) (f g : ℕ → A)
    → ((t : ℕ) → o ≡ some t → f t ≡ g t)
    → Option.map f o ≡ Option.map g o
map_below none f g h = refl
map_below (some t) f g h = ap some (h t refl)

pub map-map {ℓ κ} :
    {A : Type ℓ} {B : Type κ} (o : Option ℕ) (f : ℕ → B) (g : B → A)
    → Option.map g (Option.map f o) ≡ Option.map (λ t. g (f t)) o
map-map none f g = refl
map-map (some t) f g = refl

-- The two parts of a value
abbrev parts : ℕ → ℕ × ℕ
parts w = (extract_stamp w, extract_counter w)

-- On a value of 64 bits, a compound assignment to the stamp leaves the counter as it is and the
-- stamp as the operator computes it from the old one, and is undefined only where the operator is.
pub stamp_compound_lem :
    (op : Compound) (v operand : ℕ)
    → v < 2 ^ 64
    → Option.map parts (stamp_compound op v operand)
      ≡ Option.map {B = ℕ × ℕ} (λ t. (t, extract_counter v)) (compute op (extract_stamp v) operand)
unfolding stamp_compound stamp_assign
stamp_compound_lem op v operand h =
    let result = compute op (extract_stamp v) operand in
    map-map result (stamp_assign v) parts ∙ map_below result _ _ each
  where
    each :
        (t : ℕ)
        → compute op (extract_stamp v) operand ≡ some t
        → parts (stamp_assign v t) ≡ (t, extract_counter v)
    each t e =
        let back =
          extract-pack t (extract_counter v) (compute-lt op (extract_stamp v) operand t e)
            (counter-lt v h) in
        ap₂ (λ (p q : ℕ). (p, q)) back.0 back.1

-- On a value of 64 bits, a compound assignment to the counter leaves the stamp as it is and the
-- counter as the operator computes it from the old one, and is undefined only where the operator
-- is.
pub counter_compound_lem :
    (op : Compound) (v operand : ℕ)
    → v < 2 ^ 64
    → Option.map parts (counter_compound op v operand)
      ≡ Option.map {B = ℕ × ℕ} (λ t. (extract_stamp v, t)) (compute op (extract_counter v) operand)
unfolding counter_compound counter_assign
counter_compound_lem op v operand h =
    let result = compute op (extract_counter v) operand in
    map-map result (counter_assign v) parts ∙ map_below result _ _ each
  where
    each :
        (t : ℕ)
        → compute op (extract_counter v) operand ≡ some t
        → parts (counter_assign v t) ≡ (extract_stamp v, t)
    each t e =
        let back =
          extract-pack (extract_stamp v) t (stamp-lt v h)
            (compute-lt op (extract_counter v) operand t e) in
        ap₂ (λ (p q : ℕ). (p, q)) back.0 back.1

-- On a value of 64 bits, ++ of the stamp adds 2 ^ 32 and wraps at 2 ^ 64, and ++ of the counter
-- adds 1 and wraps at 2 ^ 32 without a carry into the stamp.
pub increments :
    (v : ℕ)
    → v < 2 ^ 64
    → (stamp_prefix plus v ≡ some ((v + 2 ^ 32) % 2 ^ 64))
      × (counter_prefix plus v ≡ some (v / 2 ^ 32 * 2 ^ 32 + (v + 1) % 2 ^ 32))
unfolding stamp_prefix counter_prefix stamp_compound counter_compound stamp_assign counter_assign
    compute
increments v h = (ap some stamp_part, ap some counter_part)
  where
    stamp_part : pack (u32 (extract_stamp v + 1)) (extract_counter v) ≡ (v + 2 ^ 32) % 2 ^ 64
    stamp_part = omega (
      arith,
      extract_stamp_lem v h,
      extract_counter_lem v h,
      pack_lem (u32 (extract_stamp v + 1)) (extract_counter v) (omega arith) (counter-lt v h),
    )

    counter_part :
        pack (extract_stamp v) (u32 (extract_counter v + 1))
        ≡ v / 2 ^ 32 * 2 ^ 32 + (v + 1) % 2 ^ 32
    counter_part = omega (
      arith,
      extract_stamp_lem v h,
      extract_counter_lem v h,
      pack_lem (extract_stamp v) (u32 (extract_counter v + 1)) (stamp-lt v h) (omega arith),
    )

-- On a value of 64 bits, a -- after a postfix ++ gives the value back, on either part, and the
-- postfix form returns the part from before it.
pub undone :
    (v : ℕ)
    → v < 2 ^ 64
    → (Option.map {B = Option ℕ × ℕ} (λ p. (stamp_prefix minus p.0, p.1)) (stamp_postfix plus v)
        ≡ some (some v, extract_stamp v))
      × (Option.map {B = Option ℕ × ℕ}
            (λ p. (counter_prefix minus p.0, p.1))
            (counter_postfix plus v)
          ≡ some (some v, extract_counter v))
unfolding stamp_prefix counter_prefix stamp_compound counter_compound stamp_assign counter_assign
    compute stamp_postfix counter_postfix
undone v h = (
  ap (λ (w : ℕ). some (some w, extract_stamp v)) stamp_back,
  ap (λ (w : ℕ). some (some w, extract_counter v)) counter_back,
)
  where
    -- the values after `++`
    more_stamp : ℕ
    more_stamp = pack (u32 (extract_stamp v + 1)) (extract_counter v)

    more_counter : ℕ
    more_counter = pack (extract_stamp v) (u32 (extract_counter v + 1))

    stamp_back : pack (u32 (extract_stamp more_stamp + 2 ^ 32 - 1)) (extract_counter more_stamp) ≡ v
    stamp_back =
        let back =
          extract-pack (u32 (extract_stamp v + 1)) (extract_counter v) (omega arith)
            (counter-lt v h) in
        ap₂ pack (omega (arith, back.0, stamp-lt v h)) back.1 ∙ pack-extract v h

    counter_back :
        pack (extract_stamp more_counter) (u32 (extract_counter more_counter + 2 ^ 32 - 1)) ≡ v
    counter_back =
        let back =
          extract-pack (extract_stamp v) (u32 (extract_counter v + 1)) (stamp-lt v h)
            (omega arith) in
        ap₂ pack back.0 (omega (arith, back.1, counter-lt v h)) ∙ pack-extract v h
