-- ===== src/Tree/Double.antt =====
-- What the constructors of snzi.hpp use of `double`: the cast of a size, the quotient, and
-- `std::ceil`. A double that is not negative is a whole number over a power of two, and an
-- operation rounds its exact result to 53 significant bits, ties to even (IEEE 754). The
-- operands come from `size_type`, so no exponent leaves the range of the format.
pub mod Exact
use scalable_non_zero_indica.Base.{
  ℕ, zero, suc, ◌+◌, ◌-◌, ◌*◌, ◌/◌, ◌%◌, ◌^◌, ◌≡◌, refl, ltb, leb, ◌==◌, if◌then◌else◌, u64,
}

-- `num / 2 ^ down`
pub record Double : Type 0 where
  pub num : ℕ
  pub down : ℕ

-- `a / b`, rounded to a whole number, ties to even.
unfoldable pub round_even : ℕ → ℕ → ℕ
round_even a b =
    if ltb (2 * (a % b)) b
    then a / b
    else if ltb b (2 * (a % b))
    then a / b + 1
    else a / b + (a / b) % 2

-- The least `d` from the given one with `a / (b * 2 ^ d)` below `2 ^ 53`.
unfoldable pub scale_down : ℕ → ℕ → ℕ → ℕ → ℕ
scale_down zero d a b = d
scale_down (suc fuel) d a b =
    let rest = scale_down fuel (d + 1) a b in if ltb a (b * 2 ^ d * 2 ^ 53) then d else rest

-- The least `e` from the given one with `a * 2 ^ e / b` not below `2 ^ 52`.
unfoldable pub scale_up : ℕ → ℕ → ℕ → ℕ → ℕ
scale_up zero e a b = e
scale_up (suc fuel) e a b =
    let rest = scale_up fuel (e + 1) a b in if leb (2 ^ 52 * b) (a * 2 ^ e) then e else rest

-- The double nearest to `a / b`.
unfoldable pub nearest : ℕ → ℕ → Double
nearest a b =
    if a == 0
    then record { num = 0; down = 0 }
    else (let d = scale_down 128 0 a b in
        let e = scale_up 128 0 a (b * 2 ^ d) in
        record { num = round_even (a * 2 ^ e) (b * 2 ^ d) * 2 ^ d; down = e })

-- `(double)n`
unfoldable pub of_size : ℕ → Double
of_size n = if ltb n (2 ^ 53) then record { num = n; down = 0 } else nearest n 1

unfoldable pub divide : Double → Double → Double
divide x y = nearest (x.num * 2 ^ y.down) (y.num * 2 ^ x.down)

-- `static_cast<size_type>(std::ceil(x))`
unfoldable pub ceil : Double → ℕ
ceil x = u64 ((x.num + 2 ^ x.down - 1) / 2 ^ x.down)

-- `static_cast<size_type>(std::ceil((double)t / (double)l))`. With `l` zero the quotient is no
-- number that a cast may take; the constructors' trees have at least one leaf.
unfoldable pub ceil_quotient : ℕ → ℕ → ℕ
ceil_quotient t l = ceil (divide (of_size t) (of_size l))

rounds : (ceil_quotient 8 3 ≡ 3) × (ceil_quotient (2 ^ 53 - 1) (2 ^ 52) ≡ 2)
unfolding ceil_quotient nearest scale_down scale_up round_even of_size divide ceil
rounds = (refl, refl)

beyond_exact : ceil_quotient (2 ^ 60 + 1) (2 ^ 60) ≡ 1
unfolding ceil_quotient nearest scale_down scale_up round_even of_size divide ceil
beyond_exact = refl
