-- ===== src/Tree/Double/Exact.antt =====
-- The ceiling of a rounded quotient of doubles (Tree/Double), against that of the quotient itself.
use scalable_non_zero_indica.Base.{
  ℕ, zero, suc, ◌+◌, ◌-◌, ◌*◌, ◌/◌, ◌%◌, ◌^◌, ◌≤◌, ◌<◌, ◌≡◌, refl, ap, arith, leb, ◌==◌, u64,
  Bool-cases, leb→le, inl, inr, false, ◌∙◌, sym,
}
use scalable_non_zero_indica.Tree.Double.{
  round_even, scale_down, scale_up, nearest, of_size, divide, ceil, ceil_quotient,
}
use native.Mathlib.Nat.{
  div-eq_of_lt-le, one-le-pow, mul-add-div, mul-add-mod_self_left, div-lt_iff_lt-mul,
  le-div_iff_mul-le, div-eq_of_lt, mod-eq_of_lt, mul_comm, div-le_of_le-mul, mul-one, div-add-mod,
}
use native.Mathlib.Decide.{dec_lt}

-- The scale that is found reaches the bound, if the fuel suffices.
scale_up_reaches :
    (fuel e a b : ℕ) → 2 ^ 52 * b ≤ a * 2 ^ (e + fuel) → 2 ^ 52 * b ≤ a * 2 ^ scale_up fuel e a b
unfolding scale_up
scale_up_reaches zero e a b h = let q : e + 0 ≡ e = omega arith in rw q at h
scale_up_reaches (suc fuel) e a b h = elim (Bool-cases (leb (2 ^ 52 * b) (a * 2 ^ e))) [
  | inl here ↦ rw here (leb→le _ _ here)
  | inr below ↦
      let q : e + suc fuel ≡ e + 1 + fuel = omega arith in
      rw below (scale_up_reaches fuel (e + 1) a b (rw q at h))
]

round_even_bounds : (a b : ℕ) → (a / b ≤ round_even a b) × (round_even a b ≤ a / b + 1)
unfolding round_even
round_even_bounds a b = ground arith

round_even_up : (a b : ℕ) → b < 2 * (a % b) → round_even a b ≡ a / b + 1
unfolding round_even
round_even_up a b h = ground arith

le-mul : (r s : ℕ) → 0 < r → s ≤ r * s
le-mul zero s h = absurd (omega arith)
le-mul (suc r) s h = grind arith

le-mul_right : (a b s : ℕ) → a ≤ b → a * s ≤ b * s
le-mul_right a b s h = grind arith

-- `num / s` lies in `(k, k + 1]`.
ceil_between : (k m s : ℕ) → 0 < s → k * s < m → m ≤ (k + 1) * s → (m + s - 1) / s ≡ k + 1
ceil_between k m s pos low high = div-eq_of_lt-le s {m = m + s - 1} (grind arith) (grind arith)

ceil_whole : (k s : ℕ) → 0 < s → (k * s + s - 1) / s ≡ k
ceil_whole k s pos = div-eq_of_lt-le s {m = k * s + s - 1} (grind arith) (grind arith)

module _ (q r l s : ℕ) (pos : 0 < s) (small : r < l) where
  regroup : (l * q + r) * s ≡ l * (q * s) + r * s
  regroup = grind arith

  scaled_div : (l * q + r) * s / l ≡ q * s + r * s / l
  scaled_div = rw regroup (mul-add-div (omega arith) (q * s) (r * s))

  scaled_mod : (l * q + r) * s % l ≡ r * s % l
  scaled_mod = rw regroup (mul-add-mod_self_left l (q * s) (r * s))

  part-lt : r * s / l < s
  part-lt = (div-lt_iff_lt-mul {k = l} {x = r * s} {y = s} (omega arith)).1 (grind arith)

  -- An exact quotient is not rounded.
  whole : r ≡ 0 → round_even ((l * q + r) * s) l ≡ q * s
  unfolding round_even
  whole e = ground (arith, scaled_div, scaled_mod, no_part, no_rest)
    where
      none_left : r * s ≡ 0
      none_left = rw e (omega arith)

      no_part : r * s / l ≡ 0
      no_part = rw none_left (omega arith)

      no_rest : r * s % l ≡ 0
      no_rest = rw none_left (omega arith)

  -- A quotient with a remainder is rounded above the whole number below it.
  above : 0 < r → l < 2 * s → q * s < round_even ((l * q + r) * s) l
  above some_left near = elim (dec_lt (r * s) l) [
    | yes less ↦
        let up =
          round_even_up ((l * q + r) * s) l
            (rw (scaled_mod, mod-eq_of_lt less) (omega (arith, le-mul r s some_left))) in
        omega (arith, up, scaled_div, div-eq_of_lt less)
    | no more ↦
        let some_part : 1 ≤ r * s / l =
          (le-div_iff_mul-le {k = l} {x = 1} {y = r * s} (omega arith)).1 (omega arith) in
        omega (arith, scaled_div, (round_even_bounds ((l * q + r) * s) l).0)
  ]

  below : round_even ((l * q + r) * s) l ≤ (q + 1) * s
  below =
      let e : (q + 1) * s ≡ q * s + s = grind arith in
      omega (arith, e, scaled_div, part-lt, (round_even_bounds ((l * q + r) * s) l).1)

-- The ceiling of the rounded quotient is that of the exact one.
ceil_rounded :
    (t l s : ℕ) → 0 < s → 0 < l → l < 2 * s → (round_even (t * s) l + s - 1) / s ≡ (t + l - 1) / l
ceil_rounded t l s pos some_leaf near = elim (dec_lt 0 (t % l)) [
  | yes left ↦
      ceil_between q (round_even (t * s) l) s pos
        (rw whole_t at (above q r l s pos small left near))
        (rw whole_t at (below q r l s pos small))
      ∙ sym (
          ceil_between q t l some_leaf (omega (arith, whole_t, flip))
            (omega (arith, whole_t, flip, spread)))
  | no exact ↦
      let none : t % l ≡ 0 = omega arith in
      let even : round_even (t * s) l ≡ q * s = rw whole_t at (whole q r l s pos small none) in
      let flat : t ≡ q * l = omega (arith, whole_t, flip) in
      rw even
        (ceil_whole q s pos ∙ sym (ap (λ (u : ℕ). (u + l - 1) / l) flat ∙ ceil_whole q l some_leaf))
]
  where
    q : ℕ
    q = t / l

    r : ℕ
    r = t % l

    whole_t : l * (t / l) + t % l ≡ t
    whole_t = div-add-mod t l

    small : t % l < l
    small = omega arith

    flip : l * q ≡ q * l
    flip = mul_comm l q

    spread : (q + 1) * l ≡ q * l + l
    spread = grind arith

scale_down_zero : (fuel a b : ℕ) → a < b * 2 ^ 53 → scale_down (suc fuel) 0 a b ≡ 0
unfolding scale_down
scale_down_zero fuel a b h = ground arith

==_pos : (a : ℕ) → 0 < a → (a == 0) ≡ false
==_pos a h = ground arith

nearest_exact :
    (a b : ℕ)
    → 0 < a
    → a < b * 2 ^ 53
    → nearest a b
      ≡ record { num = round_even (a * 2 ^ scale_up 128 0 a b) b; down = scale_up 128 0 a b }
unfolding nearest
nearest_exact a b pos h = rw (==_pos a pos, scale_down_zero 127 a b h) (rw (mul-one b, mul-one _))

scaled_near : (t l s : ℕ) → t < 2 ^ 53 → 0 < s → 2 ^ 52 * l ≤ t * s → l < 2 * s
scaled_near t l s t_fits pos h =
    let m : t * s ≤ (2 ^ 53 - 1) * s = le-mul_right t (2 ^ 53 - 1) s (omega arith) in omega arith

of_size_exact : (n : ℕ) → n < 2 ^ 53 → of_size n ≡ record { num = n; down = 0 }
unfolding of_size
of_size_exact n h = ground arith

ceil-nearest :
    (t l : ℕ) → 0 < t → t < 2 ^ 53 → 0 < l → l < 2 ^ 53 → ceil (nearest t l) ≡ u64 ((t + l - 1) / l)
unfolding ceil
ceil-nearest t l pos t_fits some_leaf l_fits =
    rw (nearest_exact t l pos (omega arith)) (
      ap (λ (n : ℕ). u64 n)
        (ceil_rounded t l (2 ^ e) (one-le-pow e 2 (omega arith)) some_leaf near))
  where
    e : ℕ
    e = scale_up 128 0 t l

    near : l < 2 * 2 ^ scale_up 128 0 t l
    near =
        scaled_near t l (2 ^ scale_up 128 0 t l) t_fits (one-le-pow e 2 (omega arith))
          (scale_up_reaches 128 0 t l (omega arith))

ceil_quotient-nearest : (t l : ℕ) → t < 2 ^ 53 → l < 2 ^ 53 → ceil_quotient t l ≡ ceil (nearest t l)
unfolding ceil_quotient divide
ceil_quotient-nearest t l t_fits l_fits =
    rw (of_size_exact t t_fits, of_size_exact l l_fits) (rw (mul-one t, mul-one l))

nearest-zero : (l : ℕ) → ceil (nearest 0 l) ≡ 0
unfolding nearest ceil
nearest-zero l = refl

last-lt : (l : ℕ) → 0 < l → (0 + l - 1) / l ≡ 0
last-lt l h = div-eq_of_lt (omega arith)

sum-le-product : (t l : ℕ) → 0 < t → 0 < l → t + l ≤ l * t + 1
sum-le-product zero l p h = absurd (omega arith)
sum-le-product (suc t) zero p h = absurd (omega arith)
sum-le-product (suc t) (suc l) p h = omega arith

quotient-le : (t l : ℕ) → 0 < t → 0 < l → (t + l - 1) / l ≤ t
quotient-le t l pos h = div-le_of_le-mul l (omega (arith, sum-le-product t l pos h))

-- For sizes below 2 ^ 53 and at least one leaf, the ceiling of the rounded quotient of doubles is
-- the exact ceiling.
pub ceil_quotient_exact :
    (t l : ℕ) → t < 2 ^ 53 → 0 < l → l < 2 ^ 53 → ceil_quotient t l ≡ (t + l - 1) / l
ceil_quotient_exact zero l t_fits some_leaf l_fits =
    ceil_quotient-nearest 0 l t_fits l_fits ∙ nearest-zero l ∙ sym (last-lt l some_leaf)
ceil_quotient_exact (suc t) l t_fits some_leaf l_fits =
    ceil_quotient-nearest (suc t) l t_fits l_fits
    ∙ ceil-nearest (suc t) l (omega arith) t_fits some_leaf l_fits
    ∙ mod-eq_of_lt (omega (arith, quotient-le (suc t) l (omega arith) some_leaf))
