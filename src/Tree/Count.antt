-- ===== src/Tree/Count.antt =====
-- The counts of nodes and leaves, against the levels of a perfect tree.
use scalable_non_zero_indica.Base.{
  ℕ, zero, suc, ◌+◌, ◌-◌, ◌*◌, ◌/◌, ◌%◌, ◌^◌, ◌≤◌, ◌<◌, ◌≡◌, sym, ap, ◌∙◌, arith, u64, mul64, sub64,
}
use scalable_non_zero_indica.Tree.{pow_loop, pow_int, nodes_count, leaves_count}
use native.Mathlib.Decide.{dec_lt}
use native.Mathlib.Nat.{
  pow-suc, mod-eq_of_lt, one-le-pow, mul_comm, mul_assoc, pow-le-pow_right, mul-one, div-add-mod,
  pow-succ', mul-div_cancel_left, one-mul, pow-zero, add-mul-mod_self_right,
}

-- The index of the first node of level `h`; nodes are numbered level by level from the root, 0.
abbrev pub first : ℕ → ℕ → ℕ
first k zero = 0
first k (suc h) = k * first k h + 1

mul-mod : (a b m : ℕ) → (a % m * b) % m ≡ (a * b) % m
mul-mod a b m = sym (add-mul-mod_self_right (a % m * b) (a / m * b) m) ∙ ap (λ (t : ℕ). t % m) split
  where
    split : a % m * b + a / m * b * m ≡ a * b
    split = omega (arith, ap (λ (t : ℕ). t * b) (div-add-mod a m))

pow_loop_lem : (b e r : ℕ) → r < 2 ^ 64 → pow_loop b e r ≡ u64 (r * b ^ e)
unfolding pow_loop
pow_loop_lem b zero r h = sym (rw (pow-zero b, mul-one r) (mod-eq_of_lt h))
pow_loop_lem b (suc e) r h =
    pow_loop_lem b e (mul64 r b) (omega arith)
    ∙ mul-mod (r * b) (b ^ e) (2 ^ 64)
    ∙ ap u64 (mul_assoc r b (b ^ e) ∙ ap (λ (t : ℕ). r * t) (sym (pow-succ' b e)))

-- For an exponent below the largest size_type, pow_int computes the power modulo 2 ^ 64.
pub pow_int_lem : (b e : ℕ) → e < 2 ^ 64 - 1 → pow_int b e ≡ u64 (b ^ e)
unfolding pow_int
pow_int_lem b e ends = pow_loop_lem b e 1 (omega arith) ∙ ap u64 (one-mul (b ^ e))

first_closed : (k h : ℕ) → k * first (suc k) h + 1 ≡ suc k ^ h
first_closed k zero = omega (arith, pow-zero (suc k))
first_closed k (suc h) =
    omega (arith, pow-suc (suc k) h, ap (λ (t : ℕ). t * suc k) (first_closed k h))

pub sub-closed : (k h : ℕ) → 2 ≤ k → k ^ h - 1 ≡ (k - 1) * first k h
sub-closed zero h p = absurd (omega arith)
sub-closed (suc k) h p =
    let e : suc k - 1 ≡ k = omega arith in rw e (omega (arith, first_closed k h))

-- Each level has as many nodes as its power of the arity.
pub first-suc : (k h : ℕ) → 2 ≤ k → first k (suc h) ≡ first k h + k ^ h
first-suc zero h p = absurd (omega arith)
first-suc (suc k) h p = omega (arith, first_closed k h)

le-mul : (a b c : ℕ) → b ≤ c → a * b ≤ a * c
le-mul a b c q = grind arith

pub first-le-pow : (k h : ℕ) → 2 ≤ k → first k h ≤ k ^ h
first-le-pow k zero p = omega arith
first-le-pow k (suc h) p =
    omega (arith, first-le-pow k h p, first-suc k h p, pow-suc k h, le-mul (k ^ h) 2 k p)

pub first_mono : (k l m : ℕ) → 2 ≤ k → l ≤ m → first k l ≤ first k m
first_mono k l zero p h = let e : l ≡ 0 = omega arith in rw e (omega arith)
first_mono k l (suc m) p h = elim (dec_lt l (suc m)) [
  | yes below ↦ omega (arith, first_mono k l m p (omega arith), first-suc k m p)
  | no last ↦ let e : l ≡ suc m = omega arith in rw e (omega arith)
]

sub64-one : (n : ℕ) → 0 < n → n < 2 ^ 64 → sub64 n 1 ≡ n - 1
sub64-one n p h = omega arith

-- A level's number is below the number of its nodes.
pub lt-pow : (k h : ℕ) → 2 ≤ k → h < k ^ h
lt-pow k zero p = omega (arith, pow-zero k)
lt-pow k (suc h) p = omega (arith, lt-pow k h p, pow-suc k h, le-mul (k ^ h) 2 k p)

-- While the powers fit a word, the counts are those of a perfect tree.
module _ (k h : ℕ) (branching : 2 ≤ k) (fits : k ^ suc h < 2 ^ 64) where
  pow-lt : k ^ h < 2 ^ 64
  pow-lt = omega (arith, pow-le-pow_right {n = k} (omega arith) {i = h} {j = suc h} (omega arith))

  -- The height is far below the number of leaves.
  height-lt : suc h < 2 ^ 64 - 1
  height-lt = omega (arith, lt-pow k h branching, pow-suc k h, le-mul (k ^ h) 2 k branching, fits)

  pub leaves_count_lem : leaves_count k h ≡ k ^ h
  unfolding leaves_count
  leaves_count_lem = pow_int_lem k h (omega (arith, height-lt)) ∙ mod-eq_of_lt pow-lt

  level_fits : u64 (h + 1) ≡ suc h
  level_fits = omega (arith, lt-pow k h branching, pow-lt)

  arity-lt : k < 2 ^ 64
  arity-lt =
      omega
        (arith, pow-suc k h, mul_comm k (k ^ h), le-mul k 1 (k ^ h) (one-le-pow h k (omega arith)))

  quotient : (k ^ suc h - 1) / (k - 1) ≡ first k (suc h)
  quotient =
      ap (λ (t : ℕ). t / (k - 1)) (sub-closed k (suc h) branching)
      ∙ mul-div_cancel_left (first k (suc h)) (omega arith)

  -- For an arity of at least 2 and K ^ (H + 1) in a word, nodes_count is the number of nodes on
  -- the levels 0 to H.
  pub nodes_count_lem : nodes_count k h ≡ first k (suc h)
  unfolding nodes_count
  nodes_count_lem =
      rw (level_fits, pow_int_lem k (suc h) height-lt, mod-eq_of_lt fits)
        (rw
          (
            sub64-one (k ^ suc h) (one-le-pow (suc h) k (omega arith)) fits,
            sub64-one k (omega arith) arity-lt,
          )
          quotient)
