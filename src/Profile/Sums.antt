-- ===== src/Profile/Sums.antt =====
-- The sum that a cache_wiper makes of small numbers.
use scalable_non_zero_indica.Base.{
  ℕ, zero, suc, ◌+◌, ◌-◌, ◌*◌, ◌^◌, ◌≤◌, ◌<◌, ◌≡◌, refl, arith, false, add64, done, ap, ◌∙◌,
}
use scalable_non_zero_indica.Profile.{cache_size, is_negative, signed_add, sum_from}

-- The words that a wiper reads are numbers of at most 40 bits.
abbrev pub IsSmall : (ℕ → ℕ) → Type 0
IsSmall block = (i : ℕ) → i < cache_size → block i < 2 ^ 40

unfoldable pub total_from : (ℕ → ℕ) → ℕ → ℕ → ℕ
total_from block i zero = 0
total_from block i (suc count) = block i + total_from block (suc i) count

small_add : (a b : ℕ) → a + b < 2 ^ 63 → signed_add a b ≡ done (a + b)
unfolding signed_add
small_add a b lt =
    let a_small : is_negative a ≡ false = ground arith in
    let b_small : is_negative b ≡ false = ground arith in
    let word : add64 a b ≡ a + b = omega arith in
    let s_small : is_negative (a + b) ≡ false = ground arith in
    rw (a_small, b_small, word, s_small) refl

sum_from_total :
    (block : ℕ → ℕ) (i count sink : ℕ)
    → IsSmall block
    → i + count ≤ cache_size
    → sink + count * (2 ^ 40 - 1) < 2 ^ 63
    → sum_from block i count sink ≡ done (sink + total_from block i count)
unfolding sum_from total_from
sum_from_total block i zero sink small le room =
    let same : sink ≡ sink + 0 = omega arith in ap done same
sum_from_total block i (suc count) sink small le room =
    let word = small i (omega arith) in
    let rest = total_from block (suc i) count in
    let same : sink + block i + rest ≡ sink + (block i + rest) = omega arith in
    rw (small_add sink (block i) (omega arith)) (
      sum_from_total block (suc i) count (sink + block i) small (omega arith) (omega arith)
      ∙ ap done same)

-- A wiper's sum is that of the words it reads, without an overflow.
pub sum_from_lem :
    (block : ℕ → ℕ)
    → IsSmall block
    → sum_from block 0 cache_size 0 ≡ done (total_from block 0 cache_size)
sum_from_lem block small =
    let total = total_from block 0 cache_size in
    let same : 0 + total ≡ total = omega arith in
    sum_from_total block 0 cache_size 0 small (omega arith) (omega arith) ∙ ap done same
