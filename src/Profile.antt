-- ===== src/Profile.antt =====
-- profile.hpp: `cache_wiper`, which reads as much memory on each core as the caches hold. The sum of
-- what it reads goes to no one.
pub mod Sums
use scalable_non_zero_indica.Base.{
  ℕ, zero, suc, ◌+◌, ◌*◌, ◌^◌, Bool, leb, add64, Ending, done, failed, assertion_failed, overflow,
  and_then, ◌==◌, if◌then◌else◌,
}
use scalable_non_zero_indica.Affinity.{Scheduler}

-- `CacheSize`
abbrev pub cache_size : ℕ
cache_size = 8 * 1024 * 1024

abbrev pub is_negative : ℕ → Bool
is_negative x = leb (2 ^ 63) x

-- `+` of `intptr_t`, which is a 64-bit word here: a sum of two numbers of one sign is undefined if it
-- has the other sign.
unfoldable pub signed_add : ℕ → ℕ → Ending ℕ
signed_add a b =
    let s = add64 a b in
    if is_negative a
    then if is_negative b then if is_negative s then done s else failed overflow else done s
    else (if is_negative b then done s else if is_negative s then failed overflow else done s)

-- The loop of a wiper, for `count` words of `block` from `i` on
unfoldable pub sum_from : (ℕ → ℕ) → ℕ → ℕ → ℕ → Ending ℕ
sum_from block i zero sink = done sink
sum_from block i (suc count) sink =
    and_then (signed_add sink (block i)) λ sink'. sum_from block (suc i) count sink'

module _ {CpuSet World : Type 0} (sys : Scheduler CpuSet World) where
  -- `operator()(core)`, by the thread `self`; `block` is what `new` finds in the memory of `W`.
  unfoldable pub wipe : ℕ → (ℕ → ℕ) → ℕ → World → Ending World
  wipe self block core w =
      let (result, w') = sys.setaffinity self (sys.cpu_set core sys.cpu_zero) w in
      if result == 0
      then and_then (sum_from block 0 cache_size 0) (λ sink. done w')
      else failed assertion_failed

  -- The loop of `clear_caches`: `count` wipers from core `i` on, whose threads are `self i` and so on.
  unfoldable pub wipe_from : (ℕ → ℕ) → (ℕ → ℕ → ℕ) → ℕ → ℕ → World → Ending World
  wipe_from self blocks i zero w = done w
  wipe_from self blocks i (suc count) w =
      and_then (wipe (self i) (blocks i) i w) λ w'. wipe_from self blocks (suc i) count w'

  unfoldable pub clear_caches : (ℕ → ℕ) → (ℕ → ℕ → ℕ) → ℕ → World → Ending World
  clear_caches self blocks hardware_threads w =
      if hardware_threads == 0
      then failed assertion_failed
      else wipe_from self blocks 0 hardware_threads w
