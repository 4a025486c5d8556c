-- ===== src/Backoff.antt =====
-- backoff.hpp: the class `exponential_backoff`. A call waits by a number of `pause` instructions,
-- twice as many each time, and yields the processor once the number has passed the maximum.
use scalable_non_zero_indica.Base.{
  ℕ, zero, suc, ◌+◌, ◌^◌, ◌<◌, ◌≡◌, refl, arith, leb, if◌then◌else◌, mul64, false,
}

pub data Wait : Type 0 where
  pauses : ℕ → Wait
  yields : Wait

abbrev max_tries : ℕ
max_tries = 16

-- A fresh object, and `reset`
abbrev pub fresh_tries : ℕ
fresh_tries = 1

-- The loop of the private `backoff(delay)`, which counts its `pause` instructions.
unfoldable pub pause_loop : ℕ → ℕ → ℕ
pause_loop zero done = done
pause_loop (suc left) done = pause_loop left (done + 1)

-- `backoff()`, on the field `tries`
unfoldable pub backoff : ℕ → Wait × ℕ
backoff tries =
    if leb tries max_tries then (pauses (pause_loop tries 0), mul64 tries 2) else (yields, tries)

-- `n` calls of `backoff()`, one after the other
pub backoffs : ℕ → ℕ → ℕ
backoffs zero tries = tries
backoffs (suc n) tries = backoffs n (backoff tries).1

pause_loop_lem : (left done : ℕ) → pause_loop left done ≡ done + left
unfolding pause_loop
pause_loop_lem zero done = omega arith
pause_loop_lem (suc left) done = omega (arith, pause_loop_lem left (done + 1))

backoffs-past : (n : ℕ) → backoffs n 32 ≡ 32
unfolding backoffs backoff
backoffs-past zero = refl
backoffs-past (suc n) = backoffs-past n

-- The wait of a call of backoff that comes after n others on a fresh object is 2 ^ n pauses for n
-- at most 4, and a yield from then on.
pub wait_after :
    (n : ℕ) → (backoff (backoffs n fresh_tries)).0 ≡ (if leb n 4 then pauses (2 ^ n) else yields)
unfolding backoffs backoff pause_loop
wait_after zero = refl
wait_after (suc zero) = refl
wait_after (suc (suc zero)) = refl
wait_after (suc (suc (suc zero))) = refl
wait_after (suc (suc (suc (suc zero)))) = refl
wait_after (suc (suc (suc (suc (suc n))))) =
    rw (backoffs-past n, past (suc (suc (suc (suc (suc n))))) (omega arith)) refl
  where
    past : (k : ℕ) → 4 < k → leb k 4 ≡ false
    past k h = ground arith
