-- ===== src/Tests/Stamped.antt =====
-- Stamped counters at concrete values, the waits of a backoff and the table of cores.
use scalable_non_zero_indica.Base.{
  ℕ, ◌+◌, ◌-◌, ◌*◌, ◌/◌, ◌%◌, ◌^◌, ◌≤◌, ◌<◌, ◌≡◌, refl, ◌↔◌, arith, if◌then◌else◌, leb, get_elem?,
  ◌==◌, Option, some,
}
use mathlib.Core.Option
use scalable_non_zero_indica.StampedCounter.{
  extract_stamp, extract_counter, pack, left, plus, minus, compute, stamp_prefix, stamp_postfix,
  counter_prefix, counter_postfix,
}
use scalable_non_zero_indica.StampedCounter.Parts.{extract-pack}
use scalable_non_zero_indica.StampedCounter.Assign.{increments, undone}
use scalable_non_zero_indica.StampedCounter.Proxies.{
  Store, stamp_of, counter_of, proxy_read, proxy_assign, proxy_compound, aliases, read-assign,
  read-compound,
}
use scalable_non_zero_indica.Affinity.{
  cores, core, Scheduler, set_affinity, set_affinity_for, core_increasing, core_defined,
}
use scalable_non_zero_indica.Backoff.{pauses, yields, backoff, backoffs, fresh_tries, wait_after}

-- The stamp 7 with a counter that is about to wrap
abbrev full_counter : ℕ
full_counter = 8 * 2 ^ 32 - 1

extract-pack_example :
    (extract_stamp (pack 7 (2 ^ 32 - 1)) ≡ 7) × (extract_counter (pack 7 (2 ^ 32 - 1)) ≡ 2 ^ 32 - 1)
extract-pack_example = extract-pack 7 (2 ^ 32 - 1) (omega arith) (omega arith)

-- Counter 0 is full, and all others are zero.
abbrev counters : Store
counters at = if at == 0 then full_counter else 0

counters-words : (at : ℕ) → counters at < 2 ^ 64
counters-words at = ground arith

read-assign_example :
    proxy_read (proxy_assign counters (stamp_of 0) 5) (stamp_of 0)
    ≡ (if aliases (stamp_of 0) (stamp_of 0) then 5 else proxy_read counters (stamp_of 0))
read-assign_example = read-assign counters (stamp_of 0) (stamp_of 0) 5 counters-words (omega arith)

read-compound_example :
    Option.map (λ st. proxy_read st (stamp_of 0)) (proxy_compound left counters (counter_of 0) 4)
    ≡ Option.map
        (λ n. if aliases (counter_of 0) (stamp_of 0) then n else proxy_read counters (stamp_of 0))
        (compute left (proxy_read counters (counter_of 0)) 4)
read-compound_example = read-compound left counters (counter_of 0) (stamp_of 0) 4 counters-words

increments_example :
    (stamp_prefix plus full_counter ≡ some ((full_counter + 2 ^ 32) % 2 ^ 64))
    × (counter_prefix plus full_counter
        ≡ some (full_counter / 2 ^ 32 * 2 ^ 32 + (full_counter + 1) % 2 ^ 32))
increments_example = increments full_counter (omega arith)

undone_example :
    (Option.map {B = Option ℕ × ℕ}
        (λ p. (stamp_prefix minus p.0, p.1))
        (stamp_postfix plus full_counter)
      ≡ some (some full_counter, extract_stamp full_counter))
    × (Option.map {B = Option ℕ × ℕ}
          (λ p. (counter_prefix minus p.0, p.1))
          (counter_postfix plus full_counter)
        ≡ some (some full_counter, extract_counter full_counter))
undone_example = undone full_counter (omega arith)

wait_after_example :
    (backoff (backoffs 6 fresh_tries)).0 ≡ (if leb 6 4 then pauses (2 ^ 6) else yields)
wait_after_example = wait_after 6

core_increasing_example : (4 < 6) × (6 < 8)
unfolding core cores get_elem?
core_increasing_example = core_increasing 5 3 4 4 6 refl refl (omega arith)

-- Every affinity is granted, and nothing else changes.
abbrev obliging : Scheduler ℕ ℕ
obliging = record { cpu_zero = 0; cpu_set = λ c cs. cs + 2 ^ c; setaffinity = λ id cs w. (0, w) }

core_defined_example :
    ((c : ℕ) × (core 6 5 ≡ some c)
      × (set_affinity_for obliging 6 5 9 0 ≡ set_affinity obliging c 9 0))
    ↔ (6 ≤ 8) × (5 < 6)
core_defined_example = core_defined obliging 6 5 9 0
