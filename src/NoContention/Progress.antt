-- ===== src/NoContention/Progress.antt =====
-- `struct node` of `no_contention_handling_snzi`: how far a call that is not disturbed has to go.
use scalable_non_zero_indica.Base.{ℕ, arith, true, false, ◌==◌, if◌then◌else◌}
use scalable_non_zero_indica.Machine.Alone.{NodeProgress, Falls}
use scalable_non_zero_indica.NoContention.{
  Pc, arrive_load, arrive_exchange, arrive_undone, depart_load, depart_exchange, depart_passed,
  arrive_body, arrive_tail, depart_tail, step, node_code,
}

-- A compare-exchange that has the right value at hand comes before one that has not.
abbrev pub rank : ℕ → Pc → ℕ
rank x arrive_load = 2
rank x (arrive_exchange oldx p_arr_inv) = if x == oldx then 1 else 2
rank x arrive_undone = 0
rank x depart_load = 2
rank x (depart_exchange oldx) = if x == oldx then 1 else 2
rank x depart_passed = 0

pub falls : (x : ℕ) (p : Pc) → Falls node_code rank (rank x p) (step false x p)
unfolding step arrive_body arrive_tail depart_tail
falls x arrive_load = ground arith
falls x (arrive_exchange oldx true) = ground arith
falls x (arrive_exchange oldx false) = ground arith
falls x arrive_undone = ground arith
falls x depart_load = ground arith
falls x (depart_exchange oldx) = ground arith
falls x depart_passed = ground arith

unfoldable pub node_progress : NodeProgress node_code
node_progress = record { rank = rank; falls = falls }
