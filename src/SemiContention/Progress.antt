-- ===== src/SemiContention/Progress.antt =====
-- `struct node` of `semi_contention_handling_snzi`: how far a call that is not disturbed has to go.
use scalable_non_zero_indica.Base.{ℕ, ◌+◌, ◌-◌, arith, true, false, ◌==◌, if◌then◌else◌}
use scalable_non_zero_indica.Machine.Alone.{NodeProgress, Falls}
use scalable_non_zero_indica.SemiContention.{
  Cell, Pc, arrive_load, arrive_check, arrive_delay, arrive_announce, arrive_exchange,
  arrive_undone, depart_load, depart_clear, depart_exchange, depart_passed, arrive_body,
  delay_round, arrive_tail, depart_body, depart_tail, step, node_code,
}

-- The rounds of the delay count down to the arrival at the parent.
abbrev pub rank : Cell → Pc → ℕ
rank c arrive_load = 22
rank c (arrive_check oldx) = 21
rank c (arrive_delay i tries) = 4 + (16 - i)
rank c (arrive_announce oldx) = 3
rank c (arrive_exchange oldx true) = if c.x == oldx then 1 else 2
rank c (arrive_exchange oldx false) = if c.x == oldx then 1 else 22
rank c arrive_undone = 0
rank c depart_load = 3
rank c (depart_clear oldx) = if c.x == oldx then 2 else 4
rank c (depart_exchange oldx) = if c.x == oldx then 1 else 3
rank c depart_passed = 0

pub falls : (c : Cell) (p : Pc) → Falls node_code rank (rank c p) (step false c p)
unfolding step arrive_body delay_round arrive_tail depart_body depart_tail
falls c arrive_load = ground arith
falls c (arrive_check oldx) = ground arith
falls c (arrive_delay i tries) = ground arith
falls c (arrive_announce oldx) = ground arith
falls c (arrive_exchange oldx true) = ground arith
falls c (arrive_exchange oldx false) = ground arith
falls c arrive_undone = ground arith
falls c depart_load = ground arith
falls c (depart_clear oldx) = ground arith
falls c (depart_exchange oldx) = ground arith
falls c depart_passed = ground arith

unfoldable pub node_progress : NodeProgress node_code
node_progress = record { rank = rank; falls = falls }
