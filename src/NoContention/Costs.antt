-- ===== src/NoContention/Costs.antt =====
-- `struct node` of `no_contention_handling_snzi`: what the accesses of a call take from
-- what it has left to do.
use scalable_non_zero_indica.Base.{
  ℕ, ◌≤◌, refl, inl, inr, Bool, Bool-cases, add64, sub64, arith, true, false, ◌==◌,
}
use scalable_non_zero_indica.Node.{Op, arrive, depart, Action}
use scalable_non_zero_indica.Machine.Load.{NodeCost, Costs}
use scalable_non_zero_indica.NoContention.{
  Pc, arrive_load, arrive_exchange, arrive_undone, depart_load, depart_exchange, depart_passed,
  arrive_body, arrive_tail, depart_tail, step, entry, node_code,
}
use scalable_non_zero_indica.NoContention.Progress.{rank, node_progress}

abbrev changes : Pc → ℕ
changes arrive_undone = 0
changes depart_passed = 0
changes _ = 1

-- An arrival may yet arrive at the parent and depart from it again.
abbrev parent_calls : Pc → ℕ
parent_calls arrive_load = 2
parent_calls (arrive_exchange oldx true) = 1
parent_calls (arrive_exchange oldx false) = 2
parent_calls arrive_undone = 0
parent_calls depart_load = 1
parent_calls (depart_exchange oldx) = 1
parent_calls depart_passed = 0

low : (x : ℕ) (p : Pc) → rank x p ≤ 2
low x arrive_load = ground arith
low x (arrive_exchange oldx p_arr_inv) = ground arith
low x arrive_undone = ground arith
low x depart_load = ground arith
low x (depart_exchange oldx) = ground arith
low x depart_passed = ground arith

abbrev NodeCosts : ℕ → Pc → Action ℕ Pc → Type 0
NodeCosts = Costs node_code rank parent_calls changes

body_costs :
    (x : ℕ) (b : Bool) (p : Pc)
    → parent_calls (arrive_exchange x b) ≤ parent_calls p
    → 1 ≤ changes p
    → NodeCosts x p (arrive_body x x b)
unfolding arrive_body
body_costs x true p le one = elim (Bool-cases (x == 0)) [
  | inl e ↦ rw e (λ q. refl, le, one)
  | inr e ↦ rw e (λ q. refl, le, one)
]
body_costs x false p le one = elim (Bool-cases (x == 0)) [
  | inl e ↦ rw e (le, one, inr λ q. refl)
  | inr e ↦ rw e (λ q. refl, le, one)
]

arrived_costs :
    (x oldx : ℕ) (b : Bool)
    → NodeCosts x (arrive_exchange oldx b) (arrive_tail (add64 oldx 1) oldx b)
unfolding arrive_tail
arrived_costs x oldx false = inl (omega arith)
arrived_costs x oldx true = elim (Bool-cases (oldx == 0)) [
  | inl e ↦ rw e (inl (omega arith))
  | inr e ↦ rw e (omega arith, omega arith, inl (omega arith))
]

departed_costs : (x oldx : ℕ) → NodeCosts x (depart_exchange oldx) (depart_tail (sub64 oldx 1) oldx)
unfolding depart_tail
departed_costs x oldx = elim (Bool-cases (oldx == 1)) [
  | inl e ↦ rw e (omega arith, omega arith, inl (omega arith))
  | inr e ↦ rw e (inl (omega arith))
]

costs : (x : ℕ) (p : Pc) → NodeCosts x p (step false x p)
unfolding step
costs x arrive_load = body_costs x false arrive_load (omega arith) (omega arith)
costs x (arrive_exchange oldx b) = elim (Bool-cases (x == oldx)) [
  | inl e ↦ rw e (arrived_costs x oldx b)
  | inr e ↦ rw e (body_costs x b (arrive_exchange oldx b) (same b) (omega arith))
]
  where
    same : (b : Bool) → parent_calls (arrive_exchange x b) ≤ parent_calls (arrive_exchange oldx b)
    same true = omega arith
    same false = omega arith
costs x arrive_undone = inr λ q. refl
costs x depart_load = (λ q. refl, omega arith, omega arith)
costs x (depart_exchange oldx) = elim (Bool-cases (x == oldx)) [
  | inl e ↦ rw e (departed_costs x oldx)
  | inr e ↦ rw e (λ q. refl, omega arith, omega arith)
]
costs x depart_passed = inr λ q. refl

entry_costs : (op : Op) → (parent_calls (entry op) ≤ 2) × (changes (entry op) ≤ 1)
unfolding entry
entry_costs arrive = (omega arith, omega arith)
entry_costs depart = (omega arith, omega arith)

pub node_cost : NodeCost node_code node_progress
unfolding node_progress
node_cost = record {
  highest = 2;
  parent_calls = parent_calls;
  changes = changes;
  low = low;
  entry_costs = entry_costs;
  costs = costs;
}
