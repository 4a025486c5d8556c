-- ===== src/SemiContention/Costs.antt =====
-- `struct node` of `semi_contention_handling_snzi`: what the accesses of a call take from
-- what it has left to do.
use scalable_non_zero_indica.Base.{
  ℕ, ◌≤◌, ◌+◌, refl, inl, inr, Bool, Bool-cases, add64, sub64, ltb, arith, true, false, ◌==◌,
}
use scalable_non_zero_indica.Backoff.{backoff, fresh_tries}
use scalable_non_zero_indica.Node.{Op, arrive, depart, Action, goes}
use scalable_non_zero_indica.Machine.Load.{NodeCost, Alike, Costs}
use scalable_non_zero_indica.SemiContention.{
  Cell, Pc, arrive_load, arrive_check, arrive_delay, arrive_announce, arrive_exchange,
  arrive_undone, depart_load, depart_clear, depart_exchange, depart_passed, arrive_body,
  delay_round, arrive_tail, depart_body, depart_tail, step, entry, delay_amount, node_code,
}
use scalable_non_zero_indica.SemiContention.Progress.{rank, node_progress}

abbrev changes : Pc → ℕ
changes arrive_undone = 0
changes depart_passed = 0
changes _ = 1

-- An arrival may yet arrive at the parent and depart from it again.
abbrev parent_calls : Pc → ℕ
parent_calls (arrive_exchange oldx true) = 1
parent_calls arrive_undone = 0
parent_calls depart_load = 1
parent_calls (depart_clear oldx) = 1
parent_calls (depart_exchange oldx) = 1
parent_calls depart_passed = 0
parent_calls _ = 2

low : (c : Cell) (p : Pc) → rank c p ≤ 22
low c arrive_load = ground arith
low c (arrive_check oldx) = ground arith
low c (arrive_delay i tries) = ground arith
low c (arrive_announce oldx) = ground arith
low c (arrive_exchange oldx true) = ground arith
low c (arrive_exchange oldx false) = ground arith
low c arrive_undone = ground arith
low c depart_load = ground arith
low c (depart_clear oldx) = ground arith
low c (depart_exchange oldx) = ground arith
low c depart_passed = ground arith

abbrev NodeCosts : Cell → Pc → Action Cell Pc → Type 0
NodeCosts = Costs node_code rank parent_calls changes

-- The flag does not count.
announce-Alike : (c : Cell) (b : Bool) → Alike node_code rank c (record c { announce = b })
announce-Alike c b arrive_load = refl
announce-Alike c b (arrive_check oldx) = refl
announce-Alike c b (arrive_delay i tries) = refl
announce-Alike c b (arrive_announce oldx) = refl
announce-Alike c b (arrive_exchange oldx true) = refl
announce-Alike c b (arrive_exchange oldx false) = refl
announce-Alike c b arrive_undone = refl
announce-Alike c b depart_load = refl
announce-Alike c b (depart_clear oldx) = refl
announce-Alike c b (depart_exchange oldx) = refl
announce-Alike c b depart_passed = refl

-- An access after which the call goes on with the cell as it was
goes_costs :
    (c : Cell) (p p' : Pc)
    → parent_calls p' ≤ parent_calls p
    → changes p' ≤ changes p
    → NodeCosts c p (goes c p')
goes_costs c p p' le le' = (λ q. refl, le, le')

body_costs :
    (c : Cell) (b : Bool) (p : Pc)
    → parent_calls (arrive_exchange c.x b) ≤ parent_calls p
    → 1 ≤ changes p
    → NodeCosts c p (goes c (arrive_body c.x b))
unfolding arrive_body
body_costs c true p le one = elim (Bool-cases (c.x == 0)) [
  | inl e ↦ rw e (goes_costs c p (arrive_exchange c.x true) le one)
  | inr e ↦ rw e (goes_costs c p (arrive_exchange c.x true) le one)
]
body_costs c false p le one = elim (Bool-cases (c.x == 0)) [
  | inl e ↦ rw e (goes_costs c p (arrive_check c.x) le one)
  | inr e ↦ rw e (goes_costs c p (arrive_exchange c.x false) le one)
]

depart_body_costs :
    (c : Cell) (p : Pc)
    → 1 ≤ parent_calls p
    → 1 ≤ changes p
    → NodeCosts c p (goes c (depart_body c.x))
unfolding depart_body
depart_body_costs c p le one = elim (Bool-cases (c.x == 1)) [
  | inl e ↦ rw e (goes_costs c p (depart_clear c.x) le one)
  | inr e ↦ rw e (goes_costs c p (depart_exchange c.x) le one)
]

delay_costs :
    (c : Cell) (i tries : ℕ) → NodeCosts c (arrive_delay i tries) (goes c (delay_round i tries c.x))
unfolding delay_round
delay_costs c i tries = elim (Bool-cases (c.x == 0)) [
  | inl e ↦ elim (Bool-cases (ltb (i + 1) delay_amount)) [
    | inl more ↦
        rw (e, more)
          (goes_costs c (arrive_delay i tries) (arrive_delay (i + 1) (backoff tries).1)
            (omega arith) (omega arith))
    | inr over ↦
        rw (e, over)
          (goes_costs c (arrive_delay i tries) (arrive_announce c.x) (omega arith) (omega arith))
  ]
  | inr e ↦
      rw e (
        goes_costs c (arrive_delay i tries) (arrive_exchange c.x false) (omega arith) (omega arith))
]

check_costs :
    (c : Cell) (oldx : ℕ) → NodeCosts c (arrive_check oldx) (step false c (arrive_check oldx))
unfolding step
check_costs c oldx = elim (Bool-cases c.announce) [
  | inl e ↦
      rw e
        (goes_costs c (arrive_check oldx) (arrive_delay 0 fresh_tries) (omega arith) (omega arith))
  | inr e ↦
      rw e (goes_costs c (arrive_check oldx) (arrive_announce oldx) (omega arith) (omega arith))
]

arrived_costs :
    (c : Cell) (oldx : ℕ) (b : Bool)
    → NodeCosts c (arrive_exchange oldx b) (arrive_tail (record c { x = add64 oldx 1 }) oldx b)
unfolding arrive_tail
arrived_costs c oldx false = inl (omega arith)
arrived_costs c oldx true = elim (Bool-cases (oldx == 0)) [
  | inl e ↦ rw e (inl (omega arith))
  | inr e ↦ rw e (omega arith, omega arith, inl (omega arith))
]

departed_costs :
    (c : Cell) (oldx : ℕ)
    → NodeCosts c (depart_exchange oldx) (depart_tail (record c { x = sub64 oldx 1 }) oldx)
unfolding depart_tail
departed_costs c oldx = elim (Bool-cases (oldx == 1)) [
  | inl e ↦ rw e (omega arith, omega arith, inl (omega arith))
  | inr e ↦ rw e (inl (omega arith))
]

costs : (c : Cell) (p : Pc) → NodeCosts c p (step false c p)
unfolding step
costs c arrive_load = body_costs c false arrive_load (omega arith) (omega arith)
costs c (arrive_check oldx) = check_costs c oldx
costs c (arrive_delay i tries) = delay_costs c i tries
costs c (arrive_announce oldx) = (omega arith, omega arith, inr (announce-Alike c true))
costs c (arrive_exchange oldx b) = elim (Bool-cases (c.x == oldx)) [
  | inl e ↦ rw e (arrived_costs c oldx b)
  | inr e ↦ rw e (body_costs c b (arrive_exchange oldx b) (same b) (omega arith))
]
  where
    same : (b : Bool) → parent_calls (arrive_exchange c.x b) ≤ parent_calls (arrive_exchange oldx b)
    same true = omega arith
    same false = omega arith
costs c arrive_undone = inr λ q. refl
costs c depart_load = depart_body_costs c depart_load (omega arith) (omega arith)
costs c (depart_clear oldx) = (announce-Alike c false, omega arith, omega arith)
costs c (depart_exchange oldx) = elim (Bool-cases (c.x == oldx)) [
  | inl e ↦ rw e (departed_costs c oldx)
  | inr e ↦ rw e (depart_body_costs c (depart_exchange oldx) (omega arith) (omega arith))
]
costs c depart_passed = inr λ q. refl

entry_costs : (op : Op) → (parent_calls (entry op) ≤ 2) × (changes (entry op) ≤ 1)
unfolding entry
entry_costs arrive = (omega arith, omega arith)
entry_costs depart = (omega arith, omega arith)

pub node_cost : NodeCost node_code node_progress
unfolding node_progress
node_cost = record {
  highest = 22;
  parent_calls = parent_calls;
  changes = changes;
  low = low;
  entry_costs = entry_costs;
  costs = costs;
}
