-- ===== src/NoContention.antt =====
-- snzi.hpp, class `no_contention_handling_snzi`: the code of `struct node`, an atomic access at
-- a time. A cell is the node's counter `X`.
pub mod Progress
pub mod Costs
pub mod Correct
use scalable_non_zero_indica.Base.{
  ℕ, zero, suc, ◌≡◌, refl, arith, Bool, true, false, ◌&&◌, not, ◌==◌, if◌then◌else◌, add64, sub64,
  ◌<◌, ◌≤◌, ◌+◌, ◌^◌,
}
use scalable_non_zero_indica.Node.{
  Op, arrive, depart, Action, goes, calls, returns, NodeCode, NodeLaws, Keeps, Commits,
}

-- Where a call of `node::Arrive` or `node::Depart` stands, with the locals that are live there.
pub data Pc : Type 0 where
  arrive_load : Pc
  arrive_exchange : (oldx : ℕ) (p_arr_inv : Bool) → Pc
  arrive_undone : Pc
  depart_load : Pc
  depart_exchange : (oldx : ℕ) → Pc
  depart_passed : Pc

-- The body of the `do` loop, up to the compare-exchange.
unfoldable pub arrive_body : ℕ → ℕ → Bool → Action ℕ Pc
arrive_body x oldx p_arr_inv =
    if (oldx == 0) && not p_arr_inv
    then calls arrive x (arrive_exchange oldx true)
    else goes x (arrive_exchange oldx p_arr_inv)

-- After the loop of `Arrive`: a parent's arrival that was not needed is undone.
unfoldable pub arrive_tail : ℕ → ℕ → Bool → Action ℕ Pc
arrive_tail x oldx p_arr_inv =
    if p_arr_inv && not (oldx == 0) then calls depart x arrive_undone else returns x

-- After the loop of `Depart`: the last one to leave departs from the parent.
unfoldable pub depart_tail : ℕ → ℕ → Action ℕ Pc
depart_tail x oldx = if oldx == 1 then calls depart x depart_passed else returns x

unfoldable pub step : Bool → ℕ → Pc → Action ℕ Pc
step spurious x arrive_load = arrive_body x x false
step spurious x (arrive_exchange oldx p_arr_inv) =
    if (x == oldx) && not spurious
    then arrive_tail (add64 oldx 1) oldx p_arr_inv
    else arrive_body x x p_arr_inv
step spurious x arrive_undone = returns x
step spurious x depart_load = goes x (depart_exchange x)
step spurious x (depart_exchange oldx) =
    if (x == oldx) && not spurious
    then depart_tail (sub64 oldx 1) oldx
    else goes x (depart_exchange x)
step spurious x depart_passed = returns x

unfoldable pub entry : Op → Pc
entry arrive = arrive_load
entry depart = depart_load

abbrev op_of : Pc → Op
op_of arrive_load = arrive
op_of (arrive_exchange oldx p_arr_inv) = arrive
op_of arrive_undone = arrive
op_of depart_load = depart
op_of (depart_exchange oldx) = depart
op_of depart_passed = depart

abbrev own : Pc → ℕ
own arrive_undone = 1
own depart_load = 1
own (depart_exchange oldx) = 1
own _ = 0

abbrev up : Pc → ℕ
up (arrive_exchange oldx true) = 1
up _ = 0

-- No compare-exchange from zero without an arrival at the parent.
abbrev IsSound : Pc → Type 0
IsSound (arrive_exchange oldx false) = 0 < oldx
IsSound _ = Unit

abbrev pub node_code : NodeCode
node_code = record {
  Cell = ℕ;
  Pc = Pc;
  counter = λ x. x;
  fresh = 0;
  entry = entry;
  step = step;
  op_of = op_of;
  own = own;
  up = up;
  IsSound = IsSound;
}

step-Keeps :
    (b : Bool) (x : ℕ) (p : Pc)
    → IsSound p
    → own p ≤ x
    → x + 1 < 2 ^ 64
    → Keeps node_code x p (step b x p)
unfolding step arrive_body arrive_tail depart_tail
step-Keeps b x arrive_load s h w = ground arith
step-Keeps b x (arrive_exchange oldx true) s h w = ground arith
step-Keeps b x (arrive_exchange oldx false) s h w = ground arith
step-Keeps b x arrive_undone s h w = ground arith
step-Keeps b x depart_load s h w = ground arith
step-Keeps b x (depart_exchange oldx) s h w = ground arith
step-Keeps b x depart_passed s h w = ground arith

step-Commits : (b : Bool) (x : ℕ) (p : Pc) → IsSound p → Commits node_code (op_of p) p (step b x p)
unfolding step arrive_body arrive_tail depart_tail
step-Commits b x arrive_load s = ground arith
step-Commits b x (arrive_exchange oldx true) s = ground arith
step-Commits b x (arrive_exchange oldx false) s = ground arith
step-Commits b x arrive_undone s = ground arith
step-Commits b x depart_load s = ground arith
step-Commits b x (depart_exchange oldx) s = ground arith
step-Commits b x depart_passed s = ground arith

-- The node's code meets the interface, so what holds of the tree holds of this class.
pub node_laws : NodeLaws node_code
unfolding entry
node_laws = record {
  fresh_zero = refl;
  entry_op = elim [ arrive ↦ refl | depart ↦ refl ];
  entry_own = elim [ arrive ↦ refl | depart ↦ refl ];
  entry_up = elim [ arrive ↦ refl | depart ↦ refl ];
  entry-IsSound = elim [ arrive ↦ tt | depart ↦ tt ];
  light = light;
  keeps = step-Keeps;
  commits = step-Commits;
}
  where
    light : (p : Pc) → own p + up p ≤ 1
    light (arrive_exchange oldx true) = omega arith
    light (arrive_exchange oldx false) = omega arith
    light arrive_load = omega arith
    light arrive_undone = omega arith
    light depart_load = omega arith
    light (depart_exchange oldx) = omega arith
    light depart_passed = omega arith
