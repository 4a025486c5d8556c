-- ===== src/SemiContention.antt =====
-- snzi.hpp, class `semi_contention_handling_snzi`: the code of `struct node`, an atomic access at
-- a time. The flag `announce` lets an arrival wait for another one that is on its way up.
pub mod Progress
pub mod Costs
pub mod Correct
use scalable_non_zero_indica.Base.{
  ℕ, zero, suc, ◌≡◌, refl, arith, Bool, true, false, ◌&&◌, not, ltb, ◌==◌, if◌then◌else◌, add64,
  sub64, ◌<◌, ◌≤◌, ◌+◌, ◌^◌,
}
use scalable_non_zero_indica.Backoff.{fresh_tries, backoff}
use scalable_non_zero_indica.Node.{
  Op, arrive, depart, Action, goes, calls, returns, NodeCode, NodeLaws, Keeps, Commits,
}

pub record Cell : Type 0 where
  pub x : ℕ
  pub announce : Bool

-- Where a call of `node::Arrive` or `node::Depart` stands, with the locals that are live there.
pub data Pc : Type 0 where
  arrive_load : Pc
  arrive_check : (oldx : ℕ) → Pc  -- before `announce.load()`
  arrive_delay : (i tries : ℕ) → Pc  -- before the load in round `i` of the delay
  arrive_announce : (oldx : ℕ) → Pc  -- before `announce.store(true)`
  arrive_exchange : (oldx : ℕ) (p_arr_inv : Bool) → Pc
  arrive_undone : Pc
  depart_load : Pc
  depart_clear : (oldx : ℕ) → Pc  -- before `announce.store(false)`
  depart_exchange : (oldx : ℕ) → Pc
  depart_passed : Pc

abbrev delay_amount : ℕ
delay_amount = 16

-- The head of the `do` loop of `Arrive`.
unfoldable pub arrive_body : ℕ → Bool → Pc
arrive_body oldx p_arr_inv =
    if (oldx == 0) && not p_arr_inv then arrive_check oldx else arrive_exchange oldx p_arr_inv

-- A round of the delay that has loaded `oldx`: it ends the delay, or waits and goes on.
unfoldable pub delay_round : ℕ → ℕ → ℕ → Pc
delay_round i tries oldx =
    if oldx == 0
    then (if ltb (i + 1) delay_amount
        then arrive_delay (i + 1) (backoff tries).1
        else arrive_announce oldx)
    else arrive_exchange oldx false

unfoldable pub arrive_tail : Cell → ℕ → Bool → Action Cell Pc
arrive_tail c oldx p_arr_inv =
    if p_arr_inv && not (oldx == 0) then calls depart c arrive_undone else returns c

-- The body of the loop of `Depart`, up to the compare-exchange.
unfoldable pub depart_body : ℕ → Pc
depart_body oldx = if oldx == 1 then depart_clear oldx else depart_exchange oldx

unfoldable pub depart_tail : Cell → ℕ → Action Cell Pc
depart_tail c oldx = if oldx == 1 then calls depart c depart_passed else returns c

-- The compare-exchange of `Depart` is a strong one, and never fails for no reason.
unfoldable pub step : Bool → Cell → Pc → Action Cell Pc
step spurious c arrive_load = goes c (arrive_body c.x false)
step spurious c (arrive_check oldx) =
    goes c (if c.announce then arrive_delay 0 fresh_tries else arrive_announce oldx)
step spurious c (arrive_delay i tries) = goes c (delay_round i tries c.x)
step spurious c (arrive_announce oldx) =
    calls arrive (record c { announce = true }) (arrive_exchange oldx true)
step spurious c (arrive_exchange oldx p_arr_inv) =
    if (c.x == oldx) && not spurious
    then arrive_tail (record c { x = add64 oldx 1 }) oldx p_arr_inv
    else goes c (arrive_body c.x p_arr_inv)
step spurious c arrive_undone = returns c
step spurious c depart_load = goes c (depart_body c.x)
step spurious c (depart_clear oldx) = goes (record c { announce = false }) (depart_exchange oldx)
step spurious c (depart_exchange oldx) =
    if c.x == oldx
    then depart_tail (record c { x = sub64 oldx 1 }) oldx
    else goes c (depart_body c.x)
step spurious c depart_passed = returns c

unfoldable pub entry : Op → Pc
entry arrive = arrive_load
entry depart = depart_load

abbrev op_of : Pc → Op
op_of depart_load = depart
op_of (depart_clear oldx) = depart
op_of (depart_exchange oldx) = depart
op_of depart_passed = depart
op_of _ = arrive

abbrev own : Pc → ℕ
own arrive_undone = 1
own depart_load = 1
own (depart_clear oldx) = 1
own (depart_exchange oldx) = 1
own _ = 0

abbrev up : Pc → ℕ
up (arrive_exchange oldx true) = 1
up _ = 0

-- No compare-exchange from zero without an arrival at the parent.
abbrev IsSound : Pc → Type 0
IsSound (arrive_exchange oldx false) = 0 < oldx
IsSound _ = Unit

abbrev pub node_code : NodeCode
node_code = record {
  Cell = Cell;
  Pc = Pc;
  counter = λ c. c.x;
  fresh = record { x = 0; announce = false };
  entry = entry;
  step = step;
  op_of = op_of;
  own = own;
  up = up;
  IsSound = IsSound;
}

step-Keeps :
    (b : Bool) (c : Cell) (p : Pc)
    → IsSound p
    → own p ≤ c.x
    → c.x + 1 < 2 ^ 64
    → Keeps node_code c p (step b c p)
unfolding step arrive_body arrive_tail delay_round depart_body depart_tail
step-Keeps b c arrive_load s h w = ground arith
step-Keeps b c (arrive_check oldx) s h w = ground arith
step-Keeps b c (arrive_delay i tries) s h w = ground arith
step-Keeps b c (arrive_announce oldx) s h w = ground arith
step-Keeps b c (arrive_exchange oldx true) s h w = ground arith
step-Keeps b c (arrive_exchange oldx false) s h w = ground arith
step-Keeps b c arrive_undone s h w = ground arith
step-Keeps b c depart_load s h w = ground arith
step-Keeps b c (depart_clear oldx) s h w = ground arith
step-Keeps b c (depart_exchange oldx) s h w = ground arith
step-Keeps b c depart_passed s h w = ground arith

step-Commits :
    (b : Bool) (c : Cell) (p : Pc) → IsSound p → Commits node_code (op_of p) p (step b c p)
unfolding step arrive_body arrive_tail delay_round depart_body depart_tail
step-Commits b c arrive_load s = ground arith
step-Commits b c (arrive_check oldx) s = ground arith
step-Commits b c (arrive_delay i tries) s = ground arith
step-Commits b c (arrive_announce oldx) s = ground arith
step-Commits b c (arrive_exchange oldx true) s = ground arith
step-Commits b c (arrive_exchange oldx false) s = ground arith
step-Commits b c arrive_undone s = ground arith
step-Commits b c depart_load s = ground arith
step-Commits b c (depart_clear oldx) s = ground arith
step-Commits b c (depart_exchange oldx) s = ground arith
step-Commits b c depart_passed s = ground arith

light : (p : Pc) → own p + up p ≤ 1
light arrive_load = omega arith
light (arrive_exchange oldx true) = omega arith
light (arrive_exchange oldx false) = omega arith
light p = omega arith

-- The node's code meets the interface, so what holds of the tree holds of this class.
pub node_laws : NodeLaws node_code
unfolding entry
node_laws = record {
  fresh_zero = refl;
  entry_op = elim [ arrive ↦ refl | depart ↦ refl ];
  entry_own = elim [ arrive ↦ refl | depart ↦ refl ];
  entry_up = elim [ arrive ↦ refl | depart ↦ refl ];
  entry-IsSound = elim [ arrive ↦ tt | depart ↦ tt ];
  light = light;
  keeps = step-Keeps;
  commits = step-Commits;
}
