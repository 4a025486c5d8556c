-- ===== src/Node.antt =====
-- The interface between the code of one tree node (a struct `node` of snzi.hpp) and the tree of
-- nodes that runs it: the atomic accesses of a node's `Arrive` and `Depart` one at a time, and
-- the laws by which the counters of a tree stay in step.
use scalable_non_zero_indica.Base.{ℕ, ◌+◌, ◌≤◌, ◌<◌, ◌^◌, ◌≡◌, Bool, nonzero}

pub data Op : Type 0 where
  arrive depart : Op

-- What one atomic access of a node leads to: the next access of the same call, a call of the
-- parent's `Arrive` or `Depart` with the place to resume at, or a return.
pub data Action (Cell Pc : Type 0) : Type 0 where
  goes : Cell → Pc → Action Cell Pc
  calls : Op → Cell → Pc → Action Cell Pc
  returns : Cell → Action Cell Pc

-- The arrivals at its own node that a call has to its name when it starts, and when it returns.
abbrev pub stake : Op → ℕ
stake arrive = 0
stake depart = 1

abbrev pub yield : Op → ℕ
yield arrive = 1
yield depart = 0

-- The Boolean that `step` takes is true where a weak compare-exchange fails for no reason.
-- `own` and `up` count the arrivals at the node and at its parent that a place in the code has
-- to its name; `up` is meant for after the return of a call of the parent.
pub record NodeCode : Type 1 where
  pub Cell : Type 0
  pub Pc : Type 0
  pub counter : Cell → ℕ
  pub fresh : Cell
  pub entry : Op → Pc
  pub step : Bool → Cell → Pc → Action Cell Pc
  pub op_of : Pc → Op
  pub own : Pc → ℕ
  pub up : Pc → ℕ
  pub IsSound : Pc → Type 0

module _ (code : NodeCode) where
  open code use {Cell, Pc, counter, op_of, own, up, IsSound}

  -- An access keeps the books: what the node's counter gains, the call has to its name, and a
  -- node with a nonzero counter stands for one arrival at its parent.
  abbrev pub Keeps : Cell → Pc → Action Cell Pc → Type 0
  Keeps c p (goes c' p') =
      IsSound p'
      × (op_of p' ≡ op_of p)
      × (counter c' + own p ≡ counter c + own p')
      × (nonzero (counter c) + up p ≡ nonzero (counter c') + up p')
  Keeps c p (calls op c' p') =
      IsSound p'
      × (op_of p' ≡ op_of p)
      × (counter c' + own p ≡ counter c + own p')
      × (nonzero (counter c) + up p + yield op ≡ nonzero (counter c') + up p' + stake op)
      × (yield op ≤ up p')
  Keeps c p (returns c') =
      (counter c' + own p ≡ counter c + yield (op_of p))
      × (nonzero (counter c) + up p ≡ nonzero (counter c'))

  -- When a call commits: an arrival once it has an arrival to its name, for good; a departure
  -- once it has none.
  abbrev pub Commits : Op → Pc → Action Cell Pc → Type 0
  Commits arrive p (goes c' p') = own p + up p ≤ own p' + up p'
  Commits arrive p (calls arrive c' p') = (own p + up p ≡ 0) × (own p' + up p' ≡ 1)
  Commits arrive p (calls depart c' p') = own p' + up p' ≡ 1
  Commits arrive p (returns c') = Unit
  Commits depart p (goes c' p') = own p' + up p' ≡ own p + up p
  Commits depart p (calls arrive c' p') = ⊥
  Commits depart p (calls depart c' p') = (own p + up p ≡ 1) × (own p' + up p' ≡ 0)
  Commits depart p (returns c') = Unit

-- The laws of a node's code, for a counter that is not about to wrap and holds what the call has
-- to its name.
pub record NodeLaws (code : NodeCode) : Type 0 where
  pub fresh_zero : code.counter code.fresh ≡ 0
  pub entry_op : (op : Op) → code.op_of (code.entry op) ≡ op
  pub entry_own : (op : Op) → code.own (code.entry op) ≡ stake op
  pub entry_up : (op : Op) → code.up (code.entry op) ≡ 0
  pub entry-IsSound : (op : Op) → code.IsSound (code.entry op)
  pub light : (p : code.Pc) → code.own p + code.up p ≤ 1
  pub keeps :
      (b : Bool) (c : code.Cell) (p : code.Pc)
      → code.IsSound p
      → code.own p ≤ code.counter c
      → code.counter c + 1 < 2 ^ 64
      → Keeps code c p (code.step b c p)
  pub commits :
      (b : Bool) (c : code.Cell) (p : code.Pc)
      → code.IsSound p
      → Commits code (code.op_of p) p (code.step b c p)
