-- ===== src/Machine/Books.antt =====
-- Who has an arrival at which node to its name.
pub mod Access
use scalable_non_zero_indica.Base.{
  ℕ, zero, suc, ◌+◌, ◌-◌, ◌≤◌, ◌<◌, ◌^◌, ◌≡◌, refl, arith, List, [], ◌∷◌, ◌==◌, if◌then◌else◌,
  nonzero, sum, Bool, ◌≢◌, sym,
}
use mathlib.Core.Path.{subst, subst₂}
use scalable_non_zero_indica.Node.{
  Op, arrive, depart, Action, goes, calls, returns, stake, yield, NodeCode, NodeLaws, Keeps,
}
use scalable_non_zero_indica.Machine.{
  Site, Memory, Frame, in_root, in_node, Suspended, Task, idle, busy, Thread, root_access, enter,
  resume, perform, advance, frame_op, settle,
}

-- `k` at node `w`, as seen from node `v`.
abbrev pub at_node : ℕ → ℕ → ℕ → ℕ
at_node v w k = if v == w then k else 0

module _ (code : NodeCode) where
  open code use {Cell, Pc, counter, op_of, own, up, IsSound}

  abbrev pub counter_at : Memory Cell → ℕ → ℕ
  counter_at m v = if v == 0 then m.root else counter (m.cells v)

  abbrev pub node_of : Frame Pc → ℕ
  node_of (in_root op) = 0
  node_of (in_node v p) = v

  module _ (tree : Site) where
    abbrev pub frame_units : ℕ → Frame Pc → ℕ
    frame_units u (in_root op) = at_node u 0 (stake op)
    frame_units u (in_node v p) = at_node u v (own p) + at_node u (tree.parent v) (up p)

    -- A call that waits for the parent's arrival does not yet have it to its name.
    abbrev pub parked_units : ℕ → List (Suspended Pc) → ℕ
    parked_units u [] = 0
    parked_units u (s ∷ below) =
        at_node u s.node (own s.pc)
        + at_node u (tree.parent s.node) (up s.pc - yield s.called)
        + parked_units u below

    -- The arrivals of a task at `u`; one that has just returned from `op` leaves its yield at the
    -- thread's leaf.
    abbrev pub task_units : ℕ → ℕ → Op → Task Pc → ℕ
    task_units tid u op idle = at_node u (tree.leaf_for tid) (yield op)
    task_units tid u op (busy f below) = frame_units u f + parked_units u below

    abbrev pub units : ℕ → ℕ → Thread Pc → ℕ
    units tid u th = at_node u (tree.leaf_for tid) th.held + task_units tid u depart th.task

    -- What node `w` owes to `u`: one arrival, if `u` is its parent and its counter is not zero.
    abbrev pub owed : Memory Cell → ℕ → ℕ → ℕ
    owed m w u = if w == 0 then 0 else at_node u (tree.parent w) (nonzero (counter_at m w))

    abbrev pub Waits : ℕ → Op → Suspended Pc → Type 0
    Waits v op s =
        (tree.parent s.node ≡ v)
        × (s.called ≡ op)
        × IsSound s.pc
        × (0 < s.node)
        × (s.node < tree.total_nodes)
        × (yield op ≤ up s.pc)

    -- The calls below a call of `op` at node `v` wait for it, each at a child, down to the leaf.
    abbrev pub Chain : ℕ → ℕ → Op → List (Suspended Pc) → Type 0
    Chain tid v op [] = v ≡ tree.leaf_for tid
    Chain tid v op (s ∷ below) = Waits v op s × Chain tid s.node (op_of s.pc) below

    abbrev pub GoodFrame : Frame Pc → Type 0
    GoodFrame (in_root op) = Unit
    GoodFrame (in_node v p) = IsSound p × (0 < v) × (v < tree.total_nodes)

    abbrev pub GoodTask : ℕ → Task Pc → Type 0
    GoodTask tid idle = Unit
    GoodTask tid (busy f below) = GoodFrame f × Chain tid (node_of f) (frame_op code tree f) below

    -- The counters and the arrivals of one task change together, at every node `u`, when the task
    -- goes from `t` to `t'` by a step at node `w`.
    abbrev pub Balances : ℕ → Op → Memory Cell → Memory Cell → ℕ → Task Pc → Task Pc → Type 0
    Balances tid op m m' w t t' =
        (u : ℕ)
        → counter_at m' u + task_units tid u op t + owed m w u
          ≡ counter_at m u + task_units tid u op t' + owed m' w u

  abbrev pub Elsewhere : Memory Cell → Memory Cell → ℕ → Type 0
  Elsewhere m m' w = (u : ℕ) → u ≢ w → counter_at m' u ≡ counter_at m u

  -- The counter that a frame's next access is at has room, and holds what the frame has at it.
  abbrev pub Ready : Memory Cell → Frame Pc → Type 0
  Ready m (in_root op) = (stake op ≤ m.root) × (m.root + 1 < 2 ^ 64)
  Ready m (in_node v p) = (own p ≤ counter (m.cells v)) × (counter (m.cells v) + 1 < 2 ^ 64)
