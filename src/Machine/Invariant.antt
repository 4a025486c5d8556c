-- ===== src/Machine/Invariant.antt =====
-- The invariant of the tree: what its counters and its threads have to do with one another.
pub mod Bounds
pub mod Turn
pub mod Keep
use scalable_non_zero_indica.Base.{
  ℕ, zero, suc, ◌+◌, ◌*◌, ◌≤◌, ◌<◌, ◌^◌, ◌≡◌, refl, arith, List, [], ◌==◌, if◌then◌else◌, sym, ap,
  sum, sum_change, sum_bound, le-sum, update, update_all, update_ne, nonzero, sum-eq-zero,
  Bool-cases, inl, inr, ltb,
}
use mathlib.Core.Path.{subst}
use scalable_non_zero_indica.Node.{Op, arrive, depart, stake, yield, NodeCode, NodeLaws}
use scalable_non_zero_indica.Machine.{
  Site, Memory, Frame, in_root, in_node, Suspended, Task, idle, busy, Thread, System, Event, invoke,
  access, enter, advance, frame_op, settle, react, turn, initial, Reach, start, later,
}
use scalable_non_zero_indica.Machine.Books.{
  at_node, counter_at, node_of, task_units, units, owed, GoodFrame, GoodTask, Elsewhere, Ready,
}
use scalable_non_zero_indica.Machine.Books.Access.{
  enter_op, enter-Chain, enter-GoodFrame, enter_units, advance-GoodTask, advance-Balances,
  advance-Elsewhere,
}
use scalable_non_zero_indica.Machine.Shape.{
  outer, loads_lem, ShapedTask, outer_op, parked-le-loads, frame_units-le, frame_weight,
}
use scalable_non_zero_indica.Machine.Commit.{SameOuter, advance-Shape, advance-SameOuter}

-- What the tree and its use must satisfy for the counters not to wrap: `n` threads with at most
-- `quota` arrivals each, and a node's children, stay within a word.
pub record Fits (tree : Site) (n quota : ℕ) : Type 0 where
  pub upward : (v : ℕ) → 0 < v → v < tree.total_nodes → tree.parent v < v
  pub some_node : 0 < tree.total_nodes
  pub leaf_in : (tid : ℕ) → tree.leaf_for tid < tree.total_nodes
  pub small : n * (quota + 2) + tree.total_nodes + 1 < 2 ^ 64

module _ (code : NodeCode) (tree : Site) where
  open code use {Cell, Pc, counter, op_of, own, up}

  pub record Inv (n quota : ℕ) (s : System Cell Pc) : Type 0 where
    pub good : (i : ℕ) → GoodTask code tree i (s.threads i).task
    pub shaped : (i : ℕ) → ShapedTask code tree (s.threads i).task
    pub limit : (i : ℕ) → (s.threads i).held + yield (outer_op code tree (s.threads i).task) ≤ quota
    pub balance :
        (u : ℕ)
        → counter_at code s.mem u
          ≡ sum n (λ i. units code tree i u (s.threads i))
            + sum tree.total_nodes (λ w. owed code tree s.mem w u)

  -- What one event of thread `i` does, at its own node `w` and to the thread.
  pub record Turned (quota i : ℕ) (m : Memory Cell) (th : Thread Pc) (m' : Memory Cell)
      (th' : Thread Pc) : Type 0 where
    pub w : ℕ
    pub in_tree : w < tree.total_nodes
    pub good : GoodTask code tree i th'.task
    pub shaped : ShapedTask code tree th'.task
    pub limit : th'.held + yield (outer_op code tree th'.task) ≤ quota
    pub moves :
        (u : ℕ)
        → counter_at code m' u + units code tree i u th + owed code tree m w u
          ≡ counter_at code m u + units code tree i u th' + owed code tree m' w u
    pub elsewhere : Elsewhere code m m' w
