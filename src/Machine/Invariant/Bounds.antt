-- ===== src/Machine/Invariant/Bounds.antt =====
-- The size of a counter, and what a thread has at its node.
use scalable_non_zero_indica.Base.{ℕ, ◌+◌, ◌≤◌, ◌<◌, ◌^◌, arith, List, sum_bound, le-sum}
use scalable_non_zero_indica.Node.{Op, arrive, depart, yield, NodeCode, NodeLaws}
use scalable_non_zero_indica.Machine.{
  Site, Memory, Frame, in_root, in_node, Suspended, Task, idle, busy, System, frame_op,
}
use scalable_non_zero_indica.Machine.Books.{counter_at, task_units, units, owed, GoodFrame, Ready}
use scalable_non_zero_indica.Machine.Shape.{
  outer, loads_lem, ShapedTask, parked-le-loads, frame_units-le, frame_weight,
}
use scalable_non_zero_indica.Machine.Invariant.{Fits, Inv}

module _ (code : NodeCode) (laws : NodeLaws code) (tree : Site) (n quota : ℕ)
    (fits : Fits tree n quota) where
  open code use {Cell, Pc, counter, op_of, own, up}
  open fits use {upward, some_node, leaf_in, small}

  frame_weight-le : (f : Frame Pc) → frame_weight code f ≤ 1
  frame_weight-le (in_root arrive) = omega arith
  frame_weight-le (in_root depart) = omega arith
  frame_weight-le (in_node v p) = laws.light p

  yield-le : (op : Op) → yield op ≤ 1
  yield-le arrive = omega arith
  yield-le depart = omega arith

  task_units-le :
      (i u : ℕ) (t : Task Pc) → ShapedTask code tree t → task_units code tree i u depart t ≤ 2
  task_units-le i u idle h = ground arith
  task_units-le i u (busy f below) h = omega (
    arith,
    frame_units-le code tree u f,
    frame_weight-le f,
    parked-le-loads code tree u below,
    loads_lem code (frame_op code tree f) below h,
    yield-le (outer code (frame_op code tree f) below),
  )

  units-le :
      (i u : ℕ) (held : ℕ) (t : Task Pc)
      → ShapedTask code tree t
      → held ≤ quota
      → units code tree i u (record { held = held; task = t }) ≤ quota + 2
  units-le i u held t h le = ground (arith, task_units-le i u t h)

  owed-le : (m : Memory Cell) (w u : ℕ) → owed code tree m w u ≤ 1
  owed-le m w u = ground arith

  module _ (s : System Cell Pc) (inv : Inv code tree n quota s) where
    open inv use {good, shaped, limit, balance}

    -- No counter is about to wrap.
    pub counter-lt : (u : ℕ) → counter_at code s.mem u + 1 < 2 ^ 64
    counter-lt u = omega (
      arith,
      balance u,
      sum_bound n (quota + 2) (λ i. units code tree i u (s.threads i))
          (λ i lt.
            units-le i u (s.threads i).held (s.threads i).task (shaped i) (omega (arith, limit i))),
      sum_bound tree.total_nodes 1 (λ w. owed code tree s.mem w u) (λ w lt. owed-le s.mem w u),
      small,
    )

    -- No counter is below what the threads have at its node.
    pub units-le-counter :
        (i u : ℕ) → i < n → units code tree i u (s.threads i) ≤ counter_at code s.mem u
    units-le-counter i u lt =
        omega (arith, balance u, le-sum n (λ j. units code tree j u (s.threads j)) i lt)

  pub frame-Ready :
      (i held : ℕ) (m : Memory Cell) (f : Frame Pc) (below : List (Suspended Pc))
      → GoodFrame code tree f
      → ((u : ℕ) → counter_at code m u + 1 < 2 ^ 64)
      → ((u : ℕ)
          → units code tree i u (record { held = held; task = busy f below }) ≤ counter_at code m u)
      → Ready code m f
  frame-Ready i held m (in_root op) below good room has = (omega (arith, has 0), room 0)
  frame-Ready i held m (in_node v p) below (sound, pos, lt) room has =
      (ground (arith, has v), ground (arith, room v))
