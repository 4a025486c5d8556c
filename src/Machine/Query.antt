-- ===== src/Machine/Query.antt =====
-- What `Query` of snzi.hpp reads, against the threads that are present.
use scalable_non_zero_indica.Base.{
  ℕ, zero, suc, ◌+◌, ◌-◌, ◌≤◌, ◌<◌, ◌≡◌, ◌↔◌, arith, List, [], ◌∷◌, ◌==◌, true, sum, le-sum,
  sum_pos_term, nonzero, not,
}
use native.Mathlib.Decide.{dec_lt}
use scalable_non_zero_indica.Node.{Op, yield, NodeCode, NodeLaws}
use scalable_non_zero_indica.Machine.{
  Site, Frame, in_root, in_node, Suspended, Task, idle, busy, Thread, System, query, frame_op,
  Reach,
}
use scalable_non_zero_indica.Machine.Books.{
  counter_at, node_of, frame_units, parked_units, units, owed, Chain, GoodFrame, GoodTask,
}
use scalable_non_zero_indica.Machine.Shape.{
  carried, loads, frame_weight, parked-le-loads, frame_units-le,
}
use scalable_non_zero_indica.Machine.Invariant.{Fits, Inv}
use scalable_non_zero_indica.Machine.Invariant.Bounds.{units-le-counter}
use scalable_non_zero_indica.Machine.Invariant.Keep.{Reach-Inv}

module _ (code : NodeCode) where
  open code use {Cell, Pc}

  -- How often a thread is present: its arrivals that have returned, one more during an arrival
  -- that has an effect, and during a departure that still has to have one.
  abbrev pub present : Thread Pc → ℕ
  present th = th.held + nonzero (carried code th.task)

  abbrev pub surplus : ℕ → System Cell Pc → ℕ
  surplus n s = sum n (λ i. present (s.threads i))

module _ (code : NodeCode) (laws : NodeLaws code) (tree : Site) (n quota : ℕ)
    (fits : Fits tree n quota) where
  open code use {Cell, Pc, counter, op_of, own, up}
  open fits use {upward, some_node, leaf_in}

  -- A thread that has an arrival somewhere is present.
  pub units-present :
      (i u held : ℕ) (t : Task Pc)
      → 0 < units code tree i u (record { held = held; task = t })
      → 0 < present code (record { held = held; task = t })
  units-present i u held idle h = ground arith
  units-present i u held (busy f below) h =
      ground (arith, frame_units-le code tree u f, parked-le-loads code tree u below)

  abbrev Somewhere : (ℕ → ℕ) → Type 0
  Somewhere has = (u : ℕ) × (u < tree.total_nodes) × (0 < has u)

  parked-Somewhere :
      (tid v : ℕ) (op : Op) (below : List (Suspended Pc))
      → Chain code tree tid v op below
      → 0 < loads code below
      → Somewhere (λ u. parked_units code tree u below)
  parked-Somewhere tid v op [] chain h = absurd (omega arith)
  parked-Somewhere tid v op (s ∷ below) (w, chain) h = elim (dec_lt 0 (own s.pc)) [
    | yes here ↦ (s.node, w.4, ground arith)
    | no none_here ↦ elim (dec_lt 0 (up s.pc - yield s.called)) [
      | yes above ↦ (tree.parent s.node, omega (arith, upward s.node w.3 w.4), ground arith)
      | no none_above ↦
          let (u, lt, p) = parked-Somewhere tid s.node (op_of s.pc) below chain (omega arith) in
          (u, lt, omega arith)
    ]
  ]

  frame-Somewhere :
      (f : Frame Pc)
      → GoodFrame code tree f
      → 0 < frame_weight code f
      → Somewhere (λ u. frame_units code tree u f)
  frame-Somewhere (in_root op) good h = (0, some_node, omega arith)
  frame-Somewhere (in_node v p) (sound, pos, lt) h = elim (dec_lt 0 (own p)) [
    | yes here ↦ (v, lt, ground arith)
    | no none_here ↦ (tree.parent v, omega (arith, upward v pos lt), ground arith)
  ]

  -- A thread that is present has an arrival somewhere.
  present-Somewhere :
      (i held : ℕ) (t : Task Pc)
      → GoodTask code tree i t
      → 0 < present code (record { held = held; task = t })
      → Somewhere (λ u. units code tree i u (record { held = held; task = t }))
  present-Somewhere i zero idle good h = absurd (ground arith)
  present-Somewhere i (suc held) t good h = (tree.leaf_for i, leaf_in i, ground arith)
  present-Somewhere i zero (busy f below) (good, chain) h = elim (dec_lt 0 (frame_weight code f)) [
    | yes here ↦ let (u, lt, p) = frame-Somewhere f good here in (u, lt, omega arith)
    | no none_here ↦
        let (u, lt, p) =
          parked-Somewhere i (node_of code f) (frame_op code tree f) below chain (ground arith) in
        (u, lt, omega arith)
  ]

  module _ (s : System Cell Pc) (inv : Inv code tree n quota s) where
    open inv use {good, balance}

    -- Upwards, a nonzero counter makes the root's nonzero.
    to_root :
        (k u : ℕ) → u ≤ k → u < tree.total_nodes → 0 < counter_at code s.mem u → 0 < s.mem.root
    to_root k zero le lt h = h
    to_root zero (suc u) le lt h = absurd (omega arith)
    to_root (suc k) (suc u) le lt h = to_root k p (omega (arith, low)) (omega (arith, low)) (
        omega (
          arith,
          balance p,
          le-sum tree.total_nodes (λ w. owed code tree s.mem w p) (suc u) lt,
          debt,
        ))
      where
        p : ℕ
        p = tree.parent (suc u)

        low : tree.parent (suc u) < suc u
        low = upward (suc u) (omega arith) lt

        debt : owed code tree s.mem (suc u) (tree.parent (suc u)) ≡ 1
        debt = ground arith

    debtor :
        (w u : ℕ)
        → 0 < owed code tree s.mem w u
        → (0 < w) × (u ≡ tree.parent w) × (0 < counter_at code s.mem w)
    debtor w u p = ground arith

    -- Downwards, a nonzero counter is owed to an arrival of some thread.
    pub to_thread :
        (k u : ℕ)
        → tree.total_nodes ≤ u + k
        → u < tree.total_nodes
        → 0 < counter_at code s.mem u
        → (i : ℕ) × (i < n) × (v : ℕ) × (0 < units code tree i v (s.threads i))
    to_thread zero u le lt h = absurd (omega arith)
    to_thread (suc k) u le lt h = elim (dec_lt 0 (sum n (λ i. units code tree i u (s.threads i)))) [
      | yes own_units ↦
          let (i, i_lt, p) = sum_pos_term n (λ i. units code tree i u (s.threads i)) own_units in
          (i, i_lt, u, p)
      | no none_here ↦
          let (w, w_lt, p) =
            sum_pos_term tree.total_nodes (λ w. owed code tree s.mem w u)
              (omega (arith, balance u)) in
          let (pos, child, some_count) = debtor w u p in
          to_thread k w (omega (arith, upward w pos w_lt)) w_lt some_count
    ]

  -- In every state that an interleaving leads to, `Query` is true exactly if there is a surplus of
  -- arrivals.
  pub query_exact :
      {s : System Cell Pc}
      → Reach code tree n quota s
      → (query s.mem ≡ true) ↔ (0 < surplus code n s)
  unfolding query
  query_exact {s} r = (seen, shown)
    where
      inv : Inv code tree n quota s
      inv = Reach-Inv code laws tree n quota fits r

      seen : not (s.mem.root == 0) ≡ true → 0 < surplus code n s
      seen e =
          let (i, lt, v, p) =
            to_thread s inv tree.total_nodes 0 (omega arith) some_node (ground arith) in
          omega (
            arith,
            units-present i v (s.threads i).held (s.threads i).task p,
            le-sum n (λ j. present code (s.threads j)) i lt,
          )

      shown : 0 < surplus code n s → not (s.mem.root == 0) ≡ true
      shown h =
          let (i, lt, p) = sum_pos_term n (λ j. present code (s.threads j)) h in
          let (u, u_lt, q) =
            present-Somewhere i (s.threads i).held (s.threads i).task (inv.good i) p in
          let up_there : 0 < s.mem.root =
            to_root s inv u u (omega arith) u_lt
              (omega (arith, units-le-counter code laws tree n quota fits s inv i u lt)) in
          ground arith
