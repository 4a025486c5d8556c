-- ===== src/Machine/Invariant/Keep.antt =====
-- The invariant from state to state, and in the states of Reach.
use scalable_non_zero_indica.Base.{
  ℕ, ◌+◌, ◌≤◌, ◌<◌, ◌≡◌, arith, ◌==◌, if◌then◌else◌, sym, ap, sum, sum_change, update, update_all,
  update_ne, nonzero, sum-eq-zero,
}
use mathlib.Core.Path.{subst}
use scalable_non_zero_indica.Node.{yield, NodeCode, NodeLaws}
use scalable_non_zero_indica.Machine.{
  Site, Memory, idle, Thread, System, Event, react, turn, initial, Reach, start, later,
}
use scalable_non_zero_indica.Machine.Books.{at_node, counter_at, units, owed, GoodTask}
use scalable_non_zero_indica.Machine.Shape.{ShapedTask, outer_op}
use scalable_non_zero_indica.Machine.Invariant.{Fits, Inv, Turned}
use scalable_non_zero_indica.Machine.Invariant.Bounds.{counter-lt, units-le-counter}
use scalable_non_zero_indica.Machine.Invariant.Turn.{react-Turned}

module _ (code : NodeCode) (laws : NodeLaws code) (tree : Site) (n quota : ℕ)
    (fits : Fits tree n quota) where
  open code use {Cell, Pc, counter, op_of, own, up}
  open fits use {upward, some_node, leaf_in, small}

  -- The change of a thread and of a node's debt, put into the sums.
  sums_after :
      (i : ℕ) (s : System Cell Pc) (m' : Memory Cell) (th' : Thread Pc)
      → i < n
      → ((u : ℕ)
          → counter_at code s.mem u
            ≡ sum n (λ j. units code tree j u (s.threads j))
              + sum tree.total_nodes (λ w. owed code tree s.mem w u))
      → Turned code tree quota i s.mem (s.threads i) m' th'
      → (u : ℕ)
      → counter_at code m' u
        ≡ sum n (λ j. units code tree j u (update s.threads i th' j))
          + sum tree.total_nodes (λ w. owed code tree m' w u)
  sums_after i s m' th' lt balance t u = omega (arith, balance u, t.moves u, of_threads, of_nodes)
    where
      here : (update s.threads i th' i) ≡ th'
      here = ground arith

      of_threads :
          sum n (λ j. units code tree j u (update s.threads i th' j))
            + units code tree i u (s.threads i)
          ≡ sum n (λ j. units code tree j u (s.threads j)) + units code tree i u th'
      of_threads =
          subst
            (λ th.
              sum n (λ j. units code tree j u (update s.threads i th' j))
                + units code tree i u (s.threads i)
              ≡ sum n (λ j. units code tree j u (s.threads j)) + units code tree i u th)
            here
            (sum_change n i (λ j. units code tree j u (s.threads j))
              (λ j. units code tree j u (update s.threads i th' j)) lt
              (λ j ne. ap (units code tree j u) (sym (update_ne s.threads i j th' ne))))

      of_nodes :
          sum tree.total_nodes (λ w. owed code tree m' w u) + owed code tree s.mem t.w u
          ≡ sum tree.total_nodes (λ w. owed code tree s.mem w u) + owed code tree m' t.w u
      of_nodes =
          sum_change tree.total_nodes t.w (λ w. owed code tree s.mem w u)
            (λ w. owed code tree m' w u) t.in_tree
            (λ w ne.
              ap (λ x. if w == 0 then 0 else at_node u (tree.parent w) (nonzero x))
                (sym (t.elsewhere w ne)))

  pub turn-Inv :
      (i : ℕ) (e : Event) (s : System Cell Pc)
      → i < n
      → Inv code tree n quota s
      → Inv code tree n quota (turn code tree quota i e s)
  unfolding turn
  turn-Inv i e s lt inv = record {
    good = update_all (λ j th. GoodTask code tree j th.task) s.threads i th' t.good inv.good;
    shaped = update_all (λ j th. ShapedTask code tree th.task) s.threads i th' t.shaped inv.shaped;
    limit =
        update_all (λ j th. th.held + yield (outer_op code tree th.task) ≤ quota) s.threads i th'
          t.limit inv.limit;
    balance = sums_after i s m' th' lt inv.balance t;
  }
    where
      after : Memory Cell × Thread Pc
      after = react code tree quota i e s.mem (s.threads i).held (s.threads i).task

      m' : Memory Cell
      m' = after.0

      th' : Thread Pc
      th' = after.1

      t : Turned code tree quota i s.mem (s.threads i) m' th'
      t =
          react-Turned code laws tree n quota fits i e s.mem (s.threads i).held (s.threads i).task
            (inv.good i) (inv.shaped i) (inv.limit i) (counter-lt code laws tree n quota fits s inv)
            (λ u. units-le-counter code laws tree n quota fits s inv i u lt)

  initial-Inv : Inv code tree n quota (initial code tree)
  unfolding initial
  initial-Inv = record {
    good = λ i. tt;
    shaped = λ i. tt;
    limit = λ i. omega arith;
    balance = λ u. omega (
      arith,
      no_count u,
      sum-eq-zero n (λ i. units code tree i u (record { held = 0; task = idle }))
          (λ i lt. ground arith),
      sum-eq-zero tree.total_nodes (λ w. owed code tree m w u) (λ w lt. ground (arith, no_count w)),
    );
  }
    where
      m : Memory Cell
      m = record { root = 0; cells = λ _. code.fresh }

      no_count : (u : ℕ) → counter_at code m u ≡ 0
      no_count u = ground (arith, laws.fresh_zero)

  -- The invariant holds in every state that an interleaving leads to.
  pub Reach-Inv : {s : System Cell Pc} → Reach code tree n quota s → Inv code tree n quota s
  Reach-Inv start = initial-Inv
  Reach-Inv (later {s} i e lt r) = turn-Inv i e s lt (Reach-Inv r)
