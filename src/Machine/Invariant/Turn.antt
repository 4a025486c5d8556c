-- ===== src/Machine/Invariant/Turn.antt =====
-- What one event does to a thread, to its node and to the sums of the invariant.
use scalable_non_zero_indica.Base.{
  ℕ, zero, suc, ◌+◌, ◌≤◌, ◌<◌, ◌^◌, ◌≡◌, refl, arith, [], ap, Bool-cases, inl, inr, ltb,
}
use scalable_non_zero_indica.Node.{Op, arrive, depart, stake, yield, NodeCode, NodeLaws}
use scalable_non_zero_indica.Machine.{
  Site, Memory, Frame, in_root, in_node, Task, idle, busy, Event, invoke, access, enter, advance,
  frame_op, settle, react,
}
use scalable_non_zero_indica.Machine.Books.{
  counter_at, node_of, task_units, units, owed, GoodFrame, GoodTask, Elsewhere, Ready,
}
use scalable_non_zero_indica.Machine.Books.Access.{
  enter_op, enter-Chain, enter-GoodFrame, enter_units, advance-GoodTask, advance-Balances,
  advance-Elsewhere,
}
use scalable_non_zero_indica.Machine.Shape.{outer, ShapedTask, outer_op}
use scalable_non_zero_indica.Machine.Commit.{SameOuter, advance-Shape, advance-SameOuter}
use scalable_non_zero_indica.Machine.Invariant.{Fits, Turned}
use scalable_non_zero_indica.Machine.Invariant.Bounds.{frame-Ready}

module _ (code : NodeCode) (laws : NodeLaws code) (tree : Site) (n quota : ℕ)
    (fits : Fits tree n quota) where
  open code use {Cell, Pc, counter, op_of, own, up}
  open fits use {upward, some_node, leaf_in, small}

  settle-Turned :
      (i held w : ℕ) (op o : Op) (m m' : Memory Cell) (t t' : Task Pc)
      → w < tree.total_nodes
      → GoodTask code tree i t'
      → ShapedTask code tree t'
      → SameOuter code tree o op t'
      → held + yield o ≤ quota
      → ((u : ℕ)
          → counter_at code m' u + task_units code tree i u op t + owed code tree m w u
            ≡ counter_at code m u + task_units code tree i u op t' + owed code tree m' w u)
      → ((u : ℕ) → task_units code tree i u op t ≡ task_units code tree i u depart t)
      → Elsewhere code m m' w
      → Turned code tree quota i m
          (record { held = held; task = t })
          m'
          (settle code tree held op t')
  unfolding settle
  settle-Turned i held w op o m m' t idle lt good shaped same limit bal still off = record {
    w = w;
    in_tree = lt;
    good = tt;
    shaped = tt;
    limit = omega (arith, ap yield same);
    moves = λ u. ground (arith, bal u, still u);
    elsewhere = off;
  }
  settle-Turned i held w op o m m' t (busy f below) lt good shaped same limit bal still off =
      record {
        w = w;
        in_tree = lt;
        good = good;
        shaped = shaped;
        limit = omega (arith, ap yield same);
        moves = λ u. omega (arith, bal u, still u);
        elsewhere = off;
      }

  node_of-lt : (f : Frame Pc) → GoodFrame code tree f → node_of code f < tree.total_nodes
  node_of-lt (in_root op) good = some_node
  node_of-lt (in_node v p) good = good.2

  -- An event that changes nothing.
  rest-Turned :
      (i held : ℕ) (m : Memory Cell) (t : Task Pc)
      → GoodTask code tree i t
      → ShapedTask code tree t
      → held + yield (outer_op code tree t) ≤ quota
      → Turned code tree quota i m
          (record { held = held; task = t })
          m
          (record { held = held; task = t })
  rest-Turned i held m t good shaped limit = record {
    w = 0;
    in_tree = some_node;
    good = good;
    shaped = shaped;
    limit = limit;
    moves = λ u. refl;
    elsewhere = λ u ne. refl;
  }

  invoke-Turned :
      (i before held : ℕ) (op : Op) (m : Memory Cell)
      → before ≡ held + stake op
      → held + yield op ≤ quota
      → Turned code tree quota i m
          (record { held = before; task = idle })
          m
          (record { held = held; task = busy (enter code tree (tree.leaf_for i) op) [] })
  invoke-Turned i before held op m e limit = record {
    w = 0;
    in_tree = some_node;
    good = (
      enter-GoodFrame code laws tree leaf op (leaf_in i),
      enter-Chain code laws tree i leaf op [] refl,
    );
    shaped = tt;
    limit = rw (enter_op code laws tree leaf op) limit;
    moves = λ u. ground (arith, enter_units code laws tree u leaf op);
    elsewhere = λ u ne. refl;
  }
    where
      leaf : ℕ
      leaf = tree.leaf_for i

  pub react-Turned :
      (i : ℕ) (e : Event) (m : Memory Cell) (held : ℕ) (t : Task Pc)
      → GoodTask code tree i t
      → ShapedTask code tree t
      → held + yield (outer_op code tree t) ≤ quota
      → ((u : ℕ) → counter_at code m u + 1 < 2 ^ 64)
      → ((u : ℕ) → units code tree i u (record { held = held; task = t }) ≤ counter_at code m u)
      → let after = react code tree quota i e m held t in
        Turned code tree quota i m (record { held = held; task = t }) after.0 after.1
  unfolding react
  react-Turned i (invoke arrive) m held idle good shaped limit room has =
      elim (Bool-cases (ltb held quota)) [
        | inl free ↦ rw free (invoke-Turned i held held arrive m (omega arith) (ground arith))
        | inr full ↦ rw full (rest-Turned i held m idle good shaped limit)
      ]
  react-Turned i (invoke depart) m zero idle good shaped limit room has =
      rest-Turned i 0 m idle good shaped limit
  react-Turned i (invoke depart) m (suc held) idle good shaped limit room has =
      invoke-Turned i (suc held) held depart m (omega arith) (omega arith)
  react-Turned i (invoke arrive) m held (busy f below) good shaped limit room has =
      rest-Turned i held m (busy f below) good shaped limit
  react-Turned i (invoke depart) m zero (busy f below) good shaped limit room has =
      rest-Turned i 0 m (busy f below) good shaped limit
  react-Turned i (invoke depart) m (suc held) (busy f below) good shaped limit room has =
      rest-Turned i (suc held) m (busy f below) good shaped limit
  react-Turned i (access b) m held idle good shaped limit room has =
      rest-Turned i held m idle good shaped limit
  react-Turned i (access b) m held (busy f below) good shaped limit room has =
      settle-Turned i held (node_of code f) op (outer code op below) m after.0 (busy f below)
        after.1 (node_of-lt f good.0)
        (advance-GoodTask code laws tree upward b i m f below good ready)
        (advance-Shape code laws tree b i m f below good ready shaped)
        (advance-SameOuter code laws tree b i m f below good ready) limit
        (advance-Balances code laws tree upward b i m f below good ready) (λ u. refl)
        (advance-Elsewhere code laws tree upward b i m f below good)
    where
      op : Op
      op = frame_op code tree f

      after : Memory Cell × Task Pc
      after = advance code tree b m f below

      ready : Ready code m f
      ready = frame-Ready code laws tree n quota fits i held m f below good.0 room has
