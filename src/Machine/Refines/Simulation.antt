-- ===== src/Machine/Refines/Simulation.antt =====
-- The tree of Machine against the abstract indicator, event by event.
use scalable_non_zero_indica.Base.{
  ℕ, zero, suc, ◌+◌, ◌≤◌, ◌<◌, ◌≡◌, refl, arith, List, [], ◌∷◌, ltb, Bool, true, sum-eq-zero,
  sum-update, map-update, ◌↔◌, update, nonzero, sym, Bool-cases, inl, inr,
}
use mathlib.Core.Path.{subst, fun_ext}
use scalable_non_zero_indica.Node.{Op, arrive, depart, stake, NodeCode, NodeLaws}
use scalable_non_zero_indica.Indicator.{
  quiet, invoke_arrive, invoke_depart, called, Course, stays, starts, refuses, Run, act, answer,
}
use scalable_non_zero_indica.Machine.{
  Site, Frame, Suspended, Task, idle, busy, Thread, System, Event, invoke, access, query, enter,
  advance, frame_op, react, turn, initial, Reach, start, later,
}
use scalable_non_zero_indica.Machine.Books.Access.{enter_op}
use scalable_non_zero_indica.Machine.Books.{units, counter_at, GoodTask, Ready}
use scalable_non_zero_indica.Machine.Shape.{carried, outer_op, ShapedTask}
use scalable_non_zero_indica.Machine.Commit.{advance-Progress, advance-SameOuter, enter_weight}
use scalable_non_zero_indica.Machine.Invariant.{Fits, Inv}
use scalable_non_zero_indica.Machine.Invariant.Bounds.{frame-Ready, counter-lt, units-le-counter}
use scalable_non_zero_indica.Machine.Invariant.Keep.{Reach-Inv}
use scalable_non_zero_indica.Machine.Query.{present, surplus, query_exact}
use scalable_non_zero_indica.Machine.Refines.{
  phase_of, client_of, client, signal, events, not_quiet,
}
use scalable_non_zero_indica.Machine.Refines.Paths.{access_path}

module _ (code : NodeCode) (laws : NodeLaws code) (tree : Site) (n quota : ℕ)
    (fits : Fits tree n quota) where
  open code use {Cell, Pc}

  abbrev pub started : ℕ → Op → Task Pc
  started i op = busy (enter code tree (tree.leaf_for i) op) []

  -- A call that has just started has made no access.
  client-started :
      (i held : ℕ) (op : Op)
      → client_of code tree held (started i op)
        ≡ record { held = held; phase = phase_of op (stake op) }
  client-started i held arrive = ground (
    arith,
    enter_op code laws tree (tree.leaf_for i) arrive,
    enter_weight code laws tree (tree.leaf_for i) arrive,
  )
  client-started i held depart = ground (
    arith,
    enter_op code laws tree (tree.leaf_for i) depart,
    enter_weight code laws tree (tree.leaf_for i) depart,
  )

  carried-started : (i : ℕ) (op : Op) → carried code (started i op) ≡ stake op
  carried-started i op = omega (arith, enter_weight code laws tree (tree.leaf_for i) op)

  arrive_starts :
      (i held k k' : ℕ)
      → k' + (held + 0) ≡ k + (held + nonzero (carried code (started i arrive)))
      → Course quota
          (called arrive)
          k
          (record { held = held; phase = quiet })
          k'
          (client_of code tree held (started i arrive))
  arrive_starts i held k k' e =
      rw (client-started i held arrive)
        (starts invoke_arrive (ground (arith, carried-started i arrive)))

  depart_starts :
      (i held k k' : ℕ)
      → k' + (suc held + 0) ≡ k + (held + nonzero (carried code (started i depart)))
      → Course quota
          (called depart)
          k
          (record { held = suc held; phase = quiet })
          k'
          (client_of code tree held (started i depart))
  depart_starts i held k k' e =
      rw (client-started i held depart)
        (starts invoke_depart (ground (arith, carried-started i depart)))

  -- A client in a call is refused another one.
  busy-refuses :
      (op : Op) (held : ℕ) (f : Frame Pc) (below : List (Suspended Pc))
      → refuses quota op (client_of code tree held (busy f below)) ≡ true
  busy-refuses arrive held f below = rw (not_quiet _ _)
  busy-refuses depart held f below = rw (not_quiet _ _)

  react_path :
      (i : ℕ) (e : Event) (s : System Cell Pc) (held : ℕ) (t : Task Pc) (k k' : ℕ)
      → i < n
      → Inv code tree n quota s
      → s.threads i ≡ record { held = held; task = t }
      → let th' = (react code tree quota i e s.mem held t).1 in
        k' + present code (record { held = held; task = t }) ≡ k + present code th'
        → Course quota (signal e) k (client_of code tree held t) k' (client code tree th')
  unfolding react
  react_path i (invoke arrive) s held idle k k' lt inv same e = elim (Bool-cases (ltb held quota)) [
    | inl free ↦ rw free (arrive_starts i held k k' (rw free at e))
    | inr full ↦ rw full (stays (ground arith) (ground (arith, rw full at e)))
  ]
  react_path i (invoke depart) s zero idle k k' lt inv same e = stays refl (ground arith)
  react_path i (invoke depart) s (suc held) idle k k' lt inv same e = depart_starts i held k k' e
  react_path i (invoke arrive) s held (busy f below) k k' lt inv same e =
      stays (busy-refuses arrive held f below) (ground arith)
  react_path i (invoke depart) s zero (busy f below) k k' lt inv same e =
      stays (busy-refuses depart 0 f below) (ground arith)
  react_path i (invoke depart) s (suc held) (busy f below) k k' lt inv same e =
      stays (busy-refuses depart (suc held) f below) (ground arith)
  react_path i (access b) s held idle k k' lt inv same e = stays refl (ground arith)
  react_path i (access b) s held (busy f below) k k' lt inv same e =
      access_path code laws tree quota (outer_op code tree (busy f below)) (frame_op code tree f)
        held (carried code (busy f below)) (advance code tree b s.mem f below).1 k k'
        (advance-Progress code laws tree b i s.mem f below (outer_op code tree (busy f below)) refl
          good shaped)
        (advance-SameOuter code laws tree b i s.mem f below good ready) e
    where
      good : GoodTask code tree i (busy f below)
      good = subst (λ th. GoodTask code tree i th.task) same (inv.good i)

      shaped : ShapedTask code tree (busy f below)
      shaped = subst (λ th. ShapedTask code tree th.task) same (inv.shaped i)

      ready : Ready code s.mem f
      ready =
          frame-Ready code laws tree n quota fits i held s.mem f below good.0
            (counter-lt code laws tree n quota fits s inv)
            (λ u.
              subst (λ th. units code tree i u th ≤ counter_at code s.mem u) same
                (units-le-counter code laws tree n quota fits s inv i u lt))

  -- Each event takes the abstract client of its thread along a course of the indicator.
  pub turn_path :
      (i : ℕ) (e : Event) (s : System Cell Pc)
      → i < n
      → Inv code tree n quota s
      → let th' = (react code tree quota i e s.mem (s.threads i).held (s.threads i).task).1 in
        Course quota
          (signal e)
          (surplus code n s)
          (client code tree (s.threads i))
          (surplus code n (turn code tree quota i e s))
          (client code tree th')
  unfolding turn
  turn_path i e s lt inv =
      react_path i e s (s.threads i).held (s.threads i).task (surplus code n s)
        (surplus code n (turn code tree quota i e s)) lt inv refl changed
    where
      th' : Thread Pc
      th' = (react code tree quota i e s.mem (s.threads i).held (s.threads i).task).1

      changed :
          surplus code n (turn code tree quota i e s) + present code (s.threads i)
          ≡ surplus code n s + present code th'
      changed = sum-update (present code) n i s.threads th' lt

  clients-turn :
      (i : ℕ) (e : Event) (s : System Cell Pc)
      → let th' = (react code tree quota i e s.mem (s.threads i).held (s.threads i).task).1 in
        update (λ j. client code tree (s.threads j)) i (client code tree th')
        ≡ (λ j. client code tree ((turn code tree quota i e s).threads j))
  unfolding turn
  clients-turn i e s = fun_ext λ j. map-update (client code tree) s.threads i th' j
    where
      th' : Thread Pc
      th' = (react code tree quota i e s.mem (s.threads i).held (s.threads i).task).1

  Reach-Run_states :
      {s : System Cell Pc} (r : Reach code tree n quota s)
      → Run quota n
          (events code tree n quota r)
          (surplus code n s)
          (λ i. client code tree (s.threads i))
  unfolding initial
  Reach-Run_states start =
      subst (λ k. Run quota n [] k (λ _. record { held = 0; phase = quiet })) (sym no_one) Run.start
    where
      no_one : surplus code n (initial code tree) ≡ 0
      no_one = sum-eq-zero n (λ i. present code (record { held = 0; task = idle })) (λ i lt. refl)
  Reach-Run_states (later {s} i e lt r) =
      subst
        (Run quota n ((i, signal e) ∷ events code tree n quota r)
          (surplus code n (turn code tree quota i e s)))
        (clients-turn i e s)
        (act i lt (Reach-Run_states r)
          (turn_path i e s lt (Reach-Inv code laws tree n quota fits r)))

  -- Whatever the interleaving, the tree is in step with a run of the abstract indicator: the
  -- same calls are pending, each with or without its effect, and `Query` answers what the
  -- indicator answers.
  pub Reach-Run :
      {s : System Cell Pc} (r : Reach code tree n quota s)
      → Run quota n
          (events code tree n quota r)
          (surplus code n s)
          (λ i. client code tree (s.threads i))
        × (query s.mem ≡ answer (surplus code n s))
  Reach-Run {s} r =
      (Reach-Run_states r, same (query s.mem) (query_exact code laws tree n quota fits r))
    where
      same : (b : Bool) → (b ≡ true) ↔ (0 < surplus code n s) → b ≡ answer (surplus code n s)
      same b iff = ground arith
