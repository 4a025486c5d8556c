-- ===== src/Class/Nodes.antt =====
-- The classes whose threads all start at a leaf: no_contention_handling_snzi and
-- semi_contention_handling_snzi, by the code of their `struct node`.
pub mod Progress
use scalable_non_zero_indica.Base.{
  ℕ, zero, suc, ◌+◌, ◌<◌, ◌≤◌, ◌≡◌, ◌⊎◌, inl, inr, refl, arith, Bool, true, false, ltb, List, [],
  sym, ap, ◌∙◌,
}
use mathlib.Core.Path.{subst}
use scalable_non_zero_indica.Node.{Op, arrive, depart, stake, yield, NodeCode, NodeLaws}
use scalable_non_zero_indica.Indicator.{quiet, is_quiet}
use scalable_non_zero_indica.Machine
use scalable_non_zero_indica.Machine.{
  Site, Memory, Frame, Suspended, Task, idle, busy, System, Event, invoke, access, query, enter,
  advance, frame_op, settle, react, turn, initial, Reach,
}
use scalable_non_zero_indica.Machine.Books.{counter_at, units, GoodTask, Ready}
use scalable_non_zero_indica.Machine.Books.Access.{enter_op}
use scalable_non_zero_indica.Machine.Shape.{outer, carried}
use scalable_non_zero_indica.Machine.Commit.{SameOuter, advance-SameOuter}
use scalable_non_zero_indica.Machine.Invariant.{Fits, Inv}
use scalable_non_zero_indica.Machine.Invariant.Bounds.{frame-Ready, counter-lt, units-le-counter}
use scalable_non_zero_indica.Machine.Invariant.Keep.{Reach-Inv}
use scalable_non_zero_indica.Machine.Query.{surplus}
use scalable_non_zero_indica.Machine.Refines.{client, client_of, phase_of, not_quiet}
use scalable_non_zero_indica.Machine.Refines.Simulation.{Reach-Run}
use scalable_non_zero_indica.Machine.Clean.{no_surplus_clean}
use scalable_non_zero_indica.Class.{SnziClass, ClassReach, SnziLaws, Calling, InPhase, at_rest}

module _ (code : NodeCode) where
  open code use {Cell, Pc}

  abbrev pub no_task : Task Pc → Bool
  no_task idle = true
  no_task (busy f below) = false

  abbrev pub node_class : SnziClass
  node_class = record {
    Shared = Memory Cell;
    Thread = Machine.Thread Pc;
    fresh = record { root = 0; cells = λ _. code.fresh };
    newcomer = record { held = 0; task = idle };
    react = λ tree i e m th. react code tree 1 i e m th.held th.task;
    is_idle = λ th. no_task th.task;
    query = query;
    counter = counter_at code;
  }

  pub ClassReach-Reach :
      {tree : Site} {n : ℕ} {m : Memory Cell} {threads : ℕ → Machine.Thread Pc}
      → ClassReach node_class tree n m threads
      → Reach code tree n 1 (record { mem = m; threads = threads })
  unfolding turn initial
  ClassReach-Reach ClassReach.start = Reach.start
  ClassReach-Reach (ClassReach.later i e lt r) = Reach.later i e lt (ClassReach-Reach r)

-- A call is of the operation that its outermost frame is of.
phase-InPhase : (op : Op) (c : ℕ) → InPhase op (phase_of op c)
phase-InPhase arrive zero = tt
phase-InPhase arrive (suc c) = tt
phase-InPhase depart zero = tt
phase-InPhase depart (suc c) = tt

pub InPhase-unique : (op o : Op) (c : ℕ) → InPhase op (phase_of o c) → o ≡ op
InPhase-unique arrive arrive c h = refl
InPhase-unique arrive depart zero h = absurd h
InPhase-unique arrive depart (suc c) h = absurd h
InPhase-unique depart arrive zero h = absurd h
InPhase-unique depart arrive (suc c) h = absurd h
InPhase-unique depart depart c h = refl

pub InPhase-quiet : (op : Op) → InPhase op quiet → ⊥
InPhase-quiet arrive h = h
InPhase-quiet depart h = h

-- A call of the tree that has just started
pub enter-Calling :
    (code : NodeCode) (laws : NodeLaws code) (tree : Site) (v held : ℕ) (op : Op)
    → held ≡ 0
    → Calling op (client_of code tree held (busy (enter code tree v op) []))
enter-Calling code laws tree v held op none_held =
    let c = carried code (busy (enter code tree v op) []) in
    (
      none_held,
      subst (λ o. InPhase op (phase_of o c)) (sym (enter_op code laws tree v op))
          (phase-InPhase op c),
    )

module _ (code : NodeCode) (laws : NodeLaws code) (tree : Site) (n : ℕ) (fits : Fits tree n 1) where
  open code use {Cell, Pc}

  idle_quiet :
      (held : ℕ) (t : Task Pc) → no_task code t ≡ is_quiet (client_of code tree held t).phase
  idle_quiet held idle = refl
  idle_quiet held (busy f below) = sym (not_quiet _ _)

  invoked :
      (op : Op) (i : ℕ) (m : Memory Cell) (held : ℕ) (t : Task Pc)
      → client_of code tree held t ≡ at_rest (stake op)
      → Calling op (client code tree (react code tree 1 i (invoke op) m held t).1)
  unfolding react
  invoked op i m held (busy f below) e =
      let calls : false ≡ true = sym (not_quiet _ _) ∙ ap (λ k. is_quiet k.phase) e in
      absurd (ground arith)
  invoked arrive i m held idle e =
      let none_held : held ≡ 0 = ap (λ k. k.held) e in
      let free : ltb held 1 ≡ true = ground arith in
      rw free (enter-Calling code laws tree (tree.leaf_for i) held arrive none_held)
  invoked depart i m zero idle e =
      let one_held : ◌≡◌ {A = ℕ} 0 1 = ap (λ k. k.held) e in absurd (omega arith)
  invoked depart i m (suc held) idle e =
      let one_held : suc held ≡ 1 = ap (λ k. k.held) e in
      enter-Calling code laws tree (tree.leaf_for i) held depart (omega arith)

  -- Where the outermost operation is `op`, a call goes on with it or returns what it yields.
  pub settled :
      (op o : Op) (held : ℕ) (t : Task Pc)
      → held ≡ 0
      → SameOuter code tree op o t
      → Calling op (client code tree (settle code tree held o t))
        ⊎ (client code tree (settle code tree held o t) ≡ at_rest (yield op))
  unfolding settle
  settled op o held idle none_held same =
      let yields : held + yield o ≡ yield op = omega (arith, none_held, ap yield same) in
      inr (ap at_rest yields)
  settled op o held (busy f below) none_held same = inl (
    none_held,
    subst (λ p. InPhase op (phase_of p (carried code (busy f below)))) (sym same)
        (phase-InPhase op (carried code (busy f below))),
  )

  pub Reach-Ready :
      (i : ℕ) (s : System Cell Pc) (f : Frame Pc) (below : List (Suspended Pc))
      → i < n
      → Inv code tree n 1 s
      → (s.threads i).task ≡ busy f below
      → GoodTask code tree i (busy f below) × Ready code s.mem f
  Reach-Ready i s f below lt inv e =
      let good = subst (GoodTask code tree i) e (inv.good i) in
      (
        good,
        frame-Ready code laws tree n 1 fits i (s.threads i).held s.mem f below good.0
            (counter-lt code laws tree n 1 fits s inv)
            (λ u.
              subst
                (λ t.
                  units code tree i u (record { held = (s.threads i).held; task = t })
                  ≤ counter_at code s.mem u)
                e (units-le-counter code laws tree n 1 fits s inv i u lt)),
      )

  call_goes_on :
      (op : Op) (b : Bool) (i : ℕ) (s : System Cell Pc) (t : Task Pc)
      → i < n
      → Inv code tree n 1 s
      → (s.threads i).task ≡ t
      → Calling op (client_of code tree (s.threads i).held t)
      → let th' = (react code tree 1 i (access b) s.mem (s.threads i).held t).1 in
        Calling op (client code tree th') ⊎ (client code tree th' ≡ at_rest (yield op))
  unfolding react
  call_goes_on op b i s idle lt inv e (none_held, within) = absurd (InPhase-quiet op within)
  call_goes_on op b i s (busy f below) lt inv e (none_held, within) =
      let (good, ready) = Reach-Ready i s f below lt inv e in
      settled op (frame_op code tree f) (s.threads i).held _ none_held (
        subst
          (λ o. SameOuter code tree o (frame_op code tree f) (advance code tree b s.mem f below).1)
          (InPhase-unique op (outer code (frame_op code tree f) below) _ within)
          (advance-SameOuter code laws tree b i s.mem f below good ready))

  pub node_class-laws : SnziLaws (node_class code) tree n
  node_class-laws = record {
    client = client code tree;
    surplus =
        λ threads. surplus code n (record { mem = (node_class code).fresh; threads = threads });
    newcomer_rests = refl;
    idle_quiet = λ th. idle_quiet th.held th.task;
    runs = λ {m} {threads} r.
        let (run, answers) = Reach-Run code laws tree n 1 fits (ClassReach-Reach code r) in
        (_, run, answers);
    invoked = λ op i m th e. invoked op i m th.held th.task e;
    goes_on = λ op b i {m} {threads} lt r calls.
        call_goes_on op b i (record { mem = m; threads = threads }) (threads i).task lt
          (Reach-Inv code laws tree n 1 fits (ClassReach-Reach code r)) refl calls;
    clean = λ {m} {threads} r none u lt.
        no_surplus_clean code laws tree n 1 fits (ClassReach-Reach code r) none u lt;
  }
