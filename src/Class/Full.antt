-- ===== src/Class/Full.antt =====
-- The class full_contention_handling_snzi, by the interface of Class.
pub mod Progress
use scalable_non_zero_indica.Base.{
  ℕ, zero, suc, ◌+◌, ◌<◌, ◌≡◌, ◌⊎◌, inl, inr, refl, arith, Bool, true, false, ltb, List, sym, ap,
  ◌∙◌,
}
use mathlib.Core.Path.{subst, ap₂}
use scalable_non_zero_indica.Node.{Op, arrive, depart, stake, yield}
use scalable_non_zero_indica.SemiContention
use scalable_non_zero_indica.SemiContention.{Cell, node_laws}
use scalable_non_zero_indica.Indicator.{is_quiet, Client, arriving, departing}
use scalable_non_zero_indica.Machine.{
  Site, Memory, Frame, Suspended, Task, idle, busy, invoke, access, query, advance, frame_op,
  settle,
}
use scalable_non_zero_indica.Machine.Books.{counter_at}
use scalable_non_zero_indica.Machine.Shape.{outer}
use scalable_non_zero_indica.Machine.Commit.{SameOuter, advance-SameOuter}
use scalable_non_zero_indica.Machine.Invariant.{Fits}
use scalable_non_zero_indica.Machine.Invariant.Keep.{Reach-Inv}
use scalable_non_zero_indica.Machine.Refines.{client, not_quiet}
use scalable_non_zero_indica.Machine.Clean.{no_surplus_clean}
use scalable_non_zero_indica.FullContention.{
  ContentionStatus, fresh_status, Outcome, retries, arrived, arrive_directly, Route, directly,
  through_tree, arrive_route, depart_route, node_code,
}
use scalable_non_zero_indica.FullContention.System.{
  Activity, resting, arriving_directly, departing_directly, in_tree, Visitor, FullSystem,
  start_call, after_direct, after_tree, visit, full_turn, full_initial, FullReach,
}
use scalable_non_zero_indica.FullContention.Halves.{
  double, tree_side, split, visitor_client, advance-double, frame_op-double, client-double,
}
use scalable_non_zero_indica.FullContention.Simulate.{FullReach-halves, at_first}
use scalable_non_zero_indica.FullContention.Courses.{
  full_surplus, surplus-split, FullReach-Run, full_query,
}
use scalable_non_zero_indica.Class.{SnziClass, ClassReach, SnziLaws, Calling, InPhase, at_rest}
use scalable_non_zero_indica.Class.Nodes.{
  InPhase-unique, InPhase-quiet, enter-Calling, Reach-Ready, settled,
}

abbrev pub no_call : Activity → Bool
no_call resting = true
no_call (arriving_directly pc) = false
no_call departing_directly = false
no_call (in_tree f below) = false

abbrev pub full_class : SnziClass
full_class = record {
  Shared = Memory Cell;
  Thread = Visitor;
  fresh = record { root = 0; cells = λ _. node_code.fresh };
  newcomer = record { held = 0; activity = resting; cont = fresh_status };
  react = λ tree i e m v. visit tree 1 i e m v.held v.activity v.cont;
  is_idle = λ v. no_call v.activity;
  query = query;
  counter = counter_at node_code;
}

pub ClassReach-FullReach :
    {tree : Site} {n : ℕ} {m : Memory Cell} {threads : ℕ → Visitor}
    → ClassReach full_class tree n m threads
    → FullReach tree n 1 (record { mem = m; visitors = threads })
unfolding full_turn full_initial
ClassReach-FullReach ClassReach.start = FullReach.start
ClassReach-FullReach (ClassReach.later i e lt r) = FullReach.later i e lt (ClassReach-FullReach r)

module _ (tree : Site) (n : ℕ) (fits : Fits (double n tree) (n + n) 1) where
  idle_quiet :
      (held : ℕ) (act : Activity) → no_call act ≡ is_quiet (visitor_client tree held act).phase
  idle_quiet held resting = refl
  idle_quiet held (arriving_directly pc) = refl
  idle_quiet held departing_directly = refl
  idle_quiet held (in_tree f below) = sym (not_quiet _ _)

  abbrev seen : Visitor → Client
  seen v = visitor_client tree v.held v.activity

  started :
      (op : Op) (route : Route) (i held : ℕ)
      → held ≡ 0
      → Calling op (visitor_client tree held (start_call tree i op route))
  unfolding start_call
  started op through_tree i held none_held =
      enter-Calling node_code node_laws tree (tree.leaf_for i) held op none_held
  started arrive directly i held none_held = (none_held, tt)
  started depart directly i held none_held = (none_held, tt)

  invoked :
      (op : Op) (i : ℕ) (m : Memory Cell) (held : ℕ) (act : Activity) (cont : ContentionStatus)
      → visitor_client tree held act ≡ at_rest (stake op)
      → Calling op (seen (visit tree 1 i (invoke op) m held act cont).1)
  unfolding visit
  invoked arrive i m held resting cont e =
      let none_held : held ≡ 0 = ap (λ k. k.held) e in
      let free : ltb held 1 ≡ true = ground arith in
      rw free (started arrive (arrive_route cont) i held none_held)
  invoked depart i m zero resting cont e =
      let one_held : ◌≡◌ {A = ℕ} 0 1 = ap (λ k. k.held) e in absurd (omega arith)
  invoked depart i m (suc held) resting cont e =
      let one_held : suc held ≡ 1 = ap (λ k. k.held) e in
      started depart (depart_route cont) i held (omega arith)
  invoked op i m held (arriving_directly pc) cont e =
      let calls : false ≡ true = ap (λ k. is_quiet k.phase) e in absurd (ground arith)
  invoked op i m held departing_directly cont e =
      let calls : false ≡ true = ap (λ k. is_quiet k.phase) e in absurd (ground arith)
  invoked op i m held (in_tree f below) cont e =
      let calls : false ≡ true = sym (not_quiet _ _) ∙ ap (λ k. is_quiet k.phase) e in
      absurd (ground arith)

  -- A task of the tree, as the visitor has it and as its half does.
  after_tree-seen :
      (held : ℕ) (cont : ContentionStatus) (op : Op) (t : Task SemiContention.Pc)
      → client node_code (double n tree) (settle node_code (double n tree) held op t)
        ≡ seen (after_tree held cont op t)
  unfolding after_tree settle
  after_tree-seen held cont op idle = refl
  after_tree-seen held cont op (busy f below) = client-double n tree held f below

  tree_goes_on :
      (op : Op) (b : Bool) (i : ℕ) (s : FullSystem) (held : ℕ) (cont : ContentionStatus)
      (f : Frame SemiContention.Pc) (below : List (Suspended SemiContention.Pc))
      → i < n
      → FullReach tree n 1 s
      → (s.visitors i).activity ≡ in_tree f below
      → Calling op (visitor_client tree held (in_tree f below))
      → let v' =
          after_tree held cont
            (frame_op node_code tree f)
            (advance node_code tree b s.mem f below).1 in
        Calling op (seen v') ⊎ (seen v' ≡ at_rest (yield op))
  tree_goes_on op b i s held cont f below lt r e (none_held, within) =
      let inv =
        Reach-Inv node_code node_laws (double n tree) (n + n) 1 fits
          (FullReach-halves n tree r).1 in
      let v = s.visitors i in
      let here =
        ap (λ th. th.task) (at_first n tree s i lt)
        ∙ ap (λ act. (tree_side v.held act v.cont).task) e in
      let (good, ready) =
        Reach-Ready node_code node_laws (double n tree) (n + n) fits i (split n s) f below
          (omega arith) inv here in
      let o = outer node_code (frame_op node_code (double n tree) f) below in
      let same_op : o ≡ op =
        ap (λ q. outer node_code q below) (frame_op-double n tree f)
        ∙ InPhase-unique op (outer node_code (frame_op node_code tree f) below) _ within in
      let next =
        settled node_code node_laws (double n tree) (n + n) fits op
          (frame_op node_code (double n tree) f) held _ none_held
          (subst
            (λ q.
              SameOuter node_code (double n tree) q (frame_op node_code (double n tree) f)
                (advance node_code (double n tree) b s.mem f below).1)
            same_op
            (advance-SameOuter node_code node_laws (double n tree) b i s.mem f below good ready)) in
      subst (λ k. Calling op k ⊎ (k ≡ at_rest (yield op)))
        (ap₂ (λ a q. client node_code (double n tree) (settle node_code (double n tree) held q a.1))
            (advance-double n tree b s.mem f below) (frame_op-double n tree f)
          ∙ after_tree-seen held cont (frame_op node_code tree f) _)
        next

  direct_goes_on :
      (op : Op) (m : Memory Cell) (held : ℕ) (cont : ContentionStatus) (o : Outcome)
      → held ≡ 0
      → InPhase op (arriving false)
      → let v' = (after_direct m held cont o).1 in
        Calling op (seen v') ⊎ (seen v' ≡ at_rest (yield op))
  unfolding after_direct
  direct_goes_on op m held cont (retries x pc) none_held within = inl (none_held, within)
  direct_goes_on arrive m held cont (arrived x cont') none_held within =
      let one_held : held + 1 ≡ 1 = omega arith in inr (ap at_rest one_held)
  direct_goes_on depart m held cont (arrived x cont') none_held within = absurd within

  departed :
      (op : Op) (held : ℕ)
      → held ≡ 0
      → InPhase op (departing false)
      → Calling op (at_rest held) ⊎ (at_rest held ≡ at_rest (yield op))
  departed arrive held none_held within = absurd within
  departed depart held none_held within = inr (ap at_rest none_held)

  call_goes_on :
      (op : Op) (b : Bool) (i : ℕ) (s : FullSystem) (act : Activity)
      → i < n
      → FullReach tree n 1 s
      → (s.visitors i).activity ≡ act
      → let v = s.visitors i in
        Calling op (visitor_client tree v.held act)
        → let v' = (visit tree 1 i (access b) s.mem v.held act v.cont).1 in
          Calling op (seen v') ⊎ (seen v' ≡ at_rest (yield op))
  unfolding visit
  call_goes_on op b i s resting lt r e (none_held, within) = absurd (InPhase-quiet op within)
  call_goes_on op b i s (arriving_directly pc) lt r e (none_held, within) =
      let v = s.visitors i in
      direct_goes_on op s.mem v.held v.cont (arrive_directly b s.mem.root v.cont pc) none_held
        within
  call_goes_on op b i s departing_directly lt r e (none_held, within) =
      departed op (s.visitors i).held none_held within
  call_goes_on op b i s (in_tree f below) lt r e calls =
      let v = s.visitors i in tree_goes_on op b i s v.held v.cont f below lt r e calls

  pub full_class-laws : SnziLaws full_class tree n
  full_class-laws = record {
    client = seen;
    surplus = λ threads. full_surplus n (record { mem = full_class.fresh; visitors = threads });
    newcomer_rests = refl;
    idle_quiet = λ v. idle_quiet v.held v.activity;
    runs = λ {m} {threads} r. (
      _,
      FullReach-Run n tree fits (ClassReach-FullReach r),
      full_query n tree fits (ClassReach-FullReach r),
    );
    invoked = λ op i m v e. invoked op i m v.held v.activity v.cont e;
    goes_on = λ op b i {m} {threads} lt r calls.
        call_goes_on op b i (record { mem = m; visitors = threads }) (threads i).activity lt
          (ClassReach-FullReach r) refl calls;
    clean = λ {m} {threads} r none u lt.
        no_surplus_clean node_code node_laws (double n tree) (n + n) 1 fits
          (FullReach-halves n tree (ClassReach-FullReach r)).1
          (surplus-split n (record { mem = m; visitors = threads }) ∙ none) u lt;
  }
