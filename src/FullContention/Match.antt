-- ===== src/FullContention/Match.antt =====
-- An event of a thread of `full_contention_handling_snzi`, as an event of one of its two halves.
pub mod Invoke
pub mod Access
pub mod Visit
use scalable_non_zero_indica.Base.{
  ℕ, zero, suc, ◌+◌, ◌≤◌, ◌<◌, ◌≡◌, refl, arith, Bool, true, false, List, [], leb, ◌==◌, ◌&&◌, not,
  sym, ap, ◌∙◌, add64, Bool-cases, inl, inr,
}
use mathlib.Core.Path.{subst, ap₂}
use scalable_non_zero_indica.Node.{Op, arrive, depart}
use scalable_non_zero_indica.SemiContention
use scalable_non_zero_indica.SemiContention.{Cell}
use scalable_non_zero_indica.Machine.{
  Site, Memory, Frame, in_root, Suspended, Task, idle, busy, Thread, Event, invoke, access,
  root_access, enter, advance, resume, settle, react, frame_op,
}
use scalable_non_zero_indica.Machine.Refines.{client, signal}
use scalable_non_zero_indica.Indicator.{may_stay}
use scalable_non_zero_indica.FullContention.{
  ContentionStatus, Pc, direct_load, direct_exchange, note_failures, arrive_directly, turn_to_tree,
  depart_directly, arrive_route, depart_route, node_code,
}
use scalable_non_zero_indica.FullContention.System.{
  Activity, resting, arriving_directly, departing_directly, in_tree, Visitor, start_call,
  after_direct, after_tree, visit,
}
use scalable_non_zero_indica.FullContention.Halves.{
  double, tree_thread, root_thread, Agrees, visitor_client, advance-double, frame_op-double,
  after_tree-sides, client-double,
}

module _ (n : ℕ) (tree : Site) where
  abbrev pub Sees : Visitor → Thread SemiContention.Pc → Type 0
  Sees v th = client node_code (double n tree) th ≡ visitor_client tree v.held v.activity

  -- What an event `e` of thread `i` comes to: nothing, where the indicator allows that, or the same event
  -- of its first half, or of its second.
  pub data Matched (i : ℕ) (e : Event) (m : Memory Cell) (v : Visitor) (m' : Memory Cell)
      (v' : Visitor) : Type 0 where
    still :
        may_stay 1 (signal e) (visitor_client tree v.held v.activity) ≡ true
        → m' ≡ m
        → tree_thread v' ≡ tree_thread v
        → root_thread v' ≡ root_thread v
        → visitor_client tree v'.held v'.activity ≡ visitor_client tree v.held v.activity
        → Matched i e m v m' v'
    by_tree :
        react node_code (double n tree) 1 i e m (tree_thread v).held (tree_thread v).task
          ≡ (m', tree_thread v')
        → root_thread v' ≡ root_thread v
        → Sees v (tree_thread v)
        → Sees v' (tree_thread v')
        → Matched i e m v m' v'
    by_root :
        react node_code (double n tree) 1 (n + i) e m (root_thread v).held (root_thread v).task
          ≡ (m', root_thread v')
        → tree_thread v' ≡ tree_thread v
        → Sees v (root_thread v)
        → Sees v' (root_thread v')
        → Matched i e m v m' v'

  abbrev pub flags : Bool → Bool → ContentionStatus
  flags b t = record { use_snzi_in_arrive = b; use_snzi_in_depart = b; use_snzi_tree_flag = t }

  abbrev pub MatchedVisit : ℕ → Event → Memory Cell → ℕ → Activity → ContentionStatus → Type 0
  MatchedVisit i e m held act cont =
      let after = visit tree 1 i e m held act cont in
      Matched i e m (record { held = held; activity = act; cont = cont }) after.0 after.1
