-- ===== src/FullContention/Returns.antt =====
-- A thread of `full_contention_handling_snzi` that runs alone.
use scalable_non_zero_indica.Base.{
  ℕ, zero, suc, ◌+◌, ◌<◌, ◌≡◌, refl, arith, true, false, ◌==◌, List, ap, ◌∙◌, update_self,
  Bool-cases, inl, inr, ◌⊎◌,
}
use mathlib.Core.Path.{subst}
use scalable_non_zero_indica.SemiContention
use scalable_non_zero_indica.SemiContention.{Cell, node_laws}
use scalable_non_zero_indica.SemiContention.Progress.{node_progress}
use scalable_non_zero_indica.Node.{Op}
use scalable_non_zero_indica.Backoff.{backoff}
use scalable_non_zero_indica.Machine.{
  Site, Memory, Frame, Suspended, Task, idle, busy, access, advance, frame_op,
}
use scalable_non_zero_indica.Machine.Books.{GoodTask}
use scalable_non_zero_indica.Machine.Alone.{Alone, stop, next, finish_task}
use scalable_non_zero_indica.Machine.Invariant.{Fits}
use scalable_non_zero_indica.Machine.Invariant.Keep.{Reach-Inv}
use scalable_non_zero_indica.FullContention.{
  ContentionStatus, Pc, direct_load, direct_exchange, arrive_directly, node_code,
}
use scalable_non_zero_indica.FullContention.System.{
  Activity, resting, arriving_directly, departing_directly, in_tree, FullSystem, after_direct,
  after_tree, visit, full_turn, FullReach,
}
use scalable_non_zero_indica.FullContention.Halves.{double, tree_side, advance-double}
use scalable_non_zero_indica.FullContention.Simulate.{FullReach-halves, at_first}

-- The next `k` accesses are those of thread `i`.
abbrev pub full_alone_for : Site → ℕ → ℕ → FullSystem → FullSystem
full_alone_for tree i zero s = s
full_alone_for tree i (suc k) s = full_alone_for tree i k (full_turn tree 1 i (access false) s)

abbrev pub Rests : Site → ℕ → ℕ → FullSystem → Type 0
Rests tree i k s = ((full_alone_for tree i k s).visitors i).activity ≡ resting

-- A task of the tree, as an activity
abbrev activity_of : Task SemiContention.Pc → Activity
activity_of idle = resting
activity_of (busy f below) = in_tree f below

module _ (tree : Site) (i : ℕ) where
  pub turn_activity :
      (s : FullSystem)
      → let v = s.visitors i in
        let after = visit tree 1 i (access false) s.mem v.held v.activity v.cont in
        let s' = full_turn tree 1 i (access false) s in
        (s'.mem ≡ after.0) × ((s'.visitors i).activity ≡ after.1.activity)
  unfolding full_turn
  turn_activity s = (refl, ap (λ v. v.activity) (update_self s.visitors i _))

  after_tree_activity :
      (held : ℕ) (cont : ContentionStatus) (op : Op) (t : Task SemiContention.Pc)
      → (after_tree held cont op t).activity ≡ activity_of t
  unfolding after_tree
  after_tree_activity held cont op idle = refl
  after_tree_activity held cont op (busy f below) = refl

  tree_access :
      (n : ℕ) (m : Memory Cell) (held : ℕ) (act : Activity) (cont : ContentionStatus)
      (f : Frame SemiContention.Pc) (below : List (Suspended SemiContention.Pc))
      → act ≡ in_tree f below
      → let after = visit tree 1 i (access false) m held act cont in
        let moved = advance node_code (double n tree) false m f below in
        (after.0 ≡ moved.0) × (after.1.activity ≡ activity_of moved.1)
  unfolding visit
  tree_access n m held act cont f below e =
      rw (e, advance-double n tree false m f below)
        (refl, after_tree_activity held cont (frame_op node_code tree f) _)

  full_replay :
      (n : ℕ) {m m' : Memory Cell} {t : Task SemiContention.Pc} (s : FullSystem)
      → Alone node_code (double n tree) m t m' idle
      → s.mem ≡ m
      → (s.visitors i).activity ≡ activity_of t
      → (k : ℕ) × Rests tree i k s
  full_replay n s stop em et = (0, et)
  full_replay n s (next f below rest) em et =
      let v = s.visitors i in
      let (mem_after, act_after) = turn_activity s in
      let (mem_moved, act_moved) = tree_access n s.mem v.held v.activity v.cont f below et in
      let (k, done) =
        full_replay n (full_turn tree 1 i (access false) s) rest
          (mem_after
            ∙ mem_moved
            ∙ ap (λ m. (advance node_code (double n tree) false m f below).0) em)
          (act_after
            ∙ act_moved
            ∙ ap (λ m. activity_of (advance node_code (double n tree) false m f below).1) em) in
      (suc k, done)

  -- Direct calls: a departure returns at its access, and an arrival at the first compare-exchange
  -- that has the counter at hand.
  departing_access :
      (m : Memory Cell) (held : ℕ) (act : Activity) (cont : ContentionStatus)
      → act ≡ departing_directly
      → (visit tree 1 i (access false) m held act cont).1.activity ≡ resting
  unfolding visit
  departing_access m held act cont e = rw e refl

  arriving_access :
      (m : Memory Cell) (held : ℕ) (act : Activity) (cont : ContentionStatus) (oldx f tries : ℕ)
      → act ≡ arriving_directly (direct_exchange oldx f tries)
      → m.root ≡ oldx
      → (visit tree 1 i (access false) m held act cont).1.activity ≡ resting
  unfolding visit after_direct arrive_directly
  arriving_access m held act cont oldx f tries e here =
      let at_hand : (m.root == oldx) ≡ true = ground arith in rw (e, at_hand) refl

  Reloads : Memory Cell → Memory Cell → Activity → Type 0
  Reloads m m' act =
      (m' ≡ m) × (f : ℕ) × (tries : ℕ) × (act ≡ arriving_directly (direct_exchange m.root f tries))

  first_access :
      (m : Memory Cell) (held : ℕ) (act : Activity) (cont : ContentionStatus) (pc : Pc)
      → act ≡ arriving_directly pc
      → let after = visit tree 1 i (access false) m held act cont in
        (after.1.activity ≡ resting) ⊎ Reloads m after.0 after.1.activity
  unfolding visit after_direct arrive_directly Reloads
  first_access m held act cont direct_load e = rw e (inr (refl, 0, 1, refl))
  first_access m held act cont (direct_exchange oldx f tries) e =
      elim (Bool-cases (m.root == oldx)) [
        | inl here ↦ rw (e, here) (inl refl)
        | inr elsewhere ↦ rw (e, elsewhere) (inr (refl, f + 1, (backoff tries).1, refl))
      ]

  arrives :
      (s : FullSystem) (pc : Pc)
      → (s.visitors i).activity ≡ arriving_directly pc
      → (k : ℕ) × Rests tree i k s
  unfolding Reloads
  arrives s pc e =
      let v = s.visitors i in
      let (mem_after, act_after) = turn_activity s in
      elim (first_access s.mem v.held v.activity v.cont pc e) [
        | inl done ↦ (1, act_after ∙ done)
        | inr (same, f, tries, p) ↦
            let s' = full_turn tree 1 i (access false) s in
            let w = s'.visitors i in
            (
              2,
              (turn_activity s').1
                  ∙ arriving_access s'.mem w.held w.activity w.cont s.mem.root f tries
                      (act_after ∙ p) (ap (λ m. m.root) (mem_after ∙ same)),
            )
      ]

module _ (n : ℕ) (tree : Site) (fits : Fits (double n tree) (n + n) 1) where
  activity_returns :
      (s : FullSystem) (i : ℕ) (act : Activity)
      → i < n
      → FullReach tree n 1 s
      → (s.visitors i).activity ≡ act
      → (k : ℕ) × Rests tree i k s
  activity_returns s i resting lt r e = (0, e)
  activity_returns s i (arriving_directly pc) lt r e = arrives tree i s pc e
  activity_returns s i departing_directly lt r e =
      let v = s.visitors i in
      (1, (turn_activity tree i s).1 ∙ departing_access tree i s.mem v.held v.activity v.cont e)
  activity_returns s i (in_tree f below) lt r e =
      let v = s.visitors i in
      let inv =
        Reach-Inv node_code node_laws (double n tree) (n + n) 1 fits
          (FullReach-halves n tree r).1 in
      let good =
        subst (GoodTask node_code (double n tree) i)
          (ap (λ th. th.task) (at_first n tree s i lt)
            ∙ ap (λ act. (tree_side v.held act v.cont).task) e)
          (inv.good i) in
      let (m', run) =
        finish_task node_code node_progress (double n tree) fits.upward i (busy f below) s.mem
          good in
      full_replay tree i n s run refl e

  pub full_returns :
      {s : FullSystem} → FullReach tree n 1 s → (i : ℕ) → i < n → (k : ℕ) × Rests tree i k s
  full_returns {s} r i lt = activity_returns s i (s.visitors i).activity lt r refl
