-- ===== src/FullContention/Load.antt =====
-- How many accesses are left in a call of `full_contention_handling_snzi`, direct or in the tree.
use scalable_non_zero_indica.Base.{
  ℕ, ◌+◌, ◌*◌, ◌≤◌, ◌<◌, ◌≡◌, ◌⊎◌, inl, inr, refl, arith, true, false, ◌==◌, List, Bool-cases,
  if◌then◌else◌, ap,
}
use scalable_non_zero_indica.Node.{Op}
use scalable_non_zero_indica.SemiContention
use scalable_non_zero_indica.SemiContention.{Cell, node_laws}
use scalable_non_zero_indica.SemiContention.Progress.{node_progress}
use scalable_non_zero_indica.SemiContention.Costs.{node_cost}
use scalable_non_zero_indica.Machine.{
  Site, Memory, Frame, Suspended, Task, idle, busy, access, advance, frame_op,
}
use scalable_non_zero_indica.Machine.Books.{GoodFrame}
use scalable_non_zero_indica.Machine.Load.{load, load-busy, any_load, advance-Lowers}
use scalable_non_zero_indica.FullContention.{
  ContentionStatus, Pc, direct_load, direct_exchange, arrive_directly, depart_directly, node_code,
}
use scalable_non_zero_indica.FullContention.System.{
  Activity, resting, arriving_directly, departing_directly, in_tree, after_direct, after_tree,
  visit,
}

-- A compare-exchange that has the root's counter at hand comes before one that has not.
abbrev pub direct_rank : ℕ → Pc → ℕ
direct_rank x direct_load = 2
direct_rank x (direct_exchange oldx f tries) = if x == oldx then 1 else 2

direct_rank_bounds : (x : ℕ) (pc : Pc) → (1 ≤ direct_rank x pc) × (direct_rank x pc ≤ 2)
direct_rank_bounds x direct_load = ground arith
direct_rank_bounds x (direct_exchange oldx f tries) = ground arith

module _ (n : ℕ) where
  -- What another thread's change of a counter adds to a load at most, and what it is worth.
  abbrev pub rise : ℕ
  rise = node_cost.highest + 1

  abbrev pub price : ℕ
  price = n * rise

  abbrev pub task_load : Memory Cell → Task SemiContention.Pc → ℕ
  task_load = load node_code node_progress node_cost price

  abbrev pub activity_load : Memory Cell → Activity → ℕ
  activity_load m resting = 0
  activity_load m (arriving_directly pc) = 1 + price + direct_rank m.root pc
  activity_load m departing_directly = 1 + price
  activity_load m (in_tree f below) = task_load m (busy f below)

  abbrev pub Drops : Memory Cell → Activity → Memory Cell → Activity → Type 0
  Drops m act m' act' =
      (activity_load m' act' + 1 ≤ activity_load m act)
        × ((u : Activity) → activity_load m' u ≤ activity_load m u)
      ⊎ (activity_load m' act' + price + 1 ≤ activity_load m act)
        × ((u : Activity) → activity_load m' u ≤ activity_load m u + rise)

  pub any_activity :
      (m m' : Memory Cell) (u : Activity) → activity_load m' u ≤ activity_load m u + rise
  any_activity m m' resting = omega arith
  any_activity m m' (arriving_directly pc) =
      omega (arith, direct_rank_bounds m.root pc, direct_rank_bounds m'.root pc)
  any_activity m m' departing_directly = omega arith
  any_activity m m' (in_tree f below) =
      omega (arith, any_load node_code node_progress node_cost price m m' (busy f below))

  same_activity :
      (m m' : Memory Cell)
      → m'.root ≡ m.root
      → ((t : Task SemiContention.Pc) → task_load m' t ≤ task_load m t)
      → (u : Activity) → activity_load m' u ≤ activity_load m u
  same_activity m m' root tasks resting = omega arith
  same_activity m m' root tasks (arriving_directly pc) =
      omega (arith, ap (λ x. direct_rank x pc) root)
  same_activity m m' root tasks departing_directly = omega arith
  same_activity m m' root tasks (in_tree f below) = tasks (busy f below)

  after_tree_load :
      (m : Memory Cell) (held : ℕ) (cont : ContentionStatus) (op : Op) (t : Task SemiContention.Pc)
      → activity_load m (after_tree held cont op t).activity ≡ task_load m t
  unfolding after_tree
  after_tree_load m held cont op idle = refl
  after_tree_load m held cont op (busy f below) = refl

  module _ (tree : Site) (upward : (v : ℕ) → 0 < v → v < tree.total_nodes → tree.parent v < v)
      (i : ℕ) where
    pub arriving-Drops :
        (m : Memory Cell) (held : ℕ) (cont : ContentionStatus) (pc : Pc)
        → let after = visit tree 1 i (access false) m held (arriving_directly pc) cont in
          Drops m (arriving_directly pc) after.0 after.1.activity
    unfolding visit after_direct arrive_directly
    arriving-Drops m held cont direct_load =
        let fresh : (m.root == m.root) ≡ true = ground arith in
        inl (rw fresh (omega arith), λ u. omega arith)
    arriving-Drops m held cont (direct_exchange oldx f tries) =
        let fresh : (m.root == m.root) ≡ true = ground arith in
        elim (Bool-cases (m.root == oldx)) [
          | inl here ↦ rw here (inr (omega arith, λ u. any_activity m _ u))
          | inr stale ↦ rw stale (inl (rw fresh (omega arith), λ u. omega arith))
        ]

    pub tree-Drops :
        (m : Memory Cell) (held : ℕ) (cont : ContentionStatus) (f : Frame SemiContention.Pc)
        (below : List (Suspended SemiContention.Pc))
        → GoodFrame node_code tree f
        → let after = visit tree 1 i (access false) m held (in_tree f below) cont in
          Drops m (in_tree f below) after.0 after.1.activity
    unfolding visit
    tree-Drops m held cont f below good =
        let after = advance node_code tree false m f below in
        let same = after_tree_load after.0 held cont (frame_op node_code tree f) after.1 in
        elim (advance-Lowers node_code node_progress node_cost price tree upward m f below good) [
          | inl (falls, root, rest) ↦
              inl (omega (arith, same, falls), same_activity m after.0 root rest)
          | inr (falls, rest) ↦ inr (omega (arith, same, falls), any_activity m after.0)
        ]

    pub departing-Drops :
        (m : Memory Cell) (held : ℕ) (cont : ContentionStatus)
        → let after = visit tree 1 i (access false) m held departing_directly cont in
          Drops m departing_directly after.0 after.1.activity
    unfolding visit depart_directly
    departing-Drops m held cont = inr (omega arith, any_activity m _)

  pub load_or_rest :
      (m : Memory Cell) (act : Activity) → (act ≡ resting) ⊎ (1 ≤ activity_load m act)
  load_or_rest m resting = inl refl
  load_or_rest m (arriving_directly pc) = inr (omega arith)
  load_or_rest m departing_directly = inr (omega arith)
  load_or_rest m (in_tree f below) =
      inr (load-busy node_code node_progress node_cost price m f below)
