-- ===== src/Machine/Load.antt =====
-- How many accesses are left in the calls of a tree, in any order: a weight for each task, which its
-- own accesses lower, and which a change of a counter by another thread raises by no more than that
-- change was worth.
use scalable_non_zero_indica.Base.{
  ℕ, zero, suc, ◌+◌, ◌*◌, ◌≤◌, ◌<◌, ◌≡◌, ◌⊎◌, inl, inr, refl, arith, List, [], ◌∷◌, ◌==◌, false,
  Bool-cases, ap, update, update_self, ==_iff,
}
use native.Mathlib.Decide.{dec_lt}
use native.Mathlib.Nat.{mul-le-mul_left}
use scalable_non_zero_indica.Node.{Op, Action, goes, calls, returns, NodeCode}
use scalable_non_zero_indica.Machine.{
  Site, Memory, Frame, in_root, in_node, Suspended, Task, idle, busy, enter, resume, perform,
  advance, root_access,
}
use scalable_non_zero_indica.Machine.Alone.{NodeProgress, Falls}
use scalable_non_zero_indica.Machine.Books.{GoodFrame}

-- What one access of a node's code takes from the parent calls and from the changes of the counter
-- that its call has left. Cells are alike if the code is as far from its end with the one as with
-- the other.
abbrev pub Alike : (code : NodeCode) → (code.Cell → code.Pc → ℕ) → code.Cell → code.Cell → Type 0
Alike code rank c c' = (q : code.Pc) → rank c' q ≡ rank c q

module _ (code : NodeCode) (rank : code.Cell → code.Pc → ℕ)
    (parent_calls changes : code.Pc → ℕ) where
  abbrev pub Costs : code.Cell → code.Pc → Action code.Cell code.Pc → Type 0
  Costs c p (goes c' p') =
      Alike code rank c c' × (parent_calls p' ≤ parent_calls p) × (changes p' ≤ changes p)
  Costs c p (calls op c' p') =
      (suc (parent_calls p') ≤ parent_calls p)
      × (changes p' ≤ changes p)
      × (changes p' < changes p ⊎ Alike code rank c c')
  Costs c p (returns c') = 0 < changes p ⊎ Alike code rank c c'

pub record NodeCost (code : NodeCode) (progress : NodeProgress code) : Type 0 where
  pub highest : ℕ
  pub parent_calls : code.Pc → ℕ
  pub changes : code.Pc → ℕ
  pub low : (c : code.Cell) (p : code.Pc) → progress.rank c p ≤ highest
  pub entry_costs : (op : Op) → (parent_calls (code.entry op) ≤ 2) × (changes (code.entry op) ≤ 1)
  pub costs :
      (c : code.Cell) (p : code.Pc)
      → Costs code progress.rank parent_calls changes c p (code.step false c p)

-- What a call of the parent of node `v` is worth at most, where a change is worth `price`.
unfoldable pub climb_worth : (price highest v : ℕ) → ℕ
climb_worth price highest zero = 0
climb_worth price highest (suc v) = 2 * climb_worth price highest v + price + 2 * highest + 4

climb_worth_up :
    (price highest v w : ℕ)
    → w < v
    → climb_worth price highest (suc w) ≤ climb_worth price highest v
unfolding climb_worth
climb_worth_up price highest zero w lt = absurd (omega arith)
climb_worth_up price highest (suc v) w lt = elim (dec_lt w v) [
  | yes below ↦ omega (arith, climb_worth_up price highest v w below)
  | no last ↦
      let e : w ≡ v = omega arith in omega (arith, ap (λ u. climb_worth price highest (suc u)) e)
]

module _ (code : NodeCode) (progress : NodeProgress code) (cost : NodeCost code progress)
    (price : ℕ) where
  open code use {Cell, Pc, entry, step}
  open progress use {rank, falls}
  open cost use {highest, parent_calls, changes, low, entry_costs, costs}

  abbrev ahead : ℕ → Pc → ℕ
  ahead v p = climb_worth price highest v * parent_calls p + price * changes p

  abbrev weight : Memory Cell → Frame Pc → ℕ
  weight m (in_root op) = 1 + price
  weight m (in_node v p) = 1 + ahead v p + rank (m.cells v) p

  abbrev parked : List (Suspended Pc) → ℕ
  parked [] = 0
  parked (s ∷ below) = 1 + ahead s.node s.pc + highest + parked below

  abbrev pub load : Memory Cell → Task Pc → ℕ
  load m idle = 0
  load m (busy f below) = weight m f + parked below

  ahead_less :
      (v a b : ℕ) (p p' : Pc)
      → a + parent_calls p' ≤ parent_calls p
      → b + changes p' ≤ changes p
      → climb_worth price highest v * a + price * b + ahead v p' ≤ ahead v p
  ahead_less v a b p p' le le' =
      omega (arith, mul-le-mul_left (climb_worth price highest v) le, mul-le-mul_left price le')

  pub load-busy :
      (m : Memory Cell) (f : Frame Pc) (below : List (Suspended Pc)) → 1 ≤ load m (busy f below)
  load-busy m (in_root op) below = omega arith
  load-busy m (in_node v p) below = omega arith

  -- An access lowers the load of its own task, by a price if it changes a counter, and then raises
  -- those of others by no more than the highest rank.
  abbrev pub Lowers : Memory Cell → Task Pc → Memory Cell → Task Pc → Type 0
  Lowers m t m' t' =
      (load m' t' + 1 ≤ load m t) × (m'.root ≡ m.root) × ((u : Task Pc) → load m' u ≤ load m u)
      ⊎ (load m' t' + price + 1 ≤ load m t) × ((u : Task Pc) → load m' u ≤ load m u + highest)

  pub any_load : (m m' : Memory Cell) (u : Task Pc) → load m' u ≤ load m u + highest
  any_load m m' idle = omega arith
  any_load m m' (busy (in_root op) below) = omega arith
  any_load m m' (busy (in_node w q) below) = omega (arith, low (m'.cells w) q)

  module _ (tree : Site) (upward : (v : ℕ) → 0 < v → v < tree.total_nodes → tree.parent v < v) where
    load-resume :
        (m : Memory Cell) (below : List (Suspended Pc))
        → load m (resume code tree below) ≤ parked below
    unfolding resume
    load-resume m [] = omega arith
    load-resume m (s ∷ below) = omega (arith, low (m.cells s.node) s.pc)

    weight-enter :
        (m : Memory Cell) (w : ℕ) (op : Op)
        → weight m (enter code tree w op) ≤ 1 + 2 * climb_worth price highest w + price + highest
    unfolding enter
    weight-enter m w op = elim (Bool-cases (w == 0)) [
      | inl root ↦ rw root (omega arith)
      | inr node ↦ rw node (
          omega (
            arith,
            low (m.cells w) (entry op),
            mul-le-mul_left (climb_worth price highest w) (entry_costs op).0,
            mul-le-mul_left price (entry_costs op).1,
          ))
    ]

    same_load :
        (m : Memory Cell) (v : ℕ) (c : Cell) (u : Task Pc)
        → Alike code rank (m.cells v) c
        → load (record m { cells = update m.cells v c }) u ≤ load m u
    same_load m v c idle alike = omega arith
    same_load m v c (busy (in_root op) below) alike = omega arith
    same_load m v c (busy (in_node w q) below) alike = elim (Bool-cases (v == w)) [
      | inl here ↦
          rw here (omega (arith, alike q, ap (λ x. rank (m.cells x) q) ((==_iff v w).0 here)))
      | inr there ↦ rw there (omega arith)
    ]

    perform-Lowers :
        (m : Memory Cell) (v : ℕ) (p : Pc) (below : List (Suspended Pc)) (a : Action Cell Pc)
        → tree.parent v < v
        → Falls code rank (rank (m.cells v) p) a
        → Costs code rank parent_calls changes (m.cells v) p a
        → let after = perform code tree m v below a in
          Lowers m (busy (in_node v p) below) after.0 after.1
    unfolding perform climb_worth
    perform-Lowers m v p below (goes c p') up fall (alike, le, le') = inl (
      omega (
        arith,
        fall,
        ahead_less v 0 0 p p' (omega (arith, le)) (omega (arith, le')),
        ap (λ x. rank x p') (update_self m.cells v c),
      ),
      refl,
      λ u. same_load m v c u alike,
    )
    perform-Lowers m v p below (calls op c p') up fall (le, le', how) =
        let m' = record m { cells = update m.cells v c } in
        let worth = climb_worth_up price highest v (tree.parent v) up in
        let entered = weight-enter m' (tree.parent v) op in
        elim how [
          | inl change ↦ inr (
            omega (
              arith,
              worth,
              entered,
              ahead_less v 1 1 p p' (omega (arith, le)) (omega (arith, change)),
            ),
            λ u. any_load m m' u,
          )
          | inr alike ↦ inl (
            omega (
              arith,
              worth,
              entered,
              ahead_less v 1 0 p p' (omega (arith, le)) (omega (arith, le')),
            ),
            refl,
            λ u. same_load m v c u alike,
          )
        ]
    perform-Lowers m v p below (returns c) up fall how =
        let m' = record m { cells = update m.cells v c } in
        let resumed = load-resume m' below in
        elim how [
          | inl change ↦
              inr (omega (arith, resumed, mul-le-mul_left price change), λ u. any_load m m' u)
          | inr alike ↦ inl (omega (arith, resumed), refl, λ u. same_load m v c u alike)
        ]

    pub advance-Lowers :
        (m : Memory Cell) (f : Frame Pc) (below : List (Suspended Pc))
        → GoodFrame code tree f
        → let after = advance code tree false m f below in Lowers m (busy f below) after.0 after.1
    unfolding advance
    advance-Lowers m (in_root op) below good =
        let m' = record m { root = root_access op m.root } in
        inr (omega (arith, load-resume m' below), λ u. any_load m m' u)
    advance-Lowers m (in_node v p) below (sound, pos, in_tree) =
        perform-Lowers m v p below (step false (m.cells v) p) (upward v pos in_tree)
          (falls (m.cells v) p) (costs (m.cells v) p)
