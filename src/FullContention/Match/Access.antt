-- ===== src/FullContention/Match/Access.antt =====
-- Accesses of a thread of `full_contention_handling_snzi` and its halves.
use scalable_non_zero_indica.Base.{
  ℕ, ◌<◌, ◌≡◌, refl, arith, Bool, true, false, List, leb, ◌==◌, ◌&&◌, not, sym, ap, ◌∙◌, add64,
  Bool-cases, inl, inr,
}
use mathlib.Core.Path.{ap₂}
use scalable_non_zero_indica.Node.{Op}
use scalable_non_zero_indica.SemiContention
use scalable_non_zero_indica.SemiContention.{Cell}
use scalable_non_zero_indica.Machine.{
  Site, Memory, Frame, Suspended, Task, idle, busy, access, root_access, advance, resume, settle,
  react, frame_op,
}
use scalable_non_zero_indica.FullContention.{
  ContentionStatus, Pc, direct_load, direct_exchange, note_failures, arrive_directly, turn_to_tree,
  depart_directly, node_code,
}
use scalable_non_zero_indica.FullContention.System.{
  resting, arriving_directly, departing_directly, in_tree, after_direct, after_tree, visit,
}
use scalable_non_zero_indica.FullContention.Halves.{
  double, tree_thread, advance-double, frame_op-double, after_tree-sides, client-double,
}
use scalable_non_zero_indica.FullContention.Match.{
  Matched, still, by_tree, by_root, Sees, flags, MatchedVisit,
}

module _ (n : ℕ) (tree : Site) (i : ℕ) (lt : i < n) where
  success-Matched :
      (b t t' : Bool) (m : Memory Cell) (pc : Pc) (oldx : ℕ)
      → m.root ≡ oldx
      → Matched n tree i
          (access b)
          m
          (record { held = 0; activity = arriving_directly pc; cont = flags n tree false t })
          (record m { root = add64 oldx 1 })
          (record { held = 1; activity = resting; cont = flags n tree false t' })
  unfolding react advance resume settle root_access
  success-Matched b t t' m pc oldx e =
      by_root (ap (λ x. (record m { root = add64 x 1 }, record { held = 1; task = idle })) e) refl
        refl refl

  note_flags :
      (f : ℕ) (t : Bool)
      → (t' : Bool) × (note_failures f (flags n tree false t) ≡ flags n tree false t')
  unfolding note_failures
  note_flags f t = elim (Bool-cases (leb 5 f)) [
    | inl p ↦ (true, rw p refl)
    | inr p ↦ (t, rw p refl)
  ]

  pub direct_matched :
      (b t : Bool) (m : Memory Cell) (pc : Pc)
      → MatchedVisit n tree i (access b) m 0 (arriving_directly pc) (flags n tree false t)
  unfolding visit after_direct arrive_directly
  direct_matched b t m direct_load = still refl refl refl refl refl
  direct_matched b t m (direct_exchange oldx f tries) =
      elim (Bool-cases ((m.root == oldx) && not b)) [
        | inl here ↦
            let (t', e) = note_flags f t in
            rw (here, e)
              (success-Matched b t t' m (direct_exchange oldx f tries) oldx (ground arith))
        | inr elsewhere ↦ rw elsewhere (still refl refl refl refl refl)
      ]

  pub departing_matched :
      (b t : Bool) (m : Memory Cell)
      → MatchedVisit n tree i (access b) m 0 departing_directly (flags n tree false t)
  unfolding visit depart_directly turn_to_tree react advance resume settle
  departing_matched b true m = by_root refl refl refl refl
  departing_matched b false m = by_root refl refl refl refl

  after_tree-Sees :
      (cont : ContentionStatus) (op : Op) (t : Task SemiContention.Pc)
      → cont.use_snzi_in_depart ≡ true
      → Sees n tree (after_tree 0 cont op t) (tree_thread (after_tree 0 cont op t))
  unfolding after_tree
  after_tree-Sees cont op idle e = rw e refl
  after_tree-Sees cont op (busy f below) e = client-double n tree 0 f below

  pub tree_matched :
      (b : Bool) (cont : ContentionStatus) (m : Memory Cell) (f : Frame SemiContention.Pc)
      (below : List (Suspended SemiContention.Pc))
      → cont.use_snzi_in_depart ≡ true
      → MatchedVisit n tree i (access b) m 0 (in_tree f below) cont
  unfolding visit react
  tree_matched b cont m f below e =
      let (m', t) = advance node_code tree b m f below in
      let op = frame_op node_code tree f in
      let sides = after_tree-sides n tree cont op t e in
      by_tree
        (ap₂ (λ a o. (a.0, settle node_code (double n tree) 0 o a.1))
            (advance-double n tree b m f below) (frame_op-double n tree f)
          ∙ ap (λ th. (m', th)) (sym sides.0))
        sides.1 (client-double n tree 0 f below) (after_tree-Sees cont op t e)
