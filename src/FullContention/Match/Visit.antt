-- ===== src/FullContention/Match/Visit.antt =====
-- Any event of a thread of `full_contention_handling_snzi` and its halves.
use scalable_non_zero_indica.Base.{List, true, ℕ, zero, suc, ◌<◌, ◌≡◌, refl, Bool, false, sym}
use mathlib.Core.Path.{subst, ap₂}
use scalable_non_zero_indica.Node.{Op, arrive, depart}
use scalable_non_zero_indica.SemiContention.{Cell}
use scalable_non_zero_indica.Machine.{Frame, Suspended, Site, Memory, Event, invoke, access}
use scalable_non_zero_indica.FullContention.{ContentionStatus}
use scalable_non_zero_indica.FullContention.System.{
  Activity, resting, arriving_directly, departing_directly, in_tree, visit,
}
use scalable_non_zero_indica.FullContention.Halves.{Agrees, visitor_client}
use scalable_non_zero_indica.SemiContention
use scalable_non_zero_indica.Machine.Refines.{not_quiet}
use scalable_non_zero_indica.Indicator.{refuses}
use scalable_non_zero_indica.FullContention.Match.{still, flags, MatchedVisit}
use scalable_non_zero_indica.FullContention.Match.Invoke.{arrive_matched, depart_matched}
use scalable_non_zero_indica.FullContention.Match.Access.{
  direct_matched, departing_matched, tree_matched,
}

module _ (n : ℕ) (tree : Site) (i : ℕ) (lt : i < n) where
  flags_lem :
      (b : Bool) (cont : ContentionStatus)
      → cont.use_snzi_in_arrive ≡ b
      → cont.use_snzi_in_depart ≡ b
      → flags n tree b cont.use_snzi_tree_flag ≡ cont
  flags_lem b cont p q =
      ap₂
        (λ x y. record {
          use_snzi_in_arrive = x;
          use_snzi_in_depart = y;
          use_snzi_tree_flag = cont.use_snzi_tree_flag;
        })
        (sym p) (sym q)

  from_flags :
      (e : Event) (m : Memory Cell) (held : ℕ) (act : Activity) (b : Bool) (cont : ContentionStatus)
      → cont.use_snzi_in_arrive ≡ b
      → cont.use_snzi_in_depart ≡ b
      → MatchedVisit n tree i e m held act (flags n tree b cont.use_snzi_tree_flag)
      → MatchedVisit n tree i e m held act cont
  from_flags e m held act b cont p q =
      subst (λ c. MatchedVisit n tree i e m held act c) (flags_lem b cont p q)

  from_none :
      (e : Event) (m : Memory Cell) (held : ℕ) (act : Activity) (cont : ContentionStatus)
      → held ≡ 0
      → MatchedVisit n tree i e m 0 act cont
      → MatchedVisit n tree i e m held act cont
  from_none e m held act cont p = subst (λ k. MatchedVisit n tree i e m k act cont) (sym p)

  tree-refuses :
      (op : Op) (held : ℕ) (f : Frame SemiContention.Pc)
      (below : List (Suspended SemiContention.Pc))
      → refuses 1 op (visitor_client tree held (in_tree f below)) ≡ true
  tree-refuses arrive held f below = rw (not_quiet _ _)
  tree-refuses depart held f below = rw (not_quiet _ _)

  -- Every event of the thread is one of a half, as long as its flags n tree and its call agree.
  pub visit_matched :
      (e : Event) (m : Memory Cell) (held : ℕ) (act : Activity) (cont : ContentionStatus)
      → Agrees held act cont
      → MatchedVisit n tree i e m held act cont
  unfolding visit
  visit_matched (invoke arrive) m held resting cont (same, le) =
      from_flags (invoke arrive) m held resting cont.use_snzi_in_depart cont same refl
        (arrive_matched n tree i lt m held cont.use_snzi_in_depart cont.use_snzi_tree_flag le)
  visit_matched (invoke depart) m held resting cont (same, le) =
      from_flags (invoke depart) m held resting cont.use_snzi_in_depart cont same refl
        (depart_matched n tree i lt m held cont.use_snzi_in_depart cont.use_snzi_tree_flag le)
  visit_matched (access b) m held resting cont h = still refl refl refl refl refl
  visit_matched (access b) m held (arriving_directly pc) cont (p, q, z) =
      from_flags (access b) m held (arriving_directly pc) false cont p q (
        from_none (access b) m held (arriving_directly pc)
          (flags n tree false cont.use_snzi_tree_flag) z
          (direct_matched n tree i lt b cont.use_snzi_tree_flag m pc))
  visit_matched (access b) m held departing_directly cont (p, q, z) =
      from_flags (access b) m held departing_directly false cont p q (
        from_none (access b) m held departing_directly (flags n tree false cont.use_snzi_tree_flag)
          z (departing_matched n tree i lt b cont.use_snzi_tree_flag m))
  visit_matched (access b) m held (in_tree f below) cont (p, q, z) =
      from_none (access b) m held (in_tree f below) cont z
        (tree_matched n tree i lt b cont m f below q)
  visit_matched (invoke arrive) m held (arriving_directly pc) cont h =
      still refl refl refl refl refl
  visit_matched (invoke arrive) m held departing_directly cont h = still refl refl refl refl refl
  visit_matched (invoke arrive) m held (in_tree f below) cont h =
      still (tree-refuses arrive held f below) refl refl refl refl
  visit_matched (invoke depart) m zero (arriving_directly pc) cont h =
      still refl refl refl refl refl
  visit_matched (invoke depart) m zero departing_directly cont h = still refl refl refl refl refl
  visit_matched (invoke depart) m zero (in_tree f below) cont h =
      still (tree-refuses depart 0 f below) refl refl refl refl
  visit_matched (invoke depart) m (suc held) (arriving_directly pc) cont h =
      still refl refl refl refl refl
  visit_matched (invoke depart) m (suc held) departing_directly cont h =
      still refl refl refl refl refl
  visit_matched (invoke depart) m (suc held) (in_tree f below) cont h =
      still (tree-refuses depart (suc held) f below) refl refl refl refl
