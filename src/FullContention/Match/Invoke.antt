-- ===== src/FullContention/Match/Invoke.antt =====
-- Invocations of a thread of `full_contention_handling_snzi` and its halves.
use scalable_non_zero_indica.Base.{
  ℕ, zero, suc, ◌+◌, ◌≤◌, ◌<◌, ◌≡◌, refl, arith, Bool, true, false, [], ap,
}
use scalable_non_zero_indica.Node.{Op, arrive, depart}
use scalable_non_zero_indica.SemiContention
use scalable_non_zero_indica.SemiContention.{Cell}
use scalable_non_zero_indica.Machine.{Site, Memory, in_root, busy, Thread, invoke, enter, react}
use scalable_non_zero_indica.FullContention.{arrive_route, depart_route, node_code}
use scalable_non_zero_indica.FullContention.System.{resting, start_call, visit}
use scalable_non_zero_indica.FullContention.Halves.{double, client-double}
use scalable_non_zero_indica.FullContention.Match.{still, by_tree, by_root, flags, MatchedVisit}

module _ (n : ℕ) (tree : Site) (i : ℕ) (lt : i < n) where
  leaf_first : (double n tree).leaf_for i ≡ tree.leaf_for i
  leaf_first = ground arith

  leaf_second : (double n tree).leaf_for (n + i) ≡ 0
  leaf_second = ground arith

  enters_tree :
      (op : Op) (held : ℕ)
      → ◌≡◌ {A = Thread SemiContention.Pc}
          (record {
            held = held;
            task = busy (enter node_code (double n tree) ((double n tree).leaf_for i) op) [];
          })
          (record { held = held; task = busy (enter node_code tree (tree.leaf_for i) op) [] })
  unfolding enter
  enters_tree op held =
      ap (λ w. record { held = held; task = busy (enter node_code tree w op) [] }) leaf_first

  enters_root :
      (op : Op) (held : ℕ)
      → ◌≡◌ {A = Thread SemiContention.Pc}
          (record {
            held = held;
            task = busy (enter node_code (double n tree) ((double n tree).leaf_for (n + i)) op) [];
          })
          (record { held = held; task = busy (in_root op) [] })
  unfolding enter
  enters_root op held =
      ap (λ w. record { held = held; task = busy (enter node_code tree w op) [] }) leaf_second

  pub arrive_matched :
      (m : Memory Cell) (held : ℕ) (b t : Bool)
      → held ≤ 1
      → MatchedVisit n tree i (invoke arrive) m held resting (flags n tree b t)
  unfolding visit arrive_route start_call react
  arrive_matched m zero true t le =
      by_tree (ap (λ th. (m, th)) (enters_tree arrive 0)) refl refl
        (client-double n tree 0 (enter node_code tree (tree.leaf_for i) arrive) [])
  arrive_matched m zero false t le =
      by_root (ap (λ th. (m, th)) (enters_root arrive 0)) refl refl refl
  arrive_matched m (suc zero) true t le = still refl refl refl refl refl
  arrive_matched m (suc zero) false t le = still refl refl refl refl refl
  arrive_matched m (suc (suc held)) b t le = absurd (omega arith)

  pub depart_matched :
      (m : Memory Cell) (held : ℕ) (b t : Bool)
      → held ≤ 1
      → MatchedVisit n tree i (invoke depart) m held resting (flags n tree b t)
  unfolding visit depart_route start_call react
  depart_matched m zero b t le = still refl refl refl refl refl
  depart_matched m (suc zero) true t le =
      by_tree (ap (λ th. (m, th)) (enters_tree depart 0)) refl refl
        (client-double n tree 0 (enter node_code tree (tree.leaf_for i) depart) [])
  depart_matched m (suc zero) false t le =
      by_root (ap (λ th. (m, th)) (enters_root depart 0)) refl refl refl
  depart_matched m (suc (suc held)) b t le = absurd (omega arith)
