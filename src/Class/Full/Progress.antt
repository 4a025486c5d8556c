-- ===== src/Class/Full/Progress.antt =====
-- How far the calls of full_contention_handling_snzi are from their end, by the interface of Class.
use scalable_non_zero_indica.Base.{
  ℕ, zero, suc, ◌+◌, ◌<◌, ◌≤◌, ◌≡◌, ◌≢◌, refl, arith, true, false, [], ap, sum, le-sum, sum-update,
  sum-eq-zero, ltb, Bool-cases, inl, inr, update,
}
use scalable_non_zero_indica.Node.{Op, arrive, depart}
use scalable_non_zero_indica.SemiContention.{Cell}
use scalable_non_zero_indica.Machine.{Site, Memory, invoke, enter}
use scalable_non_zero_indica.Machine.Invariant.{Fits}
use scalable_non_zero_indica.FullContention.{
  ContentionStatus, Route, directly, through_tree, arrive_route, depart_route, node_code,
}
use scalable_non_zero_indica.FullContention.System.{
  Activity, resting, arriving_directly, departing_directly, in_tree, Visitor, start_call, visit,
  full_turn,
}
use scalable_non_zero_indica.FullContention.Halves.{double}
use scalable_non_zero_indica.FullContention.Load.{rise, price, activity_load, any_activity}
use scalable_non_zero_indica.FullContention.Settles.{full_accesses_left, turn_falls}
use scalable_non_zero_indica.Class.{SnziProgress}
use scalable_non_zero_indica.Class.Full.{no_call, full_class, ClassReach-FullReach}

calls_not_resting : (act : Activity) → no_call act ≡ false → act ≢ resting
calls_not_resting act calls e =
    let rests : no_call act ≡ true = ap no_call e in absurd (ground arith)

module _ (tree : Site) (n : ℕ) (fits : Fits (double n tree) (n + n) 1) where
  -- A call that has just started, through the tree, in the memory of a fresh one
  abbrev first_call : Op → ℕ → Activity
  first_call op i = in_tree (enter node_code tree (tree.leaf_for i) op) []

  abbrev tree_load : Op → ℕ → ℕ
  tree_load op i = activity_load n full_class.fresh (first_call op i)

  abbrev call_jump : ℕ
  call_jump = sum n (tree_load arrive) + sum n (tree_load depart) + rise n + price n + 3

  invoke_keeps :
      (op : Op) (i : ℕ) (m : Memory Cell) (held : ℕ) (act : Activity) (cont : ContentionStatus)
      → (visit tree 1 i (invoke op) m held act cont).0 ≡ m
  unfolding visit
  invoke_keeps arrive i m held resting cont = refl
  invoke_keeps depart i m zero resting cont = refl
  invoke_keeps depart i m (suc held) resting cont = refl
  invoke_keeps op i m held (arriving_directly pc) cont = refl
  invoke_keeps op i m held departing_directly cont = refl
  invoke_keeps op i m held (in_tree f below) cont = refl

  start_load :
      (op : Op) (i : ℕ) (m : Memory Cell) (route : Route)
      → i < n
      → activity_load n m (start_call tree i op route) ≤ call_jump
  unfolding start_call
  start_load arrive i m directly lt = omega arith
  start_load depart i m directly lt = omega arith
  start_load arrive i m through_tree lt = omega (
    arith,
    any_activity n full_class.fresh m (first_call arrive i),
    le-sum n (tree_load arrive) i lt,
  )
  start_load depart i m through_tree lt = omega (
    arith,
    any_activity n full_class.fresh m (first_call depart i),
    le-sum n (tree_load depart) i lt,
  )

  invoke_load :
      (op : Op) (i : ℕ) (m : Memory Cell) (held : ℕ) (act : Activity) (cont : ContentionStatus)
      → i < n
      → no_call act ≡ true
      → activity_load n m (visit tree 1 i (invoke op) m held act cont).1.activity ≤ call_jump
  unfolding visit
  invoke_load arrive i m held resting cont lt rests = elim (Bool-cases (ltb held 1)) [
    | inl free ↦ rw free (start_load arrive i m (arrive_route cont) lt)
    | inr full ↦ rw full (omega arith)
  ]
  invoke_load depart i m zero resting cont lt rests = omega arith
  invoke_load depart i m (suc held) resting cont lt rests =
      start_load depart i m (depart_route cont) lt
  invoke_load op i m held (arriving_directly pc) cont lt rests = absurd (ground arith)
  invoke_load op i m held departing_directly cont lt rests = absurd (ground arith)
  invoke_load op i m held (in_tree f below) cont lt rests = absurd (ground arith)

  full_jumps :
      (op : Op) (i : ℕ) (m : Memory Cell) (visitors : ℕ → Visitor)
      → i < n
      → no_call (visitors i).activity ≡ true
      → let v = visitors i in
        let (m', v') = visit tree 1 i (invoke op) m v.held v.activity v.cont in
        sum n (λ j. activity_load n m' (update visitors i v' j).activity)
        ≤ sum n (λ j. activity_load n m (visitors j).activity) + call_jump
  full_jumps op i m visitors lt rests =
      let v = visitors i in
      let v' = (visit tree 1 i (invoke op) m v.held v.activity v.cont).1 in
      omega (
        arith,
        ap (λ x. sum n (λ j. activity_load n x (update visitors i v' j).activity))
            (invoke_keeps op i m v.held v.activity v.cont),
        sum-update (λ k. activity_load n m k.activity) n i visitors v' lt,
        invoke_load op i m v.held v.activity v.cont lt rests,
      )

  pub full_class-progress : SnziProgress full_class tree n
  unfolding full_turn
  full_class-progress = record {
    left = λ m visitors. full_accesses_left n (record { mem = m; visitors = visitors });
    jump = call_jump;
    left_fresh = sum-eq-zero n (λ j. 0) (λ j lt. refl);
    falls = λ i {m} {threads} lt r calls.
        turn_falls n tree fits i (ClassReach-FullReach r) lt
          (calls_not_resting (threads i).activity calls);
    jumps = full_jumps;
  }
