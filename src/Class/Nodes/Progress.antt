-- ===== src/Class/Nodes/Progress.antt =====
-- How far the calls of no_contention_handling_snzi and semi_contention_handling_snzi are from their
-- end, by the interface of Class.
use scalable_non_zero_indica.Base.{
  ℕ, zero, suc, ◌+◌, ◌*◌, ◌<◌, ◌≤◌, ◌≡◌, refl, arith, true, false, [], ap, sum, le-sum, sum-update,
  sum-eq-zero, ltb, Bool-cases, inl, inr, update,
}
use scalable_non_zero_indica.Node.{Op, arrive, depart, NodeCode, NodeLaws}
use scalable_non_zero_indica.Machine
use scalable_non_zero_indica.Machine.{
  Site, Memory, Task, idle, busy, System, invoke, access, enter, react, turn,
}
use scalable_non_zero_indica.Machine.Alone.{NodeProgress}
use scalable_non_zero_indica.Machine.Load.{NodeCost, load, any_load}
use scalable_non_zero_indica.Machine.Settles.{accesses_left, turn_falls}
use scalable_non_zero_indica.Machine.Invariant.{Fits}
use scalable_non_zero_indica.Class.{SnziProgress}
use scalable_non_zero_indica.Class.Nodes.{no_task, node_class, ClassReach-Reach}

module _ (code : NodeCode) (laws : NodeLaws code) (progress : NodeProgress code)
    (cost : NodeCost code progress) (tree : Site) (n : ℕ) (fits : Fits tree n 1) where
  open code use {Cell, Pc}
  open cost use {highest}

  abbrev task_load : Memory Cell → Task Pc → ℕ
  task_load = load code progress cost (n * highest)

  -- A call that has just started, in the memory of a fresh tree
  abbrev first_task : Op → ℕ → Task Pc
  first_task op i = busy (enter code tree (tree.leaf_for i) op) []

  abbrev call_load : Op → ℕ → ℕ
  call_load op i = task_load (node_class code).fresh (first_task op i)

  abbrev call_jump : ℕ
  call_jump = sum n (call_load arrive) + sum n (call_load depart) + highest

  invoke_keeps :
      (op : Op) (i : ℕ) (m : Memory Cell) (held : ℕ) (t : Task Pc)
      → (react code tree 1 i (invoke op) m held t).0 ≡ m
  unfolding react
  invoke_keeps arrive i m held idle = ground arith
  invoke_keeps depart i m zero idle = refl
  invoke_keeps depart i m (suc held) idle = refl
  invoke_keeps op i m held (busy f below) = refl

  first_load :
      (op : Op) (i : ℕ) (m : Memory Cell) → i < n → task_load m (first_task op i) ≤ call_jump
  first_load arrive i m lt = omega (
    arith,
    any_load code progress cost (n * highest) (node_class code).fresh m (first_task arrive i),
    le-sum n (call_load arrive) i lt,
  )
  first_load depart i m lt = omega (
    arith,
    any_load code progress cost (n * highest) (node_class code).fresh m (first_task depart i),
    le-sum n (call_load depart) i lt,
  )

  invoke_load :
      (op : Op) (i : ℕ) (m : Memory Cell) (held : ℕ) (t : Task Pc)
      → i < n
      → no_task code t ≡ true
      → task_load m (react code tree 1 i (invoke op) m held t).1.task ≤ call_jump
  unfolding react
  invoke_load arrive i m held idle lt rests = elim (Bool-cases (ltb held 1)) [
    | inl free ↦ rw free (first_load arrive i m lt)
    | inr full ↦ rw full (omega arith)
  ]
  invoke_load depart i m zero idle lt rests = omega arith
  invoke_load depart i m (suc held) idle lt rests = first_load depart i m lt
  invoke_load op i m held (busy f below) lt rests = absurd (ground arith)

  nodes_jumps :
      (op : Op) (i : ℕ) (m : Memory Cell) (threads : ℕ → Machine.Thread Pc)
      → i < n
      → no_task code (threads i).task ≡ true
      → let (m', th) = react code tree 1 i (invoke op) m (threads i).held (threads i).task in
        sum n (λ j. task_load m' (update threads i th j).task)
        ≤ sum n (λ j. task_load m (threads j).task) + call_jump
  nodes_jumps op i m threads lt rests =
      let held = (threads i).held in
      let t = (threads i).task in
      let th = (react code tree 1 i (invoke op) m held t).1 in
      omega (
        arith,
        ap (λ x. sum n (λ j. task_load x (update threads i th j).task))
            (invoke_keeps op i m held t),
        sum-update (λ k. task_load m k.task) n i threads th lt,
        invoke_load op i m held t lt rests,
      )

  nodes_falls :
      (i : ℕ) (s : System Cell Pc) (t : Task Pc)
      → i < n
      → Machine.Reach code tree n 1 s
      → (s.threads i).task ≡ t
      → no_task code t ≡ false
      → accesses_left code progress cost n (turn code tree 1 i (access false) s) + 1
        ≤ accesses_left code progress cost n s
  nodes_falls i s idle lt r e calls = absurd (ground arith)
  nodes_falls i s (busy f below) lt r e calls =
      turn_falls code progress cost n laws tree 1 fits i f below r lt e

  pub node_class-progress : SnziProgress (node_class code) tree n
  unfolding turn
  node_class-progress = record {
    left = λ m threads. accesses_left code progress cost n (record { mem = m; threads = threads });
    jump = call_jump;
    left_fresh = sum-eq-zero n (λ j. 0) (λ j lt. refl);
    falls = λ i {m} {threads} lt r calls.
        nodes_falls i (record { mem = m; threads = threads }) (threads i).task lt
          (ClassReach-Reach code r) refl calls;
    jumps = nodes_jumps;
  }
