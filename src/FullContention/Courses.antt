-- ===== src/FullContention/Courses.antt =====
-- What the abstract indicator sees of the threads of `full_contention_handling_snzi`.
use scalable_non_zero_indica.Base.{
  List, [], ◌∷◌, ℕ, ◌+◌, ◌<◌, ◌≡◌, refl, arith, sym, ap, ◌∙◌, update, nonzero, merge, map-merge,
  sum, sum-merge, sum_ext, sum-add, sum-eq-zero, map-update,
}
use mathlib.Core.Path.{subst, subst₂, fun_ext}
use scalable_non_zero_indica.SemiContention
use scalable_non_zero_indica.SemiContention.{Cell, node_laws}
use scalable_non_zero_indica.Indicator.{Signal, Course, stays, Client, quiet, Run, act, answer}
use scalable_non_zero_indica.Machine.{
  Site, Memory, busy, Thread, System, Event, react, turn, query, Reach,
}
use scalable_non_zero_indica.Machine.Invariant.{Fits}
use scalable_non_zero_indica.Machine.Invariant.Keep.{Reach-Inv}
use scalable_non_zero_indica.Machine.Shape.{carried}
use scalable_non_zero_indica.Machine.Query.{present, surplus}
use scalable_non_zero_indica.Machine.Refines.{client, signal}
use scalable_non_zero_indica.Machine.Refines.Simulation.{turn_path, Reach-Run}
use scalable_non_zero_indica.FullContention.{ContentionStatus, node_code}
use scalable_non_zero_indica.FullContention.System.{
  Activity, resting, arriving_directly, departing_directly, in_tree, Visitor, FullSystem, visit,
  full_turn, full_initial, FullReach,
}
use scalable_non_zero_indica.FullContention.Halves.{
  double, tree_side, root_side, tree_thread, root_thread, split, visitor_client,
}
use scalable_non_zero_indica.FullContention.Match.{Matched, still, by_tree, by_root}
use scalable_non_zero_indica.FullContention.Match.Visit.{visit_matched}
use scalable_non_zero_indica.FullContention.Simulate.{
  split_update, unchanged, first_turns, second_turns, at_first, at_second, FullReach-halves,
}

-- How often a thread is present: its arrivals that have returned, and one more in a call of the
-- tree that has an arrival to its name, and before the access of a direct departure.
abbrev pub presence : ℕ → Activity → ℕ
presence held resting = held
presence held (arriving_directly pc) = held
presence held departing_directly = held + 1
presence held (in_tree f below) = held + nonzero (carried node_code (busy f below))

abbrev pub visitor_presence : Visitor → ℕ
visitor_presence v = presence v.held v.activity

abbrev pub full_surplus : ℕ → FullSystem → ℕ
full_surplus n s = sum n (λ i. visitor_presence (s.visitors i))

presence-halves :
    (held : ℕ) (act : Activity) (cont : ContentionStatus)
    → present node_code (tree_side held act cont) + present node_code (root_side held act cont)
      ≡ presence held act
presence-halves held resting cont = ground arith
presence-halves held (arriving_directly pc) cont = ground arith
presence-halves held departing_directly cont = ground arith
presence-halves held (in_tree f below) cont = ground arith

pub surplus-split :
    (n : ℕ) (s : FullSystem) → surplus node_code (n + n) (split n s) ≡ full_surplus n s
surplus-split n s =
    sum_ext (n + n) (λ j. present node_code ((split n s).threads j)) (merge n first second)
      (λ j lt.
        map-merge (present node_code) n (λ i. tree_thread (s.visitors i))
          (λ i. root_thread (s.visitors i)) j)
    ∙ sum-merge n n first second
    ∙ sym (sum-add n first second)
    ∙ sum_ext n (λ i. first i + second i) (λ i. visitor_presence (s.visitors i))
        (λ i lt. let v = s.visitors i in presence-halves v.held v.activity v.cont)
  where
    first : ℕ → ℕ
    first i = present node_code (tree_thread (s.visitors i))

    second : ℕ → ℕ
    second i = present node_code (root_thread (s.visitors i))

-- The events that have led to a state, as the indicator is told of them, the latest first
abbrev pub full_events :
    (n : ℕ) (tree : Site) {s : FullSystem} → FullReach tree n 1 s → List (ℕ × Signal)
full_events n tree FullReach.start = []
full_events n tree (FullReach.later i e lt r) = (i, signal e) ∷ full_events n tree r

module _ (n : ℕ) (tree : Site) (fits : Fits (double n tree) (n + n) 1) where
  half-Course :
      (s : FullSystem) (j : ℕ) (e : Event) (th th' : Thread SemiContention.Pc) (m' : Memory Cell)
      (s' : System Cell SemiContention.Pc) (c c' : Client)
      → j < n + n
      → Reach node_code (double n tree) (n + n) 1 (split n s)
      → (split n s).threads j ≡ th
      → react node_code (double n tree) 1 j e s.mem th.held th.task ≡ (m', th')
      → s' ≡ turn node_code (double n tree) 1 j e (split n s)
      → client node_code (double n tree) th ≡ c
      → client node_code (double n tree) th' ≡ c'
      → Course 1
          (signal e)
          (surplus node_code (n + n) (split n s))
          c
          (surplus node_code (n + n) s')
          c'
  half-Course s j e th th' m' s' c c' lt r here p q seen seen' =
      subst
        (λ x.
          Course 1 (signal e) (surplus node_code (n + n) (split n s)) c
            (surplus node_code (n + n) x) c')
        (sym q)
        (subst₂
          (λ x y.
            Course 1 (signal e) (surplus node_code (n + n) (split n s)) x
              (surplus node_code (n + n) (turn node_code (double n tree) 1 j e (split n s))) y)
          (ap (client node_code (double n tree)) here ∙ seen)
          (ap
              (λ t.
                client node_code (double n tree)
                  (react node_code (double n tree) 1 j e s.mem t.held t.task).1)
              here
            ∙ ap (λ x. client node_code (double n tree) x.1) p
            ∙ seen')
          (turn_path node_code node_laws (double n tree) (n + n) 1 fits j e (split n s) lt
            (Reach-Inv node_code node_laws (double n tree) (n + n) 1 fits r)))

  -- An event takes the client of its thread along a course, whichever half it is an event of.
  Matched-Course :
      (s : FullSystem) (i : ℕ) (e : Event) (m' : Memory Cell) (v' : Visitor)
      → i < n
      → Reach node_code (double n tree) (n + n) 1 (split n s)
      → Matched n tree i e s.mem (s.visitors i) m' v'
      → let before = s.visitors i in
        Course 1
          (signal e)
          (surplus node_code (n + n) (split n s))
          (visitor_client tree before.held before.activity)
          (surplus node_code (n + n) (split_update n tree s i m' v'))
          (visitor_client tree v'.held v'.activity)
  Matched-Course s i e m' v' lt r (still ok em et er ec) =
      subst (Course 1 (signal e) _ _ _) (sym ec)
        (stays ok (ap (surplus node_code (n + n)) (sym (unchanged n tree s i lt m' v' em et er))))
  Matched-Course s i e m' v' lt r (by_tree p er c c') =
      half-Course s i e (tree_thread (s.visitors i)) (tree_thread v') m'
        (split_update n tree s i m' v') _ _ (omega arith) r (at_first n tree s i lt) p
        (first_turns n tree s i lt e m' v' p er) c c'
  Matched-Course s i e m' v' lt r (by_root p et c c') =
      half-Course s (n + i) e (root_thread (s.visitors i)) (root_thread v') m'
        (split_update n tree s i m' v') _ _ (omega arith) r (at_second n tree s i lt) p
        (second_turns n tree s i lt e m' v' p et) c c'

  pub full-Course :
      {s : FullSystem}
      → FullReach tree n 1 s
      → (i : ℕ) (e : Event) → i < n
      → let v = s.visitors i in
        let after = visit tree 1 i e s.mem v.held v.activity v.cont in
        Course 1
          (signal e)
          (full_surplus n s)
          (visitor_client tree v.held v.activity)
          (full_surplus n (full_turn tree 1 i e s))
          (visitor_client tree after.1.held after.1.activity)
  unfolding full_turn
  full-Course {s} r i e lt =
      let (agree, halves) = FullReach-halves n tree r in
      let v = s.visitors i in
      let (m', v') = visit tree 1 i e s.mem v.held v.activity v.cont in
      subst₂
        (λ k k'.
          Course 1 (signal e) k (visitor_client tree v.held v.activity) k'
            (visitor_client tree v'.held v'.activity))
        (surplus-split n s)
        (surplus-split n (record { mem = m'; visitors = update s.visitors i v' }))
        (Matched-Course s i e m' v' lt halves
          (visit_matched n tree i lt e s.mem v.held v.activity v.cont (agree i)))

  abbrev clients : FullSystem → ℕ → Client
  clients s i = visitor_client tree (s.visitors i).held (s.visitors i).activity

  pub FullReach-Run :
      {s : FullSystem} (r : FullReach tree n 1 s)
      → Run 1 n (full_events n tree r) (full_surplus n s) (clients s)
  unfolding full_initial full_turn
  FullReach-Run FullReach.start =
      subst (λ k. Run 1 n [] k (λ _. record { held = 0; phase = quiet }))
        (sym (sum-eq-zero n (λ _. 0) (λ i lt. refl))) Run.start
  FullReach-Run (FullReach.later {s} i e lt r) =
      let v = s.visitors i in
      let (m', v') = visit tree 1 i e s.mem v.held v.activity v.cont in
      subst
        (Run 1 n ((i, signal e) ∷ full_events n tree r)
          (full_surplus n (record { mem = m'; visitors = update s.visitors i v' })))
        (fun_ext λ j. map-update (λ w. visitor_client tree w.held w.activity) s.visitors i v' j)
        (act i lt (FullReach-Run r) (full-Course r i e lt))

  pub full_query : {s : FullSystem} → FullReach tree n 1 s → query s.mem ≡ answer (full_surplus n s)
  full_query {s} r =
      (Reach-Run node_code node_laws (double n tree) (n + n) 1 fits (FullReach-halves n tree r).1).1
      ∙ ap answer (surplus-split n s)
