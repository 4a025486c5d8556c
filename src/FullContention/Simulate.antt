-- ===== src/FullContention/Simulate.antt =====
-- The states of `full_contention_handling_snzi` under any interleaving, as states of the tree of
-- Machine with two threads for each thread.
use scalable_non_zero_indica.Base.{
  ℕ, ◌+◌, ◌-◌, ◌<◌, ◌≡◌, refl, arith, true, false, ltb, sym, ap, ◌∙◌, update, update_all,
  update_same, merge, merge-const, merge_first, merge_second, map-update,
}
use mathlib.Core.Path.{subst, ap₂, fun_ext}
use scalable_non_zero_indica.SemiContention
use scalable_non_zero_indica.SemiContention.{Cell}
use scalable_non_zero_indica.Machine.{
  Site, Memory, idle, Thread, System, Event, react, turn, initial, Reach,
}
use scalable_non_zero_indica.FullContention.{node_code}
use scalable_non_zero_indica.FullContention.System.{
  Visitor, FullSystem, visit, full_turn, full_initial, FullReach,
}
use scalable_non_zero_indica.FullContention.Halves.{double, tree_thread, root_thread, split}
use scalable_non_zero_indica.FullContention.Agree.{VisitorAgrees, visit-Agrees}
use scalable_non_zero_indica.FullContention.Match.{Matched, still, by_tree, by_root}
use scalable_non_zero_indica.FullContention.Match.Visit.{visit_matched}

module _ (n : ℕ) (tree : Site) where
  abbrev pub machine : Site
  machine = double n tree

  -- A turn, from what it does to its thread.
  turn_by :
      (s : System Cell SemiContention.Pc) (j : ℕ) (e : Event) (th th' : Thread SemiContention.Pc)
      (m' : Memory Cell)
      → s.threads j ≡ th
      → react node_code machine 1 j e s.mem th.held th.task ≡ (m', th')
      → turn node_code machine 1 j e s ≡ record { mem = m'; threads = update s.threads j th' }
  unfolding turn
  turn_by s j e th th' m' here p =
      ap (λ r. record { mem = r.0; threads = update s.threads j r.1 })
        (ap (λ t. react node_code machine 1 j e s.mem t.held t.task) here ∙ p)

  abbrev firsts : FullSystem → ℕ → Thread SemiContention.Pc
  firsts s j = tree_thread (s.visitors j)

  abbrev seconds : FullSystem → ℕ → Thread SemiContention.Pc
  seconds s j = root_thread (s.visitors j)

  -- The halves after one thread has changed.
  abbrev pub split_update : FullSystem → ℕ → Memory Cell → Visitor → System Cell SemiContention.Pc
  split_update s i m' v' = split n (record { mem = m'; visitors = update s.visitors i v' })

  halves-update :
      (s : FullSystem) (i : ℕ) (m' : Memory Cell) (v' : Visitor)
      → split_update s i m' v' ≡ record {
        mem = m';
        threads =
            merge n (update (firsts s) i (tree_thread v')) (update (seconds s) i (root_thread v'));
      }
  halves-update s i m' v' =
      ap₂ (λ f g. record { mem = m'; threads = merge n f g })
        (fun_ext λ j. sym (map-update tree_thread s.visitors i v' j))
        (fun_ext λ j. sym (map-update root_thread s.visitors i v' j))

  module _ (s : FullSystem) (i : ℕ) (lt : i < n) where
    abbrev pub before : Visitor
    before = s.visitors i

    pub at_first : (split n s).threads i ≡ tree_thread (s.visitors i)
    at_first = let inside : ltb i n ≡ true = ground arith in rw inside refl

    pub at_second : (split n s).threads (n + i) ≡ root_thread (s.visitors i)
    at_second =
        let outside : ltb (n + i) n ≡ false = ground arith in
        let back : n + i - n ≡ i = omega arith in rw outside (ap (seconds s) back)

    pub unchanged :
        (m' : Memory Cell) (v' : Visitor)
        → m' ≡ s.mem
        → tree_thread v' ≡ tree_thread (s.visitors i)
        → root_thread v' ≡ root_thread (s.visitors i)
        → split_update s i m' v' ≡ split n s
    unchanged m' v' em et er =
        halves-update s i m' v'
        ∙ ap
            (λ m. record {
              mem = m;
              threads =
                  merge n (update (firsts s) i (tree_thread v'))
                    (update (seconds s) i (root_thread v'));
            })
            em
        ∙ ap₂ (λ f g. record { mem = s.mem; threads = merge n f g })
            (fun_ext (update_same (firsts s) i (tree_thread v') et))
            (fun_ext (update_same (seconds s) i (root_thread v') er))

    pub first_turns :
        (e : Event) (m' : Memory Cell) (v' : Visitor)
        → react node_code machine 1 i e s.mem (tree_thread before).held (tree_thread before).task
          ≡ (m', tree_thread v')
        → root_thread v' ≡ root_thread before
        → split_update s i m' v' ≡ turn node_code machine 1 i e (split n s)
    first_turns e m' v' p er =
        halves-update s i m' v'
        ∙ ap (λ g. record { mem = m'; threads = merge n (update (firsts s) i (tree_thread v')) g })
            (fun_ext (update_same (seconds s) i (root_thread v') er))
        ∙ ap (λ f. record { mem = m'; threads = f })
            (fun_ext (merge_first n (firsts s) (seconds s) i (tree_thread v') lt))
        ∙ sym (turn_by (split n s) i e (tree_thread before) (tree_thread v') m' at_first p)

    pub second_turns :
        (e : Event) (m' : Memory Cell) (v' : Visitor)
        → react node_code machine 1
            (n + i)
            e
            s.mem
            (root_thread before).held
            (root_thread before).task
          ≡ (m', root_thread v')
        → tree_thread v' ≡ tree_thread before
        → split_update s i m' v' ≡ turn node_code machine 1 (n + i) e (split n s)
    second_turns e m' v' p et =
        halves-update s i m' v'
        ∙ ap (λ f. record { mem = m'; threads = merge n f (update (seconds s) i (root_thread v')) })
            (fun_ext (update_same (firsts s) i (tree_thread v') et))
        ∙ ap (λ f. record { mem = m'; threads = f })
            (fun_ext (merge_second n (firsts s) (seconds s) i (root_thread v')))
        ∙ sym (turn_by (split n s) (n + i) e (root_thread before) (root_thread v') m' at_second p)

    pub matched-Reach :
        (e : Event) (m' : Memory Cell) (v' : Visitor)
        → Matched n tree i e s.mem before m' v'
        → Reach node_code machine (n + n) 1 (split n s)
        → Reach node_code machine (n + n) 1 (split_update s i m' v')
    matched-Reach e m' v' (still ok em et er _) r =
        subst (Reach node_code machine (n + n) 1) (sym (unchanged m' v' em et er)) r
    matched-Reach e m' v' (by_tree p er _ _) r =
        subst (Reach node_code machine (n + n) 1) (sym (first_turns e m' v' p er))
          (Reach.later i e (omega arith) r)
    matched-Reach e m' v' (by_root p et _ _) r =
        subst (Reach node_code machine (n + n) 1) (sym (second_turns e m' v' p et))
          (Reach.later (n + i) e (omega arith) r)

  pub FullReach-halves :
      {s : FullSystem}
      → FullReach tree n 1 s
      → ((i : ℕ) → VisitorAgrees (s.visitors i)) × Reach node_code machine (n + n) 1 (split n s)
  unfolding full_turn full_initial initial
  FullReach-halves FullReach.start = (
    λ i. (refl, omega arith),
    subst (Reach node_code machine (n + n) 1)
        (ap (λ f. record { mem = full_initial.mem; threads = f })
          (fun_ext λ j. sym (merge-const n (record { held = 0; task = idle }) j)))
        Reach.start,
  )
  FullReach-halves (FullReach.later {s} i e lt r) =
      let (agree, halves) = FullReach-halves r in
      let v = s.visitors i in
      let (m', v') = visit tree 1 i e s.mem v.held v.activity v.cont in
      (
        update_all (λ j w. VisitorAgrees w) s.visitors i v'
            (visit-Agrees tree i e s.mem v.held v.activity v.cont (agree i)) agree,
        matched-Reach s i lt e m' v'
            (visit_matched n tree i lt e s.mem v.held v.activity v.cont (agree i)) halves,
      )
