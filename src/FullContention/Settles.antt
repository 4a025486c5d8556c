-- ===== src/FullContention/Settles.antt =====
-- Any order of accesses by threads of `full_contention_handling_snzi` brings all their calls to their
-- end, if none is invoked from some point on.
use scalable_non_zero_indica.Base.{
  ℕ, suc, ◌+◌, ◌≤◌, ◌<◌, ◌≡◌, ◌≢◌, ◌⊎◌, inl, inr, refl, arith, false, ap, ◌∙◌, sum, le-sum,
  sum_fall, update_ne,
}
use mathlib.Core.Path.{subst}
use scalable_non_zero_indica.SemiContention.{node_laws}
use scalable_non_zero_indica.Machine.{Site, access}
use scalable_non_zero_indica.Machine.Books.{GoodTask}
use scalable_non_zero_indica.Machine.Invariant.{Fits}
use scalable_non_zero_indica.Machine.Invariant.Keep.{Reach-Inv}
use scalable_non_zero_indica.FullContention.{node_code}
use scalable_non_zero_indica.FullContention.System.{
  Activity, resting, arriving_directly, departing_directly, in_tree, FullSystem, visit, full_turn,
  FullReach,
}
use scalable_non_zero_indica.FullContention.Halves.{double, tree_side}
use scalable_non_zero_indica.FullContention.Simulate.{FullReach-halves, at_first}
use scalable_non_zero_indica.FullContention.Returns.{turn_activity}
use scalable_non_zero_indica.FullContention.Load.{
  rise, price, activity_load, Drops, arriving-Drops, tree-Drops, departing-Drops, load_or_rest,
}

module _ (n : ℕ) where
  -- A number of accesses, each by some thread in a call, none of which fails for no reason.
  pub data FullAccesses (tree : Site) : FullSystem → ℕ → FullSystem → Type 0 where
    none : {s : FullSystem} → FullAccesses tree s 0 s
    then_one :
        {s s' : FullSystem} {k : ℕ} (i : ℕ)
        → i < n
        → (s.visitors i).activity ≢ resting
        → FullAccesses tree (full_turn tree 1 i (access false) s) k s'
        → FullAccesses tree s (suc k) s'

  -- A bound on the accesses that are left in the calls of threads 0 to n - 1.
  abbrev pub full_accesses_left : FullSystem → ℕ
  full_accesses_left s = sum n (λ i. activity_load n s.mem (s.visitors i).activity)

  module _ (tree : Site) (fits : Fits (double n tree) (n + n) 1) where
    visit-Drops :
        (s : FullSystem) (i : ℕ) (act : Activity)
        → i < n
        → FullReach tree n 1 s
        → act ≢ resting
        → (s.visitors i).activity ≡ act
        → let v = s.visitors i in
          let after = visit tree 1 i (access false) s.mem v.held act v.cont in
          Drops n s.mem act after.0 after.1.activity
    visit-Drops s i resting lt r moves e = absurd (moves refl)
    visit-Drops s i (arriving_directly pc) lt r moves e =
        let v = s.visitors i in arriving-Drops n tree fits.upward i s.mem v.held v.cont pc
    visit-Drops s i departing_directly lt r moves e =
        let v = s.visitors i in departing-Drops n tree fits.upward i s.mem v.held v.cont
    visit-Drops s i (in_tree f below) lt r moves e =
        let v = s.visitors i in
        let inv =
          Reach-Inv node_code node_laws (double n tree) (n + n) 1 fits
            (FullReach-halves n tree r).1 in
        let good =
          subst (GoodTask node_code (double n tree) i)
            (ap (λ th. th.task) (at_first n tree s i lt)
              ∙ ap (λ act. (tree_side v.held act v.cont).task) e)
            (inv.good i) in
        tree-Drops n tree fits.upward i s.mem v.held v.cont f below good.0

    turn_others :
        (i j : ℕ) (s : FullSystem)
        → j ≢ i
        → (full_turn tree 1 i (access false) s).visitors j ≡ s.visitors j
    unfolding full_turn
    turn_others i j s ne = update_ne s.visitors i j _ ne

    -- An access of a thread in a call lowers the number of those that are left.
    pub turn_falls :
        {s : FullSystem} (i : ℕ)
        → FullReach tree n 1 s
        → i < n
        → (s.visitors i).activity ≢ resting
        → full_accesses_left (full_turn tree 1 i (access false) s) + 1 ≤ full_accesses_left s
    turn_falls {s} i r lt moves =
        let v = s.visitors i in
        let s' = full_turn tree 1 i (access false) s in
        let after = visit tree 1 i (access false) s.mem v.held v.activity v.cont in
        let (mem_after, act_after) = turn_activity tree i s in
        let others : (j : ℕ)
            → j ≢ i
            → activity_load n s'.mem (s'.visitors j).activity
              ≡ activity_load n after.0 (s.visitors j).activity =
          λ j ne.
            ap (λ m. activity_load n m (s'.visitors j).activity) mem_after
            ∙ ap (λ w. activity_load n after.0 w.activity) (turn_others i j s ne) in
        let own =
          ap (λ m. activity_load n m (s'.visitors i).activity) mem_after
          ∙ ap (λ act. activity_load n after.0 act) act_after in
        elim (visit-Drops s i v.activity lt r moves refl) [
          | inl (falls, rest) ↦ omega (
            arith,
            sum_fall n i 0 1 (λ j. activity_load n s.mem (s.visitors j).activity)
                (λ j. activity_load n s'.mem (s'.visitors j).activity) lt
                (λ j ne. omega (arith, others j ne, rest (s.visitors j).activity))
                (omega (arith, own, falls)),
          )
          | inr (falls, rest) ↦ omega (
            arith,
            sum_fall n i (rise n) (price n + 1) (λ j. activity_load n s.mem (s.visitors j).activity)
                (λ j. activity_load n s'.mem (s'.visitors j).activity) lt
                (λ j ne. omega (arith, others j ne, rest (s.visitors j).activity))
                (omega (arith, own, falls)),
          )
        ]

    run_bound :
        {s s' : FullSystem} {k : ℕ}
        → FullReach tree n 1 s
        → FullAccesses tree s k s'
        → k + full_accesses_left s' ≤ full_accesses_left s
    run_bound r none = omega arith
    run_bound r (then_one i lt moves rest) =
        omega
          (arith, turn_falls i r lt moves, run_bound (FullReach.later i (access false) lt r) rest)

    pub full_settles :
        {s s' : FullSystem} {k : ℕ}
        → FullReach tree n 1 s
        → FullAccesses tree s k s'
        → (i : ℕ) → i < n
        → ((s'.visitors i).activity ≡ resting) ⊎ (k < full_accesses_left s)
    full_settles {s} {s'} {k} r run i lt = elim (load_or_rest n s'.mem (s'.visitors i).activity) [
      | inl rests ↦ inl rests
      | inr left ↦ inr (
          omega (
            arith,
            run_bound r run,
            left,
            le-sum n (λ j. activity_load n s'.mem (s'.visitors j).activity) i lt,
          ))
    ]
