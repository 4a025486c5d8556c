-- ===== src/Machine/Settles.antt =====
-- Any order of accesses brings all calls to their end, if none is invoked from some point on.
use scalable_non_zero_indica.Base.{
  ℕ, suc, ◌+◌, ◌*◌, ◌≤◌, ◌<◌, ◌≡◌, ◌≢◌, ◌⊎◌, inl, inr, refl, arith, List, false, ap, ◌∙◌, sum,
  le-sum, sum_fall, update_ne,
}
use mathlib.Core.Path.{subst}
use scalable_non_zero_indica.Node.{NodeCode, NodeLaws}
use scalable_non_zero_indica.Machine.{
  Site, Frame, Suspended, Task, idle, busy, System, access, advance, turn, Reach,
}
use scalable_non_zero_indica.Machine.Alone.{NodeProgress}
use scalable_non_zero_indica.Machine.Invariant.{Fits}
use scalable_non_zero_indica.Machine.Invariant.Keep.{Reach-Inv}
use scalable_non_zero_indica.Machine.Books.{GoodTask}
use scalable_non_zero_indica.Machine.Returns.{turn_access}
use scalable_non_zero_indica.Machine.Load.{NodeCost, load, load-busy, advance-Lowers}

module _ (code : NodeCode) (tree : Site) (n quota : ℕ) where
  open code use {Cell, Pc}

  -- A number of accesses, each by some thread in a call, none of which fails for no reason.
  pub data Accesses : System Cell Pc → ℕ → System Cell Pc → Type 0 where
    none : {s : System Cell Pc} → Accesses s 0 s
    then_one :
        {s s' : System Cell Pc} {k : ℕ} (i : ℕ) (f : Frame Pc) (below : List (Suspended Pc))
        → i < n
        → (s.threads i).task ≡ busy f below
        → Accesses (turn code tree quota i (access false) s) k s'
        → Accesses s (suc k) s'

module _ (code : NodeCode) (progress : NodeProgress code) (cost : NodeCost code progress)
    (n : ℕ) where
  open code use {Cell, Pc}
  open cost use {highest}

  -- A bound on the accesses that are left in the calls of threads 0 to n - 1.
  abbrev pub accesses_left : System Cell Pc → ℕ
  accesses_left s = sum n (λ i. load code progress cost (n * highest) s.mem (s.threads i).task)

  module _ (laws : NodeLaws code) (tree : Site) (quota : ℕ) (fits : Fits tree n quota) where
    turn_others :
        (i j : ℕ) (s : System Cell Pc)
        → j ≢ i
        → (turn code tree quota i (access false) s).threads j ≡ s.threads j
    unfolding turn
    turn_others i j s ne = update_ne s.threads i j _ ne

    -- An access of a thread in a call lowers the number of those that are left.
    pub turn_falls :
        {s : System Cell Pc} (i : ℕ) (f : Frame Pc) (below : List (Suspended Pc))
        → Reach code tree n quota s
        → i < n
        → (s.threads i).task ≡ busy f below
        → accesses_left (turn code tree quota i (access false) s) + 1 ≤ accesses_left s
    turn_falls {s} i f below r lt e =
        let good = (Reach-Inv code laws tree n quota fits r).good i in
        let good_frame = (subst (GoodTask code tree i) e good).0 in
        let s' = turn code tree quota i (access false) s in
        let after = advance code tree false s.mem f below in
        let (mem_after, task_after) = turn_access code tree quota i s f below e in
        let price = n * highest in
        let own =
          ap (λ m. load code progress cost price m (s'.threads i).task) mem_after
          ∙ ap (λ t. load code progress cost price after.0 t) task_after in
        let before = ap (λ t. load code progress cost price s.mem t) e in
        let others : (j : ℕ)
            → j ≢ i
            → load code progress cost price s'.mem (s'.threads j).task
              ≡ load code progress cost price after.0 (s.threads j).task =
          λ j ne.
            ap (λ m. load code progress cost price m (s'.threads j).task) mem_after
            ∙ ap (λ th. load code progress cost price after.0 th.task) (turn_others i j s ne) in
        elim (advance-Lowers code progress cost price tree fits.upward s.mem f below good_frame) [
          | inl (falls, _, rest) ↦ omega (
            arith,
            sum_fall n i 0 1 (λ j. load code progress cost price s.mem (s.threads j).task)
                (λ j. load code progress cost price s'.mem (s'.threads j).task) lt
                (λ j ne. omega (arith, others j ne, rest (s.threads j).task))
                (omega (arith, own, before, falls)),
          )
          | inr (falls, rest) ↦ omega (
            arith,
            sum_fall n i highest (price + 1)
                (λ j. load code progress cost price s.mem (s.threads j).task)
                (λ j. load code progress cost price s'.mem (s'.threads j).task) lt
                (λ j ne. omega (arith, others j ne, rest (s.threads j).task))
                (omega (arith, own, before, falls)),
          )
        ]

    run_bound :
        {s s' : System Cell Pc} {k : ℕ}
        → Reach code tree n quota s
        → Accesses code tree n quota s k s'
        → k + accesses_left s' ≤ accesses_left s
    run_bound r none = omega arith
    run_bound r (then_one i f below lt e rest) =
        omega
          (arith, turn_falls i f below r lt e, run_bound (Reach.later i (access false) lt r) rest)

    idle_or_left :
        (k : ℕ) (s s' : System Cell Pc) (i : ℕ) (t : Task Pc)
        → (s'.threads i).task ≡ t
        → i < n
        → k + accesses_left s' ≤ accesses_left s
        → (t ≡ idle) ⊎ (k < accesses_left s)
    idle_or_left k s s' i idle e lt le = inl refl
    idle_or_left k s s' i (busy f below) e lt le = inr (
        omega (
          arith,
          le,
          load-busy code progress cost (n * highest) s'.mem f below,
          le-sum n (λ j. load code progress cost (n * highest) s'.mem (s'.threads j).task) i lt,
          ap (λ t. load code progress cost (n * highest) s'.mem t) e,
        ))

    pub settles :
        {s s' : System Cell Pc} {k : ℕ}
        → Reach code tree n quota s
        → Accesses code tree n quota s k s'
        → (i : ℕ) → i < n
        → ((s'.threads i).task ≡ idle) ⊎ (k < accesses_left s)
    settles {s} {s'} {k} r run i lt =
        idle_or_left k s s' i (s'.threads i).task refl lt (run_bound r run)
