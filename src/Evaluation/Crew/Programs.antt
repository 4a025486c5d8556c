-- ===== src/Evaluation/Crew/Programs.antt =====
-- The runs of the three evaluation programs, each with its class and on a tree of its own.
use scalable_non_zero_indica.Base.{
  ℕ, ◌+◌, ◌<◌, ◌≤◌, ◌≡◌, arith, true, false, some, get_elem?, sum-eq-zero, ap, ◌∙◌,
}
use mathlib.Core.Path.{subst}
use scalable_non_zero_indica.Indicator.{Client, answer}
use scalable_non_zero_indica.Indicator.Surplus.{weight, surplus_lem}
use scalable_non_zero_indica.Tree.{construct}
use scalable_non_zero_indica.Tree.Perfect.{IsPerfect, construct-IsPerfect}
use scalable_non_zero_indica.Machine.{site}
use scalable_non_zero_indica.Machine.Invariant.{Fits}
use scalable_non_zero_indica.Machine.Clean.{perfect-Fits}
use scalable_non_zero_indica.NoContention
use scalable_non_zero_indica.NoContention.Progress as PlainProgress
use scalable_non_zero_indica.NoContention.Costs as PlainCosts
use scalable_non_zero_indica.SemiContention
use scalable_non_zero_indica.SemiContention.Progress as AnnouncedProgress
use scalable_non_zero_indica.SemiContention.Costs as AnnouncedCosts
use scalable_non_zero_indica.FullContention.Halves.{double}
use scalable_non_zero_indica.FullContention.Correct.{double-Fits}
use scalable_non_zero_indica.Class.{SnziClass, SnziLaws, SnziProgress, at_rest}
use scalable_non_zero_indica.Class.Nodes.{node_class, node_class-laws}
use scalable_non_zero_indica.Class.Nodes.Progress.{node_class-progress}
use scalable_non_zero_indica.Class.Full.Progress.{full_class-progress}
use scalable_non_zero_indica.Class.Full.{full_class, full_class-laws}
use scalable_non_zero_indica.Evaluation.{
  Program, no_contention, semi_contention, full_contention, num_threads, parameters,
}
use scalable_non_zero_indica.Evaluation.Experiment.{Setting}
use scalable_non_zero_indica.Evaluation.Trees.{IsRoomy, run-IsRoomy}
use scalable_non_zero_indica.Evaluation.Crew.{Stage, ended, Crew, CrewReach}
use scalable_non_zero_indica.Evaluation.Crew.Ends.{CrewSteps, AllEnded, steps_left, workers_end}
use scalable_non_zero_indica.Evaluation.Crew.Placed.{Placed, CrewReach-Placed}

-- The class of the object that a program runs its threads on.
abbrev pub class_of : Program → SnziClass
class_of no_contention = node_class NoContention.node_code
class_of semi_contention = node_class SemiContention.node_code
class_of full_contention = full_class

module _ (raw : ℕ → ℕ) (k h n : ℕ) (roomy : IsRoomy k h n) where
  perfect : IsPerfect k h (construct raw k h n)
  perfect = construct-IsPerfect raw k h n roomy.branching roomy.in_words

  tree-Fits : Fits (site (construct raw k h n)) n 1
  tree-Fits = perfect-Fits n 1 perfect (omega (arith, perfect.nodes, roomy.room))

  double_tree-Fits : Fits (double n (site (construct raw k h n))) (n + n) 1
  double_tree-Fits =
      double-Fits (site (construct raw k h n)) n
        (perfect-Fits (n + n) 1 perfect (omega (arith, perfect.nodes, roomy.room)))

  -- Each class keeps its promises on the trees of the programs.
  pub class_of-laws :
      (program : Program) → SnziLaws (class_of program) (site (construct raw k h n)) n
  class_of-laws no_contention =
      node_class-laws NoContention.node_code NoContention.node_laws (site (construct raw k h n)) n
        tree-Fits
  class_of-laws semi_contention =
      node_class-laws SemiContention.node_code SemiContention.node_laws (site (construct raw k h n))
        n tree-Fits
  class_of-laws full_contention = full_class-laws (site (construct raw k h n)) n double_tree-Fits

  pub class_of-progress :
      (program : Program) → SnziProgress (class_of program) (site (construct raw k h n)) n
  class_of-progress no_contention =
      node_class-progress NoContention.node_code NoContention.node_laws PlainProgress.node_progress
        PlainCosts.node_cost (site (construct raw k h n)) n tree-Fits
  class_of-progress semi_contention =
      node_class-progress SemiContention.node_code SemiContention.node_laws
        AnnouncedProgress.node_progress AnnouncedCosts.node_cost (site (construct raw k h n)) n
        tree-Fits
  class_of-progress full_contention =
      full_class-progress (site (construct raw k h n)) n double_tree-Fits

module _ {World : Type 0} (program : Program) (at : Setting World) (second j i k h n : ℕ)
    (params : get_elem? parameters j ≡ some (k, h)) (count : get_elem? num_threads i ≡ some n) where
  pub run_laws : SnziLaws (class_of program) (site (construct at.memory k h n)) n
  run_laws = class_of-laws at.memory k h n (run-IsRoomy j i k h n params count) program

  -- A thread that has ended is not present.
  ended_weight : (stage : Stage) (c : Client) → stage ≡ ended → Placed stage c → weight c ≡ 0
  ended_weight stage c e placed =
      let rests : c ≡ at_rest 0 = subst (λ st. Placed st c) e placed in ap weight rests

  -- In each run of one of the three evaluation programs, with its K and H from the list of
  -- parameters and its number n of threads from num_threads, whatever the fresh memory holds, and
  -- under any interleaving of the steps of threads 0 to n - 1 in thread_job, any readings of the
  -- clock and any moment at which flag is set: in every state reached in which all threads have
  -- come to the end of thread_job, all counters of the tree are zero and Query is false.
  pub programs_clean :
      {s : Crew (class_of program)}
      → CrewReach (class_of program) (site (construct at.memory k h n)) second n s
      → ((t : ℕ) → t < n → (s.workers t).stage ≡ ended)
      → ((u : ℕ)
          → u < (construct at.memory k h n).total_nodes
          → (class_of program).counter s.shared u ≡ 0)
        × ((class_of program).query s.shared ≡ false)
  programs_clean {s} r all_ended =
      let (reached, placed) =
        CrewReach-Placed (class_of program) (site (construct at.memory k h n)) second n run_laws
          r in
      let (_, run, answers) = run_laws.runs reached in
      let none : run_laws.surplus (λ t. (s.workers t).own) ≡ 0 =
        surplus_lem run
        ∙ sum-eq-zero n (λ t. weight (run_laws.client (s.workers t).own))
            (λ t lt.
              ended_weight (s.workers t).stage (run_laws.client (s.workers t).own) (all_ended t lt)
                (placed t)) in
      (run_laws.clean reached none, answers ∙ ap answer none)

  abbrev pub run_progress : SnziProgress (class_of program) (site (construct at.memory k h n)) n
  run_progress = class_of-progress at.memory k h n (run-IsRoomy j i k h n params count) program

  -- In each run of one of the three evaluation programs, with its K and H from the list of
  -- parameters and its number n of threads from num_threads, whatever the fresh memory holds, if
  -- flag is set in a state reached by threads 0 to n - 1 in thread_job, and from there on threads
  -- that have not come to their ends make steps in any order, of which no compare-exchange fails
  -- for no reason and every test of the clock reads at least the end time of its thread, then the
  -- number of these steps is at most one that the state at the start determines, and however they
  -- have gone they can go on until all threads have come to their ends, where all counters of the
  -- tree are zero and Query is false.
  pub programs_end :
      {s s' : Crew (class_of program)} {steps : ℕ}
      → CrewReach (class_of program) (site (construct at.memory k h n)) second n s
      → s.flag ≡ true
      → CrewSteps (class_of program) (site (construct at.memory k h n)) second n s steps s'
      → (steps
          ≤ steps_left
              (class_of program)
              (site (construct at.memory k h n))
              second
              n
              run_progress
              s)
        × (s'' : Crew (class_of program)) × (more : ℕ) × CrewSteps
            (class_of program)
            (site (construct at.memory k h n))
            second
            n
            s'
            more
            s''
        × AllEnded n s''
        × ((u : ℕ)
            → u < (construct at.memory k h n).total_nodes
            → (class_of program).counter s''.shared u ≡ 0)
        × ((class_of program).query s''.shared ≡ false)
  programs_end r raised run =
      let (bounded, s'', more, goes_on, all, r'') =
        workers_end (class_of program) (site (construct at.memory k h n)) second n run_progress
          run_laws r raised run in
      let (zeros, no_one) = programs_clean r'' all in
      (bounded, s'', more, goes_on, all, zeros, no_one)
