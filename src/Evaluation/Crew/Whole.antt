-- ===== src/Evaluation/Crew/Whole.antt =====
-- A whole evaluation program, each of whose runs is one of interleaved threads.
use scalable_non_zero_indica.Base.{true, ℕ, suc, ◌<◌, ◌≡◌, some, get_elem?, done, sym, arith}
use mathlib.Core.Path.{subst}
use scalable_non_zero_indica.Profile.Sums.{IsSmall}
use scalable_non_zero_indica.Tree.{construct, nodes_count}
use scalable_non_zero_indica.Machine.{site}
use scalable_non_zero_indica.Evaluation.{Program, Doubles, file_name, parameters, throughput}
use scalable_non_zero_indica.Evaluation.Experiment.{Host, join_threads}
use scalable_non_zero_indica.Evaluation.Runs.{Grants, joined_ends}
use scalable_non_zero_indica.Evaluation.Report.{main}
use scalable_non_zero_indica.Evaluation.Table.{table, table_of_runs}
use scalable_non_zero_indica.Evaluation.Trees.{parameters_branching}
use scalable_non_zero_indica.Evaluation.Crew.{Crew, CrewReach}
use scalable_non_zero_indica.Evaluation.Crew.Ends.{AllEnded}
use scalable_non_zero_indica.Evaluation.Crew.Programs.{class_of}
use scalable_non_zero_indica.Evaluation.Crew.Totals.{visits_from, join-visits_from}

module _ {CpuSet World : Type 0} (host : Host CpuSet World) (program : Program)
    (crews : ℕ → ℕ → Crew (class_of program)) where
  -- Each run comes to the end of its threads in the state that `crews` has for it, and tells them
  -- what they are told there.
  pub record IsMannedBy : Type 0 where
    pub told : (j i : ℕ) → (host.setting j i).watch ≡ (λ t. ((crews j i).workers t).watch)
    pub reached :
        (j i k h : ℕ)
        → get_elem? parameters j ≡ some (k, h)
        → i < 8
        → CrewReach
            (class_of program)
            (site (construct (host.setting j i).memory k h (suc i)))
            host.second
            (suc i)
            (crews j i)
    pub all_ended :
        (j i k h : ℕ) → get_elem? parameters j ≡ some (k, h) → i < 8 → AllEnded (suc i) (crews j i)

  -- On a machine with at least one core, where pinning a thread to one of its cores succeeds, new
  -- has room for the trees of the parameters and the memory that the threads of cache_wiper read
  -- holds numbers below 2 ^ 40, and for each evaluation program: if for each of the parameters and
  -- each number of threads a state is given that some interleaving of these threads in thread_job
  -- leads to, on an object with the K and H of these parameters, and in which all of them have
  -- come to the end of thread_job, and if each thread of each run is told what it is told there,
  -- then the program ends and leaves its file with a line for each of 1 to 8 threads and a column
  -- for each of the parameters, and the cell in the column j and the line i is the throughput of
  -- the visits that the threads have counted in the state given for it.
  pub main-crews :
      {D : Type 0} (doubles : Doubles D)
      → 0 < host.hardware_concurrency
      → Grants host.scheduler host.hardware_concurrency
      → ((j i c : ℕ) → IsSmall ((host.setting j i).blocks c))
      → ((j i k h : ℕ)
          → get_elem? parameters j ≡ some (k, h)
          → (host.setting j i).room (nodes_count k h) ≡ true)
      → IsMannedBy
      → main doubles host program
        ≡ done (
          file_name program,
          table λ j i. throughput doubles (suc i) (visits_from (crews j i) 0 (suc i)),
        )
  main-crews doubles some_core granted small allocated manned =
      table_of_runs doubles host (λ j i. visits_from (crews j i) 0 (suc i))
        (λ j i k h e lt.
          joined_ends host some_core granted doubles (host.setting j i) k h (suc i)
            (visits_from (crews j i) 0 (suc i)) (small j i) (parameters_branching j k h e)
            (allocated j i k h e)
            (subst (λ w. join_threads host w 0 (suc i) ≡ done (visits_from (crews j i) 0 (suc i)))
              (sym (manned.told j i))
              (join-visits_from host (class_of program)
                (site (construct (host.setting j i).memory k h (suc i)))
                (manned.reached j i k h e lt) (manned.all_ended j i k h e lt) 0 (suc i)
                (omega arith))))
        program
