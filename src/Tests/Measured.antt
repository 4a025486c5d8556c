-- ===== src/Tests/Measured.antt =====
-- The evaluation programs on a machine with two cores, where each thread makes two visits a run.
use scalable_non_zero_indica.Base.{
  ℕ, ◌+◌, suc, ◌%◌, ◌^◌, ◌≤◌, ◌<◌, ◌≡◌, refl, arith, List, [], ◌∷◌, true, false, some, done, take,
  get_elem?,
}
use scalable_non_zero_indica.Evaluation.{
  file_name, full_contention, Doubles, throughput, sum_throughput, Call, Watch, thread_job,
}
use scalable_non_zero_indica.Evaluation.Job.{
  end_of, IsTimed, arrivals, departures, thread_job_lem, readings_before,
}
use scalable_non_zero_indica.Evaluation.Experiment.{Host}
use scalable_non_zero_indica.Evaluation.Runs.{IsServing, counted}
use scalable_non_zero_indica.Evaluation.Report.{main}
use scalable_non_zero_indica.Evaluation.Table.{table, main-table}

-- A double as the operations that made it
pub data Term : Type 0 where
  nought : Term
  count : ℕ → Term
  sum_of : Term → Term → Term
  quotient : Term → Term → Term

abbrev pub terms : Doubles Term
terms = record { zero = nought; of_count = count; plus = sum_of; over = quotient }

abbrev two_visits : Watch
two_visits = record { began = 10; flags = false ∷ true ∷ []; readings = 20 ∷ 100 ∷ 200 ∷ [] }

-- The state is the list of the threads pinned, each with its core.
abbrev pub dual_core : Host ℕ (List (ℕ × ℕ))
dual_core = record {
  scheduler = record {
    cpu_zero = 0;
    cpu_set = λ c cs. cs + 2 ^ c;
    setaffinity = λ id cs w. (0, (id, cs) ∷ w);
  };
  hardware_concurrency = 2;
  second = 1;
  setting = λ j i. record {
    world = [];
    room = λ count. true;
    memory = λ _. 0;
    wiper = λ c. 100 + c;
    blocks = λ c i. i;
    handle = λ id. id;
    watch = λ _. two_visits;
  };
}

two_visits-IsTimed : IsTimed 1 two_visits
unfolding get_elem?
two_visits-IsTimed = record { flagged = (1, refl); late = (2, 200, refl, omega arith) }

pub dual_core-IsServing : IsServing dual_core
dual_core-IsServing = record {
  some_core = omega arith;
  granted = λ c lt id w. refl;
  allocated = λ j i k h e. refl;
  small = λ j i c x lt. omega arith;
  timed = λ j i id. two_visits-IsTimed;
}

thread_job_lem_example :
    (calls : List Call) × (visits : ℕ) × (thread_job 1 two_visits ≡ done (calls, visits))
    × (visits ≡ arrivals calls % 2 ^ 64)
    × (arrivals calls ≡ departures calls)
    × ((i : ℕ)
        → let made = take i calls in
          (departures made ≤ arrivals made) × (arrivals made ≤ departures made + 1))
    × ((i : ℕ)
        → i < arrivals calls
        → (t : ℕ) × (get_elem? two_visits.readings i ≡ some t) × (t < end_of 1 two_visits))
    × ((now : ℕ) × (get_elem? two_visits.readings (arrivals calls) ≡ some now)
        × (end_of 1 two_visits ≤ now))
thread_job_lem_example = thread_job_lem 1 two_visits two_visits-IsTimed

main-table_example :
    main terms dual_core full_contention
    ≡ done (
      file_name full_contention,
      table λ j i. throughput terms (suc i) (counted 1 (λ _. two_visits) 0 (suc i)),
    )
main-table_example = main-table terms dual_core dual_core-IsServing full_contention

two_threads :
    throughput terms 2 (counted 1 (λ _. two_visits) 0 2)
    ≡ quotient
        (sum_of
          (sum_of nought (quotient (count 2) (count 180000)))
          (quotient (count 2) (count 180000)))
        (count 2)
unfolding throughput sum_throughput counted readings_before
two_threads = refl
