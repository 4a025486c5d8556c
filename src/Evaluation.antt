-- ===== src/Evaluation.antt =====
-- The programs snzi_perf_eval_no_contention.cpp, snzi_perf_eval_semi_contention.cpp and
-- snzi_perf_eval_full_contention.cpp, which differ in the class of their tree and in the name of
-- their file. What they print on the terminal is left out.
pub mod Experiment
pub mod Report
pub mod Job
pub mod Runs
pub mod Table
pub mod Trees
pub mod Crew
use Prim.Native.String.{String}
use scalable_non_zero_indica.Base.{
  ℕ, ◌+◌, ◌*◌, List, [], ◌∷◌, ◌++◌, Bool, true, false, ltb, if◌then◌else◌, add64, Ending, done,
  failed, endless, and_then,
}

pub data Program : Type 0 where
  no_contention semi_contention full_contention : Program

abbrev pub file_name : Program → String
file_name no_contention = "snzi-no-contention.dat"
file_name semi_contention = "snzi-semi-contention.dat"
file_name full_contention = "snzi-full-contention.dat"

-- In seconds
abbrev pub duration : ℕ
duration = 3 * 60

abbrev pub num_threads : List ℕ
num_threads = 1 ∷ 2 ∷ 3 ∷ 4 ∷ 5 ∷ 6 ∷ 7 ∷ 8 ∷ []

-- The arrays K and H of `main`
abbrev pub parameters : List (ℕ × ℕ)
parameters = (2, 0) ∷ (2, 1) ∷ (2, 2) ∷ (4, 1) ∷ []

-- All that the programs do with a `double`.
pub record Doubles (D : Type 0) : Type 0 where
  pub zero : D
  pub of_count : ℕ → D
  pub plus : D → D → D
  pub over : D → D → D

-- The calls that a thread makes on the tree.
pub data Call : Type 0 where
  arrives departs queries : Call

-- What a thread is told while it runs: what its loads of `flag` find, and what `now` returns, at
-- first and then before each visit. A clock that has run to its end time goes on in the list only
-- as far as anything reads it.
pub record Watch : Type 0 where
  pub began : ℕ
  pub flags : List Bool
  pub readings : List ℕ

-- `while (!flag.load()){}`
unfoldable pub wait_for_flag : List Bool → Ending (Unit {0})
wait_for_flag [] = failed endless
wait_for_flag (flag ∷ flags) = if flag then done tt else wait_for_flag flags

-- The loop of `thread_job`: the calls that it makes from here on, and `visits` at its end.
unfoldable pub visit_loop : ℕ → List ℕ → ℕ → Ending (List Call × ℕ)
visit_loop end_time [] visits = failed endless
visit_loop end_time (now ∷ readings) visits =
    let rest = visit_loop end_time readings (add64 visits 1) in
    if ltb now end_time
    then and_then rest (λ r. done (arrives ∷ departs ∷ queries ∷ r.0, r.1))
    else done ([], visits)

-- `thread_job`, on a clock of so many ticks a second
unfoldable pub thread_job : ℕ → Watch → Ending (List Call × ℕ)
thread_job second watch =
    and_then (wait_for_flag watch.flags)
      λ _. visit_loop (watch.began + duration * second) watch.readings 0

module _ {D : Type 0} (doubles : Doubles D) where
  -- The loop over `visits`
  unfoldable pub sum_throughput : List ℕ → D → D
  sum_throughput [] sum = sum
  sum_throughput (visits ∷ rest) sum = sum_throughput rest (
      doubles.plus sum
        (doubles.over (doubles.of_count visits) (doubles.of_count (duration * 1000))))

  -- What a run leaves in `all_visits`.
  unfoldable pub throughput : ℕ → List ℕ → D
  throughput how_many_threads visits =
      doubles.over (sum_throughput visits doubles.zero) (doubles.of_count how_many_threads)
