-- ===== src/Evaluation/Experiment.antt =====
-- `run_experiment_for_tree`: one pair of K and H, for each number of threads.
use scalable_non_zero_indica.Base.{
  ℕ, zero, suc, ◌%◌, List, [], ◌∷◌, Ending, done, failed, and_then, invalid_argument, bad_alloc,
  Bool, length, set, resize,
}
use scalable_non_zero_indica.Affinity.{Scheduler, set_affinity}
use scalable_non_zero_indica.Profile.{clear_caches}
use scalable_non_zero_indica.Tree.{Tree, Made, built, make}
use scalable_non_zero_indica.Evaluation.{Doubles, Watch, num_threads, thread_job, throughput}

-- What one run finds: the state of the system at its start, for how many nodes `new` has room and
-- what it finds there, the handles of the wiper threads, the memory that each of these reads, the
-- handles of its own threads, and what each of these is told.
pub record Setting (World : Type 0) : Type 0 where
  pub world : World
  pub room : ℕ → Bool
  pub memory : ℕ → ℕ
  pub wiper : ℕ → ℕ
  pub blocks : ℕ → ℕ → ℕ
  pub handle : ℕ → ℕ
  pub watch : ℕ → Watch

-- The machine that the programs run on. `setting j i` is that of the run for the parameters at `j`
-- and the number of threads at `i`.
pub record Host (CpuSet World : Type 0) : Type 0 where
  pub scheduler : Scheduler CpuSet World
  pub hardware_concurrency : ℕ
  pub second : ℕ
  pub setting : ℕ → ℕ → Setting World

-- The object that a run constructs, or an exception of its constructor.
unfoldable pub constructed : Made → Ending Tree
constructed (built tree) = done tree
constructed Made.invalid_argument = failed invalid_argument
constructed Made.bad_alloc = failed bad_alloc

unfoldable pub snzi_object : {World : Type 0} → Setting World → ℕ → ℕ → ℕ → Ending Tree
snzi_object at k h how_many_threads = constructed (make at.room at.memory k h how_many_threads)

module _ {CpuSet World : Type 0} (host : Host CpuSet World) where
  -- The calls of `aff_setter` for `count` threads from `id` on
  unfoldable pub pin_threads : (ℕ → ℕ) → ℕ → ℕ → World → Ending World
  pin_threads handle id zero w = done w
  pin_threads handle id (suc count) w =
      and_then (set_affinity host.scheduler (id % host.hardware_concurrency) (handle id) w)
        λ w'. pin_threads handle (suc id) count w'

  -- The entries of `visits` for `count` threads from `id` on, once all have been joined
  unfoldable pub join_threads : (ℕ → Watch) → ℕ → ℕ → Ending (List ℕ)
  join_threads watch id zero = done []
  join_threads watch id (suc count) =
      and_then (thread_job host.second (watch id))
        λ job. and_then (join_threads watch (suc id) count) λ rest. done (job.1 ∷ rest)

module _ {CpuSet World D : Type 0} (doubles : Doubles D) (host : Host CpuSet World) where
  -- The body of the loop over the numbers of threads
  unfoldable pub run_once : Setting World → ℕ → ℕ → ℕ → Ending D
  run_once at k h how_many_threads =
      and_then (clear_caches host.scheduler at.wiper at.blocks host.hardware_concurrency at.world)
        λ w. and_then (snzi_object at k h how_many_threads) λ tree.
          and_then (pin_threads host at.handle 0 how_many_threads w) λ w'.
            and_then (join_threads host at.watch 0 how_many_threads)
              λ visits. done (throughput doubles how_many_threads visits)

  -- The loop itself, from the entry `i` of `all_visits` on
  unfoldable pub run_counts : (ℕ → Setting World) → ℕ → ℕ → List ℕ → ℕ → List D → Ending (List D)
  run_counts setting k h [] i all_visits = done all_visits
  run_counts setting k h (how_many_threads ∷ rest) i all_visits =
      and_then (run_once (setting i) k h how_many_threads)
        λ average. run_counts setting k h rest (suc i) (set all_visits i average)

  unfoldable pub run_experiment_for_tree : (ℕ → Setting World) → ℕ → ℕ → List D → Ending (List D)
  run_experiment_for_tree setting k h all_visits =
      run_counts setting k h num_threads 0 (resize (length num_threads) doubles.zero all_visits)
