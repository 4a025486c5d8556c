-- ===== src/Evaluation/Runs.antt =====
-- One run of the evaluation programs, on a machine that grants what they ask for.
use scalable_non_zero_indica.Base.{
  ℕ, zero, suc, ◌+◌, ◌%◌, ◌^◌, ◌≤◌, ◌<◌, ◌≡◌, refl, arith, List, [], ◌∷◌, ltb, ◌==◌, false, true,
  some, get_elem?, done, and_then,
}
use native.Mathlib.Nat.{mod-lt}
use scalable_non_zero_indica.Affinity.{Scheduler, set_affinity}
use scalable_non_zero_indica.Profile.Sums.{IsSmall, sum_from_lem}
use scalable_non_zero_indica.Profile.{wipe, wipe_from, clear_caches}
use scalable_non_zero_indica.Tree.{make, construct, nodes_count}
use scalable_non_zero_indica.Evaluation.{Doubles, Watch, parameters, throughput}
use scalable_non_zero_indica.Evaluation.Job.{end_of, IsTimed, readings_before, job_ends}
use scalable_non_zero_indica.Evaluation.Experiment.{
  Setting, Host, constructed, snzi_object, pin_threads, join_threads, run_once,
}

-- The visits of `count` threads from `id` on, before each finds its end time past
unfoldable pub counted : ℕ → (ℕ → Watch) → ℕ → ℕ → List ℕ
counted second watch id zero = []
counted second watch id (suc count) =
    readings_before (end_of second (watch id)) (watch id).readings % 2 ^ 64
    ∷ counted second watch (suc id) count

pub object_ends :
    {World : Type 0} (at : Setting World) (k h n : ℕ)
    → 2 ≤ k
    → at.room (nodes_count k h) ≡ true
    → snzi_object at k h n ≡ done (construct at.memory k h n)
unfolding snzi_object constructed make
object_ends at k h n branching allocated =
    let valid : ltb k 2 ≡ false = ground arith in rw (valid, allocated) refl

module _ {CpuSet World : Type 0} where
  -- `pthread_setaffinity_np` succeeds for a set of one core that the machine has.
  abbrev pub Grants : Scheduler CpuSet World → ℕ → Type 0
  Grants sys count =
      (c : ℕ)
      → c < count
      → (id : ℕ) (w : World) → (sys.setaffinity id (sys.cpu_set c sys.cpu_zero) w).0 ≡ 0

  -- What the programs rely on: some core, granted affinities, memory for their trees, small numbers in the memory that wipers
  -- read, and clocks that go on in each run.
  pub record IsServing (host : Host CpuSet World) : Type 0 where
    pub some_core : 0 < host.hardware_concurrency
    pub granted : Grants host.scheduler host.hardware_concurrency
    pub allocated :
        (j i k h : ℕ)
        → get_elem? parameters j ≡ some (k, h)
        → (host.setting j i).room (nodes_count k h) ≡ true
    pub small : (j i c : ℕ) → IsSmall ((host.setting j i).blocks c)
    pub timed : (j i id : ℕ) → IsTimed host.second ((host.setting j i).watch id)

  wipe_ends :
      (sys : Scheduler CpuSet World) (all : ℕ) (self : ℕ → ℕ) (blocks : ℕ → ℕ → ℕ) (i count : ℕ)
      (w : World)
      → Grants sys all
      → ((c : ℕ) → IsSmall (blocks c))
      → i + count ≤ all
      → (w' : World) × (wipe_from sys self blocks i count w ≡ done w')
  unfolding wipe_from wipe
  wipe_ends sys all self blocks i zero w grants small le = (w, refl)
  wipe_ends sys all self blocks i (suc count) w grants small le =
      let ok = grants i (omega arith) (self i) w in
      let w' = (sys.setaffinity (self i) (sys.cpu_set i sys.cpu_zero) w).1 in
      let (v, e) = wipe_ends sys all self blocks (suc i) count w' grants small (omega arith) in
      (v, rw (ok, sum_from_lem (blocks i) (small i)) e)

  clear_ends :
      (sys : Scheduler CpuSet World) (all : ℕ) (self : ℕ → ℕ) (blocks : ℕ → ℕ → ℕ) (w : World)
      → Grants sys all
      → ((c : ℕ) → IsSmall (blocks c))
      → 0 < all
      → (w' : World) × (clear_caches sys self blocks all w ≡ done w')
  unfolding clear_caches
  clear_ends sys all self blocks w grants small some_core =
      let (v, e) = wipe_ends sys all self blocks 0 all w grants small (omega arith) in
      let ne : (all == 0) ≡ false = ground arith in (v, rw ne e)

module _ {CpuSet World : Type 0} (host : Host CpuSet World)
    (some_core : 0 < host.hardware_concurrency)
    (granted : Grants host.scheduler host.hardware_concurrency) where
  pin_ends :
      (handle : ℕ → ℕ) (id count : ℕ) (w : World)
      → (w' : World) × (pin_threads host handle id count w ≡ done w')
  unfolding pin_threads set_affinity
  pin_ends handle id zero w = (w, refl)
  pin_ends handle id (suc count) w =
      let c = id % host.hardware_concurrency in
      let sys = host.scheduler in
      let ok = granted c (mod-lt id some_core) (handle id) w in
      let w' = (sys.setaffinity (handle id) (sys.cpu_set c sys.cpu_zero) w).1 in
      let (v, e) = pin_ends handle (suc id) count w' in (v, rw ok e)

  -- A run whose threads all end with their visits is worth the throughput of these.
  pub joined_ends :
      {D : Type 0} (doubles : Doubles D) (at : Setting World) (k h how_many_threads : ℕ)
      (visits : List ℕ)
      → ((c : ℕ) → IsSmall (at.blocks c))
      → 2 ≤ k
      → at.room (nodes_count k h) ≡ true
      → join_threads host at.watch 0 how_many_threads ≡ done visits
      → run_once doubles host at k h how_many_threads
        ≡ done (throughput doubles how_many_threads visits)
  unfolding run_once
  joined_ends doubles at k h n visits small branching allocated joined =
      let cleared =
        clear_ends host.scheduler host.hardware_concurrency at.wiper at.blocks at.world granted
          small some_core in
      let pinned = pin_ends at.handle 0 n cleared.0 in
      simp (cleared.1, object_ends at k h n branching allocated, pinned.1, joined, and_then)

module _ {CpuSet World : Type 0} (host : Host CpuSet World) (serving : IsServing host) where
  join_ends :
      (watch : ℕ → Watch) (id count : ℕ)
      → ((t : ℕ) → IsTimed host.second (watch t))
      → join_threads host watch id count ≡ done (counted host.second watch id count)
  unfolding join_threads counted
  join_ends watch id zero timed = refl
  join_ends watch id (suc count) timed =
      rw (job_ends host.second (watch id) (timed id))
        (rw (join_ends watch (suc id) count timed) refl)

  pub run_ends :
      {D : Type 0} (doubles : Doubles D) (j i k h how_many_threads : ℕ)
      → get_elem? parameters j ≡ some (k, h)
      → 2 ≤ k
      → run_once doubles host (host.setting j i) k h how_many_threads
        ≡ done (
            throughput doubles how_many_threads
              (counted host.second (host.setting j i).watch 0 how_many_threads))
  run_ends doubles j i k h n e branching =
      let at = host.setting j i in
      joined_ends host serving.some_core serving.granted doubles at k h n
        (counted host.second at.watch 0 n) (serving.small j i) branching
        (serving.allocated j i k h e) (join_ends at.watch 0 n (serving.timed j i))
