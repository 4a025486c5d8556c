-- ===== src/Evaluation/Crew/Totals.antt =====
-- What a run of interleaved threads is worth to `run_experiment_for_tree`.
use scalable_non_zero_indica.Base.{ℕ, zero, suc, ◌+◌, ◌≡◌, refl, arith, List, [], ◌∷◌, done}
use scalable_non_zero_indica.Machine.{Site}
use scalable_non_zero_indica.Class.{SnziClass}
use scalable_non_zero_indica.Evaluation.Experiment.{Host, join_threads}
use scalable_non_zero_indica.Evaluation.Crew.{Crew, CrewReach}
use scalable_non_zero_indica.Evaluation.Crew.Ends.{AllEnded}
use scalable_non_zero_indica.Evaluation.Crew.Follows.{worker_lem}

-- The entries of `visits` for `count` threads from `id` on
unfoldable pub visits_from : {c : SnziClass} → Crew c → ℕ → ℕ → List ℕ
visits_from s id zero = []
visits_from s id (suc count) = (s.workers id).visits ∷ visits_from s (suc id) count

module _ {CpuSet World : Type 0} (host : Host CpuSet World) where
  -- The visits after the join are those that the threads have counted.
  pub join-visits_from :
      (c : SnziClass) (tree : Site) {n : ℕ} {s : Crew c}
      → CrewReach c tree host.second n s
      → AllEnded n s
      → (id count : ℕ) → id + count ≡ n
      → join_threads host (λ t. (s.workers t).watch) id count ≡ done (visits_from s id count)
  unfolding join_threads visits_from
  join-visits_from c tree r all id zero e = refl
  join-visits_from c tree r all id (suc count) e =
      rw (worker_lem c tree host.second r id (all id (omega arith)))
        (rw (join-visits_from c tree r all (suc id) count (omega arith)) refl)
