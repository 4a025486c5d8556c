-- ===== src/Tests/Crewed.antt =====
-- A run of the evaluation program for full_contention_handling_snzi with K = 2, H = 1 and two threads,
-- of which each makes one visit.
use scalable_non_zero_indica.Base.{
  ℕ, zero, suc, ◌+◌, ◌*◌, ◌<◌, ◌≤◌, ◌⊎◌, ◌≡◌, refl, arith, List, [], ◌∷◌, ◌++◌, true, false, done,
  some, get_elem?,
}
use native.Mathlib.Decide.{dec_lt}
use scalable_non_zero_indica.Tree.{construct}
use scalable_non_zero_indica.Machine.{Site, site}
use scalable_non_zero_indica.FullContention.{
  arrive_directly, depart_directly, note_failures, turn_to_tree, arrive_route, depart_route,
}
use scalable_non_zero_indica.FullContention.System.{visit, start_call, after_direct}
use scalable_non_zero_indica.Class.Full.{full_class}
use scalable_non_zero_indica.Evaluation.{
  parameters, num_threads, full_contention, thread_job, arrives, departs, queries,
}
use scalable_non_zero_indica.Evaluation.Experiment.{Setting}
use scalable_non_zero_indica.Evaluation.Crew.{Crew, CrewReach, ended, crew_step, work}
use scalable_non_zero_indica.Evaluation.Crew.Ends.{
  CrewSteps, none, then_one, AllEnded, steps_left, not_ended,
}
use scalable_non_zero_indica.Evaluation.Crew.Follows.{worker_lem}
use scalable_non_zero_indica.Evaluation.Crew.Programs.{
  programs_clean, programs_end, run_progress, class_of-progress,
}
use scalable_non_zero_indica.Class.Cost.{Priced}
use scalable_non_zero_indica.Node.{arrive}
use scalable_non_zero_indica.Evaluation.Trees.{run-IsRoomy}
use scalable_non_zero_indica.Evaluation.Crew.Costs.{classes_cost}
use scalable_non_zero_indica.Evaluation.Crew.Queries.{
  some_below, arrivals, visitors, programs_query,
}
use scalable_non_zero_indica.Evaluation.Crew.Schedule.{CrewEvent, raise, work_on, crew_played}

abbrev tree : Site
tree = site (construct (λ _. 0) 2 1 2)

abbrev calm : Setting ℕ
calm = record {
  world = 0;
  room = λ _. true;
  memory = λ _. 0;
  wiper = λ c. c;
  blocks = λ c i. 0;
  handle = λ id. id;
  watch = λ _. record { began = 0; flags = []; readings = [] };
}

-- Latest step first: thread 0 has arrived, and thread 1 has loaded the root's counter before that.
abbrev meeting : List CrewEvent
meeting =
    work_on 0 22 false
    ∷ work_on 0 22 false
    ∷ work_on 1 22 false
    ∷ work_on 1 21 false
    ∷ work_on 0 20 false
    ∷ work_on 1 16 false
    ∷ work_on 0 15 false
    ∷ raise
    ∷ work_on 1 12 false
    ∷ work_on 0 10 false
    ∷ []

abbrev met : (s : Crew full_class) × CrewReach full_class tree 1 2 s
met = crew_played full_class tree 1 2 meeting

-- Thread 1 tries again; both depart, ask, and find that the time is over.
abbrev parting : List CrewEvent
parting =
    work_on 1 200 false
    ∷ work_on 1 30 false
    ∷ work_on 1 30 false
    ∷ work_on 1 30 false
    ∷ work_on 0 200 false
    ∷ work_on 0 30 false
    ∷ work_on 0 30 false
    ∷ work_on 0 30 false
    ∷ work_on 1 30 false
    ∷ work_on 1 30 false
    ∷ []

abbrev parted : (s : Crew full_class) × CrewReach full_class tree 1 2 s
parted = crew_played full_class tree 1 2 (parting ++ meeting)

met_root : met.0.shared.root ≡ 1
unfolding dec_lt crew_played visit start_call after_direct arrive_directly depart_directly
    note_failures turn_to_tree arrive_route depart_route
met_root = refl

met_raised : met.0.flag ≡ true
unfolding dec_lt crew_played crew_step
met_raised = refl

parted_ended : (t : ℕ) → t < 2 → (parted.0.workers t).stage ≡ ended
unfolding dec_lt crew_played visit start_call after_direct arrive_directly depart_directly
    note_failures turn_to_tree arrive_route depart_route
parted_ended zero lt = refl
parted_ended (suc zero) lt = refl
parted_ended (suc (suc t)) lt = absurd (omega arith)

row : get_elem? parameters 1 ≡ some (2, 1)
unfolding get_elem?
row = refl

two_threads : get_elem? num_threads 1 ≡ some 2
unfolding get_elem?
two_threads = refl

programs_clean_example :
    ((u : ℕ) → u < tree.total_nodes → full_class.counter parted.0.shared u ≡ 0)
    × (full_class.query parted.0.shared ≡ false)
programs_clean_example =
    programs_clean full_contention calm 1 1 1 2 1 2 row two_threads parted.1 parted_ended

-- From there, thread 0 starts to depart, and thread 1 tries again.
abbrev went_on : Crew full_class
went_on = crew_step full_class tree 1 1 30 false (crew_step full_class tree 1 0 30 false met.0)

going_on : CrewSteps full_class tree 1 2 met.0 2 went_on
unfolding dec_lt crew_played crew_step work visit start_call after_direct arrive_directly
    depart_directly note_failures turn_to_tree arrive_route depart_route
going_on =
    then_one 0 30 (omega arith) (not_ended _ refl) tt
      (then_one 1 30 (omega arith) (not_ended _ refl) tt none)

programs_end_example :
    (2
      ≤ steps_left full_class tree 1 2
          (run_progress full_contention calm 1 1 1 2 1 2 row two_threads)
          met.0)
    × (s : Crew full_class) × (more : ℕ) × CrewSteps full_class tree 1 2 went_on more s
    × AllEnded 2 s
    × ((u : ℕ) → u < tree.total_nodes → full_class.counter s.shared u ≡ 0)
    × (full_class.query s.shared ≡ false)
programs_end_example =
    programs_end full_contention calm 1 1 1 2 1 2 row two_threads met.1 met_raised going_on

programs_query_example :
    ((some_below 2 (arrivals full_class met.0) ≡ false) ⊎ (full_class.query met.0.shared ≡ true))
    × ((full_class.query met.0.shared ≡ false) ⊎ (some_below 2 (visitors full_class met.0) ≡ true))
programs_query_example = programs_query full_contention calm 1 1 1 2 1 2 row two_threads met.1

met_arrival : some_below 2 (arrivals full_class met.0) ≡ true
unfolding dec_lt crew_played visit start_call after_direct arrive_directly depart_directly
    note_failures turn_to_tree arrive_route depart_route some_below
met_arrival = refl

worker_lem_example :
    thread_job 1 (parted.0.workers 1).watch
    ≡ done ((parted.0.workers 1).calls, (parted.0.workers 1).visits)
worker_lem_example = worker_lem full_class tree 1 parted.1 1 (parted_ended 1 (omega arith))

-- Thread 0 arrives directly: two accesses, after which its call has returned.
two_accesses :
    (m : full_class.Shared) × (threads : ℕ → full_class.Thread) × Priced full_class tree 2 2 1 m
      threads
unfolding visit start_call after_direct arrive_directly note_failures arrive_route
two_accesses = (
  _,
  _,
  Priced.accesses 0 (omega arith) refl (
      Priced.accesses 0 (omega arith) refl
        (Priced.invokes arrive 0 (omega arith) refl refl Priced.fresh)),
)

classes_cost_example :
    2
    ≤ (class_of-progress
        (λ _. 0)
        2
        1
        2
        (run-IsRoomy 1 1 2 1 2 row two_threads)
        full_contention).jump
      * (1 + 2)
classes_cost_example =
    classes_cost full_contention (λ _. 0) 2 1 2 (run-IsRoomy 1 1 2 1 2 row two_threads) 2 1
      two_accesses.2

-- History: what thread 1 was told, and what it called
one_visit :
    ((parted.0.workers 1).watch.readings ≡ 21 ∷ 200 ∷ [])
    × ((parted.0.workers 1).calls ≡ arrives ∷ departs ∷ queries ∷ [])
    × ((parted.0.workers 1).visits ≡ 1)
unfolding dec_lt crew_played visit start_call after_direct arrive_directly depart_directly
    note_failures turn_to_tree arrive_route depart_route
one_visit = (refl, refl, refl)
