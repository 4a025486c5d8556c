-- ===== src/Evaluation/Crew/Costs.antt =====
-- What calls cost on an object of each of the three classes.
use scalable_non_zero_indica.Base.{ℕ, ◌+◌, ◌*◌, ◌≤◌}
use scalable_non_zero_indica.Tree.{construct}
use scalable_non_zero_indica.Machine.{site}
use scalable_non_zero_indica.Class.Cost.{Priced, calls_cost}
use scalable_non_zero_indica.Evaluation.{Program}
use scalable_non_zero_indica.Evaluation.Trees.{IsRoomy}
use scalable_non_zero_indica.Evaluation.Crew.Programs.{class_of, class_of-progress}

-- For each of the three classes, on a freshly built tree with an arity of at least 2 and K ^ (H +
-- 1) in a word, where 6 * n and the number of nodes and 1 fit a counter: in every run of threads 0
-- to n - 1, in which invoked calls are accepted and no compare-exchange fails for no reason, the
-- number of accesses is at most a number that only the class, the tree and n determine times the
-- number of calls that have returned and n, so that calls as a whole go on to return for as long
-- as threads make accesses in them.
pub classes_cost :
    (program : Program) (raw : ℕ → ℕ) (k h n : ℕ) (roomy : IsRoomy k h n) (accesses returns : ℕ)
    {m : (class_of program).Shared} {threads : ℕ → (class_of program).Thread}
    → Priced (class_of program) (site (construct raw k h n)) n accesses returns m threads
    → accesses ≤ (class_of-progress raw k h n roomy program).jump * (returns + n)
classes_cost program raw k h n roomy accesses returns =
    calls_cost (class_of program) (site (construct raw k h n)) n
      (class_of-progress raw k h n roomy program)
