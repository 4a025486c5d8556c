-- ===== src/Tests/Manned.antt =====
-- An evaluation program whose runs all come to their ends, on a machine with two cores.
use scalable_non_zero_indica.Base.{
  ℕ, suc, ◌<◌, ◌≤◌, ◌≡◌, refl, arith, false, Option, none, some, get_elem?, done, List, sym,
}
use mathlib.Core.Path.{subst}
use native.Mathlib.Decide.{dec_lt}
use scalable_non_zero_indica.Tree.{construct}
use scalable_non_zero_indica.Machine.{Site, site}
use scalable_non_zero_indica.Class.Full.{full_class}
use scalable_non_zero_indica.Evaluation.{full_contention, file_name, parameters, throughput}
use scalable_non_zero_indica.Evaluation.Experiment.{Host}
use scalable_non_zero_indica.Evaluation.Report.{main}
use scalable_non_zero_indica.Evaluation.Table.{table}
use scalable_non_zero_indica.Evaluation.Trees.{IsRoomy, IsRoomyIf, parameters-IsRoomy}
use scalable_non_zero_indica.Evaluation.Crew.{Crew, CrewReach, recruit}
use scalable_non_zero_indica.Evaluation.Crew.Ends
use scalable_non_zero_indica.Evaluation.Crew.Ends.{AllEnded, workers_end}
use scalable_non_zero_indica.Evaluation.Crew.Programs.{class_of-laws, class_of-progress}
use scalable_non_zero_indica.Evaluation.Crew.Totals.{visits_from}
use scalable_non_zero_indica.Evaluation.Crew.Whole.{IsMannedBy, main-crews}
use scalable_non_zero_indica.Tests.Measured.{terms, dual_core, dual_core-IsServing}

abbrev tree : ℕ → ℕ → ℕ → Site
tree k h n = site (construct (λ _. 0) k h n)

-- Some run of `n` threads that have all come to their ends
some_run :
    (k h n : ℕ)
    → IsRoomy k h n
    → (s : Crew full_class) × CrewReach full_class (tree k h n) 1 n s × AllEnded n s
some_run k h n roomy =
    let (_, s, _, _, all, r) =
      workers_end full_class (tree k h n) 1 n
        (class_of-progress (λ _. 0) k h n roomy full_contention)
        (class_of-laws (λ _. 0) k h n roomy full_contention) (CrewReach.raises CrewReach.start) refl
        Ends.none in
    (s, r, all)

abbrev nobody : Crew full_class
nobody = record { flag = false; shared = full_class.fresh; workers = λ _. recruit full_class }

abbrev crew_for : (o : Option (ℕ × ℕ)) (n : ℕ) → IsRoomyIf n o → Crew full_class
crew_for none n roomy = nobody
crew_for (some (k, h)) n roomy = (some_run k h n roomy).0

abbrev crew_at :
    (o : Option (ℕ × ℕ)) (i : ℕ) → ((n : ℕ) → n ≤ 8 → IsRoomyIf n o) → Dec (i < 8) → Crew full_class
crew_at o i roomy (yes lt) = crew_for o (suc i) (roomy (suc i) (omega arith))
crew_at o i roomy (no _) = nobody

crew_at-some :
    (k h i : ℕ) (roomy : (n : ℕ) → n ≤ 8 → IsRoomyIf n (some (k, h))) (d : Dec (i < 8))
    → i < 8
    → let s = crew_at (some (k, h)) i roomy d in
      CrewReach full_class (tree k h (suc i)) 1 (suc i) s × AllEnded (suc i) s
crew_at-some k h i roomy (yes lt) _ =
    let run = some_run k h (suc i) (roomy (suc i) (omega arith)) in (run.1, run.2)
crew_at-some k h i roomy (no ge) lt = absurd (ge lt)

abbrev crews : ℕ → ℕ → Crew full_class
crews j i = crew_at (get_elem? parameters j) i (parameters-IsRoomy j) (dec_lt i 8)

crews_run :
    (j i k h : ℕ)
    → get_elem? parameters j ≡ some (k, h)
    → i < 8
    → CrewReach full_class (tree k h (suc i)) 1 (suc i) (crews j i) × AllEnded (suc i) (crews j i)
crews_run j i k h e lt =
    subst
      (λ o.
        (roomy : (n : ℕ) → n ≤ 8 → IsRoomyIf n o)
        → CrewReach full_class (tree k h (suc i)) 1 (suc i) (crew_at o i roomy (dec_lt i 8))
          × AllEnded (suc i) (crew_at o i roomy (dec_lt i 8)))
      (sym e) (λ roomy. crew_at-some k h i roomy (dec_lt i 8) lt) (parameters-IsRoomy j)

-- The machine that tells threads what they are told in these runs
abbrev manned : Host ℕ (List (ℕ × ℕ))
manned = record dual_core {
  setting = λ j i. record (dual_core.setting j i) { watch = λ t. ((crews j i).workers t).watch };
}

manned-IsMannedBy : IsMannedBy manned full_contention crews
manned-IsMannedBy = record {
  told = λ j i. refl;
  reached = λ j i k h e lt. (crews_run j i k h e lt).0;
  all_ended = λ j i k h e lt. (crews_run j i k h e lt).1;
}

main-crews_example :
    main terms manned full_contention
    ≡ done (
      file_name full_contention,
      table λ j i. throughput terms (suc i) (visits_from (crews j i) 0 (suc i)),
    )
main-crews_example =
    main-crews manned full_contention crews terms dual_core-IsServing.some_core
      dual_core-IsServing.granted dual_core-IsServing.small dual_core-IsServing.allocated
      manned-IsMannedBy
