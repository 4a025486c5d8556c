-- ===== src/Evaluation/Crew/Follows.antt =====
-- Each thread of a run against the sequential `thread_job` of Evaluation: whatever the others do, it
-- makes the calls and counts the visits that this makes of what the thread is told.
use scalable_non_zero_indica.Base.{
  ℕ, ◌+◌, ◌*◌, ◌≡◌, refl, List, [], ◌∷◌, ◌++◌, Bool, true, false, ltb, inl, inr, Bool-cases, sym,
  ap, ◌∙◌, add64, Ending, done, failed, and_then, update_all,
}
use mathlib.Core.Path.{subst}
use mathlib.Core.List.{append_assoc, append-nil}
use scalable_non_zero_indica.Machine.{Site}
use scalable_non_zero_indica.Class.{SnziClass}
use scalable_non_zero_indica.Evaluation.{
  Call, arrives, departs, queries, Watch, duration, wait_for_flag, visit_loop, thread_job,
}
use scalable_non_zero_indica.Evaluation.Crew.{
  Stage, starting, waiting, checking, arriving, departing, ended, Worker, Crew, work, crew_step,
  CrewReach, reads, loads,
}

-- The calls that are made already, before those to come
abbrev extend : List Call → Ending (List Call × ℕ) → Ending (List Call × ℕ)
extend calls (done (more, visits)) = done (calls ++ more, visits)
extend calls (failed e) = failed e

extend-extend :
    (xs ys : List Call) (r : Ending (List Call × ℕ)) → extend xs (extend ys r) ≡ extend (xs ++ ys) r
extend-extend xs ys (done (more, visits)) =
    ap (λ zs. done (zs, visits)) (sym (append_assoc xs ys more))
extend-extend xs ys (failed e) = refl

extend_nothing : (r : Ending (List Call × ℕ)) → extend [] r ≡ r
extend_nothing (done (more, visits)) = refl
extend_nothing (failed e) = refl

-- Another reading before the end time
visit_loop_before :
    (end_time now visits : ℕ) (rest : List ℕ)
    → ltb now end_time ≡ true
    → visit_loop end_time (now ∷ rest) visits
      ≡ extend (arrives ∷ departs ∷ queries ∷ []) (visit_loop end_time rest (add64 visits 1))
unfolding visit_loop
visit_loop_before end_time now visits rest before =
    rw before (visit (visit_loop end_time rest (add64 visits 1)))
  where
    visit :
        (r : Ending (List Call × ℕ))
        → and_then r (λ x. done (arrives ∷ departs ∷ queries ∷ x.0, x.1))
          ≡ extend (arrives ∷ departs ∷ queries ∷ []) r
    visit (done r) = refl
    visit (failed e) = refl

module _ (c : SnziClass) (tree : Site) (second : ℕ) where
  -- What `thread_job` makes of what the thread has been told, with these readings after it
  abbrev told : Watch → List ℕ → Ending (List Call × ℕ)
  told watch rest = thread_job second (record watch { readings = watch.readings ++ rest })

  abbrev Goes : Watch → List Call → ℕ → ℕ → Type 0
  Goes watch calls end_time visits =
      (rest : List ℕ) → told watch rest ≡ extend calls (visit_loop end_time rest visits)

  abbrev pub Follows : Worker c → Stage → Type 0
  Follows w starting = (w.watch.flags ≡ []) × (w.watch.readings ≡ []) × (w.calls ≡ [])
  Follows w (waiting end_time) =
      (end_time ≡ w.watch.began + duration * second)
      × ((more : List Bool) → wait_for_flag (w.watch.flags ++ more) ≡ wait_for_flag more)
      × (w.watch.readings ≡ [])
      × (w.calls ≡ [])
  Follows w (checking end_time) = Goes w.watch w.calls end_time w.visits
  Follows w (arriving end_time) =
      Goes w.watch (w.calls ++ departs ∷ queries ∷ []) end_time (add64 w.visits 1)
  Follows w (departing end_time) =
      Goes w.watch (w.calls ++ queries ∷ []) end_time (add64 w.visits 1)
  Follows w ended = thread_job second w.watch ≡ done (w.calls, w.visits)

  flag_raised :
      (watch : Watch) (calls : List Call) (end_time : ℕ)
      → end_time ≡ watch.began + duration * second
      → ((more : List Bool) → wait_for_flag (watch.flags ++ more) ≡ wait_for_flag more)
      → watch.readings ≡ []
      → calls ≡ []
      → Goes (loads c tree second true watch) calls end_time 0
  unfolding thread_job wait_for_flag
  flag_raised watch calls end_time ends waits none_read none_called rest =
      rw (waits (true ∷ []), none_read, none_called, ends) (sym (extend_nothing _))

  flag_down :
      (watch : Watch) (more : List Bool)
      → ((more : List Bool) → wait_for_flag (watch.flags ++ more) ≡ wait_for_flag more)
      → wait_for_flag ((watch.flags ++ false ∷ []) ++ more) ≡ wait_for_flag more
  unfolding wait_for_flag
  flag_down watch more waits =
      ap wait_for_flag (append_assoc watch.flags (false ∷ []) more) ∙ waits (false ∷ more)

  told-reads :
      (watch : Watch) (now : ℕ) (rest : List ℕ)
      → told (reads c tree second now watch) rest ≡ told watch (now ∷ rest)
  told-reads watch now rest =
      ap (λ rs. thread_job second (record watch { readings = rs }))
        (append_assoc watch.readings (now ∷ []) rest)

  before_end :
      (watch : Watch) (calls : List Call) (end_time now visits : ℕ)
      → ltb now end_time ≡ true
      → Goes watch calls end_time visits
      → Goes
          (reads c tree second now watch)
          ((calls ++ arrives ∷ []) ++ departs ∷ queries ∷ [])
          end_time
          (add64 visits 1)
  before_end watch calls end_time now visits before goes rest =
      told-reads watch now rest
      ∙ goes (now ∷ rest)
      ∙ ap (extend calls) (visit_loop_before end_time now visits rest before)
      ∙ extend-extend calls (arrives ∷ departs ∷ queries ∷ [])
          (visit_loop end_time rest (add64 visits 1))
      ∙ ap (λ cs. extend cs (visit_loop end_time rest (add64 visits 1)))
          (sym (append_assoc calls (arrives ∷ []) (departs ∷ queries ∷ [])))

  past_end :
      (watch : Watch) (calls : List Call) (end_time now visits : ℕ)
      → ltb now end_time ≡ false
      → Goes watch calls end_time visits
      → thread_job second (reads c tree second now watch) ≡ done (calls, visits)
  unfolding visit_loop
  past_end watch calls end_time now visits over goes =
      goes (now ∷ []) ∙ rw over (ap (λ cs. done (cs, visits)) (append-nil calls))

  work-Follows :
      (i now : ℕ) (spurious flag : Bool) (m : c.Shared) (w : Worker c) (stage : Stage)
      → Follows w stage
      → let w' = (work c tree second i now spurious flag m w stage).1 in Follows w' w'.stage
  unfolding work
  work-Follows i now spurious flag m w starting (no_loads, none_read, none_called) =
      (refl, λ more. ap (λ fs. wait_for_flag (fs ++ more)) no_loads, none_read, none_called)
  work-Follows i now spurious true m w (waiting e) (ends, waits, none_read, none_called) =
      flag_raised w.watch w.calls e ends waits none_read none_called
  work-Follows i now spurious false m w (waiting e) (ends, waits, none_read, none_called) =
      (ends, λ more. flag_down w.watch more waits, none_read, none_called)
  work-Follows i now spurious flag m w (checking e) goes = elim (Bool-cases (ltb now e)) [
    | inl before ↦ rw before (before_end w.watch w.calls e now w.visits before goes)
    | inr over ↦ rw over (past_end w.watch w.calls e now w.visits over goes)
  ]
  work-Follows i now spurious flag m w (arriving e) goes = elim (Bool-cases (c.is_idle w.own)) [
    | inl idle ↦ rw idle (λ rest.
        goes rest
        ∙ ap (λ cs. extend cs (visit_loop e rest (add64 w.visits 1)))
            (sym (append_assoc w.calls (departs ∷ []) (queries ∷ []))))
    | inr calls ↦ rw calls goes
  ]
  work-Follows i now spurious flag m w (departing e) goes = elim (Bool-cases (c.is_idle w.own)) [
    | inl idle ↦ rw idle goes
    | inr calls ↦ rw calls goes
  ]
  work-Follows i now spurious flag m w ended goes = goes

  CrewReach-Follows :
      {n : ℕ} {s : Crew c}
      → CrewReach c tree second n s
      → (j : ℕ) → Follows (s.workers j) (s.workers j).stage
  unfolding crew_step
  CrewReach-Follows CrewReach.start j = (refl, refl, refl)
  CrewReach-Follows (CrewReach.raises r) j = CrewReach-Follows r j
  CrewReach-Follows (CrewReach.works {s} i now spurious lt r) j =
      let w = s.workers i in
      let after = work c tree second i now spurious s.flag s.shared w w.stage in
      update_all (λ k v. Follows v v.stage) s.workers i after.1
        (work-Follows i now spurious s.flag s.shared w w.stage (CrewReach-Follows r i))
        (CrewReach-Follows r) j

  ended-Follows :
      (w : Worker c) (stage : Stage)
      → stage ≡ ended
      → Follows w stage
      → thread_job second w.watch ≡ done (w.calls, w.visits)
  ended-Follows w stage e follows = subst (Follows w) e follows

  -- For any class with the interface of SnziClass and under any interleaving of the steps of
  -- threads 0 to n - 1 in thread_job, any readings of the clock and any moment at which flag is
  -- set: if a thread has come to the end of thread_job, then thread_job as a function of what its
  -- clock and flag told this thread ends with the calls that the thread has made, in their order,
  -- and with the visits that it has counted.
  pub worker_lem :
      {n : ℕ} {s : Crew c}
      → CrewReach c tree second n s
      → (j : ℕ) → (s.workers j).stage ≡ ended
      → thread_job second (s.workers j).watch ≡ done ((s.workers j).calls, (s.workers j).visits)
  worker_lem {n} {s} r j e =
      ended-Follows (s.workers j) (s.workers j).stage e (CrewReach-Follows r j)
