-- ===== src/Evaluation/Job.antt =====
-- `thread_job` of the evaluation programs: the calls of one thread and the visits that it counts.
use scalable_non_zero_indica.Base.{
  ℕ, zero, suc, ◌+◌, ◌*◌, ◌%◌, ◌^◌, ◌≤◌, ◌<◌, ◌≡◌, refl, arith, List, [], ◌∷◌, true, false, ltb,
  if◌then◌else◌, Bool-cases, inl, inr, add64, some, done, get_elem?, take, ap, ◌∙◌, sym,
}
use scalable_non_zero_indica.Evaluation.{
  Call, arrives, departs, queries, Watch, duration, wait_for_flag, visit_loop, thread_job,
}

abbrev pub end_of : ℕ → Watch → ℕ
end_of second watch = watch.began + duration * second

-- The flag is set at last, and so is the clock at or past the end time.
pub record IsTimed (second : ℕ) (watch : Watch) : Type 0 where
  pub flagged : (i : ℕ) × (get_elem? watch.flags i ≡ some true)
  pub late : (i t : ℕ) × (get_elem? watch.readings i ≡ some t) × (end_of second watch ≤ t)

abbrev pub arrivals : List Call → ℕ
arrivals [] = 0
arrivals (arrives ∷ calls) = suc (arrivals calls)
arrivals (departs ∷ calls) = arrivals calls
arrivals (queries ∷ calls) = arrivals calls

abbrev pub departures : List Call → ℕ
departures [] = 0
departures (arrives ∷ calls) = departures calls
departures (departs ∷ calls) = suc (departures calls)
departures (queries ∷ calls) = departures calls

-- How many readings come before the first that is not before the end time.
unfoldable pub readings_before : ℕ → List ℕ → ℕ
readings_before end_time [] = 0
readings_before end_time (now ∷ readings) =
    let rest = readings_before end_time readings in if ltb now end_time then suc rest else 0

abbrev visit_calls : ℕ → List Call
visit_calls zero = []
visit_calls (suc m) = arrives ∷ departs ∷ queries ∷ visit_calls m

wait_ends : (flags : List _) (i : ℕ) → get_elem? flags i ≡ some true → wait_for_flag flags ≡ done tt
unfolding wait_for_flag get_elem?
wait_ends [] i e = ground arith
wait_ends (true ∷ flags) i e = refl
wait_ends (false ∷ flags) zero e = ground arith
wait_ends (false ∷ flags) (suc i) e = wait_ends flags i e

count_on : (visits m : ℕ) → (add64 visits 1 + m) % 2 ^ 64 ≡ (visits + suc m) % 2 ^ 64
count_on visits m = omega arith

loop_ends :
    (end_time : ℕ) (readings : List ℕ) (i t visits : ℕ)
    → get_elem? readings i ≡ some t
    → end_time ≤ t
    → visits < 2 ^ 64
    → let m = readings_before end_time readings in
      visit_loop end_time readings visits ≡ done (visit_calls m, (visits + m) % 2 ^ 64)
unfolding visit_loop get_elem? readings_before
loop_ends end_time [] i t visits e le small = ground arith
loop_ends end_time (now ∷ readings) zero t visits e le small =
    let over : ltb now end_time ≡ false = ground arith in
    let kept : (visits + 0) % 2 ^ 64 ≡ visits = omega arith in
    rw over (ap (λ v. done ([], v)) (sym kept))
loop_ends end_time (now ∷ readings) (suc i) t visits e le small =
    let rest = loop_ends end_time readings i t (add64 visits 1) e le (omega arith) in
    let m = readings_before end_time readings in
    elim (Bool-cases (ltb now end_time)) [
      | inl p ↦ rw p (rw rest (ap (λ v. done (visit_calls (suc m), v)) (count_on visits m)))
      | inr p ↦
          let kept : (visits + 0) % 2 ^ 64 ≡ visits = omega arith in
          rw p (ap (λ v. done ([], v)) (sym kept))
    ]

arrivals-visit_calls : (m : ℕ) → arrivals (visit_calls m) ≡ m
arrivals-visit_calls zero = refl
arrivals-visit_calls (suc m) = ap suc (arrivals-visit_calls m)

departures-visit_calls : (m : ℕ) → departures (visit_calls m) ≡ m
departures-visit_calls zero = refl
departures-visit_calls (suc m) = ap suc (departures-visit_calls m)

visit_calls_balance :
    (m i : ℕ)
    → let made = take i (visit_calls m) in
      (departures made ≤ arrivals made) × (arrivals made ≤ departures made + 1)
visit_calls_balance m zero = ground arith
visit_calls_balance zero (suc i) = ground arith
visit_calls_balance (suc m) (suc zero) = ground arith
visit_calls_balance (suc m) (suc (suc zero)) = ground arith
visit_calls_balance (suc m) (suc (suc (suc i))) =
    let rest = visit_calls_balance m i in ground (arith, rest.0, rest.1)

readings_before_lem :
    (end_time : ℕ) (readings : List ℕ) (i : ℕ)
    → i < readings_before end_time readings
    → (t : ℕ) × (get_elem? readings i ≡ some t) × (t < end_time)
unfolding get_elem? readings_before
readings_before_lem end_time [] i lt = absurd (omega arith)
readings_before_lem end_time (now ∷ readings) zero lt = elim (Bool-cases (ltb now end_time)) [
  | inl p ↦ (now, refl, ground arith)
  | inr p ↦ absurd (ground arith)
]
readings_before_lem end_time (now ∷ readings) (suc i) lt = elim (Bool-cases (ltb now end_time)) [
  | inl p ↦ readings_before_lem end_time readings i (ground arith)
  | inr p ↦ absurd (ground arith)
]

-- Where the count stops, the clock is at or past the end time.
readings_before_over :
    (end_time : ℕ) (readings : List ℕ) (i t : ℕ)
    → get_elem? readings i ≡ some t
    → end_time ≤ t
    → (now : ℕ) × (get_elem? readings (readings_before end_time readings) ≡ some now)
      × (end_time ≤ now)
unfolding get_elem? readings_before
readings_before_over end_time [] i t e le = absurd (ground arith)
readings_before_over end_time (now ∷ readings) zero t e le =
    let over : ltb now end_time ≡ false = ground arith in rw over (now, refl, ground arith)
readings_before_over end_time (now ∷ readings) (suc i) t e le =
    elim (Bool-cases (ltb now end_time)) [
      | inl p ↦ rw p (readings_before_over end_time readings i t e le)
      | inr p ↦ rw p (now, refl, ground arith)
    ]

pub job_ends :
    (second : ℕ) (watch : Watch)
    → IsTimed second watch
    → let m = readings_before (end_of second watch) watch.readings in
      thread_job second watch ≡ done (visit_calls m, m % 2 ^ 64)
unfolding thread_job
job_ends second watch timed =
    let (i, set) = timed.flagged in
    let (j, t, e, le) = timed.late in
    let m = readings_before (end_of second watch) watch.readings in
    let same : (0 + m) % 2 ^ 64 ≡ m % 2 ^ 64 = omega arith in
    rw (wait_ends watch.flags i set) (
      loop_ends (end_of second watch) watch.readings j t 0 e le (omega arith)
      ∙ ap (λ v. done (visit_calls m, v)) same)

-- If the flag is set in the end, and so is the clock at or past the end time, then thread_job
-- ends; it calls Arrive and Depart in turn, so that it holds at most one arrival at any time and
-- none at its end, has made an arrival for each reading of the clock before the first that is not
-- before the end time, and counts its arrivals modulo 2 ^ 64.
pub thread_job_lem :
    (second : ℕ) (watch : Watch)
    → IsTimed second watch
    → (calls : List Call) × (visits : ℕ) × (thread_job second watch ≡ done (calls, visits))
      × (visits ≡ arrivals calls % 2 ^ 64)
      × (arrivals calls ≡ departures calls)
      × ((i : ℕ)
          → let made = take i calls in
            (departures made ≤ arrivals made) × (arrivals made ≤ departures made + 1))
      × ((i : ℕ)
          → i < arrivals calls
          → (t : ℕ) × (get_elem? watch.readings i ≡ some t) × (t < end_of second watch))
      × ((now : ℕ) × (get_elem? watch.readings (arrivals calls) ≡ some now)
          × (end_of second watch ≤ now))
thread_job_lem second watch timed =
    let m = readings_before (end_of second watch) watch.readings in
    let (j, t, e, le) = timed.late in
    let counted : m ≡ arrivals (visit_calls m) = sym (arrivals-visit_calls m) in
    (
      visit_calls m,
      m % 2 ^ 64,
      job_ends second watch timed,
      ap (λ a. a % 2 ^ 64) counted,
      arrivals-visit_calls m ∙ sym (departures-visit_calls m),
      visit_calls_balance m,
      λ i lt.
          readings_before_lem (end_of second watch) watch.readings i (omega (arith, lt, counted)),
      rw (sym counted) (readings_before_over (end_of second watch) watch.readings j t e le),
    )
