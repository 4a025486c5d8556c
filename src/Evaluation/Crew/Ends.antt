-- ===== src/Evaluation/Crew/Ends.antt =====
-- The threads of a run come to the end of `thread_job`, once `flag` is set and the time is over.
use scalable_non_zero_indica.Base.{
  ℕ, zero, suc, ◌+◌, ◌≤◌, ◌<◌, ◌≡◌, ◌≢◌, ◌⊎◌, inl, inr, refl, arith, Bool, true, false, ltb, sym,
  ap, ◌∙◌, Bool-cases, sum, sum-update, update, update_same, map-update,
}
use mathlib.Core.Path.{fun_ext}
use native.Mathlib.Decide.{dec_lt}
use scalable_non_zero_indica.Machine.{Site}
use scalable_non_zero_indica.Node.{depart}
use scalable_non_zero_indica.Class.{SnziClass, ClassReach, SnziLaws, SnziProgress}
use scalable_non_zero_indica.Evaluation.Crew.{
  Stage, starting, waiting, checking, arriving, departing, ended, Worker, Crew, work, crew_step,
  CrewReach,
}
use scalable_non_zero_indica.Evaluation.Crew.Placed.{CrewReach-Placed}

-- The clock reads at least the end time, where the loop of the thread tests it.
abbrev pub IsOver : ℕ → Stage → Type 0
IsOver now starting = Unit
IsOver now (waiting end_time) = Unit
IsOver now (checking end_time) = end_time ≤ now
IsOver now (arriving end_time) = Unit
IsOver now (departing end_time) = Unit
IsOver now ended = Unit

-- A number of steps, each by some thread that has not come to its end: no compare-exchange fails for
-- no reason, and the time is over wherever a thread tests it.
pub data CrewSteps (c : SnziClass) (tree : Site) (second n : ℕ) : Crew c → ℕ → Crew c → Type 0 where
  none : {s : Crew c} → CrewSteps c tree second n s 0 s
  then_one :
      {s s' : Crew c} {k : ℕ} (i now : ℕ)
      → i < n
      → (s.workers i).stage ≢ ended
      → IsOver now (s.workers i).stage
      → CrewSteps c tree second n (crew_step c tree second i now false s) k s'
      → CrewSteps c tree second n s (suc k) s'

abbrev pub AllEnded : {c : SnziClass} → ℕ → Crew c → Type 0
AllEnded n s = (i : ℕ) → i < n → (s.workers i).stage ≡ ended

IsOver-sometime : (stage : Stage) → (now : ℕ) × IsOver now stage
IsOver-sometime starting = (0, tt)
IsOver-sometime (waiting e) = (0, tt)
IsOver-sometime (checking e) = (e, omega arith)
IsOver-sometime (arriving e) = (0, tt)
IsOver-sometime (departing e) = (0, tt)
IsOver-sometime ended = (0, tt)

abbrev pub is_ended : Stage → Bool
is_ended starting = false
is_ended (waiting e) = false
is_ended (checking e) = false
is_ended (arriving e) = false
is_ended (departing e) = false
is_ended ended = true

is_ended_lem : (stage : Stage) → is_ended stage ≡ true → stage ≡ ended
is_ended_lem starting e = absurd (ground arith)
is_ended_lem (waiting x) e = absurd (ground arith)
is_ended_lem (checking x) e = absurd (ground arith)
is_ended_lem (arriving x) e = absurd (ground arith)
is_ended_lem (departing x) e = absurd (ground arith)
is_ended_lem ended e = refl

pub not_ended : (stage : Stage) → is_ended stage ≡ false → stage ≢ ended
not_ended stage e at_end =
    let there : is_ended stage ≡ true = ap is_ended at_end in absurd (ground arith)

some_or_none :
    {c : SnziClass} (n : ℕ) (s : Crew c)
    → ((i : ℕ) × (i < n) × ((s.workers i).stage ≢ ended)) ⊎ AllEnded n s
some_or_none zero s = inr (λ i lt. absurd (omega arith))
some_or_none (suc n) s = elim (Bool-cases (is_ended (s.workers n).stage)) [
  | inr moves ↦ inl (n, omega arith, not_ended (s.workers n).stage moves)
  | inl here ↦ elim (some_or_none n s) [
    | inl (i, lt, moves) ↦ inl (i, omega arith, moves)
    | inr below ↦ inr (λ i lt. elim (dec_lt i n) [
      | yes lt' ↦ below i lt'
      | no last ↦
          let e : i ≡ n = omega arith in
          ap (λ j. (s.workers j).stage) e ∙ is_ended_lem (s.workers n).stage here
    ])
  ]
]

module _ (c : SnziClass) (tree : Site) (second n : ℕ) (progress : SnziProgress c tree n) where
  open progress use {left, jump, falls, jumps}

  -- The steps up to the end outside of accesses, where an invocation of `Depart` counts for those
  -- that it brings with it.
  abbrev stage_cost : Stage → ℕ
  stage_cost ended = 0
  stage_cost (checking end_time) = 1
  stage_cost (waiting end_time) = 2
  stage_cost (departing end_time) = 2
  stage_cost starting = 3
  stage_cost (arriving end_time) = 3 + jump

  abbrev owns : (ℕ → Worker c) → ℕ → c.Thread
  owns workers j = (workers j).own

  abbrev pub steps_left : Crew c → ℕ
  steps_left s = left s.shared (owns s.workers) + sum n (λ j. stage_cost (s.workers j).stage)

  left_same :
      (i : ℕ) (m : c.Shared) (workers : ℕ → Worker c) (w : Worker c)
      → w.own ≡ (workers i).own
      → left m (owns (update workers i w)) ≡ left m (owns workers)
  left_same i m workers w e = ap (left m) (
      fun_ext
        λ j. sym (map-update (λ v. v.own) workers i w j) ∙ update_same (owns workers) i w.own e j)

  left_update :
      (i : ℕ) (m : c.Shared) (workers : ℕ → Worker c) (w : Worker c)
      → left m (owns (update workers i w)) ≡ left m (update (owns workers) i w.own)
  left_update i m workers w = ap (left m) (fun_ext λ j. sym (map-update (λ v. v.own) workers i w j))

  work_lowers :
      (i now : ℕ) (m : c.Shared) (workers : ℕ → Worker c) (stage : Stage)
      → i < n
      → ClassReach c tree n m (owns workers)
      → stage ≢ ended
      → IsOver now stage
      → let (m', w) = work c tree second i now false true m (workers i) stage in
        left m' (owns (update workers i w)) + stage_cost w.stage + 1
        ≤ left m (owns workers) + stage_cost stage
  unfolding work
  work_lowers i now m workers starting lt r moves over = omega (arith, left_same i m workers _ refl)
  work_lowers i now m workers (waiting e) lt r moves over =
      omega (arith, left_same i m workers _ refl)
  work_lowers i now m workers (checking e) lt r moves over =
      let late : ltb now e ≡ false = ground arith in
      rw late (omega (arith, left_same i m workers _ refl))
  work_lowers i now m workers (arriving e) lt r moves over =
      elim (Bool-cases (c.is_idle (workers i).own)) [
        | inl idle ↦
            rw idle
              (omega (arith, left_update i _ workers _, jumps depart i m (owns workers) lt idle))
        | inr calls ↦ rw calls (omega (arith, left_update i _ workers _, falls i lt r calls))
      ]
  work_lowers i now m workers (departing e) lt r moves over =
      elim (Bool-cases (c.is_idle (workers i).own)) [
        | inl idle ↦ rw idle (omega (arith, left_same i m workers _ refl))
        | inr calls ↦ rw calls (omega (arith, left_update i _ workers _, falls i lt r calls))
      ]
  work_lowers i now m workers ended lt r moves over = absurd (moves refl)

  module _ (laws : SnziLaws c tree n) where
    step_lowers :
        (i now : ℕ) {s : Crew c}
        → i < n
        → CrewReach c tree second n s
        → s.flag ≡ true
        → (s.workers i).stage ≢ ended
        → IsOver now (s.workers i).stage
        → (steps_left (crew_step c tree second i now false s) + 1 ≤ steps_left s)
          × ((crew_step c tree second i now false s).flag ≡ true)
    unfolding crew_step
    step_lowers i now {s} lt r raised moves over =
        let w = s.workers i in
        let reached = (CrewReach-Placed c tree second n laws r).0 in
        rw raised (
          omega (
            arith,
            work_lowers i now s.shared s.workers w.stage lt reached moves over,
            sum-update (λ v. stage_cost v.stage) n i s.workers
                (work c tree second i now false true s.shared w w.stage).1 lt,
          ),
          refl,
        )

    run_lowers :
        {s s' : Crew c} {k : ℕ}
        → CrewReach c tree second n s
        → s.flag ≡ true
        → CrewSteps c tree second n s k s'
        → (k + steps_left s' ≤ steps_left s) × CrewReach c tree second n s' × (s'.flag ≡ true)
    run_lowers r raised none = (omega arith, r, raised)
    run_lowers r raised (then_one i now lt moves over rest) =
        let (lowers, raised') = step_lowers i now lt r raised moves over in
        let (rest_lowers, r', still) = run_lowers (CrewReach.works i now false lt r) raised' rest in
        (omega (arith, lowers, rest_lowers), r', still)

    -- As long as steps are left by the measure, a thread that has not come to its end can make one.
    finish :
        (fuel : ℕ) {s : Crew c}
        → CrewReach c tree second n s
        → s.flag ≡ true
        → steps_left s ≤ fuel
        → (s' : Crew c) × (k : ℕ) × CrewSteps c tree second n s k s' × AllEnded n s'
    finish zero {s} r raised le = elim (some_or_none n s) [
      | inl (i, lt, moves) ↦
          let (now, over) = IsOver-sometime (s.workers i).stage in
          absurd (omega (arith, (step_lowers i now lt r raised moves over).0))
      | inr all ↦ (s, 0, none, all)
    ]
    finish (suc fuel) {s} r raised le = elim (some_or_none n s) [
      | inl (i, lt, moves) ↦
          let (now, over) = IsOver-sometime (s.workers i).stage in
          let (lowers, raised') = step_lowers i now lt r raised moves over in
          let (s', k, rest, all) =
            finish fuel (CrewReach.works i now false lt r) raised' (omega (arith, lowers)) in
          (s', suc k, then_one i now lt moves over rest, all)
      | inr all ↦ (s, 0, none, all)
    ]

    -- Whatever the class, a run with `flag` set is bounded, and goes on until all threads have come
    -- to their ends.
    pub workers_end :
        {s s' : Crew c} {k : ℕ}
        → CrewReach c tree second n s
        → s.flag ≡ true
        → CrewSteps c tree second n s k s'
        → (k ≤ steps_left s)
          × (s'' : Crew c) × (k' : ℕ) × CrewSteps c tree second n s' k' s''
          × AllEnded n s''
          × CrewReach c tree second n s''
    workers_end {s} {s'} {k} r raised run =
        let (bounded, r', still) = run_lowers r raised run in
        let (s'', k', more, all) = finish (steps_left s') r' still (omega arith) in
        (omega (arith, bounded), s'', k', more, all, (run_lowers r' still more).1)
