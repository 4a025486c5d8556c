-- ===== src/Evaluation/Crew/Queries.antt =====
-- What `Query` answers in a run, by where the threads stand in `thread_job`.
use scalable_non_zero_indica.Base.{
  ℕ, zero, suc, ◌<◌, ◌≡◌, ◌⊎◌, inl, inr, arith, Bool, true, false, not, ◌||◌, some, get_elem?,
  le-sum, sum-eq-zero, sym, ap, ◌∙◌, Bool-cases,
}
use native.Mathlib.Decide.{dec_lt}
use scalable_non_zero_indica.Indicator.{Client, answer}
use scalable_non_zero_indica.Indicator.Surplus.{weight, surplus_lem}
use scalable_non_zero_indica.Tree.{construct}
use scalable_non_zero_indica.Machine.{site}
use scalable_non_zero_indica.Node.{arrive, depart}
use scalable_non_zero_indica.Machine.{Site}
use scalable_non_zero_indica.Class.{SnziClass, SnziLaws, at_rest}
use scalable_non_zero_indica.Evaluation.{Program, num_threads, parameters}
use scalable_non_zero_indica.Evaluation.Experiment.{Setting}
use scalable_non_zero_indica.Evaluation.Crew.{
  Stage, starting, waiting, checking, arriving, departing, ended, Crew, CrewReach,
}
use scalable_non_zero_indica.Evaluation.Crew.Placed.{Placed, CrewReach-Placed, returned}
use scalable_non_zero_indica.Evaluation.Crew.Programs.{class_of, run_laws}

-- Whether some number below `n` passes the test
unfoldable pub some_below : ℕ → (ℕ → Bool) → Bool
some_below zero p = false
some_below (suc n) p = some_below n p || p n

some_below_lem : (n : ℕ) (p : ℕ → Bool) → some_below n p ≡ true → (t : ℕ) × (t < n) × (p t ≡ true)
unfolding some_below
some_below_lem zero p e = absurd (ground arith)
some_below_lem (suc n) p e = elim (Bool-cases (p n)) [
  | inl here ↦ (n, omega arith, here)
  | inr not_here ↦
      let below : some_below n p ≡ true = ground arith in
      let (t, lt, passes) = some_below_lem n p below in (t, omega arith, passes)
]

none_below_lem : (n : ℕ) (p : ℕ → Bool) → some_below n p ≡ false → (t : ℕ) → t < n → p t ≡ false
unfolding some_below
none_below_lem zero p e t lt = absurd (omega arith)
none_below_lem (suc n) p e t lt = elim (dec_lt t n) [
  | yes below ↦ let rest : some_below n p ≡ false = ground arith in none_below_lem n p rest t below
  | no last ↦
      let here : p n ≡ false = ground arith in let same : t ≡ n = omega arith in ap p same ∙ here
]

-- Back from `Arrive`, and not yet in `Depart`
abbrev pub has_arrived : Stage → Bool → Bool
has_arrived starting idle = false
has_arrived (waiting end_time) idle = false
has_arrived (checking end_time) idle = false
has_arrived (arriving end_time) idle = idle
has_arrived (departing end_time) idle = false
has_arrived ended idle = false

-- In `Arrive`, back from it, or in `Depart`
abbrev pub is_visiting : Stage → Bool → Bool
is_visiting starting idle = false
is_visiting (waiting end_time) idle = false
is_visiting (checking end_time) idle = false
is_visiting (arriving end_time) idle = true
is_visiting (departing end_time) idle = not idle
is_visiting ended idle = false

module _ (c : SnziClass) where
  abbrev pub arrivals : Crew c → ℕ → Bool
  arrivals s t = has_arrived (s.workers t).stage (c.is_idle (s.workers t).own)

  abbrev pub visitors : Crew c → ℕ → Bool
  visitors s t = is_visiting (s.workers t).stage (c.is_idle (s.workers t).own)

module _ (c : SnziClass) (tree : Site) (second n : ℕ) (laws : SnziLaws c tree n) where
  open laws use {client, idle_quiet}

  rest_weight : (held : ℕ) (k : Client) → k ≡ at_rest held → weight k ≡ held
  rest_weight held k e = let w : weight (at_rest held) ≡ held = omega arith in ap weight e ∙ w

  arrived_weight :
      (own : c.Thread) (stage : Stage)
      → has_arrived stage (c.is_idle own) ≡ true
      → Placed stage (client own)
      → weight (client own) ≡ 1
  arrived_weight own starting e placed = absurd (ground arith)
  arrived_weight own (waiting x) e placed = absurd (ground arith)
  arrived_weight own (checking x) e placed = absurd (ground arith)
  arrived_weight own (arriving x) e placed =
      rest_weight 1 (client own) (returned arrive 1 (client own) (sym (idle_quiet own) ∙ e) placed)
  arrived_weight own (departing x) e placed = absurd (ground arith)
  arrived_weight own ended e placed = absurd (ground arith)

  away_weight :
      (own : c.Thread) (stage : Stage)
      → is_visiting stage (c.is_idle own) ≡ false
      → Placed stage (client own)
      → weight (client own) ≡ 0
  away_weight own starting e placed = rest_weight 0 (client own) placed
  away_weight own (waiting x) e placed = rest_weight 0 (client own) placed
  away_weight own (checking x) e placed = rest_weight 0 (client own) placed
  away_weight own (arriving x) e placed = absurd (ground arith)
  away_weight own (departing x) e placed =
      let idle : c.is_idle own ≡ true = ground arith in
      rest_weight 0 (client own)
        (returned depart 0 (client own) (sym (idle_quiet own) ∙ idle) placed)
  away_weight own ended e placed = rest_weight 0 (client own) placed

  -- Whatever the class, the answer lies between what is surely so and what may be so.
  pub query_between :
      {s : Crew c}
      → CrewReach c tree second n s
      → ((some_below n (arrivals c s) ≡ false) ⊎ (c.query s.shared ≡ true))
        × ((c.query s.shared ≡ false) ⊎ (some_below n (visitors c s) ≡ true))
  query_between {s} r =
      let (reached, placed) = CrewReach-Placed c tree second n laws r in
      let (_, run, answers) = laws.runs reached in
      let total = surplus_lem run in
      let weights : ℕ → ℕ = λ t. weight (client (s.workers t).own) in
      (
        elim (Bool-cases (some_below n (arrivals c s))) [
          | inl some_arrival ↦
              let (t, lt, there) = some_below_lem n (arrivals c s) some_arrival in
              let one = arrived_weight (s.workers t).own (s.workers t).stage there (placed t) in
              let positive : answer (laws.surplus (λ i. (s.workers i).own)) ≡ true =
                ground (arith, le-sum n weights t lt) in
              inr (answers ∙ positive)
          | inr no_arrival ↦ inl no_arrival
        ],
        elim (Bool-cases (some_below n (visitors c s))) [
          | inl some_visitor ↦ inr some_visitor
          | inr no_visitor ↦
              let empty = sum-eq-zero n weights (λ t lt.
                away_weight (s.workers t).own (s.workers t).stage
                  (none_below_lem n (visitors c s) no_visitor t lt) (placed t)) in
              let zero_surplus : laws.surplus (λ i. (s.workers i).own) ≡ 0 = total ∙ empty in
              inl (answers ∙ ap answer zero_surplus)
        ],
      )

-- In each run of one of the three evaluation programs, with its K and H from the list of
-- parameters and its number n of threads from num_threads, whatever the fresh memory holds, under
-- any interleaving of the steps of threads 0 to n - 1 in thread_job, any readings of the clock and
-- any moment at which flag is set: in every state reached, Query is true if some thread is back
-- from Arrive and has not called Depart yet, and is true only if some thread is in Arrive, back
-- from it, or in Depart.
pub programs_query :
    {World : Type 0} (program : Program) (at : Setting World) (second j i k h n : ℕ)
    → get_elem? parameters j ≡ some (k, h)
    → get_elem? num_threads i ≡ some n
    → {s : Crew (class_of program)}
    → CrewReach (class_of program) (site (construct at.memory k h n)) second n s
    → ((some_below n (arrivals (class_of program) s) ≡ false)
        ⊎ ((class_of program).query s.shared ≡ true))
      × (((class_of program).query s.shared ≡ false)
          ⊎ (some_below n (visitors (class_of program) s) ≡ true))
programs_query program at second j i k h n params count =
    query_between (class_of program) (site (construct at.memory k h n)) second n
      (run_laws program at second j i k h n params count)
