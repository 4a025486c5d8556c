-- ===== src/Evaluation/Crew/Schedule.antt =====
-- Runs by evaluation: the steps of a schedule, the latest one first.
use scalable_non_zero_indica.Base.{ℕ, Bool, List, [], ◌∷◌}
use native.Mathlib.Decide.{dec_lt}
use scalable_non_zero_indica.Machine.{Site}
use scalable_non_zero_indica.Class.{SnziClass}
use scalable_non_zero_indica.Evaluation.Crew.{Crew, CrewReach, crew_step, work}

pub data CrewEvent : Type 0 where
  raise : CrewEvent
  work_on : (i now : ℕ) (spurious : Bool) → CrewEvent

module _ (c : SnziClass) (tree : Site) (second n : ℕ) where
  -- A step of a thread that is not among the `n` is passed over.
  unfoldable pub crew_played : List CrewEvent → (s : Crew c) × CrewReach c tree second n s
  unfolding crew_step work
  crew_played [] = (_, CrewReach.start)
  crew_played (raise ∷ rest) = let (s, r) = crew_played rest in (_, CrewReach.raises r)
  crew_played (work_on i now spurious ∷ rest) =
      let (s, r) = crew_played rest in
      elim (dec_lt i n) [
        | yes lt ↦ (crew_step c tree second i now spurious s, CrewReach.works i now spurious lt r)
        | no _ ↦ (s, r)
      ]
