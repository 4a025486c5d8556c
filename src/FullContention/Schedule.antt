-- ===== src/FullContention/Schedule.antt =====
-- States of `full_contention_handling_snzi` by evaluation: the events of a schedule, the latest one
-- first.
use scalable_non_zero_indica.Base.{
  ℕ, suc, ◌≡◌, ◌≢◌, ◌⊎◌, inl, inr, refl, arith, false, List, [], ◌∷◌,
}
use native.Mathlib.Decide.{dec_lt}
use scalable_non_zero_indica.SemiContention
use scalable_non_zero_indica.Machine.{
  Frame, Suspended, Site, Event, access, advance, perform, resume, enter, root_access,
}
use scalable_non_zero_indica.FullContention.{
  Pc, note_failures, arrive_directly, turn_to_tree, depart_directly, arrive_route, depart_route,
}
use scalable_non_zero_indica.FullContention.System.{
  Activity, resting, arriving_directly, departing_directly, in_tree, FullSystem, start_call,
  after_direct, after_tree, visit, full_turn, full_initial, FullReach, start, later,
}
use scalable_non_zero_indica.FullContention.Settles.{FullAccesses}

module _ (tree : Site) (n quota : ℕ) where
  -- An event of a thread that is not among the `n` is passed over.
  unfoldable pub full_played : List (ℕ × Event) → (s : FullSystem) × FullReach tree n quota s
  unfolding full_turn full_initial visit start_call after_direct after_tree note_failures
      arrive_directly turn_to_tree depart_directly arrive_route depart_route advance perform resume
      enter root_access
  full_played [] = (full_initial, start)
  full_played ((i, e) ∷ rest) =
      let (s, r) = full_played rest in
      elim (dec_lt i n) [ yes lt ↦ (full_turn tree quota i e s, later i e lt r) | no _ ↦ (s, r) ]

pub arriving_moves : (pc : Pc) → arriving_directly pc ≢ resting
arriving_moves pc = ground arith

pub departing_moves : departing_directly ≢ resting
departing_moves = ground arith

pub in_tree_moves :
    (f : Frame SemiContention.Pc) (below : List (Suspended SemiContention.Pc))
    → in_tree f below ≢ resting
in_tree_moves f below = ground arith

module _ (tree : Site) (n : ℕ) where
  abbrev pub FullServed : FullSystem → Type 0
  FullServed s = (j : ℕ) × (s' : FullSystem) × FullAccesses n tree s j s'

  unfoldable at_rest : (act : Activity) → (act ≡ resting) ⊎ (act ≢ resting)
  at_rest resting = inl refl
  at_rest (arriving_directly pc) = inr (arriving_moves pc)
  at_rest departing_directly = inr departing_moves
  at_rest (in_tree f below) = inr (in_tree_moves f below)

  -- The accesses of the listed threads, the first one first, as far as they are in calls
  unfoldable pub full_accessed : List ℕ → (s : FullSystem) → FullServed s
  unfolding at_rest
  full_accessed [] s = (0, s, FullAccesses.none)
  full_accessed (i ∷ is) s =
      let rest = full_accessed is in
      elim (dec_lt i n) [
        | yes lt ↦ elim (at_rest (s.visitors i).activity) [
          | inl rests ↦ rest s
          | inr moves ↦
              let (j, s', run) = rest (full_turn tree 1 i (access false) s) in
              (suc j, s', FullAccesses.then_one i lt moves run)
        ]
        | no _ ↦ rest s
      ]
