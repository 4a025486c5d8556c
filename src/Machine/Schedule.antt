-- ===== src/Machine/Schedule.antt =====
-- States of the tree by evaluation: the events of a schedule, the latest one first.
use scalable_non_zero_indica.Base.{ℕ, suc, ◌<◌, ◌≡◌, refl, false, List, [], ◌∷◌}
use native.Mathlib.Decide.{dec_lt}
use scalable_non_zero_indica.Node.{NodeCode}
use scalable_non_zero_indica.Machine.Settles.{Accesses, then_one}
use scalable_non_zero_indica.Machine.{
  Task, idle, busy, access, Site, System, Event, turn, initial, react, advance, perform, resume,
  enter, settle, root_access, Reach, start, later,
}

module _ (code : NodeCode) (tree : Site) (n quota : ℕ) where
  -- An event of a thread that is not among the `n` is passed over.
  unfoldable pub played :
      List (ℕ × Event) → (s : System code.Cell code.Pc) × Reach code tree n quota s
  unfolding turn initial react advance perform resume enter settle root_access
  played [] = (initial code tree, start)
  played ((i, e) ∷ rest) =
      let (s, r) = played rest in
      elim (dec_lt i n) [ yes lt ↦ (turn code tree quota i e s, later i e lt r) | no _ ↦ (s, r) ]

module _ (code : NodeCode) (tree : Site) (n quota : ℕ) where
  open code use {Cell, Pc}

  abbrev pub Served : System Cell Pc → Type 0
  Served s = (j : ℕ) × (s' : System Cell Pc) × Accesses code tree n quota s j s'

  -- An access of thread `i`, if it is in a call, before the rest.
  abbrev served :
      (s : System Cell Pc) (i : ℕ) (t : Task Pc)
      → (s.threads i).task ≡ t
      → i < n
      → ((s' : System Cell Pc) → Served s')
      → Served s
  served s i idle e lt rest = rest s
  served s i (busy f below) e lt rest =
      let (j, s', run) = rest (turn code tree quota i (access false) s) in
      (suc j, s', then_one i f below lt e run)

  -- The accesses of the listed threads, the first one first
  unfoldable pub accessed : List ℕ → (s : System Cell Pc) → Served s
  accessed [] s = (0, s, Accesses.none)
  accessed (i ∷ is) s =
      let rest = accessed is in
      elim (dec_lt i n) [ yes lt ↦ served s i (s.threads i).task refl lt rest | no _ ↦ rest s ]
