-- ===== src/Machine/Shape.antt =====
-- When a call of the tree commits, read off the arrivals that its stack has to its name.
use scalable_non_zero_indica.Base.{ℕ, ◌+◌, ◌-◌, ◌≤◌, ◌≡◌, refl, arith, List, [], ◌∷◌, sym, ◌∙◌}
use mathlib.Core.Path.{subst}
use scalable_non_zero_indica.Node.{
  Op, arrive, depart, Action, goes, calls, returns, stake, yield, NodeCode, NodeLaws, Keeps,
  Commits,
}
use scalable_non_zero_indica.Machine.{
  Site, Memory, Frame, in_root, in_node, Suspended, Task, idle, busy, enter, resume, perform,
  frame_op,
}
use scalable_non_zero_indica.Machine.Books.Access.{enter_op}
use scalable_non_zero_indica.Machine.Books.{frame_units, parked_units}

module _ (code : NodeCode) where
  open code use {Cell, Pc, op_of, own, up}

  abbrev pub frame_weight : Frame Pc → ℕ
  frame_weight (in_root op) = stake op
  frame_weight (in_node v p) = own p + up p

  abbrev pub load : Suspended Pc → ℕ
  load s = own s.pc + (up s.pc - yield s.called)

  abbrev pub loads : List (Suspended Pc) → ℕ
  loads [] = 0
  loads (s ∷ below) = load s + loads below

  -- All the arrivals that a task has to its name, at whatever node.
  abbrev pub carried : Task Pc → ℕ
  carried idle = 0
  carried (busy f below) = frame_weight f + loads below

  -- The operation of the outermost call.
  abbrev pub outer : Op → List (Suspended Pc) → Op
  outer op [] = op
  outer op (s ∷ below) = outer (op_of s.pc) below

  -- Arrivals wait for arrivals, with nothing yet to their name; a departure is called by a
  -- departure that has nothing left, or by an arrival that keeps one.
  abbrev pub Shape : Op → List (Suspended Pc) → Type 0
  Shape op [] = Unit
  Shape arrive (s ∷ below) = (op_of s.pc ≡ arrive) × (load s ≡ 0) × Shape arrive below
  Shape depart (s ∷ below) = (load s ≡ yield (op_of s.pc)) × Shape (op_of s.pc) below

  pub loads_lem :
      (op : Op) (below : List (Suspended Pc))
      → Shape op below
      → loads below + yield op ≡ yield (outer op below)
  loads_lem op [] h = omega arith
  loads_lem arrive (s ∷ below) (e, z, h) = rw e (omega (arith, loads_lem arrive below h))
  loads_lem depart (s ∷ below) (z, h) = omega (arith, loads_lem (op_of s.pc) below h)

  outer-arrive : (below : List (Suspended Pc)) → Shape arrive below → outer arrive below ≡ arrive
  outer-arrive [] h = refl
  outer-arrive (s ∷ below) (e, z, h) = rw e (outer-arrive below h)

  module _ (tree : Site) where
    abbrev pub ShapedTask : Task Pc → Type 0
    ShapedTask idle = Unit
    ShapedTask (busy f below) = Shape (frame_op code tree f) below

    abbrev pub outer_op : Task Pc → Op
    outer_op idle = depart
    outer_op (busy f below) = outer (frame_op code tree f) below

    pub parked-le-loads :
        (u : ℕ) (below : List (Suspended Pc)) → parked_units code tree u below ≤ loads below
    parked-le-loads u [] = omega arith
    parked-le-loads u (s ∷ below) = ground (arith, parked-le-loads u below)

    pub frame_units-le : (u : ℕ) (f : Frame Pc) → frame_units code tree u f ≤ frame_weight f
    frame_units-le u (in_root op) = ground arith
    frame_units-le u (in_node v p) = ground arith

module _ (code : NodeCode) (laws : NodeLaws code) (tree : Site) where
  open code use {Cell, Pc, op_of, own, up}

  enter-Shape :
      (v : ℕ) (op : Op) (below : List (Suspended Pc))
      → Shape code op below
      → ShapedTask code tree (busy (enter code tree v op) below)
  enter-Shape v op below = subst (λ o. Shape code o below) (sym (enter_op code laws tree v op))

  pub resume-Shape :
      (op : Op) (below : List (Suspended Pc))
      → Shape code op below
      → ShapedTask code tree (resume code tree below)
  unfolding resume
  resume-Shape op [] h = tt
  resume-Shape arrive (s ∷ below) (e, z, h) = subst (λ o. Shape code o below) (sym e) h
  resume-Shape depart (s ∷ below) (z, h) = h

  pub perform-Shape :
      (m : Memory Cell) (v : ℕ) (p : Pc) (below : List (Suspended Pc)) (o : Op) (a : Action Cell Pc)
      → op_of p ≡ o
      → Keeps code (m.cells v) p a
      → Commits code o p a
      → Shape code o below
      → ShapedTask code tree (perform code tree m v below a).1
  unfolding perform
  perform-Shape m v p below o (goes c' p') e k w h =
      subst (λ q. Shape code q below) (sym (k.1 ∙ e)) h
  perform-Shape m v p below o (returns c') e k w h = resume-Shape o below h
  perform-Shape m v p below arrive (calls arrive c' p') e k w h =
      enter-Shape (tree.parent v) arrive (record { node = v; pc = p'; called = arrive } ∷ below)
        (k.1 ∙ e, omega arith, h)
  perform-Shape m v p below arrive (calls depart c' p') e k w h =
      enter-Shape (tree.parent v) depart (record { node = v; pc = p'; called = depart } ∷ below)
        (rw (k.1 ∙ e) (omega arith), subst (λ q. Shape code q below) (sym (k.1 ∙ e)) h)
  perform-Shape m v p below depart (calls arrive c' p') e k w h = absurd w
  perform-Shape m v p below depart (calls depart c' p') e k w h =
      enter-Shape (tree.parent v) depart (record { node = v; pc = p'; called = depart } ∷ below)
        (rw (k.1 ∙ e) (omega arith), subst (λ q. Shape code q below) (sym (k.1 ∙ e)) h)
