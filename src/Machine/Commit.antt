-- ===== src/Machine/Commit.antt =====
-- How an access moves a call of the tree on between its invocation and its return.
use scalable_non_zero_indica.Base.{
  ℕ, ◌+◌, ◌≤◌, ◌<◌, ◌≡◌, refl, arith, List, [], ◌∷◌, Bool, sym, ap, ◌∙◌,
}
use mathlib.Core.Path.{subst}
use scalable_non_zero_indica.Node.{
  Op, arrive, depart, Action, goes, calls, returns, stake, yield, NodeCode, NodeLaws, Keeps,
  Commits,
}
use scalable_non_zero_indica.Machine.{
  Site, Memory, Frame, in_root, in_node, Suspended, Task, idle, busy, enter, resume, perform,
  advance, frame_op,
}
use scalable_non_zero_indica.Machine.Books.Access.{enter_op}
use scalable_non_zero_indica.Machine.Books.{Chain, Ready, GoodTask}
use scalable_non_zero_indica.Machine.Shape.{
  frame_weight, loads, carried, outer, Shape, loads_lem, ShapedTask, outer_op, perform-Shape,
  resume-Shape,
}

module _ (code : NodeCode) (tree : Site) where
  open code use {Cell, Pc, op_of, own, up}

  -- What an access makes of a task whose outermost operation is `o`, with `before` arrivals to
  -- its name: an arrival keeps at least one once it has one, a departure gains none.
  abbrev pub Progress : Op → ℕ → Task Pc → Type 0
  Progress arrive before idle = Unit
  Progress arrive before (busy f below) = 0 < before → 0 < carried code (busy f below)
  Progress depart before t = carried code t ≤ before

  -- The outermost operation stays the same, and it is `op` that returns where it returns.
  abbrev pub SameOuter : Op → Op → Task Pc → Type 0
  SameOuter o op idle = op ≡ o
  SameOuter o op (busy f below) = outer_op code tree (busy f below) ≡ o

module _ (code : NodeCode) (laws : NodeLaws code) (tree : Site) where
  open code use {Cell, Pc, op_of, own, up}

  pub enter_weight : (v : ℕ) (op : Op) → frame_weight code (enter code tree v op) ≡ stake op
  unfolding enter
  enter_weight v op = ground (arith, laws.entry_own op, laws.entry_up op)

  enter-SameOuter :
      (o op q : Op) (v : ℕ) (below : List (Suspended Pc))
      → outer code q below ≡ o
      → SameOuter code tree o op (busy (enter code tree v q) below)
  enter-SameOuter o op q v below e =
      subst (λ r. outer code r below ≡ o) (sym (enter_op code laws tree v q)) e

  resume-SameOuter :
      (o op : Op) (below : List (Suspended Pc))
      → outer code op below ≡ o
      → SameOuter code tree o op (resume code tree below)
  unfolding resume
  resume-SameOuter o op [] e = e
  resume-SameOuter o op (s ∷ below) e = e

  perform-SameOuter :
      (m : Memory Cell) (v : ℕ) (p : Pc) (below : List (Suspended Pc)) (o : Op) (a : Action Cell Pc)
      → Keeps code (m.cells v) p a
      → outer code (op_of p) below ≡ o
      → SameOuter code tree o (op_of p) (perform code tree m v below a).1
  unfolding perform
  perform-SameOuter m v p below o (goes c' p') k e = rw (k.1) e
  perform-SameOuter m v p below o (calls op c' p') k e =
      enter-SameOuter o (op_of p) op (tree.parent v)
        (record { node = v; pc = p'; called = op } ∷ below) (rw (k.1) e)
  perform-SameOuter m v p below o (returns c') k e = resume-SameOuter o (op_of p) below e

  -- The outermost operation arrives.
  resume-rises :
      (tid v n : ℕ) (op : Op) (below : List (Suspended Pc))
      → Chain code tree tid v op below
      → Shape code op below
      → loads code below + yield op ≡ 1
      → Progress code tree arrive n (resume code tree below)
  unfolding resume
  resume-rises tid v n op [] chain h e = tt
  resume-rises tid v n arrive (s ∷ below) (w, chain) h e = λ some. omega arith
  resume-rises tid v n depart (s ∷ below) (w, chain) h e = λ some. omega arith

  perform-rises :
      (tid : ℕ) (m : Memory Cell) (v : ℕ) (p : Pc) (below : List (Suspended Pc)) (op : Op)
      (a : Action Cell Pc)
      → Commits code op p a
      → Chain code tree tid v op below
      → Shape code op below
      → loads code below + yield op ≡ 1
      → Progress code tree arrive
          (own p + up p + loads code below)
          (perform code tree m v below a).1
  unfolding perform
  perform-rises tid m v p below arrive (goes c' p') w chain h l = λ some. omega arith
  perform-rises tid m v p below depart (goes c' p') w chain h l = λ some. omega arith
  perform-rises tid m v p below arrive (calls arrive c' p') w chain h l =
      λ some. absurd (omega arith)
  perform-rises tid m v p below arrive (calls depart c' p') w chain h l =
      λ some. omega (arith, enter_weight (tree.parent v) depart)
  perform-rises tid m v p below depart (calls arrive c' p') w chain h l = absurd w
  perform-rises tid m v p below depart (calls depart c' p') w chain h l =
      λ some. omega (arith, enter_weight (tree.parent v) depart)
  perform-rises tid m v p below op (returns c') w chain h l =
      resume-rises tid v (own p + up p + loads code below) op below chain h l

  -- The outermost operation departs.
  resume-falls :
      (tid v : ℕ) (below : List (Suspended Pc))
      → Chain code tree tid v depart below
      → loads code below ≡ 0
      → carried code (resume code tree below) ≡ 0
  unfolding resume
  resume-falls tid v [] chain e = refl
  resume-falls tid v (s ∷ below) (w, chain) e =
      let whole : yield s.called ≡ 0 = ap yield w.1 in omega arith

  perform-falls :
      (tid : ℕ) (m : Memory Cell) (v : ℕ) (p : Pc) (below : List (Suspended Pc))
      (a : Action Cell Pc)
      → Commits code depart p a
      → Chain code tree tid v depart below
      → loads code below ≡ 0
      → carried code (perform code tree m v below a).1 ≤ own p + up p + loads code below
  unfolding perform
  perform-falls tid m v p below (goes c' p') w chain l = omega arith
  perform-falls tid m v p below (calls arrive c' p') w chain l = absurd w
  perform-falls tid m v p below (calls depart c' p') w chain l =
      omega (arith, enter_weight (tree.parent v) depart)
  perform-falls tid m v p below (returns c') w chain l =
      omega (arith, resume-falls tid v below chain l)

  -- The same for any frame.
  pub advance-Shape :
      (b : Bool) (tid : ℕ) (m : Memory Cell) (f : Frame Pc) (below : List (Suspended Pc))
      → GoodTask code tree tid (busy f below)
      → Ready code m f
      → ShapedTask code tree (busy f below)
      → ShapedTask code tree (advance code tree b m f below).1
  unfolding advance
  advance-Shape b tid m (in_root op) below good ready h = resume-Shape code laws tree op below h
  advance-Shape b tid m (in_node v p) below ((sound, pos, lt), chain) ready h =
      perform-Shape code laws tree m v p below (op_of p) (code.step b (m.cells v) p) refl
        (laws.keeps b (m.cells v) p sound ready.0 ready.1) (laws.commits b (m.cells v) p sound) h

  pub advance-SameOuter :
      (b : Bool) (tid : ℕ) (m : Memory Cell) (f : Frame Pc) (below : List (Suspended Pc))
      → GoodTask code tree tid (busy f below)
      → Ready code m f
      → SameOuter code tree
          (outer code (frame_op code tree f) below)
          (frame_op code tree f)
          (advance code tree b m f below).1
  unfolding advance
  advance-SameOuter b tid m (in_root op) below good ready =
      resume-SameOuter (outer code op below) op below refl
  advance-SameOuter b tid m (in_node v p) below ((sound, pos, lt), chain) ready =
      perform-SameOuter m v p below (outer code (op_of p) below) (code.step b (m.cells v) p)
        (laws.keeps b (m.cells v) p sound ready.0 ready.1) refl

  pub advance-Progress :
      (b : Bool) (tid : ℕ) (m : Memory Cell) (f : Frame Pc) (below : List (Suspended Pc)) (o : Op)
      → outer code (frame_op code tree f) below ≡ o
      → GoodTask code tree tid (busy f below)
      → ShapedTask code tree (busy f below)
      → Progress code tree o (carried code (busy f below)) (advance code tree b m f below).1
  unfolding advance
  advance-Progress b tid m (in_root op) below arrive e (good, chain) h =
      resume-rises tid 0 (stake op + loads code below) op below chain h
        (loads_lem code op below h ∙ ap yield e)
  advance-Progress b tid m (in_root arrive) below depart e (good, chain) h =
      absurd (omega (arith, loads_lem code arrive below h, ap yield e))
  advance-Progress b tid m (in_root depart) below depart e (good, chain) h = omega (
    arith,
    resume-falls tid 0 below chain (omega (arith, loads_lem code depart below h, ap yield e)),
  )
  advance-Progress b tid m (in_node v p) below arrive e ((sound, pos, lt), chain) h =
      perform-rises tid m v p below (op_of p) (code.step b (m.cells v) p)
        (laws.commits b (m.cells v) p sound) chain h (loads_lem code (op_of p) below h ∙ ap yield e)
  advance-Progress b tid m (in_node v p) below depart e ((sound, pos, lt), chain) h =
      go (op_of p) refl
    where
      total : loads code below + yield (op_of p) ≡ 0
      total = loads_lem code (op_of p) below h ∙ ap yield e

      go :
          (op : Op)
          → op_of p ≡ op
          → carried code (perform code tree m v below (code.step b (m.cells v) p)).1
            ≤ own p + up p + loads code below
      go arrive q = absurd (omega (arith, total, ap yield q))
      go depart q =
          perform-falls tid m v p below (code.step b (m.cells v) p)
            (subst (λ o. Commits code o p (code.step b (m.cells v) p)) q
              (laws.commits b (m.cells v) p sound))
            (subst (λ o. Chain code tree tid v o below) q chain) (omega (arith, total, ap yield q))
