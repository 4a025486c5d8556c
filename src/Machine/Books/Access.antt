-- ===== src/Machine/Books/Access.antt =====
-- What an access does to the counters, and to who has an arrival at which node.
use scalable_non_zero_indica.Base.{
  ℕ, ◌+◌, ◌≤◌, ◌<◌, ◌^◌, ◌≡◌, refl, arith, List, [], ◌∷◌, Bool, sym,
}
use mathlib.Core.Path.{subst, subst₂}
use scalable_non_zero_indica.Node.{
  Op, arrive, depart, Action, goes, calls, returns, stake, yield, NodeCode, NodeLaws, Keeps,
}
use scalable_non_zero_indica.Machine.{
  Site, Memory, Frame, in_root, in_node, Suspended, busy, root_access, enter, resume, perform,
  advance, frame_op,
}
use scalable_non_zero_indica.Machine.Books.{
  at_node, node_of, frame_units, parked_units, task_units, Chain, GoodFrame, GoodTask, Balances,
  Elsewhere, Ready,
}

module _ (code : NodeCode) (laws : NodeLaws code) (tree : Site) where
  open code use {Cell, Pc, counter, op_of, own, up, IsSound}

  pub enter_node : (v : ℕ) (op : Op) → node_of code (enter code tree v op) ≡ v
  unfolding enter
  enter_node v op = ground arith

  pub enter_op : (v : ℕ) (op : Op) → frame_op code tree (enter code tree v op) ≡ op
  unfolding enter
  enter_op v op = ground (arith, laws.entry_op op)

  pub enter-GoodFrame :
      (v : ℕ) (op : Op) → v < tree.total_nodes → GoodFrame code tree (enter code tree v op)
  unfolding enter
  enter-GoodFrame v op lt = ground (arith, laws.entry-IsSound op)

  pub enter_units :
      (u v : ℕ) (op : Op) → frame_units code tree u (enter code tree v op) ≡ at_node u v (stake op)
  unfolding enter
  enter_units u v op = ground (arith, laws.entry_own op, laws.entry_up op)

  resume_units :
      (tid u v : ℕ) (op : Op) (below : List (Suspended Pc))
      → Chain code tree tid v op below
      → task_units code tree tid u op (resume code tree below)
        ≡ parked_units code tree u below + at_node u v (yield op)
  unfolding resume
  resume_units tid u v op [] chain = ground arith
  resume_units tid u v op (s ∷ below) chain = ground arith

  perform-Elsewhere :
      (m : Memory Cell) (v : ℕ) (below : List (Suspended Pc)) (a : Action Cell Pc)
      → 0 < v
      → Elsewhere code m (perform code tree m v below a).0 v
  unfolding perform
  perform-Elsewhere m v below (goes c p) pos u ne = ground arith
  perform-Elsewhere m v below (calls op c p) pos u ne = ground arith
  perform-Elsewhere m v below (returns c) pos u ne = ground arith

  perform-Balances :
      (tid : ℕ) (m : Memory Cell) (v : ℕ) (p : Pc) (below : List (Suspended Pc))
      (a : Action Cell Pc)
      → 0 < v
      → tree.parent v < v
      → Keeps code (m.cells v) p a
      → Chain code tree tid v (op_of p) below
      → let after = perform code tree m v below a in
        Balances code tree tid (op_of p) m after.0 v (busy (in_node v p) below) after.1
  unfolding perform
  perform-Balances tid m v p below (goes c' p') pos low k chain u = ground arith
  perform-Balances tid m v p below (calls arrive c' p') pos low k chain u =
      rw (enter_units u (tree.parent v) arrive) (ground arith)
  perform-Balances tid m v p below (calls depart c' p') pos low k chain u =
      rw (enter_units u (tree.parent v) depart) (ground arith)
  perform-Balances tid m v p below (returns c') pos low k chain u =
      ground (arith, resume_units tid u v (op_of p) below chain)

  pub enter-Chain :
      (tid v : ℕ) (op : Op) (below : List (Suspended Pc))
      → Chain code tree tid v op below
      → let f = enter code tree v op in
        Chain code tree tid (node_of code f) (frame_op code tree f) below
  enter-Chain tid v op below chain =
      subst₂ (λ w o. Chain code tree tid w o below) (sym (enter_node v op)) (sym (enter_op v op))
        chain

  resume-GoodTask :
      (tid v : ℕ) (op : Op) (below : List (Suspended Pc))
      → Chain code tree tid v op below
      → GoodTask code tree tid (resume code tree below)
  unfolding resume
  resume-GoodTask tid v op [] chain = tt
  resume-GoodTask tid v op (s ∷ below) (w, chain) = ((w.2, w.3, w.4), chain)

  perform-GoodTask :
      (tid : ℕ) (m : Memory Cell) (v : ℕ) (p : Pc) (below : List (Suspended Pc))
      (a : Action Cell Pc)
      → 0 < v
      → v < tree.total_nodes
      → tree.parent v < v
      → Keeps code (m.cells v) p a
      → Chain code tree tid v (op_of p) below
      → GoodTask code tree tid (perform code tree m v below a).1
  unfolding perform
  perform-GoodTask tid m v p below (goes c' p') pos lt low k chain =
      ((k.0, pos, lt), subst (λ o. Chain code tree tid v o below) (sym k.1) chain)
  perform-GoodTask tid m v p below (calls op c' p') pos lt low k chain = (
    enter-GoodFrame (tree.parent v) op (omega arith),
    enter-Chain tid (tree.parent v) op (record { node = v; pc = p'; called = op } ∷ below) (
      (refl, refl, k.0, pos, lt, k.4),
      subst (λ o. Chain code tree tid v o below) (sym k.1) chain,
    ),
  )
  perform-GoodTask tid m v p below (returns c') pos lt low k chain =
      resume-GoodTask tid v (op_of p) below chain

  root_access_lem :
      (op : Op) (x : ℕ) → stake op ≤ x → x + 1 < 2 ^ 64 → root_access op x + stake op ≡ x + yield op
  unfolding root_access
  root_access_lem arrive x h w = omega arith
  root_access_lem depart x h w = omega arith

  module _ (upward : (v : ℕ) → 0 < v → v < tree.total_nodes → tree.parent v < v) where
    pub advance-GoodTask :
        (b : Bool) (tid : ℕ) (m : Memory Cell) (f : Frame Pc) (below : List (Suspended Pc))
        → GoodTask code tree tid (busy f below)
        → Ready code m f
        → GoodTask code tree tid (advance code tree b m f below).1
    unfolding advance
    advance-GoodTask b tid m (in_root op) below (good, chain) ready =
        resume-GoodTask tid 0 op below chain
    advance-GoodTask b tid m (in_node v p) below ((sound, pos, lt), chain) ready =
        perform-GoodTask tid m v p below (code.step b (m.cells v) p) pos lt (upward v pos lt)
          (laws.keeps b (m.cells v) p sound ready.0 ready.1) chain

    pub advance-Balances :
        (b : Bool) (tid : ℕ) (m : Memory Cell) (f : Frame Pc) (below : List (Suspended Pc))
        → GoodTask code tree tid (busy f below)
        → Ready code m f
        → let after = advance code tree b m f below in
          Balances code tree tid
            (frame_op code tree f)
            m
            after.0
            (node_of code f)
            (busy f below)
            after.1
    unfolding advance
    advance-Balances b tid m (in_root op) below (good, chain) ready u =
        ground (arith, resume_units tid u 0 op below chain, root_access_lem op m.root)
    advance-Balances b tid m (in_node v p) below ((sound, pos, lt), chain) ready u =
        perform-Balances tid m v p below (code.step b (m.cells v) p) pos (upward v pos lt)
          (laws.keeps b (m.cells v) p sound ready.0 ready.1) chain u

    pub advance-Elsewhere :
        (b : Bool) (tid : ℕ) (m : Memory Cell) (f : Frame Pc) (below : List (Suspended Pc))
        → GoodTask code tree tid (busy f below)
        → Elsewhere code m (advance code tree b m f below).0 (node_of code f)
    unfolding advance
    advance-Elsewhere b tid m (in_root op) below good u ne = ground arith
    advance-Elsewhere b tid m (in_node v p) below ((sound, pos, lt), chain) u ne =
        perform-Elsewhere m v below (code.step b (m.cells v) p) pos u ne
