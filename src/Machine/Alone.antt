-- ===== src/Machine/Alone.antt =====
-- A thread that runs alone: no other thread moves, and no compare-exchange fails for no reason.
use scalable_non_zero_indica.Base.{
  ℕ, zero, suc, ◌≤◌, ◌<◌, ◌≡◌, refl, arith, List, [], ◌∷◌, ◌==◌, false, sym, ◌∙◌, update,
  update_self, update_ne, ◌≢◌,
}
use mathlib.Core.Path.{subst}
use scalable_non_zero_indica.Node.{Op, Action, goes, calls, returns, NodeCode}
use scalable_non_zero_indica.Machine.{
  Site, Memory, Frame, in_root, in_node, Suspended, Task, idle, busy, enter, resume, perform,
  advance, frame_op,
}
use scalable_non_zero_indica.Machine.Books.{node_of, Chain, GoodFrame, GoodTask}

abbrev pub Falls :
    (code : NodeCode) → (code.Cell → code.Pc → ℕ) → ℕ → Action code.Cell code.Pc → Type 0
Falls code rank r (goes c p) = rank c p < r
Falls code rank r (calls op c p) = rank c p < r
Falls code rank r (returns c) = Unit

-- A node's code has a rank that each access of a call lowers, as long as only the call itself
-- changes the node's cell.
pub record NodeProgress (code : NodeCode) : Type 0 where
  pub rank : code.Cell → code.Pc → ℕ
  pub falls : (c : code.Cell) (p : code.Pc) → Falls code rank (rank c p) (code.step false c p)

module _ (code : NodeCode) (tree : Site) where
  open code use {Cell, Pc}

  -- Some number of accesses of one thread, one after the other
  pub data Alone : Memory Cell → Task Pc → Memory Cell → Task Pc → Type 0 where
    stop : {m : Memory Cell} {t : Task Pc} → Alone m t m t
    next :
        {m m' : Memory Cell} {t' : Task Pc} (f : Frame Pc) (below : List (Suspended Pc))
        → Alone (advance code tree false m f below).0 (advance code tree false m f below).1 m' t'
        → Alone m (busy f below) m' t'

  trans-Alone :
      {m m' m'' : Memory Cell} {t t' t'' : Task Pc}
      → Alone m t m' t'
      → Alone m' t' m'' t''
      → Alone m t m'' t''
  trans-Alone stop more = more
  trans-Alone (next f below rest) more = next f below (trans-Alone rest more)

  -- A call that returns from node `v`, with nothing changed above it.
  Finishes : ℕ → Memory Cell → Frame Pc → List (Suspended Pc) → Type 0
  Finishes v m f below =
      (m' : Memory Cell) × Alone m (busy f below) m' (resume code tree below)
      × ((w : ℕ) → v < w → m'.cells w ≡ m.cells w)

module _ (code : NodeCode) (progress : NodeProgress code) (tree : Site)
    (upward : (v : ℕ) → 0 < v → v < tree.total_nodes → tree.parent v < v) where
  open code use {Cell, Pc, entry, step, op_of}
  open progress use {rank, falls}

  finish_root :
      (op : Op) (m : Memory Cell) (below : List (Suspended Pc))
      → Finishes code tree 0 m (in_root op) below
  unfolding Finishes advance
  finish_root op m below = (_, next (in_root op) below stop, λ w lt. refl)

  weaken-Falls : (r s : ℕ) (a : Action Cell Pc) → r ≤ s → Falls code rank r a → Falls code rank s a
  weaken-Falls r s (goes c p) le h = omega arith
  weaken-Falls r s (calls op c p) le h = omega arith
  weaken-Falls r s (returns c) le h = tt

  one_access :
      {m m' : Memory Cell} {t' : Task Pc} (v : ℕ) (p : Pc) (below : List (Suspended Pc))
      (a : Action Cell Pc)
      → step false (m.cells v) p ≡ a
      → Alone code tree (perform code tree m v below a).0 (perform code tree m v below a).1 m' t'
      → Alone code tree m (busy (in_node v p) below) m' t'
  unfolding advance
  one_access {m} {m'} {t'} v p below a e rest = next (in_node v p) below (
      subst
        (λ a.
          Alone code tree (perform code tree m v below a).0 (perform code tree m v below a).1 m' t')
        (sym e) rest)

  above-ne : (v w : ℕ) → v < w → w ≢ v
  above-ne v w lt = ground arith

  -- What one access leads to finishes, if the same call does from a lower rank on, and every call
  -- of the parent's.
  finish_action :
      (v : ℕ) (p : Pc) (m : Memory Cell) (below : List (Suspended Pc)) (r : ℕ) (a : Action Cell Pc)
      → tree.parent v < v
      → ((p' : Pc) (m' : Memory Cell)
          → rank (m'.cells v) p' < r
          → Finishes code tree v m' (in_node v p') below)
      → ((op : Op) (m' : Memory Cell) (under : List (Suspended Pc))
          → Finishes code tree (tree.parent v) m' (enter code tree (tree.parent v) op) under)
      → Falls code rank r a
      → step false (m.cells v) p ≡ a
      → Finishes code tree v m (in_node v p) below
  unfolding Finishes advance perform resume
  finish_action v p m below r (goes c p') up again above low e =
      let there : rank (update m.cells v c v) p' < r =
        subst (λ x. rank x p' < r) (sym (update_self m.cells v c)) low in
      let (m', run, same) = again p' (record m { cells = update m.cells v c }) there in
      (
        m',
        one_access v p below (goes c p') e run,
        λ w lt. same w lt ∙ update_ne m.cells v w c (above-ne v w lt),
      )
  finish_action v p m below r (returns c) up again above low e = (
    record m { cells = update m.cells v c },
    one_access v p below (returns c) e stop,
    λ w lt. update_ne m.cells v w c (above-ne v w lt),
  )
  finish_action v p m below r (calls op c p') up again above low e =
      let (m', run, same) =
        above op (record m { cells = update m.cells v c })
          (record { node = v; pc = p'; called = op } ∷ below) in
      let there : rank (m'.cells v) p' < r =
        subst (λ x. rank x p' < r) (sym (same v up ∙ update_self m.cells v c)) low in
      let (m'', run', same') = again p' m' there in
      (
        m'',
        one_access v p below (calls op c p') e (trans-Alone code tree run run'),
        λ w lt. same' w lt ∙ same w (omega arith) ∙ update_ne m.cells v w c (above-ne v w lt),
      )

  finish_enter :
      (w : ℕ) (op : Op) (m : Memory Cell) (below : List (Suspended Pc))
      → (0 < w → Finishes code tree w m (in_node w (entry op)) below)
      → Finishes code tree w m (enter code tree w op) below
  unfolding enter
  finish_enter zero op m below inner = finish_root op m below
  finish_enter (suc w) op m below inner =
      let not_root : (suc w == 0) ≡ false = ground arith in rw not_root (inner (omega arith))

  -- Induction on a bound of the node and on one of the rank.
  finish_node :
      (b r v : ℕ) (p : Pc) (m : Memory Cell) (below : List (Suspended Pc))
      → 0 < v
      → v < b
      → v < tree.total_nodes
      → rank (m.cells v) p < r
      → Finishes code tree v m (in_node v p) below
  finish_node zero r v p m below pos lt in_tree low = absurd (omega arith)
  finish_node (suc b) zero v p m below pos lt in_tree low = absurd (omega arith)
  finish_node (suc b) (suc r) v p m below pos lt in_tree low =
      finish_action v p m below r (step false (m.cells v) p) (upward v pos in_tree)
        (λ p' m' lower. finish_node (suc b) r v p' m' below pos lt in_tree lower)
        (λ op m' under. finish_enter (tree.parent v) op m' under (λ inner.
          finish_node b (suc (rank (m'.cells (tree.parent v)) (entry op))) (tree.parent v)
            (entry op) m' under inner (omega (arith, upward v pos in_tree))
            (omega (arith, upward v pos in_tree)) (omega arith)))
        (weaken-Falls _ r (step false (m.cells v) p) (omega arith) (falls (m.cells v) p)) refl

  finish_frame :
      (f : Frame Pc) (m : Memory Cell) (below : List (Suspended Pc))
      → GoodFrame code tree f
      → (m' : Memory Cell) × Alone code tree m (busy f below) m' (resume code tree below)
  unfolding Finishes
  finish_frame (in_root op) m below good = let (m', run, _) = finish_root op m below in (m', run)
  finish_frame (in_node v p) m below (_, pos, lt) =
      let (m', run, _) =
        finish_node (suc v) (suc (rank (m.cells v) p)) v p m below pos (omega arith) lt
          (omega arith) in
      (m', run)

  -- From the stack of a call, one return after the other.
  finish_stack :
      (tid v : ℕ) (op : Op) (below : List (Suspended Pc)) (m : Memory Cell)
      → Chain code tree tid v op below
      → (m' : Memory Cell) × Alone code tree m (resume code tree below) m' idle
  unfolding resume
  finish_stack tid v op [] m chain = (m, stop)
  finish_stack tid v op (s ∷ below) m (waits, chain) =
      let (m', run) = finish_frame (in_node s.node s.pc) m below (waits.2, waits.3, waits.4) in
      let (m'', run') = finish_stack tid s.node (op_of s.pc) below m' chain in
      (m'', trans-Alone code tree run run')

  pub finish_task :
      (tid : ℕ) (t : Task Pc) (m : Memory Cell)
      → GoodTask code tree tid t
      → (m' : Memory Cell) × Alone code tree m t m' idle
  finish_task tid idle m good = (m, stop)
  finish_task tid (busy f below) m (good, chain) =
      let (m', run) = finish_frame f m below good in
      let (m'', run') = finish_stack tid (node_of code f) (frame_op code tree f) below m' chain in
      (m'', trans-Alone code tree run run')
