-- ===== src/Machine/Returns.antt =====
-- A thread that runs alone, as turns of the system of Machine.
use scalable_non_zero_indica.Base.{ℕ, zero, suc, ◌≡◌, refl, List, false, ap, ◌∙◌, update_self}
use scalable_non_zero_indica.Node.{Op, NodeCode, NodeLaws}
use scalable_non_zero_indica.Machine.{
  Site, Memory, Frame, Suspended, Task, idle, busy, System, access, advance, frame_op, settle,
  react, turn, Reach,
}
use scalable_non_zero_indica.Machine.Alone.{NodeProgress, Alone, stop, next, finish_task}
use scalable_non_zero_indica.Machine.Invariant.{Fits}
use scalable_non_zero_indica.Machine.Invariant.Keep.{Reach-Inv}

module _ (code : NodeCode) (tree : Site) (quota : ℕ) where
  open code use {Cell, Pc}

  -- The next `k` accesses are those of thread `i`.
  abbrev pub alone_for : ℕ → ℕ → System Cell Pc → System Cell Pc
  alone_for i zero s = s
  alone_for i (suc k) s = alone_for i k (turn code tree quota i (access false) s)

  settle_task : (held : ℕ) (op : Op) (t : Task Pc) → (settle code tree held op t).task ≡ t
  unfolding settle
  settle_task held op idle = refl
  settle_task held op (busy f below) = refl

  react_access :
      (i held : ℕ) (m : Memory Cell) (t : Task Pc) (f : Frame Pc) (below : List (Suspended Pc))
      → t ≡ busy f below
      → let after = advance code tree false m f below in
        let after' = react code tree quota i (access false) m held t in
        (after'.0 ≡ after.0) × (after'.1.task ≡ after.1)
  unfolding react
  react_access i held m t f below e =
      rw e (refl, settle_task held (frame_op code tree f) (advance code tree false m f below).1)

  -- An access of a thread in a call, on the memory and on the thread.
  pub turn_access :
      (i : ℕ) (s : System Cell Pc) (f : Frame Pc) (below : List (Suspended Pc))
      → (s.threads i).task ≡ busy f below
      → let s' = turn code tree quota i (access false) s in
        let after = advance code tree false s.mem f below in
        (s'.mem ≡ after.0) × ((s'.threads i).task ≡ after.1)
  unfolding turn
  turn_access i s f below e =
      let (mem_after, task_after) =
        react_access i (s.threads i).held s.mem (s.threads i).task f below e in
      (mem_after, ap (λ th. th.task) (update_self s.threads i _) ∙ task_after)

  replay :
      (i : ℕ) {m m' : Memory Cell} {t : Task Pc} (s : System Cell Pc)
      → Alone code tree m t m' idle
      → s.mem ≡ m
      → (s.threads i).task ≡ t
      → (k : ℕ) × (((alone_for i k s).threads i).task ≡ idle)
  replay i s stop em et = (0, et)
  replay i s (next f below rest) em et =
      let (mem_after, task_after) = turn_access i s f below et in
      let (k, done) =
        replay i (turn code tree quota i (access false) s) rest
          (mem_after ∙ ap (λ m. (advance code tree false m f below).0) em)
          (task_after ∙ ap (λ m. (advance code tree false m f below).1) em) in
      (suc k, done)

module _ (code : NodeCode) (laws : NodeLaws code) (progress : NodeProgress code) (tree : Site)
    (n quota : ℕ) (fits : Fits tree n quota) where
  open code use {Cell, Pc}

  -- Wherever the other threads are stopped, a thread that runs on alone returns from its call.
  pub alone_returns :
      {s : System Cell Pc}
      → Reach code tree n quota s
      → (i : ℕ) → (k : ℕ) × (((alone_for code tree quota i k s).threads i).task ≡ idle)
  alone_returns {s} r i =
      let good = (Reach-Inv code laws tree n quota fits r).good i in
      let (m', run) = finish_task code progress tree fits.upward i (s.threads i).task s.mem good in
      replay code tree quota i s run refl refl
