-- ===== src/Machine/Clean.antt =====
-- Trees that a constructor has built, and what they are like when nobody is on them.
use scalable_non_zero_indica.Base.{ℕ, ◌+◌, ◌*◌, ◌<◌, ◌^◌, ◌≡◌, arith, le-sum}
use native.Mathlib.Decide.{dec_lt}
use scalable_non_zero_indica.Node.{NodeCode, NodeLaws}
use scalable_non_zero_indica.Tree.{Tree}
use scalable_non_zero_indica.Tree.Perfect.{IsPerfect, parent-lt}
use scalable_non_zero_indica.Tree.Leaf.{leaf-OnLevel}
use scalable_non_zero_indica.Machine.{Site, site, System, Reach}
use scalable_non_zero_indica.Machine.Books.{counter_at}
use scalable_non_zero_indica.Machine.Invariant.{Fits}
use scalable_non_zero_indica.Machine.Invariant.Keep.{Reach-Inv}
use scalable_non_zero_indica.Machine.Query.{surplus, to_thread, units-present, present}

-- A perfect tree can be used by as many threads as the counters have room for.
pub perfect-Fits :
    {k h : ℕ} {t : Tree} (n quota : ℕ)
    → IsPerfect k h t
    → n * (quota + 2) + t.total_nodes + 1 < 2 ^ 64
    → Fits (site t) n quota
perfect-Fits {k} {h} {t} n quota perfect room = record {
  upward = parent-lt perfect;
  some_node = omega (arith, perfect.nodes);
  leaf_in = λ tid. omega (arith, perfect.nodes, (leaf-OnLevel perfect tid).1);
  small = room;
}

module _ (code : NodeCode) (laws : NodeLaws code) (tree : Site) (n quota : ℕ)
    (fits : Fits tree n quota) where
  open code use {Cell, Pc}

  -- Without a surplus every counter of the tree is zero.
  pub no_surplus_clean :
      {s : System Cell Pc}
      → Reach code tree n quota s
      → surplus code n s ≡ 0
      → (u : ℕ) → u < tree.total_nodes
      → counter_at code s.mem u ≡ 0
  no_surplus_clean {s} r none u lt = elim (dec_lt 0 (counter_at code s.mem u)) [
    | yes some_count ↦
        let (i, i_lt, v, p) =
          to_thread code laws tree n quota fits s (Reach-Inv code laws tree n quota fits r)
            tree.total_nodes u (omega arith) lt some_count in
        absurd (
          omega (
            arith,
            units-present code laws tree n quota fits i v (s.threads i).held (s.threads i).task p,
            le-sum n (λ j. present code (s.threads j)) i i_lt,
          ))
    | no zero_count ↦ omega arith
  ]
