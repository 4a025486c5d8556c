-- ===== src/Tree/Leaf.antt =====
-- The leaf on which a thread arrives: `get_leaf_for_thread` of snzi.hpp.
use scalable_non_zero_indica.Base.{
  ℕ, ◌+◌, ◌-◌, ◌*◌, ◌/◌, ◌%◌, ◌^◌, ◌≤◌, ◌<◌, ◌≡◌, arith, ◌∙◌, sub64, ap, sym,
}
use scalable_non_zero_indica.Tree.{Tree, get_leaf_for_thread, leaf_share}
use scalable_non_zero_indica.Tree.Double.{ceil_quotient}
use scalable_non_zero_indica.Tree.Double.Exact.{ceil_quotient_exact}
use scalable_non_zero_indica.Tree.Count.{first, first-suc}
use scalable_non_zero_indica.Tree.Perfect.{IsPerfect, OnLevel}
use native.Mathlib.Nat.{
  div-lt_iff_lt-mul, mod-eq_of_lt, mul_comm, mod-lt, div-add-mod, le-div_iff_mul-le,
}

pub leaf_share_pos : (t l : ℕ) → 0 < leaf_share t l
unfolding leaf_share
leaf_share_pos t l = ground arith

leaf_share_lem : (t l : ℕ) → 0 < ceil_quotient t l → leaf_share t l ≡ ceil_quotient t l
unfolding leaf_share
leaf_share_lem t l h = ground arith

ceil-covers : (n l : ℕ) → 0 < l → n ≤ (n + l - 1) / l * l
ceil-covers n l pos = omega (arith, div-add-mod (n + l - 1) l, mul_comm l ((n + l - 1) / l))

module _ {k h : ℕ} {t : Tree} (perfect : IsPerfect k h t) where
  open perfect use {branching, nodes, leaves, in_words, some_leaf, shared}

  -- The leaves are the last level.
  inner : sub64 t.total_nodes t.total_leaf_nodes ≡ first k h
  inner = omega (arith, nodes, leaves, first-suc k h branching)

  leaf_lem :
      (tid : ℕ)
      → get_leaf_for_thread t tid ≡ first k h + (tid / t.threads_per_leaf) % t.total_leaf_nodes
  unfolding get_leaf_for_thread
  leaf_lem tid = rw inner (omega (arith, nodes, leaves, first-suc k h branching))

  -- In a perfect tree every thread is sent to a node of the last level.
  pub leaf-OnLevel : (tid : ℕ) → OnLevel k h (get_leaf_for_thread t tid)
  leaf-OnLevel tid = omega (
    arith,
    leaf_lem tid,
    leaves,
    first-suc k h branching,
    mod-lt (tid / t.threads_per_leaf) some_leaf,
  )

  module _ (threads_fit : t.total_threads < 2 ^ 53) (leaves_fit : k ^ h < 2 ^ 53) where
    exact :
        0 < t.total_threads
        → t.threads_per_leaf ≡ (t.total_threads + t.total_leaf_nodes - 1) / t.total_leaf_nodes
    exact some_thread =
        shared
        ∙ leaf_share_lem n (k ^ h) (omega (arith, quotient, positive))
        ∙ quotient
        ∙ ap (λ (l : ℕ). (n + l - 1) / l) (sym leaves)
      where
        n : ℕ
        n = t.total_threads

        quotient : ceil_quotient t.total_threads (k ^ h) ≡ (t.total_threads + k ^ h - 1) / k ^ h
        quotient = ceil_quotient_exact n (k ^ h) threads_fit (omega (arith, leaves)) leaves_fit

        positive : 1 ≤ (t.total_threads + k ^ h - 1) / k ^ h
        positive =
            (le-div_iff_mul-le {k = k ^ h} {x = 1} {y = n + k ^ h - 1} (omega (arith, leaves))).1
              (omega (arith, some_thread))

    -- In a perfect tree with fewer than 2 ^ 53 threads and leaves, thread ids below the number of
    -- threads fill the leaves from the left, each with the ceiling of threads over leaves, and the
    -- remainder by the number of leaves is not needed.
    pub leaf_blocks :
        (tid : ℕ)
        → tid < t.total_threads
        → (t.threads_per_leaf ≡ (t.total_threads + t.total_leaf_nodes - 1) / t.total_leaf_nodes)
          × (get_leaf_for_thread t tid
              ≡ t.total_nodes - t.total_leaf_nodes + tid / t.threads_per_leaf)
    leaf_blocks tid lt = (share, rw (leaf_lem tid) (omega (arith, start, mod-eq_of_lt block)))
      where
        share : t.threads_per_leaf ≡ (t.total_threads + t.total_leaf_nodes - 1) / t.total_leaf_nodes
        share = exact (omega arith)

        start : t.total_nodes - t.total_leaf_nodes ≡ first k h
        start = omega (arith, nodes, leaves, first-suc k h branching)

        block : tid / t.threads_per_leaf < t.total_leaf_nodes
        block =
            (div-lt_iff_lt-mul {k = t.threads_per_leaf} {x = tid} {y = t.total_leaf_nodes}
                (omega (arith, shared, leaf_share_pos t.total_threads (k ^ h)))).1
              (omega (
                arith,
                ap (λ (s : ℕ). s * t.total_leaf_nodes) share,
                ceil-covers t.total_threads t.total_leaf_nodes some_leaf,
                mul_comm t.total_leaf_nodes t.threads_per_leaf,
              ))
