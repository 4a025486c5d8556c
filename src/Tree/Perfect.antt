-- ===== src/Tree/Perfect.antt =====
-- What a constructor of snzi.hpp builds, and where its parents lead.
use scalable_non_zero_indica.Base.{
  ℕ, zero, suc, ◌+◌, ◌-◌, ◌/◌, ◌^◌, ◌≤◌, ◌<◌, ◌≡◌, refl, arith, update, ◌∙◌, sub64, Bool, true,
  false, ltb,
}
use scalable_non_zero_indica.Tree.{
  Tree, built, make, construct, set_parents, parent_index, leaf_share, nodes_count,
}
use scalable_non_zero_indica.Tree.Count.{
  first, first-le-pow, first_mono, leaves_count_lem, nodes_count_lem,
}
use native.Mathlib.Nat.{div-lt_iff_lt-mul, le-div_iff_mul-le, one-le-pow, div-le_self, mul_comm}
use native.Mathlib.Decide.{dec_lt}

pub record IsPerfect (k h : ℕ) (t : Tree) : Type 0 where
  pub branching : 2 ≤ k
  pub in_words : t.total_nodes < 2 ^ 64
  pub arity_is : t.arity ≡ k
  pub nodes : t.total_nodes ≡ first k (suc h)
  pub leaves : t.total_leaf_nodes ≡ k ^ h
  pub some_leaf : 0 < t.total_leaf_nodes
  pub shared : t.threads_per_leaf ≡ leaf_share t.total_threads (k ^ h)
  pub parents : (v : ℕ) → 0 < v → v < t.total_nodes → t.parent v ≡ (v - 1) / k

-- The loop writes the nodes from `i` on and leaves the others alone.
set_parents_below : (k rounds i : ℕ) (p : ℕ → ℕ) (v : ℕ) → v < i → set_parents k rounds i p v ≡ p v
unfolding set_parents
set_parents_below k zero i p v h = refl
set_parents_below k (suc rounds) i p v h =
    set_parents_below k rounds (i + 1) (update p i (parent_index k i)) v (omega arith)
    ∙ ground arith

set_parents_lem :
    (k rounds i : ℕ) (p : ℕ → ℕ) (v : ℕ)
    → i ≤ v
    → v < i + rounds
    → set_parents k rounds i p v ≡ parent_index k v
unfolding set_parents
set_parents_lem k zero i p v low high = absurd (omega arith)
set_parents_lem k (suc rounds) i p v low high = elim (dec_lt i v) [
  | yes later ↦
      set_parents_lem k rounds (i + 1) (update p i (parent_index k i)) v (omega arith) (omega arith)
  | no now ↦
      let e : i ≡ v = omega arith in
      rw (set_parents_below k rounds (i + 1) (update p i (parent_index k i)) v (omega arith))
        (rw e (ground arith))
]

parent_index_lem : (k v : ℕ) → 0 < v → v < 2 ^ 64 → parent_index k v ≡ (v - 1) / k
unfolding parent_index
parent_index_lem k v pos h = let e : sub64 v 1 ≡ v - 1 = omega arith in rw e

module _ (raw : ℕ → ℕ) (k h n : ℕ) (branching : 2 ≤ k) (fits : k ^ suc h < 2 ^ 64) where
  nodes-lt : nodes_count k h < 2 ^ 64
  nodes-lt = omega (arith, nodes_count_lem k h branching fits, first-le-pow k (suc h) branching)

  some_node : 0 < nodes_count k h
  some_node = omega (arith, nodes_count_lem k h branching fits)

  pub construct-IsPerfect : IsPerfect k h (construct raw k h n)
  unfolding construct
  construct-IsPerfect = record {
    branching = branching;
    in_words = nodes-lt;
    arity_is = refl;
    nodes = nodes_count_lem k h branching fits;
    leaves = leaves_count_lem k h branching fits;
    some_leaf = omega (arith, leaves_count_lem k h branching fits, one-le-pow h k (omega arith));
    shared = rw (leaves_count_lem k h branching fits);
    parents = λ v pos lt.
        set_parents_lem k (nodes_count k h - 1) 1 raw v pos (omega (arith, some_node))
        ∙ parent_index_lem k v pos (omega (arith, nodes-lt));
  }

  construct_threads : (construct raw k h n).total_threads ≡ n
  unfolding construct
  construct_threads = refl

  make_builds :
      (room : ℕ → Bool)
      → room (first k (suc h)) ≡ true
      → make room raw k h n ≡ built (construct raw k h n)
  unfolding make
  make_builds room allocated =
      let valid : ltb k 2 ≡ false = ground arith in
      rw (valid, nodes_count_lem k h branching fits, allocated) refl

  -- A constructor call with an arity of at least 2, whose K ^ (H + 1) fits a word and for whose
  -- nodes new has room, builds a perfect tree of the height asked for, with the number of threads
  -- asked for, whatever the fresh memory held.
  pub make-IsPerfect :
      (room : ℕ → Bool)
      → room (first k (suc h)) ≡ true
      → (t : Tree) × (make room raw k h n ≡ built t) × IsPerfect k h t × (t.total_threads ≡ n)
  make-IsPerfect room allocated =
      (construct raw k h n, make_builds room allocated, construct-IsPerfect, construct_threads)

-- Calls of `parent`, one after the other.
abbrev pub climb : Tree → ℕ → ℕ → ℕ
climb t zero v = v
climb t (suc n) v = climb t n (t.parent v)

-- `v` stands on level `l`.
abbrev pub OnLevel : ℕ → ℕ → ℕ → Type 0
OnLevel k l v = (first k l ≤ v) × (v < first k (suc l))

module _ {k h : ℕ} {t : Tree} (perfect : IsPerfect k h t) where
  open perfect use {branching, nodes, parents}

  pub parent-OnLevel : (l v : ℕ) → l < h → OnLevel k (suc l) v → OnLevel k l (t.parent v)
  parent-OnLevel l v lt on = rw (parents v (omega arith) in_tree) (low, high)
    where
      in_tree : v < t.total_nodes
      in_tree = omega (arith, nodes, first_mono k (suc (suc l)) (suc h) branching (omega arith))

      low : first k l ≤ (v - 1) / k
      low =
          (le-div_iff_mul-le {k = k} {x = first k l} {y = v - 1} (omega arith)).1
            (omega (arith, mul_comm k (first k l)))

      high : (v - 1) / k < first k (suc l)
      high =
          (div-lt_iff_lt-mul {k = k} {x = v - 1} {y = first k (suc l)} (omega arith)).1
            (omega (arith, mul_comm k (first k (suc l))))

  -- A parent stands before its children.
  pub parent-lt : (v : ℕ) → 0 < v → v < t.total_nodes → t.parent v < v
  parent-lt v pos lt = omega (arith, parents v pos lt, div-le_self (v - 1) k)

  climb_to_root : (l v : ℕ) → l ≤ h → OnLevel k l v → climb t l v ≡ 0
  climb_to_root zero v le on = omega arith
  climb_to_root (suc l) v le on =
      climb_to_root l (t.parent v) (omega arith) (parent-OnLevel l v (omega arith) on)

-- In a tree that the constructor builds for an arity of at least 2 and K ^ (H + 1) in a word,
-- whatever the fresh memory held, the fields parent lead from a node of level l, at most the
-- height, to the root in l steps.
pub climb-construct :
    (raw : ℕ → ℕ) (k h n : ℕ)
    → 2 ≤ k
    → k ^ suc h < 2 ^ 64
    → (l v : ℕ) → l ≤ h
    → OnLevel k l v
    → climb (construct raw k h n) l v ≡ 0
climb-construct raw k h n branching fits =
    climb_to_root (construct-IsPerfect raw k h n branching fits)
