-- ===== src/Tree.antt =====
-- snzi.hpp: the fields that a constructor of a SNZI tree sets, its arithmetic on sizes, and the
-- leaf of a thread. The three classes repeat this code word for word.
pub mod Double
pub mod Count
pub mod Perfect
pub mod Leaf
use scalable_non_zero_indica.Base.{
  ℕ, zero, suc, ◌+◌, ◌-◌, ◌*◌, ◌/◌, ◌%◌, ◌^◌, ltb, ◌==◌, if◌then◌else◌, add64, sub64, mul64, update,
  Bool,
}
use Double.{ceil_quotient}

-- `parent i` is the field `parent` of `others[i]`.
pub record Tree : Type 0 where
  pub arity : ℕ
  pub total_nodes : ℕ
  pub total_leaf_nodes : ℕ
  pub threads_per_leaf : ℕ
  pub total_threads : ℕ
  pub parent : ℕ → ℕ

-- What a constructor does: an object, or the exception on an arity below 2, or that of `new`.
pub data Made : Type 0 where
  built : Tree → Made
  invalid_argument bad_alloc : Made

-- The loop of `pow_int`, with the rounds that are left.
unfoldable pub pow_loop : ℕ → ℕ → ℕ → ℕ
pow_loop b zero result = result
pow_loop b (suc rounds) result = pow_loop b rounds (mul64 result b)

-- With `e` the largest `size_type` the test `i <= e` never fails: the theorems are about smaller ones.
unfoldable pub pow_int : ℕ → ℕ → ℕ
pow_int b e = pow_loop b e 1

-- The `assert` holds: the constructor has refused arities below 2.
unfoldable pub nodes_count : ℕ → ℕ → ℕ
nodes_count k h = sub64 (pow_int k (add64 h 1)) 1 / sub64 k 1

unfoldable pub leaves_count : ℕ → ℕ → ℕ
leaves_count k h = pow_int k h

unfoldable pub parent_index : ℕ → ℕ → ℕ
parent_index arity id = sub64 id 1 / arity

-- The loop that writes the field `parent` of the nodes from `i` on.
unfoldable pub set_parents : ℕ → ℕ → ℕ → (ℕ → ℕ) → ℕ → ℕ
set_parents arity zero i parent = parent
set_parents arity (suc rounds) i parent =
    set_parents arity rounds (i + 1) (update parent i (parent_index arity i))

-- `threads_per_leaf`, never left at zero.
unfoldable pub leaf_share : ℕ → ℕ → ℕ
leaf_share t leaves = let share = ceil_quotient t leaves in if share == 0 then 1 else share

-- The body of the constructor. The nodes are allocated with a `parent` that nothing has set, `raw`.
unfoldable pub construct : (ℕ → ℕ) → ℕ → ℕ → ℕ → Tree
construct raw k h t = record {
  arity = k;
  total_nodes = nodes_count k h;
  total_leaf_nodes = leaves_count k h;
  threads_per_leaf = leaf_share t (leaves_count k h);
  total_threads = t;
  parent = set_parents k (nodes_count k h - 1) 1 raw;
}

-- `new` finds memory for so many nodes, or throws; `room` says which.
unfoldable pub make : (ℕ → Bool) → (ℕ → ℕ) → ℕ → ℕ → ℕ → Made
make room raw k h t =
    if ltb k 2
    then invalid_argument
    else (if room (nodes_count k h) then built (construct raw k h t) else bad_alloc)

unfoldable pub get_leaf_for_thread : Tree → ℕ → ℕ
get_leaf_for_thread tree tid =
    add64 (sub64 tree.total_nodes tree.total_leaf_nodes)
      ((tid / tree.threads_per_leaf) % tree.total_leaf_nodes)
