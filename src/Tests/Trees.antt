-- ===== src/Tests/Trees.antt =====
-- Concrete trees of snzi.hpp: four leaves and eight threads, as in the comment above the classes.
use scalable_non_zero_indica.Base.{ltb, refl, ◌+◌, ◌-◌, ◌/◌, ◌%◌, ◌≡◌, ◌^◌, arith}
use scalable_non_zero_indica.Tree.{
  Tree, built, construct, make, get_leaf_for_thread, nodes_count, pow_int,
}
use scalable_non_zero_indica.Tree.Count.{first, nodes_count_lem, pow_int_lem}
use scalable_non_zero_indica.Tree.Perfect.{
  IsPerfect, climb, make-IsPerfect, construct-IsPerfect, climb-construct,
}
use scalable_non_zero_indica.Tree.Leaf.{leaf_blocks}

-- `make`, for K = 2, H = 2 and T = 8, on fresh memory of zeros
abbrev eight : Tree
eight = construct (λ _. 0) 2 2 8

eight-IsPerfect : IsPerfect 2 2 eight
eight-IsPerfect = construct-IsPerfect (λ _. 0) 2 2 8 (omega arith) (omega arith)

make-IsPerfect_example :
    (t : Tree) × (make (λ n. ltb n 1000) (λ _. 0) 2 2 8 ≡ built t)
    × IsPerfect 2 2 t
    × (t.total_threads ≡ 8)
make-IsPerfect_example =
    make-IsPerfect (λ _. 0) 2 2 8 (omega arith) (omega arith) (λ n. ltb n 1000) refl

climb-construct_example : climb eight 2 5 ≡ 0
climb-construct_example =
    climb-construct (λ _. 0) 2 2 8 (omega arith) (omega arith) 2 5 (omega arith)
      (omega arith, omega arith)

leaf_blocks_example :
    (eight.threads_per_leaf
      ≡ (eight.total_threads + eight.total_leaf_nodes - 1) / eight.total_leaf_nodes)
    × (get_leaf_for_thread eight 6
        ≡ eight.total_nodes - eight.total_leaf_nodes + 6 / eight.threads_per_leaf)
unfolding construct
leaf_blocks_example = leaf_blocks eight-IsPerfect (omega arith) (omega arith) 6 (omega arith)

nodes_count_lem_example : nodes_count 4 3 ≡ first 4 4
nodes_count_lem_example = nodes_count_lem 4 3 (omega arith) (omega arith)

pow_int_lem_example : pow_int 3 50 ≡ 3 ^ 50 % 2 ^ 64
pow_int_lem_example = pow_int_lem 3 50 (omega arith)
