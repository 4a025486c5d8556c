-- ===== src/Tests/Plain.antt =====
-- Runs of `no_contention_handling_snzi` on a tree with two leaves and four threads: threads 0 and
-- 1 meet at a leaf.
use scalable_non_zero_indica.Base.{
  ℕ, ◌+◌, ◌<◌, ◌^◌, ◌≡◌, ◌⊎◌, refl, arith, List, [], ◌∷◌, true, false, sum, ◌++◌,
}
use scalable_non_zero_indica.Node.{arrive, depart}
use scalable_non_zero_indica.Indicator.{Run, Course, answer}
use native.Mathlib.Decide.{dec_lt}
use scalable_non_zero_indica.Tree.{
  construct, nodes_count, leaves_count, pow_int, pow_loop, parent_index, set_parents, leaf_share,
  get_leaf_for_thread,
}
use scalable_non_zero_indica.Tree.Double.{
  ceil_quotient, divide, of_size, nearest, round_even, scale_up, scale_down, ceil,
}
use scalable_non_zero_indica.Machine.{
  Site, site, System, Event, invoke, access, Reach, query, turn, idle,
}
use scalable_non_zero_indica.Machine.Books.{counter_at, units, owed}
use scalable_non_zero_indica.Machine.Query.{surplus}
use scalable_non_zero_indica.Machine.Refines.{client, signal, events}
use scalable_non_zero_indica.Machine.Settles.{accesses_left}
use scalable_non_zero_indica.Machine.Schedule.{played, Served, accessed}
use scalable_non_zero_indica.NoContention.{
  Pc, node_code, step, entry, arrive_body, arrive_tail, depart_tail,
}
use scalable_non_zero_indica.NoContention.Progress.{node_progress}
use scalable_non_zero_indica.NoContention.Costs.{node_cost}
use scalable_non_zero_indica.NoContention.Correct.{
  linearizable_plain, simulation_plain, counters_plain, clean_plain, settles_plain,
}

abbrev tree : Site
tree = site (construct (λ _. 0) 2 1 4)

-- Latest event first: both threads find the leaf at zero and arrive at the root; thread 0 enters
-- the leaf, and thread 1 enters it behind thread 0 and is to undo its arrival at the root.
abbrev meeting : List (ℕ × Event)
meeting =
    (1, access false)
    ∷ (1, access false)
    ∷ (0, access false)
    ∷ (0, access true)
    ∷ (1, access false)
    ∷ (0, access false)
    ∷ (1, access false)
    ∷ (0, access false)
    ∷ (1, invoke arrive)
    ∷ (0, invoke arrive)
    ∷ []

abbrev met : (s : System ℕ Pc) × Reach node_code tree 4 1 s
met = played node_code tree 4 1 meeting

-- The undo, and both departures.
abbrev parting : List (ℕ × Event)
parting =
    (1, access false)
    ∷ (1, access false)
    ∷ (1, access false)
    ∷ (1, access false)
    ∷ (1, invoke depart)
    ∷ (0, access false)
    ∷ (0, access false)
    ∷ (0, invoke depart)
    ∷ (1, access false)
    ∷ (1, access false)
    ∷ []

abbrev parted : (s : System ℕ Pc) × Reach node_code tree 4 1 s
parted = played node_code tree 4 1 (parting ++ meeting)

-- At the meeting, the root counts both arrivals and so does the leaf.
met_counters : (met.0.mem.root ≡ 2) × (counter_at node_code met.0.mem 1 ≡ 2)
unfolding played step entry arrive_body arrive_tail depart_tail construct nodes_count leaves_count
    pow_int pow_loop parent_index set_parents leaf_share get_leaf_for_thread sum ceil_quotient
    divide of_size nearest round_even scale_up scale_down ceil dec_lt
met_counters = (refl, refl)

parted_surplus : surplus node_code 4 parted.0 ≡ 0
unfolding played step entry arrive_body arrive_tail depart_tail construct nodes_count leaves_count
    pow_int pow_loop parent_index set_parents leaf_share get_leaf_for_thread sum ceil_quotient
    divide of_size nearest round_even scale_up scale_down ceil dec_lt
parted_surplus = refl

linearizable_plain_example :
    Run 1 4
      (events node_code tree 4 1 met.1)
      (surplus node_code 4 met.0)
      (λ i. client node_code tree (met.0.threads i))
    × (query met.0.mem ≡ answer (surplus node_code 4 met.0))
linearizable_plain_example =
    linearizable_plain (λ _. 0) 2 1 4 1 (omega arith) (omega arith) (omega arith) met.1

-- Thread 1 undoes its arrival at the root.
simulation_plain_example :
    let s' = turn node_code tree 1 1 (access false) met.0 in
    Course 1
      (signal (access false))
      (surplus node_code 4 met.0)
      (client node_code tree (met.0.threads 1))
      (surplus node_code 4 s')
      (client node_code tree (s'.threads 1))
    × (query met.0.mem ≡ answer (surplus node_code 4 met.0))
    × (query s'.mem ≡ answer (surplus node_code 4 s'))
simulation_plain_example =
    simulation_plain (λ _. 0) 2 1 4 1 (omega arith) (omega arith) (omega arith) met.1 1
      (access false) (omega arith)

counters_plain_example :
    (counter_at node_code met.0.mem 1 + 1 < 2 ^ 64)
    × (counter_at node_code met.0.mem 1
        ≡ sum 4 (λ i. units node_code tree i 1 (met.0.threads i))
          + sum tree.total_nodes (λ w. owed node_code tree met.0.mem w 1))
counters_plain_example =
    counters_plain (λ _. 0) 2 1 4 1 (omega arith) (omega arith) (omega arith) met.1 1

clean_plain_example :
    ((u : ℕ) → u < tree.total_nodes → counter_at node_code parted.0.mem u ≡ 0)
    × (query parted.0.mem ≡ false)
clean_plain_example =
    clean_plain (λ _. 0) 2 1 4 1 (omega arith) (omega arith) (omega arith) parted.1 parted_surplus

-- The thread that has not returned goes on, with the other's accesses in between.
abbrev going_on : Served node_code tree 4 1 met.0
going_on = accessed node_code tree 4 1 (0 ∷ 1 ∷ 0 ∷ 1 ∷ []) met.0

going_on_twice : going_on.0 ≡ 2
unfolding accessed played step entry arrive_body arrive_tail depart_tail construct nodes_count
    leaves_count pow_int pow_loop parent_index set_parents leaf_share get_leaf_for_thread sum
    ceil_quotient divide of_size nearest round_even scale_up scale_down ceil dec_lt
going_on_twice = refl

settles_plain_example :
    ((going_on.1.threads 1).task ≡ idle)
    ⊎ (going_on.0 < accesses_left node_code node_progress node_cost 4 met.0)
settles_plain_example =
    settles_plain (λ _. 0) 2 1 4 1 (omega arith) (omega arith) (omega arith) met.1 going_on.2 1
      (omega arith)
