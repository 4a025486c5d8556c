-- ===== src/Tests/Announced.antt =====
-- Runs of `semi_contention_handling_snzi` on a tree with two leaves and four threads: threads 0 and
-- 1 meet at a leaf.
use scalable_non_zero_indica.Base.{
  ℕ, ◌+◌, ◌<◌, ◌^◌, ◌≡◌, ◌⊎◌, refl, arith, List, [], ◌∷◌, true, false, sum, ◌++◌,
}
use scalable_non_zero_indica.Node.{arrive, depart}
use scalable_non_zero_indica.Indicator.{Run, Course, answer}
use native.Mathlib.Decide.{dec_lt}
use scalable_non_zero_indica.Tree.{
  construct, nodes_count, leaves_count, pow_int, pow_loop, parent_index, set_parents, leaf_share,
  get_leaf_for_thread,
}
use scalable_non_zero_indica.Tree.Double.{
  ceil_quotient, divide, of_size, nearest, round_even, scale_up, scale_down, ceil,
}
use scalable_non_zero_indica.Machine.{
  Site, site, System, Event, invoke, access, Reach, query, turn, idle,
}
use scalable_non_zero_indica.Machine.Books.{counter_at, units, owed}
use scalable_non_zero_indica.Machine.Query.{surplus}
use scalable_non_zero_indica.Machine.Refines.{client, signal, events}
use scalable_non_zero_indica.Machine.Settles.{accesses_left}
use scalable_non_zero_indica.Machine.Schedule.{played, Served, accessed}
use scalable_non_zero_indica.Backoff.{backoff, pause_loop}
use scalable_non_zero_indica.SemiContention.{
  Cell, Pc, node_code, step, entry, arrive_body, delay_round, arrive_tail, depart_body, depart_tail,
}
use scalable_non_zero_indica.SemiContention.Progress.{node_progress}
use scalable_non_zero_indica.SemiContention.Costs.{node_cost}
use scalable_non_zero_indica.SemiContention.Correct.{
  linearizable_announced, simulation_announced, counters_announced, clean_announced,
  settles_announced,
}

abbrev tree : Site
tree = site (construct (λ _. 0) 2 1 4)

-- Latest event first: thread 0 announces its arrival at the root, thread 1 sees that and waits,
-- and enters the leaf behind thread 0 with no arrival of its own at the root.
abbrev meeting : List (ℕ × Event)
meeting =
    (1, access false)
    ∷ (1, access false)
    ∷ (0, access false)
    ∷ (0, access true)
    ∷ (0, access false)
    ∷ (1, access false)
    ∷ (1, access false)
    ∷ (1, access false)
    ∷ (0, access false)
    ∷ (0, access false)
    ∷ (0, access false)
    ∷ (1, invoke arrive)
    ∷ (0, invoke arrive)
    ∷ []

abbrev met : (s : System Cell Pc) × Reach node_code tree 4 1 s
met = played node_code tree 4 1 meeting

-- Both departures.
abbrev parting : List (ℕ × Event)
parting =
    (1, access false)
    ∷ (1, access false)
    ∷ (1, access false)
    ∷ (1, access false)
    ∷ (1, access false)
    ∷ (1, invoke depart)
    ∷ (0, access false)
    ∷ (0, access false)
    ∷ (0, invoke depart)
    ∷ []

abbrev parted : (s : System Cell Pc) × Reach node_code tree 4 1 s
parted = played node_code tree 4 1 (parting ++ meeting)

-- At the meeting, the leaf counts both arrivals and the root one.
met_counters : (met.0.mem.root ≡ 1) × (counter_at node_code met.0.mem 1 ≡ 2)
unfolding played step entry arrive_body delay_round arrive_tail depart_body depart_tail backoff
    pause_loop construct nodes_count leaves_count pow_int pow_loop parent_index set_parents
    leaf_share get_leaf_for_thread sum ceil_quotient divide of_size nearest round_even scale_up
    scale_down ceil dec_lt
met_counters = (refl, refl)

parted_surplus : surplus node_code 4 parted.0 ≡ 0
unfolding played step entry arrive_body delay_round arrive_tail depart_body depart_tail backoff
    pause_loop construct nodes_count leaves_count pow_int pow_loop parent_index set_parents
    leaf_share get_leaf_for_thread sum ceil_quotient divide of_size nearest round_even scale_up
    scale_down ceil dec_lt
parted_surplus = refl

linearizable_announced_example :
    Run 1 4
      (events node_code tree 4 1 met.1)
      (surplus node_code 4 met.0)
      (λ i. client node_code tree (met.0.threads i))
    × (query met.0.mem ≡ answer (surplus node_code 4 met.0))
linearizable_announced_example =
    linearizable_announced (λ _. 0) 2 1 4 1 (omega arith) (omega arith) (omega arith) met.1

simulation_announced_example :
    let s' = turn node_code tree 1 1 (invoke depart) met.0 in
    Course 1
      (signal (invoke depart))
      (surplus node_code 4 met.0)
      (client node_code tree (met.0.threads 1))
      (surplus node_code 4 s')
      (client node_code tree (s'.threads 1))
    × (query met.0.mem ≡ answer (surplus node_code 4 met.0))
    × (query s'.mem ≡ answer (surplus node_code 4 s'))
simulation_announced_example =
    simulation_announced (λ _. 0) 2 1 4 1 (omega arith) (omega arith) (omega arith) met.1 1
      (invoke depart) (omega arith)

counters_announced_example :
    (counter_at node_code met.0.mem 1 + 1 < 2 ^ 64)
    × (counter_at node_code met.0.mem 1
        ≡ sum 4 (λ i. units node_code tree i 1 (met.0.threads i))
          + sum tree.total_nodes (λ w. owed node_code tree met.0.mem w 1))
counters_announced_example =
    counters_announced (λ _. 0) 2 1 4 1 (omega arith) (omega arith) (omega arith) met.1 1

clean_announced_example :
    ((u : ℕ) → u < tree.total_nodes → counter_at node_code parted.0.mem u ≡ 0)
    × (query parted.0.mem ≡ false)
clean_announced_example =
    clean_announced (λ _. 0) 2 1 4 1 (omega arith) (omega arith) (omega arith) parted.1
      parted_surplus

-- The thread that has not returned goes on, with the other's accesses in between.
abbrev going_on : Served node_code tree 4 1 met.0
going_on = accessed node_code tree 4 1 (0 ∷ 1 ∷ 0 ∷ 1 ∷ []) met.0

settles_announced_example :
    ((going_on.1.threads 1).task ≡ idle)
    ⊎ (going_on.0 < accesses_left node_code node_progress node_cost 4 met.0)
settles_announced_example =
    settles_announced (λ _. 0) 2 1 4 1 (omega arith) (omega arith) (omega arith) met.1 going_on.2 1
      (omega arith)
