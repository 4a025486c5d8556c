-- ===== src/Tests/Turning.antt =====
-- Runs of `full_contention_handling_snzi` on a tree with two leaves and four threads: thread 0 meets
-- contention and turns to the tree, and thread 1 goes directly.
use scalable_non_zero_indica.Base.{
  ℕ, ◌-◌, ◌<◌, ◌^◌, ◌≡◌, ◌⊎◌, refl, arith, List, [], ◌∷◌, true, false, sum, ◌++◌,
}
use scalable_non_zero_indica.Node.{arrive, depart}
use scalable_non_zero_indica.Indicator.{Run, Course, answer}
use native.Mathlib.Decide.{dec_lt}
use scalable_non_zero_indica.Tree.{
  construct, nodes_count, leaves_count, pow_int, pow_loop, parent_index, set_parents, leaf_share,
  get_leaf_for_thread,
}
use scalable_non_zero_indica.Tree.Double.{
  ceil_quotient, divide, of_size, nearest, round_even, scale_up, scale_down, ceil,
}
use scalable_non_zero_indica.Machine.{Site, site, Event, invoke, access, query}
use scalable_non_zero_indica.Machine.Books.{counter_at}
use scalable_non_zero_indica.Machine.Refines.{signal}
use scalable_non_zero_indica.Backoff.{backoff, pause_loop}
use scalable_non_zero_indica.SemiContention.{
  step, entry, arrive_body, delay_round, arrive_tail, depart_body, depart_tail,
}
use scalable_non_zero_indica.FullContention.{node_code, arrive_directly}
use scalable_non_zero_indica.FullContention.System.{
  FullSystem, FullReach, full_turn, resting, visit, after_direct,
}
use scalable_non_zero_indica.FullContention.Schedule.{full_played, FullServed, full_accessed}
use scalable_non_zero_indica.FullContention.Halves.{visitor_client}
use scalable_non_zero_indica.FullContention.Agree.{VisitorAgrees}
use scalable_non_zero_indica.FullContention.Courses.{full_surplus, full_events}
use scalable_non_zero_indica.FullContention.Settles.{full_accesses_left}
use scalable_non_zero_indica.FullContention.Stranded.{stranded}
use scalable_non_zero_indica.FullContention.Correct.{
  linearizable_full, simulation_full, flags_full, clean_full, settles_full,
}

abbrev tree : Site
tree = site (construct (λ _. 0) 2 1 4)

-- Latest event first: a visit of thread 0 whose compare-exchange fails five times.
abbrev contended_visit : List (ℕ × Event)
contended_visit =
    (0, access false)
    ∷ (0, invoke depart)
    ∷ (0, access false)
    ∷ (0, access true)
    ∷ (0, access true)
    ∷ (0, access true)
    ∷ (0, access true)
    ∷ (0, access true)
    ∷ (0, access false)
    ∷ (0, invoke arrive)
    ∷ []

-- Thread 0 is in its leaf, and thread 1 has loaded the root's counter before thread 0 changed it.
abbrev meeting : List (ℕ × Event)
meeting =
    (0, access false)
    ∷ (0, access false)
    ∷ (0, access false)
    ∷ (0, access false)
    ∷ (1, access false)
    ∷ (1, invoke arrive)
    ∷ (0, access false)
    ∷ (0, invoke arrive)
    ∷ []

abbrev met : (s : FullSystem) × FullReach tree 4 1 s
met = full_played tree 4 1 (meeting ++ contended_visit)

-- Thread 1 arrives at its second attempt, and both depart.
abbrev parting : List (ℕ × Event)
parting =
    (1, access false)
    ∷ (1, invoke depart)
    ∷ (0, access false)
    ∷ (0, access false)
    ∷ (0, access false)
    ∷ (0, access false)
    ∷ (0, invoke depart)
    ∷ (1, access false)
    ∷ (1, access false)
    ∷ []

abbrev parted : (s : FullSystem) × FullReach tree 4 1 s
parted = full_played tree 4 1 (parting ++ meeting ++ contended_visit)

met_counters : (met.0.mem.root ≡ 1) × (counter_at node_code met.0.mem 1 ≡ 1)
unfolding full_played step entry arrive_body delay_round arrive_tail depart_body depart_tail
    construct nodes_count leaves_count pow_int pow_loop parent_index set_parents leaf_share
    get_leaf_for_thread sum ceil_quotient divide of_size nearest round_even scale_up scale_down ceil
    dec_lt backoff pause_loop
met_counters = (refl, refl)

parted_surplus : full_surplus 4 parted.0 ≡ 0
unfolding full_played step entry arrive_body delay_round arrive_tail depart_body depart_tail
    construct nodes_count leaves_count pow_int pow_loop parent_index set_parents leaf_share
    get_leaf_for_thread sum ceil_quotient divide of_size nearest round_even scale_up scale_down ceil
    dec_lt backoff pause_loop
parted_surplus = refl

linearizable_full_example :
    Run 1 4
      (full_events 4 tree met.1)
      (full_surplus 4 met.0)
      (λ i. visitor_client tree (met.0.visitors i).held (met.0.visitors i).activity)
    × (query met.0.mem ≡ answer (full_surplus 4 met.0))
linearizable_full_example =
    linearizable_full (λ _. 0) 2 1 4 (omega arith) (omega arith) (omega arith) met.1

-- Thread 1 finds that the counter has changed.
simulation_full_example :
    let s' = full_turn tree 1 1 (access false) met.0 in
    Course 1
      (signal (access false))
      (full_surplus 4 met.0)
      (visitor_client tree (met.0.visitors 1).held (met.0.visitors 1).activity)
      (full_surplus 4 s')
      (visitor_client tree (s'.visitors 1).held (s'.visitors 1).activity)
    × (query met.0.mem ≡ answer (full_surplus 4 met.0))
    × (query s'.mem ≡ answer (full_surplus 4 s'))
simulation_full_example =
    simulation_full (λ _. 0) 2 1 4 (omega arith) (omega arith) (omega arith) met.1 1 (access false)
      (omega arith)

flags_full_example : VisitorAgrees (met.0.visitors 0)
flags_full_example = flags_full (λ _. 0) 2 1 4 (omega arith) (omega arith) (omega arith) met.1 0

clean_full_example :
    ((u : ℕ) → u < tree.total_nodes → counter_at node_code parted.0.mem u ≡ 0)
    × (query parted.0.mem ≡ false)
clean_full_example =
    clean_full (λ _. 0) 2 1 4 (omega arith) (omega arith) (omega arith) parted.1 parted_surplus

-- Thread 1 meets a changed counter and tries again, while thread 0 has returned.
abbrev going_on : FullServed tree 4 met.0
going_on = full_accessed tree 4 (1 ∷ 0 ∷ 1 ∷ []) met.0

going_on_twice : going_on.0 ≡ 2
unfolding full_accessed full_played full_turn visit after_direct arrive_directly step entry
    arrive_body delay_round arrive_tail depart_body depart_tail construct nodes_count leaves_count
    pow_int pow_loop parent_index set_parents leaf_share get_leaf_for_thread sum ceil_quotient
    divide of_size nearest round_even scale_up scale_down ceil dec_lt backoff pause_loop
going_on_twice = refl

settles_full_example :
    ((going_on.1.visitors 1).activity ≡ resting) ⊎ (going_on.0 < full_accesses_left 4 met.0)
settles_full_example =
    settles_full (λ _. 0) 2 1 4 (omega arith) (omega arith) (omega arith) met.1 going_on.2 1
      (omega arith)

stranded_example :
    (s : FullSystem) × FullReach tree 4 2 s
    × (full_surplus 4 s ≡ 0)
    × ((s.mem.cells (tree.leaf_for 0)).x ≡ 2 ^ 64 - 1)
    × (query s.mem ≡ true)
stranded_example = stranded (λ _. 0) 2 0 4 (omega arith) (omega arith) (omega arith)
