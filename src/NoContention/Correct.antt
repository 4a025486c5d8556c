-- ===== src/NoContention/Correct.antt =====
-- The class `no_contention_handling_snzi` of snzi.hpp as a whole: its trees, under any
-- interleaving of the atomic accesses of threads that call Arrive and Depart.
use scalable_non_zero_indica.Base.{ℕ, suc, ◌+◌, ◌*◌, ◌≤◌, ◌<◌, ◌^◌, ◌≡◌, ◌⊎◌, sum, false}
use scalable_non_zero_indica.Indicator.{Run, Course, answer}
use scalable_non_zero_indica.Tree.{construct}
use scalable_non_zero_indica.Tree.Count.{first}
use scalable_non_zero_indica.Machine.{site, System, Event, Reach, query, turn, idle}
use scalable_non_zero_indica.Machine.Books.{counter_at, units, owed}
use scalable_non_zero_indica.Machine.Query.{surplus}
use scalable_non_zero_indica.Machine.Refines.{client, signal, events}
use scalable_non_zero_indica.Machine.Settles.{Accesses, accesses_left}
use scalable_non_zero_indica.Machine.Built.{
  built_linearizable, built_simulation, built_counters, built_clean, built_returns, built_settles,
}
use scalable_non_zero_indica.Machine.Returns.{alone_for}
use scalable_non_zero_indica.NoContention.Progress.{node_progress}
use scalable_non_zero_indica.NoContention.Costs.{node_cost}
use scalable_non_zero_indica.NoContention.{Pc, node_code, node_laws}

module _ (raw : ℕ → ℕ) (k h n quota : ℕ) (branching : 2 ≤ k) (in_words : k ^ suc h < 2 ^ 64)
    (room : n * (quota + 2) + first k (suc h) + 1 < 2 ^ 64) where
  -- For a tree of no_contention_handling_snzi that is freshly built with an arity of at least 2
  -- and K ^ (H + 1) in a word, used by threads 0 to n - 1 with at most quota arrivals each, where
  -- n * (quota + 2) and the number of nodes and 1 fit a counter, and any interleaving of their
  -- accesses: in every state reached, the same invocations and accesses, in their order, lead the
  -- abstract indicator to the surplus and the clients of this state, each of them doing no more
  -- than the indicator allows it, and Query answers whether the surplus is not zero.
  pub linearizable_plain :
      {s : System ℕ Pc} (r : Reach node_code (site (construct raw k h n)) n quota s)
      → Run quota n
          (events node_code (site (construct raw k h n)) n quota r)
          (surplus node_code n s)
          (λ i. client node_code (site (construct raw k h n)) (s.threads i))
        × (query s.mem ≡ answer (surplus node_code n s))
  linearizable_plain =
      built_linearizable node_code node_laws raw k h n quota branching in_words room

  -- For a tree of no_contention_handling_snzi that is freshly built with an arity of at least 2
  -- and K ^ (H + 1) in a word, used by threads 0 to n - 1 with at most quota arrivals each, where
  -- n * (quota + 2) and the number of nodes and 1 fit a counter, and any interleaving of their
  -- accesses: each event of a thread in a state reached does to the abstract client of that
  -- thread, and to the surplus, what the indicator allows: an invocation starts the call and
  -- leaves the surplus, or changes nothing where the client is in a call, holds quota arrivals
  -- already, or has none to depart from; an access lets the call have its one effect on the
  -- surplus, or return after that effect, or both in this order, or neither; and Query answers
  -- before and after the event whether the surplus is not zero.
  pub simulation_plain :
      {s : System ℕ Pc}
      → Reach node_code (site (construct raw k h n)) n quota s
      → (i : ℕ) (e : Event) → i < n
      → let s' = turn node_code (site (construct raw k h n)) quota i e s in
        Course quota
          (signal e)
          (surplus node_code n s)
          (client node_code (site (construct raw k h n)) (s.threads i))
          (surplus node_code n s')
          (client node_code (site (construct raw k h n)) (s'.threads i))
        × (query s.mem ≡ answer (surplus node_code n s))
        × (query s'.mem ≡ answer (surplus node_code n s'))
  simulation_plain = built_simulation node_code node_laws raw k h n quota branching in_words room

  -- For a tree of no_contention_handling_snzi that is freshly built with an arity of at least 2
  -- and K ^ (H + 1) in a word, used by threads 0 to n - 1 with at most quota arrivals each, where
  -- n * (quota + 2) and the number of nodes and 1 fit a counter, and any interleaving of their
  -- accesses: in every state reached, each counter is the number of arrivals that the threads have
  -- at its node plus the number of its children with a nonzero counter, and is not about to wrap.
  pub counters_plain :
      {s : System ℕ Pc}
      → Reach node_code (site (construct raw k h n)) n quota s
      → (u : ℕ)
      → (counter_at node_code s.mem u + 1 < 2 ^ 64)
        × (counter_at node_code s.mem u
            ≡ sum n (λ i. units node_code (site (construct raw k h n)) i u (s.threads i))
              + sum
                  (site (construct raw k h n)).total_nodes
                  (λ w. owed node_code (site (construct raw k h n)) s.mem w u))
  counters_plain = built_counters node_code node_laws raw k h n quota branching in_words room

  -- For a tree of no_contention_handling_snzi that is freshly built with an arity of at least 2
  -- and K ^ (H + 1) in a word, used by threads 0 to n - 1 with at most quota arrivals each, where
  -- n * (quota + 2) and the number of nodes and 1 fit a counter, and any interleaving of their
  -- accesses: in every state reached without a surplus, all counters of the tree are zero and
  -- Query is false.
  pub clean_plain :
      {s : System ℕ Pc}
      → Reach node_code (site (construct raw k h n)) n quota s
      → surplus node_code n s ≡ 0
      → ((u : ℕ) → u < (site (construct raw k h n)).total_nodes → counter_at node_code s.mem u ≡ 0)
        × (query s.mem ≡ false)
  clean_plain = built_clean node_code node_laws raw k h n quota branching in_words room

  -- For a tree of no_contention_handling_snzi that is freshly built with an arity of at least 2
  -- and K ^ (H + 1) in a word, used by threads 0 to n - 1 with at most quota arrivals each, where
  -- n * (quota + 2) and the number of nodes and 1 fit a counter, and any interleaving of their
  -- accesses: from every state reached, each thread comes to the end of its call by finitely many
  -- accesses of its own, if no other thread makes one from then on and no compare-exchange fails
  -- for no reason.
  pub returns_plain :
      {s : System ℕ Pc}
      → Reach node_code (site (construct raw k h n)) n quota s
      → (i : ℕ)
      → (j : ℕ) × (((alone_for node_code (site (construct raw k h n)) quota i j s).threads i).task
          ≡ idle)
  returns_plain =
      built_returns node_code node_laws raw k h n quota branching in_words room node_progress

  -- For a tree of no_contention_handling_snzi that is freshly built with an arity of at least 2
  -- and K ^ (H + 1) in a word, used by threads 0 to n - 1 with at most quota arrivals each, where
  -- n * (quota + 2) and the number of nodes and 1 fit a counter, and any interleaving of their
  -- accesses: if from a state reached on no call is invoked, and threads in calls make accesses in
  -- any order of which no compare-exchange fails for no reason, then after any number of these
  -- each thread has returned from its call, or their number is still below one that the state at
  -- the start determines.
  pub settles_plain :
      {s s' : System ℕ Pc} {j : ℕ}
      → Reach node_code (site (construct raw k h n)) n quota s
      → Accesses node_code (site (construct raw k h n)) n quota s j s'
      → (i : ℕ) → i < n
      → ((s'.threads i).task ≡ idle) ⊎ (j < accesses_left node_code node_progress node_cost n s)
  settles_plain =
      built_settles node_code node_laws raw k h n quota branching in_words room node_progress
        node_cost
