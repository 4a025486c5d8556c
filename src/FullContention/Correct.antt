-- ===== src/FullContention/Correct.antt =====
-- The class `full_contention_handling_snzi` of snzi.hpp as a whole: its trees, under any interleaving
-- of the atomic accesses of threads of which each departs before it arrives again.
use scalable_non_zero_indica.Base.{
  ℕ, suc, ◌+◌, ◌*◌, ◌≤◌, ◌<◌, ◌^◌, ◌≡◌, ◌⊎◌, arith, false, sym, ap, ◌∙◌, update_self,
}
use mathlib.Core.Path.{subst}
use scalable_non_zero_indica.SemiContention.{node_laws}
use scalable_non_zero_indica.Indicator.{Run, Course, answer}
use scalable_non_zero_indica.Tree.{construct}
use scalable_non_zero_indica.Tree.Count.{first}
use scalable_non_zero_indica.Tree.Perfect.{construct-IsPerfect, IsPerfect}
use scalable_non_zero_indica.Machine.{Site, site, Event, query}
use scalable_non_zero_indica.Machine.Books.{counter_at}
use scalable_non_zero_indica.Machine.Refines.{signal}
use scalable_non_zero_indica.Machine.Invariant.{Fits}
use scalable_non_zero_indica.Machine.Clean.{perfect-Fits, no_surplus_clean}
use scalable_non_zero_indica.FullContention.{node_code}
use scalable_non_zero_indica.FullContention.System.{resting, FullSystem, FullReach, full_turn}
use scalable_non_zero_indica.FullContention.Halves.{double, visitor_client}
use scalable_non_zero_indica.FullContention.Agree.{VisitorAgrees}
use scalable_non_zero_indica.FullContention.Simulate.{FullReach-halves}
use scalable_non_zero_indica.FullContention.Returns.{full_alone_for, full_returns}
use scalable_non_zero_indica.FullContention.Settles.{FullAccesses, full_accesses_left, full_settles}
use scalable_non_zero_indica.FullContention.Courses.{
  full_surplus, full_events, surplus-split, full-Course, FullReach-Run, full_query,
}

-- The tree has room for two threads of Machine for each thread.
pub double-Fits : (tree : Site) (n : ℕ) → Fits tree (n + n) 1 → Fits (double n tree) (n + n) 1
double-Fits tree n fits = record {
  upward = fits.upward;
  some_node = fits.some_node;
  leaf_in = λ i. ground (arith, fits.some_node, fits.leaf_in i);
  small = fits.small;
}

module _ (raw : ℕ → ℕ) (k h n : ℕ) (branching : 2 ≤ k) (in_words : k ^ suc h < 2 ^ 64)
    (room : 6 * n + first k (suc h) + 1 < 2 ^ 64) where
  perfect : IsPerfect k h (construct raw k h n)
  perfect = construct-IsPerfect raw k h n branching in_words

  built-Fits : Fits (double n (site (construct raw k h n))) (n + n) 1
  built-Fits =
      double-Fits (site (construct raw k h n)) n
        (perfect-Fits (n + n) 1 perfect (omega (arith, perfect.nodes, room)))

  -- For a tree of full_contention_handling_snzi that is freshly built with an arity of at least 2
  -- and K ^ (H + 1) in a word, used by threads 0 to n - 1 of which each departs before it arrives
  -- again, where 6 * n and the number of nodes and 1 fit a counter, and any interleaving of their
  -- accesses, direct or in the tree: in every state reached, the same invocations and accesses, in
  -- their order, lead the abstract indicator to the surplus and the clients of this state, each of
  -- them doing no more than the indicator allows it, and Query answers whether the surplus is not
  -- zero.
  pub linearizable_full :
      {s : FullSystem} (r : FullReach (site (construct raw k h n)) n 1 s)
      → Run 1 n (full_events n (site (construct raw k h n)) r) (full_surplus n s) (λ i.
        visitor_client (site (construct raw k h n)) (s.visitors i).held (s.visitors i).activity)
        × (query s.mem ≡ answer (full_surplus n s))
  linearizable_full r = (
    FullReach-Run n (site (construct raw k h n)) built-Fits r,
    full_query n (site (construct raw k h n)) built-Fits r,
  )

  -- For a tree of full_contention_handling_snzi that is freshly built with an arity of at least 2
  -- and K ^ (H + 1) in a word, used by threads 0 to n - 1 of which each departs before it arrives
  -- again, where 6 * n and the number of nodes and 1 fit a counter, and any interleaving of their
  -- accesses, direct or in the tree: each event of a thread in a state reached does to the
  -- abstract client of that thread, and to the surplus, what the indicator allows: an invocation
  -- starts the call and leaves the surplus, or changes nothing where the client is in a call,
  -- holds an arrival already, or has none to depart from; an access lets the call have its one
  -- effect on the surplus, or return after that effect, or both in this order, or neither; and
  -- Query answers before and after the event whether the surplus is not zero.
  pub simulation_full :
      {s : FullSystem}
      → FullReach (site (construct raw k h n)) n 1 s
      → (i : ℕ) (e : Event) → i < n
      → let tree = site (construct raw k h n) in
        let s' = full_turn tree 1 i e s in
        Course 1
          (signal e)
          (full_surplus n s)
          (visitor_client tree (s.visitors i).held (s.visitors i).activity)
          (full_surplus n s')
          (visitor_client tree (s'.visitors i).held (s'.visitors i).activity)
        × (query s.mem ≡ answer (full_surplus n s))
        × (query s'.mem ≡ answer (full_surplus n s'))
  unfolding full_turn
  simulation_full {s} r i e lt = (
    subst
        (λ v.
          Course 1 (signal e) (full_surplus n s)
            (visitor_client (site (construct raw k h n)) (s.visitors i).held
              (s.visitors i).activity)
            (full_surplus n (full_turn (site (construct raw k h n)) 1 i e s))
            (visitor_client (site (construct raw k h n)) v.held v.activity))
        (sym (update_self s.visitors i _))
        (full-Course n (site (construct raw k h n)) built-Fits r i e lt),
    full_query n (site (construct raw k h n)) built-Fits r,
    full_query n (site (construct raw k h n)) built-Fits (FullReach.later i e lt r),
  )

  -- For a tree of full_contention_handling_snzi that is freshly built with an arity of at least 2
  -- and K ^ (H + 1) in a word, used by threads 0 to n - 1 of which each departs before it arrives
  -- again, where 6 * n and the number of nodes and 1 fit a counter, and any interleaving: in every
  -- state reached, a thread that is at rest has its two use flags alike and holds at most one
  -- arrival, a thread in a direct call has both false, a thread in a call through the tree has
  -- both true, and either of the latter holds none.
  pub flags_full :
      {s : FullSystem}
      → FullReach (site (construct raw k h n)) n 1 s
      → (i : ℕ) → VisitorAgrees (s.visitors i)
  flags_full r = (FullReach-halves n (site (construct raw k h n)) r).0

  -- For a tree of full_contention_handling_snzi that is freshly built with an arity of at least 2
  -- and K ^ (H + 1) in a word, used by threads 0 to n - 1 of which each departs before it arrives
  -- again, where 6 * n and the number of nodes and 1 fit a counter, and any interleaving of their
  -- accesses, direct or in the tree: in every state reached without a surplus, all counters of the
  -- tree are zero and Query is false.
  pub clean_full :
      {s : FullSystem}
      → FullReach (site (construct raw k h n)) n 1 s
      → full_surplus n s ≡ 0
      → ((u : ℕ) → u < (construct raw k h n).total_nodes → counter_at node_code s.mem u ≡ 0)
        × (query s.mem ≡ false)
  clean_full {s} r none = (
    no_surplus_clean node_code node_laws (double n (site (construct raw k h n))) (n + n) 1
        built-Fits (FullReach-halves n (site (construct raw k h n)) r).1 (surplus-split n s ∙ none),
    full_query n (site (construct raw k h n)) built-Fits r ∙ ap answer none,
  )

  -- For a tree of full_contention_handling_snzi that is freshly built with an arity of at least 2
  -- and K ^ (H + 1) in a word, used by threads 0 to n - 1 of which each departs before it arrives
  -- again, where 6 * n and the number of nodes and 1 fit a counter, and any interleaving of their
  -- accesses, direct or in the tree: from every state reached, each thread comes to the end of its
  -- call by finitely many accesses of its own, if no other thread makes one from then on and no
  -- compare-exchange fails for no reason.
  pub returns_full :
      {s : FullSystem}
      → FullReach (site (construct raw k h n)) n 1 s
      → (i : ℕ) → i < n
      → (j : ℕ) × (((full_alone_for (site (construct raw k h n)) i j s).visitors i).activity
          ≡ resting)
  returns_full r i lt = full_returns n (site (construct raw k h n)) built-Fits r i lt

  -- For a tree of full_contention_handling_snzi that is freshly built with an arity of at least 2
  -- and K ^ (H + 1) in a word, used by threads 0 to n - 1 of which each departs before it arrives
  -- again, where 6 * n and the number of nodes and 1 fit a counter, and any interleaving of their
  -- accesses, direct or in the tree: if from a state reached on no call is invoked, and threads in
  -- calls make accesses in any order of which no compare-exchange fails for no reason, then after
  -- any number of these each thread has returned from its call, or their number is still below one
  -- that the state at the start determines.
  pub settles_full :
      {s s' : FullSystem} {j : ℕ}
      → FullReach (site (construct raw k h n)) n 1 s
      → FullAccesses n (site (construct raw k h n)) s j s'
      → (i : ℕ) → i < n
      → ((s'.visitors i).activity ≡ resting) ⊎ (j < full_accesses_left n s)
  settles_full = full_settles n (site (construct raw k h n)) built-Fits
