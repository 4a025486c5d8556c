-- ===== src/FullContention/Stranded.antt =====
-- A thread of `full_contention_handling_snzi` that arrives twice before it departs.
use scalable_non_zero_indica.Base.{
  ℕ, zero, suc, ◌-◌, ◌≤◌, ◌<◌, ◌^◌, ◌≡◌, ◌≢◌, refl, arith, true, false, not, ◌==◌, [], ap, ◌∙◌,
  update, update_self, update_same, update_ne, sum-eq-zero,
}
use mathlib.Core.Path.{fun_ext}
use scalable_non_zero_indica.Node.{arrive, depart}
use scalable_non_zero_indica.Backoff.{backoff, pause_loop}
use scalable_non_zero_indica.SemiContention
use scalable_non_zero_indica.SemiContention.{Cell}
use scalable_non_zero_indica.Tree.{construct}
use scalable_non_zero_indica.Tree.Perfect.{construct-IsPerfect}
use scalable_non_zero_indica.Tree.Leaf.{leaf-OnLevel}
use scalable_non_zero_indica.Machine.{
  Site, site, Memory, in_node, Event, invoke, access, root_access, enter, perform, resume, advance,
  query,
}
use scalable_non_zero_indica.FullContention.{
  ContentionStatus, fresh_status, note_failures, arrive_directly, turn_to_tree, depart_directly,
  arrive_route, depart_route, node_code,
}
use scalable_non_zero_indica.FullContention.System.{
  resting, in_tree, Visitor, FullSystem, start_call, after_direct, after_tree, visit, full_turn,
  full_initial, FullReach,
}
use scalable_non_zero_indica.FullContention.Courses.{visitor_presence, full_surplus}

abbrev newcomer : Visitor
newcomer = record { held = 0; activity = resting; cont = fresh_status }

module _ (tree : Site) (n : ℕ) (some_thread : 0 < n) where
  -- A state reached in which only thread 0 has come.
  record Only (m : Memory Cell) (v : Visitor) : Type 0 where
    state : FullSystem
    reached : FullReach tree n 2 state
    mem_is : state.mem ≡ m
    visitor_is : state.visitors 0 ≡ v
    others : (j : ℕ) → j ≢ 0 → state.visitors j ≡ newcomer

  nobody : Only (record { root = 0; cells = λ _. node_code.fresh }) newcomer
  unfolding full_initial
  nobody = record {
    state = full_initial;
    reached = FullReach.start;
    mem_is = refl;
    visitor_is = refl;
    others = λ j ne. refl;
  }

  goes_on :
      (e : Event) {m m' : Memory Cell} {v v' : Visitor}
      → visit tree 2 0 e m v.held v.activity v.cont ≡ (m', v')
      → Only m v
      → Only m' v'
  unfolding full_turn
  goes_on e {m} {m'} {v} {v'} p o = record {
    state = full_turn tree 2 0 e o.state;
    reached = FullReach.later 0 e some_thread o.reached;
    mem_is = ap (λ r. r.0) went;
    visitor_is = ap (λ r. r.1) went;
    others = λ j ne. update_ne o.state.visitors 0 j _ ne ∙ o.others j ne;
  }
    where
      after : Memory Cell → Visitor → Memory Cell × Visitor
      after m w = visit tree 2 0 e m w.held w.activity w.cont

      went : after o.state.mem (o.state.visitors 0) ≡ (m', v')
      went = ap (λ m. after m (o.state.visitors 0)) o.mem_is ∙ ap (after m) o.visitor_is ∙ p

  flagged : ContentionStatus
  flagged = record fresh_status { use_snzi_tree_flag = true }

  counted : ℕ → Memory Cell
  counted x = record { root = x; cells = λ _. node_code.fresh }

  -- A contended arrival: the weak compare-exchange fails five times.
  contended_arrival : Only (counted 1) (record { held = 1; activity = resting; cont = flagged })
  unfolding visit start_call after_direct arrive_route arrive_directly note_failures backoff
      pause_loop flagged counted
  contended_arrival = goes_on (access false) refl (
      goes_on (access true) refl (
        goes_on (access true) refl (
          goes_on (access true) refl (
            goes_on (access true) refl (
              goes_on (access true) refl
                (goes_on (access false) refl (goes_on (invoke arrive) refl nobody)))))))

  second_arrival : Only (counted 2) (record { held = 2; activity = resting; cont = flagged })
  unfolding visit start_call after_direct arrive_route arrive_directly note_failures backoff
      pause_loop flagged counted
  second_arrival =
      goes_on (access false) refl
        (goes_on (access false) refl (goes_on (invoke arrive) refl contended_arrival))

  turned : ContentionStatus
  turned = record {
    use_snzi_in_arrive = true;
    use_snzi_in_depart = true;
    use_snzi_tree_flag = true;
  }

  first_departure : Only (counted 1) (record { held = 1; activity = resting; cont = turned })
  unfolding visit start_call depart_route depart_directly turn_to_tree root_access flagged turned
      counted
  first_departure = goes_on (access false) refl (goes_on (invoke depart) refl second_arrival)

  module _ (some_leaf : 0 < tree.leaf_for 0) where
    abbrev leaf : ℕ
    leaf = tree.leaf_for 0

    enters_leaf : enter node_code tree leaf depart ≡ in_node leaf SemiContention.depart_load
    unfolding enter SemiContention.entry
    enters_leaf = let inner : (leaf == 0) ≡ false = ground arith in rw inner refl

    at_leaf : SemiContention.Pc → Visitor
    at_leaf p = record { held = 0; activity = in_tree (in_node leaf p) []; cont = turned }

    departure_begun : Only (counted 1) (at_leaf SemiContention.depart_load)
    unfolding visit start_call depart_route turned at_leaf
    departure_begun =
        goes_on (invoke depart)
          (ap (λ f. (counted 1, record { held = 0; activity = in_tree f []; cont = turned }))
            enters_leaf)
          first_departure

    -- The leaf's counter is found to be zero.
    departure_loaded : Only (counted 1) (at_leaf (SemiContention.depart_exchange 0))
    unfolding visit after_tree advance perform at_leaf counted SemiContention.step
        SemiContention.depart_body
    departure_loaded =
        goes_on (access false)
          (ap
            (λ c. (
              record { root = 1; cells = c },
              record {
                held = 0;
                activity = in_tree (in_node leaf (SemiContention.depart_exchange 0)) [];
                cont = turned;
              },
            ))
            (fun_ext (update_same (λ _. node_code.fresh) leaf node_code.fresh refl)))
          departure_begun

    abbrev wrapped : Cell
    wrapped = record { x = 2 ^ 64 - 1; announce = false }

    second_departure :
        Only
          (record { root = 1; cells = update (λ _. node_code.fresh) leaf wrapped })
          (record { held = 0; activity = resting; cont = turned })
    unfolding visit after_tree advance perform resume at_leaf counted SemiContention.step
        SemiContention.depart_tail
    second_departure = goes_on (access false) refl departure_loaded

    nobody_present :
        (o : Only
          (record { root = 1; cells = update (λ _. node_code.fresh) leaf wrapped })
          (record { held = 0; activity = resting; cont = turned }))
        → full_surplus n o.state ≡ 0
    nobody_present o = sum-eq-zero n (λ i. visitor_presence (o.state.visitors i)) (λ i lt. each i)
      where
        each : (i : ℕ) → visitor_presence (o.state.visitors i) ≡ 0
        each zero = ap visitor_presence o.visitor_is
        each (suc i) = ap visitor_presence (o.others (suc i) (omega arith))

    strand :
        (s : FullSystem) × FullReach tree n 2 s
        × (full_surplus n s ≡ 0)
        × ((s.mem.cells leaf).x ≡ 2 ^ 64 - 1)
        × (query s.mem ≡ true)
    unfolding query
    strand =
        let o = second_departure in
        (
          o.state,
          o.reached,
          nobody_present o,
          ap (λ m. (m.cells leaf).x) o.mem_is
              ∙ ap (λ c. c.x) (update_self (λ _. node_code.fresh) leaf wrapped),
          ap (λ m. not (m.root == 0)) o.mem_is,
        )

-- For a tree of full_contention_handling_snzi that is freshly built with an arity of at least 2, a
-- height of at least 1 and K ^ (H + 1) in a word, and at least one thread, where a thread may
-- arrive twice before it departs: some state is reached in which no thread is present, the counter
-- at the leaf of thread 0 is 2 ^ 64 - 1, and Query is true.
pub stranded :
    (raw : ℕ → ℕ) (k h n : ℕ)
    → 2 ≤ k
    → k ^ suc (suc h) < 2 ^ 64
    → 0 < n
    → let tree = site (construct raw k (suc h) n) in
      (s : FullSystem) × FullReach tree n 2 s
      × (full_surplus n s ≡ 0)
      × ((s.mem.cells (tree.leaf_for 0)).x ≡ 2 ^ 64 - 1)
      × (query s.mem ≡ true)
stranded raw k h n branching in_words some_thread =
    strand (site (construct raw k (suc h) n)) n some_thread
      (omega (arith, (leaf-OnLevel (construct-IsPerfect raw k (suc h) n branching in_words) 0).0))
