-- ===== src/Machine/Built.antt =====
-- The properties of the tree, for any node code that meets the interface, on a tree as the
-- constructor of snzi.hpp builds it.
use scalable_non_zero_indica.Base.{
  ℕ, suc, ◌+◌, ◌*◌, ◌≤◌, ◌<◌, ◌^◌, ◌≡◌, ◌⊎◌, arith, sum, false, ◌∙◌, ap, sym, update_self,
}
use mathlib.Core.Path.{subst}
use scalable_non_zero_indica.Node.{NodeCode, NodeLaws}
use scalable_non_zero_indica.Indicator.{Run, Course, answer}
use scalable_non_zero_indica.Tree.{construct}
use scalable_non_zero_indica.Tree.Count.{first}
use scalable_non_zero_indica.Tree.Perfect.{construct-IsPerfect, IsPerfect}
use scalable_non_zero_indica.Machine.{Site, site, System, Event, Reach, query, turn, idle}
use scalable_non_zero_indica.Machine.Books.{counter_at, units, owed}
use scalable_non_zero_indica.Machine.Invariant.{Fits, Inv}
use scalable_non_zero_indica.Machine.Invariant.Bounds.{counter-lt}
use scalable_non_zero_indica.Machine.Invariant.Keep.{Reach-Inv}
use scalable_non_zero_indica.Machine.Query.{surplus}
use scalable_non_zero_indica.Machine.Refines.{client, signal, events}
use scalable_non_zero_indica.Machine.Refines.Simulation.{Reach-Run, turn_path}
use scalable_non_zero_indica.Machine.Alone.{NodeProgress}
use scalable_non_zero_indica.Machine.Load.{NodeCost}
use scalable_non_zero_indica.Machine.Settles.{Accesses, accesses_left, settles}
use scalable_non_zero_indica.Machine.Returns.{alone_for, alone_returns}
use scalable_non_zero_indica.Machine.Clean.{perfect-Fits, no_surplus_clean}

module _ (code : NodeCode) (laws : NodeLaws code) (raw : ℕ → ℕ) (k h n quota : ℕ)
    (branching : 2 ≤ k) (in_words : k ^ suc h < 2 ^ 64)
    (room : n * (quota + 2) + first k (suc h) + 1 < 2 ^ 64) where
  open code use {Cell, Pc}

  abbrev tree : Site
  tree = site (construct raw k h n)

  perfect : IsPerfect k h (construct raw k h n)
  perfect = construct-IsPerfect raw k h n branching in_words

  built-Fits : Fits (site (construct raw k h n)) n quota
  built-Fits = perfect-Fits n quota perfect (omega (arith, perfect.nodes, room))

  pub built_linearizable :
      {s : System Cell Pc} (r : Reach code (site (construct raw k h n)) n quota s)
      → Run quota n
          (events code (site (construct raw k h n)) n quota r)
          (surplus code n s)
          (λ i. client code (site (construct raw k h n)) (s.threads i))
        × (query s.mem ≡ answer (surplus code n s))
  built_linearizable r = Reach-Run code laws tree n quota built-Fits r

  built-Course :
      {s : System Cell Pc}
      → Reach code (site (construct raw k h n)) n quota s
      → (i : ℕ) (e : Event) → i < n
      → let s' = turn code (site (construct raw k h n)) quota i e s in
        Course quota
          (signal e)
          (surplus code n s)
          (client code (site (construct raw k h n)) (s.threads i))
          (surplus code n s')
          (client code (site (construct raw k h n)) (s'.threads i))
  unfolding turn
  built-Course {s} r i e lt =
      subst
        (λ th.
          Course quota (signal e) (surplus code n s) (client code tree (s.threads i))
            (surplus code n (turn code tree quota i e s)) (client code tree th))
        (sym (update_self s.threads i _))
        (turn_path code laws tree n quota built-Fits i e s lt
          (Reach-Inv code laws tree n quota built-Fits r))

  pub built_simulation :
      {s : System Cell Pc}
      → Reach code (site (construct raw k h n)) n quota s
      → (i : ℕ) (e : Event) → i < n
      → let s' = turn code (site (construct raw k h n)) quota i e s in
        Course quota
          (signal e)
          (surplus code n s)
          (client code (site (construct raw k h n)) (s.threads i))
          (surplus code n s')
          (client code (site (construct raw k h n)) (s'.threads i))
        × (query s.mem ≡ answer (surplus code n s))
        × (query s'.mem ≡ answer (surplus code n s'))
  built_simulation {s} r i e lt = (
    built-Course r i e lt,
    (built_linearizable r).1,
    (built_linearizable (Reach.later i e lt r)).1,
  )

  pub built_counters :
      {s : System Cell Pc}
      → Reach code (site (construct raw k h n)) n quota s
      → (u : ℕ)
      → (counter_at code s.mem u + 1 < 2 ^ 64)
        × (counter_at code s.mem u
            ≡ sum n (λ i. units code (site (construct raw k h n)) i u (s.threads i))
              + sum
                  (site (construct raw k h n)).total_nodes
                  (λ w. owed code (site (construct raw k h n)) s.mem w u))
  built_counters {s} r u = (counter-lt code laws tree n quota built-Fits s inv u, inv.balance u)
    where
      inv : Inv code tree n quota s
      inv = Reach-Inv code laws tree n quota built-Fits r

  pub built_clean :
      {s : System Cell Pc}
      → Reach code (site (construct raw k h n)) n quota s
      → surplus code n s ≡ 0
      → ((u : ℕ) → u < (site (construct raw k h n)).total_nodes → counter_at code s.mem u ≡ 0)
        × (query s.mem ≡ false)
  built_clean {s} r none = (
    no_surplus_clean code laws tree n quota built-Fits r none,
    (built_linearizable r).1 ∙ ap answer none,
  )

  pub built_returns :
      NodeProgress code
      → {s : System Cell Pc} → Reach code (site (construct raw k h n)) n quota s
      → (i : ℕ)
      → (j : ℕ) × (((alone_for code (site (construct raw k h n)) quota i j s).threads i).task
          ≡ idle)
  built_returns progress r i = alone_returns code laws progress tree n quota built-Fits r i

  pub built_settles :
      (progress : NodeProgress code) (cost : NodeCost code progress) {s s' : System Cell Pc} {j : ℕ}
      → Reach code (site (construct raw k h n)) n quota s
      → Accesses code (site (construct raw k h n)) n quota s j s'
      → (i : ℕ) → i < n
      → ((s'.threads i).task ≡ idle) ⊎ (j < accesses_left code progress cost n s)
  built_settles progress cost = settles code progress cost n laws tree quota built-Fits
