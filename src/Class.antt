-- ===== src/Class.antt =====
-- The interface of the classes of snzi.hpp, as a program that uses one of their objects sees it.
pub mod Nodes
pub mod Full
pub mod Cost
use scalable_non_zero_indica.Base.{List, ℕ, ◌+◌, ◌≤◌, ◌<◌, ◌≡◌, ◌⊎◌, Bool, true, false, update}
use scalable_non_zero_indica.Node.{Op, arrive, depart, stake, yield}
use scalable_non_zero_indica.Machine.{Site, Event, invoke, access}
use scalable_non_zero_indica.Indicator.{
  Phase, quiet, is_quiet, arriving, departing, Client, Signal, Run, answer,
}

-- What threads share, and what each has of its own: where it stands in a call, and its flags. An
-- event is an invocation or an access; a thread holds one arrival at a time.
pub record SnziClass : Type 1 where
  pub Shared : Type 0
  pub Thread : Type 0
  pub fresh : Shared
  pub newcomer : Thread
  pub react : Site → ℕ → Event → Shared → Thread → Shared × Thread
  pub is_idle : Thread → Bool
  pub query : Shared → Bool
  pub counter : Shared → ℕ → ℕ

-- The states of an object that threads 0 to n - 1 use, after any interleaving.
pub data ClassReach (c : SnziClass) (tree : Site) (n : ℕ) : c.Shared → (ℕ → c.Thread) → Type 0 where
  start : ClassReach c tree n c.fresh (λ _. c.newcomer)
  later :
      {m : c.Shared} {threads : ℕ → c.Thread} (i : ℕ) (e : Event)
      → i < n
      → ClassReach c tree n m threads
      → ClassReach c tree n
          (c.react tree i e m (threads i)).0
          (update threads i (c.react tree i e m (threads i)).1)

abbrev pub InPhase : Op → Phase → Type 0
InPhase arrive quiet = ⊥
InPhase arrive (arriving made) = Unit {0}
InPhase arrive (departing made) = ⊥
InPhase depart quiet = ⊥
InPhase depart (arriving made) = ⊥
InPhase depart (departing made) = Unit {0}

-- In a call of `op`, with no arrival held beside it
abbrev pub Calling : Op → Client → Type 0
Calling op k = (k.held ≡ 0) × InPhase op k.phase

abbrev pub at_rest : ℕ → Client
at_rest held = record { held = held; phase = quiet }

-- What the class promises on a tree, to n threads.
pub record SnziLaws (c : SnziClass) (tree : Site) (n : ℕ) : Type 0 where
  pub client : c.Thread → Client
  pub surplus : (ℕ → c.Thread) → ℕ
  pub newcomer_rests : client c.newcomer ≡ at_rest 0
  pub idle_quiet : (th : c.Thread) → c.is_idle th ≡ is_quiet (client th).phase
  -- It is in step with a run of the abstract indicator, and answers as this does.
  pub runs :
      {m : c.Shared} {threads : ℕ → c.Thread}
      → ClassReach c tree n m threads
      → (events : List (ℕ × Signal)) × Run 1 n events (surplus threads) (λ i. client (threads i))
        × (c.query m ≡ answer (surplus threads))
  -- A thread that holds what the operation wants gets into a call of it,
  pub invoked :
      (op : Op) (i : ℕ) (m : c.Shared) (th : c.Thread)
      → client th ≡ at_rest (stake op)
      → Calling op (client (c.react tree i (invoke op) m th).1)
  -- stays there from access to access, and comes back with what the operation yields.
  pub goes_on :
      (op : Op) (b : Bool) (i : ℕ) {m : c.Shared} {threads : ℕ → c.Thread}
      → i < n
      → ClassReach c tree n m threads
      → Calling op (client (threads i))
      → let th' = (c.react tree i (access b) m (threads i)).1 in
        Calling op (client th') ⊎ (client th' ≡ at_rest (yield op))
  -- Without a surplus the tree is as when it was built.
  pub clean :
      {m : c.Shared} {threads : ℕ → c.Thread}
      → ClassReach c tree n m threads
      → surplus threads ≡ 0
      → (u : ℕ) → u < tree.total_nodes
      → c.counter m u ≡ 0

-- What the class promises while no compare-exchange fails for no reason: a number that each access
-- of a call lowers, and that an invocation raises by at most `jump`.
pub record SnziProgress (c : SnziClass) (tree : Site) (n : ℕ) : Type 0 where
  pub left : c.Shared → (ℕ → c.Thread) → ℕ
  pub jump : ℕ
  pub falls :
      (i : ℕ) {m : c.Shared} {threads : ℕ → c.Thread}
      → i < n
      → ClassReach c tree n m threads
      → c.is_idle (threads i) ≡ false
      → let (m', th) = c.react tree i (access false) m (threads i) in
        left m' (update threads i th) + 1 ≤ left m threads
  pub left_fresh : left c.fresh (λ _. c.newcomer) ≡ 0
  pub jumps :
      (op : Op) (i : ℕ) (m : c.Shared) (threads : ℕ → c.Thread)
      → i < n
      → c.is_idle (threads i) ≡ true
      → let (m', th) = c.react tree i (invoke op) m (threads i) in
        left m' (update threads i th) ≤ left m threads + jump
