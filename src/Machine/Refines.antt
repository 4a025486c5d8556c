-- ===== src/Machine/Refines.antt =====
-- What the abstract indicator sees of a thread on the tree.
pub mod Paths
pub mod Simulation
use scalable_non_zero_indica.Base.{List, [], ◌∷◌, ℕ, zero, suc, ◌≡◌, refl, true, false}
use scalable_non_zero_indica.Node.{Op, arrive, depart, NodeCode}
use scalable_non_zero_indica.Indicator.{
  Phase, quiet, arriving, departing, is_quiet, Client, Signal, called, moved,
}
use scalable_non_zero_indica.Machine.{
  Site, Task, idle, busy, Thread, System, Event, invoke, access, Reach, start, later,
}
use scalable_non_zero_indica.Machine.Shape.{carried, outer_op}

abbrev pub signal : Event → Signal
signal (invoke op) = called op
signal (access spurious) = moved

abbrev pub phase_of : Op → ℕ → Phase
phase_of arrive zero = arriving false
phase_of arrive (suc c) = arriving true
phase_of depart zero = departing true
phase_of depart (suc c) = departing false

pub not_quiet : (op : Op) (c : ℕ) → is_quiet (phase_of op c) ≡ false
not_quiet arrive zero = refl
not_quiet arrive (suc c) = refl
not_quiet depart zero = refl
not_quiet depart (suc c) = refl

module _ (code : NodeCode) (tree : Site) where
  open code use {Cell, Pc}

  -- What the abstract indicator sees of a thread.
  abbrev pub client_of : ℕ → Task Pc → Client
  client_of held idle = record { held = held; phase = quiet }
  client_of held (busy f below) = record {
    held = held;
    phase = phase_of (outer_op code tree (busy f below)) (carried code (busy f below));
  }

  abbrev pub client : Thread Pc → Client
  client th = client_of th.held th.task

module _ (code : NodeCode) (tree : Site) (n quota : ℕ) where
  open code use {Cell, Pc}

  -- The events that have led to a state, as the indicator is told of them, the latest first
  abbrev pub events : {s : System Cell Pc} → Reach code tree n quota s → List (ℕ × Signal)
  events start = []
  events (later i e lt r) = (i, signal e) ∷ events r
