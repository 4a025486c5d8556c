-- ===== src/FullContention/System.antt =====
-- snzi.hpp, class `full_contention_handling_snzi`: threads that go directly and through the tree,
-- interleaved at each atomic access.
use scalable_non_zero_indica.Base.{ℕ, zero, suc, ◌+◌, ◌<◌, List, [], ltb, if◌then◌else◌, update}
use scalable_non_zero_indica.Node.{Op, arrive, depart, yield}
use scalable_non_zero_indica.SemiContention
use scalable_non_zero_indica.SemiContention.{Cell}
use scalable_non_zero_indica.Machine.{
  Site, Memory, Frame, Suspended, Task, idle, busy, Event, invoke, access, enter, advance, frame_op,
}
use scalable_non_zero_indica.FullContention.{
  ContentionStatus, fresh_status, Pc, direct_load, Outcome, retries, arrived, arrive_directly,
  depart_directly, Route, directly, through_tree, arrive_route, depart_route, node_code,
}

-- What a thread is about to do: nothing, an access of the root in `ArriveDirectly` or
-- `DepartDirectly`, or one of a call in the tree.
pub data Activity : Type 0 where
  resting : Activity
  arriving_directly : Pc → Activity
  departing_directly : Activity
  in_tree : Frame SemiContention.Pc → List (Suspended SemiContention.Pc) → Activity

-- `held` counts the arrivals that have returned and whose departure has not been invoked.
pub record Visitor : Type 0 where
  pub held : ℕ
  pub activity : Activity
  pub cont : ContentionStatus

pub record FullSystem : Type 0 where
  pub mem : Memory Cell
  pub visitors : ℕ → Visitor

-- The first place in the code of a call, once its route is known.
unfoldable pub start_call : Site → ℕ → Op → Route → Activity
start_call tree tid op through_tree = in_tree (enter node_code tree (tree.leaf_for tid) op) []
start_call tree tid arrive directly = arriving_directly direct_load
start_call tree tid depart directly = departing_directly

-- After an access in `ArriveDirectly`
unfoldable pub after_direct : Memory Cell → ℕ → ContentionStatus → Outcome → Memory Cell × Visitor
after_direct m held cont (retries x pc) =
    (m, record { held = held; activity = arriving_directly pc; cont = cont })
after_direct m held cont (arrived x cont') =
    (record m { root = x }, record { held = held + 1; activity = resting; cont = cont' })

-- After an access in the tree, by a call that is of `op` if it has returned.
unfoldable pub after_tree : ℕ → ContentionStatus → Op → Task SemiContention.Pc → Visitor
after_tree held cont op idle = record { held = held + yield op; activity = resting; cont = cont }
after_tree held cont op (busy f below) = record {
  held = held;
  activity = in_tree f below;
  cont = cont;
}

-- `Arrive` and `Depart` by thread `tid`, an invocation or an access at a time. A thread departs
-- only from an arrival that it has made, and has at most `quota` of these at a time; an event that
-- this, or a running call, forbids changes nothing.
unfoldable pub visit :
    Site → ℕ → ℕ → Event → Memory Cell → ℕ → Activity → ContentionStatus → Memory Cell × Visitor
visit tree quota tid (invoke arrive) m held resting cont =
    let next = if ltb held quota then start_call tree tid arrive (arrive_route cont) else resting in
    (m, record { held = held; activity = next; cont = cont })
visit tree quota tid (invoke depart) m zero resting cont =
    (m, record { held = 0; activity = resting; cont = cont })
visit tree quota tid (invoke depart) m (suc held) resting cont =
    let next = start_call tree tid depart (depart_route cont) in
    (m, record { held = held; activity = next; cont = cont })
visit tree quota tid (access b) m held (arriving_directly pc) cont =
    after_direct m held cont (arrive_directly b m.root cont pc)
visit tree quota tid (access b) m held departing_directly cont =
    let (x, cont') = depart_directly m.root cont in
    (record m { root = x }, record { held = held; activity = resting; cont = cont' })
visit tree quota tid (access b) m held (in_tree f below) cont =
    let (m', t) = advance node_code tree b m f below in
    (m', after_tree held cont (frame_op node_code tree f) t)
visit tree quota tid (access b) m held resting cont =
    (m, record { held = held; activity = resting; cont = cont })
visit tree quota tid (invoke op) m held (arriving_directly pc) cont =
    (m, record { held = held; activity = arriving_directly pc; cont = cont })
visit tree quota tid (invoke op) m held departing_directly cont =
    (m, record { held = held; activity = departing_directly; cont = cont })
visit tree quota tid (invoke op) m held (in_tree f below) cont =
    (m, record { held = held; activity = in_tree f below; cont = cont })

unfoldable pub full_turn : Site → ℕ → ℕ → Event → FullSystem → FullSystem
full_turn tree quota i e s =
    let v = s.visitors i in
    let (m, v') = visit tree quota i e s.mem v.held v.activity v.cont in
    record { mem = m; visitors = update s.visitors i v' }

-- A tree as its constructor leaves it, and threads with fresh flags that have not come yet.
unfoldable pub full_initial : FullSystem
full_initial = record {
  mem = record { root = 0; cells = λ _. node_code.fresh };
  visitors = λ _. record { held = 0; activity = resting; cont = fresh_status };
}

-- The states of a tree that threads 0 to n - 1 use, after any interleaving.
pub data FullReach (tree : Site) (n quota : ℕ) : FullSystem → Type 0 where
  start : FullReach tree n quota full_initial
  later :
      {s : FullSystem} (i : ℕ) (e : Event)
      → i < n
      → FullReach tree n quota s
      → FullReach tree n quota (full_turn tree quota i e s)
