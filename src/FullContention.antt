-- ===== src/FullContention.antt =====
-- snzi.hpp, class `full_contention_handling_snzi`: the direct arrivals and departures at the root,
-- and the flags by which a thread turns to the tree once the root was contended.
pub mod Routes
pub mod System
pub mod Halves
pub mod Match
pub mod Agree
pub mod Simulate
pub mod Courses
pub mod Returns
pub mod Load
pub mod Settles
pub mod Stranded
pub mod Schedule
pub mod Correct
use scalable_non_zero_indica.Base.{
  ℕ, ◌+◌, Bool, true, false, ◌&&◌, not, leb, ◌==◌, if◌then◌else◌, add64, List, [], ◌∷◌,
}
use scalable_non_zero_indica.Backoff.{fresh_tries, backoff}
use scalable_non_zero_indica.Node.{depart, NodeCode}
use scalable_non_zero_indica.Machine.{root_access}
use scalable_non_zero_indica.SemiContention

-- A thread's own flags, all false in a fresh object.
pub record ContentionStatus : Type 0 where
  pub use_snzi_in_arrive : Bool
  pub use_snzi_in_depart : Bool
  pub use_snzi_tree_flag : Bool

abbrev pub fresh_status : ContentionStatus
fresh_status = record {
  use_snzi_in_arrive = false;
  use_snzi_in_depart = false;
  use_snzi_tree_flag = false;
}

abbrev pub max_contention_num_failures : ℕ
max_contention_num_failures = 5

-- Where a call of `ArriveDirectly` stands. `num_failures` is an `int`, whose overflow after
-- 2 ^ 31 - 1 failures of one call C++ leaves undefined; here it goes on.
pub data Pc : Type 0 where
  direct_load : Pc
  direct_exchange : (oldx num_failures tries : ℕ) → Pc

pub data Outcome : Type 0 where
  retries : (x : ℕ) → Pc → Outcome
  arrived : (x : ℕ) → ContentionStatus → Outcome

-- After the loop of `ArriveDirectly`
unfoldable pub note_failures : ℕ → ContentionStatus → ContentionStatus
note_failures num_failures cont =
    if leb max_contention_num_failures num_failures
    then record cont { use_snzi_tree_flag = true }
    else cont

-- `root_node::ArriveDirectly`, one access of the root's counter `x`; the Boolean is true where
-- the weak compare-exchange fails for no reason.
unfoldable pub arrive_directly : Bool → ℕ → ContentionStatus → Pc → Outcome
arrive_directly spurious x cont direct_load = retries x (direct_exchange x 0 fresh_tries)
arrive_directly spurious x cont (direct_exchange oldx num_failures tries) =
    if (x == oldx) && not spurious
    then arrived (add64 oldx 1) (note_failures num_failures cont)
    else retries x (direct_exchange x (num_failures + 1) (backoff tries).1)

-- A call of `ArriveDirectly` whose accesses find the counter as listed; a call that has returned
-- makes no more of them.
unfoldable pub direct_run : List (Bool × ℕ) → ContentionStatus → Outcome → Outcome
direct_run [] cont o = o
direct_run ((spurious, x) ∷ found) cont (retries y pc) =
    direct_run found cont (arrive_directly spurious x cont pc)
direct_run (e ∷ found) cont (arrived y cont') = arrived y cont'

-- The flags after `root_node::DepartDirectly`
unfoldable pub turn_to_tree : ContentionStatus → ContentionStatus
turn_to_tree cont =
    if cont.use_snzi_tree_flag
    then record cont { use_snzi_in_arrive = true; use_snzi_in_depart = true }
    else cont

-- `root_node::DepartDirectly`, on the root's counter and the flags
unfoldable pub depart_directly : ℕ → ContentionStatus → ℕ × ContentionStatus
depart_directly x cont = (root_access depart x, turn_to_tree cont)

pub data Route : Type 0 where
  directly through_tree : Route

-- Which way `Arrive` and `Depart` go.
unfoldable pub arrive_route : ContentionStatus → Route
arrive_route cont = if cont.use_snzi_in_arrive then through_tree else directly

unfoldable pub depart_route : ContentionStatus → Route
depart_route cont = if cont.use_snzi_in_depart then through_tree else directly

-- The flags after `Arrive`, with the failures of its compare-exchange if it goes directly, and
-- after `Depart`.
unfoldable pub arrive_status : ℕ → ContentionStatus → ContentionStatus
arrive_status num_failures cont =
    if cont.use_snzi_in_arrive then cont else note_failures num_failures cont

unfoldable pub depart_status : ContentionStatus → ContentionStatus
depart_status cont = if cont.use_snzi_in_depart then cont else turn_to_tree cont

-- Visits of one thread, each an `Arrive` and then a `Depart`, with the failures of the former.
unfoldable pub visits : List ℕ → ContentionStatus → ContentionStatus
visits [] cont = cont
visits (f ∷ fs) cont = visits fs (depart_status (arrive_status f cont))

-- The nodes of the tree have the code of those of `semi_contention_handling_snzi`.
abbrev pub node_code : NodeCode
node_code = SemiContention.node_code
