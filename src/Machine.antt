-- ===== src/Machine.antt =====
-- The tree of nodes of snzi.hpp with `n` threads on it, interleaved at each atomic access.
pub mod Books
pub mod Shape
pub mod Commit
pub mod Invariant
pub mod Query
pub mod Refines
pub mod Clean
pub mod Built
pub mod Schedule
pub mod Alone
pub mod Returns
pub mod Load
pub mod Settles
use scalable_non_zero_indica.Base.{
  ℕ, zero, suc, ◌+◌, ◌≡◌, Bool, true, false, List, [], ◌∷◌, ltb, ◌==◌, if◌then◌else◌, update, add64,
  sub64, not, ◌<◌,
}
use scalable_non_zero_indica.Node.{
  Op, arrive, depart, Action, goes, calls, returns, yield, NodeCode,
}
use scalable_non_zero_indica.Tree.{Tree, get_leaf_for_thread}

-- What the calls of threads see of a tree: its nodes, their parents, and where a thread starts.
pub record Site : Type 0 where
  pub total_nodes : ℕ
  pub parent : ℕ → ℕ
  pub leaf_for : ℕ → ℕ

abbrev pub site : Tree → Site
site tree = record {
  total_nodes = tree.total_nodes;
  parent = tree.parent;
  leaf_for = get_leaf_for_thread tree;
}

-- The counters: the root's `X`, and the nodes of `others` by their index.
pub record Memory (Cell : Type 0) : Type 0 where
  pub root : ℕ
  pub cells : ℕ → Cell

-- A call that runs: of the root's `Arrive` or `Depart`, or of a node's, at a place in its code.
pub data Frame (Pc : Type 0) : Type 0 where
  in_root : Op → Frame Pc
  in_node : ℕ → Pc → Frame Pc

-- A call that waits for the parent's: the node, where to resume, what was called.
pub record Suspended (Pc : Type 0) : Type 0 where
  pub node : ℕ
  pub pc : Pc
  pub called : Op

pub data Task (Pc : Type 0) : Type 0 where
  idle : Task Pc
  busy : Frame Pc → List (Suspended Pc) → Task Pc

-- `held` counts the arrivals that have returned and whose departure has not been invoked.
pub record Thread (Pc : Type 0) : Type 0 where
  pub held : ℕ
  pub task : Task Pc

pub record System (Cell Pc : Type 0) : Type 0 where
  pub mem : Memory Cell
  pub threads : ℕ → Thread Pc

-- What may happen at a thread: it invokes an operation, or makes its next access (the Boolean is
-- true where a weak compare-exchange is to fail for no reason).
pub data Event : Type 0 where
  invoke : Op → Event
  access : Bool → Event

-- `root_node::Arrive` and `root_node::Depart`
unfoldable pub root_access : Op → ℕ → ℕ
root_access arrive x = add64 x 1
root_access depart x = sub64 x 1

-- `root_node::Query`, and so the tree's
unfoldable pub query : {Cell : Type 0} → Memory Cell → Bool
query m = not (m.root == 0)

module _ (code : NodeCode) (tree : Site) where
  open code use {Cell, Pc, fresh, entry, step, op_of}

  -- The `switch` that leads a call to the root or to a node of `others`.
  unfoldable pub enter : ℕ → Op → Frame Pc
  enter v op = if v == 0 then in_root op else in_node v (entry op)

  unfoldable pub resume : List (Suspended Pc) → Task Pc
  resume [] = idle
  resume (s ∷ below) = busy (in_node s.node s.pc) below

  unfoldable pub perform :
      Memory Cell → ℕ → List (Suspended Pc) → Action Cell Pc → Memory Cell × Task Pc
  perform m v below (goes c p) = (record m { cells = update m.cells v c }, busy (in_node v p) below)
  perform m v below (calls op c p) = (
    record m { cells = update m.cells v c },
    busy (enter (tree.parent v) op) (record { node = v; pc = p; called = op } ∷ below),
  )
  perform m v below (returns c) = (record m { cells = update m.cells v c }, resume below)

  -- One access of a thread that is in a call.
  unfoldable pub advance :
      Bool → Memory Cell → Frame Pc → List (Suspended Pc) → Memory Cell × Task Pc
  advance b m (in_root op) below = (record m { root = root_access op m.root }, resume below)
  advance b m (in_node v p) below = perform m v below (step b (m.cells v) p)

  abbrev pub frame_op : Frame Pc → Op
  frame_op (in_root op) = op
  frame_op (in_node v p) = op_of p

  -- The outermost call has returned exactly when the thread is idle again.
  unfoldable pub settle : ℕ → Op → Task Pc → Thread Pc
  settle held op idle = record { held = held + yield op; task = idle }
  settle held op (busy f below) = record { held = held; task = busy f below }

  -- Arrive and Depart of the tree, by thread `tid`: both start at the thread's leaf. A thread
  -- departs only from an arrival that it has made, and has at most `quota` of these at a time;
  -- an event that this, or a running call, forbids changes nothing.
  unfoldable pub react : ℕ → ℕ → Event → Memory Cell → ℕ → Task Pc → Memory Cell × Thread Pc
  react quota tid (invoke arrive) m held idle =
      if ltb held quota
      then (m, record { held = held; task = busy (enter (tree.leaf_for tid) arrive) [] })
      else (m, record { held = held; task = idle })
  react quota tid (invoke depart) m zero idle = (m, record { held = 0; task = idle })
  react quota tid (invoke depart) m (suc held) idle =
      (m, record { held = held; task = busy (enter (tree.leaf_for tid) depart) [] })
  react quota tid (invoke op) m held (busy f below) =
      (m, record { held = held; task = busy f below })
  react quota tid (access b) m held idle = (m, record { held = held; task = idle })
  react quota tid (access b) m held (busy f below) =
      let (m', t) = advance b m f below in (m', settle held (frame_op f) t)

  unfoldable pub turn : ℕ → ℕ → Event → System Cell Pc → System Cell Pc
  turn quota i e s =
      let (m, th) = react quota i e s.mem (s.threads i).held (s.threads i).task in
      record { mem = m; threads = update s.threads i th }

  -- A tree as its constructor leaves it, and no thread on it.
  unfoldable pub initial : System Cell Pc
  initial = record {
    mem = record { root = 0; cells = λ _. fresh };
    threads = λ _. record { held = 0; task = idle };
  }

  -- The states of a tree that threads 0 to n - 1 use, after any interleaving.
  pub data Reach (n quota : ℕ) : System Cell Pc → Type 0 where
    start : Reach n quota initial
    later :
        {s : System Cell Pc} (i : ℕ) (e : Event)
        → i < n
        → Reach n quota s
        → Reach n quota (turn quota i e s)
