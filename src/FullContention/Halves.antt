-- ===== src/FullContention/Halves.antt =====
-- A thread of `full_contention_handling_snzi` as two threads of the tree of Machine: one that starts
-- at the thread's leaf, and one that starts at the root.
use scalable_non_zero_indica.Base.{
  ℕ, ◌≤◌, ◌≡◌, refl, Bool, true, false, List, [], ◌∷◌, ltb, if◌then◌else◌, ap, update, merge,
}
use scalable_non_zero_indica.Node.{Op, arrive, depart, Action, goes, calls, returns}
use scalable_non_zero_indica.SemiContention
use scalable_non_zero_indica.SemiContention.{Cell}
use scalable_non_zero_indica.Indicator.{Client, quiet, arriving, departing}
use scalable_non_zero_indica.Machine.{
  Site, Memory, Frame, in_root, in_node, Suspended, Task, idle, busy, Thread, System, root_access,
  enter, perform, advance, frame_op, settle, resume,
}
use scalable_non_zero_indica.Machine.Refines.{client_of}
use scalable_non_zero_indica.FullContention.{ContentionStatus, node_code}
use scalable_non_zero_indica.FullContention.System.{
  Activity, resting, arriving_directly, departing_directly, in_tree, Visitor, FullSystem,
  after_tree,
}

-- Threads 0 to n - 1 start at their leaves, and all the others at the root.
abbrev pub double : ℕ → Site → Site
double n tree = record {
  total_nodes = tree.total_nodes;
  parent = tree.parent;
  leaf_for = λ i. if ltb i n then tree.leaf_for i else 0;
}

abbrev pub tree_side : ℕ → Activity → ContentionStatus → Thread SemiContention.Pc
tree_side held resting cont = record {
  held = if cont.use_snzi_in_depart then held else 0;
  task = idle;
}
tree_side held (arriving_directly pc) cont = record { held = 0; task = idle }
tree_side held departing_directly cont = record { held = 0; task = idle }
tree_side held (in_tree f below) cont = record { held = held; task = busy f below }

abbrev pub root_side : ℕ → Activity → ContentionStatus → Thread SemiContention.Pc
root_side held resting cont = record {
  held = if cont.use_snzi_in_depart then 0 else held;
  task = idle;
}
root_side held (arriving_directly pc) cont = record { held = held; task = busy (in_root arrive) [] }
root_side held departing_directly cont = record { held = held; task = busy (in_root depart) [] }
root_side held (in_tree f below) cont = record { held = 0; task = idle }

abbrev pub tree_thread : Visitor → Thread SemiContention.Pc
tree_thread v = tree_side v.held v.activity v.cont

abbrev pub root_thread : Visitor → Thread SemiContention.Pc
root_thread v = root_side v.held v.activity v.cont

abbrev pub split : ℕ → FullSystem → System Cell SemiContention.Pc
split n s = record {
  mem = s.mem;
  threads = merge n (λ i. tree_thread (s.visitors i)) (λ i. root_thread (s.visitors i));
}

-- A thread whose departures each follow their arrival: what its flags and its call have to do with
-- one another.
abbrev pub Agrees : ℕ → Activity → ContentionStatus → Type 0
Agrees held resting cont = (cont.use_snzi_in_arrive ≡ cont.use_snzi_in_depart) × (held ≤ 1)
Agrees held (arriving_directly pc) cont =
    (cont.use_snzi_in_arrive ≡ false) × (cont.use_snzi_in_depart ≡ false) × (held ≡ 0)
Agrees held departing_directly cont =
    (cont.use_snzi_in_arrive ≡ false) × (cont.use_snzi_in_depart ≡ false) × (held ≡ 0)
Agrees held (in_tree f below) cont =
    (cont.use_snzi_in_arrive ≡ true) × (cont.use_snzi_in_depart ≡ true) × (held ≡ 0)

-- What the abstract indicator sees of a thread.
abbrev pub visitor_client : Site → ℕ → Activity → Client
visitor_client tree held resting = record { held = held; phase = quiet }
visitor_client tree held (arriving_directly pc) = record { held = held; phase = arriving false }
visitor_client tree held departing_directly = record { held = held; phase = departing false }
visitor_client tree held (in_tree f below) = client_of node_code tree held (busy f below)

module _ (n : ℕ) (tree : Site) where
  pub frame_op-double :
      (f : Frame SemiContention.Pc)
      → frame_op node_code (double n tree) f ≡ frame_op node_code tree f
  frame_op-double (in_root op) = refl
  frame_op-double (in_node v p) = refl

  resume-double :
      (below : List (Suspended SemiContention.Pc))
      → resume node_code (double n tree) below ≡ resume node_code tree below
  unfolding resume
  resume-double [] = refl
  resume-double (s ∷ below) = refl

  perform-double :
      (m : Memory Cell) (v : ℕ) (below : List (Suspended SemiContention.Pc))
      (a : Action Cell SemiContention.Pc)
      → perform node_code (double n tree) m v below a ≡ perform node_code tree m v below a
  unfolding perform enter resume
  perform-double m v below (goes c p) = refl
  perform-double m v below (calls op c p) = refl
  perform-double m v below (returns c) =
      ap (λ t. (record m { cells = update m.cells v c }, t)) (resume-double below)

  pub advance-double :
      (b : Bool) (m : Memory Cell) (f : Frame SemiContention.Pc)
      (below : List (Suspended SemiContention.Pc))
      → advance node_code (double n tree) b m f below ≡ advance node_code tree b m f below
  unfolding advance
  advance-double b m (in_root op) below =
      ap (λ t. (record m { root = root_access op m.root }, t)) (resume-double below)
  advance-double b m (in_node v p) below =
      perform-double m v below (SemiContention.step b (m.cells v) p)

  pub after_tree-sides :
      (cont : ContentionStatus) (op : Op) (t : Task SemiContention.Pc)
      → cont.use_snzi_in_depart ≡ true
      → let v = after_tree 0 cont op t in
        (tree_side v.held v.activity v.cont ≡ settle node_code (double n tree) 0 op t)
        × (root_side v.held v.activity v.cont ≡ record { held = 0; task = idle })
  unfolding after_tree settle
  after_tree-sides cont op idle e = rw e (refl, refl)
  after_tree-sides cont op (busy f below) e = (refl, refl)

  pub client-double :
      (held : ℕ) (f : Frame SemiContention.Pc) (below : List (Suspended SemiContention.Pc))
      → client_of node_code (double n tree) held (busy f below)
        ≡ client_of node_code tree held (busy f below)
  client-double held (in_root op) below = refl
  client-double held (in_node v p) below = refl
