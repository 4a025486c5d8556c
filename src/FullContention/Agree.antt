-- ===== src/FullContention/Agree.antt =====
-- The flags of a thread of `full_contention_handling_snzi` with one arrival at a time, from event to
-- event.
use scalable_non_zero_indica.Base.{
  ℕ, zero, suc, ◌≡◌, refl, arith, Bool, true, false, ltb, leb, ◌==◌, ◌&&◌, not, sym, ◌∙◌,
  Bool-cases, inl, inr,
}
use scalable_non_zero_indica.Node.{Op, arrive, depart}
use scalable_non_zero_indica.SemiContention
use scalable_non_zero_indica.SemiContention.{Cell}
use scalable_non_zero_indica.Machine.{
  Site, Memory, Task, idle, busy, Event, invoke, access, advance, frame_op,
}
use scalable_non_zero_indica.FullContention.{
  ContentionStatus, Pc, direct_load, direct_exchange, note_failures, arrive_directly, turn_to_tree,
  depart_directly, arrive_route, depart_route, node_code,
}
use scalable_non_zero_indica.FullContention.System.{
  Activity, resting, arriving_directly, departing_directly, in_tree, Visitor, start_call,
  after_direct, after_tree, visit,
}
use scalable_non_zero_indica.FullContention.Halves.{Agrees}

abbrev pub VisitorAgrees : Visitor → Type 0
VisitorAgrees v = Agrees v.held v.activity v.cont

module _ (tree : Site) (tid : ℕ) where
  arrive-Agrees :
      (m : Memory Cell) (held : ℕ) (cont : ContentionStatus)
      → Agrees held resting cont
      → VisitorAgrees (visit tree 1 tid (invoke arrive) m held resting cont).1
  unfolding visit start_call arrive_route
  arrive-Agrees m (suc held) cont h =
      let full : ltb (suc held) 1 ≡ false = ground arith in rw full h
  arrive-Agrees m zero cont (same, le) = elim (Bool-cases cont.use_snzi_in_arrive) [
    | inl p ↦ rw p (refl, sym same ∙ p, refl)
    | inr p ↦ rw p (refl, sym same ∙ p, refl)
  ]

  depart-Agrees :
      (m : Memory Cell) (held : ℕ) (cont : ContentionStatus)
      → Agrees held resting cont
      → VisitorAgrees (visit tree 1 tid (invoke depart) m held resting cont).1
  unfolding visit start_call depart_route
  depart-Agrees m zero cont h = h
  depart-Agrees m (suc held) cont (same, le) = elim (Bool-cases cont.use_snzi_in_depart) [
    | inl p ↦ rw p (same ∙ p, refl, omega arith)
    | inr p ↦ rw p (same ∙ p, refl, omega arith)
  ]

  note-same :
      (f : ℕ) (cont : ContentionStatus)
      → cont.use_snzi_in_arrive ≡ cont.use_snzi_in_depart
      → (note_failures f cont).use_snzi_in_arrive ≡ (note_failures f cont).use_snzi_in_depart
  unfolding note_failures
  note-same f cont same = elim (Bool-cases (leb 5 f)) [ inl p ↦ rw p same | inr p ↦ rw p same ]

  direct-Agrees :
      (b : Bool) (m : Memory Cell) (held : ℕ) (pc : Pc) (cont : ContentionStatus)
      → Agrees held (arriving_directly pc) cont
      → VisitorAgrees (visit tree 1 tid (access b) m held (arriving_directly pc) cont).1
  unfolding visit after_direct arrive_directly
  direct-Agrees b m held direct_load cont h = h
  direct-Agrees b m held (direct_exchange oldx f tries) cont (p, q, z) =
      elim (Bool-cases ((m.root == oldx) && not b)) [
        | inl here ↦ rw here (note-same f cont (p ∙ sym q), omega (arith, z))
        | inr elsewhere ↦ rw elsewhere (p, q, z)
      ]

  departing-Agrees :
      (b : Bool) (m : Memory Cell) (held : ℕ) (cont : ContentionStatus)
      → Agrees held departing_directly cont
      → VisitorAgrees (visit tree 1 tid (access b) m held departing_directly cont).1
  unfolding visit depart_directly turn_to_tree
  departing-Agrees b m held cont (p, q, z) = elim (Bool-cases cont.use_snzi_tree_flag) [
    | inl t ↦ rw t (refl, omega (arith, z))
    | inr t ↦ rw t (p ∙ sym q, omega (arith, z))
  ]

  after_tree-Agrees :
      (held : ℕ) (cont : ContentionStatus) (op : Op) (t : Task SemiContention.Pc)
      → cont.use_snzi_in_arrive ≡ true
      → cont.use_snzi_in_depart ≡ true
      → held ≡ 0
      → VisitorAgrees (after_tree held cont op t)
  unfolding after_tree
  after_tree-Agrees held cont arrive idle p q z = (p ∙ sym q, omega arith)
  after_tree-Agrees held cont depart idle p q z = (p ∙ sym q, omega arith)
  after_tree-Agrees held cont op (busy f below) p q z = (p, q, z)

  -- With one arrival at a time, the flags and the calls of a thread go on to agree.
  pub visit-Agrees :
      (e : Event) (m : Memory Cell) (held : ℕ) (act : Activity) (cont : ContentionStatus)
      → Agrees held act cont
      → VisitorAgrees (visit tree 1 tid e m held act cont).1
  unfolding visit
  visit-Agrees (invoke arrive) m held resting cont h = arrive-Agrees m held cont h
  visit-Agrees (invoke depart) m held resting cont h = depart-Agrees m held cont h
  visit-Agrees (access b) m held resting cont h = h
  visit-Agrees (access b) m held (arriving_directly pc) cont h = direct-Agrees b m held pc cont h
  visit-Agrees (access b) m held departing_directly cont h = departing-Agrees b m held cont h
  visit-Agrees (access b) m held (in_tree f below) cont (p, q, z) =
      let (m', t) = advance node_code tree b m f below in
      after_tree-Agrees held cont (frame_op node_code tree f) t p q z
  visit-Agrees (invoke arrive) m held (arriving_directly pc) cont h = h
  visit-Agrees (invoke arrive) m held departing_directly cont h = h
  visit-Agrees (invoke arrive) m held (in_tree f below) cont h = h
  visit-Agrees (invoke depart) m zero (arriving_directly pc) cont h = h
  visit-Agrees (invoke depart) m zero departing_directly cont h = h
  visit-Agrees (invoke depart) m zero (in_tree f below) cont h = h
  visit-Agrees (invoke depart) m (suc held) (arriving_directly pc) cont h = h
  visit-Agrees (invoke depart) m (suc held) departing_directly cont h = h
  visit-Agrees (invoke depart) m (suc held) (in_tree f below) cont h = h
