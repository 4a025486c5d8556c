-- ===== src/FullContention/Routes.antt =====
-- Which way the calls of one thread of `full_contention_handling_snzi` go.
use scalable_non_zero_indica.Base.{
  ℕ, suc, ◌+◌, ◌-◌, ◌≤◌, ◌^◌, ◌≡◌, ◌⊎◌, inl, inr, refl, arith, Bool, true, false, ◌||◌, leb,
  if◌then◌else◌, add64, List, [], ◌∷◌, length, Bool-cases, ap, ◌∙◌,
}
use mathlib.Core.Path.{subst}
use scalable_non_zero_indica.Node.{returns}
use scalable_non_zero_indica.SemiContention
use scalable_non_zero_indica.FullContention.{
  ContentionStatus, fresh_status, Pc, direct_load, direct_exchange, Outcome, retries, arrived,
  note_failures, arrive_directly, direct_run, turn_to_tree, directly, through_tree, arrive_route,
  depart_route, arrive_status, depart_status, visits, node_code,
}

-- A call that has not returned knows the counter it saw last, and has counted its failures.
Counts : ℕ → Outcome → Type 0
Counts n (retries x direct_load) = ⊥
Counts n (retries x (direct_exchange oldx num_failures tries)) = (oldx ≡ x) × (num_failures ≡ n)
Counts n (arrived x cont) = Unit {0}

step-Counts :
    (n : ℕ) (spurious : Bool) (x y : ℕ) (cont : ContentionStatus) (pc : Pc)
    → Counts n (retries y pc)
    → Counts (suc n) (arrive_directly spurious x cont pc)
unfolding Counts arrive_directly
step-Counts n spurious x y cont direct_load h = absurd h
step-Counts n spurious x y cont (direct_exchange oldx f tries) h = ground arith

run-Counts :
    (found : List (Bool × ℕ)) (cont : ContentionStatus) (n : ℕ) (o : Outcome)
    → Counts n o
    → Counts (n + length found) (direct_run found cont o)
unfolding direct_run Counts
run-Counts [] cont n o h = subst (λ k. Counts k o) (omega arith) h
run-Counts ((b, x) ∷ found) cont n (retries y pc) h =
    subst (λ k. Counts k (direct_run found cont (arrive_directly b x cont pc))) (omega arith)
      (run-Counts found cont (suc n) (arrive_directly b x cont pc) (step-Counts n b x y cont pc h))
run-Counts (e ∷ found) cont n (arrived y c) h = tt

returns_from :
    (n : ℕ) (b : Bool) (x y v : ℕ) (cont c : ContentionStatus) (pc : Pc)
    → Counts n (retries y pc)
    → arrive_directly b x cont pc ≡ arrived v c
    → (y ≡ x) × (v ≡ add64 x 1) × (c ≡ note_failures n cont)
unfolding Counts arrive_directly
returns_from n b x y v cont c direct_load h e = absurd h
returns_from n b x y v cont c (direct_exchange oldx f tries) h e = ground arith

counted :
    (b₀ : Bool) (z x₀ : ℕ) (found : List (Bool × ℕ)) (cont : ContentionStatus)
    → Counts (length found) (direct_run ((b₀, x₀) ∷ found) cont (retries z direct_load))
unfolding Counts direct_run arrive_directly
counted b₀ z x₀ found cont =
    subst (λ k. Counts k (direct_run found cont (arrive_directly b₀ x₀ cont direct_load)))
      (omega arith) (run-Counts found cont 0 (arrive_directly b₀ x₀ cont direct_load) (refl, refl))

-- Five failures are contention.
noted_flags :
    (f : ℕ) (cont : ContentionStatus)
    → let c = note_failures f cont in
      (c.use_snzi_in_arrive ≡ cont.use_snzi_in_arrive)
      × (c.use_snzi_in_depart ≡ cont.use_snzi_in_depart)
      × (c.use_snzi_tree_flag ≡ (cont.use_snzi_tree_flag || leb 5 f))
unfolding note_failures
noted_flags f cont = elim (Bool-cases (leb 5 f)) [
  | inl many ↦ rw many (refl, refl, ground arith)
  | inr few ↦ rw few (refl, refl, ground arith)
]

-- A call of ArriveDirectly that returns at an access has found the counter there as at the access
-- before it and leaves it one larger, leaves the two use flags as they were, and leaves
-- use_snzi_tree_flag set exactly if it was set before or at least 5 accesses lie between that one
-- and its first.
pub direct_return :
    (b₀ b : Bool) (z x₀ x y v : ℕ) (found : List (Bool × ℕ)) (cont c : ContentionStatus) (pc : Pc)
    → direct_run ((b₀, x₀) ∷ found) cont (retries z direct_load) ≡ retries y pc
    → arrive_directly b x cont pc ≡ arrived v c
    → (y ≡ x)
      × (v ≡ add64 x 1)
      × (c.use_snzi_in_arrive ≡ cont.use_snzi_in_arrive)
      × (c.use_snzi_in_depart ≡ cont.use_snzi_in_depart)
      × (c.use_snzi_tree_flag ≡ (cont.use_snzi_tree_flag || leb 5 (length found)))
direct_return b₀ b z x₀ x y v found cont c pc p q =
    let (same, more, noted) =
      returns_from (length found) b x y v cont c pc
        (subst (Counts (length found)) p (counted b₀ z x₀ found cont)) q in
    let (in_arrive, in_depart, in_tree) = noted_flags (length found) cont in
    (
      same,
      more,
      ap (λ f. f.use_snzi_in_arrive) noted ∙ in_arrive,
      ap (λ f. f.use_snzi_in_depart) noted ∙ in_depart,
      ap (λ f. f.use_snzi_tree_flag) noted ∙ in_tree,
    )

progresses :
    (n y : ℕ) (cont : ContentionStatus) (pc : Pc)
    → Counts n (retries y pc)
    → arrive_directly false y cont pc ≡ arrived (add64 y 1) (note_failures n cont)
unfolding Counts arrive_directly
progresses n y cont direct_load h = absurd h
progresses n y cont (direct_exchange oldx f tries) h = ground arith

-- A call of ArriveDirectly that has made an access returns at its next one, if the counter has not
-- changed in between and the compare-exchange does not fail for no reason.
pub direct_progress :
    (b₀ : Bool) (z x₀ y : ℕ) (found : List (Bool × ℕ)) (cont : ContentionStatus) (pc : Pc)
    → direct_run ((b₀, x₀) ∷ found) cont (retries z direct_load) ≡ retries y pc
    → arrive_directly false y cont pc ≡ arrived (add64 y 1) (note_failures (length found) cont)
direct_progress b₀ z x₀ y found cont pc p =
    progresses (length found) y cont pc
      (subst (Counts (length found)) p (counted b₀ z x₀ found cont))

-- Whether one of the visits was contended.
abbrev pub contended : List ℕ → Bool
contended [] = false
contended (f ∷ fs) = leb 5 f || contended fs

-- The flags of a thread between two of its visits: all of them, or none.
abbrev pub level_flags : Bool → ContentionStatus
level_flags b = record { use_snzi_in_arrive = b; use_snzi_in_depart = b; use_snzi_tree_flag = b }

visit-level :
    (f : ℕ) (b : Bool)
    → depart_status (arrive_status f (level_flags b)) ≡ level_flags (b || leb 5 f)
unfolding depart_status arrive_status note_failures turn_to_tree
visit-level f true = refl
visit-level f false = elim (Bool-cases (leb 5 f)) [ inl p ↦ rw p | inr p ↦ rw p ]

visits-level :
    (fs : List ℕ) (b : Bool) → visits fs (level_flags b) ≡ level_flags (b || contended fs)
unfolding visits
visits-level [] true = refl
visits-level [] false = refl
visits-level (f ∷ fs) true = ap (visits fs) (visit-level f true) ∙ visits-level fs true
visits-level (f ∷ fs) false = ap (visits fs) (visit-level f false) ∙ visits-level fs (leb 5 f)

-- A thread whose departures each follow their arrival is on the tree from the first visit after a
-- contended one on, and otherwise goes directly; a departure goes the way of its arrival.
pub visit_routes :
    (fs : List ℕ) (f : ℕ)
    → let before = visits fs fresh_status in
      (arrive_route before ≡ (if contended fs then through_tree else directly))
      × (depart_route (arrive_status f before) ≡ arrive_route before)
unfolding arrive_route depart_route arrive_status note_failures
visit_routes fs f = rw (visits-level fs false) (elim (Bool-cases (contended fs)) [
  | inl p ↦ rw p (refl, refl)
  | inr p ↦ rw p (refl, ground arith)
])

-- A thread that arrives twice before it departs, with one of the arrivals contended, makes both
-- directly, but its second departure through the tree, at a leaf that it never arrived at: the
-- compare-exchange of a departure at a node whose counter is zero wraps it to 2 ^ 64 - 1, and the
-- departure returns without one at the parent.
pub nested_routes :
    (f g : ℕ)
    → (5 ≤ f) ⊎ (5 ≤ g)
    → let one = arrive_status f fresh_status in
      let two = arrive_status g one in
      (arrive_route fresh_status ≡ directly)
      × (arrive_route one ≡ directly)
      × (depart_route two ≡ directly)
      × (depart_route (depart_status two) ≡ through_tree)
      × (node_code.step false
            (record { x = 0; announce = false })
            (SemiContention.depart_exchange 0)
          ≡ returns (record { x = 2 ^ 64 - 1; announce = false }))
unfolding arrive_route depart_route arrive_status depart_status note_failures turn_to_tree
    SemiContention.step SemiContention.depart_tail
nested_routes f g h = (refl, one f, two f g, three f g h, refl)
  where
    one : (f : ℕ) → arrive_route (note_failures f fresh_status) ≡ directly
    one f = ground arith

    two : (f g : ℕ) → depart_route (arrive_status g (arrive_status f fresh_status)) ≡ directly
    two f g = ground arith

    three :
        (f g : ℕ)
        → (5 ≤ f) ⊎ (5 ≤ g)
        → depart_route (depart_status (arrive_status g (arrive_status f fresh_status)))
          ≡ through_tree
    three f g h = ground arith
