-- ===== src/Evaluation/Crew/Placed.antt =====
-- Where the threads of a run stand in `thread_job`, and where in the calls of the object.
use scalable_non_zero_indica.Base.{
  ℕ, ◌<◌, ◌≡◌, ◌⊎◌, inl, inr, refl, arith, Bool, true, false, ltb, sym, ap, ◌∙◌, Bool-cases, update,
  update_all, update_same, map-update,
}
use mathlib.Core.Path.{subst, fun_ext}
use scalable_non_zero_indica.Node.{Op, arrive, depart}
use scalable_non_zero_indica.Indicator.{is_quiet, Phase, quiet, arriving, departing, Client}
use scalable_non_zero_indica.Machine.{Site, Event, invoke, access}
use scalable_non_zero_indica.Class.{SnziClass, ClassReach, SnziLaws, Calling, InPhase, at_rest}
use scalable_non_zero_indica.Evaluation.Crew.{
  Stage, starting, waiting, checking, ended, Worker, Crew, work, crew_step, CrewReach,
}

-- A thread is in `Arrive` with nothing held or has just returned from it, is in `Depart` or has just
-- returned, or is at rest.
abbrev pub Placed : Stage → Client → Type 0
Placed starting k = k ≡ at_rest 0
Placed (waiting end_time) k = k ≡ at_rest 0
Placed (checking end_time) k = k ≡ at_rest 0
Placed (Stage.arriving end_time) k = Calling arrive k ⊎ (k ≡ at_rest 1)
Placed (Stage.departing end_time) k = Calling depart k ⊎ (k ≡ at_rest 0)
Placed ended k = k ≡ at_rest 0

InPhase-calls : (op : Op) (p : Phase) → InPhase op p → is_quiet p ≡ false
InPhase-calls arrive quiet h = absurd h
InPhase-calls arrive (arriving made) h = refl
InPhase-calls arrive (departing made) h = absurd h
InPhase-calls depart quiet h = absurd h
InPhase-calls depart (arriving made) h = absurd h
InPhase-calls depart (departing made) h = refl

-- A call that is no longer under way has come back with what its operation yields.
pub returned :
    (op : Op) (held : ℕ) (k : Client)
    → is_quiet k.phase ≡ true
    → Calling op k ⊎ (k ≡ at_rest held)
    → k ≡ at_rest held
returned op held k rests (inl (_, within)) =
    let calls : is_quiet k.phase ≡ false = InPhase-calls op k.phase within in absurd (ground arith)
returned op held k rests (inr e) = e

still_calling :
    (op : Op) (held : ℕ) (k : Client)
    → is_quiet k.phase ≡ false
    → Calling op k ⊎ (k ≡ at_rest held)
    → Calling op k
still_calling op held k calls (inl h) = h
still_calling op held k calls (inr e) =
    let rests : is_quiet k.phase ≡ true = ap (λ x. is_quiet x.phase) e in absurd (ground arith)

module _ (c : SnziClass) (tree : Site) (second n : ℕ) (laws : SnziLaws c tree n) where
  open laws use {client, idle_quiet, invoked, goes_on, newcomer_rests}

  -- A step of a thread is an event of the object, or nothing to it.
  abbrev Touches : ℕ → c.Shared → c.Thread → c.Shared → c.Thread → Type 0
  Touches i m own m' own' =
      (m' ≡ m) × (own' ≡ own)
      ⊎ (e : Event) × (m' ≡ (c.react tree i e m own).0) × (own' ≡ (c.react tree i e m own).1)

  work-Placed :
      (i now : ℕ) (spurious flag : Bool) (m : c.Shared) (workers : ℕ → Worker c) (stage : Stage)
      → i < n
      → ClassReach c tree n m (λ j. (workers j).own)
      → Placed stage (client (workers i).own)
      → let after = work c tree second i now spurious flag m (workers i) stage in
        Placed after.1.stage (client after.1.own) × Touches i m (workers i).own after.0 after.1.own
  unfolding work
  work-Placed i now spurious flag m workers starting lt r placed = (placed, inl (refl, refl))
  work-Placed i now spurious true m workers (waiting e) lt r placed = (placed, inl (refl, refl))
  work-Placed i now spurious false m workers (waiting e) lt r placed = (placed, inl (refl, refl))
  work-Placed i now spurious flag m workers (checking e) lt r placed =
      elim (Bool-cases (ltb now e)) [
        | inl before ↦
            rw before
              (inl (invoked arrive i m (workers i).own placed), inr (invoke arrive, refl, refl))
        | inr over ↦ rw over (placed, inl (refl, refl))
      ]
  work-Placed i now spurious flag m workers (Stage.arriving e) lt r placed =
      let own = (workers i).own in
      elim (Bool-cases (c.is_idle own)) [
        | inl idle ↦
            let back = returned arrive 1 (client own) (sym (idle_quiet own) ∙ idle) placed in
            rw idle (inl (invoked depart i m own back), inr (invoke depart, refl, refl))
        | inr calls ↦
            let within =
              still_calling arrive 1 (client own) (sym (idle_quiet own) ∙ calls) placed in
            rw calls (goes_on arrive spurious i lt r within, inr (access spurious, refl, refl))
      ]
  work-Placed i now spurious flag m workers (Stage.departing e) lt r placed =
      let own = (workers i).own in
      elim (Bool-cases (c.is_idle own)) [
        | inl idle ↦
            rw idle (
              returned depart 0 (client own) (sym (idle_quiet own) ∙ idle) placed,
              inl (refl, refl),
            )
        | inr calls ↦
            let within =
              still_calling depart 0 (client own) (sym (idle_quiet own) ∙ calls) placed in
            rw calls (goes_on depart spurious i lt r within, inr (access spurious, refl, refl))
      ]
  work-Placed i now spurious flag m workers ended lt r placed = (placed, inl (refl, refl))

  -- Whether a step is an event of the object or nothing to it, the object stays in a state of its own.
  touched-ClassReach :
      (i : ℕ) (m m' : c.Shared) (workers : ℕ → Worker c) (w : Worker c)
      → i < n
      → ClassReach c tree n m (λ j. (workers j).own)
      → Touches i m (workers i).own m' w.own
      → ClassReach c tree n m' (λ j. (update workers i w j).own)
  touched-ClassReach i m m' workers w lt r (inl (em, eo)) =
      subst (ClassReach c tree n m')
        (fun_ext λ j.
          sym (update_same (λ k. (workers k).own) i w.own eo j)
          ∙ map-update (λ v. v.own) workers i w j)
        (subst (λ x. ClassReach c tree n x (λ j. (workers j).own)) (sym em) r)
  touched-ClassReach i m m' workers w lt r (inr (e, em, eo)) =
      subst (ClassReach c tree n m')
        (ap (λ th. update (λ k. (workers k).own) i th) (sym eo)
          ∙ fun_ext λ j. map-update (λ v. v.own) workers i w j)
        (subst
          (λ x.
            ClassReach c tree n x
              (update (λ k. (workers k).own) i (c.react tree i e m (workers i).own).1))
          (sym em) (ClassReach.later i e lt r))

  -- In every state of a run the object is in a state of its own, and each thread stands where its
  -- place in `thread_job` says.
  pub CrewReach-Placed :
      {s : Crew c}
      → CrewReach c tree second n s
      → ClassReach c tree n s.shared (λ j. (s.workers j).own)
        × ((j : ℕ) → Placed (s.workers j).stage (client (s.workers j).own))
  unfolding crew_step
  CrewReach-Placed CrewReach.start = (ClassReach.start, λ j. newcomer_rests)
  CrewReach-Placed (CrewReach.raises r) = CrewReach-Placed r
  CrewReach-Placed (CrewReach.works {s} i now spurious lt r) =
      let (reached, placed) = CrewReach-Placed r in
      let w = s.workers i in
      let after = work c tree second i now spurious s.flag s.shared w w.stage in
      let (there, touches) =
        work-Placed i now spurious s.flag s.shared s.workers w.stage lt reached (placed i) in
      (
        touched-ClassReach i s.shared after.0 s.workers after.1 lt reached touches,
        update_all (λ j v. Placed v.stage (client v.own)) s.workers i after.1 there placed,
      )
