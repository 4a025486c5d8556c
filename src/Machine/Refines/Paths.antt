-- ===== src/Machine/Refines/Paths.antt =====
-- The paths of the abstract indicator that one access of a call takes it along.
use scalable_non_zero_indica.Base.{ℕ, zero, suc, ◌+◌, ◌≤◌, ◌<◌, ◌≡◌, refl, arith, nonzero, ap}
use native.Mathlib.Nat.{add-zero}
use native.Mathlib.Numerals.{add-one}
use scalable_non_zero_indica.Node.{Op, arrive, depart, yield, NodeCode, NodeLaws}
use scalable_non_zero_indica.Indicator.{
  quiet, commit_arrive, return_arrive, commit_depart, return_depart, moved, Course, stays, commits,
  returns, commits_returns,
}
use scalable_non_zero_indica.Machine.{Site, Task, idle, busy, settle}
use scalable_non_zero_indica.Machine.Shape.{carried}
use scalable_non_zero_indica.Machine.Commit.{Progress, SameOuter}
use scalable_non_zero_indica.Machine.Query.{present}
use scalable_non_zero_indica.Machine.Refines.{phase_of, client}

-- The paths of a call that returns.
arrive_returns :
    (quota held c k k' : ℕ)
    → k' + nonzero c ≡ k + 1
    → Course quota moved k
        (record { held = held; phase = phase_of arrive c })
        k'
        (record { held = held + 1; phase = quiet })
arrive_returns quota held zero k k' e =
    rw (add-one held) (commits_returns commit_arrive return_arrive (ground arith))
arrive_returns quota held (suc c) k k' e = rw (add-one held) (returns return_arrive (ground arith))

depart_returns :
    (quota held c k k' : ℕ)
    → k' + nonzero c ≡ k
    → Course quota moved k
        (record { held = held; phase = phase_of depart c })
        k'
        (record { held = held; phase = quiet })
depart_returns quota held zero k k' e = returns return_depart (ground arith)
depart_returns quota held (suc c) zero k' e = absurd (ground arith)
depart_returns quota held (suc c) (suc k) k' e =
    commits_returns commit_depart return_depart (ground arith)

-- The paths of a call that goes on.
arrive_goes_on :
    (quota held c c' k k' : ℕ)
    → (0 < c → 0 < c')
    → k' + nonzero c ≡ k + nonzero c'
    → Course quota moved k
        (record { held = held; phase = phase_of arrive c })
        k'
        (record { held = held; phase = phase_of arrive c' })
arrive_goes_on quota held zero zero k k' keep e = stays refl (ground arith)
arrive_goes_on quota held zero (suc c') k k' keep e = commits commit_arrive (ground arith)
arrive_goes_on quota held (suc c) zero k k' keep e = absurd (omega (arith, keep (omega arith)))
arrive_goes_on quota held (suc c) (suc c') k k' keep e = stays refl (ground arith)

depart_goes_on :
    (quota held c c' k k' : ℕ)
    → c' ≤ c
    → k' + nonzero c ≡ k + nonzero c'
    → Course quota moved k
        (record { held = held; phase = phase_of depart c })
        k'
        (record { held = held; phase = phase_of depart c' })
depart_goes_on quota held zero zero k k' keep e = stays refl (ground arith)
depart_goes_on quota held zero (suc c') k k' keep e = absurd (omega arith)
depart_goes_on quota held (suc c) zero zero k' keep e = absurd (ground arith)
depart_goes_on quota held (suc c) zero (suc k) k' keep e = commits commit_depart (ground arith)
depart_goes_on quota held (suc c) (suc c') k k' keep e = stays refl (ground arith)

module _ (code : NodeCode) (laws : NodeLaws code) (tree : Site) where
  open code use {Cell, Pc}

  -- An access takes the abstract client along a path: it commits, returns, both, or neither.
  pub access_path :
      (quota : ℕ) (o op : Op) (held c : ℕ) (t : Task Pc) (k k' : ℕ)
      → Progress code tree o c t
      → SameOuter code tree o op t
      → k' + (held + nonzero c) ≡ k + present code (settle code tree held op t)
      → Course quota moved k
          (record { held = held; phase = phase_of o c })
          k'
          (client code tree (settle code tree held op t))
  unfolding settle
  access_path quota arrive op held c idle k k' p same e =
      rw same (arrive_returns quota held c k k' (omega (arith, ap yield same)))
  access_path quota depart op held c idle k k' p same e =
      rw same (rw (add-zero held) (depart_returns quota held c k k' (omega (arith, ap yield same))))
  access_path quota arrive op held c (busy f below) k k' p same e =
      rw same (arrive_goes_on quota held c (carried code (busy f below)) k k' p (omega arith))
  access_path quota depart op held c (busy f below) k k' p same e =
      rw same (depart_goes_on quota held c (carried code (busy f below)) k k' p (omega arith))
