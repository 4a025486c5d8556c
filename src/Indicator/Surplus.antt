-- ===== src/Indicator/Surplus.antt =====
-- The surplus of the abstract indicator, counted from its clients.
use scalable_non_zero_indica.Base.{
  List, ℕ, ◌+◌, ◌≡◌, refl, arith, if◌then◌else◌, sum, sum-update, sum-eq-zero, sym,
}
use scalable_non_zero_indica.Node.{Op}
use scalable_non_zero_indica.Indicator.{
  Phase, quiet, arriving, departing, Client, Signal, Invoked, invoke_arrive, invoke_depart,
  Committed, commit_arrive, commit_depart, Returned, return_arrive, return_depart, Course, stays,
  starts, commits, returns, commits_returns, Run, start, act,
}

-- The arrivals that a client has made, less the departures.
abbrev pub weight : Client → ℕ
weight c = c.held + extra c.phase
  where
    extra : Phase → ℕ
    extra quiet = 0
    extra (arriving made) = if made then 1 else 0
    extra (departing made) = if made then 0 else 1

Invoked-weight : {op : Op} {c c' : Client} → Invoked op c c' → weight c' ≡ weight c
Invoked-weight invoke_arrive = omega arith
Invoked-weight invoke_depart = omega arith

Committed-weight : {k k' : ℕ} {c c' : Client} → Committed k c k' c' → k' + weight c ≡ k + weight c'
Committed-weight commit_arrive = omega arith
Committed-weight commit_depart = omega arith

Returned-weight : {c c' : Client} → Returned c c' → weight c' ≡ weight c
Returned-weight return_arrive = omega arith
Returned-weight return_depart = omega arith

Course-weight :
    {quota k k' : ℕ} {g : Signal} {c c' : Client}
    → Course quota g k c k' c'
    → k' + weight c ≡ k + weight c'
Course-weight (stays ok e) = omega (arith, e)
Course-weight (starts m e) = omega (arith, Invoked-weight m, e)
Course-weight (commits m e) = omega (arith, Committed-weight m, e)
Course-weight (returns m e) = omega (arith, Returned-weight m, e)
Course-weight (commits_returns m r e) = omega (arith, Committed-weight m, Returned-weight r, e)

pub surplus_lem :
    {quota n k : ℕ} {events : List (ℕ × Signal)} {clients : ℕ → Client}
    → Run quota n events k clients
    → k ≡ sum n (λ i. weight (clients i))
surplus_lem {n = n} start = sym (sum-eq-zero n (λ i. 0) (λ i lt. refl))
surplus_lem {n = n} (act {clients = clients} {c = c} i lt run course) =
    omega (arith, surplus_lem run, Course-weight course, sum-update weight n i clients c lt)
