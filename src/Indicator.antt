-- ===== src/Indicator.antt =====
-- The abstract indicator that the comment above the classes of snzi.hpp promises: one number, the
-- surplus of arrivals, that each Arrive raises and each Depart lowers once between its invocation
-- and its return, and that Query compares with zero.
pub mod Surplus
use scalable_non_zero_indica.Base.{
  List, [], ◌∷◌, ℕ, suc, ◌≡◌, ◌<◌, Bool, true, false, not, ◌==◌, ◌||◌, leb, update,
}
use scalable_non_zero_indica.Node.{Op, arrive, depart}

-- Where a client stands; the Boolean says whether its operation has had its effect.
pub data Phase : Type 0 where
  quiet : Phase
  arriving : Bool → Phase
  departing : Bool → Phase

-- `held` counts the client's arrivals that it may still depart from.
pub record Client : Type 0 where
  pub held : ℕ
  pub phase : Phase

abbrev pub is_quiet : Phase → Bool
is_quiet quiet = true
is_quiet (arriving made) = false
is_quiet (departing made) = false

-- What the indicator is told of an event of a client: that it calls an operation, or that a call of
-- its moves on.
pub data Signal : Type 0 where
  called : Op → Signal
  moved : Signal

-- A client that is in a call, that holds `quota` arrivals already, or that has none to depart from is
-- not let into a call.
abbrev pub refuses : ℕ → Op → Client → Bool
refuses quota arrive c = not (is_quiet c.phase) || leb quota c.held
refuses quota depart c = not (is_quiet c.phase) || (c.held == 0)

abbrev pub may_stay : ℕ → Signal → Client → Bool
may_stay quota (called op) c = refuses quota op c
may_stay quota moved c = true

pub data Invoked : Op → Client → Client → Type 0 where
  invoke_arrive :
      {h : ℕ}
      → Invoked arrive
          (record { held = h; phase = quiet })
          (record { held = h; phase = arriving false })
  invoke_depart :
      {h : ℕ}
      → Invoked depart
          (record { held = suc h; phase = quiet })
          (record { held = h; phase = departing false })

-- The one effect of a call, with the surplus before and after it.
pub data Committed : ℕ → Client → ℕ → Client → Type 0 where
  commit_arrive :
      {k h : ℕ}
      → Committed k
          (record { held = h; phase = arriving false })
          (suc k)
          (record { held = h; phase = arriving true })
  commit_depart :
      {k h : ℕ}
      → Committed
          (suc k)
          (record { held = h; phase = departing false })
          k
          (record { held = h; phase = departing true })

-- A call returns only after its effect.
pub data Returned : Client → Client → Type 0 where
  return_arrive :
      {h : ℕ}
      → Returned
          (record { held = h; phase = arriving true })
          (record { held = suc h; phase = quiet })
  return_depart :
      {h : ℕ}
      → Returned (record { held = h; phase = departing true }) (record { held = h; phase = quiet })

-- What one event of a client may do to it and to the surplus. An invocation starts the call, unless
-- it is refused; a call that moves on has its effect, or returns, or both in this order, or neither.
pub data Course (quota : ℕ) : Signal → ℕ → Client → ℕ → Client → Type 0 where
  stays :
      {g : Signal} {k k' : ℕ} {c : Client}
      → may_stay quota g c ≡ true
      → k ≡ k'
      → Course quota g k c k' c
  starts :
      {op : Op} {k k' : ℕ} {c c' : Client}
      → Invoked op c c'
      → k ≡ k'
      → Course quota (called op) k c k' c'
  commits :
      {k k' l : ℕ} {c c' : Client} → Committed k c l c' → l ≡ k' → Course quota moved k c k' c'
  returns : {k k' : ℕ} {c c' : Client} → Returned c c' → k ≡ k' → Course quota moved k c k' c'
  commits_returns :
      {k k' l : ℕ} {c c' c'' : Client}
      → Committed k c l c'
      → Returned c' c''
      → l ≡ k'
      → Course quota moved k c k' c''

-- The states of the indicator that clients 0 to n - 1 lead it to by these events, the latest first:
-- each takes its client along one course.
pub data Run (quota n : ℕ) : List (ℕ × Signal) → ℕ → (ℕ → Client) → Type 0 where
  start : Run quota n [] 0 (λ _. record { held = 0; phase = quiet })
  act :
      {events : List (ℕ × Signal)} {k k' : ℕ} {g : Signal} {clients : ℕ → Client} {c : Client}
      (i : ℕ)
      → i < n
      → Run quota n events k clients
      → Course quota g k (clients i) k' c
      → Run quota n ((i, g) ∷ events) k' (update clients i c)

abbrev pub answer : ℕ → Bool
answer k = not (k == 0)
