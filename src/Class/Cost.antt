-- ===== src/Class/Cost.antt =====
-- What the calls of an object cost, over any run: accesses against calls that have returned.
use scalable_non_zero_indica.Base.{
  ℕ, suc, ◌+◌, ◌*◌, ◌≤◌, ◌<◌, ◌≡◌, arith, Bool, true, false, ap, sum, sum-update, sum_bound,
  if◌then◌else◌, not, update,
}
use native.Mathlib.Nat.{mul-add, mul-le-mul_left}
use scalable_non_zero_indica.Node.{Op}
use scalable_non_zero_indica.Machine.{Site, invoke, access}
use scalable_non_zero_indica.Class.{SnziClass, ClassReach, SnziProgress}

abbrev pub one_if : Bool → ℕ
one_if b = if b then 1 else 0

-- The states that threads 0 to n - 1 lead a fresh object to, with the number of accesses and of
-- returns on the way. No compare-exchange fails for no reason, and no call is refused.
pub data Priced (c : SnziClass) (tree : Site) (n : ℕ)
    : ℕ → ℕ → c.Shared → (ℕ → c.Thread) → Type 0 where
  fresh : Priced c tree n 0 0 c.fresh (λ _. c.newcomer)
  invokes :
      {a r : ℕ} {m : c.Shared} {threads : ℕ → c.Thread} (op : Op) (i : ℕ)
      → i < n
      → c.is_idle (threads i) ≡ true
      → c.is_idle (c.react tree i (invoke op) m (threads i)).1 ≡ false
      → Priced c tree n a r m threads
      → Priced c tree n a r
          (c.react tree i (invoke op) m (threads i)).0
          (update threads i (c.react tree i (invoke op) m (threads i)).1)
  accesses :
      {a r : ℕ} {m : c.Shared} {threads : ℕ → c.Thread} (i : ℕ)
      → i < n
      → c.is_idle (threads i) ≡ false
      → Priced c tree n a r m threads
      → Priced c tree n
          (suc a)
          (r + one_if (c.is_idle (c.react tree i (access false) m (threads i)).1))
          (c.react tree i (access false) m (threads i)).0
          (update threads i (c.react tree i (access false) m (threads i)).1)

module _ (c : SnziClass) (tree : Site) (n : ℕ) (progress : SnziProgress c tree n) where
  open progress use {left, left_fresh, jump, falls, jumps}

  Priced-Reach :
      {a r : ℕ} {m : c.Shared} {threads : ℕ → c.Thread}
      → Priced c tree n a r m threads
      → ClassReach c tree n m threads
  Priced-Reach fresh = ClassReach.start
  Priced-Reach (invokes op i lt idle called run) =
      ClassReach.later i (invoke op) lt (Priced-Reach run)
  Priced-Reach (accesses i lt calls run) = ClassReach.later i (access false) lt (Priced-Reach run)

  abbrev pending : c.Thread → ℕ
  pending th = one_if (not (c.is_idle th))

  pending-le : (th : c.Thread) → pending th ≤ 1
  pending-le th = ground arith

  -- The calls so far, returned or pending
  abbrev calls_so_far : ℕ → (ℕ → c.Thread) → ℕ
  calls_so_far r threads = r + sum n (λ i. pending (threads i))

  invoked_calls :
      (i r : ℕ) (threads : ℕ → c.Thread) (th : c.Thread)
      → i < n
      → c.is_idle (threads i) ≡ true
      → c.is_idle th ≡ false
      → calls_so_far r (update threads i th) ≡ calls_so_far r threads + 1
  invoked_calls i r threads th lt idle called =
      let before : pending (threads i) ≡ 0 = ground arith in
      let after : pending th ≡ 1 = ground arith in
      omega (arith, sum-update pending n i threads th lt, before, after)

  accessed_calls :
      (i r : ℕ) (threads : ℕ → c.Thread) (th : c.Thread)
      → i < n
      → c.is_idle (threads i) ≡ false
      → calls_so_far (r + one_if (c.is_idle th)) (update threads i th) ≡ calls_so_far r threads
  accessed_calls i r threads th lt calls =
      let before : pending (threads i) ≡ 1 = ground arith in
      let after : pending th + one_if (c.is_idle th) ≡ 1 = ground arith in
      omega (arith, sum-update pending n i threads th lt, before, after)

  paid_so_far :
      {a r : ℕ} {m : c.Shared} {threads : ℕ → c.Thread}
      → Priced c tree n a r m threads
      → a + left m threads ≤ jump * calls_so_far r threads
  paid_so_far fresh = omega (arith, left_fresh)
  paid_so_far (invokes {a} {r} {m} {threads} op i lt idle called run) =
      let (m', th) = c.react tree i (invoke op) m (threads i) in
      let more : jump * (calls_so_far r threads + 1) ≡ jump * calls_so_far r threads + jump =
        omega (arith, mul-add jump (calls_so_far r threads) 1) in
      omega (
        arith,
        paid_so_far run,
        jumps op i m threads lt idle,
        more,
        ap (λ x. jump * x) (invoked_calls i r threads th lt idle called),
      )
  paid_so_far (accesses {a} {r} {m} {threads} i lt calls run) =
      let (m', th) = c.react tree i (access false) m (threads i) in
      omega (
        arith,
        paid_so_far run,
        falls i lt (Priced-Reach run) calls,
        ap (λ x. jump * x) (accessed_calls i r threads th lt calls),
      )

  -- On average over a run, a call costs at most the jump, where the n last ones may be pending.
  pub calls_cost :
      {a r : ℕ} {m : c.Shared} {threads : ℕ → c.Thread}
      → Priced c tree n a r m threads
      → a ≤ jump * (r + n)
  calls_cost {r = r} {threads = threads} run =
      omega (arith, paid_so_far run, mul-le-mul_left jump (calls_le r threads))
    where
      calls_le : (r : ℕ) (threads : ℕ → c.Thread) → calls_so_far r threads ≤ r + n
      calls_le r threads =
          omega (arith, sum_bound n 1 (λ i. pending (threads i)) (λ i lt. pending-le (threads i)))
