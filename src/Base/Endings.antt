-- ===== src/Base/Endings.antt =====
-- How a call ends: with a value, or in a way that the caller does not go on from.
pub data Failure : Type 0 where
  invalid_argument bad_alloc runtime_error assertion_failed out_of_range overflow endless : Failure

pub data Ending {ℓ} (A : Type ℓ) : Type ℓ where
  done : A → Ending A
  failed : Failure → Ending A

module _ {ℓ ℓ'} {A : Type ℓ} {B : Type ℓ'} where
  -- What comes after a call that returns.
  abbrev pub and_then : Ending A → (A → Ending B) → Ending B
  and_then (done a) f = f a
  and_then (failed e) f = failed e
