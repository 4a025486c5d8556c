-- ===== src/Evaluation/Trees.antt =====
-- The trees that the evaluation programs construct.
use scalable_non_zero_indica.Base.{
  ℕ, zero, suc, ◌+◌, ◌*◌, ◌≤◌, ◌<◌, ◌^◌, ◌≡◌, refl, arith, Option, none, some, get_elem?,
}
use mathlib.Core.Path.{subst}
use scalable_non_zero_indica.Tree.Count.{first}
use scalable_non_zero_indica.Evaluation.{num_threads, parameters}

-- What the theorems on a class ask of a tree.
pub record IsRoomy (k h n : ℕ) : Type 0 where
  pub branching : 2 ≤ k
  pub in_words : k ^ suc h < 2 ^ 64
  pub room : 6 * n + first k (suc h) + 1 < 2 ^ 64

few_threads : (i n : ℕ) → get_elem? num_threads i ≡ some n → n ≤ 8
unfolding get_elem?
few_threads zero n e = ground arith
few_threads (suc zero) n e = ground arith
few_threads (suc (suc zero)) n e = ground arith
few_threads (suc (suc (suc zero))) n e = ground arith
few_threads (suc (suc (suc (suc zero)))) n e = ground arith
few_threads (suc (suc (suc (suc (suc zero))))) n e = ground arith
few_threads (suc (suc (suc (suc (suc (suc zero)))))) n e = ground arith
few_threads (suc (suc (suc (suc (suc (suc (suc zero))))))) n e = ground arith
few_threads (suc (suc (suc (suc (suc (suc (suc (suc i)))))))) n e = ground arith

abbrev pub IsRoomyIf : ℕ → Option (ℕ × ℕ) → Type 0
IsRoomyIf n none = Unit {0}
IsRoomyIf n (some (k, h)) = IsRoomy k h n

pub parameters-IsRoomy : (j n : ℕ) → n ≤ 8 → IsRoomyIf n (get_elem? parameters j)
unfolding get_elem?
parameters-IsRoomy zero n le = record {
  branching = omega arith;
  in_words = omega arith;
  room = omega arith;
}
parameters-IsRoomy (suc zero) n le = record {
  branching = omega arith;
  in_words = omega arith;
  room = omega arith;
}
parameters-IsRoomy (suc (suc zero)) n le = record {
  branching = omega arith;
  in_words = omega arith;
  room = omega arith;
}
parameters-IsRoomy (suc (suc (suc zero))) n le = record {
  branching = omega arith;
  in_words = omega arith;
  room = omega arith;
}
parameters-IsRoomy (suc (suc (suc (suc j)))) n le = tt

pub run-IsRoomy :
    (j i k h n : ℕ)
    → get_elem? parameters j ≡ some (k, h)
    → get_elem? num_threads i ≡ some n
    → IsRoomy k h n
run-IsRoomy j i k h n e e' = subst (IsRoomyIf n) e (parameters-IsRoomy j n (few_threads i n e'))

pub parameters_branching : (j k h : ℕ) → get_elem? parameters j ≡ some (k, h) → 2 ≤ k
unfolding get_elem?
parameters_branching j k h e = (run-IsRoomy j 0 k h 1 e refl).branching
