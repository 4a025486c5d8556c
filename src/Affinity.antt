-- ===== src/Affinity.antt =====
-- affinity.hpp: the struct `affinity`, which pins a thread to a core, and its table of cores.
-- Numbers of threads and ids are `int` in the code; here they are those that are not negative.
use scalable_non_zero_indica.Base.{
  ℕ, zero, suc, ◌≤◌, ◌<◌, ◌≡◌, ◌↔◌, refl, ap, arith, Option, none, some, inl, inr, leb, leb→le,
  leb→lt, Bool-cases, List, [], ◌∷◌, length, get_elem?, Ending, done, failed, runtime_error,
  assertion_failed, ◌==◌, if◌then◌else◌,
}

-- The outer `switch` of `operator()(num_threads, id, tid)`: the cores of its inner ones, in the
-- order of the ids; no core where the assertion on the number of threads fails.
unfoldable pub cores : ℕ → List ℕ
cores zero = []
cores (suc zero) = 0 ∷ []
cores (suc (suc zero)) = 0 ∷ 4 ∷ []
cores (suc (suc (suc zero))) = 0 ∷ 2 ∷ 4 ∷ []
cores (suc (suc (suc (suc zero)))) = 0 ∷ 2 ∷ 4 ∷ 6 ∷ []
cores (suc (suc (suc (suc (suc zero))))) = 0 ∷ 1 ∷ 2 ∷ 4 ∷ 6 ∷ []
cores (suc (suc (suc (suc (suc (suc zero)))))) = 0 ∷ 1 ∷ 2 ∷ 4 ∷ 5 ∷ 6 ∷ []
cores (suc (suc (suc (suc (suc (suc (suc zero))))))) = 0 ∷ 1 ∷ 2 ∷ 3 ∷ 4 ∷ 5 ∷ 6 ∷ []
cores (suc (suc (suc (suc (suc (suc (suc (suc zero)))))))) = 0 ∷ 1 ∷ 2 ∷ 3 ∷ 4 ∷ 5 ∷ 6 ∷ 7 ∷ []
cores (suc (suc (suc (suc (suc (suc (suc (suc (suc num_threads))))))))) = []

-- The inner `switch`: the core handed on; `none` where an assertion fails.
unfoldable pub core : ℕ → ℕ → Option ℕ
core num_threads id = get_elem? (cores num_threads) id

-- What `operator()(core, id)` calls: the macros on `cpu_set_t`, and `pthread_setaffinity_np`, whose
-- result is 0 if it has set the cores of a thread.
pub record Scheduler (CpuSet World : Type 0) : Type 0 where
  pub cpu_zero : CpuSet
  pub cpu_set : ℕ → CpuSet → CpuSet
  pub setaffinity : ℕ → CpuSet → World → ℕ × World

module _ {CpuSet World : Type 0} (sys : Scheduler CpuSet World) where
  unfoldable pub set_affinity : ℕ → ℕ → World → Ending World
  set_affinity core id w =
      let (result, w') = sys.setaffinity id (sys.cpu_set core sys.cpu_zero) w in
      if result == 0 then done w' else failed runtime_error

  -- The call in a case of the inner `switch`, or the assertion
  unfoldable pub set_affinity_if : Option ℕ → ℕ → World → Ending World
  set_affinity_if none tid w = failed assertion_failed
  set_affinity_if (some c) tid w = set_affinity c tid w

  -- `operator()(num_threads, id, tid)`
  unfoldable pub set_affinity_for : ℕ → ℕ → ℕ → World → Ending World
  set_affinity_for num_threads id tid w = set_affinity_if (core num_threads id) tid w

-- A list that goes up by steps, from `low` to below `high`.
Climbs : ℕ → ℕ → List ℕ → Type 0
Climbs low high [] = Unit {0}
Climbs low high (x ∷ xs) = (low ≤ x) × (x < high) × Climbs (suc x) high xs

cores-Climbs : (n : ℕ) → Climbs 0 8 (cores n)
unfolding Climbs cores
cores-Climbs zero = tt
cores-Climbs (suc zero) = ground arith
cores-Climbs (suc (suc zero)) = ground arith
cores-Climbs (suc (suc (suc zero))) = ground arith
cores-Climbs (suc (suc (suc (suc zero)))) = ground arith
cores-Climbs (suc (suc (suc (suc (suc zero))))) = ground arith
cores-Climbs (suc (suc (suc (suc (suc (suc zero)))))) = ground arith
cores-Climbs (suc (suc (suc (suc (suc (suc (suc zero))))))) = ground arith
cores-Climbs (suc (suc (suc (suc (suc (suc (suc (suc zero)))))))) = ground arith
cores-Climbs (suc (suc (suc (suc (suc (suc (suc (suc (suc n))))))))) = tt

get-bounds :
    (low high : ℕ) (xs : List ℕ) (i c : ℕ)
    → Climbs low high xs
    → get_elem? xs i ≡ some c
    → (low ≤ c) × (c < high) × (i < length xs)
unfolding Climbs get_elem?
get-bounds low high [] i c h e = ground arith
get-bounds low high (x ∷ xs) zero c (p, q, r) e = ground arith
get-bounds low high (x ∷ xs) (suc i) c (p, q, r) e =
    let rest = get-bounds (suc x) high xs i c r e in ground arith

get_increasing :
    (low high : ℕ) (xs : List ℕ) (i j c d : ℕ)
    → Climbs low high xs
    → i < j
    → get_elem? xs i ≡ some c
    → get_elem? xs j ≡ some d
    → c < d
unfolding Climbs get_elem?
get_increasing low high [] i j c d h l p q = ground arith
get_increasing low high (x ∷ xs) i zero c d h l p q = absurd (omega arith)
get_increasing low high (x ∷ xs) zero (suc j) c d (_, _, r) l p q =
    let rest = get-bounds (suc x) high xs j d r q in ground arith
get_increasing low high (x ∷ xs) (suc i) (suc j) c d (_, _, r) l p q =
    get_increasing (suc x) high xs i j c d r (omega arith) p q

-- Of two threads of one run that have a core each, the one with the smaller id has the smaller
-- core, and both are among the 8.
pub core_increasing :
    (n i j c d : ℕ) → core n i ≡ some c → core n j ≡ some d → i < j → (c < d) × (d < 8)
unfolding core
core_increasing n i j c d p q l = (
  get_increasing 0 8 (cores n) i j c d (cores-Climbs n) l p q,
  (get-bounds 0 8 (cores n) j d (cores-Climbs n) q).1,
)

get_in_range : (xs : List ℕ) (i : ℕ) → i < length xs → (c : ℕ) × (get_elem? xs i ≡ some c)
unfolding get_elem?
get_in_range [] i h = absurd (omega arith)
get_in_range (x ∷ xs) zero h = (x, refl)
get_in_range (x ∷ xs) (suc i) h = get_in_range xs i (omega arith)

length-cores : (n : ℕ) → n ≤ 8 → length (cores n) ≡ n
unfolding cores
length-cores zero h = refl
length-cores (suc zero) h = refl
length-cores (suc (suc zero)) h = refl
length-cores (suc (suc (suc zero))) h = refl
length-cores (suc (suc (suc (suc zero)))) h = refl
length-cores (suc (suc (suc (suc (suc zero))))) h = refl
length-cores (suc (suc (suc (suc (suc (suc zero)))))) h = refl
length-cores (suc (suc (suc (suc (suc (suc (suc zero))))))) h = refl
length-cores (suc (suc (suc (suc (suc (suc (suc (suc zero)))))))) h = refl
length-cores (suc (suc (suc (suc (suc (suc (suc (suc (suc n))))))))) h = absurd (omega arith)

beyond : (n : ℕ) → 8 < n → length (cores n) ≡ 0
unfolding cores
beyond (suc (suc (suc (suc (suc (suc (suc (suc (suc n))))))))) h = refl
beyond n h = absurd (omega arith)

core_known : (n id : ℕ) → ((c : ℕ) × (core n id ≡ some c)) ↔ (n ≤ 8) × (id < n)
unfolding core
core_known n id = (there, λ (p, q). get_in_range (cores n) id (omega (arith, length-cores n p)))
  where
    there : (c : ℕ) × (get_elem? (cores n) id ≡ some c) → (n ≤ 8) × (id < n)
    there (c, e) =
        let within = (get-bounds 0 8 (cores n) id c (cores-Climbs n) e).2 in
        elim (Bool-cases (leb n 8)) [
          | inl h ↦ let small = leb→le n 8 h in (small, omega (arith, within, length-cores n small))
          | inr h ↦ absurd (omega (arith, within, beyond n (leb→lt n 8 h)))
        ]

-- The operator with a number of threads ends as the other operator does on a core of its table,
-- without a failed assertion, exactly for at most 8 threads and the ids below their number.
pub core_defined :
    {CpuSet World : Type 0} (sys : Scheduler CpuSet World) (n id tid : ℕ) (w : World)
    → ((c : ℕ) × (core n id ≡ some c)
        × (set_affinity_for sys n id tid w ≡ set_affinity sys c tid w))
      ↔ (n ≤ 8) × (id < n)
unfolding set_affinity_for set_affinity_if
core_defined sys n id tid w = (
  λ (c, e, _). (core_known n id).0 (c, e),
  λ within.
      let (c, e) = (core_known n id).1 within in (c, e, ap (λ o. set_affinity_if sys o tid w) e),
)
