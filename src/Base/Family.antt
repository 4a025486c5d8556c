-- ===== src/Base/Family.antt =====
-- Families indexed by a number (threads, nodes): update at one index, sums over the first `n`.
use Prim.Native.Nat.{ℕ, zero, suc, ◌+◌, ◌-◌, ◌*◌, ◌≤◌, ◌<◌}
use mathlib.Core.Path.{◌≡◌, refl, subst, sym, ap, ◌∙◌}
use mathlib.Core.Logic.{◌≢◌, inl, inr}
use mathlib.Core.Bool.{true, false}
use native.Mathlib.Decide.{dec_lt}
use native.Mathlib.Omega.{arith}
use native.Mathlib.Nat.{add-zero, add-suc}
use scalable_non_zero_indica.Base.Tests.{ltb, ◌==◌, if◌then◌else◌, Bool-cases, ==_iff}

abbrev pub update {ℓ} : {A : Type ℓ} → (ℕ → A) → ℕ → A → ℕ → A
update f i a j = if i == j then a else f j

-- What holds of the new value and of all the old ones holds of the updated family.
pub update_all {ℓ κ} :
    {A : Type ℓ} (P : ℕ → A → Type κ) (f : ℕ → A) (i : ℕ) (a : A)
    → P i a
    → ((j : ℕ) → P j (f j))
    → (j : ℕ) → P j (update f i a j)
update_all P f i a new old j = elim (Bool-cases (i == j)) [
  | inl here ↦ rw here (subst (λ k. P k a) ((==_iff i j).0 here) new)
  | inr there ↦ rw there (old j)
]

pub update_ne {ℓ} : {A : Type ℓ} (f : ℕ → A) (i j : ℕ) (a : A) → j ≢ i → update f i a j ≡ f j
update_ne f i j a ne = ground arith

pub update_self {ℓ} : {A : Type ℓ} (f : ℕ → A) (i : ℕ) (a : A) → update f i a i ≡ a
update_self f i a = ground arith

unfoldable pub sum : ℕ → (ℕ → ℕ) → ℕ
sum zero f = 0
sum (suc n) f = sum n f + f n

pub sum_ext : (n : ℕ) (f g : ℕ → ℕ) → ((j : ℕ) → j < n → f j ≡ g j) → sum n f ≡ sum n g
unfolding sum
sum_ext zero f g h = refl
sum_ext (suc n) f g h = omega (arith, sum_ext n f g (λ j lt. h j (omega arith)), h n (omega arith))

-- Families that agree off one index.
pub sum_change :
    (n i : ℕ) (f g : ℕ → ℕ) → i < n → ((j : ℕ) → j ≢ i → f j ≡ g j) → sum n g + f i ≡ sum n f + g i
unfolding sum
sum_change zero i f g lt h = absurd (omega arith)
sum_change (suc n) i f g lt h = elim (dec_lt i n) [
  | yes below ↦ omega (arith, sum_change n i f g below h, h n (omega arith))
  | no last ↦
      let e : n ≡ i = omega arith in
      rw (← e) (omega (arith, sum_ext n f g (λ j p. h j (omega arith))))
]

pub sum_bound : (n b : ℕ) (f : ℕ → ℕ) → ((j : ℕ) → j < n → f j ≤ b) → sum n f ≤ n * b
unfolding sum
sum_bound zero b f h = omega arith
sum_bound (suc n) b f h =
    omega (arith, sum_bound n b f (λ j lt. h j (omega arith)), h n (omega arith))

pub sum-eq-zero : (n : ℕ) (f : ℕ → ℕ) → ((j : ℕ) → j < n → f j ≡ 0) → sum n f ≡ 0
unfolding sum
sum-eq-zero zero f h = refl
sum-eq-zero (suc n) f h =
    omega (arith, sum-eq-zero n f (λ j lt. h j (omega arith)), h n (omega arith))

pub le-sum : (n : ℕ) (f : ℕ → ℕ) (i : ℕ) → i < n → f i ≤ sum n f
unfolding sum
le-sum zero f i lt = absurd (omega arith)
le-sum (suc n) f i lt = elim (dec_lt i n) [
  | yes below ↦ omega (arith, le-sum n f i below)
  | no last ↦ let e : n ≡ i = omega arith in rw (← e) (omega arith)
]

-- A positive sum has a positive term.
pub sum_pos_term : (n : ℕ) (f : ℕ → ℕ) → 0 < sum n f → (i : ℕ) × (i < n) × (0 < f i)
unfolding sum
sum_pos_term zero f h = absurd (omega arith)
sum_pos_term (suc n) f h = elim (dec_lt 0 (f n)) [
  | yes here ↦ (n, omega arith, here)
  | no other ↦ let (i, lt, p) = sum_pos_term n f (omega arith) in (i, omega arith, p)
]

pub sum-update {ℓ} :
    {A : Type ℓ} (g : A → ℕ) (n i : ℕ) (f : ℕ → A) (a : A)
    → i < n
    → sum n (λ j. g (update f i a j)) + g (f i) ≡ sum n (λ j. g (f j)) + g a
sum-update g n i f a lt =
    subst (λ b. sum n (λ j. g (update f i a j)) + g (f i) ≡ sum n (λ j. g (f j)) + g b)
      (update_self f i a)
      (sum_change n i (λ j. g (f j)) (λ j. g (update f i a j)) lt
        (λ j ne. ap g (sym (update_ne f i j a ne))))

pub map-update {ℓ κ} :
    {A : Type ℓ} {B : Type κ} (g : A → B) (f : ℕ → A) (i : ℕ) (a : A) (j : ℕ)
    → update (λ k. g (f k)) i (g a) j ≡ g (update f i a j)
map-update g f i a j = elim (Bool-cases (i == j)) [ inl here ↦ rw here | inr there ↦ rw there ]

pub update_same {ℓ} :
    {A : Type ℓ} (f : ℕ → A) (i : ℕ) (a : A) → a ≡ f i → (j : ℕ) → update f i a j ≡ f j
update_same f i a e j = elim (Bool-cases (i == j)) [
  | inl here ↦ rw here (e ∙ ap f ((==_iff i j).0 here))
  | inr there ↦ rw there refl
]

-- One family below `n`, and another from `n` on.
abbrev pub merge {ℓ} : {A : Type ℓ} → ℕ → (ℕ → A) → (ℕ → A) → ℕ → A
merge n f g j = if ltb j n then f j else g (j - n)

pub merge-const {ℓ} : {A : Type ℓ} (n : ℕ) (a : A) (j : ℕ) → merge n (λ _. a) (λ _. a) j ≡ a
merge-const n a j = elim (Bool-cases (ltb j n)) [ inl p ↦ rw p refl | inr p ↦ rw p refl ]

pub map-merge {ℓ κ} :
    {A : Type ℓ} {B : Type κ} (h : A → B) (n : ℕ) (f g : ℕ → A) (j : ℕ)
    → h (merge n f g j) ≡ merge n (λ i. h (f i)) (λ i. h (g i)) j
map-merge h n f g j = elim (Bool-cases (ltb j n)) [ inl p ↦ rw p refl | inr p ↦ rw p refl ]

pub merge_first {ℓ} :
    {A : Type ℓ} (n : ℕ) (f g : ℕ → A) (i : ℕ) (a : A)
    → i < n
    → (j : ℕ) → merge n (update f i a) g j ≡ update (merge n f g) i a j
merge_first n f g i a lt j = ground arith

pub merge_second {ℓ} :
    {A : Type ℓ} (n : ℕ) (f g : ℕ → A) (i : ℕ) (a : A) (j : ℕ)
    → merge n f (update g i a) j ≡ update (merge n f g) (n + i) a j
merge_second n f g i a j = elim (dec_lt j n) [
  | yes below ↦
      let inside : ltb j n ≡ true = ground arith in
      let other : (n + i == j) ≡ false = ground arith in rw (inside, other) refl
  | no beyond ↦
      let outside : ltb j n ≡ false = ground arith in
      let same : (i == j - n) ≡ (n + i == j) = ground arith in rw (outside, same) refl
]

pub sum-merge : (n m : ℕ) (f g : ℕ → ℕ) → sum (n + m) (merge n f g) ≡ sum n f + sum m g
unfolding sum
sum-merge n zero f g =
    rw (add-zero n) (omega (arith, sum_ext n (merge n f g) f (λ j lt. ground arith)))
sum-merge n (suc m) f g = rw (add-suc n m) (omega (arith, sum-merge n m f g, last))
  where
    last : merge n f g (n + m) ≡ g m
    last =
        let out : ltb (n + m) n ≡ false = ground arith in
        let back : n + m - n ≡ m = omega arith in rw out (ap g back)

pub sum-add : (n : ℕ) (f g : ℕ → ℕ) → sum n (λ j. f j + g j) ≡ sum n f + sum n g
unfolding sum
sum-add zero f g = refl
sum-add (suc n) f g = omega (arith, sum-add n f g)

-- One term falls by `d`, and every other rises by at most `r`.
pub sum_rise :
    (n r : ℕ) (f g : ℕ → ℕ) → ((j : ℕ) → j < n → g j ≤ f j + r) → sum n g ≤ sum n f + n * r
unfolding sum
sum_rise zero r f g h = omega arith
sum_rise (suc n) r f g h =
    omega (arith, sum_rise n r f g (λ j lt. h j (omega arith)), h n (omega arith))

pub sum_fall :
    (n i r d : ℕ) (f g : ℕ → ℕ)
    → i < n
    → ((j : ℕ) → j ≢ i → g j ≤ f j + r)
    → g i + d ≤ f i
    → sum n g + d ≤ sum n f + n * r
unfolding sum
sum_fall zero i r d f g lt others own = absurd (omega arith)
sum_fall (suc n) i r d f g lt others own = elim (dec_lt i n) [
  | yes below ↦ omega (arith, sum_fall n i r d f g below others own, others n (omega arith))
  | no last ↦
      let e : n ≡ i = omega arith in
      omega (arith, sum_rise n r f g (λ j p. others j (omega arith)), own, ap g e, ap f e)
]
