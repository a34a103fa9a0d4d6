-- ===== src/Future/Many/Sums.antt =====
-- Sums over the producers.
use dummy_concurrency.Base.{
  ℕ, zero, suc, ◌+◌, ◌≤◌, ◌<◌, ◌≡◌, refl, ap, subst, update, update_eq, update_ne, arith,
}
use native.Mathlib.Decide.{ℕ_discrete}

pub sum : ℕ → (ℕ → ℕ) → ℕ
sum zero f = 0
sum (suc n) f = sum n f + f n

-- A producer of which the sum does not ask gets a new value.
sum-beyond :
    {A : Type 0} (f : ℕ → A → ℕ) (g : ℕ → A) (i : ℕ) (a : A) (n : ℕ)
    → n ≤ i
    → sum n (λ j. f j (update g i a j)) ≡ sum n (λ j. f j (g j))
unfolding sum
sum-beyond f g i a zero h = refl
sum-beyond f g i a (suc n) h = omega (
  arith,
  sum-beyond f g i a n (omega arith),
  ap (f n) (update_ne g i a n (λ e. absurd (omega arith))),
)

-- One producer gets a new value.
pub sum-update :
    {A : Type 0} (f : ℕ → A → ℕ) (g : ℕ → A) (i : ℕ) (a : A) (n : ℕ)
    → i < n
    → sum n (λ j. f j (update g i a j)) + f i (g i) ≡ sum n (λ j. f j (g j)) + f i a
unfolding sum
sum-update f g i a zero h = absurd (omega arith)
sum-update f g i a (suc n) h = elim (ℕ_discrete i n) [
  | yes e ↦ omega (
    arith,
    sum-beyond f g i a n (omega arith),
    subst (λ k. f k (update g i a k) ≡ f i a) e (ap (f i) (update_eq g i a)),
    ap (λ k. f k (g k)) e,
  )
  | no ne ↦ omega (arith, sum-update f g i a n (omega arith), ap (f n) (update_ne g i a n ne))
]

-- A summand is at most the sum.
pub le-sum : (f : ℕ → ℕ) (n i : ℕ) → i < n → f i ≤ sum n f
unfolding sum
le-sum f zero i h = absurd (omega arith)
le-sum f (suc n) i h = elim (ℕ_discrete i n) [
  | yes e ↦ omega (arith, ap f e)
  | no ne ↦ omega (arith, le-sum f n i (omega arith))
]

-- A summand that is 0 where all are at most 1.
pub sum-short : (f : ℕ → ℕ) (n : ℕ) → ((i : ℕ) → f i ≤ 1) → sum n f ≤ n
unfolding sum
sum-short f zero h = omega arith
sum-short f (suc n) h = omega (arith, sum-short f n h, h n)

pub sum-missing : (f : ℕ → ℕ) (n i : ℕ) → ((i : ℕ) → f i ≤ 1) → i < n → f i ≡ 0 → sum n f < n
unfolding sum
sum-missing f zero i h l z = absurd (omega arith)
sum-missing f (suc n) i h l z = elim (ℕ_discrete i n) [
  | yes e ↦ omega (arith, sum-short f n h, ap f e)
  | no ne ↦ omega (arith, sum-missing f n i h (omega arith) z, h n)
]

-- A sum above 0 has a summand above 0.
pub sum-positive : (f : ℕ → ℕ) (n : ℕ) → 0 < sum n f → (i : ℕ) × (i < n) × (0 < f i)
unfolding sum
sum-positive f zero h = absurd (omega arith)
sum-positive f (suc n) h = elim (ℕ_discrete (f n) 0) [
  | yes e ↦ let (i, lt, here) = sum-positive f n (omega arith) in (i, omega arith, here)
  | no ne ↦ (n, omega arith, omega arith)
]

pub sum-ones : (f : ℕ → ℕ) (n : ℕ) → ((i : ℕ) → i < n → f i ≡ 1) → sum n f ≡ n
unfolding sum
sum-ones f zero h = refl
sum-ones f (suc n) h = omega (arith, sum-ones f n (λ i lt. h i (omega arith)), h n (omega arith))

pub sum-none : (f : ℕ → ℕ) (n : ℕ) → ((i : ℕ) → i < n → f i ≡ 0) → sum n f ≡ 0
unfolding sum
sum-none f zero h = refl
sum-none f (suc n) h = omega (arith, sum-none f n (λ i lt. h i (omega arith)), h n (omega arith))
