-- ===== src/Base/Family.antt =====
-- What each thread has, as a function of its index: a write at one index, and a sum over the
-- threads below a bound.
use Prim.Native.Nat.{ℕ, zero, suc, ◌+◌, ◌*◌, ◌≤◌, ◌<◌}
use native.Mathlib.Nat.{suc-mul}
use mathlib.Core.Path.{◌≡◌, refl}
use mathlib.Core.Logic.{◌≢◌, ◌⊎◌, inl, inr, ite}
use native.Mathlib.Decide.{dec_lt, ℕ_discrete}
use native.Mathlib.Omega.{arith}

abbrev pub update {ℓ} : {A : Type ℓ} → (ℕ → A) → ℕ → A → ℕ → A
update f i a j = ite (ℕ_discrete i j) a (f j)

pub total {ℓ} : {A : Type ℓ} → (A → ℕ) → ℕ → (ℕ → A) → ℕ
total weight zero f = 0
total weight (suc bound) f = weight (f bound) + total weight bound f

-- Families whose members below the bound weigh the same have the same total.
pub total-agree {ℓ} :
    {A : Type ℓ} (weight : A → ℕ) (bound : ℕ) (f g : ℕ → A)
    → ((k : ℕ) → k < bound → weight (g k) ≡ weight (f k))
    → total weight bound g ≡ total weight bound f
unfolding total
total-agree weight zero f g alike = refl
total-agree weight (suc bound) f g alike = omega (
  arith,
  alike bound (omega arith),
  total-agree weight bound f g (λ k below. alike k (omega arith)),
)

-- Two families that weigh alike but at `i`.
pub total-change {ℓ} :
    {A : Type ℓ} (weight : A → ℕ) (bound : ℕ) (f g : ℕ → A) (i : ℕ)
    → i < bound
    → ((k : ℕ) → k ≢ i → weight (g k) ≡ weight (f k))
    → total weight bound g + weight (f i) ≡ total weight bound f + weight (g i)
unfolding total
total-change weight zero f g i below alike = absurd (omega arith)
total-change weight (suc bound) f g i below alike = elim (dec_lt i bound) [
  | yes deeper ↦
      omega (arith, alike bound (omega arith), total-change weight bound f g i deeper alike)
  | no last ↦
      let here : i ≡ bound = omega arith in
      rw here (omega (arith, total-agree weight bound f g (λ k lower. alike k (omega arith))))
]

-- Members that weigh at most one.
pub total-le {ℓ} :
    {A : Type ℓ} (weight : A → ℕ)
    → ((a : A) → weight a ≤ 1)
    → (bound : ℕ) (f : ℕ → A) → total weight bound f ≤ bound
unfolding total
total-le weight light zero f = omega arith
total-le weight light (suc bound) f = omega (arith, total-le weight light bound f, light (f bound))

pub total_weightless {ℓ} :
    {A : Type ℓ} (weight : A → ℕ) (bound : ℕ) (f : ℕ → A)
    → ((k : ℕ) → weight (f k) ≡ 0)
    → total weight bound f ≡ 0
unfolding total
total_weightless weight zero f nothing = refl
total_weightless weight (suc bound) f nothing =
    omega (arith, nothing bound, total_weightless weight bound f nothing)

pub update-same {ℓ} : {A : Type ℓ} (f : ℕ → A) (i : ℕ) (a : A) → update f i a i ≡ a
update-same f i a = ground arith

pub update-other {ℓ} :
    {A : Type ℓ} (f : ℕ → A) (i : ℕ) (a : A) (j : ℕ) → j ≢ i → update f i a j ≡ f j
update-other f i a j apart = ground arith

pub total-ge {ℓ} :
    {A : Type ℓ} (weight : A → ℕ) (bound : ℕ) (f : ℕ → A) (k : ℕ)
    → k < bound
    → weight (f k) ≤ total weight bound f
unfolding total
total-ge weight zero f k below = absurd (omega arith)
total-ge weight (suc bound) f k below = elim (ℕ_discrete k bound) [
  | yes at ↦ rw at (omega arith)
  | no ne ↦ omega (arith, total-ge weight bound f k (omega (arith, below, ne)))
]

-- Members that weigh at most one, and together as much as there are of them, weigh one each.
pub total-full {ℓ} :
    {A : Type ℓ} (weight : A → ℕ)
    → ((a : A) → weight a ≤ 1)
    → (bound : ℕ) (f : ℕ → A) → total weight bound f ≡ bound
    → (k : ℕ) → k < bound
    → weight (f k) ≡ 1
unfolding total
total-full weight light zero f full k below = absurd (omega arith)
total-full weight light (suc bound) f full k below =
    let last = light (f bound) in
    let others = total-le weight light bound f in
    elim (ℕ_discrete k bound) [
      | yes at ↦ rw at (omega (arith, full, last, others))
      | no ne ↦
          total-full weight light bound f (omega (arith, full, last, others)) k
            (omega (arith, below, ne))
    ]

-- Members that weigh at most, or just, the same.
pub total-le-mul {ℓ} :
    {A : Type ℓ} (weight : A → ℕ) (bound c : ℕ) (f : ℕ → A)
    → ((k : ℕ) → k < bound → weight (f k) ≤ c)
    → total weight bound f ≤ bound * c
unfolding total
total-le-mul weight zero c f light = omega arith
total-le-mul weight (suc bound) c f light = omega (
  arith,
  suc-mul bound c,
  light bound (omega arith),
  total-le-mul weight bound c f (λ k lt. light k (omega (arith, lt))),
)

pub total-eq-mul {ℓ} :
    {A : Type ℓ} (weight : A → ℕ) (bound c : ℕ) (f : ℕ → A)
    → ((k : ℕ) → k < bound → weight (f k) ≡ c)
    → total weight bound f ≡ bound * c
unfolding total
total-eq-mul weight zero c f same = omega arith
total-eq-mul weight (suc bound) c f same = omega (
  arith,
  suc-mul bound c,
  same bound (omega arith),
  total-eq-mul weight bound c f (λ k lt. same k (omega (arith, lt))),
)

-- The first member of a family of numbers, below a bound, that is less than a limit.
pub first_below :
    (f : ℕ → ℕ) (limit bound : ℕ)
    → ((k : ℕ) → k < bound → limit ≤ f k)
      ⊎ ((m : ℕ) × (m < bound) × (f m < limit) × ((k : ℕ) → k < m → limit ≤ f k))
first_below f limit zero = inl (λ k lt. absurd (omega arith))
first_below f limit (suc bound) = elim (first_below f limit bound) [
  | inr (m, lt, left, before) ↦ inr (m, omega (arith, lt), left, before)
  | inl ended ↦ elim (dec_lt (f bound) limit) [
    | yes left ↦ inr (bound, omega arith, left, ended)
    | no past ↦ inl (λ k lt. elim (ℕ_discrete k bound) [
      | yes at ↦ rw at (omega (arith, past))
      | no ne ↦ ended k (omega (arith, ne))
    ])
  ]
]
