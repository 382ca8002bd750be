-- ===== src/Server/Lock/Count.antt =====
-- Sums of weights: how much the threads below n weigh, by the places where they stand.
use student_management_syste.Prelude.{
  ℕ, zero, suc, ◌+◌, ◌≤◌, ◌<◌, ◌≡◌, ◌≢◌, refl, arith, update, ne→==, eq→==,
}
use native.Mathlib.Decide.{ℕ_discrete}

unfoldable pub count {ℓ} : {P : Type ℓ} → (P → ℕ) → (ℕ → P) → ℕ → ℕ
count weight places zero = 0
count weight places (suc n) = weight (places n) + count weight places n

module _ {ℓ} {P : Type ℓ} (weight : P → ℕ) (places : ℕ → P) where
  pub count-zero : (n : ℕ) → ((i : ℕ) → weight (places i) ≡ 0) → count weight places n ≡ 0
  unfolding count
  count-zero zero light = refl
  count-zero (suc n) light = omega (arith, light n, count-zero n light)

  -- A thread's own weight, and the weights of two of them, are part of the sum.
  pub le-count : (n : ℕ) (i : ℕ) → i < n → weight (places i) ≤ count weight places n
  unfolding count
  le-count zero i h = absurd (omega arith)
  le-count (suc n) i h = elim (ℕ_discrete n i) [
    | yes e ↦ rw e (omega arith)
    | no d ↦ omega (arith, le-count n i (omega arith))
  ]

  pub add-le-count :
      (n i j : ℕ)
      → i < n
      → j < n
      → i ≢ j
      → weight (places i) + weight (places j) ≤ count weight places n
  unfolding count
  add-le-count zero i j h k ne = absurd (omega arith)
  add-le-count (suc n) i j h k ne = elim (ℕ_discrete n i) [
    | yes e ↦ rw (← e) (omega (arith, le-count n j (omega arith)))
    | no d ↦ elim (ℕ_discrete n j) [
      | yes e ↦ rw (← e) (omega (arith, le-count n i (omega arith)))
      | no d' ↦ omega (arith, add-le-count n i j (omega arith) (omega arith) ne)
    ]
  ]

  -- When thread i goes to p, the sum loses its old weight and gains that of p.
  module _ (i : ℕ) (p : P) where
    count-update_above :
        (n : ℕ) → n ≤ i → count weight (update places i p) n ≡ count weight places n
    unfolding count
    count-update_above zero h = refl
    count-update_above (suc n) h =
        rw (ne→== n i (omega arith), count-update_above n (omega arith)) refl

    pub count-update :
        (n : ℕ)
        → i < n
        → count weight (update places i p) n + weight (places i) ≡ count weight places n + weight p
    unfolding count
    count-update zero h = absurd (omega arith)
    count-update (suc n) h = elim (ℕ_discrete n i) [
      | yes e ↦ rw (e, eq→== i i refl, count-update_above i (omega arith)) (omega arith)
      | no d ↦ rw (ne→== n i d) (omega (arith, count-update n (omega arith)))
    ]

module _ {ℓ} {P : Type ℓ} (v w : P → ℕ) (places : ℕ → P) where
  pub count-le : (n : ℕ) → ((p : P) → v p ≤ w p) → count v places n ≤ count w places n
  unfolding count
  count-le zero lighter = omega arith
  count-le (suc n) lighter = omega (arith, lighter (places n), count-le n lighter)

  pub count-add : (n : ℕ) → count (λ p. v p + w p) places n ≡ count v places n + count w places n
  unfolding count
  count-add zero = refl
  count-add (suc n) = omega (arith, count-add n)
