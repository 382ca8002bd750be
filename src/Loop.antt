-- ===== src/Loop.antt =====
-- The search loops of OS/OperatingSystem.cpp, `for (i = ...) if (test(i)) { ...; break; }`.
use student_management_syste.Prelude.{
  ℕ, zero, suc, ◌+◌, ◌≤◌, ◌<◌, ◌≡◌, Bool, true, false, inl, inr, Option, none, some, arith,
  Bool-cases, Option-cases, if◌then◌else◌, refl, ◌⊎◌,
}

-- The first index of `i`, ..., `i + n - 1` that passes the test.
unfoldable pub first : ℕ → ℕ → (ℕ → Bool) → Option ℕ
first zero i test = none
first (suc n) i test = let rest = first n (i + 1) test in if test i then some i else rest

pub record IsFirst (n i k : ℕ) (test : ℕ → Bool) : Type 0 where
  pub passes : test k ≡ true
  pub ge : i ≤ k
  pub lt : k < i + n
  pub before : (j : ℕ) → i ≤ j → j < k → test j ≡ false

pub first-some : (n i k : ℕ) (test : ℕ → Bool) → first n i test ≡ some k → IsFirst n i k test
unfolding first
first-some zero i k test h = cc
first-some (suc n) i k test h = elim (Bool-cases (test i)) [
  | inl e ↦
      let same : i ≡ k = ground arith in
      record {
        passes = rw (← same) e;
        ge = omega arith;
        lt = omega arith;
        before = λ j p q. absurd (omega arith);
      }
  | inr e ↦
      let r = first-some n (i + 1) k test (ground arith) in
      record {
        passes = r.passes;
        ge = omega (arith, r.ge);
        lt = omega (arith, r.lt);
        before = λ j p q. ground (arith, r.before j);
      }
]

pub first-none :
    (n i j : ℕ) (test : ℕ → Bool) → first n i test ≡ none → i ≤ j → j < i + n → test j ≡ false
unfolding first
first-none zero i j test h p q = absurd (omega arith)
first-none (suc n) i j test h p q = ground (arith, first-none n (i + 1) j test)

-- The first index that passes is found.
pub first-IsFirst : (n i k : ℕ) (test : ℕ → Bool) → IsFirst n i k test → first n i test ≡ some k
unfolding first
first-IsFirst zero i k test v = absurd (omega (arith, v.ge, v.lt))
first-IsFirst (suc n) i k test v = elim (Bool-cases (test i)) [
  | inl e ↦ ground (arith, v.before i, v.ge)
  | inr e ↦ rw e (
      first-IsFirst n (i + 1) k test (record {
        passes = v.passes;
        ge = ground (arith, v.passes, v.ge);
        lt = omega (arith, v.lt);
        before = λ j p q. v.before j (omega arith) q;
      }))
]

-- If no index passes, the search fails.
pub first-eq-none :
    (n i : ℕ) (test : ℕ → Bool)
    → ((j : ℕ) → i ≤ j → j < i + n → test j ≡ false)
    → first n i test ≡ none
unfolding first
first-eq-none zero i test h = refl
first-eq-none (suc n) i test h = rw (
  h i (omega arith) (omega arith),
  first-eq-none n (i + 1) test (λ j p q. h j (omega arith) (omega arith)),
)

-- A search fails, or finds the first index that passes.
pub first-cases :
    (n i : ℕ) (test : ℕ → Bool)
    → (first n i test ≡ none) ⊎ ((k : ℕ) × (first n i test ≡ some k) × IsFirst n i k test)
first-cases n i test = elim (Option-cases (first n i test)) [
  | inl e ↦ inl e
  | inr (k, e) ↦ inr (k, e, first-some n i k test e)
]
