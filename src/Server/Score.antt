-- ===== src/Server/Score.antt =====
-- Server/server.cpp, `isScoreValid`: the number that a text stands for.
use student_management_syste.Prelude.{
  ℕ, ◌+◌, ◌*◌, ◌-◌, ◌≤◌, ◌≡◌, ◌≢◌, ◌⊎◌, inl, inr, refl, Bool, true, not, ◌&&◌, ◌||◌, Option, none,
  some, [], ◌∷◌, Bytes, arith, ltb, leb, if◌then◌else◌, length, Bool-cases,
}
use student_management_syste.Snapshot.{minus_one}

abbrev pub are_digits : Bytes → Bool
are_digits [] = true
are_digits (c ∷ cs) = not (ltb c b'0' || ltb b'9' c) && are_digits cs

-- `stoi` of digits, of which there are at most two; it throws where there is none.
abbrev pub stoi_from : ℕ → Bytes → ℕ
stoi_from n [] = n
stoi_from n (c ∷ cs) = stoi_from (10 * n + (c - b'0')) cs

abbrev pub stoi : Bytes → Option ℕ
stoi [] = none
stoi (c ∷ cs) = some (stoi_from 0 (c ∷ cs))

-- The result `false` is 0.
unfoldable pub is_score_valid : Bytes → Option ℕ
is_score_valid score =
    if leb 3 (length score)
    then some 0
    else if not (are_digits score)
    then some minus_one
    else elim (stoi score) [ none ↦ none | some n ↦ some (if leb n 100 then n else minus_one) ]

-- A text that is not empty has a result, which is -1 or at most 99; and a text of three characters
-- or more has the result 0.
pub is_score_valid_lem :
    (score : Bytes)
    → score ≢ []
    → ((n : ℕ) × (is_score_valid score ≡ some n) × ((n ≤ 99) ⊎ (n ≡ minus_one)))
      × (3 ≤ length score → is_score_valid score ≡ some 0)
unfolding is_score_valid
is_score_valid_lem [] h = absurd (h refl)
is_score_valid_lem (a ∷ []) h = (
  elim (Bool-cases (are_digits (a ∷ []))) [
    | inl e ↦ (a - 48, ground arith, inl (ground arith))
    | inr e ↦ (minus_one, ground arith, inr refl)
  ],
  λ k. ground arith,
)
is_score_valid_lem (a ∷ b ∷ []) h = (
  elim (Bool-cases (are_digits (a ∷ b ∷ []))) [
    | inl e ↦ (10 * (a - 48) + (b - 48), ground arith, inl (ground arith))
    | inr e ↦ (minus_one, ground arith, inr refl)
  ],
  λ k. ground arith,
)
is_score_valid_lem (a ∷ b ∷ c ∷ cs) h = ((0, ground arith, inl (omega arith)), λ k. ground arith)
