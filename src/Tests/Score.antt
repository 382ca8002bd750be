-- ===== src/Tests/Score.antt =====
-- A score of two digits.
use student_management_syste.Prelude.{◌≤◌, ◌≡◌, ◌⊎◌, ℕ, some, codes, length}
use student_management_syste.Snapshot.{minus_one}
use student_management_syste.Server.Score.{is_score_valid, is_score_valid_lem}

is_score_valid_lem_example :
    ((n : ℕ) × (is_score_valid (codes "95") ≡ some n) × ((n ≤ 99) ⊎ (n ≡ minus_one)))
    × (3 ≤ length (codes "95") → is_score_valid (codes "95") ≡ some 0)
is_score_valid_lem_example = is_score_valid_lem (codes "95") (λ e. cc)
