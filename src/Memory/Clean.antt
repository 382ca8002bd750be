-- ===== src/Memory/Clean.antt =====
-- Texts without a NUL, among them those that `string(p)` reads.
use student_management_syste.Prelude.{
  ℕ, zero, suc, ◌+◌, ◌≡◌, refl, subst, arith, Bool, true, false, codes, some, [], ◌∷◌, ◌++◌, Bytes,
  ◌==◌, inl, inr, Bool-cases, Option-cases, take, drop,
}
use student_management_syste.Memory.{Memory, c_string, format_from, is_format}
use student_management_syste.Memory.Laws.{no_nul}

pub no_nul-append : (xs ys : Bytes) → no_nul xs ≡ true → no_nul ys ≡ true → no_nul (xs ++ ys) ≡ true
no_nul-append [] ys p q = q
no_nul-append (x ∷ xs) ys p q = ground (arith, no_nul-append xs ys)

pub no_nul-drop : (k : ℕ) (xs : Bytes) → no_nul xs ≡ true → no_nul (drop k xs) ≡ true
no_nul-drop zero xs p = p
no_nul-drop (suc k) [] p = refl
no_nul-drop (suc k) (x ∷ xs) p = no_nul-drop k xs (ground (arith, p))

pub no_nul-take : (k : ℕ) (xs : Bytes) → no_nul xs ≡ true → no_nul (take k xs) ≡ true
no_nul-take zero xs p = refl
no_nul-take (suc k) [] p = refl
no_nul-take (suc k) (x ∷ xs) p = ground (arith, p, no_nul-take k xs)

pub c_string-no_nul :
    (fuel : ℕ) (m : Memory) (a : ℕ) (t : Bytes) → c_string fuel m a ≡ some t → no_nul t ≡ true
unfolding c_string
c_string-no_nul zero m a t e = absurd (cc)
c_string-no_nul (suc f) m a t e = elim (Bool-cases (m a == 0)) [
  | inl z ↦ let k : [] ≡ t = ground (arith, e, z) in subst (λ u. no_nul u ≡ true) k refl
  | inr z ↦ elim (Option-cases (c_string f m (a + 1))) [
    | inl n ↦ absurd (ground (arith, e, z, n))
    | inr (r, p) ↦
        let k : m a ∷ r ≡ t = ground (arith, e, z, p) in
        let h = c_string-no_nul f m (a + 1) r p in
        subst (λ u. no_nul u ≡ true) k (ground (arith, z, h))
  ]
]

-- Formats that `printf` can print, one after the other.
format_from-append :
    (open_percent : Bool) (xs ys : Bytes)
    → format_from open_percent xs ≡ true
    → is_format ys ≡ true
    → format_from open_percent (xs ++ ys) ≡ true
format_from-append false [] ys p q = q
format_from-append true [] ys p q = absurd (cc)
format_from-append false (x ∷ xs) ys p q = format_from-append (x == 37) xs ys p q
format_from-append true (x ∷ xs) ys p q = elim (Bool-cases (x == 37)) [
  | inl e ↦ ground (arith, e, format_from-append false xs ys (ground (arith, e, p)) q)
  | inr e ↦ absurd (ground (arith, e, p))
]

pub is_format-append :
    (xs ys : Bytes) → is_format xs ≡ true → is_format ys ≡ true → is_format (xs ++ ys) ≡ true
is_format-append = format_from-append false

-- The blanks in front of a mark.
pub is_format-blanks : (k : ℕ) → is_format (take k (codes "   ")) ≡ true
is_format-blanks zero = refl
is_format-blanks (suc zero) = refl
is_format-blanks (suc (suc zero)) = refl
is_format-blanks (suc (suc (suc zero))) = refl
is_format-blanks (suc (suc (suc (suc k)))) = refl
