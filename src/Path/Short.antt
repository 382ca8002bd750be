-- ===== src/Path/Short.antt =====
-- The names in a path are short.
use student_management_syste.Prelude.{
  ℕ, ◌+◌, ◌≤◌, ◌≡◌, subst, arith, Bool, true, false, some, List, [], ◌∷◌, Bytes, ◌==◌, ltb, inl,
  inr, if◌then◌else◌, Bool-cases, length, ltb→le,
}
use student_management_syste.Memory.{c_str}
use student_management_syste.Path.{prepend, starts_token, slash, strtok, tokens, all_but_last, last}

-- The tokens of a path are not longer than the path.
abbrev pub AllShort : ℕ → List Bytes → Type 0
AllShort n [] = Unit {0}
AllShort n (t ∷ ts) = (length t ≤ n) × AllShort n ts

AllShort-le : (m n : ℕ) (ts : List Bytes) → m ≤ n → AllShort m ts → AllShort n ts
AllShort-le m n [] h a = tt
AllShort-le m n (t ∷ ts) h (p, a) = (omega (arith, h, p), AllShort-le m n ts h a)

AllShort-prepend : (n c : ℕ) (ts : List Bytes) → AllShort n ts → AllShort (n + 1) (prepend c ts)
AllShort-prepend n c [] a = (omega arith, tt)
AllShort-prepend n c (t ∷ ts) (p, a) = (omega (arith, p), AllShort-le n (n + 1) ts (omega arith) a)

AllShort-if :
    (n : ℕ) (b : Bool) (ts us : List Bytes)
    → AllShort n ts
    → AllShort n us
    → AllShort n (if b then ts else us)
AllShort-if n true ts us x y = x
AllShort-if n false ts us x y = y

strtok-AllShort : (s : Bytes) → AllShort (length s) (strtok s)
unfolding strtok
strtok-AllShort [] = tt
strtok-AllShort (c ∷ cs) =
    let n = length cs in
    let rest = strtok-AllShort cs in
    let longer = AllShort-le n (length (c ∷ cs)) (strtok cs) (omega arith) rest in
    AllShort-if _ (c == slash) _ _ longer (
      AllShort-if _ (starts_token cs) _ _
        (AllShort-le (n + 1) (length (c ∷ cs)) (prepend c (strtok cs)) (omega arith)
          (AllShort-prepend n c (strtok cs) rest))
        (omega arith, longer))

pub tokens-AllShort : (path : Bytes) (ts : List Bytes) → tokens path ≡ some ts → AllShort 99 ts
unfolding tokens
tokens-AllShort path ts e = elim (Bool-cases (ltb 99 (length (c_str path)))) [
  | inl h ↦ absurd (ground (arith, e, h))
  | inr h ↦
      let same : strtok (c_str path) ≡ ts = ground (arith, e, h) in
      subst (AllShort 99) same
        (AllShort-le _ 99 _ (ltb→le 99 (length (c_str path)) h) (strtok-AllShort (c_str path)))
]

pub all_but_last-AllShort : (n : ℕ) (ts : List Bytes) → AllShort n ts → AllShort n (all_but_last ts)
all_but_last-AllShort n [] a = tt
all_but_last-AllShort n (t ∷ []) a = tt
all_but_last-AllShort n (t ∷ u ∷ ts) (p, a) = (p, all_but_last-AllShort n (u ∷ ts) a)

pub last-short :
    (n : ℕ) (t : Bytes) (ts : List Bytes) → AllShort n (t ∷ ts) → length (last t ts) ≤ n
last-short n t [] (p, a) = p
last-short n t (u ∷ ts) (p, a) = last-short n u ts a
