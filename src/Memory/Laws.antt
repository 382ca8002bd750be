-- ===== src/Memory/Laws.antt =====
-- Reading what was written to memory, and what a write leaves alone.
use student_management_syste.Prelude.{
  ℕ, zero, suc, ◌+◌, ◌-◌, ◌%◌, ◌≤◌, ◌<◌, ◌≡◌, ◌≢◌, refl, ap, Bool, true, not, ◌&&◌, some, [], ◌∷◌,
  arith, Bytes, ◌==◌, ltb, if◌then◌else◌, length, get_or, ◌⊎◌, inl, inr,
}
use student_management_syste.Memory.{
  Memory, c_str, short_at, put_short, int_at, put_int, memset, memcpy, strcpy, name_eq, c_string,
}

-- No byte of the text is NUL.
abbrev pub no_nul : Bytes → Bool
no_nul [] = true
no_nul (b ∷ bs) = not (b == 0) && no_nul bs

pub c_str-no_nul : (s : Bytes) → no_nul s ≡ true → c_str s ≡ s
unfolding c_str
c_str-no_nul [] h = refl
c_str-no_nul (b ∷ bs) h = ground (arith, c_str-no_nul bs)

pub length-c_str : (s : Bytes) → length (c_str s) ≤ length s
unfolding c_str
length-c_str [] = omega arith
length-c_str (b ∷ bs) = ground (arith, length-c_str bs)

pub strcpy_off :
    (m : Memory) (a : ℕ) (s : Bytes) (x : ℕ) → (x < a) ⊎ (a + length s < x) → strcpy m a s x ≡ m x
unfolding strcpy
strcpy_off m a s x (inl h) = ground arith
strcpy_off m a s x (inr h) = ground (arith, length-c_str s)

pub strcpy_at :
    (m : Memory) (a k : ℕ) (s : Bytes)
    → no_nul s ≡ true
    → k ≤ length s
    → strcpy m a s (a + k) ≡ get_or s k 0
unfolding strcpy
strcpy_at m a k s h le =
    let d : a + k - a ≡ k = omega arith in rw (c_str-no_nul s h, d) (ground arith)

pub memcpy_off :
    (m : Memory) (a : ℕ) (src : Memory) (b n x : ℕ)
    → (x < a) ⊎ (a + n ≤ x)
    → memcpy m a src b n x ≡ m x
unfolding memcpy
memcpy_off m a src b n x (inl h) = ground arith
memcpy_off m a src b n x (inr h) = ground arith

pub memcpy_at :
    (m : Memory) (a : ℕ) (src : Memory) (b n k : ℕ)
    → k < n
    → memcpy m a src b n (a + k) ≡ src (b + k)
unfolding memcpy
memcpy_at m a src b n k h = let d : a + k - a ≡ k = omega arith in rw d (ground arith)

-- A name that fits is read the same in memories that agree on its bytes and the NUL behind them.
pub name_eq-frame :
    (m n : Memory) (a b : ℕ) (s : Bytes)
    → ((k : ℕ) → k ≤ length s → n (b + k) ≡ m (a + k))
    → name_eq n b s ≡ name_eq m a s
unfolding name_eq
name_eq-frame m n a b [] h =
    let p : a + 0 ≡ a = omega arith in
    let q : b + 0 ≡ b = omega arith in rw (p, q) at (ap (λ v. v == 0) (h 0 (omega arith)))
name_eq-frame m n a b (c ∷ cs) h =
    let p : a + 0 ≡ a = omega arith in
    let q : b + 0 ≡ b = omega arith in
    let e : n b ≡ m a = rw (p, q) at (h 0 (omega arith)) in
    rw (e, name_eq-frame m n (a + 1) (b + 1) cs (λ k le. step k (omega arith)))
  where
    step : (k : ℕ) → suc k ≤ suc (length cs) → n (b + 1 + k) ≡ m (a + 1 + k)
    step k le =
        let p : a + 1 + k ≡ a + suc k = omega arith in
        let q : b + 1 + k ≡ b + suc k = omega arith in rw (p, q) (h (suc k) le)

pub name_eq-holds :
    (m : Memory) (a : ℕ) (s : Bytes)
    → no_nul s ≡ true
    → ((k : ℕ) → k ≤ length s → m (a + k) ≡ get_or s k 0)
    → name_eq m a s ≡ true
unfolding name_eq
name_eq-holds m a [] h p =
    let q : a + 0 ≡ a = omega arith in let z : m a ≡ 0 = rw q at (p 0 (omega arith)) in ground arith
name_eq-holds m a (c ∷ cs) h p =
    let q : a + 0 ≡ a = omega arith in
    let e : m a ≡ c = rw q at (p 0 (omega arith)) in
    ground (arith, name_eq-holds m (a + 1) cs (no_nul_tail h) step)
  where
    step : (k : ℕ) → k ≤ length cs → m (a + 1 + k) ≡ get_or cs k 0
    step k le = let q : a + 1 + k ≡ a + suc k = omega arith in rw q (p (suc k) (omega arith))

    no_nul_tail : no_nul (c ∷ cs) ≡ true → no_nul cs ≡ true
    no_nul_tail r = ground arith

-- One place in memory holds one name.
pub name_eq_unique :
    (m : Memory) (a : ℕ) (s t : Bytes) → name_eq m a s ≡ true → name_eq m a t ≡ true → s ≡ t
unfolding name_eq
name_eq_unique m a [] [] p q = refl
name_eq_unique m a [] (c ∷ cs) p q = ground arith
name_eq_unique m a (c ∷ cs) [] p q = ground arith
name_eq_unique m a (c ∷ cs) (d ∷ ds) p q = ground (arith, name_eq_unique m (a + 1) cs ds)

-- The text that is read at a place is the name that the place holds.
pub c_string-name_eq :
    (fuel : ℕ) (m : Memory) (a : ℕ) (s : Bytes)
    → length s < fuel
    → name_eq m a s ≡ true
    → c_string fuel m a ≡ some s
unfolding c_string name_eq
c_string-name_eq zero m a s lt h = absurd (omega arith)
c_string-name_eq (suc f) m a [] lt h = ground arith
c_string-name_eq (suc f) m a (c ∷ cs) lt h = ground (arith, c_string-name_eq f m (a + 1) cs)

-- A `short` that is read at the place where it was written: its 16 bits, with the sign spread.
pub short_at-put_short :
    (m : Memory) (a v : ℕ)
    → short_at (put_short m a v) a
      ≡ (if ltb (v % 0x1_0000) 0x8000 then v % 0x1_0000 else v % 0x1_0000 + 0xffff_0000)
unfolding short_at put_short
short_at-put_short m a v = ground arith

pub short_at-frame :
    (m n : Memory) (a b : ℕ) → n b ≡ m a → n (b + 1) ≡ m (a + 1) → short_at n b ≡ short_at m a
unfolding short_at
short_at-frame m n a b p q = rw (p, q)

pub put_short_off : (m : Memory) (a v x : ℕ) → x ≢ a → x ≢ a + 1 → put_short m a v x ≡ m x
unfolding put_short
put_short_off m a v x p q = ground arith

-- Four bytes at a time, and `memset`.
pub int_at-put_int : (m : Memory) (a v : ℕ) → v < 0x1_0000_0000 → int_at (put_int m a v) a ≡ v
unfolding int_at put_int
int_at-put_int m a v h = ground arith

pub put_int_off : (m : Memory) (a v x : ℕ) → (x < a) ⊎ (a + 4 ≤ x) → put_int m a v x ≡ m x
unfolding put_int
put_int_off m a v x (inl h) = ground arith
put_int_off m a v x (inr h) = ground arith

pub memset_off : (m : Memory) (a v n x : ℕ) → (x < a) ⊎ (a + n ≤ x) → memset m a v n x ≡ m x
unfolding memset
memset_off m a v n x (inl h) = ground arith
memset_off m a v n x (inr h) = ground arith

pub memset_at : (m : Memory) (a v n x : ℕ) → a ≤ x → x < a + n → memset m a v n x ≡ v
unfolding memset
memset_at m a v n x p q = ground arith

pub int_at-frame :
    (m n : Memory) (a : ℕ) → ((x : ℕ) → a ≤ x → x < a + 4 → n x ≡ m x) → int_at n a ≡ int_at m a
unfolding int_at
int_at-frame m n a h =
    rw
      (
        h a (omega arith) (omega arith),
        h (a + 1) (omega arith) (omega arith),
        h (a + 2) (omega arith) (omega arith),
        h (a + 3) (omega arith) (omega arith),
      )
      refl
