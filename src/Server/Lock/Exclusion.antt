-- ===== src/Server/Lock/Exclusion.antt =====
-- Readers and writers exclude one another, for every schedule of the threads of Server/server.cpp.
use native.Mathlib.Decide.{dec_le}
use student_management_syste.Prelude.{
  ℕ, ◌+◌, ◌≤◌, ◌<◌, ◌≡◌, ◌≢◌, refl, subst, zero, suc, Bool, true, false, some, arith, ◌==◌, ==_iff,
  if◌then◌else◌, inl, inr, Bool-cases,
}
use student_management_syste.Server.Lock.{
  Locks, Pc, idle, down_locked, down_counted, down_entered, reading, up_locked, up_counted, up_left,
  writing, Choice, reads, writes, next, Threads, mutex_init, Step, turn, Reach, start, later,
}
use student_management_syste.Server.Lock.Count.{
  count, count-update, count-zero, le-count, add-le-count, count-le, count-add,
}

abbrev bit : Bool → ℕ
bit true = 1
bit false = 0

-- Who is counted but not yet let in, who is let in, who leaves, who writes, and who holds
-- `mutex_reader`.
abbrev counting : Pc → ℕ
counting down_counted = 1
counting _ = 0

abbrev inside : Pc → ℕ
inside down_entered = 1
inside reading = 1
inside up_locked = 1
inside _ = 0

abbrev leaving : Pc → ℕ
leaving up_counted = 1
leaving _ = 0

abbrev busy_writing : Pc → ℕ
busy_writing writing = 1
busy_writing _ = 0

abbrev holding : Pc → ℕ
holding down_locked = 1
holding down_counted = 1
holding down_entered = 1
holding up_locked = 1
holding up_counted = 1
holding up_left = 1
holding _ = 0

-- The locks agree with the numbers of threads that stand at these places.
record Agrees (l : Locks) (rc ins uc wr mr : ℕ) : Type 0 where
  readers : l.reader_num ≡ rc + ins
  reader_lock : bit l.mutex_reader ≡ mr
  lock : bit l.mutex ≡ wr + (if ins + uc == 0 then 0 else 1)

-- One thread moves from `p` to `q`; the numbers follow.
module _ (rc ins uc wr mr rc' ins' uc' wr' mr' : ℕ) where
  record Moves (p q : Pc) : Type 0 where
    move_rc : rc' + counting p ≡ rc + counting q
    move_ins : ins' + inside p ≡ ins + inside q
    move_uc : uc' + leaving p ≡ uc + leaving q
    move_wr : wr' + busy_writing p ≡ wr + busy_writing q
    move_mr : mr' + holding p ≡ mr + holding q
    has_rc : counting p ≤ rc
    has_ins : inside p ≤ ins
    has_uc : leaving p ≤ uc
    has_wr : busy_writing p ≤ wr
    few : rc + uc ≤ mr

  next-Agrees :
      (c : Choice) (l k : Locks) (p q : Pc)
      → next c l p ≡ some (k, q)
      → Moves p q
      → Agrees l rc ins uc wr mr
      → Agrees k rc' ins' uc' wr' mr'
  unfolding next
  next-Agrees reads l k idle q e mv a = ground arith
  next-Agrees writes l k idle q e mv a = ground arith
  next-Agrees c l k down_locked q e mv a = ground arith
  next-Agrees c l k down_counted q e mv a = ground arith
  next-Agrees c l k down_entered q e mv a = ground arith
  next-Agrees c l k reading q e mv a = ground arith
  next-Agrees c l k up_locked q e mv a = ground arith
  next-Agrees c l k up_counted q e mv a = ground arith
  next-Agrees c l k up_left q e mv a = ground arith
  next-Agrees c l k writing q e mv a = ground arith

-- The locks agree with the places of the first n threads.
abbrev Inv : ℕ → Threads → Type 0
Inv n s =
    Agrees s.locks (count counting s.pc n) (count inside s.pc n) (count leaving s.pc n)
      (count busy_writing s.pc n) (count holding s.pc n)

counting_or_leaving-le : (p : Pc) → counting p + leaving p ≤ holding p
counting_or_leaving-le idle = omega arith
counting_or_leaving-le down_counted = omega arith
counting_or_leaving-le up_counted = omega arith
counting_or_leaving-le p = omega arith

Step-Inv : {n : ℕ} {s t : Threads} → Step n s t → Inv n s → Inv n t
Step-Inv {n} {s} (turn i c l p h e) v =
    next-Agrees _ _ _ _ _ _ _ _ _ _ c s.locks l (s.pc i) p e
      (record {
        move_rc = count-update counting s.pc i p n h;
        move_ins = count-update inside s.pc i p n h;
        move_uc = count-update leaving s.pc i p n h;
        move_wr = count-update busy_writing s.pc i p n h;
        move_mr = count-update holding s.pc i p n h;
        has_rc = le-count counting s.pc n i h;
        has_ins = le-count inside s.pc n i h;
        has_uc = le-count leaving s.pc n i h;
        has_wr = le-count busy_writing s.pc n i h;
        few =
            rw (← count-add counting leaving s.pc n)
              (count-le (λ a. counting a + leaving a) holding s.pc n counting_or_leaving-le);
      })
      v

Reach-Inv : {n : ℕ} {s : Threads} → Reach n s → Inv n s
unfolding mutex_init
Reach-Inv {n} start =
    let z = λ (w : Pc → ℕ) (h : w idle ≡ 0). count-zero w (λ _. idle) n (λ _. h) in
    record {
      readers = rw (z counting refl, z inside refl);
      reader_lock = rw (z holding refl);
      lock = rw (z busy_writing refl, z inside refl, z leaving refl);
    }
Reach-Inv (later r st) = Step-Inv st (Reach-Inv r)

bit-le : (b : Bool) → bit b ≤ 1
bit-le true = omega arith
bit-le false = omega arith

-- Whatever the schedule of n threads, while one thread writes no other thread reads or writes.
pub writer_excludes :
    {n : ℕ} {s : Threads}
    → Reach n s
    → (i j : ℕ) → i < n
    → j < n
    → i ≢ j
    → s.pc i ≡ writing
    → (s.pc j ≢ reading) × (s.pc j ≢ writing)
writer_excludes {n} {s} r i j hi hj ne wi = (no_reader, no_writer)
  where
    v : Inv n s
    v = Reach-Inv r

    one : 1 ≤ count busy_writing s.pc n
    one =
        subst (λ p. busy_writing p ≤ count busy_writing s.pc n) wi
          (le-count busy_writing s.pc n i hi)

    no_reader : s.pc j ≢ reading
    no_reader e =
        let k = subst (λ p. inside p ≤ count inside s.pc n) e (le-count inside s.pc n j hj) in
        ground (arith, v.lock, bit-le s.locks.mutex, one, k)

    no_writer : s.pc j ≢ writing
    no_writer e =
        let two = add-le-count busy_writing s.pc n i j hi hj ne in
        let k : 2 ≤ count busy_writing s.pc n = rw (wi, e) at two in
        omega (arith, v.lock, bit-le s.locks.mutex)

find-count : (w : Pc → ℕ) (n : ℕ) (f : ℕ → Pc) → 1 ≤ count w f n → (i : ℕ) × (i < n) × (1 ≤ w (f i))
unfolding count
find-count w zero f h = absurd (omega arith)
find-count w (suc n) f h = elim (dec_le 1 (w (f n))) [
  | yes k ↦ (n, omega arith, k)
  | no k ↦ let (i, lt, e) = find-count w n f (omega arith) in (i, omega arith, e)
]

-- Some thread that is not outside can make its next step.
abbrev pub CanProceed : ℕ → Threads → Type 0
CanProceed n s =
    (j : ℕ) × (l : Locks) × (p : Pc) × (j < n)
    × (s.pc j ≢ idle)
    × (next reads s.locks (s.pc j) ≡ some (l, p))

proceed :
    (n : ℕ) (s : Threads) (j : ℕ) (p q : Pc) (l : Locks)
    → j < n
    → s.pc j ≡ p
    → p ≢ idle
    → next reads s.locks p ≡ some (l, q)
    → CanProceed n s
proceed n s j p q l h e ne k = (j, l, q, h, rw e ne, rw e k)

writer_proceeds :
    (n : ℕ) (s : Threads) (j : ℕ) (p : Pc)
    → j < n
    → s.pc j ≡ p
    → 1 ≤ busy_writing p
    → CanProceed n s
unfolding next
writer_proceeds n s j writing h e k = proceed n s j writing _ _ h e (λ x. cc) refl
writer_proceeds n s j idle h e k = absurd (omega arith)
writer_proceeds n s j down_counted h e k = absurd (omega arith)
writer_proceeds n s j p h e k = absurd (omega arith)

module _ (n : ℕ) (s : Threads) (v : Inv n s) where
  -- The thread that waits for `mutex` while it holds `mutex_reader` waits for a writer.
  waits_for_writer :
      (j : ℕ)
      → j < n
      → s.pc j ≡ down_counted
      → s.locks.reader_num ≡ 1
      → s.locks.mutex ≡ true
      → 1 ≤ count busy_writing s.pc n
  waits_for_writer j h e r m =
      let a = subst (λ p. counting p ≤ count counting s.pc n) e (le-count counting s.pc n j h) in
      let few = count-le (λ a. counting a + leaving a) holding s.pc n counting_or_leaving-le in
      let sum = count-add counting leaving s.pc n in
      let lr = bit-le s.locks.mutex_reader in
      let z : count inside s.pc n + count leaving s.pc n ≡ 0 =
        omega (arith, a, few, sum, lr, v.readers, v.reader_lock) in
      let k : bit true ≡ count busy_writing s.pc n + 0 = rw (m, z) at v.lock in omega (arith, k)

  holder_proceeds : (j : ℕ) (p : Pc) → j < n → s.pc j ≡ p → 1 ≤ holding p → CanProceed n s
  unfolding next
  holder_proceeds j down_locked h e k = proceed n s j down_locked _ _ h e (λ x. cc) refl
  holder_proceeds j down_counted h e k = elim (Bool-cases (s.locks.reader_num == 1)) [
    | inr r ↦ proceed n s j down_counted down_entered s.locks h e (λ x. cc) (rw r refl)
    | inl r ↦ elim (Bool-cases s.locks.mutex) [
      | inr m ↦
          proceed n s j down_counted down_entered (record s.locks { mutex = true }) h e (λ x. cc)
            (rw (r, m) refl)
      | inl m ↦
          let (i, lt, w) =
            find-count busy_writing n s.pc
              (waits_for_writer j h e ((==_iff s.locks.reader_num 1).0 r) m) in
          writer_proceeds n s i (s.pc i) lt refl w
    ]
  ]
  holder_proceeds j down_entered h e k = proceed n s j down_entered _ _ h e (λ x. cc) refl
  holder_proceeds j up_locked h e k = proceed n s j up_locked _ _ h e (λ x. cc) refl
  holder_proceeds j up_counted h e k = elim (Bool-cases (s.locks.reader_num == 0)) [
    | inl r ↦
        proceed n s j up_counted up_left (record s.locks { mutex = false }) h e (λ x. cc)
          (rw r refl)
    | inr r ↦ proceed n s j up_counted up_left s.locks h e (λ x. cc) (rw r refl)
  ]
  holder_proceeds j up_left h e k = proceed n s j up_left _ _ h e (λ x. cc) refl
  holder_proceeds j idle h e k = absurd (omega arith)
  holder_proceeds j reading h e k = absurd (omega arith)
  holder_proceeds j writing h e k = absurd (omega arith)

  free_proceeds :
      (i : ℕ) (p : Pc)
      → i < n
      → s.pc i ≡ p
      → p ≢ idle
      → s.locks.mutex_reader ≡ false
      → CanProceed n s
  unfolding next
  free_proceeds i reading h e ne m =
      proceed n s i reading up_locked (record s.locks { mutex_reader = true }) h e (λ x. cc)
        (rw m refl)
  free_proceeds i writing h e ne m = proceed n s i writing _ _ h e (λ x. cc) refl
  free_proceeds i idle h e ne m = absurd (ne refl)
  free_proceeds i down_locked h e ne m = holder_proceeds i down_locked h e (omega arith)
  free_proceeds i down_counted h e ne m = holder_proceeds i down_counted h e (omega arith)
  free_proceeds i down_entered h e ne m = holder_proceeds i down_entered h e (omega arith)
  free_proceeds i up_locked h e ne m = holder_proceeds i up_locked h e (omega arith)
  free_proceeds i up_counted h e ne m = holder_proceeds i up_counted h e (omega arith)
  free_proceeds i up_left h e ne m = holder_proceeds i up_left h e (omega arith)

-- No deadlock: in every reachable state, if some thread is not outside, then some such thread can
-- make its next step at once.
pub no_deadlock :
    {n : ℕ} {s : Threads} → Reach n s → (i : ℕ) → i < n → s.pc i ≢ idle → CanProceed n s
no_deadlock {n} {s} r i h ne =
    let v = Reach-Inv r in
    elim (Bool-cases s.locks.mutex_reader) [
      | inr m ↦ free_proceeds n s v i (s.pc i) h refl ne m
      | inl m ↦
          let one : bit true ≡ count holding s.pc n = rw m at v.reader_lock in
          let (j, lt, w) = find-count holding n s.pc (omega (arith, one)) in
          holder_proceeds n s v j (s.pc j) lt refl w
    ]
