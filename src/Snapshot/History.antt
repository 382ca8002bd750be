-- ===== src/Snapshot/History.antt =====
-- The snapshot of OS/FileSnapshot.cpp as an undo history: what is done, and what was revoked.
use native.Mathlib.Numerals.{add-one}
use student_management_syste.Prelude.{
  ℕ, zero, suc, ◌+◌, ◌-◌, ◌≤◌, ◌<◌, ◌≡◌, refl, ap₂, inl, inr, List, [], ◌∷◌, arith, leb, le→ltb,
  Bool-cases, get_or,
}
use student_management_syste.Snapshot.{
  FileSnapshot, BlockAndInode, tag_entry, pushcc, pop, revoke_pop,
}
use student_management_syste.Snapshot.Shape.{
  IsShaped, Call, push, pops, revoke_pops, step, pushcc_top, pushcc_below, pushcc_now, pushcc_max,
}

-- The entries of the vector at `n`, `n - 1`, ..., 0.
abbrev past_from : List BlockAndInode → ℕ → List BlockAndInode
past_from st zero = get_or st 0 tag_entry ∷ []
past_from st (suc n) = get_or st (suc n) tag_entry ∷ past_from st n

-- The `n` entries from `i` on.
abbrev future_from : List BlockAndInode → ℕ → ℕ → List BlockAndInode
future_from st i zero = []
future_from st i (suc n) = get_or st i tag_entry ∷ future_from st (i + 1) n

-- What an undo history is: the entries done, newest first, and those revoked, oldest first.
abbrev pub History : Type 0
History = List BlockAndInode × List BlockAndInode

abbrev view : List BlockAndInode → ℕ → ℕ → History
view st now max = (past_from st now, future_from st (now + 1) (max - now))

unfoldable pub history : FileSnapshot → History
history s = view s.snapshot_stack s.now_pointer s.max_pointer

-- An undo moves the last entry done to the revoked ones, but never the bottom; a redo takes the
-- first one back; and a new entry forgets what was revoked.
abbrev pub abstract_step : History → Call → History
abstract_step (ds, fs) (push e) = (e ∷ ds, [])
abstract_step (e ∷ d ∷ ds, fs) pops = (d ∷ ds, e ∷ fs)
abstract_step (e ∷ [], fs) pops = (e ∷ [], fs)
abstract_step ([], fs) pops = ([], fs)
abstract_step (ds, e ∷ fs) revoke_pops = (e ∷ ds, fs)
abstract_step (ds, []) revoke_pops = (ds, [])

past_from-eq :
    (st tt : List BlockAndInode) (n : ℕ)
    → ((i : ℕ) → i ≤ n → get_or tt i tag_entry ≡ get_or st i tag_entry)
    → past_from tt n ≡ past_from st n
past_from-eq st tt zero h = rw (h 0 (omega arith))
past_from-eq st tt (suc n) h =
    ap₂ ◌∷◌ (h (suc n) (omega arith)) (past_from-eq st tt n (λ i le. h i (omega arith)))

future_from-suc :
    (st : List BlockAndInode) (i j k n : ℕ)
    → i ≡ j
    → k ≡ suc n
    → future_from st i k ≡ get_or st j tag_entry ∷ future_from st (j + 1) n
future_from-suc st i j k n p q = rw (p, q)

past_from-suc :
    (st : List BlockAndInode) (n : ℕ)
    → past_from st (n + 1) ≡ get_or st (n + 1) tag_entry ∷ past_from st n
past_from-suc st n = rw add-one

future_from-zero : (st : List BlockAndInode) (i k : ℕ) → k ≡ 0 → future_from st i k ≡ []
future_from-zero st i k e = rw e

view-pop :
    (st : List BlockAndInode) (n max : ℕ)
    → suc n ≤ max
    → view st n max ≡ abstract_step (view st (suc n) max) pops
view-pop st zero max h =
    ap₂ (λ a b. (a, b)) refl (future_from-suc st 1 1 (max - 0) (max - 1) refl (omega arith))
view-pop st (suc n) max h =
    ap₂ (λ a b. (a, b)) refl
      (future_from-suc st (suc n + 1) (suc (suc n)) (max - suc n) (max - suc (suc n)) (omega arith)
        (omega arith))

view-revoke_pop :
    (st : List BlockAndInode) (n max : ℕ)
    → n < max
    → view st (n + 1) max ≡ abstract_step (view st n max) revoke_pops
view-revoke_pop st n max h = rw (
  past_from-suc st n,
  future_from-suc st (n + 1) (n + 1) (max - n) (max - (n + 1)) refl (omega arith),
)

past_from-push :
    (st tt : List BlockAndInode) (e : BlockAndInode) (n m : ℕ)
    → m ≡ n + 1
    → get_or tt (n + 1) tag_entry ≡ e
    → ((i : ℕ) → i ≤ n → get_or tt i tag_entry ≡ get_or st i tag_entry)
    → past_from tt m ≡ e ∷ past_from st n
past_from-push st tt e n m p q h = rw (p, past_from-suc tt n, q, past_from-eq st tt n h)

history-pushcc :
    (s : FileSnapshot) (e : BlockAndInode)
    → IsShaped s
    → history (pushcc s e) ≡ abstract_step (history s) (push e)
unfolding history
history-pushcc s e v =
    ap₂ (λ a b. (a, b))
      (past_from-push s.snapshot_stack (pushcc s e).snapshot_stack e s.now_pointer _
        (pushcc_now s e) (pushcc_top s e v) (λ i. pushcc_below s e i v))
      (future_from-zero (pushcc s e).snapshot_stack _ _
        (omega (arith, pushcc_now s e, pushcc_max s e)))

pop_cases :
    (st : List BlockAndInode) (now top max : ℕ)
    → now ≤ max
    → let s : FileSnapshot = record {
      snapshot_stack = st;
      now_pointer = now;
      top_pointer = top;
      max_pointer = max;
    } in
      history (pop s).1 ≡ abstract_step (history s) pops
unfolding history pop
pop_cases st zero top max h = refl
pop_cases st (suc n) top max h =
    let e : suc n - 1 ≡ n = omega arith in
    rw (le→ltb (suc n) 1 (omega arith), e) (view-pop st n max h)

history-revoke_pop :
    (s : FileSnapshot)
    → IsShaped s
    → history (revoke_pop s).1 ≡ abstract_step (history s) revoke_pops
unfolding history revoke_pop
history-revoke_pop s v = elim (Bool-cases (leb s.max_pointer s.now_pointer)) [
  | inl e ↦
      let f =
        future_from-zero s.snapshot_stack (s.now_pointer + 1) (s.max_pointer - s.now_pointer)
          (ground arith) in
      rw (e, f) refl
  | inr e ↦ rw e (view-revoke_pop s.snapshot_stack s.now_pointer s.max_pointer (ground arith))
]

-- The stack with its pointers behaves as an undo history under every call.
pub history-step :
    (s : FileSnapshot) (c : Call) → IsShaped s → history (step s c) ≡ abstract_step (history s) c
unfolding step
history-step s (push e) v = history-pushcc s e v
history-step s pops v =
    pop_cases s.snapshot_stack s.now_pointer s.top_pointer s.max_pointer v.now_le
history-step s revoke_pops v = history-revoke_pop s v
