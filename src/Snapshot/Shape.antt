-- ===== src/Snapshot/Shape.antt =====
-- The invariant that ties the vector of OS/FileSnapshot.cpp to its three pointers.
use student_management_syste.Prelude.{
  ℕ, ◌+◌, ◌≤◌, ◌≡◌, ◌∙◌, refl, inl, inr, List, [], ◌∷◌, arith, ◌==◌, Bool-cases, ==_iff, length,
  length-append, length-set, get_or-set_self, get_or-set_ne, get_or-append_left, get_or-append_last,
}
use student_management_syste.Snapshot.{
  FileSnapshot, BlockAndInode, tag_entry, entry_at, init, pushcc, pop, revoke_pop,
}

-- The vector holds `topPointer + 1` entries, the pointers stay inside it, and the entry at 0,
-- which stops `revoke`, is the tag that `init` puts there.
pub record IsShaped (s : FileSnapshot) : Type 0 where
  pub size : length s.snapshot_stack ≡ s.top_pointer + 1
  pub now_le : s.now_pointer ≤ s.max_pointer
  pub max_le : s.max_pointer ≤ s.top_pointer
  pub bottom : entry_at s 0 ≡ tag_entry

pub init-IsShaped : IsShaped init
unfolding init
init-IsShaped = record { size = refl; now_le = omega arith; max_le = omega arith; bottom = refl }

-- A push makes the new entry the current one.
pub pushcc_now :
    (s : FileSnapshot) (e : BlockAndInode) → (pushcc s e).now_pointer ≡ s.now_pointer + 1
unfolding pushcc
pushcc_now s e = ground arith

pub pushcc_max :
    (s : FileSnapshot) (e : BlockAndInode) → (pushcc s e).max_pointer ≡ s.now_pointer + 1
unfolding pushcc
pushcc_max s e = ground arith

pub pushcc_top :
    (s : FileSnapshot) (e : BlockAndInode)
    → IsShaped s
    → entry_at (pushcc s e) (s.now_pointer + 1) ≡ e
unfolding pushcc
pushcc_top s e v = elim (Bool-cases (s.now_pointer == s.top_pointer)) [
  | inl q ↦ rw q (
      get_or-append_last s.snapshot_stack e tag_entry (s.now_pointer + 1)
        (omega (arith, (==_iff s.now_pointer s.top_pointer).0 q, v.size)))
  | inr q ↦
      rw q
        (get_or-set_self s.snapshot_stack (s.now_pointer + 1) e tag_entry (ground (arith, v.size)))
]

pub pushcc_below :
    (s : FileSnapshot) (e : BlockAndInode) (i : ℕ)
    → IsShaped s
    → i ≤ s.now_pointer
    → entry_at (pushcc s e) i ≡ entry_at s i
unfolding pushcc
pushcc_below s e i v h = elim (Bool-cases (s.now_pointer == s.top_pointer)) [
  | inl q ↦ rw q (get_or-append_left s.snapshot_stack (e ∷ []) i tag_entry (omega (arith, v.size)))
  | inr q ↦ rw q (get_or-set_ne s.snapshot_stack (s.now_pointer + 1) i e tag_entry (omega arith))
]

pushcc_size :
    (s : FileSnapshot) (e : BlockAndInode)
    → IsShaped s
    → length (pushcc s e).snapshot_stack ≡ (pushcc s e).top_pointer + 1
unfolding pushcc
pushcc_size s e v = elim (Bool-cases (s.now_pointer == s.top_pointer)) [
  | inl q ↦ rw q (omega (arith, v.size, length-append s.snapshot_stack (e ∷ [])))
  | inr q ↦ rw q (omega (arith, v.size, length-set s.snapshot_stack (s.now_pointer + 1) e))
]

pub pushcc-IsShaped : (s : FileSnapshot) (e : BlockAndInode) → IsShaped s → IsShaped (pushcc s e)
unfolding pushcc
pushcc-IsShaped s e v = record {
  size = pushcc_size s e v;
  now_le = ground arith;
  max_le = ground (arith, v.now_le, v.max_le);
  bottom = pushcc_below s e 0 v (omega arith) ∙ v.bottom;
}

pub pop-IsShaped : (s : FileSnapshot) → IsShaped s → IsShaped (pop s).1
unfolding pop
pop-IsShaped s v = record {
  size = ground (arith, v.size);
  now_le = ground (arith, v.now_le);
  max_le = ground (arith, v.max_le);
  bottom = ground (arith, v.bottom);
}

pub revoke_pop-IsShaped : (s : FileSnapshot) → IsShaped s → IsShaped (revoke_pop s).1
unfolding revoke_pop
revoke_pop-IsShaped s v = record {
  size = ground (arith, v.size);
  now_le = ground (arith, v.now_le);
  max_le = ground (arith, v.max_le);
  bottom = ground (arith, v.bottom);
}

-- The calls that the operating system makes on its snapshot.
pub data Call : Type 0 where
  push : BlockAndInode → Call
  pops : Call
  revoke_pops : Call

unfoldable pub step : FileSnapshot → Call → FileSnapshot
step s (push e) = pushcc s e
step s pops = (pop s).1
step s revoke_pops = (revoke_pop s).1

unfoldable pub run : FileSnapshot → List Call → FileSnapshot
unfolding step
run s [] = s
run s (c ∷ cs) = run (step s c) cs

step-IsShaped : (s : FileSnapshot) (c : Call) → IsShaped s → IsShaped (step s c)
unfolding step
step-IsShaped s (push e) v = pushcc-IsShaped s e v
step-IsShaped s pops v = pop-IsShaped s v
step-IsShaped s revoke_pops v = revoke_pop-IsShaped s v

run-IsShaped_from : (s : FileSnapshot) (cs : List Call) → IsShaped s → IsShaped (run s cs)
unfolding run
run-IsShaped_from s [] v = v
run-IsShaped_from s (c ∷ cs) v = run-IsShaped_from (step s c) cs (step-IsShaped s c v)

-- After any calls on an initialised snapshot the vector has one entry more than `topPointer`,
-- `nowPointer <= maxPointer <= topPointer`, and the entry at 0 is still the tag of `init`.
pub run-IsShaped : (cs : List Call) → IsShaped (run init cs)
run-IsShaped cs = run-IsShaped_from init cs init-IsShaped
