-- ===== src/Group/Overlap.antt =====
-- OS/OperatingSystem.h: a `GroupBlock` is 16 * 130 = 2080 bytes, 32 more than its block, so that the
-- end of the last group lies on the first record of the `PasswordBlock` behind it.
use native.Mathlib.Decide.{dec_lt}
use student_management_syste.Prelude.{
  ℕ, zero, suc, ◌+◌, ◌*◌, ◌≤◌, ◌<◌, ◌≡◌, ◌≢◌, refl, sym, ap, subst, ◌∙◌, true, false, ◌⊎◌, inl, inr,
  none, some, arith, ◌==◌, le→ltb, [], ◌∷◌, Bytes, length, get_or,
}
use student_management_syste.Snapshot.{minus_one}
use student_management_syste.System.{Image, Os}
use student_management_syste.Journal.{push_block_and_inode}
use student_management_syste.Journal.Keeps.{push_image}
use student_management_syste.Loop.{first, first-IsFirst, IsFirst}
use student_management_syste.Memory.{Memory, c_str, short_at, put_short, memcpy, name_eq}
use student_management_syste.Memory.Laws.{
  length-c_str, strcpy_off, memcpy_off, memcpy_at, name_eq-frame, short_at-frame,
  short_at-put_short, put_short_off,
}
use student_management_syste.Layout.{
  user_addr, password_addr, group_addr, group_id, group_named, is_named, is_admin, with_memory,
}
use student_management_syste.User.{login_systems}
use student_management_syste.Group.{clear_members, local_group, create_group}

put_short-minus_one :
    (m : Memory) (a x : ℕ) → (x ≡ a) ⊎ (x ≡ a + 1) → put_short m a minus_one x ≡ 255
unfolding put_short
put_short-minus_one m a x (inl h) = ground arith
put_short-minus_one m a x (inr h) = ground arith

clear_members_off :
    (n i : ℕ) (m : Memory) (a x : ℕ) → x < a + 22 + 2 * i → clear_members n i m a x ≡ m x
unfolding clear_members
clear_members_off zero i m a x h = refl
clear_members_off (suc n) i m a x h =
    clear_members_off n (i + 1) (put_short m (a + 22 + 2 * i) minus_one) a x (omega arith)
    ∙ put_short_off m (a + 22 + 2 * i) minus_one x (omega arith) (omega arith)

clear_members_at :
    (n i : ℕ) (m : Memory) (a x : ℕ)
    → a + 22 + 2 * i ≤ x
    → x < a + 22 + 2 * (i + n)
    → clear_members n i m a x ≡ 255
unfolding clear_members
clear_members_at zero i m a x p q = absurd (omega arith)
clear_members_at (suc n) i m a x p q = elim (dec_lt x (a + 22 + 2 * (i + 1))) [
  | yes h ↦
      clear_members_off n (i + 1) (put_short m (a + 22 + 2 * i) minus_one) a x h
      ∙ put_short-minus_one m (a + 22 + 2 * i) x (omega arith)
  | no h ↦
      clear_members_at n (i + 1) (put_short m (a + 22 + 2 * i) minus_one) a x (omega arith)
        (omega arith)
]

module _ (junk : Memory) (g : ℕ) (name : Bytes) (fits : length name < 20) where
  local_group-id : g < 16 → short_at (local_group junk g name) 20 ≡ g
  unfolding local_group
  local_group-id h =
      short_at-frame (put_short junk 20 g) (local_group junk g name) 20 20
        (strcpy_off _ 0 name 20 (inr (omega arith))
          ∙ clear_members_off 54 0 (put_short junk 20 g) 0 20 (omega arith))
        (strcpy_off _ 0 name 21 (inr (omega arith))
          ∙ clear_members_off 54 0 (put_short junk 20 g) 0 21 (omega arith))
      ∙ short_at-put_short junk 20 g
      ∙ ground arith

  local_group-member : (x : ℕ) → 22 ≤ x → x < 130 → local_group junk g name x ≡ 255
  unfolding local_group
  local_group-member x p q =
      strcpy_off _ 0 name x (inr (omega arith))
      ∙ clear_members_at 54 0 (put_short junk 20 g) 0 x (omega arith) (omega arith)

create_group_lem :
    (junk : Memory) (exec g : ℕ) (name : Bytes) (s : Os)
    → is_admin s.image.block_mem exec ≡ true
    → first 16 0 (group_named s.image.block_mem name) ≡ none
    → first 16 0 (λ i. group_id s.image.block_mem i == minus_one) ≡ some g
    → g < 16
    → length name < 20
    → create_group junk exec name s
      ≡ some (
        g,
        with_memory
            (push_block_and_inode 2 2 s)
            (memcpy s.image.block_mem (group_addr g) (local_group junk g name) 0 130),
      )
unfolding create_group
create_group_lem junk exec g name s admin fresh free small fits =
    let e = ap (λ (im : Image). im.block_mem) (push_image 2 2 s) in
    rw
      (
        subst (λ m. is_admin m exec ≡ true) (sym e) admin,
        subst (λ m. first 16 0 (group_named m name) ≡ none) (sym e) fresh,
        subst (λ m. first 16 0 (λ i. group_id m i == minus_one) ≡ some g) (sym e) free,
        local_group-id junk g name fits small,
        le→ltb 129 (length (c_str name)) (omega (arith, length-c_str name)),
        le→ltb 0x7fff_ffff g (omega arith),
      )
      (ap
        (λ m. some (
          g,
          with_memory (push_block_and_inode 2 2 s)
              (memcpy m (group_addr g) (local_group junk g name) 0 130),
        ))
        e)

name_eq_of_ff :
    (m : Memory) (a : ℕ) (s : Bytes) → m a ≡ 255 → get_or s 0 0 ≢ 255 → name_eq m a s ≡ false
unfolding name_eq
name_eq_of_ff m a [] h ne = ground arith
name_eq_of_ff m a (c ∷ cs) h ne = ground arith

login_systems-eq-false :
    (s : Os) (i : ℕ) (name password : Bytes)
    → IsFirst 64 0 i (is_named s.image.block_mem name)
    → name_eq s.image.block_mem (password_addr i + 2) password ≡ false
    → login_systems name password s ≡ false
unfolding login_systems
login_systems-eq-false s i name password v h = rw (first-IsFirst 64 0 i _ v, login_systems) h

-- A group that `createGroup` puts into the last slot, 15, destroys the password of user 0: all 32
-- bytes of that record become 0xff, and no password whose first byte is not 0xff lets user 0, the
-- first with that name, log in.
pub create_group_overwrites_password :
    (junk : Memory) (exec : ℕ) (group user : Bytes) (s : Os)
    → is_admin s.image.block_mem exec ≡ true
    → first 16 0 (group_named s.image.block_mem group) ≡ none
    → first 16 0 (λ i. group_id s.image.block_mem i == minus_one) ≡ some 15
    → length group < 20
    → is_named s.image.block_mem user 0 ≡ true
    → length user < 28
    → (t : Os) × (create_group junk exec group s ≡ some (15, t))
      × ((k : ℕ) → k < 32 → t.image.block_mem (password_addr 0 + k) ≡ 255)
      × ((password : Bytes) → get_or password 0 0 ≢ 255 → login_systems user password t ≡ false)
unfolding is_named
create_group_overwrites_password junk exec group user s admin fresh free fits named short = (
  t,
  create_group_lem junk exec 15 group s admin fresh free (omega arith) fits,
  wiped,
  λ password ne.
      login_systems-eq-false t 0 user password still_named
        (name_eq_of_ff t.image.block_mem (password_addr 0 + 2) password (wiped 2 (omega arith)) ne),
)
  where
    local : Memory
    local = local_group junk 15 group

    t : Os
    t =
        with_memory (push_block_and_inode 2 2 s)
          (memcpy s.image.block_mem (group_addr 15) local 0 130)

    wiped : (k : ℕ) → k < 32 → t.image.block_mem (password_addr 0 + k) ≡ 255
    wiped k lt =
        ap t.image.block_mem (place k)
        ∙ memcpy_at s.image.block_mem (group_addr 15) local 0 130 (98 + k) (omega arith)
        ∙ local_group-member junk 15 group fits (0 + (98 + k)) (omega arith) (omega arith)
      where
        place : (k : ℕ) → password_addr 0 + k ≡ group_addr 15 + (98 + k)
        place k = omega arith

    still_named : IsFirst 64 0 0 (is_named t.image.block_mem user)
    still_named = record {
      passes =
          name_eq-frame s.image.block_mem t.image.block_mem (user_addr 0) (user_addr 0) user
            (λ k le.
              memcpy_off s.image.block_mem (group_addr 15) local 0 130 (user_addr 0 + k)
                (inl (omega arith)))
          ∙ named;
      ge = omega arith;
      lt = omega arith;
      before = λ j p q. absurd (omega arith);
    }
