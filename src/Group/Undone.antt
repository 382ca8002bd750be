-- ===== src/Group/Undone.antt =====
-- Adding a user to a group and taking the user out again: OS/OperatingSystem.cpp,
-- `addUserToGroup` and `deleteUserFromGroup`.
use student_management_syste.Prelude.{
  ℕ, ◌+◌, ◌<◌, ◌≡◌, sym, ap, subst, ◌∙◌, true, false, inl, inr, none, some, arith, ◌==◌, ==_iff,
  Option-cases,
}
use student_management_syste.Snapshot.{minus_one}
use student_management_syste.System.{Image, Os}
use student_management_syste.Journal.{push_block_and_inode}
use student_management_syste.Journal.Keeps.{push_image}
use student_management_syste.Loop.{first-none, first-IsFirst}
use student_management_syste.Memory.{Memory, short_at, put_short}
use student_management_syste.Layout.{
  member_addr, member, is_admin, user_exists, group_exists, with_memory,
}
use student_management_syste.Group.{
  to_short, find_member, add_user_to_group, delete_user_from_group, check_user_from_group,
}
use student_management_syste.Group.Members.{
  to_short-small, lt_of_user_exists, lt_of_group_exists, entered, entered-is_admin,
  entered-user_exists, entered-group_exists, entered-member_ne, entered-member_self,
  find_member-exists, add_user_to_group_lem,
}

-- A `short` that reads as -1 is two bytes 0xff.
bytes_of_minus_one :
    (m : Memory) (a : ℕ)
    → m a < 256
    → m (a + 1) < 256
    → short_at m a ≡ minus_one
    → (m a ≡ 255) × (m (a + 1) ≡ 255)
unfolding short_at
bytes_of_minus_one m a p q h = ground arith

put_short-back :
    (m : Memory) (a v x : ℕ)
    → m a < 256
    → m (a + 1) < 256
    → short_at m a ≡ minus_one
    → put_short (put_short m a v) a minus_one x ≡ m x
unfolding put_short
put_short-back m a v x p q h = let b = bytes_of_minus_one m a p q h in ground (arith, b)

not_found :
    (exec u g : ℕ) (s : Os)
    → is_admin s.image.block_mem exec ≡ true
    → group_exists s.image.block_mem g ≡ true
    → user_exists s.image.block_mem u ≡ true
    → check_user_from_group exec u g s ≡ false
    → find_member s.image.block_mem g (to_short u) ≡ none
unfolding check_user_from_group
not_found exec u g s admin ge ue h =
    elim (Option-cases (find_member s.image.block_mem g (to_short u))) [
      | inl e ↦ e
      | inr (j, e) ↦ ground arith
    ]

delete_user_from_group_lem :
    (exec u g j : ℕ) (s : Os)
    → is_admin s.image.block_mem exec ≡ true
    → group_exists s.image.block_mem g ≡ true
    → user_exists s.image.block_mem u ≡ true
    → find_member s.image.block_mem g (to_short u) ≡ some j
    → delete_user_from_group exec u g s ≡ (
      true,
      with_memory
          (push_block_and_inode 2 2 s)
          (put_short s.image.block_mem (member_addr g j) minus_one),
    )
unfolding delete_user_from_group
delete_user_from_group_lem exec u g j s admin ge ue found =
    let e = ap (λ (im : Image). im.block_mem) (push_image 2 2 s) in
    rw
      (
        subst (λ m. is_admin m exec ≡ true) (sym e) admin,
        subst (λ m. group_exists m g ≡ true) (sym e) ge,
        subst (λ m. user_exists m u ≡ true) (sym e) ue,
        subst (λ m. find_member m g (to_short u) ≡ some j) (sym e) found,
      )
      (ap
        (λ m. (
          true,
          with_memory (push_block_and_inode 2 2 s) (put_short m (member_addr g j) minus_one),
        ))
        e)

-- The entry where the user was put is the first that holds the user.
find_member-entered :
    (m : Memory) (g u j : ℕ) (gs : g < 16) (lt : j < 54)
    → u < 64
    → find_member m g (to_short u) ≡ none
    → find_member (entered m g j (to_short u) gs lt) g (to_short u) ≡ some j
unfolding find_member
find_member-entered m g u j gs lt us new = first-IsFirst 54 0 j _ (record {
  passes =
      (==_iff _ _).1
        (entered-member_self m g j (to_short u) gs lt (omega (arith, to_short-small u us)));
  ge = omega arith;
  lt = lt;
  before = λ k p q.
      ap (λ x. x == to_short u) (entered-member_ne m g j (to_short u) gs lt k (omega arith))
      ∙ first-none 54 0 k (λ i. member m g i == to_short u) new p (omega arith);
})

-- An administrator who adds an existing user, who is not in the group yet, to an existing group
-- with an empty entry, and then takes the user out again, gets true both times, and every byte of
-- the memory is back as it was.
pub delete_user_from_group-add_user_to_group :
    (exec u g k : ℕ) (s : Os)
    → exec < 64
    → ((x : ℕ) → s.image.block_mem x < 256)
    → is_admin s.image.block_mem exec ≡ true
    → group_exists s.image.block_mem g ≡ true
    → user_exists s.image.block_mem u ≡ true
    → k < 54
    → member s.image.block_mem g k ≡ minus_one
    → check_user_from_group exec u g s ≡ false
    → (t w : Os) × (add_user_to_group exec u g s ≡ (true, t))
      × (delete_user_from_group exec u g t ≡ (true, w))
      × ((x : ℕ) → w.image.block_mem x ≡ s.image.block_mem x)
unfolding entered member
delete_user_from_group-add_user_to_group exec u g k s es bytes admin ge ue lt free new =
    let m = s.image.block_mem in
    let us = lt_of_user_exists m u ue in
    let gs = lt_of_group_exists m g ge in
    let (j, q, v) = find_member-exists m g k minus_one lt free in
    let n = entered m g j (to_short u) gs v.lt in
    let t = with_memory (push_block_and_inode 2 2 s) n in
    (
      t,
      with_memory (push_block_and_inode 2 2 t) (put_short n (member_addr g j) minus_one),
      add_user_to_group_lem exec u g j s admin ge ue q,
      delete_user_from_group_lem exec u g j t
          (entered-is_admin m g j (to_short u) gs v.lt exec es ∙ admin)
          (entered-group_exists m g j (to_short u) gs v.lt ∙ ge)
          (entered-user_exists m g j (to_short u) gs v.lt u us ∙ ue)
          (find_member-entered m g u j gs v.lt us (not_found exec u g s admin ge ue new)),
      λ x.
          put_short-back m (member_addr g j) (to_short u) x (bytes _) (bytes _)
            ((==_iff (member m g j) minus_one).0 v.passes),
    )
