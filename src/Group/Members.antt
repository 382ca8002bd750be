-- ===== src/Group/Members.antt =====
-- The members of a group: OS/OperatingSystem.cpp, `addUserToGroup`, `deleteUserFromGroup` and
-- `checkUserFromGroup`.
use native.Mathlib.Decide.{dec_lt}
use student_management_syste.Prelude.{
  ℕ, ◌+◌, ◌<◌, ◌≡◌, ◌≢◌, refl, sym, ap, subst, ◌∙◌, true, false, ◌⊎◌, inl, inr, some, arith, ◌==◌,
  eq→==,
}
use student_management_syste.Snapshot.{minus_one}
use student_management_syste.System.{Image, Os}
use student_management_syste.Journal.{push_block_and_inode}
use student_management_syste.Journal.Keeps.{push_image}
use student_management_syste.Loop.{first-none, first-cases, IsFirst}
use student_management_syste.Memory.{Memory, short_at, put_short}
use student_management_syste.Memory.Laws.{short_at-frame, short_at-put_short, put_short_off}
use student_management_syste.Layout.{
  user_addr, group_addr, member_addr, member, is_admin, user_exists, group_exists, with_memory,
}
use student_management_syste.Group.{to_short, find_member, add_user_to_group, check_user_from_group}

pub to_short-small : (u : ℕ) → u < 64 → to_short u ≡ u
unfolding to_short
to_short-small u h = ground arith

-- A member entry is written: what is elsewhere in the user and group blocks stays.
module _ (m : Memory) (g j v : ℕ) (g_small : g < 16) (j_small : j < 54) where
  unfoldable pub entered : Memory
  entered = put_short m (member_addr g j) v

  entered_short :
      (a : ℕ)
      → (a + 1 < member_addr g j) ⊎ (member_addr g j + 1 < a)
      → short_at entered a ≡ short_at m a
  unfolding entered
  entered_short a (inl h) =
      short_at-frame m entered a a
        (put_short_off m (member_addr g j) v a (omega arith) (omega arith))
        (put_short_off m (member_addr g j) v (a + 1) (omega arith) (omega arith))
  entered_short a (inr h) =
      short_at-frame m entered a a
        (put_short_off m (member_addr g j) v a (omega arith) (omega arith))
        (put_short_off m (member_addr g j) v (a + 1) (omega arith) (omega arith))

  pub entered-is_admin : (exec : ℕ) → exec < 64 → is_admin entered exec ≡ is_admin m exec
  unfolding is_admin
  entered-is_admin exec h =
      ap (λ x. x == 0) (entered_short (user_addr exec + 30) (inl (omega arith)))

  pub entered-user_exists : (u : ℕ) → u < 64 → user_exists entered u ≡ user_exists m u
  unfolding user_exists
  entered-user_exists u h = rw (entered_short (user_addr u + 28) (inl (omega arith))) refl

  pub entered-group_exists : group_exists entered g ≡ group_exists m g
  unfolding group_exists
  entered-group_exists = rw (entered_short (group_addr g + 20) (inl (omega arith))) refl

  pub entered-member_ne : (k : ℕ) → k ≢ j → member entered g k ≡ member m g k
  unfolding member
  entered-member_ne k h = elim (dec_lt k j) [
    | yes p ↦ entered_short (member_addr g k) (inl (omega arith))
    | no p ↦ entered_short (member_addr g k) (inr (omega arith))
  ]

  pub entered-member_self : v < 0x8000 → member entered g j ≡ v
  unfolding member entered
  entered-member_self h = short_at-put_short m (member_addr g j) v ∙ ground arith

pub lt_of_user_exists : (m : Memory) (u : ℕ) → user_exists m u ≡ true → u < 64
unfolding user_exists
lt_of_user_exists m u h = ground arith

pub lt_of_group_exists : (m : Memory) (g : ℕ) → group_exists m g ≡ true → g < 16
unfolding group_exists
lt_of_group_exists m g h = ground arith

pub find_member-exists :
    (m : Memory) (g k id : ℕ)
    → k < 54
    → member m g k ≡ id
    → (i : ℕ) × (find_member m g id ≡ some i) × IsFirst 54 0 i (λ j. member m g j == id)
unfolding find_member
find_member-exists m g k id lt e = elim (first-cases 54 0 (λ j. member m g j == id)) [
  | inl q ↦ absurd (
      true_ne_false (
        sym (eq→== (member m g k) id e)
        ∙ first-none 54 0 k (λ j. member m g j == id) q (omega arith) (omega arith)))
  | inr r ↦ r
]
  where
    true_ne_false : true ≡ false → ⊥
    true_ne_false e = cc

-- A user who stands in the group is found there.
check_user_from_group-member :
    (exec u g k : ℕ) (s : Os)
    → is_admin s.image.block_mem exec ≡ true
    → group_exists s.image.block_mem g ≡ true
    → user_exists s.image.block_mem u ≡ true
    → k < 54
    → member s.image.block_mem g k ≡ u
    → check_user_from_group exec u g s ≡ true
unfolding check_user_from_group
check_user_from_group-member exec u g k s admin ge ue lt e =
    let small = to_short-small u (lt_of_user_exists s.image.block_mem u ue) in
    let (i, q, _) = find_member-exists s.image.block_mem g k (to_short u) lt (e ∙ sym small) in
    rw (admin, ge, ue, q) refl

pub add_user_to_group_lem :
    (exec u g j : ℕ) (s : Os)
    → is_admin s.image.block_mem exec ≡ true
    → group_exists s.image.block_mem g ≡ true
    → user_exists s.image.block_mem u ≡ true
    → find_member s.image.block_mem g minus_one ≡ some j
    → add_user_to_group exec u g s ≡ (
      true,
      with_memory
          (push_block_and_inode 2 2 s)
          (put_short s.image.block_mem (member_addr g j) (to_short u)),
    )
unfolding add_user_to_group
add_user_to_group_lem exec u g j s admin ge ue free =
    let e = ap (λ (im : Image). im.block_mem) (push_image 2 2 s) in
    rw
      (
        subst (λ m. is_admin m exec ≡ true) (sym e) admin,
        subst (λ m. group_exists m g ≡ true) (sym e) ge,
        subst (λ m. user_exists m u ≡ true) (sym e) ue,
        subst (λ m. find_member m g minus_one ≡ some j) (sym e) free,
      )
      (ap
        (λ m. (
          true,
          with_memory (push_block_and_inode 2 2 s) (put_short m (member_addr g j) (to_short u)),
        ))
        e)

-- After an administrator added an existing user to an existing group with an empty entry, the call
-- has returned true, the user is found in the group, and no byte outside one entry of the group's
-- member list has changed.
pub add_user_to_group-check :
    (exec u g k : ℕ) (s : Os)
    → exec < 64
    → is_admin s.image.block_mem exec ≡ true
    → group_exists s.image.block_mem g ≡ true
    → user_exists s.image.block_mem u ≡ true
    → k < 54
    → member s.image.block_mem g k ≡ minus_one
    → (t : Os) × (j : ℕ) × (add_user_to_group exec u g s ≡ (true, t))
      × (check_user_from_group exec u g t ≡ true)
      × (j < 54)
      × ((x : ℕ)
          → x ≢ member_addr g j
          → x ≢ member_addr g j + 1
          → t.image.block_mem x ≡ s.image.block_mem x)
unfolding entered
add_user_to_group-check exec u g k s es admin ge ue lt free =
    let m = s.image.block_mem in
    let us = lt_of_user_exists m u ue in
    let gs = lt_of_group_exists m g ge in
    let (j, q, v) = find_member-exists m g k minus_one lt free in
    let n = entered m g j (to_short u) gs v.lt in
    (
      with_memory (push_block_and_inode 2 2 s) n,
      j,
      add_user_to_group_lem exec u g j s admin ge ue q,
      check_user_from_group-member exec u g j (with_memory (push_block_and_inode 2 2 s) n)
          (entered-is_admin m g j (to_short u) gs v.lt exec es ∙ admin)
          (entered-group_exists m g j (to_short u) gs v.lt ∙ ge)
          (entered-user_exists m g j (to_short u) gs v.lt u us ∙ ue) v.lt
          (entered-member_self m g j (to_short u) gs v.lt (omega (arith, to_short-small u us))
            ∙ to_short-small u us),
      v.lt,
      λ x p q. put_short_off m (member_addr g j) (to_short u) x p q,
    )
