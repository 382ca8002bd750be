-- ===== src/Permission/Granted.antt =====
-- What the permission tests of OS/OperatingSystem.cpp grant, in words of a user's roles.
use student_management_syste.Prelude.{
  ℕ, ◌/◌, ◌%◌, ◌^◌, ◌≡◌, ◌⊎◌, inl, inr, ◌↔◌, refl, Bool, true, false, ◌&&◌, arith, ◌==◌, eq→==,
  if◌then◌else◌,
}
use student_management_syste.Snapshot.{Inode}
use student_management_syste.System.{Os}
use student_management_syste.Layout.{is_admin}
use student_management_syste.Group.{check_user_from_group}
use student_management_syste.Permission.{
  mask, differs, check_read_permission, check_write_permission, check_execute_permission,
}

-- Bit k of a permission byte.
abbrev pub HasBit : ℕ → ℕ → Type 0
HasBit k permission = permission / 2 ^ k % 2 ≡ 1

-- The caller is an administrator, or owns the i-node and its owner's bit is set, or is in its group
-- and the group's bit is set, or the bit for all others is set.
abbrev pub Granted : ℕ → ℕ → ℕ → Os → Type 0
Granted k exec inode s =
    (is_admin s.image.block_mem exec ≡ true)
    ⊎ ((exec ≡ (s.image.inode_mem inode).user_id)
        × HasBit k (s.image.inode_mem inode).owner_permission)
    ⊎ ((check_user_from_group 0 exec (s.image.inode_mem inode).group_id s ≡ true)
        × HasBit k (s.image.inode_mem inode).group_permission)
    ⊎ HasBit k (s.image.inode_mem inode).other_permission

ladder : Bool → Bool → Bool → Bool → Bool
ladder a b c d = if a then true else if b then true else if c then true else d

ladder_split :
    (a b c d : Bool) → ladder a b c d ≡ true → (a ≡ true) ⊎ (b ≡ true) ⊎ (c ≡ true) ⊎ (d ≡ true)
unfolding ladder
ladder_split true b c d h = inl refl
ladder_split false true c d h = inr (inl refl)
ladder_split false false true d h = inr (inr (inl refl))
ladder_split false false false d h = inr (inr (inr h))

ladder_join :
    (a b c d : Bool) → (a ≡ true) ⊎ (b ≡ true) ⊎ (c ≡ true) ⊎ (d ≡ true) → ladder a b c d ≡ true
unfolding ladder
ladder_join a b c d h = ground arith

differs-mask_zero : (p : ℕ) → (differs (mask p 0) ≡ true) ↔ HasBit 0 p
differs-mask_zero p = (λ h. ground arith, λ h. ground arith)

differs-mask_one : (p : ℕ) → (differs (mask p 1) ≡ true) ↔ HasBit 1 p
differs-mask_one p = (λ h. ground arith, λ h. ground arith)

module _ (k exec inode : ℕ) (s : Os) where
  node : Inode
  node = s.image.inode_mem inode

  admin : Bool
  admin = is_admin s.image.block_mem exec

  own : Bool
  unfolding node
  own = exec == node.user_id && differs (mask node.owner_permission k)

  in_group : Bool
  unfolding node
  in_group = check_user_from_group 0 exec node.group_id s && differs (mask node.group_permission k)

  others : Bool
  unfolding node
  others = differs (mask node.other_permission k)

  -- The shared shape of the two tests.
  test : Bool
  unfolding admin own in_group others
  test = ladder admin own in_group others

  module _ (bit : (p : ℕ) → (differs (mask p k) ≡ true) ↔ HasBit k p) where
    test-Granted : test ≡ true → Granted k exec inode s
    unfolding test node admin own in_group others
    test-Granted h = elim (ladder_split admin own in_group others h) [
      | inl a ↦ inl a
      | inr (inl b) ↦
          let e : differs (mask node.owner_permission k) ≡ true = ground arith in
          inr (inl (ground arith, (bit node.owner_permission).0 e))
      | inr (inr (inl c)) ↦
          let e : differs (mask node.group_permission k) ≡ true = ground arith in
          inr (inr (inl (ground arith, (bit node.group_permission).0 e)))
      | inr (inr (inr d)) ↦ inr (inr (inr ((bit node.other_permission).0 d)))
    ]

    Granted-test : Granted k exec inode s → test ≡ true
    unfolding test node admin own in_group others
    Granted-test (inl a) = ladder_join admin own in_group others (inl a)
    Granted-test (inr (inl (a, b))) =
        let e = (bit node.owner_permission).1 b in
        ladder_join admin own in_group others
          (inr (inl (rw (a, eq→== node.user_id node.user_id refl, e))))
    Granted-test (inr (inr (inl (a, b)))) =
        let e = (bit node.group_permission).1 b in
        ladder_join admin own in_group others (inr (inr (inl (rw (a, e)))))
    Granted-test (inr (inr (inr d))) =
        ladder_join admin own in_group others (inr (inr (inr ((bit node.other_permission).1 d))))

-- Reading is allowed exactly to those to whom bit 0 is granted, and writing exactly to those to
-- whom bit 1 is granted.
pub check_permission_iff :
    (exec inode : ℕ) (s : Os)
    → ((check_read_permission exec inode s ≡ true) ↔ Granted 0 exec inode s)
      × ((check_write_permission exec inode s ≡ true) ↔ Granted 1 exec inode s)
unfolding check_read_permission check_write_permission test ladder node admin own in_group others
check_permission_iff exec inode s = (
  (test-Granted 0 exec inode s differs-mask_zero, Granted-test 0 exec inode s differs-mask_zero),
  (test-Granted 1 exec inode s differs-mask_one, Granted-test 1 exec inode s differs-mask_one),
)

-- Executing is allowed to nobody, administrators and owners with the bit set included.
pub check_execute_permission-false :
    (exec inode : ℕ) (s : Os) → check_execute_permission exec inode s ≡ false
unfolding check_execute_permission
check_execute_permission-false exec inode s = ground arith
