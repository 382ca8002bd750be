-- ===== src/Permission/Frame.antt =====
-- Who may read and write depends on the i-nodes and on the blocks of users and groups only.
use student_management_syste.Prelude.{
  ℕ, zero, suc, ◌+◌, ◌<◌, ◌≤◌, ◌≡◌, refl, ap, arith, Bool, true, not, ◌&&◌, ◌==◌, ltb, inl, inr,
  Bool-cases, ltb→lt,
}
use student_management_syste.Snapshot.{Inode, minus_one}
use student_management_syste.System.{Os, is_negative}
use student_management_syste.Loop.{first}
use student_management_syste.Memory.{Memory}
use student_management_syste.Memory.Laws.{short_at-frame}
use student_management_syste.Layout.{
  user_id, user_group, group_id, member, is_admin, user_exists, group_exists,
}
use student_management_syste.Group.{to_short, find_member, check_user_from_group}
use student_management_syste.Permission.{check_read_permission, check_write_permission}

pub first-cong :
    (n i : ℕ) (f g : ℕ → Bool)
    → ((j : ℕ) → i ≤ j → j < i + n → g j ≡ f j)
    → first n i g ≡ first n i f
unfolding first
first-cong zero i f g h = refl
first-cong (suc n) i f g h =
    rw
      (
        h i (omega arith) (omega arith),
        first-cong n (i + 1) f g (λ j p q. h j (omega (arith, p)) (omega (arith, q))),
      )
      refl

group_valid : (m : Memory) (g : ℕ) → group_exists m g ≡ true → g < 16
unfolding group_exists
group_valid m g h = ltb→lt g 16 (ground (arith, h))

-- Two memories with the same first four blocks.
abbrev pub SameTables : Memory → Memory → Type 0
SameTables m n = (x : ℕ) → x < 8192 → n x ≡ m x

module _ (m n : Memory) (same : SameTables m n) where
  pub is_admin-frame : (u : ℕ) → u < 64 → is_admin n u ≡ is_admin m u
  unfolding is_admin user_group
  is_admin-frame u l =
      ap (λ v. v == 0)
        (short_at-frame m n _ _ (same _ (omega (arith, l))) (same _ (omega (arith, l))))

  user_exists-frame : (u : ℕ) → user_exists n u ≡ user_exists m u
  unfolding user_exists user_id
  user_exists-frame u = elim (Bool-cases (ltb u 64)) [
    | inl e ↦
        let l = ltb→lt u 64 e in
        ap (λ v. (not (is_negative u) && ltb u 64) && not (v == minus_one))
          (short_at-frame m n _ _ (same _ (omega (arith, l))) (same _ (omega (arith, l))))
    | inr e ↦ ground (arith, e)
  ]

  group_exists-frame : (g : ℕ) → group_exists n g ≡ group_exists m g
  unfolding group_exists group_id
  group_exists-frame g = elim (Bool-cases (ltb g 16)) [
    | inl e ↦
        let l = ltb→lt g 16 e in
        ap (λ v. (not (is_negative g) && ltb g 16) && not (v == minus_one))
          (short_at-frame m n _ _ (same _ (omega (arith, l))) (same _ (omega (arith, l))))
    | inr e ↦ ground (arith, e)
  ]

  find_member-frame : (g id : ℕ) → g < 16 → find_member n g id ≡ find_member m g id
  unfolding find_member member
  find_member-frame g id l = first-cong 54 0 _ _ λ j p q.
      ap (λ v. v == id)
        (short_at-frame m n _ _ (same _ (omega (arith, l, q))) (same _ (omega (arith, l, q))))

-- Two systems with the same i-nodes, users and groups.
pub record Agrees (s t : Os) : Type 0 where
  pub nodes : t.image.inode_mem ≡ s.image.inode_mem
  pub tables : SameTables s.image.block_mem t.image.block_mem

module _ (s t : Os) (v : Agrees s t) where
  check_user-frame : (u g : ℕ) → check_user_from_group 0 u g t ≡ check_user_from_group 0 u g s
  unfolding check_user_from_group
  check_user-frame u g =
      let m = s.image.block_mem in
      let n = t.image.block_mem in
      let admin = is_admin-frame m n v.tables 0 (omega arith) in
      elim (Bool-cases (group_exists m g)) [
        | inl e ↦
            rw
              (
                admin,
                group_exists-frame m n v.tables g,
                user_exists-frame m n v.tables u,
                find_member-frame m n v.tables g (to_short u) (group_valid m g e),
              )
              refl
        | inr e ↦ rw (admin, group_exists-frame m n v.tables g, e) (ground arith)
      ]

  module _ (exec q : ℕ) (l : exec < 64) where
    pub check_read_permission-frame :
        check_read_permission exec q t ≡ check_read_permission exec q s
    unfolding check_read_permission
    check_read_permission-frame =
        let admin = is_admin-frame s.image.block_mem t.image.block_mem v.tables exec l in
        let node : t.image.inode_mem q ≡ s.image.inode_mem q =
          ap (λ (f : ℕ → Inode). f q) v.nodes in
        rw (admin, node, check_user-frame exec (s.image.inode_mem q).group_id) refl

    pub check_write_permission-frame :
        check_write_permission exec q t ≡ check_write_permission exec q s
    unfolding check_write_permission
    check_write_permission-frame =
        let admin = is_admin-frame s.image.block_mem t.image.block_mem v.tables exec l in
        let node : t.image.inode_mem q ≡ s.image.inode_mem q =
          ap (λ (f : ℕ → Inode). f q) v.nodes in
        rw (admin, node, check_user-frame exec (s.image.inode_mem q).group_id) refl
