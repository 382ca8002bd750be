-- ===== src/User/Manage.antt =====
-- Deleting and changing users: OS/OperatingSystem.cpp, `deleteUser`, `modifyUserPassword` and the
-- like.
use student_management_syste.Prelude.{
  ℕ, ◌+◌, ◌≤◌, ◌<◌, ◌≡◌, sym, ap, subst, ◌∙◌, true, ◌⊎◌, inl, inr, Bytes, arith, length,
}
use student_management_syste.System.{Image, Os}
use student_management_syste.Journal.{push_block_and_inode}
use student_management_syste.Journal.Keeps.{push_image}
use student_management_syste.Loop.{IsFirst}
use student_management_syste.Memory.{Memory, strcpy}
use student_management_syste.Memory.Laws.{
  no_nul, strcpy_off, strcpy_at, name_eq-holds, name_eq-frame,
}
use student_management_syste.Layout.{
  user_addr, password_addr, is_named, is_admin, user_exists, with_memory,
}
use student_management_syste.User.{login_systems, modify_user_password}
use student_management_syste.User.Create.{login_systems-IsFirst}

-- The memory with a new password in slot `u`: the names are where they were.
module _ (m : Memory) (u : ℕ) (password : Bytes) (small : u < 64)
    (fits : length password < 30) where
  changed : Memory
  changed = strcpy m (password_addr u + 2) password

  changed-is_named :
      (name : Bytes) (j : ℕ)
      → j < 64
      → length name < 28
      → is_named changed name j ≡ is_named m name j
  unfolding is_named changed
  changed-is_named name j h short =
      name_eq-frame m changed (user_addr j) (user_addr j) name
        λ k le. strcpy_off m (password_addr u + 2) password (user_addr j + k) (inl (omega arith))

  changed_off : (x : ℕ) → (x < password_addr u + 2) ⊎ (password_addr u + 32 ≤ x) → changed x ≡ m x
  unfolding changed
  changed_off x (inl h) = strcpy_off m (password_addr u + 2) password x (inl h)
  changed_off x (inr h) = strcpy_off m (password_addr u + 2) password x (inr (omega arith))

modify_user_password_lem :
    (exec u : ℕ) (password : Bytes) (s : Os)
    → is_admin s.image.block_mem exec ≡ true
    → user_exists s.image.block_mem u ≡ true
    → modify_user_password exec u password s ≡ (
      true,
      with_memory
          (push_block_and_inode 3 3 s)
          (strcpy s.image.block_mem (password_addr u + 2) password),
    )
unfolding modify_user_password
modify_user_password_lem exec u password s admin exists =
    let e = ap (λ (im : Image). im.block_mem) (push_image 3 3 s) in
    rw
      (
        subst (λ m. is_admin m exec ≡ true) (sym e) admin,
        subst (λ m. user_exists m u ≡ true) (sym e) exists,
      )
      (ap
        (λ m. (
          true,
          with_memory (push_block_and_inode 3 3 s) (strcpy m (password_addr u + 2) password),
        ))
        e)

-- After an administrator changed the password of an existing user, the user whose name stands
-- first in slot `u` logs in with the new password, and no byte outside that password has changed.
pub modify_user_password-login :
    (exec u : ℕ) (name password : Bytes) (s : Os)
    → is_admin s.image.block_mem exec ≡ true
    → user_exists s.image.block_mem u ≡ true
    → IsFirst 64 0 u (is_named s.image.block_mem name)
    → length name < 28
    → length password < 30
    → no_nul password ≡ true
    → (t : Os) × (modify_user_password exec u password s ≡ (true, t))
      × (login_systems name password t ≡ true)
      × ((x : ℕ)
          → (x < password_addr u + 2) ⊎ (password_addr u + 32 ≤ x)
          → t.image.block_mem x ≡ s.image.block_mem x)
unfolding modify_user_password changed
modify_user_password-login exec u name password s admin exists v short fits plain =
    let m = s.image.block_mem in
    let final = changed m u password v.lt fits in
    (
      with_memory (push_block_and_inode 3 3 s) final,
      modify_user_password_lem exec u password s admin exists,
      login_systems-IsFirst (with_memory (push_block_and_inode 3 3 s) final) u name password
          (record {
            passes = changed-is_named m u password v.lt fits name u v.lt short ∙ v.passes;
            ge = omega arith;
            lt = v.lt;
            before = λ j p q.
                changed-is_named m u password v.lt fits name j (omega (arith, v.lt)) short
                ∙ v.before j p q;
          })
          (name_eq-holds final (password_addr u + 2) password plain
            λ k le. strcpy_at m (password_addr u + 2) k password plain le),
      changed_off m u password v.lt fits,
    )
