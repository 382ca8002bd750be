-- ===== src/Group/Denied.antt =====
-- Callers that are no administrators: the calls of OS/OperatingSystem.cpp that return -1 where
-- their type is `bool`.
use student_management_syste.Prelude.{ℕ, ◌≡◌, refl, sym, subst, ◌∙◌, Bool, true, false}
use student_management_syste.System.{Image, Os}
use student_management_syste.Journal.{push_block_and_inode}
use student_management_syste.Journal.Keeps.{push_image}
use student_management_syste.Layout.{is_admin}
use student_management_syste.User.{delete_user}
use student_management_syste.Group.{delete_group, add_user_to_group, delete_user_from_group}

-- A call reports success, and none of the three arrays changes.
abbrev pub Pretends : Os → Bool × Os → Type 0
Pretends s (r, t) = (r ≡ true) × (t.image ≡ s.image)

saved-is_admin :
    (b i exec : ℕ) (s : Os)
    → is_admin s.image.block_mem exec ≡ false
    → is_admin (push_block_and_inode b i s).image.block_mem exec ≡ false
saved-is_admin b i exec s h =
    subst (λ (im : Image). is_admin im.block_mem exec ≡ false) (sym (push_image b i s)) h

-- For a caller that is no administrator, `deleteUser`, `deleteGroup`, `addUserToGroup` and
-- `deleteUserFromGroup` do nothing and return true, as if they had succeeded.
pub denied_calls_return_true :
    (exec u g : ℕ) (s : Os)
    → is_admin s.image.block_mem exec ≡ false
    → Pretends s (delete_user exec u s)
      × Pretends s (delete_group exec g s)
      × Pretends s (add_user_to_group exec u g s)
      × Pretends s (delete_user_from_group exec u g s)
unfolding delete_user delete_group add_user_to_group delete_user_from_group
denied_calls_return_true exec u g s h =
    let p = saved-is_admin 2 2 exec s h in
    let q = saved-is_admin 3 3 exec (push_block_and_inode 1 1 s) (saved-is_admin 1 1 exec s h) in
    let i = push_image 2 2 s in
    let j = push_image 3 3 (push_block_and_inode 1 1 s) ∙ push_image 1 1 s in
    (rw q (refl, j), rw p (refl, i), rw p (refl, i), rw p (refl, i))
