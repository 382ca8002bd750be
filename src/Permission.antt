-- ===== src/Permission.antt =====
-- OS/OperatingSystem.cpp, "permission management": who may read, write and execute an i-node. A
-- permission is a byte with the bits 0 (read), 1 (write) and 2 (execute).
pub mod Granted
pub mod Frame
use student_management_syste.Prelude.{
  ℕ, ◌*◌, ◌/◌, ◌%◌, ◌^◌, Bool, true, false, ◌&&◌, ◌==◌, if◌then◌else◌,
}
use student_management_syste.System.{Os}
use student_management_syste.Layout.{is_admin}
use student_management_syste.Group.{check_user_from_group}

-- `permission & (1 << k)`, which is 0 or `1 << k`.
abbrev pub mask : ℕ → ℕ → ℕ
mask permission k = permission / 2 ^ k % 2 * 2 ^ k

abbrev pub differs : ℕ → Bool
differs x = if x == 0 then false else true

unfoldable pub check_read_permission : ℕ → ℕ → Os → Bool
check_read_permission exec inode s =
    let node = s.image.inode_mem inode in
    if is_admin s.image.block_mem exec
    then true
    else if exec == node.user_id && differs (mask node.owner_permission 0)
    then true
    else if check_user_from_group 0 exec node.group_id s && differs (mask node.group_permission 0)
    then true
    else differs (mask node.other_permission 0)

unfoldable pub check_write_permission : ℕ → ℕ → Os → Bool
check_write_permission exec inode s =
    let node = s.image.inode_mem inode in
    if is_admin s.image.block_mem exec
    then true
    else if exec == node.user_id && differs (mask node.owner_permission 1)
    then true
    else if check_user_from_group 0 exec node.group_id s && differs (mask node.group_permission 1)
    then true
    else differs (mask node.other_permission 1)

-- The three tests compare the masked byte with 1, not with 0.
unfoldable pub check_execute_permission : ℕ → ℕ → Os → Bool
check_execute_permission exec inode s =
    let node = s.image.inode_mem inode in
    if exec == node.user_id && mask node.owner_permission 2 == 1
    then true
    else if check_user_from_group 0 exec node.group_id s && mask node.group_permission 2 == 1
    then true
    else mask node.other_permission 2 == 1
