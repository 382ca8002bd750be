-- ===== src/Group.antt =====
-- OS/OperatingSystem.cpp, groups: block 2 (`GroupBlock`), 16 records of 130 bytes. Where the C++
-- returns -1 as a `bool`, for a caller that is no administrator, the result is true.
pub mod Members
pub mod Overlap
pub mod Undone
pub mod Denied
use student_management_syste.Prelude.{
  ℕ, zero, suc, ◌+◌, ◌*◌, ◌%◌, Bool, true, false, not, ◌&&◌, ◌||◌, Option, none, some, [], Bytes,
  ◌==◌, ltb, if◌then◌else◌, length,
}
use student_management_syste.Snapshot.{minus_one}
use student_management_syste.System.{Image, Os}
use student_management_syste.Journal.{push_block_and_inode}
use student_management_syste.Loop.{first}
use student_management_syste.Memory.{
  Memory, c_str, short_at, put_short, memcpy, strcpy, name_eq, c_string,
}
use student_management_syste.Layout.{
  max_group_number, max_user_number_in_group, group_addr, member_addr, group_id, member,
  group_named, is_admin, user_exists, group_exists, with_memory,
}

-- `short id(userID)`, as the pattern that a comparison with an `int` sees.
unfoldable pub to_short : ℕ → ℕ
to_short u = if ltb (u % 0x1_0000) 0x8000 then u % 0x1_0000 else u % 0x1_0000 + 0xffff_0000

-- `for (j = i; j < i + n; j++) groups[g].userID[j] = -1`
unfoldable pub clear_members : ℕ → ℕ → Memory → ℕ → Memory
clear_members zero i m a = m
clear_members (suc n) i m a = clear_members n (i + 1) (put_short m (a + 22 + 2 * i) minus_one) a

-- The record that `createGroup` builds in a local variable of 130 bytes: a name of more than 19
-- bytes runs over the number and the members.
unfoldable pub local_group : Memory → ℕ → Bytes → Memory
local_group junk g name =
    strcpy (clear_members max_user_number_in_group 0 (put_short junk 20 g) 0) 0 name

unfoldable pub create_group : Memory → ℕ → Bytes → Os → Option (ℕ × Os)
unfolding local_group
create_group junk exec name s0 =
    let s = push_block_and_inode 2 2 s0 in
    let m = s.image.block_mem in
    if not (is_admin m exec)
    then some (minus_one, s)
    else elim (first max_group_number 0 (group_named m name)) [
      | some i ↦ some (minus_one, s)
      | none ↦ elim (first max_group_number 0 (λ g. group_id m g == minus_one)) [
        | none ↦ some (minus_one, s)
        | some g ↦
            let group = local_group junk g name in
            let id = short_at group 20 in
            if ltb 129 (length (c_str name)) || ltb 0x7fff_ffff id
            then none
            else some (id, with_memory s (memcpy m (group_addr id) group 0 130))
      ]
    ]

unfoldable pub delete_group : ℕ → ℕ → Os → Bool × Os
delete_group exec g s0 =
    let s = push_block_and_inode 2 2 s0 in
    let m = s.image.block_mem in
    if not (is_admin m exec)
    then (true, s)
    else if group_exists m g
    then (let m1 = strcpy (put_short m (group_addr g + 20) minus_one) (group_addr g) [] in
        (true, with_memory s (clear_members max_user_number_in_group 0 m1 (group_addr g))))
    else (false, s)

unfoldable pub get_group_id : ℕ → Bytes → Os → ℕ
get_group_id exec name s =
    let m = s.image.block_mem in
    if not (is_admin m exec)
    then minus_one
    else elim (first max_group_number 0 (group_named m name)) [
      | some g ↦ group_id m g
      | none ↦ minus_one
    ]

unfoldable pub get_group_name : ℕ → ℕ → Os → Option Bytes
get_group_name exec g s =
    let m = s.image.block_mem in
    if is_admin m exec && group_exists m g then c_string 0x20_0000 m (group_addr g) else some []

-- The first entry of the group that holds the value.
unfoldable pub find_member : Memory → ℕ → ℕ → Option ℕ
find_member m g id = first max_user_number_in_group 0 (λ j. member m g j == id)

unfoldable pub add_user_to_group : ℕ → ℕ → ℕ → Os → Bool × Os
unfolding to_short
add_user_to_group exec u g s0 =
    let s = push_block_and_inode 2 2 s0 in
    let m = s.image.block_mem in
    if not (is_admin m exec)
    then (true, s)
    else if group_exists m g && user_exists m u
    then elim (find_member m g minus_one) [
      | some j ↦ (true, with_memory s (put_short m (member_addr g j) (to_short u)))
      | none ↦ (false, s)
    ]
    else (false, s)

unfoldable pub delete_user_from_group : ℕ → ℕ → ℕ → Os → Bool × Os
delete_user_from_group exec u g s0 =
    let s = push_block_and_inode 2 2 s0 in
    let m = s.image.block_mem in
    if not (is_admin m exec)
    then (true, s)
    else if group_exists m g && user_exists m u
    then elim (find_member m g (to_short u)) [
      | some j ↦ (true, with_memory s (put_short m (member_addr g j) minus_one))
      | none ↦ (false, s)
    ]
    else (false, s)

unfoldable pub check_user_from_group : ℕ → ℕ → ℕ → Os → Bool
check_user_from_group exec u g s =
    let m = s.image.block_mem in
    if is_admin m exec && group_exists m g && user_exists m u
    then elim (find_member m g (to_short u)) [ some j ↦ true | none ↦ false ]
    else false
