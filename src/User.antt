-- ===== src/User.antt =====
-- OS/OperatingSystem.cpp, users: logging in, creating a user, and reading and changing users.
pub mod Stored
pub mod Create
pub mod Manage
use student_management_syste.Prelude.{
  ℕ, ◌+◌, ◌<◌, Bool, true, false, not, ◌&&◌, ◌||◌, Option, none, some, [], Bytes, ◌==◌, ltb, leb,
  if◌then◌else◌, length,
}
use student_management_syste.Snapshot.{minus_one}
use student_management_syste.System.{Image, Os, is_negative}
use student_management_syste.Journal.{push_block_and_inode}
use student_management_syste.Loop.{first}
use student_management_syste.Memory.{
  Memory, c_str, short_at, put_short, memcpy, strcpy, name_eq, c_string,
}
use student_management_syste.Layout.{
  max_user_number, max_group_number, user_block_id, password_block_id, user_addr, password_addr,
  user_id, user_group, group_id, is_named, is_admin, user_exists, with_memory,
}

unfoldable pub login_systems : Bytes → Bytes → Os → Bool
login_systems name password s =
    let m = s.image.block_mem in
    elim (first max_user_number 0 (is_named m name)) [
      | some i ↦ name_eq m (password_addr i + 2) password
      | none ↦ false
    ]

-- `User user`, as bytes: `strcpy` comes after the two numbers, and may run over them.
unfoldable pub local_user : Memory → ℕ → ℕ → Bytes → Memory
local_user junk i group name = strcpy (put_short (put_short junk 28 i) 30 group) 0 name

unfoldable pub local_password : Memory → ℕ → Bytes → Memory
local_password junk i password = strcpy (put_short junk 0 i) 2 password

-- The end of `createUser`, once the free slot `i` is found. The two structures are local
-- variables of 32 bytes with the contents `junk` and `junk'` before: a text that does not fit in
-- one overruns the stack, and a slot number that was overwritten may be negative (`none`).
unfoldable pub store_user : Memory → Memory → ℕ → Bytes → Bytes → ℕ → Os → Option (ℕ × Os)
unfolding local_user local_password
store_user junk junk' i name password group s =
    if ltb 31 (length (c_str name))
    then none
    else let user = local_user junk i group name in
      let id = short_at user 28 in
      if is_negative id || ltb 29 (length (c_str password))
      then none
      else let m = memcpy s.image.block_mem (user_addr id) user 0 32 in
        let pass = local_password junk' id password in
        some (id, with_memory s (memcpy m (password_addr (short_at pass 0)) pass 0 32))

unfoldable pub create_user : Memory → Memory → ℕ → Bytes → Bytes → ℕ → Os → Option (ℕ × Os)
create_user junk junk' exec name password group s0 =
    let s = push_block_and_inode password_block_id 3 (push_block_and_inode user_block_id 1 s0) in
    let m = s.image.block_mem in
    if not (is_admin m exec)
    then some (minus_one, s)
    else if group_id m group == minus_one
    then some (0, s)
    else elim (first max_user_number 0 (is_named m name)) [
      | some i ↦ some (minus_one, s)
      | none ↦ elim (first max_user_number 0 (λ i. user_id m i == minus_one)) [
        | none ↦ some (minus_one, s)
        | some i ↦ store_user junk junk' i name password group s
      ]
    ]

-- Three calls that only look, for administrators; the others get -1 or the empty string.
unfoldable pub get_user_id : ℕ → Bytes → Os → ℕ
get_user_id exec name s =
    let m = s.image.block_mem in
    if not (is_admin m exec) then minus_one else elim (first max_user_number 0 (is_named m name)) [
      | some i ↦ user_id m i
      | none ↦ minus_one
    ]

-- `none`: no NUL follows in the whole of the memory.
unfoldable pub get_user_name : ℕ → ℕ → Os → Option Bytes
get_user_name exec u s =
    let m = s.image.block_mem in
    if is_admin m exec && user_exists m u then c_string 0x20_0000 m (user_addr u) else some []

unfoldable pub get_user_main_group : ℕ → ℕ → Os → ℕ
get_user_main_group exec u s =
    let m = s.image.block_mem in
    if is_admin m exec && user_exists m u then user_group m u else minus_one

-- For a caller that is no administrator the C++ returns -1 as a `bool`, which is true.
unfoldable pub delete_user : ℕ → ℕ → Os → Bool × Os
delete_user exec u s0 =
    let s = push_block_and_inode password_block_id 3 (push_block_and_inode user_block_id 1 s0) in
    let m = s.image.block_mem in
    if not (is_admin m exec)
    then (true, s)
    else if user_id m u == minus_one
    then (false, s)
    else if user_exists m u
    then (let m1 = put_short m (user_addr u + 30) minus_one in
        let m2 = put_short m1 (user_addr u + 28) minus_one in
        let m3 = strcpy m2 (user_addr u) [] in
        let m4 = put_short m3 (password_addr u) minus_one in
        (true, with_memory s (strcpy m4 (password_addr u + 2) [])))
    else (false, s)

unfoldable pub modify_user_name : ℕ → ℕ → Bytes → Os → Bool × Os
modify_user_name exec u name s0 =
    let s = push_block_and_inode user_block_id 1 s0 in
    let m = s.image.block_mem in
    if is_admin m exec && user_exists m u
    then (true, with_memory s (strcpy m (user_addr u) name))
    else (false, s)

unfoldable pub modify_user_password : ℕ → ℕ → Bytes → Os → Bool × Os
modify_user_password exec u password s0 =
    let s = push_block_and_inode password_block_id 3 s0 in
    let m = s.image.block_mem in
    if is_admin m exec && user_exists m u
    then (true, with_memory s (strcpy m (password_addr u + 2) password))
    else (false, s)

unfoldable pub modify_user_group : ℕ → ℕ → ℕ → Os → Bool × Os
modify_user_group exec u group s0 =
    let s = push_block_and_inode user_block_id 1 s0 in
    let m = s.image.block_mem in
    if is_admin m exec && user_exists m u && not (is_negative group) && ltb group max_group_number
    then (true, with_memory s (put_short m (user_addr u + 30) group))
    else (false, s)
