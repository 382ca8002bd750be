-- ===== src/Layout.antt =====
-- OS/OperatingSystem.h: the packed structures of the blocks 1 (`UserBlock`), 2 (`GroupBlock`) and 3
-- (`PasswordBlock`), and the tests on them that the calls of OS/OperatingSystem.cpp share. A number
-- that is no valid index is an address outside the structure: what is read there is whatever the
-- memory holds.
use student_management_syste.Prelude.{ℕ, ◌+◌, ◌*◌, Bool, not, ◌&&◌, Bytes, ◌==◌, ltb}
use student_management_syste.Snapshot.{minus_one}
use student_management_syste.System.{Os, is_negative}
use student_management_syste.Memory.{Memory, short_at, name_eq}

abbrev pub max_user_number : ℕ
max_user_number = 64

abbrev pub user_block_id : ℕ
user_block_id = 1

abbrev pub password_block_id : ℕ
password_block_id = 3

abbrev pub group_block_id : ℕ
group_block_id = 2

abbrev pub max_group_number : ℕ
max_group_number = 16

abbrev pub max_user_number_in_group : ℕ
max_user_number_in_group = 54

-- The addresses of `userBlock->users[i]`, `passwordBlock->passwords[i]`, `groupBlock->groups[g]`.
abbrev pub user_addr : ℕ → ℕ
user_addr i = 2048 + 32 * i

abbrev pub password_addr : ℕ → ℕ
password_addr i = 6144 + 32 * i

abbrev pub group_addr : ℕ → ℕ
group_addr g = 4096 + 130 * g

unfoldable pub user_id : Memory → ℕ → ℕ
user_id m i = short_at m (user_addr i + 28)

unfoldable pub user_group : Memory → ℕ → ℕ
user_group m i = short_at m (user_addr i + 30)

unfoldable pub group_id : Memory → ℕ → ℕ
group_id m g = short_at m (group_addr g + 20)

-- `groups[g].userID[j]`
abbrev pub member_addr : ℕ → ℕ → ℕ
member_addr g j = group_addr g + 22 + 2 * j

unfoldable pub member : Memory → ℕ → ℕ → ℕ
member m g j = short_at m (member_addr g j)

unfoldable pub is_named : Memory → Bytes → ℕ → Bool
is_named m name i = name_eq m (user_addr i) name

unfoldable pub group_named : Memory → Bytes → ℕ → Bool
group_named m name g = name_eq m (group_addr g) name

-- The test that most calls make first: the caller's main group is not 0, the administrators'.
unfoldable pub is_admin : Memory → ℕ → Bool
unfolding user_group
is_admin m exec = user_group m exec == 0

-- `(userID >= 0 && userID < MAX_USER_NUMBER) && users[userID].userID != -1`
unfoldable pub user_exists : Memory → ℕ → Bool
unfolding user_id
user_exists m u = (not (is_negative u) && ltb u max_user_number) && not (user_id m u == minus_one)

-- `(groupID >= 0 && groupID < MAX_GROUP_NUMBER) && groups[groupID].groupID != -1`
unfoldable pub group_exists : Memory → ℕ → Bool
unfolding group_id
group_exists m g =
    (not (is_negative g) && ltb g max_group_number) && not (group_id m g == minus_one)

abbrev pub with_memory : Os → Memory → Os
with_memory s m = record s { image = record s.image { block_mem = m } }
