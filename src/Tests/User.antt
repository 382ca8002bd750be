-- ===== src/Tests/User.antt =====
-- Users and groups: a system whose slot 0 holds an administrator without a name, and whose other
-- slots are free.
use student_management_syste.Prelude.{
  ℕ, ◌+◌, ◌%◌, ◌-◌, ◌≤◌, ◌<◌, ◌≡◌, ◌≢◌, ◌⊎◌, refl, true, false, ◌&&◌, some, none, [], arith, codes,
  Bytes, if◌then◌else◌, ◌==◌, leb, ltb, get_or,
}
use student_management_syste.Snapshot.{zero_inode, minus_one}
use student_management_syste.Snapshot
use student_management_syste.System.{Image, Os}
use student_management_syste.Loop.{first, IsFirst}
use student_management_syste.Memory.{Memory, short_at, name_eq}
use student_management_syste.Layout.{
  user_addr, password_addr, user_id, group_id, is_named, is_admin, user_exists, group_exists,
  member, member_addr, group_named,
}
use student_management_syste.User.{delete_user, create_user, login_systems, modify_user_password}
use student_management_syste.User.Create.{HasUser, is_free, create_user-HasUser}
use student_management_syste.User.Manage.{modify_user_password-login}
use student_management_syste.Group.{
  find_member, to_short, delete_group, add_user_to_group, delete_user_from_group,
  check_user_from_group, create_group,
}
use student_management_syste.Group.Members.{add_user_to_group-check}
use student_management_syste.Group.Undone
use student_management_syste.Group.Denied.{Pretends, denied_calls_return_true}
use student_management_syste.Group.Overlap.{create_group_overwrites_password}

-- User slots 1 to 63 hold the number -1; slot 0 the name "root", the number 0 and the group 0.
-- Group slot 15 is free, the others hold the number 0; all members are -1.
abbrev start_memory : Memory
start_memory a =
    if leb 2080 a && ltb a 4096 && leb 28 ((a - 2048) % 32)
    then 255
    else if leb 4118 a && ltb a 6046 && leb 22 ((a - 4096) % 130)
    then 255
    else if leb 6066 a && ltb a 6144
    then 255
    else if a == 2048
    then 114
    else if a == 2049
    then 111
    else if a == 2050
    then 111
    else if a == 2051
    then 116
    else 0

abbrev blank : Image
blank = record { inode_mem = λ _. zero_inode; block_mem = start_memory; block_bitmap = λ _. false }

abbrev start : Os
start = record {
  image = blank;
  snapshot = Snapshot.init;
  system_log = [];
  disk = record {
    writable = true;
    system_file = blank;
    blockstack = Snapshot.write_to_file Snapshot.init;
    log_file = [];
    backup = λ _. none;
  };
}

bob_is_fresh : (j : ℕ) → j < 64 → is_named start_memory (codes "bob") j ≡ false
unfolding is_named name_eq
bob_is_fresh j h = ground arith

create_user-HasUser_example :
    (i : ℕ) × (t : Os) × (create_user (λ _. 0) (λ _. 0) 0 (codes "bob") (codes "pw") 2 start
      ≡ some (i, t))
    × IsFirst 64 0 i (is_free start_memory)
    × HasUser t.image.block_mem i 2 (codes "bob") (codes "pw")
    × (login_systems (codes "bob") (codes "pw") t ≡ true)
    × ((x : ℕ)
        → (x < user_addr i) ⊎ (user_addr i + 32 ≤ x)
        → (x < password_addr i) ⊎ (password_addr i + 32 ≤ x)
        → t.image.block_mem x ≡ start_memory x)
unfolding is_admin user_id group_id short_at
create_user-HasUser_example =
    create_user-HasUser (λ _. 0) (λ _. 0) 0 (codes "bob") (codes "pw") 2 1 start refl refl
      bob_is_fresh (omega arith) refl (omega arith) (omega arith) refl (omega arith) refl

root-IsFirst : IsFirst 64 0 0 (is_named start_memory (codes "root"))
unfolding is_named name_eq
root-IsFirst = record {
  passes = refl;
  ge = omega arith;
  lt = omega arith;
  before = λ j p q. absurd (omega arith);
}

modify_user_password-login_example :
    (t : Os) × (modify_user_password 0 0 (codes "secret") start ≡ (true, t))
    × (login_systems (codes "root") (codes "secret") t ≡ true)
    × ((x : ℕ)
        → (x < password_addr 0 + 2) ⊎ (password_addr 0 + 32 ≤ x)
        → t.image.block_mem x ≡ start_memory x)
unfolding is_admin user_exists short_at
modify_user_password-login_example =
    modify_user_password-login 0 0 (codes "root") (codes "secret") start refl refl root-IsFirst
      (omega arith) (omega arith) refl

add_user_to_group-check_example :
    (t : Os) × (j : ℕ) × (add_user_to_group 0 0 2 start ≡ (true, t))
    × (check_user_from_group 0 0 2 t ≡ true)
    × (j < 54)
    × ((x : ℕ)
        → x ≢ member_addr 2 j
        → x ≢ member_addr 2 j + 1
        → t.image.block_mem x ≡ start_memory x)
unfolding is_admin user_exists group_exists member short_at
add_user_to_group-check_example =
    add_user_to_group-check 0 0 2 7 start (omega arith) refl refl refl (omega arith) refl

start_bytes : (x : ℕ) → start_memory x < 256
start_bytes x = ground arith

delete_user_from_group_example :
    (t w : Os) × (add_user_to_group 0 0 2 start ≡ (true, t))
    × (delete_user_from_group 0 0 2 t ≡ (true, w))
    × ((x : ℕ) → w.image.block_mem x ≡ start_memory x)
unfolding is_admin user_exists group_exists member short_at check_user_from_group find_member first
    to_short
delete_user_from_group_example =
    Undone.delete_user_from_group-add_user_to_group 0 0 2 7 start (omega arith) start_bytes refl
      refl refl (omega arith) refl refl

-- Slot 1 is free: its group, -1, is not the administrators'.
denied_calls_return_true_example :
    Pretends start (delete_user 1 0 start)
    × Pretends start (delete_group 1 2 start)
    × Pretends start (add_user_to_group 1 0 2 start)
    × Pretends start (delete_user_from_group 1 0 2 start)
unfolding is_admin short_at
denied_calls_return_true_example = denied_calls_return_true 1 0 2 start refl

create_group_overwrites_password_example :
    (t : Os) × (create_group (λ _. 0) 0 (codes "math") start ≡ some (15, t))
    × ((k : ℕ) → k < 32 → t.image.block_mem (password_addr 0 + k) ≡ 255)
    × ((password : Bytes)
        → get_or password 0 0 ≢ 255
        → login_systems (codes "root") password t ≡ false)
unfolding is_admin short_at group_named name_eq group_id is_named first
create_group_overwrites_password_example =
    create_group_overwrites_password (λ _. 0) 0 (codes "math") (codes "root") start refl refl refl
      (omega arith) refl (omega arith)
