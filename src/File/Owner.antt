-- ===== src/File/Owner.antt =====
-- OS/OperatingSystem.cpp: `modifyPermission`, `modifyOwner` and `modifyGroup`.
mod Kept
pub mod Changed
use student_management_syste.Prelude.{
  ℕ, Bool, true, false, not, ◌||◌, Option, none, some, [], ◌∷◌, Bytes, ◌==◌, if◌then◌else◌, update,
}
use student_management_syste.Snapshot.{minus_one, Inode}
use student_management_syste.System.{Image, Os}
use student_management_syste.Journal.{push_block_and_inode}
use student_management_syste.Layout.{is_admin, user_exists, group_exists}
use student_management_syste.Path.{tokens, get_write_inode_id}
use student_management_syste.File.{is_bad_char}

-- The shared end of the three calls: the i-node that the path leads to is saved and changed.
unfoldable pub modify_inode : (Inode → Inode) → ℕ → Bytes → Os → Option (Bool × Os)
modify_inode change exec path s0 = elim (tokens path) [
  | none ↦ none
  | some [] ↦ some (false, s0)
  | some (t ∷ ts) ↦ elim (get_write_inode_id exec path s0) [
    | none ↦ none
    | some q ↦
        if q == minus_one
        then some (false, s0)
        else let s = push_block_and_inode (s0.image.inode_mem q).block_id q s0 in
          let nodes = update s.image.inode_mem q (change (s.image.inode_mem q)) in
          some (true, record s { image = record s.image { inode_mem = nodes } })
  ]
]

unfoldable pub modify_permission : ℕ → Bytes → ℕ → ℕ → ℕ → Os → Option (Bool × Os)
modify_permission exec path owner group other s =
    if is_bad_char owner || is_bad_char group || is_bad_char other
    then some (false, s)
    else if not (is_admin s.image.block_mem exec)
    then some (true, s)
    else modify_inode
        (λ i. record i {
          owner_permission = owner;
          group_permission = group;
          other_permission = other;
        })
        exec path s

unfoldable pub modify_owner : ℕ → Bytes → ℕ → Os → Option (Bool × Os)
modify_owner exec path user s =
    let m = s.image.block_mem in
    if not (user_exists m exec) || not (user_exists m user)
    then some (false, s)
    else if not (is_admin m exec)
    then some (true, s)
    else modify_inode (λ i. record i { user_id = user }) exec path s

unfoldable pub modify_group : ℕ → Bytes → ℕ → Os → Option (Bool × Os)
modify_group exec path group s =
    let m = s.image.block_mem in
    if not (user_exists m exec) || not (group_exists m group)
    then some (false, s)
    else if not (is_admin m exec)
    then some (true, s)
    else modify_inode (λ i. record i { group_id = group }) exec path s
