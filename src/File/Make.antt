-- ===== src/File/Make.antt =====
-- OS/OperatingSystem.cpp, `createDirectory`. Its variable `entry` has no value before the search,
-- so that what it holds is a parameter: `junk`, the 32-bit pattern of an `int`.
pub mod Created
pub mod Entered
use student_management_syste.Prelude.{
  ℕ, ◌+◌, ◌*◌, Bool, true, false, not, Option, none, some, [], ◌∷◌, Bytes, ◌==◌, ltb, if◌then◌else◌,
}
use student_management_syste.System.{Os, is_negative}
use student_management_syste.Journal.{push_block_and_inode}
use student_management_syste.Memory.{int_at}
use student_management_syste.Permission.{check_write_permission}
use student_management_syste.Path.{entry_number, tokens, walk, all_but_last, last}
use student_management_syste.File.{
  unused_block, find_inode, taken, free, full, find_slot, Access, is_rejected, enter, fill,
  make_index,
}

-- The loop that empties a directory block: no numbers, no names.
unfoldable pub clear_directory : ℕ → Os → Os
clear_directory b s = fill (2048 * b + 1792) 255 256 (fill (2048 * b) 0 1792 s)

-- The branch for a directory whose entries are in use. What is emptied at the end is the parent's
-- block, and not the new one. An entry outside the block is `none`.
unfoldable pub create_directory_behind : Access → ℕ → Bytes → Os → Option (Bool × Os)
create_directory_behind a p name s0 =
    let b = (s0.image.inode_mem p).block_id in
    let (ready, s) =
      if (s0.image.inode_mem p).file_type == 2 then (true, s0) else make_index p s0 in
    if not ready
    then some (false, s)
    else let d = int_at s.image.block_mem (2048 * b + 4) in
      elim (find_slot s.image.block_mem d name) [
        | taken ↦ some (false, s)
        | free e ↦ elim (unused_block s) [
          | none ↦ some (false, s)
          | some n ↦ elim (find_inode s) [
            | none ↦ some (false, s)
            | some i ↦ some (true, clear_directory b (enter a 0 d e i n name s))
          ]
        ]
        | full ↦ elim (unused_block s) [
          | none ↦ some (false, s)
          | some n ↦ elim (find_inode s) [ none ↦ some (false, s) | some i ↦ none ]
        ]
      ]

-- The branch for `entry >= 0`.
unfoldable pub create_directory_at : Access → ℕ → ℕ → Bytes → Os → Option (Bool × Os)
create_directory_at a b e name s = elim (unused_block s) [
  | none ↦ some (false, s)
  | some n ↦ elim (find_inode s) [
    | none ↦ some (false, s)
    | some i ↦
        if ltb e entry_number
        then some (true, clear_directory n (enter a 0 b e i n name (push_block_and_inode n i s)))
        else none
  ]
]

unfoldable pub create_directory_in : ℕ → Access → ℕ → Bytes → Os → Option (Bool × Os)
create_directory_in junk a p name s0 =
    let node = s0.image.inode_mem p in
    let s = push_block_and_inode node.block_id node.inode_number s0 in
    elim (find_slot s.image.block_mem node.block_id name) [
      | taken ↦ some (false, s)
      | free e ↦ create_directory_at a node.block_id e name s
      | full ↦
          if is_negative junk
          then create_directory_behind a p name s
          else create_directory_at a node.block_id junk name s
    ]

unfoldable pub create_directory : ℕ → ℕ → Bytes → Access → Os → Option (Bool × Os)
create_directory junk exec path a s =
    if is_rejected exec a s then some (false, s) else elim (tokens path) [
      | none ↦ none
      | some [] ↦ some (false, s)
      | some (t ∷ ts) ↦
          elim (walk (λ q. check_write_permission exec q s) s 0 (all_but_last (t ∷ ts))) [
            | none ↦ some (false, s)
            | some p ↦ create_directory_in junk a p (last t ts) s
          ]
    ]
