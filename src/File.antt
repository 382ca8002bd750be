-- ===== src/File.antt =====
-- OS/OperatingSystem.cpp: free blocks and i-nodes, entries of directories, creating files, and
-- changing who owns a file and who may use it. A permission is given as the 32-bit pattern of the
-- `char`.
pub mod Owner
pub mod Make
pub mod Remove
pub mod Content
use student_management_syste.Prelude.{
  ℕ, ◌+◌, ◌*◌, Bool, true, false, not, ◌&&◌, ◌||◌, Option, none, some, [], ◌∷◌, Bytes, ◌==◌, leb,
  if◌then◌else◌, update,
}
use student_management_syste.Snapshot.{minus_one, Inode}
use student_management_syste.System.{Image, Os, block_number, is_negative}
use student_management_syste.System
use student_management_syste.Journal.{push_block_and_inode}
use student_management_syste.Loop.{first}
use student_management_syste.Memory.{Memory, int_at, put_int, memset, memcpy, strcpy, name_eq}
use student_management_syste.Layout.{user_id, group_id, is_admin, user_exists, group_exists}
use student_management_syste.Permission.{check_write_permission}
use student_management_syste.Path.{
  entry_number, file_name_addr, inode_id_addr, inode_id_at, tokens, walk, all_but_last, last,
  get_write_inode_id,
}

-- The loops that look for a bit that is not set in `blockBitmap`, and for an unused i-node.
unfoldable pub unused_block : Os → Option ℕ
unused_block s = first block_number 0 (λ b. not (s.image.block_bitmap b))

unfoldable pub find_inode : Os → Option ℕ
find_inode s = first System.inode_number 0 (λ i. (s.image.inode_mem i).block_id == minus_one)

unfoldable pub set_bit : ℕ → Os → Os
set_bit b s = record s {
  image = record s.image { block_bitmap = update s.image.block_bitmap b true };
}

-- `none` is the result -1.
unfoldable pub find_block : Os → Option ℕ × Os
find_block s = elim (unused_block s) [ none ↦ (none, s) | some b ↦ (some b, set_bit b s) ]

-- The loop over a directory's entries ends at one with the name, or at a free one.
pub data Slot : Type 0 where
  taken : Slot
  free : ℕ → Slot
  full : Slot

unfoldable pub find_slot : Memory → ℕ → Bytes → Slot
find_slot m b name =
    elim (first entry_number 0
      (λ i. name_eq m (file_name_addr b i) name || inode_id_at m b i == minus_one)) [
        | none ↦ full
        | some i ↦ if name_eq m (file_name_addr b i) name then taken else free i
      ]

-- The last five arguments of `createFile` and `createDirectory`.
pub record Access : Type 0 where
  pub user : ℕ
  pub group : ℕ
  pub owner_bits : ℕ
  pub group_bits : ℕ
  pub other_bits : ℕ

unfoldable pub is_bad_char : ℕ → Bool
is_bad_char p = leb 255 p || is_negative p

unfoldable pub is_rejected : ℕ → Access → Os → Bool
is_rejected exec a s =
    let m = s.image.block_mem in
    user_id m exec == minus_one
    || not (user_exists m a.user)
    || not (group_exists m a.group)
    || (is_bad_char a.owner_bits || is_bad_char a.group_bits || is_bad_char a.other_bits)

unfoldable pub new_inode : Access → ℕ → ℕ → Inode → Inode
new_inode a b kind i = record i {
  group_permission = a.group_bits;
  owner_permission = a.owner_bits;
  other_permission = a.other_bits;
  block_id = b;
  file_type = kind;
  group_id = a.group;
  user_id = a.user;
}

-- The i-node n and block b are taken into use for entry e of the directory in block d.
unfoldable pub enter : Access → ℕ → ℕ → ℕ → ℕ → ℕ → Bytes → Os → Os
enter a kind d e n b name s =
    let m = put_int s.image.block_mem (inode_id_addr d e) n in
    record s {
      image = record {
        inode_mem = update s.image.inode_mem n (new_inode a b kind (s.image.inode_mem n));
        block_mem = strcpy m (file_name_addr d e) name;
        block_bitmap = update s.image.block_bitmap b true;
      };
    }

unfoldable pub fill : ℕ → ℕ → ℕ → Os → Os
fill from v n s = record s {
  image = record s.image { block_mem = memset s.image.block_mem from v n };
}

-- The directory of i-node p becomes an index block: its pointers are cleared before the block is
-- copied to the first of two new blocks. `false`: there are no two blocks.
unfoldable pub make_index : ℕ → Os → Bool × Os
make_index p s =
    let b = (s.image.inode_mem p).block_id in
    let t = fill (2048 * b) 255 2048 s in
    let u = record t {
      image = record t.image {
        inode_mem = update t.image.inode_mem p (record (t.image.inode_mem p) { file_type = 2 });
      };
    } in
    let (first_block, v) = find_block u in
    elim first_block [
      | none ↦ (false, v)
      | some x ↦
          let w = record v {
            image = record v.image { block_mem = put_int v.image.block_mem (2048 * b) x };
          } in
          let (second_block, z) = find_block w in
          elim second_block [
            | none ↦ (false, z)
            | some y ↦
                let m = put_int z.image.block_mem (2048 * b + 4) y in
                let copied = memcpy m (2048 * int_at m (2048 * b)) m (2048 * b) 2048 in
                (true, record z { image = record z.image { block_mem = copied } })
          ]
    ]

-- The branch of `createFile` for a directory whose 64 entries are in use. Without a free entry in
-- the second block as well, the C++ writes to entry -1 (`none`).
unfoldable pub create_file_behind : Access → ℕ → Bytes → Os → Option (Bool × Os)
create_file_behind a p name s0 =
    let b = (s0.image.inode_mem p).block_id in
    let (ready, s) =
      if (s0.image.inode_mem p).file_type == 2 then (true, s0) else make_index p s0 in
    if not ready
    then some (false, s)
    else let d = int_at s.image.block_mem (2048 * b + 4) in
      elim (find_slot s.image.block_mem d name) [
        | taken ↦ some (false, s)
        | free e ↦ elim (unused_block s) [
          | none ↦ some (false, s)
          | some n ↦ elim (find_inode s) [
            | none ↦ some (false, s)
            | some i ↦ some (true, fill (2048 * n) 0 2048 (enter a 1 d e i n name s))
          ]
        ]
        | full ↦ elim (unused_block s) [
          | none ↦ some (false, s)
          | some n ↦ elim (find_inode s) [ none ↦ some (false, s) | some i ↦ none ]
        ]
      ]

-- What follows the walk of `createFile`, whose last directory is i-node p.
unfoldable pub create_file_in : Access → ℕ → Bytes → Os → Option (Bool × Os)
create_file_in a p name s0 =
    let node = s0.image.inode_mem p in
    let s = push_block_and_inode node.block_id node.inode_number s0 in
    elim (find_slot s.image.block_mem node.block_id name) [
      | taken ↦ some (false, s)
      | full ↦ create_file_behind a p name s
      | free e ↦ elim (unused_block s) [
        | none ↦ some (false, s)
        | some n ↦ elim (find_inode s) [
          | none ↦ some (false, s)
          | some i ↦ some (
            true,
            fill (2048 * n) 0 2048
                (enter a 1 node.block_id e i n name (push_block_and_inode n i s)),
          )
        ]
      ]
    ]

-- A path without a token makes the C++ compare with a null pointer (`none`).
unfoldable pub create_file : ℕ → Bytes → Access → Os → Option (Bool × Os)
create_file exec path a s = if is_rejected exec a s then some (false, s) else elim (tokens path) [
  | none ↦ none
  | some [] ↦ none
  | some (t ∷ ts) ↦ elim (walk (λ q. check_write_permission exec q s) s 0 (all_but_last (t ∷ ts))) [
    | none ↦ some (false, s)
    | some p ↦ create_file_in a p (last t ts) s
  ]
]
