-- ===== src/File/Remove.antt =====
-- OS/OperatingSystem.cpp, `deleteAllFileInDirectory`, `deleteDirectory` and `deleteFile`.
pub mod Freed
pub mod Emptied
use student_management_syste.Prelude.{
  ℕ, zero, suc, ◌+◌, ◌*◌, Bool, true, false, Option, none, some, [], ◌∷◌, Bytes, ◌==◌,
  if◌then◌else◌, update,
}
use student_management_syste.Snapshot.{minus_one, Inode}
use student_management_syste.System.{Os}
use student_management_syste.Journal.{push_block_and_inode}
use student_management_syste.Memory.{int_at, put_int, memset}
use student_management_syste.Layout.{with_memory}
use student_management_syste.Permission.{check_write_permission}
use student_management_syste.Path.{
  entry_number, file_name_addr, inode_id_addr, inode_id_at, find_entry, tokens, walk, all_but_last,
  last,
}

abbrev pub index_size : ℕ
index_size = 512

-- An i-node that is given back; `kind` is what `fileType` is set to.
unfoldable pub unused_inode : ℕ → Inode → Inode
unused_inode kind i = record i {
  block_id = minus_one;
  file_type = kind;
  user_id = minus_one;
  group_id = minus_one;
  owner_permission = 0;
  group_permission = 0;
  other_permission = 0;
}

-- Entry e of the directory in block d loses its name and its number, and i-node q and its block are
-- given back.
unfoldable pub clear_entry : ℕ → ℕ → ℕ → ℕ → Os → Os
clear_entry kind d e q s =
    let node = s.image.inode_mem q in
    let m = memset s.image.block_mem (file_name_addr d e) 0 28 in
    record s {
      image = record {
        inode_mem = update s.image.inode_mem q (unused_inode kind node);
        block_mem = put_int m (inode_id_addr d e) minus_one;
        block_bitmap = update s.image.block_bitmap node.block_id false;
      };
    }

-- One turn of the loop of `deleteAllFileInDirectory`; `sub` is the call for a directory in it.
unfoldable pub delete_one : (ℕ → Os → Option Os) → ℕ → ℕ → Os → Option Os
delete_one sub b i s =
    let q = inode_id_at s.image.block_mem b i in
    if q == minus_one
    then some s
    else let t = push_block_and_inode (s.image.inode_mem q).block_id q s in
      if (t.image.inode_mem q).file_type == 0
      then elim (sub (t.image.inode_mem q).block_id t) [
        | none ↦ none
        | some u ↦ some (clear_entry minus_one b i q u)
      ]
      else some (clear_entry minus_one b i q t)

-- The n entries from i on.
unfoldable pub delete_entries : (ℕ → Os → Option Os) → ℕ → ℕ → ℕ → Os → Option Os
delete_entries sub b zero i s = some s
delete_entries sub b (suc n) i s = elim (delete_one sub b i s) [
  | none ↦ none
  | some t ↦ delete_entries sub b n (i + 1) t
]

-- Directories in directories, as deep as the fuel; one that holds itself has no end.
unfoldable pub delete_all_file_in_directory : ℕ → ℕ → Os → Option Os
delete_all_file_in_directory zero b s = none
delete_all_file_in_directory (suc f) b s =
    delete_entries (delete_all_file_in_directory f) b entry_number 0 s

-- The end of `deleteDirectory`, in the directory of i-node p. What is deleted may be a plain file:
-- its content is then taken for a directory.
unfoldable pub delete_directory_in : ℕ → ℕ → Bytes → Os → Option (Bool × Os)
delete_directory_in fuel p name s0 =
    let node = s0.image.inode_mem p in
    let s = push_block_and_inode node.block_id node.inode_number s0 in
    let b = node.block_id in
    elim (find_entry s.image.block_mem b name) [
      | none ↦ some (false, s)
      | some i ↦
          let q = inode_id_at s.image.block_mem b i in
          let t = push_block_and_inode (s.image.inode_mem q).block_id q s in
          elim (delete_all_file_in_directory fuel (t.image.inode_mem q).block_id t) [
            | none ↦ none
            | some u ↦ some (true, clear_entry minus_one b i q u)
          ]
    ]

-- A path without a token makes the C++ compare with a null pointer (`none`).
unfoldable pub delete_directory : ℕ → ℕ → Bytes → Os → Option (Bool × Os)
delete_directory fuel exec path s = elim (tokens path) [
  | none ↦ none
  | some [] ↦ none
  | some (t ∷ ts) ↦ elim (walk (λ q. check_write_permission exec q s) s 0 (all_but_last (t ∷ ts))) [
    | none ↦ some (false, s)
    | some p ↦ delete_directory_in fuel p (last t ts) s
  ]
]

-- The loop over the pointers of an index block in block b, from i on, for i-node q. A file whose
-- directory is an index block saves none of the blocks.
unfoldable pub free_pointers : Bool → ℕ → ℕ → ℕ → ℕ → Os → Os
free_pointers saves q b zero i s = s
free_pointers saves q b (suc n) i s =
    let x = int_at s.image.block_mem (2048 * b + 4 * i) in
    let t = if saves then push_block_and_inode x q s else s in
    let freed = record t {
      image = record t.image {
        block_mem = put_int t.image.block_mem (2048 * b + 4 * i) minus_one;
        block_bitmap = update t.image.block_bitmap x false;
      };
    } in
    free_pointers saves q b n (i + 1) (if x == minus_one then s else freed)

-- What both branches of `deleteFile` do once the entry i in block d is found.
unfoldable pub delete_found : Bool → ℕ → ℕ → Os → Bool × Os
delete_found saves d i s0 =
    let q = inode_id_at s0.image.block_mem d i in
    let s = if saves then push_block_and_inode (s0.image.inode_mem q).block_id q s0 else s0 in
    let node = s.image.inode_mem q in
    if node.file_type == 0
    then (false, s)
    else let m = put_int s.image.block_mem (inode_id_addr d i) minus_one in
      let t = with_memory s (memset m (file_name_addr d i) 0 28) in
      let u =
        if node.file_type == 2 then free_pointers saves q node.block_id index_size 0 t else t in
      (
        true,
        record u {
          image = record u.image {
            inode_mem = update u.image.inode_mem q (unused_inode 0 (u.image.inode_mem q));
            block_bitmap = update u.image.block_bitmap (u.image.inode_mem q).block_id false;
          };
        },
      )

-- The two blocks of a directory with the index block b, one after the other.
unfoldable pub delete_behind : ℕ → Bytes → Os → Bool × Os
delete_behind b name s =
    let m = s.image.block_mem in
    let d0 = int_at m (2048 * b) in
    let d1 = int_at m (2048 * b + 4) in
    elim (find_entry m d0 name) [
      | some i ↦ delete_found false d0 i s
      | none ↦ elim (find_entry m d1 name) [
        | some i ↦ delete_found false d1 i s
        | none ↦ (false, s)
      ]
    ]

unfoldable pub delete_file_in : ℕ → Bytes → Os → Bool × Os
delete_file_in p name s0 =
    let node = s0.image.inode_mem p in
    let b = node.block_id in
    let s = push_block_and_inode b node.inode_number s0 in
    if node.file_type == 2
    then delete_behind b name s
    else elim (find_entry s.image.block_mem b name) [
      | some i ↦ delete_found true b i s
      | none ↦ (false, s)
    ]

unfoldable pub delete_file : ℕ → Bytes → Os → Option (Bool × Os)
delete_file exec path s = elim (tokens path) [
  | none ↦ none
  | some [] ↦ some (false, s)
  | some (t ∷ ts) ↦ elim (walk (λ q. check_write_permission exec q s) s 0 (all_but_last (t ∷ ts))) [
    | none ↦ some (false, s)
    | some p ↦ some (delete_file_in p (last t ts) s)
  ]
]
