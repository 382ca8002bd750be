-- ===== src/File/Content.antt =====
-- OS/OperatingSystem.cpp, `readFile`, `writeFile` and `listFiles`. A `FileBlock` or `DirectoryBlock`
-- that is handed out is the function from the offset to the byte.
pub mod Kept
use student_management_syste.Prelude.{
  ℕ, zero, suc, ◌+◌, ◌*◌, ◌/◌, Bool, true, false, not, ◌||◌, Option, none, some, List, [], ◌∷◌,
  Bytes, ◌==◌, ltb, if◌then◌else◌, update, length, drop, get_or,
}
use student_management_syste.Snapshot.{minus_one, Inode}
use student_management_syste.System.{Os}
use student_management_syste.Journal.{push_block_and_inode}
use student_management_syste.Memory.{Memory, c_string, is_format, int_at, put_int, memcpy, strcpy}
use student_management_syste.Layout.{with_memory}
use student_management_syste.Permission.{check_read_permission, check_write_permission}
use student_management_syste.Path.{
  inode_id_at, find_entry, tokens, get_read_inode_id, get_write_inode_id,
}
use student_management_syste.File.{set_bit, find_block, fill}
use student_management_syste.File.Remove.{index_size}

abbrev pub Block : Type 0
Block = ℕ → ℕ

unfoldable pub block_at : Memory → ℕ → Block
block_at m b = λ o. m (2048 * b + o)

-- The blocks that the n pointers of the index block b, from i on, lead to.
unfoldable pub pointed : Memory → ℕ → ℕ → ℕ → List Block
pointed m b zero i = []
pointed m b (suc n) i =
    let rest = pointed m b n (i + 1) in
    let x = int_at m (2048 * b + 4 * i) in if x == minus_one then rest else block_at m x ∷ rest

-- `printf(fileBlock.content)`: the text of a block is the format. It has no value if no NUL ends the
-- text in the block.
unfoldable pub printed : Block → Bool
printed x = elim (c_string 2048 x 0) [ none ↦ false | some t ↦ is_format t ]

-- Each block is handed out and printed.
unfoldable pub print_blocks : List Block → Option (List Block)
print_blocks [] = some []
print_blocks (x ∷ xs) = elim (print_blocks xs) [
  | none ↦ none
  | some ys ↦ if printed x then some (x ∷ ys) else none
]

unfoldable pub blocks_of : Memory → Inode → Option (List Block)
blocks_of m node =
    if node.file_type == 1
    then print_blocks (block_at m node.block_id ∷ [])
    else if node.file_type == 2
    then print_blocks (pointed m node.block_id index_size 0)
    else some []

unfoldable pub read_file : ℕ → Bytes → Os → Option (List Block)
read_file exec path s = elim (tokens path) [
  | none ↦ none
  | some [] ↦ some []
  | some (t ∷ ts) ↦ elim (get_read_inode_id exec path s) [
    | none ↦ none
    | some q ↦
        if q == minus_one || not (check_read_permission exec q s)
        then some []
        else blocks_of s.image.block_mem (s.image.inode_mem q)
  ]
]

-- Along the names from i-node p; nobody's permission is asked.
unfoldable pub list_walk : Os → ℕ → List Bytes → Option ℕ
list_walk s p [] = some p
list_walk s p (name ∷ names) =
    let b = (s.image.inode_mem p).block_id in
    elim (find_entry s.image.block_mem b name) [
      | none ↦ none
      | some i ↦
          let q = inode_id_at s.image.block_mem b i in
          elim ((s.image.inode_mem q).file_type == 1) [ true ↦ none | false ↦ list_walk s q names ]
    ]

unfoldable pub list_files : Bytes → Os → Option (List Block)
list_files path s = elim (tokens path) [
  | none ↦ none
  | some names ↦ elim (list_walk s 0 names) [
    | none ↦ some []
    | some p ↦
        let node = s.image.inode_mem p in
        let m = s.image.block_mem in
        if node.file_type == 0
        then some (block_at m node.block_id ∷ [])
        else if node.file_type == 2
        then some (
            block_at m (int_at m (2048 * node.block_id))
            ∷ block_at m (int_at m (2048 * node.block_id + 4))
            ∷ [])
        else some []
  ]
]

-- The loop that gives back the blocks of i-node q behind the index block b: n pointers from i on.
unfoldable pub give_back : ℕ → ℕ → ℕ → ℕ → Os → Os
give_back q b zero i s = s
give_back q b (suc n) i s =
    let x = int_at s.image.block_mem (2048 * b + 4 * i) in
    let t = push_block_and_inode x q s in
    let freed = record t {
      image = record t.image { block_bitmap = update t.image.block_bitmap x false };
    } in
    give_back q b n (i + 1) (if x == minus_one then s else freed)

unfoldable pub set_kind : ℕ → ℕ → Os → Os
set_kind q kind s = record s {
  image = record s.image {
    inode_mem = update s.image.inode_mem q (record (s.image.inode_mem q) { file_type = kind });
  };
}

-- An index block that the file had is dropped, and becomes the file's plain block.
unfoldable pub make_plain : ℕ → Os → Os
make_plain q s =
    let b = (s.image.inode_mem q).block_id in
    if (s.image.inode_mem q).file_type == 2
    then fill (2048 * b) 0 2048 (set_kind q 1 (give_back q b index_size 0 s))
    else s

-- The loop over the parts of a long text: n more blocks, from pointer i on. Only the bytes of a
-- part are written, without a NUL behind them.
unfoldable pub write_parts : ℕ → ℕ → ℕ → ℕ → Bytes → Os → Bool × Os
write_parts q b zero i content s = (true, s)
write_parts q b (suc n) i content s =
    let (found, t) = find_block s in
    elim found [
      | none ↦ (false, t)
      | some x ↦
          let u = set_bit x (push_block_and_inode x q t) in
          let m = put_int u.image.block_mem (2048 * b + 4 * i) x in
          let k = if ltb (length content) 2048 then length content else 2047 in
          write_parts q b n (i + 1) (drop k content)
            (with_memory u (memcpy m (2048 * x) (λ j. get_or content j 0) 0 k))
    ]

-- The number of blocks, at most one index block's.
unfoldable pub part_number : Bytes → ℕ
part_number content =
    let n = length content / 2047 + 1 in if ltb index_size n then index_size else n

-- `writeFile` with a text, once the i-node q is found. What is saved first is the block whose number
-- is that of the i-node.
unfoldable pub write_content : ℕ → Bytes → Os → Bool × Os
write_content q content s0 =
    let s = make_plain q (push_block_and_inode (s0.image.inode_mem q).inode_number q s0) in
    let b = (s.image.inode_mem q).block_id in
    if length content / 2047 + 1 == 1
    then (true, with_memory s (strcpy s.image.block_mem (2048 * b) content))
    else write_parts q b (part_number content) 0 content (fill (2048 * b) 255 2048 (set_kind q 2 s))

unfoldable pub write_file : ℕ → Bytes → Bytes → Os → Option (Bool × Os)
write_file exec path content s = elim (tokens path) [
  | none ↦ none
  | some [] ↦ some (false, s)
  | some (t ∷ ts) ↦ elim (get_write_inode_id exec path s) [
    | none ↦ none
    | some q ↦
        if q == minus_one || not (check_write_permission exec q s)
        then some (false, s)
        else some (write_content q content s)
  ]
]

-- `writeFile` with one block. The i-node -1 of a path that leads nowhere is used before it is
-- tested: what lies in front of the array is the parameter, and `pushBlockAndInode` ignores it.
unfoldable pub write_block : ℕ → Bytes → Block → Os → Option (Bool × Os)
write_block exec path content s0 = elim (tokens path) [
  | none ↦ none
  | some [] ↦ some (false, s0)
  | some (t ∷ ts) ↦ elim (get_write_inode_id exec path s0) [
    | none ↦ none
    | some q ↦
        let s = push_block_and_inode (s0.image.inode_mem q).block_id q s0 in
        if q == minus_one || not (check_write_permission exec q s)
        then some (false, s)
        else let b = (s.image.inode_mem q).block_id in
          some (true, with_memory s (memcpy s.image.block_mem (2048 * b) content 0 2048))
  ]
]
