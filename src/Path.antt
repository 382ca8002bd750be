-- ===== src/Path.antt =====
-- OS/OperatingSystem.cpp: directories and the walk along a path. A `DirectoryBlock` holds 64 names
-- of 28 bytes, and behind them 64 numbers of i-nodes.
pub mod Walked
pub mod Short
pub mod Frame
use student_management_syste.Prelude.{
  ℕ, zero, suc, ◌+◌, ◌*◌, Bool, true, false, not, ◌&&◌, ◌||◌, Option, none, some, List, [], ◌∷◌,
  Bytes, ◌==◌, ltb, if◌then◌else◌, length,
}
use student_management_syste.Snapshot.{minus_one, Inode}
use student_management_syste.System.{Os}
use student_management_syste.Loop.{first}
use student_management_syste.Memory.{Memory, c_str, int_at, name_eq}
use student_management_syste.Permission.{check_read_permission, check_write_permission}

abbrev pub entry_number : ℕ
entry_number = 64

-- The addresses of `block->fileName[i]` and `block->inodeID[i]` in block b.
abbrev pub file_name_addr : ℕ → ℕ → ℕ
file_name_addr b i = 2048 * b + 28 * i

abbrev pub inode_id_addr : ℕ → ℕ → ℕ
inode_id_addr b i = 2048 * b + 1792 + 4 * i

unfoldable pub inode_id_at : Memory → ℕ → ℕ → ℕ
inode_id_at m b i = int_at m (inode_id_addr b i)

-- The first entry with the name.
unfoldable pub find_entry : Memory → ℕ → Bytes → Option ℕ
find_entry m b name = first entry_number 0 (λ i. name_eq m (file_name_addr b i) name)

abbrev pub slash : ℕ
slash = b'/'

-- A byte is put in front of the first token, or starts a token of its own.
abbrev pub prepend : ℕ → List Bytes → List Bytes
prepend c [] = (c ∷ []) ∷ []
prepend c (t ∷ ts) = (c ∷ t) ∷ ts

abbrev pub starts_token : Bytes → Bool
starts_token [] = false
starts_token (c ∷ cs) = not (c == slash)

-- All that the calls of the C library's `strtok(paths, "/")` yield for a text without a NUL, which
-- `c_str` gives: the parts between slashes that are not empty.
unfoldable pub strtok : Bytes → List Bytes
strtok [] = []
strtok (c ∷ cs) =
    let rest = strtok cs in
    if c == slash then rest else if starts_token cs then prepend c rest else (c ∷ []) ∷ rest

-- `char paths[100]; strcpy(paths, path.c_str())` and the tokens; `none` if the path does not fit.
unfoldable pub tokens : Bytes → Option (List Bytes)
tokens path = if ltb 99 (length (c_str path)) then none else some (strtok (c_str path))

-- From the directory with the given i-node along the names: each is found in the block of the
-- directory, its i-node passes the test, and it is no plain file.
unfoldable pub walk : (ℕ → Bool) → Os → ℕ → List Bytes → Option ℕ
walk allowed s p [] = some p
walk allowed s p (name ∷ names) =
    let b = (s.image.inode_mem p).block_id in
    elim (find_entry s.image.block_mem b name) [
      | none ↦ none
      | some i ↦
          let q = inode_id_at s.image.block_mem b i in
          if not (allowed q) || (s.image.inode_mem q).file_type == 1
          then none
          else walk allowed s q names
    ]

abbrev pub all_but_last : List Bytes → List Bytes
all_but_last [] = []
all_but_last (t ∷ []) = []
all_but_last (t ∷ u ∷ ts) = t ∷ all_but_last (u ∷ ts)

abbrev pub last : Bytes → List Bytes → Bytes
last t [] = t
last t (u ∷ ts) = last u ts

-- The body of `getReadInodeID` and `getWriteInodeID`. A path without a token makes the C++ compare
-- with a null pointer (`none`); all callers exclude it.
unfoldable pub get_inode_id : (ℕ → Bool) → Bytes → Os → Option ℕ
get_inode_id allowed path s = elim (tokens path) [
  | none ↦ none
  | some [] ↦ none
  | some (t ∷ ts) ↦ elim (walk allowed s 0 (all_but_last (t ∷ ts))) [
    | none ↦ some minus_one
    | some p ↦
        let b = (s.image.inode_mem p).block_id in
        elim (find_entry s.image.block_mem b (last t ts)) [
          | none ↦ some minus_one
          | some i ↦ some (inode_id_at s.image.block_mem b i)
        ]
  ]
]

unfoldable pub get_read_inode_id : ℕ → Bytes → Os → Option ℕ
get_read_inode_id exec path s = get_inode_id (λ q. check_read_permission exec q s) path s

unfoldable pub get_write_inode_id : ℕ → Bytes → Os → Option ℕ
get_write_inode_id exec path s = get_inode_id (λ q. check_write_permission exec q s) path s

-- The result of a call on a path: `root` for a path without a token, `missing` for one that leads
-- nowhere, and else what the i-node's number gives.
abbrev pub at_path {ℓ} : {A : Type ℓ} → Option (List Bytes) → Option ℕ → A → A → (ℕ → A) → Option A
at_path none id root missing found = none
at_path (some []) id root missing found = some root
at_path (some (t ∷ ts)) none root missing found = none
at_path (some (t ∷ ts)) (some q) root missing found =
    some (if q == minus_one then missing else found q)

unfoldable pub get_owner : ℕ → Bytes → Os → Option ℕ
get_owner exec path s =
    at_path (tokens path) (get_read_inode_id exec path s) minus_one minus_one
      λ q. (s.image.inode_mem q).user_id

unfoldable pub get_group : ℕ → Bytes → Os → Option ℕ
get_group exec path s =
    at_path (tokens path) (get_read_inode_id exec path s) minus_one minus_one
      λ q. (s.image.inode_mem q).group_id

unfoldable pub check_path : ℕ → Bytes → Os → Option ℕ
check_path exec path s = at_path (tokens path) (get_read_inode_id exec path s) 0 minus_one λ q.
    let kind = (s.image.inode_mem q).file_type in
    if not (check_read_permission exec q s)
    then minus_one
    else if kind == 0
    then 0
    else if kind == 1 || kind == 2
    then kind
    else minus_one
