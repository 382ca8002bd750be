-- ===== src/Snapshot.antt =====
-- OS/FileSnapshot.h and OS/FileSnapshot.cpp: the stack of saved blocks and i-nodes.
-- An `int` is its 32-bit pattern, so -1 is `minus_one`; a `char` is its byte. The three pointers
-- never go below 0 and are plain numbers. A read of the vector out of range, which the invariant
-- of `Snapshot.Shape` rules out, gives `tag_entry`.
pub mod Shape
pub mod History
pub mod Store
use student_management_syste.Prelude.{
  ℕ, suc, ◌+◌, ◌-◌, Bool, true, false, List, [], ◌∷◌, ◌++◌, Option, none, some, ltb, leb, ◌==◌,
  if◌then◌else◌, get_or, set, take,
}

abbrev pub minus_one : ℕ
minus_one = 0xffff_ffff

pub record Inode : Type 0 where
  pub inode_number : ℕ
  pub block_id : ℕ
  pub file_type : ℕ
  pub user_id : ℕ
  pub group_id : ℕ
  pub owner_permission : ℕ
  pub group_permission : ℕ
  pub other_permission : ℕ

abbrev pub zero_inode : Inode
zero_inode = record {
  inode_number = 0;
  block_id = 0;
  file_type = 0;
  user_id = 0;
  group_id = 0;
  owner_permission = 0;
  group_permission = 0;
  other_permission = 0;
}

-- `block` holds the bytes of a `FileBlock`, by offset.
pub record BlockAndInode : Type 0 where
  pub inode : Inode
  pub inode_id : ℕ
  pub block : ℕ → ℕ
  pub block_id : ℕ
  pub blockbit : ℕ

-- The entry that `init` and `pushTag` build: it closes an atomic operation.
abbrev pub tag_entry : BlockAndInode
tag_entry = record {
  inode = zero_inode;
  inode_id = minus_one;
  block = λ _. 0;
  block_id = minus_one;
  blockbit = minus_one;
}

pub record FileSnapshot : Type 0 where
  pub snapshot_stack : List BlockAndInode
  pub now_pointer : ℕ
  pub top_pointer : ℕ
  pub max_pointer : ℕ

-- The file `blockstack`: the pointers in the order in which they are written, and the entries.
pub record SnapshotFile : Type 0 where
  pub now : ℕ
  pub max : ℕ
  pub top : ℕ
  pub entries : List BlockAndInode

abbrev pub entry_at : FileSnapshot → ℕ → BlockAndInode
entry_at s i = get_or s.snapshot_stack i tag_entry

-- What `init` leaves in memory, before it writes the file.
unfoldable pub init : FileSnapshot
init = record { snapshot_stack = tag_entry ∷ []; now_pointer = 0; top_pointer = 0; max_pointer = 0 }

unfoldable pub pushcc : FileSnapshot → BlockAndInode → FileSnapshot
pushcc s e =
    if s.now_pointer == s.top_pointer
    then record {
      snapshot_stack = s.snapshot_stack ++ e ∷ [];
      now_pointer = s.now_pointer + 1;
      top_pointer = s.top_pointer + 1;
      max_pointer = s.now_pointer + 1;
    }
    else record s {
      snapshot_stack = set s.snapshot_stack (s.now_pointer + 1) e;
      now_pointer = s.now_pointer + 1;
      max_pointer = s.now_pointer + 1;
    }

unfoldable pub pop : FileSnapshot → Bool × FileSnapshot
pop s =
    if ltb s.now_pointer 1 then (false, s) else (true, record s { now_pointer = s.now_pointer - 1 })

unfoldable pub revoke_pop : FileSnapshot → Bool × FileSnapshot
revoke_pop s =
    if leb s.max_pointer s.now_pointer
    then (false, s)
    else (true, record s { now_pointer = s.now_pointer + 1 })

-- What `writeToFile` writes: `topPointer + 1` entries.
unfoldable pub write_to_file : FileSnapshot → SnapshotFile
write_to_file s = record {
  now = s.now_pointer;
  max = s.max_pointer;
  top = s.top_pointer;
  entries = take (suc s.top_pointer) s.snapshot_stack;
}

-- `readFromFile` of a file that such a call wrote; `none` stands for a file that does not open.
unfoldable pub read_from_file : FileSnapshot → Option SnapshotFile → Bool × FileSnapshot
read_from_file s none = (false, s)
read_from_file s (some f) = (
  true,
  record {
    snapshot_stack = take (suc f.top) f.entries;
    now_pointer = f.now;
    top_pointer = f.top;
    max_pointer = f.max;
  },
)
