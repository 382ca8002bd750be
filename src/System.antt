-- ===== src/System.antt =====
-- The state of `class OperatingSystem` (OS/OperatingSystem.h), its disk, and the calls that save it.
-- `inodeMem` is a function of the index, `blockMem` the flat function of the byte address
-- (block b starts at 2048 b), and `blockBitmap` the function that gives bit b % 8 of byte b / 8.
use student_management_syste.Prelude.{
  ℕ, Bool, true, false, Option, none, some, Bytes, if◌then◌else◌, leb,
}
use student_management_syste.Snapshot.{Inode, FileSnapshot, SnapshotFile}
use student_management_syste.Snapshot
use student_management_syste.Log.{Log}
use student_management_syste.Log

abbrev pub block_size : ℕ
block_size = 2048

abbrev pub block_number : ℕ
block_number = 1024

abbrev pub inode_number : ℕ
inode_number = 1024

-- The three arrays, which `writeSystem` and `backupSystem` save.
pub record Image : Type 0 where
  pub inode_mem : ℕ → Inode
  pub block_mem : ℕ → ℕ
  pub block_bitmap : ℕ → Bool

-- The files; `writable` says whether a file opens for writing.
pub record Disk : Type 0 where
  pub writable : Bool
  pub system_file : Image
  pub blockstack : SnapshotFile
  pub log_file : Bytes
  pub backup : Bytes → Option Image

pub record Os : Type 0 where
  pub image : Image
  pub snapshot : FileSnapshot
  pub system_log : Log
  pub disk : Disk

-- A call that overruns a buffer, or never returns, has the value `none`.
abbrev pub M : Type 0 → Type 0
M A = Os → Option (A × Os)

abbrev pub pure : {A : Type 0} → A → M A
pure a s = some (a, s)

infixl 5 ◌>>=◌ ◌>>◌
abbrev pub ◌>>=◌ : {A B : Type 0} → M A → (A → M B) → M B
◌>>=◌ m f s = elim (m s) [ none ↦ none | some (a, s') ↦ f a s' ]

abbrev pub ◌>>◌ : {A B : Type 0} → M A → M B → M B
m >> k = m >>= λ _. k

-- Reading the state, and a call without a result.
abbrev pub gets : {A : Type 0} → (Os → A) → M A
gets f s = some (f s, s)

abbrev pub modify : (Os → Os) → M (Unit {0})
modify f s = some (tt, f s)

abbrev pub is_negative : ℕ → Bool
is_negative x = leb 0x8000_0000 x

unfoldable pub write_system : Os → Bool × Os
write_system s =
    if s.disk.writable
    then (true, record s { disk = record s.disk { system_file = s.image } })
    else (false, s)

-- `snapshot->writeToFile()` and the `writeToFile` of `Log`, whose results the callers drop.
unfoldable pub write_snapshot : Os → Os
write_snapshot s =
    if s.disk.writable
    then record s { disk = record s.disk { blockstack = Snapshot.write_to_file s.snapshot } }
    else s

unfoldable pub write_log : Os → Os
write_log s =
    if s.disk.writable
    then record s { disk = record s.disk { log_file = Log.write_to_file s.system_log } }
    else s
