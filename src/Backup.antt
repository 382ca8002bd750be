-- ===== src/Backup.antt =====
-- OS/OperatingSystem.cpp: the constructor and the destructor, `backupSystem` and `recoverySystem`.
-- The last two save and bring back the three arrays under a name.
pub mod Restart
use student_management_syste.Prelude.{
  ℕ, zero, suc, ◌+◌, Bool, true, false, not, Option, none, some, [], Bytes, bytes_eq, if◌then◌else◌,
}
use student_management_syste.Snapshot.{FileSnapshot}
use student_management_syste.Snapshot
use student_management_syste.Log
use student_management_syste.System.{
  Image, Disk, Os, block_number, write_system, write_snapshot, write_log,
}
use student_management_syste.Journal.{push_block_and_inode}
use student_management_syste.Layout.{is_admin}

-- `new FileSnapshot()` before it reads its file.
abbrev pub no_snapshot : FileSnapshot
no_snapshot = record { snapshot_stack = []; now_pointer = 0; top_pointer = 0; max_pointer = 0 }

-- `OperatingSystem()`, where the three files open.
unfoldable pub start : Disk → Os
start d = record {
  image = d.system_file;
  snapshot = (Snapshot.read_from_file no_snapshot (some d.blockstack)).1;
  system_log = Log.read_from_file d.log_file;
  disk = d;
}

-- `~OperatingSystem()`: the files that are left.
unfoldable pub stop : Os → Disk
stop s = (write_log (write_snapshot (write_system s).1)).disk

-- A backup is a copy of the arrays in a file of its own. For a caller without the right the result -1
-- is true.
unfoldable pub backup_system : ℕ → Bytes → Os → Bool × Os
backup_system exec version s =
    if not (is_admin s.image.block_mem exec)
    then (true, s)
    else if not s.disk.writable
    then (false, s)
    else (
      true,
      record s {
        disk = record s.disk {
          backup = λ v. if bytes_eq v version then some s.image else s.disk.backup v;
        };
      },
    )

-- The n blocks and i-nodes from i on are saved.
unfoldable pub push_each : ℕ → ℕ → Os → Os
push_each zero i s = s
push_each (suc n) i s = push_each n (i + 1) (push_block_and_inode i i s)

unfoldable pub recovery_system : ℕ → Bytes → Os → Bool × Os
recovery_system exec version s =
    if not (is_admin s.image.block_mem exec) then (true, s) else elim (s.disk.backup version) [
      | none ↦ (false, s)
      | some saved ↦ let t = push_each block_number 0 s in write_system (record t { image = saved })
    ]
