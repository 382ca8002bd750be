-- ===== src/Backup/Restart.antt =====
-- What comes back from the files: after a restart, and after a backup.
use student_management_syste.Prelude.{
  if_true, ℕ, zero, Bool, sym, Option, suc, ◌+◌, ◌≡◌, ◌∙◌, refl, ap, true, false, some, Bytes,
  bytes_eq_refl,
}
use student_management_syste.Snapshot
use student_management_syste.Snapshot.Shape.{IsShaped}
use student_management_syste.Snapshot.Store.{read_from_file-write_to_file}
use student_management_syste.Log
use student_management_syste.Log.Store.{AllOneLine, read_from_file-write_to_file_lines}
use student_management_syste.System.{
  Image, Disk, Os, block_number, write_system, write_snapshot, write_log,
}
use student_management_syste.Journal.{push_block_and_inode}
use student_management_syste.Journal.Keeps.{push_disk}
use student_management_syste.Layout.{is_admin}
use student_management_syste.Backup.{
  no_snapshot, start, stop, backup_system, push_each, recovery_system,
}

-- The files after `stop`, where files open for writing.
abbrev written : Os → Disk
written s = record s.disk {
  system_file = s.image;
  blockstack = Snapshot.write_to_file s.snapshot;
  log_file = Log.write_to_file s.system_log;
}

stop-written : (s : Os) → s.disk.writable ≡ true → stop s ≡ written s
unfolding stop write_system write_snapshot write_log
stop-written s w =
    let arrays : Os = record s { disk = record s.disk { system_file = s.image } } in
    let stack : Os = record arrays {
      disk = record arrays.disk { blockstack = Snapshot.write_to_file s.snapshot };
    } in
    ap (λ (p : Bool × Os). (write_log (write_snapshot p.1)).disk)
      (if_true s.disk.writable (true, arrays) (false, s) w)
    ∙ ap (λ (t : Os). (write_log t).disk) (if_true s.disk.writable stack arrays w)
    ∙ ap (λ (t : Os). t.disk)
        (if_true s.disk.writable
          (record stack { disk = record stack.disk { log_file = Log.write_to_file s.system_log } })
          stack w)

start-written :
    (s : Os)
    → IsShaped s.snapshot
    → AllOneLine s.system_log
    → start (written s) ≡ record s { disk = written s }
unfolding start
start-written s v l = λ i. record {
  image = s.image;
  snapshot = (read_from_file-write_to_file no_snapshot s.snapshot v i).1;
  system_log = read_from_file-write_to_file_lines s.system_log l i;
  disk = written s;
}

-- A system that is stopped where files open for writing, whose snapshot is in shape and whose
-- logged commands hold no line feed, has the same arrays, snapshot and log after a new start.
pub start-stop :
    (s : Os)
    → s.disk.writable ≡ true
    → IsShaped s.snapshot
    → AllOneLine s.system_log
    → start (stop s) ≡ record s { disk = stop s }
start-stop s w v l =
    ap start (stop-written s w)
    ∙ start-written s v l
    ∙ ap (λ (d : Disk). record s { disk = d }) (sym (stop-written s w))

push_each-disk : (n i : ℕ) (s : Os) → (push_each n i s).disk ≡ s.disk
unfolding push_each
push_each-disk zero i s = refl
push_each-disk (suc n) i s = push_each-disk n (i + 1) (push_block_and_inode i i s) ∙ push_disk i i s

backed_up :
    (exec : ℕ) (version : Bytes) (s : Os)
    → is_admin s.image.block_mem exec ≡ true
    → s.disk.writable ≡ true
    → (backup_system exec version s).1.disk.backup version ≡ some s.image
unfolding backup_system
backed_up exec version s a w = simp (a, w, bytes_eq_refl version) refl

-- What an administrator backed up under a name is what an administrator gets back under this name,
-- whatever became of the system in between, as long as the backups were left alone and files open
-- for writing; `system.txt` then holds it as well.
pub recovery_system-backup_system :
    (exec exec' : ℕ) (version : Bytes) (s u : Os)
    → is_admin s.image.block_mem exec ≡ true
    → s.disk.writable ≡ true
    → u.disk.backup ≡ (backup_system exec version s).1.disk.backup
    → u.disk.writable ≡ true
    → is_admin u.image.block_mem exec' ≡ true
    → ((backup_system exec version s).0 ≡ true)
      × ((recovery_system exec' version u).0 ≡ true)
      × ((recovery_system exec' version u).1.image ≡ s.image)
      × ((recovery_system exec' version u).1.disk.system_file ≡ s.image)
unfolding backup_system recovery_system write_system
recovery_system-backup_system exec exec' version s u a w same w' a' =
    let b : u.disk.backup version ≡ some s.image =
      ap (λ (f : Bytes → Option Image). f version) same ∙ backed_up exec version s a w in
    let d : (push_each block_number 0 u).disk.writable ≡ true =
      ap (λ (k : Disk). k.writable) (push_each-disk block_number 0 u) ∙ w' in
    (simp (a, w) refl, simp (a', b, d) refl, simp (a', b, d) refl, simp (a', b, d) refl)
