-- ===== src/Tests/Journal.antt =====
-- The snapshot, the log and the undoing of a command, on a small disk image.
use student_management_syste.Prelude.{
  ℕ, ◌≡◌, refl, true, false, some, none, ◌≤◌, [], ◌∷◌, arith, codes, List, update,
}
use student_management_syste.Snapshot.{
  BlockAndInode, FileSnapshot, tag_entry, zero_inode, entry_at, pushcc, write_to_file,
  read_from_file,
}
use student_management_syste.Snapshot
use student_management_syste.Snapshot.Shape.{
  IsShaped, run, push, pops, revoke_pops, run-IsShaped, Call, step,
}
use student_management_syste.Snapshot.History.{history, history-step, abstract_step}
use student_management_syste.Snapshot.Store
use student_management_syste.Log
use student_management_syste.Log.Store as LogStore
use student_management_syste.System.{Image, Os}
use student_management_syste.Journal.{capture, push_block_and_inode, push_tag, revoke, is_saved}
use student_management_syste.Journal.Pending.{Edits, begin, save, edit}
use student_management_syste.Journal.Undo.{revoke-push_tag}

abbrev blank : Image
blank = record { inode_mem = λ _. zero_inode; block_mem = λ _. 0; block_bitmap = λ _. false }

abbrev calls : List Call
calls = push tag_entry ∷ push tag_entry ∷ pops ∷ revoke_pops ∷ pops ∷ push tag_entry ∷ []

run-IsShaped_example : IsShaped (run Snapshot.init calls)
run-IsShaped_example = run-IsShaped calls

two_pushed : FileSnapshot
two_pushed = run Snapshot.init (push tag_entry ∷ push tag_entry ∷ [])

two_pushed-IsShaped : IsShaped two_pushed
unfolding two_pushed
two_pushed-IsShaped = run-IsShaped (push tag_entry ∷ push tag_entry ∷ [])

history-step_example : history (step two_pushed pops) ≡ abstract_step (history two_pushed) pops
history-step_example = history-step two_pushed pops two_pushed-IsShaped

read_from_file-write_to_file_example :
    read_from_file Snapshot.init (some (write_to_file two_pushed)) ≡ (true, two_pushed)
read_from_file-write_to_file_example =
    Store.read_from_file-write_to_file Snapshot.init two_pushed two_pushed-IsShaped

abbrev two_commands : Log.Log
two_commands = codes "Create user bob." ∷ codes "Create course os." ∷ []

log_example : Log.read_from_file (Log.write_to_file two_commands) ≡ two_commands
log_example = LogStore.read_from_file-write_to_file_lines two_commands (refl, (refl, tt))

-- A system that has just been initialised, with empty blocks.
abbrev fresh : Os
fresh = record {
  image = blank;
  snapshot = Snapshot.init;
  system_log = [];
  disk = record {
    writable = true;
    system_file = blank;
    blockstack = write_to_file Snapshot.init;
    log_file = [];
    backup = λ _. none;
  };
}

-- The first byte of block 5 after the write, and the i-node 5 with another owner.
abbrev written : Image
written = record blank {
  block_mem = update (λ _. 0) 10240 7;
  inode_mem = update (λ _. zero_inode) 5 (record zero_inode { user_id = 2 });
  block_bitmap = update (λ _. false) 5 true;
}

abbrev after_write : Os
after_write = record (push_block_and_inode 5 5 fresh) { image = written }

write-Edits : Edits fresh (capture blank 5 5 ∷ []) after_write
unfolding capture push_block_and_inode
write-Edits =
    edit written
      (record {
        inodes = λ i h. ground arith;
        blocks = λ a h. ground arith;
        bits = λ b h. ground arith;
      })
      (save 5 5 (omega arith) (omega arith) begin)

revoke-push_tag_example :
    (u : Os) × (revoke (push_tag (codes "Write.") after_write) ≡ some (true, u))
    × (u.image ≡ blank)
    × (u.system_log ≡ [])
    × (u.snapshot.now_pointer ≡ 0)
    × ((i : ℕ) → i ≤ 0 → entry_at u.snapshot i ≡ entry_at fresh.snapshot i)
unfolding Snapshot.init is_saved run
revoke-push_tag_example =
    revoke-push_tag fresh after_write (capture blank 5 5 ∷ []) (codes "Write.") (run-IsShaped [])
      refl write-Edits
