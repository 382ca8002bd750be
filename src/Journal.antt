-- ===== src/Journal.antt =====
-- OS/OperatingSystem.cpp, "System shot": saving blocks and i-nodes, closing a command with a tag,
-- and undoing the last command.
pub mod Keeps
pub mod Pending
pub mod Replay
pub mod Undo
use student_management_syste.Prelude.{
  ℕ, zero, suc, ◌+◌, ◌-◌, ◌*◌, ◌/◌, ◌%◌, Bool, true, false, not, ◌&&◌, ◌||◌, Option, none, some,
  Bytes, ◌==◌, ltb, leb, if◌then◌else◌, update,
}
use student_management_syste.Snapshot.{
  minus_one, Inode, BlockAndInode, tag_entry, FileSnapshot, entry_at, pushcc, pop, revoke_pop,
}
use student_management_syste.Snapshot
use student_management_syste.Log
use student_management_syste.System.{
  Image, Os, block_size, block_number, inode_number, is_negative, write_snapshot, write_log,
}

-- The entry that `pushBlockAndInode` builds.
unfoldable pub capture : Image → ℕ → ℕ → BlockAndInode
capture m b i = record {
  inode = m.inode_mem i;
  inode_id = i;
  block = λ o. m.block_mem (b * block_size + o);
  block_id = b;
  blockbit = if m.block_bitmap b then 1 else 0;
}

unfoldable pub push_block_and_inode : ℕ → ℕ → Os → Os
push_block_and_inode b i s =
    if is_negative b || ltb block_number b || is_negative i || ltb inode_number i
    then s
    else record s { snapshot = pushcc s.snapshot (capture s.image b i) }

unfoldable pub push_tag : Bytes → Os → Os
push_tag command s =
    let t = write_snapshot (record s { snapshot = pushcc s.snapshot tag_entry }) in
    write_log (record t { system_log = Log.push t.system_log command })

-- The condition of the loops of `revoke` and `recover`: the entry closes no command.
unfoldable pub is_saved : BlockAndInode → Bool
is_saved e =
    not (e.blockbit == minus_one) && not (e.block_id == minus_one) && not (e.inode_id == minus_one)

-- The body of these loops: the saved block, its bit and the saved i-node are copied back.
unfoldable pub restore : BlockAndInode → Image → Image
restore e m = record {
  inode_mem = update m.inode_mem e.inode_id e.inode;
  block_mem = λ a. if a / block_size == e.block_id then e.block (a % block_size) else m.block_mem a;
  block_bitmap = update m.block_bitmap e.block_id (not (e.blockbit == 0));
}

unfoldable pub revoke_loop : ℕ → Image → FileSnapshot → Option (Image × FileSnapshot)
revoke_loop zero m sn = none
revoke_loop (suc f) m sn = elim (is_saved (entry_at sn sn.now_pointer)) [
  | true ↦ revoke_loop f (restore (entry_at sn sn.now_pointer) m) (pop sn).1
  | false ↦ some (m, sn)
]

-- `systemLog->pop()`, which writes the file only if there was a command to take off.
unfoldable pub pop_log : Os → Os
pop_log s =
    let (popped, log) = Log.pop s.system_log in
    if popped then write_log (record s { system_log = log }) else s

-- Each round but the last lowers `nowPointer`, so `nowPointer` rounds are enough where a tag lies
-- at the bottom; without one the loop does not end.
unfoldable pub revoke : Os → Option (Bool × Os)
revoke s =
    if leb s.snapshot.now_pointer 0
    then some (false, s)
    else elim (revoke_loop s.snapshot.now_pointer s.image (pop s.snapshot).1) [
      | none ↦ none
      | some (m, sn) ↦
          let t = write_snapshot (record s { image = m; snapshot = sn }) in some (true, pop_log t)
    ]

unfoldable pub recover_loop : ℕ → Image → FileSnapshot → Option (Image × FileSnapshot)
recover_loop zero m sn = none
recover_loop (suc f) m sn = elim (is_saved (entry_at sn sn.now_pointer)) [
  | true ↦ recover_loop f (restore (entry_at sn sn.now_pointer) m) (revoke_pop sn).1
  | false ↦ some (m, sn)
]

unfoldable pub recover : Os → Option (Bool × Os)
recover s =
    if leb s.snapshot.max_pointer s.snapshot.now_pointer
    then some (false, s)
    else elim (recover_loop (s.snapshot.max_pointer - s.snapshot.now_pointer) s.image
        (revoke_pop s.snapshot).1) [
          | none ↦ none
          | some (m, sn) ↦ some (true, write_snapshot (record s { image = m; snapshot = sn }))
        ]

unfoldable pub initialize_snapshot : Os → Bool × Os
initialize_snapshot s =
    let t =
      write_log (write_snapshot (record s { snapshot = Snapshot.init; system_log = Log.init })) in
    (s.disk.writable, t)
