-- ===== src/Server/Session/Revoked.antt =====
-- OS/OperatingSystem.cpp: `revoke` after `writeFile`, which saves the block with the number of the
-- i-node in place of the block of the file.
use student_management_syste.Prelude.{
  ℕ, ◌+◌, ◌*◌, ◌/◌, ◌<◌, ◌≡◌, ◌≢◌, ◌∙◌, refl, ap, arith, true, false, some, List, [], ◌∷◌, Bytes,
  ◌==◌, inl, inr, Bool-cases, ltb, ltb→le, ltb→lt, length,
}
use student_management_syste.Snapshot.{entry_at}
use student_management_syste.Snapshot.Shape.{IsShaped}
use student_management_syste.System.{Image, Os, block_number, inode_number}
use student_management_syste.Journal.{capture, push_block_and_inode, push_tag, is_saved, revoke}
use student_management_syste.Journal.Pending.{Pending, begin, save, Edits-Pending}
use student_management_syste.Journal.Keeps.{push_image}
use student_management_syste.Journal.Replay.{restore-same}
use student_management_syste.Journal.Undo.{revoke-Pending}
use student_management_syste.Memory.{strcpy, is_format}
use student_management_syste.Memory.Laws.{no_nul, strcpy_off}
use student_management_syste.Layout.{with_memory}
use student_management_syste.File.Content.{
  Block, make_plain, write_content, write_file, read_file, block_at,
}
use student_management_syste.File.Content.Kept.{
  IsPlainFile, CanRead, CanWrite, rewritten, IsPlainFile-rewritten, CanRead-rewritten,
  read_file-plain, write_file-plain,
}
use student_management_syste.Server.Session.{texts}
use student_management_syste.Server.Session.Reread.{block_rewritten, printed-texts}

module _ (q : ℕ) (content : Bytes) (s : Os) (v : IsPlainFile q s) (l : length content < 2047)
    (other : (s.image.inode_mem q).inode_number ≢ (s.image.inode_mem q).block_id) where
  abbrev saved : ℕ
  saved = (s.image.inode_mem q).inode_number

  -- The block that is saved is the same after the write.
  same_byte :
      (o : ℕ)
      → o < 2048
      → (rewritten q content s v.plain l).block_mem (saved * 2048 + o)
        ≡ s.image.block_mem (saved * 2048 + o)
  same_byte o h = elim (Bool-cases (ltb saved (s.image.inode_mem q).block_id)) [
    | inl e ↦
        let p = ltb→lt saved (s.image.inode_mem q).block_id e in
        strcpy_off _ _ content _ (inl (omega (arith, p, h)))
    | inr e ↦
        let p : (s.image.inode_mem q).block_id < saved =
          ground (arith, ltb→le saved (s.image.inode_mem q).block_id e, other) in
        strcpy_off _ _ content _ (inr (omega (arith, p, h, l)))
  ]

  write_content-pushed :
      write_content q content s
      ≡ (true, record (push_block_and_inode saved q s) { image = rewritten q content s v.plain l })
  unfolding write_content make_plain with_memory
  write_content-pushed =
      let u = push_block_and_inode saved q s in
      let k : u.image ≡ s.image = push_image saved q s in
      let plain' : (u.image.inode_mem q).file_type ≡ 1 =
        ap (λ (im : Image). (im.inode_mem q).file_type) k ∙ v.plain in
      let one : (length content / 2047 + 1 == 1) ≡ true = ground (arith, l) in
      rw (plain', one)
        (λ i. (
          true,
          record u {
            image = record (k i) {
              block_mem = strcpy (k i).block_mem (2048 * ((k i).inode_mem q).block_id) content;
            };
          },
        ))

  -- What is saved is copied back to where it still is.
  kept-Pending :
      saved < block_number
      → q < inode_number
      → IsShaped s.snapshot
      → Pending
          (record s { image = rewritten q content s v.plain l })
          (capture s.image saved q ∷ [])
          (record (push_block_and_inode saved q s) { image = rewritten q content s v.plain l })
  kept-Pending hb hi h =
      let p = Edits-Pending h (save saved q hb hi begin) in
      record {
        shape = p.shape;
        stacked = p.stacked;
        below = p.below;
        now_le = p.now_le;
        undone = restore-same s.image (rewritten q content s v.plain l) saved q refl same_byte refl;
        log = p.log;
      }

-- `writeFile` of a text of fewer than 2047 bytes without a NUL, in which each '%' is followed by
-- another, succeeds on a plain file with a block of its own, whose
-- i-node has another number than its block, below the number of blocks, for a user whom the path
-- leads there and who may write it. But if the command ends there, a `revoke`, in a snapshot
-- that is in shape and where the command before has ended, reports that it succeeded, and a user
-- who could read the file is then still given the new text.
pub revoke-write_file :
    (exec reader q : ℕ) (path content command : Bytes) (s : Os)
    → IsPlainFile q s
    → CanWrite exec path q s
    → CanRead reader path q s
    → no_nul content ≡ true
    → is_format content ≡ true
    → length content < 2047
    → (s.image.inode_mem q).inode_number ≢ (s.image.inode_mem q).block_id
    → (s.image.inode_mem q).inode_number < block_number
    → q < inode_number
    → IsShaped s.snapshot
    → is_saved (entry_at s.snapshot s.snapshot.now_pointer) ≡ false
    → (t u : Os) × (write_file exec path content s ≡ some (true, t))
      × (revoke (push_tag command t) ≡ some (true, u))
      × (blocks : List Block) × (read_file reader path u ≡ some blocks)
      × (texts blocks ≡ some content)
revoke-write_file exec reader q path content command s v w r n f l other hb hi h tag =
    let t = record (push_block_and_inode (s.image.inode_mem q).inode_number q s) {
      image = rewritten q content s v.plain l;
    } in
    let (u, done, e, log, now, entries) =
      revoke-Pending _ t _ command (kept-Pending q content s v l other hb hi h) tag in
    (
      t,
      u,
      write_file-plain exec path q s v content w
          ∙ ap some (write_content-pushed q content s v l other),
      done,
      block_at u.image.block_mem (u.image.inode_mem q).block_id ∷ [],
      read_file-plain reader path q u (IsPlainFile-rewritten q content s u v l e)
          (CanRead-rewritten q content s u v l e reader q path r)
          (printed-texts _ content (block_rewritten q content s u v l n e) ∙ f),
      block_rewritten q content s u v l n e,
    )
