-- ===== src/Server/Session/Reread.antt =====
-- OS/OperatingSystem.cpp, `writeFile`, and what Server/server.cpp makes of `readFile`: a short text
-- that is written to a file.
use mathlib.Core.List.{append-nil}
use student_management_syste.Prelude.{
  ℕ, ◌+◌, ◌*◌, ◌/◌, ◌<◌, ◌≡◌, ◌∙◌, ap, List, refl, Option-cases, ◌++◌, sym, subst, arith, true,
  some, [], ◌∷◌, Bytes, ◌==◌, ◌⊎◌, inl, inr, length,
}
use student_management_syste.Snapshot.{Inode}
use student_management_syste.System.{Image, Os}
use student_management_syste.Journal.{push_block_and_inode}
use student_management_syste.Journal.Keeps.{push_image}
use student_management_syste.Memory.{Memory, strcpy, c_string, is_format}
use student_management_syste.Memory.Laws.{no_nul, strcpy_at, name_eq-holds, c_string-name_eq}
use student_management_syste.Layout.{with_memory}
use student_management_syste.File.{fill}
use student_management_syste.File.Content.{
  Block, block_at, blocks_of, set_kind, make_plain, write_content, write_file, read_file, printed,
  print_blocks,
}
use student_management_syste.File.Content.Kept.{
  IsPlainFile, CanRead, CanWrite, rewritten, write_content-plain, IsPlainFile-rewritten,
  CanRead-rewritten, read_file-plain, write_file-plain,
}
use student_management_syste.Server.Session.{texts}

texts_one :
    (x : Block) (content : Bytes) → c_string 2048 x 0 ≡ some content → texts (x ∷ []) ≡ some content
unfolding texts
texts_one x content p = ground (arith, p, append-nil content)

-- What `printf` makes of a block depends on the block's text.
pub printed-texts :
    (x : Block) (content : Bytes) → texts (x ∷ []) ≡ some content → printed x ≡ is_format content
unfolding texts printed
printed-texts x content p = elim (Option-cases (c_string 2048 x 0)) [
  | inl n ↦ absurd (ground (arith, n, p))
  | inr (r, e) ↦
      let k : r ++ [] ≡ content = ground (arith, e, p) in
      rw (e, printed) (ap is_format (sym (append-nil r) ∙ k))
]

-- The block that a text was copied to holds the text.
block_text :
    (m : Memory) (b : ℕ) (content : Bytes)
    → no_nul content ≡ true
    → length content < 2047
    → texts (block_at (strcpy m (2048 * b) content) b ∷ []) ≡ some content
unfolding block_at
block_text m b content h l = texts_one _ content (
    c_string-name_eq 2048 _ 0 content (omega (arith, l)) (
      name_eq-holds _ 0 content h
        λ k le. let z : 0 + k ≡ k = omega arith in rw z (strcpy_at m (2048 * b) k content h le)))

blocks_of-plain :
    (m : Memory) (node : Inode)
    → node.file_type ≡ 1
    → printed (block_at m node.block_id) ≡ true
    → blocks_of m node ≡ some (block_at m node.block_id ∷ [])
unfolding blocks_of print_blocks
blocks_of-plain m node k p = rw (k, p, blocks_of) refl

-- A file that is plain, or that has an index block, is plain after `make_plain`.
make_plain-kind :
    (q : ℕ) (s : Os)
    → ((s.image.inode_mem q).file_type ≡ 1) ⊎ ((s.image.inode_mem q).file_type ≡ 2)
    → ((make_plain q s).image.inode_mem q).file_type ≡ 1
unfolding make_plain set_kind fill
make_plain-kind q s (inl p) = rw p p
make_plain-kind q s (inr p) = rw p (ground arith)

-- A text of fewer than 2047 bytes without a NUL, in which each '%' is followed by another, written to
-- a file that is plain or has an index block, is written, and the texts of the blocks that are then
-- read and printed from the file make up this text.
pub texts-write_content :
    (q : ℕ) (content : Bytes) (s : Os)
    → ((s.image.inode_mem q).file_type ≡ 1) ⊎ ((s.image.inode_mem q).file_type ≡ 2)
    → no_nul content ≡ true
    → is_format content ≡ true
    → length content < 2047
    → ((write_content q content s).0 ≡ true)
      × (blocks : List Block) × (blocks_of
            (write_content q content s).1.image.block_mem
            ((write_content q content s).1.image.inode_mem q)
          ≡ some blocks)
      × (texts blocks ≡ some content)
unfolding write_content with_memory
texts-write_content q content s p h f l =
    let t = push_block_and_inode (s.image.inode_mem q).inode_number q s in
    let u = make_plain q t in
    let e : t.image ≡ s.image = push_image (s.image.inode_mem q).inode_number q s in
    let p' : ((t.image.inode_mem q).file_type ≡ 1) ⊎ ((t.image.inode_mem q).file_type ≡ 2) =
      subst (λ (i : Image). ((i.inode_mem q).file_type ≡ 1) ⊎ ((i.inode_mem q).file_type ≡ 2))
        (sym e) p in
    let k : (u.image.inode_mem q).file_type ≡ 1 = make_plain-kind q t p' in
    let one : (length content / 2047 + 1 == 1) ≡ true = ground (arith, l) in
    let b = (u.image.inode_mem q).block_id in
    let held = block_text u.image.block_mem b content h l in
    rw one (
      refl,
      block_at (strcpy u.image.block_mem (2048 * b) content) b ∷ [],
      blocks_of-plain (strcpy u.image.block_mem (2048 * b) content) (u.image.inode_mem q) k
          (printed-texts _ content held ∙ f),
      held,
    )

-- The block of a plain file to which a text was written holds the text.
pub block_rewritten :
    (q : ℕ) (content : Bytes) (s t : Os) (v : IsPlainFile q s) (l : length content < 2047)
    → no_nul content ≡ true
    → t.image ≡ rewritten q content s v.plain l
    → texts (block_at t.image.block_mem (t.image.inode_mem q).block_id ∷ []) ≡ some content
block_rewritten q content s t v l h e =
    ap (λ (im : Image). texts (block_at im.block_mem (im.inode_mem q).block_id ∷ [])) e
    ∙ block_text s.image.block_mem (s.image.inode_mem q).block_id content h l

-- A text of fewer than 2047 bytes without a NUL, in which each '%' is followed by another, that is
-- written to a plain file with a block of its own by a user whom the path leads there, and who may write it, is what the same path then gives to
-- a user whom it led there before, and who may read it.
pub read_file-write_file :
    (exec reader q : ℕ) (path content : Bytes) (s : Os)
    → IsPlainFile q s
    → CanWrite exec path q s
    → CanRead reader path q s
    → no_nul content ≡ true
    → is_format content ≡ true
    → length content < 2047
    → (t : Os) × (write_file exec path content s ≡ some (true, t))
      × (blocks : List Block) × (read_file reader path t ≡ some blocks)
      × (texts blocks ≡ some content)
read_file-write_file exec reader q path content s v w r h f l =
    let t = (write_content q content s).1 in
    let (ok, e) = write_content-plain q content s v.plain l in
    let d = block_rewritten q content s t v l h e in
    (
      t,
      write_file-plain exec path q s v content w ∙ ap (λ b. some (b, t)) ok,
      block_at t.image.block_mem (t.image.inode_mem q).block_id ∷ [],
      read_file-plain reader path q t (IsPlainFile-rewritten q content s t v l e)
          (CanRead-rewritten q content s t v l e reader q path r) (printed-texts _ content d ∙ f),
      d,
    )
