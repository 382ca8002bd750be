-- ===== src/File/Make/Created.antt =====
-- OS/OperatingSystem.cpp, `createDirectory` as a whole: from the path to the new directory.
use student_management_syste.Prelude.{
  ℕ, ◌<◌, ◌≡◌, ◌≢◌, ◌∙◌, refl, ap, true, false, not, some, List, ◌∷◌, Bytes, ◌==◌, length,
}
use student_management_syste.Snapshot.{minus_one}
use student_management_syste.System.{Image, Os, block_number, inode_number}
use student_management_syste.Journal.{push_block_and_inode}
use student_management_syste.Journal.Keeps.{push_image}
use student_management_syste.Memory.Laws.{no_nul}
use student_management_syste.Loop.{first}
use student_management_syste.Permission.{check_write_permission}
use student_management_syste.Path.{inode_id_at, find_entry, tokens, walk, all_but_last, last}
use student_management_syste.File.{find_slot, free, unused_block, find_inode, is_rejected, Access}
use student_management_syste.File.Make.{create_directory_at, create_directory_in, create_directory}
use student_management_syste.File.Make.Entered.{create_directory_at-find_entry}

-- What is saved first changes neither the search for a block nor that for an i-node.
unused_block-push : (b i : ℕ) (s : Os) → unused_block (push_block_and_inode b i s) ≡ unused_block s
unfolding unused_block
unused_block-push b i s =
    ap (λ (im : Image). first block_number 0 (λ c. not (im.block_bitmap c))) (push_image b i s)

find_inode-push : (b i : ℕ) (s : Os) → find_inode (push_block_and_inode b i s) ≡ find_inode s
unfolding find_inode
find_inode-push b i s =
    ap (λ (im : Image). first inode_number 0 (λ j. (im.inode_mem j).block_id == minus_one))
      (push_image b i s)

create_directory-at :
    (junk exec p e : ℕ) (path name : Bytes) (names : List Bytes) (a : Access) (s : Os)
    → is_rejected exec a s ≡ false
    → tokens path ≡ some (name ∷ names)
    → walk (λ q. check_write_permission exec q s) s 0 (all_but_last (name ∷ names)) ≡ some p
    → find_slot s.image.block_mem (s.image.inode_mem p).block_id (last name names) ≡ free e
    → create_directory junk exec path a s
      ≡ create_directory_at a
          (s.image.inode_mem p).block_id
          e
          (last name names)
          (push_block_and_inode (s.image.inode_mem p).block_id (s.image.inode_mem p).inode_number s)
unfolding create_directory create_directory_in
create_directory-at junk exec p e path name names a s r t w h =
    let b = (s.image.inode_mem p).block_id in
    let k : find_slot (push_block_and_inode b (s.image.inode_mem p).inode_number s).image.block_mem
          b (last name names)
        ≡ free e =
      ap (λ (im : Image). find_slot im.block_mem b (last name names))
        (push_image b (s.image.inode_mem p).inode_number s)
      ∙ h in
    rw (r, t, create_directory, w, create_directory_in, k) refl

-- If the caller may make a directory, the path has names, all but the last lead through
-- directories that the caller may write to the directory p, its block has a free entry e for the last
-- name, which has fewer than 28 bytes and no NUL, and n, another than the block of p, is the first
-- unused block and i the first unused i-node, then `createDirectory` succeeds, whatever its
-- variable `entry` held before; the name is then found at entry e of the block of p with the number i,
-- this i-node is a directory in block n, which is in use, and all 64 entries of block n are free.
pub create_directory-find_entry :
    (junk exec p e n i : ℕ) (path name : Bytes) (names : List Bytes) (a : Access) (s : Os)
    → is_rejected exec a s ≡ false
    → tokens path ≡ some (name ∷ names)
    → walk (λ q. check_write_permission exec q s) s 0 (all_but_last (name ∷ names)) ≡ some p
    → find_slot s.image.block_mem (s.image.inode_mem p).block_id (last name names) ≡ free e
    → unused_block s ≡ some n
    → find_inode s ≡ some i
    → n ≢ (s.image.inode_mem p).block_id
    → no_nul (last name names) ≡ true
    → length (last name names) < 28
    → (t : Os) × (create_directory junk exec path a s ≡ some (true, t))
      × (find_entry t.image.block_mem (s.image.inode_mem p).block_id (last name names) ≡ some e)
      × (inode_id_at t.image.block_mem (s.image.inode_mem p).block_id e ≡ i)
      × ((t.image.inode_mem i).block_id ≡ n)
      × ((t.image.inode_mem i).file_type ≡ 0)
      × (t.image.block_bitmap n ≡ true)
      × ((k : ℕ) → k < 64 → inode_id_at t.image.block_mem n k ≡ minus_one)
create_directory-find_entry junk exec p e n i path name names a s r w h f u v d c l =
    let b = (s.image.inode_mem p).block_id in
    let j = (s.image.inode_mem p).inode_number in
    let s' = push_block_and_inode b j s in
    let f' : find_slot s'.image.block_mem b (last name names) ≡ free e =
      ap (λ (im : Image). find_slot im.block_mem b (last name names)) (push_image b j s) ∙ f in
    let (t, made, found, number, block, kind, used, clear) =
      create_directory_at-find_entry a b e n i (last name names) s' f' (unused_block-push b j s ∙ u)
        (find_inode-push b j s ∙ v) d c l in
    (
      t,
      create_directory-at junk exec p e path name names a s r w h f ∙ made,
      found,
      number,
      block,
      kind,
      used,
      clear,
    )
