-- ===== src/File/Remove/Freed.antt =====
-- What `deleteFile` leaves of a plain file.
use student_management_syste.Prelude.{
  ℕ, ◌<◌, ◌≡◌, ◌∙◌, refl, subst, ap, arith, Bool, true, false, [], ◌==◌, inr,
}
use student_management_syste.Snapshot.{minus_one}
use student_management_syste.System.{Image, Os}
use student_management_syste.Journal.{push_block_and_inode}
use student_management_syste.Journal.Keeps.{push_image}
use student_management_syste.Memory.{Memory, memset, put_int, name_eq}
use student_management_syste.Memory.Laws.{int_at-put_int, memset_off, memset_at, int_at-frame}
use student_management_syste.Layout.{with_memory}
use student_management_syste.Path.{file_name_addr, inode_id_addr, inode_id_at}
use student_management_syste.File.Remove.{delete_found, unused_inode}

-- The entry that is cleared is free and has no name.
cleared_entry :
    (m : Memory) (d i : ℕ)
    → i < 64
    → (inode_id_at (memset (put_int m (inode_id_addr d i) minus_one) (file_name_addr d i) 0 28) d i
        ≡ minus_one)
      × (name_eq
            (memset (put_int m (inode_id_addr d i) minus_one) (file_name_addr d i) 0 28)
            (file_name_addr d i)
            []
          ≡ true)
unfolding inode_id_at name_eq
cleared_entry m d i l = (
  int_at-frame (put_int m (inode_id_addr d i) minus_one) _ (inode_id_addr d i)
        (λ x p q. memset_off _ _ 0 28 x (inr (omega (arith, p, l))))
      ∙ int_at-put_int m (inode_id_addr d i) minus_one (omega arith),
  ap (λ v. v == 0)
      (memset_at (put_int m (inode_id_addr d i) minus_one) (file_name_addr d i) 0 28
        (file_name_addr d i) (omega arith) (omega arith)),
)

-- For a plain file it makes no difference whether the block of the file is saved before or within.
saved_before :
    (d i : ℕ) (s : Os)
    → (s.image.inode_mem (inode_id_at s.image.block_mem d i)).file_type ≡ 1
    → delete_found true d i s
      ≡ delete_found false d i (
          push_block_and_inode
            (s.image.inode_mem (inode_id_at s.image.block_mem d i)).block_id
            (inode_id_at s.image.block_mem d i)
            s)
unfolding delete_found
saved_before d i s p =
    let q = inode_id_at s.image.block_mem d i in
    let b = (s.image.inode_mem q).block_id in
    let u = push_block_and_inode b q s in
    let same : inode_id_at u.image.block_mem d i ≡ q =
      ap (λ (im : Image). inode_id_at im.block_mem d i) (push_image b q s) in
    let kind : (u.image.inode_mem q).file_type ≡ 1 =
      ap (λ (im : Image). (im.inode_mem q).file_type) (push_image b q s) ∙ p in
    rw same (rw kind refl)

unsaved-frees :
    (d i q : ℕ) (s : Os)
    → i < 64
    → inode_id_at s.image.block_mem d i ≡ q
    → (s.image.inode_mem q).file_type ≡ 1
    → ((delete_found false d i s).0 ≡ true)
      × (inode_id_at (delete_found false d i s).1.image.block_mem d i ≡ minus_one)
      × (name_eq (delete_found false d i s).1.image.block_mem (file_name_addr d i) [] ≡ true)
      × (((delete_found false d i s).1.image.inode_mem q).block_id ≡ minus_one)
      × ((delete_found false d i s).1.image.block_bitmap (s.image.inode_mem q).block_id ≡ false)
unfolding delete_found unused_inode with_memory
unsaved-frees d i q s l e p =
    let p' : (s.image.inode_mem (inode_id_at s.image.block_mem d i)).file_type ≡ 1 = rw e p in
    let (free, unnamed) = cleared_entry s.image.block_mem d i l in
    rw (← e) (rw p' (refl, free, unnamed, ground arith, ground arith))

-- If entry i, below 64, of the directory in block d has the number of a plain file, then
-- `deleteFile`, which has found it, succeeds, in a directory with an index block or without; the entry
-- is free and has no name, and the i-node and the block of the file are not in use.
pub delete_found-frees :
    (saves : Bool) (d i q : ℕ) (s : Os)
    → i < 64
    → inode_id_at s.image.block_mem d i ≡ q
    → (s.image.inode_mem q).file_type ≡ 1
    → ((delete_found saves d i s).0 ≡ true)
      × (inode_id_at (delete_found saves d i s).1.image.block_mem d i ≡ minus_one)
      × (name_eq (delete_found saves d i s).1.image.block_mem (file_name_addr d i) [] ≡ true)
      × (((delete_found saves d i s).1.image.inode_mem q).block_id ≡ minus_one)
      × ((delete_found saves d i s).1.image.block_bitmap (s.image.inode_mem q).block_id ≡ false)
delete_found-frees false d i q s l e p = unsaved-frees d i q s l e p
delete_found-frees true d i q s l e p =
    let p' : (s.image.inode_mem (inode_id_at s.image.block_mem d i)).file_type ≡ 1 = rw e p in
    let b = (s.image.inode_mem (inode_id_at s.image.block_mem d i)).block_id in
    let u = push_block_and_inode b (inode_id_at s.image.block_mem d i) s in
    let k : u.image ≡ s.image = push_image b (inode_id_at s.image.block_mem d i) s in
    let (a, free, unnamed, f, g) =
      unsaved-frees d i q u l (ap (λ (im : Image). inode_id_at im.block_mem d i) k ∙ e)
        (ap (λ (im : Image). (im.inode_mem q).file_type) k ∙ p) in
    rw (saved_before d i s p') (
      a,
      free,
      unnamed,
      f,
      subst
          (λ (im : Image).
            (delete_found false d i u).1.image.block_bitmap (im.inode_mem q).block_id ≡ false)
          k g,
    )
