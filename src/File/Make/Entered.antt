-- ===== src/File/Make/Entered.antt =====
-- What the branch of `createDirectory` (OS/OperatingSystem.cpp) for a free entry leaves.
use student_management_syste.Prelude.{
  ℕ, ◌+◌, ◌*◌, ◌<◌, ◌≤◌, ◌≡◌, ◌≢◌, ◌∙◌, refl, ap, arith, true, false, ◌||◌, some, Bytes, ◌==◌, ltb,
  inl, inr, length, Bool-cases,
}
use student_management_syste.Snapshot.{minus_one}
use student_management_syste.System.{Image, Os, inode_number}
use student_management_syste.Journal.{push_block_and_inode}
use student_management_syste.Journal.Keeps.{push_image}
use student_management_syste.Memory.{Memory, strcpy, memset, int_at, put_int, name_eq}
use student_management_syste.Memory.Laws.{
  no_nul, strcpy_at, strcpy_off, name_eq-holds, name_eq-frame, int_at-put_int, put_int_off,
  memset_off, memset_at, int_at-frame,
}
use student_management_syste.Loop.{first-some, first-cases, first-IsFirst}
use student_management_syste.Path.{
  entry_number, file_name_addr, inode_id_addr, inode_id_at, find_entry,
}
use student_management_syste.File.{
  find_slot, free, unused_block, find_inode, Access, enter, fill, new_inode,
}
use student_management_syste.File.Make.{clear_directory, create_directory_at}

-- Block n is emptied, and another block stays.
abbrev cleared : Memory → ℕ → Memory
cleared m n = memset (memset m (2048 * n) 0 1792) (2048 * n + 1792) 255 256

cleared_off :
    (m : Memory) (n b x : ℕ) → n ≢ b → 2048 * b ≤ x → x < 2048 * b + 2048 → cleared m n x ≡ m x
cleared_off m n b x d p q = elim (Bool-cases (ltb b n)) [
  | inl l ↦
      let lt : b < n = ground (arith, l) in
      memset_off _ _ 255 256 x (inl (omega (arith, lt, p, q)))
      ∙ memset_off m _ 0 1792 x (inl (omega (arith, lt, p, q)))
  | inr l ↦
      let lt : n < b = ground (arith, l, d) in
      memset_off _ _ 255 256 x (inr (omega (arith, lt, p, q)))
      ∙ memset_off m _ 0 1792 x (inr (omega (arith, lt, p, q)))
]

-- Every entry of the emptied block is free.
cleared_free : (m : Memory) (n k : ℕ) → k < 64 → inode_id_at (cleared m n) n k ≡ minus_one
unfolding inode_id_at int_at
cleared_free m n k l =
    let at : (o : ℕ) → o < 4 → cleared m n (2048 * n + 1792 + 4 * k + o) ≡ 255 =
      λ o h. memset_at _ _ 255 256 _ (omega arith) (omega (arith, l, h)) in
    let z : 2048 * n + 1792 + 4 * k + 0 ≡ 2048 * n + 1792 + 4 * k = omega arith in
    let first : cleared m n (2048 * n + 1792 + 4 * k) ≡ 255 = rw z at (at 0 (omega arith)) in
    rw (first, at 1 (omega arith), at 2 (omega arith), at 3 (omega arith)) refl

-- An entry gets a number and a name.
module _ (m : Memory) (b e i : ℕ) (name : Bytes) (lt : e < 64) (fits : length name < 28) where
  abbrev entered : Memory
  entered = strcpy (put_int m (inode_id_addr b e) i) (file_name_addr b e) name

  entered_before : (x : ℕ) → x < file_name_addr b e → entered x ≡ m x
  entered_before x p =
      strcpy_off _ _ name x (inl p) ∙ put_int_off m _ i x (inl (omega (arith, p, lt)))

  entered_number : i < 0x1_0000_0000 → inode_id_at entered b e ≡ i
  unfolding inode_id_at
  entered_number h =
      int_at-frame (put_int m (inode_id_addr b e) i) entered (inode_id_addr b e)
        (λ x p q. strcpy_off _ _ name x (inr (omega (arith, p, lt, fits))))
      ∙ int_at-put_int m (inode_id_addr b e) i h

  entered_name : no_nul name ≡ true → name_eq entered (file_name_addr b e) name ≡ true
  entered_name h = name_eq-holds entered _ name h λ k le. strcpy_at _ _ k name h le

-- A free entry is in the block, and the entries before it have other names.
find_slot-free :
    (m : Memory) (b : ℕ) (name : Bytes) (e : ℕ)
    → find_slot m b name ≡ free e
    → (e < 64) × ((j : ℕ) → j < e → name_eq m (file_name_addr b j) name ≡ false)
unfolding find_slot
find_slot-free m b name e h =
    elim (first-cases entry_number 0
      (λ i. name_eq m (file_name_addr b i) name || inode_id_at m b i == minus_one)) [
        | inl p ↦ absurd (ground (arith, p))
        | inr (k, p, v) ↦
            let same : k ≡ e = ground (arith, p) in
            (
              omega (arith, v.lt, same),
              λ j l. ground (arith, v.before j (omega arith) (omega (arith, l, same))),
            )
      ]

-- The name is found at the free entry, where the number is.
module _ (m : Memory) (b e i n : ℕ) (name : Bytes) (h : find_slot m b name ≡ free e) (d : n ≢ b)
    (c : no_nul name ≡ true) (l : length name < 28) where
  abbrev final : Memory
  final = cleared (entered m b e i name (find_slot-free m b name e h).0 l) n

  final_same :
      (j : ℕ)
      → j < 64
      → name_eq final (file_name_addr b j) name
        ≡ name_eq (entered m b e i name (find_slot-free m b name e h).0 l) (file_name_addr b j) name
  final_same j p =
      name_eq-frame _ _ _ _ name λ k q. cleared_off _ n b _ d (omega arith) (omega (arith, p, q, l))

  found : find_entry final b name ≡ some e
  unfolding find_entry
  found =
      let (lt, before) = find_slot-free m b name e h in
      first-IsFirst entry_number 0 e (λ j. name_eq final (file_name_addr b j) name)
        (record {
          passes = final_same e lt ∙ entered_name m b e i name lt l c;
          ge = omega arith;
          lt = omega (arith, lt);
          before = λ j p q.
              final_same j (omega (arith, q, lt))
              ∙ name_eq-frame m _ _ _ name
                  (λ k r. entered_before m b e i name lt l _ (omega (arith, q, r, l)))
              ∙ before j q;
        })

  numbered : i < 0x1_0000_0000 → inode_id_at final b e ≡ i
  unfolding inode_id_at
  numbered r =
      let lt = (find_slot-free m b name e h).0 in
      int_at-frame _ _ (inode_id_addr b e)
        (λ x p q. cleared_off _ n b x d (omega (arith, p)) (omega (arith, q, lt)))
      ∙ entered_number m b e i name lt l r

inode_small : (s : Os) (i : ℕ) → find_inode s ≡ some i → i < 1024
unfolding find_inode
inode_small s i q = (first-some inode_number 0 i _ q).lt

-- A directory block b with a free entry e for the name, an unused block n other than b, and an unused
-- i-node i, and a name of fewer than 28 bytes without a NUL: the branch of `createDirectory` for this
-- entry succeeds, the name is then found at entry e with the number i, this i-node is a directory in
-- block n, which is in use, and all 64 entries of block n are free.
pub create_directory_at-find_entry :
    (a : Access) (b e n i : ℕ) (name : Bytes) (s : Os)
    → find_slot s.image.block_mem b name ≡ free e
    → unused_block s ≡ some n
    → find_inode s ≡ some i
    → n ≢ b
    → no_nul name ≡ true
    → length name < 28
    → (t : Os) × (create_directory_at a b e name s ≡ some (true, t))
      × (find_entry t.image.block_mem b name ≡ some e)
      × (inode_id_at t.image.block_mem b e ≡ i)
      × ((t.image.inode_mem i).block_id ≡ n)
      × ((t.image.inode_mem i).file_type ≡ 0)
      × (t.image.block_bitmap n ≡ true)
      × ((k : ℕ) → k < 64 → inode_id_at t.image.block_mem n k ≡ minus_one)
unfolding create_directory_at clear_directory enter fill new_inode
create_directory_at-find_entry a b e n i name s h p q d c l =
    let u = push_block_and_inode n i s in
    let m = u.image.block_mem in
    let h' : find_slot m b name ≡ free e =
      ap (λ (im : Image). find_slot im.block_mem b name) (push_image n i s) ∙ h in
    let lt = (find_slot-free m b name e h').0 in
    let small : i < 1024 = inode_small s i q in
    (
      clear_directory n (enter a 0 b e i n name u),
      ground (arith, p, q, lt),
      found m b e i n name h' d c l,
      numbered m b e i n name h' d c l (omega (arith, small)),
      ground arith,
      ground arith,
      ground arith,
      cleared_free _ n,
    )
