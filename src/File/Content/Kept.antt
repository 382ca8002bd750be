-- ===== src/File/Content/Kept.antt =====
-- OS/OperatingSystem.cpp: what is written to a plain file is what the same path gives to read.
use student_management_syste.Prelude.{
  ℕ, ◌+◌, ◌*◌, ◌/◌, ◌<◌, ◌≤◌, ◌≡◌, ◌≢◌, ◌∙◌, ◌⊎◌, refl, sym, ap, subst, arith, Bool, true, false,
  none, some, List, [], ◌∷◌, Bytes, ◌==◌, ne→==, inl, inr, Option-cases, length,
}
use student_management_syste.Snapshot.{Inode, minus_one}
use student_management_syste.System.{Image, Os}
use student_management_syste.Journal.{push_block_and_inode}
use student_management_syste.Journal.Keeps.{push_image}
use student_management_syste.Memory.{strcpy}
use student_management_syste.Memory.Laws.{strcpy_off}
use student_management_syste.Layout.{with_memory}
use student_management_syste.Permission.{check_read_permission, check_write_permission}
use student_management_syste.Permission.Frame.{
  check_read_permission-frame, check_write_permission-frame,
}
use student_management_syste.Path.{tokens, get_inode_id, get_read_inode_id, get_write_inode_id}
use student_management_syste.Path.Frame.{
  Spares, IsFileBlock, get_read_inode_id-frame, get_write_inode_id-frame,
}
use student_management_syste.File.Content.{
  block_at, blocks_of, printed, print_blocks, read_file, make_plain, write_content, write_file,
}

-- A path that leads to a number has a name.
names_of :
    (f : ℕ → Bool) (path : Bytes) (s : Os) (q : ℕ)
    → get_inode_id f path s ≡ some q
    → (n : Bytes) × (ns : List Bytes) × (tokens path ≡ some (n ∷ ns))
unfolding get_inode_id
names_of f path s q h = elim (Option-cases (tokens path)) [
  | inl e ↦ absurd (let k : none ≡ some q = sym (rw (e, get_inode_id) refl) ∙ h in cc)
  | inr (ts, e) ↦ some_name ts e
]
  where
    some_name :
        (ts : List Bytes)
        → tokens path ≡ some ts
        → (n : Bytes) × (ns : List Bytes) × (tokens path ≡ some (n ∷ ns))
    some_name [] e = absurd (let k : none ≡ some q = sym (rw (e, get_inode_id) refl) ∙ h in cc)
    some_name (n ∷ ns) e = (n, ns, e)

module _ (q : ℕ) (content : Bytes) (s : Os) (plain : (s.image.inode_mem q).file_type ≡ 1)
    (l : length content < 2047) where
  -- Only the block of the file changes.
  abbrev pub rewritten : Image
  rewritten = record s.image {
    block_mem = strcpy s.image.block_mem (2048 * (s.image.inode_mem q).block_id) content;
  }

  pub write_content-plain :
      ((write_content q content s).0 ≡ true) × ((write_content q content s).1.image ≡ rewritten)
  unfolding write_content make_plain with_memory
  write_content-plain =
      let u = push_block_and_inode (s.image.inode_mem q).inode_number q s in
      let k : u.image ≡ s.image = push_image (s.image.inode_mem q).inode_number q s in
      let plain' : (u.image.inode_mem q).file_type ≡ 1 =
        ap (λ (im : Image). (im.inode_mem q).file_type) k ∙ plain in
      let one : (length content / 2047 + 1 == 1) ≡ true = ground (arith, l) in
      rw (plain', one)
        (
          refl,
          λ i. record (k i) {
            block_mem = strcpy (k i).block_mem (2048 * ((k i).inode_mem q).block_id) content;
          },
        )

  rewritten-Spares :
      (t : Os)
      → 4 ≤ (s.image.inode_mem q).block_id
      → t.image ≡ rewritten
      → Spares (s.image.inode_mem q).block_id s t
  rewritten-Spares t h e = record {
    agrees = record {
      nodes = ap (λ (im : Image). im.inode_mem) e;
      tables = λ x p.
          ap (λ (im : Image). im.block_mem x) e
          ∙ strcpy_off _ _ content x (inl (omega (arith, p, h)));
    };
    bytes = λ x p. ap (λ (im : Image). im.block_mem x) e ∙ off x p;
  }
    where
      off :
          (x : ℕ)
          → (x < 2048 * (s.image.inode_mem q).block_id)
            ⊎ (2048 * (s.image.inode_mem q).block_id + 2048 ≤ x)
          → rewritten.block_mem x ≡ s.image.block_mem x
      off x (inl p) = strcpy_off _ _ content x (inl p)
      off x (inr p) = strcpy_off _ _ content x (inr (omega (arith, p, l)))

-- The i-node q is a plain file, whose block is its own.
pub record IsPlainFile (q : ℕ) (s : Os) : Type 0 where
  pub known : q ≢ minus_one
  pub plain : (s.image.inode_mem q).file_type ≡ 1
  pub block : IsFileBlock (s.image.inode_mem q).block_id s

-- The path leads the reader, or the writer, to the i-node q, which allows it.
pub record CanRead (exec : ℕ) (path : Bytes) (q : ℕ) (s : Os) : Type 0 where
  pub low : exec < 64
  pub leads : get_read_inode_id exec path s ≡ some q
  pub allowed : check_read_permission exec q s ≡ true

pub record CanWrite (exec : ℕ) (path : Bytes) (q : ℕ) (s : Os) : Type 0 where
  pub low : exec < 64
  pub leads : get_write_inode_id exec path s ≡ some q
  pub allowed : check_write_permission exec q s ≡ true

-- What holds of a file holds after a text was written to it.
module _ (q : ℕ) (content : Bytes) (s t : Os) (v : IsPlainFile q s) (l : length content < 2047)
    (e : t.image ≡ rewritten q content s v.plain l) where
  pub spared : Spares (s.image.inode_mem q).block_id s t
  spared = rewritten-Spares q content s v.plain l t v.block.behind e

  abbrev node_same : (r : ℕ) → t.image.inode_mem r ≡ s.image.inode_mem r
  node_same r = ap (λ (f : ℕ → Inode). f r) spared.agrees.nodes

  pub IsPlainFile-rewritten : IsPlainFile q t
  IsPlainFile-rewritten =
      let b : (t.image.inode_mem q).block_id ≡ (s.image.inode_mem q).block_id =
        ap (λ (n : Inode). n.block_id) (node_same q) in
      record {
        known = v.known;
        plain = ap (λ (n : Inode). n.file_type) (node_same q) ∙ v.plain;
        block = record {
          behind = subst (λ x. 4 ≤ x) (sym b) v.block.behind;
          root = λ z. v.block.root (ap (λ (n : Inode). n.block_id) (sym (node_same 0)) ∙ z ∙ b);
          others = λ r k z.
              v.block.others r (λ y. k (ap (λ (n : Inode). n.file_type) (node_same r) ∙ y))
                (ap (λ (n : Inode). n.block_id) (sym (node_same r)) ∙ z ∙ b);
        };
      }

  pub CanRead-rewritten :
      (exec r : ℕ) (path : Bytes) → CanRead exec path r s → CanRead exec path r t
  CanRead-rewritten exec r path c = record {
    low = c.low;
    leads =
        get_read_inode_id-frame (s.image.inode_mem q).block_id s t spared v.block exec c.low path
        ∙ c.leads;
    allowed = check_read_permission-frame s t spared.agrees exec r c.low ∙ c.allowed;
  }

  pub CanWrite-rewritten :
      (exec r : ℕ) (path : Bytes) → CanWrite exec path r s → CanWrite exec path r t
  CanWrite-rewritten exec r path c = record {
    low = c.low;
    leads =
        get_write_inode_id-frame (s.image.inode_mem q).block_id s t spared v.block exec c.low path
        ∙ c.leads;
    allowed = check_write_permission-frame s t spared.agrees exec r c.low ∙ c.allowed;
  }

read_names :
    (exec q : ℕ) (path : Bytes) (s : Os)
    → get_read_inode_id exec path s ≡ some q
    → (n : Bytes) × (ns : List Bytes) × (tokens path ≡ some (n ∷ ns))
unfolding get_read_inode_id
read_names exec q path s h = names_of _ path s q h

write_names :
    (exec q : ℕ) (path : Bytes) (s : Os)
    → get_write_inode_id exec path s ≡ some q
    → (n : Bytes) × (ns : List Bytes) × (tokens path ≡ some (n ∷ ns))
unfolding get_write_inode_id
write_names exec q path s h = names_of _ path s q h

module _ (exec : ℕ) (path : Bytes) (q : ℕ) (s : Os) (v : IsPlainFile q s) where
  pub read_file-plain :
      CanRead exec path q s
      → printed (block_at s.image.block_mem (s.image.inode_mem q).block_id) ≡ true
      → read_file exec path s
        ≡ some (block_at s.image.block_mem (s.image.inode_mem q).block_id ∷ [])
  unfolding read_file blocks_of print_blocks
  read_file-plain c p =
      let (n, ns, e) = read_names exec q path s c.leads in
      rw (e, read_file, c.leads, ne→== q minus_one v.known, c.allowed, v.plain, p) refl

  -- A text that `printf` cannot print as a format ends the call.
  pub read_file-plain_percent :
      CanRead exec path q s
      → printed (block_at s.image.block_mem (s.image.inode_mem q).block_id) ≡ false
      → read_file exec path s ≡ none
  unfolding read_file blocks_of print_blocks
  read_file-plain_percent c p =
      let (n, ns, e) = read_names exec q path s c.leads in
      rw (e, read_file, c.leads, ne→== q minus_one v.known, c.allowed, v.plain, p) refl

  pub write_file-plain :
      (content : Bytes)
      → CanWrite exec path q s
      → write_file exec path content s ≡ some (write_content q content s)
  unfolding write_file
  write_file-plain content c =
      let (n, ns, e) = write_names exec q path s c.leads in
      rw (e, write_file, c.leads, ne→== q minus_one v.known, c.allowed) refl
