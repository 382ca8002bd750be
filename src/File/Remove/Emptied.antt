-- ===== src/File/Remove/Emptied.antt =====
-- `deleteAllFileInDirectory` on a directory without directories in it.
use student_management_syste.Prelude.{
  ℕ, zero, suc, ◌+◌, ◌<◌, ◌≤◌, ◌≡◌, ◌≢◌, ◌∙◌, refl, sym, subst, ap, arith, true, false, Option,
  none, some, ◌==◌, ==_iff, ltb, ◌⊎◌, inl, inr, update, Bool-cases,
}
use student_management_syste.Snapshot.{minus_one, Inode}
use student_management_syste.System.{Image, Os}
use student_management_syste.Journal.{push_block_and_inode}
use student_management_syste.Journal.Keeps.{push_image}
use student_management_syste.Memory.{Memory, memset, put_int}
use student_management_syste.Memory.Laws.{int_at-put_int, put_int_off, memset_off, int_at-frame}
use student_management_syste.Path.{entry_number, file_name_addr, inode_id_addr, inode_id_at}
use student_management_syste.File.Remove.{
  unused_inode, clear_entry, delete_one, delete_entries, delete_all_file_in_directory,
}

-- No entry of the directory in block b leads to a directory.
abbrev pub IsFlat : ℕ → Image → Type 0
IsFlat b m =
    (j : ℕ)
    → j < 64
    → (m.inode_mem (inode_id_at m.block_mem b j)).file_type ≡ 0
    → inode_id_at m.block_mem b j ≡ minus_one

abbrev pub IsFree : ℕ → Image → ℕ → Type 0
IsFree b m j = inode_id_at m.block_mem b j ≡ minus_one

-- The numbers of the other entries stay.
other_entry :
    (m : Memory) (b i j : ℕ)
    → i < 64
    → j < 64
    → j ≢ i
    → inode_id_at (put_int (memset m (file_name_addr b i) 0 28) (inode_id_addr b i) minus_one) b j
      ≡ inode_id_at m b j
unfolding inode_id_at
other_entry m b i j l k d = int_at-frame m _ (inode_id_addr b j) λ x p q.
    put_int_off _ (inode_id_addr b i) minus_one x (away x p q)
    ∙ memset_off m _ 0 28 x (inr (omega (arith, p, l)))
  where
    away :
        (x : ℕ)
        → inode_id_addr b j ≤ x
        → x < inode_id_addr b j + 4
        → (x < inode_id_addr b i) ⊎ (inode_id_addr b i + 4 ≤ x)
    away x p q = elim (Bool-cases (ltb j i)) [
      | inl h ↦ inl (let lt : j < i = ground (arith, h) in omega (arith, lt, q))
      | inr h ↦ inr (let lt : i < j = ground (arith, h, d) in omega (arith, lt, p))
    ]

own_entry :
    (m : Memory) (b i j : ℕ)
    → (j == i) ≡ true
    → inode_id_at (put_int m (inode_id_addr b i) minus_one) b j ≡ minus_one
unfolding inode_id_at
own_entry m b i j e =
    let same : j ≡ i = (==_iff j i).0 e in
    rw same (int_at-put_int m (inode_id_addr b i) minus_one (omega arith))

differ : (j i : ℕ) → (j == i) ≡ false → j ≢ i
differ j i e p = absurd (ground (arith, e, p))

-- An i-node that is given back is no directory.
kind_before :
    (nodes : ℕ → Inode) (q r : ℕ)
    → (update nodes q (unused_inode minus_one (nodes q)) r).file_type ≡ 0
    → (nodes r).file_type ≡ 0
unfolding unused_inode
kind_before nodes q r z = elim (Bool-cases (r == q)) [
  | inl e ↦ absurd (ground (arith, z, e))
  | inr e ↦ ground (arith, z, e)
]

-- What one turn leaves.
record Left (b i : ℕ) (s t : Image) : Type 0 where
  flat : IsFlat b t
  freed : IsFree b t i
  kept : (j : ℕ) → j < 64 → IsFree b s j → IsFree b t j

clear_entry-Left :
    (b i q : ℕ) (s : Os)
    → i < 64
    → IsFlat b s.image
    → Left b i s.image (clear_entry minus_one b i q s).image
unfolding clear_entry
clear_entry-Left b i q s l f =
    let m = s.image.block_mem in
    record {
      flat = λ j k z. elim (Bool-cases (j == i)) [
        | inl e ↦ own_entry _ b i j e
        | inr e ↦
            let same = other_entry m b i j l k (differ j i e) in
            same
            ∙ f j k (
                kind_before s.image.inode_mem q (inode_id_at m b j) (
                  subst
                    (λ r.
                      (update s.image.inode_mem q (unused_inode minus_one (s.image.inode_mem q))
                        r).file_type
                      ≡ 0)
                    same z))
      ];
      freed = own_entry _ b i i (ground arith);
      kept = λ j k z. elim (Bool-cases (j == i)) [
        | inl e ↦ own_entry _ b i j e
        | inr e ↦ other_entry m b i j l k (differ j i e) ∙ z
      ];
    }

-- One turn: it never looks into a directory.
delete_one-Left :
    (sub : ℕ → Os → Option Os) (b i : ℕ) (s : Os)
    → i < 64
    → IsFlat b s.image
    → (t : Os) × (delete_one sub b i s ≡ some t) × Left b i s.image t.image
unfolding delete_one
delete_one-Left sub b i s l f =
    let q = inode_id_at s.image.block_mem b i in
    let u = push_block_and_inode (s.image.inode_mem q).block_id q s in
    let k : u.image ≡ s.image = push_image (s.image.inode_mem q).block_id q s in
    elim (Bool-cases (q == minus_one)) [
      | inl e ↦
          (s, rw e refl, record { flat = f; freed = (==_iff q minus_one).0 e; kept = λ j p z. z })
      | inr e ↦ elim (Bool-cases ((u.image.inode_mem q).file_type == 0)) [
        | inl z ↦
            let kind : (s.image.inode_mem q).file_type ≡ 0 =
              ap (λ (m : Image). (m.inode_mem q).file_type) (sym k) ∙ (==_iff _ 0).0 z in
            absurd (differ q minus_one e (f i l kind))
        | inr z ↦ (
          clear_entry minus_one b i q u,
          rw (e, z) refl,
          subst (λ (m : Image). Left b i m (clear_entry minus_one b i q u).image) k
              (clear_entry-Left b i q u l (subst (IsFlat b) (sym k) f)),
        )
      ]
    ]

delete_entries-next :
    (sub : ℕ → Os → Option Os) (b n i : ℕ) (s t : Os)
    → delete_one sub b i s ≡ some t
    → delete_entries sub b (suc n) i s ≡ delete_entries sub b n (i + 1) t
unfolding delete_entries
delete_entries-next sub b n i s t e =
    ap
      (λ (o : Option Os). elim o as (λ _. Option Os) [
        | none ↦ none
        | some u ↦ delete_entries sub b n (i + 1) u
      ])
      e

delete_entries-empties :
    (sub : ℕ → Os → Option Os) (b n i : ℕ) (s : Os)
    → i + n ≤ 64
    → IsFlat b s.image
    → (t : Os) × (delete_entries sub b n i s ≡ some t)
      × ((j : ℕ) → j < i + n → (j < i → IsFree b s.image j) → IsFree b t.image j)
unfolding delete_entries
delete_entries-empties sub b zero i s l f = (s, refl, λ j p z. z (omega (arith, p)))
delete_entries-empties sub b (suc n) i s l f =
    let (t, e, r) = delete_one-Left sub b i s (omega (arith, l)) f in
    let (u, e', g) = delete_entries-empties sub b n (i + 1) t (omega (arith, l)) r.flat in
    (
      u,
      delete_entries-next sub b n i s t e ∙ e',
      λ j p z. g j (omega (arith, p)) (λ x. before t r j x z l),
    )
  where
    before :
        (t : Os)
        → Left b i s.image t.image
        → (j : ℕ) → j < i + 1
        → (j < i → IsFree b s.image j)
        → i + suc n ≤ 64
        → IsFree b t.image j
    before t r j x z l = elim (Bool-cases (j == i)) [
      | inl e ↦ subst (IsFree b t.image) (sym ((==_iff j i).0 e)) r.freed
      | inr e ↦ r.kept j (omega (arith, x, l)) (z (ground (arith, x, e)))
    ]

-- In a directory block without a directory in it `deleteAllFileInDirectory` comes to an end, with any
-- fuel but none, and leaves all 64 entries free.
pub delete_all_file_in_directory-empties :
    (fuel b : ℕ) (s : Os)
    → ((j : ℕ)
        → j < 64
        → (s.image.inode_mem (inode_id_at s.image.block_mem b j)).file_type ≡ 0
        → inode_id_at s.image.block_mem b j ≡ minus_one)
    → (t : Os) × (delete_all_file_in_directory (suc fuel) b s ≡ some t)
      × ((j : ℕ) → j < 64 → inode_id_at t.image.block_mem b j ≡ minus_one)
unfolding delete_all_file_in_directory
delete_all_file_in_directory-empties fuel b s f =
    let (t, e, g) =
      delete_entries-empties (delete_all_file_in_directory fuel) b entry_number 0 s (omega arith)
        f in
    (t, e, λ j p. g j (omega (arith, p)) (λ x. absurd (omega (arith, x))))
