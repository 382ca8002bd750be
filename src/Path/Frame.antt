-- ===== src/Path/Frame.antt =====
-- The walk along a path does not see what is written to the block of a plain file.
use student_management_syste.Prelude.{
  ℕ, ◌+◌, ◌*◌, ◌<◌, ◌≤◌, ◌≡◌, ◌≢◌, ◌∙◌, ◌⊎◌, refl, sym, ap, subst, arith, Bool, not, ◌||◌, Option,
  none, some, List, [], ◌∷◌, Bytes, ◌==◌, ltb, inl, inr, if◌then◌else◌, Bool-cases, Option-cases,
  length, ltb→le, ltb→lt,
}
use student_management_syste.Snapshot.{Inode, minus_one}
use student_management_syste.System.{Os}
use student_management_syste.Memory.Laws.{name_eq-frame, int_at-frame}
use student_management_syste.Permission.Frame.{
  first-cong, Agrees, check_read_permission-frame, check_write_permission-frame,
}
use student_management_syste.Path.{
  entry_number, inode_id_addr, inode_id_at, find_entry, tokens, walk, all_but_last, last,
  get_inode_id, get_read_inode_id, get_write_inode_id, check_path, at_path,
}
use student_management_syste.Path.Short.{
  AllShort, tokens-AllShort, all_but_last-AllShort, last-short,
}
use student_management_syste.Path.Walked.{
  IsEntry-find_entry, next_inode, walk_turn, walk_enters, walk_arrived, walk_no_entry, by_walk,
}

-- The same i-nodes, users and groups, and the same bytes outside block B.
pub record Spares (B : ℕ) (s t : Os) : Type 0 where
  pub agrees : Agrees s t
  pub bytes :
      (x : ℕ) → (x < 2048 * B) ⊎ (2048 * B + 2048 ≤ x) → t.image.block_mem x ≡ s.image.block_mem x

-- Block B holds none of the tables, and no directory.
pub record IsFileBlock (B : ℕ) (s : Os) : Type 0 where
  pub behind : 4 ≤ B
  pub root : (s.image.inode_mem 0).block_id ≢ B
  pub others : (r : ℕ) → (s.image.inode_mem r).file_type ≢ 1 → (s.image.inode_mem r).block_id ≢ B

module _ (B : ℕ) (s t : Os) (v : Spares B s t) where
  other_block :
      (d x : ℕ)
      → d ≢ B
      → 2048 * d ≤ x
      → x < 2048 * d + 2048
      → t.image.block_mem x ≡ s.image.block_mem x
  other_block d x h p q = elim (Bool-cases (ltb d B)) [
    | inl e ↦ let l = ltb→lt d B e in v.bytes x (inl (omega (arith, l, q)))
    | inr e ↦
        let l : B < d = ground (arith, ltb→le d B e, h) in v.bytes x (inr (omega (arith, l, p)))
  ]

  find_entry-frame :
      (d : ℕ) (name : Bytes)
      → d ≢ B
      → length name ≤ 99
      → find_entry t.image.block_mem d name ≡ find_entry s.image.block_mem d name
  unfolding find_entry
  find_entry-frame d name h l = first-cong entry_number 0 _ _ λ i p q.
      name_eq-frame s.image.block_mem t.image.block_mem _ _ name
        λ k r. other_block d _ h (omega arith) (omega (arith, q, r, l))

  inode_id-frame :
      (d i : ℕ)
      → d ≢ B
      → i < 64
      → inode_id_at t.image.block_mem d i ≡ inode_id_at s.image.block_mem d i
  unfolding inode_id_at
  inode_id-frame d i h l =
      int_at-frame s.image.block_mem t.image.block_mem (inode_id_addr d i)
        λ x p q. other_block d x h (omega (arith, p)) (omega (arith, q, l))

-- With tests that agree, the walks go the same way, and arrive at a directory whose block is another.
module _ (B : ℕ) (s t : Os) (v : Spares B s t) (w : IsFileBlock B s) (f g : ℕ → Bool)
    (same : (q : ℕ) → g q ≡ f q) where
  node-frame : (p : ℕ) → t.image.inode_mem p ≡ s.image.inode_mem p
  node-frame p = ap (λ (h : ℕ → Inode). h p) v.agrees.nodes

  found-frame :
      (p : ℕ) (name : Bytes)
      → (s.image.inode_mem p).block_id ≢ B
      → length name ≤ 99
      → find_entry t.image.block_mem (t.image.inode_mem p).block_id name
        ≡ find_entry s.image.block_mem (s.image.inode_mem p).block_id name
  found-frame p name h l =
      ap (λ (n : Inode). find_entry t.image.block_mem n.block_id name) (node-frame p)
      ∙ find_entry-frame B s t v (s.image.inode_mem p).block_id name h l

  number-frame :
      (p i : ℕ) (name : Bytes)
      → (s.image.inode_mem p).block_id ≢ B
      → find_entry s.image.block_mem (s.image.inode_mem p).block_id name ≡ some i
      → inode_id_at t.image.block_mem (t.image.inode_mem p).block_id i
        ≡ inode_id_at s.image.block_mem (s.image.inode_mem p).block_id i
  number-frame p i name h e =
      ap (λ (n : Inode). inode_id_at t.image.block_mem n.block_id i) (node-frame p)
      ∙ inode_id-frame B s t v (s.image.inode_mem p).block_id i h (
          omega (
            arith,
            (IsEntry-find_entry s.image.block_mem (s.image.inode_mem p).block_id i name e).lt,
          ))

  walk-frame :
      (p : ℕ) (names : List Bytes)
      → (s.image.inode_mem p).block_id ≢ B
      → AllShort 99 names
      → walk g t p names ≡ walk f s p names
  unfolding next_inode
  walk-frame p [] h a = walk_arrived g t p ∙ sym (walk_arrived f s p)
  walk-frame p (name ∷ names) h (l, a) =
      elim (Option-cases (find_entry s.image.block_mem (s.image.inode_mem p).block_id name)) [
        | inl n ↦
            walk_no_entry g t p 0 name names (found-frame p name h l ∙ n)
            ∙ sym (walk_no_entry f s p 0 name names n)
        | inr (i, e) ↦
            let q = inode_id_at s.image.block_mem (s.image.inode_mem p).block_id i in
            let turn : (if not (f q) || (s.image.inode_mem q).file_type == 1
                  then none
                  else walk g t q names)
                ≡ (if not (f q) || (s.image.inode_mem q).file_type == 1
                    then none
                    else walk f s q names) =
              elim (Bool-cases ((s.image.inode_mem q).file_type == 1)) [
                | inl k ↦ ground (arith, k)
                | inr k ↦
                    ap (λ r. if not (f q) || (s.image.inode_mem q).file_type == 1 then none else r)
                      (walk-frame q names (w.others q (λ z. absurd (ground (arith, z, k)))) a)
              ] in
            walk_turn g t p i name names (found-frame p name h l ∙ e)
            ∙ rw (number-frame p i name h e, same q, node-frame q) turn
            ∙ sym (walk_turn f s p i name names e)
      ]

  walk-other :
      (p r : ℕ) (names : List Bytes)
      → (s.image.inode_mem p).block_id ≢ B
      → walk f s p names ≡ some r
      → (s.image.inode_mem r).block_id ≢ B
  unfolding next_inode
  walk-other p r [] h e =
      let same_end : p ≡ r =
        ap (λ (o : Option ℕ). elim o as (λ _. ℕ) [ none ↦ p | some q ↦ q ])
          (sym (walk_arrived f s p) ∙ e) in
      subst (λ q. (s.image.inode_mem q).block_id ≢ B) same_end h
  walk-other p r (name ∷ names) h e =
      elim (Option-cases (find_entry s.image.block_mem (s.image.inode_mem p).block_id name)) [
        | inl n ↦
            let k : none ≡ some r = sym (walk_no_entry f s p 0 name names n) ∙ e in absurd (cc)
        | inr (i, x) ↦
            let (a, n, z) = walk_enters f s p i name names r x e in
            walk-other (next_inode f s p i name names) r names (w.others _ n) z
      ]

  names-frame :
      (path : Bytes) (ts : List Bytes)
      → tokens path ≡ some ts
      → get_inode_id g path t ≡ get_inode_id f path s
  unfolding get_inode_id
  names-frame path [] e = rw (e, get_inode_id) refl
  names-frame path (n ∷ ns) e =
      let short = tokens-AllShort path (n ∷ ns) e in
      let same_walk =
        walk-frame 0 (all_but_last (n ∷ ns)) w.root (all_but_last-AllShort 99 (n ∷ ns) short) in
      elim (Option-cases (walk f s 0 (all_but_last (n ∷ ns)))) [
        | inl k ↦ rw (by_walk g path t n ns e, by_walk f path s n ns e, same_walk, k) refl
        | inr (p, k) ↦
            let h = walk-other 0 p (all_but_last (n ∷ ns)) w.root k in
            let same_entry = found-frame p (last n ns) h (last-short 99 n ns short) in
            elim (Option-cases
              (find_entry s.image.block_mem (s.image.inode_mem p).block_id (last n ns))) [
                | inl a ↦
                    rw
                      (
                        by_walk g path t n ns e,
                        by_walk f path s n ns e,
                        same_walk,
                        k,
                        same_entry,
                        a,
                      )
                      refl
                | inr (i, a) ↦
                    rw
                      (
                        by_walk g path t n ns e,
                        by_walk f path s n ns e,
                        same_walk,
                        k,
                        same_entry,
                        a,
                        number-frame p i (last n ns) h a,
                      )
                      refl
              ]
      ]

  pub get_inode_id-frame : (path : Bytes) → get_inode_id g path t ≡ get_inode_id f path s
  unfolding get_inode_id
  get_inode_id-frame path = elim (Option-cases (tokens path)) [
    | inl e ↦ rw (e, get_inode_id) refl
    | inr (ts, e) ↦ names-frame path ts e
  ]

-- What the calls on a path read.
module _ (B : ℕ) (s t : Os) (v : Spares B s t) (w : IsFileBlock B s) (exec : ℕ)
    (l : exec < 64) where
  pub get_read_inode_id-frame :
      (path : Bytes) → get_read_inode_id exec path t ≡ get_read_inode_id exec path s
  unfolding get_read_inode_id
  get_read_inode_id-frame =
      get_inode_id-frame B s t v w _ _ λ q. check_read_permission-frame s t v.agrees exec q l

  pub get_write_inode_id-frame :
      (path : Bytes) → get_write_inode_id exec path t ≡ get_write_inode_id exec path s
  unfolding get_write_inode_id
  get_write_inode_id-frame =
      get_inode_id-frame B s t v w _ _ λ q. check_write_permission-frame s t v.agrees exec q l

  pub check_path-frame : (path : Bytes) → check_path exec path t ≡ check_path exec path s
  unfolding check_path
  check_path-frame path = λ i.
      at_path (tokens path) (get_read_inode_id-frame path i) 0 minus_one λ q.
        let kind = (v.agrees.nodes i q).file_type in
        if not (check_read_permission-frame s t v.agrees exec q l i)
        then minus_one
        else if kind == 0
        then 0
        else if kind == 1 || kind == 2
        then kind
        else minus_one
