-- ===== src/File/Owner/Kept.antt =====
-- What the changes of owner, group and permission leave: the walk along a path finds the same i-node.
use student_management_syste.Prelude.{
  ℕ, ◌≡◌, refl, sym, ap₂, ◌∙◌, Bool, some, List, [], ◌∷◌, Bytes, inl, inr, Option-cases,
}
use student_management_syste.System.{Os}
use student_management_syste.Path.{
  inode_id_at, find_entry, tokens, walk, all_but_last, last, get_inode_id,
}
use student_management_syste.Path.Walked.{
  next_inode, walk_turn, walk_arrived, walk_no_entry, by_walk,
}

-- Two states that a walk cannot tell apart.
pub record Alike (s t : Os) : Type 0 where
  pub memory : t.image.block_mem ≡ s.image.block_mem
  pub block : (i : ℕ) → (t.image.inode_mem i).block_id ≡ (s.image.inode_mem i).block_id
  pub kind : (i : ℕ) → (t.image.inode_mem i).file_type ≡ (s.image.inode_mem i).file_type

module _ (f g : ℕ → Bool) (s t : Os) (v : Alike s t) (same : (i : ℕ) → g i ≡ f i) where
  found_same :
      (p : ℕ) (name : Bytes)
      → find_entry t.image.block_mem (t.image.inode_mem p).block_id name
        ≡ find_entry s.image.block_mem (s.image.inode_mem p).block_id name
  found_same p name = ap₂ (λ m b. find_entry m b name) v.memory (v.block p)

  inode_same :
      (p i : ℕ)
      → inode_id_at t.image.block_mem (t.image.inode_mem p).block_id i
        ≡ inode_id_at s.image.block_mem (s.image.inode_mem p).block_id i
  inode_same p i = ap₂ (λ m b. inode_id_at m b i) v.memory (v.block p)

  walk_same : (p : ℕ) (names : List Bytes) → walk g t p names ≡ walk f s p names
  unfolding next_inode
  walk_same p [] = walk_arrived g t p ∙ sym (walk_arrived f s p)
  walk_same p (name ∷ names) =
      elim (Option-cases (find_entry s.image.block_mem (s.image.inode_mem p).block_id name)) [
        | inl n ↦
            walk_no_entry g t p 0 name names (found_same p name ∙ n)
            ∙ sym (walk_no_entry f s p 0 name names n)
        | inr (i, e) ↦
            let q = inode_id_at s.image.block_mem (s.image.inode_mem p).block_id i in
            walk_turn g t p i name names (found_same p name ∙ e)
            ∙ rw (inode_same p i, same q, v.kind q, walk_same q names) refl
            ∙ sym (walk_turn f s p i name names e)
      ]

  pub get_inode_id_same :
      (path : Bytes) (n : Bytes) (ns : List Bytes)
      → tokens path ≡ some (n ∷ ns)
      → get_inode_id g path t ≡ get_inode_id f path s
  get_inode_id_same path n ns e =
      let ends = last n ns in
      let same_walk = walk_same 0 (all_but_last (n ∷ ns)) in
      elim (Option-cases (walk f s 0 (all_but_last (n ∷ ns)))) [
        | inl k ↦ rw (by_walk g path t n ns e, by_walk f path s n ns e, same_walk, k) refl
        | inr (p, k) ↦
            elim (Option-cases (find_entry s.image.block_mem (s.image.inode_mem p).block_id ends)) [
              | inl a ↦
                  rw
                    (
                      by_walk g path t n ns e,
                      by_walk f path s n ns e,
                      same_walk,
                      k,
                      found_same p ends,
                      a,
                    )
                    refl
              | inr (i, a) ↦
                  rw
                    (
                      by_walk g path t n ns e,
                      by_walk f path s n ns e,
                      same_walk,
                      k,
                      found_same p ends,
                      a,
                      inode_same p i,
                    )
                    refl
            ]
      ]
