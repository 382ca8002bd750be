-- ===== src/File/Owner/Changed.antt =====
-- Giving a file to another owner or group, and asking for it by the same path.
use native.Mathlib.Decide.{ℕ_discrete}
use student_management_syste.Prelude.{
  ℕ, ◌≡◌, ◌≢◌, refl, ap, ◌∙◌, true, some, List, ◌∷◌, Bytes, update, ne→==, eq→==,
}
use student_management_syste.Snapshot.{minus_one, Inode}
use student_management_syste.System.{Image, Os}
use student_management_syste.Journal.{push_block_and_inode}
use student_management_syste.Journal.Keeps.{push_image}
use student_management_syste.Layout.{is_admin, user_exists, group_exists}
use student_management_syste.Permission.{check_read_permission, check_write_permission}
use student_management_syste.Path.{
  tokens, get_read_inode_id, get_write_inode_id, get_owner, get_group, at_path,
}
use student_management_syste.File.Owner.{modify_inode, modify_owner, modify_group}
use student_management_syste.File.Owner.Kept.{Alike, get_inode_id_same}

-- An i-node that is changed, but keeps its block and its kind.
module _ (change : Inode → Inode) (q : ℕ) (s t : Os)
    (keeps_block : (i : Inode) → (change i).block_id ≡ i.block_id)
    (keeps_kind : (i : Inode) → (change i).file_type ≡ i.file_type)
    (memory : t.image.block_mem ≡ s.image.block_mem)
    (nodes : t.image.inode_mem ≡ update s.image.inode_mem q (change (s.image.inode_mem q))) where
  changed-Alike : Alike s t
  changed-Alike = record {
    memory = memory;
    block = λ i. elim (ℕ_discrete i q) [
      | yes e ↦ rw (nodes, e, eq→== q q refl) (keeps_block (s.image.inode_mem q))
      | no d ↦ rw (nodes, ne→== i q d) refl
    ];
    kind = λ i. elim (ℕ_discrete i q) [
      | yes e ↦ rw (nodes, e, eq→== q q refl) (keeps_kind (s.image.inode_mem q))
      | no d ↦ rw (nodes, ne→== i q d) refl
    ];
  }

  -- An administrator finds the same i-node for reading after the change as for writing before.
  found_again :
      (exec : ℕ) (path : Bytes) (n : Bytes) (ns : List Bytes)
      → is_admin s.image.block_mem exec ≡ true
      → tokens path ≡ some (n ∷ ns)
      → get_read_inode_id exec path t ≡ get_write_inode_id exec path s
  unfolding get_read_inode_id get_write_inode_id check_read_permission check_write_permission
  found_again exec path n ns admin e =
      get_inode_id_same (λ z. check_write_permission exec z s) (λ z. check_read_permission exec z t)
        s t changed-Alike (λ i. rw (memory, admin) refl) path n ns e

-- The state after the i-node q is changed.
unfoldable pub changed : (Inode → Inode) → ℕ → Os → Os
changed change q s0 =
    let s = push_block_and_inode (s0.image.inode_mem q).block_id q s0 in
    record s {
      image = record s.image {
        inode_mem = update s.image.inode_mem q (change (s.image.inode_mem q));
      };
    }

-- A query by the same path reads the field of the changed i-node.
module _ (change : Inode → Inode) (field : Inode → ℕ) (q : ℕ) (s : Os)
    (keeps_block : (i : Inode) → (change i).block_id ≡ i.block_id)
    (keeps_kind : (i : Inode) → (change i).file_type ≡ i.file_type) where
  image_of_push : (push_block_and_inode (s.image.inode_mem q).block_id q s).image ≡ s.image
  image_of_push = push_image (s.image.inode_mem q).block_id q s

  memory_kept : (changed change q s).image.block_mem ≡ s.image.block_mem
  unfolding changed
  memory_kept = ap (λ (im : Image). im.block_mem) image_of_push

  nodes_changed :
      (changed change q s).image.inode_mem
      ≡ update s.image.inode_mem q (change (s.image.inode_mem q))
  unfolding changed
  nodes_changed = ap (λ (im : Image). update im.inode_mem q (change (im.inode_mem q))) image_of_push

  others_kept : (i : ℕ) → i ≢ q → (changed change q s).image.inode_mem i ≡ s.image.inode_mem i
  others_kept i ne = rw (nodes_changed, ne→== i q ne) refl

  read_back :
      (exec : ℕ) (path : Bytes) (n : Bytes) (ns : List Bytes)
      → is_admin s.image.block_mem exec ≡ true
      → tokens path ≡ some (n ∷ ns)
      → get_write_inode_id exec path s ≡ some q
      → q ≢ minus_one
      → at_path
          (tokens path)
          (get_read_inode_id exec path (changed change q s))
          minus_one
          minus_one
          (λ z. field ((changed change q s).image.inode_mem z))
        ≡ some (field (change (s.image.inode_mem q)))
  read_back exec path n ns admin e found ne =
      let again =
        found_again change q s (changed change q s) keeps_block keeps_kind memory_kept nodes_changed
          exec path n ns admin e
        ∙ found in
      rw (e, again, ne→== q minus_one ne, nodes_changed, eq→== q q refl) refl

modify_inode_found :
    (change : Inode → Inode) (exec q : ℕ) (path : Bytes) (s : Os) (n : Bytes) (ns : List Bytes)
    → tokens path ≡ some (n ∷ ns)
    → get_write_inode_id exec path s ≡ some q
    → q ≢ minus_one
    → modify_inode change exec path s ≡ some (true, changed change q s)
unfolding modify_inode changed
modify_inode_found change exec q path s n ns e found ne =
    rw (e, found, ne→== q minus_one ne, modify_inode) refl

-- If an administrator in the system gives a file, whose path of fewer than 100 bytes has a token and
-- leads to i-node q, to a user of the system, `modifyOwner` is true, `getOwner` gives the new owner
-- and `getGroup` the old group, and the memory and the other i-nodes are as before.
pub modify_owner-get_owner :
    (exec user q : ℕ) (path : Bytes) (s : Os) (n : Bytes) (ns : List Bytes)
    → user_exists s.image.block_mem exec ≡ true
    → user_exists s.image.block_mem user ≡ true
    → is_admin s.image.block_mem exec ≡ true
    → tokens path ≡ some (n ∷ ns)
    → get_write_inode_id exec path s ≡ some q
    → q ≢ minus_one
    → (t : Os) × (modify_owner exec path user s ≡ some (true, t))
      × (get_owner exec path t ≡ some user)
      × (get_group exec path t ≡ some (s.image.inode_mem q).group_id)
      × (t.image.block_mem ≡ s.image.block_mem)
      × ((i : ℕ) → i ≢ q → t.image.inode_mem i ≡ s.image.inode_mem i)
unfolding modify_owner get_owner get_group
modify_owner-get_owner exec user q path s n ns he hu admin e found ne =
    let change : Inode → Inode = λ i. record i { user_id = user } in
    (
      changed change q s,
      rw (he, hu, admin) (modify_inode_found change exec q path s n ns e found ne),
      read_back change (λ i. i.user_id) q s (λ i. refl) (λ i. refl) exec path n ns admin e found ne,
      read_back change (λ i. i.group_id) q s (λ i. refl) (λ i. refl) exec path n ns admin e found
          ne,
      memory_kept change (λ i. i.user_id) q s (λ i. refl) (λ i. refl),
      others_kept change (λ i. i.user_id) q s (λ i. refl) (λ i. refl),
    )

-- The same of `modifyGroup` and a group of the system, with owner and group exchanged.
pub modify_group-get_group :
    (exec group q : ℕ) (path : Bytes) (s : Os) (n : Bytes) (ns : List Bytes)
    → user_exists s.image.block_mem exec ≡ true
    → group_exists s.image.block_mem group ≡ true
    → is_admin s.image.block_mem exec ≡ true
    → tokens path ≡ some (n ∷ ns)
    → get_write_inode_id exec path s ≡ some q
    → q ≢ minus_one
    → (t : Os) × (modify_group exec path group s ≡ some (true, t))
      × (get_group exec path t ≡ some group)
      × (get_owner exec path t ≡ some (s.image.inode_mem q).user_id)
      × (t.image.block_mem ≡ s.image.block_mem)
      × ((i : ℕ) → i ≢ q → t.image.inode_mem i ≡ s.image.inode_mem i)
unfolding modify_group get_owner get_group
modify_group-get_group exec group q path s n ns he hg admin e found ne =
    let change : Inode → Inode = λ i. record i { group_id = group } in
    (
      changed change q s,
      rw (he, hg, admin) (modify_inode_found change exec q path s n ns e found ne),
      read_back change (λ i. i.group_id) q s (λ i. refl) (λ i. refl) exec path n ns admin e found
          ne,
      read_back change (λ i. i.user_id) q s (λ i. refl) (λ i. refl) exec path n ns admin e found ne,
      memory_kept change (λ i. i.group_id) q s (λ i. refl) (λ i. refl),
      others_kept change (λ i. i.group_id) q s (λ i. refl) (λ i. refl),
    )
