-- ===== src/Tests/Path.antt =====
-- Permissions and paths: a root directory in block 4 with the directory "a" in i-node 5, whose block
-- 6 has the file "b" in i-node 7. Users other than 0 may read and write nothing but the root and "a".
use student_management_syste.Prelude.{
  ℕ, Bytes, ◌≡◌, ◌≢◌, ◌↔◌, refl, true, false, some, none, [], ◌∷◌, arith, codes, ◌==◌,
  if◌then◌else◌,
}
use student_management_syste.Snapshot.{Inode, zero_inode, minus_one}
use student_management_syste.Snapshot
use student_management_syste.System.{Image, Os}
use student_management_syste.Memory.{Memory, c_str, name_eq, int_at, short_at}
use student_management_syste.Layout.{
  user_exists, user_id, user_group, is_admin, group_exists, group_id,
}
use student_management_syste.Permission.{
  check_read_permission, check_write_permission, check_execute_permission,
}
use student_management_syste.Permission.Granted.{
  Granted, check_permission_iff, check_execute_permission-false,
}
use student_management_syste.Path.{
  file_name_addr, inode_id_at, get_owner, get_group, strtok, tokens, get_read_inode_id,
  get_write_inode_id,
}
use student_management_syste.Path.Walked.{Resolves, IsEntry, enters, arrived, get_inode_id_iff}
use student_management_syste.File.Owner.{modify_owner, modify_group}
use student_management_syste.File.Owner.Changed.{modify_owner-get_owner, modify_group-get_group}

-- Bytes 8192 and 12288 are the names, 9984 and 14080 the numbers of i-nodes, 2078 the group of user
-- 0 and 2110 that of user 1.
abbrev tree_memory : Memory
tree_memory a =
    if a == 8192
    then 97
    else if a == 9984
    then 5
    else if a == 12288
    then 98
    else if a == 14080
    then 7
    else if a == 2110
    then 1
    else 0

abbrev inode_of : ℕ → Inode
inode_of i =
    if i == 0
    then record zero_inode { block_id = 4; other_permission = 3 }
    else if i == 5
    then record zero_inode { block_id = 6; other_permission = 3 }
    else if i == 7
    then record zero_inode { block_id = 8; file_type = 1; owner_permission = 7 }
    else zero_inode

abbrev tree_image : Image
tree_image = record { inode_mem = inode_of; block_mem = tree_memory; block_bitmap = λ _. false }

abbrev pub tree : Os
tree = record {
  image = tree_image;
  snapshot = Snapshot.init;
  system_log = [];
  disk = record {
    writable = true;
    system_file = tree_image;
    blockstack = Snapshot.write_to_file Snapshot.init;
    log_file = [];
    backup = λ _. none;
  };
}

check_permission_iff_example :
    ((check_read_permission 1 7 tree ≡ true) ↔ Granted 0 1 7 tree)
    × ((check_write_permission 1 7 tree ≡ true) ↔ Granted 1 1 7 tree)
check_permission_iff_example = check_permission_iff 1 7 tree

check_execute_permission-false_example : check_execute_permission 0 7 tree ≡ false
check_execute_permission-false_example = check_execute_permission-false 0 7 tree

tokens_of_path : tokens (codes "/a/b") ≡ some (codes "a" ∷ codes "b" ∷ [])
unfolding tokens c_str strtok
tokens_of_path = refl

get_inode_id_iff_example :
    ((q : ℕ) × (get_read_inode_id 0 (codes "/a/b") tree ≡ some q))
    × ((q : ℕ) × (get_write_inode_id 0 (codes "/a/b") tree ≡ some q))
    × ((q : ℕ)
        → q ≢ minus_one
        → ((get_read_inode_id 0 (codes "/a/b") tree ≡ some q)
            ↔ Resolves (λ z. check_read_permission 0 z tree) tree (codes "a") (codes "b" ∷ []) q)
          × ((get_write_inode_id 0 (codes "/a/b") tree ≡ some q)
              ↔ Resolves
                  (λ z. check_write_permission 0 z tree)
                  tree
                  (codes "a")
                  (codes "b" ∷ [])
                  q))
get_inode_id_iff_example =
    get_inode_id_iff 0 (codes "/a/b") tree (codes "a") (codes "b" ∷ []) tokens_of_path

-- The name is at the first entry.
first-IsEntry :
    (b : ℕ) (name : Bytes)
    → name_eq tree_memory (file_name_addr b 0) name ≡ true
    → IsEntry tree_memory b name 0
first-IsEntry b name e = record {
  passes = e;
  ge = omega arith;
  lt = omega arith;
  before = λ j h k. absurd (omega arith);
}

b_Resolves : Resolves (λ z. check_write_permission 0 z tree) tree (codes "a") (codes "b" ∷ []) 7
unfolding name_eq inode_id_at int_at check_write_permission is_admin user_group short_at
b_Resolves = record {
  directory = 5;
  entry = 0;
  leads = enters (first-IsEntry 4 (codes "a") refl) refl (omega arith) arrived;
  is_entry = first-IsEntry 6 (codes "b") refl;
  is_target = refl;
}

b_is_found : get_write_inode_id 0 (codes "/a/b") tree ≡ some 7
b_is_found = let (r, w, f) = get_inode_id_iff_example in ((f 7 (omega arith)).1).1 b_Resolves

modify_owner-get_owner_example :
    (t : Os) × (modify_owner 0 (codes "/a/b") 1 tree ≡ some (true, t))
    × (get_owner 0 (codes "/a/b") t ≡ some 1)
    × (get_group 0 (codes "/a/b") t ≡ some 0)
    × (t.image.block_mem ≡ tree_memory)
    × ((i : ℕ) → i ≢ 7 → t.image.inode_mem i ≡ inode_of i)
unfolding user_exists user_id is_admin user_group short_at
modify_owner-get_owner_example =
    modify_owner-get_owner 0 1 7 (codes "/a/b") tree (codes "a") (codes "b" ∷ []) refl refl refl
      tokens_of_path b_is_found (omega arith)

modify_group-get_group_example :
    (t : Os) × (modify_group 0 (codes "/a/b") 3 tree ≡ some (true, t))
    × (get_group 0 (codes "/a/b") t ≡ some 3)
    × (get_owner 0 (codes "/a/b") t ≡ some 0)
    × (t.image.block_mem ≡ tree_memory)
    × ((i : ℕ) → i ≢ 7 → t.image.inode_mem i ≡ inode_of i)
unfolding user_exists user_id group_exists group_id is_admin user_group short_at
modify_group-get_group_example =
    modify_group-get_group 0 3 7 (codes "/a/b") tree (codes "a") (codes "b" ∷ []) refl refl refl
      tokens_of_path b_is_found (omega arith)
