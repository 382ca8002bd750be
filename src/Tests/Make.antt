-- ===== src/Tests/Make.antt =====
-- A root directory in block 4 whose entry 0 is "a" and whose entry 1 is free, block 9 and i-node 3
-- not in use; and a file that is deleted.
use student_management_syste.Prelude.{
  ℕ, ◌<◌, ◌≡◌, refl, [], ◌∷◌, true, false, not, some, ◌==◌, ltb, if◌then◌else◌, codes, arith,
}
use student_management_syste.Snapshot.{Inode, zero_inode, minus_one}
use student_management_syste.System.{Os}
use student_management_syste.Memory.{Memory, int_at, short_at, name_eq, c_str}
use student_management_syste.Layout.{user_id, user_exists, group_exists}
use student_management_syste.Loop.{first}
use student_management_syste.Path.{strtok, tokens, walk, find_entry, inode_id_at, file_name_addr}
use student_management_syste.File.Remove.{delete_found, delete_all_file_in_directory}
use student_management_syste.File.Remove.Emptied.{delete_all_file_in_directory-empties}
use student_management_syste.File.Remove.Freed.{delete_found-frees}
use student_management_syste.File.{
  Access, find_slot, unused_block, find_inode, is_rejected, is_bad_char,
}
use student_management_syste.File.Make.{create_directory}
use student_management_syste.File.Make.Created.{create_directory-find_entry}
use student_management_syste.Tests.Path.{tree}

abbrev root_memory : Memory
root_memory a =
    if a == 8192
    then 97
    else if a == 9984
    then 5
    else if ltb a 9988
    then 0
    else if ltb a 10240
    then 255
    else 0

abbrev root_inode : ℕ → Inode
root_inode i =
    if i == 0
    then record zero_inode { block_id = 4 }
    else if i == 3
    then record zero_inode { block_id = minus_one }
    else record zero_inode { block_id = 6 }

abbrev root : Os
root = record tree {
  image = record {
    inode_mem = root_inode;
    block_mem = root_memory;
    block_bitmap = λ b. not (b == 9);
  };
}

abbrev teacher : Access
teacher = record { user = 2; group = 1; owner_bits = 7; group_bits = 7; other_bits = 0 }

may_make : is_rejected 0 teacher root ≡ false
unfolding is_rejected user_id short_at user_exists group_exists is_bad_char
may_make = refl

one_name : tokens (codes "/os") ≡ some (codes "os" ∷ [])
unfolding tokens c_str strtok
one_name = refl

create_directory-find_entry_example :
    (t : Os) × (create_directory minus_one 0 (codes "/os") teacher root ≡ some (true, t))
    × (find_entry t.image.block_mem 4 (codes "os") ≡ some 1)
    × (inode_id_at t.image.block_mem 4 1 ≡ 3)
    × ((t.image.inode_mem 3).block_id ≡ 9)
    × ((t.image.inode_mem 3).file_type ≡ 0)
    × (t.image.block_bitmap 9 ≡ true)
    × ((k : ℕ) → k < 64 → inode_id_at t.image.block_mem 9 k ≡ minus_one)
unfolding find_slot unused_block find_inode first name_eq inode_id_at int_at walk
create_directory-find_entry_example =
    create_directory-find_entry minus_one 0 0 1 9 3 (codes "/os") (codes "os") [] teacher root
      may_make one_name refl refl refl refl (λ p. absurd (omega (arith, p))) refl (omega arith)

-- The file "b" in the directory of block 6.
delete_found-frees_example :
    ((delete_found true 6 0 tree).0 ≡ true)
    × (inode_id_at (delete_found true 6 0 tree).1.image.block_mem 6 0 ≡ minus_one)
    × (name_eq (delete_found true 6 0 tree).1.image.block_mem (file_name_addr 6 0) [] ≡ true)
    × (((delete_found true 6 0 tree).1.image.inode_mem 7).block_id ≡ minus_one)
    × ((delete_found true 6 0 tree).1.image.block_bitmap 8 ≡ false)
unfolding inode_id_at int_at
delete_found-frees_example = delete_found-frees true 6 0 7 tree (omega arith) refl refl

-- The same directory, where all i-nodes are plain files.
abbrev plain : Os
plain = record root {
  image = record root.image { inode_mem = λ i. record zero_inode { block_id = 6; file_type = 1 } };
}

delete_all_file_in_directory-empties_example :
    (t : Os) × (delete_all_file_in_directory 1 4 plain ≡ some t)
    × ((j : ℕ) → j < 64 → inode_id_at t.image.block_mem 4 j ≡ minus_one)
delete_all_file_in_directory-empties_example =
    delete_all_file_in_directory-empties 0 4 plain λ j p z. absurd (omega (arith, z))
