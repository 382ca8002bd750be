-- ===== src/Tests/Update.antt =====
-- A course "c" with homework "h" and a submission of the student "s", user 1: i-nodes 1 to 3 and the file
-- of the homework, i-node 5, in block 9. User 0 is an administrator.
use student_management_syste.Prelude.{
  ℕ, ◌≡◌, ◌≢◌, refl, sym, subst, true, some, [], ◌∷◌, Bytes, ◌==◌, if◌then◌else◌, update, codes,
  arith,
}
use student_management_syste.Snapshot.{Inode, zero_inode, minus_one}
use student_management_syste.System.{Os}
use student_management_syste.Memory.{c_string, Memory, strcpy, c_str, name_eq, int_at, short_at}
use student_management_syste.Layout.{
  is_admin, is_named, user_id, user_group, group_exists, user_exists, member,
}
use student_management_syste.Loop.{first}
use student_management_syste.User.{get_user_id}
use student_management_syste.Group.{check_user_from_group, find_member, to_short}
use student_management_syste.Permission.{check_read_permission, check_write_permission}
use student_management_syste.Path.{
  strtok, tokens, walk, find_entry, inode_id_at, get_inode_id, get_read_inode_id,
  get_write_inode_id, check_path, get_owner, get_group,
}
use student_management_syste.Path.Walked.{path_of}
use student_management_syste.File.Content.Kept.{IsPlainFile, CanRead, CanWrite}
use student_management_syste.Listing.{denied, user_row, list_user, list_as}
use student_management_syste.Server.Homework.{submit_homework}
use student_management_syste.Server.Homework.Stored.{holding, Sees}
use student_management_syste.Server.Homework.Submitted.{
  homework_file, HasHomework, check_homework-submit_homework_percent,
  check_homework-submit_homework,
}
use student_management_syste.Server.Grading.{check_homework}
use student_management_syste.Server.Session.{Env, outside, done, breaks}
use student_management_syste.Tests.Path.{tree}

abbrev names : Memory
names =
    strcpy
      (strcpy
        (strcpy
          (strcpy (strcpy (strcpy (λ a. 0) 2080 (codes "s")) 8192 (codes "c")) 10240 (codes "h"))
          12288 (codes "s"))
        14364 (codes "_homework"))
      18432 (codes "Answer")

abbrev numbers : Memory
numbers =
    update (update (update (update (update (update names 2108 1) 2110 1) 9984 1) 12032 2) 14080 3)
      16132 5

abbrev lesson_nodes : ℕ → Inode
lesson_nodes i =
    if i == 5
    then record zero_inode { block_id = 9; file_type = 1; inode_number = 5 }
    else record zero_inode {
      block_id =
          if i == 0 then 4 else if i == 1 then 5 else if i == 2 then 6 else if i == 3 then 7 else 0;
      other_permission = 7;
    }

abbrev lesson : Os
lesson = record tree {
  image = record { inode_mem = lesson_nodes; block_mem = numbers; block_bitmap = λ b. true };
}

abbrev homework_path : Bytes
homework_path = path_of (homework_file (codes "c") (codes "h") (codes "s"))

student_number : get_user_id 0 (codes "s") lesson ≡ 1
unfolding get_user_id is_admin first is_named name_eq user_id user_group short_at strcpy c_str
student_number = refl

homework_plain : IsPlainFile 5 lesson
homework_plain = record {
  known = λ p. absurd (omega (arith, p));
  plain = refl;
  block = record {
    behind = omega arith;
    root = λ p. absurd (omega (arith, p));
    others = λ r k z. ground (arith, k, z);
  };
}

homework_read : CanRead 0 homework_path 5 lesson
unfolding get_read_inode_id get_inode_id check_read_permission tokens c_str strtok walk find_entry
    first name_eq strcpy is_admin short_at inode_id_at int_at
homework_read = record { low = omega arith; leads = refl; allowed = refl }

homework_write : CanWrite 0 homework_path 5 lesson
unfolding get_write_inode_id get_inode_id check_write_permission tokens c_str strtok walk find_entry
    first name_eq strcpy is_admin short_at inode_id_at int_at
homework_write = record { low = omega arith; leads = refl; allowed = refl }

teacher-Sees : Sees 0 (codes "c") (codes "h") (codes "s") lesson
unfolding check_path get_read_inode_id get_inode_id check_read_permission tokens c_str strtok walk
    find_entry first name_eq strcpy is_admin short_at inode_id_at int_at
teacher-Sees = record {
  low = omega arith;
  course_found = refl;
  homework_found = refl;
  submission_found = refl;
}

student-Sees : Sees 1 (codes "c") (codes "h") (codes "s") lesson
unfolding check_path get_read_inode_id get_inode_id check_read_permission tokens c_str strtok walk
    find_entry first name_eq strcpy is_admin short_at inode_id_at int_at check_user_from_group
    group_exists user_exists find_member member to_short
student-Sees = record {
  low = omega arith;
  course_found = refl;
  homework_found = refl;
  submission_found = refl;
}

student_known : HasHomework (codes "c") (codes "h") (codes "s") 5 lesson
unfolding get_owner get_group get_read_inode_id get_inode_id check_read_permission tokens c_str
    strtok walk find_entry first name_eq strcpy is_admin short_at inode_id_at int_at
student_known = record {
  known = subst (λ u. u ≢ minus_one) (sym student_number) (λ p. absurd (omega (arith, p)));
  sees =
      subst (λ u. Sees u (codes "c") (codes "h") (codes "s") lesson) (sym student_number)
        student-Sees;
  owner = 0;
  group = 0;
  owned = refl;
  grouped = refl;
  plain = homework_plain;
  can_read = homework_read;
  can_write = homework_write;
}

abbrev no_env : Env
no_env = record { entry = 0; user = λ a. 0; password = λ a. 0; group = λ a. 0; depth = 4 }

-- The student, who works as user 1, submits anew, and a teacher looks at it.
check_homework-submit_homework_example :
    (os' : Os) × (submit_homework no_env 1 (
        holding outside lesson
          (codes "c" ∷ codes "h" ∷ codes "s" ∷ codes "0" ∷ codes "Better" ∷ [])
          [])
      ≡ done (codes "Successfully update homework content!") (holding outside os' [] []))
    × (check_homework 0 (holding outside os' (codes "c" ∷ codes "h" ∷ codes "s" ∷ []) [])
        ≡ done (codes "Better") (holding outside os' [] []))
check_homework-submit_homework_example =
    check_homework-submit_homework (codes "c") (codes "h") (codes "s") 5 lesson student_known no_env
      1 (codes "0") (codes "Better") refl (omega arith) refl refl 0 teacher-Sees [] [] []

check_homework-submit_homework_percent_example :
    (os' : Os) × (submit_homework no_env 1 (
        holding outside lesson
          (codes "c" ∷ codes "h" ∷ codes "s" ∷ codes "0" ∷ codes "100%" ∷ [])
          [])
      ≡ done (codes "Successfully update homework content!") (holding outside os' [] []))
    × (check_homework 0 (holding outside os' (codes "c" ∷ codes "h" ∷ codes "s" ∷ []) []) ≡ breaks)
check_homework-submit_homework_percent_example =
    check_homework-submit_homework_percent (codes "c") (codes "h") (codes "s") 5 lesson
      student_known no_env 1 (codes "0") (codes "100%") refl (omega arith) refl refl 0 teacher-Sees
      [] [] []

-- The student may not list the users, of whom the student is the second.
student_denied : list_user 1 lesson ≡ some denied
unfolding list_user list_as is_admin user_group short_at strcpy c_str
student_denied = refl

student_row : user_row numbers 1 ≡ some (record { name = codes "s"; id = 1; group = 1 })
unfolding user_row c_string user_id user_group short_at strcpy c_str
student_row = refl
