-- ===== src/Server/Course.antt =====
-- Server/server.cpp: the handlers about courses and their members.
pub mod Discipline
pub mod Heard
use student_management_syste.Prelude.{
  ℕ, zero, suc, ◌+◌, ◌*◌, Bool, true, false, not, ◌&&◌, Option, none, some, List, [], ◌∷◌, ◌++◌,
  Bytes, ◌==◌, leb, codes, if◌then◌else◌, length,
}
use student_management_syste.Snapshot.{minus_one}
use student_management_syste.Memory.{short_at}
use student_management_syste.Layout.{max_group_number, max_user_number_in_group}
use student_management_syste.User.{get_user_id, get_user_name, get_user_main_group}
use student_management_syste.Group.{
  create_group, delete_group, get_group_id, add_user_to_group, delete_user_from_group,
  check_user_from_group,
}
use student_management_syste.Path.{entry_number, check_path}
use student_management_syste.Path.Walked.{path_of}
use student_management_syste.File.Remove.{delete_directory}
use student_management_syste.File.Make.{create_directory}
use student_management_syste.File.Content.{Block, read_file, list_files}
use student_management_syste.Server.Session.{
  Act, Done, pure, lift, look, ◌>>=◌, ◌>>◌, recv_msg, drop_result, always, asks, change,
  if_directory, each, count_up, file_name, reading, writing, Env,
}
use student_management_syste.Server.Homework.{access, reply, no_course}

unfoldable pub make_course : Env → ℕ → Bytes → ℕ → Act Bytes
make_course e user course teacher = do
  group ← change (create_group e.group user course)
  drop_result (always (add_user_to_group user teacher group))
  drop_result (create_directory e.entry user (path_of (course ∷ [])) (access teacher group 7))
  reply (codes "Create course " ++ (course ++ codes ".")) (codes "Create course success!")

unfoldable pub make_course_for : Env → ℕ → Bytes → ℕ → Act Bytes
make_course_for e user course teacher = do
  main ← look (asks (get_user_main_group 0 teacher))
  if main == 1
      then (do
        kind ← look (check_path user (path_of (course ∷ [])))
        if kind == 0 then pure (codes "Course exists.") else (do
          group ← look (asks (get_group_id 0 course))
          if group == minus_one
              then make_course e user course teacher
              else pure (codes "Create course failed.")))
      else pure (codes "User is not a teacher.")

unfoldable pub create_course : Env → ℕ → Act Bytes
create_course e user = do
  course ← recv_msg
  teacher_name ← recv_msg
  writing (do
    teacher ← look (asks (get_user_id user teacher_name))
    if teacher == minus_one
        then pure (codes "Teacher does not exist.")
        else make_course_for e user course teacher)

unfoldable pub delete_course : Env → ℕ → Act Bytes
delete_course e user = do
  course ← recv_msg
  writing (
      if_directory user (course ∷ []) no_course (do
        drop_result (delete_directory e.depth 0 (path_of (course ∷ [])))
        group ← look (asks (get_group_id 0 course))
        drop_result (always (delete_group 0 group))
        reply (codes "Delete course " ++ (course ++ codes ".")) (codes "Delete course success!")))

unfoldable pub add_student : ℕ → Bytes → Bytes → ℕ → Act Bytes
add_student user course name student = do
  group ← look (asks (get_group_id user course))
  is_member ← look (asks (check_user_from_group user student group))
  if is_member then pure (codes "The student has already chosen the course.") else (do
    drop_result (always (add_user_to_group user student group))
    reply (codes "Add student " ++ (name ++ (codes " to course " ++ (course ++ codes "."))))
        (codes "Successfully added!"))

unfoldable pub add_to_course : ℕ → Act Bytes
add_to_course user = do
  course ← recv_msg
  name ← recv_msg
  writing (do
    student ← look (asks (get_user_id user name))
    if student == minus_one
        then pure (codes "Student does not exist.")
        else if_directory user (course ∷ []) (codes "Course does not exists.")
            (add_student user course name student))

-- One entry of a course's directory, as it was when the loop began.
unfoldable pub drop_assignment : Env → Bytes → Bytes → Block → ℕ → Done → Act Done
drop_assignment e course student block i done_before = do
  name ← lift (file_name block i)
  if length name == 0 then pure tt else (do
    kind ← look (check_path 0 (path_of (course ∷ name ∷ student ∷ [])))
    if kind == 0
        then drop_result (delete_directory e.depth 0 (path_of (course ∷ name ∷ student ∷ [])))
        else pure tt)

unfoldable pub delete_student_assignment_from_course : Env → Bytes → Bytes → Act Done
delete_student_assignment_from_course e student course = do
  blocks ← look (list_files (path_of (course ∷ [])))
  each (λ block. count_up (drop_assignment e course student block) entry_number 0) blocks tt

unfoldable pub delete_student : Env → ℕ → Bytes → Bytes → ℕ → Act Bytes
delete_student e user course name student = do
  group ← look (asks (get_group_id user course))
  is_member ← look (asks (check_user_from_group user student group))
  if is_member
      then (do
        delete_student_assignment_from_course e name course
        drop_result (always (delete_user_from_group user student group))
        reply
            (codes "Delete student " ++ (name ++ (codes " from course " ++ (course ++ codes "."))))
            (codes "Successfully deleted!"))
      else pure (codes "Student has already dropped out of class.")

unfoldable pub delete_from_course : Env → ℕ → Act Bytes
delete_from_course e user = do
  course ← recv_msg
  name ← recv_msg
  writing (do
    student ← look (asks (get_user_id user name))
    if student == minus_one
        then pure (codes "Student does not exist.")
        else if_directory user (course ∷ []) (codes "Course does not exists.")
            (delete_student e user course name student))

-- In the copy of a block that is read as a `GroupBlock`: the last group with the number.
unfoldable pub last_group : Block → ℕ → ℕ → ℕ → Option ℕ → Option ℕ
last_group block group zero i best = best
last_group block group (suc n) i best =
    last_group block group n (i + 1)
      (if short_at block (130 * i + 20) == group then some i else best)

-- Its member j. The last group's last members are behind the end of the block.
unfoldable pub member_of : Block → ℕ → ℕ → Option ℕ
member_of block g j =
    let a = 130 * g + 22 + 2 * j in if leb (a + 2) 2048 then some (short_at block a) else none

unfoldable pub for_group :
    (ℕ → Bytes → Bytes × Bytes → Act (Bytes × Bytes))
    → ℕ
    → Block
    → Bytes × Bytes
    → Option ℕ
    → Act (Bytes × Bytes)
for_group show user block shown none = pure shown
for_group show user block shown (some g) =
    count_up
      (λ j texts. do
        member ← lift (member_of block g j)
        name ← look (get_user_name user member)
        if length name == 0 then pure texts else show member name texts)
      max_user_number_in_group 0 shown

unfoldable pub for_members :
    (ℕ → Bytes → Bytes × Bytes → Act (Bytes × Bytes))
    → ℕ
    → ℕ
    → Block
    → Bytes × Bytes
    → Act (Bytes × Bytes)
for_members show user group block shown =
    for_group show user block shown (last_group block group max_group_number 0 none)

-- A teacher's name goes to the first text, and a student's to the second.
unfoldable pub show_by_kind : ℕ → Bytes → Bytes × Bytes → Act (Bytes × Bytes)
show_by_kind member name (teachers, students) = do
  kind ← look (asks (get_user_main_group 0 member))
  pure (
    if kind == 1 then teachers ++ (name ++ codes "\n") else teachers,
    if kind == 2 then students ++ (name ++ codes "\n") else students,
  )

unfoldable pub show_all : ℕ → Bytes → Bytes × Bytes → Act (Bytes × Bytes)
show_all member name (shown, other) = pure (shown ++ (name ++ codes "\n"), other)

unfoldable pub list_course_user : Act Bytes
list_course_user = do
  course ← recv_msg
  reading (do
    group ← look (asks (get_group_id 0 course))
    if group == minus_one then pure no_course else (do
      files ← look (read_file 0 (codes "/_group"))
      texts ←
          each (for_members show_by_kind 0 group) files (codes "Teacher:\n", codes "Students:\n")
      pure (texts.0 ++ (codes "\n" ++ texts.1))))

unfoldable pub list_group_user : ℕ → Act Bytes
list_group_user user = do
  name ← recv_msg
  reading (do
    group ← look (asks (get_group_id user name))
    if group == minus_one then pure (codes "Group does not exist.") else (do
      files ← look (read_file user (codes "/_group"))
      texts ← each (for_members show_all user group) files ([], [])
      pure texts.0))
