-- ===== src/Server/Course/Discipline.antt =====
-- The handlers of Server/server.cpp about courses keep to the locks.
use student_management_syste.Prelude.{ℕ, Bool, true, Bytes, Option, none, some}
use student_management_syste.Server.Course.{
  make_course, make_course_for, create_course, delete_course, add_student, add_to_course,
  drop_assignment, delete_student_assignment_from_course, delete_student, delete_from_course,
  for_group, for_members, show_by_kind, show_all, list_course_user, list_group_user,
}
use student_management_syste.Server.Homework.Discipline.{homework_rules}
use student_management_syste.File.Content.{Block}
use student_management_syste.Server.Session.{outside, as_reader, as_writer, Act, Done, Env}
use student_management_syste.Server.Session.Tidy.{Tidy, tidy_rules}

make_course-Tidy :
    {t : Bool} (e : Env) (user : ℕ) (course : Bytes) (teacher : ℕ)
    → Tidy t true as_writer Bytes (make_course e user course teacher)
unfolding make_course
make_course-Tidy e user course teacher = search homework_rules depth 40 fits 4000

pub make_course_for-Tidy :
    {t : Bool} (e : Env) (user : ℕ) (course : Bytes) (teacher : ℕ)
    → Tidy t true as_writer Bytes (make_course_for e user course teacher)
unfolding make_course_for
make_course_for-Tidy e user course teacher =
    search (homework_rules, make_course-Tidy) depth 40 fits 4000

pub create_course-Tidy : (e : Env) (user : ℕ) → Tidy true true outside Bytes (create_course e user)
unfolding create_course
create_course-Tidy e user = search (homework_rules, make_course_for-Tidy) depth 40 fits 4000

pub delete_course-Tidy : (e : Env) (user : ℕ) → Tidy true true outside Bytes (delete_course e user)
unfolding delete_course
delete_course-Tidy e user = search homework_rules depth 40 fits 4000

pub add_student-Tidy :
    {t : Bool} (user : ℕ) (course : Bytes) (name : Bytes) (student : ℕ)
    → Tidy t true as_writer Bytes (add_student user course name student)
unfolding add_student
add_student-Tidy user course name student = search homework_rules depth 40 fits 4000

pub add_to_course-Tidy : (user : ℕ) → Tidy true true outside Bytes (add_to_course user)
unfolding add_to_course
add_to_course-Tidy user = search (homework_rules, add_student-Tidy) depth 40 fits 4000

drop_assignment-Tidy :
    {t : Bool} (e : Env) (course : Bytes) (student : Bytes) (block : Block) (i : ℕ)
    (done_before : Done)
    → Tidy t true as_writer Done (drop_assignment e course student block i done_before)
unfolding drop_assignment
drop_assignment-Tidy e course student block i done_before = search homework_rules depth 40 fits 4000

pub delete_student_assignment_from_course-Tidy :
    {t : Bool} (e : Env) (student : Bytes) (course : Bytes)
    → Tidy t true as_writer Done (delete_student_assignment_from_course e student course)
unfolding delete_student_assignment_from_course
delete_student_assignment_from_course-Tidy e student course =
    search (homework_rules, drop_assignment-Tidy) depth 40 fits 4000

pub delete_student-Tidy :
    {t : Bool} (e : Env) (user : ℕ) (course : Bytes) (name : Bytes) (student : ℕ)
    → Tidy t true as_writer Bytes (delete_student e user course name student)
unfolding delete_student
delete_student-Tidy e user course name student =
    search (homework_rules, delete_student_assignment_from_course-Tidy) depth 40 fits 4000

pub delete_from_course-Tidy :
    (e : Env) (user : ℕ) → Tidy true true outside Bytes (delete_from_course e user)
unfolding delete_from_course
delete_from_course-Tidy e user = search (homework_rules, delete_student-Tidy) depth 40 fits 4000

pub show_by_kind-Tidy :
    {t w : Bool} (member : ℕ) (name : Bytes) (texts : Bytes × Bytes)
    → Tidy t w as_reader (Bytes × Bytes) (show_by_kind member name texts)
unfolding show_by_kind
show_by_kind-Tidy member name texts = search homework_rules depth 40 fits 4000

pub show_all-Tidy :
    {t w : Bool} (member : ℕ) (name : Bytes) (texts : Bytes × Bytes)
    → Tidy t w as_reader (Bytes × Bytes) (show_all member name texts)
unfolding show_all
show_all-Tidy member name texts = search homework_rules depth 40 fits 4000

module _ {t w : Bool} (show : ℕ → Bytes → Bytes × Bytes → Act (Bytes × Bytes))
    (each_is_tidy : (m : ℕ) (n : Bytes) (text : Bytes × Bytes)
      → Tidy t w as_reader (Bytes × Bytes) (show m n text))
    (user : ℕ) (block : Block) (shown : Bytes × Bytes) where
  for_group-Tidy :
      (o : Option ℕ) → Tidy t w as_reader (Bytes × Bytes) (for_group show user block shown o)
  unfolding for_group
  for_group-Tidy none = search tidy_rules
  for_group-Tidy (some g) = search (tidy_rules, each_is_tidy) depth 40 fits 4000

  pub for_members-Tidy :
      (group : ℕ) → Tidy t w as_reader (Bytes × Bytes) (for_members show user group block shown)
  unfolding for_members
  for_members-Tidy group = for_group-Tidy _

pub list_course_user-Tidy : {w : Bool} → Tidy true w outside Bytes list_course_user
unfolding list_course_user
list_course_user-Tidy =
    search (homework_rules, show_by_kind-Tidy, for_members-Tidy) depth 40 fits 4000

pub list_group_user-Tidy : {w : Bool} (user : ℕ) → Tidy true w outside Bytes (list_group_user user)
unfolding list_group_user
list_group_user-Tidy user =
    search (homework_rules, show_all-Tidy, for_members-Tidy) depth 40 fits 4000
