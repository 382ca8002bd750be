-- ===== src/Server/Course/Heard.antt =====
-- The messages that the handlers of Server/server.cpp about courses receive.
use student_management_syste.Prelude.{ℕ, [], ◌∷◌, Bytes}
use student_management_syste.Server.Session.{Env}
use student_management_syste.Server.Session.Heard.{Hears, heard_rules}
use student_management_syste.Server.Course.{
  create_course, delete_course, add_to_course, delete_from_course, list_course_user,
  list_group_user,
}
use student_management_syste.Server.Homework.Discipline.{homework_rules}
use student_management_syste.Server.Course.Discipline.{
  make_course_for-Tidy, add_student-Tidy, delete_student-Tidy, show_by_kind-Tidy, show_all-Tidy,
  for_members-Tidy,
}

pub create_course-Hears :
    (e : Env) (user : ℕ) (course teacher : Bytes)
    → Hears (course ∷ teacher ∷ []) (create_course e user)
unfolding create_course
create_course-Hears e user course teacher =
    search (heard_rules, homework_rules, make_course_for-Tidy) depth 60 fits 4000

pub delete_course-Hears :
    (e : Env) (user : ℕ) (course : Bytes) → Hears (course ∷ []) (delete_course e user)
unfolding delete_course
delete_course-Hears e user course = search (heard_rules, homework_rules) depth 60 fits 4000

pub add_to_course-Hears :
    (user : ℕ) (course name : Bytes) → Hears (course ∷ name ∷ []) (add_to_course user)
unfolding add_to_course
add_to_course-Hears user course name =
    search (heard_rules, homework_rules, add_student-Tidy) depth 60 fits 4000

pub delete_from_course-Hears :
    (e : Env) (user : ℕ) (course name : Bytes)
    → Hears (course ∷ name ∷ []) (delete_from_course e user)
unfolding delete_from_course
delete_from_course-Hears e user course name =
    search (heard_rules, homework_rules, delete_student-Tidy) depth 60 fits 4000

pub list_course_user-Hears : (course : Bytes) → Hears (course ∷ []) list_course_user
unfolding list_course_user
list_course_user-Hears course =
    search (heard_rules, homework_rules, show_by_kind-Tidy, for_members-Tidy) depth 60 fits 4000

pub list_group_user-Hears : (user : ℕ) (name : Bytes) → Hears (name ∷ []) (list_group_user user)
unfolding list_group_user
list_group_user-Hears user name =
    search (heard_rules, homework_rules, show_all-Tidy, for_members-Tidy) depth 60 fits 4000
