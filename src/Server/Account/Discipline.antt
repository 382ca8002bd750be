-- ===== src/Server/Account/Discipline.antt =====
-- The handlers of Server/server.cpp about users and the system keep to the locks.
use student_management_syste.Prelude.{ℕ, Bool, true, Bytes, Option, none, some}
use student_management_syste.Server.Account.{
  make_user, create_identified, create_user, drop_course, delete_teacher_course, leave_course,
  delete_student_course, leave_courses, remove_user, delete_user, set_password, modify_password,
  backup, recover, revoke, clearsnapshot, check_log,
}
use student_management_syste.Server.Homework.Discipline.{homework_rules}
use student_management_syste.Server.Course.Discipline.{delete_student_assignment_from_course-Tidy}
use student_management_syste.File.Content.{Block}
use student_management_syste.Server.Session.{outside, as_writer, Done, Env}
use student_management_syste.Server.Session.Tidy.{Tidy, tidy_rules}

pub make_user-Tidy :
    {t : Bool} (e : Env) (user : ℕ) (name : Bytes) (password : Bytes) (group : ℕ)
    → Tidy t true as_writer Bytes (make_user e user name password group)
unfolding make_user
make_user-Tidy e user name password group = search homework_rules depth 40 fits 4000

pub create_identified-Tidy :
    {t : Bool} (e : Env) (user : ℕ) (name password : Bytes) (group : Option ℕ)
    → Tidy t true outside Bytes (create_identified e user name password group)
unfolding create_identified
create_identified-Tidy e user name password none = search tidy_rules
create_identified-Tidy e user name password (some g) =
    search (homework_rules, make_user-Tidy) depth 40

pub create_user-Tidy : (e : Env) (user : ℕ) → Tidy true true outside Bytes (create_user e user)
unfolding create_user
create_user-Tidy e user = search (homework_rules, create_identified-Tidy) depth 40 fits 4000

drop_course-Tidy :
    {t : Bool} (e : Env) (teacher : ℕ) (block : Block) (i : ℕ) (before : Done)
    → Tidy t true as_writer Done (drop_course e teacher block i before)
unfolding drop_course
drop_course-Tidy e teacher block i before = search homework_rules depth 40 fits 4000

delete_teacher_course-Tidy :
    {t : Bool} (e : Env) (teacher : ℕ)
    → Tidy t true as_writer Done (delete_teacher_course e teacher)
unfolding delete_teacher_course
delete_teacher_course-Tidy e teacher = search (homework_rules, drop_course-Tidy) depth 40 fits 4000

leave_course-Tidy :
    {t : Bool} (e : Env) (student : ℕ) (name : Bytes) (block : Block) (i : ℕ) (before : Done)
    → Tidy t true as_writer Done (leave_course e student name block i before)
unfolding leave_course
leave_course-Tidy e student name block i before =
    search (homework_rules, delete_student_assignment_from_course-Tidy) depth 40 fits 4000

delete_student_course-Tidy :
    {t : Bool} (e : Env) (student : ℕ) (name : Bytes)
    → Tidy t true as_writer Done (delete_student_course e student name)
unfolding delete_student_course
delete_student_course-Tidy e student name =
    search (homework_rules, leave_course-Tidy) depth 40 fits 4000

leave_courses-Tidy :
    {t : Bool} (e : Env) (user : ℕ) (name : Bytes) (main : ℕ)
    → Tidy t true as_writer Done (leave_courses e user name main)
unfolding leave_courses
leave_courses-Tidy e user name main =
    search (homework_rules, delete_teacher_course-Tidy, delete_student_course-Tidy) depth 40 fits
      4000

pub remove_user-Tidy :
    {t : Bool} (e : Env) (exec : ℕ) (name : Bytes) (user : ℕ)
    → Tidy t true as_writer Bytes (remove_user e exec name user)
unfolding remove_user
remove_user-Tidy e exec name user = search (homework_rules, leave_courses-Tidy) depth 40 fits 4000

pub delete_user-Tidy : (e : Env) (exec : ℕ) → Tidy true true outside Bytes (delete_user e exec)
unfolding delete_user
delete_user-Tidy e exec = search (homework_rules, remove_user-Tidy) depth 40 fits 4000

pub set_password-Tidy :
    {t : Bool} (name : Bytes) (password : Bytes)
    → Tidy t true as_writer Bytes (set_password name password)
unfolding set_password
set_password-Tidy name password = search homework_rules depth 40 fits 4000

pub modify_password-Tidy : Tidy true true outside Bytes modify_password
unfolding modify_password
modify_password-Tidy = search (homework_rules, set_password-Tidy) depth 40 fits 4000

pub backup-Tidy : (user : ℕ) → Tidy true true outside Bytes (backup user)
unfolding backup
backup-Tidy user = search homework_rules depth 40 fits 4000

pub recover-Tidy : (user : ℕ) → Tidy true true outside Bytes (recover user)
unfolding recover
recover-Tidy user = search homework_rules depth 40 fits 4000

pub revoke-Tidy : Tidy true true outside Bytes revoke
unfolding revoke
revoke-Tidy = search homework_rules depth 40 fits 4000

pub clearsnapshot-Tidy : Tidy true true outside Bytes clearsnapshot
unfolding clearsnapshot
clearsnapshot-Tidy = search homework_rules depth 40 fits 4000

pub check_log-Tidy : {w : Bool} → Tidy true w outside Bytes check_log
unfolding check_log
check_log-Tidy = search homework_rules depth 40 fits 4000
