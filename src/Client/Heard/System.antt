-- ===== src/Client/Heard/System.antt =====
-- The commands of Client/client.cpp about courses, users and the system.
use student_management_syste.Prelude.{refl, Bytes, [], ◌∷◌, codes}
use student_management_syste.Client.{Terminal, pure, ◌>>=◌, say, typed, hear, say_typed}
use student_management_syste.Client.Command.{
  user_name, say_user, create_course, delete_course, add_to_course, delete_from_course,
  list_course_user, list_group_user, create_user, delete_user, modify_password, backup, recover,
  revoke, clearsnapshot, check_log,
}
use student_management_syste.Client.Heard.{Understood, understood}
use student_management_syste.Server.Work.{handlers, find_handler}
use student_management_syste.Server.Course
use student_management_syste.Server.Course.Heard.{
  create_course-Hears, delete_course-Hears, add_to_course-Hears, delete_from_course-Hears,
  list_course_user-Hears, list_group_user-Hears,
}
use student_management_syste.Server.Account
use student_management_syste.Server.Account.Heard.{
  create_user-Hears, delete_user-Hears, modify_password-Hears, backup-Hears, recover-Hears,
  revoke-Hears, clearsnapshot-Hears, check_log-Hears,
}

pub create_course-Understood : (t : Terminal) → Understood create_course t
unfolding create_course ◌>>=◌ hear say say_typed typed find_handler handlers
create_course-Understood t =
    understood (codes "createcourse") _ refl refl refl
      λ e user. (Course.create_course e user, refl, create_course-Hears e user _ _)

pub delete_course-Understood : (t : Terminal) → Understood delete_course t
unfolding delete_course ◌>>=◌ hear say say_typed typed find_handler handlers
delete_course-Understood t =
    understood (codes "deletecourse") _ refl refl refl
      λ e user. (Course.delete_course e user, refl, delete_course-Hears e user _)

pub add_to_course-Understood : (t : Terminal) → Understood add_to_course t
unfolding add_to_course ◌>>=◌ hear say say_typed typed find_handler handlers
add_to_course-Understood t =
    understood (codes "addtocourse") _ refl refl refl
      λ e user. (Course.add_to_course user, refl, add_to_course-Hears user _ _)

pub delete_from_course-Understood : (t : Terminal) → Understood delete_from_course t
unfolding delete_from_course ◌>>=◌ hear say say_typed typed find_handler handlers
delete_from_course-Understood t =
    understood (codes "deletefromcourse") _ refl refl refl
      λ e user. (Course.delete_from_course e user, refl, delete_from_course-Hears e user _ _)

pub list_course_user-Understood : (t : Terminal) → Understood list_course_user t
unfolding list_course_user ◌>>=◌ hear say say_typed typed find_handler handlers
list_course_user-Understood t =
    understood (codes "listcourseuser") _ refl refl refl
      λ e user. (Course.list_course_user, refl, list_course_user-Hears _)

pub list_group_user-Understood :
    (group_info : Bytes) (t : Terminal) → Understood (list_group_user group_info) t
unfolding list_group_user ◌>>=◌ hear say find_handler handlers
list_group_user-Understood group_info t =
    understood (codes "listgroupuser") _ refl refl refl
      λ e user. (Course.list_group_user user, refl, list_group_user-Hears user _)

pub create_user-Understood : (t : Terminal) → Understood create_user t
unfolding create_user ◌>>=◌ hear say say_typed typed find_handler handlers
create_user-Understood t =
    understood (codes "createuser") _ refl refl refl
      λ e user. (Account.create_user e user, refl, create_user-Hears e user _ _ _)

pub delete_user-Understood : (t : Terminal) → Understood delete_user t
unfolding delete_user ◌>>=◌ hear say say_typed typed find_handler handlers
delete_user-Understood t =
    understood (codes "deleteuser") _ refl refl refl
      λ e user. (Account.delete_user e user, refl, delete_user-Hears e user _)

pub modify_password-Understood :
    (user_info : Bytes) (t : Terminal) → Understood (modify_password user_info) t
unfolding modify_password ◌>>=◌ hear say say_typed typed say_user user_name pure find_handler
    handlers
modify_password-Understood [] t =
    understood (codes "modifypassword") _ refl refl refl
      λ e user. (Account.modify_password, refl, modify_password-Hears _ _ _ _)
modify_password-Understood (c ∷ cs) t =
    understood (codes "modifypassword") _ refl refl refl
      λ e user. (Account.modify_password, refl, modify_password-Hears _ _ _ _)

pub backup-Understood : (t : Terminal) → Understood backup t
unfolding backup ◌>>=◌ hear say say_typed typed find_handler handlers
backup-Understood t =
    understood (codes "backup") _ refl refl refl
      λ e user. (Account.backup user, refl, backup-Hears user _)

pub recover-Understood : (t : Terminal) → Understood recover t
unfolding recover ◌>>=◌ hear say say_typed typed find_handler handlers
recover-Understood t =
    understood (codes "recover") _ refl refl refl
      λ e user. (Account.recover user, refl, recover-Hears user _)

pub revoke-Understood : (t : Terminal) → Understood revoke t
unfolding revoke ◌>>=◌ hear say find_handler handlers
revoke-Understood t =
    understood (codes "revoke") _ refl refl refl λ e user. (Account.revoke, refl, revoke-Hears)

pub clearsnapshot-Understood : (t : Terminal) → Understood clearsnapshot t
unfolding clearsnapshot ◌>>=◌ hear say find_handler handlers
clearsnapshot-Understood t =
    understood (codes "clearsnapshot") _ refl refl refl
      λ e user. (Account.clearsnapshot, refl, clearsnapshot-Hears)

pub check_log-Understood : (t : Terminal) → Understood check_log t
unfolding check_log ◌>>=◌ hear say find_handler handlers
check_log-Understood t =
    understood (codes "checklog") _ refl refl refl
      λ e user. (Account.check_log, refl, check_log-Hears)
