-- ===== src/Client/Heard/Homework.antt =====
-- The commands of Client/client.cpp about homework.
use student_management_syste.Prelude.{refl, ap, Bytes, [], ◌∷◌, codes}
use student_management_syste.Client.{
  Terminal, Files, pure, ◌>>=◌, say, typed, hear, say_typed, first_of, others,
}
use student_management_syste.Client.Command.{
  user_name, say_user, say_content, publish_homework, check_homework, mark, write_comment,
  check_score_and_comment, check_assignment, submit_homework, delete_homework, list_course,
  list_homework,
}
use student_management_syste.Client.Heard.{Understood, understood, content_left, sent-IsContent}
use student_management_syste.Server.Work.{handlers, find_handler}
use student_management_syste.Server.Homework
use student_management_syste.Server.Homework.Heard.{
  publish_homework-Hears, submit_homework-Hears, delete_homework-Hears,
}
use student_management_syste.Server.Grading
use student_management_syste.Server.Grading.Heard.{
  check_homework-Hears, mark-Hears, write_comment-Hears, check_score_and_comment-Hears,
  check_assignment-Hears, list_course-Hears, list_homework-Hears,
}

pub publish_homework-Understood :
    (files : Files) (t : Terminal) → Understood (publish_homework files) t
unfolding publish_homework ◌>>=◌ hear say say_typed typed say_content find_handler handlers
publish_homework-Understood files t =
    understood (codes "publishhomework") _ refl (ap first_of (content_left files _ _ _))
      (ap others (content_left files _ _ _))
      λ e user. (
        Homework.publish_homework e user,
        refl,
        publish_homework-Hears e user _ _ _ _ (sent-IsContent files _ _ _),
      )

pub check_homework-Understood :
    (user_info : Bytes) (t : Terminal) → Understood (check_homework user_info) t
unfolding check_homework ◌>>=◌ hear say say_typed typed say_user user_name pure find_handler
    handlers
check_homework-Understood [] t =
    understood (codes "checkhomework") _ refl refl refl
      λ e user. (Grading.check_homework user, refl, check_homework-Hears user _ _ _)
check_homework-Understood (c ∷ cs) t =
    understood (codes "checkhomework") _ refl refl refl
      λ e user. (Grading.check_homework user, refl, check_homework-Hears user _ _ _)

pub mark-Understood : (t : Terminal) → Understood mark t
unfolding mark ◌>>=◌ hear say say_typed typed find_handler handlers
mark-Understood t =
    understood (codes "mark") _ refl refl refl
      λ e user. (Grading.mark user, refl, mark-Hears user _ _ _ _)

pub write_comment-Understood : (files : Files) (t : Terminal) → Understood (write_comment files) t
unfolding write_comment ◌>>=◌ hear say say_typed typed say_content find_handler handlers
write_comment-Understood files t =
    understood (codes "writecomment") _ refl (ap first_of (content_left files _ _ _))
      (ap others (content_left files _ _ _))
      λ e user. (
        Grading.write_comment user,
        refl,
        write_comment-Hears user _ _ _ _ _ (sent-IsContent files _ _ _),
      )

pub check_score_and_comment-Understood :
    (user_info : Bytes) (t : Terminal) → Understood (check_score_and_comment user_info) t
unfolding check_score_and_comment ◌>>=◌ hear say say_typed typed say_user user_name pure
    find_handler handlers
check_score_and_comment-Understood [] t =
    understood (codes "checkscoreandcomment") _ refl refl refl λ e user.
      (Grading.check_score_and_comment user, refl, check_score_and_comment-Hears user _ _ _)
check_score_and_comment-Understood (c ∷ cs) t =
    understood (codes "checkscoreandcomment") _ refl refl refl λ e user.
      (Grading.check_score_and_comment user, refl, check_score_and_comment-Hears user _ _ _)

pub check_assignment-Understood : (t : Terminal) → Understood check_assignment t
unfolding check_assignment ◌>>=◌ hear say say_typed typed find_handler handlers
check_assignment-Understood t =
    understood (codes "checkassignment") _ refl refl refl
      λ e user. (Grading.check_assignment user, refl, check_assignment-Hears user _ _)

pub submit_homework-Understood :
    (files : Files) (user_info : Bytes) (t : Terminal)
    → Understood (submit_homework files user_info) t
unfolding submit_homework ◌>>=◌ hear say say_typed typed say_user user_name pure say_content
    find_handler handlers
submit_homework-Understood files [] t =
    understood (codes "submithomework") _ refl (ap first_of (content_left files _ _ _))
      (ap others (content_left files _ _ _))
      λ e user. (
        Homework.submit_homework e user,
        refl,
        submit_homework-Hears e user _ _ _ _ _ (sent-IsContent files _ _ _),
      )
submit_homework-Understood files (c ∷ cs) t =
    understood (codes "submithomework") _ refl (ap first_of (content_left files _ _ _))
      (ap others (content_left files _ _ _))
      λ e user. (
        Homework.submit_homework e user,
        refl,
        submit_homework-Hears e user _ _ _ _ _ (sent-IsContent files _ _ _),
      )

pub delete_homework-Understood : (t : Terminal) → Understood delete_homework t
unfolding delete_homework ◌>>=◌ hear say say_typed typed find_handler handlers
delete_homework-Understood t =
    understood (codes "deletehomework") _ refl refl refl
      λ e user. (Homework.delete_homework e user, refl, delete_homework-Hears e user _ _)

pub list_course-Understood :
    (user_info : Bytes) (t : Terminal) → Understood (list_course user_info) t
unfolding list_course ◌>>=◌ hear say typed say_user user_name pure find_handler handlers
list_course-Understood [] t =
    understood (codes "listcourse") _ refl refl refl
      λ e user. (Grading.list_course user, refl, list_course-Hears user _)
list_course-Understood (c ∷ cs) t =
    understood (codes "listcourse") _ refl refl refl
      λ e user. (Grading.list_course user, refl, list_course-Hears user _)

pub list_homework-Understood :
    (user_info : Bytes) (t : Terminal) → Understood (list_homework user_info) t
unfolding list_homework ◌>>=◌ hear say say_typed typed say_user user_name pure find_handler handlers
list_homework-Understood [] t =
    understood (codes "listhomework") _ refl refl refl
      λ e user. (Grading.list_homework user, refl, list_homework-Hears user _ _)
list_homework-Understood (c ∷ cs) t =
    understood (codes "listhomework") _ refl refl refl
      λ e user. (Grading.list_homework user, refl, list_homework-Hears user _ _)
