-- ===== src/Server/Grading/Heard.antt =====
-- The messages that the handlers of Server/server.cpp that read and mark homework receive.
use student_management_syste.Prelude.{ℕ, List, [], ◌∷◌, Bytes}
use student_management_syste.Server.Session.Heard.{IsContent, Hears, heard_rules}
use student_management_syste.Server.Grading.{
  check_homework, mark, write_comment, check_score_and_comment, check_assignment, list_course,
  list_homework,
}
use student_management_syste.Server.Homework.Discipline.{
  homework_rules, for_submission_reader, for_submission_writer,
}
use student_management_syste.Server.Grading.Discipline.{
  put_mark-Tidy, put_comment-Tidy, list_block-Tidy,
}

pub check_homework-Hears :
    (user : ℕ) (course name student : Bytes)
    → Hears (course ∷ name ∷ student ∷ []) (check_homework user)
unfolding check_homework
check_homework-Hears user course name student =
    search (heard_rules, homework_rules, for_submission_reader) depth 60 fits 4000

pub mark-Hears :
    (user : ℕ) (course name student score : Bytes)
    → Hears (course ∷ name ∷ student ∷ score ∷ []) (mark user)
unfolding mark
mark-Hears user course name student score =
    search (heard_rules, homework_rules, for_submission_writer, put_mark-Tidy) depth 60 fits 4000

pub write_comment-Hears :
    (user : ℕ) (course name student option : Bytes) (content : List Bytes)
    → IsContent option content
    → Hears (course ∷ name ∷ student ∷ option ∷ content) (write_comment user)
unfolding write_comment
write_comment-Hears user course name student option content sent =
    search (heard_rules, homework_rules, for_submission_writer, put_comment-Tidy, sent) depth 60
      fits 4000

pub check_score_and_comment-Hears :
    (user : ℕ) (course name student : Bytes)
    → Hears (course ∷ name ∷ student ∷ []) (check_score_and_comment user)
unfolding check_score_and_comment
check_score_and_comment-Hears user course name student =
    search (heard_rules, homework_rules, for_submission_reader) depth 60 fits 4000

pub check_assignment-Hears :
    (user : ℕ) (course name : Bytes) → Hears (course ∷ name ∷ []) (check_assignment user)
unfolding check_assignment
check_assignment-Hears user course name = search (heard_rules, homework_rules) depth 60 fits 4000

pub list_course-Hears : (user : ℕ) (asked : Bytes) → Hears (asked ∷ []) (list_course user)
unfolding list_course
list_course-Hears user asked =
    search (heard_rules, homework_rules, list_block-Tidy) depth 60 fits 4000

pub list_homework-Hears :
    (user : ℕ) (course asked : Bytes) → Hears (course ∷ asked ∷ []) (list_homework user)
unfolding list_homework
list_homework-Hears user course asked =
    search (heard_rules, homework_rules, list_block-Tidy) depth 60 fits 4000
