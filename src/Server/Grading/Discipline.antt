-- ===== src/Server/Grading/Discipline.antt =====
-- The handlers of Server/server.cpp that read and mark homework keep to the locks.
use student_management_syste.Prelude.{ℕ, Bool, true, List, Bytes}
use student_management_syste.Server.Grading.{
  check_homework, put_mark, mark, put_comment, write_comment, check_score_and_comment,
  check_assignment, list_block, list_course, list_homework,
}
use student_management_syste.Server.Homework.Discipline.{
  homework_rules, for_submission_reader, for_submission_writer,
}
use student_management_syste.File.Content.{Block}
use student_management_syste.Server.Session.{outside, as_reader, as_writer}
use student_management_syste.Server.Session.Tidy.{Tidy}

pub check_homework-Tidy : {w : Bool} (user : ℕ) → Tidy true w outside Bytes (check_homework user)
unfolding check_homework
check_homework-Tidy user = search (homework_rules, for_submission_reader) depth 40 fits 4000

pub put_mark-Tidy :
    {t : Bool} (course : Bytes) (name : Bytes) (student : Bytes) (score : Bytes)
    → Tidy t true as_writer Bytes (put_mark course name student score)
unfolding put_mark
put_mark-Tidy course name student score = search homework_rules depth 40 fits 4000

pub mark-Tidy : (user : ℕ) → Tidy true true outside Bytes (mark user)
unfolding mark
mark-Tidy user = search (homework_rules, for_submission_writer, put_mark-Tidy) depth 40 fits 4000

pub put_comment-Tidy :
    {t : Bool} (course : Bytes) (name : Bytes) (student : Bytes) (content : Bytes)
    → Tidy t true as_writer Bytes (put_comment course name student content)
unfolding put_comment
put_comment-Tidy course name student content = search homework_rules depth 40 fits 4000

pub write_comment-Tidy : (user : ℕ) → Tidy true true outside Bytes (write_comment user)
unfolding write_comment
write_comment-Tidy user =
    search (homework_rules, for_submission_writer, put_comment-Tidy) depth 40 fits 4000

pub check_score_and_comment-Tidy :
    {w : Bool} (user : ℕ) → Tidy true w outside Bytes (check_score_and_comment user)
unfolding check_score_and_comment
check_score_and_comment-Tidy user =
    search (homework_rules, for_submission_reader) depth 40 fits 4000

pub check_assignment-Tidy :
    {w : Bool} (user : ℕ) → Tidy true w outside Bytes (check_assignment user)
unfolding check_assignment
check_assignment-Tidy user = search homework_rules depth 40 fits 4000

pub list_block-Tidy :
    {t w : Bool} (user : ℕ) (above : List Bytes) (block : Block) (shown : Bytes)
    → Tidy t w as_reader Bytes (list_block user above block shown)
unfolding list_block
list_block-Tidy user above block shown = search homework_rules depth 40 fits 4000

pub list_course-Tidy : {w : Bool} (user : ℕ) → Tidy true w outside Bytes (list_course user)
unfolding list_course
list_course-Tidy user = search (homework_rules, list_block-Tidy) depth 40 fits 4000

pub list_homework-Tidy : {w : Bool} (user : ℕ) → Tidy true w outside Bytes (list_homework user)
unfolding list_homework
list_homework-Tidy user = search (homework_rules, list_block-Tidy) depth 40 fits 4000
