-- ===== src/Server/Grading.antt =====
-- Server/server.cpp: the handlers that read homework and mark it, and those that list courses and
-- homework.
pub mod Commented
pub mod Discipline
pub mod Heard
pub mod Marked
use student_management_syste.Prelude.{
  ℕ, zero, suc, ◌+◌, ◌-◌, ◌*◌, Bool, true, false, ◌||◌, Option, none, some, List, [], ◌∷◌, ◌++◌,
  Bytes, ◌==◌, ltb, codes, if◌then◌else◌, length, take, drop,
}
use student_management_syste.Snapshot.{minus_one}
use student_management_syste.Log
use student_management_syste.User.{get_user_id, get_user_main_group}
use student_management_syste.Path.{entry_number, check_path, get_owner, get_group}
use student_management_syste.Path.Walked.{path_of}
use student_management_syste.File.{Access, create_file}
use student_management_syste.File.Make.{create_directory}
use student_management_syste.File.Remove.{delete_directory}
use student_management_syste.File.Content.{Block, write_file, list_files}
use student_management_syste.Server.Score.{is_score_valid}
use student_management_syste.Server.Session.{
  Act, Done, pure, lift, look, change, ◌>>=◌, ◌>>◌, recv_msg, recv_content, reading, writing,
  drop_result, always, asks, print_log, if_directory, read_text, each, count_up, file_name, Env,
}
use student_management_syste.Server.Homework.{
  reply, put_text, no_course, no_homework, for_submission, score_file,
}

unfoldable pub check_homework : ℕ → Act Bytes
check_homework user = do
  course ← recv_msg
  name ← recv_msg
  student ← recv_msg
  reading (
      for_submission user course name student
        (read_text (course ∷ name ∷ student ∷ codes "_homework" ∷ [])))

-- `for (int i = 0; i < 3 - score.size(); i++)`: for more than three characters the bound wraps
-- around, and the text grows until there is no memory.
unfoldable pub spaces_for : Bytes → Option Bytes
spaces_for score =
    if ltb 3 (length score) then none else some (take (3 - length score) (codes "   "))

unfoldable pub put_mark : Bytes → Bytes → Bytes → Bytes → Act Bytes
put_mark course name student score = do
  old ← read_text (score_file course name student)
  spaces ← lift (spaces_for score)
  put_text (score_file course name student) (codes "Score: " ++ (spaces ++ (score ++ drop 10 old)))
  reply
      (codes "Mark "
        ++ (student
            ++ (codes "'s homework " ++ (name ++ (codes " in course " ++ (course ++ codes "."))))))
      (codes "Successfully marking!")

unfoldable pub mark : ℕ → Act Bytes
mark user = do
  course ← recv_msg
  name ← recv_msg
  student ← recv_msg
  score ← recv_msg
  number ← lift (is_score_valid score)
  if number == minus_one
      then pure (codes "Invalid score.")
      else writing (for_submission user course name student (put_mark course name student score))

unfoldable pub put_comment : Bytes → Bytes → Bytes → Bytes → Act Bytes
put_comment course name student content = do
  old ← read_text (score_file course name student)
  put_text (score_file course name student)
      (take 10 old ++ (codes "\n" ++ (codes "Comment:\n" ++ content)))
  reply
      (codes "Write command to "
        ++ (student
            ++ (codes "'s homework " ++ (name ++ (codes " in course " ++ (course ++ codes "."))))))
      (codes "Successfully writing comment!")

unfoldable pub write_comment : ℕ → Act Bytes
write_comment user = do
  course ← recv_msg
  name ← recv_msg
  student ← recv_msg
  option ← recv_msg
  content ← recv_content option
  writing (for_submission user course name student (put_comment course name student content))

unfoldable pub check_score_and_comment : ℕ → Act Bytes
check_score_and_comment user = do
  course ← recv_msg
  name ← recv_msg
  student ← recv_msg
  reading (for_submission user course name student (read_text (score_file course name student)))

unfoldable pub check_assignment : ℕ → Act Bytes
check_assignment user = do
  course ← recv_msg
  name ← recv_msg
  reading (
      if_directory user (course ∷ []) no_course (
        if_directory user (course ∷ name ∷ []) no_homework
          (read_text (course ∷ name ∷ codes "_assignment" ∷ []))))

abbrev pub above_and : List Bytes → Bytes → List Bytes
above_and [] name = name ∷ []
above_and (d ∷ ds) name = d ∷ above_and ds name

-- The names of a directory's block that lead to a directory for the user, a line for each.
unfoldable pub list_block : ℕ → List Bytes → Block → Bytes → Act Bytes
list_block user above block shown =
    count_up
      (λ i text. do
        name ← lift (file_name block i)
        if length name == 0 then pure text else (do
          kind ← look (check_path user (path_of (above_and above name)))
          pure (if kind == 0 then text ++ (name ++ codes "\n") else text)))
      entry_number 0 shown

unfoldable pub list_course : ℕ → Act Bytes
list_course user = do
  asked ← recv_msg
  reading (do
    asked_id ← look (asks (get_user_id 0 asked))
    if asked_id == minus_one then pure (codes "User does not exist.") else (do
      blocks ← look (list_files (codes "/"))
      each (list_block asked_id []) blocks (codes "All courses: \n")))

unfoldable pub list_homework : ℕ → Act Bytes
list_homework user = do
  course ← recv_msg
  asked ← recv_msg
  reading (do
    asked_id ← look (asks (get_user_id 0 asked))
    if asked_id == minus_one
        then pure (codes "User does not exist.")
        else if_directory asked_id (course ∷ []) no_course (do
          blocks ← look (list_files (path_of (course ∷ [])))
          each (list_block asked_id (course ∷ [])) blocks (codes "All homework: \n")))
