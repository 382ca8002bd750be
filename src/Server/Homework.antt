-- ===== src/Server/Homework.antt =====
-- Server/server.cpp: the handlers about homework. Each receives its arguments, takes the lock, and
-- returns the message for the client. What is done under the lock is a definition of its own.
pub mod Discipline
pub mod Heard
pub mod Stored
pub mod Submitted
use student_management_syste.Prelude.{
  ℕ, zero, suc, ◌+◌, ◌-◌, ◌*◌, Bool, true, false, ◌||◌, Option, none, some, List, [], ◌∷◌, ◌++◌,
  Bytes, ◌==◌, ltb, codes, if◌then◌else◌, length, take, drop,
}
use student_management_syste.Snapshot.{minus_one}
use student_management_syste.Log
use student_management_syste.User.{get_user_id, get_user_main_group}
use student_management_syste.Path.{entry_number, check_path, get_owner, get_group}
use student_management_syste.Path.Walked.{path_of}
use student_management_syste.File.{Access, create_file}
use student_management_syste.File.Make.{create_directory}
use student_management_syste.File.Remove.{delete_directory}
use student_management_syste.File.Content.{Block, write_file, list_files}
use student_management_syste.Server.Score.{is_score_valid}
use student_management_syste.Server.Session.{
  Act, Done, pure, lift, look, change, ◌>>=◌, ◌>>◌, recv_msg, recv_content, reading, writing,
  drop_result, always, asks, print_log, if_directory, read_text, each, count_up, file_name, Env,
}

abbrev pub access : ℕ → ℕ → ℕ → Access
access user group group_bits = record {
  user = user;
  group = group;
  owner_bits = 7;
  group_bits = group_bits;
  other_bits = 0;
}

-- `createDirectory`, `createFile` and `writeFile` for the user 0.
unfoldable pub add_directory : Env → List Bytes → ℕ → ℕ → Act Done
add_directory e path user group =
    drop_result (create_directory e.entry 0 (path_of path) (access user group 7))

unfoldable pub add_file : List Bytes → ℕ → ℕ → Act Done
add_file path user group = drop_result (create_file 0 (path_of path) (access user group 1))

unfoldable pub put_text : List Bytes → Bytes → Act Done
put_text path content = drop_result (write_file 0 (path_of path) content)

abbrev pub no_course : Bytes
no_course = codes "Course does not exist."

abbrev pub no_homework : Bytes
no_homework = codes "Homework dose not exist."

unfoldable pub reply : Bytes → Bytes → Act Bytes
reply command message = do print_log command; pure message

unfoldable pub publish_new : Env → Bytes → Bytes → Bytes → Bytes → ℕ → ℕ → Act Bytes
publish_new e command course name content owner group = do
  add_directory e (course ∷ name ∷ []) owner group
  add_file (course ∷ name ∷ codes "_assignment" ∷ []) owner group
  put_text (course ∷ name ∷ codes "_assignment" ∷ []) content
  reply command (codes "Successfully published!")

-- The test of the path is made a second time, where it has failed already.
unfoldable pub publish_again : ℕ → Bytes → Bytes → Bytes → Bytes → Act Bytes
publish_again user command course name content = do
  kind ← look (check_path user (path_of (course ∷ name ∷ [])))
  if kind == minus_one
      then (do
        put_text (course ∷ name ∷ codes "_assignment" ∷ []) content
        reply command (codes "Successfully updated!"))
      else pure (codes "Homework publish failed.")

unfoldable pub publish : Env → ℕ → Bytes → Bytes → Bytes → Act Bytes
publish e user course name content =
    let command =
      codes "Publish homework " ++ (name ++ (codes " to course " ++ (course ++ codes "."))) in
    if_directory user (course ∷ []) no_course (do
      owner ← look (get_owner 0 (path_of (course ∷ [])))
      group ← look (get_group 0 (path_of (course ∷ [])))
      kind ← look (check_path user (path_of (course ∷ name ∷ [])))
      if kind == minus_one
          then publish_new e command course name content owner group
          else publish_again user command course name content)

unfoldable pub publish_homework : Env → ℕ → Act Bytes
publish_homework e user = do
  course ← recv_msg
  name ← recv_msg
  option ← recv_msg
  content ← recv_content option
  writing (publish e user course name content)

-- The three tests on the way to the directory of a student's homework.
unfoldable pub for_submission : ℕ → Bytes → Bytes → Bytes → Act Bytes → Act Bytes
for_submission user course name student found = if_directory user (course ∷ []) no_course (
    if_directory user (course ∷ name ∷ []) no_homework (
      if_directory user (course ∷ name ∷ student ∷ [])
        (codes "The student did not submit the homework.") found))

abbrev pub score_file : Bytes → Bytes → Bytes → List Bytes
score_file course name student = course ∷ name ∷ student ∷ codes "_score" ∷ []

unfoldable pub submit_first : Env → Bytes → Bytes → Bytes → Bytes → Bytes → ℕ → ℕ → ℕ → Act Bytes
submit_first e command course name student content owner group student_id = do
  listed ← look (list_files (path_of (course ∷ name ∷ [])))
  add_directory e (course ∷ name ∷ student ∷ []) owner group
  add_file (course ∷ name ∷ student ∷ codes "_homework" ∷ []) student_id group
  put_text (course ∷ name ∷ student ∷ codes "_homework" ∷ []) content
  add_file (score_file course name student) owner group
  put_text (score_file course name student) (codes "Score:    \nComment:\n")
  reply command (codes "Homework submitted successfully!")

unfoldable pub submit_for : Env → Bytes → Bytes → Bytes → Bytes → ℕ → Act Bytes
submit_for e course name student content student_id =
    let command =
      codes "Submit "
      ++ (student
          ++ (codes "'s homework to homework "
              ++ (name ++ (codes " in course " ++ (course ++ codes "."))))) in
    if_directory student_id (course ∷ []) no_course (do
      owner ← look (get_owner 0 (path_of (course ∷ [])))
      group ← look (get_group 0 (path_of (course ∷ [])))
      if_directory student_id (course ∷ name ∷ []) no_homework (do
        kind ← look (check_path student_id (path_of (course ∷ name ∷ student ∷ [])))
        if kind == 0
            then (do
              put_text (course ∷ name ∷ student ∷ codes "_homework" ∷ []) content
              reply command (codes "Successfully update homework content!"))
            else submit_first e command course name student content owner group student_id))

unfoldable pub submit : Env → Bytes → Bytes → Bytes → Bytes → Act Bytes
submit e course name student content = do
  student_id ← look (asks (get_user_id 0 student))
  if student_id == minus_one
      then pure (codes "Student does not exist.")
      else submit_for e course name student content student_id

unfoldable pub submit_homework : Env → ℕ → Act Bytes
submit_homework e user = do
  course ← recv_msg
  name ← recv_msg
  student ← recv_msg
  option ← recv_msg
  content ← recv_content option
  writing (submit e course name student content)

unfoldable pub delete_owned : Env → ℕ → Bytes → Bytes → ℕ → Act Bytes
delete_owned e user course name owner = do
  group ← look (asks (get_user_main_group 0 user))
  if user == owner || group == 0
      then (do
        drop_result (delete_directory e.depth 0 (path_of (course ∷ name ∷ [])))
        reply (codes "Delete homework " ++ (name ++ (codes " in course " ++ (course ++ codes "."))))
            (codes "Delete successfully."))
      else pure (codes "No permission.")

unfoldable pub delete_homework : Env → ℕ → Act Bytes
delete_homework e user = do
  course ← recv_msg
  name ← recv_msg
  writing (
      if_directory user (course ∷ []) no_course (do
        owner ← look (get_owner 0 (path_of (course ∷ [])))
        if_directory user (course ∷ name ∷ []) (codes "The homework does not exists.")
            (delete_owned e user course name owner)))
