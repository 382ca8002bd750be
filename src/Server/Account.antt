-- ===== src/Server/Account.antt =====
-- Server/server.cpp: the handlers about users and about the whole system.
pub mod Discipline
pub mod Heard
use student_management_syste.Prelude.{
  ℕ, zero, suc, Bool, true, false, not, ◌&&◌, ◌||◌, Option, none, some, List, [], ◌∷◌, ◌++◌, Bytes,
  ◌==◌, bytes_eq, codes, if◌then◌else◌, length,
}
use student_management_syste.Snapshot.{minus_one}
use student_management_syste.Log
use student_management_syste.System.{Os}
use student_management_syste.Journal
use student_management_syste.User.{
  login_systems, get_user_id, get_user_main_group, modify_user_password,
}
use student_management_syste.User
use student_management_syste.Group.{
  delete_group, get_group_id, add_user_to_group, delete_user_from_group, check_user_from_group,
}
use student_management_syste.Path.{entry_number, check_path, get_owner}
use student_management_syste.Path.Walked.{path_of}
use student_management_syste.File.Remove.{delete_directory}
use student_management_syste.File.Content.{Block, list_files}
use student_management_syste.Backup.{backup_system, recovery_system}
use student_management_syste.Server.Session.{
  Act, Done, pure, lift, look, ◌>>=◌, ◌>>◌, recv_msg, drop_result, always, asks, change,
  if_directory, each, count_up, file_name, reading, writing, down_writer, up_writer, Env,
}
use student_management_syste.Server.Homework.{reply}
use student_management_syste.Server.Course.{delete_student_assignment_from_course}

-- `stoi` of the three texts that the test before it lets pass.
unfoldable pub identity : Bytes → Option ℕ
identity text =
    if bytes_eq text (codes "0")
    then some 0
    else if bytes_eq text (codes "1")
    then some 1
    else if bytes_eq text (codes "2")
    then some 2
    else none

-- What `createUser` returns is not tested.
unfoldable pub make_user : Env → ℕ → Bytes → Bytes → ℕ → Act Bytes
make_user e user name password group = do
  known ← look (asks (get_user_id user name))
  if known == minus_one
      then (do
        number ← change (User.create_user e.user e.password user name password group)
        drop_result (always (add_user_to_group user number group))
        reply (codes "Create user " ++ (name ++ codes ".")) (codes "Created successfully!."))
      else pure (codes "The user already exists.")

unfoldable pub create_identified : Env → ℕ → Bytes → Bytes → Option ℕ → Act Bytes
create_identified e user name password none = pure (codes "User identity error.")
create_identified e user name password (some group) = writing (make_user e user name password group)

unfoldable pub create_user : Env → ℕ → Act Bytes
create_user e user = do
  group ← recv_msg
  name ← recv_msg
  password ← recv_msg
  create_identified e user name password (identity group)

-- One entry of the root directory, for a teacher who is deleted: a course that the teacher owns is
-- deleted with its group.
unfoldable pub drop_course : Env → ℕ → Block → ℕ → Done → Act Done
drop_course e teacher block i before = do
  course ← lift (file_name block i)
  if length course == 0 then pure tt else (do
    kind ← look (check_path 0 (path_of (course ∷ [])))
    if kind == 0
        then (do
          owner ← look (get_owner 0 (path_of (course ∷ [])))
          if owner == teacher
              then (do
                group ← look (asks (get_group_id 0 course))
                drop_result (delete_directory e.depth 0 (path_of (course ∷ [])))
                drop_result (always (delete_group 0 group)))
              else pure tt)
        else pure tt)

unfoldable pub delete_teacher_course : Env → ℕ → Act Done
delete_teacher_course e teacher = do
  blocks ← look (list_files (codes "/"))
  each (λ block. count_up (drop_course e teacher block) entry_number 0) blocks tt

-- For a student: a course that the student takes loses the student's homework and the student.
unfoldable pub leave_course : Env → ℕ → Bytes → Block → ℕ → Done → Act Done
leave_course e student name block i before = do
  course ← lift (file_name block i)
  if length course == 0 then pure tt else (do
    kind ← look (check_path 0 (path_of (course ∷ [])))
    if kind == 0
        then (do
          group ← look (asks (get_group_id 0 course))
          is_member ← look (asks (check_user_from_group 0 student group))
          if is_member
              then (do
                delete_student_assignment_from_course e name course
                drop_result (always (delete_user_from_group 0 student group)))
              else pure tt)
        else pure tt)

unfoldable pub delete_student_course : Env → ℕ → Bytes → Act Done
delete_student_course e student name = do
  blocks ← look (list_files (codes "/"))
  each (λ block. count_up (leave_course e student name block) entry_number 0) blocks tt

unfoldable pub leave_courses : Env → ℕ → Bytes → ℕ → Act Done
leave_courses e user name main =
    if main == 1
    then delete_teacher_course e user
    else if main == 2
    then delete_student_course e user name
    else pure tt

unfoldable pub remove_user : Env → ℕ → Bytes → ℕ → Act Bytes
remove_user e exec name user = do
  main ← look (asks (get_user_main_group exec user))
  leave_courses e user name main
  drop_result (always (delete_user_from_group exec user main))
  drop_result (always (User.delete_user exec user))
  reply (codes "Delete user " ++ (name ++ codes ".")) (codes "Deleted successfully!.")

unfoldable pub delete_user : Env → ℕ → Act Bytes
delete_user e exec = do
  name ← recv_msg
  writing (do
    user ← look (asks (get_user_id exec name))
    if user == minus_one
        then pure (codes "The user does not exist.")
        else if user == 0 || user == 1
        then pure (codes "The user cannot be deleted.")
        else remove_user e exec name user)

unfoldable pub set_password : Bytes → Bytes → Act Bytes
set_password name password = do
  user ← look (asks (get_user_id 0 name))
  drop_result (always (modify_user_password 0 user password))
  reply (codes "Modify user " ++ (name ++ codes "'s password.")) (codes "Modified successfully!")

-- For a wrong old password the text is compared, not assigned: the message is empty.
unfoldable pub modify_password : Act Bytes
modify_password = do
  name ← recv_msg
  old ← recv_msg
  new ← recv_msg
  confirmed ← recv_msg
  writing (do
    user ← look (asks (get_user_id 0 name))
    if user == minus_one then pure (codes "User does not exist.") else (do
      accepted ← look (asks (login_systems name old))
      if accepted
          then (if bytes_eq new confirmed
              then set_password name new
              else pure (codes "The two new passwords are different."))
          else pure []))

unfoldable pub backup : ℕ → Act Bytes
backup user = do
  version ← recv_msg
  writing (do
    ok ← change (always (backup_system user version))
    pure (if ok then codes "Backup succeeded!" else codes "Backup failed."))

unfoldable pub recover : ℕ → Act Bytes
recover user = do
  version ← recv_msg
  writing (do
    ok ← change (always (recovery_system user version))
    if ok
        then reply (codes "Recover system to version " ++ (version ++ codes "."))
            (codes "Recover succeeded!")
        else pure (codes "Recover failed."))

unfoldable pub revoke : Act Bytes
revoke = writing (do
  ok ← change Journal.revoke
  pure (if ok then codes "Revoke succeeded!" else codes "Revoke failed."))

unfoldable pub clearsnapshot : Act Bytes
clearsnapshot = writing (do
  ok ← change (always Journal.initialize_snapshot)
  pure (if ok then codes "clear succeeded!" else codes "clear failed."))

unfoldable pub check_log : Act Bytes
check_log = reading (look (asks (λ (s : Os). Log.check_log s.system_log)))
