-- ===== src/Server/Work.antt =====
-- Server/server.cpp: `login`, the dispatch of `systemWorking`, and `working`, the thread of a client.
-- The loops over what the client sends run on fuel, a turn for a message.
pub mod Discipline
pub mod Readers
pub mod Turns
use student_management_syste.Prelude.{
  ℕ, zero, suc, ◌+◌, Bool, true, false, Option, none, some, List, [], ◌∷◌, Bytes, ◌==◌, bytes_eq,
  codes, if◌then◌else◌,
}
use student_management_syste.Snapshot.{minus_one}
use student_management_syste.User.{login_systems, get_user_id, get_user_main_group}
use student_management_syste.Group.{get_group_name}
use student_management_syste.Server.Session.{
  Act, Done, pure, lift, look, reading, ◌>>=◌, ◌>>◌, recv_msg, send_msg, down_reader, up_reader,
  asks, Env,
}
use student_management_syste.Server.Homework.{publish_homework, submit_homework, delete_homework}
use student_management_syste.Server.Grading.{
  check_homework, mark, write_comment, check_score_and_comment, check_assignment, list_course,
  list_homework,
}
use student_management_syste.Server.Course.{
  create_course, delete_course, add_to_course, delete_from_course, list_course_user,
  list_group_user,
}
use student_management_syste.Server.Account.{
  create_user, delete_user, modify_password, backup, recover, revoke, clearsnapshot, check_log,
}

-- The number of the user who logged in. Both branches end with `upReader`.
unfoldable pub login_as : Bytes → Bytes → Act (Option ℕ)
login_as name password = do
  accepted ← look (asks (login_systems name password))
  if accepted
      then (do
        send_msg (codes "Accepted")
        user ← look (asks (get_user_id 0 name))
        pure (some user))
      else (do send_msg (codes "Rejected"); pure none)

unfoldable pub login : Act (Option ℕ)
login = do
  send_msg (codes "Please enter your username and password.\n")
  name ← recv_msg
  password ← recv_msg
  reading (login_as name password)

-- The handlers, in the order in which the commands are compared.
unfoldable pub handlers : Env → ℕ → List (Bytes × Act Bytes)
handlers e user =
    (codes "publishhomework", publish_homework e user)
    ∷ (codes "checkhomework", check_homework user)
    ∷ (codes "mark", mark user)
    ∷ (codes "writecomment", write_comment user)
    ∷ (codes "checkscoreandcomment", check_score_and_comment user)
    ∷ (codes "checkassignment", check_assignment user)
    ∷ (codes "submithomework", submit_homework e user)
    ∷ (codes "deletehomework", delete_homework e user)
    ∷ (codes "listcourse", list_course user)
    ∷ (codes "listhomework", list_homework user)
    ∷ (codes "createcourse", create_course e user)
    ∷ (codes "deletecourse", delete_course e user)
    ∷ (codes "addtocourse", add_to_course user)
    ∷ (codes "deletefromcourse", delete_from_course e user)
    ∷ (codes "listcourseuser", list_course_user)
    ∷ (codes "listgroupuser", list_group_user user)
    ∷ (codes "createuser", create_user e user)
    ∷ (codes "deleteuser", delete_user e user)
    ∷ (codes "modifypassword", modify_password)
    ∷ (codes "backup", backup user)
    ∷ (codes "recover", recover user)
    ∷ (codes "revoke", revoke)
    ∷ (codes "checklog", check_log)
    ∷ (codes "clearsnapshot", clearsnapshot)
    ∷ []

unfoldable pub find_handler : Bytes → List (Bytes × Act Bytes) → Option (Act Bytes)
find_handler command [] = none
find_handler command ((name, handler) ∷ hs) =
    if bytes_eq command name then some handler else find_handler command hs

-- One turn of the loop: the answer of a command is sent; `exit` ends the loop, and another text has
-- no answer.
unfoldable pub serve_one : Option (Act Bytes) → Bytes → Act Done → Act Done
serve_one (some handler) command next = do message ← handler; send_msg message; next
serve_one none command next = if bytes_eq command (codes "exit") then pure tt else next

unfoldable pub serve : ℕ → Env → ℕ → Act Done
serve zero e user = lift none
serve (suc f) e user = do
  command ← recv_msg
  serve_one (find_handler command (handlers e user)) command (serve f e user)

-- The number of the user's group, under the lock.
unfoldable pub read_group : ℕ → Act ℕ
read_group user = do
  down_reader
  group ← look (asks (get_user_main_group 0 user))
  up_reader
  pure group

-- `sendMsg(os->getGroupName(0, userGroupID))`, after the lock is given back.
unfoldable pub send_group_name : ℕ → Act Done
send_group_name group = do name ← look (get_group_name 0 group); send_msg name

unfoldable pub greet : ℕ → Act Done
greet user = read_group user >>= send_group_name

unfoldable pub system_working : ℕ → Env → ℕ → Act Done
system_working fuel e user = greet user >> serve fuel e user

-- `while (!login(...))`: `none` for a client that left.
unfoldable pub login_again : Option ℕ → Act (Option ℕ) → Act (Option ℕ)
login_again (some user) next = pure (some user)
login_again none next = do
  option ← recv_msg
  if bytes_eq option (codes "exit") then pure none else next

unfoldable pub login_loop : ℕ → Act (Option ℕ)
login_loop zero = lift none
login_loop (suc f) = do user ← login; login_again user (login_loop f)

unfoldable pub work_for : ℕ → Env → Option ℕ → Act Done
work_for fuel e none = pure tt
work_for fuel e (some user) = if user == minus_one then pure tt else system_working fuel e user

unfoldable pub working : ℕ → Env → Act Done
working fuel e = do
  send_msg (codes "Welcome to the Student Management system!\n")
  user ← login_loop fuel
  work_for fuel e user
