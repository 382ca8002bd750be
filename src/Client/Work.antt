-- ===== src/Client/Work.antt =====
-- Client/client.cpp: the loops of the three kinds of user, `login`, `working` and `main`.
use student_management_syste.Prelude.{
  ℕ, zero, suc, Option, none, some, List, [], ◌∷◌, Bytes, bytes_eq, codes, if◌then◌else◌,
}
use student_management_syste.Client.{Talk, pure, ◌>>=◌, ◌>>◌, say, typed, hear, Files}
use student_management_syste.Client.Command.{
  publish_homework, check_homework, mark, write_comment, check_score_and_comment, check_assignment,
  submit_homework, delete_homework, list_course, list_homework, create_course, delete_course,
  add_to_course, delete_from_course, list_course_user, list_group_user, create_user, delete_user,
  modify_password, backup, recover, revoke, clearsnapshot, check_log,
}

abbrev pub Commands : Type 0
Commands = List (Bytes × Talk (Option Bytes))

-- The commands of the three kinds of user, in the order in which they are compared.
unfoldable pub administrator_commands : Files → Commands
administrator_commands files =
    (codes "publishhomework", publish_homework files)
    ∷ (codes "checkhomework", check_homework [])
    ∷ (codes "mark", mark)
    ∷ (codes "writecomment", write_comment files)
    ∷ (codes "checkscoreandcomment", check_score_and_comment [])
    ∷ (codes "checkassignment", check_assignment)
    ∷ (codes "submithomework", submit_homework files [])
    ∷ (codes "deletehomework", delete_homework)
    ∷ (codes "listcourse", list_course [])
    ∷ (codes "listhomework", list_homework [])
    ∷ (codes "createcourse", create_course)
    ∷ (codes "addtocourse", add_to_course)
    ∷ (codes "deletefromcourse", delete_from_course)
    ∷ (codes "deletecourse", delete_course)
    ∷ (codes "listcourseuser", list_course_user)
    ∷ (codes "listadmin", list_group_user (codes "admin"))
    ∷ (codes "liststudent", list_group_user (codes "student"))
    ∷ (codes "listteacher", list_group_user (codes "teacher"))
    ∷ (codes "createuser", create_user)
    ∷ (codes "deleteuser", delete_user)
    ∷ (codes "modifypassword", modify_password [])
    ∷ (codes "backup", backup)
    ∷ (codes "recover", recover)
    ∷ (codes "revoke", revoke)
    ∷ (codes "checklog", check_log)
    ∷ (codes "clearsnapshot", clearsnapshot)
    ∷ []

unfoldable pub teacher_commands : Files → Bytes → Commands
teacher_commands files user_info =
    (codes "publishhomework", publish_homework files)
    ∷ (codes "checkhomework", check_homework [])
    ∷ (codes "mark", mark)
    ∷ (codes "writecomment", write_comment files)
    ∷ (codes "checkscoreandcomment", check_score_and_comment [])
    ∷ (codes "checkassignment", check_assignment)
    ∷ (codes "deletehomework", delete_homework)
    ∷ (codes "listcourse", list_course user_info)
    ∷ (codes "listhomework", list_homework user_info)
    ∷ (codes "listcourseuser", list_course_user)
    ∷ (codes "modifypassword", modify_password user_info)
    ∷ []

unfoldable pub student_commands : Files → Bytes → Commands
student_commands files user_info =
    (codes "checkhomework", check_homework user_info)
    ∷ (codes "checkscoreandcomment", check_score_and_comment user_info)
    ∷ (codes "checkassignment", check_assignment)
    ∷ (codes "submithomework", submit_homework files user_info)
    ∷ (codes "listcourse", list_course user_info)
    ∷ (codes "listhomework", list_homework user_info)
    ∷ (codes "modifypassword", modify_password user_info)
    ∷ []

unfoldable pub find_command : Bytes → Commands → Option (Talk (Option Bytes))
find_command option [] = none
find_command option ((name, command) ∷ cs) =
    if bytes_eq option name then some command else find_command option cs

-- How a loop ends: the user leaves; no answer comes; or the turns that it was given are over.
pub data Ending : Type 0 where
  exited : Ending
  unanswered : Ending
  unfinished : Ending

-- What follows a `recvMsg`.
unfoldable pub go_on : (Bytes → Talk Ending) → Option Bytes → Talk Ending
go_on next none = pure unanswered
go_on next (some reply) = next reply

unfoldable pub obey : Option (Talk (Option Bytes)) → Bytes → Talk Ending → Talk Ending
obey (some command) option next = command >>= go_on (λ reply. next)
obey none option next =
    if bytes_eq option (codes "exit") then say (codes "exit") >> pure exited else next

-- One turn: `help` sends nothing.
unfoldable pub take_turn : Commands → Bytes → Talk Ending → Talk Ending
take_turn commands option next =
    if bytes_eq option (codes "help") then next else obey (find_command option commands) option next

-- The loop of `administratorSystem`, `teacherSystem` and `studentSystem`, with its variable `option`.
unfoldable pub system_loop : ℕ → Commands → Bytes → Talk Ending
system_loop zero commands old = pure unfinished
system_loop (suc f) commands old =
    typed old >>= λ option. take_turn commands option (system_loop f commands option)

-- `working`, once the server has named the group of the user.
unfoldable pub work_as : ℕ → Files → Bytes → Bytes → Talk Ending
work_as f files user_info identity =
    if bytes_eq identity (codes "admin")
    then system_loop f (administrator_commands files) []
    else if bytes_eq identity (codes "teacher")
    then system_loop f (teacher_commands files user_info) []
    else if bytes_eq identity (codes "student")
    then system_loop f (student_commands files user_info) []
    else pure exited

unfoldable pub working : ℕ → Files → Bytes → Talk Ending
working f files user_info = hear >>= go_on (work_as f files user_info)

-- `login`: what follows for a user who is accepted, and for one who is not.
unfoldable pub login : (Bytes → Talk Ending) → Talk Ending → Talk Ending
login enter again =
    hear
    >>= go_on (λ prompt. typed [] >>= λ username. say username >> typed [] >>= λ password.
        say password
        >> hear
        >>= go_on (λ answer. if bytes_eq answer (codes "Accepted") then enter username else again))

unfoldable pub login_loop : ℕ → (Bytes → Talk Ending) → Talk Ending
login_loop zero enter = pure unfinished
login_loop (suc f) enter = login enter (say (codes "retry") >> login_loop f enter)

-- `main`, from the welcome on; the loops get f turns each.
unfoldable pub main : ℕ → Files → Talk Ending
main f files = hear >>= go_on (λ welcome. login_loop f (working f files))
