-- ===== src/Client/Lockstep/Kinds.antt =====
-- The three kinds of user of Client/client.cpp against the server.
use student_management_syste.Prelude.{ℕ, ◌≤◌, ◌≡◌, List, ◌++◌, Bytes, length}
use student_management_syste.Client.{Terminal, Files}
use student_management_syste.Client.Work.{
  Commands, administrator_commands, teacher_commands, student_commands, exited, system_loop,
}
use student_management_syste.Client.Heard.Homework.{
  publish_homework-Understood, submit_homework-Understood, delete_homework-Understood,
  check_homework-Understood, mark-Understood, write_comment-Understood,
  check_score_and_comment-Understood, check_assignment-Understood, list_course-Understood,
  list_homework-Understood,
}
use student_management_syste.Client.Heard.System.{
  create_course-Understood, delete_course-Understood, add_to_course-Understood,
  delete_from_course-Understood, list_course_user-Understood, list_group_user-Understood,
  create_user-Understood, delete_user-Understood, modify_password-Understood, backup-Understood,
  recover-Understood, revoke-Understood, clearsnapshot-Understood, check_log-Understood,
}
use student_management_syste.Client.Lockstep.{
  Known, no_command, and_command, Served, system_loop-InStep,
}
use student_management_syste.Server.Session.{Session, outside, Env}
use student_management_syste.Server.Session.Heard.{given}
use student_management_syste.Server.Work.{serve}

ruleset known_rules = (
  no_command, and_command, publish_homework-Understood, submit_homework-Understood,
  delete_homework-Understood, check_homework-Understood, mark-Understood, write_comment-Understood,
  check_score_and_comment-Understood, check_assignment-Understood, list_course-Understood,
  list_homework-Understood, create_course-Understood, delete_course-Understood,
  add_to_course-Understood, delete_from_course-Understood, list_course_user-Understood,
  list_group_user-Understood, create_user-Understood, delete_user-Understood,
  modify_password-Understood, backup-Understood, recover-Understood, revoke-Understood,
  clearsnapshot-Understood, check_log-Understood,
)

pub data IsKind : Files → Bytes → Commands → Type 1 where
  administrator :
      (files : Files) (user_info : Bytes) → IsKind files user_info (administrator_commands files)
  teacher :
      (files : Files) (user_info : Bytes)
      → IsKind files user_info (teacher_commands files user_info)
  student :
      (files : Files) (user_info : Bytes)
      → IsKind files user_info (student_commands files user_info)

administrator-Known : (files : Files) → Known (administrator_commands files)
unfolding administrator_commands
administrator-Known files = search known_rules depth 60 fits 4000

teacher-Known : (files : Files) (user_info : Bytes) → Known (teacher_commands files user_info)
unfolding teacher_commands
teacher-Known files user_info = search known_rules depth 60 fits 4000

student-Known : (files : Files) (user_info : Bytes) → Known (student_commands files user_info)
unfolding student_commands
student-Known files user_info = search known_rules depth 60 fits 4000

IsKind-Known :
    {files : Files} {user_info : Bytes} {cs : Commands} → IsKind files user_info cs → Known cs
IsKind-Known (administrator files user_info) = administrator-Known files
IsKind-Known (teacher files user_info) = teacher-Known files user_info
IsKind-Known (student files user_info) = student-Known files user_info

-- For each of the three kinds of user, whatever is typed and whatever messages come: if the user
-- leaves the client's loop, then the loop of the server, which holds no lock, finds what the client
-- has sent, as it was sent, with anything behind it, and has at least as many turns as there are
-- messages, ends there, or a command crashes or does not return. It does not wait and misuses no
-- lock; where it ends, it leaves what is behind and has sent as many messages as the client has taken.
pub serve-typed :
    (f : ℕ) (files : Files) (user_info : Bytes) (cs : Commands)
    → IsKind files user_info cs
    → (old : Bytes) (t : Terminal) → (system_loop f cs old t).value ≡ exited
    → (g : ℕ) (e : Env) (user : ℕ) (rest : List Bytes) (s : Session) → s.held ≡ outside
    → length (system_loop f cs old t).sent ≤ g
    → Served s rest
        (length t.replies)
        (length (system_loop f cs old t).left.replies)
        (serve g e user (given ((system_loop f cs old t).sent ++ rest) s))
serve-typed f files user_info cs k old = system_loop-InStep f cs old (IsKind-Known k)
