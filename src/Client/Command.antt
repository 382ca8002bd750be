-- ===== src/Client/Command.antt =====
-- Client/client.cpp: the commands. Each sends its name and what is typed behind it, and waits for one
-- message.
use student_management_syste.Prelude.{Option, [], ◌∷◌, Bytes, codes}
use student_management_syste.Client.{
  Talk, Done, pure, ◌>>=◌, ◌>>◌, say, typed, hear, say_typed, Files, send_content,
}

-- The user's name: it is typed where `userInfo` is empty.
unfoldable pub user_name : Bytes → Talk Bytes
user_name [] = typed []
user_name (c ∷ cs) = pure (c ∷ cs)

unfoldable pub say_user : Bytes → Talk Done
say_user user_info = do name ← user_name user_info; say name

unfoldable pub say_content : Files → Talk Done
say_content files = do
  option ← typed []
  say option
  content ← typed []
  send_content files option content

unfoldable pub publish_homework : Files → Talk (Option Bytes)
publish_homework files = do
  say (codes "publishhomework")
  say_typed
  say_typed
  say_content files
  hear

unfoldable pub check_homework : Bytes → Talk (Option Bytes)
check_homework user_info = do
  say (codes "checkhomework")
  say_typed
  say_typed
  say_user user_info
  hear

unfoldable pub mark : Talk (Option Bytes)
mark = do say (codes "mark"); say_typed; say_typed; say_typed; say_typed; hear

unfoldable pub write_comment : Files → Talk (Option Bytes)
write_comment files = do
  say (codes "writecomment")
  say_typed
  say_typed
  say_typed
  say_content files
  hear

unfoldable pub check_score_and_comment : Bytes → Talk (Option Bytes)
check_score_and_comment user_info = do
  say (codes "checkscoreandcomment")
  say_typed
  say_typed
  say_user user_info
  hear

unfoldable pub check_assignment : Talk (Option Bytes)
check_assignment = do say (codes "checkassignment"); say_typed; say_typed; hear

unfoldable pub submit_homework : Files → Bytes → Talk (Option Bytes)
submit_homework files user_info = do
  say (codes "submithomework")
  say_typed
  say_typed
  say_user user_info
  say_content files
  hear

unfoldable pub delete_homework : Talk (Option Bytes)
delete_homework = do say (codes "deletehomework"); say_typed; say_typed; hear

unfoldable pub list_course : Bytes → Talk (Option Bytes)
list_course user_info = do say (codes "listcourse"); say_user user_info; hear

unfoldable pub list_homework : Bytes → Talk (Option Bytes)
list_homework user_info = do say (codes "listhomework"); say_typed; say_user user_info; hear

unfoldable pub create_course : Talk (Option Bytes)
create_course = do say (codes "createcourse"); say_typed; say_typed; hear

unfoldable pub delete_course : Talk (Option Bytes)
delete_course = do say (codes "deletecourse"); say_typed; hear

unfoldable pub add_to_course : Talk (Option Bytes)
add_to_course = do say (codes "addtocourse"); say_typed; say_typed; hear

unfoldable pub delete_from_course : Talk (Option Bytes)
delete_from_course = do say (codes "deletefromcourse"); say_typed; say_typed; hear

unfoldable pub list_course_user : Talk (Option Bytes)
list_course_user = do say (codes "listcourseuser"); say_typed; hear

unfoldable pub list_group_user : Bytes → Talk (Option Bytes)
list_group_user group_info = do say (codes "listgroupuser"); say group_info; hear

unfoldable pub create_user : Talk (Option Bytes)
create_user = do say (codes "createuser"); say_typed; say_typed; say_typed; hear

unfoldable pub delete_user : Talk (Option Bytes)
delete_user = do say (codes "deleteuser"); say_typed; hear

unfoldable pub modify_password : Bytes → Talk (Option Bytes)
modify_password user_info = do
  say (codes "modifypassword")
  say_user user_info
  say_typed
  say_typed
  say_typed
  hear

unfoldable pub backup : Talk (Option Bytes)
backup = do say (codes "backup"); say_typed; hear

unfoldable pub recover : Talk (Option Bytes)
recover = do say (codes "recover"); say_typed; hear

unfoldable pub revoke : Talk (Option Bytes)
revoke = do say (codes "revoke"); hear

unfoldable pub clearsnapshot : Talk (Option Bytes)
clearsnapshot = do say (codes "clearsnapshot"); hear

unfoldable pub check_log : Talk (Option Bytes)
check_log = do say (codes "checklog"); hear
