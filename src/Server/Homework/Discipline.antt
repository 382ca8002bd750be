-- ===== src/Server/Homework/Discipline.antt =====
-- The handlers of Server/server.cpp about homework keep to the locks.
use student_management_syste.Prelude.{ℕ, Bool, true, List, Bytes}
use student_management_syste.Server.Homework.{
  add_directory, add_file, put_text, reply, publish_new, publish_again, publish, publish_homework,
  for_submission, submit_first, submit_for, submit, submit_homework, delete_owned, delete_homework,
}
use student_management_syste.Server.Session.{outside, as_reader, as_writer, Act, Done, Env}
use student_management_syste.Server.Session.Tidy.{Tidy, tidy_rules}
use student_management_syste.Server.Session.Shared.{shared_rules}

pub add_directory-Tidy :
    {t : Bool} (e : Env) (path : List Bytes) (user : ℕ) (group : ℕ)
    → Tidy t true as_writer Done (add_directory e path user group)
unfolding add_directory
add_directory-Tidy e path user group = search tidy_rules depth 40 fits 4000

pub add_file-Tidy :
    {t : Bool} (path : List Bytes) (user : ℕ) (group : ℕ)
    → Tidy t true as_writer Done (add_file path user group)
unfolding add_file
add_file-Tidy path user group = search tidy_rules depth 40 fits 4000

pub put_text-Tidy :
    {t : Bool} (path : List Bytes) (content : Bytes)
    → Tidy t true as_writer Done (put_text path content)
unfolding put_text
put_text-Tidy path content = search tidy_rules depth 40 fits 4000

pub reply-Tidy :
    {t : Bool} (command : Bytes) (message : Bytes)
    → Tidy t true as_writer Bytes (reply command message)
unfolding reply
reply-Tidy command message = search shared_rules depth 40 fits 4000

pub ruleset homework_rules =
    (shared_rules, add_directory-Tidy, add_file-Tidy, put_text-Tidy, reply-Tidy)

publish_new-Tidy :
    {t : Bool} (e : Env) (command : Bytes) (course : Bytes) (name : Bytes) (content : Bytes)
    (owner : ℕ) (group : ℕ)
    → Tidy t true as_writer Bytes (publish_new e command course name content owner group)
unfolding publish_new
publish_new-Tidy e command course name content owner group =
    search homework_rules depth 40 fits 4000

publish_again-Tidy :
    {t : Bool} (user : ℕ) (command : Bytes) (course : Bytes) (name : Bytes) (content : Bytes)
    → Tidy t true as_writer Bytes (publish_again user command course name content)
unfolding publish_again
publish_again-Tidy user command course name content = search homework_rules depth 40 fits 4000

pub publish-Tidy :
    {t : Bool} (e : Env) (user : ℕ) (course : Bytes) (name : Bytes) (content : Bytes)
    → Tidy t true as_writer Bytes (publish e user course name content)
unfolding publish
publish-Tidy e user course name content =
    search (homework_rules, publish_new-Tidy, publish_again-Tidy) depth 40 fits 4000

pub publish_homework-Tidy :
    (e : Env) (user : ℕ) → Tidy true true outside Bytes (publish_homework e user)
unfolding publish_homework
publish_homework-Tidy e user = search (homework_rules, publish-Tidy) depth 40 fits 4000

pub for_submission_writer :
    {t w : Bool} (user : ℕ) (course name student : Bytes) (found : Act Bytes)
    → Tidy t w as_writer Bytes found
    → Tidy t w as_writer Bytes (for_submission user course name student found)
unfolding for_submission
for_submission_writer user course name student found g = search (shared_rules, g) depth 20

pub for_submission_reader :
    {t w : Bool} (user : ℕ) (course name student : Bytes) (found : Act Bytes)
    → Tidy t w as_reader Bytes found
    → Tidy t w as_reader Bytes (for_submission user course name student found)
unfolding for_submission
for_submission_reader user course name student found g = search (shared_rules, g) depth 20

submit_first-Tidy :
    {t : Bool} (e : Env) (command : Bytes) (course : Bytes) (name : Bytes) (student : Bytes)
    (content : Bytes) (owner : ℕ) (group : ℕ) (student_id : ℕ)
    → Tidy t true as_writer Bytes
        (submit_first e command course name student content owner group student_id)
unfolding submit_first
submit_first-Tidy e command course name student content owner group student_id =
    search homework_rules depth 40 fits 4000

submit_for-Tidy :
    {t : Bool} (e : Env) (course : Bytes) (name : Bytes) (student : Bytes) (content : Bytes)
    (student_id : ℕ)
    → Tidy t true as_writer Bytes (submit_for e course name student content student_id)
unfolding submit_for
submit_for-Tidy e course name student content student_id =
    search (homework_rules, submit_first-Tidy) depth 40 fits 4000

pub submit-Tidy :
    {t : Bool} (e : Env) (course : Bytes) (name : Bytes) (student : Bytes) (content : Bytes)
    → Tidy t true as_writer Bytes (submit e course name student content)
unfolding submit
submit-Tidy e course name student content =
    search (homework_rules, submit_for-Tidy) depth 40 fits 4000

pub submit_homework-Tidy :
    (e : Env) (user : ℕ) → Tidy true true outside Bytes (submit_homework e user)
unfolding submit_homework
submit_homework-Tidy e user = search (homework_rules, submit-Tidy) depth 40 fits 4000

pub delete_owned-Tidy :
    {t : Bool} (e : Env) (user : ℕ) (course : Bytes) (name : Bytes) (owner : ℕ)
    → Tidy t true as_writer Bytes (delete_owned e user course name owner)
unfolding delete_owned
delete_owned-Tidy e user course name owner = search homework_rules depth 40 fits 4000

pub delete_homework-Tidy :
    (e : Env) (user : ℕ) → Tidy true true outside Bytes (delete_homework e user)
unfolding delete_homework
delete_homework-Tidy e user = search (homework_rules, delete_owned-Tidy) depth 40 fits 4000
