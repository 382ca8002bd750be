-- ===== src/Server/Homework/Heard.antt =====
-- The messages that the handlers of Server/server.cpp about homework receive.
use student_management_syste.Prelude.{ℕ, List, [], ◌∷◌, Bytes}
use student_management_syste.Server.Session.{Env}
use student_management_syste.Server.Session.Heard.{IsContent, Hears, heard_rules}
use student_management_syste.Server.Homework.{publish_homework, submit_homework, delete_homework}
use student_management_syste.Server.Homework.Discipline.{
  homework_rules, publish-Tidy, submit-Tidy, delete_owned-Tidy,
}

pub publish_homework-Hears :
    (e : Env) (user : ℕ) (course name option : Bytes) (content : List Bytes)
    → IsContent option content
    → Hears (course ∷ name ∷ option ∷ content) (publish_homework e user)
unfolding publish_homework
publish_homework-Hears e user course name option content sent =
    search (heard_rules, homework_rules, publish-Tidy, sent) depth 60 fits 4000

pub submit_homework-Hears :
    (e : Env) (user : ℕ) (course name student option : Bytes) (content : List Bytes)
    → IsContent option content
    → Hears (course ∷ name ∷ student ∷ option ∷ content) (submit_homework e user)
unfolding submit_homework
submit_homework-Hears e user course name student option content sent =
    search (heard_rules, homework_rules, submit-Tidy, sent) depth 60 fits 4000

pub delete_homework-Hears :
    (e : Env) (user : ℕ) (course name : Bytes) → Hears (course ∷ name ∷ []) (delete_homework e user)
unfolding delete_homework
delete_homework-Hears e user course name =
    search (heard_rules, homework_rules, delete_owned-Tidy) depth 60 fits 4000
