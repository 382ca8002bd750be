-- ===== src/Server/Account/Heard.antt =====
-- The messages that the handlers of Server/server.cpp about users and the system receive.
use student_management_syste.Prelude.{ℕ, [], ◌∷◌, Bytes}
use student_management_syste.Server.Session.{Env}
use student_management_syste.Server.Session.Heard.{Hears, heard_rules}
use student_management_syste.Server.Account.{
  create_user, delete_user, modify_password, backup, recover, revoke, clearsnapshot, check_log,
}
use student_management_syste.Server.Homework.Discipline.{homework_rules}
use student_management_syste.Server.Account.Discipline.{
  create_identified-Tidy, remove_user-Tidy, set_password-Tidy,
}

pub create_user-Hears :
    (e : Env) (user : ℕ) (group name password : Bytes)
    → Hears (group ∷ name ∷ password ∷ []) (create_user e user)
unfolding create_user
create_user-Hears e user group name password =
    search (heard_rules, homework_rules, create_identified-Tidy) depth 60 fits 4000

pub delete_user-Hears : (e : Env) (user : ℕ) (name : Bytes) → Hears (name ∷ []) (delete_user e user)
unfolding delete_user
delete_user-Hears e user name =
    search (heard_rules, homework_rules, remove_user-Tidy) depth 60 fits 4000

pub modify_password-Hears :
    (name old new confirmed : Bytes) → Hears (name ∷ old ∷ new ∷ confirmed ∷ []) modify_password
unfolding modify_password
modify_password-Hears name old new confirmed =
    search (heard_rules, homework_rules, set_password-Tidy) depth 60 fits 4000

pub backup-Hears : (user : ℕ) (version : Bytes) → Hears (version ∷ []) (backup user)
unfolding backup
backup-Hears user version = search (heard_rules, homework_rules) depth 60 fits 4000

pub recover-Hears : (user : ℕ) (version : Bytes) → Hears (version ∷ []) (recover user)
unfolding recover
recover-Hears user version = search (heard_rules, homework_rules) depth 60 fits 4000

pub revoke-Hears : Hears ([]) revoke
unfolding revoke
revoke-Hears = search (heard_rules, homework_rules) depth 60 fits 4000

pub clearsnapshot-Hears : Hears ([]) clearsnapshot
unfolding clearsnapshot
clearsnapshot-Hears = search (heard_rules, homework_rules) depth 60 fits 4000

pub check_log-Hears : Hears ([]) check_log
unfolding check_log
check_log-Hears = search (heard_rules, homework_rules) depth 60 fits 4000
