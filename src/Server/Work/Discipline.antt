-- ===== src/Server/Work/Discipline.antt =====
-- The locks over a whole session.
use student_management_syste.Prelude.{
  ℕ, zero, suc, ◌≡◌, refl, sym, subst, Bool, true, false, Option, none, some, List, [], ◌∷◌, Bytes,
  bytes_eq, if◌then◌else◌,
}
use student_management_syste.Server.Session.{
  outside, Session, done, pure, Act, Done, ◌>>=◌, lift, Env, misused, recv_msg, after, down_reader,
  move, look, look_if, up_reader, up_reader_if,
}
use student_management_syste.Server.Session.Tidy.{Tidy, tidy_rules, tidy_bind, tidy_recv_msg}
use student_management_syste.Server.Session.Kept.{Ends, Tidy-Ends}
use student_management_syste.Server.Homework.Discipline.{
  publish_homework-Tidy, submit_homework-Tidy, delete_homework-Tidy,
}
use student_management_syste.Server.Grading.Discipline.{
  check_homework-Tidy, mark-Tidy, write_comment-Tidy, check_score_and_comment-Tidy,
  check_assignment-Tidy, list_course-Tidy, list_homework-Tidy,
}
use student_management_syste.Server.Course.Discipline.{
  create_course-Tidy, delete_course-Tidy, add_to_course-Tidy, delete_from_course-Tidy,
  list_course_user-Tidy, list_group_user-Tidy,
}
use student_management_syste.Server.Account.Discipline.{
  create_user-Tidy, delete_user-Tidy, modify_password-Tidy, backup-Tidy, recover-Tidy, revoke-Tidy,
  clearsnapshot-Tidy, check_log-Tidy,
}
use student_management_syste.User.{get_user_main_group}
use student_management_syste.Server.Work.{
  login, login_as, login_again, login_loop, handlers, find_handler, serve_one, serve, read_group,
  send_group_name, greet,
}

pub data AllTidy : List (Bytes × Act Bytes) → Type 1 where
  end : AllTidy []
  and_tidy :
      {name : Bytes} {handler : Act Bytes} {hs : List (Bytes × Act Bytes)}
      → Tidy true true outside Bytes handler
      → AllTidy hs
      → AllTidy ((name, handler) ∷ hs)

ruleset handler_rules = (
  end, and_tidy, publish_homework-Tidy, submit_homework-Tidy, delete_homework-Tidy,
  check_homework-Tidy, mark-Tidy, write_comment-Tidy, check_score_and_comment-Tidy,
  check_assignment-Tidy, list_course-Tidy, list_homework-Tidy, create_course-Tidy,
  delete_course-Tidy, add_to_course-Tidy, delete_from_course-Tidy, list_course_user-Tidy,
  list_group_user-Tidy, create_user-Tidy, delete_user-Tidy, modify_password-Tidy, backup-Tidy,
  recover-Tidy, revoke-Tidy, clearsnapshot-Tidy, check_log-Tidy,
)

pub handlers-AllTidy : (e : Env) (user : ℕ) → AllTidy (handlers e user)
unfolding handlers
handlers-AllTidy e user = search handler_rules depth 60 fits 4000

-- If there is a handler, it is tidy.
abbrev pub Found : Option (Act Bytes) → Type 1
Found none = Unit {1}
Found (some handler) = Tidy true true outside Bytes handler

if-Found : (b : Bool) (x y : Option (Act Bytes)) → Found x → Found y → Found (if b then x else y)
if-Found true x y p q = p
if-Found false x y p q = q

pub find_handler-Found :
    (command : Bytes) (hs : List (Bytes × Act Bytes)) → AllTidy hs → Found (find_handler command hs)
unfolding find_handler
find_handler-Found command [] a = tt
find_handler-Found command ((name, h) ∷ hs) (and_tidy x a) =
    if-Found (bytes_eq command name) (some h) (find_handler command hs) x
      (find_handler-Found command hs a)

serve_one-Tidy :
    (o : Option (Act Bytes)) (command : Bytes) (next : Act Done)
    → Found o
    → Tidy true true outside Done next
    → Tidy true true outside Done (serve_one o command next)
unfolding serve_one
serve_one-Tidy none command next p n = search (tidy_rules, n) depth 20
serve_one-Tidy (some h) command next p n = search (tidy_rules, n, p) depth 20

serve-Tidy : (fuel : ℕ) (e : Env) (user : ℕ) → Tidy true true outside Done (serve fuel e user)
unfolding serve
serve-Tidy zero e user = search tidy_rules
serve-Tidy (suc f) e user = tidy_bind recv_msg _ tidy_recv_msg λ c.
    serve_one-Tidy _ c _ (find_handler-Found c (handlers e user) (handlers-AllTidy e user))
      (serve-Tidy f e user)

login-Tidy : Tidy true true outside (Option ℕ) login
unfolding login login_as
login-Tidy = search tidy_rules depth 40

login_loop-Tidy : (fuel : ℕ) → Tidy true true outside (Option ℕ) (login_loop fuel)
unfolding login_loop login_again
login_loop-Tidy zero = search tidy_rules
login_loop-Tidy (suc f) =
    tidy_bind login _ login-Tidy λ user. login_again-Tidy user _ (login_loop-Tidy f)
  where
    login_again-Tidy :
        (user : Option ℕ) (next : Act (Option ℕ))
        → Tidy true true outside (Option ℕ) next
        → Tidy true true outside (Option ℕ) (login_again user next)
    login_again-Tidy none next n = search (tidy_rules, n) depth 20
    login_again-Tidy (some u) next n = search tidy_rules

-- A thread that holds no lock and serves a client, whatever the client sends, for as long as one
-- likes, never uses the system without the lock that this takes, nor a lock out of turn; when it is
-- done, it holds no lock.
pub serve_keeps_locks :
    (fuel : ℕ) (e : Env) (user : ℕ) (s : Session)
    → s.held ≡ outside
    → Ends true true outside s (serve fuel e user s)
serve_keeps_locks fuel e user = Tidy-Ends (serve-Tidy fuel e user)

-- A thread that holds no lock and lets a client log in, as often as the client tries, never uses the
-- system without the lock that this takes, nor a lock out of turn, and holds no lock when it is done.
pub login_loop_keeps_locks :
    (fuel : ℕ) (s : Session) → s.held ≡ outside → Ends true true outside s (login_loop fuel s)
login_loop_keeps_locks fuel = Tidy-Ends (login_loop-Tidy fuel)

-- When a thread that holds no lock begins to serve a user, it reads the number of the user's group
-- under the lock, without a misuse, and changes nothing; but it then uses the system without a lock,
-- for the name of the group, whatever the number is, so that it misuses the lock for every user.
pub greet_misuses :
    (user : ℕ) (s : Session)
    → s.held ≡ outside
    → (read_group user s ≡ done (get_user_main_group 0 user s.os) s)
      × ((group : ℕ) → send_group_name group s ≡ misused)
      × (greet user s ≡ misused)
unfolding greet read_group send_group_name ◌>>=◌ after down_reader move look look_if up_reader
    up_reader_if lift pure
greet_misuses user s e =
    let p : s ≡ record s { held = outside } = λ i. record s { held = e i } in
    subst
      (λ t.
        (read_group user t ≡ done (get_user_main_group 0 user t.os) t)
        × ((group : ℕ) → send_group_name group t ≡ misused)
        × (greet user t ≡ misused))
      (sym p) (refl, (λ group. refl), refl)
