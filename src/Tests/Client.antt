-- ===== src/Tests/Client.antt =====
-- A user at the client, and the server on the small system of directories.
use student_management_syste.Prelude.{
  ◌≡◌, ◌≢◌, refl, sym, ap, subst, ◌≤◌, ℕ, none, some, [], ◌∷◌, ◌++◌, Bytes, List, codes, arith,
  length,
}
use student_management_syste.Client.{
  Terminal, Said, send_file, Files, ◌>>=◌, say, typed, hear, pure, first_or, first_of, others,
}
use student_management_syste.Client.Command.{list_course, revoke, say_user, user_name}
use student_management_syste.Client.Work.{
  Ending, exited, administrator_commands, find_command, take_turn, obey, go_on, system_loop,
}
use student_management_syste.Client.Lockstep.{Served}
use student_management_syste.Client.Lockstep.Kinds.{administrator, serve-typed}
use student_management_syste.Client.Transfer.{recv_file-send_file}
use student_management_syste.Server.Session.{recv_file, done}
use student_management_syste.Server.Session.Heard.{given}
use student_management_syste.Server.Work.{serve}
use student_management_syste.Tests.Server.{env, client}

abbrev files : Files
files path = none

-- Two commands with an answer each, and a third answer that nobody takes.
abbrev terminal : Terminal
terminal = record {
  words = codes "revoke" ∷ codes "listcourse" ∷ codes "bob" ∷ codes "exit" ∷ [];
  replies = codes "Revoke failed." ∷ codes "User does not exist." ∷ codes "other" ∷ [];
}

abbrev run : Said Ending
run = system_loop 4 (administrator_commands files) [] terminal

run_ends : run ≡ record {
  value = exited;
  sent = codes "revoke" ∷ codes "listcourse" ∷ codes "bob" ∷ codes "exit" ∷ [];
  left = record { words = []; replies = codes "other" ∷ [] };
}
unfolding system_loop ◌>>=◌ typed take_turn first_or obey find_command administrator_commands revoke
    say hear go_on first_of others list_course say_user user_name pure
run_ends = refl

serve-typed_example :
    Served
      (client [])
      (codes "more" ∷ [])
      3
      (length run.left.replies)
      (serve 4 env 0 (given (run.sent ++ codes "more" ∷ []) (client [])))
serve-typed_example =
    serve-typed 4 files [] (administrator_commands files) (administrator files []) [] terminal
      (ap (λ (r : Said Ending). r.value) run_ends) 4 env 0 (codes "more" ∷ []) (client []) refl
      (subst (λ (ms : List Bytes). length ms ≤ 4) (sym (ap (λ (r : Said Ending). r.sent) run_ends))
        (omega arith))

-- A file that is read in two parts.
abbrev homework_file : Files
homework_file path = some (codes "first " ∷ codes "second" ∷ [])

recv_file-send_file_example :
    recv_file (
      given
        ((send_file homework_file (codes "a.txt") terminal).sent ++ codes "exit" ∷ [])
        (client []))
    ≡ done (codes "first second") (given (codes "exit" ∷ []) (client []))
recv_file-send_file_example =
    recv_file-send_file homework_file (codes "a.txt") (codes "first " ∷ codes "second" ∷ []) refl
      (not_empty, (not_empty, tt)) terminal (codes "exit" ∷ []) (client [])
  where
    not_empty : {c : ℕ} {cs : Bytes} → c ∷ cs ≢ []
    not_empty p = absurd (ground arith)
