-- ===== src/Tests/Server.antt =====
-- The server's thread for a client, on the small system of directories.
use student_management_syste.Prelude.{
  ℕ, inl, ◌≡◌, refl, true, some, [], ◌∷◌, Bytes, List, codes, arith,
}
use student_management_syste.Server.Session.{Session, done, outside, Env, misused}
use student_management_syste.File.Content.{Block, write_content, blocks_of}
use student_management_syste.Server.Session.{texts}
use student_management_syste.Server.Session.Reread.{texts-write_content}
use student_management_syste.Server.Session.Kept.{Ends}
use student_management_syste.User.{get_user_main_group}
use student_management_syste.Server.Work.{serve, read_group, send_group_name, greet, login_loop}
use student_management_syste.Server.Work.Discipline.{
  serve_keeps_locks, login_loop_keeps_locks, greet_misuses,
}
use student_management_syste.Server.Work.Turns.{serve_enough}
use student_management_syste.Tests.Path.{tree}

abbrev pub env : Env
env = record { entry = 0; user = λ _. 0; password = λ _. 0; group = λ _. 0; depth = 4 }

abbrev pub client : List Bytes → Session
client inbox = record { os = tree; held = outside; inbox = inbox; outbox = [] }

abbrev asked : Session
asked = client (codes "revoke" ∷ codes "listcourse" ∷ codes "bob" ∷ codes "exit" ∷ [])

serve_keeps_locks_example : Ends true true outside asked (serve 5 env 0 asked)
serve_keeps_locks_example = serve_keeps_locks 5 env 0 asked refl

abbrev tried : Session
tried = client (codes "bob" ∷ codes "secret" ∷ codes "exit" ∷ [])

login_loop_keeps_locks_example : Ends true true outside tried (login_loop 2 tried)
login_loop_keeps_locks_example = login_loop_keeps_locks 2 tried refl

greet_misuses_example :
    (read_group 0 asked ≡ done (get_user_main_group 0 0 tree) asked)
    × ((group : ℕ) → send_group_name group asked ≡ misused)
    × (greet 0 asked ≡ misused)
greet_misuses_example = greet_misuses 0 asked refl

serve_enough_example : serve 5 env 0 asked ≡ serve 9 env 0 asked
serve_enough_example = serve_enough 5 9 env 0 asked refl (omega arith) (omega arith)

-- File 7 of the small system is plain.
texts-write_content_example :
    ((write_content 7 (codes "100%% right\n") tree).0 ≡ true)
    × (blocks : List Block) × (blocks_of
          (write_content 7 (codes "100%% right\n") tree).1.image.block_mem
          ((write_content 7 (codes "100%% right\n") tree).1.image.inode_mem 7)
        ≡ some blocks)
    × (texts blocks ≡ some (codes "100%% right\n"))
texts-write_content_example =
    texts-write_content 7 (codes "100%% right\n") tree (inl refl) refl refl (omega arith)
