-- ===== src/Client/Transfer.antt =====
-- `sendFile` of Client/client.cpp against `recvFile` of Server/server.cpp.
use student_management_syste.Prelude.{◌≡◌, ◌≢◌, refl, some, List, [], ◌∷◌, ◌++◌, Bytes}
use student_management_syste.Client.{
  Terminal, Files, pure, ◌>>=◌, say, send_parts, send_opened, send_file,
}
use student_management_syste.Server.Session.{Session, done, recv_file, join_parts, receive_parts}
use student_management_syste.Server.Session.Heard.{given}

-- No part is empty.
abbrev pub AllFilled : List Bytes → Type 0
AllFilled [] = Unit {0}
AllFilled (part ∷ parts) = (part ≢ []) × AllFilled parts

abbrev pub joined : List Bytes → Bytes
joined [] = []
joined (part ∷ parts) = part ++ joined parts

parts_joined :
    (parts : List Bytes) (t : Terminal) (rest : List Bytes)
    → AllFilled parts
    → join_parts ((send_parts parts t).sent ++ rest) ≡ some (joined parts, rest)
unfolding send_parts ◌>>=◌ say pure join_parts
parts_joined [] t rest f = refl
parts_joined ([] ∷ parts) t rest f = absurd (f.0 refl)
parts_joined ((c ∷ cs) ∷ parts) t rest f = rw (parts_joined parts t rest f.1) refl

-- If each `read` of a file that opens gives at least one byte, then `recvFile`, where it finds what
-- `sendFile` has sent, as it was sent, with anything behind it, gives the bytes of the file, and leaves
-- what is behind.
pub recv_file-send_file :
    (files : Files) (path : Bytes) (parts : List Bytes)
    → files path ≡ some parts
    → AllFilled parts
    → (t : Terminal) (rest : List Bytes) (s : Session)
    → recv_file (given ((send_file files path t).sent ++ rest) s)
      ≡ done (joined parts) (given rest s)
unfolding recv_file receive_parts send_file send_opened
recv_file-send_file files path parts p f t rest s = rw (p, parts_joined parts t rest f) refl
