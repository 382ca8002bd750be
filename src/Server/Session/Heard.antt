-- ===== src/Server/Session/Heard.antt =====
-- Which messages a handler of Server/server.cpp receives before it works without the client.
use student_management_syste.Prelude.{
  ◌≡◌, true, false, some, List, [], ◌∷◌, ◌++◌, Bytes, bytes_eq, codes,
}
use student_management_syste.Server.Session.{
  outside, Session, Act, ◌>>=◌, after, recv_msg, receive_from, recv_content, recv_file, join_parts,
  receive_parts,
}
use student_management_syste.Server.Session.Tidy.{Tidy}
use student_management_syste.Server.Session.Kept.{Ends, Tidy-Ends}

-- The messages of a content: one text, or the parts of a file, whatever comes after them.
pub data IsContent : Bytes → List Bytes → Type 0 where
  as_text :
      (option text : Bytes) → bytes_eq option (codes "1") ≡ false → IsContent option (text ∷ [])
  as_file :
      (option text : Bytes) (parts : List Bytes)
      → bytes_eq option (codes "1") ≡ true
      → ((rest : List Bytes) → join_parts (parts ++ rest) ≡ some (text, rest))
      → IsContent option parts

pub data Hears : List Bytes → Act Bytes → Type 1 where
  hears_all : (work : Act Bytes) → Tidy false true outside Bytes work → Hears [] work
  hears_more :
      (m : Bytes) (ms : List Bytes) (f : Bytes → Act Bytes)
      → Hears ms (f m)
      → Hears (m ∷ ms) (recv_msg >>= f)
  hears_content :
      (option : Bytes) (ms : List Bytes) (f : Bytes → Act Bytes)
      → IsContent option ms
      → ((text : Bytes) → Tidy false true outside Bytes (f text))
      → Hears ms (recv_content option >>= f)

pub ruleset heard_rules = (hears_all, hears_more, hears_content)

-- The thread with these messages to receive.
abbrev pub given : List Bytes → Session → Session
given ms s = record s { inbox = ms }

content-Ends :
    {option : Bytes} {ms : List Bytes} (rest : List Bytes) (f : Bytes → Act Bytes) (s : Session)
    → s.held ≡ outside
    → IsContent option ms
    → ((text : Bytes) → Tidy false true outside Bytes (f text))
    → Ends false true outside (given rest s) ((recv_content option >>= f) (given (ms ++ rest) s))
unfolding ◌>>=◌ after recv_msg receive_from recv_file receive_parts
content-Ends rest f s o (as_text option text e) g = rw e (Tidy-Ends (g text) (given rest s) o)
content-Ends rest f s o (as_file option text ms e p) g =
    rw (e, p rest) (Tidy-Ends (g text) (given rest s) o)

-- A handler that finds these messages receives no other, does not wait, sends nothing itself, and is
-- outside the locks again when it is done.
pub Hears-Ends :
    {ms : List Bytes} {work : Act Bytes}
    → Hears ms work
    → (rest : List Bytes) (s : Session) → s.held ≡ outside
    → Ends false true outside (given rest s) (work (given (ms ++ rest) s))
unfolding ◌>>=◌ after recv_msg receive_from
Hears-Ends (hears_all work t) rest s o = Tidy-Ends t (given rest s) o
Hears-Ends (hears_more m ms f h) rest s o = Hears-Ends h rest s o
Hears-Ends (hears_content option ms f c g) rest s o = content-Ends rest f s o c g
