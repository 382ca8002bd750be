-- ===== src/Server/Session.antt =====
-- Server/server.cpp: one thread of the server. A session is the shared system, the lock that the
-- thread holds, the messages that the client has sent and that are not received yet, and those sent
-- to the client.
pub mod Shared
pub mod Tidy
pub mod Kept
pub mod Heard
pub mod Reread
pub mod Revoked
use student_management_syste.Prelude.{
  ℕ, zero, suc, ◌+◌, ◌-◌, ◌*◌, Bool, true, false, Option, none, some, List, [], ◌∷◌, ◌++◌, Bytes,
  ◌==◌, bytes_eq, codes, if◌then◌else◌,
}
use student_management_syste.System.{Os, write_system}
use student_management_syste.Journal.{push_tag}
use student_management_syste.Memory.{Memory, c_string}
use student_management_syste.Path.{check_path}
use student_management_syste.Path.Walked.{path_of}
use student_management_syste.File.Content.{Block, read_file}

-- The lock that the thread holds, of `downReader` and `downWriter`.
pub data Held : Type 0 where
  outside : Held
  as_reader : Held
  as_writer : Held

pub record Session : Type 0 where
  pub os : Os
  pub held : Held
  pub inbox : List Bytes
  pub outbox : List Bytes

-- What becomes of a step: it is done; it waits for a message that never comes; it crashes or does
-- not end; or the thread uses the system without the lock that this takes, or the lock out of turn.
pub data Outcome (A : Type 0) : Type 0 where
  done : A → Session → Outcome A
  waits : Outcome A
  breaks : Outcome A
  misused : Outcome A

abbrev pub Act : Type 0 → Type 0
Act A = Session → Outcome A

module _ {A : Type 0} where
  unfoldable pub pure : A → Act A
  pure a s = done a s

  -- A value that is computed outside the system; `none` where this crashes.
  unfoldable pub lift : Option A → Act A
  lift none s = breaks
  lift (some a) s = done a s

  -- Calls that only read the system take the lock as a reader or as a writer.
  unfoldable pub look_if : Held → (Os → Option A) → Act A
  look_if outside f s = misused
  look_if as_reader f s = lift (f s.os) s
  look_if as_writer f s = lift (f s.os) s

  unfoldable pub look : (Os → Option A) → Act A
  look f s = look_if s.held f s

  -- Calls that change the system take it as a writer.
  unfoldable pub changed : Option (A × Os) → Act A
  changed none s = breaks
  changed (some (a, os)) s = done a (record s { os = os })

  unfoldable pub change_if : Held → (Os → Option (A × Os)) → Act A
  change_if outside f s = misused
  change_if as_reader f s = misused
  change_if as_writer f s = changed (f s.os) s

  unfoldable pub change : (Os → Option (A × Os)) → Act A
  change f s = change_if s.held f s

module _ {A B : Type 0} where
  unfoldable pub after : Outcome A → (A → Act B) → Outcome B
  after (done a s) f = f a s
  after waits f = waits
  after breaks f = breaks
  after misused f = misused

  infixl 5 ◌>>=◌ ◌>>◌
  unfoldable pub ◌>>=◌ : Act A → (A → Act B) → Act B
  unfolding after
  ◌>>=◌ m f s = after (m s) f

  abbrev pub ◌>>◌ : Act A → Act B → Act B
  m >> k = m >>= λ _. k

abbrev pub Done : Type 0
Done = Unit {0}

unfoldable pub receive_from : List Bytes → Act Bytes
receive_from [] s = waits
receive_from (m ∷ ms) s = done m (record s { inbox = ms })

-- `recvMsg`: at the end of the stream it reads nothing, again and again.
unfoldable pub recv_msg : Act Bytes
recv_msg s = receive_from s.inbox s

unfoldable pub send_msg : Bytes → Act Done
send_msg m s = done tt (record s { outbox = s.outbox ++ m ∷ [] })

-- The four lock calls, as one thread sees them.
unfoldable pub move : Held → Held → Act Done
move outside h s = done tt (record s { held = h })
move as_reader h s = misused
move as_writer h s = misused

unfoldable pub down_reader : Act Done
down_reader s = move s.held as_reader s

unfoldable pub down_writer : Act Done
down_writer s = move s.held as_writer s

unfoldable pub up_reader_if : Held → Act Done
up_reader_if outside s = misused
up_reader_if as_reader s = done tt (record s { held = outside })
up_reader_if as_writer s = misused

unfoldable pub up_reader : Act Done
up_reader s = up_reader_if s.held s

unfoldable pub up_writer_if : Held → Act Done
up_writer_if outside s = misused
up_writer_if as_reader s = misused
up_writer_if as_writer s = done tt (record s { held = outside })

unfoldable pub up_writer : Act Done
up_writer s = up_writer_if s.held s

-- Calls whose result is dropped, and calls that always return.
module _ {A : Type 0} where
  abbrev pub drop_result : (Os → Option (A × Os)) → Act Done
  drop_result f = change f >>= λ _. pure tt

  abbrev pub always : (Os → A × Os) → Os → Option (A × Os)
  always f s = some (f s)

  abbrev pub asks : (Os → A) → Os → Option A
  asks f s = some (f s)

-- `recvFile`: the parts up to the first message that is empty.
unfoldable pub join_parts : List Bytes → Option (Bytes × List Bytes)
join_parts [] = none
join_parts ([] ∷ ms) = some ([], ms)
join_parts ((c ∷ cs) ∷ ms) = elim (join_parts ms) [
  | none ↦ none
  | some (t, rest) ↦ some ((c ∷ cs) ++ t, rest)
]

unfoldable pub receive_parts : Option (Bytes × List Bytes) → Act Bytes
receive_parts none s = waits
receive_parts (some (t, rest)) s = done t (record s { inbox = rest })

unfoldable pub recv_file : Act Bytes
recv_file s = receive_parts (join_parts s.inbox) s

-- `(option == "1")? recvFile(pinfo): pinfo->tcp->recvMsg()`
abbrev pub recv_content : Bytes → Act Bytes
recv_content option = if bytes_eq option (codes "1") then recv_file else recv_msg

-- `printLog`
unfoldable pub print_log : Bytes → Act Done
print_log command = drop_result (λ s. some (write_system (push_tag command s)))

-- `os->checkPath(user, path) == 0`, and the message for a path that is no directory.
unfoldable pub if_directory : ℕ → List Bytes → Bytes → Act Bytes → Act Bytes
if_directory user path missing found =
    look (check_path user (path_of path)) >>= λ kind. if kind == 0 then found else pure missing

-- The texts of blocks, `string(file.content)`, one after the other.
unfoldable pub texts : List Block → Option Bytes
texts [] = some []
texts (b ∷ bs) = elim (c_string 2048 b 0) [
  | none ↦ none
  | some t ↦ elim (texts bs) [ none ↦ none | some r ↦ some (t ++ r) ]
]

unfoldable pub read_text : List Bytes → Act Bytes
read_text path = look (read_file 0 (path_of path)) >>= λ blocks. lift (texts blocks)

-- The loops over blocks, and over n numbers from i on, with a value that is carried along.
module _ {A B : Type 0} where
  unfoldable pub each : (A → B → Act B) → List A → B → Act B
  each f [] b = pure b
  each f (a ∷ l) b = f a b >>= λ c. each f l c

module _ {B : Type 0} where
  unfoldable pub count_up : (ℕ → B → Act B) → ℕ → ℕ → B → Act B
  count_up f zero i b = pure b
  count_up f (suc n) i b = f i b >>= λ c. count_up f n (i + 1) c

-- `string(directory.fileName[i])`, in a copy of the block.
unfoldable pub file_name : Block → ℕ → Option Bytes
file_name block i = c_string (2048 - 28 * i) block (28 * i)

-- A handler's frame: the lock, what is done under it, and the lock again.
module _ {A : Type 0} where
  unfoldable pub writing : Act A → Act A
  writing work = do down_writer; result ← work; up_writer; pure result

  unfoldable pub reading : Act A → Act A
  reading work = do down_reader; result ← work; up_reader; pure result

-- What the C++ leaves to chance: the values of variables that are not set, and how deep
-- directories stand in one another at most.
pub record Env : Type 0 where
  pub entry : ℕ
  pub user : Memory
  pub password : Memory
  pub group : Memory
  pub depth : ℕ
