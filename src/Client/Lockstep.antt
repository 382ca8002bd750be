-- ===== src/Client/Lockstep.antt =====
-- A whole run of a loop of Client/client.cpp against the loop of `systemWorking` in
-- Server/server.cpp.
pub mod Kinds
use mathlib.Core.List.{append_assoc}
use student_management_syste.Prelude.{
  ℕ, zero, suc, ◌+◌, ◌≤◌, ◌≡◌, ◌∙◌, refl, sym, ap, subst, arith, Bool, true, false, Option, none,
  some, List, [], ◌∷◌, ◌++◌, Bytes, bytes_eq, codes, if◌then◌else◌, length, length-append,
}
use student_management_syste.Client.{
  Terminal, Talk, Files, pure, ◌>>=◌, say, typed, first_of, first_or, others,
}
use student_management_syste.Client.Work.{
  Commands, find_command, Ending, exited, unanswered, unfinished, go_on, obey, take_turn,
  system_loop,
}
use student_management_syste.Client.Heard.{Understood}
use student_management_syste.Server.Session.{
  Session, Outcome, done, waits, breaks, misused, outside, Act, Done, Env, after, recv_msg,
  receive_from, send_msg,
}
use student_management_syste.Server.Session as Session
use student_management_syste.Server.Session.Kept.{Ends}
use student_management_syste.Server.Session.Heard.{Hears, Hears-Ends, given}
use student_management_syste.Server.Work.{handlers, find_handler, serve_one, serve}

-- The server ends with the rest of the messages, and outside the locks, or crashes. It has sent as
-- many messages as the client has taken, of which `had` were there before and `has` are there still.
abbrev pub Served : Session → List Bytes → ℕ → ℕ → Outcome Done → Type 0
Served s rest had has (done r u) =
    (u.inbox ≡ rest) × (u.held ≡ outside) × (length u.outbox + has ≡ length s.outbox + had)
Served s rest had has waits = ⊥
Served s rest had has breaks = Unit {0}
Served s rest had has misused = ⊥

-- A part of the client that the user leaves is served.
abbrev pub InStep : Talk Ending → Type 0
InStep k =
    (t : Terminal)
    → (k t).value ≡ exited
    → (g : ℕ) (e : Env) (user : ℕ) (rest : List Bytes) (s : Session) → s.held ≡ outside
    → length (k t).sent ≤ g
    → Served s rest (length t.replies) (length (k t).left.replies)
        (serve g e user (given ((k t).sent ++ rest) s))

-- After an answer both sides have one message more.
answered-Served :
    (s u : Session) (rest : List Bytes) (had has : ℕ) (o : Outcome Done)
    → length u.outbox ≡ length s.outbox + 1
    → Served u rest had has o
    → Served s rest (had + 1) has o
answered-Served s u rest had has (done r v) p (i, h, c) = (i, h, omega (arith, p, c))
answered-Served s u rest had has waits p x = x
answered-Served s u rest had has breaks p x = tt
answered-Served s u rest had has misused p x = x

-- The answer is sent when the handler is done.
after-Served :
    (s : Session) (rest messages : List Bytes) (had has : ℕ) (next : Act Done) (o : Outcome Bytes)
    → Ends false true outside (given messages s) o
    → ((u : Session)
        → u.held ≡ outside
        → length u.outbox ≡ length s.outbox + 1
        → Served u rest had has (next (given messages u)))
    → Served s rest (had + 1) has (after o (λ m. Session.◌>>=◌ (send_msg m) λ r. next))
unfolding after send_msg Session.◌>>=◌
after-Served s rest messages had has next (done m u) k f =
    let sent : Session = record u { outbox = u.outbox ++ m ∷ [] } in
    let count : length sent.outbox ≡ length s.outbox + 1 =
      length-append u.outbox (m ∷ []) ∙ ap (λ l. length l + 1) (k.unsaid refl) in
    answered-Served s sent rest had has _ count (
      subst (λ l. Served sent rest had has (next (given l sent))) (sym (k.unheard refl))
        (f sent k.lock count))
after-Served s rest messages had has next waits k f = absurd (ground arith)
after-Served s rest messages had has next breaks k f = tt
after-Served s rest messages had has next misused k f = k

-- One turn of the server, for a command that it understands.
turn-Served :
    (g : ℕ) (e : Env) (user : ℕ) (name : Bytes) (arguments messages rest : List Bytes)
    (handler : Act Bytes) (had has : ℕ) (s : Session)
    → find_handler name (handlers e user) ≡ some handler
    → Hears arguments handler
    → s.held ≡ outside
    → ((u : Session) → u.held ≡ outside → Served u rest had has (serve g e user (given messages u)))
    → Served s rest (had + 1) has (serve (suc g) e user (given (name ∷ (arguments ++ messages)) s))
unfolding serve serve_one Session.◌>>=◌ after recv_msg receive_from
turn-Served g e user name arguments messages rest handler had has s p h o f = rw p (
    after-Served s rest messages had has (serve g e user)
      (handler (given (arguments ++ messages) s)) (Hears-Ends h messages s o) λ u q c. f u q)

-- An answer that the client takes is one of those that are there.
taken_one :
    (ms : List Bytes) (reply : Bytes)
    → some reply ≡ first_of ms
    → length ms ≡ length (others ms) + 1
unfolding first_of others
taken_one [] reply p = absurd (ground arith)
taken_one (m ∷ ms) reply p = omega arith

pure-InStep : (k : Ending) → (k ≡ exited → ⊥) → InStep (pure k)
unfolding pure
pure-InStep k n t x = absurd (n x)

-- The client leaves: so does the server.
exit-InStep : InStep (say (codes "exit") >>= λ r. pure exited)
unfolding ◌>>=◌ say pure serve serve_one find_handler handlers Session.◌>>=◌ after recv_msg
    receive_from Session.pure
exit-InStep t x zero e user rest s o l = absurd (omega arith)
exit-InStep t x (suc g) e user rest s o l = (refl, o, refl)

-- A command, and what follows its answer.
module _ (next : Talk Ending) (n : InStep next) (e : Env) (user : ℕ) (name : Bytes)
    (arguments rest : List Bytes) (handler : Act Bytes)
    (p : find_handler name (handlers e user) ≡ some handler) (h : Hears arguments handler) where
  go_on-Served :
      (v : Option Bytes) (t : Terminal) (heard : List Bytes)
      → v ≡ first_of heard
      → t.replies ≡ others heard
      → (go_on (λ r. next) v t).value ≡ exited
      → (g : ℕ) (s : Session) → s.held ≡ outside
      → length (name ∷ (arguments ++ (go_on (λ r. next) v t).sent)) ≤ g
      → Served s rest
          (length heard)
          (length (go_on (λ r. next) v t).left.replies)
          (serve g e user (given (name ∷ (arguments ++ ((go_on (λ r. next) v t).sent ++ rest))) s))
  unfolding go_on pure
  go_on-Served none t heard a b x g s o l = absurd (ground arith)
  go_on-Served (some r) t heard a b x zero s o l = absurd (omega (arith, l))
  go_on-Served (some r) t heard a b x (suc g) s o l =
      let one : length heard ≡ length t.replies + 1 =
        taken_one heard r a ∙ ap (λ ms. length ms + 1) (sym b) in
      subst
        (λ k.
          Served s rest k (length (next t).left.replies)
            (serve (suc g) e user (given (name ∷ (arguments ++ ((next t).sent ++ rest))) s)))
        (sym one)
        (turn-Served g e user name arguments ((next t).sent ++ rest) rest handler (length t.replies)
          (length (next t).left.replies) s p h o
          λ u q. n t x g e user rest u q (omega (arith, l, length-append arguments (next t).sent)))

command-InStep :
    (command : Talk (Option Bytes)) (next : Talk Ending)
    → ((t : Terminal) → Understood command t)
    → InStep next
    → InStep (command >>= go_on (λ r. next))
unfolding ◌>>=◌
command-InStep command next k n t x g e user rest s o l =
    let u = k t in
    let (handler, p, h) = u.handled e user in
    let after = go_on (λ r. next) (command t).value (command t).left in
    let all : (command t).sent ++ after.sent ++ rest
        ≡ u.name ∷ (u.arguments ++ (after.sent ++ rest)) =
      ap (λ ms. ms ++ after.sent ++ rest) u.sent
      ∙ ap (◌∷◌ u.name) (append_assoc u.arguments after.sent rest) in
    let size : length ((command t).sent ++ after.sent)
        ≡ length (u.name ∷ (u.arguments ++ after.sent)) =
      ap (λ ms. length (ms ++ after.sent)) u.sent in
    subst
      (λ ms.
        Served s rest (length t.replies) (length after.left.replies) (serve g e user (given ms s)))
      (sym all)
      (go_on-Served next n e user u.name u.arguments rest handler p h (command t).value
        (command t).left t.replies u.answer u.left x g s o (omega (arith, l, size)))

if-InStep : (b : Bool) (j k : Talk Ending) → InStep j → InStep k → InStep (if b then j else k)
if-InStep true j k x y = x
if-InStep false j k x y = y

-- Commands that the server understands.
pub data Known : Commands → Type 1 where
  no_command : Known []
  and_command :
      {name : Bytes} {command : Talk (Option Bytes)} {cs : Commands}
      → ((t : Terminal) → Understood command t)
      → Known cs
      → Known ((name, command) ∷ cs)

abbrev IsKnown : Option (Talk (Option Bytes)) → Type 1
IsKnown none = Unit {1}
IsKnown (some command) = (t : Terminal) → Understood command t

if-IsKnown :
    (b : Bool) (x y : Option (Talk (Option Bytes)))
    → IsKnown x
    → IsKnown y
    → IsKnown (if b then x else y)
if-IsKnown true x y p q = p
if-IsKnown false x y p q = q

find_command-IsKnown :
    (option : Bytes) (cs : Commands) → Known cs → IsKnown (find_command option cs)
unfolding find_command
find_command-IsKnown option [] k = tt
find_command-IsKnown option ((name, command) ∷ cs) (and_command u k) =
    if-IsKnown (bytes_eq option name) (some command) (find_command option cs) u
      (find_command-IsKnown option cs k)

obey-InStep :
    (o : Option (Talk (Option Bytes))) (option : Bytes) (next : Talk Ending)
    → IsKnown o
    → InStep next
    → InStep (obey o option next)
unfolding obey
obey-InStep none option next k n = if-InStep _ _ _ exit-InStep n
obey-InStep (some command) option next k n = command-InStep command next k n

pub system_loop-InStep :
    (f : ℕ) (cs : Commands) (old : Bytes) → Known cs → InStep (system_loop f cs old)
unfolding system_loop take_turn typed ◌>>=◌
system_loop-InStep zero cs old k t = pure-InStep unfinished (λ p. absurd (ground arith)) t
system_loop-InStep (suc f) cs old k t =
    let option = first_or old t.words in
    if-InStep _ _ _ (system_loop-InStep f cs option k)
      (obey-InStep _ option _ (find_command-IsKnown option cs k) (system_loop-InStep f cs option k))
      (record t { words = others t.words })
