-- ===== src/Client/Heard.antt =====
-- What a command of Client/client.cpp sends is what a handler of Server/server.cpp receives.
pub mod Homework
pub mod System
use mathlib.Core.List.{append-nil}
use student_management_syste.Prelude.{
  ℕ, ◌≡◌, ◌∙◌, refl, ap, Bool, true, false, Option, none, some, List, [], ◌∷◌, ◌++◌, Bytes,
  bytes_eq, codes, if◌then◌else◌, Bool-cases, inl, inr,
}
use student_management_syste.Client.{
  Terminal, Said, Talk, Files, pure, ◌>>=◌, say, typed, hear, say_typed, first_of, others, first_or,
  send_parts, send_opened, send_file, send_content,
}
use student_management_syste.Server.Session.{Act, Env, join_parts}
use student_management_syste.Server.Session.Heard.{IsContent, as_text, as_file, Hears}
use student_management_syste.Server.Work.{handlers, find_handler}

-- The parts of a file end where the server takes them to end; no message is taken.
parts_join :
    (parts : List Bytes) (t : Terminal)
    → (text : Bytes) × ((rest : List Bytes)
        → join_parts ((send_parts parts t).sent ++ rest) ≡ some (text, rest))
unfolding send_parts ◌>>=◌ say pure join_parts
parts_join [] t = ([], λ rest. refl)
parts_join ([] ∷ parts) t = ([], λ rest. refl)
parts_join ((c ∷ cs) ∷ parts) t =
    let (text, p) = parts_join parts t in ((c ∷ cs) ++ text, λ rest. rw (p rest) refl)

parts_left : (parts : List Bytes) (t : Terminal) → (send_parts parts t).left.replies ≡ t.replies
unfolding send_parts ◌>>=◌ say pure
parts_left [] t = refl
parts_left ([] ∷ parts) t = refl
parts_left ((c ∷ cs) ∷ parts) t = parts_left parts t

file_join :
    (file : Option (List Bytes)) (t : Terminal)
    → (text : Bytes) × ((rest : List Bytes)
        → join_parts ((send_opened file t).sent ++ rest) ≡ some (text, rest))
unfolding send_opened ◌>>=◌ say pure join_parts
file_join none t = ([], λ rest. refl)
file_join (some parts) t = parts_join parts t

file_left :
    (file : Option (List Bytes)) (t : Terminal) → (send_opened file t).left.replies ≡ t.replies
unfolding send_opened ◌>>=◌ say pure
file_left none t = refl
file_left (some parts) t = parts_left parts t

module _ (files : Files) (option content : Bytes) (t : Terminal) where
  pub content_left : (send_content files option content t).left.replies ≡ t.replies
  unfolding send_content send_file ◌>>=◌ say pure
  content_left = elim (Bool-cases (bytes_eq option (codes "1"))) [
    | inl e ↦ rw e (file_left (files content) t)
    | inr e ↦ rw e refl
  ]

  -- Behind the content nothing else is sent.
  pub sent-IsContent : IsContent option ((send_content files option content t).sent ++ [])
  unfolding send_content send_file ◌>>=◌ say pure
  sent-IsContent = elim (Bool-cases (bytes_eq option (codes "1"))) [
    | inl e ↦
        let parts = (send_opened (files content) t).sent in
        let (text, p) = file_join (files content) t in
        let q : (send_content files option content t).sent ++ [] ≡ parts =
          rw e (append-nil (parts ++ []) ∙ append-nil parts) in
        rw q (as_file option text parts e p)
    | inr e ↦ rw e (as_text option content e)
  ]

-- A command sends the name of a handler and the messages that this handler receives, and takes one
-- message, if there is one.
pub record Understood (command : Talk (Option Bytes)) (t : Terminal) : Type 1 where
  pub name : Bytes
  pub arguments : List Bytes
  pub sent : (command t).sent ≡ name ∷ arguments
  pub answer : (command t).value ≡ first_of t.replies
  pub left : (command t).left.replies ≡ others t.replies
  pub handled :
      (e : Env) (user : ℕ)
      → (handler : Act Bytes) × (find_handler name (handlers e user) ≡ some handler)
        × Hears arguments handler

pub understood :
    {command : Talk (Option Bytes)} {t : Terminal} (name : Bytes) (arguments : List Bytes)
    → (command t).sent ≡ name ∷ arguments
    → (command t).value ≡ first_of t.replies
    → (command t).left.replies ≡ others t.replies
    → ((e : Env) (user : ℕ)
        → (handler : Act Bytes) × (find_handler name (handlers e user) ≡ some handler)
          × Hears arguments handler)
    → Understood command t
understood name arguments s a l h = record {
  name = name;
  arguments = arguments;
  sent = s;
  answer = a;
  left = l;
  handled = h;
}
