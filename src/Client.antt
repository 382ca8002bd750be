-- ===== src/Client.antt =====
-- Client/client.cpp: what the client sends for the words that are typed. What is left for it to read
-- are the words typed and the messages of the server; an action gives a value, the messages it sends,
-- and what is left. The prompts and the text of `help` are left out.
pub mod Command
pub mod Work
pub mod Transfer
pub mod Heard
pub mod Lockstep
use student_management_syste.Prelude.{
  Bool, true, false, Option, none, some, List, [], ◌∷◌, ◌++◌, Bytes, bytes_eq, codes, if◌then◌else◌,
}

pub record Terminal : Type 0 where
  pub words : List Bytes
  pub replies : List Bytes

pub record Said (A : Type 0) : Type 0 where
  pub value : A
  pub sent : List Bytes
  pub left : Terminal

abbrev pub Talk : Type 0 → Type 0
Talk A = Terminal → Said A

abbrev pub Done : Type 0
Done = Unit {0}

module _ {A : Type 0} where
  unfoldable pub pure : A → Talk A
  pure a t = record { value = a; sent = []; left = t }

module _ {A B : Type 0} where
  infixl 5 ◌>>=◌ ◌>>◌
  unfoldable pub ◌>>=◌ : Talk A → (A → Talk B) → Talk B
  ◌>>=◌ m f t =
      let r = m t in
      let q = f r.value r.left in record { value = q.value; sent = r.sent ++ q.sent; left = q.left }

  abbrev pub ◌>>◌ : Talk A → Talk B → Talk B
  m >> k = m >>= λ _. k

-- `sendMsg`
unfoldable pub say : Bytes → Talk Done
say m t = record { value = tt; sent = m ∷ []; left = t }

unfoldable pub first_or : Bytes → List Bytes → Bytes
first_or old [] = old
first_or old (w ∷ ws) = w

unfoldable pub others : List Bytes → List Bytes
others [] = []
others (w ∷ ws) = ws

-- `cin >> x`, which leaves `x` as it was at the end of the input.
unfoldable pub typed : Bytes → Talk Bytes
typed old t = record {
  value = first_or old t.words;
  sent = [];
  left = record t { words = others t.words };
}

unfoldable pub first_of : List Bytes → Option Bytes
first_of [] = none
first_of (m ∷ ms) = some m

-- `recvMsg`: `none` where no message comes.
unfoldable pub hear : Talk (Option Bytes)
hear t = record {
  value = first_of t.replies;
  sent = [];
  left = record t { replies = others t.replies };
}

unfoldable pub say_typed : Talk Done
say_typed = do word ← typed []; say word

-- What `read` gives, call for call, for a file under SendFiles; `none` where it does not open.
abbrev pub Files : Type 0
Files = Bytes → Option (List Bytes)

-- The loop of `sendFile`, up to the first `read` that gives nothing, and the empty message.
unfoldable pub send_parts : List Bytes → Talk Bool
send_parts [] = do say []; pure true
send_parts ([] ∷ parts) = do say []; pure true
send_parts ((c ∷ cs) ∷ parts) = do say (c ∷ cs); send_parts parts

unfoldable pub send_opened : Option (List Bytes) → Talk Bool
send_opened none = do say []; pure false
send_opened (some parts) = send_parts parts

unfoldable pub send_file : Files → Bytes → Talk Bool
send_file files path = send_opened (files path)

-- The content, which is typed or stands in a file; what `sendFile` returns is dropped.
unfoldable pub send_content : Files → Bytes → Bytes → Talk Done
send_content files option content =
    if bytes_eq option (codes "1") then send_file files content >> pure tt else say content
