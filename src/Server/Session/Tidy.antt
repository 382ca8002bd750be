-- ===== src/Server/Session/Tidy.antt =====
-- How the handlers of Server/server.cpp use the lock: an action is tidy if it is built so that each
-- call on the system is made under a lock that allows it. The first index tells whether the action
-- may talk with the client, the second whether it may take the lock as a writer, the third which lock
-- the thread holds before and after.
use student_management_syste.Prelude.{ℕ, Bool, true, Option, List, Bytes, if◌then◌else◌}
use student_management_syste.System.{Os}
use student_management_syste.Server.Session.{
  Held, outside, as_reader, as_writer, Act, Done, pure, lift, look, change, ◌>>=◌, recv_msg,
  send_msg, recv_file, each, count_up, reading, writing,
}

pub data Tidy : Bool → Bool → Held → (A : Type 0) → Act A → Type 1 where
  tidy_pure : {t w : Bool} {h : Held} {A : Type 0} (a : A) → Tidy t w h A (pure a)
  tidy_lift : {t w : Bool} {h : Held} {A : Type 0} (o : Option A) → Tidy t w h A (lift o)
  tidy_recv_msg : {w : Bool} {h : Held} → Tidy true w h Bytes recv_msg
  tidy_recv_file : {w : Bool} {h : Held} → Tidy true w h Bytes recv_file
  tidy_send_msg : {w : Bool} {h : Held} (m : Bytes) → Tidy true w h Done (send_msg m)
  look_as_reader : {t w : Bool} {A : Type 0} (f : Os → Option A) → Tidy t w as_reader A (look f)
  look_as_writer : {t w : Bool} {A : Type 0} (f : Os → Option A) → Tidy t w as_writer A (look f)
  change_as_writer :
      {t : Bool} {A : Type 0} (f : Os → Option (A × Os)) → Tidy t true as_writer A (change f)
  tidy_if :
      {t w : Bool} {h : Held} {A : Type 0} (b : Bool) (m n : Act A)
      → Tidy t w h A m
      → Tidy t w h A n
      → Tidy t w h A (if b then m else n)
  tidy_bind :
      {t w : Bool} {h : Held} {A B : Type 0} (m : Act A) (f : A → Act B)
      → Tidy t w h A m
      → ((a : A) → Tidy t w h B (f a))
      → Tidy t w h B (m >>= f)
  tidy_each :
      {t w : Bool} {h : Held} {A B : Type 0} (f : A → B → Act B) (l : List A) (b : B)
      → ((a : A) (c : B) → Tidy t w h B (f a c))
      → Tidy t w h B (each f l b)
  tidy_count_up :
      {t w : Bool} {h : Held} {B : Type 0} (f : ℕ → B → Act B) (n i : ℕ) (b : B)
      → ((j : ℕ) (c : B) → Tidy t w h B (f j c))
      → Tidy t w h B (count_up f n i b)
  tidy_reading :
      {t w : Bool} {A : Type 0} (work : Act A)
      → Tidy t w as_reader A work
      → Tidy t w outside A (reading work)
  tidy_writing :
      {t : Bool} {A : Type 0} (work : Act A)
      → Tidy t true as_writer A work
      → Tidy t true outside A (writing work)

pub ruleset tidy_rules = (
  tidy_pure, tidy_lift, tidy_recv_msg, tidy_recv_file, tidy_send_msg, look_as_reader,
  look_as_writer, change_as_writer, tidy_if, tidy_bind, tidy_each, tidy_count_up, tidy_reading,
  tidy_writing,
)
