-- ===== src/Server/Work/Turns.antt =====
-- How many turns the loop of `systemWorking` takes.
use student_management_syste.Prelude.{
  ℕ, zero, suc, ◌≤◌, ◌<◌, ◌≡◌, refl, arith, true, false, Option, none, some, List, [], ◌∷◌, Bytes,
  bytes_eq, codes, if◌then◌else◌, length,
}
use student_management_syste.Server.Session.{
  outside, Session, Outcome, done, waits, breaks, misused, Act, Done, ◌>>=◌, after, pure, recv_msg,
  receive_from, send_msg, Env,
}
use student_management_syste.Server.Session.Kept.{Kept, Ends, Tidy-Ends}
use student_management_syste.Server.Work.{handlers, find_handler, serve_one, serve}
use student_management_syste.Server.Work.Discipline.{Found, handlers-AllTidy, find_handler-Found}

module _ {A B : Type 0} where
  -- After an action, two that agree on all that it may leave are the same.
  after_agree :
      (s : Session) (o : Outcome A) (f g : A → Act B)
      → Ends true true outside s o
      → ((a : A) (t : Session) → Kept true true outside s t → f a t ≡ g a t)
      → after o f ≡ after o g
  unfolding after
  after_agree s (done a t) f g k h = h a t k
  after_agree s waits f g k h = refl
  after_agree s breaks f g k h = refl
  after_agree s misused f g k h = refl

serve_one_agree :
    (o : Option (Act Bytes)) (command : Bytes) (f g : Act Done) (s : Session)
    → Found o
    → s.held ≡ outside
    → ((t : Session) → t.held ≡ outside → length t.inbox ≤ length s.inbox → f t ≡ g t)
    → serve_one o command f s ≡ serve_one o command g s
unfolding serve_one ◌>>=◌ after send_msg
serve_one_agree none command f g s p e h =
    elim (bytes_eq command (codes "exit"))
      as (λ b. (if b then pure tt else f) s ≡ (if b then pure tt else g) s) [
        | true ↦ refl
        | false ↦ h s e (omega arith)
      ]
serve_one_agree (some handler) command f g s p e h =
    after_agree s (handler s) _ _ (Tidy-Ends p s e) λ m t k. h _ k.lock k.fewer

-- One turn: after the command there are fewer messages.
turn_agree :
    (f g : Act Done) (e : Env) (user : ℕ) (ms : List Bytes) (s : Session)
    → s.held ≡ outside
    → ((t : Session) → t.held ≡ outside → length t.inbox < length ms → f t ≡ g t)
    → after (receive_from ms s) (λ c. serve_one (find_handler c (handlers e user)) c f)
      ≡ after (receive_from ms s) (λ c. serve_one (find_handler c (handlers e user)) c g)
unfolding after receive_from
turn_agree f g e user [] s o h = refl
turn_agree f g e user (m ∷ ms) s o h =
    serve_one_agree (find_handler m (handlers e user)) m f g (record s { inbox = ms })
      (find_handler-Found m (handlers e user) (handlers-AllTidy e user)) o
      λ t k l. h t k (omega (arith, l))

-- If the thread holds no lock, then with any two numbers of turns that are greater than the number of
-- messages the loop of `systemWorking` has the same outcome.
pub serve_enough :
    (f g : ℕ) (e : Env) (user : ℕ) (s : Session)
    → s.held ≡ outside
    → length s.inbox < f
    → length s.inbox < g
    → serve f e user s ≡ serve g e user s
unfolding serve ◌>>=◌ recv_msg
serve_enough zero g e user s o p q = absurd (omega arith)
serve_enough (suc f) zero e user s o p q = absurd (omega arith)
serve_enough (suc f) (suc g) e user s o p q =
    turn_agree (serve f e user) (serve g e user) e user s.inbox s o
      λ t k l. serve_enough f g e user t k (omega (arith, l)) (omega (arith, l))
