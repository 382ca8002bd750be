-- ===== src/Server/Session/Kept.antt =====
-- What a tidy action leaves.
use student_management_syste.Prelude.{
  ℕ, zero, suc, ◌+◌, ◌≤◌, ◌≡◌, ◌∙◌, refl, sym, subst, arith, Bool, true, false, Option, none, some,
  List, [], ◌∷◌, Bytes, if◌then◌else◌, length, Option-cases, inl, inr,
}
use student_management_syste.System.{Os}
use student_management_syste.Server.Session.{
  Held, outside, as_reader, as_writer, Session, Outcome, done, waits, breaks, misused, Act, pure,
  lift, look, look_if, change, change_if, changed, ◌>>=◌, after, recv_msg, receive_from, send_msg,
  move, down_reader, down_writer, up_reader, up_reader_if, up_writer, up_writer_if, recv_file,
  join_parts, receive_parts, each, count_up, reading, writing,
}
use student_management_syste.Server.Session.Tidy.{
  Tidy, tidy_pure, tidy_lift, tidy_recv_msg, tidy_recv_file, tidy_send_msg, look_as_reader,
  look_as_writer, change_as_writer, tidy_if, tidy_bind, tidy_each, tidy_count_up, tidy_reading,
  tidy_writing,
}

-- From s to t: the lock h is held, no message came back, a reader changed nothing, and
-- an action that does not talk received and sent nothing.
pub record Kept (q w : Bool) (h : Held) (s t : Session) : Type 0 where
  pub lock : t.held ≡ h
  pub fewer : length t.inbox ≤ length s.inbox
  pub same : w ≡ false → t.os ≡ s.os
  pub unheard : q ≡ false → t.inbox ≡ s.inbox
  pub unsaid : q ≡ false → t.outbox ≡ s.outbox

module _ {A : Type 0} where
  -- An action from s is done and leaves the lock h, or waits or breaks; it misuses no lock.
  abbrev pub Ends : Bool → Bool → Held → Session → Outcome A → Type 0
  Ends q w h s (done a t) = Kept q w h s t
  Ends q w h s waits = q ≡ true
  Ends q w h s breaks = Unit {0}
  Ends q w h s misused = ⊥

Kept-refl : (q w : Bool) (h : Held) (s : Session) → s.held ≡ h → Kept q w h s s
Kept-refl q w h s e = record {
  lock = e;
  fewer = omega arith;
  same = λ _. refl;
  unheard = λ _. refl;
  unsaid = λ _. refl;
}

Kept-trans :
    {q w : Bool} {h k : Held} {s t u : Session} → Kept q w h s t → Kept q w k t u → Kept q w k s u
Kept-trans a b = record {
  lock = b.lock;
  fewer = omega (arith, a.fewer, b.fewer);
  same = λ e. b.same e ∙ a.same e;
  unheard = λ e. b.unheard e ∙ a.unheard e;
  unsaid = λ e. b.unsaid e ∙ a.unsaid e;
}

module _ {A : Type 0} where
  lift-Ends :
      (q w : Bool) (h : Held) (o : Option A) (s : Session) → s.held ≡ h → Ends q w h s (lift o s)
  unfolding lift
  lift-Ends q w h none s e = tt
  lift-Ends q w h (some a) s e = Kept-refl q w h s e

  changed-Ends :
      (q : Bool) (o : Option (A × Os)) (s : Session)
      → s.held ≡ as_writer
      → Ends q true as_writer s (changed o s)
  unfolding changed
  changed-Ends q none s e = tt
  changed-Ends q (some (a, os)) s e = record {
    lock = e;
    fewer = omega arith;
    same = λ x. absurd (ground arith);
    unheard = λ _. refl;
    unsaid = λ _. refl;
  }

  Ends-trans :
      (q w : Bool) {h : Held} (k : Held) {s t : Session} (o : Outcome A)
      → Kept q w h s t
      → Ends q w k t o
      → Ends q w k s o
  Ends-trans q w k (done a u) x y = Kept-trans x y
  Ends-trans q w k waits x y = y
  Ends-trans q w k breaks x y = tt
  Ends-trans q w k misused x y = y

module _ {A B : Type 0} where
  after-Ends :
      (q w : Bool) (h k : Held) (s : Session) (o : Outcome A) (f : A → Act B)
      → Ends q w h s o
      → ((a : A) (t : Session) → t.held ≡ h → Ends q w k t (f a t))
      → Ends q w k s (after o f)
  unfolding after
  after-Ends q w h k s (done a t) f x g = Ends-trans q w k (f a t) x (g a t x.lock)
  after-Ends q w h k s waits f x g = x
  after-Ends q w h k s breaks f x g = tt
  after-Ends q w h k s misused f x g = x

receive_from-Ends :
    (w : Bool) (h : Held) (ms : List Bytes) (s : Session)
    → s.held ≡ h
    → s.inbox ≡ ms
    → Ends true w h s (receive_from ms s)
unfolding receive_from
receive_from-Ends w h [] s e p = refl
receive_from-Ends w h (m ∷ ms) s e p = record {
  lock = e;
  fewer = rw p (omega arith);
  same = λ _. refl;
  unheard = λ x. absurd (ground arith);
  unsaid = λ _. refl;
}

join_parts-le :
    (ms : List Bytes) (t : Bytes) (rest : List Bytes)
    → join_parts ms ≡ some (t, rest)
    → length rest ≤ length ms
unfolding join_parts
join_parts-le [] t rest e = absurd (ground arith)
join_parts-le ([] ∷ ms) t rest e = ground arith
join_parts-le ((c ∷ cs) ∷ ms) t rest e = elim (Option-cases (join_parts ms)) [
  | inl n ↦ absurd (ground arith)
  | inr ((u, r), p) ↦
      let same : r ≡ rest = ground arith in
      let less = join_parts-le ms u r p in rw (← same) (omega arith)
]

receive_parts-Ends :
    (w : Bool) (h : Held) (o : Option (Bytes × List Bytes)) (s : Session)
    → s.held ≡ h
    → join_parts s.inbox ≡ o
    → Ends true w h s (receive_parts o s)
unfolding receive_parts
receive_parts-Ends w h none s e p = refl
receive_parts-Ends w h (some (t, ms)) s e p = record {
  lock = e;
  fewer = join_parts-le s.inbox t ms p;
  same = λ _. refl;
  unheard = λ x. absurd (ground arith);
  unsaid = λ _. refl;
}

-- The four lock calls.
module _ (q w : Bool) (s : Session) where
  down-Ends : (h : Held) → s.held ≡ outside → Ends q w h s (move s.held h s)
  unfolding move
  down-Ends h e =
      subst (λ k. Ends q w h s (move k h s)) (sym e)
        (record {
          lock = refl;
          fewer = omega arith;
          same = λ _. refl;
          unheard = λ _. refl;
          unsaid = λ _. refl;
        })

  up_reader-Ends : s.held ≡ as_reader → Ends q w outside s (up_reader s)
  unfolding up_reader up_reader_if
  up_reader-Ends e =
      subst (λ k. Ends q w outside s (up_reader_if k s)) (sym e)
        (record {
          lock = refl;
          fewer = omega arith;
          same = λ _. refl;
          unheard = λ _. refl;
          unsaid = λ _. refl;
        })

  up_writer-Ends : s.held ≡ as_writer → Ends q w outside s (up_writer s)
  unfolding up_writer up_writer_if
  up_writer-Ends e =
      subst (λ k. Ends q w outside s (up_writer_if k s)) (sym e)
        (record {
          lock = refl;
          fewer = omega arith;
          same = λ _. refl;
          unheard = λ _. refl;
          unsaid = λ _. refl;
        })

-- What is known of an action that holds the lock h.
module _ {A : Type 0} where
  abbrev Works : Bool → Bool → Held → Act A → Type 0
  Works q w h m = (s : Session) → s.held ≡ h → Ends q w h s (m s)

module _ {A : Type 0} (q w : Bool) (work : Act A) where
  reading-Ends : Works q w as_reader work → Works q w outside (reading work)
  unfolding reading ◌>>=◌ down_reader pure
  reading-Ends x s e =
      after-Ends q w as_reader outside s (down_reader s) _ (down-Ends q w s as_reader e) λ _ t e1.
        after-Ends q w as_reader outside t (work t) _ (x t e1) λ m u e2.
          after-Ends q w outside outside u (up_reader u) _ (up_reader-Ends q w u e2)
            λ _ v e3. Kept-refl q w outside v e3

  writing-Ends : Works q w as_writer work → Works q w outside (writing work)
  unfolding writing ◌>>=◌ down_writer pure
  writing-Ends x s e =
      after-Ends q w as_writer outside s (down_writer s) _ (down-Ends q w s as_writer e) λ _ t e1.
        after-Ends q w as_writer outside t (work t) _ (x t e1) λ m u e2.
          after-Ends q w outside outside u (up_writer u) _ (up_writer-Ends q w u e2)
            λ _ v e3. Kept-refl q w outside v e3

module _ {A B : Type 0} (q w : Bool) (h : Held) where
  each-Ends :
      (f : A → B → Act B)
      → ((a : A) (c : B) → Works q w h (f a c))
      → (l : List A) (b : B) → Works q w h (each f l b)
  unfolding each ◌>>=◌ pure
  each-Ends f g [] b s e = Kept-refl q w h s e
  each-Ends f g (a ∷ l) b s e =
      after-Ends q w h h s (f a b s) (λ c. each f l c) (g a b s e) (λ c. each-Ends f g l c)

module _ {B : Type 0} (q w : Bool) (h : Held) where
  count_up-Ends :
      (f : ℕ → B → Act B)
      → ((j : ℕ) (c : B) → Works q w h (f j c))
      → (n i : ℕ) (b : B) → Works q w h (count_up f n i b)
  unfolding count_up ◌>>=◌ pure
  count_up-Ends f g zero i b s e = Kept-refl q w h s e
  count_up-Ends f g (suc n) i b s e =
      after-Ends q w h h s (f i b s) (λ c. count_up f n (i + 1) c) (g i b s e)
        (λ c. count_up-Ends f g n (i + 1) c)

if-Ends :
    {A : Type 0} (q w : Bool) (h : Held) (b : Bool) (m n : Act A)
    → Works q w h m
    → Works q w h n
    → Works q w h (if b then m else n)
if-Ends q w h true m n x y = x
if-Ends q w h false m n x y = y

-- A tidy action that starts with its lock either waits, or breaks, or is done with the same lock; it
-- receives messages and puts none back, and if it takes no lock as a writer, then the system is as
-- before. If it does not talk, then it does not wait, and all messages are as before.
pub Tidy-Ends :
    {q w : Bool} {h : Held} {A : Type 0} {m : Act A}
    → Tidy q w h A m
    → (s : Session) → s.held ≡ h
    → Ends q w h s (m s)
unfolding pure send_msg recv_msg recv_file look look_if change change_if ◌>>=◌
Tidy-Ends {q} {w} {h} (tidy_pure a) s e = Kept-refl q w h s e
Tidy-Ends {q} {w} {h} (tidy_lift o) s e = lift-Ends q w h o s e
Tidy-Ends {q} {w} {h} tidy_recv_msg s e = receive_from-Ends w h s.inbox s e refl
Tidy-Ends {q} {w} {h} tidy_recv_file s e = receive_parts-Ends w h (join_parts s.inbox) s e refl
Tidy-Ends {q} {w} {h} (tidy_send_msg m) s e = record {
  lock = e;
  fewer = omega arith;
  same = λ _. refl;
  unheard = λ _. refl;
  unsaid = λ x. absurd (ground arith);
}
Tidy-Ends {q} {w} (look_as_reader f) s e =
    subst (λ k. Ends q w as_reader s (look_if k f s)) (sym e) (lift-Ends q w as_reader (f s.os) s e)
Tidy-Ends {q} {w} (look_as_writer f) s e =
    subst (λ k. Ends q w as_writer s (look_if k f s)) (sym e) (lift-Ends q w as_writer (f s.os) s e)
Tidy-Ends {q} (change_as_writer f) s e =
    subst (λ k. Ends q true as_writer s (change_if k f s)) (sym e) (changed-Ends q (f s.os) s e)
Tidy-Ends {q} {w} {h} (tidy_if b m n x y) s e = if-Ends q w h b m n (Tidy-Ends x) (Tidy-Ends y) s e
Tidy-Ends {q} {w} {h} (tidy_bind m f x g) s e =
    after-Ends q w h h s (m s) f (Tidy-Ends x s e) (λ a. Tidy-Ends (g a))
Tidy-Ends {q} {w} {h} (tidy_each f l b g) s e = each-Ends q w h f (λ a c. Tidy-Ends (g a c)) l b s e
Tidy-Ends {q} {w} {h} (tidy_count_up f n i b g) s e =
    count_up-Ends q w h f (λ j c. Tidy-Ends (g j c)) n i b s e
Tidy-Ends {q} {w} (tidy_reading work x) s e = reading-Ends q w work (Tidy-Ends x) s e
Tidy-Ends {q} (tidy_writing work x) s e = writing-Ends q true work (Tidy-Ends x) s e
