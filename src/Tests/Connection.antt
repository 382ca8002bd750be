-- ===== src/Tests/Connection.antt =====
-- A small system of descriptors, on which the server accepts connections.
use student_management_syste.Prelude.{
  ℕ, ◌+◌, ◌≡◌, ◌≢◌, ◌∙◌, refl, sym, ap, subst, arith, Bool, true, false, not, ◌&&◌, ◌||◌, none,
  List, [], ◌∷◌, ◌==◌, leb, inl, inr, if◌then◌else◌, Bool-cases, ==_iff,
}
use student_management_syste.Snapshot.{minus_one}
use student_management_syste.System.{is_negative}
use student_management_syste.Socket.Connection.{
  Kernel, new_server, set_listen, accept_conn, delete_socket,
}
use student_management_syste.Server.Connections.{
  Event, accepting, finishing, open_server, run, step, accept_turn, start_thread, finish, take_out,
}
use student_management_syste.Server.Connections.Open.{KeepsDescriptors, bit, count, run-open}

record Descriptors : Type 0 where
  taken : ℕ → Bool
  fresh : ℕ

abbrev is_open : Descriptors → ℕ → Bool
is_open w x = not (is_negative x) && w.taken x

abbrev fails : Descriptors → Bool
fails w = is_negative w.fresh || w.taken w.fresh

abbrev give : Descriptors → ℕ × Descriptors
give w =
    if fails w
    then (minus_one, w)
    else (w.fresh, record { taken = λ x. w.fresh == x || w.taken x; fresh = w.fresh + 1 })

abbrev small_kernel : Kernel Descriptors
small_kernel = record {
  socket = give;
  bind = λ fd port w. (true, w);
  listen = λ fd backlog w. (true, w);
  accept = λ fd w. give w;
  connect = λ fd address port w. (true, w);
  close = λ fd w. record w { taken = λ x. not (fd == x) && w.taken x };
  inet_pton = λ text. none;
  pthread_create = λ w. (true, w);
}

give-fails : (w : Descriptors) → fails w ≡ true → give w ≡ (minus_one, w)
give-fails w e =
    ap
      (λ c.
        if c
        then (minus_one, w)
        else (w.fresh, record { taken = λ x. w.fresh == x || w.taken x; fresh = w.fresh + 1 }))
      e

give_success :
    (w : Descriptors)
    → fails w ≡ false
    → give w ≡ (w.fresh, record { taken = λ x. w.fresh == x || w.taken x; fresh = w.fresh + 1 })
give_success w e =
    ap
      (λ c.
        if c
        then (minus_one, w)
        else (w.fresh, record { taken = λ x. w.fresh == x || w.taken x; fresh = w.fresh + 1 }))
      e

gives : (w : Descriptors) → (give w).0 ≢ minus_one → fails w ≡ false
gives w n = elim (Bool-cases (fails w)) [
  | inl e ↦ absurd (n (ap (λ (r : ℕ × Descriptors). r.0) (give-fails w e)))
  | inr e ↦ e
]

refuses : (w : Descriptors) → (give w).0 ≡ minus_one → fails w ≡ true
refuses w n = elim (Bool-cases (fails w)) [
  | inl e ↦ e
  | inr e ↦
      let k : w.fresh ≡ minus_one =
        ap (λ (r : ℕ × Descriptors). r.0) (sym (give_success w e)) ∙ n in
      absurd (ground (arith, e, k))
]

opened :
    (w : Descriptors)
    → fails w ≡ false
    → (x : ℕ)
    → is_open (record { taken = λ y. w.fresh == y || w.taken y; fresh = w.fresh + 1 }) x
      ≡ (w.fresh == x || is_open w x)
opened w e x = elim (Bool-cases (w.fresh == x)) [
  | inl p ↦
      let k : is_negative x ≡ false =
        subst (λ y. is_negative y ≡ false) ((==_iff w.fresh x).0 p) (ground (arith, e)) in
      ground (arith, p, k)
  | inr p ↦ ground (arith, p)
]

small_keeps : KeepsDescriptors small_kernel
small_keeps = record {
  is_open = is_open;
  none_negative = λ w x p. ground (arith, p);
  accept_fails =
      λ fd w p x. ap (λ (r : ℕ × Descriptors). is_open r.1 x) (give-fails w (refuses w p));
  accept_new = λ fd w p.
      let e = gives w p in
      let shut : is_open w w.fresh ≡ false = ground (arith, e) in
      ap (λ (r : ℕ × Descriptors). is_open w r.0) (give_success w e) ∙ shut;
  accept_opens = λ fd w p x.
      let e = gives w p in
      ap (λ (r : ℕ × Descriptors). is_open r.1 x) (give_success w e)
      ∙ opened w e x
      ∙ ap (λ (r : ℕ × Descriptors). r.0 == x || is_open w x) (sym (give_success w e));
  close_closes = λ fd w x. ground arith;
  create_keeps = λ w x. refl;
}

abbrev booted : Descriptors
booted = record { taken = λ x. leb x 2; fresh = 3 }

-- Two clients come, the first goes, and a third comes.
abbrev three_clients : List Event
three_clients = accepting ∷ accepting ∷ finishing 1 ∷ accepting ∷ []

stdin_open : small_keeps.is_open (open_server small_kernel booted).world 0 ≡ true
unfolding open_server new_server set_listen small_keeps
stdin_open = refl

run-open_example :
    bit (
      small_keeps.is_open
        (run small_kernel three_clients (open_server small_kernel booted)).world
        5)
    ≡ bit (small_keeps.is_open (open_server small_kernel booted).world 5)
      + (count 5 (run small_kernel three_clients (open_server small_kernel booted)).threads
          + count 5 (run small_kernel three_clients (open_server small_kernel booted)).unserved)
run-open_example = run-open small_kernel small_keeps three_clients booted stdin_open 5

three_clients_lem :
    (run small_kernel three_clients (open_server small_kernel booted)).threads
    ≡ record { m_fd = 6 } ∷ record { m_fd = 5 } ∷ []
unfolding open_server new_server set_listen run step accept_turn accept_conn start_thread finish
    take_out delete_socket
three_clients_lem = refl
