-- ===== src/Server/Connections/Open.antt =====
-- Server/server.cpp, `main` and the end of `working`: which descriptors are open.
use student_management_syste.Prelude.{
  ℕ, zero, suc, ◌+◌, ◌<◌, ◌≡◌, ◌≢◌, ◌∙◌, refl, sym, ap, subst, arith, Bool, true, false, not, ◌&&◌,
  ◌||◌, none, some, List, [], ◌∷◌, ◌==◌, inl, inr, if◌then◌else◌, Bool-cases, Option-cases, ==_iff,
}
use student_management_syste.Snapshot.{minus_one}
use student_management_syste.System.{is_negative}
use student_management_syste.Socket.Connection.{Kernel, TcpSocket, accept_conn, delete_socket}
use student_management_syste.Server.Connections.{
  Serving, open_server, take_out, Event, accepting, finishing, accept_turn, start_thread, finish,
  step, run,
}

abbrev pub bit : Bool → ℕ
bit b = if b then 1 else 0

-- How often a descriptor is that of a socket in the list.
abbrev pub count : ℕ → List TcpSocket → ℕ
count x [] = 0
count x (s ∷ ss) = bit (s.m_fd == x) + count x ss

-- What the operating system says of its descriptors: none is negative, `accept` gives one that was
-- not open and opens it and no other, or fails and opens none, `close` closes the one it is given
-- and no other, and a new thread opens and closes none.
pub record KeepsDescriptors {World : Type 0} (k : Kernel World) : Type 0 where
  pub is_open : World → ℕ → Bool
  pub none_negative : (w : World) (x : ℕ) → is_negative x ≡ true → is_open w x ≡ false
  pub accept_fails :
      (fd : ℕ) (w : World)
      → (k.accept fd w).0 ≡ minus_one
      → (x : ℕ) → is_open (k.accept fd w).1 x ≡ is_open w x
  pub accept_new :
      (fd : ℕ) (w : World) → (k.accept fd w).0 ≢ minus_one → is_open w (k.accept fd w).0 ≡ false
  pub accept_opens :
      (fd : ℕ) (w : World)
      → (k.accept fd w).0 ≢ minus_one
      → (x : ℕ) → is_open (k.accept fd w).1 x ≡ ((k.accept fd w).0 == x || is_open w x)
  pub close_closes :
      (fd : ℕ) (w : World) (x : ℕ) → is_open (k.close fd w) x ≡ (not (fd == x) && is_open w x)
  pub create_keeps : (w : World) (x : ℕ) → is_open (k.pthread_create w).1 x ≡ is_open w x

count-take_out :
    (i : ℕ) (ss others : List TcpSocket) (s : TcpSocket)
    → take_out i ss ≡ some (s, others)
    → (x : ℕ) → count x ss ≡ bit (s.m_fd == x) + count x others
unfolding take_out
count-take_out i [] others s e x = absurd (cc)
count-take_out zero (y ∷ ys) others s e x = ground (arith, e)
count-take_out (suc i) (y ∷ ys) others s e x = elim (Option-cases (take_out i ys)) [
  | inl n ↦ absurd (ground (arith, n, e))
  | inr ((z, zs), p) ↦ ground (arith, e, p, count-take_out i ys zs z p x)
]

module _ {World : Type 0} (k : Kernel World) (s : Serving World) where
  abbrev accepted : ℕ
  accepted = (k.accept s.listener.m_fd s.world).0

  abbrev after_accept : World
  after_accept = (k.accept s.listener.m_fd s.world).1

  accept_conn-fails :
      (accepted == minus_one) ≡ true → accept_conn k s.listener true s.world ≡ (none, after_accept)
  unfolding accept_conn
  accept_conn-fails e =
      ap
        (λ c. if c then (none, after_accept) else (some (record { m_fd = accepted }), after_accept))
        e

  accept_conn-accepts :
      (accepted == minus_one) ≡ false
      → accept_conn k s.listener true s.world ≡ (some (record { m_fd = accepted }), after_accept)
  unfolding accept_conn
  accept_conn-accepts e =
      ap
        (λ c. if c then (none, after_accept) else (some (record { m_fd = accepted }), after_accept))
        e

module _ {World : Type 0} (k : Kernel World) (d : KeepsDescriptors k) (base : ℕ → Bool) where
  -- A descriptor is open if it is one of `base`, or that of one socket and no other.
  abbrev Balanced : Serving World → Type 0
  Balanced s =
      (x : ℕ) → bit (d.is_open s.world x) ≡ bit (base x) + (count x s.threads + count x s.unserved)

  new_balance :
      (s : Serving World) (fd x : ℕ) (w : World) (n : ℕ)
      → Balanced s
      → d.is_open s.world fd ≡ false
      → d.is_open w x ≡ (fd == x || d.is_open s.world x)
      → n ≡ bit (fd == x) + (count x s.threads + count x s.unserved)
      → bit (d.is_open w x) ≡ bit (base x) + n
  new_balance s fd x w n b c o e = elim (Bool-cases (fd == x)) [
    | inl p ↦
        let shut = subst (λ y. d.is_open s.world y ≡ false) ((==_iff fd x).0 p) c in
        let z = b x in ground (arith, z, shut, p, o, e)
    | inr p ↦ let z = b x in ground (arith, z, p, o, e)
  ]

  accept-Balanced : (s : Serving World) → Balanced s → Balanced (accept_turn k s)
  unfolding accept_turn start_thread
  accept-Balanced s b =
      let fd = (k.accept s.listener.m_fd s.world).0 in
      let w = (k.accept s.listener.m_fd s.world).1 in
      elim (Bool-cases (fd == minus_one)) [
        | inl e ↦
            let turn : accept_turn k s ≡ record s { world = w } =
              ap (λ r. start_thread k s r.0 r.1) (accept_conn-fails k s e) in
            let f = d.accept_fails s.listener.m_fd s.world ((==_iff fd minus_one).0 e) in
            subst (λ (t : Serving World). Balanced t) (sym turn) λ x. ap bit (f x) ∙ b x
        | inr e ↦
            let n : fd ≢ minus_one = λ p. absurd (ground (arith, p, e)) in
            let w' = (k.pthread_create w).1 in
            let o : (x : ℕ) → d.is_open w' x ≡ (fd == x || d.is_open s.world x) =
              λ x. d.create_keeps w x ∙ d.accept_opens s.listener.m_fd s.world n x in
            let c = d.accept_new s.listener.m_fd s.world n in
            let tcp : TcpSocket = record { m_fd = fd } in
            elim (Bool-cases (k.pthread_create w).0) [
              | inl t ↦
                  let turn : accept_turn k s ≡ record s { world = w'; threads = tcp ∷ s.threads } =
                    ap (λ r. start_thread k s r.0 r.1) (accept_conn-accepts k s e)
                    ∙ rw (t, start_thread) refl in
                  subst (λ (t : Serving World). Balanced t) (sym turn)
                    λ x. new_balance s fd x w' _ b c (o x) (omega arith)
              | inr t ↦
                  let turn : accept_turn k s
                      ≡ record s { world = w'; unserved = tcp ∷ s.unserved } =
                    ap (λ r. start_thread k s r.0 r.1) (accept_conn-accepts k s e)
                    ∙ rw (t, start_thread) refl in
                  subst (λ (t : Serving World). Balanced t) (sym turn)
                    λ x. new_balance s fd x w' _ b c (o x) (omega arith)
            ]
      ]

  -- The descriptor of a thread's socket is not 0, and not negative.
  thread_closes :
      (s : Serving World) (fd : ℕ)
      → base 0 ≡ true
      → Balanced s
      → 0 < count fd s.threads
      → (is_negative fd || fd == 0) ≡ false
  thread_closes s fd z b c = elim (Bool-cases (fd == 0)) [
    | inl p ↦
        let y : base fd ≡ true = subst (λ q. base q ≡ true) (sym ((==_iff fd 0).0 p)) z in
        let v = b fd in absurd (ground (arith, y, v, c))
    | inr p ↦ elim (Bool-cases (is_negative fd)) [
      | inl q ↦
          let y = d.none_negative s.world fd q in let v = b fd in absurd (ground (arith, y, v, c))
      | inr q ↦ ground (arith, p, q)
    ]
  ]

  close_balance :
      (s : Serving World) (fd : ℕ) (others : List TcpSocket)
      → base 0 ≡ true
      → Balanced s
      → ((x : ℕ) → count x s.threads ≡ bit (fd == x) + count x others)
      → (x : ℕ)
      → bit (d.is_open (delete_socket k (record { m_fd = fd }) s.world) x)
        ≡ bit (base x) + (count x others + count x s.unserved)
  unfolding delete_socket
  close_balance s fd others z b c x =
      let one : (fd == fd) ≡ true = (==_iff fd fd).1 refl in
      let here : 0 < count fd s.threads = let v = c fd in ground (arith, one, v) in
      let shut : delete_socket k (record { m_fd = fd }) s.world ≡ k.close fd s.world =
        rw (thread_closes s fd z b here, delete_socket) refl in
      ap (λ w. bit (d.is_open w x)) shut
      ∙ ap bit (d.close_closes fd s.world x)
      ∙ (let v = b x in let n = c x in ground (arith, v, n))

  finish-Balanced :
      base 0 ≡ true → (i : ℕ) (s : Serving World) → Balanced s → Balanced (finish k i s)
  unfolding finish
  finish-Balanced z i s b = elim (Option-cases (take_out i s.threads)) [
    | inl n ↦
        let turn : finish k i s ≡ s = rw (n, finish) refl in
        subst (λ (t : Serving World). Balanced t) (sym turn) b
    | inr ((tcp, others), e) ↦
        let turn : finish k i s
            ≡ record s { world = delete_socket k tcp s.world; threads = others } =
          rw (e, finish) refl in
        subst (λ (t : Serving World). Balanced t) (sym turn)
          (close_balance s tcp.m_fd others z b (count-take_out i s.threads others tcp e))
  ]

  run-Balanced :
      base 0 ≡ true → (es : List Event) (s : Serving World) → Balanced s → Balanced (run k es s)
  unfolding run step
  run-Balanced z [] s b = b
  run-Balanced z (accepting ∷ es) s b = run-Balanced z es (accept_turn k s) (accept-Balanced s b)
  run-Balanced z (finishing i ∷ es) s b = run-Balanced z es (finish k i s) (finish-Balanced z i s b)

-- If the descriptor 0 is open when the server is about to accept its first connection, then,
-- however the turns of the loop and the ends of threads follow each other, a descriptor is open if it
-- was open before, or if it is that of a socket of one thread that runs, or of one socket that no thread
-- was started for, and of no other: no two threads share a connection, none loses its own, and what
-- a thread leaves is closed.
pub run-open :
    {World : Type 0} (k : Kernel World) (d : KeepsDescriptors k) (es : List Event) (w0 : World)
    → d.is_open (open_server k w0).world 0 ≡ true
    → (x : ℕ)
    → bit (d.is_open (run k es (open_server k w0)).world x)
      ≡ bit (d.is_open (open_server k w0).world x)
        + (count x (run k es (open_server k w0)).threads
            + count x (run k es (open_server k w0)).unserved)
unfolding open_server
run-open k d es w0 z =
    run-Balanced k d (d.is_open (open_server k w0).world) z es (open_server k w0) λ x. omega arith
