-- ===== src/Socket/Connection.antt =====
-- TcpSocket/TcpSocket.cpp and TcpSocket/TcpServer.cpp: the sockets themselves. The calls of the
-- operating system are a parameter; `minus_one` and `false` stand for their result -1.
use student_management_syste.Prelude.{
  ℕ, ◌%◌, Bool, true, false, ◌||◌, Option, none, some, Bytes, ◌==◌, if◌then◌else◌,
}
use student_management_syste.Snapshot.{minus_one}
use student_management_syste.System.{is_negative}

-- What the code asks of the operating system, whose state is `World`.
pub record Kernel (World : Type 0) : Type 0 where
  pub socket : World → ℕ × World
  pub bind : ℕ → ℕ → World → Bool × World
  pub listen : ℕ → ℕ → World → Bool × World
  pub accept : ℕ → World → ℕ × World
  pub connect : ℕ → ℕ → ℕ → World → Bool × World
  pub close : ℕ → World → World
  pub inet_pton : Bytes → Option ℕ
  pub pthread_create : World → Bool × World

pub record TcpSocket : Type 0 where
  pub m_fd : ℕ

pub record TcpServer : Type 0 where
  pub m_fd : ℕ

-- An unsigned short.
abbrev short_port : ℕ → ℕ
short_port port = port % 0x1_0000

module _ {World : Type 0} (k : Kernel World) where
  unfoldable pub new_socket : World → TcpSocket × World
  new_socket w = let (fd, w') = k.socket w in (record { m_fd = fd }, w')

  unfoldable pub delete_socket : TcpSocket → World → World
  delete_socket s w = if is_negative s.m_fd || s.m_fd == 0 then w else k.close s.m_fd w

  -- The result of `inet_pton` is not looked at: for a text that is no address the field keeps what
  -- it held, `junk`.
  unfoldable pub connect_to_host : ℕ → TcpSocket → Bytes → ℕ → World → Bool × World
  connect_to_host junk s ip port w =
      let address : ℕ = elim (k.inet_pton ip) [ none ↦ junk | some a ↦ a ] in
      k.connect s.m_fd address (short_port port) w

  unfoldable pub new_server : World → TcpServer × World
  new_server w = let (fd, w') = k.socket w in (record { m_fd = fd }, w')

  unfoldable pub delete_server : TcpServer → World → World
  delete_server s w = k.close s.m_fd w

  unfoldable pub set_listen : TcpServer → ℕ → World → Bool × World
  set_listen s port w =
      let (bound, w') = k.bind s.m_fd (short_port port) w in
      if bound then k.listen s.m_fd 128 w' else (false, w')

  -- Whether there is a place for the client's address, and the socket made, if one is.
  unfoldable pub accept_conn : TcpServer → Bool → World → Option TcpSocket × World
  accept_conn s false w = (none, w)
  accept_conn s true w =
      let (fd, w') = k.accept s.m_fd w in
      if fd == minus_one then (none, w') else (some (record { m_fd = fd }), w')
