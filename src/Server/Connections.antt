-- ===== src/Server/Connections.antt =====
-- Server/server.cpp, `main`: it accepts connections and starts a thread for each, while threads that
-- were started end in any order. What a thread does between its start and its end is in
-- Server/Work.antt.
pub mod Open
use student_management_syste.Prelude.{
  ℕ, zero, suc, Bool, true, Option, none, some, List, [], ◌∷◌, if◌then◌else◌,
}
use student_management_syste.Socket.Connection.{
  Kernel, TcpSocket, TcpServer, new_server, set_listen, accept_conn, delete_socket,
}

-- The listening socket, the sockets of the threads that run, and those that were made for a thread
-- that could not be started.
pub record Serving (World : Type 0) : Type 0 where
  pub world : World
  pub listener : TcpServer
  pub threads : List TcpSocket
  pub unserved : List TcpSocket

-- The thread at a place in the list, and the others.
unfoldable pub take_out : {A : Type 0} → ℕ → List A → Option (A × List A)
take_out i [] = none
take_out zero (x ∷ xs) = some (x, xs)
take_out (suc i) (x ∷ xs) = elim (take_out i xs) [ none ↦ none | some (y, ys) ↦ some (y, x ∷ ys) ]

pub data Event : Type 0 where
  accepting : Event
  finishing : ℕ → Event

module _ {World : Type 0} (k : Kernel World) where
  -- The result of `setListen` is not looked at.
  unfoldable pub open_server : World → Serving World
  open_server w0 =
      let (s, w1) = new_server k w0 in
      record { world = (set_listen k s 10000 w1).1; listener = s; threads = []; unserved = [] }

  -- What `main` does with what was accepted. The result of `pthread_create` is not looked at either.
  unfoldable pub start_thread : Serving World → Option TcpSocket → World → Serving World
  start_thread s none w = record s { world = w }
  start_thread s (some tcp) w =
      let (created, w') = k.pthread_create w in
      if created
      then record s { world = w'; threads = tcp ∷ s.threads }
      else record s { world = w'; unserved = tcp ∷ s.unserved }

  -- A turn of the loop of `main`.
  unfoldable pub accept_turn : Serving World → Serving World
  accept_turn s =
      let (accepted, w) = accept_conn k s.listener true s.world in start_thread s accepted w

  -- The end of `working`.
  unfoldable pub finish : ℕ → Serving World → Serving World
  finish i s = elim (take_out i s.threads) [
    | none ↦ s
    | some (tcp, others) ↦ record s { world = delete_socket k tcp s.world; threads = others }
  ]

  unfoldable pub step : Event → Serving World → Serving World
  step accepting s = accept_turn s
  step (finishing i) s = finish i s

  unfoldable pub run : List Event → Serving World → Serving World
  run [] s = s
  run (e ∷ es) s = run es (step e s)
