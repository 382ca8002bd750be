-- ===== src/Socket.antt =====
-- TcpSocket/TcpSocket.cpp: messages over a stream socket. What `write` and `read` do is given by
-- a list: for each call the number of bytes that it takes at most, or `none` for its result -1. A
-- loop that the list is too short for waits on, and has the value `none`.
pub mod Connection
pub mod Framing
use student_management_syste.Prelude.{
  ℕ, zero, suc, ◌+◌, ◌-◌, ◌*◌, ◌/◌, ◌%◌, Bool, true, false, not, ◌||◌, ◌==◌, Option, none, some,
  List, [], ◌∷◌, ◌++◌, Bytes, leb, if◌then◌else◌, length, take, drop, get_or,
}
use student_management_syste.Snapshot.{minus_one}
use student_management_syste.System.{is_negative}
use student_management_syste.Memory.{c_str}

abbrev pub Calls : Type 0
Calls = List (Option ℕ)

abbrev pub least : ℕ → ℕ → ℕ
least a b = if leb a b then a else b

-- The result (`false` is -1) and the bytes written. Each call starts at `msg` again, since `p` is
-- moved but not used.
unfoldable pub writen : Calls → Bytes → ℕ → Option (Bool × Bytes)
writen ws msg zero = some (true, [])
writen [] msg (suc l) = none
writen (none ∷ ws) msg (suc l) = some (false, [])
writen (some n ∷ ws) msg (suc l) =
    let k = least n (suc l) in
    elim (writen ws msg (suc l - k)) [
      | none ↦ none
      | some (ok, more) ↦ some (ok, take k msg ++ more)
    ]

-- The result, the bytes read, and what is left of the stream and of the calls. A read at the end of
-- the stream gives 0 bytes, and the loop goes on.
pub record Got : Type 0 where
  pub ok : Bool
  pub got : Bytes
  pub stream : Bytes
  pub calls : Calls

unfoldable pub readn : Calls → ℕ → Bytes → Option Got
readn rs zero stream = some (record { ok = true; got = []; stream = stream; calls = rs })
readn [] (suc l) stream = none
readn (none ∷ rs) (suc l) stream =
    some (record { ok = false; got = []; stream = stream; calls = rs })
readn (some n ∷ rs) (suc l) stream =
    let k = least n (least (suc l) (length stream)) in
    elim (readn rs (suc l - k) (drop k stream)) [
      | none ↦ none
      | some g ↦ some (record g { got = take k stream ++ g.got })
    ]

-- The four bytes of `htonl`, and the number that `ntohl` makes of those that were read.
abbrev pub htonl : ℕ → Bytes
htonl n = n / 0x100_0000 % 256 ∷ n / 0x1_0000 % 256 ∷ n / 0x100 % 256 ∷ n % 256 ∷ []

abbrev pub ntohl : Bytes → ℕ
ntohl bs =
    0x100_0000 * get_or bs 0 0 + 0x1_0000 * get_or bs 1 0 + 0x100 * get_or bs 2 0 + get_or bs 3 0

-- The size that `writen` is given is an `int`: for a message of 2^31 - 4 bytes or more it wraps around,
-- and if it is negative, nothing is written and it is the result.
unfoldable pub send_msg : Calls → Bytes → Option (Bool × Bytes)
send_msg ws msg =
    let size = (length msg + 4) % 0x1_0000_0000 in
    if is_negative size
    then some (not (size == minus_one), [])
    else writen ws (htonl (length msg) ++ msg) size

-- The message and the rest of the stream. `none` also for the length 2^31 - 1, to which the code adds
-- one as an `int`, for -1, where it writes in front of the buffer, and for other negative lengths,
-- which `new` refuses.
unfoldable pub recv_msg : Calls → Bytes → Option (Bytes × Bytes)
recv_msg rs stream = elim (readn rs 4 stream) [
  | none ↦ none
  | some g ↦
      let len = ntohl g.got in
      if is_negative len || len == 0x7fff_ffff then none else elim (readn g.calls len g.stream) [
        | none ↦ none
        | some h ↦ some (if h.ok then c_str h.got else [], h.stream)
      ]
]
