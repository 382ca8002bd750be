-- ===== src/Tests/Socket.antt =====
-- A message of two bytes, written at once and read byte by byte.
use student_management_syste.Prelude.{
  ◌-◌, take, ◌≤◌, ◌≡◌, refl, true, some, [], ◌∷◌, ◌++◌, Bytes, codes, arith,
}
use student_management_syste.Memory.{c_str}
use student_management_syste.Socket.{Calls, writen, send_msg, recv_msg}
use student_management_syste.Socket.Framing.{AllTake, over, takes, recv_msg-send_msg, writen_torn}

abbrev byte_reads : Calls
byte_reads = some 1 ∷ some 1 ∷ some 1 ∷ some 1 ∷ some 1 ∷ some 1 ∷ []

byte_reads-AllTake : AllTake byte_reads
byte_reads-AllTake =
    let p : 1 ≤ 1 = omega arith in takes p (takes p (takes p (takes p (takes p (takes p over)))))

recv_msg-send_msg_example :
    (sent : Bytes) × (send_msg (some 10 ∷ []) (codes "hi") ≡ some (true, sent))
    × (recv_msg byte_reads (sent ++ codes "x") ≡ some (codes "hi", codes "x"))
unfolding c_str
recv_msg-send_msg_example =
    recv_msg-send_msg 10 [] byte_reads (codes "hi") (codes "x") refl (omega arith) (omega arith)
      byte_reads-AllTake (omega arith)

writen_torn_example :
    writen (some 2 ∷ some 9 ∷ []) (codes "abcde") 5
    ≡ some (true, take 2 (codes "abcde") ++ take (5 - 2) (codes "abcde"))
writen_torn_example = writen_torn 2 9 5 [] (codes "abcde") (omega arith) (omega arith) (omega arith)
