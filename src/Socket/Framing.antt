-- ===== src/Socket/Framing.antt =====
-- What arrives of a message that was sent.
use student_management_syste.Prelude.{
  ℕ, zero, suc, ◌+◌, ◌-◌, ◌≤◌, ◌<◌, ◌≡◌, refl, ap, ◌∙◌, subst, Bool, true, false, ◌||◌, ◌%◌, ◌==◌,
  none, some, [], ◌∷◌, ◌++◌, Bytes, if◌then◌else◌, length, take, drop, arith, length-append,
}
use student_management_syste.System.{is_negative}
use student_management_syste.Memory.{c_str}
use student_management_syste.Socket.{
  Calls, least, writen, Got, readn, htonl, ntohl, send_msg, recv_msg,
}

-- Every call takes at least one byte.
pub data AllTake : Calls → Type 0 where
  over : AllTake []
  takes : {n : ℕ} {rs : Calls} → 1 ≤ n → AllTake rs → AllTake (some n ∷ rs)

take-append : (k : ℕ) (xs ys : Bytes) → k ≤ length xs → take k (xs ++ ys) ≡ take k xs
take-append zero xs ys h = refl
take-append (suc k) [] ys h = absurd (omega arith)
take-append (suc k) (x ∷ xs) ys h = ap (λ r. x ∷ r) (take-append k xs ys (omega arith))

drop-append : (k : ℕ) (xs ys : Bytes) → k ≤ length xs → drop k (xs ++ ys) ≡ drop k xs ++ ys
drop-append zero xs ys h = refl
drop-append (suc k) [] ys h = absurd (omega arith)
drop-append (suc k) (x ∷ xs) ys h = drop-append k xs ys (omega arith)

append-take-drop : (k : ℕ) (xs : Bytes) → take k xs ++ drop k xs ≡ xs
append-take-drop zero xs = refl
append-take-drop (suc k) [] = refl
append-take-drop (suc k) (x ∷ xs) = ap (λ r. x ∷ r) (append-take-drop k xs)

length-drop : (k : ℕ) (xs : Bytes) → k ≤ length xs → length (drop k xs) + k ≡ length xs
length-drop zero xs h = omega arith
length-drop (suc k) [] h = absurd (omega arith)
length-drop (suc k) (x ∷ xs) h = omega (arith, length-drop k xs (omega arith))

take-length : (xs : Bytes) → take (length xs) xs ≡ xs
take-length [] = refl
take-length (x ∷ xs) = ap (λ r. x ∷ r) (take-length xs)

-- One turn of the loop of `readn`.
readn_turn :
    (rs : Calls) (n l : ℕ) (stream : Bytes) (g : Got)
    → readn rs
        (suc l - least n (least (suc l) (length stream)))
        (drop (least n (least (suc l) (length stream))) stream)
      ≡ some g
    → readn (some n ∷ rs) (suc l) stream
      ≡ some (record g { got = take (least n (least (suc l) (length stream))) stream ++ g.got })
unfolding readn
readn_turn rs n l stream g e = rw (e, readn) refl

-- With enough calls, readn gives the bytes that come first, whatever each call takes.
readn_lem :
    (rs : Calls) (l : ℕ) (xs rest : Bytes)
    → AllTake rs
    → length xs ≡ l
    → l ≤ length rs
    → (cs : Calls) × AllTake cs
      × (length rs ≤ length cs + l)
      × (readn rs l (xs ++ rest) ≡ some (record { ok = true; got = xs; stream = rest; calls = cs }))
unfolding readn
readn_lem rs zero [] rest a h e = (rs, a, omega arith, refl)
readn_lem rs zero (x ∷ xs) rest a h e = absurd (omega arith)
readn_lem [] (suc l) xs rest a h e = absurd (omega arith)
readn_lem (none ∷ rs) (suc l) xs rest a h e = elim a [ ]
readn_lem (some n ∷ rs) (suc l) xs rest (takes p a) h e =
    let k = least n (least (suc l) (length (xs ++ rest))) in
    let whole = length-append xs rest in
    let low : 1 ≤ k = ground arith in
    let high : k ≤ length xs = ground arith in
    let (cs, b, m, r) =
      readn_lem rs (suc l - k) (drop k xs) rest a (omega (arith, length-drop k xs high))
        (omega arith) in
    (
      cs,
      b,
      omega arith,
      readn_turn rs n l (xs ++ rest)
            (record { ok = true; got = drop k xs; stream = rest; calls = cs })
            (rw (drop-append k xs rest high) r)
          ∙ ap (λ z. some (record { ok = true; got = z; stream = rest; calls = cs }))
              (ap (λ z. z ++ drop k xs) (take-append k xs rest high) ∙ append-take-drop k xs),
    )

ntohl-htonl : (n : ℕ) → n < 0x8000_0000 → ntohl (htonl n) ≡ n
ntohl-htonl n h = omega arith

writen_turn :
    (ws : Calls) (n l : ℕ) (bytes more : Bytes) (ok : Bool)
    → writen ws bytes (suc l - least n (suc l)) ≡ some (ok, more)
    → writen (some n ∷ ws) bytes (suc l) ≡ some (ok, take (least n (suc l)) bytes ++ more)
unfolding writen
writen_turn ws n l bytes more ok e = rw (e, writen) refl

writen_done : (ws : Calls) (bytes : Bytes) → writen ws bytes 0 ≡ some (true, [])
unfolding writen
writen_done ws bytes = refl

append_nil : (xs : Bytes) → xs ++ [] ≡ xs
append_nil [] = refl
append_nil (x ∷ xs) = ap (λ r. x ∷ r) (append_nil xs)

-- A first write that takes all of it sends all of it.
writen_whole :
    (n l : ℕ) (ws : Calls) (bytes : Bytes)
    → length bytes ≡ suc l
    → suc l ≤ n
    → writen (some n ∷ ws) bytes (suc l) ≡ some (true, bytes)
writen_whole n l ws bytes e h =
    let k : least n (suc l) ≡ length bytes = ground arith in
    let z : suc l - least n (suc l) ≡ 0 = ground arith in
    writen_turn ws n l bytes [] true (rw z (writen_done ws bytes))
    ∙ ap (λ r. some (true, r))
        (append_nil (take (least n (suc l)) bytes) ∙ ap (λ m. take m bytes) k ∙ take-length bytes)

send_msg_whole :
    (n : ℕ) (ws : Calls) (msg : Bytes)
    → length msg < 0x7fff_fffc
    → length msg + 4 ≤ n
    → send_msg (some n ∷ ws) msg ≡ some (true, htonl (length msg) ++ msg)
unfolding send_msg
send_msg_whole n ws msg small h =
    let all = htonl (length msg) ++ msg in
    let size : suc (length msg + 3) ≡ length msg + 4 = omega arith in
    let same : (length msg + 4) % 0x1_0000_0000 ≡ length msg + 4 = omega arith in
    let positive : is_negative (length msg + 4) ≡ false = ground arith in
    let written : writen (some n ∷ ws) all (length msg + 4) ≡ some (true, all) =
      subst (λ z. writen (some n ∷ ws) all z ≡ some (true, all)) size
        (writen_whole n (length msg + 3) ws all (omega arith) (omega arith)) in
    rw (same, positive, send_msg) written

recv_msg_turn :
    (rs : Calls) (stream : Bytes) (g h : Got) (len : ℕ)
    → readn rs 4 stream ≡ some g
    → ntohl g.got ≡ len
    → (is_negative len || len == 0x7fff_ffff) ≡ false
    → readn g.calls len g.stream ≡ some h
    → recv_msg rs stream ≡ some (if h.ok then c_str h.got else [], h.stream)
unfolding recv_msg
recv_msg_turn rs stream g h len e t p q = rw (e, t, p, q, recv_msg) refl

-- A message without a NUL of fewer than 2^31 - 4 bytes, whose first write takes all of it, is received
-- as it was sent, whatever parts the reads take, and the stream behind it is left.
pub recv_msg-send_msg :
    (n : ℕ) (ws rs : Calls) (msg rest : Bytes)
    → c_str msg ≡ msg
    → length msg < 0x7fff_fffc
    → length msg + 4 ≤ n
    → AllTake rs
    → length msg + 4 ≤ length rs
    → (sent : Bytes) × (send_msg (some n ∷ ws) msg ≡ some (true, sent))
      × (recv_msg rs (sent ++ rest) ≡ some (msg, rest))
recv_msg-send_msg n ws rs msg rest text small fits a enough =
    let (cs, b, m, r) = readn_lem rs 4 (htonl (length msg)) (msg ++ rest) a refl (omega arith) in
    let (ds, d, m', q) = readn_lem cs (length msg) msg rest b refl (omega arith) in
    (
      htonl (length msg) ++ msg,
      send_msg_whole n ws msg small fits,
      recv_msg_turn rs (htonl (length msg) ++ (msg ++ rest))
            (record { ok = true; got = htonl (length msg); stream = msg ++ rest; calls = cs })
            (record { ok = true; got = msg; stream = rest; calls = ds }) (length msg) r
            (ntohl-htonl (length msg) (omega arith)) (ground arith) q
          ∙ ap (λ z. some (z, rest)) text,
    )

-- If the first write takes a bytes of the l that are to be written, and the second all that are
-- left, `writen` succeeds, and what was written are the first a bytes and then the first l - a.
pub writen_torn :
    (a b l : ℕ) (ws : Calls) (bytes : Bytes)
    → 1 ≤ a
    → a < l
    → l ≤ a + b
    → writen (some a ∷ some b ∷ ws) bytes l ≡ some (true, take a bytes ++ take (l - a) bytes)
writen_torn a b zero ws bytes p h k = absurd (omega arith)
writen_torn a b (suc l) ws bytes p h k =
    let first : least a (suc l) ≡ a = ground arith in
    let size : suc (l - a) ≡ suc l - a = omega arith in
    let second : least b (suc (l - a)) ≡ suc (l - a) = ground arith in
    let z : suc (l - a) - least b (suc (l - a)) ≡ 0 = ground arith in
    let last = writen_turn ws b (l - a) bytes [] true (rw z (writen_done ws bytes)) in
    let whole : writen (some b ∷ ws) bytes (suc l - least a (suc l))
        ≡ some (true, take (suc l - a) bytes) =
      rw (first, ← size)
        (last
          ∙ ap (λ r. some (true, r))
              (append_nil (take (least b (suc (l - a))) bytes) ∙ ap (λ m. take m bytes) second)) in
    writen_turn (some b ∷ ws) a l bytes (take (suc l - a) bytes) true whole
    ∙ ap (λ m. some (true, take m bytes ++ take (suc l - a) bytes)) first
