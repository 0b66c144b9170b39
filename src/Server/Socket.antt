-- ===== src/Server/Socket.antt =====
-- CEServer/main.cpp: recvall and sendall.
--
-- What the calls of `recv` and `send` meet is an argument: bytes that have arrived or that the
-- socket takes, an interruption, the end, an error. `recv` and `send` move at most as many bytes as
-- they are asked to; bytes that a `recv` leaves stay for the next one.
pub mod Laws
use rw_mem.Common.{
  ℕ, ◌+◌, ◌-◌, List, [], ◌∷◌, ◌++◌, ltb, leb, ◌==◌, if◌then◌else◌, length, take, drop,
}

pub data Arrival : Type 0 where
  bytes : List ℕ → Arrival
  interrupted : Arrival
  end_of_stream : Arrival
  broken : Arrival

-- The return value: the count, 0 or -1, or that the call still waits for bytes.
pub data Return : Type 0 where
  count : ℕ → Return
  zero_returned : Return
  minus_one : Return
  waiting : Return

-- The loop of `recvall`: the return value, the buffer's contents, and what is still to arrive.
unfoldable pub recv_loop : List Arrival → ℕ → List ℕ → Return × List ℕ × List Arrival
recv_loop [] left got = (if left == 0 then count (length got) else waiting, got, [])
recv_loop (interrupted ∷ events) left got =
    let rest = recv_loop events left got in
    if left == 0 then (count (length got), got, interrupted ∷ events) else rest
recv_loop (end_of_stream ∷ events) left got =
    if left == 0
    then (count (length got), got, end_of_stream ∷ events)
    else (zero_returned, got, end_of_stream ∷ events)
recv_loop (broken ∷ events) left got =
    if left == 0
    then (count (length got), got, broken ∷ events)
    else (minus_one, got, broken ∷ events)
recv_loop (bytes xs ∷ events) left got =
    let rest = recv_loop events (left - length xs) (got ++ xs) in
    if left == 0
    then (count (length got), got, bytes xs ∷ events)
    else if length xs == 0
    then (zero_returned, got, bytes xs ∷ events)
    else if leb (length xs) left
    then rest
    else (count (length (got ++ take left xs)), got ++ take left xs, bytes (drop left xs) ∷ events)

-- `recvall(s, buf, size, flags)`
unfoldable pub recvall : List Arrival → ℕ → Return × List ℕ × List Arrival
unfolding recv_loop
recvall events size = recv_loop events size []

-- What `send` does with the bytes that it is given.
pub data Room : Type 0 where
  takes : ℕ → Room
  retry : Room
  refuses : Room

-- `send` takes at most what it is given.
unfoldable pub taken : ℕ → List ℕ → ℕ
taken k left = if leb k (length left) then k else length left

-- The loop of `sendall`: the return value, and the bytes on the wire.
unfoldable pub send_loop : List Room → List ℕ → ℕ → Return × List ℕ
send_loop [] left sent = (if length left == 0 then count sent else waiting, [])
send_loop (retry ∷ rs) left sent =
    let rest = send_loop rs left sent in if length left == 0 then (count sent, []) else rest
send_loop (refuses ∷ rs) left sent = if length left == 0 then (count sent, []) else (minus_one, [])
send_loop (takes k ∷ rs) left sent =
    let n = taken k left in
    let rest = send_loop rs (drop n left) (sent + n) in
    if length left == 0
    then (count sent, [])
    else if n == 0
    then (zero_returned, [])
    else (rest.0, take n left ++ rest.1)

-- `sendall(s, buf, size, flags)`
unfoldable pub sendall : List Room → List ℕ → Return × List ℕ
unfolding send_loop
sendall rs buf = send_loop rs buf 0
