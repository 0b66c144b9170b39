-- ===== src/Server/Socket/Laws.antt =====
-- What a caller of recvall and sendall of CEServer/main.cpp may rely on.
use rw_mem.Common.{
  ℕ, ◌+◌, ◌-◌, ◌≤◌, ◌<◌, ◌≡◌, ◌⊎◌, List, [], ◌∷◌, ◌++◌, length, take, drop, arith, length-append,
  length-take, length-drop, drop-drop, append_assoc, append-nil, take-append-drop,
}
use rw_mem.Server.Socket.{
  Arrival, bytes, interrupted, end_of_stream, broken, Return, count, zero_returned, minus_one,
  waiting, recv_loop, recvall, Room, takes, retry, refuses, taken, send_loop, sendall,
}

-- All the bytes that arrive.
abbrev pub stream : List Arrival → List ℕ
stream [] = []
stream (bytes xs ∷ events) = xs ++ stream events
stream (interrupted ∷ events) = stream events
stream (end_of_stream ∷ events) = stream events
stream (broken ∷ events) = stream events

-- How a `recvall` of so many bytes may end.
abbrev pub Received : ℕ → List Arrival → Return × List ℕ × List Arrival → Type 0
Received size events (r, got, rest) =
    (got ++ stream rest ≡ stream events)
    × (((r ≡ count size) × (length got ≡ size))
        ⊎ (((r ≡ zero_returned) ⊎ (r ≡ minus_one) ⊎ (r ≡ waiting)) × (length got < size)))

abbrev ReceivedFrom : ℕ → List ℕ → List Arrival → Return × List ℕ × List Arrival → Type 0
ReceivedFrom total before events (r, got, rest) =
    (got ++ stream rest ≡ before ++ stream events)
    × (((r ≡ count total) × (length got ≡ total))
        ⊎ (((r ≡ zero_returned) ⊎ (r ≡ minus_one) ⊎ (r ≡ waiting)) × (length got < total)))

recv_loop-ReceivedFrom :
    (events : List Arrival) (left : ℕ) (before : List ℕ) (total : ℕ)
    → total ≡ length before + left
    → ReceivedFrom total before events (recv_loop events left before)
unfolding recv_loop
recv_loop-ReceivedFrom [] left before total same = ground (arith, append-nil before)
recv_loop-ReceivedFrom (interrupted ∷ events) left before total same =
    ground (arith, recv_loop-ReceivedFrom events left before total same)
recv_loop-ReceivedFrom (end_of_stream ∷ events) left before total same = ground arith
recv_loop-ReceivedFrom (broken ∷ events) left before total same = ground arith
recv_loop-ReceivedFrom (bytes xs ∷ events) left before total same = ground (
  arith,
  recv_loop-ReceivedFrom events (left - length xs) (before ++ xs) total,
  length-append before xs,
  length-append before (take left xs),
  length-take left xs,
  append_assoc before xs (stream events),
  append_assoc before (take left xs) (drop left xs ++ stream events),
  append_assoc (take left xs) (drop left xs) (stream events),
  take-append-drop left xs,
)

-- Whatever arrives, and however it is split, `recvall` takes the bytes in order, none lost and none
-- twice: it returns the count it was asked for with exactly so many bytes, or with fewer bytes 0,
-- -1, or it waits.
pub recvall_lem : (events : List Arrival) (size : ℕ) → Received size events (recvall events size)
unfolding recvall
recvall_lem events size = recv_loop-ReceivedFrom events size [] size (omega arith)

-- How a `sendall` of a buffer may end.
abbrev pub Sent : List ℕ → Return × List ℕ → Type 0
Sent buf (r, wire) =
    (wire ++ drop (length wire) buf ≡ buf)
    × (((r ≡ count (length buf)) × (wire ≡ buf))
        ⊎ (((r ≡ zero_returned) ⊎ (r ≡ minus_one) ⊎ (r ≡ waiting)) × (length wire < length buf)))

abbrev SentFrom : ℕ → List ℕ → Return × List ℕ → Type 0
SentFrom total left (r, wire) =
    (wire ++ drop (length wire) left ≡ left)
    × (((r ≡ count total) × (wire ≡ left))
        ⊎ (((r ≡ zero_returned) ⊎ (r ≡ minus_one) ⊎ (r ≡ waiting)) × (length wire < length left)))

taken-le : (k : ℕ) (left : List ℕ) → taken k left ≤ length left
unfolding taken
taken-le k left = ground arith

sent_length :
    (n : ℕ) (left wire : List ℕ) → n ≤ length left → length (take n left ++ wire) ≡ n + length wire
sent_length n left wire within = omega (arith, length-append (take n left) wire, length-take n left)

sent_more :
    (total n : ℕ) (left : List ℕ) (r : Return) (wire : List ℕ)
    → n ≤ length left
    → SentFrom total (drop n left) (r, wire)
    → SentFrom total left (r, take n left ++ wire)
sent_more total n left r wire within (order, ends) =
    let far = sent_length n left wire within in
    (
      cc (
        far,
        order,
        drop-drop (length wire) n left,
        append_assoc (take n left) wire (drop (n + length wire) left),
        take-append-drop n left,
      ),
      ground (arith, far, length-drop n left, take-append-drop n left),
    )

send_loop-SentFrom :
    (rooms : List Room) (left : List ℕ) (sent total : ℕ)
    → total ≡ sent + length left
    → SentFrom total left (send_loop rooms left sent)
unfolding send_loop
send_loop-SentFrom [] [] sent total same = ground arith
send_loop-SentFrom [] (x ∷ left) sent total same = ground arith
send_loop-SentFrom (retry ∷ rs) [] sent total same = ground arith
send_loop-SentFrom (retry ∷ rs) (x ∷ left) sent total same =
    ground (arith, send_loop-SentFrom rs (x ∷ left) sent total same)
send_loop-SentFrom (refuses ∷ rs) [] sent total same = ground arith
send_loop-SentFrom (refuses ∷ rs) (x ∷ left) sent total same = ground arith
send_loop-SentFrom (takes k ∷ rs) [] sent total same = ground arith
send_loop-SentFrom (takes k ∷ rs) (x ∷ left) sent total same =
    let n = taken k (x ∷ left) in
    ground (
      arith,
      sent_more total n (x ∷ left) (send_loop rs (drop n (x ∷ left)) (sent + n)).0
          (send_loop rs (drop n (x ∷ left)) (sent + n)).1 (taken-le k (x ∷ left))
          (send_loop-SentFrom rs (drop n (x ∷ left)) (sent + n) total
            (omega (arith, length-drop n (x ∷ left), taken-le k (x ∷ left)))),
    )

-- However the socket takes the bytes, what `sendall` puts on the wire is the buffer's beginning, in
-- order; it returns the buffer's length with all of it on the wire, or with less 0, -1, or it waits.
pub sendall_lem : (rooms : List Room) (buf : List ℕ) → Sent buf (sendall rooms buf)
unfolding sendall
sendall_lem rooms buf = send_loop-SentFrom rooms buf 0 (length buf) (omega arith)
