-- ===== src/Sock.antt =====
-- common/sock.cpp: receiving and sending a whole buffer over TCP. What recv and send return is the
-- kernel's and comes from outside: what is to be received is a list of segments, and what each call of
-- send returns is given.
pub mod Stream
pub mod Sending
pub mod Calls
pub mod Create
pub mod Connect
pub mod Held
pub mod Dial
pub mod Leaks
pub mod Counted
pub mod Flags
pub mod Answered
pub mod Udp
pub mod Group
pub mod Datagrams
pub mod Grouped
pub mod Address
pub mod Order
pub mod Outcome
use the_multi_room_speaker.Base.{
  ℕ, zero, suc, ◌+◌, ◌-◌, ◌*◌, ◌/◌, Bool, true, false, Option, none, some, List, [], ◌∷◌, ◌++◌,
  length, take, drop, ltb, leb, ◌==◌, if◌then◌else◌,
}
use the_multi_room_speaker.Base.Int.{ℤ, pos, negsuc, pos_part}

-- What a call of recv finds. An empty list stands for a connection that the peer has closed.
pub data Segment : Type 0 where
  bytes : List ℕ → Segment
  again : Segment
  failed : Segment

-- What tcp_sock::receive(buff, length) returns, the bytes it has put into the buffer, and what is left
-- to receive.
pub record Received : Type 0 where
  pub rb : ℤ
  pub got : List ℕ
  pub left : List Segment

-- tcp_sock::receive: recv delivers at most `n` bytes; EAGAIN is -1 and any other error 0, as a
-- connection that was closed.
unfoldable pub receive : ℕ → List Segment → Received
receive n [] = record { rb = pos 0; got = []; left = [] }
receive n (bytes xs ∷ s) =
    if leb (length xs) n
    then record { rb = pos (length xs); got = xs; left = s }
    else record { rb = pos n; got = take n xs; left = bytes (drop n xs) ∷ s }
receive n (again ∷ s) = record { rb = negsuc 0; got = []; left = s }
receive n (failed ∷ s) = record { rb = pos 0; got = []; left = s }

abbrev prepend : List ℕ → List ℕ × List Segment → List ℕ × List Segment
prepend xs (ys, s) = (xs ++ ys, s)

-- The loop of tcp_sock::receiveall, with fuel: what it adds to the buffer, and what is left to
-- receive. `shot <= 0` ends it.
-- It returns the number of bytes that it has added.
unfoldable pub receive_loop : ℕ → ℕ → List Segment → List ℕ × List Segment
unfolding receive
receive_loop zero toreceive s = ([], s)
receive_loop (suc fuel) toreceive s =
    let shot = receive toreceive s in
    let more = receive_loop fuel (toreceive - pos_part shot.rb) shot.left in
    if toreceive == 0
    then ([], s)
    else if pos_part shot.rb == 0
    then ([], shot.left)
    else prepend shot.got more

-- tcp_sock::receiveall(buff, length). A round that does not end the loop receives a byte or more.
unfoldable pub receiveall : ℕ → List Segment → List ℕ × List Segment
unfolding receive_loop
receiveall n s = receive_loop (suc n) n s

-- What a call of ::send returns: `shot` and errno. It depends on the number of the call and on the
-- length offered.
abbrev pub Kernel : Type 0
Kernel = ℕ → ℕ → ℤ × ℕ

abbrev pub eagain : ℕ
eagain = 11

abbrev pub prepend_sent : List ℕ → Option (List ℕ × ℕ) → Option (List ℕ × ℕ)
prepend_sent xs none = none
prepend_sent xs (some (ys, n)) = some (xs ++ ys, n)

-- The loop of tcp_sock::sendall, with fuel, on the bytes that are still to be sent: the bytes that the
-- kernel has taken, and `length`. `i` counts the calls, `tries` is `toutnonblock`.
unfoldable pub send_loop : ℕ → Kernel → ℕ → List ℕ → ℕ → Option (List ℕ × ℕ)
send_loop zero send i buff tries = none
send_loop (suc fuel) send i buff tries =
    let shot = pos_part (send i (length buff)).0 in
    let error = (send i (length buff)).1 in
    let sent = prepend_sent (take shot buff) (send_loop fuel send (i + 1) (drop shot buff) tries) in
    let retried = send_loop fuel send (i + 1) buff (tries - 1) in
    let broken : Option (List ℕ × ℕ) = some ([], length buff) in
    if length buff == 0
    then some ([], 0)
    else if shot == 0
    then (if error == eagain then (if tries == 0 then broken else retried) else broken)
    else sent

-- tcp_sock::sendall(buff, length, tout): 0 for success.
unfoldable pub sendall : Kernel → List ℕ → ℕ → Option (List ℕ × ℕ)
unfolding send_loop
sendall send buff tout =
    let tries = tout / 10 + 1 in send_loop (length buff + tries + 1) send 0 buff tries
