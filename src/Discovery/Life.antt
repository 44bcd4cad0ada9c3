-- ===== src/Discovery/Life.antt =====
-- srv/udpdisc.cpp and cli/udpdisc.cpp, the sockets of Udper: how discover and listen_and_respond make
-- them, and how they are closed. What goes through them is in Discovery.
use the_multi_room_speaker.Base.{ℕ, Bool, true, false, not, List, [], ◌∷◌, ltb, if◌then◌else◌}
use the_multi_room_speaker.Base.Int.{ℤ, pos, pos_part, neg_part}
use the_multi_room_speaker.Sock.Calls.{
  is_zero, Call, socket_dgram, bind_fd, shutdown_fd, close_fd, set_opt, Log, Os, is_minus_one,
}

-- _sock and _rock, and the calls made of the operating system.
pub record Udper : Type 0 where
  pub sock : ℤ
  pub rock : ℤ
  pub log : Log

abbrev pub new_udper : Udper
new_udper = record { sock = pos 0; rock = pos 0; log = [] }

-- A call, with what it returns.
unfoldable pub asks : Os → Call → Udper → ℤ × Udper
asks o c u = let r = (o.ask u.log c).ret in (r, record u { log = (c, r) ∷ u.log })

-- _create(_sock) and _create(_rock)
unfoldable pub create_sock : Os → Udper → Bool × Udper
unfolding asks
create_sock o u =
    let (s, u') = asks o (socket_dgram 0) u in (ltb 0 (pos_part s), record u' { sock = s })

unfoldable pub create_rock : Os → Udper → Bool × Udper
unfolding asks
create_rock o u =
    let (s, u') = asks o (socket_dgram 0) u in (ltb 0 (pos_part s), record u' { rock = s })

abbrev pub so_broadcast : ℕ
so_broadcast = 6

abbrev pub so_reuseport : ℕ
so_reuseport = 15

-- _broad()
unfoldable pub broad : Os → Udper → Bool × Udper
unfolding asks
broad o u = let (r, u') = asks o (set_opt u.sock so_broadcast 1) u in (not (is_minus_one r), u')

-- _bind_to_addr(s, skaddr, INADDR_ANY, port) of the client
unfoldable pub bind_to_addr : Os → (s : ℤ) (port : ℕ) → Udper → Bool × Udper
unfolding asks
bind_to_addr o s port u =
    let reused = (asks o (set_opt s 2 1) u).1 in
    let shared = (asks o (set_opt s so_reuseport 1) reused).1 in
    let (r, u') = asks o (bind_fd s (record { ip = 0; port = port })) shared in
    (not (ltb 0 (neg_part r)), u')

-- _bind_to_addr(s, skaddr, INADDR_ANY, port) of the server
unfoldable pub bind_server : Os → (s : ℤ) (port : ℕ) → Udper → Bool × Udper
unfolding asks
bind_server o s port u =
    let (r, u') = asks o (bind_fd s (record { ip = 0; port = port })) u in
    (not (ltb 0 (neg_part r)), u')

-- Is it 0?
-- discover() of the client, the part in which `_sock` is made: can it go on?
unfoldable pub ready_sock : Os → Udper → Bool × Udper
ready_sock o u =
    let (made, u1) = create_sock o u in
    if is_zero u.sock then (if made then broad o u1 else (false, u1)) else (true, u)

-- The part in which `_rock` is made, at CLI_PORT.
unfoldable pub ready_rock : Os → Udper → Bool × Udper
ready_rock o u =
    let (made, u1) = create_rock o u in
    if is_zero u.rock
    then (if made then bind_to_addr o u1.rock 19212 u1 else (false, u1))
    else (true, u)

-- discover(), up to the broadcast
unfoldable pub ready : Os → Udper → Bool × Udper
ready o u = let (sending, u1) = ready_sock o u in if sending then ready_rock o u1 else (false, u1)

-- listen_and_respond() of the server, up to _is_signaled; the port is SPK_SRV_PORT of the file.
unfoldable pub ready_server : Os → Udper → Bool × Udper
unfolding asks
ready_server o u =
    let (made, u1) = create_sock o u in
    let reused = (asks o (set_opt u1.sock 2 1) u1).1 in
    if is_zero u.sock
    then (if made then bind_server o u1.sock 19211 reused else (false, u1))
    else (true, u)

-- if(s>0) shutdown, close
unfoldable pub close_one : Os → ℤ → Udper → Udper
unfolding asks
close_one o s u =
    let down = (asks o (shutdown_fd s) u).1 in
    if ltb 0 (pos_part s) then (asks o (close_fd s) down).1 else u

-- _destroy()
unfoldable pub destroy : Os → Udper → Udper
destroy o u =
    let u1 = record (close_one o u.sock u) { sock = pos 0 } in
    record (close_one o u1.rock u1) { rock = pos 0 }

-- What is done with a Udper: its sockets are made for discover, or for listen_and_respond.
pub data Use : Type 0 where
  discovers responds destroys : Use

-- Any history of it
unfoldable pub used : Os → List Use → Udper → Udper
used o [] u = u
used o (discovers ∷ uses) u = used o uses (ready o u).1
used o (responds ∷ uses) u = used o uses (ready_server o u).1
used o (destroys ∷ uses) u = used o uses (destroy o u)
