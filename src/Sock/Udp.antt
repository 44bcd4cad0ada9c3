-- ===== src/Sock/Udp.antt =====
-- common/sock.h and common/sock.cpp, udp_sock: a socket for datagrams. `none` is a failed assertion, at which
-- the program ends. A text that may be a null pointer is an option of what inet_addr makes of it. What comes
-- in is not looked at; `from` is the address that recvfrom has stored.
use the_multi_room_speaker.Base.{
  ℕ, zero, suc, ◌+◌, Bool, true, false, ◌&&◌, Option, none, some, ltb, ◌==◌, if◌then◌else◌, u16_mod,
  u32_mod, ◌%◌, ◌-◌,
}
use the_multi_room_speaker.Base.Int.{ℤ, pos, negsuc, pos_part, neg_part, ◌-ℤ◌}
use the_multi_room_speaker.Sock.Address.{Saddr, is_eq}
use the_multi_room_speaker.Sock.Calls.{
  Addr, no_addr, socket_dgram, bind_fd, connect_fd, send_to, send_fd, recv_fd, recv_from, select_fd,
  pause, Call, Answer, Os, Net, fresh, is_minus_one, is_open, call, set_blocking, sock_destroy,
}

-- A sock, whose `connected` is _connected of udp_sock; _bind, and the mask of _remote_sin.
pub record Udp : Type 0 where
  pub net : Net
  pub bound : Bool
  pub mask : ℕ

abbrev pub new_udp : Udp
new_udp = record { net = fresh; bound = false; mask = u32_mod - 1 }

-- A call, its answer, and errno after it if it failed.
unfoldable pub tried : Os → Call → Net → Answer × Net
unfolding call
tried o c n =
    let a = o.ask n.log c in
    let n' = call o c n in (a, if is_minus_one a.ret then record n' { error = a.errno } else n')

-- assert(_thesock<=0), and `_thesock = ::socket(AF_INET, SOCK_DGRAM, proto)`; the address is `here` if there
-- is a socket.
unfoldable pub open_dgram : Os → (proto : ℕ) (here : Addr) → Udp → Option (ℤ × Udp)
unfolding call
open_dgram o proto here u =
    let n = record (u.net) { error = 0 } in
    let fd = (o.ask n.log (socket_dgram proto)).ret in
    let n1 = record (call o (socket_dgram proto) n) { thesock = fd } in
    if is_open u.net
    then none
    else if is_minus_one fd
    then some (negsuc 0, record u { net = n1 })
    else some (fd, record u { net = record n1 { local_sin = here } })

-- udp_sock::create(r, proto)
unfoldable pub udp_create_at : Os → Addr → (proto : ℕ) → Udp → Option (ℤ × Udp)
unfolding open_dgram
udp_create_at o r proto u = open_dgram o proto r u

-- udp_sock::create(port, proto, addr)
unfoldable pub udp_create : Os → (port proto : ℕ) (addr : Option ℕ) → Udp → Option (ℤ × Udp)
unfolding open_dgram
udp_create o port proto addr u =
    let ip : ℕ = elim addr [ none ↦ 0 | some i ↦ i ] in
    open_dgram o proto (record { ip = ip; port = port % u16_mod }) u

-- udp_sock::bind(addr, port)
unfoldable pub udp_bind : Os → (addr : Option ℕ) (port : ℕ) → Udp → Option (ℤ × Udp)
unfolding call
udp_bind o addr port u =
    let here : Addr = record {
      ip = elim addr [ none ↦ u.net.local_sin.ip | some i ↦ i ];
      port = if port == 0 then u.net.local_sin.port else port % u16_mod;
    } in
    let n = record (u.net) { local_sin = here } in
    let a = o.ask n.log (bind_fd n.thesock here) in
    let n' = call o (bind_fd n.thesock here) n in
    if here.port == 0
    then none
    else if pos_part a.ret + neg_part a.ret == 0
    then some (n'.thesock, record u { net = n' })
    else some (negsuc 0, record u { net = record n' { error = a.errno } })

-- udp_sock::sendall(buff, length, tout)
unfoldable pub udp_sendall : Os → (len : ℕ) → Udp → ℤ × Udp
unfolding tried
udp_sendall o len u =
    let (a, n) = tried o (send_to u.net.thesock u.net.remote_sin len) u.net in
    (a.ret -ℤ pos len, record u { net = n })

-- udp_sock::send(buff, length, port, ip)
unfoldable pub udp_send : Os → (len port : ℕ) (ip : Option ℕ) → Udp → ℤ × Udp
unfolding tried
udp_send o len port ip u =
    let n = record (u.net) { error = 0 } in
    let all : ℕ = u32_mod - 1 in
    let there : Addr = record { ip = elim ip [ none ↦ all | some i ↦ i ]; port = port % u16_mod } in
    let aimed : Net = if u.bound then n else record n { remote_sin = there } in
    let (a, n1) = tried o (send_fd n.thesock len) n in
    let (b, n2) = tried o (send_to n.thesock aimed.remote_sin len) aimed in
    if n.connected then (a.ret, record u { net = n1 }) else (b.ret, record u { net = n2 })

abbrev pub saddr : ℕ → Addr → Saddr
saddr mask a = record { s_addr = a.ip; sin_port = a.port; mask = mask }

-- udp_sock::send(buff, length, rsin), where rsin was not read from a range of addresses.
unfoldable pub udp_send_at : Os → (len : ℕ) (rsin : Addr) → Udp → ℤ × Udp
unfolding tried is_eq
udp_send_at o len rsin u =
    let n = record (u.net) { error = 0 } in
    let (a, n1) = tried o (send_fd n.thesock len) n in
    let (b, n2) = tried o (send_to n.thesock rsin len) n in
    if n.connected && is_eq (saddr (u32_mod - 1) rsin) (saddr u.mask n.remote_sin)
    then (a.ret, record u { net = n1 })
    else (b.ret, record u { net = n2 })

-- udp_sock::receive(buff, length, rsin): the address too.
unfoldable pub udp_receive_at : Os → (from rsin : Addr) → Udp → ℤ × Addr × Udp
unfolding tried
udp_receive_at o from rsin u =
    let (a, n1) = tried o (recv_fd u.net.thesock) u.net in
    let (b, n2) = tried o (recv_from u.net.thesock) u.net in
    let sender : Addr = if is_minus_one b.ret then rsin else from in
    if u.net.connected
    then (a.ret, rsin, record u { net = n1 })
    else (b.ret, sender, record u { net = n2 })

-- udp_sock::receive(unsigned char*, length, port, ip). recvfrom stores the sender's address over the one
-- that was set; where none was, the mask of _remote_sin has been set to zero with it.
unfoldable pub udp_receive : Os → (from : Addr) (port : ℕ) (ip : Option ℕ) → Udp → ℤ × Udp
unfolding tried
udp_receive o from port ip u =
    let n = record (u.net) { error = 0 } in
    let asked : Addr = elim ip [
      | none ↦ no_addr
      | some i ↦ record { ip = i; port = port % u16_mod }
    ] in
    let (a, n1) = tried o (recv_fd n.thesock) n in
    let (b, n2) = tried o (recv_from n.thesock) n in
    let sender : Addr = if is_minus_one b.ret then asked else from in
    if n.connected then (a.ret, record u { net = n1 }) else (
      b.ret,
      record u {
        net = record n2 { remote_sin = sender };
        mask = elim ip [ none ↦ 0 | some i ↦ u.mask ];
      },
    )

-- udp_sock::receive(char*, length, port, ip): with _bind set errno is not kept.
unfoldable pub udp_receive_text : Os → (from : Addr) (port : ℕ) (ip : Option ℕ) → Udp → ℤ × Udp
unfolding udp_receive call
udp_receive_text o from port ip u =
    let r = (o.ask u.net.log (recv_from u.net.thesock)).ret in
    let n = call o (recv_from u.net.thesock) u.net in
    let sender : Addr = if is_minus_one r then n.remote_sin else from in
    let received = udp_receive o from port ip u in
    if u.bound then (r, record u { net = record n { remote_sin = sender } }) else received

-- udp_sock::is_set(to): -1 is returned as a bool.
unfoldable pub udp_is_set : Os → Udp → Bool × Udp
unfolding call
udp_is_set o u =
    let a = o.ask u.net.log (select_fd u.net.thesock) in
    let u' = record u { net = call o (select_fd u.net.thesock) u.net } in
    (if ltb 0 (neg_part a.ret) then true else (ltb 0 (pos_part a.ret) && a.is_set), u')

-- udp_sock::set_rsin(sip, port)
unfoldable pub set_rsin : (ip port : ℕ) → Udp → Udp
set_rsin ip port u = record u {
  net = record (u.net) {
    connected = false;
    remote_sin = record { ip = ip; port = port % u16_mod };
  };
  bound = true;
}

-- udp_sock::destroy(be)
unfoldable pub udp_destroy : Os → Udp → Bool × Udp
udp_destroy o u =
    let (done, n) = sock_destroy o u.net in
    (done, record u { net = record n { connected = false } })

-- while(cbCall(pUser, time(0)-ti)) of connect, which lets it wait `more` times: whether the socket is writable.
unfoldable pub until_writable : Os → (more : ℕ) → Net → Bool × Net
unfolding call
until_writable o zero n = (false, n)
until_writable o (suc more) n =
    let a = o.ask n.log (select_fd n.thesock) in
    let n' = call o (select_fd n.thesock) n in
    let rest = until_writable o more (call o (pause 10000) n') in
    if ltb 0 (pos_part a.ret) && a.is_set then (true, n') else rest

-- udp_sock::connect(sip, port, cbCall, pUser). What ::connect returns is not looked at; the socket does not
-- block until the end, where it gets back what it had.
-- `shut` is the virtual destroy.
unfoldable pub udp_connect : Os → (shut : Udp → Udp) → (ip port : ℕ) → Udp → ℤ × Udp
unfolding until_writable call
udp_connect o shut ip port u =
    let there : Addr = record { ip = ip; port = port % u16_mod } in
    let quick = set_blocking o 0 (record (u.net) { connected = false; remote_sin = there }) in
    let n = call o (connect_fd quick.thesock there) quick in
    let (ready, n1) = until_writable o (o.patience n.log) n in
    let closed = shut (record u { net = n1 }) in
    if ready
    then (pos 0, record u { net = set_blocking o u.net.blocking (record n1 { connected = true }) })
    else (negsuc 0, record closed { net = set_blocking o u.net.blocking closed.net })
