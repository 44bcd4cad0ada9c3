-- ===== src/Sock/Create.antt =====
-- common/sock.cpp: how sockets come to be, tcp_sock, tcp_srv_sock and tcp_cli_sock. `none` is a failed
-- assertion, at which the program ends.
use the_multi_room_speaker.Base.{
  ℕ, Bool, true, ◌&&◌, Option, none, some, ltb, ◌==◌, if◌then◌else◌, u16_mod, ◌%◌,
}
use the_multi_room_speaker.Base.Int.{ℤ, pos, negsuc, pos_part, neg_part}
use the_multi_room_speaker.Sock.Calls.{
  Addr, no_addr, socket_stream, accept_from, bind_fd, listen_fd, set_opt, Os, Net, is_minus_one,
  is_open, call, set_buffers, srv_destroy,
}

-- `_thesock = ::socket(AF_INET, SOCK_STREAM, 0)`, with what errno is after it.
unfoldable pub open_stream : Os → Net → ℕ × Net
open_stream o n =
    let a = o.ask n.log socket_stream in
    (a.errno, record (call o socket_stream n) { thesock = a.ret })

-- ::setsockopt(_thesock, SOL_SOCKET, opt, 1), if an option is asked for.
unfoldable pub set_flag : Os → ℕ → Net → Net
set_flag o opt n = if opt == 0 then n else call o (set_opt n.thesock opt 1) n

-- tcp_sock::create(port, opt), where `remote` is no address, and tcp_sock::create(r, opt).
unfoldable pub tcp_create : Os → (remote : Addr) → ℕ → Net → Option (ℤ × Net)
tcp_create o remote opt n =
    let (errno, n1) =
      open_stream o (record n { error = 0; local_sin = no_addr; remote_sin = remote }) in
    let n2 = if ltb 0 (neg_part n1.thesock) then record n1 { error = errno } else n1 in
    let flagged = set_flag o opt n2 in
    let sized = set_buffers o flagged in
    let used : Bool = ltb 0 n.snd_buffer && ltb 0 n.rcv_buffer in
    let n3 = if used then record sized { snd_buffer = 0; rcv_buffer = 0 } else sized in
    if is_open n then none else some (n2.thesock, if opt == 0 then n2 else n3)

-- tcp_sock::listen(maxpending)
unfoldable pub tcp_listen : Os → ℕ → Net → ℤ × Net
tcp_listen o maxpending n =
    let c = listen_fd n.thesock maxpending in
    let a = o.ask n.log c in
    let n' = call o c (record n { error = 0 }) in
    if is_minus_one a.ret then (negsuc 0, record n' { error = a.errno }) else (pos 0, n')

-- tcp_srv_sock::create(port, opt, iface); `iface` is the address that inet_aton finds, or INADDR_ANY.
unfoldable pub srv_create : Os → (port opt iface : ℕ) → Net → Option (ℤ × Net)
srv_create o port opt iface n =
    let (errno, n1) = open_stream o (record n { error = 0; remote_sin = no_addr }) in
    let here : Addr = record { ip = iface; port = port % u16_mod } in
    let n2 = set_flag o opt (record n1 { local_sin = here }) in
    let a = o.ask n2.log (bind_fd n2.thesock here) in
    let n3 = call o (bind_fd n2.thesock here) n2 in
    if is_open n
    then none
    else if is_open n1
    then (if ltb 0 (neg_part a.ret)
        then some (negsuc 0, (srv_destroy o true (record n3 { error = a.errno })).1)
        else some (n3.thesock, n3))
    else some (negsuc 0, record n1 { local_sin = no_addr; error = errno })

-- tcp_srv_sock::accept(cliSock): the server's socket and the client's, whose descriptor it becomes. The
-- sizes are set on the server's socket, and both know of the calls.
unfoldable pub srv_accept : Os → (peer : Addr) → Net → Net → ℤ × Net × Net
srv_accept o peer srv cli =
    let a = o.ask srv.log (accept_from srv.thesock) in
    let accepted : Bool = ltb 0 (pos_part a.ret) in
    let heard = record (call o (accept_from srv.thesock) srv) {
      error = if accepted then 0 else a.errno;
    } in
    let srv' = set_buffers o heard in
    (
      a.ret,
      srv',
      record cli {
        thesock = a.ret;
        remote_sin = if accepted then peer else no_addr;
        log = srv'.log;
      },
    )

-- tcp_cli_sock::create(port, opt, iface)
unfoldable pub cli_create : Os → ℕ → Net → Option (ℤ × Net)
cli_create o opt n =
    let (errno, n1) = open_stream o (record n { hostent = pos 0 }) in
    let n2 = set_flag o opt n1 in
    if is_open n
    then none
    else if is_open n1
    then some (n2.thesock, n2)
    else some (negsuc 0, record n1 { error = errno })
