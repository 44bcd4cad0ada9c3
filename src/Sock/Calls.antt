-- ===== src/Sock/Calls.antt =====
-- common/sock.h and common/sock.cpp: the state of a socket and its calls of the operating system. What a
-- call returns depends on the calls made before; the calls of a socket are logged, the last one first.
use the_multi_room_speaker.Base.{
  ℕ, zero, suc, ◌+◌, ◌≡◌, Bool, true, false, ◌&&◌, List, [], ◌∷◌, ltb, ◌==◌, if◌then◌else◌,
}
use the_multi_room_speaker.Base.Int.{ℤ, pos, negsuc, pos_part, neg_part}

-- An address and a port, in the machine's order.
pub record Addr : Type 0 where
  pub ip : ℕ
  pub port : ℕ

abbrev pub no_addr : Addr
no_addr = record { ip = 0; port = 0 }

-- The calls, with the descriptor that they are given.
pub data Call : Type 0 where
  socket_stream : Call
  socket_dgram : ℕ → Call
  accept_from : ℤ → Call
  close_fd : ℤ → Call
  connect_fd bind_fd : ℤ → Addr → Call
  listen_fd : ℤ → ℕ → Call
  shutdown_fd peer_name recv_fd select_fd get_flags set_fd_flags : ℤ → Call
  set_nonblock : ℤ → Bool → Call
  set_opt : ℤ → ℕ → ℕ → Call
  get_opt : ℤ → ℕ → Call
  set_ip_opt : ℤ → ℕ → ℕ → Call
  send_to : ℤ → Addr → ℕ → Call
  send_fd : ℤ → ℕ → Call
  recv_from : ℤ → Call
  resolve unlink_name : List ℕ → Call
  pause : ℕ → Call

-- What a call returns, errno after it, and for select whether FD_ISSET holds.
pub record Answer : Type 0 where
  pub ret : ℤ
  pub errno : ℕ
  pub is_set : Bool

abbrev pub Log : Type 0
Log = List (Call × ℤ)

-- Is it 0?
abbrev pub is_zero : ℤ → Bool
is_zero z = pos_part z + neg_part z == 0

-- The operating system: what it answers, how many calls of recv will still find something once a socket
-- was shut down, and how often the callback of a connect will let it go on waiting. The program has its
-- standard input open, so that no new descriptor is 0, which the code takes for no descriptor.
pub record Os : Type 0 where
  pub ask : Log → Call → Answer
  pub backlog : Log → ℕ
  pub patience : Log → ℕ
  pub stream_spares : (l : Log) → is_zero (ask l socket_stream).ret ≡ false
  pub dgram_spares : (l : Log) (proto : ℕ) → is_zero (ask l (socket_dgram proto)).ret ≡ false
  pub accept_spares : (l : Log) (f : ℤ) → is_zero (ask l (accept_from f)).ret ≡ false

-- sock and tcp_cli_sock: _thesock, _set, _error, _blocking, _buffers, _local_sin, _remote_sin, _hostent (0
-- is the null pointer), _connecting and _connected.
pub record Net : Type 0 where
  pub thesock : ℤ
  pub set_mask : ℕ
  pub error : ℕ
  pub blocking : ℕ
  pub snd_buffer : ℕ
  pub rcv_buffer : ℕ
  pub local_sin : Addr
  pub remote_sin : Addr
  pub hostent : ℤ
  pub connecting : ℤ
  pub connected : Bool
  pub log : Log

-- The constructors of sock and tcp_cli_sock.
abbrev pub fresh : Net
fresh = record {
  thesock = negsuc 0;
  set_mask = 0;
  error = 0;
  blocking = 0;
  snd_buffer = 0;
  rcv_buffer = 0;
  local_sin = no_addr;
  remote_sin = no_addr;
  hostent = pos 0;
  connecting = pos 0;
  connected = false;
  log = [];
}

-- Is it -1?
abbrev pub is_minus_one : ℤ → Bool
is_minus_one z = neg_part z == 1

-- _thesock > 0, which is isopen()
abbrev pub is_open : Net → Bool
is_open n = ltb 0 (pos_part n.thesock)

abbrev pub note : Call → ℤ → Net → Net
note call r n = record n { log = (call, r) ∷ n.log }

-- A call whose result is not looked at.
unfoldable pub call : Os → Call → Net → Net
call o c n = note c (o.ask n.log c).ret n

abbrev pub so_reuseaddr : ℕ
so_reuseaddr = 2

abbrev pub so_sndbuf : ℕ
so_sndbuf = 7

abbrev pub so_rcvbuf : ℕ
so_rcvbuf = 8

-- EINPROGRESS, which WOULDBLOCK is too.
abbrev pub einprogress : ℕ
einprogress = 115

-- sock::set_blocking(block)
unfoldable pub set_blocking : Os → ℕ → Net → Net
unfolding call
set_blocking o block n =
    let n' = record n { blocking = block } in
    if is_open n
    then call o (set_nonblock n.thesock (block == 0)) (call o (get_flags n.thesock) n')
    else n'

-- sock::set_option(option, optionval)
unfoldable pub set_option : Os → ℕ → ℕ → Net → ℤ × Net
unfolding call
set_option o option value n =
    let c = set_opt n.thesock option value in
    if is_open n then ((o.ask n.log c).ret, call o c n) else (negsuc 0, n)

-- sock::get_option(option); `value` is what getsockopt stores.
unfoldable pub get_option : Os → ℕ → ℤ → Net → ℤ × Net
unfolding call
get_option o option value n =
    let c = get_opt n.thesock option in
    let r = (o.ask n.log c).ret in
    if is_open n
    then (if pos_part r + neg_part r == 0 then (value, call o c n) else (negsuc 0, call o c n))
    else (negsuc 0, n)

-- sock::set_mtu(mtu)
unfoldable pub set_mtu : Os → ℕ → Net → Net
unfolding call
set_mtu o mtu n =
    if is_open n
    then call o (set_opt n.thesock so_rcvbuf mtu) (call o (set_opt n.thesock so_sndbuf mtu) n)
    else n

-- The sizes that pre_set has left, if both are given.
unfoldable pub set_buffers : Os → Net → Net
unfolding set_option
set_buffers o n =
    if ltb 0 n.snd_buffer && ltb 0 n.rcv_buffer
    then (set_option o so_rcvbuf n.rcv_buffer (set_option o so_sndbuf n.snd_buffer n).1).1
    else n

-- while(-1==::close(_thesock) && --k>0), where `k` more tries are left after this one.
unfoldable pub close_loop : Os → ℕ → Net → Net
unfolding call
close_loop o zero n = call o (close_fd n.thesock) n
close_loop o (suc k) n =
    let a = o.ask n.log (close_fd n.thesock) in
    let n' = call o (close_fd n.thesock) n in
    let more = close_loop o k (call o (pause 255) (record n' { error = a.errno })) in
    if is_minus_one a.ret then more else n'

-- sock::destroy(bool)
unfoldable pub sock_destroy : Os → Net → Bool × Net
sock_destroy o n =
    let n' = record n { set_mask = 0 } in
    if is_open n
    then (true, record (close_loop o 31 n') { thesock = negsuc 0 })
    else (false, record n' { thesock = negsuc 0 })

-- do n = recv(...) while(n > 0)
unfoldable pub drain : Os → ℕ → Net → Net
unfolding call
drain o zero n = call o (recv_fd n.thesock) n
drain o (suc more) n = drain o more (call o (recv_fd n.thesock) n)

-- What both kinds of socket do before sock::destroy: the connection is shut down, and if asked for, what
-- still comes in is read with the socket not blocking, the connection is shut down again, and the socket
-- blocks as before.
unfoldable pub empty_out : Os → Bool → Net → Net
empty_out o emptyit n =
    let n1 = call o (shutdown_fd n.thesock) n in
    let n2 = set_blocking o 0 n1 in
    let n3 = call o (shutdown_fd n.thesock) (drain o (o.backlog n2.log) n2) in
    if emptyit then set_blocking o n.blocking n3 else n1

-- tcp_cli_sock::destroy(emptyit)
unfoldable pub cli_destroy : Os → Bool → Net → Bool × Net
cli_destroy o emptyit n =
    if is_open n
    then sock_destroy o (empty_out o emptyit (record n { connecting = pos 0; connected = false }))
    else (false, n)

-- tcp_srv_sock::destroy(emptyit)
unfoldable pub srv_destroy : Os → Bool → Net → Bool × Net
srv_destroy o emptyit n = if is_open n then sock_destroy o (empty_out o emptyit n) else (false, n)
