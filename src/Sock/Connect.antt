-- ===== src/Sock/Connect.antt =====
-- common/sock.cpp: how tcp_cli_sock connects. `none` is a failed assertion, at which the program ends.
use the_multi_room_speaker.Base.{
  ℕ, zero, suc, ◌+◌, Bool, true, false, ◌&&◌, not, Option, none, some, List, [], ltb, ◌==◌,
  if◌then◌else◌, u16_mod, ◌%◌,
}
use the_multi_room_speaker.Base.Int.{ℤ, pos, negsuc, pos_part, neg_part}
use the_multi_room_speaker.Sock.Calls.{
  Addr, connect_fd, select_fd, peer_name, resolve, pause, Os, Net, is_minus_one, is_open, call,
  einprogress, set_blocking, set_buffers, cli_destroy,
}
use the_multi_room_speaker.Sock.Create.{open_stream}

-- tcp_cli_sock::is_really_connected()
unfoldable pub is_really_connected : Os → Net → Bool × Net
is_really_connected o n =
    let r = (o.ask n.log (peer_name n.thesock)).ret in
    let n' = call o (peer_name n.thesock) n in
    if is_open n && not n.connected
    then (if pos_part r + neg_part r == 0
        then (true, record n' { connected = true })
        else (false, n'))
    else (n.connected, n)

-- ::connect(_thesock, &_remote_sin), and errno after it.
unfoldable pub connect_call : Os → Net → ℤ × ℕ × Net
connect_call o n =
    let c = connect_fd n.thesock n.remote_sin in
    let a = o.ask n.log c in (a.ret, a.errno, call o c n)

-- raw_connect_sin, once it has a socket.
unfoldable pub sin_dial : Os → Net → ℤ × Net
sin_dial o n =
    let used : Bool = ltb 0 n.snd_buffer && ltb 0 n.rcv_buffer in
    let sized = set_buffers o n in
    let n2 = record sized {
      snd_buffer = if used then 0 else n.snd_buffer;
      rcv_buffer = if used then 0 else n.rcv_buffer;
      connecting = pos 0;
    } in
    let (rv, err, n3) = connect_call o (set_blocking o 0 n2) in
    let waits : Bool = err == einprogress in
    let failed = record n3 { error = err; connecting = if waits then pos 1 else pos 0 } in
    if is_minus_one rv
    then (if waits then negsuc 0 else pos 0, set_blocking o n.blocking failed)
    else (n3.thesock, set_blocking o n.blocking n3)

-- tcp_cli_sock::raw_connect_sin()
unfoldable pub raw_connect_sin : Os → Net → Option (ℤ × Net)
raw_connect_sin o n =
    let (errno, n1) = open_stream o (record n { error = 0; connecting = pos 0 }) in
    if is_open n
    then none
    else if ltb 0 (neg_part n1.thesock)
    then some (pos 0, record n1 { error = errno })
    else some (sin_dial o n1)

-- What is made of a connect that returned -1, in raw_connect: with a time-out, select waits for the
-- socket to be writable.
unfoldable pub raw_waited : Os → (tout err : ℕ) → Net → ℤ × Net
raw_waited o tout err n =
    let a = o.ask n.log (select_fd n.thesock) in
    let asked = if tout == 0 then n else call o (select_fd n.thesock) n in
    let ready : Bool = not (tout == 0) && ltb 0 (pos_part a.ret) && a.is_set in
    if err == einprogress
    then (if ready then (n.thesock, asked) else (negsuc 0, record asked { connecting = pos 1 }))
    else (pos 0, n)

-- raw_connect, once it has a socket.
unfoldable pub raw_dial : Os → Addr → (tout : ℕ) → Net → ℤ × Net
raw_dial o saddr tout n =
    let n2 = record (set_blocking o 0 (set_buffers o n)) { remote_sin = saddr } in
    let (rv, err, n3) = connect_call o n2 in
    let (r, n4) = raw_waited o tout err (record n3 { error = err }) in
    if is_minus_one rv
    then (r, set_blocking o n.blocking n4)
    else (n3.thesock, set_blocking o n.blocking n3)

-- tcp_cli_sock::raw_connect(saddr, tout)
unfoldable pub raw_connect : Os → Addr → (tout : ℕ) → Net → ℤ × Net
raw_connect o saddr tout n =
    let n0 = record n { error = 0; connecting = pos 0 } in
    let (errno, made) = open_stream o n0 in
    if is_minus_one n.thesock
    then (if ltb 0 (neg_part made.thesock)
        then (pos 0, record made { error = errno })
        else raw_dial o saddr tout made)
    else raw_dial o saddr tout n0

-- try_connect, once it has the host's address.
unfoldable pub try_dial : Os → (ip port : ℕ) → Net → ℤ × Net
try_dial o ip port n =
    let there : Addr = record { ip = ip; port = port % u16_mod } in
    let n1 =
      set_blocking o n.blocking (record n { hostent = pos 1; connecting = pos 0; error = 0 }) in
    let (rv, err, n2) = connect_call o (record n1 { remote_sin = there }) in
    if is_minus_one rv
    then (if err == einprogress
        then (negsuc 0, record n2 { error = err; connecting = pos 1 })
        else (pos 0, record n2 { error = err }))
    else (n2.thesock, record n2 { connecting = pos 0 })

-- tcp_cli_sock::try_connect(sip, port): `host` is what gethostbyname and gethostbyaddr give, if anything.
unfoldable pub try_connect :
    Os → (sip : List ℕ) (host : Option ℕ) (port : ℕ) → Net → Option (ℤ × Net)
try_connect o sip host port n =
    let n1 = call o (resolve sip) n in
    let tried : ℤ × Net = elim host [
      | none ↦ (pos 0, record n1 { hostent = pos 0 })
      | some ip ↦ try_dial o ip port n1
    ] in
    if is_open n then some tried else none

-- The loop in which s4connect and i4connect wait: whether select found the socket writable, the last
-- `err`, and the state. The callback lets it go on `patience` times.
unfoldable pub wait_writable : Os → (patience : ℕ) (err : ℤ) → Net → Bool × ℤ × Net
wait_writable o zero err n = (false, err, n)
wait_writable o (suc more) err n =
    let a = o.ask n.log (select_fd n.thesock) in
    let n' = call o (select_fd n.thesock) n in
    let rest = wait_writable o more a.ret (call o (pause 10000) n') in
    if ltb 0 (pos_part a.ret) && a.is_set then (true, a.ret, n') else rest

-- if(err==-1) destroy, return 0; else return _thesock. s4connect `resets` _connecting before destroy.
unfoldable pub settle : Os → (resets : Bool) → (err : ℤ) → Net → ℤ × Net
settle o resets err n =
    if is_minus_one err
    then (
      pos 0,
      (cli_destroy o true (record n { connecting = if resets then pos 0 else n.connecting })).1,
    )
    else (n.thesock, record n { connecting = pos 0 })

-- What is done while the connection is in progress. `at_once` is the test pUser==(void*)-1 of s4connect.
unfoldable pub await : Os → (at_once resets : Bool) → (rv : ℤ) → Net → ℤ × Net
await o at_once resets rv n0 =
    let n = record n0 { connecting = pos 1 } in
    let (ready, err, n') = wait_writable o (o.patience n.log) rv n in
    if at_once
    then (negsuc 0, n)
    else if ready
    then (n'.thesock, record n' { connecting = pos 0 })
    else settle o resets err n'

-- From ::connect on, as s4connect and i4connect have it: what is returned.
unfoldable pub finish_connect : Os → (at_once resets : Bool) → Net → ℤ × Net
finish_connect o at_once resets n =
    let (rv, errno, n1) = connect_call o (record n { connecting = pos 0 }) in
    let n2 = record n1 { error = if is_minus_one rv then errno else n.error } in
    if n2.error == einprogress then await o at_once resets rv n2 else settle o resets rv n2

-- if(0==_hostent) _hostent = lookup of a host
unfoldable pub look_up : Os → List ℕ → Net → Net
look_up o name n =
    let r = (o.ask n.log (resolve name)).ret in
    if pos_part n.hostent + neg_part n.hostent == 0
    then record (call o (resolve name) n) { hostent = r }
    else n

-- s4connect, once it has a socket: `ip` is the address that inet_aton reads in `sip`, if it can.
unfoldable pub s4_dial :
    Os → (at_once : Bool) (sip : List ℕ) (ip : Option ℕ) (port : ℕ) → Net → ℤ × Net
s4_dial o at_once sip ip port n =
    let n1 = look_up o sip (set_blocking o n.blocking n) in
    let there : Addr = record {
      ip = elim ip [ none ↦ n1.remote_sin.ip | some a ↦ a ];
      port = port % u16_mod;
    } in
    let (r, n2) =
      finish_connect o at_once true (set_blocking o 0 (record n1 { remote_sin = there })) in
    (r, set_blocking o n1.blocking n2)

-- i4connect, once it has a socket.
unfoldable pub i4_dial : Os → Addr → Net → ℤ × Net
i4_dial o addr n =
    let n1 = look_up o [] (record n { remote_sin = addr }) in
    let (r, n2) = finish_connect o false false (set_blocking o 0 n1) in
    (r, set_blocking o n1.blocking n2)

-- if(_thesock != -1) destroy()
unfoldable pub hang_up : Os → Net → Net
hang_up o n = if is_minus_one n.thesock then n else (cli_destroy o true n).1

-- A new socket in the place of the old one, and `dial` with it.
unfoldable pub redial : Os → (dial : Net → ℤ × Net) → Net → Option (ℤ × Net)
redial o dial n =
    let (errno, n1) = open_stream o (record (hang_up o n) { error = 0 }) in
    if is_open (hang_up o n)
    then none
    else if ltb 0 (neg_part n1.thesock)
    then some (pos 0, record n1 { error = errno })
    else some (dial n1)

-- tcp_cli_sock::s4connect(sip, port, cbCall, pUser)
unfoldable pub s4connect :
    Os → (at_once : Bool) (sip : List ℕ) (ip : Option ℕ) (port : ℕ) → Net → Option (ℤ × Net)
s4connect o at_once sip ip port n = redial o (s4_dial o at_once sip ip port) n

-- tcp_cli_sock::i4connect(addr, cbCall, pUser)
unfoldable pub i4connect : Os → Addr → Net → Option (ℤ × Net)
i4connect o addr n = redial o (i4_dial o addr) n

-- tcp_cli_sock::connect(sip, port, cbCall, pUser): the host's address, if one is found, goes on to
-- s4connect as a text that has ":0" at its end, which `text` gives.
unfoldable pub cli_connect :
    Os
    → (text : ℕ → List ℕ) (aton : List ℕ → Option ℕ) (sip : List ℕ) (host : Option ℕ) (port : ℕ)
    → Net
    → Option (ℤ × Net)
cli_connect o text aton sip host port n =
    let n1 = call o (resolve sip) (record n { connecting = pos 1; error = 0 }) in
    let a = o.ask n.log (resolve sip) in
    elim host [
      | none ↦ some (pos 0, record n1 { hostent = pos 0; connecting = pos 0; error = a.errno })
      | some ip ↦ s4connect o false (text ip) (aton (text ip)) port (record n1 { hostent = pos 1 })
    ]
