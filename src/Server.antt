-- ===== src/Server.antt =====
-- srv/tcpsrv.h and srv/tcpsrv.cpp: the server's clients, the pilot among them, and what each is sent.
-- Descriptors, readiness, the clock and what arrives are the environment's, given as arguments.
pub mod Pilots
pub mod Reconnect
pub mod Sends
pub mod Listen
pub mod Listening
pub mod Hosting
pub mod Owned
pub mod Visited
use the_multi_room_speaker.Base.{
  ℕ, zero, suc, ◌+◌, ◌-◌, ◌*◌, ◌/◌, ◌%◌, Bool, true, false, ◌||◌, ◌&&◌, not, Option, none, some,
  List, [], ◌∷◌, ltb, ◌==◌, if◌then◌else◌, length, u16_mod, sub_size, add_size,
}
use the_multi_room_speaker.Base.Int.{ℤ, pos, sub_ℕ, pos_part, neg_part}
use the_multi_room_speaker.Wire.{BufHdr, zero_hdr, sync_data, alive_data, qos_to}

-- A closed socket is -1, here `none`.
pub record Clictx : Type 0 where
  pub sock : Option ℕ
  pub dirty : Bool
  pub req : BufHdr
  pub index : ℕ

-- What the server keeps of the pilot: _pilotseq, _pilotping, _pilot_opt_skew, _pilot_qlen, _pilot_qsz,
-- _pilot_qoptim.
pub record Pilot : Type 0 where
  pub seq : ℕ
  pub ping : ℕ
  pub opt_skew : ℤ
  pub qlen : ℕ
  pub qsz : ℕ
  pub qoptim : ℕ

abbrev pub no_pilot : Pilot
no_pilot = record { seq = 0; ping = 0; opt_skew = pos 0; qlen = 0; qsz = 0; qoptim = 0 }

-- `_clis`, a map by IPv4 address, as the list of its entries in the map's order.
abbrev pub Clients : Type 0
Clients = List (ℕ × Clictx)

pub record TcpSrv : Type 0 where
  pub clis : Clients
  pub dirty : Bool
  pub newclient : Bool
  pub last_qos : ℕ
  pub pilot : Pilot

-- _clis[ip] = c
unfoldable pub assign {ℓ} : {A : Type ℓ} → ℕ → A → List (ℕ × A) → List (ℕ × A)
assign ip c [] = (ip, c) ∷ []
assign ip c ((j, d) ∷ m) =
    if ltb ip j
    then (ip, c) ∷ (j, d) ∷ m
    else if ip == j
    then (ip, c) ∷ m
    else (j, d) ∷ assign ip c m

-- A reconnected client: Clictx(TcpSrv*), then dirty_it(), with the index that it is given.
unfoldable pub new_client : ℕ → ℕ → Clictx
new_client fd index = record { sock = some fd; dirty = true; req = zero_hdr; index = index }

-- TcpSrv::pool, a connection that was accepted: a client of the same address is replaced.
unfoldable pub accept : ℕ → ℕ → TcpSrv → TcpSrv
unfolding assign new_client
accept fd ip s = record s {
  clis = assign ip (new_client fd (length s.clis)) s.clis;
  newclient = true;
  pilot = no_pilot;
}

-- Clictx::rec: `rt` is what receiveall returned, `req` the request as it left it, `now` tick_count(1000).
-- The client, what the server keeps of the pilot, and the value returned.
unfoldable pub rec : ℕ → ℕ → BufHdr → Clictx → Pilot → Clictx × Pilot × ℤ
rec rt now req c p =
    let ping = sub_size now req.srv_tick in
    let led : Pilot = record {
      seq = req.cur_seq;
      ping = ping;
      opt_skew = sub_ℕ req.cli_qoptim req.cli_qlen;
      qlen = req.cli_qlen;
      qsz = req.cli_qsize;
      qoptim = req.cli_qoptim;
    } in
    let p' : Pilot = if c.index == 0 then led else p in
    let req' : BufHdr = record req {
      cli_ping = ping;
      is_pilot = c.index == 0;
      buf_len = pos 0;
      pilot_ping = p'.ping;
      pilot_seq = p'.qsz;
    } in
    if rt == 0
    then (record c { sock = none; dirty = true }, p, pos 0)
    else if req.frm_sig == sync_data
    then (record c { req = req' }, p', if c.index == 0 then p'.opt_skew else pos 0)
    else (record c { req = req }, p, pos 0)

-- One round of select: whether a connection waits and what accept gives for it, which descriptors are
-- readable (FD_ISSET is also asked for the -1 of a closed client), what receiveall finds for each
-- address, and the clock.
pub record Round : Type 0 where
  pub selected : ℤ
  pub errno : ℕ
  pub connects : Bool
  pub accepted : Option (ℕ × ℕ)
  pub ready : Option ℕ → Bool
  pub received : ℕ → ℕ × BufHdr
  pub now : ℕ → ℕ

-- The loop `s.second->rec(this)` over the clients that are readable.
unfoldable pub receive_each : Round → Clients → Pilot → Clients × Pilot
unfolding rec
receive_each r [] p = ([], p)
receive_each r ((ip, c) ∷ m) p =
    let got = rec (r.received ip).0 (r.now ip) (r.received ip).1 c p in
    let c' : Clictx = if r.ready c.sock then got.0 else c in
    let p' : Pilot = if r.ready c.sock then got.1 else p in
    let rest = receive_each r m p' in ((ip, c') ∷ rest.0, rest.1)

abbrev pub is_open : Clictx → Bool
is_open c = elim c.sock [ none ↦ false | some fd ↦ true ]

unfoldable pub erase_closed : Clients → Clients
erase_closed [] = []
erase_closed ((ip, c) ∷ m) = let rest = erase_closed m in if is_open c then (ip, c) ∷ rest else rest

unfoldable pub reindex : ℕ → Clients → Clients
reindex k [] = []
reindex k ((ip, c) ∷ m) = (ip, record c { index = k }) ∷ reindex (k + 1) m

-- TcpSrv::_clean
unfoldable pub clean : TcpSrv → TcpSrv
unfolding erase_closed reindex
clean s = record s { clis = reindex 0 (erase_closed s.clis); pilot = no_pilot; dirty = false }

unfoldable pub any_closed : Clients → Bool
any_closed [] = false
any_closed ((ip, c) ∷ m) = not (is_open c) || any_closed m

-- A connection that waits is accepted, if accept has one.
unfoldable pub admit : Round → TcpSrv → TcpSrv
unfolding accept
admit r s = if r.connects then elim r.accepted [ none ↦ s | some (fd, ip) ↦ accept fd ip s ] else s

-- What is done when select finds a descriptor.
unfoldable pub serve : Round → TcpSrv → TcpSrv
unfolding receive_each
serve r s =
    let s1 = admit r s in
    let done = receive_each r s1.clis s1.pilot in record s1 { clis = done.0; pilot = done.1 }

-- _dirty = true, if a socket is closed.
unfoldable pub mark : TcpSrv → TcpSrv
unfolding any_closed
mark s = record s { dirty = s.dirty || any_closed s.clis }

unfoldable pub tidy : TcpSrv → TcpSrv
unfolding clean
tidy s = if s.dirty then clean s else s

-- The state after a call of pool in which select did not fail.
unfoldable pub round : Round → TcpSrv → TcpSrv
unfolding serve mark tidy
round r s =
    tidy (if pos_part r.selected + neg_part r.selected == 0 then mark s else serve r (mark s))

-- _pilot_qsz ? _pilot_qoptim-_pilot_qlen : 0
unfoldable pub skew : Pilot → ℤ
skew p = if p.qsz == 0 then pos 0 else sub_ℕ p.qoptim p.qlen

-- TcpSrv::pool: the new state, whether the program goes on (`__alive`), and the value returned. select
-- fails with -1.
unfoldable pub pool : Round → TcpSrv → TcpSrv × Bool × ℤ
unfolding round skew
pool r s =
    if neg_part r.selected == 1
    then (mark s, false, sub_ℕ 0 r.errno)
    else (round r s, true, skew (round r s).pilot)

-- What a chunk's header and payload are to `qsend`: it writes into the header, and sends the chunk
-- whole, `chunk.size()` bytes, whatever `buf_len` says.
pub record Sending : Type 0 where
  pub hdr : BufHdr
  pub clis : Clients
  pub sent : List (ℕ × BufHdr)
  pub buf_len : ℕ

-- The header as it goes to one client.
unfoldable pub address : Pilot → ℕ → BufHdr → BufHdr → BufHdr
address p now req hdr = record hdr {
  cli_qlen = req.cli_qlen;
  cli_qsize = req.cli_qsize;
  cli_qoptim = req.cli_qoptim;
  cli_ping = req.cli_ping;
  pilot_q_perc = (p.qlen * 100) / (p.qsz + 1) % u16_mod;
  srv_tick = now;
  is_pilot = req.is_pilot;
}

-- The loop over the clients: `now` is tick_count(1000) and `lbytes` what sendall returns, by address.
-- A client to which the chunk was not sent whole is disconnected.
unfoldable pub send_each : Pilot → (ℕ → ℕ) → (ℕ → ℕ) → ℕ → BufHdr → Clients → Sending
unfolding address
send_each p now lbytes size hdr [] = record { hdr = hdr; clis = []; sent = []; buf_len = 0 }
send_each p now lbytes size hdr ((ip, c) ∷ m) =
    let some_data : Bool = not (pos_part hdr.buf_len + neg_part hdr.buf_len == 0) in
    let hdr' : BufHdr = if some_data then address p (now ip) c.req hdr else hdr in
    let failed : Bool = some_data && not (lbytes ip == 0) in
    let rest = send_each p now lbytes size hdr' m in
    record {
      hdr = rest.hdr;
      clis = (ip, if failed then record c { sock = none } else c) ∷ rest.clis;
      sent = if some_data then (ip, hdr') ∷ rest.sent else rest.sent;
      buf_len = (if some_data then size else 0) + rest.buf_len;
    }

-- TcpSrv::qsend: the new state, the header and the messages, and how many clients there are. `usecs` is
-- the server's time stamp; `size` is chunk.size().
unfoldable pub qsend : BufHdr → ℕ → ℕ → (ℕ → ℕ) → (ℕ → ℕ) → TcpSrv → TcpSrv × Sending × ℕ
unfolding send_each
qsend hdr size usecs now lbytes s =
    let due : Bool = not s.newclient && ltb qos_to (sub_size usecs s.last_qos) in
    let p : Pilot = record (s.pilot) {
      seq = if s.newclient then 0 else s.pilot.seq;
      ping = if s.newclient then 0 else s.pilot.ping;
    } in
    let hdr' : BufHdr = record hdr {
      pilot_seq = p.seq;
      pilot_ping = p.ping;
      frm_sig = if due then sync_data else alive_data;
    } in
    let out = send_each p now lbytes size hdr' s.clis in
    (
      record s {
        clis = out.clis;
        newclient = false;
        last_qos = if due then usecs else s.last_qos;
        pilot = p;
      },
      out,
      length s.clis,
    )
