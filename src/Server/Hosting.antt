-- ===== src/Server/Hosting.antt =====
-- srv/tcpsrv.cpp: the sockets of the server and its clients, where one log has the calls of all.
use the_multi_room_speaker.Base.{
  ℕ, Bool, true, Option, none, some, List, [], ◌∷◌, ltb, ◌==◌, if◌then◌else◌,
}
use the_multi_room_speaker.Base.Int.{pos_part}
use the_multi_room_speaker.Wire.{tcp_mtu}
use the_multi_room_speaker.Sock.Calls.{
  Addr, Log, Os, Net, fresh, is_open, set_blocking, set_mtu, sock_destroy, cli_destroy, srv_destroy,
}
use the_multi_room_speaker.Sock.Create.{srv_accept}
use the_multi_room_speaker.Server.{assign}

-- The clients' sockets, `_clis`, by their IPv4 addresses. What is called is in the log of the host.
abbrev pub Peers : Type 0
Peers = List (ℕ × Net)

pub record Host : Type 0 where
  pub srv : Net
  pub clis : Peers
  pub log : Log

-- The server after its listen().
abbrev pub opening : Net → Host
opening n = record { srv = n; clis = []; log = n.log }

-- A socket, after the calls of a log.
abbrev pub after : Log → Net → Net
after l n = record n { log = l }

-- `delete` of a client: ~tcp_cli_sock, which calls its destroy(), and ~sock, which calls sock::destroy().
unfoldable pub delete : Os → Net → Net
delete o n = (sock_destroy o (cli_destroy o true n).1).1

-- _clis.find(ip)
unfoldable pub find : ℕ → Peers → Option Net
find ip [] = none
find ip ((j, n) ∷ m) =
    let rest = find ip m in if ltb ip j then none else if ip == j then some n else rest

-- TcpSrv::pool: the old client of an address that connects anew is destroyed and deleted.
unfoldable pub replaced : Os → Log → Option Net → Log
unfolding delete
replaced o l none = l
replaced o l (some old) = (delete o (cli_destroy o true (after l old)).1).log

-- TcpSrv::pool, where a connection waits; `peer` is whom accept finds.
unfoldable pub welcome : Os → Addr → Host → Host
unfolding find replaced assign
welcome o peer h =
    let (r, heard, cs) = srv_accept o peer (after h.log h.srv) fresh in
    let made = set_mtu o tcp_mtu (set_blocking o 1 cs) in
    if ltb 0 (pos_part r)
    then record {
      srv = heard;
      clis = assign peer.ip made h.clis;
      log = replaced o made.log (find peer.ip h.clis);
    }
    else record h { srv = heard; log = (delete o cs).log }

-- destroy() of the client at an address: rec, where the client is gone, and qsend, where it was not sent
-- all.
unfoldable pub lose_from : Os → ℕ → Log → Peers → Log × Peers
lose_from o ip l [] = (l, [])
lose_from o ip l ((j, n) ∷ m) =
    let gone = (cli_destroy o true (after l n)).1 in
    let rest = lose_from o ip l m in
    if ip == j then (gone.log, (j, gone) ∷ m) else (rest.0, (j, n) ∷ rest.1)

unfoldable pub lose : Os → ℕ → Host → Host
unfolding lose_from
lose o ip h = let (l, m) = lose_from o ip h.log h.clis in record h { clis = m; log = l }

-- TcpSrv::_clean: clients whose socket is closed are deleted.
unfoldable pub sweep_from : Os → Log → Peers → Log × Peers
unfolding delete
sweep_from o l [] = (l, [])
sweep_from o l ((j, n) ∷ m) =
    let kept = sweep_from o l m in
    let rest = sweep_from o (delete o (after l n)).log m in
    if is_open n then (kept.0, (j, n) ∷ kept.1) else rest

unfoldable pub sweep : Os → Host → Host
unfolding sweep_from
sweep o h = let (l, m) = sweep_from o h.log h.clis in record h { clis = m; log = l }

-- TcpSrv::destroy: the loop that deletes the clients.
unfoldable pub delete_each : Os → Log → Peers → Log
unfolding delete
delete_each o l [] = l
delete_each o l ((j, n) ∷ m) = delete_each o (delete o (after l n)).log m

-- TcpSrv::destroy(be), and the log that is left. Its entries of the map are not looked at again.
unfoldable pub shut : Os → Bool → Host → Net × Log
unfolding delete_each
shut o be h =
    let down = (srv_destroy o be (after h.log h.srv)).1 in (down, delete_each o down.log h.clis)

-- What happens to a server's sockets.
pub data Visit : Type 0 where
  connects : Addr → Visit
  loses : ℕ → Visit
  cleans : Visit

unfoldable pub visit : Os → Visit → Host → Host
unfolding welcome lose sweep
visit o (connects peer) h = welcome o peer h
visit o (loses ip) h = lose o ip h
visit o cleans h = sweep o h

unfoldable pub hosting : Os → List Visit → Host → Host
unfolding visit
hosting o [] h = h
hosting o (v ∷ vs) h = hosting o vs (visit o v h)
