-- ===== src/Client/Link.antt =====
-- cli/sclient.cpp, sclient::_tmain: how the client's thread dials the servers, one after the other, and
-- stays with the one that it reaches. What the frames of a connection do is in Client; here a connection
-- is the calls that _get_data makes of the socket.
use the_multi_room_speaker.Base.{
  ℕ, ◌+◌, Bool, true, false, ◌||◌, not, Option, none, some, List, [], ◌∷◌, ltb, ◌==◌, if◌then◌else◌,
}
use the_multi_room_speaker.Base.Int.{pos_part, neg_part}
use the_multi_room_speaker.Wire.{spk_srv_port, tcp_mtu}
use the_multi_room_speaker.Sock.Calls.{
  recv_fd, select_fd, pause, Os, Net, is_open, call, set_blocking, set_mtu, cli_destroy,
}
use the_multi_room_speaker.Sock.Connect.{is_really_connected, s4connect}

-- The servers of _ips, in the order of the set: the text, and the address that inet_aton reads in it, if
-- it can.
abbrev pub Servers : Type 0
Servers = List (List ℕ × Option ℕ)

-- for(const auto& a : _ips)
unfoldable pub dial_each : Os → Servers → Net → Option Net
dial_each o [] n = some n
dial_each o ((sip, ip) ∷ ips) n =
    elim (s4connect o false sip ip spk_srv_port (call o (pause 1000000) n)) [
      | none ↦ none
      | some r ↦ elim (ltb 0 (pos_part r.0)) [
        | true ↦ some r.1
        | false ↦ dial_each o ips (cli_destroy o true r.1).1
      ]
    ]

-- _get_data: `waits` says for each turn before the last whether a frame has come in, which _check_stream
-- accepts; in the last turn it refuses one, and the socket is destroyed. The calls of a frame are one of
-- recv here, and select does not fail.
unfoldable pub follow : Os → (waits : List Bool) → Net → Net
follow o [] n =
    let read = call o (recv_fd n.thesock) (call o (select_fd n.thesock) n) in
    if is_open n then (cli_destroy o true read).1 else n
follow o (arrived ∷ waits) n =
    let asked = call o (select_fd n.thesock) n in
    let rest = follow o waits (if arrived then call o (recv_fd n.thesock) asked else asked) in
    if is_open n then rest else n

-- One round of while(__alive)
unfoldable pub link_round : Os → (waits : List Bool) → Servers → Net → Option Net
link_round o waits ips n =
    let (connected, n1) = is_really_connected o n in
    let connecting : Bool = not (pos_part n1.connecting + neg_part n1.connecting == 0) in
    if connected || connecting then some (cli_destroy o true n1).1 else elim (dial_each o ips n1) [
      | none ↦ none
      | some n2 ↦
          some (cli_destroy o true (follow o waits (set_blocking o 1 (set_mtu o tcp_mtu n2)))).1
    ]

-- The rounds, as long as __alive holds.
unfoldable pub tmain : Os → (rounds : List (List Bool)) → Servers → Net → Option Net
tmain o [] ips n = some n
tmain o (waits ∷ rounds) ips n = elim (link_round o waits ips n) [
  | none ↦ none
  | some n' ↦ tmain o rounds ips n'
]
