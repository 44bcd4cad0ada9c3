-- ===== src/Sock/Group.antt =====
-- common/sock.h and common/sock.cpp, udp_group_sock: a socket of a multicast group. `none` is a failed
-- assertion, at which the program ends.
use the_multi_room_speaker.Base.{
  ℕ, ◌+◌, Bool, true, false, Option, none, some, ltb, ◌==◌, if◌then◌else◌, u16_mod, ◌%◌,
}
use the_multi_room_speaker.Base.Int.{ℤ, pos, negsuc, pos_part, neg_part}
use the_multi_room_speaker.Wire.Codec.{int_bits}
use the_multi_room_speaker.Sock.Calls.{
  so_reuseaddr, Addr, socket_dgram, bind_fd, set_opt, set_ip_opt, recv_from, send_to, Call, Os, Net,
  is_minus_one, is_open, call,
}
use the_multi_room_speaker.Sock.Udp.{Udp, new_udp, tried, udp_destroy}

-- _mcastGrp, as the group's address, and _groupmember.
pub record Group : Type 0 where
  pub udp : Udp
  pub mcast_grp : ℕ
  pub groupmember : Bool

abbrev pub new_group : Group
new_group = record { udp = new_udp; mcast_grp = 0; groupmember = false }

abbrev pub ip_multicast_ttl : ℕ
ip_multicast_ttl = 33

abbrev pub ip_multicast_loop : ℕ
ip_multicast_loop = 34

abbrev pub ip_add_membership : ℕ
ip_add_membership = 35

abbrev pub ip_drop_membership : ℕ
ip_drop_membership = 36

-- A call, and whether it failed.
unfoldable pub failed : Os → Call → Net → Bool × Net
unfolding call
failed o c n = (ltb 0 (neg_part (o.ask n.log c).ret), call o c n)

abbrev pub with_net : Group → Net → Group
with_net g n = record g { udp = record (g.udp) { net = n } }

-- The setsockopt of drop and destroy; _error becomes what it returns, in 32 bits.
unfoldable pub leave : Os → Group → Group
unfolding call
leave o g =
    let n = g.udp.net in
    let c = set_ip_opt n.thesock ip_drop_membership g.mcast_grp in
    with_net g (record (call o c n) { error = int_bits (o.ask n.log c).ret })

-- udp_group_sock::drop()
unfoldable pub drop : Os → Group → Group
unfolding leave
drop o g = if g.groupmember then leave o (record g { groupmember = false }) else g

-- udp_group_sock::destroy(be), which leaves _groupmember as it is.
unfoldable pub group_destroy : Os → Group → Group
unfolding leave
group_destroy o g =
    let left = if g.groupmember then leave o g else g in
    record left { udp = (udp_destroy o left.udp).1 }

-- `_thesock = ::socket(AF_INET, SOCK_DGRAM, proto)`, whatever _thesock was.
unfoldable pub new_dgram : Os → (proto : ℕ) → Net → Net
unfolding call
new_dgram o proto n = record (call o (socket_dgram proto) n) {
  thesock = (o.ask n.log (socket_dgram proto)).ret;
}

-- udp_group_sock::gcreate, from bind on.
unfoldable pub gcreated : Os → (there : Addr) → Group → Option (ℤ × Group)
unfolding failed tried
gcreated o there g =
    let n = record (g.udp.net) { remote_sin = there } in
    let r = (o.ask n.log (bind_fd n.thesock there)).ret in
    let (refused, n1) = failed o (bind_fd n.thesock there) n in
    let (a, n2) =
      tried o (set_ip_opt n1.thesock ip_multicast_ttl 100) (record n1 { error = int_bits r }) in
    if refused
    then none
    else if is_minus_one a.ret
    then some (negsuc 0, group_destroy o (with_net g n2))
    else some (pos 0, with_net g n2)

-- udp_group_sock::gcreate(ipGrp, port, inetaddr)
unfoldable pub gcreate : Os → (ip_grp port : ℕ) → Group → Option (ℤ × Group)
unfolding gcreated failed new_dgram
gcreate o ip_grp port g =
    let g0 = record g { mcast_grp = 0; groupmember = false } in
    let n0 = new_dgram o 0 (record (g.udp.net) { error = 0 }) in
    let (unshared, n1) = failed o (set_opt n0.thesock so_reuseaddr 1) n0 in
    let (deaf, n2) = failed o (set_ip_opt n1.thesock ip_multicast_loop 1) n1 in
    let rest = gcreated o (record { ip = ip_grp; port = port % u16_mod }) (with_net g0 n2) in
    if pos_part g.udp.net.thesock + neg_part g.udp.net.thesock == 0
    then none
    else if ltb 0 (neg_part n0.thesock)
    then some (pos 0, with_net g0 n0)
    else if unshared
    then some (pos 0, with_net g0 n1)
    else if deaf
    then some (pos 0, with_net g0 n2)
    else rest

-- udp_group_sock::join, from bind on: errno is returned where bind fails.
unfoldable pub joined : Os → (ip_grp port : ℕ) → Group → Option (ℤ × Group)
unfolding failed tried
joined o ip_grp port g =
    let here : Addr = record { ip = 0; port = port % u16_mod } in
    let n = record (g.udp.net) { error = 0; remote_sin = here } in
    let n0 = (failed o (set_opt n.thesock so_reuseaddr 1) n).1 in
    let (a, n1) = tried o (bind_fd n0.thesock here) n0 in
    let member = set_ip_opt n1.thesock ip_add_membership ip_grp in
    let (b, n2) = tried o member n1 in
    if is_minus_one a.ret
    then some (pos (a.errno), group_destroy o (with_net g n1))
    else if is_minus_one b.ret
    then none
    else some (pos 0, record (with_net g n2) { mcast_grp = ip_grp; groupmember = true })

-- udp_group_sock::join(ipGrp, port), with IPPROTO_UDP
unfoldable pub join_group : Os → (ip_grp port : ℕ) → Group → Option (ℤ × Group)
unfolding joined failed new_dgram
join_group o ip_grp port g =
    let n0 = new_dgram o 17 g.udp.net in
    let (unshared, n1) = failed o (set_opt n0.thesock so_reuseaddr 1) n0 in
    let rest = joined o ip_grp port (with_net g n1) in
    if pos_part g.udp.net.thesock + neg_part g.udp.net.thesock == 0
    then none
    else if ltb 0 (neg_part n0.thesock)
    then some (pos 0, with_net g n0)
    else if unshared
    then some (pos 0, with_net g n1)
    else rest

-- udp_group_sock::send(buff, length, port, ipGrp)
unfoldable pub group_send : Os → (len port : ℕ) (ip_grp : Option ℕ) → Group → Option (ℤ × Group)
unfolding call
group_send o len port ip_grp g =
    let n = record (g.udp.net) {
      error = 0;
      remote_sin = elim ip_grp [
        | none ↦ g.udp.net.remote_sin
        | some i ↦ record { ip = i; port = port % u16_mod }
      ];
    } in
    let c = send_to n.thesock n.remote_sin len in
    let a = o.ask n.log c in
    let n' = call o c n in
    let n1 = if ltb 0 (neg_part a.ret) then record n' { error = a.errno } else n' in
    if is_open g.udp.net then some (a.ret, with_net g n1) else none

-- udp_group_sock::receive(pbuff, length, port, ipGrp): 0 if recvfrom fails. Without ipGrp there is room
-- for the port only of the sender's address, `from`.
unfoldable pub group_receive :
    Os → (from : Addr) (port : ℕ) (ip_grp : Option ℕ) → Group → Option (ℤ × Group)
unfolding tried
group_receive o from port ip_grp g =
    let asked : Addr = elim ip_grp [
      | none ↦ record { ip = g.mcast_grp; port = g.udp.net.remote_sin.port }
      | some i ↦ record { ip = i; port = port % u16_mod }
    ] in
    let stored : Addr = elim ip_grp [
      | none ↦ record { ip = g.mcast_grp; port = from.port }
      | some i ↦ from
    ] in
    let n = record (g.udp.net) { error = 0 } in
    let (a, n') = tried o (recv_from n.thesock) n in
    if is_open g.udp.net
    then (if is_minus_one a.ret
        then some (pos 0, with_net g (record n' { remote_sin = asked }))
        else some (a.ret, with_net g (record n' { remote_sin = stored })))
    else none
