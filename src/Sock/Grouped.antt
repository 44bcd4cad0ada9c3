-- ===== src/Sock/Grouped.antt =====
-- Any history of a group's socket: which descriptors it leaves open.
use the_multi_room_speaker.Base.{
  ℕ, ◌≡◌, refl, Bool, true, false, ◌&&◌, Option, none, some, List, [], ◌∷◌, if◌then◌else◌, arith,
  Option-cases, inl, inr, subst, u16_mod, ◌%◌,
}
use mathlib.Core.Option
use the_multi_room_speaker.Base.Int.{ℤ}
use the_multi_room_speaker.Wire.Codec.{int_bits}
use the_multi_room_speaker.Sock.Calls.{
  so_reuseaddr, Addr, bind_fd, set_opt, set_ip_opt, Os, is_open, call, set_mtu,
}
use the_multi_room_speaker.Sock.Held.{Owns, Same-Owns, set_mtu-Same, held, sock_destroy_lem}
use the_multi_room_speaker.Sock.Udp.{Udp, tried, udp_destroy}
use the_multi_room_speaker.Sock.Group.{
  Group, ip_multicast_ttl, ip_multicast_loop, ip_add_membership, failed, with_net, leave, drop,
  group_destroy, new_dgram, gcreated, gcreate, joined, join_group, group_send, group_receive,
}
use the_multi_room_speaker.Sock.Datagrams.{
  if-both, tried-Same, dgram-Owns, udp_destroy-Owns, UdpOp, udp_perform, LeftOwns, udp_perform-Owns,
}

-- What is done with a udp_group_sock; `plain` is an operation of udp_sock, by its qualified name where
-- udp_group_sock has another.
pub data GroupOp : Type 0 where
  gcreates joins : (ip_grp port : ℕ) → GroupOp
  drops destroys : GroupOp
  group_sends : (len port : ℕ) → Option ℕ → GroupOp
  group_receives : (from : Addr) (port : ℕ) → Option ℕ → GroupOp
  group_mtu : ℕ → GroupOp
  plain : UdpOp → GroupOp

abbrev pub shut_of : Os → Group → Udp → Udp
shut_of o g v = (group_destroy o (record g { udp = v })).udp

-- What an operation returns is left out. `none`: a failed assertion.
unfoldable pub group_perform : Os → GroupOp → Group → Option Group
group_perform o (gcreates ip_grp port) g = Option.map (λ r. r.1) (gcreate o ip_grp port g)
group_perform o (joins ip_grp port) g = Option.map (λ r. r.1) (join_group o ip_grp port g)
group_perform o drops g = some (drop o g)
group_perform o destroys g = some (group_destroy o g)
group_perform o (group_sends len port ip_grp) g =
    Option.map (λ r. r.1) (group_send o len port ip_grp g)
group_perform o (group_receives from port ip_grp) g =
    Option.map (λ r. r.1) (group_receive o from port ip_grp g)
group_perform o (group_mtu mtu) g = some (with_net g (set_mtu o mtu g.udp.net))
group_perform o (plain op) g =
    Option.map (λ u. record g { udp = u }) (udp_perform o (shut_of o g) op g.udp)

abbrev GroupOwns : Group → Type 0
GroupOwns g = Owns g.udp.net

abbrev DoneOwns : Option (ℤ × Group) → Type 0
DoneOwns none = Unit {0}
DoneOwns (some r) = Owns r.1.udp.net

abbrev KeptOwns : Option Group → Type 0
KeptOwns none = Unit {0}
KeptOwns (some g) = Owns g.udp.net

kept-Owns : (x : Option (ℤ × Group)) → DoneOwns x → KeptOwns (Option.map (λ r. r.1) x)
kept-Owns none own = tt
kept-Owns (some r) own = own

plain-Owns :
    (g : Group) (x : Option Udp) → LeftOwns x → KeptOwns (Option.map (λ u. record g { udp = u }) x)
plain-Owns g none own = tt
plain-Owns g (some u) own = own

leave-Owns : (o : Os) (g : Group) → Owns g.udp.net → Owns (leave o g).udp.net
unfolding leave call held
leave-Owns o g own = own

drop-Owns : (o : Os) (g : Group) → Owns g.udp.net → Owns (drop o g).udp.net
unfolding drop leave call held
drop-Owns o g own = ground (arith, own)

group_destroy-Owns : (o : Os) (g : Group) → Owns g.udp.net → Owns (group_destroy o g).udp.net
unfolding group_destroy
group_destroy-Owns o g own =
    let left = if g.groupmember then leave o g else g in
    udp_destroy-Owns o left.udp
      (if-both GroupOwns g.groupmember (leave o g) g (leave-Owns o g own) own)

gcreated-Owns : (o : Os) (there : Addr) (g : Group) → Owns g.udp.net → DoneOwns (gcreated o there g)
unfolding gcreated failed call held
gcreated-Owns o there g own =
    let n = record (g.udp.net) { remote_sin = there } in
    let r = (o.ask n.log (bind_fd n.thesock there)).ret in
    let n1 = record (failed o (bind_fd n.thesock there) n).1 { error = int_bits r } in
    let ttl = set_ip_opt n1.thesock ip_multicast_ttl 100 in
    let own' : Owns (tried o ttl n1).1 = Same-Owns (tried-Same o ttl n1 refl) own in
    ground (arith, own', group_destroy-Owns o (with_net g (tried o ttl n1).1) own')

gcreate-Owns :
    (o : Os) (ip_grp port : ℕ) (g : Group)
    → is_open g.udp.net ≡ false
    → Owns g.udp.net
    → DoneOwns (gcreate o ip_grp port g)
unfolding gcreate failed new_dgram call held
gcreate-Owns o ip_grp port g shut own =
    let g0 = record g { mcast_grp = 0; groupmember = false } in
    let n = record (g.udp.net) { error = 0 } in
    let n0 = new_dgram o 0 n in
    let made : Owns n0 = dgram-Owns o 0 n shut own in
    let n1 = call o (set_opt n0.thesock so_reuseaddr 1) n0 in
    let n2 = call o (set_ip_opt n1.thesock ip_multicast_loop 1) n1 in
    ground (
      arith,
      made,
      gcreated-Owns o (record { ip = ip_grp; port = port % u16_mod }) (with_net g0 n2) made,
    )

joined-Owns :
    (o : Os) (ip_grp port : ℕ) (g : Group) → Owns g.udp.net → DoneOwns (joined o ip_grp port g)
unfolding joined failed call held
joined-Owns o ip_grp port g own =
    let here : Addr = record { ip = 0; port = port % u16_mod } in
    let n = record (g.udp.net) { error = 0; remote_sin = here } in
    let n0 = call o (set_opt n.thesock so_reuseaddr 1) n in
    let n1 = (tried o (bind_fd n0.thesock here) n0).1 in
    let bound : Owns n1 = Same-Owns (tried-Same o (bind_fd n0.thesock here) n0 refl) own in
    let member = set_ip_opt n1.thesock ip_add_membership ip_grp in
    ground (
      arith,
      group_destroy-Owns o (with_net g n1) bound,
      Same-Owns (tried-Same o member n1 refl) bound,
    )

join_group-Owns :
    (o : Os) (ip_grp port : ℕ) (g : Group)
    → is_open g.udp.net ≡ false
    → Owns g.udp.net
    → DoneOwns (join_group o ip_grp port g)
unfolding join_group failed new_dgram call held
join_group-Owns o ip_grp port g shut own =
    let n0 = new_dgram o 17 g.udp.net in
    let made : Owns n0 = dgram-Owns o 17 g.udp.net shut own in
    let n1 = call o (set_opt n0.thesock so_reuseaddr 1) n0 in
    ground (arith, made, joined-Owns o ip_grp port (with_net g n1) made)

group_send-Owns :
    (o : Os) (len port : ℕ) (ip_grp : Option ℕ) (g : Group)
    → Owns g.udp.net
    → DoneOwns (group_send o len port ip_grp g)
unfolding group_send call held
group_send-Owns o len port ip_grp g own = ground (arith, own)

group_receive-Owns :
    (o : Os) (from : Addr) (port : ℕ) (ip_grp : Option ℕ) (g : Group)
    → Owns g.udp.net
    → DoneOwns (group_receive o from port ip_grp g)
unfolding group_receive tried call held
group_receive-Owns o from port ip_grp g own = ground (arith, own)

-- Do the operation's calls of ::socket not look at whether the socket is open?
abbrev pub overwrites : GroupOp → Bool
overwrites (gcreates ip_grp port) = true
overwrites (joins ip_grp port) = true
overwrites op = false

group_perform-Owns :
    (o : Os) (op : GroupOp) (g : Group)
    → (overwrites op && is_open g.udp.net) ≡ false
    → Owns g.udp.net
    → KeptOwns (group_perform o op g)
unfolding group_perform
group_perform-Owns o (gcreates ip_grp port) g e own =
    kept-Owns (gcreate o ip_grp port g) (gcreate-Owns o ip_grp port g e own)
group_perform-Owns o (joins ip_grp port) g e own =
    kept-Owns (join_group o ip_grp port g) (join_group-Owns o ip_grp port g e own)
group_perform-Owns o drops g e own = drop-Owns o g own
group_perform-Owns o destroys g e own = group_destroy-Owns o g own
group_perform-Owns o (group_sends len port ip_grp) g e own =
    kept-Owns (group_send o len port ip_grp g) (group_send-Owns o len port ip_grp g own)
group_perform-Owns o (group_receives from port ip_grp) g e own =
    kept-Owns (group_receive o from port ip_grp g) (group_receive-Owns o from port ip_grp g own)
group_perform-Owns o (group_mtu mtu) g e own = Same-Owns (set_mtu-Same o mtu g.udp.net) own
group_perform-Owns o (plain op) g e own = plain-Owns g (udp_perform o (shut_of o g) op g.udp) (
    udp_perform-Owns o (shut_of o g) op g.udp
      (λ v kept. group_destroy-Owns o (record g { udp = v }) kept) own)

-- A history of operations, up to the first that fails its assertion: the state that is left.
unfoldable pub group_run : Os → List GroupOp → Group → Group
group_run o [] g = g
group_run o (op ∷ ops) g = elim (group_perform o op g) [ none ↦ g | some g' ↦ group_run o ops g' ]

-- gcreate and join are asked of a closed socket only.
unfoldable pub asks_closed : Os → List GroupOp → Group → Bool
asks_closed o [] g = true
asks_closed o (op ∷ ops) g =
    let rest : Bool = elim (group_perform o op g) [
      | none ↦ true
      | some g' ↦ asks_closed o ops g'
    ] in
    if overwrites op && is_open g.udp.net then false else rest

run_lem :
    (o : Os) (ops : List GroupOp) (g : Group)
    → asks_closed o ops g ≡ true
    → Owns g.udp.net
    → Owns (group_run o ops g).udp.net
unfolding group_run asks_closed
run_lem o [] g e own = own
run_lem o (op ∷ ops) g e own =
    let closed : (overwrites op && is_open g.udp.net) ≡ false = ground (arith, e) in
    let kept = group_perform-Owns o op g closed own in
    elim (Option-cases (group_perform o op g)) [
      | inl f ↦ rw (f, group_run) own
      | inr (g', f) ↦
          rw (f, group_run)
            (run_lem o ops g' (ground (arith, e, closed, f)) (subst KeptOwns f kept))
    ]

group_destroy-held :
    (o : Os) (g : Group) → Owns g.udp.net → held (group_destroy o g).udp.net.log ≡ []
unfolding group_destroy udp_destroy
group_destroy-held o g own =
    let left = if g.groupmember then leave o g else g in
    (sock_destroy_lem o left.udp.net
      (if-both GroupOwns g.groupmember (leave o g) g (leave-Owns o g own) own)).0

-- Where standard input is open, so that no new descriptor is 0, and close releases its descriptor
-- also where it fails: for a group's socket of whose descriptors the one that it holds is open, and
-- no other, it stays so after any history of operations, of udp_sock too, whatever else the
-- operating system answers, as long as gcreate and join are asked of a closed socket only; after
-- destroy no descriptor is left open.
pub group_run-Owns :
    (o : Os) (ops : List GroupOp) (g : Group)
    → asks_closed o ops g ≡ true
    → Owns g.udp.net
    → let g' = group_run o ops g in Owns g'.udp.net × (held (group_destroy o g').udp.net.log ≡ [])
group_run-Owns o ops g e own =
    let kept = run_lem o ops g e own in (kept, group_destroy-held o (group_run o ops g) kept)
