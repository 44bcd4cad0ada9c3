-- ===== src/Sock/Datagrams.antt =====
-- The descriptors of datagram sockets: udp_sock and udp_group_sock hold what they have opened.
use the_multi_room_speaker.Base.{
  ℕ, zero, suc, ◌≡◌, refl, ap, ◌∙◌, Bool, true, false, Option, none, some, List, ◌++◌,
  if◌then◌else◌, arith, u16_mod, ◌%◌, Bool-cases, inl, inr,
}
use mathlib.Core.List.{append-nil}
use mathlib.Core.Option
use the_multi_room_speaker.Base.Int.{ℤ, pos, negsuc}
use the_multi_room_speaker.Sock.Calls.{
  Addr, socket_dgram, select_fd, connect_fd, pause, Call, Os, Net, is_minus_one, is_open, call,
  set_blocking,
}
use the_multi_room_speaker.Sock.Held.{
  opened, opened-owned, Owns, Same, Same-Owns, opens_nothing, call-Same, set_blocking-Same,
  sock_destroy-Owns, held, owned-closed,
}
use the_multi_room_speaker.Sock.Udp.{
  Udp, tried, open_dgram, udp_create_at, udp_create, udp_bind, udp_sendall, udp_send, udp_send_at,
  udp_receive_at, udp_receive, udp_receive_text, udp_is_set, set_rsin, udp_destroy, until_writable,
  udp_connect,
}

-- A property of both branches.
pub if-both {ℓ ℓ'} :
    {A : Type ℓ} (P : A → Type ℓ') (b : Bool) (x y : A) → P x → P y → P (if b then x else y)
if-both P true x y p q = p
if-both P false x y p q = q

pub tried-Same : (o : Os) (c : Call) (n : Net) → opens_nothing c ≡ true → Same n (tried o c n).1
unfolding tried
tried-Same o c n e =
    if-both (Same n) (is_minus_one (o.ask n.log c).ret) _ _
      (record {
        still_open = (call-Same o c n e).still_open;
        still_held = (call-Same o c n e).still_held;
      })
      (call-Same o c n e)

-- A socket made where none was held.
pub dgram-Owns :
    (o : Os) (proto : ℕ) (n : Net)
    → is_open n ≡ false
    → Owns n
    → Owns (record (call o (socket_dgram proto) n) {
      thesock = (o.ask n.log (socket_dgram proto)).ret;
    })
unfolding call held
dgram-Owns o proto n e own =
    let r = (o.ask n.log (socket_dgram proto)).ret in
    ap (λ (xs : List ℕ). opened r ++ xs) (own ∙ owned-closed n.thesock e)
    ∙ append-nil (opened r)
    ∙ opened-owned r (o.dgram_spares n.log proto)

-- What is left of a udp_sock, if no assertion failed.
abbrev pub UdpOwns : Option (ℤ × Udp) → Type 0
UdpOwns none = Unit {0}
UdpOwns (some r) = Owns r.1.net

pub open_dgram-Owns :
    (o : Os) (proto : ℕ) (here : Addr) (u : Udp) → Owns u.net → UdpOwns (open_dgram o proto here u)
unfolding open_dgram
open_dgram-Owns o proto here u own = elim (Bool-cases (is_open u.net)) [
  | inl e ↦ rw (e, open_dgram) tt
  | inr e ↦
      let made = dgram-Owns o proto (record (u.net) { error = 0 }) e own in
      rw (e, open_dgram)
        (if-both UdpOwns (is_minus_one (o.ask u.net.log (socket_dgram proto)).ret) _ _ made made)
]

udp_bind-Owns :
    (o : Os) (addr : Option ℕ) (port : ℕ) (u : Udp) → Owns u.net → UdpOwns (udp_bind o addr port u)
unfolding udp_bind call held
udp_bind-Owns o addr port u own = ground (arith, own)

udp_sendall-Owns : (o : Os) (len : ℕ) (u : Udp) → Owns u.net → Owns (udp_sendall o len u).1.net
unfolding udp_sendall
udp_sendall-Owns o len u own = Same-Owns (tried-Same o _ u.net refl) own

udp_send-Owns :
    (o : Os) (len port : ℕ) (ip : Option ℕ) (u : Udp)
    → Owns u.net
    → Owns (udp_send o len port ip u).1.net
unfolding udp_send tried call held
udp_send-Owns o len port ip u own = ground (arith, own)

udp_send_at-Owns :
    (o : Os) (len : ℕ) (rsin : Addr) (u : Udp) → Owns u.net → Owns (udp_send_at o len rsin u).1.net
unfolding udp_send_at tried call held
udp_send_at-Owns o len rsin u own = ground (arith, own)

udp_receive_at-Owns :
    (o : Os) (from rsin : Addr) (u : Udp) → Owns u.net → Owns (udp_receive_at o from rsin u).2.net
unfolding udp_receive_at tried call held
udp_receive_at-Owns o from rsin u own = ground (arith, own)

udp_receive-Owns :
    (o : Os) (from : Addr) (port : ℕ) (ip : Option ℕ) (u : Udp)
    → Owns u.net
    → Owns (udp_receive o from port ip u).1.net
unfolding udp_receive tried call held
udp_receive-Owns o from port ip u own = ground (arith, own)

udp_receive_text-Owns :
    (o : Os) (from : Addr) (port : ℕ) (ip : Option ℕ) (u : Udp)
    → Owns u.net
    → Owns (udp_receive_text o from port ip u).1.net
unfolding udp_receive_text call held
udp_receive_text-Owns o from port ip u own =
    ground (arith, own, udp_receive-Owns o from port ip u own)

pub udp_destroy-Owns : (o : Os) (u : Udp) → Owns u.net → Owns (udp_destroy o u).1.net
unfolding udp_destroy
udp_destroy-Owns o u own = sock_destroy-Owns o u.net own

until_writable-Same : (o : Os) (more : ℕ) (n : Net) → Same n (until_writable o more n).1
unfolding until_writable
until_writable-Same o zero n = record { still_open = refl; still_held = refl }
until_writable-Same o (suc more) n =
    let asked = call-Same o (select_fd n.thesock) n refl in
    let n' = call o (select_fd n.thesock) n in
    let waited = call-Same o (pause 10000) n' refl in
    let later = until_writable-Same o more (call o (pause 10000) n') in
    ground (arith, asked, waited, later)

udp_connect-Owns :
    (o : Os) (shut : Udp → Udp) (ip port : ℕ) (u : Udp)
    → ((v : Udp) → Owns v.net → Owns (shut v).net)
    → Owns u.net
    → Owns (udp_connect o shut ip port u).1.net
unfolding udp_connect
udp_connect-Owns o shut ip port u keeps own =
    let there : Addr = record { ip = ip; port = port % u16_mod } in
    let n0 = record (u.net) { connected = false; remote_sin = there } in
    let quick = set_blocking o 0 n0 in
    let n = call o (connect_fd quick.thesock there) quick in
    let waited = until_writable-Same o (o.patience n.log) n in
    let held_on = Same-Owns waited (
      Same-Owns (call-Same o (connect_fd quick.thesock there) quick refl)
        (Same-Owns (set_blocking-Same o 0 n0) own)) in
    let n1 = (until_writable o (o.patience n.log) n).1 in
    let closed = shut (record u { net = n1 }) in
    if-both (λ (r : ℤ × Udp). Owns r.1.net) (until_writable o (o.patience n.log) n).0
      (pos 0, record u { net = set_blocking o u.net.blocking (record n1 { connected = true }) })
      (negsuc 0, record closed { net = set_blocking o u.net.blocking closed.net })
      (Same-Owns (set_blocking-Same o u.net.blocking (record n1 { connected = true })) held_on)
      (Same-Owns (set_blocking-Same o u.net.blocking closed.net)
        (keeps (record u { net = n1 }) held_on))

-- What is done with a udp_sock.
pub data UdpOp : Type 0 where
  creates_at : Addr → (proto : ℕ) → UdpOp
  creates : (port proto : ℕ) → Option ℕ → UdpOp
  binds : Option ℕ → (port : ℕ) → UdpOp
  sends_all : (len : ℕ) → UdpOp
  sends : (len port : ℕ) → Option ℕ → UdpOp
  sends_at : (len : ℕ) → Addr → UdpOp
  receives_at : (from rsin : Addr) → UdpOp
  receives receives_text : (from : Addr) (port : ℕ) → Option ℕ → UdpOp
  asks_set udp_destroys : UdpOp
  sets_rsin connects : (ip port : ℕ) → UdpOp

-- The virtual destroy is `shut`; what an operation returns is left out. `none`: a failed assertion.
unfoldable pub udp_perform : Os → (shut : Udp → Udp) → UdpOp → Udp → Option Udp
udp_perform o shut (creates_at r proto) u = Option.map (λ r. r.1) (udp_create_at o r proto u)
udp_perform o shut (creates port proto addr) u =
    Option.map (λ r. r.1) (udp_create o port proto addr u)
udp_perform o shut (binds addr port) u = Option.map (λ r. r.1) (udp_bind o addr port u)
udp_perform o shut (sends_all len) u = some (udp_sendall o len u).1
udp_perform o shut (sends len port ip) u = some (udp_send o len port ip u).1
udp_perform o shut (sends_at len rsin) u = some (udp_send_at o len rsin u).1
udp_perform o shut (receives_at from rsin) u = some (udp_receive_at o from rsin u).2
udp_perform o shut (receives from port ip) u = some (udp_receive o from port ip u).1
udp_perform o shut (receives_text from port ip) u = some (udp_receive_text o from port ip u).1
udp_perform o shut asks_set u = some (udp_is_set o u).1
udp_perform o shut udp_destroys u = some (shut u)
udp_perform o shut (sets_rsin ip port) u = some (set_rsin ip port u)
udp_perform o shut (connects ip port) u = some (udp_connect o shut ip port u).1

abbrev pub LeftOwns : Option Udp → Type 0
LeftOwns none = Unit {0}
LeftOwns (some u) = Owns u.net

left-Owns : (x : Option (ℤ × Udp)) → UdpOwns x → LeftOwns (Option.map (λ r. r.1) x)
left-Owns none own = tt
left-Owns (some r) own = own

pub udp_perform-Owns :
    (o : Os) (shut : Udp → Udp) (op : UdpOp) (u : Udp)
    → ((v : Udp) → Owns v.net → Owns (shut v).net)
    → Owns u.net
    → LeftOwns (udp_perform o shut op u)
unfolding udp_perform udp_create_at udp_create set_rsin udp_is_set call held
udp_perform-Owns o shut (creates_at r proto) u keeps own =
    left-Owns (open_dgram o proto r u) (open_dgram-Owns o proto r u own)
udp_perform-Owns o shut (creates port proto addr) u keeps own =
    left-Owns _ (open_dgram-Owns o proto _ u own)
udp_perform-Owns o shut (binds addr port) u keeps own =
    left-Owns (udp_bind o addr port u) (udp_bind-Owns o addr port u own)
udp_perform-Owns o shut (sends_all len) u keeps own = udp_sendall-Owns o len u own
udp_perform-Owns o shut (sends len port ip) u keeps own = udp_send-Owns o len port ip u own
udp_perform-Owns o shut (sends_at len rsin) u keeps own = udp_send_at-Owns o len rsin u own
udp_perform-Owns o shut (receives_at from rsin) u keeps own = udp_receive_at-Owns o from rsin u own
udp_perform-Owns o shut (receives from port ip) u keeps own = udp_receive-Owns o from port ip u own
udp_perform-Owns o shut (receives_text from port ip) u keeps own =
    udp_receive_text-Owns o from port ip u own
udp_perform-Owns o shut asks_set u keeps own = own
udp_perform-Owns o shut udp_destroys u keeps own = keeps u own
udp_perform-Owns o shut (sets_rsin ip port) u keeps own = own
udp_perform-Owns o shut (connects ip port) u keeps own = udp_connect-Owns o shut ip port u keeps own
