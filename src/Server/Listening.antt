-- ===== src/Server/Listening.antt =====
-- TcpSrv::listen: the server's socket listens, or it is closed.
use the_multi_room_speaker.Base.{
  ℕ, zero, suc, ◌+◌, ◌≡◌, refl, sym, ap, ◌∙◌, Bool, true, false, Option, none, some, ltb, ◌==◌,
  Bool-cases, inl, inr, u16_mod, ◌%◌,
}
use the_multi_room_speaker.Base.Int.{ℤ, pos_part, neg_part}
use the_multi_room_speaker.Sock.Calls.{
  so_reuseaddr, Addr, no_addr, bind_fd, listen_fd, set_fd_flags, pause, Os, Net, is_minus_one,
  is_open, call, srv_destroy,
}
use the_multi_room_speaker.Sock.Create.{open_stream, set_flag, tcp_listen, srv_create}
use the_multi_room_speaker.Sock.Held.{
  Owns, Same, Same-Owns, Same-trans, call-Same, srv_destroy-Owns, srv_destroy-closed,
}
use the_multi_room_speaker.Sock.Dial.{open_stream-Owns, set_flag-Same}
use the_multi_room_speaker.Wire.{spk_srv_port}
use the_multi_room_speaker.Server.Listen.{
  Listening, listens, refused, gives_up, listen_once, go_on, listen_from, listen,
}

-- A positive value goes with an open socket, any other with a closed one.
abbrev Tells : ℤ → Net → Type 0
Tells r n = ltb 0 (pos_part r) ≡ is_open n

bind-Same : (o : Os) (here : Addr) (n : Net) → Same n (call o (bind_fd n.thesock here) n)
bind-Same o here n = call-Same o (bind_fd n.thesock here) n refl

srv_create_lem :
    (o : Os) (port opt iface : ℕ) (n : Net)
    → is_open n ≡ false
    → Owns n
    → (r : ℤ × Net) × (srv_create o port opt iface n ≡ some r) × Tells r.0 r.1 × Owns r.1
unfolding srv_create
srv_create_lem o port opt iface n shut own =
    let n0 = record n { error = 0; remote_sin = no_addr } in
    let made = open_stream-Owns o n0 shut own in
    let (errno, n1) = open_stream o n0 in
    let here : Addr = record { ip = iface; port = port % u16_mod } in
    let n2 = set_flag o opt (record n1 { local_sin = here }) in
    let a = o.ask n2.log (bind_fd n2.thesock here) in
    let flagged = set_flag-Same o opt (record n1 { local_sin = here }) in
    let bound = Same-trans flagged (bind-Same o here n2) in
    let kept = Same-Owns bound made in
    let failed = record (call o (bind_fd n2.thesock here) n2) { error = a.errno } in
    elim (Bool-cases (is_open n1)) [
      | inl e ↦ elim (Bool-cases (ltb 0 (neg_part a.ret))) [
        | inl f ↦
            rw (shut, e, f, srv_create)
              (
                _,
                refl,
                sym (srv_destroy-closed o true failed kept),
                srv_destroy-Owns o true failed kept,
              )
        | inr f ↦ rw (shut, e, f, srv_create) (_, refl, refl, kept)
      ]
      | inr e ↦ rw (shut, e, srv_create) (_, refl, sym e, made)
    ]

tcp_listen-Same : (o : Os) (maxpending : ℕ) (n : Net) → Same n (tcp_listen o maxpending n).1
unfolding tcp_listen
tcp_listen-Same o maxpending n =
    let c = listen_fd n.thesock maxpending in
    let s = call-Same o c (record n { error = 0 }) refl in
    elim (Bool-cases (is_minus_one (o.ask n.log c).ret)) [
      | inl e ↦ rw e (record { still_open = s.still_open; still_held = s.still_held })
      | inr e ↦ rw e (record { still_open = s.still_open; still_held = s.still_held })
    ]

-- How a try can end: a socket that listens is open, any other is closed.
Ended : Option (Listening × Net) → Type 0
Ended none = ⊥
Ended (some (listens, n)) = (is_open n ≡ true) × Owns n
Ended (some (refused, n)) = (is_open n ≡ false) × Owns n
Ended (some (gives_up, n)) = (is_open n ≡ false) × Owns n

paused-closed : (o : Os) (n : Net) → is_open n ≡ false → is_open (call o (pause 1000000) n) ≡ false
unfolding call
paused-closed o n e = e

listen_once-Ended :
    (o : Os) (alive : Bool) (n : Net) → is_open n ≡ false → Owns n → Ended (listen_once o alive n)
unfolding listen_once Ended
listen_once-Ended o false n shut own = (shut, own)
listen_once-Ended o true n shut own =
    let (made, e, tells, kept) = srv_create_lem o spk_srv_port so_reuseaddr 0 n shut own in
    let flags = call-Same o (set_fd_flags made.1.thesock) made.1 refl in
    let flagged = call o (set_fd_flags made.1.thesock) made.1 in
    let asked = tcp_listen o 8 flagged in
    let heard = Same-trans flags (tcp_listen-Same o 8 flagged) in
    elim (Bool-cases (ltb 0 (pos_part made.0))) [
      | inl up ↦ elim (Bool-cases (pos_part asked.0 + neg_part asked.0 == 0)) [
        | inl ok ↦
            rw (e, up, ok, listen_once)
              (
                ap (λ (z : ℤ). ltb 0 (pos_part z)) heard.still_held ∙ sym tells ∙ up,
                Same-Owns heard kept,
              )
        | inr bad ↦
            let gone = (srv_destroy o true asked.1).1 in
            rw (e, up, bad, listen_once)
              (
                paused-closed o gone (srv_destroy-closed o true asked.1 (Same-Owns heard kept)),
                Same-Owns (call-Same o (pause 1000000) gone refl)
                    (srv_destroy-Owns o true asked.1 (Same-Owns heard kept)),
              )
      ]
      | inr down ↦ rw (e, down, listen_once) (sym tells ∙ down, kept)
    ]

-- listen() has returned, true with an open socket and false with a closed one.
abbrev Tried : Option (Bool × Net) → Type 0
Tried x = (r : Bool × Net) × (x ≡ some r) × (r.0 ≡ is_open r.1) × Owns r.1

go_on-Tried :
    (again : Net → Option (Bool × Net)) (t : Option (Listening × Net))
    → ((n : Net) → is_open n ≡ false → Owns n → Tried (again n))
    → Ended t
    → Tried (go_on again t)
unfolding go_on Ended
go_on-Tried again none more e = absurd e
go_on-Tried again (some (listens, n)) more (up, own) = ((true, n), refl, sym up, own)
go_on-Tried again (some (refused, n)) more (shut, own) = more n shut own
go_on-Tried again (some (gives_up, n)) more (shut, own) = ((false, n), refl, sym shut, own)

listen_from-Tried :
    (o : Os) (alive : ℕ → Bool) (more : ℕ) (n : Net)
    → is_open n ≡ false
    → Owns n
    → Tried (listen_from o alive more n)
unfolding listen_from
listen_from-Tried o alive zero n shut own =
    go_on-Tried (λ n'. some (false, n')) (listen_once o (alive 0) n)
      (λ n' down kept. ((false, n'), refl, sym down, kept))
      (listen_once-Ended o (alive 0) n shut own)
listen_from-Tried o alive (suc more) n shut own =
    go_on-Tried (listen_from o alive more) (listen_once o (alive (suc more)) n)
      (listen_from-Tried o alive more) (listen_once-Ended o (alive (suc more)) n shut own)

-- Where standard input is open, so that no new descriptor is 0, and close releases its descriptor
-- also where it fails: TcpSrv::listen on a closed socket with no descriptor left open returns after
-- its tries, whatever else the operating system answers, and fails no assertion: with true and an
-- open socket, or with false and a closed one; no other descriptor that it opened is left open.
pub listen-Tells :
    (o : Os) (alive : ℕ → Bool) (n : Net)
    → is_open n ≡ false
    → Owns n
    → (r : Bool × Net) × (listen o alive n ≡ some r) × (r.0 ≡ is_open r.1) × Owns r.1
unfolding listen
listen-Tells o alive n shut own = listen_from-Tried o alive 9 n shut own
