-- ===== src/Client/Rounds.antt =====
-- The rounds of sclient::_tmain: every one ends with a socket that the next can dial with.
use the_multi_room_speaker.Base.{
  ℕ, ◌≡◌, refl, ap, ◌∙◌, Bool, true, false, some, List, [], ◌∷◌, ltb, arith, Bool-cases, inl, inr,
  ◌⊎◌,
}
use the_multi_room_speaker.Base.Int.{ℤ, pos_part}
use the_multi_room_speaker.Sock.Calls.{
  recv_fd, select_fd, pause, Os, Net, is_open, call, set_mtu, cli_destroy,
}
use the_multi_room_speaker.Sock.Connect.{is_really_connected}
use the_multi_room_speaker.Sock.Held.{
  Owns, Same, Same-Owns, set_blocking-Same, set_mtu-Same, cli_destroy-Owns, cli_destroy-closed,
  call-Same,
}
use the_multi_room_speaker.Sock.Outcome.{s4connect-Settled}
use the_multi_room_speaker.Sock.Flags.{
  IsCalm, cli_destroy-IsCalm, s4connect-IsCalm, set_blocking-IsCalm,
}
use the_multi_room_speaker.Wire.{spk_srv_port, tcp_mtu}
use the_multi_room_speaker.Client.Link.{Servers, dial_each, follow, link_round, tmain}

-- The socket is closed, no flag says otherwise, and no descriptor is left open.
pub record IsIdle (n : Net) : Type 0 where
  pub is_shut : is_open n ≡ false
  pub calm : IsCalm n
  pub owns : Owns n

-- What the socket is while it is not idle: a descriptor is held, and it is open or no flag is up.
record IsTidy (n : Net) : Type 0 where
  calm_or_open : (is_open n ≡ true) ⊎ IsCalm n
  holds : Owns n

destroy-IsIdle : (o : Os) (n : Net) → IsTidy n → IsIdle (cli_destroy o true n).1
destroy-IsIdle o n t = record {
  is_shut = cli_destroy-closed o true n t.holds;
  calm = cli_destroy-IsCalm o true n t.calm_or_open;
  owns = cli_destroy-Owns o true n t.holds;
}

Same-IsTidy : {n n' : Net} → Same n n' → (IsCalm n → IsCalm n') → IsTidy n → IsTidy n'
Same-IsTidy s calms t = record {
  calm_or_open = elim t.calm_or_open [
    | inl e ↦ inl (ap (λ (z : ℤ). ltb 0 (pos_part z)) s.still_held ∙ e)
    | inr c ↦ inr (calms c)
  ];
  holds = Same-Owns s t.holds;
}

select-IsTidy : (o : Os) (n : Net) → IsTidy n → IsTidy (call o (select_fd n.thesock) n)
unfolding call
select-IsTidy o n =
    Same-IsTidy (call-Same o (select_fd n.thesock) n refl)
      (λ c. record { not_connecting = c.not_connecting; not_connected = c.not_connected })

recv-IsTidy : (o : Os) (fd : ℤ) (n : Net) → IsTidy n → IsTidy (call o (recv_fd fd) n)
unfolding call
recv-IsTidy o fd n =
    Same-IsTidy (call-Same o (recv_fd fd) n refl)
      (λ c. record { not_connecting = c.not_connecting; not_connected = c.not_connected })

follow-IsTidy : (o : Os) (waits : List Bool) (n : Net) → IsTidy n → IsTidy (follow o waits n)
unfolding follow
follow-IsTidy o [] n t = elim (Bool-cases (is_open n)) [
  | inl e ↦
      let idle = destroy-IsIdle o _ (recv-IsTidy o n.thesock _ (select-IsTidy o n t)) in
      rw e (record { calm_or_open = inr idle.calm; holds = idle.owns })
  | inr e ↦ rw e t
]
follow-IsTidy o (arrived ∷ waits) n t =
    let asked = select-IsTidy o n t in
    elim (Bool-cases (is_open n)) [
      | inl e ↦ elim (Bool-cases arrived) [
        | inl a ↦ rw (e, a) (follow-IsTidy o waits _ (recv-IsTidy o n.thesock _ asked))
        | inr a ↦ rw (e, a) (follow-IsTidy o waits _ asked)
      ]
      | inr e ↦ rw e t
    ]

set_mtu-IsCalm : (o : Os) (mtu : ℕ) (n : Net) → IsCalm n → IsCalm (set_mtu o mtu n)
unfolding set_mtu call
set_mtu-IsCalm o mtu n c = ground (arith, c.not_connecting, c.not_connected)

paused-IsIdle : (o : Os) (n : Net) → IsIdle n → IsIdle (call o (pause 1000000) n)
unfolding call
paused-IsIdle o n i = record {
  is_shut = i.is_shut;
  calm = record { not_connecting = i.calm.not_connecting; not_connected = i.calm.not_connected };
  owns = Same-Owns (call-Same o (pause 1000000) n refl) i.owns;
}

-- What is left by dialling: a socket that is tidy, and calm.
dial_each-IsTidy :
    (o : Os) (ips : Servers) (n : Net)
    → IsIdle n
    → (n' : Net) × (dial_each o ips n ≡ some n') × IsTidy n' × IsCalm n'
unfolding dial_each
dial_each-IsTidy o [] n i = (n, refl, record { calm_or_open = inr i.calm; holds = i.owns }, i.calm)
dial_each-IsTidy o ((sip, ip) ∷ ips) n i =
    let ready = paused-IsIdle o n i in
    let (r, e, settled, own) =
      s4connect-Settled o sip ip spk_srv_port (call o (pause 1000000) n) ready.owns in
    let calm = s4connect-IsCalm o sip ip spk_srv_port (call o (pause 1000000) n) ready.calm r e in
    let t : IsTidy r.1 = record { calm_or_open = inr calm; holds = own } in
    elim (Bool-cases (ltb 0 (pos_part r.0))) [
      | inl up ↦ rw (e, up, dial_each) (r.1, refl, t, calm)
      | inr down ↦
          rw (e, down, dial_each)
            (dial_each-IsTidy o ips (cli_destroy o true r.1).1 (destroy-IsIdle o r.1 t))
    ]

-- A closed socket that was not connected asks nothing.
IsIdle-unconnected :
    (o : Os) (n : Net)
    → IsIdle n
    → ((is_really_connected o n).0 ≡ false) × IsIdle (is_really_connected o n).1
unfolding is_really_connected
IsIdle-unconnected o n i = rw i.is_shut (i.calm.not_connected, i)

link_round-IsIdle :
    (o : Os) (waits : List Bool) (ips : Servers) (n : Net)
    → IsIdle n
    → (n' : Net) × (link_round o waits ips n ≡ some n') × IsIdle n'
unfolding link_round
link_round-IsIdle o waits ips n i =
    let (unconnected, asked) = IsIdle-unconnected o n i in
    let (n2, e, t, calm) = dial_each-IsTidy o ips (is_really_connected o n).1 asked in
    let sized = Same-IsTidy (set_mtu-Same o tcp_mtu n2) (set_mtu-IsCalm o tcp_mtu n2) t in
    let slow =
      Same-IsTidy (set_blocking-Same o 1 (set_mtu o tcp_mtu n2))
        (set_blocking-IsCalm o 1 (set_mtu o tcp_mtu n2)) sized in
    rw (unconnected, asked.calm.not_connecting, e, link_round)
      (_, refl, destroy-IsIdle o _ (follow-IsTidy o waits _ slow))

-- Where standard input is open, so that no new descriptor is 0, and close releases its descriptor
-- also where it fails: a client that starts with its socket closed, both flags down and no
-- descriptor left open comes back to that after any number of rounds, whatever else the operating
-- system answers, however many servers there are and however long each connection lasts; no
-- assertion fails.
pub tmain-IsIdle :
    (o : Os) (rounds : List (List Bool)) (ips : Servers) (n : Net)
    → IsIdle n
    → (n' : Net) × (tmain o rounds ips n ≡ some n') × IsIdle n'
unfolding tmain
tmain-IsIdle o [] ips n i = (n, refl, i)
tmain-IsIdle o (waits ∷ rounds) ips n i =
    let (n1, e, i1) = link_round-IsIdle o waits ips n i in
    rw (e, tmain) (tmain-IsIdle o rounds ips n1 i1)
