-- ===== src/Sock/Answered.antt =====
-- s4connect, to a server that answers at once.
use the_multi_room_speaker.Base.{
  ℕ, suc, ◌≡◌, refl, sym, ◌∙◌, true, false, some, List, ltb, arith, subst, u16_mod, ◌%◌,
}
use the_multi_room_speaker.Base.Int.{ℤ, pos, neg_part}
use the_multi_room_speaker.Sock.Calls.{
  Addr, socket_stream, connect_fd, Log, Os, Net, call, set_blocking,
}
use the_multi_room_speaker.Sock.Connect.{
  settle, finish_connect, connect_call, look_up, s4_dial, s4connect,
}
use the_multi_room_speaker.Sock.Held.{Owns}
use the_multi_room_speaker.Sock.Dial.{IsMade, redial_lem}

-- What setting up the address leaves as it was.
record Aims (n n' : Net) : Type 0 where
  same_socket : n'.thesock ≡ n.thesock
  same_error : n'.error ≡ n.error
  same_target : n'.remote_sin ≡ n.remote_sin

set_blocking-Aims : (o : Os) (b : ℕ) (n : Net) → Aims n (set_blocking o b n)
unfolding set_blocking call
set_blocking-Aims o b n = ground arith

look_up-Aims : (o : Os) (name : List ℕ) (n : Net) → Aims n (look_up o name n)
unfolding look_up call
look_up-Aims o name n = ground arith

-- A socket can be made, and a connect to the address is answered at once.
pub record Answers (o : Os) (fd : ℕ) (there : Addr) : Type 0 where
  pub sockets : (l : Log) → (o.ask l socket_stream).ret ≡ pos (suc fd)
  pub accepts : (l : Log) (f : ℤ) → (o.ask l (connect_fd f there)).ret ≡ pos 0

finish_answered :
    (o : Os) (fd : ℕ) (n : Net)
    → Answers o fd n.remote_sin
    → n.error ≡ 0
    → (finish_connect o false true n).0 ≡ n.thesock
unfolding finish_connect connect_call settle call
finish_answered o fd n ans z = rw (ans.accepts n.log n.thesock, z) refl

s4_dial_answered :
    (o : Os) (fd : ℕ) (sip : List ℕ) (ip port : ℕ) (n : Net)
    → Answers o fd (record { ip = ip; port = port % u16_mod })
    → n.error ≡ 0
    → (s4_dial o false sip (some ip) port n).0 ≡ n.thesock
unfolding s4_dial
s4_dial_answered o fd sip ip port n ans z =
    let n1 = look_up o sip (set_blocking o n.blocking n) in
    let aimed = record n1 { remote_sin = record { ip = ip; port = port % u16_mod } } in
    let quick = set_blocking-Aims o 0 aimed in
    let slow = set_blocking-Aims o n.blocking n in
    let found = look_up-Aims o sip (set_blocking o n.blocking n) in
    finish_answered o fd (set_blocking o 0 aimed) (subst (Answers o fd) (sym quick.same_target) ans)
      (quick.same_error ∙ found.same_error ∙ slow.same_error ∙ z)
    ∙ quick.same_socket
    ∙ found.same_socket
    ∙ slow.same_socket

-- A connect that is answered at once returns the descriptor that was made for it.
pub s4connect_answered :
    (o : Os) (fd : ℕ) (sip : List ℕ) (ip port : ℕ) (n : Net)
    → Answers o fd (record { ip = ip; port = port % u16_mod })
    → Owns n
    → (r : ℤ × Net) × (s4connect o false sip (some ip) port n ≡ some r) × (r.0 ≡ pos (suc fd))
unfolding s4connect
s4connect_answered o fd sip ip port n ans own =
    redial_lem (λ (r : ℤ × Net). r.0 ≡ pos (suc fd)) o (s4_dial o false sip (some ip) port) n
      (λ n' m z k. s4_dial_answered o fd sip ip port n' ans z ∙ m.1 ∙ ans.sockets m.0)
      (λ n' m e k. absurd (never n' m e)) own
  where
    never : (n' : Net) → IsMade o n' → ltb 0 (neg_part n'.thesock) ≡ true → ⊥
    never n' m e = let at = m.1 ∙ ans.sockets m.0 in ground (arith, at, e)
