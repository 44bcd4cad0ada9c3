-- ===== src/Sock/Held.antt =====
-- Which descriptors are open: a socket keeps the one it holds, and no other.
use the_multi_room_speaker.Base.{
  ℕ, zero, suc, ◌≡◌, refl, sym, ap, ◌∙◌, Bool, true, false, List, [], ◌∷◌, ◌++◌, ltb, ◌==◌,
  if◌then◌else◌, arith, Bool-cases, inl, inr,
}
use the_multi_room_speaker.Base.Int.{ℤ, pos, negsuc, pos_part, neg_part}
use the_multi_room_speaker.Sock.Calls.{
  Call, socket_stream, socket_dgram, accept_from, close_fd, recv_fd, shutdown_fd, pause, so_sndbuf,
  so_rcvbuf, Log, Os, Net, is_zero, is_minus_one, is_open, call, set_blocking, set_option, set_mtu,
  set_buffers, close_loop, sock_destroy, drain, empty_out, cli_destroy, srv_destroy,
}

abbrev pub remove : ℕ → List ℕ → List ℕ
remove f [] = []
remove f (x ∷ xs) = let rest = remove f xs in if x == f then rest else x ∷ rest

-- The descriptor that a socket holds: a positive one.
abbrev pub owned : ℤ → List ℕ
owned z = if ltb 0 (pos_part z) then pos_part z ∷ [] else []

-- A descriptor that a call has opened; 0 is one.
abbrev pub opened : ℤ → List ℕ
opened z = if neg_part z == 0 then pos_part z ∷ [] else []

pub opened-owned : (z : ℤ) → is_zero z ≡ false → opened z ≡ owned z
opened-owned z e = ground (arith, e)

-- The descriptors that the calls of a log have opened and not closed. close releases its descriptor also
-- where it fails, as close(2) says of Linux.
unfoldable pub held : Log → List ℕ
held [] = []
held ((socket_stream, r) ∷ l) = opened r ++ held l
held ((socket_dgram p, r) ∷ l) = opened r ++ held l
held ((accept_from f, r) ∷ l) = opened r ++ held l
held ((close_fd f, r) ∷ l) = remove (pos_part f) (held l)
held ((c, r) ∷ l) = held l

-- The socket's own descriptor is open, and nothing else that it opened.
abbrev pub Owns : Net → Type 0
Owns n = held n.log ≡ owned n.thesock

-- The same descriptor is held, and as many are open.
pub record Same (n n' : Net) : Type 0 where
  pub still_open : held n'.log ≡ held n.log
  pub still_held : n'.thesock ≡ n.thesock

pub Same-Owns : {n n' : Net} → Same n n' → Owns n → Owns n'
Same-Owns s own = s.still_open ∙ own ∙ ap owned (sym s.still_held)

pub Same-trans : {n n' n'' : Net} → Same n n' → Same n' n'' → Same n n''
Same-trans s s' = record {
  still_open = s'.still_open ∙ s.still_open;
  still_held = s'.still_held ∙ s.still_held;
}

pub set_blocking-Same : (o : Os) (b : ℕ) (n : Net) → Same n (set_blocking o b n)
unfolding set_blocking held
set_blocking-Same o b n = ground arith

pub set_mtu-Same : (o : Os) (mtu : ℕ) (n : Net) → Same n (set_mtu o mtu n)
unfolding set_mtu held
set_mtu-Same o mtu n = ground arith

set_option-Same : (o : Os) (option value : ℕ) (n : Net) → Same n (set_option o option value n).1
unfolding set_option held
set_option-Same o option value n = ground arith

pub set_buffers-Same : (o : Os) (n : Net) → Same n (set_buffers o n)
unfolding set_buffers
set_buffers-Same o n =
    let sent = (set_option o so_sndbuf n.snd_buffer n).1 in
    ground (
      arith,
      set_option-Same o so_sndbuf n.snd_buffer n,
      set_option-Same o so_rcvbuf n.rcv_buffer sent,
    )

drain-Same : (o : Os) (more : ℕ) (n : Net) → Same n (drain o more n)
unfolding drain held
drain-Same o zero n = record { still_open = refl; still_held = refl }
drain-Same o (suc more) n =
    let s = drain-Same o more (call o (recv_fd n.thesock) n) in
    record { still_open = s.still_open; still_held = s.still_held }

-- However often close is tried, the descriptor is not open any more.
close_loop_lem :
    (o : Os) (k : ℕ) (n : Net)
    → remove (pos_part n.thesock) (held n.log) ≡ []
    → held (close_loop o k n).log ≡ []
unfolding close_loop held
close_loop_lem o zero n e = e
close_loop_lem o (suc k) n e =
    let a = o.ask n.log (close_fd n.thesock) in
    let n' = call o (pause 255) (record (call o (close_fd n.thesock) n) { error = a.errno }) in
    elim (Bool-cases (is_minus_one a.ret)) [
      | inl failed ↦ rw failed (close_loop_lem o k n' (ap (remove (pos_part n.thesock)) e))
      | inr done ↦ rw done e
    ]

remove-owned : (z : ℤ) → remove (pos_part z) (owned z) ≡ []
remove-owned z = ground arith

pub owned-closed : (z : ℤ) → ltb 0 (pos_part z) ≡ false → owned z ≡ []
owned-closed z e = ground arith

pub sock_destroy_lem :
    (o : Os) (n : Net)
    → Owns n
    → (held (sock_destroy o n).1.log ≡ []) × ((sock_destroy o n).1.thesock ≡ negsuc 0)
unfolding sock_destroy
sock_destroy_lem o n own = elim (Bool-cases (is_open n)) [
  | inl e ↦
      rw (e, sock_destroy)
        (
          close_loop_lem o 31 (record n { set_mask = 0 })
              (ap (remove (pos_part n.thesock)) own ∙ remove-owned n.thesock),
          refl,
        )
  | inr e ↦ rw (e, sock_destroy) (own ∙ owned-closed n.thesock e, refl)
]

pub sock_destroy-Owns : (o : Os) (n : Net) → Owns n → Owns (sock_destroy o n).1
sock_destroy-Owns o n own = let (h, t) = sock_destroy_lem o n own in h ∙ ap owned (sym t)

-- The calls that open and close nothing.
abbrev pub opens_nothing : Call → Bool
opens_nothing socket_stream = false
opens_nothing (socket_dgram p) = false
opens_nothing (accept_from f) = false
opens_nothing (close_fd f) = false
opens_nothing c = true

held_lem : (c : Call) (r : ℤ) (l : Log) → opens_nothing c ≡ true → held ((c, r) ∷ l) ≡ held l
unfolding held
held_lem socket_stream r l e = cc
held_lem (socket_dgram p) r l e = cc
held_lem (accept_from f) r l e = cc
held_lem (close_fd f) r l e = cc
held_lem c r l e = refl

pub call-Same : (o : Os) (c : Call) (n : Net) → opens_nothing c ≡ true → Same n (call o c n)
unfolding call held
call-Same o c n e = record {
  still_open = held_lem c (o.ask n.log c).ret n.log e;
  still_held = refl;
}

pub empty_out-Same : (o : Os) (emptyit : Bool) (n : Net) → Same n (empty_out o emptyit n)
unfolding empty_out
empty_out-Same o true n =
    let down = call o (shutdown_fd n.thesock) n in
    let quick = set_blocking o 0 down in
    let drained = drain o (o.backlog quick.log) quick in
    let again = call o (shutdown_fd n.thesock) drained in
    Same-trans (call-Same o (shutdown_fd n.thesock) n refl) (
      Same-trans (set_blocking-Same o 0 down) (
        Same-trans (drain-Same o (o.backlog quick.log) quick) (
          Same-trans (call-Same o (shutdown_fd n.thesock) drained refl)
            (set_blocking-Same o n.blocking again))))
empty_out-Same o false n = call-Same o (shutdown_fd n.thesock) n refl

-- After destroy no descriptor is held.
pub cli_destroy-Owns :
    (o : Os) (emptyit : Bool) (n : Net) → Owns n → Owns (cli_destroy o emptyit n).1
unfolding cli_destroy
cli_destroy-Owns o emptyit n own = elim (Bool-cases (is_open n)) [
  | inl e ↦
      let reset = record n { connecting = pos 0; connected = false } in
      rw e (sock_destroy-Owns o _ (Same-Owns (empty_out-Same o emptyit reset) own))
  | inr e ↦ rw e own
]

pub srv_destroy-Owns :
    (o : Os) (emptyit : Bool) (n : Net) → Owns n → Owns (srv_destroy o emptyit n).1
unfolding srv_destroy
srv_destroy-Owns o emptyit n own = elim (Bool-cases (is_open n)) [
  | inl e ↦ rw e (sock_destroy-Owns o _ (Same-Owns (empty_out-Same o emptyit n) own))
  | inr e ↦ rw e own
]

pub cli_destroy-closed :
    (o : Os) (emptyit : Bool) (n : Net) → Owns n → is_open (cli_destroy o emptyit n).1 ≡ false
unfolding cli_destroy
cli_destroy-closed o emptyit n own = elim (Bool-cases (is_open n)) [
  | inl e ↦
      let reset = record n { connecting = pos 0; connected = false } in
      let (h, t) =
        sock_destroy_lem o (empty_out o emptyit reset)
          (Same-Owns (empty_out-Same o emptyit reset) own) in
      rw e (ap (λ (z : ℤ). ltb 0 (pos_part z)) t)
  | inr e ↦ rw e e
]

pub srv_destroy-closed :
    (o : Os) (emptyit : Bool) (n : Net) → Owns n → is_open (srv_destroy o emptyit n).1 ≡ false
unfolding srv_destroy
srv_destroy-closed o emptyit n own = elim (Bool-cases (is_open n)) [
  | inl e ↦
      let (h, t) =
        sock_destroy_lem o (empty_out o emptyit n) (Same-Owns (empty_out-Same o emptyit n) own) in
      rw e (ap (λ (z : ℤ). ltb 0 (pos_part z)) t)
  | inr e ↦ rw e e
]
