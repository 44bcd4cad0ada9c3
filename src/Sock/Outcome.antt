-- ===== src/Sock/Outcome.antt =====
-- What s4connect leaves behind, and when it says that a connection was made.
use the_multi_room_speaker.Base.{
  ℕ, zero, suc, ◌<◌, ◌≡◌, refl, sym, ap, ◌∙◌, Bool, true, false, ◌&&◌, Option, none, some, List,
  ◌∷◌, ltb, ◌==◌, if◌then◌else◌, arith, Bool-cases, u16_mod, ◌%◌, inl, inr, ◌⊎◌,
}
use the_multi_room_speaker.Base.Int.{ℤ, pos, negsuc, pos_part, neg_part}
use the_multi_room_speaker.Sock.Calls.{
  Addr, socket_stream, connect_fd, select_fd, pause, Log, Os, Net, is_minus_one, is_open, call,
  einprogress, set_blocking,
}
use the_multi_room_speaker.Sock.Connect.{
  connect_call, wait_writable, settle, await, finish_connect, look_up, s4_dial, s4connect,
}
use the_multi_room_speaker.Sock.Held.{Owns, Same-Owns, set_blocking-Same, cli_destroy-closed}
use the_multi_room_speaker.Sock.Dial.{
  IsMade, redial_lem, s4_dial-Owns, look_up-Same, connect_call-Same, wait_writable-Same,
}

-- Failed and closed, or a descriptor that is held with no connect under way.
abbrev pub Settled : ℤ × Net → Type 0
Settled (r, n) = ((r ≡ pos 0) × (is_open n ≡ false)) ⊎ ((r ≡ n.thesock) × (n.connecting ≡ pos 0))

settle-Settled :
    (o : Os) (resets : Bool) (err : ℤ) (n : Net) → Owns n → Settled (settle o resets err n)
unfolding settle
settle-Settled o resets err n own = elim (Bool-cases (is_minus_one err)) [
  | inl e ↦ rw e (
      inl (
        refl,
        cli_destroy-closed o true (record n { connecting = if resets then pos 0 else n.connecting })
            own,
      ))
  | inr e ↦ rw e (inr (refl, refl))
]

await-Settled :
    (o : Os) (resets : Bool) (rv : ℤ) (n : Net) → Owns n → Settled (await o false resets rv n)
unfolding await
await-Settled o resets rv n own =
    let waiting = record n { connecting = pos 1 } in
    let waited = wait_writable o (o.patience n.log) rv waiting in
    let kept = Same-Owns (wait_writable-Same o (o.patience n.log) rv waiting) own in
    elim (Bool-cases waited.0) [
      | inl e ↦ rw e (inr (refl, refl))
      | inr e ↦ rw e (settle-Settled o resets waited.1 waited.2 kept)
    ]

finish_connect-Settled :
    (o : Os) (resets : Bool) (n : Net) → Owns n → Settled (finish_connect o false resets n)
unfolding finish_connect
finish_connect-Settled o resets n own =
    let called = connect_call o (record n { connecting = pos 0 }) in
    let error : ℕ = if is_minus_one called.0 then called.1 else n.error in
    let n2 = record (called.2) { error = error } in
    let kept = Same-Owns (connect_call-Same o (record n { connecting = pos 0 })) own in
    elim (Bool-cases (error == einprogress)) [
      | inl e ↦ rw e (await-Settled o resets called.0 n2 kept)
      | inr e ↦ rw e (settle-Settled o resets called.0 n2 kept)
    ]

set_blocking_lem :
    (o : Os) (b : ℕ) (n : Net)
    → ((set_blocking o b n).thesock ≡ n.thesock) × ((set_blocking o b n).connecting ≡ n.connecting)
unfolding set_blocking call
set_blocking_lem o b n = ground arith

blocked-Settled :
    (o : Os) (b : ℕ) (r : ℤ) (n : Net) → Settled (r, n) → Settled (r, set_blocking o b n)
blocked-Settled o b r n s =
    let (t, c) = set_blocking_lem o b n in
    elim s [
      | inl (e, shut) ↦ inl (e, ap (λ (z : ℤ). ltb 0 (pos_part z)) t ∙ shut)
      | inr (e, done) ↦ inr (e ∙ sym t, c ∙ done)
    ]

s4_dial-Settled :
    (o : Os) (sip : List ℕ) (ip : Option ℕ) (port : ℕ) (n : Net)
    → Owns n
    → Settled (s4_dial o false sip ip port n)
unfolding s4_dial
s4_dial-Settled o sip ip port n own =
    let n0 = set_blocking o n.blocking n in
    let n1 = look_up o sip n0 in
    let found =
      Same-Owns (look_up-Same o sip n0) (Same-Owns (set_blocking-Same o n.blocking n) own) in
    let there : Addr = record {
      ip = elim ip [ none ↦ n1.remote_sin.ip | some a ↦ a ];
      port = port % u16_mod;
    } in
    let aimed = record n1 { remote_sin = there } in
    let done = finish_connect o false true (set_blocking o 0 aimed) in
    blocked-Settled o n1.blocking done.0 done.1 (
      finish_connect-Settled o true (set_blocking o 0 aimed)
        (Same-Owns (set_blocking-Same o 0 aimed) found))

negative-closed : (z : ℤ) → ltb 0 (neg_part z) ≡ true → ltb 0 (pos_part z) ≡ false
negative-closed (pos k) e = ground (arith, e)
negative-closed (negsuc k) e = refl

-- Where standard input is open, so that no new descriptor is 0, and close releases its descriptor
-- also where it fails: on a socket that has no other descriptor open than the one it holds,
-- s4connect without pUser returns on every path without failing its assertion: it returns 0 and the
-- socket is closed, or it returns the descriptor that the socket holds and no connect is under way;
-- nothing else that the socket opened is left open.
pub s4connect-Settled :
    (o : Os) (sip : List ℕ) (ip : Option ℕ) (port : ℕ) (n : Net)
    → Owns n
    → (r : ℤ × Net) × (s4connect o false sip ip port n ≡ some r) × Settled r × Owns r.1
unfolding s4connect
s4connect-Settled o sip ip port n own =
    let (r, e, settled) =
      redial_lem (λ (r : ℤ × Net). Settled r × Owns r.1) o (s4_dial o false sip ip port) n
        (λ n' m z k. (s4_dial-Settled o sip ip port n' k, s4_dial-Owns o false sip ip port n' k))
        (λ n' m e k. (inl (refl, negative-closed n'.thesock e), k)) own in
    (r, e, settled.0, settled.1)

quiet_lem : (z : ℤ) (b : Bool) → z ≡ pos 0 → (ltb 0 (pos_part z) && b) ≡ false
quiet_lem z b e = ground (arith, e)

wait_silent :
    (o : Os) (patience : ℕ) (err : ℤ) (n : Net)
    → ((l : Log) (fd : ℤ) → (o.ask l (select_fd fd)).ret ≡ pos 0)
    → 0 < patience
    → let waited = wait_writable o patience err n in
      (waited.0 ≡ false) × (waited.1 ≡ pos 0) × (waited.2.thesock ≡ n.thesock)
unfolding wait_writable call
wait_silent o zero err n silent h = absurd (omega arith)
wait_silent o (suc zero) err n silent h =
    rw (quiet_lem _ _ (silent n.log n.thesock)) (refl, silent n.log n.thesock, refl)
wait_silent o (suc (suc more)) err n silent h =
    let asked = call o (pause 10000) (call o (select_fd n.thesock) n) in
    let (unready, timed_out, same) =
      wait_silent o (suc more) (o.ask n.log (select_fd n.thesock)).ret asked silent (omega arith) in
    rw (quiet_lem _ _ (silent n.log n.thesock)) (unready, timed_out, same)

settle_timed_out :
    (o : Os) (resets : Bool) (err : ℤ) (n : Net)
    → err ≡ pos 0
    → settle o resets err n ≡ (n.thesock, record n { connecting = pos 0 })
unfolding settle
settle_timed_out o resets err n e = rw e

made_lem : (z : ℤ) (fd : ℕ) → z ≡ pos (suc fd) → ltb 0 (neg_part z) ≡ true → ⊥
made_lem z fd m e = ground (arith, m, e)

module _ (o : Os) (fd : ℕ) (sockets : (l : Log) → (o.ask l socket_stream).ret ≡ pos (suc fd))
    (under_way : (l : Log) (f : ℤ) (a : Addr) → (o.ask l (connect_fd f a)).ret ≡ negsuc 0)
    (in_progress : (l : Log) (f : ℤ) (a : Addr) → (o.ask l (connect_fd f a)).errno ≡ einprogress)
    (silent : (l : Log) (f : ℤ) → (o.ask l (select_fd f)).ret ≡ pos 0)
    (patient : (l : Log) → 0 < o.patience l) where
  await_unanswered :
      (n : Net)
      → ((await o false true (negsuc 0) n).0 ≡ n.thesock)
        × ((await o false true (negsuc 0) n).1.connecting ≡ pos 0)
  unfolding await settle
  await_unanswered n =
      let waiting = record n { connecting = pos 1 } in
      let waited = wait_writable o (o.patience n.log) (negsuc 0) waiting in
      let (unready, timed_out, same) =
        wait_silent o (o.patience n.log) (negsuc 0) waiting silent (patient n.log) in
      let settled = settle_timed_out o true waited.1 waited.2 timed_out in
      rw unready
        (ap (λ (r : ℤ × Net). r.0) settled ∙ same, ap (λ (r : ℤ × Net). r.1.connecting) settled)

  finish_unanswered :
      (n : Net)
      → ((finish_connect o false true n).0 ≡ n.thesock)
        × ((finish_connect o false true n).1.connecting ≡ pos 0)
  unfolding finish_connect connect_call call
  finish_unanswered n =
      rw (under_way n.log n.thesock n.remote_sin, in_progress n.log n.thesock n.remote_sin)
        (await_unanswered (record n {
          error = einprogress;
          connecting = pos 0;
          log = (connect_fd n.thesock n.remote_sin, negsuc 0) ∷ n.log;
        }))

  s4_dial_unanswered :
      (sip : List ℕ) (ip : Option ℕ) (port : ℕ) (n : Net)
      → ((s4_dial o false sip ip port n).0 ≡ n.thesock)
        × ((s4_dial o false sip ip port n).1.connecting ≡ pos 0)
  unfolding s4_dial
  s4_dial_unanswered sip ip port n =
      let n1 = look_up o sip (set_blocking o n.blocking n) in
      let there : Addr = record {
        ip = elim ip [ none ↦ n1.remote_sin.ip | some a ↦ a ];
        port = port % u16_mod;
      } in
      let aimed = record n1 { remote_sin = there } in
      let (same, done) = finish_unanswered (set_blocking o 0 aimed) in
      let found = look_up-Same o sip (set_blocking o n.blocking n) in
      (
        same
            ∙ (set_blocking_lem o 0 aimed).0
            ∙ found.still_held
            ∙ (set_blocking_lem o n.blocking n).0,
        (set_blocking_lem o n1.blocking _).1 ∙ done,
      )

  -- With standard input open, so that no new descriptor is 0, on a socket that has no other
  -- descriptor open than the one it holds: if the operating system makes sockets, a connect stays
  -- in progress, every select runs into its time-out and the callback lets it wait at least once,
  -- s4connect returns the descriptor, as if a connection had been made, and notes that none is
  -- under way.
  pub s4connect_unanswered :
      (sip : List ℕ) (ip : Option ℕ) (port : ℕ) (n : Net)
      → Owns n
      → (r : ℤ × Net) × (s4connect o false sip ip port n ≡ some r)
        × (r.0 ≡ pos (suc fd))
        × (r.1.connecting ≡ pos 0)
  unfolding s4connect
  s4connect_unanswered sip ip port n own =
      let (r, e, done) =
        redial_lem (λ (r : ℤ × Net). (r.0 ≡ pos (suc fd)) × (r.1.connecting ≡ pos 0)) o
          (s4_dial o false sip ip port) n (λ n' m z k. dialled n' m)
          (λ n' m e k. absurd (never n' m e)) own in
      (r, e, done.0, done.1)
    where
      dialled :
          (n' : Net)
          → IsMade o n'
          → ((s4_dial o false sip ip port n').0 ≡ pos (suc fd))
            × ((s4_dial o false sip ip port n').1.connecting ≡ pos 0)
      dialled n' (l, m) =
          let (same, done) = s4_dial_unanswered sip ip port n' in (same ∙ m ∙ sockets l, done)

      never : (n' : Net) → IsMade o n' → ltb 0 (neg_part n'.thesock) ≡ true → ⊥
      never n' (l, m) e = made_lem n'.thesock fd (m ∙ sockets l) e
