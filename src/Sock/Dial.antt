-- ===== src/Sock/Dial.antt =====
-- Connecting keeps the socket's descriptor, on every path.
use the_multi_room_speaker.Base.{
  ℕ, zero, suc, ◌≡◌, refl, ap, ◌∙◌, Bool, true, false, ◌&&◌, Option, none, some, List, [], ◌++◌,
  ltb, ◌==◌, if◌then◌else◌, arith, Bool-cases, u16_mod, ◌%◌, inl, inr,
}
use the_multi_room_speaker.Base.Int.{ℤ, pos, negsuc, pos_part, neg_part}
use mathlib.Core.List.{append-nil}
use the_multi_room_speaker.Sock.Calls.{
  Addr, socket_stream, connect_fd, select_fd, peer_name, resolve, set_opt, pause, Log, Os, Net,
  is_minus_one, is_open, call, einprogress, set_blocking, set_buffers,
}
use the_multi_room_speaker.Sock.Create.{open_stream, set_flag}
use the_multi_room_speaker.Sock.Connect.{
  is_really_connected, connect_call, sin_dial, raw_waited, raw_dial, raw_connect, wait_writable,
  settle, await, finish_connect, look_up, s4_dial, i4_dial, hang_up, redial,
}
use the_multi_room_speaker.Sock.Held.{
  opened, opened-owned, owned-closed, held, Owns, Same, Same-Owns, Same-trans, set_blocking-Same,
  set_buffers-Same, call-Same, cli_destroy-Owns, cli_destroy-closed,
}

pub open_stream-Owns : (o : Os) (n : Net) → is_open n ≡ false → Owns n → Owns (open_stream o n).1
unfolding open_stream call held
open_stream-Owns o n e own =
    let r = (o.ask n.log socket_stream).ret in
    ap (λ (l : List ℕ). opened r ++ l) (own ∙ owned-closed n.thesock e)
    ∙ append-nil (opened r)
    ∙ opened-owned r (o.stream_spares n.log)

pub set_flag-Same : (o : Os) (opt : ℕ) (n : Net) → Same n (set_flag o opt n)
unfolding set_flag
set_flag-Same o opt n = elim (Bool-cases (opt == 0)) [
  | inl e ↦ rw e (record { still_open = refl; still_held = refl })
  | inr e ↦ rw e (call-Same o (set_opt n.thesock opt 1) n refl)
]

pub connect_call-Same : (o : Os) (n : Net) → Same n (connect_call o n).2
unfolding connect_call
connect_call-Same o n = call-Same o (connect_fd n.thesock n.remote_sin) n refl

pub is_really_connected-Same : (o : Os) (n : Net) → Same n (is_really_connected o n).1
unfolding is_really_connected
is_really_connected-Same o n =
    let s = call-Same o (peer_name n.thesock) n refl in ground (arith, s.still_open, s.still_held)

pub wait_writable-Same :
    (o : Os) (patience : ℕ) (err : ℤ) (n : Net) → Same n (wait_writable o patience err n).2
unfolding wait_writable
wait_writable-Same o zero err n = record { still_open = refl; still_held = refl }
wait_writable-Same o (suc more) err n =
    let a = o.ask n.log (select_fd n.thesock) in
    let asked = call o (select_fd n.thesock) n in
    let s = call-Same o (select_fd n.thesock) n refl in
    elim (Bool-cases (ltb 0 (pos_part a.ret) && a.is_set)) [
      | inl e ↦ rw e s
      | inr e ↦ rw e (
          Same-trans s (
            Same-trans (call-Same o (pause 10000) asked refl)
              (wait_writable-Same o more a.ret (call o (pause 10000) asked))))
    ]

settle-Owns : (o : Os) (resets : Bool) (err : ℤ) (n : Net) → Owns n → Owns (settle o resets err n).1
unfolding settle
settle-Owns o resets err n own = elim (Bool-cases (is_minus_one err)) [
  | inl e ↦ rw e (
      cli_destroy-Owns o true (record n { connecting = if resets then pos 0 else n.connecting })
        own)
  | inr e ↦ rw e own
]

await-Owns :
    (o : Os) (at_once resets : Bool) (rv : ℤ) (n : Net)
    → Owns n
    → Owns (await o at_once resets rv n).1
unfolding await
await-Owns o true resets rv n own = own
await-Owns o false resets rv n own =
    let waiting = record n { connecting = pos 1 } in
    let waited = wait_writable o (o.patience n.log) rv waiting in
    let kept = Same-Owns (wait_writable-Same o (o.patience n.log) rv waiting) own in
    elim (Bool-cases waited.0) [
      | inl e ↦ rw e kept
      | inr e ↦ rw e (settle-Owns o resets waited.1 waited.2 kept)
    ]

finish_connect-Owns :
    (o : Os) (at_once resets : Bool) (n : Net) → Owns n → Owns (finish_connect o at_once resets n).1
unfolding finish_connect
finish_connect-Owns o at_once resets n own =
    let called = connect_call o (record n { connecting = pos 0 }) in
    let error : ℕ = if is_minus_one called.0 then called.1 else n.error in
    let n2 = record (called.2) { error = error } in
    let kept = Same-Owns (connect_call-Same o (record n { connecting = pos 0 })) own in
    elim (Bool-cases (error == einprogress)) [
      | inl e ↦ rw e (await-Owns o at_once resets called.0 n2 kept)
      | inr e ↦ rw e (settle-Owns o resets called.0 n2 kept)
    ]

pub look_up-Same : (o : Os) (name : List ℕ) (n : Net) → Same n (look_up o name n)
unfolding look_up
look_up-Same o name n =
    let s = call-Same o (resolve name) n refl in ground (arith, s.still_open, s.still_held)

pub s4_dial-Owns :
    (o : Os) (at_once : Bool) (sip : List ℕ) (ip : Option ℕ) (port : ℕ) (n : Net)
    → Owns n
    → Owns (s4_dial o at_once sip ip port n).1
unfolding s4_dial
s4_dial-Owns o at_once sip ip port n own =
    let n0 = set_blocking o n.blocking n in
    let n1 = look_up o sip n0 in
    let found =
      Same-Owns (look_up-Same o sip n0) (Same-Owns (set_blocking-Same o n.blocking n) own) in
    let there : Addr = record {
      ip = elim ip [ none ↦ n1.remote_sin.ip | some a ↦ a ];
      port = port % u16_mod;
    } in
    let aimed = record n1 { remote_sin = there } in
    Same-Owns (set_blocking-Same o n1.blocking _) (
      finish_connect-Owns o at_once true (set_blocking o 0 aimed)
        (Same-Owns (set_blocking-Same o 0 aimed) found))

pub i4_dial-Owns : (o : Os) (addr : Addr) (n : Net) → Owns n → Owns (i4_dial o addr n).1
unfolding i4_dial
i4_dial-Owns o addr n own =
    let n1 = look_up o [] (record n { remote_sin = addr }) in
    let found = Same-Owns (look_up-Same o [] (record n { remote_sin = addr })) own in
    Same-Owns (set_blocking-Same o n1.blocking _) (
      finish_connect-Owns o false false (set_blocking o 0 n1)
        (Same-Owns (set_blocking-Same o 0 n1) found))

minus_one-closed : (z : ℤ) → is_minus_one z ≡ true → ltb 0 (pos_part z) ≡ false
minus_one-closed (pos k) e = ground arith
minus_one-closed (negsuc k) e = refl

pub hang_up_lem : (o : Os) (n : Net) → Owns n → Owns (hang_up o n) × (is_open (hang_up o n) ≡ false)
unfolding hang_up
hang_up_lem o n own = elim (Bool-cases (is_minus_one n.thesock)) [
  | inl e ↦ rw e (own, minus_one-closed n.thesock e)
  | inr e ↦ rw e (cli_destroy-Owns o true n own, cli_destroy-closed o true n own)
]

-- The descriptor is what a call of socket() returned.
abbrev pub IsMade : Os → Net → Type 0
IsMade o n = (l : Log) × (n.thesock ≡ (o.ask l socket_stream).ret)

open_stream-IsMade : (o : Os) (n : Net) → IsMade o (open_stream o n).1
unfolding open_stream call
open_stream-IsMade o n = (n.log, refl)

open_stream-error : (o : Os) (n : Net) → (open_stream o n).1.error ≡ n.error
unfolding open_stream call
open_stream-error o n = refl

-- A connect that starts with a new socket does not fail an assertion; what holds of every `dial` and of
-- a socket that could not be made holds of its result.
pub redial_lem :
    (P : ℤ × Net → Type 0) (o : Os) (dial : Net → ℤ × Net) (n : Net)
    → ((n' : Net) → IsMade o n' → n'.error ≡ 0 → Owns n' → P (dial n'))
    → ((n' : Net) → IsMade o n' → ltb 0 (neg_part n'.thesock) ≡ true → Owns n' → P (pos 0, n'))
    → Owns n
    → (r : ℤ × Net) × (redial o dial n ≡ some r) × P r
unfolding redial
redial_lem P o dial n dialled unmade own =
    let (closed, shut) = hang_up_lem o n own in
    let opened = open_stream o (record (hang_up o n) { error = 0 }) in
    let made = open_stream-Owns o (record (hang_up o n) { error = 0 }) shut closed in
    let fine = open_stream-error o (record (hang_up o n) { error = 0 }) in
    let fd : IsMade o (opened.1) = open_stream-IsMade o (record (hang_up o n) { error = 0 }) in
    elim (Bool-cases (ltb 0 (neg_part opened.1.thesock))) [
      | inl e ↦ rw (shut, e) (_, refl, unmade (record (opened.1) { error = opened.0 }) fd e made)
      | inr e ↦ rw (shut, e) (_, refl, dialled opened.1 fd fine made)
    ]

pub redial-Owns :
    (o : Os) (dial : Net → ℤ × Net) (n : Net)
    → ((n' : Net) → Owns n' → Owns (dial n').1)
    → Owns n
    → (r : ℤ × Net) × (redial o dial n ≡ some r) × Owns r.1
redial-Owns o dial n keeps own =
    redial_lem (λ (r : ℤ × Net). Owns r.1) o dial n (λ n' m z k. keeps n' k) (λ n' m e k. k) own

pub sin_dial-Owns : (o : Os) (n : Net) → Owns n → Owns (sin_dial o n).1
unfolding sin_dial
sin_dial-Owns o n own =
    let used : Bool = ltb 0 n.snd_buffer && ltb 0 n.rcv_buffer in
    let sized = record (set_buffers o n) {
      snd_buffer = if used then 0 else n.snd_buffer;
      rcv_buffer = if used then 0 else n.rcv_buffer;
      connecting = pos 0;
    } in
    let quick = set_blocking o 0 sized in
    let called = connect_call o quick in
    let kept =
      Same-Owns (connect_call-Same o quick)
        (Same-Owns (set_blocking-Same o 0 sized) (Same-Owns (set_buffers-Same o n) own)) in
    elim (Bool-cases (is_minus_one called.0)) [
      | inl e ↦ rw e (Same-Owns (set_blocking-Same o n.blocking _) kept)
      | inr e ↦ rw e (Same-Owns (set_blocking-Same o n.blocking called.2) kept)
    ]

raw_waited-Same : (o : Os) (tout err : ℕ) (n : Net) → Same n (raw_waited o tout err n).1
unfolding raw_waited
raw_waited-Same o tout err n =
    let s = call-Same o (select_fd n.thesock) n refl in ground (arith, s.still_open, s.still_held)

raw_dial-Owns :
    (o : Os) (saddr : Addr) (tout : ℕ) (n : Net) → Owns n → Owns (raw_dial o saddr tout n).1
unfolding raw_dial
raw_dial-Owns o saddr tout n own =
    let sized = set_buffers o n in
    let quick = record (set_blocking o 0 sized) { remote_sin = saddr } in
    let called = connect_call o quick in
    let failed = record (called.2) { error = called.1 } in
    let kept =
      Same-Owns (connect_call-Same o quick)
        (Same-Owns (set_blocking-Same o 0 sized) (Same-Owns (set_buffers-Same o n) own)) in
    elim (Bool-cases (is_minus_one called.0)) [
      | inl e ↦ rw e (
          Same-Owns (set_blocking-Same o n.blocking _)
            (Same-Owns (raw_waited-Same o tout called.1 failed) kept))
      | inr e ↦ rw e (Same-Owns (set_blocking-Same o n.blocking called.2) kept)
    ]

pub raw_connect-Owns :
    (o : Os) (saddr : Addr) (tout : ℕ) (n : Net) → Owns n → Owns (raw_connect o saddr tout n).1
unfolding raw_connect
raw_connect-Owns o saddr tout n own =
    let n0 = record n { error = 0; connecting = pos 0 } in
    elim (Bool-cases (is_minus_one n.thesock)) [
      | inl e ↦
          let made = open_stream-Owns o n0 (minus_one-closed n.thesock e) own in
          let n1 = (open_stream o n0).1 in
          elim (Bool-cases (ltb 0 (neg_part n1.thesock))) [
            | inl f ↦ rw (e, f) made
            | inr f ↦ rw (e, f) (raw_dial-Owns o saddr tout n1 made)
          ]
      | inr e ↦ rw e (raw_dial-Owns o saddr tout n0 own)
    ]
