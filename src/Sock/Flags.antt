-- ===== src/Sock/Flags.antt =====
-- tcp_cli_sock's _connecting and _connected, through destroy and s4connect.
use the_multi_room_speaker.Base.{
  ℕ, zero, suc, ◌≡◌, refl, ◌∙◌, Bool, true, false, ◌&&◌, Option, none, some, List, ltb, ◌==◌,
  if◌then◌else◌, arith, Bool-cases, subst, u16_mod, ◌%◌, inl, inr, ◌⊎◌,
}
use the_multi_room_speaker.Base.Int.{ℤ, pos, pos_part, neg_part}
use the_multi_room_speaker.Sock.Calls.{
  Addr, close_fd, select_fd, shutdown_fd, recv_fd, pause, Os, Net, is_minus_one, is_open, call,
  einprogress, set_blocking, close_loop, sock_destroy, drain, empty_out, cli_destroy,
}
use the_multi_room_speaker.Sock.Create.{open_stream}
use the_multi_room_speaker.Sock.Connect.{
  connect_call, wait_writable, settle, await, finish_connect, look_up, s4_dial, hang_up, redial,
  s4connect,
}

-- No connection is made or under way, as far as the flags say.
pub record IsCalm (n : Net) : Type 0 where
  pub not_connecting : n.connecting ≡ pos 0
  pub not_connected : n.connected ≡ false

-- Both flags are as they were.
record Flags (n n' : Net) : Type 0 where
  connecting_kept : n'.connecting ≡ n.connecting
  connected_kept : n'.connected ≡ n.connected

Flags-trans : {n n' n'' : Net} → Flags n n' → Flags n' n'' → Flags n n''
Flags-trans f g = record {
  connecting_kept = g.connecting_kept ∙ f.connecting_kept;
  connected_kept = g.connected_kept ∙ f.connected_kept;
}

Flags-IsCalm : {n n' : Net} → Flags n n' → IsCalm n → IsCalm n'
Flags-IsCalm f c = record {
  not_connecting = f.connecting_kept ∙ c.not_connecting;
  not_connected = f.connected_kept ∙ c.not_connected;
}

set_blocking-Flags : (o : Os) (b : ℕ) (n : Net) → Flags n (set_blocking o b n)
unfolding set_blocking call
set_blocking-Flags o b n = ground arith

pub set_blocking-IsCalm : (o : Os) (b : ℕ) (n : Net) → IsCalm n → IsCalm (set_blocking o b n)
set_blocking-IsCalm o b n = Flags-IsCalm (set_blocking-Flags o b n)

drain-Flags : (o : Os) (more : ℕ) (n : Net) → Flags n (drain o more n)
unfolding drain call
drain-Flags o zero n = record { connecting_kept = refl; connected_kept = refl }
drain-Flags o (suc more) n =
    let f = drain-Flags o more (call o (recv_fd n.thesock) n) in
    record { connecting_kept = f.connecting_kept; connected_kept = f.connected_kept }

close_loop-Flags : (o : Os) (k : ℕ) (n : Net) → Flags n (close_loop o k n)
unfolding close_loop call
close_loop-Flags o zero n = record { connecting_kept = refl; connected_kept = refl }
close_loop-Flags o (suc k) n =
    let a = o.ask n.log (close_fd n.thesock) in
    let n' = call o (pause 255) (record (call o (close_fd n.thesock) n) { error = a.errno }) in
    let f = close_loop-Flags o k n' in
    elim (Bool-cases (is_minus_one a.ret)) [
      | inl e ↦
          rw e (record { connecting_kept = f.connecting_kept; connected_kept = f.connected_kept })
      | inr e ↦ rw e (record { connecting_kept = refl; connected_kept = refl })
    ]

sock_destroy-Flags : (o : Os) (n : Net) → Flags n (sock_destroy o n).1
unfolding sock_destroy
sock_destroy-Flags o n =
    let f = close_loop-Flags o 31 (record n { set_mask = 0 }) in
    ground (arith, f.connecting_kept, f.connected_kept)

empty_out-Flags : (o : Os) (emptyit : Bool) (n : Net) → Flags n (empty_out o emptyit n)
unfolding empty_out call
empty_out-Flags o true n =
    let down = call o (shutdown_fd n.thesock) n in
    let quick = set_blocking o 0 down in
    let drained = drain o (o.backlog quick.log) quick in
    let f = Flags-trans (set_blocking-Flags o 0 down) (drain-Flags o (o.backlog quick.log) quick) in
    let g = set_blocking-Flags o n.blocking (call o (shutdown_fd n.thesock) drained) in
    record {
      connecting_kept = g.connecting_kept ∙ f.connecting_kept;
      connected_kept = g.connected_kept ∙ f.connected_kept;
    }
empty_out-Flags o false n = record { connecting_kept = refl; connected_kept = refl }

pub cli_destroy-IsCalm :
    (o : Os) (emptyit : Bool) (n : Net)
    → (is_open n ≡ true) ⊎ IsCalm n
    → IsCalm (cli_destroy o emptyit n).1
unfolding cli_destroy
cli_destroy-IsCalm o emptyit n c = elim (Bool-cases (is_open n)) [
  | inl e ↦
      let reset = record n { connecting = pos 0; connected = false } in
      rw e (
        Flags-IsCalm (sock_destroy-Flags o (empty_out o emptyit reset)) (
          Flags-IsCalm (empty_out-Flags o emptyit reset)
            (record { not_connecting = refl; not_connected = refl })))
  | inr e ↦ rw e (elim c [ inl opened ↦ cc | inr calm ↦ calm ])
]

look_up-Flags : (o : Os) (name : List ℕ) (n : Net) → Flags n (look_up o name n)
unfolding look_up call
look_up-Flags o name n = ground arith

wait_writable-Flags :
    (o : Os) (patience : ℕ) (err : ℤ) (n : Net) → Flags n (wait_writable o patience err n).2
unfolding wait_writable call
wait_writable-Flags o zero err n = record { connecting_kept = refl; connected_kept = refl }
wait_writable-Flags o (suc more) err n =
    let a = o.ask n.log (select_fd n.thesock) in
    let f =
      wait_writable-Flags o more a.ret (call o (pause 10000) (call o (select_fd n.thesock) n)) in
    elim (Bool-cases (ltb 0 (pos_part a.ret) && a.is_set)) [
      | inl e ↦ rw e (record { connecting_kept = refl; connected_kept = refl })
      | inr e ↦
          rw e (record { connecting_kept = f.connecting_kept; connected_kept = f.connected_kept })
    ]

settle-IsCalm : (o : Os) (err : ℤ) (n : Net) → n.connected ≡ false → IsCalm (settle o true err n).1
unfolding settle
settle-IsCalm o err n c = elim (Bool-cases (is_minus_one err)) [
  | inl e ↦ rw e (
      cli_destroy-IsCalm o true (record n { connecting = pos 0 })
        (inr (record { not_connecting = refl; not_connected = c })))
  | inr e ↦ rw e (record { not_connecting = refl; not_connected = c })
]

await-IsCalm :
    (o : Os) (rv : ℤ) (n : Net) → n.connected ≡ false → IsCalm (await o false true rv n).1
unfolding await
await-IsCalm o rv n c =
    let waiting = record n { connecting = pos 1 } in
    let waited = wait_writable o (o.patience n.log) rv waiting in
    let still = (wait_writable-Flags o (o.patience n.log) rv waiting).connected_kept ∙ c in
    elim (Bool-cases waited.0) [
      | inl e ↦ rw e (record { not_connecting = refl; not_connected = still })
      | inr e ↦ rw e (settle-IsCalm o waited.1 waited.2 still)
    ]

finish_connect-IsCalm :
    (o : Os) (n : Net) → n.connected ≡ false → IsCalm (finish_connect o false true n).1
unfolding finish_connect connect_call call
finish_connect-IsCalm o n c =
    let called = connect_call o (record n { connecting = pos 0 }) in
    let error : ℕ = if is_minus_one called.0 then called.1 else n.error in
    let n2 = record (called.2) { error = error } in
    elim (Bool-cases (error == einprogress)) [
      | inl e ↦ rw e (await-IsCalm o called.0 n2 c)
      | inr e ↦ rw e (settle-IsCalm o called.0 n2 c)
    ]

s4_dial-IsCalm :
    (o : Os) (sip : List ℕ) (ip : Option ℕ) (port : ℕ) (n : Net)
    → n.connected ≡ false
    → IsCalm (s4_dial o false sip ip port n).1
unfolding s4_dial
s4_dial-IsCalm o sip ip port n c =
    let n0 = set_blocking o n.blocking n in
    let n1 = look_up o sip n0 in
    let there : Addr = record {
      ip = elim ip [ none ↦ n1.remote_sin.ip | some a ↦ a ];
      port = port % u16_mod;
    } in
    let aimed = record n1 { remote_sin = there } in
    let found = Flags-trans (set_blocking-Flags o n.blocking n) (look_up-Flags o sip n0) in
    set_blocking-IsCalm o n1.blocking _ (
      finish_connect-IsCalm o (set_blocking o 0 aimed)
        ((set_blocking-Flags o 0 aimed).connected_kept ∙ found.connected_kept ∙ c))

hang_up-IsCalm : (o : Os) (n : Net) → IsCalm n → IsCalm (hang_up o n)
unfolding hang_up
hang_up-IsCalm o n c = elim (Bool-cases (is_minus_one n.thesock)) [
  | inl e ↦ rw e c
  | inr e ↦ rw e (cli_destroy-IsCalm o true n (inr c))
]

-- What a connect returns, if it returns, is calm.
abbrev Calm : Option (ℤ × Net) → Type 0
Calm none = Unit
Calm (some r) = IsCalm r.1

redial-IsCalm :
    (o : Os) (dial : Net → ℤ × Net) (n : Net)
    → ((n' : Net) → IsCalm n' → IsCalm (dial n').1)
    → IsCalm n
    → (r : ℤ × Net) → redial o dial n ≡ some r
    → IsCalm r.1
unfolding redial open_stream call
redial-IsCalm o dial n keeps c r e =
    let shut = hang_up-IsCalm o n c in
    let n1 = (open_stream o (record (hang_up o n) { error = 0 })).1 in
    let made : IsCalm n1 = record {
      not_connecting = shut.not_connecting;
      not_connected = shut.not_connected;
    } in
    subst Calm e (elim (Bool-cases (is_open (hang_up o n))) [
      | inl a ↦ rw (a, redial) tt
      | inr a ↦ elim (Bool-cases (ltb 0 (neg_part n1.thesock))) [
        | inl b ↦
            rw (a, b, redial)
              (record { not_connecting = made.not_connecting; not_connected = made.not_connected })
        | inr b ↦ rw (a, b, redial) (keeps n1 made)
      ]
    ])

-- s4connect does not raise the flags.
pub s4connect-IsCalm :
    (o : Os) (sip : List ℕ) (ip : Option ℕ) (port : ℕ) (n : Net)
    → IsCalm n
    → (r : ℤ × Net) → s4connect o false sip ip port n ≡ some r
    → IsCalm r.1
unfolding s4connect
s4connect-IsCalm o sip ip port n =
    redial-IsCalm o (s4_dial o false sip ip port) n
      (λ n' calm. s4_dial-IsCalm o sip ip port n' calm.not_connected)
