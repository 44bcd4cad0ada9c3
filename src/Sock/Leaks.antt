-- ===== src/Sock/Leaks.antt =====
-- Any history of calls on a client's socket: no descriptor is lost.
use the_multi_room_speaker.Base.{
  ℕ, ◌≡◌, refl, Bool, true, false, ◌||◌, Option, none, some, List, [], ◌∷◌, ltb, arith, subst,
  Option-cases, Bool-cases, inl, inr, ◌⊎◌,
}
use the_multi_room_speaker.Base.Int.{ℤ, pos, neg_part}
use the_multi_room_speaker.Sock.Calls.{Addr, Os, Net, is_open, set_blocking, set_mtu, cli_destroy}
use the_multi_room_speaker.Sock.Create.{open_stream, cli_create}
use the_multi_room_speaker.Sock.Connect.{
  is_really_connected, raw_connect_sin, raw_connect, s4_dial, i4_dial, redial, s4connect, i4connect,
}
use the_multi_room_speaker.Sock.Held.{
  Owns, Same-Owns, set_blocking-Same, set_mtu-Same, cli_destroy-Owns,
}
use the_multi_room_speaker.Sock.Dial.{
  open_stream-Owns, set_flag-Same, is_really_connected-Same, s4_dial-Owns, i4_dial-Owns,
  redial-Owns, sin_dial-Owns, raw_connect-Owns,
}

-- What a client does with its socket: create and raw_connect_sin are for a socket that is closed.
pub data Op : Type 0 where
  creates : ℕ → Op
  s4connects : Bool → List ℕ → Option ℕ → ℕ → Op
  i4connects : Addr → Op
  raw_connects : Addr → ℕ → Op
  raw_connect_sins asks_connected : Op
  destroys : Bool → Op
  sets_blocking sets_mtu : ℕ → Op

-- The value of an operation that returns none counts for nothing.
unfoldable pub perform : Os → Op → Net → Option (ℤ × Net)
perform o (creates opt) n = cli_create o opt n
perform o (s4connects at_once sip ip port) n = s4connect o at_once sip ip port n
perform o (i4connects addr) n = i4connect o addr n
perform o (raw_connects addr tout) n = some (raw_connect o addr tout n)
perform o raw_connect_sins n = raw_connect_sin o n
perform o asks_connected n = some (pos 0, (is_really_connected o n).1)
perform o (destroys emptyit) n = some (pos 0, (cli_destroy o emptyit n).1)
perform o (sets_blocking b) n = some (pos 0, set_blocking o b n)
perform o (sets_mtu mtu) n = some (pos 0, set_mtu o mtu n)

-- The operations that assert that the socket is closed.
abbrev pub asserts : Op → Bool
asserts (creates opt) = true
asserts raw_connect_sins = true
asserts op = false

-- An operation that returned keeps the socket's descriptor; one that failed its assertion was asked of
-- an open socket.
abbrev pub Kept : Op → Net → Option (ℤ × Net) → Type 0
Kept op n none = (asserts op ≡ true) × (is_open n ≡ true)
Kept op n (some r) = Owns r.1

cli_create-Kept : (o : Os) (opt : ℕ) (n : Net) → Owns n → Kept (creates opt) n (cli_create o opt n)
unfolding cli_create
cli_create-Kept o opt n own = elim (Bool-cases (is_open n)) [
  | inl e ↦ rw (e, cli_create) (refl, e)
  | inr e ↦
      let made = open_stream-Owns o (record n { hostent = pos 0 }) e own in
      let n1 = (open_stream o (record n { hostent = pos 0 })).1 in
      elim (Bool-cases (is_open n1)) [
        | inl f ↦ rw (e, f, cli_create) (Same-Owns (set_flag-Same o opt n1) made)
        | inr f ↦ rw (e, f, cli_create) made
      ]
]

raw_connect_sin-Kept : (o : Os) (n : Net) → Owns n → Kept raw_connect_sins n (raw_connect_sin o n)
unfolding raw_connect_sin
raw_connect_sin-Kept o n own = elim (Bool-cases (is_open n)) [
  | inl e ↦ rw (e, raw_connect_sin) (refl, e)
  | inr e ↦
      let n0 = record n { error = 0; connecting = pos 0 } in
      let made = open_stream-Owns o n0 e own in
      let n1 = (open_stream o n0).1 in
      elim (Bool-cases (ltb 0 (neg_part n1.thesock))) [
        | inl f ↦ rw (e, f, raw_connect_sin) made
        | inr f ↦ rw (e, f, raw_connect_sin) (sin_dial-Owns o n1 made)
      ]
]

redial-Kept :
    (o : Os) (op : Op) (dial : Net → ℤ × Net) (n : Net)
    → ((n' : Net) → Owns n' → Owns (dial n').1)
    → Owns n
    → Kept op n (redial o dial n)
redial-Kept o op dial n keeps own = let (r, e, kept) = redial-Owns o dial n keeps own in rw e kept

perform-Kept : (o : Os) (op : Op) (n : Net) → Owns n → Kept op n (perform o op n)
unfolding perform s4connect i4connect
perform-Kept o (creates opt) n own = cli_create-Kept o opt n own
perform-Kept o (s4connects at_once sip ip port) n own =
    redial-Kept o (s4connects at_once sip ip port) (s4_dial o at_once sip ip port) n
      (s4_dial-Owns o at_once sip ip port) own
perform-Kept o (i4connects addr) n own =
    redial-Kept o (i4connects addr) (i4_dial o addr) n (i4_dial-Owns o addr) own
perform-Kept o (raw_connects addr tout) n own = raw_connect-Owns o addr tout n own
perform-Kept o raw_connect_sins n own = raw_connect_sin-Kept o n own
perform-Kept o asks_connected n own = Same-Owns (is_really_connected-Same o n) own
perform-Kept o (destroys emptyit) n own = cli_destroy-Owns o emptyit n own
perform-Kept o (sets_blocking b) n own = Same-Owns (set_blocking-Same o b n) own
perform-Kept o (sets_mtu mtu) n own = Same-Owns (set_mtu-Same o mtu n) own

-- A history of operations, up to the first that fails its assertion: whether all were done, and the
-- state that is left.
unfoldable pub run : Os → List Op → Net → Bool × Net
run o [] n = (true, n)
run o (op ∷ ops) n = elim (perform o op n) [ none ↦ (false, n) | some (r, n') ↦ run o ops n' ]

unfoldable pub any_asserts : List Op → Bool
any_asserts [] = false
any_asserts (op ∷ ops) = asserts op || any_asserts ops

-- Where standard input is open, so that no new descriptor is 0, and close releases its descriptor
-- also where it fails: for a client's socket of whose descriptors the one that it holds is open,
-- and no other, it stays so after any history of operations, whatever else the operating system
-- answers; no operation but create and raw_connect_sin fails its assertion.
pub run-Owns :
    (o : Os) (ops : List Op) (n : Net)
    → Owns n
    → Owns (run o ops n).1 × (((run o ops n).0 ≡ true) ⊎ (any_asserts ops ≡ true))
unfolding run any_asserts
run-Owns o [] n own = (own, inl refl)
run-Owns o (op ∷ ops) n own = elim (Option-cases (perform o op n)) [
  | inl e ↦
      let (asserted, opened) = subst (Kept op n) e (perform-Kept o op n own) in
      rw (e, run) (own, inr (ground (arith, asserted)))
  | inr (r, e) ↦
      let (left, through) = run-Owns o ops r.1 (subst (Kept op n) e (perform-Kept o op n own)) in
      rw (e, run) (left, elim through [ inl d ↦ inl d | inr a ↦ inr (ground (arith, a)) ])
]
