-- ===== src/Rooms.antt =====
-- srv/main.cpp with the speakers: what the pipe gave, and what of it the server sends to one address.
pub mod InStep
pub mod Reports
pub mod Begun
use the_multi_room_speaker.Base.{
  ℕ, ◌+◌, ◌%◌, ◌≡◌, Bool, true, false, ◌&&◌, Option, none, some, List, [], ◌∷◌, ◌==◌, if◌then◌else◌,
  u32_mod,
}
use the_multi_room_speaker.Base.Int.{ℤ, pos_part, neg_part}
use the_multi_room_speaker.Wire.{BufHdr}
use the_multi_room_speaker.Server.{Clients}
use the_multi_room_speaker.Pid.{Doubles}
use the_multi_room_speaker.Pace.{Gains, Env, Serving, Served, serve_round}
use the_multi_room_speaker.Circle.Fifo.{Frame}

-- The rounds of `while(__alive)`, each with what pipe.peek has put into the chunk's payload: the headers
-- that are sent in each round, by address, and the payload.
unfoldable pub serving :
    {d : Doubles} → Gains d → List (Env × List ℕ) → Serving d → List (List (ℕ × BufHdr) × List ℕ)
unfolding serve_round
serving g [] s = []
serving g ((e, payload) ∷ es) s =
    let r = serve_round g e s in
    let later = serving g es r.state in
    (r.sent, payload) ∷ (if r.goes_on && r.state.alive then later else [])

-- The header that goes to an address.
unfoldable pub header_for : ℕ → List (ℕ × BufHdr) → Option BufHdr
header_for ip [] = none
header_for ip ((j, h) ∷ sent) = let rest = header_for ip sent in if ip == j then some h else rest

abbrev pub framed_as : Option BufHdr → List ℕ → List Frame → List Frame
framed_as none payload ds = ds
framed_as (some h) payload ds = (h, payload) ∷ ds

-- The frames that go to an address.
unfoldable pub frames_for : ℕ → List (List (ℕ × BufHdr) × List ℕ) → List Frame
unfolding header_for
frames_for ip [] = []
frames_for ip ((sent, payload) ∷ rounds) =
    framed_as (header_for ip sent) payload (frames_for ip rounds)

-- A numbered chunk of sound, as a frame carries it.
abbrev pub sound : Frame → ℕ × List ℕ
sound d = (d.0.cur_seq, d.1)

-- Did the pipe give something?
abbrev pub some_read : Env → Bool
some_read e =
    if neg_part e.peeked == 1
    then false
    else if pos_part e.peeked + neg_part e.peeked == 0
    then false
    else true

-- What the pipe gave, with the number that the server has for it. No address is looked at.
unfoldable pub sounds :
    {d : Doubles} → Gains d → List (Env × List ℕ) → Serving d → List (ℕ × List ℕ)
unfolding serve_round
sounds g [] s = []
sounds g ((e, payload) ∷ es) s =
    let r = serve_round g e s in
    let later = if r.goes_on && r.state.alive then sounds g es r.state else [] in
    if some_read e then (r.state.frm % u32_mod, payload) ∷ later else later

unfoldable pub has_client : ℕ → Clients → Bool
has_client ip [] = false
has_client ip ((j, c) ∷ m) = let rest = has_client ip m in if ip == j then true else rest

-- The address is connected in each round.
unfoldable pub Stays : {d : Doubles} → ℕ → Gains d → List (Env × List ℕ) → Serving d → Type 0
Stays ip g [] s = Unit {0}
Stays ip g ((e, payload) ∷ es) s =
    (has_client ip s.srv.clis ≡ true) × Stays ip g es (serve_round g e s).state
