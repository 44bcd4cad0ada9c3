-- ===== src/Rooms/InStep.antt =====
-- All speakers get the same sound.
use the_multi_room_speaker.Base.{
  ℕ, zero, suc, ◌+◌, ◌%◌, ◌≤◌, ◌≡◌, refl, sym, ap, ap₂, ◌∙◌, Bool, true, false, ◌&&◌, not, Option,
  some, List, [], ◌∷◌, ◌++◌, map, length, take, ◌==◌, if◌then◌else◌, arith, u32_mod, Bool-cases,
  inl, inr,
}
use the_multi_room_speaker.Base.Int.{ℤ, pos_part, neg_part}
use the_multi_room_speaker.Wire.{BufHdr, hdr_size, tcp_snd_len}
use the_multi_room_speaker.Sock.{Segment, Kernel}
use the_multi_room_speaker.Sock.Stream.{flat, IsData}
use the_multi_room_speaker.Server.{Clients, Pilot, TcpSrv, address, qsend}
use the_multi_room_speaker.Server.Sends.{messages, has_data, opened, qsend_sends}
use the_multi_room_speaker.Pid.{Doubles}
use the_multi_room_speaker.Pace.{Gains, Env, Serving, stamp, send_chunk, serve_round}
use the_multi_room_speaker.Pace.Frames.{AllNumbered, IsNumbered, stamp_lem, serve_round-numbers}
use the_multi_room_speaker.Circle.Fifo.{Frame, Buffer, run_buffer}
use the_multi_room_speaker.Circle.Fifo.View.{view, IsQuiet}
use the_multi_room_speaker.Client.{Sclient}
use the_multi_room_speaker.Client.Arrives.{AllSized}
use the_multi_room_speaker.Client.Live.{wire, Turn, Living, live, history, arrivals}
use the_multi_room_speaker.Client.Wired.{AllAlive}
use the_multi_room_speaker.Client.Kept.{first_sent}
use the_multi_room_speaker.Client.InOrder.{live_in_order}
use the_multi_room_speaker.Rooms.{
  serving, header_for, framed_as, frames_for, sound, some_read, sounds, has_client, Stays,
}

header_for-numbered :
    (ip n : ℕ) (len : ℤ) (sent : List (ℕ × BufHdr)) (h : BufHdr)
    → AllNumbered n len sent
    → header_for ip sent ≡ some h
    → h.cur_seq ≡ n
unfolding header_for
header_for-numbered ip n len [] h a e = cc
header_for-numbered ip n len ((j, x) ∷ sent) h (b, l, a) e = elim (Bool-cases (ip == j)) [
  | inl same ↦ ground (arith, b, e, same)
  | inr other ↦ header_for-numbered ip n len sent h a (ground (arith, e, other))
]

header_for-messages :
    (ip : ℕ) (p : Pilot) (now : ℕ → ℕ) (hdr : BufHdr) (m : Clients)
    → has_client ip m ≡ true
    → (h : BufHdr) × (header_for ip (messages p now hdr m) ≡ some h)
unfolding header_for has_client
header_for-messages ip p now hdr [] e = cc
header_for-messages ip p now hdr ((j, c) ∷ m) e = elim (Bool-cases (ip == j)) [
  | inl same ↦ rw same (address p (now j) c.req hdr, refl)
  | inr other ↦ rw other (header_for-messages ip p now hdr m (ground (arith, e, other)))
]

stamp-srv : {d : Doubles} (n : ℤ) (s : Serving d) → (stamp n s).srv ≡ s.srv
unfolding stamp
stamp-srv n s = elim (Bool-cases (pos_part n == tcp_snd_len)) [
  | inl e ↦ rw (e, stamp) refl
  | inr e ↦ rw (e, stamp) refl
]

-- A chunk is sent to each client.
chunk_sends :
    {d : Doubles} (g : Gains d) (e : Env) (s : Serving d) (ip : ℕ)
    → IsNumbered s
    → (pos_part e.peeked + neg_part e.peeked == 0) ≡ false
    → has_client ip s.srv.clis ≡ true
    → (h : BufHdr) × (header_for ip (send_chunk g e s).sent ≡ some h)
unfolding send_chunk
chunk_sends g e s ip i some_in there =
    let s1 = stamp e.peeked s in
    let (numbered, len, frm) = stamp_lem e.peeked s i in
    let given : has_data s1.hdr ≡ true =
      ap (λ (z : ℤ). not (pos_part z + neg_part z == 0)) len ∙ ap not some_in in
    let still = ap (λ (x : TcpSrv). has_client ip x.clis) (stamp-srv e.peeked s) ∙ there in
    let (sent, clis) =
      qsend_sends s1.hdr (tcp_snd_len + hdr_size) e.t1 e.now e.lbytes s1.srv given in
    let p = (qsend s1.hdr (tcp_snd_len + hdr_size) e.t1 e.now e.lbytes s1.srv).0.pilot in
    let (h, found) = header_for-messages ip p e.now (opened s1.hdr e.t1 s1.srv) s1.srv.clis still in
    (h, ap (header_for ip) sent ∙ found)

-- A round in which the pipe gave something sends a header to each client, another sends nothing.
round_sends :
    {d : Doubles} (g : Gains d) (e : Env) (s : Serving d) (ip : ℕ)
    → IsNumbered s
    → has_client ip s.srv.clis ≡ true
    → some_read e ≡ true
    → (h : BufHdr) × (header_for ip (serve_round g e s).sent ≡ some h)
unfolding serve_round
round_sends g e s ip i there some_in = elim (Bool-cases (neg_part e.peeked == 1)) [
  | inl ended ↦ absurd (ground (arith, some_in, ended))
  | inr more ↦ elim (Bool-cases (pos_part e.peeked + neg_part e.peeked == 0)) [
    | inl empty ↦ absurd (ground (arith, some_in, more, empty))
    | inr some_bytes ↦ rw (more, some_bytes, serve_round) (chunk_sends g e s ip i some_bytes there)
  ]
]

round_silent :
    {d : Doubles} (g : Gains d) (e : Env) (s : Serving d)
    → some_read e ≡ false
    → (serve_round g e s).sent ≡ []
unfolding serve_round
round_silent g e s none_in = elim (Bool-cases (neg_part e.peeked == 1)) [
  | inl ended ↦ rw (ended, serve_round) refl
  | inr more ↦ elim (Bool-cases (pos_part e.peeked + neg_part e.peeked == 0)) [
    | inl empty ↦ rw (more, empty, serve_round) refl
    | inr some_bytes ↦ absurd (ground (arith, none_in, more, some_bytes))
  ]
]

-- The frames of later rounds, if there are any.
later-sounds :
    (ip : ℕ) (on : Bool) (rounds : List (List (ℕ × BufHdr) × List ℕ)) (heard : List (ℕ × List ℕ))
    → map sound (frames_for ip rounds) ≡ heard
    → map sound (frames_for ip (if on then rounds else [])) ≡ (if on then heard else [])
unfolding frames_for
later-sounds ip true rounds heard e = e
later-sounds ip false rounds heard e = refl

sent-sounds :
    (o : Option BufHdr) (h : BufHdr) (n : ℕ) (payload : List ℕ) (ds : List Frame)
    (heard : List (ℕ × List ℕ))
    → o ≡ some h
    → h.cur_seq ≡ n
    → map sound ds ≡ heard
    → map sound (framed_as o payload ds) ≡ (n, payload) ∷ heard
sent-sounds o h n payload ds heard e f rest =
    ap (λ (x : Option BufHdr). map sound (framed_as x payload ds)) e
    ∙ ap₂ (λ (k : ℕ) (xs : List (ℕ × List ℕ)). (k, payload) ∷ xs) f rest

-- What the frames for an address carry is what the pipe gave, whichever address it is.
pub frames-sounds :
    {d : Doubles} (g : Gains d) (es : List (Env × List ℕ)) (s : Serving d) (ip : ℕ)
    → IsNumbered s
    → Stays ip g es s
    → map sound (frames_for ip (serving g es s)) ≡ sounds g es s
unfolding serving frames_for sounds Stays header_for
frames-sounds g [] s ip i stays = refl
frames-sounds g ((e, payload) ∷ es) s ip i (there, stays) =
    let r = serve_round g e s in
    let (numbered, i', frm) = serve_round-numbers g e s i in
    let next = if r.goes_on && r.state.alive then sounds g es r.state else [] in
    let rounds = if r.goes_on && r.state.alive then serving g es r.state else [] in
    let later =
      later-sounds ip (r.goes_on && r.state.alive) (serving g es r.state) (sounds g es r.state)
        (frames-sounds g es r.state ip i' stays) in
    elim (Bool-cases (some_read e)) [
      | inl some_in ↦
          let (h, e1) = round_sends g e s ip i there some_in in
          let n = header_for-numbered ip (r.state.frm % u32_mod) e.peeked r.sent h numbered e1 in
          sent-sounds (header_for ip r.sent) h (r.state.frm % u32_mod) payload _ next e1 n later
          ∙ ap (λ (b : Bool). if b then (r.state.frm % u32_mod, payload) ∷ next else next)
              (sym some_in)
      | inr none_in ↦
          ap
            (λ (xs : List (ℕ × BufHdr)).
              map sound (framed_as (header_for ip xs) payload (frames_for ip rounds)))
            (round_silent g e s none_in)
          ∙ later
          ∙ ap (λ (b : Bool). if b then (r.state.frm % u32_mod, payload) ∷ next else next)
              (sym none_in)
    ]

pub first_sent-sounds :
    (n : ℕ) (fs : List (Kernel × Frame))
    → map sound (first_sent n fs) ≡ take n (map sound (map (λ x. x.1) fs))
first_sent-sounds zero fs = refl
first_sent-sounds (suc n) [] = refl
first_sent-sounds (suc n) ((send, d) ∷ fs) = ap (◌∷◌ (sound d)) (first_sent-sounds n fs)

-- The server's loop runs for some rounds, from a header that has the number of the chunks read so far, and
-- an address is connected in each. If the frames for that address are whole ones between two reports and
-- sendall takes each whole, where ::send takes no more than it is offered, TCP delivers their bytes, cut
-- in any way, and the speaker there, whose queue is empty and at rest with chunks of the size reserved,
-- receives and plays in turns of any order in which no frame comes in while the queue is full, then no
-- access is outside the queue, the connection is kept, and what was played and what still waits is, with
-- its numbers, the first of what the pipe gave the server, as many as have come in: whichever the address,
-- the speaker and the turns.
pub in_step :
    {d : Doubles} (g : Gains d) (es : List (Env × List ℕ)) (srv : Serving d) (ip : ℕ)
    (ts : List Turn) (fs : List (Kernel × Frame)) (bs rest : List ℕ) (s : List Segment)
    (c : Sclient) (r : List Frame × Buffer)
    → IsNumbered srv
    → Stays ip g es srv
    → map (λ x. x.1) fs ≡ frames_for ip (serving g es srv)
    → wire fs ≡ some bs
    → AllAlive fs
    → arrivals ts ≤ length fs
    → IsData s
    → flat s ≡ bs ++ rest
    → IsQuiet c.rq
    → AllSized c.rq.queue
    → (view c.rq).items ≡ []
    → run_buffer c.rq.maxqsz (history ts fs) (view c.rq) ≡ some r
    → (out : Living) × (live ts s c ≡ some out)
      × (map sound (out.0 ++ (view out.2.rq).items) ≡ take (arrivals ts) (sounds g es srv))
in_step g es srv ip ts fs bs rest s c r numbered stays same w a n segs fl quiet sized no_items h =
    let (out, e, kept) = live_in_order ts fs bs rest s c r w a n segs fl quiet sized h in
    (
      out,
      e,
      ap (map sound) (kept ∙ ap (λ (ds : List Frame). ds ++ first_sent (arrivals ts) fs) no_items)
          ∙ first_sent-sounds (arrivals ts) fs
          ∙ ap (λ (ds : List Frame). take (arrivals ts) (map sound ds)) same
          ∙ ap (take (arrivals ts)) (frames-sounds g es srv ip numbered stays),
    )
