-- ===== src/Pace/Frames.antt =====
-- The numbers of the frames that the server sends.
use the_multi_room_speaker.Base.{
  ℕ, ◌+◌, ◌%◌, ◌≡◌, refl, ◌∙◌, true, false, not, List, [], ◌∷◌, ◌==◌, if◌then◌else◌, arith, u32_mod,
  Bool-cases, inl, inr,
}
use the_multi_room_speaker.Base.Int.{ℤ, pos, negsuc, pos_part, neg_part}
use the_multi_room_speaker.Wire.{BufHdr, hdr_size, tcp_snd_len}
use the_multi_room_speaker.Server.{Clients, Pilot, TcpSrv, address, send_each, qsend}
use the_multi_room_speaker.Server.Sends.{opened}
use the_multi_room_speaker.Pid.{Doubles}
use the_multi_room_speaker.Pace.{Gains, Env, Serving, stamp, send_chunk, serve_round}

-- Every header has the number and the length.
abbrev pub AllNumbered : ℕ → ℤ → List (ℕ × BufHdr) → Type 0
AllNumbered n len [] = Unit {0}
AllNumbered n len ((ip, h) ∷ sent) = (h.cur_seq ≡ n) × (h.buf_len ≡ len) × AllNumbered n len sent

send_each-AllNumbered :
    (p : Pilot) (now lbytes : ℕ → ℕ) (size : ℕ) (hdr : BufHdr) (m : Clients)
    → let out = send_each p now lbytes size hdr m in
      AllNumbered hdr.cur_seq hdr.buf_len out.sent
      × (out.hdr.cur_seq ≡ hdr.cur_seq)
      × (out.hdr.buf_len ≡ hdr.buf_len)
unfolding send_each
send_each-AllNumbered p now lbytes size hdr [] = (tt, refl, refl)
send_each-AllNumbered p now lbytes size hdr ((ip, c) ∷ m) =
    elim (Bool-cases (not (pos_part hdr.buf_len + neg_part hdr.buf_len == 0))) [
      | inl e ↦
          let (a, b, n) =
            send_each-AllNumbered p now lbytes size (address p (now ip) c.req hdr) m in
          unfold address in rw (e, send_each) ((refl, refl, a), b, n)
      | inr e ↦
          let (a, b, n) = send_each-AllNumbered p now lbytes size hdr m in
          rw (e, send_each) (a, b, n)
    ]

-- The header holds the number of the frames that were read so far, as 32 bits.
abbrev pub IsNumbered : {d : Doubles} → Serving d → Type 0
IsNumbered s = s.hdr.cur_seq ≡ s.frm % u32_mod

pub stamp_lem :
    {d : Doubles} (n : ℤ) (s : Serving d)
    → IsNumbered s
    → IsNumbered (stamp n s)
      × ((stamp n s).hdr.buf_len ≡ n)
      × ((stamp n s).frm ≡ s.frm + (if pos_part n == tcp_snd_len then 1 else 0))
unfolding stamp
stamp_lem {d} n s i = elim (Bool-cases (pos_part n == tcp_snd_len)) [
  | inl e ↦ rw (e, stamp) (refl, refl, omega arith)
  | inr e ↦ rw (e, stamp) (i, refl, omega arith)
]

renumber :
    {n n' : ℕ} {len len' : ℤ}
    → n ≡ n'
    → len ≡ len'
    → (sent : List (ℕ × BufHdr)) → AllNumbered n len sent
    → AllNumbered n' len' sent
renumber e f [] a = tt
renumber e f ((ip, h) ∷ sent) (a, b, more) = (a ∙ e, b ∙ f, renumber e f sent more)

qsend-AllNumbered :
    (hdr : BufHdr) (size usecs : ℕ) (now lbytes : ℕ → ℕ) (s : TcpSrv)
    → let out = (qsend hdr size usecs now lbytes s).1 in
      AllNumbered hdr.cur_seq hdr.buf_len out.sent × (out.hdr.cur_seq ≡ hdr.cur_seq)
unfolding qsend
qsend-AllNumbered hdr size usecs now lbytes s =
    let r =
      send_each-AllNumbered (qsend hdr size usecs now lbytes s).0.pilot now lbytes size
        (opened hdr usecs s) s.clis in
    (r.0, r.1)

send_chunk-numbers :
    {d : Doubles} (g : Gains d) (e : Env) (s : Serving d)
    → IsNumbered s
    → let r = send_chunk g e s in
      AllNumbered (r.state.frm % u32_mod) e.peeked r.sent
      × IsNumbered r.state
      × (r.state.frm ≡ s.frm + (if pos_part e.peeked == tcp_snd_len then 1 else 0))
unfolding send_chunk
send_chunk-numbers g e s i =
    let (numbered, len, frm) = stamp_lem e.peeked s i in
    let (sent, cur) =
      qsend-AllNumbered (stamp e.peeked s).hdr (tcp_snd_len + hdr_size) e.t1 e.now e.lbytes
        (stamp e.peeked s).srv in
    (renumber numbered len _ sent, cur ∙ numbered, frm)

nothing_read : (n : ℤ) → (neg_part n == 1) ≡ true → (pos_part n == tcp_snd_len) ≡ false
nothing_read (pos n) e = ground arith
nothing_read (negsuc n) e = refl

empty_read : (n : ℤ) → (pos_part n + neg_part n == 0) ≡ true → (pos_part n == tcp_snd_len) ≡ false
empty_read n e = ground arith

-- If the header's number is that of the whole chunks read so far, as 32 bits, it is so after a round of
-- the server's loop, which counts one more exactly if it read a whole chunk. All that the round sends
-- bears that number and the length that was read: a partial read is sent under the last number again.
pub serve_round-numbers :
    {d : Doubles} (g : Gains d) (e : Env) (s : Serving d)
    → IsNumbered s
    → let r = serve_round g e s in
      AllNumbered (r.state.frm % u32_mod) e.peeked r.sent
      × IsNumbered r.state
      × (r.state.frm ≡ s.frm + (if pos_part e.peeked == tcp_snd_len then 1 else 0))
unfolding serve_round
serve_round-numbers g e s i = elim (Bool-cases (neg_part e.peeked == 1)) [
  | inl ended ↦ rw (ended, nothing_read e.peeked ended, serve_round) (tt, i, omega arith)
  | inr more ↦ elim (Bool-cases (pos_part e.peeked + neg_part e.peeked == 0)) [
    | inl empty ↦ rw (more, empty, empty_read e.peeked empty, serve_round) (tt, i, omega arith)
    | inr some_read ↦ rw (more, some_read, serve_round) (send_chunk-numbers g e s i)
  ]
]
