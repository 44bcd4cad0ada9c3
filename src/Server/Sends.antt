-- ===== src/Server/Sends.antt =====
-- What qsend sends to each client.
use the_multi_room_speaker.Base.{
  ◌/◌, ◌%◌, u16_mod, ℕ, ◌+◌, ◌*◌, ◌≡◌, refl, ap, ap₂, ◌∙◌, Bool, true, ◌&&◌, not, List, [], ◌∷◌,
  map, ltb, ◌==◌, if◌then◌else◌, length, arith, sub_size,
}
use the_multi_room_speaker.Base.Int.{pos_part, neg_part}
use the_multi_room_speaker.Wire.{BufHdr, sync_data, alive_data, qos_to}
use the_multi_room_speaker.Server.{Pilot, Clients, TcpSrv, address, send_each, qsend}

-- One message for each client, from the header that `qsend` was given and that client's own request.
abbrev pub messages : Pilot → (ℕ → ℕ) → BufHdr → Clients → List (ℕ × BufHdr)
messages p now hdr = map λ x. (x.0, address p (now x.0) (x.1.req) hdr)

-- A header that was addressed before is addressed as a fresh one is.
address-address :
    (p : Pilot) (n n' : ℕ) (r r' hdr : BufHdr)
    → address p n r (address p n' r' hdr) ≡ address p n r hdr
unfolding address
address-address p n n' r r' hdr = refl

messages-address :
    (p : Pilot) (now : ℕ → ℕ) (n : ℕ) (r hdr : BufHdr) (m : Clients)
    → messages p now (address p n r hdr) m ≡ messages p now hdr m
messages-address p now n r hdr [] = refl
messages-address p now n r hdr ((ip, c) ∷ m) =
    ap₂ (λ (x : BufHdr) (xs : List (ℕ × BufHdr)). (ip, x) ∷ xs)
      (address-address p (now ip) n c.req r hdr) (messages-address p now n r hdr m)

-- Whether the chunk carries data.
abbrev pub has_data : BufHdr → Bool
has_data hdr = not (pos_part hdr.buf_len + neg_part hdr.buf_len == 0)

send_each_lem :
    (p : Pilot) (now lbytes : ℕ → ℕ) (size : ℕ) (hdr : BufHdr) (m : Clients)
    → has_data hdr ≡ true
    → let out = send_each p now lbytes size hdr m in
      (out.sent ≡ messages p now hdr m) × (out.buf_len ≡ length m * size)
unfolding send_each
send_each_lem p now lbytes size hdr [] d = (refl, omega arith)
send_each_lem p now lbytes size hdr ((ip, c) ∷ m) d =
    let (ih, jh) = send_each_lem p now lbytes size (address p (now ip) c.req hdr) m (addressed d) in
    rw d (
      ap (◌∷◌ (ip, address p (now ip) c.req hdr))
          (ih ∙ messages-address p now (now ip) c.req hdr m),
      omega (arith, jh),
    )
  where
    addressed : has_data hdr ≡ true → has_data (address p (now ip) c.req hdr) ≡ true
    addressed d = unfold address in d

-- The header that a call of qsend starts from.
abbrev pub opened : BufHdr → ℕ → TcpSrv → BufHdr
opened hdr usecs s = record hdr {
  pilot_seq = if s.newclient then 0 else s.pilot.seq;
  pilot_ping = if s.newclient then 0 else s.pilot.ping;
  frm_sig =
      if not s.newclient && ltb qos_to (sub_size usecs s.last_qos) then sync_data else alive_data;
}

-- The header that reaches a client, field by field: of the server's header, of what the server keeps of the
-- pilot, and of the client's own request.
abbrev pub message : BufHdr → (usecs now : ℕ) → TcpSrv → (req : BufHdr) → BufHdr
message hdr usecs now s req = record {
  frm_sig =
      if not s.newclient && ltb qos_to (sub_size usecs s.last_qos) then sync_data else alive_data;
  cur_seq = hdr.cur_seq;
  is_pilot = req.is_pilot;
  cli_ping = req.cli_ping;
  srv_tick = now;
  pilot_ping = if s.newclient then 0 else s.pilot.ping;
  pilot_seq = if s.newclient then 0 else s.pilot.seq;
  cli_qlen = req.cli_qlen;
  cli_qsize = req.cli_qsize;
  cli_qoptim = req.cli_qoptim;
  pilot_q_perc = (s.pilot.qlen * 100) / (s.pilot.qsz + 1) % u16_mod;
  buf_len = hdr.buf_len;
  ao_rate = hdr.ao_rate;
}

pub qsend_sends :
    (hdr : BufHdr) (size usecs : ℕ) (now lbytes : ℕ → ℕ) (s : TcpSrv)
    → has_data hdr ≡ true
    → let (s', out, clis) = qsend hdr size usecs now lbytes s in
      (out.sent ≡ messages s'.pilot now (opened hdr usecs s) s.clis)
      × (out.buf_len ≡ length s.clis * size)
unfolding qsend
qsend_sends hdr size usecs now lbytes s d =
    send_each_lem (qsend hdr size usecs now lbytes s).0.pilot now lbytes size (opened hdr usecs s)
      s.clis d
