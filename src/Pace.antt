-- ===== src/Pace.antt =====
-- srv/main.cpp: the loop of the server. What the pipe, the clock and the sockets give in a round is an
-- argument; a chunk's payload stays in it and is not followed.
pub mod Frames
use the_multi_room_speaker.Base.{
  ℕ, suc, ◌+◌, ◌-◌, ◌*◌, ◌/◌, ◌%◌, Bool, true, false, ◌&&◌, not, List, [], ◌∷◌, ltb, ◌==◌,
  if◌then◌else◌, sub_size, u32_mod, u64_mod,
}
use the_multi_room_speaker.Base.Int.{ℤ, pos, negsuc, pos_part, neg_part}
use the_multi_room_speaker.Wire.{
  BufHdr, hdr_size, alive_data, one_sec, tcp_snd_len, sample_ao, channels_ao, bits_ao,
}
use the_multi_room_speaker.Server.{TcpSrv, Round, pool, qsend}
use the_multi_room_speaker.Pid.{Doubles, PidImpl, calculate, reset_pid}

-- Microseconds to a chunk.
abbrev pub sleep_opt : ℕ
sleep_opt = 1000 * ((1000 * tcp_snd_len) / (sample_ao * channels_ao * (bits_ao / 8)))

-- The doubles T, P, I, D and 100.0, and the conversions from and to integers.
pub record Gains (d : Doubles) : Type 0 where
  pub t : d.carrier
  pub p : d.carrier
  pub i : d.carrier
  pub d_gain : d.carrier
  pub hundred : d.carrier
  pub of_nat : ℕ → d.carrier
  pub to_nat : d.carrier → ℕ

-- What a round meets: what pipe.peek returns, tick_count(1000) before the pipe is read and after the
-- chunk was sent, tick_count() at the end, what each client's sendall returns and the clock it is sent
-- at, and what pool finds.
pub record Env : Type 0 where
  pub peeked : ℤ
  pub t1 : ℕ
  pub t2 : ℕ
  pub t3 : ℕ
  pub lbytes : ℕ → ℕ
  pub now : ℕ → ℕ
  pub found : Round

pub record Serving (d : Doubles) : Type 0 where
  pub srv : TcpSrv
  pub hdr : BufHdr
  pub frm : ℕ
  pub bps : ℕ
  pub lastbps : ℕ
  pub pid : PidImpl d
  pub alive : Bool

-- Whether the loop goes on, the new state, what was sent, and the pause before the next round.
pub record Served (d : Doubles) : Type 0 where
  pub goes_on : Bool
  pub state : Serving d
  pub sent : List (ℕ × BufHdr)
  pub pause : ℕ

-- The header after the pipe was read: a whole chunk is a new frame.
unfoldable pub stamp : {d : Doubles} → ℤ → Serving d → Serving d
stamp n s =
    let hdr = record (s.hdr) { buf_len = n } in
    let numbered = record hdr {
      frm_sig = alive_data;
      ao_rate = sample_ao;
      cur_seq = suc s.frm % u32_mod;
    } in
    if pos_part n == tcp_snd_len
    then record s { hdr = numbered; frm = suc s.frm; bps = s.bps + pos_part n }
    else record s { hdr = hdr }

-- `slploop` before the controller has seen it.
unfoldable pub slack : ℕ → ℕ
slack rt = if ltb rt sleep_opt then sleep_opt - rt else 15

-- The controller's part of a round: its new state, and `slploop`. `frmdiff` is what pool returned.
unfoldable pub steer :
    {d : Doubles} → Gains d → (frmdiff : ℤ) (rt : ℕ) → TcpSrv → PidImpl d → PidImpl d × ℕ
unfolding slack
steer {d} g frmdiff rt srv pid =
    let size = g.of_nat srv.pilot.qsz in
    let curperc = d.over (d.times (g.of_nat srv.pilot.qlen) g.hundred) size in
    let foptim = d.over (d.times (g.of_nat srv.pilot.qoptim) g.hundred) size in
    let (pid', xpidv) = calculate d foptim curperc pid in
    let pidv = d.over (d.minus g.hundred xpidv) g.hundred in
    if not (pos_part frmdiff + neg_part frmdiff == 0)
      && not (srv.pilot.qsz == 0)
      && ltb rt sleep_opt
    then (pid', g.to_nat (d.times (g.of_nat (slack rt)) pidv))
    else (pid, slack rt)

-- A round in which the pipe gave something: it is sent, the clients are served, and the pause is set.
unfoldable pub send_chunk : {d : Doubles} → Gains d → Env → Serving d → Served d
unfolding stamp steer
send_chunk g e s0 =
    let s = stamp e.peeked s0 in
    let (srv, out, clis) = qsend s.hdr (tcp_snd_len + hdr_size) e.t1 e.now e.lbytes s.srv in
    let rt = sub_size e.t2 e.t1 in
    let (srv', alive, frmdiff) = pool e.found srv in
    let (pid', slploop) = steer g frmdiff rt srv' s.pid in
    let late : Bool = ltb one_sec (sub_size e.t3 e.t1) in
    record {
      goes_on = true;
      state = record s {
        srv = srv';
        hdr = out.hdr;
        bps = if late then 0 else s.bps + out.buf_len;
        lastbps = if late then s.bps + out.buf_len else s.lastbps;
        pid = pid';
        alive = alive;
      };
      sent = out.sent;
      pause = (slploop + 15) % u32_mod;
    }

-- A round of the loop.
unfoldable pub serve_round : {d : Doubles} → Gains d → Env → Serving d → Served d
unfolding send_chunk
serve_round {d} g e s =
    let rested : Serving d = record s {
      pid = reset_pid d g.t g.p g.i g.d_gain s.pid;
      hdr = record (s.hdr) { buf_len = e.peeked };
    } in
    if neg_part e.peeked == 1
    then record { goes_on = false; state = record rested { alive = false }; sent = []; pause = 0 }
    else if pos_part e.peeked + neg_part e.peeked == 0
    then record { goes_on = true; state = rested; sent = []; pause = 4095 }
    else send_chunk g e s
