-- ===== src/Client.antt =====
-- cli/sclient.h and cli/sclient.cpp: the receiving side of a speaker. The stream of the connection, the
-- clock (`time` is time(0) in seconds, `tick` is tick_count() in milliseconds) and the queue's length are
-- read where the source reads them.
pub mod Frames
pub mod Requeue
pub mod Link
pub mod Rounds
pub mod Reached
pub mod Aimed
pub mod Arrives
pub mod Live
pub mod Wired
pub mod Kept
pub mod Follows
pub mod Heard
pub mod InOrder
use the_multi_room_speaker.Base.{
  ℕ, zero, suc, ◌+◌, ◌-◌, ◌*◌, ◌%◌, Bool, true, false, ◌&&◌, not, Option, none, some, List, [], ◌∷◌,
  ◌++◌, ltb, ◌==◌, if◌then◌else◌, length, take, drop, get_elem?, sub_size, int_mod, u16_mod,
  u32_mod,
}
use the_multi_room_speaker.Base.Int.{ℤ, pos, negsuc, ◌-ℤ◌, ltb_ℤ, pos_part, neg_part, sub_ℕ}
use the_multi_room_speaker.Wire.{
  BufHdr, hdr_size, sync_data, reset_all, cli_sync_percent, synched_delta, max_reque_interval,
  one_sec,
}
use the_multi_room_speaker.Wire.Codec.{encode, decode, bits_int}
use the_multi_room_speaker.Sock.{Segment, receiveall}
use the_multi_room_speaker.Circle.{
  Chunk, Circle, Ref, slot, scrap, modify, release, reset, q_feedup, dummy, force_optim,
}

-- Bytes read into the front of a buffer.
unfoldable pub overlay : List ℕ → List ℕ → List ℕ
overlay got old = got ++ drop (length got) old

-- What reading a frame into a chunk gives: whether it was read whole and has the length that its header
-- states, the chunk, what is left of the stream, and the bytes of payload.
pub record Frame : Type 0 where
  pub accepted : Bool
  pub chunk : Chunk
  pub left : List Segment
  pub buf_len : ℕ

-- What is made of the header `hdr` and of what receiveall gives for the payload: pk->len() bytes are
-- read into pk->payload() if the header announces any, and as many as announced must come.
unfoldable pub framed : Chunk → BufHdr → List Segment → List ℕ × List Segment → Frame
unfolding overlay
framed k hdr s1 body =
    let some_data : Bool = not (pos_part hdr.buf_len + neg_part hdr.buf_len == 0) in
    let buf_len : ℕ = if some_data then length body.0 else 0 in
    record {
      accepted = pos_part hdr.buf_len == buf_len && neg_part hdr.buf_len == 0;
      chunk = record k {
        hdr = hdr;
        payload = if some_data then overlay body.0 k.payload else k.payload;
      };
      left = if some_data then body.1 else s1;
      buf_len = buf_len;
    }

-- The first part of sclient::_check_stream: receiveall of the header into pk->hdr(), then the payload.
unfoldable pub read_frame : Chunk → List Segment → Frame
unfolding framed overlay
read_frame k s =
    let (head, s1) = receiveall hdr_size s in
    let hdr = (decode (overlay head (encode k.hdr))).0 in
    if length head == hdr_size
    then framed k hdr s1 (receiveall (k.sz - hdr_size) s1)
    else record { accepted = false; chunk = record k { hdr = hdr }; left = s1; buf_len = 0 }

pub record Sclient : Type 0 where
  pub rq : Circle
  pub qos : BufHdr
  pub ping : ℕ
  pub pingdiff : ℕ
  pub frmdiff : ℤ
  pub rewind : ℕ
  pub reque_time : ℕ
  pub now : ℕ
  pub bps : ℕ
  pub srvsync : Bool

-- pilot_seq - cur_seq, of uint32_t, as an `int`.
unfoldable pub seq_diff : ℕ → ℕ → ℤ
seq_diff a b = bits_int ((a + u32_mod - b) % u32_mod)

-- std::abs(pilot_q_perc-CLI_SYNC_PERCENT)<SYNCHED_DELTA
unfoldable pub pilot_synched : BufHdr → Bool
pilot_synched h =
    let d = sub_ℕ h.pilot_q_perc cli_sync_percent in ltb (pos_part d + neg_part d) synched_delta

-- The optimum that a client that is no pilot asks for, if it does: the pilot plays near its optimum, this
-- client is apart from it, and more than MAX_REQUE_INTERVAL seconds have gone by.
unfoldable pub requeues : BufHdr → ℤ → ℕ → ℕ → Bool
unfolding pilot_synched
requeues h frmdiff time reque_time =
    pilot_synched h
    && not (pos_part frmdiff + neg_part frmdiff == 0)
    && ltb (reque_time + max_reque_interval) time

-- The change of the queue by a SYNC_DATA frame.
unfoldable pub resync : BufHdr → ℕ → Sclient → Sclient
unfolding requeues
resync h time c =
    let newopt = pos (c.rq.elems) -ℤ c.frmdiff in
    let requeued : Sclient = record c {
      reque_time = time;
      rq = if ltb_ℤ (pos (synched_delta * 2)) newopt then force_optim newopt c.rq else c.rq;
    } in
    if h.is_pilot
    then record c { rq = force_optim (pos cli_sync_percent) c.rq }
    else if requeues h c.frmdiff time c.reque_time
    then requeued
    else c

-- The report to the server: `_qos`, if player::play has filled it since the last one.
unfoldable pub report : BufHdr → Sclient → Sclient × Option BufHdr
report h c =
    let out = record (c.qos) { srv_tick = h.srv_tick } in
    if c.qos.frm_sig == 0
    then (c, none)
    else (record c { qos = record out { frm_sig = 0 } }, some out)

-- The rest of sclient::_check_stream, on the header `h` of a frame with `buf_len` bytes of payload. The
-- report is the last thing but the clock's.
unfoldable pub check_frame : BufHdr → ℕ → ℕ → ℕ → Sclient → Sclient × Option BufHdr
unfolding seq_diff resync report
check_frame h buf_len time fut c0 =
    let c = record c0 { bps = c0.bps + buf_len } in
    let c1 = record c {
      rewind = 0;
      ping = h.cli_ping % u32_mod;
      pingdiff = h.pilot_ping;
      frmdiff = seq_diff h.pilot_seq h.cur_seq;
    } in
    let synced : Sclient × Option BufHdr =
      if h.frm_sig == sync_data && not (h.pilot_seq == 0)
      then report h (resync h time c1)
      else (c, none) in
    let late : Sclient =
      if ltb one_sec (sub_size fut synced.0.now)
      then record (synced.0) { now = fut; bps = 0 }
      else synced.0 in
    if h.frm_sig == reset_all then (record c { rq = reset c.rq }, none) else (late, synced.1)

-- sclient::_check_stream: the frame that was read, the new state and the report.
unfoldable pub check_stream :
    Chunk → List Segment → ℕ → ℕ → Sclient → Frame × Sclient × Option BufHdr
unfolding read_frame check_frame
check_stream k s time fut c =
    let f = read_frame k s in
    let c' = record c { srvsync = true } in
    let headed : Bool = length (receiveall hdr_size s).0 == hdr_size in
    let done = check_frame f.chunk.hdr f.buf_len time fut c' in
    if f.accepted then (f, done.0, done.1) else (f, if headed then c' else c, none)

abbrev pub chunk_at : Ref → Circle → Option Chunk
chunk_at (slot i) q = get_elem? q.queue i
chunk_at scrap q = q.scrap_chunk

-- One frame of sclient::_get_data, when the socket is readable: the state, the rest of the stream, the
-- report, and whether the connection is kept. `none` is an access outside the queue, or a null pointer.
pub record Got : Type 0 where
  pub client : Sclient
  pub left : List Segment
  pub sent : Option BufHdr
  pub kept : Bool

-- A frame read into the chunk behind `r`, which is then released. Without room (`drop`) the result of
-- _check_stream is not looked at.
unfoldable pub get_into : Bool → Ref → List Segment → ℕ → ℕ → Sclient → Option Got
unfolding check_stream
get_into drop r s time fut c = elim (chunk_at r c.rq) [
  | none ↦ none
  | some k ↦
      let (f, c', sent) = check_stream k s time fut c in
      some (record {
        client = record c' { rq = (release (some r) (modify r (λ x. f.chunk) c'.rq)).1 };
        left = f.left;
        sent = sent;
        kept = if drop then true else f.accepted;
      })
]

unfoldable pub get_data : List Segment → ℕ → ℕ → Sclient → Option Got
unfolding get_into
get_data s time fut c = elim (q_feedup false c.rq) [
  | none ↦ none
  | some (some r, q) ↦ get_into false r s time fut (record c { rq = q })
  | some (none, q) ↦ elim (dummy q).0 [
    | none ↦ none
    | some r ↦ get_into true r s time fut (record c { rq = (dummy q).1 })
  ]
]

-- sclient::update_frame, after a frame was played. The fields are of 16 bits.
unfoldable pub update_frame : BufHdr → Sclient → Sclient
update_frame cur c = record c {
  qos = record (c.qos) {
    frm_sig = sync_data;
    cur_seq = cur.cur_seq;
    cli_qlen = c.rq.elems % u16_mod;
    cli_qoptim = c.rq.optim % u16_mod;
    cli_qsize = c.rq.maxqsz % u16_mod;
  };
}
