-- ===== src/Tests/Receiver.antt =====
-- The receiving side of a speaker (cli/sclient.cpp) at concrete inputs.
use the_multi_room_speaker.Base.{
  ◌-◌, ◌%◌, ℕ, ◌+◌, ◌≡◌, ◌≢◌, refl, true, false, some, List, [], ◌∷◌, ◌++◌, arith, replicate,
  length-append,
}
use the_multi_room_speaker.Base.Int.{pos, sub_ℕ}
use the_multi_room_speaker.Wire.{BufHdr, zero_hdr, sync_data, hdr_size}
use the_multi_room_speaker.Wire.Codec.{encode}
use the_multi_room_speaker.Wire.Roundtrip.{InRange, length-encode}
use the_multi_room_speaker.Sock.{Segment, bytes}
use the_multi_room_speaker.Sock.Stream.{flat, IsData}
use the_multi_room_speaker.Circle.{Chunk, Circle, slot, init}
use the_multi_room_speaker.Circle.Invariant.{IsValid}
use the_multi_room_speaker.Server.{no_pilot, address}
use the_multi_room_speaker.Client.{check_frame, Sclient, Got, requeues, get_into}
use the_multi_room_speaker.Client.Frames.{get_into_kept, short_read_disconnects}
use the_multi_room_speaker.Client.Requeue.{report_moves}
use mathlib.Core.List.{append_assoc}

abbrev queue : Circle
queue = record init {
  queue =
      replicate 173 (record { sz = 4144; hdr = zero_hdr; payload = []; idx = 0; locked = false });
  maxqsz = 173;
  optim = 86;
  puti = 90;
  elems = 90;
}

queue-IsValid : IsValid queue
unfolding init
queue-IsValid = omega arith

-- A client three frames behind the pilot.
abbrev behind_three : Sclient
behind_three = record {
  rq = queue;
  qos = zero_hdr;
  ping = 0;
  pingdiff = 0;
  frmdiff = pos 0;
  rewind = 0;
  reque_time = 100;
  now = 0;
  bps = 0;
  srvsync = true;
}

abbrev synched : BufHdr
synched = record zero_hdr {
  frm_sig = sync_data;
  cur_seq = 997;
  pilot_seq = 1000;
  pilot_q_perc = 49;
  buf_len = pos 2;
}

due : requeues synched (sub_ℕ 3 0) 131 100 ≡ true
unfolding requeues
due = refl

report_moves_example :
    let c' = (check_frame synched 2 131 0 behind_three).0 in
    (c'.rq.optim + 3 ≡ 90 + 0)
    × (c'.rq.elems ≡ 90 - (3 - 0))
    × (c'.rq.geti ≡ (0 + (3 - 0)) % 173)
    × (c'.rq.block_get ≡ false)
    × (c'.reque_time ≡ 131)
unfolding init
report_moves_example =
    report_moves synched 2 131 0 behind_three 3 0 queue-IsValid refl (omega arith) refl
      (omega arith) (omega arith) (omega arith) (omega arith) refl due (omega arith) (omega arith)
      (omega arith)

abbrev small : Chunk
small = record { sz = hdr_size + 2; hdr = zero_hdr; payload = 0 ∷ 0 ∷ []; idx = 0; locked = true }

abbrev small_queue : Circle
small_queue = record init { queue = small ∷ []; maxqsz = 1 }

-- A frame with two bytes of payload, cut within the payload, and the first byte of what follows.
abbrev cut : List Segment
cut = bytes (encode synched ++ (7 ∷ [])) ∷ bytes (8 ∷ 9 ∷ []) ∷ []

cut-IsData : IsData cut
cut-IsData = (
  omega (arith, length-append (encode synched) (7 ∷ []), length-encode synched),
  (omega arith, tt),
)

synched-InRange : InRange synched
synched-InRange = omega arith

flat-cut : flat cut ≡ encode synched ++ ((7 ∷ 8 ∷ []) ++ (9 ∷ []))
unfolding flat
flat-cut = append_assoc (encode synched) (7 ∷ []) (8 ∷ 9 ∷ [])

some_data : 2 + 0 ≢ 0
some_data = omega arith

abbrev listening : Sclient
listening = record behind_three { rq = small_queue }

get_into_kept_example :
    (g : Got) × (get_into false (slot 0) cut 131 0 listening ≡ some g)
    × (g.kept ≡ true)
    × (flat g.left ≡ 9 ∷ [])
unfolding init
get_into_kept_example =
    get_into_kept small synched (7 ∷ 8 ∷ []) (9 ∷ []) cut cut-IsData synched-InRange flat-cut refl
      refl some_data (slot 0) 131 0 listening refl

-- The server has read 1000 bytes from its pipe.
abbrev short_hdr : BufHdr
short_hdr = record zero_hdr { cur_seq = 3; buf_len = pos 1000 }

abbrev whole_chunk : List ℕ
whole_chunk = replicate 4096 0

abbrev addressed : BufHdr
addressed = address no_pilot 5 zero_hdr short_hdr

addressed-InRange : InRange addressed
unfolding address
addressed-InRange = omega arith

abbrev sent_whole : List Segment
sent_whole = bytes (encode addressed ++ whole_chunk) ∷ []

flat-sent : flat sent_whole ≡ encode addressed ++ (whole_chunk ++ [])
unfolding flat
flat-sent = append_assoc (encode addressed) whole_chunk []

sent-IsData : IsData sent_whole
sent-IsData =
    (omega (arith, length-append (encode addressed) whole_chunk, length-encode addressed), tt)

abbrev roomy : Chunk
roomy = record { sz = 4144; hdr = zero_hdr; payload = whole_chunk; idx = 0; locked = true }

abbrev roomy_client : Sclient
roomy_client = record behind_three { rq = record init { queue = roomy ∷ []; maxqsz = 1 } }

short_read_disconnects_example :
    (g : Got) × (get_into false (slot 0) sent_whole 131 0 roomy_client ≡ some g) × (g.kept ≡ false)
unfolding init
short_read_disconnects_example =
    short_read_disconnects no_pilot 5 1000 zero_hdr short_hdr roomy whole_chunk [] sent_whole
      (slot 0) 131 0 roomy_client refl (omega arith) (omega arith) addressed-InRange refl flat-sent
      sent-IsData refl refl refl
