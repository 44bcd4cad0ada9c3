-- ===== src/Tests/Reports.antt =====
-- The pilot gets a report's frame, at which its queue waits for more.
use the_multi_room_speaker.Base.{
  ℕ, ◌≡◌, refl, sym, ap, ◌∙◌, true, false, some, List, [], ◌∷◌, ◌++◌, map, arith,
}
use mathlib.Core.List.{append-nil, Sublist}
use the_multi_room_speaker.Base.Int.{pos}
use the_multi_room_speaker.Wire.{zero_hdr, sync_data}
use the_multi_room_speaker.Wire.Codec.{encode, bytes_of}
use the_multi_room_speaker.Wire.Roundtrip.{InRange, length-encode}
use the_multi_room_speaker.Sock.{Segment, bytes, Kernel, sendall}
use the_multi_room_speaker.Sock.Stream.{flat, IsData}
use the_multi_room_speaker.Server.{address, send_each, qsend, pool}
use the_multi_room_speaker.Pace.{Env, Serving, stamp, send_chunk, serve_round}
use the_multi_room_speaker.Circle.{init, forced_optim}
use the_multi_room_speaker.Circle.Fifo.{Frame, Buffer, pop, push, retarget}
use the_multi_room_speaker.Circle.Fifo.View.{view}
use the_multi_room_speaker.Client.Aimed.{adjust, retuned_list}
use the_multi_room_speaker.Client.Arrives.{IsWhole}
use the_multi_room_speaker.Client.Live.{sent_then, wire, Living, live, arrivals}
use the_multi_room_speaker.Client.Kept.{first_sent}
use the_multi_room_speaker.Client.Follows.{follows}
use the_multi_room_speaker.Client.Heard.{live-follows}
use the_multi_room_speaker.Rooms.{serving, header_for, frames_for, has_client, Stays}
use the_multi_room_speaker.Tests.Serving.{naturals, gains, whole, begun}
use the_multi_room_speaker.Tests.Stream.{
  silence, queue, speaker, queue-IsQuiet, quick, quick-TakesOffered, turns,
}

-- A report is due, and the client is the pilot.
abbrev pub piped : List (Env × List ℕ)
piped = (record whole { t1 = 2000000 }, silence) ∷ []

abbrev pub leading : Serving naturals
leading = record begun {
  srv = record (begun.srv) {
    clis =
        (
          20,
          record {
            sock = some 5;
            dirty = false;
            req = record zero_hdr { is_pilot = true };
            index = 0;
          },
        )
        ∷ [];
    pilot = record (begun.srv.pilot) { seq = 7; qlen = 51; qsz = 101; qoptim = 50 };
  };
}

pub stays : Stays 20 gains piped leading
unfolding Stays has_client
stays = (refl, tt)

abbrev pub frame : Frame
frame = (
  record zero_hdr {
    frm_sig = sync_data;
    cur_seq = 1;
    is_pilot = true;
    srv_tick = 1000;
    pilot_seq = 7;
    pilot_q_perc = 50;
    buf_len = pos 4096;
    ao_rate = 44100;
  },
  silence,
)

abbrev pub sent : List (Kernel × Frame)
sent = (quick, frame) ∷ []

pub framed : map (λ x. x.1) sent ≡ frames_for 20 (serving gains piped leading)
unfolding frames_for header_for serving serve_round send_chunk stamp qsend send_each address pool
framed = refl

frame-InRange : InRange frame.0
frame-InRange = omega arith

pub frame-IsWhole : IsWhole frame
frame-IsWhole = record {
  in_range = frame-InRange;
  no_reset = omega arith;
  announced = refl;
  whole = refl;
}

pub wired : wire sent ≡ some (encode frame.0 ++ silence)
unfolding wire sendall sent_then encode bytes_of
wired = refl

abbrev pub segments : List Segment
segments = bytes (encode frame.0) ∷ bytes silence ∷ []

pub segments-IsData : IsData segments
segments-IsData = (omega (arith, length-encode frame.0), (omega arith, tt))

pub flat-segments : flat segments ≡ (encode frame.0 ++ silence) ++ []
unfolding flat
flat-segments =
    ap (λ (xs : List ℕ). encode frame.0 ++ xs) (append-nil silence)
    ∙ sym (append-nil (encode frame.0 ++ silence))

-- Nothing is played: the queue waits for two frames.
abbrev heard : List Frame × Buffer
heard = ([], record { items = frame ∷ []; optim = 2; waiting = true })

runs : follows 2 turns sent 100 (view queue) ≡ some heard
unfolding follows adjust retuned_list retarget forced_optim init pop push
runs = refl

live-follows_example :
    (out : Living) × (live turns segments speaker ≡ some out)
    × (out.0 ≡ [])
    × (view out.2.rq ≡ heard.1)
    × Sublist (out.0 ++ (view out.2.rq).items) ((view queue).items ++ first_sent 1 sent)
unfolding init arrivals
live-follows_example =
    live-follows turns sent (encode frame.0 ++ silence) [] segments speaker heard wired
      (frame-IsWhole, quick-TakesOffered, tt) (omega arith) segments-IsData flat-segments
      queue-IsQuiet ((refl, refl), ((refl, refl), tt)) runs
