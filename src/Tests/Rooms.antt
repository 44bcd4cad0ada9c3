-- ===== src/Tests/Rooms.antt =====
-- The pipe gives one chunk; it comes to the speaker in two segments, and is played.
use the_multi_room_speaker.Base.{
  ℕ, ◌≡◌, refl, sym, ap, ◌∙◌, false, some, List, [], ◌∷◌, ◌++◌, map, take, arith,
}
use mathlib.Core.List.{append-nil}
use the_multi_room_speaker.Base.Int.{pos}
use the_multi_room_speaker.Wire.{zero_hdr, alive_data}
use the_multi_room_speaker.Wire.Codec.{encode, bytes_of}
use the_multi_room_speaker.Wire.Roundtrip.{InRange, length-encode}
use the_multi_room_speaker.Sock.{Segment, bytes, Kernel, sendall}
use the_multi_room_speaker.Sock.Stream.{flat, IsData}
use the_multi_room_speaker.Server.{address, send_each, qsend, pool}
use the_multi_room_speaker.Pace.{Env, stamp, send_chunk, serve_round}
use the_multi_room_speaker.Circle.{init}
use the_multi_room_speaker.Circle.Fifo.{Frame, Buffer, run_buffer, pop, push}
use the_multi_room_speaker.Circle.Fifo.View.{view}
use the_multi_room_speaker.Client.Arrives.{IsAlive}
use the_multi_room_speaker.Client.Live.{sent_then, wire, Living, live, history, arrivals}
use the_multi_room_speaker.Rooms.{serving, header_for, frames_for, sound, sounds, has_client, Stays}
use the_multi_room_speaker.Rooms.InStep.{in_step}
use the_multi_room_speaker.Tests.Serving.{gains, whole, begun}
use the_multi_room_speaker.Tests.Stream.{
  silence, queue, speaker, queue-IsQuiet, quick, quick-TakesOffered, turns,
}

abbrev piped : List (Env × List ℕ)
piped = (whole, silence) ∷ []

stays : Stays 20 gains piped begun
unfolding Stays has_client
stays = (refl, tt)

abbrev frame : Frame
frame = (
  record zero_hdr {
    frm_sig = alive_data;
    cur_seq = 1;
    srv_tick = 1000;
    buf_len = pos 4096;
    ao_rate = 44100;
  },
  silence,
)

abbrev sent : List (Kernel × Frame)
sent = (quick, frame) ∷ []

framed : map (λ x. x.1) sent ≡ frames_for 20 (serving gains piped begun)
unfolding frames_for header_for serving serve_round send_chunk stamp qsend send_each address pool
framed = refl

frame-InRange : InRange frame.0
frame-InRange = omega arith

frame-IsAlive : IsAlive frame
frame-IsAlive = record {
  in_range = frame-InRange;
  no_report = omega arith;
  no_reset = omega arith;
  announced = refl;
  whole = refl;
}

wired : wire sent ≡ some (encode frame.0 ++ silence)
unfolding wire sendall sent_then encode bytes_of
wired = refl

abbrev segments : List Segment
segments = bytes (encode frame.0) ∷ bytes silence ∷ []

segments-IsData : IsData segments
segments-IsData = (omega (arith, length-encode frame.0), (omega arith, tt))

flat-segments : flat segments ≡ (encode frame.0 ++ silence) ++ []
unfolding flat
flat-segments =
    ap (λ (xs : List ℕ). encode frame.0 ++ xs) (append-nil silence)
    ∙ sym (append-nil (encode frame.0 ++ silence))

abbrev heard : List Frame × Buffer
heard = (frame ∷ [], record { items = []; optim = 0; waiting = false })

runs : run_buffer 2 (history turns sent) (view queue) ≡ some heard
unfolding run_buffer history init pop push
runs = refl

in_step_example :
    (out : Living) × (live turns segments speaker ≡ some out)
    × (map sound (out.0 ++ (view out.2.rq).items) ≡ take 1 (sounds gains piped begun))
unfolding init arrivals
in_step_example =
    in_step gains piped begun 20 turns sent (encode frame.0 ++ silence) [] segments speaker heard
      refl stays framed wired (frame-IsAlive, quick-TakesOffered, tt) (omega arith) segments-IsData
      flat-segments queue-IsQuiet ((refl, refl), ((refl, refl), tt)) refl runs
