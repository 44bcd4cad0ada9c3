-- ===== src/Tests/Stream.antt =====
-- One frame on its way from the server to the speaker.
use the_multi_room_speaker.Base.{
  ℕ, zero, suc, ◌≡◌, refl, sym, ap, ◌∙◌, true, false, some, List, [], ◌∷◌, ◌++◌, arith, replicate,
}
use mathlib.Core.List.{append-nil}
use the_multi_room_speaker.Base.Int.{pos}
use the_multi_room_speaker.Wire.{zero_hdr, alive_data}
use the_multi_room_speaker.Wire.Codec.{encode, bytes_of}
use the_multi_room_speaker.Wire.Roundtrip.{InRange, length-encode}
use the_multi_room_speaker.Sock.{Segment, bytes, Kernel, sendall}
use the_multi_room_speaker.Sock.Stream.{flat, IsData}
use the_multi_room_speaker.Sock.Sending.{TakesOffered}
use the_multi_room_speaker.Circle.{Chunk, Circle, init}
use the_multi_room_speaker.Circle.Invariant.{IsValid}
use the_multi_room_speaker.Circle.Fifo.{Frame, Buffer, run_buffer, pop, push}
use the_multi_room_speaker.Circle.Fifo.View.{view, locked_at, IsQuiet}
use the_multi_room_speaker.Client.{Sclient}
use the_multi_room_speaker.Client.Arrives.{IsAlive}
use the_multi_room_speaker.Client.Live.{
  sent_then, wire, Turn, arrives, plays_one, Living, live, history, arrivals,
}
use the_multi_room_speaker.Client.Kept.{first_sent}
use the_multi_room_speaker.Client.InOrder.{live_in_order}

abbrev pub silence : List ℕ
silence = replicate 4096 0

abbrev chunk : ℕ → Chunk
chunk i = record { sz = 4144; hdr = zero_hdr; payload = silence; idx = i; locked = false }

abbrev pub queue : Circle
queue = record init { queue = chunk 0 ∷ chunk 1 ∷ []; maxqsz = 2 }

abbrev pub speaker : Sclient
speaker = record {
  rq = queue;
  qos = zero_hdr;
  ping = 0;
  pingdiff = 0;
  frmdiff = pos 0;
  rewind = 0;
  reque_time = 100;
  now = 0;
  bps = 0;
  srvsync = true;
}

unlocked : (i : ℕ) → locked_at (chunk 0 ∷ chunk 1 ∷ []) i ≡ false
unlocked zero = refl
unlocked (suc zero) = refl
unlocked (suc (suc i)) = refl

queue-IsValid : IsValid queue
unfolding init
queue-IsValid = omega arith

pub queue-IsQuiet : IsQuiet queue
unfolding init
queue-IsQuiet = record { valid = queue-IsValid; fits = omega arith; free = unlocked }

abbrev frame : Frame
frame = (record zero_hdr { frm_sig = alive_data; cur_seq = 7; buf_len = pos 4096 }, silence)

frame-InRange : InRange frame.0
frame-InRange = omega arith

frame-IsAlive : IsAlive frame
frame-IsAlive = record {
  in_range = frame-InRange;
  no_report = omega arith;
  no_reset = omega arith;
  announced = refl;
  whole = refl;
}

-- A kernel that takes what it is offered.
abbrev pub quick : Kernel
quick i n = (pos n, 0)

pub quick-TakesOffered : TakesOffered quick
quick-TakesOffered i n = omega arith

abbrev sent : List (Kernel × Frame)
sent = (quick, frame) ∷ []

wired : wire sent ≡ some (encode frame.0 ++ silence)
unfolding wire sendall sent_then encode bytes_of
wired = refl

-- The frame comes in two segments.
abbrev segments : List Segment
segments = bytes (encode frame.0) ∷ bytes silence ∷ []

segments-IsData : IsData segments
segments-IsData = (omega (arith, length-encode frame.0), (omega arith, tt))

flat-segments : flat segments ≡ (encode frame.0 ++ silence) ++ []
unfolding flat
flat-segments =
    ap (λ (xs : List ℕ). encode frame.0 ++ xs) (append-nil silence)
    ∙ sym (append-nil (encode frame.0 ++ silence))

-- The player finds nothing, the frame comes in, the player finds it.
abbrev pub turns : List Turn
turns = plays_one ∷ arrives 131 0 ∷ plays_one ∷ []

abbrev heard : List Frame × Buffer
heard = (frame ∷ [], record { items = []; optim = 0; waiting = false })

runs : run_buffer 2 (history turns sent) (view queue) ≡ some heard
unfolding run_buffer history init pop push
runs = refl

live_in_order_example :
    (out : Living) × (live turns segments speaker ≡ some out)
    × (out.0 ++ (view out.2.rq).items ≡ (view queue).items ++ first_sent 1 sent)
unfolding init arrivals
live_in_order_example =
    live_in_order turns sent (encode frame.0 ++ silence) [] segments speaker heard wired
      (frame-IsAlive, quick-TakesOffered, tt) (omega arith) segments-IsData flat-segments
      queue-IsQuiet ((refl, refl), ((refl, refl), tt)) runs
