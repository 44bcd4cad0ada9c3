-- ===== src/Rooms/Reports.antt =====
-- What a speaker plays while it reports to the server and changes its optimum.
use the_multi_room_speaker.Base.{
  ℕ, ◌≤◌, ◌≡◌, ap, ◌∙◌, subst, some, List, [], ◌++◌, map, length, take,
}
use mathlib.Core.List.{Sublist, Sublistᴰ}
use mathlib.Core.Logic.{∥∥₁_map}
use the_multi_room_speaker.Sock.{Segment, Kernel}
use the_multi_room_speaker.Sock.Stream.{flat, IsData}
use the_multi_room_speaker.Pid.{Doubles}
use the_multi_room_speaker.Pace.{Gains, Env, Serving}
use the_multi_room_speaker.Pace.Frames.{IsNumbered}
use the_multi_room_speaker.Circle.Fifo.{Frame, Buffer}
use the_multi_room_speaker.Circle.Fifo.View.{view, IsQuiet}
use the_multi_room_speaker.Client.{Sclient}
use the_multi_room_speaker.Client.Arrives.{AllSized}
use the_multi_room_speaker.Client.Live.{wire, Turn, Living, live, arrivals}
use the_multi_room_speaker.Client.Kept.{first_sent}
use the_multi_room_speaker.Client.Follows.{follows, AllWhole}
use the_multi_room_speaker.Client.Heard.{live-follows}
use the_multi_room_speaker.Rooms.{serving, frames_for, sound, sounds, Stays}
use the_multi_room_speaker.Rooms.InStep.{frames-sounds, first_sent-sounds}

map-Sublistᴰ : {xs ys : List Frame} → Sublistᴰ xs ys → Sublistᴰ (map sound xs) (map sound ys)
map-Sublistᴰ Sublistᴰ.slnil = Sublistᴰ.slnil
map-Sublistᴰ (Sublistᴰ.cons s) = Sublistᴰ.cons (map-Sublistᴰ s)
map-Sublistᴰ (Sublistᴰ.cons-cons e s) = Sublistᴰ.cons-cons (ap sound e) (map-Sublistᴰ s)

map-Sublist : (xs ys : List Frame) → Sublist xs ys → Sublist (map sound xs) (map sound ys)
map-Sublist xs ys s = ∥∥₁_map {B = Sublistᴰ (map sound xs) (map sound ys)} s map-Sublistᴰ

-- The server's loop runs for some rounds, from a header that has the number of the chunks read so far, and
-- an address is connected in each. If the frames for that address are whole ones, reports or not, and
-- sendall takes each whole, where ::send takes no more than it is offered, TCP delivers their bytes, cut
-- in any way, and the speaker there, whose queue is empty and at rest with chunks of the size reserved,
-- receives and plays in turns of any order in which no frame comes in while the queue is full, then no
-- access is outside the queue, the connection is kept, and what was played and what still waits are,
-- with their numbers, some of the chunks that the pipe gave the server and that have come in, none double
-- and in their order, whatever the reports make the speaker drop or wait for.
pub reports_in_order :
    {d : Doubles} (g : Gains d) (es : List (Env × List ℕ)) (srv : Serving d) (ip : ℕ)
    (ts : List Turn) (fs : List (Kernel × Frame)) (bs rest : List ℕ) (s : List Segment)
    (c : Sclient) (r : List Frame × Buffer)
    → IsNumbered srv
    → Stays ip g es srv
    → map (λ x. x.1) fs ≡ frames_for ip (serving g es srv)
    → wire fs ≡ some bs
    → AllWhole fs
    → arrivals ts ≤ length fs
    → IsData s
    → flat s ≡ bs ++ rest
    → IsQuiet c.rq
    → AllSized c.rq.queue
    → (view c.rq).items ≡ []
    → follows c.rq.maxqsz ts fs c.reque_time (view c.rq) ≡ some r
    → (out : Living) × (live ts s c ≡ some out)
      × (out.0 ≡ r.0)
      × (view out.2.rq ≡ r.1)
      × Sublist (map sound (out.0 ++ (view out.2.rq).items)) (take (arrivals ts) (sounds g es srv))
      × Sublist (out.0 ++ (view out.2.rq).items) (first_sent (arrivals ts) fs)
reports_in_order g es srv ip ts fs bs rest s c r numbered stays same w a n segs fl quiet sized
      no_items h =
    let (out, e, ds, shown, sub) = live-follows ts fs bs rest s c r w a n segs fl quiet sized h in
    let all = out.0 ++ (view out.2.rq).items in
    let ours : Sublist all (first_sent (arrivals ts) fs) =
      subst (λ (xs : List Frame). Sublist all (xs ++ first_sent (arrivals ts) fs)) no_items sub in
    (
      out,
      e,
      ds,
      shown,
      subst (Sublist (map sound all))
          (first_sent-sounds (arrivals ts) fs
            ∙ ap (λ (xs : List Frame). take (arrivals ts) (map sound xs)) same
            ∙ ap (take (arrivals ts)) (frames-sounds g es srv ip numbered stays))
          (map-Sublist all (first_sent (arrivals ts) fs) ours),
      ours,
    )
