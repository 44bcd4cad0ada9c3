-- ===== src/Client/InOrder.antt =====
-- What the client plays is what the server has sent, in the order in which it was sent.
use the_multi_room_speaker.Base.{
  ℕ, ◌≤◌, ◌≡◌, refl, ap, ◌∙◌, Option, none, some, List, [], ◌∷◌, ◌++◌, ltb, if◌then◌else◌, length,
  arith,
}
use the_multi_room_speaker.Base.Int.{ℤ}
use the_multi_room_speaker.Sock.{Segment, Kernel}
use the_multi_room_speaker.Sock.Stream.{flat, IsData}
use the_multi_room_speaker.Circle.Fifo.{Frame, Buffer, push, pop, run_buffer, and_then_items}
use the_multi_room_speaker.Circle.Fifo.View.{view, IsQuiet}
use the_multi_room_speaker.Client.{Sclient}
use the_multi_room_speaker.Client.Aimed.{adjust, retuned_list}
use the_multi_room_speaker.Client.Arrives.{AllSized, IsAlive, alive-IsWhole}
use the_multi_room_speaker.Client.Live.{
  wire, Turn, arrives, plays_one, Living, live, history, arrivals,
}
use the_multi_room_speaker.Client.Wired.{AllAlive}
use the_multi_room_speaker.Client.Kept.{first_sent, run_buffer_keeps}
use the_multi_room_speaker.Client.Follows.{follows, AllWhole}
use the_multi_room_speaker.Client.Heard.{live-follows}

-- Frames between two reports ask for nothing.
adjust-alive : (d : Frame) (time rt len : ℕ) → IsAlive d → adjust d.0 time rt len ≡ (none, rt)
unfolding adjust
adjust-alive d time rt len a = ground (arith, a.no_report)

AllAlive-AllWhole : (fs : List (Kernel × Frame)) → AllAlive fs → AllWhole fs
AllAlive-AllWhole [] a = tt
AllAlive-AllWhole ((send, d) ∷ fs) (alive, takes, a) =
    (alive-IsWhole d alive, takes, AllAlive-AllWhole fs a)

follows-history :
    (cap : ℕ) (ts : List Turn) (fs : List (Kernel × Frame)) (rt : ℕ) (b : Buffer)
    → AllAlive fs
    → follows cap ts fs rt b ≡ run_buffer cap (history ts fs) b
unfolding follows run_buffer history retuned_list
follows-history cap [] fs rt b a = refl
follows-history cap (arrives time fut ∷ ts) [] rt b a = follows-history cap ts [] rt b a
follows-history cap (arrives time fut ∷ ts) ((send, d) ∷ fs) rt b (alive, takes, a) =
    let len = length (push d b).items in
    ap
      (λ (x : Option ℤ × ℕ).
        if ltb (length b.items) cap
        then follows cap ts fs x.1 (retuned_list x.0 cap (push d b))
        else none)
      (adjust-alive d time rt len alive)
    ∙ ap (λ (x : Option (List Frame × Buffer)). if ltb (length b.items) cap then x else none)
        (follows-history cap ts fs rt (push d b) a)
follows-history cap (plays_one ∷ ts) fs rt b a =
    ap (and_then_items (pop b).0) (follows-history cap ts fs rt (pop b).1 a)

-- The server sends whole frames between two reports, each of which sendall takes whole, where ::send takes
-- no more than it is offered; TCP delivers their bytes, cut in any way; and the client, whose queue is at
-- rest with chunks of the size reserved, receives and plays in turns of any order in which no frame comes
-- in while the queue is full. Then no access is outside the queue, the connection is kept, and what was
-- played, followed by what still waits in the queue, is what waited at first, followed by the frames that
-- have come in: headers and payloads as the server sent them, none lost, none double, in their order.
pub live_in_order :
    (ts : List Turn) (fs : List (Kernel × Frame)) (bs rest : List ℕ) (s : List Segment)
    (c : Sclient) (r : List Frame × Buffer)
    → wire fs ≡ some bs
    → AllAlive fs
    → arrivals ts ≤ length fs
    → IsData s
    → flat s ≡ bs ++ rest
    → IsQuiet c.rq
    → AllSized c.rq.queue
    → run_buffer c.rq.maxqsz (history ts fs) (view c.rq) ≡ some r
    → (out : Living) × (live ts s c ≡ some out)
      × (out.0 ++ (view out.2.rq).items ≡ (view c.rq).items ++ first_sent (arrivals ts) fs)
live_in_order ts fs bs rest s c r w a n segs fl quiet sized h =
    let cap = c.rq.maxqsz in
    let (out, e, ds, shown, sub) =
      live-follows ts fs bs rest s c r w (AllAlive-AllWhole fs a) n segs fl quiet sized
        (follows-history cap ts fs c.reque_time (view c.rq) a ∙ h) in
    (
      out,
      e,
      ap (λ (xs : List Frame). xs ++ (view out.2.rq).items) ds
          ∙ ap (λ (b : Buffer). r.0 ++ b.items) shown
          ∙ run_buffer_keeps cap ts fs (view c.rq) h n,
    )
