-- ===== src/Rooms/Begun.antt =====
-- A speaker from its start (cli/main.cpp) on what the server sends (srv/main.cpp).
use the_multi_room_speaker.Base.{
  ℕ, ◌+◌, ◌-◌, ◌≤◌, ◌≡◌, ap, Bool, some, List, ◌++◌, length, map, take,
}
use mathlib.Core.List.{Sublist}
use the_multi_room_speaker.Wire.{hdr_size, max_reque_interval}
use the_multi_room_speaker.Sock.{Segment, Kernel}
use the_multi_room_speaker.Sock.Stream.{flat, IsData}
use the_multi_room_speaker.Pid.{Doubles}
use the_multi_room_speaker.Pace.{Gains, Env, Serving}
use the_multi_room_speaker.Pace.Frames.{IsNumbered}
use the_multi_room_speaker.Circle.{Circle}
use the_multi_room_speaker.Circle.Fifo.{Frame, Buffer}
use the_multi_room_speaker.Circle.Fifo.View.{view}
use the_multi_room_speaker.Client.Live.{wire, Turn, Living, live, arrivals}
use the_multi_room_speaker.Client.Follows.{follows, AllWhole}
use the_multi_room_speaker.Player.Device.{player_ao, device, given, payloads, device-plays}
use the_multi_room_speaker.Setup.{chunks_for, set_up, new_sclient, started}
use the_multi_room_speaker.Setup.Started.{nothing_yet, set_up-IsReady}
use the_multi_room_speaker.Rooms.{serving, frames_for, sound, sounds, Stays}
use the_multi_room_speaker.Rooms.Reports.{reports_in_order}

-- The server's loop runs for some rounds, from a header that has the number of the chunks read so far, and
-- an address is connected in each. If the frames for that address are whole ones, reports or not, and
-- sendall takes each whole, where ::send takes no more than it is offered, TCP delivers their bytes, cut
-- in any way, and the speaker there has just been set up, whichever audio driver opens, and if none does, with
-- any 48 bytes at the end of each chunk that are not set, and receives and plays in turns of any order in which no frame comes in while the queue is full, then
-- no access is outside the queue, the connection is kept, what was played and what still waits is what a
-- list of frames plays and holds, which a report shortens or makes wait exactly as its header asks for;
-- and with their numbers these are some of the chunks that the pipe gave the server and that have come in,
-- none double and in their order. The audio device, if one is open, is given the payloads of what was
-- played, and nothing else.
pub started_in_order :
    {d : Doubles} (g : Gains d) (es : List (Env × List ℕ)) (srv : Serving d) (ip : ℕ)
    (ts : List Turn) (fs : List (Kernel × Frame)) (bs rest : List ℕ) (s : List Segment)
    (opens : ℕ → Bool) (junk : List ℕ) (now start rewind : ℕ) (r : List Frame × Buffer)
    → IsNumbered srv
    → Stays ip g es srv
    → map (λ x. x.1) fs ≡ frames_for ip (serving g es srv)
    → wire fs ≡ some bs
    → AllWhole fs
    → arrivals ts ≤ length fs
    → IsData s
    → flat s ≡ bs ++ rest
    → length junk ≡ hdr_size
    → follows
        (chunks_for opens)
        ts
        fs
        (start + 5 - max_reque_interval)
        (nothing_yet (chunks_for opens))
      ≡ some r
    → (q : Circle) × (set_up opens junk ≡ some q)
      × (out : Living) × (live ts s (started start (new_sclient now rewind q)) ≡ some out)
      × (out.0 ≡ r.0)
      × (view out.2.rq ≡ r.1)
      × Sublist (map sound (out.0 ++ (view out.2.rq).items)) (take (arrivals ts) (sounds g es srv))
      × (device (player_ao opens) out.0 ≡ some (given (player_ao opens) (payloads out.0)))
unfolding new_sclient started
started_in_order g es srv ip ts fs bs rest s opens junk now start rewind r numbered stays same w a n
      segs fl j h =
    let (q, made, quiet, sized, seen, m) = set_up-IsReady opens junk j in
    let c = started start (new_sclient now rewind q) in
    let h' : follows q.maxqsz ts fs c.reque_time (view q) ≡ some r = rw (seen, m) h in
    let (out, e, ds, shown, kept, ours) =
      reports_in_order g es srv ip ts fs bs rest s c r numbered stays same w a n segs fl quiet sized
        (ap (λ (b : Buffer). b.items) seen) h' in
    (
      q,
      made,
      out,
      e,
      ds,
      shown,
      kept,
      device-plays (player_ao opens) (arrivals ts) fs out.0 (view out.2.rq).items a ours,
    )
