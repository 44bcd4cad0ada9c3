-- ===== src/Client/Live.antt =====
-- From the server's TcpSrv::qsend to the client's player::play: the frames that a connection carries. The
-- frames are sent one after the other, the receiving and the playing thread take turns.
use the_multi_room_speaker.Base.{ℕ, zero, suc, true, false, Option, none, some, List, [], ◌∷◌, ◌++◌}
use the_multi_room_speaker.Wire.Codec.{encode}
use the_multi_room_speaker.Sock.{Segment, Kernel, sendall}
use the_multi_room_speaker.Circle.Fifo.{Frame, Event, delivers, plays, play}
use the_multi_room_speaker.Client.{Sclient, get_data}

-- The bytes of a frame that was sent whole, and of those after it.
unfoldable pub sent_then : Option (List ℕ × ℕ) → Option (List ℕ) → Option (List ℕ)
sent_then none more = none
sent_then (some (taken, suc left)) more = none
sent_then (some (taken, zero)) none = none
sent_then (some (taken, zero)) (some more) = some (taken ++ more)

-- pcli->sendall(chunk.buff(), chunk.size()), once for each frame, with what ::send does in each: the bytes
-- that have gone out. `none`: a frame was not sent whole, and the client is disconnected.
unfoldable pub wire : List (Kernel × Frame) → Option (List ℕ)
wire [] = some []
wire ((send, d) ∷ fs) = sent_then (sendall send (encode d.0 ++ d.1) 8000) (wire fs)

-- The client's two threads, each of which does its loop's body once in a turn.
pub data Turn : Type 0 where
  arrives : (time fut : ℕ) → Turn
  plays_one : Turn

abbrev pub Living : Type 0
Living = List Frame × List Segment × Sclient

abbrev pub played : Option Frame → Option Living → Option Living
played none x = x
played (some d) none = none
played (some d) (some (ds, s, c)) = some (d ∷ ds, s, c)

-- The frames played, what is left of the stream, and the client. `none`: an access outside the queue, or
-- the connection was given up. What the player reports to the server is left out.
unfoldable pub live : List Turn → List Segment → Sclient → Option Living
live [] s c = some ([], s, c)
live (arrives time fut ∷ ts) s c = elim (get_data s time fut c) [
  | none ↦ none
  | some g ↦ elim g.kept [ true ↦ live ts g.left g.client | false ↦ none ]
]
live (plays_one ∷ ts) s c = elim (play c.rq) [
  | none ↦ none
  | some (d, q) ↦ played d (live ts s (record c { rq = q }))
]

-- What the turns are to the list of frames that the queue stands for.
unfoldable pub history : List Turn → List (Kernel × Frame) → List Event
history [] fs = []
history (arrives time fut ∷ ts) [] = history ts []
history (arrives time fut ∷ ts) ((send, d) ∷ fs) = delivers d ∷ history ts fs
history (plays_one ∷ ts) fs = plays ∷ history ts fs

-- How many frames come in.
unfoldable pub arrivals : List Turn → ℕ
arrivals [] = 0
arrivals (arrives time fut ∷ ts) = suc (arrivals ts)
arrivals (plays_one ∷ ts) = arrivals ts
