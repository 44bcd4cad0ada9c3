-- ===== src/Circle/Fifo.antt =====
-- The play queue against a list of frames: Circle::q_feedup, q_consume and force_optim as the client
-- uses them (cli/sclient.cpp, cli/player.cpp), each frame handled without an interruption.
pub mod View
pub mod Deliver
pub mod Play
pub mod Refine
pub mod Overfull
use the_multi_room_speaker.Base.{
  ℕ, zero, suc, ◌+◌, ◌-◌, ◌%◌, ◌≤◌, ◌<◌, ◌≡◌, ◌≢◌, refl, sym, ap, ◌∙◌, Bool, true, false, ◌&&◌,
  Option, none, some, List, [], ◌∷◌, ◌++◌, ltb, leb, ◌==◌, if◌then◌else◌, length, get_elem?, set,
  arith, Option-cases, inl, inr, get_elem?-lt,
}
use the_multi_room_speaker.Base.Int.{ℤ, pos}
use the_multi_room_speaker.Wire.{BufHdr, zero_hdr}
use the_multi_room_speaker.Circle.{
  Chunk, Circle, Ref, slot, scrap, inc, modify, release, reblock, q_feedup, q_consume, forced_optim,
  force_optim, lock, unlock, shrink_loop,
}

-- What a chunk carries.
abbrev pub Frame : Type 0
Frame = BufHdr × List ℕ

abbrev pub frame_of : Option Chunk → Frame
frame_of none = (zero_hdr, [])
frame_of (some k) = (k.hdr, k.payload)

abbrev pub fill : Frame → Chunk → Chunk
fill d k = record k { hdr = d.0; payload = d.1 }

-- pk->_hdr->buf_len = 0; pk->_hdr->frm_sig = 0;
abbrev pub clear : Chunk → Chunk
clear k = record k { hdr = record (k.hdr) { buf_len = pos 0; frm_sig = 0 } }

abbrev deliver_to : Frame → Option Ref × Circle → Circle
deliver_to d (none, q) = q
deliver_to d (some r, q) = (release (some r) (modify r (fill d) q)).1

-- sclient::_get_data on a frame that arrives in order: q_feedup(false), the reads into the chunk,
-- release. A frame for which there is no chunk is read into `_scrap` and dropped.
unfoldable pub deliver : Frame → Circle → Option Circle
unfolding q_feedup release
deliver d q = elim (q_feedup false q) [ none ↦ none | some r ↦ some (deliver_to d r) ]

abbrev play_from : Option Ref × Circle → Option Frame × Circle
play_from (none, q) = (none, q)
play_from (some scrap, q) = (none, q)
play_from (some (slot i), q) =
    (some (frame_of (get_elem? q.queue i)), (release (some (slot i)) (modify (slot i) clear q)).1)

-- The loop body of player::play: q_consume, the frame played, its chunk cleared and released.
unfoldable pub play : Circle → Option (Option Frame × Circle)
unfolding q_consume release
play q = elim (q_consume q) [ none ↦ none | some r ↦ some (play_from r) ]

-- A list of frames, oldest first, that waits to be filled to an optimum before it yields any.
pub record Buffer : Type 0 where
  pub items : List Frame
  pub optim : ℕ
  pub waiting : Bool

unfoldable pub push : Frame → Buffer → Buffer
push d b = record b {
  items = b.items ++ d ∷ [];
  waiting = b.waiting && ltb (length b.items + 1) b.optim;
}

unfoldable pub pop : Buffer → Option Frame × Buffer
pop b =
    if b.waiting
    then (none, record b { waiting = ltb (length b.items) b.optim })
    else elim b.items [ [] ↦ (none, b) | d ∷ ds ↦ (some d, record b { items = ds }) ]

-- The oldest frames go until at most `n` are left.
unfoldable pub keep_last : ℕ → List Frame → List Frame
keep_last n [] = []
keep_last n (d ∷ ds) = let rest = keep_last n ds in if ltb n (suc (length ds)) then rest else d ∷ ds

unfoldable pub retarget : ℕ → Buffer → Buffer
retarget n b =
    if n == b.optim
    then b
    else if ltb n (length b.items)
    then record b { items = keep_last n b.items; optim = n }
    else record b { optim = n; waiting = true }

-- What happens to a client's queue, frame by frame.
pub data Event : Type 0 where
  delivers : Frame → Event
  plays : Event
  forces : ℤ → Event

abbrev pub and_then : Option Frame → Option (List Frame × Circle) → Option (List Frame × Circle)
and_then none r = r
and_then (some d) none = none
and_then (some d) (some (ds, q)) = some (d ∷ ds, q)

-- The frames played, in order, and the queue at the end.
unfoldable pub run : List Event → Circle → Option (List Frame × Circle)
run [] q = some ([], q)
run (delivers d ∷ es) q = elim (deliver d q) [ none ↦ none | some q' ↦ run es q' ]
run (plays ∷ es) q = elim (play q) [ none ↦ none | some (d, q') ↦ and_then d (run es q') ]
run (forces n ∷ es) q = run es (force_optim n q)

abbrev pub and_then_items :
    Option Frame → Option (List Frame × Buffer) → Option (List Frame × Buffer)
and_then_items none r = r
and_then_items (some d) none = none
and_then_items (some d) (some (ds, b)) = some (d ∷ ds, b)

-- The same history of a list of at most `cap` frames. `none`: a frame came while the list was full.
unfoldable pub run_buffer : ℕ → List Event → Buffer → Option (List Frame × Buffer)
run_buffer cap [] b = some ([], b)
run_buffer cap (delivers d ∷ es) b =
    let rest = run_buffer cap es (push d b) in if ltb (length b.items) cap then rest else none
run_buffer cap (plays ∷ es) b = and_then_items (pop b).0 (run_buffer cap es (pop b).1)
run_buffer cap (forces n ∷ es) b = run_buffer cap es (retarget (forced_optim n cap) b)
