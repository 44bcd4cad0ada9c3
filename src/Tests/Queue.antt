-- ===== src/Tests/Queue.antt =====
-- The play queue (common/srvq.h) at concrete inputs.
use the_multi_room_speaker.Base.{
  ℕ, zero, suc, ◌+◌, ◌≡◌, ◌≢◌, refl, true, false, some, List, [], ◌∷◌, arith, ◌⊎◌, replicate,
}
use the_multi_room_speaker.Base.Int.{pos}
use the_multi_room_speaker.Wire.{zero_hdr}
use the_multi_room_speaker.Circle.{
  Chunk, Circle, slot, new_chunk, init, reserve, q_feedup, q_consume, force_optim, forced_optim,
  reblock, inc, release, Call, feeds, consumes, releases, run,
}
use mathlib.Core.Option
use the_multi_room_speaker.Circle.Invariant.{IsValid, run-IsValid}
use the_multi_room_speaker.Circle.Optim.{force_optim_lem}
use the_multi_room_speaker.Circle.Fifo.{
  Frame, Event, delivers, plays, forces, deliver, play, Buffer,
}
use the_multi_room_speaker.Circle.Fifo
use the_multi_room_speaker.Circle.Fifo.View.{view, IsQuiet, locked_at}
use the_multi_room_speaker.Circle.Fifo.Refine.{Agrees, run_refines, reserve-IsQuiet}
use the_multi_room_speaker.Circle.Fifo.Overfull.{deliver_full}
use the_multi_room_speaker.Circle.Threads.{Threads, feed, filled, consume, Reach, here, next}
use the_multi_room_speaker.Circle.Threads.Exclusion.{start, never_shared, locked_owned}

-- A chunk of 4096 bytes, free.
abbrev blank : ℕ → Chunk
blank i = record { sz = 52; hdr = zero_hdr; payload = 7 ∷ []; idx = i; locked = false }

abbrev three : Circle
three = record {
  scrap_chunk = some (blank 0);
  queue = blank 0 ∷ blank 1 ∷ blank 2 ∷ [];
  chunksz = 4;
  maxqsz = 3;
  optim = 0;
  puti = 0;
  geti = 0;
  elems = 0;
  block_get = false;
}

reserved_three : reserve 3 4 (7 ∷ []) init ≡ some three
unfolding reserve init new_chunk
reserved_three = refl

three-IsValid : IsValid three
three-IsValid = omega arith

three-IsQuiet : IsQuiet three
three-IsQuiet = (reserve-IsQuiet 3 4 (7 ∷ []) (omega arith) (omega arith) reserved_three).0

abbrev frame : ℕ → Frame
frame n = (record zero_hdr { cur_seq = n; buf_len = pos 4 }, n ∷ n ∷ [])

abbrev script : List Call
script = feeds false ∷ releases (some (slot 0)) ∷ consumes ∷ releases (some (slot 0)) ∷ []

run-IsValid_example : (q : Circle) × (run script three ≡ some q) × IsValid q
run-IsValid_example = run-IsValid script three-IsValid

abbrev hundreds : Circle
hundreds = record three {
  queue = replicate 173 (blank 0);
  maxqsz = 173;
  elems = 60;
  puti = 60;
  optim = 86;
}

hundreds-IsValid : IsValid hundreds
hundreds-IsValid = omega arith

force_optim_lem_example : let q' = force_optim (pos 50) hundreds in (q'.elems ≡ 50) × (q'.geti ≡ 10)
unfolding forced_optim
force_optim_lem_example =
    let r = force_optim_lem (pos 50) hundreds hundreds-IsValid (omega arith) in (r.2, r.3)

abbrev history : List Event
history = delivers (frame 1) ∷ delivers (frame 2) ∷ plays ∷ delivers (frame 3) ∷ plays ∷ []

run_refines_example :
    Agrees
      (Fifo.run history three)
      (frame 1 ∷ frame 2 ∷ [], record { items = frame 3 ∷ []; optim = 0; waiting = false })
unfolding Fifo.run_buffer Fifo.push Fifo.pop
run_refines_example = run_refines history three _ three-IsQuiet refl

run-history : Option.map (λ r. r.0) (Fifo.run history three) ≡ some (frame 1 ∷ frame 2 ∷ [])
unfolding Fifo.run deliver play reblock inc
run-history = refl

abbrev full : Circle
full = record three {
  queue =
      record (blank 0) { payload = 1 ∷ [] }
      ∷ record (blank 1) { payload = 2 ∷ [] }
      ∷ record (blank 2) { payload = 3 ∷ [] }
      ∷ [];
  elems = 3;
}

free_full : (i : ℕ) → locked_at full.queue i ≡ false
free_full zero = refl
free_full (suc zero) = refl
free_full (suc (suc zero)) = refl
free_full (suc (suc (suc i))) = refl

full-IsQuiet : IsQuiet full
full-IsQuiet = record { valid = omega arith; fits = omega arith; free = free_full }

deliver_full_example :
    (q' : Circle) × (deliver (frame 4) full ≡ some q')
    × (q'.elems ≡ q'.maxqsz + 1)
    × ((view q').items ≡ frame 4 ∷ (zero_hdr, 2 ∷ []) ∷ (zero_hdr, 3 ∷ []) ∷ frame 4 ∷ [])
deliver_full_example =
    deliver_full full (frame 4) (zero_hdr, 1 ∷ []) ((zero_hdr, 2 ∷ []) ∷ (zero_hdr, 3 ∷ []) ∷ [])
      full-IsQuiet refl refl

-- The receiver has filled slot 0 and fills slot 1; the player reads slot 0.
abbrev held : ℕ → Chunk
held i = record (blank i) { locked = true }

abbrev fed : Circle
fed = record three { queue = held 0 ∷ blank 1 ∷ blank 2 ∷ []; puti = 1; elems = 1 }

abbrev ready : Circle
ready = record fed { queue = blank 0 ∷ blank 1 ∷ blank 2 ∷ [] }

abbrev taken : Circle
taken = record ready { queue = held 0 ∷ blank 1 ∷ blank 2 ∷ []; geti = 1; elems = 0 }

abbrev both : Circle
both = record taken { queue = held 0 ∷ held 1 ∷ blank 2 ∷ []; puti = 2; elems = 1 }

abbrev busy : Threads
busy = record { q = both; filling = some 1; playing = some 0 }

Reach-busy : Reach (start three) busy
unfolding q_feedup q_consume release reblock inc
Reach-busy =
    next
      (next (next (next here (feed 0 fed refl refl)) (filled 0 refl)) (consume 0 taken refl refl))
      (feed 1 both refl refl)

never_shared_example :
    (◌≢◌ {A = ℕ} 1 0) × (locked_at both.queue 1 ≡ true) × (locked_at both.queue 0 ≡ true)
never_shared_example =
    never_shared 3 4 (7 ∷ []) three busy (omega arith) (omega arith) reserved_three Reach-busy 1 0
      refl refl

locked_owned_example : (busy.filling ≡ some 0) ⊎ (busy.playing ≡ some 0)
locked_owned_example =
    locked_owned 3 4 (7 ∷ []) three busy (omega arith) (omega arith) reserved_three Reach-busy 0
      refl
