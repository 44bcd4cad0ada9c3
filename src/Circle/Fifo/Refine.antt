-- ===== src/Circle/Fifo/Refine.antt =====
-- The play queue refines the list of frames.
use the_multi_room_speaker.Base.{
  ℕ, zero, suc, ◌+◌, ◌%◌, ◌≤◌, ◌<◌, ◌≡◌, refl, subst, ap, ap₂, ◌∙◌, Bool, true, false, Option, none,
  some, List, [], ◌∷◌, ltb, if◌then◌else◌, length, arith, int_mod,
}
use the_multi_room_speaker.Base.Int.{ℤ}
use the_multi_room_speaker.Circle.{
  reserve, init, new_chunk, new_chunks, Circle, inc, forced_optim, force_optim, shrink_loop,
}
use the_multi_room_speaker.Circle.Invariant.{
  reserve-IsValid, shrink_loop-Dropped, force_optim-IsValid, IsValid, inc_lem,
}
use the_multi_room_speaker.Circle.Window.{window, length-window}
use the_multi_room_speaker.Circle.Fifo.{
  and_then, and_then_items, Event, delivers, plays, forces, run, run_buffer, push, pop, Frame,
  Buffer, push, pop, keep_last, retarget,
}
use the_multi_room_speaker.Circle.Fifo.View.{frame_at, locked_at, view, IsQuiet}
use the_multi_room_speaker.Circle.Fifo.Deliver.{deliver_refines}
use the_multi_room_speaker.Circle.Fifo.Play.{play_refines, Plays}

shrink_items :
    (f : ℕ → Frame) (m n e g : ℕ)
    → g < m
    → m < int_mod
    → let (left, at) = shrink_loop m n e g in window f m at left ≡ keep_last n (window f m g e)
unfolding shrink_loop keep_last
shrink_items f m n zero g h s = refl
shrink_items f m n (suc e) g h s = ground (
  arith,
  inc_lem m g h s,
  shrink_items f m n e (inc m g) (inc_lem m g h s).1 s,
  length-window f m ((g + 1) % m) e,
)

force_optim-frame :
    (q : Circle) (n : ℤ)
    → ((force_optim n q).queue ≡ q.queue) × ((force_optim n q).maxqsz ≡ q.maxqsz)
unfolding force_optim
force_optim-frame q n = ground arith

elems-force_optim : {q : Circle} (n : ℤ) → IsValid q → (force_optim n q).elems ≤ q.elems
unfolding force_optim
elems-force_optim {q} n v =
    ground (
      arith,
      shrink_loop-Dropped q.maxqsz (forced_optim n q.maxqsz) q.elems q.geti v.geti_in v.small,
    )

view-force_optim :
    {q : Circle} (n : ℤ)
    → IsValid q
    → view (force_optim n q) ≡ retarget (forced_optim n q.maxqsz) (view q)
unfolding force_optim retarget
view-force_optim {q} n v = ground (
  arith,
  shrink_items (frame_at q.queue) q.maxqsz (forced_optim n q.maxqsz) q.elems q.geti v.geti_in
      v.small,
  length-window (frame_at q.queue) q.maxqsz q.geti q.elems,
)

-- A new optimum drops the oldest frames down to it, or makes the list wait until it is reached.
pub force_optim_refines :
    {q : Circle} (n : ℤ)
    → IsQuiet q
    → IsQuiet (force_optim n q)
      × (view (force_optim n q) ≡ retarget (forced_optim n q.maxqsz) (view q))
      × ((force_optim n q).maxqsz ≡ q.maxqsz)
force_optim_refines {q} n v = (
  record {
    valid = force_optim-IsValid n v.valid;
    fits = omega (arith, elems-force_optim n v.valid, v.fits, (force_optim-frame q n).1);
    free = λ i. rw (force_optim-frame q n).0 (v.free i);
  },
  view-force_optim n v.valid,
  (force_optim-frame q n).1,
)

-- What a run of the queue returns, seen through the list of frames.
abbrev pub Agrees : Option (List Frame × Circle) → List Frame × Buffer → Type 0
Agrees none r = ⊥
Agrees (some (ds, q)) r = (ds ≡ r.0) × (view q ≡ r.1) × IsQuiet q

pub if_some {ℓ} :
    {A : Type ℓ} (c : Bool) (x : Option A) {r : A}
    → (if c then x else none) ≡ some r
    → (c ≡ true) × (x ≡ some r)
if_some true x h = (refl, h)
if_some false x h = cc

pub and_then-Agrees :
    (o : Option Frame) (x : Option (List Frame × Circle)) (y : Option (List Frame × Buffer))
    {r : List Frame × Buffer}
    → and_then_items o y ≡ some r
    → ((s : List Frame × Buffer) → y ≡ some s → Agrees x s)
    → Agrees (and_then o x) r
and_then-Agrees none x y h a = a _ h
and_then-Agrees (some d) x none h a = cc
and_then-Agrees (some d) none (some s) h a = a s refl
and_then-Agrees (some d) (some (ds, q)) (some s) {r} h a =
    let (e1, e2, v) = a s refl in (ground arith, ground arith, v)

run-Agrees :
    (cap : ℕ) (es : List Event) (q : Circle) (b : Buffer) {r : List Frame × Buffer}
    → IsQuiet q
    → q.maxqsz ≡ cap
    → view q ≡ b
    → run_buffer cap es b ≡ some r
    → Agrees (run es q) r
unfolding run run_buffer
run-Agrees cap [] q b v c e h = (ground arith, ground arith, v)
run-Agrees cap (delivers d ∷ es) q b v c e h =
    let (room, rest) = if_some (ltb (length b.items) cap) (run_buffer cap es (push d b)) h in
    let (q', made, v', e', c') = deliver_refines d v (free_slot room) in
    rw (made, run) (run-Agrees cap es q' (push d b) v' (c' ∙ c) (e' ∙ ap (push d) e) rest)
  where
    free_slot : ltb (length b.items) cap ≡ true → q.elems < q.maxqsz
    free_slot room = ground (
      arith,
      ap (λ (x : Buffer). length x.items) e,
      length-window (frame_at q.queue) q.maxqsz q.geti q.elems,
    )
run-Agrees cap (plays ∷ es) q b v c e h =
    let (q', played, v', e', c') = subst (λ (x : Buffer). Plays q (pop x)) e (play_refines v) in
    rw (played, run)
      (and_then-Agrees (pop b).0 (run es q') (run_buffer cap es (pop b).1) h
        λ s e''. run-Agrees cap es q' (pop b).1 v' (c' ∙ c) e' e'')
run-Agrees cap (forces n ∷ es) q b v c e h =
    let (v', e', c') = force_optim_refines n v in
    run-Agrees cap es (force_optim n q) (retarget (forced_optim n cap) b) v' (c' ∙ c)
      (e' ∙ ap₂ (λ (m : ℕ) (x : Buffer). retarget (forced_optim n m) x) c e) h

-- A history in which no frame comes in while the queue is full plays the frames that the list of
-- frames plays, in their order, and leaves the queue holding what the list holds.
pub run_refines :
    (es : List Event) (q : Circle) (r : List Frame × Buffer)
    → IsQuiet q
    → run_buffer q.maxqsz es (view q) ≡ some r
    → Agrees (run es q) r
run_refines es q r v h = run-Agrees q.maxqsz es q (view q) v refl refl h

unlocked_new :
    (chunk : ℕ) (junk : List ℕ) (i n k : ℕ) → locked_at (new_chunks chunk junk i n) k ≡ false
unfolding new_chunks new_chunk
unlocked_new chunk junk i zero k = refl
unlocked_new chunk junk i (suc n) zero = refl
unlocked_new chunk junk i (suc n) (suc k) = unlocked_new chunk junk (i + 1) n k

pub queue-reserve :
    (chunks chunk : ℕ) (junk : List ℕ) {q : Circle}
    → reserve chunks chunk junk init ≡ some q
    → q.queue ≡ new_chunks chunk junk 0 chunks
unfolding reserve init
queue-reserve chunks chunk junk e = ground arith

-- A queue that has just been reserved is at rest, and holds no frame.
pub reserve-IsQuiet :
    (chunks chunk : ℕ) (junk : List ℕ) {q : Circle}
    → 0 < chunks
    → chunks < int_mod
    → reserve chunks chunk junk init ≡ some q
    → IsQuiet q × ((view q).items ≡ []) × (q.maxqsz ≡ chunks)
unfolding reserve init
reserve-IsQuiet chunks chunk junk {q} p s e =
    let (v, empty, m) = reserve-IsValid chunks chunk junk p s e in
    (
      record {
        valid = v;
        fits = omega arith;
        free = λ i. rw (queue-reserve chunks chunk junk e) (unlocked_new chunk junk 0 chunks i);
      },
      ap (λ (n : ℕ). window (frame_at q.queue) q.maxqsz q.geti n) empty,
      m,
    )
