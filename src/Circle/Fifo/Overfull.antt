-- ===== src/Circle/Fifo/Overfull.antt =====
-- q_feedup on a full queue: its guard `_elems<=(_maxqsz)` still passes.
use the_multi_room_speaker.Base.{
  ℕ, suc, ◌+◌, ◌-◌, ◌%◌, ◌≡◌, sym, ap, ap₂, ◌∙◌, some, List, [], ◌∷◌, ◌++◌, arith, set,
}
use the_multi_room_speaker.Circle.{Chunk, Circle, inc, reblock}
use the_multi_room_speaker.Circle.Invariant.{inc_lem}
use the_multi_room_speaker.Circle.Window.{window, window_round}
use the_multi_room_speaker.Circle.Fifo.{Frame, frame_of, deliver}
use the_multi_room_speaker.Circle.Fifo.View.{frame_at, frame_at-set_self, view, IsQuiet}
use the_multi_room_speaker.Circle.Fifo.Deliver.{deliver_lem}
use the_multi_room_speaker.Circle.Fifo.Play.{played_items}
use native.Mathlib.Nat.{add-mod_right, mod-eq_of_lt}

full_items :
    {q : Circle} (k : Chunk) (x : Frame) (xs : List Frame)
    → IsQuiet q
    → q.elems ≡ q.maxqsz
    → (view q).items ≡ x ∷ xs
    → window (frame_at (set q.queue q.geti k)) q.maxqsz q.geti (q.elems + 1)
      ≡ frame_of (some k) ∷ (xs ++ frame_of (some k) ∷ [])
full_items {q} k x xs v full e =
    ap (λ (n : ℕ). window f q.maxqsz q.geti n) count
    ∙ window_round f q.maxqsz q.geti rest v.valid.geti_in size
    ∙ ap₂ (λ (d : Frame) (ys : List Frame). d ∷ (ys ++ d ∷ [])) new older
  where
    rest : ℕ
    rest = q.maxqsz - 1

    f : ℕ → Frame
    f = frame_at (set q.queue q.geti k)

    size : q.maxqsz ≡ suc (q.maxqsz - 1)
    size = omega (arith, v.valid.some_slots)

    count : q.elems + 1 ≡ suc (suc (q.maxqsz - 1))
    count = omega (arith, v.valid.some_slots)

    new : frame_at (set q.queue q.geti k) q.geti ≡ frame_of (some k)
    new = frame_at-set_self q.queue q.geti k (omega (arith, v.valid.slots, v.valid.geti_in))

    split :
        x ∷ xs
        ≡ frame_at q.queue q.geti
          ∷ window (frame_at (set q.queue q.geti k)) q.maxqsz (inc q.maxqsz q.geti) (q.maxqsz - 1)
    split =
        sym e
        ∙ ap (λ (n : ℕ). window (frame_at q.queue) q.maxqsz q.geti n) (full ∙ size)
        ∙ played_items k (q.maxqsz - 1) v.valid (omega arith)

    older :
        window (frame_at (set q.queue q.geti k)) q.maxqsz ((q.geti + 1) % q.maxqsz) (q.maxqsz - 1)
        ≡ xs
    older = rw (← (inc_lem q.maxqsz q.geti v.valid.geti_in v.valid.small).0) (cc split)

-- A frame that comes in while the queue is full is written over the oldest frame that was not played
-- yet. From then on the queue counts one entry more than it has chunks, and will yield the new frame
-- twice: before all the older ones, and again after them.
pub deliver_full :
    (q : Circle) (d x : Frame) (xs : List Frame)
    → IsQuiet q
    → q.elems ≡ q.maxqsz
    → (view q).items ≡ x ∷ xs
    → (q' : Circle) × (deliver d q ≡ some q')
      × (q'.elems ≡ q'.maxqsz + 1)
      × ((view q').items ≡ d ∷ (xs ++ d ∷ []))
unfolding reblock
deliver_full q d x xs v full e =
    let (k, un, fr, made) = deliver_lem d v in
    (
      _,
      made,
      ap (λ (n : ℕ). n + 1) full,
      rw round (full_items k x xs v full e ∙ ap (λ (y : Frame). y ∷ (xs ++ y ∷ [])) fr),
    )
  where
    round : q.puti ≡ q.geti
    round =
        sym v.valid.agree
        ∙ ap (λ (n : ℕ). (q.geti + n) % q.maxqsz) full
        ∙ add-mod_right q.geti q.maxqsz
        ∙ mod-eq_of_lt v.valid.geti_in
