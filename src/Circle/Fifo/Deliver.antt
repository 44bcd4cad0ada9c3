-- ===== src/Circle/Fifo/Deliver.antt =====
-- A frame that is put into the play queue.
use the_multi_room_speaker.Base.{
  ◌+◌, ◌≤◌, ◌<◌, ◌≡◌, refl, sym, ap, ap₂, ◌∙◌, false, some, List, [], ◌∷◌, ◌++◌, length, get_elem?,
  set, arith, length-set, get_elem?-set_self, set-set,
}
use the_multi_room_speaker.Circle.{Chunk, Circle, slot, inc, reblock, q_feedup, lock, unlock}
use the_multi_room_speaker.Circle.Invariant.{IsValid, inc_lem}
use the_multi_room_speaker.Circle.Window.{window, length-window, window_past, window-snoc}
use the_multi_room_speaker.Circle.Fifo.{Frame, frame_of, fill, deliver, push}
use native.Mathlib.Nat.{mod-add-mod}
use native.Mathlib.Numerals.{add-one}
use the_multi_room_speaker.Circle.Fifo.View.{
  frame_at, view, IsQuiet, frame_at-set, locked_at-set, frame_at-set_self, slot_lem, use_slot,
}

-- q_feedup on an unlocked slot of a queue that is not full.
pub feed_lem :
    {q : Circle} (k : Chunk)
    → get_elem? q.queue q.puti ≡ some k
    → k.locked ≡ false
    → IsValid q
    → q.elems ≤ q.maxqsz
    → q_feedup false q
      ≡ some (
        some (slot q.puti),
        reblock (record q {
          puti = inc q.maxqsz q.puti;
          elems = q.elems + 1;
          queue = set q.queue q.puti (lock k);
        }),
      )
unfolding q_feedup reblock
feed_lem k e un v lt = ground arith

-- The queue after a frame is put into the slot that it was given.
pub deliver_slot :
    {q : Circle} (d : Frame)
    → IsQuiet q
    → (k : Chunk) × (get_elem? q.queue q.puti ≡ some k)
      × (deliver d q
          ≡ some (
              reblock (record q {
                puti = inc q.maxqsz q.puti;
                elems = q.elems + 1;
                queue = set q.queue q.puti (unlock (fill d (lock k)));
              })))
unfolding deliver reblock
deliver_slot {q} d v =
    let (k, e, un) = slot_lem v q.puti v.valid.puti_in in
    let in_range : q.puti < length q.queue = omega (arith, v.valid.slots, v.valid.puti_in) in
    (
      k,
      e,
      rw (feed_lem k e un v.valid v.fits, deliver)
          (ap some (
            use_slot
              (reblock (record q {
                puti = inc q.maxqsz q.puti;
                elems = q.elems + 1;
                queue = set q.queue q.puti (lock k);
              }))
              q.puti (lock k) (fill d) (get_elem?-set_self q.queue q.puti (lock k) in_range)
              (rw length-set in_range)
            ∙ ap
                (λ (xs : List Chunk).
                  reblock
                    (record q { puti = inc q.maxqsz q.puti; elems = q.elems + 1; queue = xs }))
                (set-set q.queue q.puti (lock k) (unlock (fill d (lock k)))))),
    )

pub deliver_lem :
    {q : Circle} (d : Frame)
    → IsQuiet q
    → (k : Chunk) × (k.locked ≡ false)
      × (frame_of (some k) ≡ d)
      × (deliver d q
          ≡ some (
              reblock (record q {
                puti = inc q.maxqsz q.puti;
                elems = q.elems + 1;
                queue = set q.queue q.puti k;
              })))
deliver_lem d v = let (k, at, e) = deliver_slot d v in (unlock (fill d (lock k)), refl, refl, e)

fed-IsValid :
    {q : Circle} (k : Chunk)
    → IsValid q
    → q.elems < q.maxqsz
    → IsValid (
        reblock (record q {
          puti = inc q.maxqsz q.puti;
          elems = q.elems + 1;
          queue = set q.queue q.puti k;
        }))
unfolding reblock
fed-IsValid {q} k v lt = ground (
  arith,
  length-set q.queue q.puti k,
  inc_lem q.maxqsz q.puti v.puti_in v.small,
  mod-add-mod (q.geti + q.elems) q.maxqsz 1,
)

fed_items :
    {q : Circle} (k : Chunk)
    → IsValid q
    → q.elems < q.maxqsz
    → window (frame_at (set q.queue q.puti k)) q.maxqsz q.geti (q.elems + 1)
      ≡ window (frame_at q.queue) q.maxqsz q.geti q.elems ++ frame_of (some k) ∷ []
fed_items {q} k v lt = rw add-one (
    window-snoc _ q.maxqsz q.geti q.elems v.geti_in
    ∙ ap₂ (λ (xs ys : List Frame). xs ++ ys)
        (window_past _ _ q.maxqsz q.geti q.elems q.puti v.geti_in lt (sym v.agree)
          (λ i ne. frame_at-set q.queue q.puti i k ne))
        (ap (λ (d : Frame). d ∷ [])
          (rw v.agree (frame_at-set_self q.queue q.puti k (omega (arith, v.slots, v.puti_in))))))

-- A frame that comes in while there is room goes to the end of the list; what waits stops waiting when
-- the optimum is reached.
pub deliver_refines :
    {q : Circle} (d : Frame)
    → IsQuiet q
    → q.elems < q.maxqsz
    → (q' : Circle) × (deliver d q ≡ some q')
      × IsQuiet q'
      × (view q' ≡ push d (view q))
      × (q'.maxqsz ≡ q.maxqsz)
unfolding push reblock
deliver_refines {q} d v lt =
    let (k, un, fr, e) = deliver_lem d v in
    (
      _,
      e,
      record {
        valid = fed-IsValid k v.valid lt;
        fits = omega arith;
        free = λ i. locked_at-set q.queue q.puti i k un (v.free i);
      },
      ground (
        arith,
        fr,
        fed_items k v.valid lt,
        length-window (frame_at q.queue) q.maxqsz q.geti q.elems,
      ),
      refl,
    )
