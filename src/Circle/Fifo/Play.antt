-- ===== src/Circle/Fifo/Play.antt =====
-- A frame that is taken out of the play queue.
use the_multi_room_speaker.Base.{
  ℕ, suc, ◌+◌, ◌-◌, ◌%◌, ◌≤◌, ◌<◌, ◌≡◌, refl, sym, ap, ap₂, ◌⊎◌, ◌∙◌, true, false, Option, none,
  some, List, [], ◌∷◌, ltb, length, get_elem?, set, arith, inl, inr, length-set, get_elem?-set_self,
  set-set, Bool-cases,
}
use the_multi_room_speaker.Circle.{Chunk, Circle, slot, inc, reblock, q_consume, lock, unlock}
use the_multi_room_speaker.Circle.Invariant.{reblock-IsValid, IsValid, inc_lem}
use the_multi_room_speaker.Circle.Window.{add-mod-ne, mod_step, window, length-window, window_congr}
use the_multi_room_speaker.Circle.Fifo.{Frame, clear, play, Buffer, pop}
use native.Mathlib.Nat.{mod-add-mod, mod-lt}
use native.Mathlib.Decide.{ℕ_discrete}
use the_multi_room_speaker.Circle.Fifo.View.{
  frame_at, view, IsQuiet, frame_at-set, locked_at-set, slot_lem, use_slot,
}

-- q_consume on a queue that has entries and does not wait.
pub consume_lem :
    (q : Circle) (k : Chunk)
    → get_elem? q.queue q.geti ≡ some k
    → k.locked ≡ false
    → 0 < q.elems
    → q.block_get ≡ false
    → q_consume q
      ≡ some (
        some (slot q.geti),
        record q {
          geti = inc q.maxqsz q.geti;
          elems = q.elems - 1;
          queue = set q.queue q.geti (lock k);
        },
      )
unfolding q_consume reblock
consume_lem q k e un some_in open_ = ground arith

-- The queue after its oldest frame is played.
pub play_slot :
    {q : Circle}
    → IsQuiet q
    → 0 < q.elems
    → q.block_get ≡ false
    → (k : Chunk) × (get_elem? q.queue q.geti ≡ some k)
      × (play q
          ≡ some (
            some (frame_at q.queue q.geti),
            record q {
              geti = inc q.maxqsz q.geti;
              elems = q.elems - 1;
              queue = set q.queue q.geti (unlock (clear (lock k)));
            },
          ))
unfolding play
play_slot {q} v some_in open_ =
    let (k, e, un) = slot_lem v q.geti v.valid.geti_in in
    let in_range : q.geti < length q.queue = omega (arith, v.valid.slots, v.valid.geti_in) in
    (
      k,
      e,
      rw (consume_lem q k e un some_in open_, play)
          (ap₂ (λ (d : Frame) (q' : Circle). some (some d, q'))
            (rw (get_elem?-set_self q.queue q.geti (lock k) in_range, e) refl)
            (use_slot
                (record q {
                  geti = inc q.maxqsz q.geti;
                  elems = q.elems - 1;
                  queue = set q.queue q.geti (lock k);
                })
                q.geti (lock k) clear (get_elem?-set_self q.queue q.geti (lock k) in_range)
                (rw length-set in_range)
              ∙ ap
                  (λ (xs : List Chunk). record q {
                    geti = inc q.maxqsz q.geti;
                    elems = q.elems - 1;
                    queue = xs;
                  })
                  (set-set q.queue q.geti (lock k) (unlock (clear (lock k)))))),
    )

play_lem :
    {q : Circle}
    → IsQuiet q
    → 0 < q.elems
    → q.block_get ≡ false
    → (k : Chunk) × (k.locked ≡ false)
      × (play q
          ≡ some (
            some (frame_at q.queue q.geti),
            record q {
              geti = inc q.maxqsz q.geti;
              elems = q.elems - 1;
              queue = set q.queue q.geti k;
            },
          ))
play_lem v some_in open_ =
    let (k, at, e) = play_slot v some_in open_ in (unlock (clear (lock k)), refl, e)

-- Without frames, or while it waits, the queue yields nothing and only checks whether to wait on.
pub play-none :
    (q : Circle) → (q.elems ≡ 0) ⊎ (q.block_get ≡ true) → play q ≡ some (none, reblock q)
unfolding play q_consume reblock
play-none q h = ground arith

played-IsValid :
    {q : Circle} (k : Chunk)
    → IsValid q
    → 0 < q.elems
    → IsValid
        (record q { geti = inc q.maxqsz q.geti; elems = q.elems - 1; queue = set q.queue q.geti k })
played-IsValid {q} k v some_in = ground (
  arith,
  length-set q.queue q.geti k,
  inc_lem q.maxqsz q.geti v.geti_in v.small,
  mod-add-mod (q.geti + 1) q.maxqsz (q.elems - 1),
  ap (λ (n : ℕ). n % q.maxqsz) (consumed q.geti q.elems some_in),
)
  where
    consumed : (g e : ℕ) → 0 < e → g + 1 + (e - 1) ≡ g + e
    consumed g e h = omega arith

pub played_items :
    {q : Circle} (k : Chunk) (e : ℕ)
    → IsValid q
    → suc e ≤ q.maxqsz
    → window (frame_at q.queue) q.maxqsz q.geti (suc e)
      ≡ frame_at q.queue q.geti
        ∷ window (frame_at (set q.queue q.geti k)) q.maxqsz (inc q.maxqsz q.geti) e
played_items {q} k e v fits = ap (◌∷◌ (frame_at q.queue q.geti)) (
    rw (inc_lem q.maxqsz q.geti v.geti_in v.small).0 (
      window_congr _ _ q.maxqsz ((q.geti + 1) % q.maxqsz) e (mod-lt (q.geti + 1) v.some_slots)
        λ j lt. sym (
          frame_at-set q.queue q.geti _ k (
            rw mod_step
              (add-mod-ne q.maxqsz q.geti (suc j) v.geti_in (omega arith) (omega arith))))))

view_items :
    {q : Circle} (k : Chunk)
    → IsQuiet q
    → 0 < q.elems
    → (view q).items
      ≡ frame_at q.queue q.geti
        ∷ window (frame_at (set q.queue q.geti k)) q.maxqsz (inc q.maxqsz q.geti) (q.elems - 1)
view_items {q} k v h =
    let one : q.elems ≡ suc (q.elems - 1) = omega arith in
    ap (λ (n : ℕ). window (frame_at q.queue) q.maxqsz q.geti n) one
    ∙ played_items k (q.elems - 1) v.valid (omega (arith, v.fits))

pop_cons :
    (b : Buffer) (d : Frame) (ds : List Frame)
    → b.items ≡ d ∷ ds
    → b.waiting ≡ false
    → pop b ≡ (some d, record b { items = ds })
unfolding pop
pop_cons b d ds e w = ground arith

pop_waiting :
    (b : Buffer)
    → b.waiting ≡ true
    → pop b ≡ (none, record b { waiting = ltb (length b.items) b.optim })
unfolding pop
pop_waiting b w = ground arith

pop_nil : (b : Buffer) → b.items ≡ [] → b.waiting ≡ false → pop b ≡ (none, b)
unfolding pop
pop_nil b e w = ground arith

-- `q'` is how the played queue looks, by the list.
abbrev pub Plays : Circle → Option Frame × Buffer → Type 0
Plays q r =
    (q' : Circle) × (play q ≡ some (r.0, q'))
    × IsQuiet q'
    × (view q' ≡ r.1)
    × (q'.maxqsz ≡ q.maxqsz)

reblock-IsQuiet : {q : Circle} → IsQuiet q → IsQuiet (reblock q)
unfolding reblock
reblock-IsQuiet v = record { valid = reblock-IsValid v.valid; fits = v.fits; free = v.free }

play_waiting : {q : Circle} → IsQuiet q → q.block_get ≡ true → Plays q (pop (view q))
unfolding reblock
play_waiting {q} v w = rw (pop_waiting (view q) w) (
  reblock q,
  play-none q (inr w),
  reblock-IsQuiet v,
  ground (arith, length-window (frame_at q.queue) q.maxqsz q.geti q.elems),
  refl,
)

play_empty : {q : Circle} → IsQuiet q → q.elems ≡ 0 → q.block_get ≡ false → Plays q (pop (view q))
unfolding reblock
play_empty {q} v e w =
    rw (pop_nil (view q) (ap (λ (n : ℕ). window (frame_at q.queue) q.maxqsz q.geti n) e) w)
      (reblock q, play-none q (inl e), reblock-IsQuiet v, ground arith, refl)

play_serves : {q : Circle} → IsQuiet q → 0 < q.elems → q.block_get ≡ false → Plays q (pop (view q))
play_serves {q} v h w =
    let (k, un, e) = play_lem v h w in
    rw (pop_cons (view q) _ _ (view_items k v h) w) (
      _,
      e,
      record {
        valid = played-IsValid k v.valid h;
        fits = omega (arith, v.fits);
        free = λ i. locked_at-set q.queue q.geti i k un (v.free i);
      },
      refl,
      refl,
    )

-- What playing does is what the list does: its oldest frame, or nothing while it waits or is empty.
pub play_refines : {q : Circle} → IsQuiet q → Plays q (pop (view q))
play_refines {q} v = elim (Bool-cases q.block_get) [
  | inl w ↦ play_waiting v w
  | inr w ↦ elim (ℕ_discrete q.elems 0) [
    | yes e ↦ play_empty v e w
    | no ne ↦ play_serves v (omega arith) w
  ]
]
