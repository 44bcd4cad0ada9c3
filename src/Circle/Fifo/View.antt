-- ===== src/Circle/Fifo/View.antt =====
-- The list of frames that a play queue holds, and the chunk behind a slot.
use the_multi_room_speaker.Base.{
  ℕ, zero, suc, ◌≤◌, ◌<◌, ◌≡◌, ◌≢◌, refl, sym, ap, ◌∙◌, Bool, false, none, some, List, [], ◌∷◌,
  length, get_elem?, set, arith, get_elem?-lt, get_elem?-set_self, get_elem?-set_ne, set-set,
}
use the_multi_room_speaker.Circle.{Chunk, Circle, slot, modify, unlock}
use the_multi_room_speaker.Circle.Invariant.{IsValid}
use the_multi_room_speaker.Circle.Window.{window}
use the_multi_room_speaker.Circle.Fifo.{Frame, frame_of, Buffer}

abbrev pub frame_at : List Chunk → ℕ → Frame
frame_at xs i = frame_of (get_elem? xs i)

abbrev pub locked_at : List Chunk → ℕ → Bool
locked_at xs i = elim (get_elem? xs i) [ none ↦ false | some k ↦ k.locked ]

abbrev pub view : Circle → Buffer
view q = record {
  items = window (frame_at q.queue) q.maxqsz q.geti q.elems;
  optim = q.optim;
  waiting = q.block_get;
}

-- Between two frames no chunk is locked, and the queue is not overfull.
pub record IsQuiet (q : Circle) : Type 0 where
  pub valid : IsValid q
  pub fits : q.elems ≤ q.maxqsz
  pub free : (i : ℕ) → locked_at q.queue i ≡ false

pub frame_at-set :
    (xs : List Chunk) (p i : ℕ) (k : Chunk) → i ≢ p → frame_at (set xs p k) i ≡ frame_at xs i
frame_at-set xs p i k ne = ap frame_of (get_elem?-set_ne xs p i k (λ e. ne (sym e)))

pub locked_at-set :
    (xs : List Chunk) (p i : ℕ) (k : Chunk)
    → k.locked ≡ false
    → locked_at xs i ≡ false
    → locked_at (set xs p k) i ≡ false
locked_at-set [] p i k un h = refl
locked_at-set (x ∷ xs) zero zero k un h = un
locked_at-set (x ∷ xs) zero (suc i) k un h = h
locked_at-set (x ∷ xs) (suc p) zero k un h = h
locked_at-set (x ∷ xs) (suc p) (suc i) k un h = locked_at-set xs p i k un h

pub frame_at-set_self :
    (xs : List Chunk) (p : ℕ) (k : Chunk)
    → p < length xs
    → frame_at (set xs p k) p ≡ frame_of (some k)
frame_at-set_self xs p k h = ap frame_of (get_elem?-set_self xs p k h)

-- A slot in range holds an unlocked chunk.
pub slot_lem :
    {q : Circle}
    → IsQuiet q
    → (i : ℕ) → i < q.maxqsz
    → (k : Chunk) × (get_elem? q.queue i ≡ some k) × (k.locked ≡ false)
slot_lem {q} v i h =
    let (k, e) = get_elem?-lt q.queue i (omega (arith, v.valid.slots)) in
    (k, e, ground (arith, e, v.free i))

pub modify_slot :
    (q : Circle) (i : ℕ) (k : Chunk) (f : Chunk → Chunk)
    → get_elem? q.queue i ≡ some k
    → modify (slot i) f q ≡ record q { queue = set q.queue i (f k) }
unfolding modify
modify_slot q i k f e = ground arith

-- A chunk that is locked, written and released.
pub use_slot :
    (q : Circle) (i : ℕ) (k : Chunk) (f : Chunk → Chunk)
    → get_elem? q.queue i ≡ some k
    → i < length q.queue
    → modify (slot i) unlock (modify (slot i) f q)
      ≡ record q { queue = set q.queue i (unlock (f k)) }
use_slot q i k f e h = rw (modify_slot q i k f e) (
    modify_slot (record q { queue = set q.queue i (f k) }) i (f k) unlock
      (get_elem?-set_self q.queue i (f k) h)
    ∙ ap (λ (xs : List Chunk). record q { queue = xs }) (set-set q.queue i (f k) (unlock (f k))))
