-- ===== src/Circle/Threads/Locks.antt =====
-- Which chunks are locked, and who has them: each method and each release.
use the_multi_room_speaker.Base.{
  ℕ, zero, suc, ◌<◌, ◌≡◌, refl, sym, ◌∙◌, inl, inr, true, false, Option, none, some, List, [], ◌∷◌,
  ◌==◌, if◌then◌else◌, length, get_elem?, set, arith, Option-cases, get_elem?-lt, get_elem?-some,
}
use the_multi_room_speaker.Circle.{
  Chunk, Circle, slot, modify, release, reblock, q_feedup, q_consume, lock, unlock,
}
use the_multi_room_speaker.Circle.Invariant.{IsValid}
use the_multi_room_speaker.Circle.Fifo.View.{locked_at}
use the_multi_room_speaker.Circle.Threads.{Held}

locked_at-set :
    (xs : List Chunk) (i j : ℕ) (k : Chunk)
    → i < length xs
    → locked_at (set xs i k) j ≡ (if i == j then k.locked else locked_at xs j)
locked_at-set [] i j k h = absurd (omega arith)
locked_at-set (x ∷ xs) zero zero k h = refl
locked_at-set (x ∷ xs) zero (suc j) k h = ground arith
locked_at-set (x ∷ xs) (suc i) zero k h = ground arith
locked_at-set (x ∷ xs) (suc i) (suc j) k h = ground (arith, locked_at-set xs i j k)

-- A method hands out an unlocked chunk, and locks that one alone.
abbrev pub HandsOut : List Chunk → ℕ → List Chunk → Type 0
HandsOut xs i ys =
    (locked_at xs i ≡ false)
    × ((j : ℕ) → locked_at ys j ≡ (if i == j then true else locked_at xs j))

handed :
    (xs : List Chunk) (i : ℕ) (k : Chunk)
    → get_elem? xs i ≡ some k
    → k.locked ≡ false
    → i < length xs
    → HandsOut xs i (set xs i (lock k))
handed xs i k e un h = (ground (arith, e), λ j. locked_at-set xs i j (lock k) h)

pub q_feedup-HandsOut :
    {q : Circle} (i : ℕ) (q' : Circle)
    → IsValid q
    → q_feedup false q ≡ some (some (slot i), q')
    → HandsOut q.queue i q'.queue
q_feedup-HandsOut {q} i q' v e =
    let in_range : q.puti < length q.queue = omega (arith, v.slots, v.puti_in) in
    let (k, at) = get_elem?-lt q.queue q.puti in_range in
    let (same, un, after) = fed k at in rw (same, after) (handed q.queue q.puti k at un in_range)
  where
    fed :
        (k : Chunk)
        → get_elem? q.queue q.puti ≡ some k
        → (i ≡ q.puti) × (k.locked ≡ false) × (q'.queue ≡ set q.queue q.puti (lock k))
    fed k at = unfold q_feedup in ground arith

pub q_consume-HandsOut :
    {q : Circle} (i : ℕ) (q' : Circle)
    → IsValid q
    → q_consume q ≡ some (some (slot i), q')
    → HandsOut q.queue i q'.queue
q_consume-HandsOut {q} i q' v e =
    let in_range : q.geti < length q.queue = omega (arith, v.slots, v.geti_in) in
    let (k, at) = get_elem?-lt q.queue q.geti in_range in
    let (same, un, after) = taken k at in rw (same, after) (handed q.queue q.geti k at un in_range)
  where
    taken :
        (k : Chunk)
        → get_elem? q.queue q.geti ≡ some k
        → (i ≡ q.geti) × (k.locked ≡ false) × (q'.queue ≡ set q.queue q.geti (lock k))
    taken k at = unfold q_consume in ground arith

-- A method that hands out nothing leaves the chunks as they are.
pub q_feedup-none : (q q' : Circle) → q_feedup false q ≡ some (none, q') → q'.queue ≡ q.queue
unfolding q_feedup
q_feedup-none q q' e = ground arith

pub q_consume-none : (q q' : Circle) → q_consume q ≡ some (none, q') → q'.queue ≡ q.queue
unfolding q_consume reblock
q_consume-none q q' e = ground arith

-- Which chunks are locked does not change by a write that keeps the lock, nor by one to no slot.
pub modify_keeps :
    (q : Circle) (i j : ℕ) (f : Chunk → Chunk)
    → ((k : Chunk) → (f k).locked ≡ k.locked)
    → locked_at (modify (slot i) f q).queue j ≡ locked_at q.queue j
unfolding modify
modify_keeps q i j f keeps = elim (Option-cases (get_elem? q.queue i)) [
  | inl e ↦ ground (arith, e)
  | inr (k, e) ↦
      ground (arith, e, keeps k, locked_at-set q.queue i j (f k) (get_elem?-some q.queue i k e))
]

pub release_frees :
    (q : Circle) (i j : ℕ)
    → locked_at (release (some (slot i)) q).1.queue j
      ≡ (if i == j then false else locked_at q.queue j)
unfolding release modify
release_frees q i j = elim (Option-cases (get_elem? q.queue i)) [
  | inl e ↦ ground (arith, e)
  | inr (k, e) ↦
      ground (arith, e, locked_at-set q.queue i j (unlock k) (get_elem?-some q.queue i k e))
]

-- Two threads and what they hold.
pub Held-swap : {xs : List Chunk} {a b : Option ℕ} → Held xs a b → Held xs b a
Held-swap h = record {
  first = h.second;
  second = h.first;
  apart = λ i p q. h.apart i q p;
  owned = λ i l. ground (arith, h.owned i l);
}

pub Held-same :
    {xs ys : List Chunk} {a b : Option ℕ}
    → ((j : ℕ) → locked_at ys j ≡ locked_at xs j)
    → Held xs a b
    → Held ys a b
Held-same same h = record {
  first = λ i e. same i ∙ h.first i e;
  second = λ i e. same i ∙ h.second i e;
  apart = h.apart;
  owned = λ i l. h.owned i (sym (same i) ∙ l);
}

pub Held-take :
    {xs ys : List Chunk} {b : Option ℕ} (i : ℕ)
    → HandsOut xs i ys
    → Held xs none b
    → Held ys (some i) b
Held-take {xs} {ys} i (un, now) h = record {
  first = λ j e. ground (arith, now j);
  second = λ j e. ground (arith, now j, h.second j e);
  apart = λ j e e'. ground (arith, h.second j e');
  owned = λ j l. ground (arith, now j, h.owned j);
}

pub Held-give :
    {xs ys : List Chunk} {b : Option ℕ} (i : ℕ)
    → ((j : ℕ) → locked_at ys j ≡ (if i == j then false else locked_at xs j))
    → Held xs (some i) b
    → Held ys none b
Held-give i now h = record {
  first = λ j e. cc;
  second = λ j e. ground (arith, now j, h.second j e, h.apart j);
  apart = λ j e e'. cc;
  owned = λ j l. ground (arith, now j, h.owned j);
}
