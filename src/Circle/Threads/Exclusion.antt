-- ===== src/Circle/Threads/Exclusion.antt =====
-- No chunk is ever in the hands of both threads.
use the_multi_room_speaker.Base.{
  ℕ, ◌<◌, ◌≡◌, ◌≢◌, ◌⊎◌, true, false, Option, none, some, List, arith, int_mod,
}
use the_multi_room_speaker.Base.Int.{ℤ}
use the_multi_room_speaker.Circle.{Chunk, Circle, Ref, slot, reset, force_optim, init, reserve}
use the_multi_room_speaker.Circle.Invariant.{
  IsValid, Yields, release-IsValid, q_feedup-IsValid, q_consume-IsValid, modify-IsValid,
  force_optim-IsValid, reset-IsValid,
}
use the_multi_room_speaker.Circle.Fifo.View.{locked_at, IsQuiet}
use the_multi_room_speaker.Circle.Fifo.Refine.{reserve-IsQuiet}
use the_multi_room_speaker.Circle.Threads.{
  Threads, Step, feed, feed_none, fill, filled, force, restart, consume, consume_none, clear,
  played, Reach, here, next, Held, IsExclusive,
}
use the_multi_room_speaker.Circle.Threads.Locks.{
  q_feedup-HandsOut, q_consume-HandsOut, q_feedup-none, q_consume-none, modify_keeps, release_frees,
  Held-swap, Held-same, Held-take, Held-give,
}
use mathlib.Core.Path.{subst}

-- What a method leaves is valid, when it is known what it leaves.
Yields-at :
    {r : Option (Option Ref × Circle)} {p : Option Ref} {q' : Circle}
    → Yields IsValid r
    → r ≡ some (p, q')
    → IsValid q'
Yields-at y e = subst (Yields IsValid) e y

idle_a : {xs : List Chunk} {a b : Option ℕ} → a ≡ none → Held xs a b → Held xs none b
idle_a {xs} {b = b} e h = subst (λ a. Held xs a b) e h

holds_a : {xs : List Chunk} {a b : Option ℕ} (i : ℕ) → a ≡ some i → Held xs a b → Held xs (some i) b
holds_a {xs} {b = b} i e h = subst (λ a. Held xs a b) e h

queue-force_optim : (q : Circle) (n : ℤ) → (force_optim n q).queue ≡ q.queue
unfolding force_optim
queue-force_optim q n = ground arith

reset-Held : (q : Circle) {a b : Option ℕ} → Held q.queue a b → Held (reset q).queue a b
unfolding reset
reset-Held q h = h

-- Each step of either thread keeps the chunks in one hand at a time.
pub Step-IsExclusive : {s t : Threads} → Step s t → IsExclusive s → IsExclusive t
Step-IsExclusive {s} (feed i q' idle e) x = record {
  valid = Yields-at (q_feedup-IsValid false x.valid) e;
  held = Held-take i (q_feedup-HandsOut i q' x.valid e) (idle_a idle x.held);
}
Step-IsExclusive {s} (feed_none q' idle e) x = record {
  valid = Yields-at (q_feedup-IsValid false x.valid) e;
  held = rw (q_feedup-none s.q q' e) x.held;
}
Step-IsExclusive {s} (fill i f keeps e) x = record {
  valid = modify-IsValid (slot i) f x.valid;
  held = Held-same (λ j. modify_keeps s.q i j f keeps) x.held;
}
Step-IsExclusive {s} (filled i e) x = record {
  valid = release-IsValid (some (slot i)) x.valid;
  held = Held-give i (release_frees s.q i) (holds_a i e x.held);
}
Step-IsExclusive {s} (force n) x = record {
  valid = force_optim-IsValid n x.valid;
  held = rw (queue-force_optim s.q n) x.held;
}
Step-IsExclusive {s} restart x = record {
  valid = reset-IsValid x.valid;
  held = reset-Held s.q x.held;
}
Step-IsExclusive {s} (consume j q' idle e) x = record {
  valid = Yields-at (q_consume-IsValid x.valid) e;
  held =
      Held-swap (Held-take j (q_consume-HandsOut j q' x.valid e) (idle_a idle (Held-swap x.held)));
}
Step-IsExclusive {s} (consume_none q' idle e) x = record {
  valid = Yields-at (q_consume-IsValid x.valid) e;
  held = rw (q_consume-none s.q q' e) x.held;
}
Step-IsExclusive {s} (clear j f keeps e) x = record {
  valid = modify-IsValid (slot j) f x.valid;
  held = Held-same (λ i. modify_keeps s.q j i f keeps) x.held;
}
Step-IsExclusive {s} (played j e) x = record {
  valid = release-IsValid (some (slot j)) x.valid;
  held = Held-swap (Held-give j (release_frees s.q j) (holds_a j e (Held-swap x.held)));
}

Reach-IsExclusive : {s t : Threads} → IsExclusive s → Reach s t → IsExclusive t
Reach-IsExclusive x here = x
Reach-IsExclusive x (next r st) = Step-IsExclusive st (Reach-IsExclusive x r)

-- The two threads at a queue, before either has been given a chunk.
abbrev pub start : Circle → Threads
start q = record { q = q; filling = none; playing = none }

start-IsExclusive : {q : Circle} → IsQuiet q → IsExclusive (start q)
start-IsExclusive v = record {
  valid = v.valid;
  held = record {
    first = λ i e. cc;
    second = λ i e. cc;
    apart = λ i e e'. cc;
    owned = λ i l. ground (arith, v.free i);
  };
}

module _ (chunks chunk : ℕ) (junk : List ℕ) (q : Circle) (t : Threads) (some_chunks : 0 < chunks)
    (few : chunks < int_mod) (reserved : reserve chunks chunk junk init ≡ some q)
    (r : Reach (start q) t) where
  exclusive : IsExclusive t
  exclusive =
      Reach-IsExclusive
        (start-IsExclusive (reserve-IsQuiet chunks chunk junk some_chunks few reserved).0) r

  -- From a queue as reserve leaves it, in whatever order the steps of the two threads come: the chunk
  -- that the receiver fills is not the one that the player reads, and both are locked.
  pub never_shared :
      (i j : ℕ)
      → t.filling ≡ some i
      → t.playing ≡ some j
      → (i ≢ j) × (locked_at t.q.queue i ≡ true) × (locked_at t.q.queue j ≡ true)
  never_shared i j f p =
      (λ e. exclusive.held.apart i f (rw e p), exclusive.held.first i f, exclusive.held.second j p)

  -- In the same setting, a chunk that is locked is in the hands of one of the two threads.
  pub locked_owned :
      (i : ℕ) → locked_at t.q.queue i ≡ true → (t.filling ≡ some i) ⊎ (t.playing ≡ some i)
  locked_owned i l = exclusive.held.owned i l
