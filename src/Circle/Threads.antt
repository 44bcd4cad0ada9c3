-- ===== src/Circle/Threads.antt =====
-- The receiving thread (cli/sclient.cpp, _get_data) and the playing thread (cli/player.cpp, play) at
-- one queue, as interleaved steps: each call of a method is atomic, and between two calls the chunk that
-- a thread was given is the thread's to read and write.
pub mod Locks
pub mod Exclusion
use the_multi_room_speaker.Base.{
  ℕ, zero, suc, ◌+◌, ◌-◌, ◌<◌, ◌≡◌, ◌≢◌, refl, sym, ap, ◌∙◌, ◌⊎◌, inl, inr, Bool, true, false,
  Option, none, some, List, [], ◌∷◌, ◌==◌, if◌then◌else◌, length, get_elem?, set, arith,
  Option-cases, get_elem?-lt, int_mod,
}
use the_multi_room_speaker.Base.Int.{ℤ}
use the_multi_room_speaker.Circle.{
  Chunk, Circle, Ref, slot, scrap, modify, release, reblock, reset, q_feedup, q_consume,
  force_optim, lock, unlock, init, reserve,
}
use the_multi_room_speaker.Circle.Invariant.{
  IsValid, Yields, q_feedup-IsValid, q_consume-IsValid, modify-IsValid, force_optim-IsValid,
  reset-IsValid, reserve-IsValid,
}
use the_multi_room_speaker.Circle.Fifo.View.{locked_at, IsQuiet}
use the_multi_room_speaker.Circle.Fifo.Refine.{reserve-IsQuiet}

-- The slot that each thread has been given, if any.
pub record Threads : Type 0 where
  pub q : Circle
  pub filling : Option ℕ
  pub playing : Option ℕ

-- A write through a pointer leaves `_locked` alone.
abbrev pub KeepsLock : (Chunk → Chunk) → Type 0
KeepsLock f = (k : Chunk) → (f k).locked ≡ k.locked

pub data Step (s : Threads) : Threads → Type 0 where
  -- the receiving thread
  feed :
      (i : ℕ) (q' : Circle)
      → s.filling ≡ none
      → q_feedup false s.q ≡ some (some (slot i), q')
      → Step s (record s { q = q'; filling = some i })
  feed_none :
      (q' : Circle)
      → s.filling ≡ none
      → q_feedup false s.q ≡ some (none, q')
      → Step s (record s { q = q' })
  fill :
      (i : ℕ) (f : Chunk → Chunk)
      → KeepsLock f
      → s.filling ≡ some i
      → Step s (record s { q = modify (slot i) f s.q })
  filled :
      (i : ℕ)
      → s.filling ≡ some i
      → Step s (record s { q = (release (some (slot i)) s.q).1; filling = none })
  force : (n : ℤ) → Step s (record s { q = force_optim n s.q })
  restart : Step s (record s { q = reset s.q })
  -- the playing thread
  consume :
      (j : ℕ) (q' : Circle)
      → s.playing ≡ none
      → q_consume s.q ≡ some (some (slot j), q')
      → Step s (record s { q = q'; playing = some j })
  consume_none :
      (q' : Circle)
      → s.playing ≡ none
      → q_consume s.q ≡ some (none, q')
      → Step s (record s { q = q' })
  clear :
      (j : ℕ) (f : Chunk → Chunk)
      → KeepsLock f
      → s.playing ≡ some j
      → Step s (record s { q = modify (slot j) f s.q })
  played :
      (j : ℕ)
      → s.playing ≡ some j
      → Step s (record s { q = (release (some (slot j)) s.q).1; playing = none })

pub data Reach (s : Threads) : Threads → Type 0 where
  here : Reach s s
  next : {t u : Threads} → Reach s t → Step t u → Reach s u

-- The locked chunks are exactly the ones that a thread has been given, and no chunk has been given to
-- both.
pub record Held (xs : List Chunk) (a b : Option ℕ) : Type 0 where
  pub first : (i : ℕ) → a ≡ some i → locked_at xs i ≡ true
  pub second : (i : ℕ) → b ≡ some i → locked_at xs i ≡ true
  pub apart : (i : ℕ) → a ≡ some i → b ≡ some i → ⊥
  pub owned : (i : ℕ) → locked_at xs i ≡ true → (a ≡ some i) ⊎ (b ≡ some i)

pub record IsExclusive (s : Threads) : Type 0 where
  pub valid : IsValid s.q
  pub held : Held s.q.queue s.filling s.playing
