-- ===== src/Setup/Started.antt =====
-- The queue and the client with which cli/main.cpp starts its threads.
use the_multi_room_speaker.Base.{
  ℕ, zero, suc, ◌+◌, ◌-◌, ◌<◌, ◌≤◌, ◌≡◌, refl, sym, ap, ap₂, ◌∙◌, Bool, false, some, List, [],
  length, arith, Option-cases, inl, inr, length-append, replicate, length-replicate, int_mod, subst,
}
use the_multi_room_speaker.Base.Int.{ℤ, pos}
use the_multi_room_speaker.Wire.{hdr_size, tcp_snd_len, cli_sync_percent}
use the_multi_room_speaker.Circle.{
  Circle, Chunk, init, reserve, optim_of, set_optim_perc, new_chunk, new_chunks,
}
use the_multi_room_speaker.Circle.Fifo.{Frame, Buffer}
use the_multi_room_speaker.Circle.Fifo.View.{view, locked_at, IsQuiet}
use the_multi_room_speaker.Circle.Fifo.Refine.{reserve-IsQuiet, queue-reserve}
use the_multi_room_speaker.Circle.Invariant.{set_optim_perc-IsValid}
use the_multi_room_speaker.Client.Arrives.{AllSized}
use the_multi_room_speaker.Setup.{chunks_for, set_up}
use the_multi_room_speaker.Setup.Bounded.{chunks_for_cases, reserved}

sz-new_chunk : (sz i : ℕ) (junk : List ℕ) → (new_chunk sz junk i).sz ≡ sz + hdr_size
unfolding new_chunk
sz-new_chunk sz i junk = refl

length-new_chunk :
    (sz i : ℕ) (junk : List ℕ)
    → hdr_size ≤ sz
    → length junk ≡ hdr_size
    → length (new_chunk sz junk i).payload ≡ sz
unfolding new_chunk
length-new_chunk sz i junk h e = omega (
  arith,
  length-append (replicate (sz - hdr_size) 0) junk,
  length-replicate {A = ℕ} (sz - hdr_size) 0,
)

new_chunks-AllSized :
    (junk : List ℕ) (i n : ℕ) → length junk ≡ hdr_size → AllSized (new_chunks tcp_snd_len junk i n)
unfolding new_chunks
new_chunks-AllSized junk i zero h = tt
new_chunks-AllSized junk i (suc n) h = (
  (sz-new_chunk tcp_snd_len i junk, length-new_chunk tcp_snd_len i junk (omega arith) h),
  new_chunks-AllSized junk (i + 1) n h,
)

block_get-reserve :
    (chunks chunk : ℕ) (junk : List ℕ) {q : Circle}
    → reserve chunks chunk junk init ≡ some q
    → q.block_get ≡ false
unfolding reserve init
block_get-reserve chunks chunk junk e = ground arith

abbrev buffer_of : List Frame → ℕ → Bool → Buffer
buffer_of items optim waiting = record { items = items; optim = optim; waiting = waiting }

-- A percentage for the optimum changes nothing else.
set_optim_perc-queue :
    (n : ℤ) (q : Circle)
    → let q' = (set_optim_perc n q).1 in
      (q'.queue ≡ q.queue)
      × (q'.maxqsz ≡ q.maxqsz)
      × (q'.elems ≡ q.elems)
      × ((view q').items ≡ (view q).items)
      × (q'.block_get ≡ q.block_get)
      × (q'.optim ≡ optim_of n q.maxqsz)
unfolding set_optim_perc
set_optim_perc-queue n q = ground arith

set_optim_perc-IsQuiet : {q : Circle} (n : ℤ) → IsQuiet q → IsQuiet (set_optim_perc n q).1
set_optim_perc-IsQuiet {q} n v =
    let (same, m, e, items, unblocked, optim) = set_optim_perc-queue n q in
    record {
      valid = set_optim_perc-IsValid n v.valid;
      fits = omega (arith, v.fits);
      free = λ i. ap (λ (xs : List Chunk). locked_at xs i) same ∙ v.free i;
    }

-- The list of frames with which a speaker starts: no frame, half the queue as the optimum, not waiting.
abbrev pub nothing_yet : ℕ → Buffer
nothing_yet chunks = record {
  items = [];
  optim = optim_of (pos cli_sync_percent) chunks;
  waiting = false;
}

-- The queue that main sets up.
pub set_up-IsReady :
    (opens : ℕ → Bool) (junk : List ℕ)
    → length junk ≡ hdr_size
    → (q : Circle) × (set_up opens junk ≡ some q)
      × IsQuiet q
      × AllSized q.queue
      × (view q ≡ nothing_yet (chunks_for opens))
      × (q.maxqsz ≡ chunks_for opens)
unfolding set_up
set_up-IsReady opens junk h =
    let chunks = chunks_for_cases opens in
    let p : 0 < chunks_for opens = omega (arith, chunks) in
    let few : chunks_for opens < int_mod = omega (arith, chunks) in
    elim (Option-cases (reserve (chunks_for opens) tcp_snd_len junk init)) [
      | inl e ↦ absurd (reserved (chunks_for opens) junk e)
      | inr (q, e) ↦
          let (quiet, no_items, m) = reserve-IsQuiet (chunks_for opens) tcp_snd_len junk p few e in
          let half = pos cli_sync_percent in
          let (same, m', e', items, unblocked, optim) = set_optim_perc-queue half q in
          rw (e, set_up)
            (
              _,
              refl,
              set_optim_perc-IsQuiet half quiet,
              subst AllSized (sym (same ∙ queue-reserve (chunks_for opens) tcp_snd_len junk e))
                  (new_chunks-AllSized junk 0 (chunks_for opens) h),
              ap₂ (λ (f : Bool → Buffer) (b : Bool). f b)
                  (ap₂ buffer_of (items ∙ no_items) (optim ∙ ap (optim_of half) m))
                  (unblocked ∙ block_get-reserve (chunks_for opens) tcp_snd_len junk e),
              m' ∙ m,
            )
    ]
