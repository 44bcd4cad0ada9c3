-- ===== src/Setup/Bounded.antt =====
-- The queue that cli/main.cpp sets up, and what display shows of it later.
use the_multi_room_speaker.Base.{
  ℕ, ◌<◌, ◌≡◌, refl, sym, ◌∙◌, Bool, none, some, List, length, arith, Option-cases, inl, inr, ◌⊎◌,
  subst,
}
use the_multi_room_speaker.Base.Int.{pos}
use the_multi_room_speaker.Wire.{tcp_snd_len, cli_sync_percent}
use the_multi_room_speaker.Circle.{Circle, Call, init, reserve, set_optim_perc, run}
use the_multi_room_speaker.Circle.Invariant.{IsValid, reserve-IsValid, set_optim_perc-IsValid}
use the_multi_room_speaker.Circle.Display.{display}
use the_multi_room_speaker.Circle.Shown.{display_lem, run-maxqsz}
use the_multi_room_speaker.Setup.{
  open_driver, new_ao, init_ao, get_len_for, chunks_for, tper_chunk, set_up,
}

-- 173 chunks with a device, 1 without.
pub chunks_for_cases :
    (opens : ℕ → Bool)
    → ((chunks_for opens ≡ 173) × (tper_chunk opens ≡ 5))
      ⊎ ((chunks_for opens ≡ 1) × (tper_chunk opens ≡ 1000))
unfolding chunks_for tper_chunk get_len_for init_ao new_ao
chunks_for_cases opens = elim (Option-cases (open_driver opens 6 0)) [
  | inl e ↦ rw (e, new_ao) (inr (refl, refl))
  | inr (k, e) ↦ rw (e, new_ao) (inl (refl, refl))
]

pub reserved : (chunks : ℕ) (junk : List ℕ) → reserve chunks tcp_snd_len junk init ≡ none → ⊥
unfolding reserve init
reserved chunks junk e = ground (arith, e)

set_up_lem :
    (opens : ℕ → Bool) (junk : List ℕ)
    → 0 < chunks_for opens
    → chunks_for opens < 512
    → (q : Circle) × (set_up opens junk ≡ some q) × IsValid q × (q.maxqsz ≡ chunks_for opens)
unfolding set_up set_optim_perc
set_up_lem opens junk p h = elim (Option-cases (reserve (chunks_for opens) tcp_snd_len junk init)) [
  | inl e ↦ absurd (reserved (chunks_for opens) junk e)
  | inr (q, e) ↦
      let (v, n, m) = reserve-IsValid (chunks_for opens) tcp_snd_len junk p (omega arith) e in
      rw (e, set_up) (_, refl, set_optim_perc-IsValid (pos cli_sync_percent) v, ground (arith, m))
]

-- Whichever driver of the audio library opens, and if none does, the client's queue is set up without a
-- division by zero (1000 is divided by 173 chunks, or by 1) and is valid. After any history of calls on it
-- display shows a character for every slot, and writes and reads inside its array and the queue.
pub set_up_displays :
    (opens : ℕ → Bool) (junk : List ℕ) (cs : List Call)
    → (q : Circle) × (set_up opens junk ≡ some q)
      × (0 < chunks_for opens)
      × ((q' : Circle) × (run cs q ≡ some q')
          × IsValid q'
          × ((text : List ℕ) × (display q' ≡ some text) × (length text ≡ chunks_for opens)))
set_up_displays opens junk cs =
    let chunks = chunks_for_cases opens in
    let some_chunks : 0 < chunks_for opens = omega (arith, chunks) in
    let few : chunks_for opens < 512 = omega (arith, chunks) in
    let (q, e, v, m) = set_up_lem opens junk some_chunks few in
    let (q', e', v', m') = run-maxqsz cs q v in
    let (text, shown, l) = display_lem q' v' (subst (λ (k : ℕ). k < 512) (sym (m' ∙ m)) few) in
    (q, e, some_chunks, (q', e', v', (text, shown, l ∙ m' ∙ m)))
