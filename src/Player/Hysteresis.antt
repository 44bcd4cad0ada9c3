-- ===== src/Player/Hysteresis.antt =====
-- Playing starts late and stops late: a queue that ran low is filled before the next frame is taken.
use the_multi_room_speaker.Base.{
  ℕ, ◌<◌, ◌≤◌, ◌≡◌, refl, ap, ◌∙◌, Bool, true, false, List, [], ◌∷◌, arith, int_mod, ◌⊎◌, inl, inr,
}
use the_multi_room_speaker.Base.Int.{pos}
use the_multi_room_speaker.Wire.{q_almost_empty}
use the_multi_room_speaker.Wire.Codec.{bits_int}
use the_multi_room_speaker.Player.{int_of, Player, Reads, fill_q, turn, turns}

-- A queue whose optimum is `optim` and that is seen to be below it.
abbrev pub StaysBelow : ℕ → List Reads → Type 0
StaysBelow optim [] = Unit {0}
StaysBelow optim (r ∷ rs) = (r.qoptim ≡ optim) × (r.qlen < optim) × StaysBelow optim rs

-- A queue that is never seen to hold fewer than Q_ALMOST_EMPTY frames.
abbrev pub StaysFilled : List Reads → Type 0
StaysFilled [] = Unit {0}
StaysFilled (r ∷ rs) = (q_almost_empty ≤ r.qlen) × (r.qlen < int_mod) × StaysFilled rs

-- Every round ends the same way: it gets to q_consume (`true`), or it waits.
abbrev pub AllAre : Bool → List Bool → Type 0
AllAre b [] = Unit {0}
AllAre b (c ∷ cs) = (c ≡ b) × AllAre b cs

int_of_lem : (n : ℕ) → n < int_mod → int_of n ≡ pos n
unfolding int_of bits_int
int_of_lem n h = ground arith

turn_waited :
    (r : Reads) (p : Player)
    → (turn r p).1 ≡ false
    → r.qoptim < int_mod
    → (turn r p).0.fillingsz ≡ pos (r.qoptim)
unfolding turn fill_q
turn_waited r p w s = ground (arith, int_of_lem r.qoptim s)

turn_low :
    (r : Reads) (p : Player) (n : ℕ)
    → p.fillingsz ≡ pos n
    → r.qlen < n
    → n < int_mod
    → (turn r p).1 ≡ false
unfolding turn
turn_low r p n e low s = ground (arith, int_of_lem r.qlen (omega (arith, low, s)), e)

below-AllAre :
    (optim : ℕ) (rs : List Reads) (p : Player)
    → optim < int_mod
    → p.fillingsz ≡ pos optim
    → StaysBelow optim rs
    → AllAre false (turns rs p).1
unfolding turns
below-AllAre optim [] p s e b = tt
below-AllAre optim (r ∷ rs) p s e (o, low, more) =
    let waits = turn_low r p optim e low s in
    (
      waits,
      below-AllAre optim rs (turn r p).0 s
          (turn_waited r p waits (omega (arith, o, s)) ∙ ap (λ (n : ℕ). pos n) o) more,
    )

-- Once a round of the loop does not get to q_consume (at the start, when the queue holds fewer than
-- Q_ALMOST_EMPTY frames, or while it fills), no later round does, until one sees the queue at its
-- optimum or above. (The optimum is below 2 ^ 31 and stays the same meanwhile.)
pub waits_for_optim :
    (r : Reads) (rs : List Reads) (p : Player)
    → (turn r p).1 ≡ false
    → r.qoptim < int_mod
    → StaysBelow r.qoptim rs
    → AllAre false (turns rs (turn r p).0).1
waits_for_optim r rs p w s b = below-AllAre r.qoptim rs (turn r p).0 s (turn_waited r p w s) b

turn_filled :
    (r : Reads) (p : Player)
    → p.filling ≡ false
    → p.fillingsz ≡ pos q_almost_empty
    → 4 ≤ r.qlen
    → r.qlen < int_mod
    → turn r p ≡ (p, true)
unfolding turn
turn_filled r p f e full s = ground (arith, int_of_lem r.qlen s, e, f)

-- A player that plays gets to q_consume in every round, as long as the queue is not seen to hold fewer
-- than Q_ALMOST_EMPTY frames; it does not wait for the optimum again.
keeps_playing :
    (rs : List Reads) (p : Player)
    → p.filling ≡ false
    → p.fillingsz ≡ pos q_almost_empty
    → StaysFilled rs
    → AllAre true (turns rs p).1
unfolding turns
keeps_playing [] p f e filled = tt
keeps_playing (r ∷ rs) p f e (full, s, more) =
    rw (turn_filled r p f e full s) (refl, keeps_playing rs p f e more)

turn_ready :
    (r : Reads) (p : Player) (n : ℕ)
    → p.filling ≡ false
    → p.fillingsz ≡ pos n
    → n ≤ r.qlen
    → r.qlen < int_mod
    → (turn r p).1 ≡ true
unfolding turn
turn_ready r p n f e full s = ground (arith, int_of_lem r.qlen s, e, f)

turn_full :
    (r : Reads) (p : Player)
    → r.qoptim < r.len_second
    → r.qoptim < int_mod
    → ((turn r p).0.filling ≡ false)
      × (((turn r p).0.fillingsz ≡ pos q_almost_empty) ⊎ ((turn r p).0.fillingsz ≡ pos (r.qoptim)))
unfolding turn fill_q
turn_full r p o s = ground (arith, int_of_lem r.qoptim s)

-- Whatever state the player is in: if a round sees more frames than the optimum when _fill_q reads the
-- length a second time, and the next round sees more frames than that optimum and at least
-- Q_ALMOST_EMPTY, fewer than 2 ^ 31, then the next round gets to q_consume.
pub resumes :
    (r r' : Reads) (p : Player)
    → r.qoptim < r.len_second
    → r.qoptim < r'.qlen
    → q_almost_empty ≤ r'.qlen
    → r'.qlen < int_mod
    → (turn r' (turn r p).0).1 ≡ true
resumes r r' p o o' almost s =
    let (f, size) = turn_full r p o (omega arith) in
    elim size [
      | inl e ↦ turn_ready r' (turn r p).0 4 f e almost s
      | inr e ↦ turn_ready r' (turn r p).0 r.qoptim f e (omega arith) s
    ]
