-- ===== src/Player.antt =====
-- cli/player.cpp: when the playing thread takes a frame. The other thread changes the queue between any
-- two reads of its length, so each read is an argument.
pub mod Hysteresis
pub mod Device
use the_multi_room_speaker.Base.{
  ℕ, ◌+◌, ◌%◌, Bool, true, false, ◌||◌, List, [], ◌∷◌, ltb, ◌==◌, if◌then◌else◌, u32_mod, Option,
  none, some,
}
use the_multi_room_speaker.Base.Int.{ℤ, pos, ltb_ℤ}
use the_multi_room_speaker.Wire.{BufHdr, q_almost_empty, one_sec}
use the_multi_room_speaker.Wire.Codec.{bits_int}

-- A size_t that is assigned to an `int`.
unfoldable pub int_of : ℕ → ℤ
int_of n = bits_int (n % u32_mod)

-- The variables of player::play that outlive a round of its loop, less those that are only shown.
pub record Player : Type 0 where
  pub filling : Bool
  pub fillingsz : ℤ

-- At the start of player::play.
abbrev pub begin : Player
begin = record { filling = true; fillingsz = pos q_almost_empty }

-- What a round reads of the queue: `qlen`, and in _fill_q `qoptim`, and the length twice.
pub record Reads : Type 0 where
  pub qlen : ℕ
  pub qoptim : ℕ
  pub len_first : ℕ
  pub len_second : ℕ

-- player::_fill_q: `filling` as it leaves it, and what it returns.
unfoldable pub fill_q : Reads → Bool → Bool × ℕ
fill_q r filling =
    let emptied : Bool = if r.len_first == 0 then true else filling in
    (if emptied then (if ltb r.qoptim r.len_second then false else true) else false, r.qoptim)

-- A round of the loop of player::play up to q_consume, and whether it gets there.
unfoldable pub turn : Reads → Player → Player × Bool
unfolding fill_q
turn r p =
    let waited = fill_q r p.filling in
    if ltb_ℤ (int_of r.qlen) p.fillingsz || p.filling
    then (record { filling = waited.0; fillingsz = int_of waited.1 }, false)
    else (record p { fillingsz = pos q_almost_empty }, true)

-- The turns in turn, and which of them get to q_consume.
unfoldable pub turns : List Reads → Player → Player × List Bool
unfolding turn
turns [] p = (p, [])
turns (r ∷ rs) p =
    let (p', takes) = turn r p in let (p'', more) = turns rs p' in (p'', takes ∷ more)
