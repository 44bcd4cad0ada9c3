-- ===== src/Setup.antt =====
-- cli/main.cpp and cli/aop.cpp: the client sets up its play queue from the format of the audio. Whether a
-- driver of the audio library can be opened comes from outside.
pub mod Bounded
pub mod Started
pub mod Main
pub mod Dialled
use the_multi_room_speaker.Base.{
  ℕ, zero, suc, ◌+◌, ◌*◌, ◌/◌, ◌%◌, ◌-◌, Bool, true, false, Option, none, some, List, if◌then◌else◌,
  u64_mod,
}
use the_multi_room_speaker.Base.Int.{pos}
use the_multi_room_speaker.Wire.{
  zero_hdr, max_reque_interval, tcp_snd_len, cli_sync_percent, sample_ao, channels_ao, bits_ao,
}
use the_multi_room_speaker.Client.{Sclient}
use the_multi_room_speaker.Circle.{Circle, init, reserve, set_optim_perc}

-- AoCls: the driver whose device is open (0 is the default one, then those of the list), _one_sec_buff
-- and _scrap_buff.
pub record AoCls : Type 0 where
  pub dev : Option ℕ
  pub one_sec_buff : ℕ
  pub scrap_buff : ℕ

-- The drivers from the `k`-th on are tried, until one opens.
unfoldable pub open_driver : (opens : ℕ → Bool) → (left k : ℕ) → Option ℕ
open_driver opens zero k = none
open_driver opens (suc left) k =
    let rest = open_driver opens left (k + 1) in if opens k then some k else rest

-- AoCls::AoCls(bits, rate, channels): the default driver, and five more.
unfoldable pub new_ao : (opens : ℕ → Bool) → (bits rate channels : ℕ) → AoCls
new_ao opens bits rate channels =
    let second = (bits * rate * channels) / 8 in
    elim (open_driver opens 6 0) [
      | none ↦ record { dev = none; one_sec_buff = 0; scrap_buff = 0 }
      | some k ↦ record { dev = some k; one_sec_buff = second; scrap_buff = second / 200 }
    ]

-- AoCls::init_ao(time), and player::get_len_for(secs) of the player's device
unfoldable pub init_ao : ℕ → AoCls → ℕ
init_ao time a = (a.one_sec_buff * time) % u64_mod

unfoldable pub get_len_for : ℕ → (opens : ℕ → Bool) → ℕ
get_len_for secs opens = init_ao secs (new_ao opens bits_ao sample_ao channels_ao)

-- The chunks of main's queue, and tper_chunk.
unfoldable pub chunks_for : (opens : ℕ → Bool) → ℕ
chunks_for opens = (get_len_for 4 opens + tcp_snd_len) % u64_mod / tcp_snd_len

unfoldable pub tper_chunk : (opens : ℕ → Bool) → ℕ
tper_chunk opens = 1000 / chunks_for opens

-- The queue that main hands to the client and the player.
unfoldable pub set_up : (opens : ℕ → Bool) → (junk : List ℕ) → Option Circle
set_up opens junk = elim (reserve (chunks_for opens) tcp_snd_len junk init) [
  | none ↦ none
  | some q ↦ some (set_optim_perc (pos cli_sync_percent) q).1
]

-- sclient::sclient at tick_count() `now`; _rewind is not set.
unfoldable pub new_sclient : (now rewind : ℕ) → Circle → Sclient
new_sclient now rewind q = record {
  rq = q;
  qos = zero_hdr;
  ping = 0;
  pingdiff = 0;
  frmdiff = pos 0;
  rewind = rewind;
  reque_time = 0;
  now = now;
  bps = 0;
  srvsync = false;
}

-- What _tmain starts with, at time(0) `start`, which is at least 25.
unfoldable pub started : (start : ℕ) → Sclient → Sclient
started start c = record c { reque_time = start + 5 - max_reque_interval }
