-- ===== src/Clock.antt =====
-- common/srvq.h, tick_count: the clock that both programs read. `sec` and `nsec` are what
-- clock_gettime(CLOCK_MONOTONIC) gives; nsec is below a thousand million.
use the_multi_room_speaker.Base.{
  ℕ, suc, ◌+◌, ◌-◌, ◌*◌, ◌/◌, ◌%◌, ◌<◌, ◌≤◌, ◌≡◌, ◌⊎◌, arith, u64_mod, u32_mod, sub_size,
}
use native.Mathlib.Omega.{arith}

-- tc = ts.tv_sec*1000+ts.tv_nsec/nsecs;
unfoldable pub tick_count : ℕ → ℕ → ℕ → ℕ
tick_count nsecs sec nsec = (sec * 1000 + nsec / nsecs) % u64_mod

-- With the default unit the clock counts milliseconds and does not go back.
pub tick_count_mono :
    (sec nsec sec' nsec' : ℕ)
    → nsec < 1000000000
    → sec' < u32_mod
    → nsec' < 1000000000
    → (sec < sec') ⊎ ((sec ≡ sec') × (nsec ≤ nsec'))
    → tick_count 1000000 sec nsec ≤ tick_count 1000000 sec' nsec'
unfolding tick_count
tick_count_mono sec nsec sec' nsec' h s h' later = omega arith

-- With unit 1000, as the server takes its time stamps, a second adds 1000 but its parts count to
-- 999999: when a second ends the clock goes back, unless a thousandth of the next one's parts or less
-- was left. So a time stamp taken in one second and subtracted in the next gives, for a round trip of
-- less than 998 ms, a number near 2 ^ 64.
pub tick_count_back :
    (sec nsec nsec' : ℕ)
    → sec < u32_mod
    → nsec < 1000000000
    → nsec' / 1000 + 1000 < nsec / 1000
    → (tick_count 1000 (suc sec) nsec' < tick_count 1000 sec nsec)
      × (u64_mod - 1000000 ≤ sub_size (tick_count 1000 (suc sec) nsec') (tick_count 1000 sec nsec))
unfolding tick_count
tick_count_back sec nsec nsec' s h less = omega arith
