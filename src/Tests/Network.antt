-- ===== src/Tests/Network.antt =====
-- The sockets and the clock (common/srvq.h, common/sock.cpp) at concrete inputs.
use the_multi_room_speaker.Base.{
  zero, suc, ◌-◌, ◌<◌, ◌≤◌, ◌≡◌, refl, some, List, [], ◌∷◌, arith, u64_mod, sub_size, min,
}
use the_multi_room_speaker.Base.Int.{pos, negsuc}
use the_multi_room_speaker.Sock.{Segment, bytes, Kernel, eagain, receiveall, sendall}
use the_multi_room_speaker.Sock.Stream.{flat, receiveall-Splits}
use the_multi_room_speaker.Sock.Sending.{Sends, TakesOffered, sendall-Sends}
use the_multi_room_speaker.Clock.{tick_count, tick_count_back}

abbrev cut : List Segment
cut = bytes (1 ∷ []) ∷ bytes (2 ∷ 3 ∷ 4 ∷ []) ∷ bytes (5 ∷ []) ∷ []

receiveall-Splits_example :
    ((receiveall 2 cut).0 ≡ 1 ∷ 2 ∷ []) × (flat (receiveall 2 cut).1 ≡ 3 ∷ 4 ∷ 5 ∷ [])
unfolding flat
receiveall-Splits_example =
    let (a, b, c) = receiveall-Splits 2 cut (omega arith, (omega arith, (omega arith, tt))) in
    (a, b)

-- A kernel that refuses the first call and then takes two bytes at most.
abbrev slow : Kernel
slow zero n = (negsuc 0, eagain)
slow (suc i) n = (pos (min n 2), 0)

slow-TakesOffered : TakesOffered slow
slow-TakesOffered zero n = omega arith
slow-TakesOffered (suc i) n = omega arith

sendall-Sends_example : Sends (1 ∷ 2 ∷ 3 ∷ []) (sendall slow (1 ∷ 2 ∷ 3 ∷ []) 10)
sendall-Sends_example = sendall-Sends slow (1 ∷ 2 ∷ 3 ∷ []) 10 slow-TakesOffered

sendall-slow : sendall slow (1 ∷ 2 ∷ 3 ∷ []) 10 ≡ some (1 ∷ 2 ∷ 3 ∷ [], 0)
unfolding sendall
sendall-slow = refl

tick_count_back_example :
    (tick_count 1000 (suc 6) 100000 < tick_count 1000 6 900000000)
    × (u64_mod - 1000000 ≤ sub_size (tick_count 1000 (suc 6) 100000) (tick_count 1000 6 900000000))
tick_count_back_example =
    tick_count_back 6 900000000 100000 (omega arith) (omega arith) (omega arith)
