-- ===== src/Tests/Playing.antt =====
-- The player, the controller and the discovery (cli/player.cpp, srv/pidaim.cpp, udpdisc.cpp) at concrete
-- inputs.
use the_multi_room_speaker.Base.{
  ℕ, zero, suc, ◌+◌, ◌-◌, ◌*◌, ◌/◌, ◌≡◌, ◌≢◌, refl, true, false, none, some, List, [], ◌∷◌, arith,
  ltb,
}
use the_multi_room_speaker.Base.Int.{ℤ, pos, neg_part}
use the_multi_room_speaker.Sock.Calls.{Call, socket_dgram, Os, socket_stream, accept_from}
use the_multi_room_speaker.Wire.Codec.{bits_int}
use the_multi_room_speaker.Player.{int_of, Player, begin, Reads, turn, turns}
use the_multi_room_speaker.Player.Hysteresis.{AllAre, waits_for_optim, resumes}
use the_multi_room_speaker.Pid.{Doubles, PidImpl, calculates}
use the_multi_room_speaker.Pid.Steady.{IsDouble, IsSteady, calculates-IsSteady}
use the_multi_room_speaker.Discovery.{has, token, skip_commas, has_comma, udper, reply, Arrival}
use the_multi_room_speaker.Discovery.Found.{IsReply, FromServer, contains}
use the_multi_room_speaker.Discovery.Life.{Udper, new_udper}
use the_multi_room_speaker.Discovery.Join.{Seeker, interfaces, seekers, join}
use the_multi_room_speaker.Discovery.Joined.{Willing, Hears}
use the_multi_room_speaker.Discovery.Gathered.{join-finds}
use the_multi_room_speaker.Discovery.Beacon.{beacon}
use the_multi_room_speaker.Discovery.Answering.{AllClosed, beacon-AllClosed}

abbrev seen : ℕ → Reads
seen n = record { qlen = n; qoptim = 86; len_first = n; len_second = n }

waits_for_optim_example : AllAre false (turns (seen 10 ∷ seen 85 ∷ []) (turn (seen 3) begin).0).1
waits_for_optim_example =
    waits_for_optim (seen 3) (seen 10 ∷ seen 85 ∷ []) begin begins (omega arith)
      (refl, omega arith, (refl, omega arith, tt))
  where
    begins : (turn (seen 3) begin).1 ≡ false
    begins = unfold turn int_of bits_int in refl

abbrev playing : Player
playing = record { filling = false; fillingsz = pos 4 }

resumes_example : (turn (seen 88) (turn (seen 87) begin).0).1 ≡ true
resumes_example =
    resumes (seen 87) (seen 88) begin (omega arith) (omega arith) (omega arith) (omega arith)

abbrev naturals : Doubles
naturals = record {
  carrier = ℕ;
  plus = λ x y. x + y;
  minus = λ x y. x - y;
  times = λ x y. x * y;
  over = λ x y. x / y;
  abs = λ x. x;
  lt = ltb;
  nought = 0;
  twenty = 20;
}

naturals-IsDouble : IsDouble naturals
naturals-IsDouble = record {
  irreflexive = λ (x : ℕ). irreflexive x;
  no_jump = λ (x : ℕ). no_jump x;
}
  where
    irreflexive : (x : ℕ) → ltb x x ≡ false
    irreflexive x = ground arith

    no_jump : (x : ℕ) → ltb 20 (x - x) ≡ false
    no_jump x = ground arith

abbrev controller : PidImpl naturals
controller = record {
  dt = 1;
  max = 100;
  min = 0;
  kp = 1;
  kd = 0;
  ki = 1;
  pre_error = 0;
  integral = 0;
  prev = 0;
}

calculates-IsSteady_example :
    IsSteady naturals controller 0 0 (calculates naturals ((50, 45) ∷ (50, 10) ∷ []) controller)
calculates-IsSteady_example =
    calculates-IsSteady naturals naturals-IsDouble ((50, 45) ∷ (50, 10) ∷ []) controller refl

-- The output follows while it changes by no more than 20, and then stays.
calculates-controller : calculates naturals ((50, 45) ∷ (50, 10) ∷ []) controller ≡ 10 ∷ 10 ∷ []
unfolding calculates
calculates-controller = refl

-- A server called "den" answers in the third round.
abbrev pub den : List ℕ
den = 100 ∷ 101 ∷ 110 ∷ []

abbrev pub den_ip : List ℕ
den_ip = 49 ∷ 46 ∷ 50 ∷ []

abbrev pub answers : ℕ → Arrival
answers zero = record { signaled = pos 0; received = none }
answers (suc zero) = record { signaled = pos 1; received = none }
answers (suc (suc zero)) = record { signaled = pos 1; received = some (reply den den_ip) }
answers (suc (suc (suc k))) = record { signaled = pos 0; received = none }

pub den-IsReply : IsReply den den_ip
unfolding reply contains
den-IsReply = record { host_clear = refl; ip_clear = refl; no_zero = refl; fits = omega arith }

answers-FromServer : (k : ℕ) → FromServer (answers k).received
answers-FromServer zero = tt
answers-FromServer (suc zero) = tt
answers-FromServer (suc (suc zero)) = (den, den_ip, den-IsReply, refl)
answers-FromServer (suc (suc (suc k))) = tt

answers-never_fail : (j : ℕ) → neg_part (answers j).signaled ≢ 1
answers-never_fail zero = omega arith
answers-never_fail (suc zero) = omega arith
answers-never_fail (suc (suc zero)) = omega arith
answers-never_fail (suc (suc (suc k))) = omega arith

pub answers-Hears : (n j : ℕ) → Hears answers
answers-Hears n j = record { servers = answers-FromServer; selects = answers-never_fail }

abbrev os : Os
os = record {
  ask = λ l c. record { ret = answer c; errno = 0; is_set = true };
  backlog = λ l. 0;
  patience = λ l. 0;
  stream_spares = λ l. refl;
  dgram_spares = λ l p. refl;
  accept_spares = λ l f. refl;
}
  where
    answer : Call → ℤ
    answer (socket_dgram p) = pos 3
    answer socket_stream = pos 3
    answer (accept_from f) = pos 3
    answer c = pos 0

os-Willing : Willing os
os-Willing = record { makes = λ l. refl; sets = λ l f opt v. refl; binds = λ l f a. refl }

-- "1,w"
abbrev pub lan : List (List ℕ)
lan = (49 ∷ 44 ∷ 119 ∷ []) ∷ []

abbrev pub lan_seekers : List Seeker
lan_seekers = record { net = new_udper; remips = [] } ∷ []

pub lan_named : seekers (interfaces lan) ≡ some lan_seekers
unfolding seekers interfaces udper token skip_commas has_comma
lan_named = refl

join-finds_example :
    (out : List Udper × List (List ℕ)) × (join os (λ k i. answers) [] lan [] ≡ some out)
    × (has den_ip out.1 ≡ true)
unfolding interfaces
join-finds_example =
    join-finds os (λ k i. answers) [] lan [] lan_seekers 2 0 2 den den_ip os-Willing answers-Hears
      lan_named (omega arith) (omega arith) (omega arith) den-IsReply (omega arith) refl

beacon-AllClosed_example : AllClosed (beacon os ((5, lan) ∷ (5, lan) ∷ []))
beacon-AllClosed_example = beacon-AllClosed os ((5, lan) ∷ (5, lan) ∷ [])
