-- ===== src/Tests/Sockets.antt =====
-- The sockets of common/sock.cpp, at an operating system that no server answers through.
use the_multi_room_speaker.Base.{
  ℕ, ◌≡◌, refl, true, false, none, some, List, [], ◌∷◌, ◌⊎◌, not, ◌==◌, arith,
}
use the_multi_room_speaker.Base.Int.{ℤ, pos, negsuc}
use the_multi_room_speaker.Sock.Calls.{
  Call, socket_stream, socket_dgram, connect_fd, Answer, Os, Net, fresh, accept_from,
}
use the_multi_room_speaker.Sock.Address.{Saddr, is_eq, is_ne, is_lt, is_gt}
use the_multi_room_speaker.Sock.Order.{OneHolds, order_lem}
use the_multi_room_speaker.Sock.Connect.{s4connect}
use the_multi_room_speaker.Sock.Held.{held, Owns}
use the_multi_room_speaker.Sock.Leaks.{
  Op, creates, s4connects, asks_connected, sets_mtu, any_asserts, run, run-Owns,
}
use the_multi_room_speaker.Sock.Outcome.{Settled, s4connect-Settled, s4connect_unanswered}

abbrev answer : ℤ → ℕ → Answer
answer r e = record { ret = r; errno = e; is_set = false }

-- connect goes on without end, all other calls succeed.
abbrev silent_ask : Call → Answer
silent_ask socket_stream = answer (pos 5) 0
silent_ask (socket_dgram u) = answer (pos 5) 0
silent_ask (accept_from f) = answer (pos 5) 0
silent_ask (connect_fd fd a) = answer (negsuc 0) 115
silent_ask c = answer (pos 0) 0

abbrev silent_os : Os
silent_os = record {
  ask = λ l c. silent_ask c;
  backlog = λ l. 0;
  patience = λ l. 2;
  stream_spares = λ l. refl;
  dgram_spares = λ l p. refl;
  accept_spares = λ l f. refl;
}

-- A second connect closes the descriptor that the first one holds.
abbrev history : List Op
history =
    s4connects false [] (some 167772161) 1994
    ∷ sets_mtu 65536
    ∷ s4connects false [] none 1994
    ∷ asks_connected
    ∷ creates 0
    ∷ []

fresh-Owns : Owns fresh
unfolding held
fresh-Owns = refl

run-Owns_example :
    let done = run silent_os history fresh in
    Owns done.1 × ((done.0 ≡ true) ⊎ (any_asserts history ≡ true))
run-Owns_example = run-Owns silent_os history fresh fresh-Owns

s4connect-Settled_example :
    (r : ℤ × Net) × (s4connect silent_os false [] (some 167772161) 1994 fresh ≡ some r)
    × Settled r
    × Owns r.1
s4connect-Settled_example = s4connect-Settled silent_os [] (some 167772161) 1994 fresh fresh-Owns

s4connect_unanswered_example :
    (r : ℤ × Net) × (s4connect silent_os false [] (some 167772161) 1994 fresh ≡ some r)
    × (r.0 ≡ pos 5)
    × (r.1.connecting ≡ pos 0)
s4connect_unanswered_example =
    s4connect_unanswered silent_os 4 (λ l. refl) (λ l f a. refl) (λ l f a. refl) (λ l f. refl)
      (λ l. omega arith) [] (some 167772161) 1994 fresh fresh-Owns

-- 10.0.0.1 at port 80, and at any port.
abbrev at_port : Saddr
at_port = record { s_addr = 16777226; sin_port = 20480; mask = 4294967295 }

abbrev any_port : Saddr
any_port = record at_port { sin_port = 0 }

order_lem_example :
    OneHolds (is_lt at_port any_port) (is_eq at_port any_port) (is_gt at_port any_port)
    × (((is_ne at_port any_port ≡ not (is_eq at_port any_port)) × ((20480 == 0) ≡ (0 == 0)))
        ⊎ ((is_ne at_port any_port ≡ true) × ((20480 == 0) ≡ not (0 == 0))))
order_lem_example = order_lem at_port any_port (omega arith) (omega arith)

any_port_eq : is_eq at_port any_port ≡ true
unfolding is_eq
any_port_eq = refl
