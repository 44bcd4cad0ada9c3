-- ===== src/Tests/Links.antt =====
-- The client's rounds, the server's listen and the client's set-up at concrete inputs.
use the_multi_room_speaker.Base.{
  ℕ, ◌<◌, ◌≡◌, refl, Bool, true, false, none, some, List, [], ◌∷◌, ◌++◌, length, ◌==◌,
  if◌then◌else◌, leb, u16_mod, ◌%◌,
}
use the_multi_room_speaker.Base.Int.{pos, negsuc}
use the_multi_room_speaker.Wire.{spk_srv_port}
use the_multi_room_speaker.Sock.Calls.{
  Call, socket_stream, connect_fd, listen_fd, Answer, Log, Os, Net, fresh, is_open, socket_dgram,
  accept_from,
}
use the_multi_room_speaker.Sock.Held.{held, Owns}
use the_multi_room_speaker.Sock.Answered.{Answers}
use the_multi_room_speaker.Discovery.Life.{
  Use, discovers, responds, destroys, new_udper, used, destroy,
}
use the_multi_room_speaker.Discovery.Closed.{Keeps, used-closes}
use the_multi_room_speaker.Client.Link.{Servers, dial_each, tmain}
use the_multi_room_speaker.Client.Rounds.{IsIdle, tmain-IsIdle}
use the_multi_room_speaker.Client.Reached.{dial_each-reaches}
use the_multi_room_speaker.Server.Listen.{listen}
use the_multi_room_speaker.Server.Listening.{listen-Tells}
use the_multi_room_speaker.Circle.{Circle, feeds, consumes, forces, run}
use the_multi_room_speaker.Circle.Invariant.{IsValid}
use the_multi_room_speaker.Circle.Display.{display}
use the_multi_room_speaker.Setup.{chunks_for, set_up}
use the_multi_room_speaker.Setup.Bounded.{set_up_displays}

-- Of all servers the one at address 3 accepts; the port is taken in the first try to listen at it.
abbrev answer : Log → Call → Answer
answer l socket_stream = record { ret = pos 5; errno = 0; is_set = false }
answer l (socket_dgram p) = record { ret = pos 5; errno = 0; is_set = false }
answer l (accept_from f) = record { ret = pos 6; errno = 0; is_set = false }
answer l (connect_fd fd a) = record {
  ret = if a.ip == 3 then pos 0 else negsuc 0;
  errno = 111;
  is_set = false;
}
answer l (listen_fd fd n) = record {
  ret = if leb (length l) 6 then negsuc 0 else pos 0;
  errno = 98;
  is_set = false;
}
answer l c = record { ret = pos 0; errno = 0; is_set = true }

abbrev os : Os
os = record {
  ask = answer;
  backlog = λ l. 1;
  patience = λ l. 2;
  stream_spares = λ l. refl;
  dgram_spares = λ l p. refl;
  accept_spares = λ l f. refl;
}

abbrev first : Servers
first = (49 ∷ [], some 1) ∷ (50 ∷ [], none) ∷ []

abbrev servers : Servers
servers = first ++ ((51 ∷ [], some 3) ∷ [])

idle : IsIdle fresh
unfolding held
idle = record {
  is_shut = refl;
  calm = record { not_connecting = refl; not_connected = refl };
  owns = refl;
}

tmain-IsIdle_example :
    (n' : Net) × (tmain os ((true ∷ false ∷ []) ∷ [] ∷ []) servers fresh ≡ some n') × IsIdle n'
tmain-IsIdle_example = tmain-IsIdle os ((true ∷ false ∷ []) ∷ [] ∷ []) servers fresh idle

accepting : Answers os 4 (record { ip = 3; port = spk_srv_port % u16_mod })
accepting = record { sockets = λ l. refl; accepts = λ l f. refl }

fresh-Owns : Owns fresh
unfolding held
fresh-Owns = refl

dial_each-reaches_example :
    (n' : Net) × (dial_each os (first ++ ((51 ∷ [], some 3) ∷ [])) fresh ≡ some n')
    × (is_open n' ≡ true)
dial_each-reaches_example = dial_each-reaches os 4 first [] (51 ∷ []) 3 fresh accepting fresh-Owns

listen-Tells_example :
    (r : Bool × Net) × (listen os (λ k. true) fresh ≡ some r) × (r.0 ≡ is_open r.1) × Owns r.1
listen-Tells_example = listen-Tells os (λ k. true) fresh refl fresh-Owns

-- Two frames come in and one is played, on a client whose third driver opens.
set_up_displays_example :
    (q : Circle) × (set_up (λ k. k == 2) [] ≡ some q)
    × (0 < chunks_for (λ k. k == 2))
    × ((q' : Circle) × (run (feeds false ∷ feeds false ∷ forces (pos 1) ∷ consumes ∷ []) q
          ≡ some q')
        × IsValid q'
        × ((text : List ℕ) × (display q' ≡ some text) × (length text ≡ chunks_for (λ k. k == 2))))
set_up_displays_example =
    set_up_displays (λ k. k == 2) [] (feeds false ∷ feeds false ∷ forces (pos 1) ∷ consumes ∷ [])

abbrev uses : List Use
uses = discovers ∷ discovers ∷ destroys ∷ responds ∷ []

used-closes_example :
    Keeps (used os uses new_udper) × (held (destroy os (used os uses new_udper)).log ≡ [])
used-closes_example = used-closes os uses
