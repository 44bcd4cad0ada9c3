-- ===== src/Setup/Main.antt =====
-- cli/main.cpp: main's loop. It searches for servers until it knows one, and then starts the client.
use the_multi_room_speaker.Base.{
  ℕ, Bool, true, false, Option, none, some, List, [], ◌∷◌, ltb, ◌==◌, if◌then◌else◌, length, map,
}
use the_multi_room_speaker.Sock.Calls.{Os}
use the_multi_room_speaker.Client.{Sclient}
use the_multi_room_speaker.Client.Link.{Servers}
use the_multi_room_speaker.Discovery.{Arrival}
use the_multi_room_speaker.Discovery.Join.{join}
use the_multi_room_speaker.Setup.{set_up, new_sclient, started}

-- What one call of Udper::join finds: the interfaces, what comes in at their sockets, and what is in the
-- buffer.
pub record Look : Type 0 where
  pub ifs : List (List ℕ)
  pub hears : ℕ → ℕ → ℕ → Arrival
  pub junk : List ℕ

-- if(!serveron) in each round: `ifs`, with what the rounds hear. `none` is the null pointer that join may
-- give a Udper.
unfoldable pub look_for : Os → List Look → List (List ℕ) → Option (List (List ℕ))
look_for o [] ifs = some ifs
look_for o (l ∷ ls) ifs = elim (join o l.hears l.junk l.ifs ifs) [
  | none ↦ none
  | some (udps, known) ↦
      let rest = look_for o ls known in if length known == 0 then rest else some known
]

-- A set of strings is gone through in their order, by their bytes.
unfoldable pub text_lt : List ℕ → List ℕ → Bool
text_lt xs [] = false
text_lt [] (y ∷ ys) = true
text_lt (x ∷ xs) (y ∷ ys) = let rest = text_lt xs ys in if x == y then rest else ltb x y

unfoldable pub place : List ℕ → List (List ℕ) → List (List ℕ)
place x [] = x ∷ []
place x (y ∷ s) = let rest = place x s in if text_lt y x then y ∷ rest else x ∷ y ∷ s

unfoldable pub in_order : List (List ℕ) → List (List ℕ)
unfolding place
in_order [] = []
in_order (x ∷ s) = place x (in_order s)

-- What main has started: _ips as the client goes through it, with what inet_aton reads in each, and the
-- client.
pub record Begun : Type 0 where
  pub ips : Servers
  pub client : Sclient

-- if(serveron), up to client.run and player.play: the queue and the client are made, if a server is known.
unfoldable pub start_client :
    (inet_aton : List ℕ → Option ℕ) (opens : ℕ → Bool) (junk : List ℕ) (now start rewind : ℕ)
    → List (List ℕ)
    → Option (Option Begun)
unfolding in_order
start_client inet_aton opens junk now start rewind [] = some none
start_client inet_aton opens junk now start rewind (x ∷ ifs) = elim (set_up opens junk) [
  | none ↦ none
  | some q ↦ some (
      some (record {
        ips = map (λ sip. (sip, inet_aton sip)) (in_order (x ∷ ifs));
        client = started start (new_sclient now rewind q);
      }))
]

-- main, up to the start of the threads.
unfoldable pub main :
    Os
    → (inet_aton : List ℕ → Option ℕ) (opens : ℕ → Bool) (junk : List ℕ) (now start rewind : ℕ)
    → List Look
    → Option (Option Begun)
unfolding look_for start_client
main o inet_aton opens junk now start rewind looks = elim (look_for o looks []) [
  | none ↦ none
  | some ifs ↦ start_client inet_aton opens junk now start rewind ifs
]
