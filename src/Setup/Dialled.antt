-- ===== src/Setup/Dialled.antt =====
-- From main's search for servers to the connection that its client makes.
use the_multi_room_speaker.Base.{
  ℕ, ◌<◌, ◌≡◌, ◌≢◌, refl, sym, ap, ◌∙◌, subst, Bool, true, false, Option, some, List, [], ◌∷◌, ◌++◌,
  length, map, Option-cases, ◌==◌, arith, Bool-cases, inl, inr, u16_mod, ◌%◌,
}
use mathlib.Core.List.{map-append}
use mathlib.Core.Option.{some-injective}
use the_multi_room_speaker.Base.Int.{pos_part}
use the_multi_room_speaker.Wire.{hdr_size, spk_srv_port}
use the_multi_room_speaker.Sock.Calls.{Os, Net, is_open}
use the_multi_room_speaker.Sock.Held.{Owns}
use the_multi_room_speaker.Sock.Answered.{Answers}
use the_multi_room_speaker.Discovery.{has, same_string, reply}
use the_multi_room_speaker.Discovery.Found.{IsReply, same-eq, same_self}
use the_multi_room_speaker.Discovery.Join.{Seeker, seekers, interfaces, join}
use the_multi_room_speaker.Discovery.Joined.{Willing, Hears}
use the_multi_room_speaker.Discovery.Gathered.{join-finds}
use the_multi_room_speaker.Client.Link.{Servers, dial_each}
use the_multi_room_speaker.Client.Reached.{dial_each-reaches}
use the_multi_room_speaker.Setup.Main.{Look, look_for, place, in_order, Begun, start_client, main}
use the_multi_room_speaker.Setup.Started.{set_up-IsReady}

has-tail :
    (x y : List ℕ) (s : List (List ℕ))
    → same_string x y ≡ false
    → has x (y ∷ s) ≡ true
    → has x s ≡ true
unfolding has
has-tail x y s e h = ground (arith, e, h)

has-place : (x : List ℕ) (s : List (List ℕ)) → has x (place x s) ≡ true
unfolding has place
has-place x [] = ground (arith, same_self x)
has-place x (y ∷ s) = ground (arith, same_self x, has-place x s)

place-keeps : (x y : List ℕ) (s : List (List ℕ)) → has x s ≡ true → has x (place y s) ≡ true
unfolding has place
place-keeps x y [] h = cc
place-keeps x y (z ∷ s) h = elim (Bool-cases (same_string x z)) [
  | inl e ↦ ground (arith, e)
  | inr e ↦ ground (arith, e, h, place-keeps x y s)
]

has-in_order : (x : List ℕ) (s : List (List ℕ)) → has x s ≡ true → has x (in_order s) ≡ true
unfolding has in_order
has-in_order x [] h = h
has-in_order x (y ∷ s) h = elim (Bool-cases (same_string x y)) [
  | inl e ↦ rw (same-eq x y e) (has-place y (in_order s))
  | inr e ↦ place-keeps x y (in_order s) (has-in_order x s (has-tail x y s e h))
]

-- Where a member stands.
has-splits :
    (x : List ℕ) (s : List (List ℕ))
    → has x s ≡ true
    → (before : List (List ℕ)) × (after : List (List ℕ)) × (s ≡ before ++ (x ∷ after))
unfolding has
has-splits x [] h = cc
has-splits x (y ∷ s) h = elim (Bool-cases (same_string x y)) [
  | inl e ↦ ([], s, ap (λ (z : List ℕ). z ∷ s) (sym (same-eq x y e)))
  | inr e ↦
      let (before, after, f) = has-splits x s (has-tail x y s e h) in
      (y ∷ before, after, ap (λ (t : List (List ℕ)). y ∷ t) f)
]

some_known : (x : List ℕ) (s : List (List ℕ)) → has x s ≡ true → (length s == 0) ≡ false
unfolding has
some_known x [] h = cc
some_known x (y ∷ s) h = ground arith

-- The rounds that find nothing are followed by another.
look_for-append :
    (o : Os) (before after : List Look) (ifs : List (List ℕ))
    → look_for o before ifs ≡ some []
    → look_for o (before ++ after) ifs ≡ look_for o after []
unfolding look_for
look_for-append o [] after ifs h = ap (look_for o after) (some-injective ifs [] h)
look_for-append o (l ∷ before) after ifs h = elim (Option-cases (join o l.hears l.junk l.ifs ifs)) [
  | inl e ↦ ground (arith, e, h)
  | inr (r, e) ↦ elim (Bool-cases (length r.1 == 0)) [
    | inl z ↦ rw (e, z, look_for) (look_for-append o before after r.1 (ground (arith, e, z, h)))
    | inr z ↦ ground (arith, e, z, h)
  ]
]

start_client-dials :
    (inet_aton : List ℕ → Option ℕ) (opens : ℕ → Bool) (junk : List ℕ) (now start rewind : ℕ)
    (ifs : List (List ℕ)) (ip : List ℕ)
    → has ip ifs ≡ true
    → length junk ≡ hdr_size
    → (b : Begun) × (before : Servers) × (after : Servers) × (start_client inet_aton opens junk now
          start rewind ifs
        ≡ some (some b))
      × (b.ips ≡ before ++ ((ip, inet_aton ip) ∷ after))
unfolding start_client has
start_client-dials inet_aton opens junk now start rewind [] ip h j = cc
start_client-dials inet_aton opens junk now start rewind (x ∷ ifs) ip h j =
    let (q, made, quiet, sized, seen, m) = set_up-IsReady opens junk j in
    let (before, after, e) = has-splits ip (in_order (x ∷ ifs)) (has-in_order ip (x ∷ ifs) h) in
    let read : List ℕ → List ℕ × Option ℕ = λ sip. (sip, inet_aton sip) in
    rw (made, start_client)
      (
        _,
        map read before,
        map read after,
        refl,
        ap (map read) e ∙ map-append read before (ip ∷ after),
      )

-- With standard input open, so that no new descriptor is 0, where sockets can be made, set to
-- broadcast and bound, and select does not fail: in some round of main, in none of those before
-- which a server was found, each entry of an interface can be taken apart, all that comes in are
-- answers of servers (of host names and addresses without a colon or a zero, in 127 characters),
-- and a server's answer is waiting at an interface, in one of the 64 rounds of one of the four
-- searches; if that server accepts a connection at once, main starts a client with a list of
-- servers, with any 48 bytes at the end of each chunk of its queue, and a client whose socket has
-- no other descriptor open than the one it holds, and that dials the list, ends up with an open
-- socket.
pub main-reaches :
    (o : Os) (inet_aton : List ℕ → Option ℕ) (opens : ℕ → Bool) (junk : List ℕ)
    (now start rewind : ℕ) (before after : List Look) (l : Look) (ps : List Seeker) (k i at fd : ℕ)
    (hostname ip : List ℕ) (a : ℕ) (n : Net)
    → Willing o
    → Answers o fd (record { ip = a; port = spk_srv_port % u16_mod })
    → look_for o before [] ≡ some []
    → ((m j : ℕ) → Hears (l.hears m j))
    → seekers (interfaces l.ifs) ≡ some ps
    → k < 4
    → i < length (interfaces l.ifs)
    → at < 64
    → IsReply hostname ip
    → pos_part (l.hears k i at).signaled ≢ 0
    → (l.hears k i at).received ≡ some (reply hostname ip)
    → inet_aton ip ≡ some a
    → length junk ≡ hdr_size
    → Owns n
    → (b : Begun) × (main o inet_aton opens junk now start rewind (before ++ (l ∷ after))
        ≡ some (some b))
      × (n' : Net) × (dial_each o b.ips n ≡ some n')
      × (is_open n' ≡ true)
unfolding main look_for
main-reaches o inet_aton opens junk now start rewind before after l ps k i at fd hostname ip a n w
      ans none_yet f made in_tries in_ifs in_rounds r ne e read j own =
    let (out, joined, known) =
      join-finds o l.hears l.junk l.ifs [] ps k i at hostname ip w f made in_tries in_ifs in_rounds
        r ne e in
    let found : look_for o (before ++ (l ∷ after)) [] ≡ some out.1 =
      look_for-append o before (l ∷ after) [] none_yet
      ∙ rw (joined, some_known ip out.1 known, look_for) refl in
    let (b, dialled, later, started, ips) =
      start_client-dials inet_aton opens junk now start rewind out.1 ip known j in
    let (n', reached, up) = dial_each-reaches o fd dialled later ip a n ans own in
    (
      b,
      rw (found, main) started,
      n',
      subst (λ (xs : Servers). dial_each o xs n ≡ some n')
          (sym (ips ∙ ap (λ (x : Option ℕ). dialled ++ ((ip, x) ∷ later)) read)) reached,
      up,
    )
