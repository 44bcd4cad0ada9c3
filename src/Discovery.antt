-- ===== src/Discovery.antt =====
-- srv/udpdisc.cpp and cli/udpdisc.cpp: how speakers find servers. Strings are lists of character codes
-- without the final zero; a set of strings is a list, whose order nothing here looks at. What the sockets
-- deliver is an argument.
pub mod Found
pub mod Life
pub mod Closed
pub mod Join
pub mod Joined
pub mod Gathered
pub mod Beacon
pub mod Answering
use the_multi_room_speaker.Base.{
  ℕ, zero, suc, ◌+◌, ◌-◌, ◌%◌, Bool, true, false, ◌&&◌, not, Option, none, some, List, [], ◌∷◌,
  ◌++◌, ◌==◌, if◌then◌else◌, take,
}
use the_multi_room_speaker.Base.Int.{ℤ, pos_part, neg_part}

-- ':', ',' and ' '.
abbrev pub colon : ℕ
colon = 58

abbrev pub comma : ℕ
comma = 44

abbrev pub blank : ℕ
blank = 32

-- SPK_DISC, "XYZK".
abbrev pub spk_disc : List ℕ
spk_disc = 88 ∷ 89 ∷ 90 ∷ 75 ∷ []

-- strcmp
unfoldable pub same_string : List ℕ → List ℕ → Bool
same_string [] [] = true
same_string [] (y ∷ ys) = false
same_string (x ∷ xs) [] = false
same_string (x ∷ xs) (y ∷ ys) = x == y && same_string xs ys

unfoldable pub has : List ℕ → List (List ℕ) → Bool
unfolding same_string
has x [] = false
has x (y ∷ ys) = if same_string x y then true else has x ys

unfoldable pub insert : List ℕ → List (List ℕ) → List (List ℕ)
unfolding has
insert x s = if has x s then s else x ∷ s

-- The string in a buffer into which bytes were received: what lies before the first zero.
unfoldable pub string_of : List ℕ → List ℕ
string_of [] = []
string_of (x ∷ xs) = if x == 0 then [] else x ∷ string_of xs

-- An entry of get_local_ifaces: the address, a comma, the interface's name.
unfoldable pub local_iface : List ℕ → List ℕ → List ℕ
local_iface ip name = ip ++ (comma ∷ name)

-- strtok(.., ","): the token, and where the next call goes on.
unfoldable pub token : List ℕ → List ℕ × List ℕ
token [] = ([], [])
token (x ∷ xs) = let (t, rest) = token xs in if x == comma then ([], xs) else (x ∷ t, rest)

unfoldable pub skip_commas : List ℕ → List ℕ
skip_commas [] = []
skip_commas (x ∷ xs) = if x == comma then skip_commas xs else x ∷ xs

unfoldable pub has_comma : List ℕ → Bool
has_comma [] = false
has_comma (x ∷ xs) = if x == comma then true else has_comma xs

-- strtok finds no token, and returns a null pointer, where only commas are left.
abbrev pub both_tokens : List ℕ → List ℕ → Option (List ℕ × List ℕ)
both_tokens [] ys = none
both_tokens (x ∷ xs) [] = none
both_tokens (x ∷ xs) (y ∷ ys) = some (x ∷ xs, y ∷ ys)

-- The constructor of Udper: `_ip` and `_iface`, from an entry with a comma. A null pointer from the
-- second strtok is `none`.
unfoldable pub udper : List ℕ → Option (List ℕ × List ℕ)
unfolding token skip_commas has_comma
udper entry =
    let (ip, rest) = token (skip_commas entry) in
    let iface = (token (skip_commas rest)).0 in
    if has_comma entry then both_tokens ip iface else some ([], [])

-- What the server answers: sprintf("%s: %s", hostname, _ip).
unfoldable pub reply : List ℕ → List ℕ → List ℕ
reply hostname ip = hostname ++ (colon ∷ blank ∷ ip)

-- Udper::listen_and_respond (server), once its socket is bound: `signaled` is what _is_signaled returns,
-- `received` what recvfrom delivers, if anything. The value returned and what is sent back.
unfoldable pub listen_and_respond : ℤ → Option (List ℕ) → List ℕ → List ℕ → ℤ × Option (List ℕ)
unfolding reply string_of same_string
listen_and_respond signaled received hostname ip =
    let answer : Option (List ℕ) = elim received [
      | none ↦ none
      | some buff ↦
          if same_string (string_of (take 127 buff)) spk_disc
          then some (reply hostname ip)
          else none
    ] in
    if not (pos_part signaled == 0)
    then (ℤ.pos 0, answer)
    else if not (neg_part signaled == 0)
    then (ℤ.negsuc 0, none)
    else (ℤ.pos 0, none)

-- strchr(buff, ':') + 2. Where the colon is the last character this lies behind the string, and `junk` is
-- what it finds there.
unfoldable pub after_colon : List ℕ → List ℕ → Option (List ℕ)
after_colon junk [] = none
after_colon junk (x ∷ []) = if x == colon then some junk else none
after_colon junk (x ∷ y ∷ xs) =
    let rest = after_colon junk (y ∷ xs) in if x == colon then some xs else rest

-- What Udper::discover (client) does with a datagram.
unfoldable pub learn : List ℕ → List ℕ → List (List ℕ) → List (List ℕ)
unfolding string_of after_colon insert has
learn junk received remips =
    let buff = string_of (take 127 received) in
    if has buff remips
    then remips
    else elim (after_colon junk buff) [ none ↦ remips | some ip ↦ insert ip remips ]

-- What happens in each round of discover: _is_signaled, and recvfrom.
pub record Arrival : Type 0 where
  pub signaled : ℤ
  pub received : Option (List ℕ)

-- What a round adds to `_remips`.
unfoldable pub heard : Arrival → List ℕ → List (List ℕ) → List (List ℕ)
unfolding learn
heard a junk remips =
    if pos_part a.signaled == 0
    then remips
    else elim a.received [ none ↦ remips | some buff ↦ learn junk buff remips ]

-- The loop of Udper::discover (client): the rounds left, the round, `_remips`, and how often SPK_DISC was
-- sent.
unfoldable pub discover_loop : ℕ → ℕ → (ℕ → Arrival) → List ℕ → List (List ℕ) → List (List ℕ) × ℕ
unfolding heard
discover_loop zero k arrivals junk remips = (remips, 0)
discover_loop (suc left) k arrivals junk remips =
    let sent : ℕ = if k % 4 == 0 then 1 else 0 in
    let rest = discover_loop left (k + 1) arrivals junk (heard (arrivals k) junk remips) in
    if neg_part (arrivals k).signaled == 1 then (remips, sent) else (rest.0, sent + rest.1)

-- Udper::discover (client), once its sockets are there.
unfoldable pub discover : (ℕ → Arrival) → List ℕ → List (List ℕ) → List (List ℕ) × ℕ
unfolding discover_loop
discover arrivals junk remips =
    let (known, sent) = discover_loop 64 0 arrivals junk remips in (known, sent + 1)

-- Udper::q_consume (client)
unfoldable pub gather : List (List ℕ) → List (List ℕ) → List (List ℕ)
unfolding insert
gather [] cop = cop
gather (a ∷ remips) cop = gather remips (insert a cop)
