-- ===== src/Discovery/Join.antt =====
-- cli/udpdisc.cpp, Udper::join: the search over all interfaces, with the sockets of Discovery/Life.
use the_multi_room_speaker.Base.{
  ℕ, zero, suc, ◌+◌, Option, none, some, List, [], ◌∷◌, ltb, if◌then◌else◌, length,
}
use the_multi_room_speaker.Base.Int.{ℤ, pos, negsuc, pos_part}
use the_multi_room_speaker.Sock.Calls.{Os}
use the_multi_room_speaker.Discovery.{udper, Arrival, discover, gather}
use the_multi_room_speaker.Discovery.Life.{Udper, new_udper, ready, destroy}

-- A Udper of the client: its sockets and _remips.
pub record Seeker : Type 0 where
  pub net : Udper
  pub remips : List (List ℕ)

-- Udper::discover(): the value returned, and the Udper.
unfoldable pub search : Os → (ℕ → Arrival) → List ℕ → Seeker → ℤ × Seeker
search o arrivals junk p =
    let (up, net') = ready o p.net in
    let known = (discover arrivals junk p.remips).0 in
    if up
    then (pos (length known), record { net = net'; remips = known })
    else (negsuc 0, record p { net = net' })

-- The loop over the Udpers; `hears i` is what the one at place i receives.
unfoldable pub search_each :
    Os
    → (hears : ℕ → ℕ → Arrival) → List ℕ
    → (i : ℕ) → List Seeker
    → List (List ℕ)
    → List Seeker × List (List ℕ)
unfolding search
search_each o hears junk i [] ipis = ([], ipis)
search_each o hears junk i (p ∷ ps) ipis =
    let (rk, p') = search o (hears i) junk p in
    let known : List (List ℕ) = if ltb 0 (pos_part rk) then gather p'.remips ipis else ipis in
    let rest = search_each o hears junk (i + 1) ps known in (p' ∷ rest.0, rest.1)

-- The loop of four such searches, of which `left` are left.
unfoldable pub searches :
    Os
    → (hears : ℕ → ℕ → ℕ → Arrival) → List ℕ
    → (left k : ℕ) → List Seeker
    → List (List ℕ)
    → List Seeker × List (List ℕ)
unfolding search_each
searches o hears junk zero k ps ipis = (ps, ipis)
searches o hears junk (suc left) k ps ipis =
    let (ps', known) = search_each o (hears k) junk 0 ps ipis in
    searches o hears junk left (k + 1) ps' known

-- "wlan0", "wlan1", "eth0" and "eth1", if no interface was found.
unfoldable pub interfaces : List (List ℕ) → List (List ℕ)
interfaces [] =
    (119 ∷ 108 ∷ 97 ∷ 110 ∷ 48 ∷ [])
    ∷ (119 ∷ 108 ∷ 97 ∷ 110 ∷ 49 ∷ [])
    ∷ (101 ∷ 116 ∷ 104 ∷ 48 ∷ [])
    ∷ (101 ∷ 116 ∷ 104 ∷ 49 ∷ [])
    ∷ []
interfaces (x ∷ ifs) = x ∷ ifs

-- `new Udper(is)` for each; `none` is the null pointer that strtok may give the constructor.
unfoldable pub seekers : List (List ℕ) → Option (List Seeker)
unfolding udper
seekers [] = some []
seekers (x ∷ xs) =
    let rest = seekers xs in
    elim (udper x) [
      | none ↦ none
      | some named ↦ elim rest [
        | none ↦ none
        | some ps ↦ some (record { net = new_udper; remips = [] } ∷ ps)
      ]
    ]

unfoldable pub destroy_each : Os → List Seeker → List Udper
destroy_each o [] = []
destroy_each o (p ∷ ps) = destroy o p.net ∷ destroy_each o ps

-- Udper::join(ipis), where get_local_ifaces has found `ifs`: the Udpers as they were deleted, and ipis.
unfoldable pub join :
    Os
    → (ℕ → ℕ → ℕ → Arrival)
    → List ℕ
    → List (List ℕ)
    → List (List ℕ)
    → Option (List Udper × List (List ℕ))
unfolding searches interfaces seekers destroy_each
join o hears junk ifs ipis = elim (seekers (interfaces ifs)) [
  | none ↦ none
  | some ps ↦
      let (ps', known) = searches o hears junk 4 0 ps ipis in some (destroy_each o ps', known)
]
