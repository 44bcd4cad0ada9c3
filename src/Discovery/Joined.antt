-- ===== src/Discovery/Joined.antt =====
-- Udper::join finds the servers that answer on any interface.
use the_multi_room_speaker.Base.{
  ℕ, zero, suc, ◌+◌, ◌<◌, ◌≤◌, ◌≡◌, ◌≢◌, refl, sym, ap, subst, Bool, true, false, some, List, [],
  ◌∷◌, ltb, ◌==◌, if◌then◌else◌, length, arith, Bool-cases, inl, inr,
}
use native.Mathlib.Decide.{ℕ_discrete}
use the_multi_room_speaker.Base.Int.{ℤ, pos, pos_part, neg_part}
use the_multi_room_speaker.Sock.Calls.{
  is_zero, Addr, socket_dgram, bind_fd, set_opt, Log, Os, is_minus_one,
}
use the_multi_room_speaker.Discovery.{has, Arrival, reply, heard, discover, discover_loop, gather}
use the_multi_room_speaker.Discovery.Found.{
  IsReply, FromServer, IsClear, heard-IsClear, loop-finds, gather-keeps, gather-has,
}
use the_multi_room_speaker.Discovery.Life.{
  Udper, asks, create_sock, create_rock, broad, bind_to_addr, ready_sock, ready_rock, ready,
}
use the_multi_room_speaker.Discovery.Join.{Seeker, search, search_each, searches}

-- Sockets can be made, set to broadcast and bound.
pub record Willing (o : Os) : Type 0 where
  pub makes : (l : Log) → ltb 0 (pos_part (o.ask l (socket_dgram 0)).ret) ≡ true
  pub sets : (l : Log) (f : ℤ) (opt v : ℕ) → is_minus_one (o.ask l (set_opt f opt v)).ret ≡ false
  pub binds : (l : Log) (f : ℤ) (a : Addr) → ltb 0 (neg_part (o.ask l (bind_fd f a)).ret) ≡ false

ready_sock-Willing : (o : Os) (u : Udper) → Willing o → (ready_sock o u).0 ≡ true
unfolding ready_sock create_sock broad asks
ready_sock-Willing o u w = elim (Bool-cases (is_zero u.sock)) [
  | inl e ↦ rw (e, w.makes u.log, w.sets _ _ _ _) refl
  | inr e ↦ rw e refl
]

ready_rock-Willing : (o : Os) (u : Udper) → Willing o → (ready_rock o u).0 ≡ true
unfolding ready_rock create_rock bind_to_addr asks
ready_rock-Willing o u w = elim (Bool-cases (is_zero u.rock)) [
  | inl e ↦ rw (e, w.makes u.log, w.binds _ _ _) refl
  | inr e ↦ rw e refl
]

ready-Willing : (o : Os) (u : Udper) → Willing o → (ready o u).0 ≡ true
unfolding ready
ready-Willing o u w = rw (ready_sock-Willing o u w) (ready_rock-Willing o (ready_sock o u).1 w)

loop-IsClear :
    (arrivals : ℕ → Arrival) (junk : List ℕ) (left k : ℕ) (s : List (List ℕ))
    → ((j : ℕ) → FromServer (arrivals j).received)
    → IsClear s
    → IsClear (discover_loop left k arrivals junk s).0
unfolding discover_loop
loop-IsClear arrivals junk zero k s f i = i
loop-IsClear arrivals junk (suc left) k s f i =
    let a = arrivals k in
    let later =
      loop-IsClear arrivals junk left (k + 1) (heard a junk s) f
        (heard-IsClear junk s i a.signaled a.received (f k)) in
    elim (Bool-cases (neg_part a.signaled == 1)) [
      | inl failed ↦ rw (failed, discover_loop) i
      | inr fine ↦ rw (fine, discover_loop) later
    ]

has-length : (x : List ℕ) (s : List (List ℕ)) → has x s ≡ true → ltb 0 (length s) ≡ true
unfolding has
has-length x [] h = cc
has-length x (y ∷ s) h = ground arith

abbrev pub AllClear : List Seeker → Type 0
AllClear [] = Unit {0}
AllClear (p ∷ ps) = IsClear p.remips × AllClear ps

-- What a Udper receives: answers of servers only, and select does not fail.
pub record Hears (arrivals : ℕ → Arrival) : Type 0 where
  pub servers : (j : ℕ) → FromServer (arrivals j).received
  pub selects : (j : ℕ) → neg_part (arrivals j).signaled ≢ 1

module _ (o : Os) (willing : Willing o) (junk : List ℕ) where
  search_lem :
      (arrivals : ℕ → Arrival) (p : Seeker)
      → let known = (discover_loop 64 0 arrivals junk p.remips).0 in
        ((search o arrivals junk p).0 ≡ pos (length known))
        × ((search o arrivals junk p).1.remips ≡ known)
  unfolding search discover
  search_lem arrivals p = rw (ready-Willing o p.net willing) (refl, refl)

  search_each-AllClear :
      (hears : ℕ → ℕ → Arrival) (i : ℕ) (ps : List Seeker) (ipis : List (List ℕ))
      → ((j : ℕ) → Hears (hears j))
      → AllClear ps
      → AllClear (search_each o hears junk i ps ipis).0
  unfolding search_each
  search_each-AllClear hears i [] ipis f c = tt
  search_each-AllClear hears i (p ∷ ps) ipis f (c, cs) = (
    subst IsClear (sym (search_lem (hears i) p).1)
        (loop-IsClear (hears i) junk 64 0 p.remips ((f i).servers) c),
    search_each-AllClear hears (i + 1) ps _ f cs,
  )

  if-keeps :
      (x : List ℕ) (b : Bool) (s t : List (List ℕ))
      → has x t ≡ true
      → has x (if b then gather s t else t) ≡ true
  if-keeps x true s t h = gather-keeps x s t h
  if-keeps x false s t h = h

  search_each-keeps :
      (hears : ℕ → ℕ → Arrival) (i : ℕ) (ps : List Seeker) (ipis : List (List ℕ)) (x : List ℕ)
      → has x ipis ≡ true
      → has x (search_each o hears junk i ps ipis).1 ≡ true
  unfolding search_each
  search_each-keeps hears i [] ipis x h = h
  search_each-keeps hears i (p ∷ ps) ipis x h = search_each-keeps hears (i + 1) ps _ x (
      if-keeps x (ltb 0 (pos_part (search o (hears i) junk p).0))
        (search o (hears i) junk p).1.remips ipis h)

  search_gathers :
      (arrivals : ℕ → Arrival) (p : Seeker) (ipis : List (List ℕ)) (x : List ℕ)
      → has x (discover_loop 64 0 arrivals junk p.remips).0 ≡ true
      → let (rk, p') = search o arrivals junk p in
        has x (if ltb 0 (pos_part rk) then gather p'.remips ipis else ipis) ≡ true
  search_gathers arrivals p ipis x h =
      let (count, same) = search_lem arrivals p in
      let known = (discover_loop 64 0 arrivals junk p.remips).0 in
      rw (count, has-length x known h, same) (gather-has x known ipis h)

  search_each-finds :
      (hears : ℕ → ℕ → Arrival) (i at_i at : ℕ) (hostname ip : List ℕ) (ps : List Seeker)
      (ipis : List (List ℕ))
      → ((j : ℕ) → Hears (hears j))
      → AllClear ps
      → i ≤ at_i
      → at_i < i + length ps
      → at < 64
      → IsReply hostname ip
      → pos_part (hears at_i at).signaled ≢ 0
      → (hears at_i at).received ≡ some (reply hostname ip)
      → has ip (search_each o hears junk i ps ipis).1 ≡ true
  unfolding search_each
  search_each-finds hears i at_i at hostname ip [] ipis f c h h' l r ne e = absurd (omega arith)
  search_each-finds hears i at_i at hostname ip (p ∷ ps) ipis f (c, cs) h h' l r ne e =
      elim (ℕ_discrete at_i i) [
        | yes here ↦
            let found =
              subst (λ (n : ℕ). has ip (discover_loop 64 0 (hears n) junk p.remips).0 ≡ true) here
                (loop-finds (hears at_i) junk ((f at_i).servers) 64 0 at hostname ip p.remips
                  ((f at_i).selects) (omega arith) (omega arith) r ne e c) in
            search_each-keeps hears (i + 1) ps _ ip (search_gathers (hears i) p ipis ip found)
        | no further ↦
            search_each-finds hears (i + 1) at_i at hostname ip ps _ f cs (omega arith)
              (omega arith) l r ne e
      ]

  search_each-length :
      (hears : ℕ → ℕ → Arrival) (i : ℕ) (ps : List Seeker) (ipis : List (List ℕ))
      → length (search_each o hears junk i ps ipis).0 ≡ length ps
  unfolding search_each
  search_each-length hears i [] ipis = refl
  search_each-length hears i (p ∷ ps) ipis = ap suc (search_each-length hears (i + 1) ps _)

  searches-keeps :
      (hears : ℕ → ℕ → ℕ → Arrival) (left k : ℕ) (ps : List Seeker) (ipis : List (List ℕ))
      (x : List ℕ)
      → has x ipis ≡ true
      → has x (searches o hears junk left k ps ipis).1 ≡ true
  unfolding searches
  searches-keeps hears zero k ps ipis x h = h
  searches-keeps hears (suc left) k ps ipis x h =
      searches-keeps hears left (k + 1) _ _ x (search_each-keeps (hears k) 0 ps ipis x h)

  pub searches-finds :
      (hears : ℕ → ℕ → ℕ → Arrival) (left k at_k at_i at : ℕ) (hostname ip : List ℕ)
      (ps : List Seeker) (ipis : List (List ℕ))
      → ((n j : ℕ) → Hears (hears n j))
      → AllClear ps
      → k ≤ at_k
      → at_k < k + left
      → at_i < length ps
      → at < 64
      → IsReply hostname ip
      → pos_part (hears at_k at_i at).signaled ≢ 0
      → (hears at_k at_i at).received ≡ some (reply hostname ip)
      → has ip (searches o hears junk left k ps ipis).1 ≡ true
  unfolding searches
  searches-finds hears zero k at_k at_i at hostname ip ps ipis f c h h' b l r ne e =
      absurd (omega arith)
  searches-finds hears (suc left) k at_k at_i at hostname ip ps ipis f c h h' b l r ne e =
      let (ps', known) = search_each o (hears k) junk 0 ps ipis in
      elim (ℕ_discrete at_k k) [
        | yes here ↦
            let found =
              subst (λ (n : ℕ). has ip (search_each o (hears n) junk 0 ps ipis).1 ≡ true) here
                (search_each-finds (hears at_k) 0 at_i at hostname ip ps ipis (f at_k) c
                  (omega arith) (omega arith) l r ne e) in
            searches-keeps hears left (k + 1) ps' known ip found
        | no further ↦
            let same = search_each-length (hears k) 0 ps ipis in
            searches-finds hears left (k + 1) at_k at_i at hostname ip ps' known f
              (search_each-AllClear (hears k) 0 ps ipis (f k) c) (omega arith) (omega arith)
              (omega (arith, same)) l r ne e
      ]
