-- ===== src/Discovery/Closed.antt =====
-- Udper loses no socket.
use the_multi_room_speaker.Base.{
  ap₂, ℕ, ◌≡◌, refl, ap, ◌∙◌, true, List, [], ◌∷◌, ◌++◌, ltb, if◌then◌else◌, arith, Bool-cases, inl,
  inr, ◌⊎◌,
}
use the_multi_room_speaker.Base.Int.{ℤ, pos, pos_part}
use mathlib.Core.List.{append-nil}
use the_multi_room_speaker.Sock.Calls.{is_zero, socket_dgram, set_opt, Os}
use the_multi_room_speaker.Sock.Held.{opened-owned, remove, owned, held}
use the_multi_room_speaker.Discovery.Life.{
  Udper, new_udper, Use, discovers, responds, destroys, used, asks, create_sock, create_rock, broad,
  bind_to_addr, bind_server, ready_sock, ready_rock, ready, ready_server, close_one, destroy,
}

-- The two sockets are open, and nothing else; in the order in which they were made.
abbrev pub Keeps : Udper → Type 0
Keeps u = (held u.log ≡ owned u.sock ++ owned u.rock) ⊎ (held u.log ≡ owned u.rock ++ owned u.sock)

broad-Keeps : (o : Os) (u : Udper) → Keeps u → Keeps (broad o u).1
unfolding broad asks held
broad-Keeps o u k = k

bind-Keeps : (o : Os) (s : ℤ) (port : ℕ) (u : Udper) → Keeps u → Keeps (bind_to_addr o s port u).1
unfolding bind_to_addr asks held
bind-Keeps o s port u k = k

bind_server-Keeps :
    (o : Os) (s : ℤ) (port : ℕ) (u : Udper) → Keeps u → Keeps (bind_server o s port u).1
unfolding bind_server asks held
bind_server-Keeps o s port u k = k

owned-zero : (z : ℤ) → is_zero z ≡ true → owned z ≡ []
owned-zero z e = ground (arith, e)

flip_lem : (u : Udper) → Keeps u → is_zero u.sock ≡ true → held u.log ≡ owned u.rock
flip_lem u k e = elim k [
  | inl h ↦ h ∙ ap (λ (xs : List ℕ). xs ++ owned u.rock) (owned-zero u.sock e)
  | inr h ↦
      h ∙ ap (λ (xs : List ℕ). owned u.rock ++ xs) (owned-zero u.sock e) ∙ append-nil (owned u.rock)
]

create_sock-Keeps :
    (o : Os) (u : Udper) → is_zero u.sock ≡ true → Keeps u → Keeps (create_sock o u).1
unfolding create_sock asks held
create_sock-Keeps o u e k =
    let r = (o.ask u.log (socket_dgram 0)).ret in
    inl (
      ap₂ (λ (xs ys : List ℕ). xs ++ ys) (opened-owned r (o.dgram_spares u.log 0)) (flip_lem u k e))

create_rock-Keeps :
    (o : Os) (u : Udper) → is_zero u.rock ≡ true → Keeps u → Keeps (create_rock o u).1
unfolding create_rock asks held
create_rock-Keeps o u e k =
    let alone : held u.log ≡ owned u.sock = elim k [
      | inl h ↦
          h
          ∙ ap (λ (xs : List ℕ). owned u.sock ++ xs) (owned-zero u.rock e)
          ∙ append-nil (owned u.sock)
      | inr h ↦ h ∙ ap (λ (xs : List ℕ). xs ++ owned u.sock) (owned-zero u.rock e)
    ] in
    let r = (o.ask u.log (socket_dgram 0)).ret in
    inr (ap₂ (λ (xs ys : List ℕ). xs ++ ys) (opened-owned r (o.dgram_spares u.log 0)) alone)

ready_sock-Keeps : (o : Os) (u : Udper) → Keeps u → Keeps (ready_sock o u).1
unfolding ready_sock
ready_sock-Keeps o u k = elim (Bool-cases (is_zero u.sock)) [
  | inl e ↦
      let made = create_sock-Keeps o u e k in
      elim (Bool-cases (create_sock o u).0) [
        | inl m ↦ rw (e, m) (broad-Keeps o (create_sock o u).1 made)
        | inr m ↦ rw (e, m) made
      ]
  | inr e ↦ rw e k
]

ready_rock-Keeps : (o : Os) (u : Udper) → Keeps u → Keeps (ready_rock o u).1
unfolding ready_rock
ready_rock-Keeps o u k = elim (Bool-cases (is_zero u.rock)) [
  | inl e ↦
      let made = create_rock-Keeps o u e k in
      let u1 = (create_rock o u).1 in
      elim (Bool-cases (create_rock o u).0) [
        | inl m ↦ rw (e, m) (bind-Keeps o u1.rock 19212 u1 made)
        | inr m ↦ rw (e, m) made
      ]
  | inr e ↦ rw e k
]

ready-Keeps : (o : Os) (u : Udper) → Keeps u → Keeps (ready o u).1
unfolding ready
ready-Keeps o u k =
    let sending = ready_sock-Keeps o u k in
    elim (Bool-cases (ready_sock o u).0) [
      | inl e ↦ rw e (ready_rock-Keeps o (ready_sock o u).1 sending)
      | inr e ↦ rw e sending
    ]

reuse-Keeps : (o : Os) (s : ℤ) (u : Udper) → Keeps u → Keeps (asks o (set_opt s 2 1) u).1
unfolding asks held
reuse-Keeps o s u k = k

pub ready_server-Keeps : (o : Os) (u : Udper) → Keeps u → Keeps (ready_server o u).1
unfolding ready_server
ready_server-Keeps o u k = elim (Bool-cases (is_zero u.sock)) [
  | inl e ↦
      let made = create_sock-Keeps o u e k in
      let u1 = (create_sock o u).1 in
      let reused = (asks o (set_opt u1.sock 2 1) u1).1 in
      elim (Bool-cases (create_sock o u).0) [
        | inl m ↦
            rw (e, m) (bind_server-Keeps o u1.sock 19211 reused (reuse-Keeps o u1.sock u1 made))
        | inr m ↦ rw (e, m) made
      ]
  | inr e ↦ rw e k
]

removed_lem :
    (a b : ℕ) → (remove b (remove a (a ∷ b ∷ [])) ≡ []) × (remove b (remove a (b ∷ a ∷ [])) ≡ [])
removed_lem a b = ground arith

-- What closing a socket leaves of the open descriptors.
abbrev without : ℤ → List ℕ → List ℕ
without z l = if ltb 0 (pos_part z) then remove (pos_part z) l else l

close_one-held : (o : Os) (s : ℤ) (u : Udper) → held (close_one o s u).log ≡ without s (held u.log)
unfolding close_one asks held
close_one-held o s u = ground arith

close_one-sock : (o : Os) (s : ℤ) (u : Udper) → (close_one o s u).sock ≡ u.sock
unfolding close_one asks
close_one-sock o s u = ground arith

close_one-rock : (o : Os) (s : ℤ) (u : Udper) → (close_one o s u).rock ≡ u.rock
unfolding close_one asks
close_one-rock o s u = ground arith

removed_one : (a : ℕ) → remove a (a ∷ []) ≡ []
removed_one a = ground arith

without_both :
    (s r : ℤ)
    → (without r (without s (owned s ++ owned r)) ≡ [])
      × (without r (without s (owned r ++ owned s)) ≡ [])
without_both s r = elim (Bool-cases (ltb 0 (pos_part s))) [
  | inl e ↦ elim (Bool-cases (ltb 0 (pos_part r))) [
    | inl f ↦ rw (e, f) (removed_lem (pos_part s) (pos_part r))
    | inr f ↦ rw (e, f) (removed_one (pos_part s), removed_one (pos_part s))
  ]
  | inr e ↦ elim (Bool-cases (ltb 0 (pos_part r))) [
    | inl f ↦ rw (e, f) (removed_one (pos_part r), removed_one (pos_part r))
    | inr f ↦ rw (e, f) (refl, refl)
  ]
]

pub destroy_lem :
    (o : Os) (u : Udper)
    → Keeps u
    → (held (destroy o u).log ≡ []) × ((destroy o u).sock ≡ pos 0) × ((destroy o u).rock ≡ pos 0)
unfolding destroy
destroy_lem o u k =
    let u1 = record (close_one o u.sock u) { sock = pos 0 } in
    let first = close_one-held o u.sock u in
    let second = close_one-held o u1.rock u1 in
    let same = close_one-rock o u.sock u in
    (
      second ∙ ap (λ (z : ℤ). without z (held u1.log)) same ∙ ap (without u.rock) first ∙ elim k [
        | inl h ↦
            ap (λ (l : List ℕ). without u.rock (without u.sock l)) h
            ∙ (without_both u.sock u.rock).0
        | inr h ↦
            ap (λ (l : List ℕ). without u.rock (without u.sock l)) h
            ∙ (without_both u.sock u.rock).1
      ],
      close_one-sock o u1.rock u1,
      refl,
    )

used-Keeps : (o : Os) (uses : List Use) (u : Udper) → Keeps u → Keeps (used o uses u)
unfolding used
used-Keeps o [] u k = k
used-Keeps o (discovers ∷ uses) u k = used-Keeps o uses (ready o u).1 (ready-Keeps o u k)
used-Keeps o (responds ∷ uses) u k =
    used-Keeps o uses (ready_server o u).1 (ready_server-Keeps o u k)
used-Keeps o (destroys ∷ uses) u k =
    let (h, s, r) = destroy_lem o u k in used-Keeps o uses (destroy o u) (inl (rw (s, r) h))

-- Where standard input is open, so that no new descriptor is 0, and close releases its descriptor
-- also where it fails: of all that a Udper opened, whose sockets were made and destroyed any number
-- of times, whatever else the operating system answered, nothing but its two sockets is open; and
-- once it is destroyed nothing is.
pub used-closes :
    (o : Os) (uses : List Use)
    → Keeps (used o uses new_udper) × (held (destroy o (used o uses new_udper)).log ≡ [])
unfolding held
used-closes o uses =
    let kept = used-Keeps o uses new_udper (inl refl) in
    (kept, (destroy_lem o (used o uses new_udper) kept).0)
