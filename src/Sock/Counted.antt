-- ===== src/Sock/Counted.antt =====
-- How often a descriptor is open, where several sockets share what was called.
use the_multi_room_speaker.Base.{
  ℕ, zero, suc, ◌+◌, ◌≡◌, refl, sym, ap, ◌∙◌, Bool, true, false, List, [], ◌∷◌, ◌++◌, ltb, ◌==◌,
  if◌then◌else◌, subst, arith, Bool-cases, inl, inr,
}
use the_multi_room_speaker.Base.Int.{ℤ, pos, negsuc, pos_part}
use the_multi_room_speaker.Sock.Calls.{
  close_fd, pause, Os, Net, is_minus_one, is_open, call, close_loop, sock_destroy, empty_out,
  cli_destroy, srv_destroy,
}
use the_multi_room_speaker.Sock.Held.{remove, owned, held, Same, empty_out-Same}

unfoldable pub count : ℕ → List ℕ → ℕ
count x [] = 0
count x (y ∷ ys) = (if y == x then 1 else 0) + count x ys

pub count-append : (x : ℕ) (ys zs : List ℕ) → count x (ys ++ zs) ≡ count x ys + count x zs
unfolding count
count-append x [] zs = omega arith
count-append x (y ∷ ys) zs = omega (arith, count-append x ys zs)

count-remove : (x f : ℕ) (ys : List ℕ) → count x (remove f ys) ≡ (if x == f then 0 else count x ys)
unfolding count
count-remove x f [] = ground arith
count-remove x f (y ∷ ys) = ground (arith, count-remove x f ys)

-- A list in which nothing occurs.
pub none_counted : (ys : List ℕ) → ((x : ℕ) → count x ys ≡ 0) → ys ≡ []
unfolding count
none_counted [] h = refl
none_counted (y ∷ ys) h = absurd (ground (arith, h y))

close_loop-count :
    (o : Os) (x k : ℕ) (n : Net)
    → count x (held (close_loop o k n).log)
      ≡ (if x == pos_part n.thesock then 0 else count x (held n.log))
unfolding close_loop call held
close_loop-count o x zero n = count-remove x (pos_part n.thesock) (held n.log)
close_loop-count o x (suc k) n =
    let a = o.ask n.log (close_fd n.thesock) in
    let n' = call o (pause 255) (record (call o (close_fd n.thesock) n) { error = a.errno }) in
    let closed = count-remove x (pos_part n.thesock) (held n.log) in
    elim (Bool-cases (is_minus_one a.ret)) [
      | inl failed ↦ rw failed (ground (arith, close_loop-count o x k n', closed))
      | inr done ↦ rw done closed
    ]

-- What closing does to the descriptors: that of the socket is open no more.
abbrev pub Closes : Net → Net → Type 0
Closes n n' =
    (x : ℕ)
    → count x (held n'.log) ≡ (if count x (owned n.thesock) == 0 then count x (held n.log) else 0)

pub count-owned :
    (x : ℕ) (z : ℤ)
    → count x (owned z) ≡ (if ltb 0 (pos_part z) then (if x == pos_part z then 1 else 0) else 0)
unfolding count
count-owned x z = ground arith

pub sock_destroy-Closes : (o : Os) (n : Net) → Closes n (sock_destroy o n).1
unfolding sock_destroy
sock_destroy-Closes o n x =
    let owns = count-owned x n.thesock in
    elim (Bool-cases (is_open n)) [
      | inl e ↦
          rw (e, sock_destroy)
            (close_loop-count o x 31 (record n { set_mask = 0 }) ∙ ground (arith, owns, e))
      | inr e ↦ rw (e, sock_destroy) (ground (arith, owns, e))
    ]

Closes-Same : {n n' : Net} (n'' : Net) → Same n n' → Closes n' n'' → Closes n n''
Closes-Same {n} {n'} n'' s c x =
    c x
    ∙ ap (λ (z : ℤ). if count x (owned z) == 0 then count x (held n'.log) else 0) s.still_held
    ∙ ap (λ (l : List ℕ). if count x (owned n.thesock) == 0 then count x l else 0) s.still_open

stays_shut : (n : Net) → is_open n ≡ false → Closes n n
stays_shut n e x = let owns = count-owned x n.thesock in ground (arith, owns, e)

cli_destroy_open :
    (o : Os) (emptyit : Bool) (n : Net)
    → is_open n ≡ true
    → cli_destroy o emptyit n
      ≡ sock_destroy o (empty_out o emptyit (record n { connecting = pos 0; connected = false }))
unfolding cli_destroy
cli_destroy_open o emptyit n e = rw e refl

cli_destroy_shut :
    (o : Os) (emptyit : Bool) (n : Net) → is_open n ≡ false → (cli_destroy o emptyit n).1 ≡ n
unfolding cli_destroy
cli_destroy_shut o emptyit n e = rw e refl

srv_destroy_open :
    (o : Os) (emptyit : Bool) (n : Net)
    → is_open n ≡ true
    → srv_destroy o emptyit n ≡ sock_destroy o (empty_out o emptyit n)
unfolding srv_destroy
srv_destroy_open o emptyit n e = rw e refl

srv_destroy_shut :
    (o : Os) (emptyit : Bool) (n : Net) → is_open n ≡ false → (srv_destroy o emptyit n).1 ≡ n
unfolding srv_destroy
srv_destroy_shut o emptyit n e = rw e refl

pub cli_destroy-Closes : (o : Os) (emptyit : Bool) (n : Net) → Closes n (cli_destroy o emptyit n).1
cli_destroy-Closes o emptyit n = elim (Bool-cases (is_open n)) [
  | inl e ↦
      let reset = record n { connecting = pos 0; connected = false } in
      let s = empty_out-Same o emptyit reset in
      let out = empty_out o emptyit reset in
      let same : Same n out = record { still_open = s.still_open; still_held = s.still_held } in
      subst (λ (r : Bool × Net). Closes n r.1) (sym (cli_destroy_open o emptyit n e))
        (Closes-Same (sock_destroy o out).1 same (sock_destroy-Closes o out))
  | inr e ↦ subst (Closes n) (sym (cli_destroy_shut o emptyit n e)) (stays_shut n e)
]

pub srv_destroy-Closes : (o : Os) (emptyit : Bool) (n : Net) → Closes n (srv_destroy o emptyit n).1
srv_destroy-Closes o emptyit n = elim (Bool-cases (is_open n)) [
  | inl e ↦
      let out = empty_out o emptyit n in
      subst (λ (r : Bool × Net). Closes n r.1) (sym (srv_destroy_open o emptyit n e))
        (Closes-Same (sock_destroy o out).1 (empty_out-Same o emptyit n)
          (sock_destroy-Closes o out))
  | inr e ↦ subst (Closes n) (sym (srv_destroy_shut o emptyit n e)) (stays_shut n e)
]

sock_destroy-shut : (o : Os) (n : Net) → (sock_destroy o n).1.thesock ≡ negsuc 0
unfolding sock_destroy
sock_destroy-shut o n = ground arith

-- After it the socket owns nothing.
pub cli_destroy-shut :
    (o : Os) (emptyit : Bool) (n : Net) → owned (cli_destroy o emptyit n).1.thesock ≡ []
unfolding cli_destroy
cli_destroy-shut o emptyit n = elim (Bool-cases (is_open n)) [
  | inl e ↦
      ap (λ (r : Bool × Net). owned r.1.thesock) (cli_destroy_open o emptyit n e)
      ∙ (ap owned (
          sock_destroy-shut o
            (empty_out o emptyit (record n { connecting = pos 0; connected = false }))))
  | inr e ↦ ap (λ (m : Net). owned m.thesock) (cli_destroy_shut o emptyit n e) ∙ ground (arith, e)
]

pub srv_destroy-shut :
    (o : Os) (emptyit : Bool) (n : Net) → owned (srv_destroy o emptyit n).1.thesock ≡ []
unfolding srv_destroy
srv_destroy-shut o emptyit n = elim (Bool-cases (is_open n)) [
  | inl e ↦
      ap (λ (r : Bool × Net). owned r.1.thesock) (srv_destroy_open o emptyit n e)
      ∙ ap owned (sock_destroy-shut o (empty_out o emptyit n))
  | inr e ↦ ap (λ (m : Net). owned m.thesock) (srv_destroy_shut o emptyit n e) ∙ ground (arith, e)
]
