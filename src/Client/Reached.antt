-- ===== src/Client/Reached.antt =====
-- The servers of sclient::_tmain: one that answers is reached.
use the_multi_room_speaker.Base.{
  ℕ, suc, ◌≡◌, refl, sym, ap, ◌∙◌, true, some, List, [], ◌∷◌, ◌++◌, ltb, arith, Bool-cases, u16_mod,
  ◌%◌, inl, inr,
}
use mathlib.Core.Option.{some-injective}
use the_multi_room_speaker.Base.Int.{ℤ, pos, pos_part}
use the_multi_room_speaker.Sock.Calls.{pause, Os, Net, is_open, call, cli_destroy}
use the_multi_room_speaker.Sock.Held.{Owns, Same-Owns, cli_destroy-Owns, call-Same}
use the_multi_room_speaker.Sock.Outcome.{Settled, s4connect-Settled}
use the_multi_room_speaker.Sock.Answered.{Answers, s4connect_answered}
use the_multi_room_speaker.Wire.{spk_srv_port}
use the_multi_room_speaker.Client.Link.{Servers, dial_each}

Settled-is_open : (r : ℤ × Net) → Settled r → ltb 0 (pos_part r.0) ≡ true → is_open r.1 ≡ true
Settled-is_open r (inl (e, shut)) up = ground (arith, e, up)
Settled-is_open r (inr (e, done)) up = ap (λ (z : ℤ). ltb 0 (pos_part z)) (sym e) ∙ up

positive_lem : (z : ℤ) (fd : ℕ) → z ≡ pos (suc fd) → ltb 0 (pos_part z) ≡ true
positive_lem z fd e = ground (arith, e)

paused-Owns : (o : Os) (n : Net) → Owns n → Owns (call o (pause 1000000) n)
paused-Owns o n own = Same-Owns (call-Same o (pause 1000000) n refl) own

-- With standard input open, so that no new descriptor is 0, if the operating system makes sockets,
-- and a server of the list answers every connect at once, a client whose socket has no other
-- descriptor open than the one it holds, and that dials the list, ends up with an open socket,
-- whatever becomes of the servers before it.
pub dial_each-reaches :
    (o : Os) (fd : ℕ) (before after : Servers) (sip : List ℕ) (ip : ℕ) (n : Net)
    → Answers o fd (record { ip = ip; port = spk_srv_port % u16_mod })
    → Owns n
    → (n' : Net) × (dial_each o (before ++ ((sip, some ip) ∷ after)) n ≡ some n')
      × (is_open n' ≡ true)
unfolding dial_each
dial_each-reaches o fd [] after sip ip n ans own =
    let ready = paused-Owns o n own in
    let (r, e, settled, held) =
      s4connect-Settled o sip (some ip) spk_srv_port (call o (pause 1000000) n) ready in
    let (r', e', fresh) =
      s4connect_answered o fd sip ip spk_srv_port (call o (pause 1000000) n) ans ready in
    let up =
      positive_lem r.0 fd (ap (λ (r : ℤ × Net). r.0) (some-injective r r' (sym e ∙ e')) ∙ fresh) in
    rw (e, up, dial_each) (r.1, refl, Settled-is_open r settled up)
dial_each-reaches o fd ((sip', ip') ∷ before) after sip ip n ans own =
    let ready = paused-Owns o n own in
    let (r, e, settled, held) =
      s4connect-Settled o sip' ip' spk_srv_port (call o (pause 1000000) n) ready in
    elim (Bool-cases (ltb 0 (pos_part r.0))) [
      | inl up ↦ rw (e, up, dial_each) (r.1, refl, Settled-is_open r settled up)
      | inr down ↦
          rw (e, down, dial_each)
            (dial_each-reaches o fd before after sip ip (cli_destroy o true r.1).1 ans
              (cli_destroy-Owns o true r.1 held))
    ]
