-- ===== src/Server/Visited.antt =====
-- srv/tcpsrv.cpp: connections that come, are lost and are cleaned away, and the end of the server.
use the_multi_room_speaker.Base.{
  ℕ, zero, suc, ◌+◌, ◌≤◌, ◌≡◌, ◌≢◌, refl, sym, ap, ◌∙◌, subst, Bool, true, false, some, List, [],
  ◌∷◌, ◌++◌, ltb, ◌==◌, if◌then◌else◌, arith, Bool-cases, inl, inr,
}
use mathlib.Core.Option.{some-injective}
use the_multi_room_speaker.Base.Int.{ℤ, pos, negsuc, pos_part}
use the_multi_room_speaker.Wire.{tcp_mtu}
use the_multi_room_speaker.Sock.Calls.{
  Addr, accept_from, Log, Os, Net, fresh, call, set_blocking, set_mtu,
}
use the_multi_room_speaker.Sock.Create.{srv_accept}
use the_multi_room_speaker.Sock.Held.{
  opened-owned, owned, held, Owns, Same-trans, set_blocking-Same, set_mtu-Same, set_buffers-Same,
}
use the_multi_room_speaker.Sock.Counted.{count, count-append, count-owned}
use the_multi_room_speaker.Server.{assign}
use the_multi_room_speaker.Server.Listen.{listen}
use the_multi_room_speaker.Server.Listening.{listen-Tells}
use the_multi_room_speaker.Server.Hosting.{
  Host, opening, after, delete, find, replaced, welcome, shut, Visit, connects, loses, cleans,
  visit, hosting,
}
use the_multi_room_speaker.Server.Owned.{
  holds, Sound, IsNew, delete_lem, found, replaced_lem, found-le, holds-assign, lose-Sound,
  sweep-Sound, shut-held,
}

-- What accept returns.
abbrev accepted : Os → Net → ℤ
accepted o srv = (o.ask srv.log (accept_from srv.thesock)).ret

srv_accept_lem :
    (o : Os) (peer : Addr) (srv : Net)
    → (held (srv_accept o peer srv fresh).1.log ≡ owned (accepted o srv) ++ held srv.log)
      × ((srv_accept o peer srv fresh).1.thesock ≡ srv.thesock)
unfolding srv_accept call held
srv_accept_lem o peer srv =
    let a = o.ask srv.log (accept_from srv.thesock) in
    let heard = record (call o (accept_from srv.thesock) srv) {
      error = if ltb 0 (pos_part a.ret) then 0 else a.errno;
    } in
    let s = set_buffers-Same o heard in
    (
      s.still_open
          ∙ ap (λ (xs : List ℕ). xs ++ held srv.log)
              (opened-owned a.ret (o.accept_spares srv.log srv.thesock)),
      s.still_held,
    )

-- A descriptor that is new is not open.
accepted_lem :
    (o : Os) (srv : Net) (x : ℕ)
    → IsNew o
    → count x (owned (accepted o srv)) ≢ 0
    → (count x (owned (accepted o srv)) ≡ 1) × (count x (held srv.log) ≡ 0)
unfolding IsNew
accepted_lem o srv x new = go (accepted o srv) refl
  where
    go :
        (r : ℤ)
        → accepted o srv ≡ r
        → count x (owned r) ≢ 0
        → (count x (owned r) ≡ 1) × (count x (held srv.log) ≡ 0)
    go (pos zero) e ne = absurd (ground (arith, count-owned x (pos zero)))
    go (negsuc k) e ne = absurd (ground (arith, count-owned x (negsuc k)))
    go (pos (suc k)) e ne = ground (arith, count-owned x (pos (suc k)), new srv.log srv.thesock k e)

-- What the server has heard, where accept returned `r`.
record Heard (h : Host) (r : ℤ) (heard : Net) : Type 0 where
  opens : held heard.log ≡ owned r ++ held h.log
  stays : heard.thesock ≡ h.srv.thesock
  news : (x : ℕ) → count x (owned r) ≢ 0 → (count x (owned r) ≡ 1) × (count x (held h.log) ≡ 0)

accept_adds :
    (h : Host) (r : ℤ) (heard : Net) (x : ℕ)
    → Heard h r heard
    → count x (held heard.log) ≡ count x (owned r) + count x (held h.log)
accept_adds h r heard x e = ap (count x) e.opens ∙ count-append x (owned r) (held h.log)

joined-Sound :
    (o : Os) (ip : ℕ) (h : Host) (r : ℤ) (heard made : Net)
    → Heard h r heard
    → held made.log ≡ held heard.log
    → made.thesock ≡ r
    → Sound h
    → Sound record {
      srv = heard;
      clis = assign ip made h.clis;
      log = replaced o made.log (find ip h.clis);
    }
joined-Sound o ip h r heard made e kept fd s = record {
  held_once = λ x. ground (arith, old x, opened x, left x, e.news x);
  belongs = λ x. ground (
    arith,
    old x,
    opened x,
    left x,
    leq x,
    e.news x,
    holds-assign x ip made h.clis,
    own x,
    server x,
  );
}
  where
    old :
        (x : ℕ)
        → (count x (held h.log) ≤ 1)
          × (count x (held h.log) ≡ count x (owned h.srv.thesock) + holds x h.clis)
    old x = (s.held_once x, s.belongs x)

    opened : (x : ℕ) → count x (held made.log) ≡ count x (owned r) + count x (held h.log)
    opened x = ap (count x) kept ∙ accept_adds h r heard x e

    left :
        (x : ℕ)
        → count x (held (replaced o made.log (find ip h.clis)))
          ≡ (if found x (find ip h.clis) == 0 then count x (held made.log) else 0)
    left x = replaced_lem o made.log (find ip h.clis) x

    leq : (x : ℕ) → found x (find ip h.clis) ≤ holds x h.clis
    leq x = found-le x ip h.clis

    own : (x : ℕ) → count x (owned made.thesock) ≡ count x (owned r)
    own x = ap (λ (z : ℤ). count x (owned z)) fd

    server : (x : ℕ) → count x (owned heard.thesock) ≡ count x (owned h.srv.thesock)
    server x = ap (λ (z : ℤ). count x (owned z)) e.stays

refused-Sound :
    (o : Os) (h : Host) (r : ℤ) (heard cs : Net)
    → Heard h r heard
    → cs.log ≡ heard.log
    → cs.thesock ≡ r
    → ltb 0 (pos_part r) ≡ false
    → Sound h
    → Sound (record h { srv = heard; log = (delete o cs).log })
refused-Sound o h r heard cs e kept fd bad s = record {
  held_once = λ x. let now = same x in let once = s.held_once x in omega arith;
  belongs = λ x.
      let now = same x in
      let was = s.belongs x in
      let server = ap (λ (z : ℤ). count x (owned z)) e.stays in omega arith;
}
  where
    same : (x : ℕ) → count x (held (delete o cs).log) ≡ count x (held h.log)
    same x =
        let none_new : count x (owned r) ≡ 0 = ground (arith, count-owned x r, bad) in
        let own : count x (owned cs.thesock) ≡ 0 =
          ap (λ (z : ℤ). count x (owned z)) fd ∙ none_new in
        let log = ap (λ (l : Log). count x (held l)) kept in
        let opened = accept_adds h r heard x e in ground (arith, delete_lem o cs x)

welcome-Sound : (o : Os) (peer : Addr) (h : Host) → IsNew o → Sound h → Sound (welcome o peer h)
unfolding welcome
welcome-Sound o peer h new s = elim (Bool-cases (ltb 0 (pos_part r))) [
  | inl good ↦
      let sized = set_mtu-Same o tcp_mtu (set_blocking o 1 cs) in
      let slow = Same-trans (set_blocking-Same o 1 cs) sized in
      rw good (
        joined-Sound o peer.ip h r heard made is_heard (slow.still_open ∙ ap held same_log)
          (slow.still_held ∙ same_sock) s)
  | inr bad ↦ rw bad (refused-Sound o h r heard cs is_heard same_log same_sock bad s)
]
  where
    r : ℤ
    r = (srv_accept o peer (after h.log h.srv) fresh).0

    heard : Net
    heard = (srv_accept o peer (after h.log h.srv) fresh).1

    cs : Net
    cs = (srv_accept o peer (after h.log h.srv) fresh).2

    made : Net
    made = set_mtu o tcp_mtu (set_blocking o 1 cs)

    is_heard :
        Heard h
          (srv_accept o peer (after h.log h.srv) fresh).0
          (srv_accept o peer (after h.log h.srv) fresh).1
    is_heard =
        let (opens, stays) = srv_accept_lem o peer (after h.log h.srv) in
        unfold srv_accept in
        record {
          opens = opens;
          stays = stays;
          news = λ x. accepted_lem o (after h.log h.srv) x new;
        }

    same_log :
        (srv_accept o peer (after h.log h.srv) fresh).2.log
        ≡ (srv_accept o peer (after h.log h.srv) fresh).1.log
    same_log = unfold srv_accept in refl

    same_sock :
        (srv_accept o peer (after h.log h.srv) fresh).2.thesock
        ≡ (srv_accept o peer (after h.log h.srv) fresh).0
    same_sock = unfold srv_accept in refl

visit-Sound : (o : Os) (v : Visit) (h : Host) → IsNew o → Sound h → Sound (visit o v h)
unfolding visit
visit-Sound o (connects peer) h new s = welcome-Sound o peer h new s
visit-Sound o (loses ip) h new s = lose-Sound o ip h s
visit-Sound o cleans h new s = sweep-Sound o h s

pub hosting-Sound :
    (o : Os) (vs : List Visit) (h : Host) → IsNew o → Sound h → Sound (hosting o vs h)
unfolding hosting
hosting-Sound o [] h new s = s
hosting-Sound o (v ∷ vs) h new s = hosting-Sound o vs (visit o v h) new (visit-Sound o v h new s)

opening-Sound : (n : Net) → Owns n → Sound (opening n)
unfolding holds
opening-Sound n own = record {
  held_once = λ x. let e = ap (count x) own in ground (arith, e, count-owned x n.thesock);
  belongs = λ x. let e = ap (count x) own in omega arith;
}

fresh_owns : Owns fresh
unfolding held
fresh_owns = refl

-- A server whose listen() was true starts with its own descriptor open.
listened-Owns :
    (o : Os) (alive : ℕ → Bool) (n : Net) → listen o alive fresh ≡ some (true, n) → Owns n
listened-Owns o alive n e =
    let (r, made, tells, own) = listen-Tells o alive fresh refl fresh_owns in
    subst (λ (z : Bool × Net). Owns z.1) (some-injective r (true, n) (sym made ∙ e)) own

-- Where standard input is open, so that no new descriptor is 0, close releases its descriptor also
-- where it fails, and accept returns no descriptor that is still open, and whatever else the
-- operating system answers: after listen() was true for a fresh socket, whichever clients connect,
-- again from the same address too, are lost and are cleaned away, in whichever order, each open
-- descriptor is held by the server's socket or by one client's, by no two of them, and each that
-- they hold is open; and after destroy nothing that the server has opened is open.
pub hosting_closes :
    (o : Os) (alive : ℕ → Bool) (n : Net) (vs : List Visit) (be : Bool)
    → IsNew o
    → listen o alive fresh ≡ some (true, n)
    → let h = hosting o vs (opening n) in Sound h × (held (shut o be h).1 ≡ [])
hosting_closes o alive n vs be new e =
    let s = hosting-Sound o vs (opening n) new (opening-Sound n (listened-Owns o alive n e)) in
    (s, shut-held o be _ s)
