-- ===== src/Server/Owned.antt =====
-- The descriptors that the server and its clients hold: each that is open belongs to one socket.
use the_multi_room_speaker.Base.{
  ℕ, suc, ◌+◌, ◌≤◌, ◌≡◌, refl, sym, ap, ◌∙◌, subst, Bool, true, Option, none, some, List, [], ◌∷◌,
  ◌==◌, if◌then◌else◌, arith,
}
use the_multi_room_speaker.Base.Int.{ℤ, pos}
use the_multi_room_speaker.Sock.Calls.{accept_from, Log, Os, Net, cli_destroy, srv_destroy}
use the_multi_room_speaker.Sock.Held.{owned, held}
use the_multi_room_speaker.Sock.Counted.{
  count, none_counted, count-owned, sock_destroy-Closes, cli_destroy-Closes, cli_destroy-shut,
  srv_destroy-Closes,
}
use the_multi_room_speaker.Server.{assign}
use the_multi_room_speaker.Server.Hosting.{
  Peers, Host, after, delete, find, replaced, lose_from, lose, sweep_from, sweep, delete_each, shut,
}

-- How often the clients hold a descriptor.
unfoldable pub holds : ℕ → Peers → ℕ
holds x [] = 0
holds x ((j, n) ∷ m) = count x (owned n.thesock) + holds x m

-- Each descriptor that is open is held by the server or by one client, and what they hold is open.
pub record Sound (h : Host) : Type 0 where
  pub held_once : (x : ℕ) → count x (held h.log) ≤ 1
  pub belongs : (x : ℕ) → count x (held h.log) ≡ count x (owned h.srv.thesock) + holds x h.clis

-- accept returns no descriptor that is still open.
unfoldable pub IsNew : Os → Type 0
IsNew o =
    (l : Log) (f : ℤ) (k : ℕ)
    → (o.ask l (accept_from f)).ret ≡ pos (suc k)
    → count (suc k) (held l) ≡ 0

-- What is left of the open descriptors, where those of a socket are closed.
abbrev pub less : ℕ → ℤ → Log → ℕ
less x z l = if count x (owned z) == 0 then count x (held l) else 0

closed_again :
    (o : Os) (emptyit : Bool) (n n' : Net) (x : ℕ)
    → n' ≡ (cli_destroy o emptyit n).1
    → less x n'.thesock n'.log ≡ less x n.thesock n.log
unfolding count
closed_again o emptyit n n' x e =
    subst (λ (m : Net). less x m.thesock m.log ≡ less x n.thesock n.log) (sym e)
      (ap
          (λ (ys : List ℕ).
            if count x ys == 0 then count x (held (cli_destroy o emptyit n).1.log) else 0)
          (cli_destroy-shut o emptyit n)
        ∙ cli_destroy-Closes o emptyit n x)

pub delete_lem :
    (o : Os) (n : Net) (x : ℕ) → count x (held (delete o n).log) ≡ less x n.thesock n.log
unfolding delete
delete_lem o n x =
    let n' = (cli_destroy o true n).1 in
    sock_destroy-Closes o n' x ∙ closed_again o true n n' x refl

gone_count : (o : Os) (n : Net) (x : ℕ) → count x (owned (cli_destroy o true n).1.thesock) ≡ 0
unfolding count
gone_count o n x = ap (count x) (cli_destroy-shut o true n)

-- What the map has found holds.
abbrev pub found : ℕ → Option Net → ℕ
found x none = 0
found x (some n) = count x (owned n.thesock)

pub replaced_lem :
    (o : Os) (l : Log) (was : Option Net) (x : ℕ)
    → count x (held (replaced o l was)) ≡ (if found x was == 0 then count x (held l) else 0)
unfolding replaced
replaced_lem o l none x = refl
replaced_lem o l (some old) x =
    let gone = (cli_destroy o true (after l old)).1 in
    delete_lem o gone x ∙ closed_again o true (after l old) gone x refl

pub found-le : (x ip : ℕ) (m : Peers) → found x (find ip m) ≤ holds x m
unfolding find holds
found-le x ip [] = omega arith
found-le x ip ((j, n) ∷ m) = ground (arith, found-le x ip m)

pub holds-assign :
    (x ip : ℕ) (n : Net) (m : Peers)
    → holds x (assign ip n m) + found x (find ip m) ≡ count x (owned n.thesock) + holds x m
unfolding assign find holds
holds-assign x ip n [] = omega arith
holds-assign x ip n ((j, d) ∷ m) = ground (arith, holds-assign x ip n m)

lose_from_lem :
    (o : Os) (ip : ℕ) (l : Log) (m : Peers) (x : ℕ)
    → count x (held l) ≤ 1
    → holds x m ≤ count x (held l)
    → (count x (held (lose_from o ip l m).0) + holds x m
        ≡ count x (held l) + holds x (lose_from o ip l m).1)
      × (count x (held (lose_from o ip l m).0) ≤ 1)
unfolding lose_from holds
lose_from_lem o ip l [] x le has = (refl, le)
lose_from_lem o ip l ((j, n) ∷ m) x le has =
    let closes = cli_destroy-Closes o true (after l n) x in
    let gone = gone_count o (after l n) x in
    ground (arith, closes, gone, lose_from_lem o ip l m x le)

sweep_from_lem :
    (o : Os) (l : Log) (m : Peers) (x : ℕ)
    → (count x (held (sweep_from o l m).0) ≡ count x (held l))
      × (holds x (sweep_from o l m).1 ≡ holds x m)
unfolding sweep_from holds
sweep_from_lem o l [] x = (refl, refl)
sweep_from_lem o l ((j, n) ∷ m) x =
    let closes = delete_lem o (after l n) x in
    let owns = count-owned x n.thesock in
    ground
      (arith, closes, owns, sweep_from_lem o l m x, sweep_from_lem o (delete o (after l n)).log m x)

delete_each_lem :
    (o : Os) (l : Log) (m : Peers) (x : ℕ)
    → count x (held l) ≤ 1
    → count x (held l) ≡ holds x m
    → count x (held (delete_each o l m)) ≡ 0
unfolding delete_each holds
delete_each_lem o l [] x le e = e
delete_each_lem o l ((j, n) ∷ m) x le e =
    let closes = delete_lem o (after l n) x in
    delete_each_lem o (delete o (after l n)).log m x (ground (arith, closes))
      (ground (arith, closes))

pub lose-Sound : (o : Os) (ip : ℕ) (h : Host) → Sound h → Sound (lose o ip h)
unfolding lose
lose-Sound o ip h s = record {
  held_once = λ x.
      let s1 = s.held_once x in
      let s2 = s.belongs x in (lose_from_lem o ip h.log h.clis x s1 (omega arith)).1;
  belongs = λ x.
      let s1 = s.held_once x in
      let s2 = s.belongs x in
      let e = (lose_from_lem o ip h.log h.clis x s1 (omega arith)).0 in omega arith;
}

pub sweep-Sound : (o : Os) (h : Host) → Sound h → Sound (sweep o h)
unfolding sweep
sweep-Sound o h s = record {
  held_once =
      λ x. let s1 = s.held_once x in let (e, f) = sweep_from_lem o h.log h.clis x in omega arith;
  belongs =
      λ x. let s2 = s.belongs x in let (e, f) = sweep_from_lem o h.log h.clis x in omega arith;
}

-- After destroy nothing that the server or its clients have opened is open.
pub shut-held : (o : Os) (be : Bool) (h : Host) → Sound h → held (shut o be h).1 ≡ []
unfolding shut
shut-held o be h s = none_counted _ λ x.
    let s1 = s.held_once x in
    let s2 = s.belongs x in
    let closes = srv_destroy-Closes o be (after h.log h.srv) x in
    delete_each_lem o (srv_destroy o be (after h.log h.srv)).1.log h.clis x (ground (arith, closes))
      (ground (arith, closes))
