-- ===== src/Discovery/Answering.antt =====
-- The server's thread for discovery leaves no socket open.
use the_multi_room_speaker.Base.{
  ℕ, ◌≡◌, refl, List, [], ◌∷◌, ◌++◌, ◌==◌, ◌%◌, Bool-cases, inl, inr, u16_mod,
}
use the_multi_room_speaker.Sock.Calls.{Os}
use the_multi_room_speaker.Sock.Held.{held}
use the_multi_room_speaker.Discovery.Life.{Udper}
use the_multi_room_speaker.Discovery.Closed.{Keeps, destroy_lem, ready_server-Keeps}
use the_multi_room_speaker.Discovery.Beacon.{
  Beacon, starting, delete_all, make_all, re_interface, respond_each, beacon_round, beacon_rounds,
  beacon,
}

abbrev pub AllKeep : List Udper → Type 0
AllKeep [] = Unit {0}
AllKeep (u ∷ us) = Keeps u × AllKeep us

-- Nothing that they opened is open.
abbrev pub AllClosed : List Udper → Type 0
AllClosed [] = Unit {0}
AllClosed (u ∷ us) = (held u.log ≡ []) × AllClosed us

append-AllClosed : (us vs : List Udper) → AllClosed us → AllClosed vs → AllClosed (us ++ vs)
append-AllClosed [] vs a b = b
append-AllClosed (u ∷ us) vs (h, a) b = (h, append-AllClosed us vs a b)

delete_all-AllClosed : (o : Os) (us : List Udper) → AllKeep us → AllClosed (delete_all o us)
unfolding delete_all
delete_all-AllClosed o [] k = tt
delete_all-AllClosed o (u ∷ us) (k, ks) = ((destroy_lem o u k).0, delete_all-AllClosed o us ks)

make_all-AllKeep : (ifs : List (List ℕ)) → AllKeep (make_all ifs)
unfolding make_all held
make_all-AllKeep [] = tt
make_all-AllKeep (x ∷ ifs) = (inl refl, make_all-AllKeep ifs)

respond_each-AllKeep : (o : Os) (us : List Udper) → AllKeep us → AllKeep (respond_each o us)
unfolding respond_each
respond_each-AllKeep o [] k = tt
respond_each-AllKeep o (u ∷ us) (k, ks) = (ready_server-Keeps o u k, respond_each-AllKeep o us ks)

record Tidy (b : Beacon) : Type 0 where
  in_use : AllKeep b.udps
  gone : AllClosed b.deleted

re_interface-Tidy :
    (o : Os) (mtime : ℕ) (ifs : List (List ℕ)) (b : Beacon)
    → Tidy b
    → Tidy (re_interface o mtime ifs b)
unfolding re_interface
re_interface-Tidy o mtime ifs b t = elim (Bool-cases (mtime == b.prev)) [
  | inl same ↦ rw (same, re_interface) t
  | inr new ↦
      rw (new, re_interface)
        (record {
          in_use = make_all-AllKeep ifs;
          gone =
              append-AllClosed (delete_all o b.udps) b.deleted
                (delete_all-AllClosed o b.udps t.in_use) t.gone;
        })
]

beacon_round-Tidy :
    (o : Os) (mtime : ℕ) (ifs : List (List ℕ)) (b : Beacon)
    → Tidy b
    → Tidy (beacon_round o mtime ifs b)
unfolding beacon_round
beacon_round-Tidy o mtime ifs b t = elim (Bool-cases (b.hmin % u16_mod == 65535)) [
  | inl due ↦
      let t' = re_interface-Tidy o mtime ifs b t in
      rw (due, beacon_round)
        (record {
          in_use = respond_each-AllKeep o (re_interface o mtime ifs b).udps t'.in_use;
          gone = t'.gone;
        })
  | inr early ↦
      rw (early, beacon_round)
        (record { in_use = respond_each-AllKeep o b.udps t.in_use; gone = t.gone })
]

beacon_rounds-Tidy :
    (o : Os) (rounds : List (ℕ × List (List ℕ))) (b : Beacon)
    → Tidy b
    → Tidy (beacon_rounds o rounds b)
unfolding beacon_rounds
beacon_rounds-Tidy o [] b t = t
beacon_rounds-Tidy o ((mtime, ifs) ∷ rounds) b t =
    beacon_rounds-Tidy o rounds (beacon_round o mtime ifs b) (beacon_round-Tidy o mtime ifs b t)

-- Where standard input is open, so that no new descriptor is 0, and close releases its descriptor
-- also where it fails: however often the interfaces change while the server's thread answers
-- speakers, and whatever else the operating system answers: when the thread has ended, no socket of
-- any Udper that it ever made is open.
pub beacon-AllClosed : (o : Os) (rounds : List (ℕ × List (List ℕ))) → AllClosed (beacon o rounds)
unfolding beacon
beacon-AllClosed o rounds =
    let t = beacon_rounds-Tidy o rounds starting (record { in_use = tt; gone = tt }) in
    let b = beacon_rounds o rounds starting in
    append-AllClosed (delete_all o b.udps) b.deleted (delete_all-AllClosed o b.udps t.in_use) t.gone
