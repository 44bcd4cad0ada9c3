-- ===== src/Server/Reconnect.antt =====
-- A pilot that connects anew while its old connection is still kept.
use the_multi_room_speaker.Base.{
  ℕ, suc, ◌+◌, ◌<◌, ◌≡◌, ◌≢◌, refl, ◌∙◌, [], ◌∷◌, ◌==◌, if◌then◌else◌, length, arith,
}
use the_multi_room_speaker.Wire.{BufHdr}
use the_multi_room_speaker.Server.{
  Clictx, Pilot, no_pilot, Clients, TcpSrv, assign, new_client, accept, rec, Round, receive_each,
}
use the_multi_room_speaker.Server.Pilots.{pilots, Ascending, IsValid, pilots-receive_each}

-- How many clients of other addresses have the pilot's index.
unfoldable pub pilots_elsewhere : ℕ → Clients → ℕ
pilots_elsewhere ip [] = 0
pilots_elsewhere ip ((j, c) ∷ m) =
    (if ip == j then 0 else if c.index == 0 then 1 else 0) + pilots_elsewhere ip m

elsewhere_above :
    (ip b : ℕ) (m : Clients) → ip < b → Ascending b m → pilots_elsewhere ip m ≡ pilots m
unfolding pilots pilots_elsewhere
elsewhere_above ip b [] h a = refl
elsewhere_above ip b ((j, c) ∷ m) h a =
    ground (arith, elsewhere_above ip (suc j) m (omega arith) a.1)

pilots-assign :
    (b ip : ℕ) (c : Clictx) (m : Clients)
    → Ascending b m
    → c.index ≢ 0
    → pilots (assign ip c m) ≡ pilots_elsewhere ip m
unfolding pilots assign pilots_elsewhere
pilots-assign b ip c [] a ne = ground arith
pilots-assign b ip c ((j, d) ∷ m) a ne = ground (
  arith,
  pilots-assign (suc j) ip c m a.1 ne,
  λ (h : ip < suc j). elsewhere_above ip (suc j) m h a.1,
)

-- Only a client of index 0 changes what the server keeps of the pilot.
pilot-rec :
    (rt now : ℕ) (req : BufHdr) (c : Clictx) (p : Pilot) → c.index ≢ 0 → (rec rt now req c p).1 ≡ p
unfolding rec
pilot-rec rt now req c p ne = ground arith

pilot-receive_each :
    (r : Round) (m : Clients) (p : Pilot) → pilots m ≡ 0 → (receive_each r m p).1 ≡ p
unfolding pilots receive_each
pilot-receive_each r [] p h = refl
pilot-receive_each r ((ip, c) ∷ m) p h = rw same (pilot-receive_each r m p (omega arith))
  where
    led : c.index ≢ 0
    led = ground arith

    same :
        (if r.ready c.sock then (rec (r.received ip).0 (r.now ip) (r.received ip).1 c p).1 else p)
        ≡ p
    same = ground (arith, pilot-rec (r.received ip).0 (r.now ip) (r.received ip).1 c p led)

-- When an address connects anew while some connection is kept (its own old one, if it has one) and no
-- other address has the pilot's index, the new client is counted behind and gets an index above 0: once it is
-- accepted and the reports of that round are taken, no client has the pilot's index, and the reports
-- have not changed the zeros that the server keeps of the pilot. What _clean does at the round's end, if a
-- connection was closed, is not part of this.
pub reconnect_pilotless :
    (fd ip : ℕ) (r : Round) (s : TcpSrv)
    → IsValid s
    → s.clis ≢ []
    → pilots_elsewhere ip s.clis ≡ 0
    → let s' = accept fd ip s in
      (pilots (receive_each r s'.clis s'.pilot).0 ≡ 0)
      × ((receive_each r s'.clis s'.pilot).1 ≡ no_pilot)
unfolding accept new_client
reconnect_pilotless fd ip r s v some_clients alone = (
  pilots-receive_each r (assign ip new s.clis) no_pilot ∙ none_left,
  pilot-receive_each r (assign ip new s.clis) no_pilot none_left,
)
  where
    new : Clictx
    new = new_client fd (length s.clis)

    some_index : (m : Clients) → m ≢ [] → length m ≢ 0
    some_index [] ne = absurd (ne refl)
    some_index (x ∷ m) ne = omega arith

    none_left : pilots (assign ip (new_client fd (length s.clis)) s.clis) ≡ 0
    none_left =
        pilots-assign 0 ip (new_client fd (length s.clis)) s.clis v.ordered
          (some_index s.clis some_clients)
        ∙ alone
