-- ===== src/Server/Pilots.antt =====
-- Which client is the pilot.
use the_multi_room_speaker.Base.{
  ℕ, suc, ◌+◌, ◌<◌, ◌≤◌, ◌≡◌, refl, ◌∙◌, Bool, true, false, Option, none, some, [], ◌∷◌, ◌==◌,
  if◌then◌else◌, length, arith, Bool-cases, inl, inr,
}
use the_multi_room_speaker.Base.Int.{neg_part}
use the_multi_room_speaker.Wire.{BufHdr}
use the_multi_room_speaker.Server.{
  Clictx, Pilot, Clients, TcpSrv, assign, new_client, accept, rec, Round, receive_each, is_open,
  erase_closed, reindex, clean, any_closed, admit, serve, mark, tidy, round, pool,
}

-- How many clients have the index 0, which is the pilot's.
unfoldable pub pilots : Clients → ℕ
pilots [] = 0
pilots ((ip, c) ∷ m) = (if c.index == 0 then 1 else 0) + pilots m

-- Every address lies above the bound, and above those before it.
abbrev pub Ascending : ℕ → Clients → Type 0
Ascending b [] = Unit {0}
Ascending b ((ip, c) ∷ m) = (b ≤ ip) × Ascending (suc ip) m

pub record IsValid (s : TcpSrv) : Type 0 where
  pub one_pilot : pilots s.clis ≤ 1
  pub ordered : Ascending 0 s.clis

pilots-assign-le :
    (ip : ℕ) (c : Clictx) (m : Clients)
    → pilots (assign ip c m) ≤ pilots m + (if c.index == 0 then 1 else 0)
unfolding pilots assign
pilots-assign-le ip c [] = ground arith
pilots-assign-le ip c ((j, d) ∷ m) = ground (arith, pilots-assign-le ip c m)

assign-Ascending :
    (b ip : ℕ) (c : Clictx) (m : Clients) → b ≤ ip → Ascending b m → Ascending b (assign ip c m)
unfolding assign
assign-Ascending b ip c [] h a = (h, tt)
assign-Ascending b ip c ((j, d) ∷ m) h a = ground (arith, assign-Ascending (suc j) ip c m)

pub index-rec :
    (rt now : ℕ) (req : BufHdr) (c : Clictx) (p : Pilot) → (rec rt now req c p).0.index ≡ c.index
unfolding rec
index-rec rt now req c p = ground arith

pub pilots-receive_each :
    (r : Round) (m : Clients) (p : Pilot) → pilots (receive_each r m p).0 ≡ pilots m
unfolding pilots receive_each
pilots-receive_each r [] p = refl
pilots-receive_each r ((ip, c) ∷ m) p =
    let got = rec (r.received ip).0 (r.now ip) (r.received ip).1 c p in
    ground (
      arith,
      index-rec (r.received ip).0 (r.now ip) (r.received ip).1 c p,
      pilots-receive_each r m (if r.ready c.sock then got.1 else p),
    )

receive_each-Ascending :
    (b : ℕ) (r : Round) (m : Clients) (p : Pilot)
    → Ascending b m
    → Ascending b (receive_each r m p).0
unfolding receive_each
receive_each-Ascending b r [] p a = a
receive_each-Ascending b r ((ip, c) ∷ m) p a = (a.0, receive_each-Ascending (suc ip) r m _ a.1)

Ascending-mono : (b b' : ℕ) (m : Clients) → b ≤ b' → Ascending b' m → Ascending b m
Ascending-mono b b' [] h a = tt
Ascending-mono b b' ((ip, c) ∷ m) h a = (omega arith, a.1)

erase_closed-Ascending : (b : ℕ) (m : Clients) → Ascending b m → Ascending b (erase_closed m)
unfolding erase_closed
erase_closed-Ascending b [] a = a
erase_closed-Ascending b ((ip, c) ∷ m) a = elim (Bool-cases (is_open c)) [
  | inl e ↦ rw (e, erase_closed) (a.0, erase_closed-Ascending (suc ip) m a.1)
  | inr e ↦
      rw (e, erase_closed)
        (Ascending-mono b (suc ip) (erase_closed m) (omega arith)
          (erase_closed-Ascending (suc ip) m a.1))
]

pilots-erase_closed-le : (m : Clients) → pilots (erase_closed m) ≤ pilots m
unfolding pilots erase_closed
pilots-erase_closed-le [] = omega arith
pilots-erase_closed-le ((ip, c) ∷ m) = ground (arith, pilots-erase_closed-le m)

reindex-Ascending : (b k : ℕ) (m : Clients) → Ascending b m → Ascending b (reindex k m)
unfolding reindex
reindex-Ascending b k [] a = a
reindex-Ascending b k ((ip, c) ∷ m) a = (a.0, reindex-Ascending (suc ip) (k + 1) m a.1)

pilots-reindex : (k : ℕ) (m : Clients) → 0 < k → pilots (reindex k m) ≡ 0
unfolding pilots reindex
pilots-reindex k [] h = refl
pilots-reindex k ((ip, c) ∷ m) h = ground (arith, pilots-reindex (k + 1) m)

pub accept-IsValid : (fd ip : ℕ) (s : TcpSrv) → IsValid s → IsValid (accept fd ip s)
unfolding accept
accept-IsValid fd ip s v = record {
  one_pilot = accepted-le s.clis v.one_pilot;
  ordered = assign-Ascending 0 ip (new_client fd (length s.clis)) s.clis (omega arith) v.ordered;
}
  where
    accepted-le : (m : Clients) → pilots m ≤ 1 → pilots (assign ip (new_client fd (length m)) m) ≤ 1
    accepted-le [] h =
        unfold new_client pilots in omega (arith, pilots-assign-le ip (new_client fd 0) [])
    accepted-le (x ∷ m) h =
        unfold new_client in
        ground (arith, pilots-assign-le ip (new_client fd (length (x ∷ m))) (x ∷ m))

pilots-reindex-le : (m : Clients) → pilots (reindex 0 m) ≤ 1
unfolding pilots reindex
pilots-reindex-le [] = omega arith
pilots-reindex-le ((ip, c) ∷ m) = ground (arith, pilots-reindex 1 m)

pub clean-IsValid : (s : TcpSrv) → IsValid s → IsValid (clean s)
unfolding clean
clean-IsValid s v = record {
  one_pilot = pilots-reindex-le (erase_closed s.clis);
  ordered = reindex-Ascending 0 0 (erase_closed s.clis) (erase_closed-Ascending 0 s.clis v.ordered);
}

if-IsValid : {s u : TcpSrv} (b : Bool) → IsValid s → IsValid u → IsValid (if b then s else u)
if-IsValid true v w = v
if-IsValid false v w = w

received-IsValid :
    (r : Round) (s : TcpSrv)
    → IsValid s
    → IsValid (record s {
      clis = (receive_each r s.clis s.pilot).0;
      pilot = (receive_each r s.clis s.pilot).1;
    })
received-IsValid r s v = record {
  one_pilot = omega (arith, pilots-receive_each r s.clis s.pilot, v.one_pilot);
  ordered = receive_each-Ascending 0 r s.clis s.pilot v.ordered;
}

admit-IsValid : (r : Round) (s : TcpSrv) → IsValid s → IsValid (admit r s)
unfolding admit
admit-IsValid r s v = if-IsValid r.connects (accepted-IsValid r.accepted) v
  where
    accepted-IsValid :
        (a : Option (ℕ × ℕ)) → IsValid (elim a [ none ↦ s | some (fd, ip) ↦ accept fd ip s ])
    accepted-IsValid none = v
    accepted-IsValid (some (fd, ip)) = accept-IsValid fd ip s v

serve-IsValid : (r : Round) (s : TcpSrv) → IsValid s → IsValid (serve r s)
unfolding serve
serve-IsValid r s v = received-IsValid r (admit r s) (admit-IsValid r s v)

mark-IsValid : (s : TcpSrv) → IsValid s → IsValid (mark s)
unfolding mark
mark-IsValid s v = record { one_pilot = v.one_pilot; ordered = v.ordered }

tidy-IsValid : (s : TcpSrv) → IsValid s → IsValid (tidy s)
unfolding tidy
tidy-IsValid s v = if-IsValid s.dirty (clean-IsValid s v) v

round-IsValid : (r : Round) (s : TcpSrv) → IsValid s → IsValid (round r s)
unfolding round
round-IsValid r s v =
    tidy-IsValid _ (if-IsValid _ (mark-IsValid s v) (serve-IsValid r (mark s) (mark-IsValid s v)))

-- Whatever a round of select finds, there are never two pilots, and the map stays in the order of the
-- addresses.
pub pool-IsValid : (r : Round) (s : TcpSrv) → IsValid s → IsValid (pool r s).0
unfolding pool
pool-IsValid r s v = elim (Bool-cases (neg_part r.selected == 1)) [
  | inl e ↦ rw (e, pool) (mark-IsValid s v)
  | inr e ↦ rw (e, pool) (round-IsValid r s v)
]

-- The client with the least address has the index 0, and no other has it.
abbrev pub LeastLeads : Clients → Type 0
LeastLeads [] = Unit {0}
LeastLeads ((ip, c) ∷ m) = (c.index ≡ 0) × (pilots m ≡ 0) × Ascending (suc ip) m

reindex-LeastLeads : (b : ℕ) (m : Clients) → Ascending b m → LeastLeads (reindex 0 m)
unfolding reindex
reindex-LeastLeads b [] a = tt
reindex-LeastLeads b ((ip, c) ∷ m) a =
    (refl, pilots-reindex 1 m (omega arith), reindex-Ascending (suc ip) 1 m a.1)

any_closed-erase : (m : Clients) → any_closed (erase_closed m) ≡ false
unfolding any_closed erase_closed
any_closed-erase [] = refl
any_closed-erase ((ip, c) ∷ m) = ground (arith, any_closed-erase m)

any_closed-reindex : (k : ℕ) (m : Clients) → any_closed (reindex k m) ≡ any_closed m
unfolding any_closed reindex
any_closed-reindex k [] = refl
any_closed-reindex k ((ip, c) ∷ m) = ground (arith, any_closed-reindex (k + 1) m)

-- After _clean every client that is left is connected, and the one with the least address, whenever it
-- connected, is the pilot, and no other.
pub clean_pilot :
    (s : TcpSrv) → IsValid s → LeastLeads (clean s).clis × (any_closed (clean s).clis ≡ false)
unfolding clean
clean_pilot s v = (
  reindex-LeastLeads 0 (erase_closed s.clis) (erase_closed-Ascending 0 s.clis v.ordered),
  any_closed-reindex 0 (erase_closed s.clis) ∙ any_closed-erase s.clis,
)
