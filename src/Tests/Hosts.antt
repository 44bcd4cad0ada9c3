-- ===== src/Tests/Hosts.antt =====
-- A server whose client connects twice, is lost and is cleaned away.
use the_multi_room_speaker.Base.{
  false, ℕ, suc, ◌+◌, ◌<◌, ◌≡◌, refl, ap, true, none, some, List, [], ◌∷◌, arith,
}
use the_multi_room_speaker.Base.Int.{ℤ, pos, pos_part}
use the_multi_room_speaker.Sock.Calls.{
  is_zero, Addr, Call, socket_stream, accept_from, Answer, Log, Os, Net, fresh, call, socket_dgram,
}
use the_multi_room_speaker.Sock.Held.{held}
use the_multi_room_speaker.Sock.Counted.{count}
use the_multi_room_speaker.Sock.Create.{open_stream, set_flag, tcp_listen, srv_create}
use the_multi_room_speaker.Server.Listen.{listen_once, go_on, listen_from, listen}
use the_multi_room_speaker.Server.Hosting.{opening, shut, Visit, connects, loses, cleans, hosting}
use the_multi_room_speaker.Server.Owned.{Sound, IsNew}
use the_multi_room_speaker.Server.Visited.{hosting_closes}

abbrev total : List ℕ → ℕ
total [] = 0
total (x ∷ xs) = x + total xs

above_total : (x : ℕ) (ys : List ℕ) → total ys < x → count x ys ≡ 0
unfolding count
above_total x [] h = refl
above_total x (y ∷ ys) h = ground (arith, above_total x ys (omega arith))

abbrev answer : ℤ → Answer
answer z = record { ret = z; errno = 0; is_set = true }

abbrev ask : Log → Call → Answer
ask l socket_stream = answer (pos 3)
ask l (socket_dgram p) = answer (pos 3)
ask l (accept_from f) = answer (pos (suc (total (held l))))
ask l c = answer (pos 0)

new_fd : (x : ℕ) → is_zero (pos (suc x)) ≡ false
new_fd x = ground arith

abbrev os : Os
os = record {
  ask = ask;
  backlog = λ l. 1;
  patience = λ l. 0;
  stream_spares = λ l. refl;
  dgram_spares = λ l p. refl;
  accept_spares = λ l f. new_fd (total (held l));
}

os-IsNew : IsNew os
unfolding IsNew
os-IsNew l f k e =
    let same : suc (total (held l)) ≡ suc k = ap pos_part e in
    above_total (suc k) (held l) (omega arith)

abbrev listening : Net
listening = elim (listen os (λ k. true) fresh) [ none ↦ fresh | some r ↦ r.1 ]

os_listens : listen os (λ k. true) fresh ≡ some (true, listening)
unfolding listen listen_from go_on listen_once srv_create open_stream call set_flag tcp_listen
os_listens = refl

abbrev peer : Addr
peer = record { ip = 167772161; port = 40000 }

abbrev visits : List Visit
visits = connects peer ∷ connects peer ∷ loses 167772161 ∷ cleans ∷ connects peer ∷ []

hosting_closes_example :
    let h = hosting os visits (opening listening) in Sound h × (held (shut os true h).1 ≡ [])
hosting_closes_example = hosting_closes os (λ k. true) listening visits true os-IsNew os_listens
