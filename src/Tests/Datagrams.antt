-- ===== src/Tests/Datagrams.antt =====
-- Sockets for datagrams at concrete inputs.
use the_multi_room_speaker.Base.{
  ℕ, arith, suc, ◌≡◌, refl, true, false, none, some, List, [], ◌∷◌, length, ◌==◌, if◌then◌else◌,
}
use the_multi_room_speaker.Base.Int.{pos, negsuc}
use the_multi_room_speaker.Sock.Calls.{
  is_zero, call, sock_destroy, close_loop, socket_dgram, set_ip_opt, Call, Log, Answer, Os,
  socket_stream, accept_from,
}
use the_multi_room_speaker.Sock.Held.{Owns, held}
use the_multi_room_speaker.Sock.Udp.{tried, udp_destroy, udp_send}
use the_multi_room_speaker.Sock.Group.{
  new_group, group_destroy, gcreate, gcreated, join_group, joined, new_dgram, failed, leave, drop,
  group_send,
}
use the_multi_room_speaker.Sock.Datagrams.{sends, udp_perform}
use the_multi_room_speaker.Sock.Grouped.{
  GroupOp, gcreates, joins, drops, destroys, group_sends, plain, group_run, asks_closed,
  group_perform, group_run-Owns,
}

-- Each socket has the number of the calls before it, and one more; the time to live cannot be set.
abbrev answer : Log → Call → Answer
answer l (socket_dgram proto) = record { ret = pos (suc (length l)); errno = 0; is_set = false }
answer l socket_stream = record { ret = pos 3; errno = 0; is_set = false }
answer l (accept_from f) = record { ret = pos 3; errno = 0; is_set = false }
answer l (set_ip_opt fd opt v) = record {
  ret = if opt == 33 then negsuc 0 else pos 0;
  errno = 95;
  is_set = false;
}
answer l c = record { ret = pos 0; errno = 0; is_set = true }

new_fd : (x : ℕ) → is_zero (pos (suc x)) ≡ false
new_fd x = ground arith

abbrev os : Os
os = record {
  ask = answer;
  backlog = λ l. 0;
  patience = λ l. 2;
  stream_spares = λ l. refl;
  dgram_spares = λ l p. new_fd (length l);
  accept_spares = λ l f. refl;
}

-- The first gcreate closes its socket again, join makes another.
abbrev ops : List GroupOp
ops =
    gcreates 7 5000
    ∷ joins 7 5000
    ∷ group_sends 100 0 none
    ∷ plain (sends 50 5001 (some 9))
    ∷ drops
    ∷ destroys
    ∷ joins 8 5000
    ∷ []

closed : asks_closed os ops new_group ≡ true
unfolding asks_closed group_perform gcreate gcreated join_group joined new_dgram failed tried call
    group_destroy leave drop udp_destroy sock_destroy close_loop group_send udp_perform udp_send
closed = refl

new_group-Owns : Owns new_group.udp.net
unfolding held
new_group-Owns = refl

group_run-Owns_example :
    let g = group_run os ops new_group in
    Owns g.udp.net × (held (group_destroy os g).udp.net.log ≡ [])
group_run-Owns_example = group_run-Owns os ops new_group closed new_group-Owns
