-- ===== src/Tests/Speakers.antt =====
-- The server's clients (srv/tcpsrv.cpp) at concrete inputs.
use the_multi_room_speaker.Base.{ℕ, ◌≡◌, ◌≢◌, refl, ap, true, false, some, [], ◌∷◌, arith, length}
use the_multi_room_speaker.Base.Int.{pos}
use the_multi_room_speaker.Wire.{BufHdr, zero_hdr, sync_data}
use the_multi_room_speaker.Server.{
  Clictx, no_pilot, TcpSrv, Round, accept, receive_each, clean, any_closed, pool,
}
use the_multi_room_speaker.Server.Pilots.{pilots, IsValid, pool-IsValid, LeastLeads, clean_pilot}
use the_multi_room_speaker.Server.Reconnect.{pilots_elsewhere, reconnect_pilotless}

abbrev speaker : ℕ → ℕ → Clictx
speaker fd index = record {
  sock = some fd;
  dirty = false;
  req = record zero_hdr { cli_qlen = fd };
  index = index;
}

-- The speaker at address 30 was there first and is the pilot.
abbrev two : TcpSrv
two = record {
  clis = (20, speaker 6 1) ∷ (30, speaker 5 0) ∷ [];
  dirty = true;
  newclient = false;
  last_qos = 0;
  pilot = record no_pilot { seq = 9; qsz = 173; qlen = 80 };
}

two-IsValid : IsValid two
unfolding pilots
two-IsValid = omega arith

-- The speaker of address 10 connects, and the one of address 20 sends a request.
abbrev joins : Round
joins = record {
  selected = pos 2;
  errno = 0;
  connects = true;
  accepted = some (7, 10);
  ready = λ fd. true;
  received = λ ip. (48, record zero_hdr { frm_sig = sync_data; cur_seq = ip });
  now = λ ip. 1000;
}

pool-IsValid_example : IsValid (pool joins two).0
pool-IsValid_example = pool-IsValid joins two two-IsValid

-- The role moves to the speaker of the least address.
clean_pilot_example : LeastLeads (clean two).clis × (any_closed (clean two).clis ≡ false)
clean_pilot_example = clean_pilot two two-IsValid

-- The pilot connects anew.
reconnect_pilotless_example :
    let s' = accept 8 30 two in
    (pilots (receive_each joins s'.clis s'.pilot).0 ≡ 0)
    × ((receive_each joins s'.clis s'.pilot).1 ≡ no_pilot)
unfolding pilots_elsewhere
reconnect_pilotless_example = reconnect_pilotless 8 30 joins two two-IsValid some_clients refl
  where
    some_clients : two.clis ≢ []
    some_clients e = absurd (omega (arith, ap length e))

abbrev chunk_hdr : BufHdr
chunk_hdr = record zero_hdr { cur_seq = 12; buf_len = pos 4096 }
