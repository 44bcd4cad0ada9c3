-- ===== src/Tests/Serving.antt =====
-- The server's loop (srv/main.cpp) at a concrete input.
use the_multi_room_speaker.Base.{
  ℕ, ◌+◌, ◌-◌, ◌*◌, ◌/◌, ◌%◌, ◌≡◌, refl, true, false, none, some, [], ◌∷◌, ltb, u32_mod,
}
use the_multi_room_speaker.Base.Int.{pos}
use the_multi_room_speaker.Wire.{zero_hdr}
use the_multi_room_speaker.Server.{TcpSrv, no_pilot}
use the_multi_room_speaker.Pid.{Doubles}
use the_multi_room_speaker.Pace.{Gains, Env, Serving, serve_round}
use the_multi_room_speaker.Pace.Frames.{AllNumbered, IsNumbered, serve_round-numbers}

abbrev pub naturals : Doubles
naturals = record {
  carrier = ℕ;
  plus = λ x y. x + y;
  minus = λ x y. x - y;
  times = λ x y. x * y;
  over = λ x y. x / y;
  abs = λ x. x;
  lt = ltb;
  nought = 0;
  twenty = 20;
}

abbrev pub gains : Gains naturals
gains = record { t = 1; p = 1; i = 1; d_gain = 1; hundred = 100; of_nat = λ n. n; to_nat = λ n. n }

-- A whole chunk is read, and no client says anything.
abbrev pub whole : Env
whole = record {
  peeked = pos 4096;
  t1 = 1000;
  t2 = 4000;
  t3 = 1001;
  lbytes = λ ip. 0;
  now = λ ip. 1000;
  found = record {
    selected = pos 0;
    errno = 0;
    connects = false;
    accepted = none;
    ready = λ fd. false;
    received = λ ip. (0, zero_hdr);
    now = λ ip. 1000;
  };
}

abbrev one_client : TcpSrv
one_client = record {
  clis = (20, record { sock = some 5; dirty = false; req = zero_hdr; index = 0 }) ∷ [];
  dirty = false;
  newclient = false;
  last_qos = 0;
  pilot = no_pilot;
}

abbrev pub begun : Serving naturals
begun = record {
  srv = one_client;
  hdr = zero_hdr;
  frm = 0;
  bps = 0;
  lastbps = 0;
  pid = record {
    dt = 1;
    max = 99;
    min = 1;
    kp = 1;
    kd = 1;
    ki = 1;
    pre_error = 0;
    integral = 0;
    prev = 0;
  };
  alive = true;
}

serve_round-numbers_example :
    let r = serve_round gains whole begun in
    AllNumbered (r.state.frm % u32_mod) (pos 4096) r.sent
    × IsNumbered r.state
    × (r.state.frm ≡ 0 + 1)
serve_round-numbers_example = serve_round-numbers gains whole begun refl
