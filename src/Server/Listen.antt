-- ===== src/Server/Listen.antt =====
-- srv/tcpsrv.cpp, TcpSrv::listen and TcpSrv::destroy, over the sockets of common/sock.cpp.
use the_multi_room_speaker.Base.{
  ℕ, zero, suc, ◌+◌, Bool, true, false, Option, none, some, ltb, ◌==◌, if◌then◌else◌,
}
use the_multi_room_speaker.Base.Int.{ℤ, pos_part, neg_part}
use the_multi_room_speaker.Wire.{spk_srv_port}
use the_multi_room_speaker.Sock.Calls.{
  so_reuseaddr, set_fd_flags, pause, Os, Net, call, srv_destroy,
}
use the_multi_room_speaker.Sock.Create.{tcp_listen, srv_create}

-- How one try of listen() ends.
pub data Listening : Type 0 where
  listens refused gives_up : Listening

-- From AGAIN on: a port that cannot be listened at is given back, and tried again after a second.
unfoldable pub listen_once : Os → (alive : Bool) → Net → Option (Listening × Net)
listen_once o alive n =
    let created : Option (ℤ × Net) = srv_create o spk_srv_port so_reuseaddr 0 n in
    if alive
    then elim created [
      | none ↦ none
      | some made ↦
          let flagged = call o (set_fd_flags made.1.thesock) made.1 in
          let asked = tcp_listen o 8 flagged in
          if ltb 0 (pos_part made.0)
          then (if pos_part asked.0 + neg_part asked.0 == 0
              then some (listens, asked.1)
              else some (refused, call o (pause 1000000) (srv_destroy o true asked.1).1))
          else some (gives_up, made.1)
    ]
    else some (gives_up, n)

-- What listen() does after a try.
unfoldable pub go_on :
    (again : Net → Option (Bool × Net)) → Option (Listening × Net) → Option (Bool × Net)
go_on again none = none
go_on again (some (listens, n)) = some (true, n)
go_on again (some (refused, n)) = again n
go_on again (some (gives_up, n)) = some (false, n)

-- The tries, `more` of them after this one; `alive` is __alive in each.
unfoldable pub listen_from : Os → (alive : ℕ → Bool) → (more : ℕ) → Net → Option (Bool × Net)
listen_from o alive zero n = go_on (λ n'. some (false, n')) (listen_once o (alive 0) n)
listen_from o alive (suc more) n =
    go_on (listen_from o alive more) (listen_once o (alive (suc more)) n)

-- TcpSrv::listen()
unfoldable pub listen : Os → (alive : ℕ → Bool) → Net → Option (Bool × Net)
listen o alive n = listen_from o alive 9 n
