-- ===== src/Tests/Begun.antt =====
-- The client's main, from its search for servers to a frame of the server's, without an audio driver.
use the_multi_room_speaker.Base.{
  ℕ, ◌+◌, ◌-◌, ◌≡◌, ◌%◌, refl, Bool, true, false, some, List, [], ◌∷◌, ◌++◌, map, take, arith,
  replicate, u16_mod,
}
use mathlib.Core.List.{Sublist}
use the_multi_room_speaker.Base.Int.{ℤ, pos}
use the_multi_room_speaker.Wire.{max_reque_interval, spk_srv_port}
use the_multi_room_speaker.Wire.Codec.{encode}
use the_multi_room_speaker.Sock.Calls.{
  socket_stream, socket_dgram, Call, Os, Net, fresh, is_open, accept_from,
}
use the_multi_room_speaker.Sock.Held.{Owns, held}
use the_multi_room_speaker.Sock.Answered.{Answers}
use the_multi_room_speaker.Circle.{Circle, forced_optim, optim_of}
use the_multi_room_speaker.Circle.Fifo.{Frame, Buffer, pop, push, retarget}
use the_multi_room_speaker.Circle.Fifo.View.{view}
use the_multi_room_speaker.Client.Aimed.{adjust, retuned_list}
use the_multi_room_speaker.Client.Live.{Living, live, arrivals, Turn, plays_one}
use the_multi_room_speaker.Client.Link.{dial_each}
use the_multi_room_speaker.Client.Follows.{follows}
use the_multi_room_speaker.Rooms.{sound, sounds}
use the_multi_room_speaker.Rooms.Begun.{started_in_order}
use the_multi_room_speaker.Discovery.Join.{interfaces}
use the_multi_room_speaker.Discovery.Joined.{Willing}
use the_multi_room_speaker.Player.Device.{player_ao, device, given, payloads}
use the_multi_room_speaker.Setup.{
  chunks_for, get_len_for, init_ao, new_ao, open_driver, set_up, new_sclient, started,
}
use the_multi_room_speaker.Setup.Started.{nothing_yet}
use the_multi_room_speaker.Setup.Main.{Look, look_for, Begun, main}
use the_multi_room_speaker.Setup.Dialled.{main-reaches}
use the_multi_room_speaker.Tests.Serving.{gains}
use the_multi_room_speaker.Tests.Stream.{silence, quick-TakesOffered, turns}
use the_multi_room_speaker.Tests.Reports.{
  piped, leading, stays, frame, sent, framed, frame-IsWhole, wired, segments, segments-IsData,
  flat-segments,
}
use the_multi_room_speaker.Tests.Playing.{
  den, den_ip, den-IsReply, answers, answers-Hears, lan, lan_seekers, lan_named,
}

abbrev mute : ℕ → Bool
mute k = false

abbrev behind : List ℕ
behind = replicate 48 0

abbrev once_more : List Turn
once_more = turns ++ (plays_one ∷ [])

-- The pilot's optimum is the only chunk, and its frame is played.
abbrev heard : List Frame × Buffer
heard = (frame ∷ [], record { items = []; optim = 1; waiting = false })

runs :
    follows
      (chunks_for mute)
      once_more
      sent
      (1000 + 5 - max_reque_interval)
      (nothing_yet (chunks_for mute))
    ≡ some heard
unfolding follows adjust retuned_list retarget forced_optim pop push chunks_for get_len_for init_ao
    new_ao open_driver optim_of
runs = refl

started_in_order_example :
    (q : Circle) × (set_up mute behind ≡ some q)
    × (out : Living) × (live once_more segments (started 1000 (new_sclient 0 7 q)) ≡ some out)
    × (out.0 ≡ frame ∷ [])
    × (view out.2.rq ≡ heard.1)
    × Sublist (map sound (out.0 ++ (view out.2.rq).items)) (take 1 (sounds gains piped leading))
    × (device (player_ao mute) out.0 ≡ some (given (player_ao mute) (payloads out.0)))
unfolding arrivals
started_in_order_example =
    started_in_order gains piped leading 20 once_more sent (encode frame.0 ++ silence) [] segments
      mute behind 0 1000 7 heard refl stays framed wired (frame-IsWhole, quick-TakesOffered, tt)
      (omega arith) segments-IsData flat-segments refl runs

abbrev os : Os
os = record {
  ask = λ l c. record { ret = answer c; errno = 0; is_set = true };
  backlog = λ l. 0;
  patience = λ l. 0;
  stream_spares = λ l. refl;
  dgram_spares = λ l p. refl;
  accept_spares = λ l f. refl;
}
  where
    answer : Call → ℤ
    answer (socket_dgram p) = pos 3
    answer (accept_from f) = pos 3
    answer socket_stream = pos 4
    answer c = pos 0

os-Willing : Willing os
os-Willing = record { makes = λ l. refl; sets = λ l f opt v. refl; binds = λ l f a. refl }

os-Answers : Answers os 3 (record { ip = 7; port = spk_srv_port % u16_mod })
os-Answers = record { sockets = λ l. refl; accepts = λ l f. refl }

fresh-Owns : Owns fresh
unfolding held
fresh-Owns = refl

abbrev look : Look
look = record { ifs = lan; hears = λ k i. answers; junk = [] }

nothing_first : look_for os [] [] ≡ some []
unfolding look_for
nothing_first = refl

main-reaches_example :
    (b : Begun) × (main os (λ sip. some 7) mute behind 0 1000 7 ([] ++ (look ∷ [])) ≡ some (some b))
    × (n' : Net) × (dial_each os b.ips fresh ≡ some n')
    × (is_open n' ≡ true)
unfolding interfaces
main-reaches_example =
    main-reaches os (λ sip. some 7) mute behind 0 1000 7 [] [] look lan_seekers 2 0 2 3 den den_ip 7
      fresh os-Willing os-Answers nothing_first answers-Hears lan_named (omega arith) (omega arith)
      (omega arith) den-IsReply (omega arith) refl refl refl fresh-Owns
