-- ===== src/Lib.antt =====
-- The multi-room speaker: a server that streams audio frames to speakers over TCP, and the speakers' clients,
-- which play the same frame at about the same time.
--
-- The program's parts and how they interact. The server (srv/main.cpp) reads audio from a pipe into one chunk
-- and sends it, under a header, to every client (TcpSrv::qsend); between chunks it accepts clients and takes
-- their reports (TcpSrv::pool), of which those of one, the pilot, set the server's pace (the controller of
-- srv/pidaim.cpp). A client finds servers by datagrams (cli/udpdisc.cpp), receives frames in one thread
-- (cli/sclient.cpp) into a circular queue (common/srvq.h), and plays them from it in another
-- (cli/player.cpp). Each header carries the pilot's place in the stream; a client apart from it drops frames
-- or waits, by changing the optimum of its queue.
--
-- Which file is about which part:
--   Base, Base/Tests, Base/Lists, Base/Int: shared names, Boolean tests, lists and `int` over the native numbers.
--   Wire: the constants and `BufHdr` of common/srvq.h; Wire/Codec is its form in memory (packed,
--     little-endian), Wire/Roundtrip about reading what was written.
--   Circle: `Circle` of common/srvq.h. Its fields are those of the class without the underscore, its methods
--     have the methods' names; a chunk is named by its place (`slot i`) or as the scrap chunk, and a result
--     `none` of a method is an access outside the vector. Circle/Invariant, Circle/Window and Circle/Optim
--     are about its indices and its optimum, Circle/Display and Circle/Shown about display().
--     Circle/Fifo gives the receiver's and the player's use of it (feed, fill, release; consume, read,
--     release) and a list of waiting frames as its specification, with the
--     refinement in View, Deliver, Play and Refine, and the full queue in Overfull. Circle/Threads
--     is the step relation of the two threads (a method under the mutex is one step; a chunk is
--     filled and read between two steps), with Locks and Exclusion.
--   Clock: tick_count of common/srvq.h.
--   Sock: tcp_sock::receive, receiveall and sendall of common/sock.cpp; Sock/Stream and Sock/Sending are
--     about their loops. Sock/Calls and Sock/Connect are the sockets themselves, `sock`, tcp_sock,
--     tcp_srv_sock and tcp_cli_sock, as state passing: a socket is a `Net`, what a system call returns
--     depends on the calls made before (`Os`), and a result `none` is a failed assertion.
--     Sock/Create has create, listen and accept. Sock/Held, Sock/Dial and Sock/Leaks are about the
--     descriptors that stay open, Sock/Counted about how often one is open,
--     Sock/Flags, Sock/Outcome and Sock/Answered about s4connect.
--     Sock/Address is the comparisons of SADDR_46, with Sock/Order. Sock/Udp is udp_sock and Sock/Group
--     udp_group_sock; Sock/Datagrams and Sock/Grouped are about the descriptors that they leave open.
--   Server: srv/tcpsrv.h and srv/tcpsrv.cpp, `TcpSrv` and `Clictx`: `pool`, `clean` (_clean), `rec` and
--     `qsend`. The map of clients is the list of its entries in the order of the addresses. Server/Pilots,
--     Server/Reconnect and Server/Sends are about the pilot's role and about what is sent. Server/Listen is
--     TcpSrv::listen over the sockets of Sock, with Server/Listening. Server/Hosting is the sockets of
--     the server and its clients, which share one log of calls (accept in pool, destroy in rec and qsend, _clean,
--     TcpSrv::destroy), with Server/Owned and Server/Visited.
--   Client: cli/sclient.h and cli/sclient.cpp: `check_stream` (_check_stream, in the parts read_frame,
--     check_frame, resync and report), `get_data` (one frame of _get_data) and `update_frame`.
--     Client/Frames and Client/Requeue are about the frames that are read and the changes of the queue.
--     Client/Link is sclient::_tmain over the sockets of Sock, with Client/Rounds and Client/Reached.
--     Client/Live puts the server's sendall, the stream, get_data, the queue and the player together, with
--     Client/Arrives, Client/Wired, Client/Kept and Client/InOrder. Client/Aimed is what a report's frame does
--     to the queue, Client/Follows what it does to the list of frames, with Client/Heard.
--   Setup: the queue that cli/main.cpp makes for the audio format of cli/aop.cpp, and the client's state at
--     its start, with Setup/Bounded and Setup/Started; Setup/Main is main's loop up to the start of the
--     threads, with Setup/Dialled.
--   Player: player::play and player::_fill_q of cli/player.cpp, up to q_consume; Player/Hysteresis.
--     Player/Device is what player::_play and AoCls::play give to the audio library.
--   Pace: the loop of srv/main.cpp, a round as `serve_round`; Pace/Frames is about the frames' numbers.
--   Pipe: `CPipeIn` of srv/pipein.cpp; Pipe/Ends.
--   Rooms: the server's loop with the payloads, and what goes to one address; Rooms/InStep, Rooms/Reports
--     and, for a speaker from its start, Rooms/Begun.
--   Pid: `PIDImpl` and `PID` of srv/pidaim.cpp, over a type of doubles given as a parameter; Pid/Steady.
--   Discovery: srv/udpdisc.cpp and cli/udpdisc.cpp, what the datagrams say and what is made of them;
--     Discovery/Found. Discovery/Life is the sockets of `Udper`, with Discovery/Closed; Discovery/Join
--     is Udper::join over the interfaces, with Discovery/Joined and Discovery/Gathered;
--     Discovery/Beacon is the server's thread, Udper::tmain, with Discovery/Answering.
--   Tests: Network, Sockets, Links, Queue, Receiver, Speakers, Serving, Playing, Stream, Hosts, Pipes, Rooms,
--     Reports, Begun and Datagrams, the definitions at concrete inputs.
--
-- What comes from outside is an argument: what recv, send, select, accept and the clock return. Of the
-- operating system two things are taken as given: standard input is open, so that no new descriptor is 0,
-- which the code takes for none and never closes (a field of `Os` and of `PipeOs`); and close releases its
-- descriptor also where it fails, as Linux does (Sock/Held, Pipe/Ends). Machine
-- integers keep their wrap-around where a value can reach it (`add_size`, `sub_size`, `int_of`,
-- `seq_diff`).
--
-- Fuel: the loop of receiveall runs on one unit more than the bytes asked for, as each round but the last
-- receives a byte or more; that of sendall on one unit more than the bytes and the retries together, as each
-- round but the last sends a byte or uses up a retry. How long recv finds something after a shutdown, and how
-- often the callback of a connect lets it wait, are counts that the operating system gives. force_optim's loop is
-- a recursion on the number of entries, discover's on its 64 rounds. A chunk's bytes are a list of any length.
--
-- The clock's time() is at least 25, and a set of strings is gone through by the strings' bytes.
--
-- Not modelled: what is shown on the terminal besides display (common/screenxy.cpp), memory that is freed,
-- and the audio library. Of common/sock.h and sock.cpp the texts of addresses and the resolver are left
-- out, which hand strings to the C library and read its static buffers, and so are select_receive, which
-- nothing calls, and udp_p2p, which nothing uses. The threads are taken apart: what a frame does to the
-- client's state and what becomes of its socket are two models, and the select of _get_data, the
-- destructors that join threads, and interleavings inside one call of the socket are in neither. The
-- interfaces of the host come from outside. Left out too are the client's controller (cli/pider.cpp),
-- which nothing calls, the Android shell, which is Qt around the same client, and the former UDP version
-- (OLD_UDP), which is an earlier state of the same program.
pub mod Base
pub mod Wire
pub mod Circle
pub mod Clock
pub mod Sock
pub mod Discovery
pub mod Pace
pub mod Pid
pub mod Player
pub mod Server
pub mod Client
pub mod Setup
pub mod Pipe
pub mod Rooms
pub mod Tests
