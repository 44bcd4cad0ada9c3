-- ===== src/Pipe.antt =====
-- srv/pipein.h and srv/pipein.cpp: the pipe that the server reads its sound from. What a call returns
-- depends on the calls made before, which are logged, the last one first; the file is always the same.
pub mod Ends
use the_multi_room_speaker.Base.{
  ◌≡◌, ℕ, zero, suc, ◌+◌, Bool, true, false, ◌&&◌, not, Option, none, some, List, [], ◌∷◌, ltb,
  ◌==◌, if◌then◌else◌, take,
}
use the_multi_room_speaker.Base.Int.{ℤ, pos, negsuc, pos_part, neg_part}
use the_multi_room_speaker.Sock.Calls.{is_zero}
use the_multi_room_speaker.Client.{overlay}

pub data PipeCall : Type 0 where
  find_file remove_file flush_disk make_fifo open_file : PipeCall
  wait_for : ℕ → PipeCall
  close_file wait_read : ℤ → PipeCall
  read_file : ℤ → ℕ → PipeCall

abbrev pub PipeLog : Type 0
PipeLog = List (PipeCall × ℤ)

-- The operating system: what a call returns, whether FD_ISSET holds after select, and the bytes that
-- read stores. Standard input is open, so that no file opened is 0, which the code takes for none.
pub record PipeOs : Type 0 where
  pub returns : PipeLog → PipeCall → ℤ
  pub is_set : PipeLog → Bool
  pub stored : PipeLog → List ℕ
  pub open_spares : (l : PipeLog) → is_zero (returns l open_file) ≡ false

-- _fd and _own.
pub record CPipeIn : Type 0 where
  pub fd : ℤ
  pub own : Bool
  pub log : PipeLog

unfoldable pub asked : PipeOs → PipeCall → PipeLog → PipeLog
asked o c l = (c, o.returns l c) ∷ l

-- Is what access() returned a zero?
abbrev pub exists : PipeOs → PipeLog → Bool
exists o l = let r = o.returns l find_file in pos_part r + neg_part r == 0

-- A file that is there already is removed.
unfoldable pub cleared : PipeOs → PipeLog → PipeLog
unfolding asked
cleared o l =
    let l1 = asked o find_file l in
    if exists o l then asked o (wait_for 3) (asked o flush_disk (asked o remove_file l1)) else l1

-- ::open, and FD_SET on what it returned: `none` for a negative descriptor, which is outside the set.
unfoldable pub opened : PipeOs → Bool → PipeLog → Option CPipeIn
unfolding asked
opened o own l =
    let fd = o.returns l open_file in
    if ltb 0 (neg_part fd)
    then none
    else some (record { fd = fd; own = own; log = asked o open_file l })

-- CPipeIn::CPipeIn(file)
unfoldable pub new_pipe : PipeOs → PipeLog → Option CPipeIn
unfolding cleared opened
new_pipe o l =
    let l1 = cleared o l in
    let l2 = asked o find_file l1 in
    let l3 = asked o make_fifo l2 in
    if exists o l1
    then opened o false l2
    else if ltb 0 (neg_part (o.returns l2 make_fifo))
    then some (record { fd = pos 0; own = false; log = l3 })
    else opened o true l3

-- CPipeIn::ok()
unfoldable pub ok : CPipeIn → Bool
ok p = ltb 0 (pos_part p.fd)

-- CPipeIn::peek(buff, maxsz): what is returned, the buffer and the pipe.
unfoldable pub peek : PipeOs → List ℕ → ℕ → CPipeIn → ℤ × List ℕ × CPipeIn
unfolding asked overlay
peek o buff maxsz p =
    let sel = o.returns p.log (wait_read p.fd) in
    let l = asked o (wait_read p.fd) p.log in
    let n = o.returns l (read_file p.fd maxsz) in
    let got = overlay (take (pos_part n) (o.stored l)) buff in
    if ltb 0 (neg_part sel)
    then (negsuc 0, buff, record p { log = l })
    else if ltb 0 (pos_part sel) && o.is_set l
    then (n, got, record p { log = asked o (read_file p.fd maxsz) l })
    else (pos 0, buff, record p { log = l })

-- Calls of peek for as many bytes, as the server's loop makes them: the buffer and the pipe.
unfoldable pub peeks : PipeOs → (times : ℕ) → ℕ → List ℕ → CPipeIn → List ℕ × CPipeIn
unfolding peek
peeks o zero maxsz buff p = (buff, p)
peeks o (suc times) maxsz buff p =
    let (got, buff', p') = peek o buff maxsz p in peeks o times maxsz buff' p'

-- CPipeIn::~CPipeIn()
unfoldable pub end_pipe : PipeOs → CPipeIn → PipeLog
unfolding asked
end_pipe o p =
    let l = if pos_part p.fd + neg_part p.fd == 0 then p.log else asked o (close_file p.fd) p.log in
    if p.own then asked o remove_file l else l
