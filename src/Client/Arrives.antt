-- ===== src/Client/Arrives.antt =====
-- One frame of sclient::_get_data is one frame put into the list that the play queue stands for.
use the_multi_room_speaker.Base.{
  ℕ, zero, suc, ◌+◌, ◌-◌, ◌<◌, ◌≡◌, ◌≢◌, refl, sym, ap, ◌∙◌, true, false, some, List, [], ◌∷◌, ◌++◌,
  length, get_elem?, set, arith, get_elem?-set_self, length-set, subst,
}
use the_multi_room_speaker.Base.Int.{pos, pos_part, neg_part}
use the_multi_room_speaker.Wire.{BufHdr, hdr_size, tcp_snd_len, sync_data, reset_all}
use the_multi_room_speaker.Wire.Codec.{encode}
use the_multi_room_speaker.Wire.Roundtrip.{InRange}
use the_multi_room_speaker.Sock.{Segment}
use the_multi_room_speaker.Sock.Stream.{flat, IsData}
use the_multi_room_speaker.Circle.{Chunk, Circle, slot, inc, modify, release, reblock, lock}
use the_multi_room_speaker.Circle.Fifo.{Frame, fill, deliver}
use the_multi_room_speaker.Circle.Fifo.View.{IsQuiet, slot_lem, modify_slot}
use the_multi_room_speaker.Circle.Fifo.Deliver.{feed_lem}
use the_multi_room_speaker.Client
use the_multi_room_speaker.Client.{
  Sclient, framed, read_frame, check_frame, check_stream, chunk_at, get_into, get_data, Got,
}
use the_multi_room_speaker.Client.Frames.{read_frame_lem}
use the_multi_room_speaker.Client.Aimed.{adjust, retuned, check_frame-adjust, release-retuned}

-- A chunk of the size that cli/main.cpp reserves.
abbrev pub IsSized : Chunk → Type 0
IsSized k = (k.sz ≡ tcp_snd_len + hdr_size) × (length k.payload ≡ tcp_snd_len)

abbrev pub AllSized : List Chunk → Type 0
AllSized [] = Unit {0}
AllSized (k ∷ ks) = IsSized k × AllSized ks

pub get_elem?-IsSized :
    (ks : List Chunk) (i : ℕ) (k : Chunk) → AllSized ks → get_elem? ks i ≡ some k → IsSized k
get_elem?-IsSized [] i k a e = cc
get_elem?-IsSized (x ∷ ks) zero k a e = ground (arith, a.0, e)
get_elem?-IsSized (x ∷ ks) (suc i) k a e = get_elem?-IsSized ks i k a.1 e

pub set-AllSized :
    (ks : List Chunk) (i : ℕ) (k : Chunk) → AllSized ks → IsSized k → AllSized (set ks i k)
set-AllSized [] i k a s = tt
set-AllSized (x ∷ ks) zero k a s = (s, a.1)
set-AllSized (x ∷ ks) (suc i) k a s = (a.0, set-AllSized ks i k a.1 s)

-- A frame as the server sends it between its reports: neither a report nor a reset, with a chunk's bytes.
pub record IsAlive (d : Frame) : Type 0 where
  pub in_range : InRange d.0
  pub no_report : d.0.frm_sig ≢ sync_data
  pub no_reset : d.0.frm_sig ≢ reset_all
  pub announced : d.0.buf_len ≡ pos tcp_snd_len
  pub whole : length d.1 ≡ tcp_snd_len

-- A frame as the server sends it, a report or not: no reset, with a chunk's bytes.
pub record IsWhole (d : Frame) : Type 0 where
  pub in_range : InRange d.0
  pub no_reset : d.0.frm_sig ≢ reset_all
  pub announced : d.0.buf_len ≡ pos tcp_snd_len
  pub whole : length d.1 ≡ tcp_snd_len

pub alive-IsWhole : (d : Frame) → IsAlive d → IsWhole d
alive-IsWhole d a = record {
  in_range = a.in_range;
  no_reset = a.no_reset;
  announced = a.announced;
  whole = a.whole;
}

read_frame-rest :
    (k : Chunk) (s : List Segment) → let c = (read_frame k s).chunk in c ≡ fill (c.hdr, c.payload) k
unfolding read_frame framed
read_frame-rest k s = ground arith

module _ (d : Frame) (rest : List ℕ) (s : List Segment) (alive : IsWhole d) (segs : IsData s)
    (carried : flat s ≡ encode d.0 ++ (d.1 ++ rest)) (k : Chunk) (sized : IsSized k) where
  read :
      let f = read_frame k s in
      (f.chunk ≡ fill d k) × (flat f.left ≡ rest) × IsData f.left × (f.accepted ≡ true)
  read =
      let room : tcp_snd_len ≡ k.sz - hdr_size = omega (arith, sized.0) in
      let some_data : pos_part d.0.buf_len + neg_part d.0.buf_len ≢ 0 =
        ground (arith, alive.announced) in
      let (a, b, l, is_data, acc) =
        read_frame_lem k d.0 d.1 rest s segs alive.in_range carried (alive.whole ∙ room)
          (sized.1 ∙ room) some_data in
      (
        read_frame-rest k s ∙ ap (λ (x : Frame). fill x k) (pair a b),
        l,
        is_data,
        acc ∙ ground (arith, alive.announced, room),
      )
    where
      pair : {h h' : BufHdr} {xs ys : List ℕ} → h ≡ h' → xs ≡ ys → ◌≡◌ {A = Frame} (h, xs) (h', ys)
      pair e e' = rw (e, e') refl

  checked :
      (time fut : ℕ) (c : Sclient)
      → let c' = (check_stream k s time fut c).1 in
        let (o, t) = adjust d.0 time c.reque_time c.rq.elems in
        (c'.rq ≡ retuned o c.rq) × (c'.reque_time ≡ t)
  unfolding check_stream
  checked time fut c =
      let (chunk, l, is_data, acc) = read in
      let hdr : (read_frame k s).chunk.hdr ≡ d.0 = ap (λ (x : Chunk). x.hdr) chunk in
      rw (acc, check_stream) (seen (read_frame k s).chunk.hdr hdr)
    where
      seen :
          (h : BufHdr)
          → h ≡ d.0
          → let c' =
              (check_frame h (read_frame k s).buf_len time fut (record c { srvsync = true })).0 in
            let (o, t) = adjust d.0 time c.reque_time c.rq.elems in
            (c'.rq ≡ retuned o c.rq) × (c'.reque_time ≡ t)
      seen h e =
          subst
            (λ (x : BufHdr).
              let c' =
                (check_frame x (read_frame k s).buf_len time fut (record c { srvsync = true })).0 in
              let (o, t) = adjust d.0 time c.reque_time c.rq.elems in
              (c'.rq ≡ retuned o c.rq) × (c'.reque_time ≡ t))
            (sym e)
            (check_frame-adjust d.0 (read_frame k s).buf_len time fut (record c { srvsync = true })
              alive.no_reset)

  -- The frame read into the chunk behind a slot, which is then released.
  into :
      (i time fut : ℕ) (c : Sclient)
      → get_elem? c.rq.queue i ≡ some k
      → i < length c.rq.queue
      → let (o, t) = adjust d.0 time c.reque_time c.rq.elems in
        (g : Got) × (get_into false (slot i) s time fut c ≡ some g)
        × (g.kept ≡ true)
        × (flat g.left ≡ rest)
        × IsData g.left
        × (g.client.rq ≡ retuned o (release (some (slot i)) (modify (slot i) (fill d) c.rq)).1)
        × (g.client.reque_time ≡ t)
  unfolding get_into
  into i time fut c at room =
      let (chunk, l, is_data, acc) = read in
      let same = frame in
      let o = (adjust d.0 time c.reque_time c.rq.elems).0 in
      rw (at, get_into)
        (
          _,
          refl,
          ap (λ (f : Client.Frame). f.accepted) (same time fut c) ∙ acc,
          ap (λ (f : Client.Frame). flat f.left) (same time fut c) ∙ l,
          subst (λ (f : Client.Frame). IsData f.left) (sym (same time fut c)) is_data,
          ap (λ (x : Chunk). freed (modify (slot i) (λ y. x) (check_stream k s time fut c).1.rq))
                (ap (λ (f : Client.Frame). f.chunk) (same time fut c) ∙ chunk)
              ∙ ap (λ (q : Circle). freed (modify (slot i) (λ y. fill d k) q))
                  (checked time fut c).0
              ∙ release-retuned o c.rq i k (λ y. fill d k) at room
              ∙ ap (λ (q : Circle). retuned o (freed q))
                  (modify_slot c.rq i k (λ y. fill d k) at
                    ∙ sym (modify_slot c.rq i k (fill d) at)),
          (checked time fut c).1,
        )
    where
      freed : Circle → Circle
      freed q = (release (some (slot i)) q).1

      frame : (time fut : ℕ) (c : Sclient) → (check_stream k s time fut c).0 ≡ read_frame k s
      frame time fut c = unfold check_stream in ground arith

-- A frame that comes in whole, while the queue is at rest and has room, is read from the stream, keeps
-- the connection, and changes the queue as `deliver` does and then as its header asks for.
pub arrive_whole :
    (d : Frame) (rest : List ℕ) (s : List Segment) (time fut : ℕ) (c : Sclient)
    → IsWhole d
    → IsData s
    → flat s ≡ encode d.0 ++ (d.1 ++ rest)
    → IsQuiet c.rq
    → AllSized c.rq.queue
    → let (o, t) = adjust d.0 time c.reque_time (c.rq.elems + 1) in
      (g : Got) × (get_data s time fut c ≡ some g)
      × (g.kept ≡ true)
      × (flat g.left ≡ rest)
      × IsData g.left
      × (g.client.reque_time ≡ t)
      × (q : Circle) × (deliver d c.rq ≡ some q)
      × (g.client.rq ≡ retuned o q)
unfolding get_data deliver
arrive_whole d rest s time fut c alive segs carried quiet sized =
    let q = c.rq in
    let (k, e, un) = slot_lem quiet q.puti quiet.valid.puti_in in
    let fed : Circle = reblock (record q {
      puti = inc q.maxqsz q.puti;
      elems = q.elems + 1;
      queue = set q.queue q.puti (lock k);
    }) in
    let room : q.puti < length q.queue = omega (arith, quiet.valid.slots, quiet.valid.puti_in) in
    let (g, made, kept, l, is_data, rq, t) =
      into d rest s alive segs carried (lock k) (get_elem?-IsSized q.queue q.puti k sized e) q.puti
        time fut (record c { rq = fed }) (get_elem?-set_self q.queue q.puti (lock k) room)
        (rw length-set room) in
    rw (feed_lem k e un quiet.valid quiet.fits, get_data, deliver)
      (g, made, kept, l, is_data, t, _, refl, rq)
