-- ===== src/Client/Frames.antt =====
-- Frames as the server sends them (a header and a chunk's payload, whole) read by the client.
use the_multi_room_speaker.Base.{
  ℕ, ◌+◌, ◌-◌, ◌<◌, ◌≡◌, ◌≢◌, refl, sym, subst, ==_iff, ap, ◌∙◌, true, false, ◌&&◌, some, List, [],
  ◌∷◌, ◌++◌, ◌==◌, length, take, drop, take-append, drop-append, arith,
}
use the_multi_room_speaker.Base.Int.{pos, pos_part, neg_part}
use the_multi_room_speaker.Wire.{BufHdr, hdr_size, tcp_snd_len}
use the_multi_room_speaker.Wire.Codec.{encode, decode}
use the_multi_room_speaker.Wire.Roundtrip.{InRange, decode-encode, length-encode}
use the_multi_room_speaker.Sock.{Segment, receiveall}
use the_multi_room_speaker.Sock.Stream.{flat, IsData, receiveall-Splits}
use the_multi_room_speaker.Circle.{Chunk, Ref}
use the_multi_room_speaker.Client.{
  Sclient, overlay, framed, read_frame, check_stream, chunk_at, get_into, Got,
}
use the_multi_room_speaker.Server.{Pilot, address}
use mathlib.Core.List.{append-nil}

drop_all : (xs : List ℕ) → drop (length xs) xs ≡ []
drop_all [] = refl
drop_all (x ∷ xs) = drop_all xs

overlay_whole : (xs ys : List ℕ) → length xs ≡ length ys → overlay xs ys ≡ xs
unfolding overlay
overlay_whole xs ys e = rw (e, drop_all ys) (append-nil xs)

-- What is read from a stream that begins with the `n` bytes of `xs`.
receiveall_front :
    (n : ℕ) (xs rest : List ℕ) (s : List Segment)
    → IsData s
    → length xs ≡ n
    → flat s ≡ xs ++ rest
    → ((receiveall n s).0 ≡ xs) × (flat (receiveall n s).1 ≡ rest) × IsData (receiveall n s).1
receiveall_front n xs rest s d e f =
    let (a, b, d') = receiveall-Splits n s d in
    (
      a ∙ ap (take n) f ∙ ap (λ (k : ℕ). take k (xs ++ rest)) (sym e) ∙ take-append xs rest,
      b ∙ ap (drop n) f ∙ ap (λ (k : ℕ). drop k (xs ++ rest)) (sym e) ∙ drop-append xs rest,
      d',
    )

-- A payload of the chunk's length is taken as it is.
framed_lem :
    (k : Chunk) (h : BufHdr) (s1 : List Segment) (got : List ℕ × List Segment)
    → pos_part h.buf_len + neg_part h.buf_len ≢ 0
    → length got.0 ≡ length k.payload
    → let f = framed k h s1 got in
      (f.chunk.hdr ≡ h)
      × (f.chunk.payload ≡ got.0)
      × (f.left ≡ got.1)
      × (f.accepted ≡ (pos_part h.buf_len == length got.0 && neg_part h.buf_len == 0))
unfolding framed
framed_lem k h s1 got d e =
    let whole = overlay_whole got.0 k.payload e in
    (refl, ground (arith, whole), ground arith, ground arith)

module _ (k : Chunk) (h : BufHdr) (body rest : List ℕ) (s : List Segment) (d : IsData s)
    (r : InRange h) (carried : flat s ≡ encode h ++ (body ++ rest))
    (whole : length body ≡ k.sz - hdr_size) (fits : length k.payload ≡ k.sz - hdr_size)
    (some_data : pos_part h.buf_len + neg_part h.buf_len ≢ 0) where
  head :
      ((receiveall hdr_size s).0 ≡ encode h)
      × (flat (receiveall hdr_size s).1 ≡ body ++ rest)
      × IsData (receiveall hdr_size s).1
  head = receiveall_front hdr_size (encode h) (body ++ rest) s d (length-encode h) carried

  header : (decode (overlay (receiveall hdr_size s).0 (encode k.hdr))).0 ≡ h
  header =
      ap (λ (xs : List ℕ). (decode (overlay xs (encode k.hdr))).0) head.0
      ∙ ap (λ (xs : List ℕ). (decode xs).0)
          (overlay_whole (encode h) (encode k.hdr) (length-encode h ∙ sym (length-encode k.hdr))
            ∙ sym (append-nil (encode h)))
      ∙ ap (λ (x : BufHdr × List ℕ). x.0) (decode-encode h [] r)

  tail :
      let got = receiveall (k.sz - hdr_size) (receiveall hdr_size s).1 in
      (got.0 ≡ body) × (flat got.1 ≡ rest) × IsData got.1
  tail = receiveall_front (k.sz - hdr_size) body rest _ head.2 whole head.1

  read_framed :
      let s1 = (receiveall hdr_size s).1 in
      read_frame k s ≡ framed k h s1 (receiveall (k.sz - hdr_size) s1)
  unfolding read_frame framed
  read_framed = rw (read_frame, headed, header)
    where
      headed : (length (receiveall hdr_size s).0 == hdr_size) ≡ true
      headed =
          ap (λ (xs : List ℕ). length xs == hdr_size) head.0
          ∙ (==_iff _ hdr_size).1 (length-encode h)

  -- A frame that was sent whole is read whole, however TCP has cut it: the chunk holds its header and its
  -- payload, and the stream stands at the next frame. It is accepted exactly if its header announces as
  -- many bytes as a chunk holds.
  pub read_frame_lem :
      let f = read_frame k s in
      (f.chunk.hdr ≡ h)
      × (f.chunk.payload ≡ body)
      × (flat f.left ≡ rest)
      × IsData f.left
      × (f.accepted ≡ (pos_part h.buf_len == (k.sz - hdr_size) && neg_part h.buf_len == 0))
  read_frame_lem =
      let s1 = (receiveall hdr_size s).1 in
      let got = receiveall (k.sz - hdr_size) s1 in
      let size = ap length tail.0 ∙ whole in
      let (a, b, c, e) = framed_lem k h s1 got some_data (size ∙ sym fits) in
      rw read_framed (
        a,
        b ∙ tail.0,
        ap flat c ∙ tail.1,
        subst IsData (sym c) tail.2,
        e ∙ ap (λ (n : ℕ). pos_part h.buf_len == n && neg_part h.buf_len == 0) size,
      )

  -- For a frame that comes in whole into a chunk of the queue, with a payload of the chunk's size and a header
  -- that announces some bytes (buf_len is not 0): the connection is kept exactly if it announces as many
  -- as the chunk holds, and the stream is left at the next frame.
  pub get_into_kept :
      (ref : Ref) (time fut : ℕ) (c : Sclient)
      → chunk_at ref c.rq ≡ some k
      → (g : Got) × (get_into false ref s time fut c ≡ some g)
        × (g.kept ≡ (pos_part h.buf_len == (k.sz - hdr_size) && neg_part h.buf_len == 0))
        × (flat g.left ≡ rest)
  unfolding get_into
  get_into_kept ref time fut c at =
      let (a, b, e, is_data, kept) = read_frame_lem in
      rw (at, get_into) (_, refl, frame_kept ∙ kept, ap flat frame_left ∙ e)
    where
      frame_kept : (check_stream k s time fut c).0.accepted ≡ (read_frame k s).accepted
      frame_kept = unfold check_stream in ground arith

      frame_left : (check_stream k s time fut c).0.left ≡ (read_frame k s).left
      frame_left = unfold check_stream in ground arith

-- When the server has read fewer bytes from its pipe than a chunk holds, but some, qsend still sends the
-- whole chunk, under a header that announces the fewer bytes; a client that receives it whole into a chunk
-- of its queue, for which there is room, drops the connection.
pub short_read_disconnects :
    (p : Pilot) (now b : ℕ) (req hdr : BufHdr) (k : Chunk) (body rest : List ℕ) (s : List Segment)
    (ref : Ref) (time fut : ℕ) (c : Sclient)
    → let h = address p now req hdr in
      hdr.buf_len ≡ pos b
      → 0 < b
      → b < tcp_snd_len
      → InRange h
      → length body ≡ tcp_snd_len
      → flat s ≡ encode h ++ (body ++ rest)
      → IsData s
      → chunk_at ref c.rq ≡ some k
      → k.sz ≡ tcp_snd_len + hdr_size
      → length k.payload ≡ tcp_snd_len
      → (g : Got) × (get_into false ref s time fut c ≡ some g) × (g.kept ≡ false)
unfolding address
short_read_disconnects p now b req hdr k body rest s ref time fut c e some_read short r size carried
      d at sz fits =
    let (g, made, kept, left) =
      get_into_kept k (address p now req hdr) body rest s d r carried (size ∙ room) (fits ∙ room)
        announces ref time fut c at in
    (g, made, kept ∙ ground (arith, e, room))
  where
    room : 4096 ≡ k.sz - hdr_size
    room = omega arith

    announces : pos_part hdr.buf_len + neg_part hdr.buf_len ≢ 0
    announces = ground (arith, e)
