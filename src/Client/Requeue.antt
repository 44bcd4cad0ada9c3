-- ===== src/Client/Requeue.antt =====
-- How a client that is no pilot moves its place in the stream to the pilot's.
use the_multi_room_speaker.Base.{
  ℕ, ◌+◌, ◌-◌, ◌%◌, ◌<◌, ◌≤◌, ◌≡◌, ◌≢◌, ap, ◌∙◌, Bool, true, false, ltb, if◌then◌else◌, arith,
  int_mod, u32_mod,
}
use the_multi_room_speaker.Base.Int.{ℤ, pos, ◌-ℤ◌, sub_ℕ, ltb_ℤ}
use the_multi_room_speaker.Wire.{sync_data, BufHdr, max_reque_interval}
use the_multi_room_speaker.Wire.Codec.{bits_int}
use the_multi_room_speaker.Circle.{Circle, force_optim, forced_optim}
use the_multi_room_speaker.Circle.Invariant.{IsValid}
use the_multi_room_speaker.Circle.Optim.{force_optim_lem}
use the_multi_room_speaker.Client.{report, check_frame, Sclient, seq_diff, requeues, resync}

-- The 32-bit difference of two frame numbers is the signed number of frames between them, as long as
-- they are less than 2 ^ 31 apart.
seq_diff_lem :
    (a b : ℕ)
    → a < u32_mod
    → b < u32_mod
    → a < b + int_mod
    → b < a + int_mod
    → seq_diff a b ≡ sub_ℕ a b
unfolding seq_diff bits_int
seq_diff_lem a b h k near near' = ground arith

-- Within MAX_REQUE_INTERVAL seconds of the last change a client that is no pilot leaves its queue as it
-- is, whatever the frames say.
pub resync_holds :
    (h : BufHdr) (time : ℕ) (c : Sclient)
    → h.is_pilot ≡ false
    → time ≤ c.reque_time + max_reque_interval
    → resync h time c ≡ c
unfolding resync requeues
resync_holds h time c n early = ground arith

-- The queue after a change that is due.
resync_due :
    (h : BufHdr) (time : ℕ) (c : Sclient)
    → h.is_pilot ≡ false
    → requeues h c.frmdiff time c.reque_time ≡ true
    → let newopt = pos (c.rq.elems) -ℤ c.frmdiff in
      ((resync h time c).rq ≡ (if ltb_ℤ (pos 8) newopt then force_optim newopt c.rq else c.rq))
      × ((resync h time c).reque_time ≡ time)
unfolding resync
resync_due h time c n due = ground arith

sub_sub : (n a b : ℕ) → a ≤ n + b → pos n -ℤ sub_ℕ a b ≡ pos (n + b - a)
unfolding ◌-ℤ◌
sub_sub n a b h = ground arith

forced_below : (w m : ℕ) → w < m → m < int_mod → forced_optim (pos w) m ≡ w
unfolding forced_optim
forced_below w m h s = ground arith

enough_optim :
    (w : ℕ) (q : Circle)
    → 8 < w
    → (if ltb_ℤ (pos 8) (pos w) then force_optim (pos w) q else q) ≡ force_optim (pos w) q
enough_optim w q h = ground arith

-- A change that is due, on a client whose frame is `ahead` of the pilot's or behind it: one that lies
-- `d` frames behind drops the `d` oldest frames it holds, more than 8 being left, and waits if its queue
-- is now short; one that lies `d` frames ahead drops nothing and waits for `d` more frames. Both then
-- have the optimum that puts them on the pilot's frame.
resync_moves :
    (h : BufHdr) (time : ℕ) (c : Sclient) (behind ahead : ℕ)
    → IsValid c.rq
    → h.is_pilot ≡ false
    → requeues h c.frmdiff time c.reque_time ≡ true
    → c.frmdiff ≡ sub_ℕ behind ahead
    → 8 + behind < c.rq.elems + ahead
    → c.rq.elems + ahead < c.rq.maxqsz + behind
    → c.rq.elems + ahead ≢ c.rq.optim + behind
    → let q' = (resync h time c).rq in
      (q'.optim + behind ≡ c.rq.elems + ahead)
      × (q'.elems ≡ c.rq.elems - (behind - ahead))
      × (q'.geti ≡ (c.rq.geti + (behind - ahead)) % c.rq.maxqsz)
      × (q'.block_get ≡ (if ltb ahead behind then c.rq.block_get else true))
      × ((resync h time c).reque_time ≡ time)
resync_moves h time c behind ahead v n due e enough room ne =
    let w = c.rq.elems + ahead - behind in
    let (opt, below, left, at, put, waits) =
      force_optim_lem (pos w) c.rq v
        (rw (forced_below w c.rq.maxqsz (omega arith) v.small) (omega arith)) in
    rw moved (
      omega (arith, opt, optim_is),
      omega (arith, left, optim_is),
      at ∙ ap (λ (k : ℕ). (c.rq.geti + k) % c.rq.maxqsz) (omega (arith, optim_is)),
      waits ∙ ap (λ (b : Bool). if b then c.rq.block_get else true) shorter,
      (resync_due h time c n due).1,
    )
  where
    optim_is :
        forced_optim (pos (c.rq.elems + ahead - behind)) c.rq.maxqsz ≡ c.rq.elems + ahead - behind
    optim_is = forced_below (c.rq.elems + ahead - behind) c.rq.maxqsz (omega arith) v.small

    shorter :
        ltb (forced_optim (pos (c.rq.elems + ahead - behind)) c.rq.maxqsz) c.rq.elems
        ≡ ltb ahead behind
    shorter = rw optim_is (ground arith)

    new_optim : pos (c.rq.elems) -ℤ c.frmdiff ≡ pos (c.rq.elems + ahead - behind)
    new_optim =
        ap (λ (z : ℤ). pos (c.rq.elems) -ℤ z) e ∙ sub_sub c.rq.elems behind ahead (omega arith)

    moved : (resync h time c).rq ≡ force_optim (pos (c.rq.elems + ahead - behind)) c.rq
    moved =
        (resync_due h time c n due).0
        ∙ ap (λ (z : ℤ). if ltb_ℤ (pos 8) z then force_optim z c.rq else c.rq) new_optim
        ∙ enough_optim (c.rq.elems + ahead - behind) c.rq (omega arith)

-- The queue after a report is the one that resync leaves, at the difference of the frames' numbers.
check_frame-resync :
    (h : BufHdr) (buf_len time fut : ℕ) (c : Sclient)
    → h.frm_sig ≡ sync_data
    → h.pilot_seq ≢ 0
    → let c' = (check_frame h buf_len time fut c).0 in
      let c'' = resync h time (record c { frmdiff = seq_diff h.pilot_seq h.cur_seq }) in
      (c'.rq ≡ c''.rq) × (c'.reque_time ≡ c''.reque_time)
unfolding check_frame resync report
check_frame-resync h buf_len time fut c s p = ground (arith, s, p)

shifted : (a b x y : ℕ) → a + y ≡ b + x → sub_ℕ a b ≡ sub_ℕ x y
shifted a b x y e = ground (arith, e)

-- A report's frame to a client that is no pilot, on a valid queue, where a re-queue is due, and where the
-- number of the frame lies `behind` below and `ahead` above the pilot's (less than 2 ^ 31 apart): if the new
-- optimum, elems + ahead - behind, is above 8, below the capacity and not the old one, it becomes the
-- optimum; exactly behind - ahead oldest frames are dropped, and the queue waits as before if there
-- are any, and waits anew otherwise; the time is noted.
pub report_moves :
    (h : BufHdr) (buf_len time fut : ℕ) (c : Sclient) (behind ahead : ℕ)
    → IsValid c.rq
    → h.frm_sig ≡ sync_data
    → h.pilot_seq ≢ 0
    → h.is_pilot ≡ false
    → h.pilot_seq < u32_mod
    → h.cur_seq < u32_mod
    → h.pilot_seq < h.cur_seq + int_mod
    → h.cur_seq < h.pilot_seq + int_mod
    → h.cur_seq + behind ≡ h.pilot_seq + ahead
    → requeues h (sub_ℕ behind ahead) time c.reque_time ≡ true
    → 8 + behind < c.rq.elems + ahead
    → c.rq.elems + ahead < c.rq.maxqsz + behind
    → c.rq.elems + ahead ≢ c.rq.optim + behind
    → let c' = (check_frame h buf_len time fut c).0 in
      (c'.rq.optim + behind ≡ c.rq.elems + ahead)
      × (c'.rq.elems ≡ c.rq.elems - (behind - ahead))
      × (c'.rq.geti ≡ (c.rq.geti + (behind - ahead)) % c.rq.maxqsz)
      × (c'.rq.block_get ≡ (if ltb ahead behind then c.rq.block_get else true))
      × (c'.reque_time ≡ time)
report_moves h buf_len time fut c behind ahead v s p n in_pilot in_cur near near' apart due enough
      room ne =
    let diff : seq_diff h.pilot_seq h.cur_seq ≡ sub_ℕ behind ahead =
      seq_diff_lem h.pilot_seq h.cur_seq in_pilot in_cur near near'
      ∙ shifted h.pilot_seq h.cur_seq behind ahead (omega (arith, apart)) in
    let at = record c { frmdiff = seq_diff h.pilot_seq h.cur_seq } in
    let (q, t) = check_frame-resync h buf_len time fut c s p in
    let (opt, elems, geti, waits, noted) =
      resync_moves h time at behind ahead v n
        (ap (λ (d : ℤ). requeues h d time c.reque_time) diff ∙ due) diff enough room ne in
    (
      ap (λ (x : Circle). x.optim + behind) q ∙ opt,
      ap (λ (x : Circle). x.elems) q ∙ elems,
      ap (λ (x : Circle). x.geti) q ∙ geti,
      ap (λ (x : Circle). x.block_get) q ∙ waits,
      t ∙ noted,
    )
