-- ===== src/Client/Aimed.antt =====
-- What a report's frame does to the play queue (_check_stream of cli/sclient.cpp), apart from the rest of
-- the client.
use the_multi_room_speaker.Base.{
  ℕ, ◌*◌, ◌≡◌, ◌<◌, ◌≢◌, refl, sym, ap, ◌∙◌, subst, ◌&&◌, not, Option, none, some, List, length,
  ◌==◌, if◌then◌else◌, get_elem?, set, arith,
}
use the_multi_room_speaker.Base.Int.{ℤ, pos, ◌-ℤ◌, ltb_ℤ}
use the_multi_room_speaker.Wire.{BufHdr, sync_data, reset_all, cli_sync_percent, synched_delta}
use the_multi_room_speaker.Circle.{
  Chunk, Circle, slot, modify, release, unlock, forced_optim, force_optim,
}
use the_multi_room_speaker.Circle.Fifo.{Buffer, retarget}
use the_multi_room_speaker.Circle.Fifo.View.{view, IsQuiet, use_slot}
use the_multi_room_speaker.Circle.Fifo.Refine.{force_optim_refines}
use the_multi_room_speaker.Client.{Sclient, seq_diff, requeues, resync, report, check_frame}

-- The optimum that a frame's header asks for, if it does, and the time of the last change from then on;
-- `len` is the length of the queue.
unfoldable pub adjust : BufHdr → (time reque_time len : ℕ) → Option ℤ × ℕ
adjust h time reque_time len =
    let newopt = pos len -ℤ seq_diff h.pilot_seq h.cur_seq in
    let aim : Option ℤ = if ltb_ℤ (pos (synched_delta * 2)) newopt then some newopt else none in
    if h.frm_sig == sync_data && not (h.pilot_seq == 0)
    then (if h.is_pilot
        then (some (pos cli_sync_percent), reque_time)
        else if requeues h (seq_diff h.pilot_seq h.cur_seq) time reque_time
        then (aim, time)
        else (none, reque_time))
    else (none, reque_time)

unfoldable pub retuned : Option ℤ → Circle → Circle
retuned none q = q
retuned (some n) q = force_optim n q

unfoldable pub retuned_list : Option ℤ → ℕ → Buffer → Buffer
retuned_list none cap b = b
retuned_list (some n) cap b = retarget (forced_optim n cap) b

pub check_frame-adjust :
    (h : BufHdr) (buf_len time fut : ℕ) (c : Sclient)
    → h.frm_sig ≢ reset_all
    → let c' = (check_frame h buf_len time fut c).0 in
      (c'.rq ≡ retuned (adjust h time c.reque_time c.rq.elems).0 c.rq)
      × (c'.reque_time ≡ (adjust h time c.reque_time c.rq.elems).1)
unfolding check_frame adjust retuned resync report
check_frame-adjust h buf_len time fut c r = ground arith

-- The chunks have no part in it.
pub retuned-queue :
    (o : Option ℤ) (q : Circle) (xs : List Chunk)
    → retuned o (record q { queue = xs }) ≡ record (retuned o q) { queue = xs }
unfolding retuned force_optim
retuned-queue none q xs = refl
retuned-queue (some n) q xs = ground arith

pub queue-retuned : (o : Option ℤ) (q : Circle) → (retuned o q).queue ≡ q.queue
unfolding retuned force_optim
queue-retuned none q = refl
queue-retuned (some n) q = ground arith

pub retuned_refines :
    (o : Option ℤ) {q : Circle}
    → IsQuiet q
    → IsQuiet (retuned o q)
      × (view (retuned o q) ≡ retuned_list o q.maxqsz (view q))
      × ((retuned o q).maxqsz ≡ q.maxqsz)
unfolding retuned retuned_list
retuned_refines none v = (v, refl, refl)
retuned_refines (some n) v = force_optim_refines n v

-- A chunk is written and released with the same result before a new optimum and after it.
pub release-retuned :
    (o : Option ℤ) (q : Circle) (i : ℕ) (k : Chunk) (f : Chunk → Chunk)
    → get_elem? q.queue i ≡ some k
    → i < length q.queue
    → (release (some (slot i)) (modify (slot i) f (retuned o q))).1
      ≡ retuned o (release (some (slot i)) (modify (slot i) f q)).1
unfolding release
release-retuned o q i k f at h =
    let same = queue-retuned o q in
    let k' : Chunk = unlock (f k) in
    use_slot (retuned o q) i k f (ap (λ (xs : List Chunk). get_elem? xs i) same ∙ at)
      (subst (λ (xs : List Chunk). i < length xs) (sym same) h)
    ∙ ap (λ (xs : List Chunk). record (retuned o q) { queue = set xs i k' }) same
    ∙ sym (retuned-queue o q (set q.queue i k'))
    ∙ ap (retuned o) (sym (use_slot q i k f at h))
