-- ===== src/Client/Follows.antt =====
-- What a speaker does with the frames that come in, reports among them, on a list of frames.
use the_multi_room_speaker.Base.{
  ℕ, ◌+◌, ◌<◌, ◌≤◌, ◌≡◌, refl, sym, ap, ◌∙◌, true, Option, none, some, List, [], ◌∷◌, ◌++◌, ltb,
  if◌then◌else◌, length, length-append, arith, subst,
}
use mathlib.Core.List.{append_assoc}
use mathlib.Core.Option.{some-injective}
use the_multi_room_speaker.Base.Int.{ℤ}
use the_multi_room_speaker.Wire.Codec.{encode}
use the_multi_room_speaker.Sock.{Segment, Kernel}
use the_multi_room_speaker.Sock.Stream.{flat, IsData}
use the_multi_room_speaker.Sock.Sending.{TakesOffered}
use the_multi_room_speaker.Circle.{Circle}
use the_multi_room_speaker.Circle.Window.{length-window}
use the_multi_room_speaker.Circle.Fifo.{Frame, Buffer, deliver, push, pop, and_then, and_then_items}
use the_multi_room_speaker.Circle.Fifo.View.{frame_at, view, IsQuiet}
use the_multi_room_speaker.Circle.Fifo.Deliver.{deliver_refines}
use the_multi_room_speaker.Circle.Fifo.Play.{play_refines, Plays}
use the_multi_room_speaker.Circle.Fifo.Refine.{Agrees, if_some, and_then-Agrees}
use the_multi_room_speaker.Client.{Sclient, Got, get_data}
use the_multi_room_speaker.Client.Aimed.{
  adjust, retuned, retuned_list, queue-retuned, retuned_refines,
}
use the_multi_room_speaker.Client.Arrives.{AllSized, IsWhole, arrive_whole}
use the_multi_room_speaker.Client.Live.{
  wire, Turn, arrives, plays_one, Living, played, live, arrivals,
}
use the_multi_room_speaker.Client.Wired.{wire-cons, deliver-AllSized, play-AllSized}

-- The turns on a list of at most `cap` frames: each frame goes to its end, and a report may then ask for
-- another optimum, if the last change at `reque_time` is long ago. What is played, and what is left.
-- `none`: a frame came while the list was full.
unfoldable pub follows :
    (cap : ℕ)
    → List Turn
    → List (Kernel × Frame)
    → (reque_time : ℕ) → Buffer
    → Option (List Frame × Buffer)
follows cap [] fs rt b = some ([], b)
follows cap (arrives time fut ∷ ts) [] rt b = follows cap ts [] rt b
follows cap (arrives time fut ∷ ts) ((send, d) ∷ fs) rt b =
    let (o, rt') = adjust d.0 time rt (length (push d b).items) in
    let rest = follows cap ts fs rt' (retuned_list o cap (push d b)) in
    if ltb (length b.items) cap then rest else none
follows cap (plays_one ∷ ts) fs rt b = and_then_items (pop b).0 (follows cap ts fs rt (pop b).1)

-- The frames are whole ones, reports or not, and ::send takes no more than it is offered.
abbrev pub AllWhole : List (Kernel × Frame) → Type 0
AllWhole [] = Unit {0}
AllWhole ((send, d) ∷ fs) = IsWhole d × TakesOffered send × AllWhole fs

-- What was played and the queue, of a living connection.
abbrev pub queue_of : Option Living → Option (List Frame × Circle)
queue_of none = none
queue_of (some (ds, s, c)) = some (ds, c.rq)

queue_of-played :
    (d : Option Frame) (x : Option Living) → queue_of (played d x) ≡ and_then d (queue_of x)
queue_of-played none x = refl
queue_of-played (some d) none = refl
queue_of-played (some d) (some (ds, s, c)) = refl

-- The client between two turns: the queue is at rest, and its chunks have the size that was reserved.
pub record IsReady (cap : ℕ) (c : Sclient) : Type 0 where
  pub quiet : IsQuiet c.rq
  pub sized : AllSized c.rq.queue
  pub slots : c.rq.maxqsz ≡ cap

length-push :
    (d : Frame) (q : Circle) (b : Buffer) → view q ≡ b → q.elems + 1 ≡ length (push d b).items
unfolding push
length-push d q b e = omega (
  arith,
  ap (λ (x : Buffer). length x.items) e,
  length-window (frame_at q.queue) q.maxqsz q.geti q.elems,
  length-append b.items (d ∷ []),
)

-- The client once a frame has come in.
heard-IsReady :
    {cap : ℕ} (d : Frame) (o : Option ℤ) (q' : Circle) (c c' : Sclient)
    → length d.1 ≡ 4096
    → IsReady cap c
    → deliver d c.rq ≡ some q'
    → IsQuiet q'
    → q'.maxqsz ≡ c.rq.maxqsz
    → c'.rq ≡ retuned o q'
    → IsReady cap c'
heard-IsReady {cap} d o q' c c' whole ready made quiet' c'' e =
    let (v, seen, slots) = retuned_refines o quiet' in
    let sized = deliver-AllSized d c.rq q' ready.quiet whole ready.sized made in
    record {
      quiet = subst IsQuiet (sym e) v;
      sized =
          subst (λ (q : Circle). AllSized q.queue) (sym e)
            (subst AllSized (sym (queue-retuned o q')) sized);
      slots = ap (λ (q : Circle). q.maxqsz) e ∙ slots ∙ c'' ∙ ready.slots;
    }

pub live-Agrees :
    (cap : ℕ) (ts : List Turn) (fs : List (Kernel × Frame)) (bs rest : List ℕ) (s : List Segment)
    (c : Sclient) (b : Buffer) {r : List Frame × Buffer}
    → wire fs ≡ some bs
    → AllWhole fs
    → arrivals ts ≤ length fs
    → IsData s
    → flat s ≡ bs ++ rest
    → IsReady cap c
    → view c.rq ≡ b
    → follows cap ts fs c.reque_time b ≡ some r
    → Agrees (queue_of (live ts s c)) r
unfolding live follows arrivals
live-Agrees cap [] fs bs rest s c b w a n segs fl ready e h =
    (ground arith, ground arith, ready.quiet)
live-Agrees cap (arrives time fut ∷ ts) [] bs rest s c b w a n segs fl ready e h =
    absurd (omega arith)
live-Agrees cap (arrives time fut ∷ ts) ((send, d) ∷ fs) bs rest s c b {r} w (whole, takes, a) n
      segs fl ready e h =
    let (o, rt') = adjust d.0 time c.reque_time (length (push d b).items) in
    let b' = retuned_list o cap (push d b) in
    let (room, later) = if_some (ltb (length b.items) cap) (follows cap ts fs rt' b') h in
    let (more, w', joined) = wire-cons send d fs bs takes w in
    let heard =
      subst
        (λ (len : ℕ).
          let (o', t) = adjust d.0 time c.reque_time len in
          (g : Got) × (get_data s time fut c ≡ some g)
          × (g.kept ≡ true)
          × (flat g.left ≡ more ++ rest)
          × IsData g.left
          × (g.client.reque_time ≡ t)
          × (q : Circle) × (deliver d c.rq ≡ some q)
          × (g.client.rq ≡ retuned o' q))
        (length-push d c.rq b e)
        (arrive_whole d (more ++ rest) s time fut c whole segs (carried more joined) ready.quiet
          ready.sized) in
    let (g, got, kept, left, segs', t, q1, filled, rq) = heard in
    let (q', made, quiet', e', c') = deliver_refines d ready.quiet (free_slot room) in
    let same = some-injective q' q1 (sym made ∙ filled) in
    let (v, seen, slots) = retuned_refines o quiet' in
    let rq' = rq ∙ ap (retuned o) (sym same) in
    rw (got, kept, live)
      (live-Agrees cap ts fs more rest g.left g.client b' w' a (omega arith) segs' left
        (heard-IsReady d o q' c g.client whole.whole ready made quiet' c' rq')
        (ap view rq'
          ∙ seen
          ∙ ap (λ (m : ℕ). retuned_list o m (view q')) (c' ∙ ready.slots)
          ∙ ap (retuned_list o cap) (e' ∙ ap (push d) e))
        (subst (λ (x : ℕ). follows cap ts fs x b' ≡ some r) (sym t) later))
  where
    carried :
        (more : List ℕ)
        → bs ≡ (encode d.0 ++ d.1) ++ more
        → flat s ≡ encode d.0 ++ (d.1 ++ (more ++ rest))
    carried more joined =
        fl
        ∙ ap (λ (xs : List ℕ). xs ++ rest) joined
        ∙ append_assoc (encode d.0 ++ d.1) more rest
        ∙ append_assoc (encode d.0) d.1 (more ++ rest)

    free_slot : ltb (length b.items) cap ≡ true → c.rq.elems < c.rq.maxqsz
    free_slot room = ground (
      arith,
      ready.slots,
      ap (λ (x : Buffer). length x.items) e,
      length-window (frame_at c.rq.queue) c.rq.maxqsz c.rq.geti c.rq.elems,
    )
live-Agrees cap (plays_one ∷ ts) fs bs rest s c b {r} w a n segs fl ready e h =
    let (q', made, v', e', c') =
      subst (λ (x : Buffer). Plays c.rq (pop x)) e (play_refines ready.quiet) in
    let next = record c { rq = q' } in
    rw (made, live)
      (subst (λ (x : Option (List Frame × Circle)). Agrees x r)
        (sym (queue_of-played (pop b).0 (live ts s next)))
        (and_then-Agrees (pop b).0 (queue_of (live ts s next))
          (follows cap ts fs c.reque_time (pop b).1) h
          λ r' e''.
            live-Agrees cap ts fs bs rest s next (pop b).1 w a n segs fl
              (record {
                quiet = v';
                sized = play-AllSized c.rq q' (pop b).0 ready.quiet ready.sized made;
                slots = c' ∙ ready.slots;
              })
              e' e''))
