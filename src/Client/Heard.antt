-- ===== src/Client/Heard.antt =====
-- What the client plays, reports and changes of the optimum among what it receives.
use the_multi_room_speaker.Base.{
  ℕ, suc, ◌≤◌, ◌≡◌, refl, sym, ap, ◌∙◌, subst, Option, none, some, List, [], ◌∷◌, ◌++◌, ltb, ◌==◌,
  length, arith, Bool-cases, inl, inr,
}
use mathlib.Core.List.{append_assoc, append-nil, Sublist}
use mathlib.Core.List.Sublist
use mathlib.Core.Option.{some-injective}
use the_multi_room_speaker.Base.Int.{ℤ}
use the_multi_room_speaker.Sock.{Segment, Kernel}
use the_multi_room_speaker.Sock.Stream.{flat, IsData}
use the_multi_room_speaker.Circle.{forced_optim}
use the_multi_room_speaker.Circle.Fifo.{
  Frame, Buffer, push, pop, and_then_items, keep_last, retarget,
}
use the_multi_room_speaker.Circle.Fifo.View.{view, IsQuiet}
use the_multi_room_speaker.Circle.Fifo.Refine.{Agrees, if_some}
use the_multi_room_speaker.Client.{Sclient}
use the_multi_room_speaker.Client.Aimed.{adjust, retuned_list}
use the_multi_room_speaker.Client.Arrives.{AllSized}
use the_multi_room_speaker.Client.Live.{wire, Turn, arrives, plays_one, Living, live, arrivals}
use the_multi_room_speaker.Client.Kept.{
  first_sent, popped, popped-append, pop_split, and_then_items-some,
}
use the_multi_room_speaker.Client.Follows.{follows, AllWhole, queue_of, live-Agrees}

keep_last-Sublist : (n : ℕ) (ds : List Frame) → Sublist (keep_last n ds) ds
unfolding keep_last
keep_last-Sublist n [] = Sublist.refl []
keep_last-Sublist n (d ∷ ds) = elim (Bool-cases (ltb n (suc (length ds)))) [
  | inl e ↦ rw (e, keep_last) (Sublist.cons d (keep_last-Sublist n ds))
  | inr e ↦ rw (e, keep_last) (Sublist.refl (d ∷ ds))
]

retarget-Sublist : (n : ℕ) (b : Buffer) → Sublist (retarget n b).items b.items
unfolding retarget
retarget-Sublist n b = elim (Bool-cases (n == b.optim)) [
  | inl e ↦ rw (e, retarget) (Sublist.refl b.items)
  | inr e ↦ elim (Bool-cases (ltb n (length b.items))) [
    | inl f ↦ rw (e, f, retarget) (keep_last-Sublist n b.items)
    | inr f ↦ rw (e, f, retarget) (Sublist.refl b.items)
  ]
]

retuned_list-Sublist :
    (o : Option ℤ) (cap : ℕ) (b : Buffer) → Sublist (retuned_list o cap b).items b.items
unfolding retuned_list
retuned_list-Sublist none cap b = Sublist.refl b.items
retuned_list-Sublist (some n) cap b = retarget-Sublist (forced_optim n cap) b

popped-Sublist :
    (o : Option Frame) (xs ys : List Frame) → Sublist xs ys → Sublist (popped o xs) (popped o ys)
popped-Sublist none xs ys s = s
popped-Sublist (some d) xs ys s = Sublist.cons-cons d s

pop-Sublist :
    (b : Buffer) (x : Option (List Frame × Buffer)) (ds : List Frame) (r : List Frame × Buffer)
    → and_then_items (pop b).0 x ≡ some r
    → ((t : List Frame × Buffer) → x ≡ some t → Sublist (t.0 ++ t.1.items) ((pop b).1.items ++ ds))
    → Sublist (r.0 ++ r.1.items) (b.items ++ ds)
pop-Sublist b x ds r e ih =
    let (t, f, front, back) = and_then_items-some (pop b).0 x r e in
    let o = (pop b).0 in
    let left : popped o (t.0 ++ t.1.items) ≡ r.0 ++ r.1.items =
      sym (popped-append o t.0 t.1.items)
      ∙ ap (λ (xs : List Frame). xs ++ t.1.items) (sym front)
      ∙ ap (λ (y : Buffer). r.0 ++ y.items) (sym back) in
    let right : popped o ((pop b).1.items ++ ds) ≡ b.items ++ ds =
      sym (popped-append o (pop b).1.items ds) ∙ ap (λ (xs : List Frame). xs ++ ds) (pop_split b) in
    subst (λ (xs : List Frame). Sublist xs (b.items ++ ds)) left
      (subst (Sublist (popped o (t.0 ++ t.1.items))) right
        (popped-Sublist o (t.0 ++ t.1.items) ((pop b).1.items ++ ds) (ih t f)))

-- The list of frames keeps their order, and doubles none.
follows-Sublist :
    (cap : ℕ) (ts : List Turn) (fs : List (Kernel × Frame)) (rt : ℕ) (b : Buffer)
    {r : List Frame × Buffer}
    → follows cap ts fs rt b ≡ some r
    → arrivals ts ≤ length fs
    → Sublist (r.0 ++ r.1.items) (b.items ++ first_sent (arrivals ts) fs)
unfolding follows arrivals push
follows-Sublist cap [] fs rt b {r} e n =
    subst (λ (x : List Frame × Buffer). Sublist (x.0 ++ x.1.items) (b.items ++ []))
      (some-injective ([], b) r e)
      (subst (Sublist b.items) (sym (append-nil b.items)) (Sublist.refl b.items))
follows-Sublist cap (arrives time fut ∷ ts) [] rt b e n = absurd (omega arith)
follows-Sublist cap (arrives time fut ∷ ts) ((send, d) ∷ fs) rt b {r} e n =
    let (o, rt') = adjust d.0 time rt (length (push d b).items) in
    let b' = retuned_list o cap (push d b) in
    let (room, later) = if_some (ltb (length b.items) cap) (follows cap ts fs rt' b') e in
    let ds = first_sent (arrivals ts) fs in
    subst (Sublist (r.0 ++ r.1.items)) (append_assoc b.items (d ∷ []) ds) (
      Sublist.trans (follows-Sublist cap ts fs rt' b' later (omega arith))
        (Sublist.append (retuned_list-Sublist o cap (push d b)) (Sublist.refl ds)))
follows-Sublist cap (plays_one ∷ ts) fs rt b {r} e n =
    pop-Sublist b (follows cap ts fs rt (pop b).1) (first_sent (arrivals ts) fs) r e
      (λ t f. follows-Sublist cap ts fs rt (pop b).1 f n)

pub Agrees-some :
    (x : Option Living) (r : List Frame × Buffer)
    → Agrees (queue_of x) r
    → (out : Living) × (x ≡ some out) × (out.0 ≡ r.0) × (view out.2.rq ≡ r.1)
Agrees-some none r h = absurd h
Agrees-some (some out) r (ds, shown, quiet) = (out, refl, ds, shown)

-- The server sends whole frames, reports among them, each of which sendall takes whole, where ::send takes
-- no more than it is offered; TCP delivers their bytes, cut in any way; and the client, whose queue is at
-- rest with chunks of the size reserved, receives and plays in turns of any order in which no frame comes
-- in while the queue is full. Then no access is outside the queue, the connection is kept, and what is
-- played and what waits is what the list of frames plays and holds, which a report shortens or makes wait
-- exactly as its header asks for: some of what waited at first and of the frames that have come in, as the
-- server sent them, none double, in their order.
pub live-follows :
    (ts : List Turn) (fs : List (Kernel × Frame)) (bs rest : List ℕ) (s : List Segment)
    (c : Sclient) (r : List Frame × Buffer)
    → wire fs ≡ some bs
    → AllWhole fs
    → arrivals ts ≤ length fs
    → IsData s
    → flat s ≡ bs ++ rest
    → IsQuiet c.rq
    → AllSized c.rq.queue
    → follows c.rq.maxqsz ts fs c.reque_time (view c.rq) ≡ some r
    → (out : Living) × (live ts s c ≡ some out)
      × (out.0 ≡ r.0)
      × (view out.2.rq ≡ r.1)
      × Sublist (out.0 ++ (view out.2.rq).items) ((view c.rq).items ++ first_sent (arrivals ts) fs)
live-follows ts fs bs rest s c r w a n segs fl quiet sized h =
    let agrees =
      live-Agrees c.rq.maxqsz ts fs bs rest s c (view c.rq) w a n segs fl
        (record { quiet = quiet; sized = sized; slots = refl }) refl h in
    let (out, e, ds, shown) = Agrees-some (live ts s c) r agrees in
    let all : r.0 ++ r.1.items ≡ out.0 ++ (view out.2.rq).items =
      ap (λ (xs : List Frame). xs ++ r.1.items) (sym ds)
      ∙ ap (λ (b : Buffer). out.0 ++ b.items) (sym shown) in
    (
      out,
      e,
      ds,
      shown,
      subst (λ (xs : List Frame). Sublist xs ((view c.rq).items ++ first_sent (arrivals ts) fs)) all
          (follows-Sublist c.rq.maxqsz ts fs c.reque_time (view c.rq) h n),
    )
