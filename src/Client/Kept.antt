-- ===== src/Client/Kept.antt =====
-- The list of frames against the frames that were sent.
use the_multi_room_speaker.Base.{
  ℕ, zero, suc, ◌≤◌, ◌≡◌, refl, sym, ap, ◌∙◌, Bool, true, false, Option, none, some, List, [], ◌∷◌,
  ◌++◌, ltb, length, arith,
}
use mathlib.Core.List.{append_assoc, append-nil}
use mathlib.Core.Option.{some-injective}
use the_multi_room_speaker.Sock.{Kernel}
use the_multi_room_speaker.Circle.Fifo.{Frame, Buffer, push, pop, run_buffer, and_then_items}
use the_multi_room_speaker.Circle.Fifo.Refine.{if_some}
use the_multi_room_speaker.Client.Live.{Turn, arrives, plays_one, history, arrivals}

-- The first `n` frames that were sent.
abbrev pub first_sent : ℕ → List (Kernel × Frame) → List Frame
first_sent zero fs = []
first_sent (suc n) [] = []
first_sent (suc n) ((send, d) ∷ fs) = d ∷ first_sent n fs

-- A frame that is taken out, if one is, before others.
abbrev pub popped : Option Frame → List Frame → List Frame
popped none xs = xs
popped (some d) xs = d ∷ xs

pub popped-append :
    (o : Option Frame) (xs ys : List Frame) → popped o xs ++ ys ≡ popped o (xs ++ ys)
popped-append none xs ys = refl
popped-append (some d) xs ys = refl

pop_fields :
    (xs : List Frame) (n : ℕ) (w : Bool)
    → let r = pop (record { items = xs; optim = n; waiting = w }) in popped r.0 r.1.items ≡ xs
unfolding pop
pop_fields xs n true = refl
pop_fields [] n false = refl
pop_fields (d ∷ ds) n false = refl

pub pop_split : (b : Buffer) → popped (pop b).0 (pop b).1.items ≡ b.items
pop_split b = pop_fields b.items b.optim b.waiting

pub and_then_items-some :
    (o : Option Frame) (x : Option (List Frame × Buffer)) (r : List Frame × Buffer)
    → and_then_items o x ≡ some r
    → (t : List Frame × Buffer) × (x ≡ some t) × (r.0 ≡ popped o t.0) × (r.1 ≡ t.1)
and_then_items-some none x r e = (r, e, refl, refl)
and_then_items-some (some d) none r e = cc
and_then_items-some (some d) (some t) r e =
    let same = sym (some-injective (d ∷ t.0, t.1) r e) in
    (
      t,
      refl,
      ap (λ (y : List Frame × Buffer). y.0) same,
      ap (λ (y : List Frame × Buffer). y.1) same,
    )

pop-items :
    (b : Buffer) (x : Option (List Frame × Buffer)) (ds : List Frame) (r : List Frame × Buffer)
    → and_then_items (pop b).0 x ≡ some r
    → ((t : List Frame × Buffer) → x ≡ some t → t.0 ++ t.1.items ≡ (pop b).1.items ++ ds)
    → r.0 ++ r.1.items ≡ b.items ++ ds
pop-items b x ds r e ih =
    let (t, f, front, back) = and_then_items-some (pop b).0 x r e in
    ap (λ (xs : List Frame). xs ++ r.1.items) front
    ∙ ap (λ (y : Buffer). popped (pop b).0 t.0 ++ y.items) back
    ∙ popped-append (pop b).0 t.0 t.1.items
    ∙ ap (popped (pop b).0) (ih t f)
    ∙ sym (popped-append (pop b).0 (pop b).1.items ds)
    ∙ ap (λ (xs : List Frame). xs ++ ds) (pop_split b)

-- The list of frames loses none, doubles none, and keeps their order.
pub run_buffer_keeps :
    (cap : ℕ) (ts : List Turn) (fs : List (Kernel × Frame)) (b : Buffer) {r : List Frame × Buffer}
    → run_buffer cap (history ts fs) b ≡ some r
    → arrivals ts ≤ length fs
    → r.0 ++ r.1.items ≡ b.items ++ first_sent (arrivals ts) fs
unfolding run_buffer history arrivals push
run_buffer_keeps cap [] fs b {r} e n =
    ap (λ (x : List Frame × Buffer). x.0 ++ x.1.items) (sym (some-injective ([], b) r e))
    ∙ sym (append-nil b.items)
run_buffer_keeps cap (arrives time fut ∷ ts) [] b e n = absurd (omega arith)
run_buffer_keeps cap (arrives time fut ∷ ts) ((send, d) ∷ fs) b e n =
    let (room, later) =
      if_some (ltb (length b.items) cap) (run_buffer cap (history ts fs) (push d b)) e in
    run_buffer_keeps cap ts fs (push d b) later (omega arith)
    ∙ append_assoc b.items (d ∷ []) (first_sent (arrivals ts) fs)
run_buffer_keeps cap (plays_one ∷ ts) fs b {r} e n =
    pop-items b (run_buffer cap (history ts fs) (pop b).1) (first_sent (arrivals ts) fs) r e
      (λ t f. run_buffer_keeps cap ts fs (pop b).1 f n)
