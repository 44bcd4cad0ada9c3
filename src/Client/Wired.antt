-- ===== src/Client/Wired.antt =====
-- What the server's sendall puts on the wire, and that the chunks of a queue keep their size.
use the_multi_room_speaker.Base.{
  ℕ, zero, suc, ◌<◌, ◌≡◌, refl, sym, ap, ◌∙◌, true, false, Option, none, some, List, [], ◌∷◌, ◌++◌,
  length, arith, subst, inl, inr, ◌⊎◌,
}
use mathlib.Core.List.{append-nil}
use mathlib.Core.Option.{some-injective}
use the_multi_room_speaker.Wire.Codec.{encode}
use the_multi_room_speaker.Sock.{Kernel, sendall}
use the_multi_room_speaker.Sock.Sending.{Sends, TakesOffered, sendall-Sends}
use the_multi_room_speaker.Circle.{Circle, reblock}
use the_multi_room_speaker.Circle.Fifo.{Frame, deliver, play}
use the_multi_room_speaker.Circle.Fifo.View.{IsQuiet}
use the_multi_room_speaker.Circle.Fifo.Deliver.{deliver_slot}
use the_multi_room_speaker.Circle.Fifo.Play.{play_slot, play-none}
use the_multi_room_speaker.Client.Arrives.{AllSized, IsAlive, get_elem?-IsSized, set-AllSized}
use the_multi_room_speaker.Client.Live.{sent_then, wire}

-- The frames are whole ones between two reports, and ::send takes no more than it is offered.
abbrev pub AllAlive : List (Kernel × Frame) → Type 0
AllAlive [] = Unit {0}
AllAlive ((send, d) ∷ fs) = IsAlive d × TakesOffered send × AllAlive fs

length-zero : (xs : List ℕ) → length xs ≡ 0 → xs ≡ []
length-zero [] e = refl
length-zero (x ∷ xs) e = absurd (omega arith)

-- A buffer that was sent whole.
sent_whole :
    (send : Kernel) (buff taken : List ℕ)
    → TakesOffered send
    → sendall send buff 8000 ≡ some (taken, 0)
    → taken ≡ buff
sent_whole send buff taken k e =
    let (rest, split, none_left) = subst (Sends buff) e (sendall-Sends send buff 8000 k) in
    sym (append-nil taken)
    ∙ ap (λ (xs : List ℕ). taken ++ xs) (sym (length-zero rest none_left))
    ∙ split

sent_then-some :
    (x : Option (List ℕ × ℕ)) (y : Option (List ℕ)) (bs : List ℕ)
    → sent_then x y ≡ some bs
    → (taken more : List ℕ) × (x ≡ some (taken, 0)) × (y ≡ some more) × (bs ≡ taken ++ more)
unfolding sent_then
sent_then-some none y bs e = cc
sent_then-some (some (taken, suc left)) y bs e = cc
sent_then-some (some (taken, zero)) none bs e = cc
sent_then-some (some (taken, zero)) (some more) bs e =
    (taken, more, refl, refl, sym (some-injective (taken ++ more) bs e))

-- What has gone out is the first frame and what follows.
pub wire-cons :
    (send : Kernel) (d : Frame) (fs : List (Kernel × Frame)) (bs : List ℕ)
    → TakesOffered send
    → wire ((send, d) ∷ fs) ≡ some bs
    → (more : List ℕ) × (wire fs ≡ some more) × (bs ≡ (encode d.0 ++ d.1) ++ more)
unfolding wire
wire-cons send d fs bs k e =
    let (taken, more, sent, rest, joined) =
      sent_then-some (sendall send (encode d.0 ++ d.1) 8000) (wire fs) bs e in
    (
      more,
      rest,
      joined ∙ ap (λ (xs : List ℕ). xs ++ more) (sent_whole send (encode d.0 ++ d.1) taken k sent),
    )

pub deliver-AllSized :
    (d : Frame) (q q' : Circle)
    → IsQuiet q
    → length d.1 ≡ 4096
    → AllSized q.queue
    → deliver d q ≡ some q'
    → AllSized q'.queue
unfolding reblock
deliver-AllSized d q q' v l a e =
    let (k, at, made) = deliver_slot d v in
    let sized = get_elem?-IsSized q.queue q.puti k a at in
    subst (λ (x : Circle). AllSized x.queue) (some-injective _ q' (sym made ∙ e))
      (set-AllSized q.queue q.puti _ a (sized.0, l))

idle_or_ready :
    (q : Circle) → ((q.elems ≡ 0) ⊎ (q.block_get ≡ true)) ⊎ ((0 < q.elems) × (q.block_get ≡ false))
idle_or_ready q = ground arith

second :
    {o o' : Option Frame} {q q' : Circle}
    → ◌≡◌ {A = Option (Option Frame × Circle)} (some (o, q)) (some (o', q'))
    → q ≡ q'
second {o} {o'} {q} {q'} e =
    ap (λ (r : Option Frame × Circle). r.1) (some-injective (o, q) (o', q') e)

pub play-AllSized :
    (q q' : Circle) (o : Option Frame)
    → IsQuiet q
    → AllSized q.queue
    → play q ≡ some (o, q')
    → AllSized q'.queue
unfolding reblock
play-AllSized q q' o v a e = elim (idle_or_ready q) [
  | inl none_ready ↦
      subst (λ (x : Circle). AllSized x.queue) (second (sym (play-none q none_ready) ∙ e)) a
  | inr (some_in, opened) ↦
      let (k, at, made) = play_slot v some_in opened in
      let sized = get_elem?-IsSized q.queue q.geti k a at in
      subst (λ (x : Circle). AllSized x.queue) (second (sym made ∙ e))
        (set-AllSized q.queue q.geti _ a sized)
]
