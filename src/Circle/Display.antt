-- ===== src/Circle/Display.antt =====
-- Circle::display of common/srvq.h: a character for every slot of the queue, in an array of 512.
use the_multi_room_speaker.Base.{
  ℕ, zero, suc, ◌+◌, Bool, ◌&&◌, ◌||◌, not, Option, none, some, List, [], ◌∷◌, ltb, leb, ◌==◌,
  if◌then◌else◌, length, get_elem?,
}
use the_multi_room_speaker.Circle.{Chunk, Circle}

-- Does the slot hold a frame, as far as display can see?
unfoldable pub in_use : ℕ → Circle → Bool
in_use idx q =
    if ltb q.geti q.puti
    then leb idx q.puti && leb q.geti idx
    else if ltb q.puti q.geti
    then leb idx q.puti || leb q.geti idx
    else not (q.elems == 0)

-- 'X' and 'x' are slots in use, '^' and '.' the others; the first of each is locked.
unfoldable pub slot_char : Bool → Chunk → ℕ
slot_char used k = if k.locked then (if used then 88 else 94) else if used then 120 else 46

-- The character of a slot: 'p' and 'g' where `_puti` and `_geti` are.
unfoldable pub mark : ℕ → Circle → Option ℕ
mark idx q =
    if q.puti == idx
    then some 112
    else if q.geti == idx
    then some 103
    else elim (get_elem? q.queue idx) [ none ↦ none | some k ↦ some (slot_char (in_use idx q) k) ]

-- The slots from `idx` on, `left` of them; none is an access outside `ql` or `_queue`.
unfoldable pub display_from : (left idx : ℕ) → Circle → Option (List ℕ)
display_from zero idx q = some []
display_from (suc left) idx q =
    let rest = display_from left (idx + 1) q in
    if ltb idx 512
    then elim (mark idx q) [
      | none ↦ none
      | some c ↦ elim rest [ none ↦ none | some text ↦ some (c ∷ text) ]
    ]
    else none

-- display(): the text that is shown, which ends at a zero inside `ql`.
unfoldable pub display : Circle → Option (List ℕ)
display q = elim (display_from q.maxqsz 0 q) [
  | none ↦ none
  | some text ↦ if ltb (length text) 512 then some text else none
]
