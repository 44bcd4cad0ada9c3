-- ===== src/Pipe/Ends.antt =====
-- What the server's pipe leaves behind, and what it gives.
use the_multi_room_speaker.Base.{
  ℕ, zero, suc, ◌+◌, ◌≤◌, ◌≡◌, refl, sym, ap, ◌∙◌, subst, Bool, true, false, Option, none, some,
  List, [], ◌∷◌, ◌++◌, ltb, ◌==◌, ◌&&◌, if◌then◌else◌, length, take, drop, length-append,
  length-take, length-drop, arith, Bool-cases, inl, inr,
}
use mathlib.Core.List.{append-nil}
use mathlib.Core.Option.{some-injective}
use the_multi_room_speaker.Base.Int.{ℤ, pos, pos_part, neg_part}
use the_multi_room_speaker.Sock.Held.{remove, owned, opened-owned}
use the_multi_room_speaker.Client.{overlay}
use the_multi_room_speaker.Pipe.{
  find_file, remove_file, make_fifo, open_file, close_file, wait_read, read_file, PipeLog, PipeOs,
  CPipeIn, asked, exists, cleared, opened, new_pipe, peek, peeks, end_pipe,
}

-- The descriptors that are open; 0 may be one. close releases its descriptor also where it fails.
unfoldable pub held_fds : PipeLog → List ℕ
held_fds [] = []
held_fds ((open_file, r) ∷ l) = (if neg_part r == 0 then pos_part r ∷ [] else []) ++ held_fds l
held_fds ((close_file f, r) ∷ l) = remove (pos_part f) (held_fds l)
held_fds ((c, r) ∷ l) = held_fds l

-- Has a pipe been made that was not removed again?
unfoldable pub made : PipeLog → Bool
made [] = false
made ((make_fifo, r) ∷ l) = if ltb 0 (neg_part r) then made l else true
made ((remove_file, r) ∷ l) = if ltb 0 (neg_part r) then made l else false
made ((c, r) ∷ l) = made l

-- The pipe holds its own descriptor, and what it has made is its own.
record Has (p : CPipeIn) : Type 0 where
  holds : held_fds p.log ≡ owned p.fd
  makes : made p.log ≡ p.own

cleared_lem : (o : PipeOs) → (held_fds (cleared o []) ≡ []) × (made (cleared o []) ≡ false)
unfolding cleared asked held_fds made
cleared_lem o = ground arith

nothing_is : {p : CPipeIn} → ◌≡◌ {A = Option CPipeIn} none (some p) → ⊥
nothing_is e = cc

opened-Has :
    (o : PipeOs) (own : Bool) (l : PipeLog) (p : CPipeIn)
    → held_fds l ≡ []
    → made l ≡ own
    → opened o own l ≡ some p
    → Has p
unfolding opened asked held_fds made
opened-Has o own l p none_held has e =
    elim (Bool-cases (ltb 0 (neg_part (o.returns l open_file)))) [
      | inl failed ↦ absurd (nothing_is (sym (rw (failed, opened) refl) ∙ e))
      | inr good ↦
          let fd = o.returns l open_file in
          let p' : CPipeIn = record { fd = fd; own = own; log = (open_file, fd) ∷ l } in
          subst Has (some-injective p' p (sym (rw (good, opened) refl) ∙ e)) (record {
            holds =
                ap (λ (ys : List ℕ). (if neg_part fd == 0 then pos_part fd ∷ [] else []) ++ ys)
                  none_held
                ∙ append-nil (if neg_part fd == 0 then pos_part fd ∷ [] else [])
                ∙ opened-owned fd (o.open_spares l);
            makes = has;
          })
    ]

new_pipe-Has : (o : PipeOs) (p : CPipeIn) → new_pipe o [] ≡ some p → Has p
unfolding new_pipe asked held_fds made
new_pipe-Has o p e =
    let (none_held, none_made) = cleared_lem o in
    let l1 = cleared o [] in
    let l2 = (find_file, o.returns l1 find_file) ∷ l1 in
    let l3 = (make_fifo, o.returns l2 make_fifo) ∷ l2 in
    elim (Bool-cases (exists o l1)) [
      | inl there ↦
          opened-Has o false l2 p none_held none_made (sym (rw (there, new_pipe) refl) ∙ e)
      | inr gone ↦ elim (Bool-cases (ltb 0 (neg_part (o.returns l2 make_fifo)))) [
        | inl failed ↦
            subst Has
              (some-injective (record { fd = pos 0; own = false; log = l3 }) p
                (sym (rw (gone, failed, new_pipe) refl) ∙ e))
              (record { holds = none_held; makes = rw failed none_made })
        | inr good ↦
            opened-Has o true l3 p none_held (rw good refl)
              (sym (rw (gone, good, new_pipe) refl) ∙ e)
      ]
    ]

peek-Has : (o : PipeOs) (buff : List ℕ) (n : ℕ) (p : CPipeIn) → Has p → Has (peek o buff n p).2
unfolding peek asked held_fds made
peek-Has o buff n p h =
    let r = o.returns p.log (wait_read p.fd) in
    let l = (wait_read p.fd, r) ∷ p.log in
    elim (Bool-cases (ltb 0 (neg_part r))) [
      | inl failed ↦ rw (failed, peek) (record { holds = h.holds; makes = h.makes })
      | inr fine ↦ elim (Bool-cases (ltb 0 (pos_part r) && o.is_set l)) [
        | inl ready ↦ rw (fine, ready, peek) (record { holds = h.holds; makes = h.makes })
        | inr idle ↦ rw (fine, idle, peek) (record { holds = h.holds; makes = h.makes })
      ]
    ]

closed_lem : (z : ℤ) (ys : List ℕ) → ys ≡ owned z → remove (pos_part z) ys ≡ []
closed_lem z ys e = ap (remove (pos_part z)) e ∙ ground arith

closed_fd :
    (o : PipeOs) (p : CPipeIn)
    → Has p
    → let l =
        if pos_part p.fd + neg_part p.fd == 0 then p.log else asked o (close_file p.fd) p.log in
      (held_fds l ≡ []) × (made l ≡ p.own)
unfolding asked held_fds made
closed_fd o p h = elim (Bool-cases (pos_part p.fd + neg_part p.fd == 0)) [
  | inl e ↦ rw e (h.holds ∙ ground (arith, e), h.makes)
  | inr e ↦ rw e (closed_lem p.fd (held_fds p.log) h.holds, h.makes)
]

-- unlink does not fail.
unfoldable pub RemovesFiles : PipeOs → Type 0
RemovesFiles o = (l : PipeLog) → ltb 0 (neg_part (o.returns l remove_file)) ≡ false

end_pipe_lem :
    (o : PipeOs) (p : CPipeIn)
    → RemovesFiles o
    → Has p
    → (held_fds (end_pipe o p) ≡ []) × (made (end_pipe o p) ≡ false)
unfolding end_pipe asked held_fds made RemovesFiles
end_pipe_lem o p removes h =
    let (none_held, still) = closed_fd o p h in
    let l = if pos_part p.fd + neg_part p.fd == 0 then p.log else asked o (close_file p.fd) p.log in
    elim (Bool-cases p.own) [
      | inl mine ↦ rw mine (none_held, rw (removes l) refl)
      | inr other ↦ rw other (none_held, still ∙ other)
    ]

-- read returns no more than it was asked for.
unfoldable pub ReadsOffered : PipeOs → Type 0
ReadsOffered o = (l : PipeLog) (f : ℤ) (n : ℕ) → pos_part (o.returns l (read_file f n)) ≤ n

overlay_within :
    (got buff : List ℕ) → length got ≤ length buff → length (overlay got buff) ≡ length buff
unfolding overlay
overlay_within got buff h =
    omega (arith, length-append got (drop (length got) buff), length-drop (length got) buff)

peek-length :
    (o : PipeOs) (buff : List ℕ) (n : ℕ) (p : CPipeIn)
    → ReadsOffered o
    → n ≤ length buff
    → length (peek o buff n p).1 ≡ length buff
unfolding peek asked ReadsOffered
peek-length o buff n p reads room =
    let r = o.returns p.log (wait_read p.fd) in
    let l = (wait_read p.fd, r) ∷ p.log in
    let m = pos_part (o.returns l (read_file p.fd n)) in
    elim (Bool-cases (ltb 0 (neg_part r))) [
      | inl failed ↦ rw (failed, peek) refl
      | inr fine ↦ elim (Bool-cases (ltb 0 (pos_part r) && o.is_set l)) [
        | inl ready ↦
            rw (fine, ready, peek)
              (overlay_within (take m (o.stored l)) buff
                (ground (arith, reads l p.fd n, length-take m (o.stored l))))
        | inr idle ↦ rw (fine, idle, peek) refl
      ]
    ]

peeks_lem :
    (o : PipeOs) (times n : ℕ) (buff : List ℕ) (p : CPipeIn)
    → ReadsOffered o
    → n ≤ length buff
    → Has p
    → (length (peeks o times n buff p).0 ≡ length buff) × Has (peeks o times n buff p).1
unfolding peeks
peeks_lem o zero n buff p reads room h = (refl, h)
peeks_lem o (suc times) n buff p reads room h =
    let (got, buff', p') = peek o buff n p in
    let same = peek-length o buff n p reads room in
    let (kept, h') =
      peeks_lem o times n buff' p' reads (omega (arith, same)) (peek-Has o buff n p h) in
    (kept ∙ same, h')

-- Where read returns no more than it was asked for, unlink does not fail, and no file opened has
-- descriptor 0 (standard input is open): a pipe that was set up without FD_SET on a negative descriptor,
-- and peeked at any number of times for no more than the buffer holds, has written nothing behind the
-- buffer; and once it is destroyed no descriptor that it opened is open (close releases its descriptor
-- also where it fails), and the pipe that was made in the file system, if one was, is removed.
pub pipe_ends :
    (o : PipeOs) (times n : ℕ) (buff : List ℕ) (p : CPipeIn)
    → ReadsOffered o
    → RemovesFiles o
    → n ≤ length buff
    → new_pipe o [] ≡ some p
    → let (buff', p') = peeks o times n buff p in
      (length buff' ≡ length buff)
      × (held_fds (end_pipe o p') ≡ [])
      × (made (end_pipe o p') ≡ false)
pipe_ends o times n buff p reads removes room e =
    let (kept, h) = peeks_lem o times n buff p reads room (new_pipe-Has o p e) in
    let (closed, gone) = end_pipe_lem o (peeks o times n buff p).1 removes h in (kept, closed, gone)
