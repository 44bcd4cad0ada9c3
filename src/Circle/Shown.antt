-- ===== src/Circle/Shown.antt =====
-- What Circle::display writes, and that the queue keeps its size.
use the_multi_room_speaker.Base.{
  ℕ, zero, suc, ◌+◌, ◌<◌, ◌≤◌, ◌≡◌, refl, ap, ◌∙◌, Bool, true, Option, none, some, List, [], ◌∷◌,
  ltb, ◌==◌, length, get_elem?-lt, arith, Bool-cases, subst, inl, inr,
}
use the_multi_room_speaker.Base.Int.{ℤ}
use the_multi_room_speaker.Circle.{
  Chunk, Circle, Ref, slot, scrap, set_optim_perc, remove_back, modify, release, reblock, q_feedup,
  get_off_put, q_consume, pick_get, force_optim, lock, unlock, Call, feeds, consumes, puts_ahead,
  releases, writes, drops, resets, dummies, reset, dummy, picks, forces, sets_percent, after, step,
  run,
}
use the_multi_room_speaker.Circle.Invariant.{IsValid, step-IsValid}
use the_multi_room_speaker.Circle.Display.{in_use, slot_char, mark, display_from, display}

mark_lem : (idx : ℕ) (q : Circle) → idx < length q.queue → (c : ℕ) × (mark idx q ≡ some c)
unfolding mark
mark_lem idx q h =
    let (k, e) = get_elem?-lt q.queue idx h in
    elim (Bool-cases (q.puti == idx)) [
      | inl at_put ↦ rw at_put (112, refl)
      | inr off ↦ elim (Bool-cases (q.geti == idx)) [
        | inl at_get ↦ rw (off, at_get) (103, refl)
        | inr away ↦ rw (off, away, e) (slot_char (in_use idx q) k, refl)
      ]
    ]

display_from_lem :
    (left idx : ℕ) (q : Circle)
    → left + idx ≤ length q.queue
    → left + idx ≤ 512
    → (text : List ℕ) × (display_from left idx q ≡ some text) × (length text ≡ left)
unfolding display_from
display_from_lem zero idx q h b = ([], refl, refl)
display_from_lem (suc left) idx q h b =
    let (c, e) = mark_lem idx q (omega arith) in
    let (text, e', l) = display_from_lem left (idx + 1) q (omega arith) (omega arith) in
    let fits : ltb idx 512 ≡ true = ground arith in rw (fits, e, e') (c ∷ text, refl, ap suc l)

-- display on a valid queue of at most 511 slots.
pub display_lem :
    (q : Circle)
    → IsValid q
    → q.maxqsz < 512
    → (text : List ℕ) × (display q ≡ some text) × (length text ≡ q.maxqsz)
unfolding display
display_lem q v h =
    let (text, e, l) = display_from_lem q.maxqsz 0 q (omega (arith, v.slots)) (omega arith) in
    let fits : ltb (length text) 512 ≡ true = ground (arith, l) in
    rw (e, fits, display) (text, refl, l)

-- A call that returns leaves the number of slots.
Stays : ℕ → Option Circle → Type 0
Stays m none = Unit {0}
Stays m (some q) = q.maxqsz ≡ m

feedup-Stays : (b : Bool) (q : Circle) → Stays q.maxqsz (after (q_feedup b q))
unfolding q_feedup reblock Stays
feedup-Stays b q = ground arith

put_ahead-Stays : (i : ℤ) (q : Circle) → Stays q.maxqsz (after (get_off_put i q))
unfolding get_off_put Stays
put_ahead-Stays i q = ground arith

consume-Stays : (q : Circle) → Stays q.maxqsz (after (q_consume q))
unfolding q_consume reblock Stays
consume-Stays q = ground arith

modify-maxqsz : (r : Ref) (f : Chunk → Chunk) (q : Circle) → (modify r f q).maxqsz ≡ q.maxqsz
unfolding modify
modify-maxqsz (slot i) f q = ground arith
modify-maxqsz scrap f q = ground arith

force_optim-maxqsz : (n : ℤ) (q : Circle) → (force_optim n q).maxqsz ≡ q.maxqsz
unfolding force_optim
force_optim-maxqsz n q = ground arith

pick-Stays : (q : Circle) → Stays q.maxqsz (after (pick_get q))
unfolding pick_get dummy Stays
pick-Stays q = let locked = modify-maxqsz scrap lock q in ground (arith, locked)

step-Stays : (c : Call) (q : Circle) → Stays q.maxqsz (step c q)
unfolding step Stays release dummy pick_get remove_back reset set_optim_perc
step-Stays (feeds b) q = feedup-Stays b q
step-Stays consumes q = consume-Stays q
step-Stays (puts_ahead i) q = put_ahead-Stays i q
step-Stays (releases none) q = refl
step-Stays (releases (some r)) q = modify-maxqsz r unlock q
step-Stays (writes r f) q = modify-maxqsz r f q
step-Stays (drops els) q = refl
step-Stays resets q = refl
step-Stays dummies q = modify-maxqsz scrap lock q
step-Stays picks q = pick-Stays q
step-Stays (forces n) q = force_optim-maxqsz n q
step-Stays (sets_percent n) q = ground arith

-- After any history of calls a valid queue has as many slots as before, and is valid.
pub run-maxqsz :
    (cs : List Call) (q : Circle)
    → IsValid q
    → (q' : Circle) × (run cs q ≡ some q') × IsValid q' × (q'.maxqsz ≡ q.maxqsz)
unfolding run Stays
run-maxqsz [] q v = (q, refl, v, refl)
run-maxqsz (c ∷ cs) q v =
    let (q1, e, v1) = step-IsValid c v in
    let (q2, e2, v2, m) = run-maxqsz cs q1 v1 in
    (q2, rw (e, run) e2, v2, m ∙ subst (Stays q.maxqsz) e (step-Stays c q))
