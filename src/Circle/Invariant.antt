-- ===== src/Circle/Invariant.antt =====
-- The representation invariant of the play queue, and that each method keeps it.
use the_multi_room_speaker.Base.{
  ◌==◌, Bool-cases, inl, inr, ℕ, zero, suc, ◌+◌, ◌-◌, ◌%◌, ◌*◌, ◌≤◌, ◌<◌, ◌≡◌, refl, ap, ◌∙◌, Bool,
  Option, none, some, List, [], ◌∷◌, length, get_elem?, length-set, int_mod, arith, Option-cases,
  inl, inr, get_elem?-lt, add_size,
}
use the_multi_room_speaker.Base.Int.{ℤ, pos, to_size, ◌-ℤ◌}
use the_multi_room_speaker.Circle.{
  dummy, Chunk, Circle, Ref, slot, scrap, inc, init, new_chunks, reserve, set_optim_perc,
  remove_loop, remove_back, modify, release, reblock, q_feedup, get_off_put, q_consume, pick_get,
  shrink_loop, forced_optim, force_optim, lock, unlock, Call, feeds, consumes, puts_ahead, releases,
  writes, drops, resets, dummies, reset, picks, forces, sets_percent, after, step, run, percent,
}
use native.Mathlib.Nat.{mod-lt, mod-add-mod, mod-eq_of_lt, div-le_of_le-mul}

pub record IsValid (q : Circle) : Type 0 where
  pub slots : length q.queue ≡ q.maxqsz
  pub some_slots : 0 < q.maxqsz
  pub small : q.maxqsz < int_mod
  pub puti_in : q.puti < q.maxqsz
  pub geti_in : q.geti < q.maxqsz
  pub elems_in : q.elems ≤ q.maxqsz + 1
  pub agree : (q.geti + q.elems) % q.maxqsz ≡ q.puti

-- An index steps round the queue without wrapping `size_t`.
pub inc_lem : (m e : ℕ) → e < m → m < int_mod → (inc m e ≡ (e + 1) % m) × (inc m e < m)
unfolding inc
inc_lem m e h s = rw (same) (refl, mod-lt (e + 1) (omega arith))
  where
    same : (e + 1) % 18446744073709551616 ≡ e + 1
    same = omega arith

length-new_chunks : (chunk : ℕ) (junk : List ℕ) (i n : ℕ) → length (new_chunks chunk junk i n) ≡ n
unfolding new_chunks
length-new_chunks chunk junk i zero = refl
length-new_chunks chunk junk i (suc n) = ap suc (length-new_chunks chunk junk (i + 1) n)

pub reserve-IsValid :
    (chunks chunk : ℕ) (junk : List ℕ) {q : Circle}
    → 0 < chunks
    → chunks < int_mod
    → reserve chunks chunk junk init ≡ some q
    → IsValid q × (q.elems ≡ 0) × (q.maxqsz ≡ chunks)
unfolding reserve init
reserve-IsValid chunks chunk junk p s e =
    ground (arith, length-new_chunks chunk junk 0 chunks, mod-eq_of_lt {n = 0} {m = chunks} p)

pub reblock-IsValid : {q : Circle} → IsValid q → IsValid (reblock q)
unfolding reblock
reblock-IsValid v = ground arith

-- Stepping `_geti` while `_elems` falls keeps the two indices in agreement.
step_agree : (m g e : ℕ) → g < m → m < int_mod → (inc m g + e) % m ≡ (g + suc e) % m
step_agree m g e h s =
    rw (inc_lem m g h s).0 (mod-add-mod (g + 1) m e ∙ ap (λ (k : ℕ). k % m) (omega arith))

-- A loop that drops entries leaves no more than there were, and the indices in agreement.
abbrev pub Dropped : (m e g : ℕ) (out : ℕ × ℕ) → Type 0
Dropped m e g out = (out.0 ≤ e) × (out.1 < m) × ((out.1 + out.0) % m ≡ (g + e) % m)

remove_loop-Dropped :
    (m e : ℕ) (els : ℤ) (g : ℕ) → g < m → m < int_mod → Dropped m e g (remove_loop m e els g)
unfolding remove_loop
remove_loop-Dropped m zero els g h s = (omega arith, h, refl)
remove_loop-Dropped m (suc e) els g h s = ground (
  arith,
  remove_loop-Dropped m e (els -ℤ pos 1) (inc m g) (inc_lem m g h s).1 s,
  step_agree m g e h s,
)

pub shrink_loop-Dropped :
    (m optim e g : ℕ) → g < m → m < int_mod → Dropped m e g (shrink_loop m optim e g)
unfolding shrink_loop
shrink_loop-Dropped m optim zero g h s = (omega arith, h, refl)
shrink_loop-Dropped m optim (suc e) g h s =
    ground
      (arith, shrink_loop-Dropped m optim e (inc m g) (inc_lem m g h s).1 s, step_agree m g e h s)

pub remove_back-IsValid : {q : Circle} (els : ℤ) → IsValid q → IsValid (remove_back els q)
unfolding remove_back
remove_back-IsValid {q} els v =
    ground (arith, remove_loop-Dropped q.maxqsz q.elems els q.geti v.geti_in v.small)

pub force_optim-IsValid : {q : Circle} (n : ℤ) → IsValid q → IsValid (force_optim n q)
unfolding force_optim
force_optim-IsValid {q} n v =
    ground (
      arith,
      shrink_loop-Dropped q.maxqsz (forced_optim n q.maxqsz) q.elems q.geti v.geti_in v.small,
    )

pub modify-IsValid : {q : Circle} (r : Ref) (f : Chunk → Chunk) → IsValid q → IsValid (modify r f q)
unfolding modify
modify-IsValid {q} (slot i) f v = elim (Option-cases (get_elem? q.queue i)) [
  | inl e ↦ rw (e, modify) v
  | inr (k, e) ↦ rw (e, modify) (ground (arith, length-set q.queue i (f k)))
]
modify-IsValid scrap f v = ground arith

-- A method that returns a pointer made no access outside `_queue`, and `P` holds of what it leaves.
abbrev pub Yields : (Circle → Type 0) → Option (Option Ref × Circle) → Type 0
Yields P none = ⊥
Yields P (some (r, q)) = P q

pub q_feedup-IsValid : {q : Circle} (b : Bool) → IsValid q → Yields IsValid (q_feedup b q)
unfolding q_feedup reblock
q_feedup-IsValid {q} b v =
    let (k, e) = get_elem?-lt q.queue q.puti (omega (arith, v.slots, v.puti_in)) in
    ground (
      arith,
      e,
      length-set q.queue q.puti (lock k),
      inc_lem q.maxqsz q.puti v.puti_in v.small,
      mod-add-mod (q.geti + q.elems) q.maxqsz 1,
    )

pub q_consume-IsValid : {q : Circle} → IsValid q → Yields IsValid (q_consume q)
unfolding q_consume reblock
q_consume-IsValid {q} v =
    let (k, e) = get_elem?-lt q.queue q.geti (omega (arith, v.slots, v.geti_in)) in
    ground (
      arith,
      e,
      length-set q.queue q.geti (lock k),
      inc_lem q.maxqsz q.geti v.geti_in v.small,
      mod-add-mod (q.geti + 1) q.maxqsz (q.elems - 1),
      consumed q,
    )
  where
    consumed : (q : Circle) → 0 < q.elems → q.geti + 1 + (q.elems - 1) ≡ q.geti + q.elems
    consumed q h = omega arith

get_off_put-IsValid : {q : Circle} (i : ℤ) → IsValid q → Yields IsValid (get_off_put i q)
unfolding get_off_put
get_off_put-IsValid {q} i v =
    let at : ℕ = add_size q.puti (to_size i) % q.maxqsz in
    let (k, e) =
      get_elem?-lt q.queue at
        (omega (arith, v.slots, mod-lt (add_size q.puti (to_size i)) v.some_slots)) in
    ground (arith, e, length-set q.queue at (lock k))

pub release-IsValid : {q : Circle} (r : Option Ref) → IsValid q → IsValid (release r q).1
unfolding release
release-IsValid none v = v
release-IsValid (some r) v = modify-IsValid r unlock v

pub reset-IsValid : {q : Circle} → IsValid q → IsValid (reset q)
unfolding reset
reset-IsValid {q} v = ground (arith, mod-eq_of_lt {n = 0} {m = q.maxqsz} v.some_slots)

pick_get-IsValid : {q : Circle} → IsValid q → Yields IsValid (pick_get q)
unfolding pick_get dummy
pick_get-IsValid {q} v =
    let (k, e) = get_elem?-lt q.queue q.geti (omega (arith, v.slots, v.geti_in)) in
    elim (Bool-cases (q.elems == 0)) [
      | inl empty ↦ rw (empty, pick_get) (modify-IsValid scrap lock v)
      | inr some_left ↦ rw (some_left, e, pick_get) v
    ]

pub set_optim_perc-IsValid : {q : Circle} (n : ℤ) → IsValid q → IsValid (set_optim_perc n q).1
unfolding set_optim_perc
set_optim_perc-IsValid n v = ground arith

yielded :
    {P : Circle → Type 0} (r : Option (Option Ref × Circle))
    → Yields P r
    → (q' : Circle) × (after r ≡ some q') × P q'
yielded none h = absurd h
yielded (some (p, q')) h = (q', refl, h)

-- A call is defined on a valid queue (it reads and writes inside `_queue`), and leaves it valid:
-- the indices in range and `_elems` apart, round the queue.
pub step-IsValid :
    (c : Call) {q : Circle} → IsValid q → (q' : Circle) × (step c q ≡ some q') × IsValid q'
unfolding step
step-IsValid (feeds b) {q} v = yielded (q_feedup b q) (q_feedup-IsValid b v)
step-IsValid consumes {q} v = yielded (q_consume q) (q_consume-IsValid v)
step-IsValid (puts_ahead i) {q} v = yielded (get_off_put i q) (get_off_put-IsValid i v)
step-IsValid (releases r) {q} v = (_, refl, release-IsValid r v)
step-IsValid (writes r f) v = (_, refl, modify-IsValid r f v)
step-IsValid (drops els) v = (_, refl, remove_back-IsValid els v)
step-IsValid resets {q} v = (_, refl, reset-IsValid v)
step-IsValid dummies v = (_, refl, modify-IsValid scrap lock v)
step-IsValid picks {q} v = yielded (pick_get q) (pick_get-IsValid v)
step-IsValid (forces n) v = (_, refl, force_optim-IsValid n v)
step-IsValid (sets_percent n) v = (_, refl, set_optim_perc-IsValid n v)

-- Any history of calls from a valid queue runs to its end without an access outside `_queue` and
-- leaves the queue valid: both indices inside it, at most one more entry than slots, and
-- `_puti` always `_elems` steps round from `_geti`.
pub run-IsValid :
    (cs : List Call) {q : Circle} → IsValid q → (q' : Circle) × (run cs q ≡ some q') × IsValid q'
unfolding run
run-IsValid [] v = (_, refl, v)
run-IsValid (c ∷ cs) v =
    let (q1, e, v1) = step-IsValid c v in
    let (q2, e2, v2) = run-IsValid cs v1 in (q2, rw (e, run) e2, v2)

-- The fill level is a percentage on every valid queue, the overfull one included.
pub percent-le : (q : Circle) → IsValid q → percent q ≤ 100
unfolding percent
percent-le q v =
    rw (numerator, denominator) (div-le_of_le-mul (q.maxqsz + 1) (omega (arith, v.elems_in)))
  where
    numerator : (q.elems * 100) % 18446744073709551616 ≡ q.elems * 100
    numerator = omega (arith, v.elems_in, v.small)

    denominator : (q.maxqsz + 1) % 18446744073709551616 ≡ q.maxqsz + 1
    denominator = omega (arith, v.small)
