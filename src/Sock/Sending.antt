-- ===== src/Sock/Sending.antt =====
-- sendall ends, and returns 0 only if every byte was sent.
use the_multi_room_speaker.Base.{
  ℕ, zero, suc, ◌+◌, ◌-◌, ◌/◌, ◌<◌, ◌≤◌, ◌≡◌, ◌≢◌, refl, ap, ◌∙◌, Option, some, none, List, [], ◌∷◌,
  ◌++◌, length, take, drop, arith, length-drop, take-append-drop, ◌⊎◌, inl, inr,
}
use the_multi_room_speaker.Base.Int.{pos_part}
use the_multi_room_speaker.Sock.{prepend_sent, Kernel, send_loop, sendall}
use mathlib.Core.List.{append_assoc}
use native.Mathlib.Decide.{ℕ_discrete}

-- ::send takes no more than it is offered.
abbrev pub TakesOffered : Kernel → Type 0
TakesOffered send = (i n : ℕ) → pos_part (send i n).0 ≤ n

-- The loop ends; the bytes taken are the buffer's first, and what is returned is how many are left.
abbrev pub Sends : List ℕ → Option (List ℕ × ℕ) → Type 0
Sends buff none = ⊥
Sends buff (some (taken, left)) = (rest : List ℕ) × (taken ++ rest ≡ buff) × (length rest ≡ left)

loop_empty :
    (fuel : ℕ) (send : Kernel) (i tries : ℕ) → send_loop (suc fuel) send i [] tries ≡ some ([], 0)
unfolding send_loop
loop_empty fuel send i tries = refl

prepend_sent-Sends :
    (n : ℕ) (buff : List ℕ) (r : Option (List ℕ × ℕ))
    → Sends (drop n buff) r
    → Sends buff (prepend_sent (take n buff) r)
prepend_sent-Sends n buff none s = s
prepend_sent-Sends n buff (some (taken, left)) (rest, e, m) = (
  rest,
  append_assoc (take n buff) taken rest
      ∙ ap (λ (xs : List ℕ). take n buff ++ xs) e
      ∙ take-append-drop n buff,
  m,
)

module _ (fuel : ℕ) (send : Kernel) (i : ℕ) (buff : List ℕ) (tries : ℕ)
    (more : 0 < length buff) where
  loop_sent :
      let n = pos_part (send i (length buff)).0 in
      n ≢ 0
      → send_loop (suc fuel) send i buff tries
        ≡ prepend_sent (take n buff) (send_loop fuel send (i + 1) (drop n buff) tries)
  unfolding send_loop
  loop_sent ne = ground arith

  loop_refused :
      pos_part (send i (length buff)).0 ≡ 0
      → (send_loop (suc fuel) send i buff tries ≡ some ([], length buff))
        ⊎ ((0 < tries)
            × (send_loop (suc fuel) send i buff tries
                ≡ send_loop fuel send (i + 1) buff (tries - 1)))
  unfolding send_loop
  loop_refused e = ground arith

send_loop-Sends :
    (fuel : ℕ) (send : Kernel) (i : ℕ) (buff : List ℕ) (tries : ℕ)
    → TakesOffered send
    → length buff + tries < fuel
    → Sends buff (send_loop fuel send i buff tries)
send_loop-Sends zero send i buff tries k h = absurd (omega arith)
send_loop-Sends (suc fuel) send i [] tries k h = rw (loop_empty fuel send i tries) ([], refl, refl)
send_loop-Sends (suc fuel) send i (b ∷ bs) tries k h =
    elim (ℕ_discrete (pos_part (send i (length (b ∷ bs))).0) 0) [
      | yes e ↦ elim (loop_refused fuel send i (b ∷ bs) tries (omega arith) e) [
        | inl stop ↦ rw stop (b ∷ bs, refl, refl)
        | inr (some_left, retry) ↦
            rw retry (send_loop-Sends fuel send (i + 1) (b ∷ bs) (tries - 1) k (omega arith))
      ]
      | no ne ↦ rw (loop_sent fuel send i (b ∷ bs) tries (omega arith) ne) (
          prepend_sent-Sends _ (b ∷ bs) _ (
            send_loop-Sends fuel send (i + 1) _ tries k (
              omega (
                arith,
                length-drop (pos_part (send i (length (b ∷ bs))).0) (b ∷ bs),
                k i (length (b ∷ bs)),
              ))))
    ]

-- sendall returns, whatever send returns: the bytes that the kernel has taken are the first of the
-- buffer, in order, and the value returned is the number of bytes that were not taken.
pub sendall-Sends :
    (send : Kernel) (buff : List ℕ) (tout : ℕ)
    → TakesOffered send
    → Sends buff (sendall send buff tout)
unfolding sendall
sendall-Sends send buff tout k = send_loop-Sends _ send 0 buff (tout / 10 + 1) k (omega arith)
