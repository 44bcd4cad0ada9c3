-- ===== src/Sock/Stream.antt =====
-- receiveall does not see how TCP has cut the stream into segments.
use the_multi_room_speaker.Base.{
  ℕ, zero, suc, ◌-◌, ◌<◌, ◌≤◌, ◌≡◌, refl, sym, ap, ◌∙◌, List, [], ◌∷◌, ◌++◌, length, take, drop,
  arith, take-append_ge, drop-append_ge, take-append_le, drop-append_le, length-drop,
}
use mathlib.Core.List.{append-nil}
use native.Mathlib.Decide.{dec_le}
use the_multi_room_speaker.Sock.{Segment, bytes, again, failed, receive_loop, receiveall}

-- The bytes of a stream whose segments all hold data.
unfoldable pub flat : List Segment → List ℕ
flat [] = []
flat (bytes xs ∷ s) = xs ++ flat s
flat (again ∷ s) = flat s
flat (failed ∷ s) = flat s

abbrev pub IsData : List Segment → Type 0
IsData [] = Unit {0}
IsData (bytes xs ∷ s) = (0 < length xs) × IsData s
IsData (again ∷ s) = ⊥
IsData (failed ∷ s) = ⊥

-- What a loop for `n` bytes has to return, and to leave, of a stream that carries `bs`.
abbrev pub Splits : ℕ → List ℕ → List ℕ × List Segment → Type 0
Splits n bs (got, left) = (got ≡ take n bs) × (flat left ≡ drop n bs) × IsData left

-- A segment that is used up.
whole-Splits :
    (n : ℕ) (xs bs : List ℕ) (r : List ℕ × List Segment)
    → length xs ≤ n
    → Splits (n - length xs) bs r
    → Splits n (xs ++ bs) (xs ++ r.0, r.1)
whole-Splits n xs bs (got, left) h (e, f, d) =
    (ap (◌++◌ xs) e ∙ sym (take-append_ge n xs bs h), f ∙ sym (drop-append_ge n xs bs h), d)

-- A segment that is used in part.
part-Splits :
    (n : ℕ) (xs : List ℕ) (s : List Segment) (r : List ℕ × List Segment)
    → n < length xs
    → Splits 0 (drop n xs ++ flat s) r
    → Splits n (xs ++ flat s) (take n xs ++ r.0, r.1)
part-Splits n xs s (got, left) h (e, f, d) = (
  rw e (append-nil (take n xs)) ∙ sym (take-append_le n xs (flat s) (omega arith)),
  f ∙ sym (drop-append_le n xs (flat s) (omega arith)),
  d,
)

loop_done : (fuel : ℕ) (s : List Segment) → receive_loop (suc fuel) 0 s ≡ ([], s)
unfolding receive_loop
loop_done fuel s = refl

loop_whole :
    (fuel n : ℕ) (xs : List ℕ) (s : List Segment)
    → 0 < length xs
    → length xs ≤ n
    → let r = receive_loop fuel (n - length xs) s in
      receive_loop (suc fuel) n (bytes xs ∷ s) ≡ (xs ++ r.0, r.1)
unfolding receive_loop
loop_whole fuel n xs s p h = ground arith

loop_part :
    (fuel n : ℕ) (xs : List ℕ) (s : List Segment)
    → 0 < n
    → n < length xs
    → let r = receive_loop fuel 0 (bytes (drop n xs) ∷ s) in
      receive_loop (suc fuel) n (bytes xs ∷ s) ≡ (take n xs ++ r.0, r.1)
unfolding receive_loop
loop_part fuel n xs s p h =
    ground (arith, ap (λ (k : ℕ). receive_loop fuel k (bytes (drop n xs) ∷ s)) (zero_rest n))
  where
    zero_rest : (n : ℕ) → n - n ≡ 0
    zero_rest n = omega arith

loop_nil : (fuel n : ℕ) → receive_loop fuel n [] ≡ ([], [])
unfolding receive_loop
loop_nil zero n = refl
loop_nil (suc fuel) n = ground arith

receive_loop-Splits :
    (fuel n : ℕ) (s : List Segment)
    → n < fuel
    → IsData s
    → Splits n (flat s) (receive_loop fuel n s)
unfolding flat
receive_loop-Splits zero n s h d = absurd (omega arith)
receive_loop-Splits (suc fuel) zero s h d = rw (loop_done fuel s) (refl, refl, d)
receive_loop-Splits (suc fuel) (suc n) [] h d = rw (loop_nil (suc fuel) (suc n)) (refl, refl, tt)
receive_loop-Splits (suc fuel) (suc n) (bytes xs ∷ s) h d = elim (dec_le (length xs) (suc n)) [
  | yes fits ↦ rw (loop_whole fuel (suc n) xs s d.0 fits) (
      whole-Splits (suc n) xs (flat s) _ fits
        (receive_loop-Splits fuel (suc n - length xs) s (omega (arith, d.0)) d.1))
  | no more ↦ rw (loop_part fuel (suc n) xs s (omega arith) (omega arith)) (
      part-Splits (suc n) xs s _ (omega arith) (
        receive_loop-Splits fuel 0 (bytes (drop (suc n) xs) ∷ s) (omega arith)
          (omega (arith, length-drop (suc n) xs), d.1)))
]
receive_loop-Splits (suc fuel) (suc n) (again ∷ s) h d = absurd d
receive_loop-Splits (suc fuel) (suc n) (failed ∷ s) h d = absurd d

-- However the stream is cut into segments, receiveall returns its first `n` bytes (all of them, if it
-- ends before), and leaves a stream of the bytes behind them.
pub receiveall-Splits : (n : ℕ) (s : List Segment) → IsData s → Splits n (flat s) (receiveall n s)
unfolding receiveall
receiveall-Splits n s d = receive_loop-Splits (suc n) n s (omega arith) d
