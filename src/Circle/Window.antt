-- ===== src/Circle/Window.antt =====
-- The entries round a circular buffer from an index, as a list.
use the_multi_room_speaker.Base.{
  ℕ, zero, suc, ◌+◌, ◌-◌, ◌%◌, ◌<◌, ◌≡◌, ◌≢◌, refl, sym, ap, ap₂, ◌∙◌, List, [], ◌∷◌, ◌++◌, length,
  arith,
}
use native.Mathlib.Nat.{add-mod_right, mod-lt, mod-add-mod, mod-eq_of_lt, mod-eq-sub-mod, add-zero}
use native.Mathlib.Decide.{dec_lt}

-- Fewer than `m` steps round from `g` lead somewhere else.
pub add-mod-ne : (m g d : ℕ) → g < m → 0 < d → d < m → (g + d) % m ≢ g
add-mod-ne m g d h p s = elim (dec_lt (g + d) m) [
  | yes lt ↦ omega (arith, mod-eq_of_lt lt)
  | no ge ↦ omega (
    arith,
    mod-eq-sub-mod {n = g + d} {m = m} (omega arith),
    mod-eq_of_lt {n = g + d - m} {m = m} (omega arith),
  )
]

pub mod_step : (m g n : ℕ) → ((g + 1) % m + n) % m ≡ (g + suc n) % m
mod_step m g n = mod-add-mod (g + 1) m n ∙ ap (λ (k : ℕ). k % m) (omega arith)

module _ {ℓ} {A : Type ℓ} where
  abbrev pub window : (ℕ → A) → ℕ → ℕ → ℕ → List A
  window f m g zero = []
  window f m g (suc n) = f g ∷ window f m ((g + 1) % m) n

  pub length-window : (f : ℕ → A) (m g n : ℕ) → length (window f m g n) ≡ n
  length-window f m g zero = refl
  length-window f m g (suc n) = ap suc (length-window f m ((g + 1) % m) n)

  pub window_congr :
      (f f' : ℕ → A) (m g n : ℕ)
      → g < m
      → ((k : ℕ) → k < n → f ((g + k) % m) ≡ f' ((g + k) % m))
      → window f m g n ≡ window f' m g n
  window_congr f f' m g zero h same = refl
  window_congr f f' m g (suc n) h same = ap₂ ◌∷◌ (rw here at (same 0 (omega arith))) (
      window_congr f f' m ((g + 1) % m) n (omega arith)
        λ k lt. rw (mod_step m g k) (same (suc k) (omega arith)))
    where
      here : (g + 0) % m ≡ g
      here = rw add-zero (mod-eq_of_lt h)

  pub window-snoc :
      (f : ℕ → A) (m g n : ℕ)
      → g < m
      → window f m g (suc n) ≡ window f m g n ++ f ((g + n) % m) ∷ []
  window-snoc f m g zero h = ap (λ (k : ℕ). f k ∷ []) (rw (add-zero, mod-eq_of_lt h))
  window-snoc f m g (suc n) h = ap (◌∷◌ (f g)) (
      window-snoc f m ((g + 1) % m) n (omega arith)
      ∙ ap (λ (k : ℕ). window f m ((g + 1) % m) n ++ f k ∷ []) (mod_step m g n))

  -- A change of the entry just past the window does not show in it.
  pub window_past :
      (f f' : ℕ → A) (m g n p : ℕ)
      → g < m
      → n < m
      → p ≡ (g + n) % m
      → ((i : ℕ) → i ≢ p → f i ≡ f' i)
      → window f m g n ≡ window f' m g n
  window_past f f' m g n p h lt e same =
      window_congr f f' m g n h λ k kn. same _ (λ c. clash k kn c)
    where
      clash : (k : ℕ) → k < n → (g + k) % m ≡ p → ⊥
      clash k kn c =
          add-mod-ne m ((g + k) % m) (n - k) (mod-lt (g + k) (omega arith)) (omega arith)
            (omega arith)
            (mod-add-mod (g + k) m (n - k) ∙ ap (λ (j : ℕ). j % m) (omega arith) ∙ sym e ∙ sym c)

  -- All the way round, and one more.
  pub window_round :
      (f : ℕ → A) (m g e : ℕ)
      → g < m
      → m ≡ suc e
      → window f m g (suc (suc e)) ≡ f g ∷ (window f m ((g + 1) % m) e ++ f g ∷ [])
  window_round f m g e h full = ap (◌∷◌ (f g)) (
      window-snoc f m ((g + 1) % m) e (mod-lt (g + 1) (omega arith))
      ∙ ap (λ (k : ℕ). window f m ((g + 1) % m) e ++ f k ∷ []) back)
    where
      back : ((g + 1) % m + e) % m ≡ g
      back =
          mod_step m g e
          ∙ ap (λ (k : ℕ). (g + k) % m) (sym full)
          ∙ add-mod_right g m
          ∙ mod-eq_of_lt h
