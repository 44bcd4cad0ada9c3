-- ===== src/Pid/Steady.antt =====
-- The controller's outputs stay in their bounds and change by small steps.
use the_multi_room_speaker.Base.{◌≡◌, refl, false, List, [], ◌∷◌, arith, Bool-cases, inl, inr, ◌⊎◌}
use the_multi_room_speaker.Pid.{Doubles, PidImpl, restrict, calculate, calculates}

-- What is relied on of `double`: no number is less than itself (a NaN neither), and a number less itself
-- is zero, or a NaN, which is not greater than 20.
pub record IsDouble (d : Doubles) : Type 0 where
  pub irreflexive : (x : d.carrier) → d.lt x x ≡ false
  pub no_jump : (x : d.carrier) → d.lt d.twenty (d.abs (d.minus x x)) ≡ false

-- Neither above the greatest value nor below the least.
abbrev pub IsWithin : (d : Doubles) → PidImpl d → d.carrier → Type 0
IsWithin d p x = (d.lt p.max x ≡ false) × (d.lt x p.min ≡ false)

-- Each output is within the bounds or still the value that the controller started from, and no more than
-- 20 from the one before.
abbrev pub IsSteady :
    (d : Doubles) → PidImpl d → (start before : d.carrier) → List d.carrier → Type 0
IsSteady d p start before [] = Unit {0}
IsSteady d p start before (x ∷ xs) =
    (d.lt d.twenty (d.abs (d.minus x before)) ≡ false)
    × (IsWithin d p x ⊎ (x ≡ start))
    × IsSteady d p start x xs

module _ (d : Doubles) (laws : IsDouble d) where
  restrict-IsWithin :
      (max min output : d.carrier)
      → d.lt max min ≡ false
      → (d.lt max (restrict d max min output) ≡ false)
        × (d.lt (restrict d max min output) min ≡ false)
  unfolding restrict
  restrict-IsWithin max min output h = ground (arith, laws.irreflexive max, laws.irreflexive min, h)

  calculate-IsWithin :
      (setpoint pv start : d.carrier) (p : PidImpl d)
      → d.lt p.max p.min ≡ false
      → IsWithin d p p.prev ⊎ (p.prev ≡ start)
      → let output = (calculate d setpoint pv p).1 in
        (d.lt d.twenty (d.abs (d.minus output p.prev)) ≡ false)
        × (IsWithin d p output ⊎ (output ≡ start))
  unfolding calculate
  calculate-IsWithin setpoint pv start p h w =
      let error = d.minus setpoint pv in
      let demand =
        d.plus (d.plus (d.times p.kp error) (d.times p.ki (d.plus p.integral (d.times error p.dt))))
          (d.times p.kd (d.over (d.minus error p.pre_error) p.dt)) in
      let bounded = restrict d p.max p.min demand in
      elim (Bool-cases (d.lt d.twenty (d.abs (d.minus bounded p.prev)))) [
        | inl e ↦ rw (e, calculate) (laws.no_jump p.prev, w)
        | inr e ↦ rw (e, calculate) (e, inl (restrict-IsWithin p.max p.min demand h))
      ]

  outputs-IsSteady :
      (inputs : List (d.carrier × d.carrier)) (start : d.carrier) (p : PidImpl d)
      → d.lt p.max p.min ≡ false
      → IsWithin d p p.prev ⊎ (p.prev ≡ start)
      → IsSteady d p start p.prev (calculates d inputs p)
  unfolding calculates calculate
  outputs-IsSteady [] start p h w = tt
  outputs-IsSteady ((setpoint, pv) ∷ inputs) start p h w =
      let (small, within) = calculate-IsWithin setpoint pv start p h w in
      (small, within, outputs-IsSteady inputs start (calculate d setpoint pv p).0 h within)

  -- Whatever is asked of it, the controller, whose least value is not above its greatest, gives outputs
  -- that are within its bounds or still the one it started from, and no more than 20 from the one before.
  pub calculates-IsSteady :
      (inputs : List (d.carrier × d.carrier)) (p : PidImpl d)
      → d.lt p.max p.min ≡ false
      → IsSteady d p p.prev p.prev (calculates d inputs p)
  calculates-IsSteady inputs p h = outputs-IsSteady inputs p.prev p h (inr refl)
