-- ===== src/Sock/Order.antt =====
-- The comparisons of SADDR_46 against each other.
use the_multi_room_speaker.Base.{
  ℕ, ◌+◌, ◌*◌, ◌<◌, ◌≡◌, refl, Bool, true, false, not, ltb, ◌==◌, u16_mod, u32_mod, arith,
  Bool-cases, inl, inr, ◌⊎◌,
}
use the_multi_room_speaker.Sock.Address.{Saddr, masked, bigint, is_eq, is_ne, is_lt, is_gt}

-- One of <, == and > holds, and no other.
abbrev pub OneHolds : Bool → Bool → Bool → Type 0
OneHolds lt eq gt =
    ((lt ≡ true) × (eq ≡ false) × (gt ≡ false))
    ⊎ ((lt ≡ false) × (eq ≡ true) × (gt ≡ false))
    ⊎ ((lt ≡ false) × (eq ≡ false) × (gt ≡ true))

OneHolds_lem : (x y : ℕ) → OneHolds (ltb x y) (x == y) (ltb y x)
OneHolds_lem x y = ground arith

-- Only one of the ports is zero.
abbrev Mixed : ℕ → ℕ → Type 0
Mixed p q = (((p == 0) ≡ true) × ((q == 0) ≡ false)) ⊎ (((p == 0) ≡ false) × ((q == 0) ≡ true))

apart_lem :
    (x y p q : ℕ)
    → p < u16_mod
    → q < u16_mod
    → Mixed p q
    → not (x * u32_mod + p == y * u32_mod + q) ≡ true
apart_lem x y p q h h' m = ground arith

-- Of any two addresses exactly one of <, == and > holds. != is the negation of == if both ports are zero,
-- or neither is; if only one is, and both are within 16 bits, != holds, also of addresses that are ==.
pub order_lem :
    (a r : Saddr)
    → a.sin_port < u16_mod
    → r.sin_port < u16_mod
    → OneHolds (is_lt a r) (is_eq a r) (is_gt a r)
      × (((is_ne a r ≡ not (is_eq a r)) × ((a.sin_port == 0) ≡ (r.sin_port == 0)))
          ⊎ ((is_ne a r ≡ true) × ((a.sin_port == 0) ≡ not (r.sin_port == 0))))
unfolding is_eq is_ne is_lt is_gt bigint
order_lem a r p p' = elim (Bool-cases (a.sin_port == 0)) [
  | inl e ↦ elim (Bool-cases (r.sin_port == 0)) [
    | inl f ↦ rw (e, f) (OneHolds_lem (masked a r) (masked r a), inl (refl, refl))
    | inr f ↦
        rw (e, f)
          (
            OneHolds_lem (masked a r) (masked r a),
            inr (apart_lem (masked a r) (masked r a) a.sin_port r.sin_port p p' (inl (e, f)), refl),
          )
  ]
  | inr e ↦ elim (Bool-cases (r.sin_port == 0)) [
    | inl f ↦
        rw (e, f)
          (
            OneHolds_lem (masked a r) (masked r a),
            inr (apart_lem (masked a r) (masked r a) a.sin_port r.sin_port p p' (inr (e, f)), refl),
          )
    | inr f ↦ rw (e, f) (OneHolds_lem (bigint a r) (bigint r a), inl (refl, refl))
  ]
]
