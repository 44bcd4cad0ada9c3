-- ===== src/Sock/Address.antt =====
-- common/sock.h, SADDR_46: how addresses compare. A port of zero stands for any port.
use the_multi_room_speaker.Base.{
  ℕ, ◌+◌, ◌*◌, Bool, ◌&&◌, ◌||◌, not, ltb, ◌==◌, if◌then◌else◌, u32_mod,
}
use Prim.Native.Nat.{bit_and}

-- sin_addr.s_addr and sin_port, in network order, and _mask.
pub record Saddr : Type 0 where
  pub s_addr : ℕ
  pub sin_port : ℕ
  pub mask : ℕ

-- s_addr & m, where m is what both masks have.
unfoldable pub masked : Saddr → Saddr → ℕ
masked a r = bit_and a.s_addr (bit_and a.mask r.mask)

-- ((s_addr & m) << 32) | sin_port
unfoldable pub bigint : Saddr → Saddr → ℕ
unfolding masked
bigint a r = masked a r * u32_mod + a.sin_port

-- compare_range_ip(r)
unfoldable pub compare_range_ip : Saddr → Saddr → Bool
unfolding masked
compare_range_ip a r = masked a r == masked r a

-- isequal(r, porttoo)
unfoldable pub isequal : Bool → Saddr → Saddr → Bool
unfolding masked bigint
isequal porttoo a r = if porttoo then bigint a r == bigint r a else masked a r == masked r a

-- operator ==
unfoldable pub is_eq : Saddr → Saddr → Bool
unfolding masked bigint
is_eq a r =
    if a.sin_port == 0 || r.sin_port == 0
    then masked a r == masked r a
    else bigint a r == bigint r a

-- operator !=
unfoldable pub is_ne : Saddr → Saddr → Bool
unfolding masked bigint
is_ne a r =
    if a.sin_port == 0 && r.sin_port == 0
    then not (masked a r == masked r a)
    else not (bigint a r == bigint r a)

-- operator <
unfoldable pub is_lt : Saddr → Saddr → Bool
unfolding masked bigint
is_lt a r =
    if a.sin_port == 0 || r.sin_port == 0
    then ltb (masked a r) (masked r a)
    else ltb (bigint a r) (bigint r a)

-- operator >
unfoldable pub is_gt : Saddr → Saddr → Bool
unfolding masked bigint
is_gt a r =
    if a.sin_port == 0 || r.sin_port == 0
    then ltb (masked r a) (masked a r)
    else ltb (bigint r a) (bigint a r)
