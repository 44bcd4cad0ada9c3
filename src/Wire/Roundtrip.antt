-- ===== src/Wire/Roundtrip.antt =====
-- What is sent as a header is read as the same header.
use the_multi_room_speaker.Base.{
  ℕ, ◌<◌, ◌≡◌, ◌≤◌, ◌^◌, refl, List, ◌++◌, length, length-append, arith, int_mod, u32_mod, u16_mod,
  u64_mod, Bool, true, false, not, ◌==◌,
}
use the_multi_room_speaker.Base.Int.{ℤ, pos_part, neg_part}
use the_multi_room_speaker.Wire.{BufHdr, hdr_size}
use the_multi_room_speaker.Wire.Codec.{
  read, read-bytes_of, bytes_of, length-bytes_of, int_bits, bits_int, encode, decode, bool_byte,
}
use mathlib.Core.List.{append_assoc}

-- Each field's value fits its type.
pub record InRange (h : BufHdr) : Type 0 where
  pub frm_sig_fits : h.frm_sig < 256
  pub cur_seq_fits : h.cur_seq < u32_mod
  pub cli_ping_fits : h.cli_ping < u64_mod
  pub srv_tick_fits : h.srv_tick < u64_mod
  pub pilot_ping_fits : h.pilot_ping < u64_mod
  pub pilot_seq_fits : h.pilot_seq < u32_mod
  pub cli_qlen_fits : h.cli_qlen < u16_mod
  pub cli_qsize_fits : h.cli_qsize < u16_mod
  pub cli_qoptim_fits : h.cli_qoptim < u16_mod
  pub pilot_q_perc_fits : h.pilot_q_perc < u16_mod
  pub buf_len_below : pos_part h.buf_len < int_mod
  pub buf_len_above : neg_part h.buf_len ≤ int_mod
  pub ao_rate_fits : h.ao_rate < u16_mod

int_lem :
    (z : ℤ)
    → pos_part z < int_mod
    → neg_part z ≤ int_mod
    → (int_bits z < u32_mod) × (bits_int (int_bits z) ≡ z)
unfolding int_bits bits_int
int_lem z p n = ground arith

bool_lem : (b : Bool) → (bool_byte b < 256) × (not (bool_byte b == 0) ≡ b)
bool_lem true = (omega arith, refl)
bool_lem false = (omega arith, refl)

field_lem : (w x : ℕ) → x < 256 ^ w → (rest : List ℕ) → read w (bytes_of w x ++ rest) ≡ (x, rest)
field_lem w x h rest = read-bytes_of w x rest h

-- A header of fields in range, sent and then read from the front of what has come in, is the header,
-- and the bytes behind it are left.
pub decode-encode : (h : BufHdr) (rest : List ℕ) → InRange h → decode (encode h ++ rest) ≡ (h, rest)
unfolding decode encode
decode-encode h rest r = simp (
  append_assoc,
  field_lem 1 h.frm_sig (omega (arith, r)),
  field_lem 4 h.cur_seq (omega (arith, r)),
  field_lem 8 h.cli_ping (omega (arith, r)),
  field_lem 8 h.srv_tick (omega (arith, r)),
  field_lem 8 h.pilot_ping (omega (arith, r)),
  field_lem 4 h.pilot_seq (omega (arith, r)),
  field_lem 2 h.cli_qlen (omega (arith, r)),
  field_lem 2 h.cli_qsize (omega (arith, r)),
  field_lem 2 h.cli_qoptim (omega (arith, r)),
  field_lem 2 h.pilot_q_perc (omega (arith, r)),
  field_lem 2 h.ao_rate (omega (arith, r)),
  field_lem 1 (bool_byte h.is_pilot) (bool_lem h.is_pilot).0,
  field_lem 4 (int_bits h.buf_len) (int_lem h.buf_len r.buf_len_below r.buf_len_above).0,
  (bool_lem h.is_pilot).1,
  (int_lem h.buf_len r.buf_len_below r.buf_len_above).1,
)

-- It takes sizeof(BufHdr) bytes, 48.
pub length-encode : (h : BufHdr) → length (encode h) ≡ hdr_size
unfolding encode
length-encode h = simp (length-append, length-bytes_of)
