-- ===== src/Wire/Codec.antt =====
-- common/srvq.h, BufHdr as it lies in memory and on the wire: a packed structure, its fields in order,
-- each little-endian (the server's and the clients' machines).
use the_multi_room_speaker.Base.{
  ℕ, zero, suc, ◌+◌, ◌-◌, ◌*◌, ◌/◌, ◌%◌, ◌^◌, ◌<◌, ◌≡◌, refl, ap, Bool, true, false, List, [], ◌∷◌,
  ◌++◌, length, ltb, ◌==◌, not, if◌then◌else◌, arith, int_mod, u32_mod,
}
use the_multi_room_speaker.Base.Int.{ℤ, pos, negsuc}
use the_multi_room_speaker.Wire.{BufHdr}
use native.Mathlib.Nat.{pow-suc}

-- The `w` bytes of a number, lowest first.
unfoldable pub bytes_of : ℕ → ℕ → List ℕ
bytes_of zero x = []
bytes_of (suc w) x = x % 256 ∷ bytes_of w (x / 256)

-- The number of the first `w` bytes, and the bytes behind them.
unfoldable pub read : ℕ → List ℕ → ℕ × List ℕ
read zero bs = (0, bs)
read (suc w) [] = (0, [])
read (suc w) (b ∷ bs) = let (x, rest) = read w bs in (b + 256 * x, rest)

pub read-bytes_of :
    (w x : ℕ) (rest : List ℕ) → x < 256 ^ w → read w (bytes_of w x ++ rest) ≡ (x, rest)
unfolding read bytes_of
read-bytes_of zero x rest h = ap (λ (n : ℕ). (n, rest)) (omega arith)
read-bytes_of (suc w) x rest h =
    let fits : x / 256 < 256 ^ w = omega (arith, pow-suc 256 w, h) in
    rw (read-bytes_of w (x / 256) rest fits) (ap (λ (n : ℕ). (n, rest)) (omega arith))

pub length-bytes_of : (w x : ℕ) → length (bytes_of w x) ≡ w
unfolding bytes_of
length-bytes_of zero x = refl
length-bytes_of (suc w) x = ap suc (length-bytes_of w (x / 256))

-- An `int` as its 32-bit pattern, and back.
unfoldable pub int_bits : ℤ → ℕ
int_bits (pos n) = n
int_bits (negsuc n) = u32_mod - 1 - n

unfoldable pub bits_int : ℕ → ℤ
bits_int x = if ltb x int_mod then pos x else negsuc (u32_mod - 1 - x)

abbrev pub bool_byte : Bool → ℕ
bool_byte true = 1
bool_byte false = 0

unfoldable pub encode : BufHdr → List ℕ
encode h =
    bytes_of 1 h.frm_sig
    ++ (bytes_of 4 h.cur_seq
        ++ (bytes_of 1 (bool_byte h.is_pilot)
            ++ (bytes_of 8 h.cli_ping
                ++ (bytes_of 8 h.srv_tick
                    ++ (bytes_of 8 h.pilot_ping
                        ++ (bytes_of 4 h.pilot_seq
                            ++ (bytes_of 2 h.cli_qlen
                                ++ (bytes_of 2 h.cli_qsize
                                    ++ (bytes_of 2 h.cli_qoptim
                                        ++ (bytes_of 2 h.pilot_q_perc
                                            ++ (bytes_of 4 (int_bits h.buf_len)
                                                ++ bytes_of 2 h.ao_rate)))))))))))

-- The header in the first bytes of a buffer, and the bytes behind it.
unfoldable pub decode : List ℕ → BufHdr × List ℕ
decode bs =
    let (frm_sig, b1) = read 1 bs in
    let (cur_seq, b2) = read 4 b1 in
    let (is_pilot, b3) = read 1 b2 in
    let (cli_ping, b4) = read 8 b3 in
    let (srv_tick, b5) = read 8 b4 in
    let (pilot_ping, b6) = read 8 b5 in
    let (pilot_seq, b7) = read 4 b6 in
    let (cli_qlen, b8) = read 2 b7 in
    let (cli_qsize, b9) = read 2 b8 in
    let (cli_qoptim, b10) = read 2 b9 in
    let (pilot_q_perc, b11) = read 2 b10 in
    let (buf_len, b12) = read 4 b11 in
    let (ao_rate, b13) = read 2 b12 in
    (
      record {
        frm_sig = frm_sig;
        cur_seq = cur_seq;
        is_pilot = not (is_pilot == 0);
        cli_ping = cli_ping;
        srv_tick = srv_tick;
        pilot_ping = pilot_ping;
        pilot_seq = pilot_seq;
        cli_qlen = cli_qlen;
        cli_qsize = cli_qsize;
        cli_qoptim = cli_qoptim;
        pilot_q_perc = pilot_q_perc;
        buf_len = bits_int buf_len;
        ao_rate = ao_rate;
      },
      b13,
    )
