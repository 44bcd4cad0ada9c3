-- ===== src/Wire.antt =====
-- common/srvq.h: the constants and the play buffer header that server and clients exchange.
pub mod Codec
pub mod Roundtrip
use the_multi_room_speaker.Base.{ℕ, Bool, false, ◌+◌}
use the_multi_room_speaker.Base.Int.{ℤ, pos}

-- The frame signatures SYNC_DATA, ALIVE_DATA and RESET_ALL.
abbrev pub sync_data : ℕ
sync_data = 1

abbrev pub alive_data : ℕ
alive_data = 2

abbrev pub reset_all : ℕ
reset_all = 3

abbrev pub one_sec : ℕ
one_sec = 1000000

abbrev pub qos_to : ℕ
qos_to = 250000

-- SAMPLE_AO, CHANNELS_AO and BITS_AO.
abbrev pub sample_ao : ℕ
sample_ao = 44100

abbrev pub channels_ao : ℕ
channels_ao = 2

abbrev pub bits_ao : ℕ
bits_ao = 16

abbrev pub tcp_snd_len : ℕ
tcp_snd_len = 4096

abbrev pub spk_srv_port : ℕ
spk_srv_port = 9980

abbrev pub cli_sync_percent : ℕ
cli_sync_percent = 50

abbrev pub q_almost_empty : ℕ
q_almost_empty = 4

abbrev pub max_reque_interval : ℕ
max_reque_interval = 30

abbrev pub synched_delta : ℕ
synched_delta = 4

-- `BufHdr`, a packed structure. `buf_len` is an `int`; the other fields are unsigned but
-- `ao_rate`, an `int16_t` that only ever holds 44100 as its 16-bit pattern.
pub record BufHdr : Type 0 where
  pub frm_sig : ℕ
  pub cur_seq : ℕ
  pub is_pilot : Bool
  pub cli_ping : ℕ
  pub srv_tick : ℕ
  pub pilot_ping : ℕ
  pub pilot_seq : ℕ
  pub cli_qlen : ℕ
  pub cli_qsize : ℕ
  pub cli_qoptim : ℕ
  pub pilot_q_perc : ℕ
  pub buf_len : ℤ
  pub ao_rate : ℕ

-- The header with all its bytes zero.
abbrev pub zero_hdr : BufHdr
zero_hdr = record {
  frm_sig = 0;
  cur_seq = 0;
  is_pilot = false;
  cli_ping = 0;
  srv_tick = 0;
  pilot_ping = 0;
  pilot_seq = 0;
  cli_qlen = 0;
  cli_qsize = 0;
  cli_qoptim = 0;
  pilot_q_perc = 0;
  buf_len = pos 0;
  ao_rate = 0;
}

-- sizeof(BufHdr): the fields' bytes with no padding.
abbrev pub hdr_size : ℕ
hdr_size = 1 + 4 + 1 + 8 + 8 + 8 + 4 + 2 + 2 + 2 + 2 + 4 + 2

-- TCP_MTU
abbrev pub tcp_mtu : ℕ
tcp_mtu = tcp_snd_len + hdr_size
