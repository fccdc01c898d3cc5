-- ===== src/Wire/Header.antt =====
-- The structures and constants of src/include/RUDP_API_wrap.hpp as bytes, and the sealing of a packet
-- by its checksum.
pub mod Codec
use reliable_udp.Prelude.{ℕ, ◌+◌, ◌/◌, ◌%◌, Bool, [], ◌∷◌, ◌++◌, ◌==◌, take, drop}
use reliable_udp.Wire.Checksum.{Bytes, calculate_checksum}
use reliable_udp.Wire.Words.{put16, put32, byte_at, u16_at, u32_at}

abbrev pub flag_syn : ℕ
flag_syn = 0x01

abbrev pub flag_ack : ℕ
flag_ack = 0x02

abbrev pub flag_psh : ℕ
flag_psh = 0x04

abbrev pub flag_last : ℕ
flag_last = 0x08

abbrev pub flag_fin : ℕ
flag_fin = 0x10

-- `flags & flag`, for a flag of one bit. The unions of the code, such as `SYN | ACK`, are sums here.
abbrev pub flag_set : ℕ → ℕ → Bool
flag_set flags flag = flags / flag % 2 == 1

-- `RUDP_header`. The three reserved bytes are written as zeros and never read.
pub record Header : Type 0 where
  pub seq_num : ℕ
  pub length : ℕ
  pub checksum : ℕ
  pub flags : ℕ

-- `sizeof(RUDP_header)`
abbrev pub header_size : ℕ
header_size = 12

-- `RUDP_SYN_packet`
pub record SynPacket : Type 0 where
  pub mtu : ℕ
  pub timeout : ℕ
  pub max_retries : ℕ
  pub debug_mode : ℕ

-- `sizeof(RUDP_SYN_packet)`
abbrev pub syn_packet_size : ℕ
syn_packet_size = 8

-- `RUDP_MINIMAL_MTU`
abbrev pub minimal_mtu : ℕ
minimal_mtu = header_size + syn_packet_size

-- `RUDP_MINIMAL_TIMEOUT`
abbrev pub minimal_timeout : ℕ
minimal_timeout = 10

unfoldable pub encode_header : Header → Bytes
encode_header h =
    put32 h.seq_num ++ put16 h.length ++ put16 h.checksum ++ h.flags % 256 ∷ 0 ∷ 0 ∷ 0 ∷ []

unfoldable pub decode_header : Bytes → Header
decode_header packet = record {
  seq_num = u32_at packet 0;
  length = u16_at packet 4;
  checksum = u16_at packet 6;
  flags = byte_at packet 8;
}

unfoldable pub encode_syn : SynPacket → Bytes
encode_syn p = put16 p.mtu ++ put16 p.timeout ++ put16 p.max_retries ++ put16 p.debug_mode

-- The `RUDP_SYN_packet` behind the header.
unfoldable pub decode_syn : Bytes → SynPacket
decode_syn packet = record {
  mtu = u16_at packet 12;
  timeout = u16_at packet 14;
  max_retries = u16_at packet 16;
  debug_mode = u16_at packet 18;
}

-- `header->checksum = 0;` on a packet of at least a header's size.
unfoldable pub clear_checksum : Bytes → Bytes
clear_checksum packet = take 6 packet ++ 0 ∷ 0 ∷ drop 8 packet

-- A packet with its checksum: summed with the field at zero, then stored in the field.
unfoldable pub seal : Header → Bytes → Bytes
unfolding encode_header
seal h body =
    encode_header (record h { checksum = calculate_checksum (encode_header h ++ body) }) ++ body
