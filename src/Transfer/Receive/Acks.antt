-- ===== src/Transfer/Receive/Acks.antt =====
-- The acknowledgements of `recv` are well-formed.
use reliable_udp.Prelude.{ℕ, ◌%◌, ◌^◌, ◌≡◌, sym, ◌∙◌, none, arith, refl, ap, length}
use reliable_udp.Wire.Checksum.{calculate_checksum}
use reliable_udp.Wire.Header.{encode_header, seal, flag_ack}
use reliable_udp.Run.Rules.{All}
use reliable_udp.Socket.{Socket, control_packet, send_control_packet}
use reliable_udp.Socket.Invariant.{IsValid}
use reliable_udp.Validity.{well_formed}
use reliable_udp.Validity.Control.{WellSent, send_control_packet-WellSent}
use reliable_udp.Transfer.Receive.{ack}

-- A sequence number counts by its 32 bits alone.
encode_header-wrap :
    (n length checksum flags : ℕ)
    → encode_header
        (record { seq_num = n % 2 ^ 32; length = length; checksum = checksum; flags = flags })
      ≡ encode_header (record { seq_num = n; length = length; checksum = checksum; flags = flags })
unfolding encode_header
encode_header-wrap n length checksum flags = ground arith

ack_packet-wrap :
    (s : Socket) (n : ℕ) → control_packet s flag_ack (n % 2 ^ 32) ≡ control_packet s flag_ack n
unfolding control_packet seal
ack_packet-wrap s n = rw (encode_header-wrap n 0 0 flag_ack) (
    rw
      (encode_header-wrap n 0
        (calculate_checksum
          (encode_header (record { seq_num = n; length = 0; checksum = 0; flags = flag_ack })))
        flag_ack)
      refl)

pub ack-WellSent : (s : Socket) (n : ℕ) → IsValid s → All WellSent (ack s n)
unfolding send_control_packet
ack-WellSent s n v =
    let sent =
      send_control_packet-WellSent s flag_ack (n % 2 ^ 32) none v (omega arith) (omega arith) in
    (ap well_formed (sym (ack_packet-wrap s n)) ∙ sent, tt)
