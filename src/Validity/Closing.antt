-- ===== src/Validity/Closing.antt =====
-- `_check_packet_validity` on the packets that close a connection.
use reliable_udp.Prelude.{◌+◌, ◌≡◌, true, false, none, [], ◌∷◌, arith, refl}
use reliable_udp.Wire.Checksum.{Bytes}
use reliable_udp.Wire.Header.{flag_psh, flag_ack, flag_fin}
use reliable_udp.Socket.{Socket, send_control_packet}
use reliable_udp.Validity.{closed, check_flags, fin_request, check_packet_validity}
use reliable_udp.Validity.Control.{Carries}

-- A FIN of the peer, while data is expected: the connection is closed, and a FIN-ACK answers.
pub check_packet_validity-fin :
    (s : Socket) (packet : Bytes)
    → Carries packet flag_fin 0
    → s.is_connected ≡ true
    → check_packet_validity s packet flag_psh ≡ record {
      verdict = closed;
      socket = record s { is_connected = false };
      sent = send_control_packet s (flag_fin + flag_ack) 0 none ∷ [];
    }
unfolding check_packet_validity check_flags fin_request
check_packet_validity-fin s packet c connected = rw (c.0, c.1) (ground (arith, connected))

-- A FIN-ACK, while one is expected.
pub check_packet_validity-fin_ack :
    (s : Socket) (packet : Bytes)
    → Carries packet (flag_fin + flag_ack) 0
    → check_packet_validity s packet (flag_fin + flag_ack)
      ≡ record { verdict = closed; socket = record s { is_connected = false }; sent = [] }
unfolding check_packet_validity check_flags
check_packet_validity-fin_ack s packet c = rw (c.0, c.1) refl
