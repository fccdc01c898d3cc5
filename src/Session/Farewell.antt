-- ===== src/Session/Farewell.antt =====
-- The end of a connection: one side calls `disconnect`, the other one `recv`.
use reliable_udp.Prelude.{
  ℕ, suc, ◌+◌, ◌<◌, ◌≡◌, true, false, none, some, List, [], ◌∷◌, ◌++◌, arith, refl, replicate, pos,
}
use reliable_udp.Wire.Checksum.{Bytes}
use reliable_udp.Wire.Header.{flag_ack, flag_fin}
use reliable_udp.Network.{Address, Incoming, Wait, datagram, timed_out, ready, address_eq}
use reliable_udp.Run.{returned}
use reliable_udp.Socket.{Socket, send_control_packet}
use reliable_udp.Socket.Invariant.{IsValid}
use reliable_udp.Validity.Control.{control_packet-Carries, length-control_packet}
use reliable_udp.Connection.{forget, disconnect}
use reliable_udp.Connection.Closing.{disconnect-fin_ack}
use reliable_udp.Transfer.Receive.{recv}
use reliable_udp.Transfer.Receive.Closing.{recv-fin}

-- Two valid sockets that are connected to each other. Where one calls `disconnect`, its FIN packet
-- reaches the other one in `recv` as the first datagram, and the answer comes back after less timeouts
-- than its retries, `disconnect` returns true and has forgotten the peer, with a FIN sent for each
-- timeout and one more; `recv` returns 0, leaves the buffer as it was and the socket not connected, and
-- has sent one FIN-ACK.
pub farewell :
    (c q : Socket) (source_c source_q : Address) (buffer : Bytes) (size lost : ℕ)
    (waits : List Wait) (incoming : List Incoming) (later : List Wait)
    → IsValid c
    → IsValid q
    → c.is_connected ≡ true
    → q.is_connected ≡ true
    → address_eq source_c q.destination ≡ true
    → address_eq source_q c.destination ≡ true
    → lost < c.protocol_max_retries
    → let fin = send_control_packet c flag_fin 0 none in
      let fin_ack = send_control_packet q (flag_fin + flag_ack) 0 none in
      (disconnect c (replicate lost timed_out ++ ready (datagram fin_ack.packet source_q) ∷ waits)
        ≡ record { outcome = returned true; state = forget c; sent = replicate (suc lost) fin })
      × (recv q (some buffer) size (datagram fin.packet source_c ∷ incoming) later ≡ record {
        outcome = returned (pos 0);
        state = record { socket = record q { is_connected = false }; buffer = buffer };
        sent = fin_ack ∷ [];
      })
unfolding send_control_packet
farewell c q source_c source_q buffer size lost waits incoming later vc vq c_on q_on from_c from_q
      few =
    let answer = control_packet-Carries q (flag_fin + flag_ack) 0 vq (omega arith) (omega arith) in
    let request = control_packet-Carries c flag_fin 0 vc (omega arith) (omega arith) in
    (
      disconnect-fin_ack c _ source_q vc answer
          (length-control_packet q (flag_fin + flag_ack) 0 refl) from_q lost waits c_on few,
      recv-fin q _ source_c vq q_on request (length-control_packet c flag_fin 0 refl) from_c buffer
          size incoming later,
    )
