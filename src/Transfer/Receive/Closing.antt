-- ===== src/Transfer/Receive/Closing.antt =====
-- `recv` where the peer closes the connection.
use reliable_udp.Prelude.{
  ℕ, ◌+◌, ◌≡◌, true, false, none, some, List, [], ◌∷◌, arith, refl, take-all, length, pos,
}
use reliable_udp.Wire.Checksum.{Bytes}
use reliable_udp.Wire.Header.{flag_ack, flag_fin}
use reliable_udp.Network.{Address, Incoming, Wait, datagram, address_eq}
use reliable_udp.Run.{returned, proceed, done}
use reliable_udp.Run.Rules.{run_loop-done}
use reliable_udp.Socket.{Socket, check_packet_source, send_control_packet}
use reliable_udp.Socket.Invariant.{IsValid}
use reliable_udp.Validity.Control.{Carries}
use reliable_udp.Validity.Closing.{check_packet_validity-fin}
use reliable_udp.Transfer.Receive.{
  first_head, first_round, first_loop, continue_recv, recv_buffer, recv,
}

module _ (q : Socket) (packet : Bytes) (source : Address) (v : IsValid q)
    (connected : q.is_connected ≡ true) (a : Carries packet flag_fin 0) (short : length packet ≡ 12)
    (peer : address_eq source q.destination ≡ true) where
  first_round-fin :
      (t : ℕ)
      → first_round (record { socket = q; num_of_tries = t }) (datagram packet source)
        ≡ done (record {
          outcome = returned none;
          state = record q { is_connected = false };
          sent = send_control_packet q (flag_fin + flag_ack) 0 none ∷ [];
        })
  unfolding first_round check_packet_source
  first_round-fin t =
      let least = v.mtu_min in
      let whole = take-all q.protocol_mtu packet (omega arith) in
      rw (peer, whole, check_packet_validity-fin q packet a connected) refl

  first_head-open : first_head (record { socket = q; num_of_tries = 0 }) ≡ proceed []
  unfolding first_head
  first_head-open = let tries = v.max_retries_min in ground arith

  first_loop-fin :
      (rest : List Incoming)
      → first_loop (record { socket = q; num_of_tries = 0 }) (datagram packet source ∷ rest)
        ≡ record {
          outcome = returned none;
          state = record q { is_connected = false };
          sent = send_control_packet q (flag_fin + flag_ack) 0 none ∷ [];
        }
  unfolding first_loop
  first_loop-fin rest = run_loop-done _ _ _ _ _ rest first_head-open (first_round-fin 0)

  pub recv-fin :
      (buffer : Bytes) (size : ℕ) (rest : List Incoming) (ws : List Wait)
      → recv q (some buffer) size (datagram packet source ∷ rest) ws ≡ record {
        outcome = returned (pos 0);
        state = record { socket = record q { is_connected = false }; buffer = buffer };
        sent = send_control_packet q (flag_fin + flag_ack) 0 none ∷ [];
      }
  unfolding recv recv_buffer continue_recv
  recv-fin buffer size rest ws = ground (arith, connected, first_loop-fin rest)
