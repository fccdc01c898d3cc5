-- ===== src/Transfer/Send/Repeated.antt =====
-- What `send` makes of a repeated acknowledgement.
use reliable_udp.Prelude.{
  ℕ, ◌*◌, ◌≤◌, ◌≡◌, true, some, List, [], ◌∷◌, arith, ap, ◌∙◌, take, length, signed32,
}
use reliable_udp.Wire.Checksum.{Bytes}
use reliable_udp.Wire.Header.{flag_ack}
use reliable_udp.Network.{Address, Sent, Attempt, datagram, ready, accepted, address_eq}
use reliable_udp.Run.{returned, prepend, again, proceed, stop}
use reliable_udp.Run.Rules.{run_loop-stop, run_loop-again}
use reliable_udp.Socket.{Socket, payload_room}
use reliable_udp.Validity.Control.{Carries}
use reliable_udp.Transfer.Send.{
  Sending, chunk_size, is_last, data_packet, message, acknowledge, send_head, send_round, send_loop,
  send_buffer, send,
}
use reliable_udp.Transfer.Packets.{IsReady, before, last, room_bounds, expected_packets_lem}
use reliable_udp.Transfer.Send.Script.{packet_at}
use reliable_udp.Transfer.Send.Delivery.{
  m, send_head-before, send_round-acked, acknowledge-before, start_sending-before,
}

module _ (s : Socket) (buffer : Bytes) (r : IsReady s buffer) (three : last s buffer ≡ 2) where
  -- The variables behind the repeated acknowledgement: the last packet is next, with the number and the
  -- place of the one before it.
  abbrev skipped : Sending
  skipped = record {
    socket = s;
    i = 2;
    num_of_tries = 0;
    total_packets = 1;
    total_bytes = payload_room s;
    prev_seq_num = 0;
  }

  abbrev finished : Sending
  finished = record {
    socket = s;
    i = 3;
    num_of_tries = 0;
    total_packets = 2;
    total_bytes = 2 * payload_room s;
    prev_seq_num = 1;
  }

  two_rooms : 2 * payload_room s ≤ length buffer
  two_rooms = let b = room_bounds s buffer r in grind arith

  count : (message s buffer (length buffer)).expected_packets ≡ 3
  count = let e = expected_packets_lem s buffer r in omega arith

  chunk-skipped : chunk_size (m s buffer r) skipped ≡ payload_room s
  unfolding chunk_size message
  chunk-skipped = let b = room_bounds s buffer r in let full = two_rooms in omega arith

  acknowledge-repeated : acknowledge (m s buffer r) (before s 1 0) 0 ≡ skipped
  unfolding acknowledge before is_last
  acknowledge-repeated = let n = count in ground arith

  acknowledge-skipped : acknowledge (m s buffer r) skipped 1 ≡ finished
  unfolding acknowledge is_last
  acknowledge-skipped =
      let n = count in let b = room_bounds s buffer r in rw chunk-skipped (ground arith)

  abbrev pub cut : Sent
  cut = record { packet = data_packet (m s buffer r) skipped; to = s.destination }

  send_head-skipped : send_head (m s buffer r) skipped ≡ proceed (cut ∷ [])
  unfolding send_head
  send_head-skipped =
      let n = count in
      let b = room_bounds s buffer r in
      let tries = r.valid.max_retries_min in rw chunk-skipped (ground arith)

  send_head-finished :
      send_head (m s buffer r) finished
      ≡ stop (record { outcome = returned (signed32 (2 * payload_room s)); state = s; sent = [] })
  unfolding send_head
  send_head-finished = let n = count in ground arith

  round-before :
      (k j : ℕ) (bytes : Bytes) (source : Address)
      → address_eq source s.destination ≡ true
      → Carries (take s.protocol_mtu bytes) flag_ack j
      → send_round (m s buffer r) (before s k 0) (accepted (ready (datagram bytes source)))
        ≡ again [] (acknowledge (m s buffer r) (before s k 0) j)
  unfolding before
  round-before k j bytes source peer a =
      send_round-acked s buffer r (before s k 0) j bytes source peer a

  loop-repeated :
      (first second : Bytes) (source : Address) (rest : List Attempt)
      → address_eq source s.destination ≡ true
      → Carries (take s.protocol_mtu first) flag_ack 0
      → Carries (take s.protocol_mtu second) flag_ack 1
      → send_loop (m s buffer r) (before s 0 0) (
          accepted (ready (datagram first source))
          ∷ accepted (ready (datagram first source))
          ∷ accepted (ready (datagram second source))
          ∷ rest)
        ≡ record {
          outcome = returned (signed32 (2 * payload_room s));
          state = s;
          sent = packet_at s buffer 0 ∷ packet_at s buffer 1 ∷ cut ∷ [];
        }
  unfolding send_loop
  loop-repeated first second source rest peer a0 a1 =
      let tries = r.valid.max_retries_min in
      run_loop-again _ _ _ (before s 0 0) (before s 1 0) _ _
        (send_head-before s buffer r 0 0 (omega arith) (omega arith))
        (round-before 0 0 first source peer a0
          ∙ ap (again []) (acknowledge-before s buffer r 0 0 (omega arith)))
      ∙ ap (prepend (packet_at s buffer 0 ∷ [])) (
          run_loop-again _ _ _ (before s 1 0) skipped _ _
            (send_head-before s buffer r 1 0 (omega arith) (omega arith))
            (round-before 1 0 first source peer a0 ∙ ap (again []) acknowledge-repeated)
          ∙ ap (prepend (packet_at s buffer 1 ∷ [])) (
              run_loop-again _ _ _ skipped finished _ _ send_head-skipped (
                send_round-acked s buffer r skipped 1 second source peer a1
                ∙ ap (again []) acknowledge-skipped)
              ∙ ap (prepend (cut ∷ [])) (run_loop-stop _ _ _ finished rest send_head-finished)))

  -- `send` of a message of three packets on a connected, valid socket: where the acknowledgement of the
  -- first packet comes twice, and then that of the second, the call ends with the data of two packets
  -- sent and counted, and that of the third never.
  pub send-repeated :
      (first second : Bytes) (source : Address) (rest : List Attempt)
      → address_eq source s.destination ≡ true
      → Carries (take s.protocol_mtu first) flag_ack 0
      → Carries (take s.protocol_mtu second) flag_ack 1
      → send s (some buffer) (length buffer) (
          accepted (ready (datagram first source))
          ∷ accepted (ready (datagram first source))
          ∷ accepted (ready (datagram second source))
          ∷ rest)
        ≡ record {
          outcome = returned (signed32 (2 * payload_room s));
          state = s;
          sent = packet_at s buffer 0 ∷ packet_at s buffer 1 ∷ cut ∷ [];
        }
  unfolding send send_buffer
  send-repeated first second source rest peer a0 a1 =
      let b = room_bounds s buffer r in
      let answers =
        accepted (ready (datagram first source))
        ∷ accepted (ready (datagram first source))
        ∷ accepted (ready (datagram second source))
        ∷ rest in
      let started =
        ap (λ st. send_loop (m s buffer r) st answers) (start_sending-before s buffer r) in
      ground (arith, r.connected, started, loop-repeated first second source rest peer a0 a1)
