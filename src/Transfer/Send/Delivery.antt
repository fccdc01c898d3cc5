-- ===== src/Transfer/Send/Delivery.antt =====
-- `send` over a network that loses and damages packets and carries foreign ones: acknowledged packet by packet, it
-- sends the whole message.
use reliable_udp.Prelude.{
  ℕ, ◌+◌, ◌*◌, ◌%◌, ◌^◌, ◌≤◌, ◌<◌, ◌≡◌, true, false, some, List, [], ◌∷◌, arith, take, refl, ap,
  length, ◌∙◌, signed32,
}
use reliable_udp.Wire.Checksum.{Bytes}
use reliable_udp.Wire.Header.{flag_ack, flag_fin}
use reliable_udp.Network.{Address, Attempt, datagram, timed_out, ready, accepted, address_eq}
use reliable_udp.Run.{returned, proceed, again, stop, prepend}
use reliable_udp.Run.Rules.{run_loop-again, run_loop-stop}
use reliable_udp.Socket.{Socket, payload_room, check_packet_source, send_control_packet}
use reliable_udp.Validity.Flags.{
  check_packet_validity-valid_iff, check_packet_validity-valid, check_packet_validity-malformed,
}
use reliable_udp.Validity.Control.{Carries}
use reliable_udp.Transfer.Send.{
  Message, Sending, send_head, acknowledge, send_round, send_loop, start_sending, message,
  send_buffer, send,
}
use reliable_udp.Validity.{well_formed}
use reliable_udp.Transfer.Send.Script.{
  Acks, lost, foreign, damaged, acked, finished, transcript, packet_at,
}
use reliable_udp.Transfer.Packets.{
  IsReady, before, data_packet-before, room_bounds, expected_packets_lem, last, slice, length-slice,
  chunk_size-before, is_last-before,
}

module _ (s : Socket) (buffer : Bytes) (r : IsReady s buffer) where
  abbrev pub m : Message
  m = message s buffer (length buffer)

  pub send_head-before :
      (k t : ℕ)
      → k ≤ last s buffer
      → t < s.protocol_max_retries
      → send_head m (before s k t) ≡ proceed (packet_at s buffer k ∷ [])
  unfolding send_head before
  send_head-before k t h few =
      let count = expected_packets_lem s buffer r in
      let b = room_bounds s buffer r in
      let l = length-slice s buffer r k in
      rw (data_packet-before s buffer k t, chunk_size-before s buffer r k t) (ground arith)

  pub send_round-lost :
      (k t : ℕ) → send_round m (before s k t) (accepted timed_out) ≡ again [] (before s k (t + 1))
  unfolding send_round before
  send_round-lost k t = refl

  send_round-foreign :
      (k t : ℕ) (bytes : Bytes) (source : Address)
      → address_eq source s.destination ≡ false
      → send_round m (before s k t) (accepted (ready (datagram bytes source)))
        ≡ again (send_control_packet s flag_fin 0 (some source) ∷ []) (before s k t)
  unfolding send_round before check_packet_source
  send_round-foreign k t bytes source other = rw other refl

  send_round-damaged :
      (k t : ℕ) (bytes : Bytes) (source : Address)
      → address_eq source s.destination ≡ true
      → well_formed (take s.protocol_mtu bytes) ≡ false
      → send_round m (before s k t) (accepted (ready (datagram bytes source)))
        ≡ again [] (before s k (t + 1))
  unfolding send_round before check_packet_source
  send_round-damaged k t bytes source peer bad =
      rw (peer, check_packet_validity-malformed s (take s.protocol_mtu bytes) flag_ack bad) refl

  -- The variables behind an acknowledgement of packet `k` by its number.
  pub acknowledge-before :
      (k t : ℕ) → k < last s buffer → acknowledge m (before s k t) k ≡ before s (k + 1) 0
  unfolding acknowledge before
  acknowledge-before k t h =
      let b = room_bounds s buffer r in
      let fits = r.size_fits in
      let l = length-slice s buffer r k in
      let full : (k + 1) * payload_room s ≤ length buffer = grind arith in
      let low : k + 1 < 2 ^ 32 = grind arith in
      let total : (k * payload_room s + length (slice (payload_room s) buffer k)) % 2 ^ 32
          ≡ (k + 1) * payload_room s =
        omega arith in
      rw (chunk_size-before s buffer r k t, is_last-before s buffer r k t) (ground arith)

  -- A valid acknowledgement from the peer.
  pub send_round-acked :
      (st : Sending) (k : ℕ) (bytes : Bytes) (source : Address)
      → address_eq source st.socket.destination ≡ true
      → Carries (take st.socket.protocol_mtu bytes) flag_ack k
      → send_round m st (accepted (ready (datagram bytes source))) ≡ again [] (acknowledge m st k)
  unfolding send_round check_packet_source
  send_round-acked st k bytes source peer (form, flags, seq) =
      let p = take st.socket.protocol_mtu bytes in
      let ok = (check_packet_validity-valid_iff st.socket p).1.1 (form, flags) in
      rw (peer, check_packet_validity-valid st.socket p flag_ack ok, seq) refl

  -- The variables behind the acknowledgement of the last packet: all is sent.
  acknowledge-last :
      (k t : ℕ)
      → k ≡ last s buffer
      → acknowledge m (before s k t) k ≡ record {
        socket = s;
        i = k + 1;
        num_of_tries = 0;
        total_packets = k + 1;
        total_bytes = length buffer;
        prev_seq_num = k;
      }
  unfolding acknowledge before
  acknowledge-last k t h =
      let b = room_bounds s buffer r in
      let fits = r.size_fits in
      let l = length-slice s buffer r k in
      let low : k + 1 < 2 ^ 32 = grind arith in
      let begun : k * payload_room s ≤ length buffer = grind arith in
      let total : (k * payload_room s + length (slice (payload_room s) buffer k)) % 2 ^ 32
          ≡ length buffer =
        grind arith in
      rw (chunk_size-before s buffer r k t, is_last-before s buffer r k t) (ground arith)

  step-acked :
      (k t : ℕ) (bytes : Bytes) (source : Address)
      → address_eq source s.destination ≡ true
      → Carries (take s.protocol_mtu bytes) flag_ack k
      → send_round m (before s k t) (accepted (ready (datagram bytes source)))
        ≡ again [] (acknowledge m (before s k t) k)
  unfolding before
  step-acked k t bytes source = send_round-acked (before s k t) k bytes source

  send_head-last :
      (k : ℕ)
      → k ≡ last s buffer
      → send_head m (record {
        socket = s;
        i = k + 1;
        num_of_tries = 0;
        total_packets = k + 1;
        total_bytes = length buffer;
        prev_seq_num = k;
      })
        ≡ stop (record { outcome = returned (signed32 (length buffer)); state = s; sent = [] })
  unfolding send_head
  send_head-last k end = let count = expected_packets_lem s buffer r in ground arith

  send_loop-delivers :
      {k t : ℕ} {ws : List Attempt} (a : Acks s (last s buffer) k t ws)
      → k ≤ last s buffer
      → t < s.protocol_max_retries
      → send_loop m (before s k t) ws ≡ record {
        outcome = returned (signed32 (length buffer));
        state = s;
        sent = transcript s buffer a;
      }
  unfolding send_loop transcript
  send_loop-delivers {k} {t} (lost {ws = ws} left a) h few =
      run_loop-again _ _ _ _ _ _ ws (send_head-before k t h few) (send_round-lost k t)
      ∙ ap (prepend (packet_at s buffer k ∷ [])) (send_loop-delivers a h left)
  send_loop-delivers {k} {t} (foreign {ws = ws} bytes source other a) h few =
      run_loop-again _ _ _ _ _ _ ws (send_head-before k t h few)
        (send_round-foreign k t bytes source other)
      ∙ ap (prepend (packet_at s buffer k ∷ send_control_packet s flag_fin 0 (some source) ∷ []))
          (send_loop-delivers a h few)
  send_loop-delivers {k} {t} (damaged {ws = ws} bytes source peer bad left a) h few =
      run_loop-again _ _ _ _ _ _ ws (send_head-before k t h few)
        (send_round-damaged k t bytes source peer bad)
      ∙ ap (prepend (packet_at s buffer k ∷ [])) (send_loop-delivers a h left)
  send_loop-delivers {k} {t} (acked {ws = ws} bytes source peer ack more a) h few =
      run_loop-again _ _ _ _ _ _ ws (send_head-before k t h few)
        (step-acked k t bytes source peer ack ∙ ap (again []) (acknowledge-before k t more))
      ∙ ap (prepend (packet_at s buffer k ∷ [])) (send_loop-delivers a (omega arith) (omega arith))
  send_loop-delivers {k} {t} (finished {ws = ws} bytes source peer ack end) h few =
      run_loop-again _ _ _ _ _ _ ws (send_head-before k t h few)
        (step-acked k t bytes source peer ack ∙ ap (again []) (acknowledge-last k t end))
      ∙ ap (prepend (packet_at s buffer k ∷ [])) (run_loop-stop _ _ _ _ ws (send_head-last k end))

  pub start_sending-before : start_sending s ≡ before s 0 0
  unfolding start_sending before
  start_sending-before = ground arith

  -- Where the network loses or damages packets for less tries in a row than the socket allows, carries
  -- datagrams of others, and otherwise brings the peer's acknowledgement of each packet by its number, `send` on a
  -- connected, valid socket returns the size of the buffer, leaves the socket as it was, and has sent
  -- what the transcript of the answers says: each packet in turn, again after each loss.
  pub send_delivers :
      {ws : List Attempt} (a : Acks s (last s buffer) 0 0 ws)
      → send s (some buffer) (length buffer) ws ≡ record {
        outcome = returned (signed32 (length buffer));
        state = s;
        sent = transcript s buffer a;
      }
  unfolding send send_buffer
  send_delivers {ws} a =
      let b = room_bounds s buffer r in
      let started = ap (λ st. send_loop m st ws) start_sending-before in
      ground
        (arith, r.connected, started, send_loop-delivers a (omega arith) r.valid.max_retries_min)
