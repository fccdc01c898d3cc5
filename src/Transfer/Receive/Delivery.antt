-- ===== src/Transfer/Receive/Delivery.antt =====
-- `recv` over a network that loses, damages and repeats packets and carries foreign ones: where the
-- packets of a message come in turn, the message stands in the caller's buffer.
use reliable_udp.Prelude.{
  ℕ, ◌+◌, ◌-◌, ◌*◌, ◌≤◌, ◌<◌, ◌≡◌, ◌⊎◌, inl, inr, true, false, some, List, [], ◌∷◌, ◌++◌, arith,
  take, drop, refl, ap, length, ◌∙◌, signed32, ℤ,
}
use reliable_udp.Wire.Checksum.{Bytes}
use reliable_udp.Wire.Header.{flag_psh}
use reliable_udp.Network.{Address, Sent, Incoming, Wait, datagram, address_eq}
use reliable_udp.Run.{Run, returned, proceed, again, done, prepend}
use reliable_udp.Run.Rules.{run_loop-again, run_loop-done}
use reliable_udp.Socket.{Socket, payload_room, check_packet_source}
use reliable_udp.Validity.{well_formed}
use reliable_udp.Validity.Flags.{check_packet_validity-malformed}
use reliable_udp.Connection.{Tries}
use reliable_udp.Transfer.Packets.{packet, room_bounds, last, slice, length-slice, packet-Holds}
use reliable_udp.Transfer.Receive.{
  Memory, signed_gt, copy_payload, first_head, first_round, first_loop, recv_loop, recv_first,
  after_first, continue_recv, recv_buffer, recv,
}
use reliable_udp.Transfer.Receive.Storing.{
  progress, progress-all, copy_payload-start, signed_gt-false,
}
use reliable_udp.Transfer.Receive.Script.{
  Opening, Stream, opening_sends, stream_sends, ack, reject, CanTake,
}
use reliable_udp.Transfer.Receive.Rounds.{
  awaiting, take-packet, check-packet, recv_head-awaiting, copy-packet, round-lost, round-foreign,
  round-damaged, round-packet, packet-repeated, packet-next, packet-final, received-awaiting,
}

module _ (s q : Socket) (message old : Bytes) (c : CanTake s q message old) where
  abbrev delivered : List Sent → Run Memory ℤ
  delivered out = record {
    outcome = returned (signed32 (length message));
    state = record { socket = q; buffer = progress (length message) message old };
    sent = out;
  }

  recv_loop-delivers :
      {k t : ℕ} {ws : List Wait} (a : Stream q (packet s message) (last s message) k t ws)
      → 1 ≤ k
      → k ≤ last s message
      → t < q.protocol_max_retries
      → recv_loop (length old) (awaiting s q message old c k t) ws ≡ delivered (stream_sends q a)
  unfolding recv_loop stream_sends
  recv_loop-delivers {k} {t} (Stream.lost {ws = ws} left a) pos h few =
      run_loop-again _ _ _ _ _ _ ws (recv_head-awaiting s q message old c k t few)
        (round-lost s q message old c k t)
      ∙ recv_loop-delivers a pos h left
  recv_loop-delivers {k} {t} (Stream.foreign {ws = ws} bytes source other a) pos h few =
      run_loop-again _ _ _ _ _ _ ws (recv_head-awaiting s q message old c k t few)
        (round-foreign s q message old c k t bytes source other)
      ∙ ap (prepend (reject q source ∷ [])) (recv_loop-delivers a pos h few)
  recv_loop-delivers {k} {t} (Stream.damaged {ws = ws} bytes source peer bad left a) pos h few =
      run_loop-again _ _ _ _ _ _ ws (recv_head-awaiting s q message old c k t few)
        (round-damaged s q message old c k t bytes source peer bad)
      ∙ recv_loop-delivers a pos h left
  recv_loop-delivers {k} {t} (Stream.repeated {j = j} {ws = ws} source peer e a) pos h few =
      let before : j ≡ k - 1 = omega arith in
      rw before (
        run_loop-again _ _ _ _ _ _ ws (recv_head-awaiting s q message old c k t few) (
          round-packet s q message old c k t (k - 1) source peer (omega arith)
          ∙ packet-repeated s q message old c k t pos h)
        ∙ ap (prepend (ack q (k - 1) ∷ [])) (recv_loop-delivers a pos h (omega arith)))
  recv_loop-delivers {k} {t} (Stream.next {ws = ws} source peer more a) pos h few =
      run_loop-again _ _ _ _ _ _ ws (recv_head-awaiting s q message old c k t few) (
        round-packet s q message old c k t k source peer h
        ∙ packet-next s q message old c k t pos more
        ∙ ap (again (ack q k ∷ [])) (received-awaiting s q message old c k more))
      ∙ ap (prepend (ack q k ∷ [])) (recv_loop-delivers a (omega arith) (omega arith) (omega arith))
  recv_loop-delivers {k} {t} (Stream.final {ws = ws} source peer end) pos h few =
      run_loop-done _ _ _ _ _ ws (recv_head-awaiting s q message old c k t few) (
        round-packet s q message old c k t k source peer h
        ∙ packet-final s q message old c k t pos end)

  -- The first loop, up to the first packet of the message.
  abbrev trying : ℕ → Tries
  trying t = record { socket = q; num_of_tries = t }

  first_head-trying : (t : ℕ) → t < q.protocol_max_retries → first_head (trying t) ≡ proceed []
  unfolding first_head
  first_head-trying t h = ground arith

  first-foreign :
      (t : ℕ) (bytes : Bytes) (source : Address)
      → address_eq source q.destination ≡ false
      → first_round (trying t) (datagram bytes source) ≡ again (reject q source ∷ []) (trying t)
  unfolding first_round check_packet_source
  first-foreign t bytes source other = rw other refl

  first-damaged :
      (t : ℕ) (bytes : Bytes) (source : Address)
      → address_eq source q.destination ≡ true
      → well_formed (take q.protocol_mtu bytes) ≡ false
      → first_round (trying t) (datagram bytes source) ≡ again [] (trying (t + 1))
  unfolding first_round check_packet_source
  first-damaged t bytes source peer bad =
      rw (peer, check_packet_validity-malformed q (take q.protocol_mtu bytes) flag_psh bad) refl

  first-arrives :
      (t : ℕ) (source : Address)
      → address_eq source q.destination ≡ true
      → first_round (trying t) (datagram (packet s message 0) source)
        ≡ done (record { outcome = returned (some (packet s message 0)); state = q; sent = [] })
  unfolding first_round check_packet_source
  first-arrives t source peer =
      rw
        (
          peer,
          take-packet s q message old c 0 (omega arith),
          check-packet s q message old c 0 (omega arith),
        )
        refl

  first_loop-opens :
      {t : ℕ} {ws : List Incoming} (o : Opening q (packet s message 0) t ws)
      → t < q.protocol_max_retries
      → first_loop (trying t) ws ≡ record {
        outcome = returned (some (packet s message 0));
        state = q;
        sent = opening_sends q o;
      }
  unfolding first_loop opening_sends
  first_loop-opens {t} (Opening.foreign {ws = ws} bytes source other o) few =
      run_loop-again _ _ _ _ _ _ ws (first_head-trying t few) (first-foreign t bytes source other)
      ∙ ap (prepend (reject q source ∷ [])) (first_loop-opens o few)
  first_loop-opens {t} (Opening.damaged {ws = ws} bytes source peer bad left o) few =
      run_loop-again _ _ _ _ _ _ ws (first_head-trying t few)
        (first-damaged t bytes source peer bad)
      ∙ first_loop-opens o left
  first_loop-opens {t} (Opening.arrives {ws = ws} source peer) few =
      run_loop-done _ _ _ _ _ ws (first_head-trying t few) (first-arrives t source peer)

  -- What is left of the answers behind the first packet: nothing is awaited, or the second packet is.
  abbrev pub Rest : List Wait → Type 0
  Rest ws =
      (last s message ≡ 0)
      ⊎ ((1 ≤ last s message) × Stream q (packet s message) (last s message) 1 0 ws)

  unfoldable pub rest_sends : {ws : List Wait} → Rest ws → List Sent
  rest_sends (inl end) = ack q 0 ∷ []
  rest_sends (inr (more, a)) = ack q 0 ∷ stream_sends q a

  -- The first packet, in the buffer.
  copy-first :
      copy_payload q.protocol_mtu
        (packet s message 0)
        (length (slice (payload_room s) message 0))
        old
        0
      ≡ some (progress (length (slice (payload_room s) message 0)) message old)
  copy-first =
      copy_payload-start q.protocol_mtu (packet s message 0)
        (length (slice (payload_room s) message 0)) (0 * payload_room s) message old (omega arith)
        (copy-packet s q message old c 0 (omega arith))

  abbrev opened : ℕ
  opened = length (slice (payload_room s) message 0)

  opened_all : last s message ≡ 0 → opened ≡ length message
  opened_all end =
      let l = length-slice s message c.sender 0 in
      let b = room_bounds s message c.sender in grind arith

  opened-awaiting :
      1 ≤ last s message
      → record {
        socket = q;
        buffer = progress opened message old;
        num_of_tries = 0;
        total_bytes = opened;
        prev_seq_num = 0;
      }
        ≡ awaiting s q message old c 1 0
  opened-awaiting more =
      let l = length-slice s message c.sender 0 in
      let full : 1 * payload_room s ≤ length message = grind arith in
      let moved : opened ≡ 1 * payload_room s = omega arith in
      ground (arith, ap (λ (n : ℕ). progress n message old) moved)

  size_first : length (packet s message 0) - 12 ≡ opened
  size_first = let fits = (packet-Holds s message c.sender 0 (omega arith)).fits in omega arith

  within : signed_gt opened (length old) ≡ false
  within =
      let l = length-slice s message c.sender 0 in
      let enough = c.enough in signed_gt-false opened (length old) (omega arith) c.below

  after_first-delivers :
      {ws : List Wait} (a : Rest ws)
      → after_first (length old) q (packet s message 0) old (some (progress opened message old)) ws
        ≡ delivered (rest_sends a)
  unfolding after_first rest_sends
  after_first-delivers {ws} (inl end) =
      let p = packet-Holds s message c.sender 0 (omega arith) in
      let flags = p.flags in
      rw (size_first, within, p.seq_num)
        (ground (arith, ap (λ (n : ℕ). progress n message old) (opened_all end), opened_all end))
  after_first-delivers {ws} (inr (more, a)) =
      let p = packet-Holds s message c.sender 0 (omega arith) in
      let flags = p.flags in
      let tries = c.valid.max_retries_min in
      rw (size_first, within, p.seq_num, opened-awaiting more)
        (ground (arith, recv_loop-delivers a (omega arith) more (omega arith)))

  recv_first-delivers :
      {ws : List Wait} (a : Rest ws)
      → recv_first (length old) q (packet s message 0) old ws ≡ delivered (rest_sends a)
  unfolding recv_first
  recv_first-delivers {ws} a = rw (size_first, within, copy-first) (after_first-delivers a)

  -- A receiver gets a message: sender and receiver are connected and valid, and have equal room for data
  -- in a packet, and the message fits in the receiver's buffer, which is shorter than 2 ^ 31 bytes. Where
  -- the network brings the packets in turn, each any number of times after the first, and before each of
  -- them timeouts, damaged packets and datagrams of others, of which the first two are less in a row than
  -- the socket's retries, `recv` returns the
  -- message's length, leaves the socket as it was, has put the message at the buffer's start and left
  -- the rest of the buffer alone, and has sent an acknowledgement for each packet, a FIN to each
  -- foreigner, and nothing for a damaged packet.
  pub recv_delivers :
      {incoming : List Incoming} {ws : List Wait} (o : Opening q (packet s message 0) 0 incoming)
      (a : Rest ws)
      → recv q (some old) (length old) incoming ws ≡ record {
        outcome = returned (signed32 (length message));
        state = record { socket = q; buffer = message ++ drop (length message) old };
        sent = opening_sends q o ++ rest_sends a;
      }
  unfolding recv recv_buffer continue_recv
  recv_delivers {incoming} {ws} o a = ground (
    arith,
    c.connected,
    ap (continue_recv (length old) old ws) (first_loop-opens o c.valid.max_retries_min),
    ap (prepend (opening_sends q o)) (recv_first-delivers a),
    progress-all message old,
  )
