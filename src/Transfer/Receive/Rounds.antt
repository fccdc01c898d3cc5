-- ===== src/Transfer/Receive/Rounds.antt =====
-- The body of the second loop of `recv` on each answer, while the packets of a message come in turn.
use reliable_udp.Prelude.{
  ℕ, ◌+◌, ◌-◌, ◌*◌, ◌≤◌, ◌<◌, ◌≡◌, true, false, some, [], ◌∷◌, arith, take, drop, refl, ap, length,
  sym, ◌∙◌, signed32, ℤ, take-all, take-length_take,
}
use reliable_udp.Wire.Checksum.{Bytes}
use reliable_udp.Wire.Header.{flag_psh}
use reliable_udp.Network.{Address, datagram, timed_out, ready, address_eq}
use reliable_udp.Run.{Round, returned, proceed, again, done}
use reliable_udp.Socket.{Socket, payload_room, check_packet_source}
use reliable_udp.Socket.Invariant.{payload_room_lem}
use reliable_udp.Validity.{valid, check_packet_validity, well_formed}
use reliable_udp.Validity.Flags.{
  check_packet_validity-valid_iff, check_packet_validity-valid, check_packet_validity-malformed,
}
use reliable_udp.Transfer.Packets.{packet, room_bounds, last, slice, length-slice, packet-Holds}
use reliable_udp.Transfer.Receive.{
  Memory, Receiving, signed_gt, copy_payload, resend, recv_head, recv_round, recv_packet, deliver,
  place, fit,
}
use reliable_udp.Transfer.Receive.Storing.{
  read_payload_lem, progress, store-progress, copy_payload-store,
}
use reliable_udp.Transfer.Receive.Script.{ack, reject, CanTake}

resend-nil : (b : Round Receiving Memory ℤ) → resend [] b ≡ b
resend-nil (done r) = refl
resend-nil (again more st) = refl

module _ (s q : Socket) (message old : Bytes) (c : CanTake s q message old) where
  abbrev pub packets : ℕ → Bytes
  packets = packet s message

  abbrev pub room : ℕ
  room = payload_room s

  -- The variables of the second loop while packet `k` is awaited, after some tries.
  abbrev pub awaiting : ℕ → ℕ → Receiving
  awaiting k t = record {
    socket = q;
    buffer = progress (k * room) message old;
    num_of_tries = t;
    total_bytes = k * room;
    prev_seq_num = k - 1;
  }

  -- A packet of the message passes the receiver's tests.
  pub room_fits : room + 12 ≤ q.protocol_mtu
  room_fits = let e = payload_room_lem q c.valid c.connected in let same = c.one_room in omega arith

  pub take-packet : (k : ℕ) → k ≤ last s message → take q.protocol_mtu (packets k) ≡ packets k
  take-packet k h =
      let size = (packet-Holds s message c.sender k h).fits in
      let l = length-slice s message c.sender k in
      let f = room_fits in take-all q.protocol_mtu (packets k) (omega arith)

  pub check-packet :
      (k : ℕ)
      → k ≤ last s message
      → check_packet_validity q (packets k) flag_psh
        ≡ record { verdict = valid; socket = q; sent = [] }
  check-packet k h =
      let p = packet-Holds s message c.sender k h in
      let flags = p.flags in
      check_packet_validity-valid q (packets k) flag_psh
        ((check_packet_validity-valid_iff q (packets k)).0.1 (p.form, ground arith))

  pub recv_head-awaiting :
      (k t : ℕ) → t < q.protocol_max_retries → recv_head (awaiting k t) ≡ proceed []
  unfolding recv_head
  recv_head-awaiting k t h = ground arith

  abbrev pub cap : ℕ
  cap = length old

  -- The `memcpy` of packet `k`.
  pub copy-packet :
      (k : ℕ)
      → k ≤ last s message
      → copy_payload q.protocol_mtu
          (packets k)
          (length (slice room message k))
          (progress (k * room) message old)
          (k * room)
        ≡ some (progress (k * room + length (slice room message k)) message old)
  copy-packet k h =
      let part = slice room message k in
      let p = packet-Holds s message c.sender k h in
      let b = room_bounds s message c.sender in
      let f = room_fits in
      let l = length-slice s message c.sender k in
      let begun : k * room ≤ length message = grind arith in
      copy_payload-store q.protocol_mtu (packets k) part (length part)
        (progress (k * room) message old) (k * room)
        (read_payload_lem q.protocol_mtu (packets k) part p.payload p.fits (omega arith))
      ∙ (store-progress (k * room) message old part (omega arith) c.enough
          (sym (take-length_take room (drop (k * room) message))))

  pub round-lost :
      (k t : ℕ) → recv_round cap (awaiting k t) timed_out ≡ again [] (awaiting k (t + 1))
  unfolding recv_round
  round-lost k t = refl

  pub round-foreign :
      (k t : ℕ) (bytes : Bytes) (source : Address)
      → address_eq source q.destination ≡ false
      → recv_round cap (awaiting k t) (ready (datagram bytes source))
        ≡ again (reject q source ∷ []) (awaiting k t)
  unfolding recv_round check_packet_source
  round-foreign k t bytes source other = rw other refl

  pub round-damaged :
      (k t : ℕ) (bytes : Bytes) (source : Address)
      → address_eq source q.destination ≡ true
      → well_formed (take q.protocol_mtu bytes) ≡ false
      → recv_round cap (awaiting k t) (ready (datagram bytes source))
        ≡ again [] (awaiting k (t + 1))
  unfolding recv_round check_packet_source
  round-damaged k t bytes source peer bad =
      rw (peer, check_packet_validity-malformed q (take q.protocol_mtu bytes) flag_psh bad) refl

  -- A packet of the message from the peer goes on to the tests on its number.
  pub round-packet :
      (j t k : ℕ) (source : Address)
      → address_eq source q.destination ≡ true
      → k ≤ last s message
      → recv_round cap (awaiting j t) (ready (datagram (packets k) source))
        ≡ recv_packet cap (awaiting j t) (packets k)
  unfolding recv_round check_packet_source
  round-packet j t k source peer h =
      rw (peer, take-packet k h, check-packet k h)
        (resend-nil (recv_packet cap (awaiting j t) (packets k)))

  pub place-packet : (k : ℕ) → k ≤ last s message → place q k ≡ k * room
  unfolding place
  place-packet k h =
      let same = c.one_room in
      let small = c.below in
      let few = c.enough in
      let begun : k * room ≤ length message = grind arith in rw same (omega arith)

  pub packet-repeated :
      (k t : ℕ)
      → 1 ≤ k
      → k ≤ last s message
      → recv_packet cap (awaiting k t) (packets (k - 1)) ≡ again (ack q (k - 1) ∷ []) (awaiting k 0)
  unfolding recv_packet
  packet-repeated k t pos h =
      let p = packet-Holds s message c.sender (k - 1) (omega arith) in rw p.seq_num (ground arith)

  -- What the end of the body computes with, for packet `k`.
  abbrev pub received : ℕ → Receiving
  received k = record {
    socket = q;
    buffer = progress (k * room + length (slice room message k)) message old;
    num_of_tries = 0;
    total_bytes = k * room + length (slice room message k);
    prev_seq_num = k;
  }

  pub fit-packet :
      (k : ℕ)
      → k ≤ last s message
      → fit cap (k * room) (length (slice room message k)) ≡ length (slice room message k)
  unfolding fit
  fit-packet k h =
      let l = length-slice s message c.sender k in
      let small = c.below in
      let enough = c.enough in let begun : k * room ≤ length message = grind arith in ground arith

  pub packet-next :
      (k t : ℕ)
      → 1 ≤ k
      → k < last s message
      → recv_packet cap (awaiting k t) (packets k) ≡ again (ack q k ∷ []) (received k)
  unfolding recv_packet deliver signed_gt
  packet-next k t pos h =
      let p = packet-Holds s message c.sender k (omega arith) in
      let flags = p.flags in
      let l = length-slice s message c.sender k in
      let small = c.below in
      let enough = c.enough in
      let begun : k * room ≤ length message = grind arith in
      rw
        (
          p.seq_num,
          p.size,
          place-packet k (omega arith),
          fit-packet k (omega arith),
          copy-packet k (omega arith),
        )
        (ground arith)

  pub packet-final :
      (k t : ℕ)
      → 1 ≤ k
      → k ≡ last s message
      → recv_packet cap (awaiting k t) (packets k)
        ≡ done (record {
          outcome = returned (signed32 (length message));
          state = record { socket = q; buffer = progress (length message) message old };
          sent = ack q k ∷ [];
        })
  unfolding recv_packet deliver
  packet-final k t pos h =
      let p = packet-Holds s message c.sender k (omega arith) in
      let flags = p.flags in
      let l = length-slice s message c.sender k in
      let small = c.below in
      let enough = c.enough in
      let b = room_bounds s message c.sender in
      let all : k * room + length (slice room message k) ≡ length message = grind arith in
      rw
        (
          p.seq_num,
          p.size,
          place-packet k (omega arith),
          fit-packet k (omega arith),
          copy-packet k (omega arith),
          all,
        )
        (ground arith)

  pub received-awaiting : (k : ℕ) → k < last s message → received k ≡ awaiting (k + 1) 0
  received-awaiting k h =
      let l = length-slice s message c.sender k in
      let full : (k + 1) * room ≤ length message = grind arith in
      let moved : k * room + length (slice room message k) ≡ (k + 1) * room = omega arith in
      ground (arith, ap (λ (n : ℕ). progress n message old) moved)
