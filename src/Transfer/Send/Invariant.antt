-- ===== src/Transfer/Send/Invariant.antt =====
-- `send` keeps the socket valid, sends well-formed packets alone and stays within its buffers.
use reliable_udp.Prelude.{
  ℕ, ◌+◌, ◌^◌, ◌≤◌, ◌<◌, ◌≡◌, ◌≢◌, true, Option, none, some, List, arith, take, drop, refl, length,
  length-take, length-drop, ℤ, Bool-cases, inl, inr,
}
use reliable_udp.Wire.Checksum.{Bytes}
use reliable_udp.Wire.Header.{decode_header, flag_ack}
use reliable_udp.Network.{
  Attempt, recv_error, datagram, poll_error, timed_out, ready, send_error, accepted,
}
use reliable_udp.Run.{Round}
use reliable_udp.Run.Rules.{All, Ends, HeadKeeps, RoundKeeps, run_loop_inv}
use reliable_udp.Socket.{Socket, payload_room}
use reliable_udp.Socket.Invariant.{IsValid, Safe, payload_room_lem}
use reliable_udp.Validity.{Check, closed, fault, check_packet_validity, well_formed}
use reliable_udp.Validity.Form.{seal-well_formed}
use reliable_udp.Validity.Flags.{check_packet_validity-open, check_packet_validity-fault}
use reliable_udp.Validity.Control.{
  WellSent, check_packet_source-WellSent, check_packet_validity-keeps,
}
use reliable_udp.Transfer.Send.{
  Message, Sending, chunk_size, is_last, data_packet, send_head, acknowledge, send_switch,
  send_round, send_loop, start_sending, message, send_buffer, send,
}

-- A buffer as long as its size says, and the room that the packets are cut to.
pub record IsMessage (m : Message) (room : ℕ) : Type 0 where
  pub sized : length m.buffer ≡ m.buffer_size
  pub size_fits : m.buffer_size < 2 ^ 32
  pub room_pos : 0 < room

-- The loops' invariant: a connected, valid socket with that room, and no byte too many.
pub record IsSending (m : Message) (room : ℕ) (st : Sending) : Type 0 where
  pub socket_valid : IsValid st.socket
  pub connected : st.socket.is_connected ≡ true
  pub room_kept : payload_room st.socket ≡ room
  pub total_bytes_max : st.total_bytes ≤ m.buffer_size
  pub total_packets_fits : st.total_packets < 2 ^ 32

pub chunk_size_bounds :
    (m : Message) (room : ℕ) (st : Sending)
    → IsSending m room st
    → (chunk_size m st + st.total_bytes ≤ m.buffer_size)
      × (chunk_size m st ≤ room)
      × (room + 12 ≤ st.socket.protocol_mtu)
      × (room < 2 ^ 16)
unfolding chunk_size
chunk_size_bounds m room st v =
    let r = payload_room_lem st.socket v.socket_valid v.connected in
    let fits = v.socket_valid.mtu_fits in
    let known = v.room_kept in let most = v.total_bytes_max in omega arith

data_packet-well_formed :
    (m : Message) (room : ℕ) (st : Sending)
    → IsMessage m room
    → IsSending m room st
    → well_formed (data_packet m st) ≡ true
unfolding data_packet
data_packet-well_formed m room st p v =
    let b = chunk_size_bounds m room st v in
    let few = v.total_packets_fits in
    let sized = p.sized in
    let known = length-drop st.total_bytes m.buffer in
    let kept = length-take (chunk_size m st) (drop st.total_bytes m.buffer) in
    elim (Bool-cases (is_last m st)) [
      | inl last ↦ rw last (seal-well_formed _ _ (ground arith) refl (omega arith) refl)
      | inr more ↦ rw more (seal-well_formed _ _ (ground arith) refl (omega arith) refl)
    ]

pub acknowledge-IsSending :
    (m : Message) (room : ℕ) (st : Sending) (seq : ℕ)
    → IsMessage m room
    → IsSending m room st
    → IsSending m room (acknowledge m st seq)
unfolding acknowledge
acknowledge-IsSending m room st seq p v = ground (arith, chunk_size_bounds m room st v, p.size_fits)

module _ (m : Message) (room : ℕ) (p : IsMessage m room) where
  abbrev KeepsRound : Round Sending Socket ℤ → Type 0
  KeepsRound = RoundKeeps (IsSending m room) Safe WellSent

  send_head-keeps :
      (st : Sending)
      → IsSending m room st
      → HeadKeeps (IsSending m room) Safe WellSent st.socket (send_head m st)
  unfolding send_head
  send_head-keeps st v =
      ground (arith, data_packet-well_formed m room st p v, chunk_size_bounds m room st v)

  send_switch-keeps :
      (st : Sending) (packet : Bytes) (c : Check)
      → IsSending m room st
      → IsValid c.socket
      → All WellSent c.sent
      → (c.verdict ≢ closed → c.socket ≡ st.socket)
      → (c.verdict ≡ fault → c.socket.debug_mode ≡ true)
      → KeepsRound (send_switch m st packet c)
  unfolding send_switch
  send_switch-keeps st packet c v w a same broken = ground (
    arith,
    acknowledge-IsSending m room (record st { socket = c.socket }) (decode_header packet).seq_num p,
  )

  send_round-keeps :
      (st : Sending) (w : Attempt) → IsSending m room st → KeepsRound (send_round m st w)
  unfolding send_round
  send_round-keeps st send_error v = ((v.socket_valid, inl (λ e. cc)), tt)
  send_round-keeps st (accepted poll_error) v = ((v.socket_valid, inl (λ e. cc)), tt)
  send_round-keeps st (accepted timed_out) v = ground arith
  send_round-keeps st (accepted (ready recv_error)) v = ((v.socket_valid, inl (λ e. cc)), tt)
  send_round-keeps st (accepted (ready (datagram bytes source))) v =
      let s = st.socket in
      let packet = take s.protocol_mtu bytes in
      let kept = check_packet_validity-keeps s packet flag_ack v.socket_valid in
      let on_packet =
        send_switch-keeps st packet (check_packet_validity s packet flag_ack) v kept.0 kept.1
          (check_packet_validity-open s packet flag_ack)
          (check_packet_validity-fault s packet flag_ack (omega arith) (omega arith)) in
      ground (arith, check_packet_source-WellSent s source v.socket_valid, on_packet)

  send_loop-keeps :
      (st : Sending) (ws : List Attempt)
      → IsSending m room st
      → Ends Safe WellSent (send_loop m st ws)
  unfolding send_loop
  send_loop-keeps st ws v =
      run_loop_inv _ _ _ (IsSending m room) Safe WellSent send_head-keeps send_round-keeps ws st v

pub start_sending-IsSending :
    (m : Message) (s : Socket)
    → IsValid s
    → s.is_connected ≡ true
    → IsSending m (payload_room s) (start_sending s)
unfolding start_sending
start_sending-IsSending m s v c = ground arith

pub message-IsMessage :
    (s : Socket) (buffer : Bytes) (size : ℕ)
    → IsValid s
    → s.is_connected ≡ true
    → length buffer ≡ size
    → size < 2 ^ 32
    → IsMessage (message s buffer size) (payload_room s)
unfolding message
message-IsMessage s buffer size v c sized fits =
    let r = payload_room_lem s v c in
    let least = v.peers_mtu_min c in
    let own = v.mtu_min in record { sized = sized; size_fits = fits; room_pos = omega arith }

-- The buffer holds what its size says.
abbrev pub Holds : Option Bytes → ℕ → Type 0
Holds none size = Unit {0}
Holds (some buffer) size = (length buffer ≡ size) × (size < 2 ^ 32)

send_buffer-keeps :
    (s : Socket) (buffer : Option Bytes) (size : ℕ) (ws : List Attempt)
    → IsValid s
    → s.is_connected ≡ true
    → Holds buffer size
    → Ends Safe WellSent (send_buffer s buffer size ws)
unfolding send_buffer
send_buffer-keeps s none size ws v c h = ((v, inl (λ e. cc)), tt)
send_buffer-keeps s (some buffer) size ws v c h =
    let p = message-IsMessage s buffer size v c h.0 h.1 in
    let positive = p.room_pos in
    ground (
      arith,
      send_loop-keeps (message s buffer size) (payload_room s) p (start_sending s) ws
          (start_sending-IsSending (message s buffer size) s v c),
    )

-- What `send` keeps, on a valid socket and a buffer of the given size.
pub send-keeps :
    (s : Socket) (buffer : Option Bytes) (size : ℕ) (ws : List Attempt)
    → IsValid s
    → Holds buffer size
    → Ends Safe WellSent (send s buffer size ws)
unfolding send
send-keeps s buffer size ws v h = ground (arith, send_buffer-keeps s buffer size ws v)
