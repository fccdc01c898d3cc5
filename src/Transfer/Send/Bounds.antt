-- ===== src/Transfer/Send/Bounds.antt =====
-- `send` keeps within the smaller of the two MTUs, and counts no more than it was given.
use reliable_udp.Prelude.{
  ℕ, ◌+◌, ◌≤◌, ◌≡◌, ◌≢◌, true, Option, none, some, List, arith, take, drop, refl, sym, length, min,
  ℤ, signed32, length-take,
}
use reliable_udp.Wire.Checksum.{Bytes}
use reliable_udp.Wire.Header.{decode_header, flag_ack, flag_fin}
use reliable_udp.Wire.Header.Codec.{length-seal}
use reliable_udp.Network.{
  Address, Sent, Attempt, recv_error, datagram, poll_error, timed_out, ready, send_error, accepted,
}
use reliable_udp.Run.{Outcome, Round, returned, threw, waiting, undefined}
use reliable_udp.Run.Rules.{All, Ends, HeadKeeps, RoundKeeps, run_loop_inv}
use reliable_udp.Socket.{Socket, payload_room, send_control_packet, check_packet_source}
use reliable_udp.Socket.Invariant.{IsValid, payload_room_lem}
use reliable_udp.Validity.{Check, closed, check_packet_validity}
use reliable_udp.Validity.Flags.{check_packet_validity-open, check_packet_validity-Leaves}
use reliable_udp.Validity.Control.{length-control_packet}
use reliable_udp.Transfer.Send.{
  Message, Sending, chunk_size, data_packet, send_head, send_switch, send_round, send_loop,
  start_sending, message, send_buffer, send,
}
use reliable_udp.Transfer.Send.Invariant.{
  IsMessage, IsSending, chunk_size_bounds, acknowledge-IsSending, start_sending-IsSending,
  message-IsMessage, Holds,
}

-- A datagram no longer than a limit.
abbrev pub Fits : ℕ → Sent → Type 0
Fits limit d = length d.packet ≤ limit

-- A returned count is that of some of the bytes given, as an `int`.
abbrev pub Counts : ℕ → Outcome ℤ → Socket → Type 0
Counts size (returned n) s = (t : ℕ) × (n ≡ signed32 t) × (t ≤ size)
Counts size (threw e) s = Unit
Counts size waiting s = Unit
Counts size undefined s = Unit

control-Fits :
    (s : Socket) (to : Option Address) (limit : ℕ)
    → 12 ≤ limit
    → Fits limit (send_control_packet s flag_fin 0 to)
      × Fits limit (send_control_packet s (flag_fin + flag_ack) 0 to)
unfolding send_control_packet
control-Fits s none limit h =
    let a = length-control_packet s flag_fin 0 refl in
    let b = length-control_packet s (flag_fin + flag_ack) 0 refl in omega arith
control-Fits s (some a) limit h =
    let a = length-control_packet s flag_fin 0 refl in
    let b = length-control_packet s (flag_fin + flag_ack) 0 refl in omega arith

data_packet-Fits :
    (m : Message) (room : ℕ) (st : Sending)
    → IsSending m room st
    → length (data_packet m st) ≤ room + 12
unfolding data_packet
data_packet-Fits m room st v =
    let b = chunk_size_bounds m room st v in
    let part : Bytes = take (chunk_size m st) (drop st.total_bytes m.buffer) in
    let l = length-take (chunk_size m st) (drop st.total_bytes m.buffer) in
    rw (length-seal _ part) (omega arith)

module _ (m : Message) (room : ℕ) (p : IsMessage m room) where
  abbrev FitsRound : Round Sending Socket ℤ → Type 0
  FitsRound = RoundKeeps (IsSending m room) (Counts m.buffer_size) (Fits (room + 12))

  send_head-Fits :
      (st : Sending)
      → IsSending m room st
      → HeadKeeps
          (IsSending m room)
          (Counts m.buffer_size)
          (Fits (room + 12))
          st.socket
          (send_head m st)
  unfolding send_head
  send_head-Fits st v =
      let most = v.total_bytes_max in
      let count : Counts m.buffer_size (returned (signed32 st.total_bytes)) st.socket =
        (st.total_bytes, refl, most) in
      ground (arith, data_packet-Fits m room st v, count)

  send_switch-Fits :
      (st : Sending) (packet : Bytes) (c : Check)
      → IsSending m room st
      → (c.verdict ≢ closed → c.socket ≡ st.socket)
      → All (Fits (room + 12)) c.sent
      → FitsRound (send_switch m st packet c)
  unfolding send_switch
  send_switch-Fits st packet c v same a =
      let none' : Counts m.buffer_size (returned (ℤ.pos 0)) c.socket = (0, refl, omega arith) in
      ground (
        arith,
        none',
        acknowledge-IsSending m room (record st { socket = c.socket })
            (decode_header packet).seq_num p,
      )

  send_round-Fits :
      (st : Sending) (w : Attempt) → IsSending m room st → FitsRound (send_round m st w)
  unfolding send_round check_packet_source
  send_round-Fits st send_error v = (tt, tt)
  send_round-Fits st (accepted poll_error) v = (tt, tt)
  send_round-Fits st (accepted timed_out) v = ground arith
  send_round-Fits st (accepted (ready recv_error)) v = (tt, tt)
  send_round-Fits st (accepted (ready (datagram bytes source))) v =
      let s = st.socket in
      let packet = take s.protocol_mtu bytes in
      let c = check_packet_validity s packet flag_ack in
      let left = check_packet_validity-Leaves s packet flag_ack in
      let reply = control-Fits s none (room + 12) (omega arith) in
      let fits : All (Fits (room + 12)) c.sent = ground (arith, reply.1) in
      ground (
        arith,
        (control-Fits s (some source) (room + 12) (omega arith)).0,
        send_switch-Fits st packet c v (check_packet_validity-open s packet flag_ack) fits,
      )

  send_loop-Fits :
      (st : Sending) (ws : List Attempt)
      → IsSending m room st
      → Ends (Counts m.buffer_size) (Fits (room + 12)) (send_loop m st ws)
  unfolding send_loop
  send_loop-Fits st ws v =
      run_loop_inv _ _ _ (IsSending m room) (Counts m.buffer_size) (Fits (room + 12)) send_head-Fits
        send_round-Fits ws st v

send_buffer-Fits :
    (s : Socket) (buffer : Option Bytes) (size : ℕ) (ws : List Attempt)
    → IsValid s
    → s.is_connected ≡ true
    → Holds buffer size
    → Ends (Counts size) (Fits (min s.protocol_mtu s.peers_mtu)) (send_buffer s buffer size ws)
unfolding send_buffer
send_buffer-Fits s none size ws v c h = (tt, tt)
send_buffer-Fits s (some buffer) size ws v c h =
    let p = message-IsMessage s buffer size v c h.0 h.1 in
    let positive = p.room_pos in
    let room = payload_room_lem s v c in
    let m = message s buffer size in
    rw (sym room) (
      ground (
        arith,
        send_loop-Fits m (payload_room s) p (start_sending s) ws (start_sending-IsSending m s v c),
      ))

-- `send` on a valid socket and a buffer of the given size hands no datagram to `sendto` that is longer
-- than the smaller of the socket's MTU and its peer's; and what it returns is, as an `int`, a number of
-- bytes no larger than that size.
pub send-Fits :
    (s : Socket) (buffer : Option Bytes) (size : ℕ) (ws : List Attempt)
    → IsValid s
    → Holds buffer size
    → Ends (Counts size) (Fits (min s.protocol_mtu s.peers_mtu)) (send s buffer size ws)
unfolding send
send-Fits s buffer size ws v h = ground (arith, send_buffer-Fits s buffer size ws v)
