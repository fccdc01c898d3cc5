-- ===== src/Transfer/Send.antt =====
-- `RUDP_Socket_p::send` of src/rudp_lib.cpp. Counters that are only printed are left out.
pub mod Invariant
pub mod Script
pub mod Delivery
pub mod Termination
pub mod Silence
pub mod Repeated
pub mod Bounds
pub mod Volume
pub mod Session
use reliable_udp.Prelude.{
  ℕ, ◌+◌, ◌-◌, ◌/◌, ◌%◌, ◌^◌, Bool, not, ◌&&◌, Option, none, some, List, [], ◌∷◌, ltb, ◌==◌,
  if◌then◌else◌, take, drop, min, ℤ, pos, signed32,
}
use reliable_udp.Wire.Checksum.{Bytes}
use reliable_udp.Wire.Header.{seal, decode_header, flag_ack, flag_psh, flag_last, header_size}
use reliable_udp.Network.{
  Incoming, Wait, Attempt, recv_error, datagram, poll_error, timed_out, ready, send_error, accepted,
}
use reliable_udp.Run.{
  Run, Head, Round, returned, threw, undefined, stop, proceed, done, again, run_loop, not_connected,
  null_buffer, poll_failed, recv_failed, send_failed, retries_exhausted,
}
use reliable_udp.Socket.{Socket, payload_room, check_packet_source}
use reliable_udp.Validity.{Check, valid, invalid, closed, fault, check_packet_validity}

-- The arguments, and `expected_packets`.
pub record Message : Type 0 where
  pub buffer : Bytes
  pub buffer_size : ℕ
  pub expected_packets : ℕ

-- The variables of the two loops. Both are one loop here: where the inner one ends by `break`, the
-- outer one's `i` is advanced and `num_of_tries` is set to zero. `total_actual_bytes` and the other counters
-- that are only printed are left out, with the overflow that they may run into.
pub record Sending : Type 0 where
  pub socket : Socket
  pub i : ℕ
  pub num_of_tries : ℕ
  pub total_packets : ℕ
  pub total_bytes : ℕ
  pub prev_seq_num : ℕ

abbrev Call : Type 0
Call = Run Socket ℤ

-- `packet_size`
unfoldable pub chunk_size : Message → Sending → ℕ
chunk_size m st = min (m.buffer_size - st.total_bytes) (payload_room st.socket % 2 ^ 32)

-- `i == expected_packets - 1`
unfoldable pub is_last : Message → Sending → Bool
is_last m st = st.i == m.expected_packets - 1

-- The data packet of a round.
unfoldable pub data_packet : Message → Sending → Bytes
data_packet m st =
    seal
      (record {
        seq_num = st.total_packets;
        length = chunk_size m st;
        checksum = 0;
        flags = if is_last m st then flag_psh + flag_last else flag_psh;
      })
      (take (chunk_size m st) (drop st.total_bytes m.buffer))

-- The loops' tests, the building of the packet and its `sendto`.
unfoldable pub send_head : Message → Sending → Head Socket ℤ
send_head m st =
    if ltb st.i m.expected_packets
    then if ltb st.socket.protocol_mtu (header_size + chunk_size m st)
      then stop (record { outcome = undefined; state = st.socket; sent = [] })
      else if st.num_of_tries == st.socket.protocol_max_retries
      then stop (record { outcome = threw retries_exhausted; state = st.socket; sent = [] })
      else proceed (record { packet = data_packet m st; to = st.socket.destination } ∷ [])
    else stop
        (record { outcome = returned (signed32 st.total_bytes); state = st.socket; sent = [] })

-- The end of a round, on a valid acknowledgement. A repeated one moves to the next `i` alone.
unfoldable pub acknowledge : Message → Sending → ℕ → Sending
acknowledge m st ack_seq_num =
    if ack_seq_num == st.prev_seq_num && not (is_last m st)
    then record st { i = st.i + 1; num_of_tries = 0 }
    else record st {
      i = st.i + 1;
      num_of_tries = 0;
      total_packets = (st.total_packets + 1) % 2 ^ 32;
      total_bytes = (st.total_bytes + chunk_size m st) % 2 ^ 32;
      prev_seq_num = ack_seq_num;
    }

send_switch : Message → Sending → Bytes → Check → Round Sending Socket ℤ
send_switch m st packet c = elim c.verdict [
  | invalid ↦ again c.sent (record st { socket = c.socket; num_of_tries = st.num_of_tries + 1 })
  | closed ↦ done (record { outcome = returned (pos 0); state = c.socket; sent = c.sent })
  | valid ↦
      again c.sent (acknowledge m (record st { socket = c.socket }) (decode_header packet).seq_num)
  | fault ↦ done (record { outcome = undefined; state = c.socket; sent = c.sent })
]

send_response : Message → Sending → Incoming → Round Sending Socket ℤ
unfolding send_switch
send_response m st recv_error =
    done (record { outcome = threw recv_failed; state = st.socket; sent = [] })
send_response m st (datagram bytes source) =
    let (foreign, reply) = check_packet_source st.socket source in
    let packet = take st.socket.protocol_mtu bytes in
    if foreign
    then again reply st
    else send_switch m st packet (check_packet_validity st.socket packet flag_ack)

send_wait : Message → Sending → Wait → Round Sending Socket ℤ
unfolding send_response
send_wait m st poll_error =
    done (record { outcome = threw poll_failed; state = st.socket; sent = [] })
send_wait m st timed_out = again [] (record st { num_of_tries = st.num_of_tries + 1 })
send_wait m st (ready incoming) = send_response m st incoming

-- The body of the inner loop behind `sendto`.
unfoldable pub send_round : Message → Sending → Attempt → Round Sending Socket ℤ
unfolding send_wait
send_round m st send_error =
    done (record { outcome = threw send_failed; state = st.socket; sent = [] })
send_round m st (accepted wait) = send_wait m st wait

unfoldable pub send_loop : Message → Sending → List Attempt → Call
send_loop m = run_loop (send_head m) (send_round m) (λ st. st.socket)

-- What the loops start from.
unfoldable pub start_sending : Socket → Sending
start_sending s = record {
  socket = s;
  i = 0;
  num_of_tries = 0;
  total_packets = 0;
  total_bytes = 0;
  prev_seq_num = 2 ^ 32 - 1;
}

unfoldable pub message : Socket → Bytes → ℕ → Message
message s buffer buffer_size = record {
  buffer = buffer;
  buffer_size = buffer_size;
  expected_packets = (buffer_size / payload_room s + 1) % 2 ^ 32;
}

send_buffer : Socket → Option Bytes → ℕ → List Attempt → Call
unfolding send_loop start_sending message
send_buffer s none buffer_size attempts = record {
  outcome = threw null_buffer;
  state = s;
  sent = [];
}
send_buffer s (some buffer) buffer_size attempts =
    if payload_room s == 0
    then record { outcome = undefined; state = s; sent = [] }
    else send_loop (message s buffer buffer_size) (start_sending s) attempts

-- `send`; `none` is the null buffer. Division by a room of zero is undefined.
unfoldable pub send : Socket → Option Bytes → ℕ → List Attempt → Call
unfolding send_buffer
send s buffer buffer_size attempts =
    if s.is_connected
    then send_buffer s buffer buffer_size attempts
    else record { outcome = threw not_connected; state = s; sent = [] }
