-- ===== src/Transfer/Receive.antt =====
-- `RUDP_Socket_p::recv` of src/rudp_lib.cpp. Counters that are only printed are left out.
pub mod Acks
pub mod Lengths
pub mod Storing
pub mod Script
pub mod Rounds
pub mod Delivery
pub mod Invariant
pub mod Opening
pub mod Single
pub mod Overrun
pub mod First
pub mod Termination
pub mod Closing
pub mod Cut
pub mod Session
use reliable_udp.Prelude.{
  ℕ, ◌+◌, ◌-◌, ◌*◌, ◌%◌, ◌^◌, Bool, Option, none, some, List, [], ◌∷◌, ◌++◌, ltb, ◌==◌, not,
  if◌then◌else◌, length, take, drop, replicate, ℤ, pos, signed32,
}
use reliable_udp.Wire.Checksum.{Bytes}
use reliable_udp.Wire.Header.{
  Header, decode_header, flag_set, flag_ack, flag_psh, flag_last, header_size,
}
use reliable_udp.Network.{Sent, Incoming, Wait, recv_error, datagram, poll_error, timed_out, ready}
use reliable_udp.Run.{
  Run, Outcome, Head, Round, returned, threw, waiting, undefined, stop, proceed, done, again,
  run_loop, prepend, not_connected, null_buffer, poll_failed, recv_failed, retries_exhausted,
}
use reliable_udp.Socket.{Socket, payload_room, send_control_packet, check_packet_source}
use reliable_udp.Validity.{Check, valid, invalid, closed, fault, check_packet_validity}
use reliable_udp.Connection.{Tries}
unfoldable pub use reliable_udp.Transfer.Copying.{
  signed_gt, read_payload, store, copy_payload, place, fit,
}

-- The socket, and the caller's buffer.
pub record Memory : Type 0 where
  pub socket : Socket
  pub buffer : Bytes

abbrev Call : Type 0
Call = Run Memory ℤ

-- The first loop, which ends with a packet, or with `none` where `recv` returns 0.
unfoldable pub first_head : Tries → Head Socket (Option Bytes)
first_head t =
    if t.num_of_tries == t.socket.protocol_max_retries
    then stop (record { outcome = threw retries_exhausted; state = t.socket; sent = [] })
    else proceed []

first_switch : ℕ → Bytes → Check → Round Tries Socket (Option Bytes)
first_switch num_of_tries packet c = elim c.verdict [
  | invalid ↦ again c.sent (record { socket = c.socket; num_of_tries = num_of_tries + 1 })
  | closed ↦ done (record { outcome = returned none; state = c.socket; sent = c.sent })
  | valid ↦ done (record { outcome = returned (some packet); state = c.socket; sent = c.sent })
  | fault ↦ done (record { outcome = undefined; state = c.socket; sent = c.sent })
]

unfoldable pub first_round : Tries → Incoming → Round Tries Socket (Option Bytes)
unfolding first_switch
first_round t recv_error =
    done (record { outcome = threw recv_failed; state = t.socket; sent = [] })
first_round t (datagram bytes source) =
    let (foreign, reply) = check_packet_source t.socket source in
    let packet = take t.socket.protocol_mtu bytes in
    if foreign
    then again reply t
    else first_switch t.num_of_tries packet (check_packet_validity t.socket packet flag_psh)

unfoldable pub first_loop : Tries → List Incoming → Run Socket (Option Bytes)
first_loop = run_loop first_head first_round (λ t. t.socket)

-- The variables of the second loop. Its inner loop over the tries is merged with it, as in `send`.
pub record Receiving : Type 0 where
  pub socket : Socket
  pub buffer : Bytes
  pub num_of_tries : ℕ
  pub total_bytes : ℕ
  pub prev_seq_num : ℕ

abbrev pub memory : Receiving → Memory
memory st = record { socket = st.socket; buffer = st.buffer }

abbrev finish : Receiving → Outcome ℤ → List Sent → Round Receiving Memory ℤ
finish st o out = done (record { outcome = o; state = memory st; sent = out })

unfoldable pub recv_head : Receiving → Head Memory ℤ
recv_head st =
    if st.num_of_tries == st.socket.protocol_max_retries
    then stop (record { outcome = threw retries_exhausted; state = memory st; sent = [] })
    else proceed []

abbrev ack : Socket → ℕ → List Sent
ack s seq_num = send_control_packet s flag_ack seq_num none ∷ []

-- The end of the body, behind the `memcpy`, on the header of the packet.
deliver : ℕ → Receiving → Header → Option Bytes → Round Receiving Memory ℤ
deliver buffer_size st header none = finish st undefined []
deliver buffer_size st header (some buffer') =
    let st' = record st {
      buffer = buffer';
      num_of_tries = 0;
      total_bytes = (st.total_bytes + header.length) % 2 ^ 32;
      prev_seq_num = header.seq_num;
    } in
    let out = ack st.socket header.seq_num in
    if flag_set header.flags flag_last
    then finish st' (returned (signed32 st'.total_bytes)) out
    else if signed_gt st'.total_bytes buffer_size
    then finish st' (returned (signed32 st'.total_bytes)) out
    else again out st'

-- The body of the second loop behind its inner loop.
pub recv_packet : ℕ → Receiving → Bytes → Round Receiving Memory ℤ
recv_packet buffer_size st packet =
    let header = decode_header packet in
    let offset = place st.socket header.seq_num in
    if header.seq_num == st.prev_seq_num
    then again (ack st.socket st.prev_seq_num) (record st { num_of_tries = 0 })
    else if not (header.seq_num == (st.prev_seq_num + 1) % 2 ^ 32)
    then again (ack st.socket st.prev_seq_num) (record st { num_of_tries = 0 })
    else deliver buffer_size st header (
        copy_payload st.socket.protocol_mtu packet (fit buffer_size offset header.length) st.buffer
          offset)

abbrev pub resend : List Sent → Round Receiving Memory ℤ → Round Receiving Memory ℤ
resend out (done r) = done (prepend out r)
resend out (again more st) = again (out ++ more) st

recv_switch : ℕ → Receiving → Bytes → Check → Round Receiving Memory ℤ
recv_switch buffer_size st packet c =
    let st' = record st { socket = c.socket } in
    elim c.verdict [
      | invalid ↦ again c.sent (record st' { num_of_tries = st.num_of_tries + 1 })
      | closed ↦ finish st' (returned (pos 0)) c.sent
      | valid ↦ resend c.sent (recv_packet buffer_size st' packet)
      | fault ↦ finish st' undefined c.sent
    ]

recv_incoming : ℕ → Receiving → Incoming → Round Receiving Memory ℤ
unfolding recv_switch
recv_incoming buffer_size st recv_error = finish st (threw recv_failed) []
recv_incoming buffer_size st (datagram bytes source) =
    let (foreign, reply) = check_packet_source st.socket source in
    let packet = take st.socket.protocol_mtu bytes in
    if foreign
    then again reply st
    else recv_switch buffer_size st packet (check_packet_validity st.socket packet flag_psh)

-- The body of the second loop.
unfoldable pub recv_round : ℕ → Receiving → Wait → Round Receiving Memory ℤ
unfolding recv_incoming
recv_round buffer_size st poll_error = finish st (threw poll_failed) []
recv_round buffer_size st timed_out = again [] (record st { num_of_tries = st.num_of_tries + 1 })
recv_round buffer_size st (ready incoming) = recv_incoming buffer_size st incoming

unfoldable pub recv_loop : ℕ → Receiving → List Wait → Call
recv_loop buffer_size = run_loop recv_head (recv_round buffer_size) memory

-- What follows the `memcpy` of the first packet.
after_first : ℕ → Socket → Bytes → Bytes → Option Bytes → List Wait → Call
unfolding recv_loop
after_first buffer_size s packet buffer none waits = record {
  outcome = undefined;
  state = record { socket = s; buffer = buffer };
  sent = [];
}
after_first buffer_size s packet buffer (some buffer') waits =
    let header = decode_header packet in
    let total_bytes = length packet - header_size in
    let st : Memory = record { socket = s; buffer = buffer' } in
    let result : Call = record {
      outcome = returned (signed32 total_bytes);
      state = st;
      sent = [];
    } in
    prepend (ack s header.seq_num) (
      if signed_gt total_bytes buffer_size
      then result
      else if flag_set header.flags flag_last
      then result
      else recv_loop buffer_size
          (record {
            socket = s;
            buffer = buffer';
            num_of_tries = 0;
            total_bytes = total_bytes;
            prev_seq_num = header.seq_num;
          })
          waits)

-- The part between the loops.
pub recv_first : ℕ → Socket → Bytes → Bytes → List Wait → Call
unfolding after_first
recv_first buffer_size s packet buffer waits =
    let total_bytes = length packet - header_size in
    let size = if signed_gt total_bytes buffer_size then buffer_size else total_bytes in
    after_first buffer_size s packet buffer (copy_payload s.protocol_mtu packet size buffer 0) waits

-- What follows the first loop, by how it ended.
continue_recv : ℕ → Bytes → List Wait → Run Socket (Option Bytes) → Call
continue_recv buffer_size buffer waits r =
    let st : Memory = record { socket = r.state; buffer = buffer } in
    elim r.outcome [
      | returned packet ↦ elim packet [
        | none ↦ record { outcome = returned (pos 0); state = st; sent = r.sent }
        | some p ↦ prepend r.sent (recv_first buffer_size r.state p buffer waits)
      ]
      | threw e ↦ record { outcome = threw e; state = st; sent = r.sent }
      | waiting ↦ record { outcome = waiting; state = st; sent = r.sent }
      | undefined ↦ record { outcome = undefined; state = st; sent = r.sent }
    ]

recv_buffer : Socket → Option Bytes → ℕ → List Incoming → List Wait → Call
unfolding continue_recv
recv_buffer s none buffer_size incoming waits = record {
  outcome = threw null_buffer;
  state = record { socket = s; buffer = [] };
  sent = [];
}
recv_buffer s (some buffer) buffer_size incoming waits =
    continue_recv buffer_size buffer waits
      (first_loop (record { socket = s; num_of_tries = 0 }) incoming)

abbrev pub or_empty : Option Bytes → Bytes
or_empty none = []
or_empty (some buffer) = buffer

-- `recv`; `none` is the null buffer. The answers to the first loop, which does not poll, come first.
unfoldable pub recv : Socket → Option Bytes → ℕ → List Incoming → List Wait → Call
unfolding recv_buffer
recv s buffer buffer_size incoming waits =
    if s.is_connected then recv_buffer s buffer buffer_size incoming waits else record {
      outcome = threw not_connected;
      state = record { socket = s; buffer = or_empty buffer };
      sent = [];
    }
