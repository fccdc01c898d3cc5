-- ===== src/Connection.antt =====
-- `connect`, `accept` and `disconnect` of src/rudp_lib.cpp.
pub mod Invariant
pub mod Termination
pub mod Handshake
pub mod Silence
pub mod Descriptor
pub mod Answers
pub mod Closing
pub mod Session
use Prim.Native.String.{String}
use reliable_udp.Prelude.{
  ℕ, ◌+◌, Bool, true, false, Option, none, some, List, [], ◌∷◌, ◌++◌, ltb, if◌then◌else◌, take,
}
use reliable_udp.Wire.Checksum.{Bytes}
use reliable_udp.Wire.Header.{decode_syn, flag_syn, flag_ack, flag_fin}
use reliable_udp.Network.{
  Address, Incoming, Wait, recv_error, datagram, poll_error, timed_out, ready, zero_address,
  af_inet,
}
use reliable_udp.Run.{
  Run, Head, Round, returned, threw, undefined, stop, proceed, done, again, run_loop,
  server_cannot_connect, client_cannot_accept, already_connected, not_connected, bad_address,
  poll_failed, recv_failed, connection_rejected,
}
use reliable_udp.Socket.{Socket, send_control_packet, check_packet_source}
use reliable_udp.Validity.{Check, valid, invalid, closed, fault, check_packet_validity}

-- The variables of the loops of `connect` and `disconnect`.
pub record Tries : Type 0 where
  pub socket : Socket
  pub num_of_tries : ℕ

-- A call that ends in a `bool`.
abbrev pub Call : Type 0
Call = Run Socket Bool

-- The socket once the peer's SYN packet is taken over.
unfoldable pub establish : Socket → Bytes → Socket
establish s packet = record s { is_connected = true; peers_mtu = (decode_syn packet).mtu }

-- `num_of_tries < m_protocolMaximumRetries`, and the SYN packet behind it.
unfoldable pub connect_head : Tries → Head Socket Bool
connect_head t =
    if ltb t.num_of_tries t.socket.protocol_max_retries
    then proceed (send_control_packet t.socket flag_syn 0 none ∷ [])
    else stop (record { outcome = returned false; state = t.socket; sent = [] })

-- The `switch` on the validity of the response.
connect_switch : ℕ → Bytes → Check → Round Tries Socket Bool
unfolding establish
connect_switch num_of_tries packet c = elim c.verdict [
  | invalid ↦ again c.sent (record { socket = c.socket; num_of_tries = num_of_tries + 1 })
  | closed ↦ done (record { outcome = threw connection_rejected; state = c.socket; sent = c.sent })
  | valid ↦
      done (record { outcome = returned true; state = establish c.socket packet; sent = c.sent })
  | fault ↦ done (record { outcome = undefined; state = c.socket; sent = c.sent })
]

connect_response : Tries → Incoming → Round Tries Socket Bool
unfolding connect_switch
connect_response t recv_error =
    done (record { outcome = threw recv_failed; state = t.socket; sent = [] })
connect_response t (datagram bytes source) =
    let (foreign, reply) = check_packet_source t.socket source in
    let packet = take t.socket.protocol_mtu bytes in
    if foreign
    then again reply t
    else connect_switch t.num_of_tries packet
        (check_packet_validity t.socket packet (flag_syn + flag_ack))

-- The body of the loop behind the SYN packet.
unfoldable pub connect_round : Tries → Wait → Round Tries Socket Bool
unfolding connect_response
connect_round t poll_error =
    done (record { outcome = threw poll_failed; state = t.socket; sent = [] })
connect_round t timed_out = again [] (record t { num_of_tries = t.num_of_tries + 1 })
connect_round t (ready incoming) = connect_response t incoming

unfoldable pub connect_loop : Tries → List Wait → Call
connect_loop = run_loop connect_head connect_round (λ t. t.socket)

-- The destination that `connect` fills in; `inet_pton` may leave its address at zero.
unfoldable pub aim : Socket → ℕ → Option ℕ → Socket
aim s dest_port none = record s {
  destination = record zero_address { sin_family = af_inet; sin_port = dest_port };
}
aim s dest_port (some ip) = record s {
  destination = record zero_address { sin_family = af_inet; sin_port = dest_port; sin_addr = ip };
}

connect_to : Socket → ℕ → Option ℕ → List Wait → Call
unfolding aim connect_loop
connect_to s dest_port none waits = record {
  outcome = threw bad_address;
  state = aim s dest_port none;
  sent = [];
}
connect_to s dest_port (some ip) waits =
    connect_loop (record { socket = aim s dest_port (some ip); num_of_tries = 0 }) waits

-- `connect`. `inet_pton` is the operating system's reading of an IPv4 address.
unfoldable pub connect : (String → Option ℕ) → Socket → String → ℕ → List Wait → Call
unfolding connect_to
connect inet_pton s dest_ip dest_port waits =
    if s.is_server
    then record { outcome = threw server_cannot_connect; state = s; sent = [] }
    else if s.is_connected
    then record { outcome = threw already_connected; state = s; sent = [] }
    else connect_to s dest_port (inet_pton dest_ip) waits

unfoldable pub accept_head : Socket → Head Socket Bool
accept_head s = proceed []

accept_switch : Bytes → Address → Check → Round Socket Socket Bool
unfolding establish
accept_switch packet source c = elim c.verdict [
  | invalid ↦ again c.sent c.socket
  | closed ↦
      again (c.sent ++ send_control_packet c.socket (flag_fin + flag_ack) 0 (some source) ∷ [])
        c.socket
  | valid ↦
      let s = record (establish c.socket packet) { destination = source } in
      done (record {
        outcome = returned true;
        state = s;
        sent = c.sent ++ send_control_packet s (flag_syn + flag_ack) 0 none ∷ [];
      })
  | fault ↦ done (record { outcome = undefined; state = c.socket; sent = c.sent })
]

-- The body of the `while (true)` loop of `accept`.
unfoldable pub accept_round : Socket → Incoming → Round Socket Socket Bool
unfolding accept_switch
accept_round s recv_error = done (record { outcome = threw recv_failed; state = s; sent = [] })
accept_round s (datagram bytes source) =
    let packet = take s.protocol_mtu bytes in
    accept_switch packet source (check_packet_validity s packet flag_syn)

unfoldable pub accept_loop : Socket → List Incoming → Call
accept_loop = run_loop accept_head accept_round (λ s. s)

unfoldable pub accept : Socket → List Incoming → Call
unfolding accept_loop
accept s incoming =
    if s.is_server
    then if s.is_connected
      then record { outcome = threw already_connected; state = s; sent = [] }
      else accept_loop s incoming
    else record { outcome = threw client_cannot_accept; state = s; sent = [] }

-- The socket that `disconnect` leaves.
unfoldable pub forget : Socket → Socket
forget s = record s { is_connected = false; destination = zero_address }

unfoldable pub disconnect_head : Tries → Head Socket Bool
unfolding forget
disconnect_head t =
    if ltb t.num_of_tries t.socket.protocol_max_retries
    then proceed (send_control_packet t.socket flag_fin 0 none ∷ [])
    else stop (record { outcome = returned true; state = forget t.socket; sent = [] })

disconnect_switch : ℕ → Check → Round Tries Socket Bool
unfolding forget
disconnect_switch num_of_tries c = elim c.verdict [
  | invalid ↦ again c.sent (record { socket = c.socket; num_of_tries = num_of_tries + 1 })
  | closed ↦ done (record { outcome = returned true; state = forget c.socket; sent = c.sent })
  | valid ↦ done (record { outcome = returned true; state = forget c.socket; sent = c.sent })
  | fault ↦ done (record { outcome = undefined; state = c.socket; sent = c.sent })
]

disconnect_response : Tries → Incoming → Round Tries Socket Bool
unfolding disconnect_switch
disconnect_response t recv_error =
    done (record { outcome = threw recv_failed; state = t.socket; sent = [] })
disconnect_response t (datagram bytes source) =
    let (foreign, reply) = check_packet_source t.socket source in
    let packet = take t.socket.protocol_mtu bytes in
    if foreign
    then again reply t
    else disconnect_switch t.num_of_tries
        (check_packet_validity t.socket packet (flag_fin + flag_ack))

unfoldable pub disconnect_round : Tries → Wait → Round Tries Socket Bool
unfolding disconnect_response
disconnect_round t poll_error =
    done (record { outcome = threw poll_failed; state = t.socket; sent = [] })
disconnect_round t timed_out = again [] (record t { num_of_tries = t.num_of_tries + 1 })
disconnect_round t (ready incoming) = disconnect_response t incoming

unfoldable pub disconnect_loop : Tries → List Wait → Call
disconnect_loop = run_loop disconnect_head disconnect_round (λ t. t.socket)

unfoldable pub disconnect : Socket → List Wait → Call
unfolding disconnect_loop
disconnect s waits =
    if s.is_connected
    then disconnect_loop (record { socket = s; num_of_tries = 0 }) waits
    else record { outcome = threw not_connected; state = s; sent = [] }
