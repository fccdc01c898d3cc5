-- ===== src/Tests/SessionTests.antt =====
-- Tests of the state machine of a connection.
use reliable_udp.Prelude.{pos, ◌≡◌, ◌++◌, arith, none, ◌+◌, some, List, [], ◌∷◌, refl, true, false}
use reliable_udp.Wire.Header.{flag_syn, flag_ack, flag_fin}
use reliable_udp.Network.{timed_out, ready, datagram, send_error}
use reliable_udp.Socket.{send_control_packet}
use reliable_udp.Session.Spec.{phase}
use reliable_udp.Session.Runs.{
  Request, connects, sends, disconnects, Trace, transcript, final, transcript-Trace,
}
use reliable_udp.Session.Guards.{Guarded, transcript-Guarded}
use reliable_udp.Wire.Checksum.{Bytes}
use reliable_udp.Validity.{well_formed}
use reliable_udp.Socket.{Socket, payload_room}
use reliable_udp.Network.{address_eq}
use reliable_udp.Run.{returned}
use reliable_udp.Connection.{aim, connect, accept, forget, disconnect}
use reliable_udp.Transfer.Packets.{last}
use reliable_udp.Transfer.Send.{send}
use reliable_udp.Transfer.Receive.{recv}
use reliable_udp.Transfer.Link.{
  Fate, Link, Start, packet_damaged, ack_damaged, through, answers, first_arrival, later_arrivals,
  packets_sent, acks_sent,
}
use reliable_udp.Session.Whole.{CanMeet, client_of, server_of, session}
use reliable_udp.Tests.Samples.{
  blank, client_address, peer_socket-IsValid, new_client, new_server, server_address, text,
  local_host,
}

-- A client finds no server, tries to send, and finds the server later.
abbrev requests : List Request
requests =
    connects "127.0.0.1" 8080 (timed_out ∷ timed_out ∷ timed_out ∷ [])
    ∷ sends (some text) 10 (send_error ∷ [])
    ∷ connects "127.0.0.1" 8080 (
        ready (
          datagram (send_control_packet new_server (flag_syn + flag_ack) 0 none).packet
            server_address)
        ∷ [])
    ∷ sends (some text) 10 (send_error ∷ [])
    ∷ disconnects (timed_out ∷ timed_out ∷ timed_out ∷ [])
    ∷ []

transcript-Trace_example :
    Trace false
      (phase new_client)
      (transcript local_host new_client requests)
      (phase (final local_host new_client requests))
transcript-Trace_example = transcript-Trace local_host new_client requests

transcript-Guarded_example : Guarded false (transcript local_host new_client requests)
transcript-Guarded_example = transcript-Guarded local_host new_client requests refl

-- The sockets of a session between them, and what becomes of its packets.
abbrev met_client : Socket
met_client = client_of new_client new_server 8080 0x7f00_0001

abbrev met_server : Socket
met_server = server_of new_client new_server client_address

abbrev fates : List Fate
fates = packet_damaged [] ∷ ack_damaged (7 ∷ []) ∷ through ∷ through ∷ []

meeting : CanMeet local_host new_client new_server "127.0.0.1" 0x7f00_0001 text blank
meeting = record {
  client_valid = peer_socket-IsValid _ _ _;
  server_valid = peer_socket-IsValid _ _ _;
  client_role = refl;
  client_idle = refl;
  server_role = refl;
  server_idle = refl;
  known = refl;
  enough = omega arith;
  below = omega arith;
}

met_Start : Start met_client met_server (last met_client text) 0 0 fates
unfolding payload_room aim well_formed
met_Start = Start.spoiled [] refl (omega arith) (omega arith) (
    Start.misheard (7 ∷ []) refl (omega arith) (omega arith)
      (Link.pass (omega arith) (Link.end refl)))

session_example :
    let syn = send_control_packet (aim new_client 8080 (some 0x7f00_0001)) flag_syn 0 none in
    let syn_ack = send_control_packet met_server (flag_syn + flag_ack) 0 none in
    let packets = packets_sent met_client text 0 fates in
    let acks = acks_sent met_server 0 fates in
    let fin = send_control_packet met_client flag_fin 0 none in
    let fin_ack = send_control_packet met_server (flag_fin + flag_ack) 0 none in
    let received : Bytes = text ++ 0 ∷ 0 ∷ [] in
    (connect local_host new_client "127.0.0.1" 8080
        (timed_out ∷ ready (datagram syn_ack.packet server_address) ∷ [])
      ≡ record { outcome = returned true; state = met_client; sent = syn ∷ syn ∷ [] })
    × (accept new_server (datagram syn.packet client_address ∷ [])
        ≡ record { outcome = returned true; state = met_server; sent = syn_ack ∷ [] })
    × (send met_client (some text) 10 (answers server_address fates acks)
        ≡ record { outcome = returned (pos 10); state = met_client; sent = packets })
    × (recv met_server
          (some blank)
          12
          (first_arrival client_address fates packets)
          (later_arrivals client_address fates packets)
        ≡ record {
          outcome = returned (pos 10);
          state = record { socket = met_server; buffer = received };
          sent = acks;
        })
    × (disconnect met_client (ready (datagram fin_ack.packet server_address) ∷ [])
        ≡ record { outcome = returned true; state = forget met_client; sent = fin ∷ [] })
    × (recv met_server (some received) 12 (datagram fin.packet client_address ∷ []) [] ≡ record {
      outcome = returned (pos 0);
      state = record { socket = record met_server { is_connected = false }; buffer = received };
      sent = fin_ack ∷ [];
    })
unfolding aim address_eq
session_example =
    session local_host new_client new_server "127.0.0.1" 8080 0x7f00_0001 text blank client_address
      server_address 1 0 fates [] [] [] [] [] meeting refl (omega arith) (omega arith) met_Start
