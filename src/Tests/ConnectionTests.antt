-- ===== src/Tests/ConnectionTests.antt =====
-- Tests of connecting and disconnecting.
use reliable_udp.Prelude.{
  ◌⊎◌, ap, ◌≡◌, ◌≢◌, ◌+◌, true, false, [], ◌∷◌, List, arith, refl, none, some,
}
use reliable_udp.Wire.Checksum.{add_words, fold_carries, calculate_checksum}
use reliable_udp.Wire.Header.{
  seal, encode_header, encode_syn, decode_header, decode_syn, clear_checksum, flag_syn, flag_fin,
  flag_ack,
}
use reliable_udp.Network.{Wait, Incoming, datagram, timed_out, ready, address_eq}
use reliable_udp.Run.{bind_failed, returned, waiting}
use reliable_udp.Socket.{
  Setup, send_control_packet, payload_room, Socket, construct, control_packet, syn_settings,
}
use reliable_udp.Socket.Invariant.{construct-leaks}
use reliable_udp.Validity.{well_formed, syn_acceptable}
use reliable_udp.Connection.Silence.{connect-silent, disconnect-silent}
use reliable_udp.Connection.{forget, connect, accept, disconnect, aim}
use reliable_udp.Connection.Invariant.{Keeps, connect-Keeps, accept-Keeps, disconnect-Keeps}
use reliable_udp.Connection.Handshake.{
  accept-syn, control_packet-Announces, connected_by, accepted_by, handshake,
}
use reliable_udp.Connection.Termination.{connect-ends, accept-ends, disconnect-ends}
use reliable_udp.Tests.Samples.{
  local_host, config, setup, client, new_client, new_server, client_address, server_address,
  peer_socket-IsValid,
}

abbrev late_answer : List Wait
late_answer =
    timed_out
    ∷ timed_out
    ∷ ready (datagram (control_packet new_server (flag_syn + flag_ack) 0) server_address)
    ∷ []

connect-Keeps_example : Keeps (connect local_host new_client "127.0.0.1" 8080 late_answer)
connect-Keeps_example =
    connect-Keeps local_host new_client "127.0.0.1" 8080 late_answer (peer_socket-IsValid _ _ _)

connect-ends_example :
    (connect local_host new_client "127.0.0.1" 8080 late_answer).outcome ≢ waiting
unfolding aim address_eq
connect-ends_example = connect-ends local_host new_client "127.0.0.1" 8080 late_answer (omega arith)

abbrev syn_arrives : List Incoming
syn_arrives = datagram (control_packet new_client flag_syn 0) client_address ∷ []

accept-Keeps_example : Keeps (accept new_server syn_arrives)
accept-Keeps_example = accept-Keeps new_server syn_arrives (peer_socket-IsValid _ _ _)

accept-ends_example : (accept new_server syn_arrives).outcome ≢ waiting
unfolding control_packet syn_settings seal encode_header encode_syn decode_header clear_checksum
    well_formed calculate_checksum add_words fold_carries syn_acceptable decode_syn
accept-ends_example = accept-ends new_server syn_arrives (omega arith)

abbrev silence : List Wait
silence = timed_out ∷ timed_out ∷ timed_out ∷ []

disconnect-Keeps_example : Keeps (disconnect client silence)
disconnect-Keeps_example = disconnect-Keeps client silence (peer_socket-IsValid _ _ _)

disconnect-ends_example : (disconnect client silence).outcome ≢ waiting
disconnect-ends_example = disconnect-ends client silence (omega arith)

abbrev built : Socket
built = record new_server {
  destination = client_address;
  protocol_mtu = 1458;
  protocol_max_retries = 50;
  peers_mtu = 0;
}

-- The client's first SYN packet is lost.
abbrev aimed : Socket
aimed = aim new_client 8080 (some 0x7f00_0001)

abbrev answering : Socket
answering = accepted_by new_server 20 client_address

handshake_example :
    let syn = send_control_packet aimed flag_syn 0 none in
    let syn_ack = send_control_packet answering (flag_syn + flag_ack) 0 none in
    (connect local_host new_client "127.0.0.1" 8080
        (timed_out ∷ ready (datagram syn_ack.packet server_address) ∷ [])
      ≡ record { outcome = returned true; state = connected_by aimed 20; sent = syn ∷ syn ∷ [] })
    × (accept new_server (datagram syn.packet client_address ∷ [])
        ≡ record { outcome = returned true; state = answering; sent = syn_ack ∷ [] })
    × (payload_room (connected_by aimed 20) ≡ payload_room answering)
unfolding aim address_eq
handshake_example =
    handshake local_host new_client new_server "127.0.0.1" 8080 0x7f00_0001 1 client_address
      server_address [] [] (peer_socket-IsValid _ _ _) (peer_socket-IsValid _ _ _) refl refl refl
      refl refl refl (omega arith)

disconnect-silent_example : disconnect client silence ≡ record {
  outcome = returned true;
  state = forget client;
  sent = let fin = send_control_packet client flag_fin 0 none in fin ∷ fin ∷ fin ∷ [];
}
disconnect-silent_example = disconnect-silent client [] refl

connect_fails : (connect local_host new_client "127.0.0.1" 8080 silence).outcome ≡ returned false
connect_fails =
    ap (λ r. r.outcome)
      (connect-silent local_host new_client "127.0.0.1" 8080 0x7f00_0001 [] refl refl refl)

accept_succeeds : (accept new_server syn_arrives).outcome ≡ returned true
accept_succeeds =
    ap (λ r. r.outcome)
      (accept-syn new_server (control_packet new_client flag_syn 0) 20 client_address
        (peer_socket-IsValid _ _ _)
        (control_packet-Announces new_client (peer_socket-IsValid _ _ _)).0 [] refl refl)

disconnect_succeeds : (disconnect client silence).outcome ≡ returned true
disconnect_succeeds = ap (λ r. r.outcome) (disconnect-silent client [] refl)

-- The port is taken.
abbrev taken : Setup
taken = record setup { bind = λ port. false }

construct-leaks_example :
    ((bind_failed ≡ bind_failed)
      × (config.is_server ≡ true)
      × ((construct config taken client_address).open_handle ≡ taken.socket)
      × (taken.socket ≢ none))
    ⊎ ((bind_failed ≢ bind_failed) × ((construct config taken client_address).open_handle ≡ none))
unfolding construct
construct-leaks_example = construct-leaks config taken client_address bind_failed refl
