-- ===== src/Tests/TransferTests.antt =====
-- Tests of sending and receiving.
use reliable_udp.Prelude.{ℕ, ◌≡◌, ◌≢◌, ◌+◌, [], ◌∷◌, ◌++◌, List, inr, pos, arith, refl, some, take}
use reliable_udp.Wire.Checksum.{Bytes, add_words, fold_carries, calculate_checksum}
use reliable_udp.Wire.Header.{seal, encode_header, decode_header, clear_checksum, flag_ack}
use reliable_udp.Network.{Attempt, Wait, datagram, timed_out, ready, accepted, address_eq}
use reliable_udp.Run.{threw, retries_exhausted, returned, waiting}
use reliable_udp.Run.Rules.{Ends}
use reliable_udp.Socket.{control_packet, payload_room}
use reliable_udp.Validity.{well_formed, valid}
use reliable_udp.Validity.Flags.{verdict_on, check_packet_validity-valid_iff}
use reliable_udp.Transfer.Packets.{before}
use reliable_udp.Transfer.Send.{message, data_packet, chunk_size, is_last}
use reliable_udp.Wire.Header.{flag_psh}
use reliable_udp.Validity.Control.{Carries, WellSent}
use reliable_udp.Transfer.Packets.{packet, last, payloads, payloads-message}
use reliable_udp.Transfer.Send.{send}
use reliable_udp.Transfer.Send.Termination.{most_tries, send-ends}
use reliable_udp.Run.Rules.{Ends}
use reliable_udp.Transfer.Send.Bounds.{Counts, Fits, send-Fits}
use reliable_udp.Transfer.Send.Script.{packet_at, Acks, transcript}
use reliable_udp.Transfer.Send.Delivery.{send_delivers}
use reliable_udp.Transfer.Receive.{recv}
use reliable_udp.Transfer.Receive.Termination.{recv-ends}
use reliable_udp.Transfer.Receive.Invariant.{Kept, recv-Kept}
use reliable_udp.Transfer.Send.Repeated.{cut, send-repeated}
use reliable_udp.Transfer.Packets.{IsReady}
use reliable_udp.Transfer.Send.Silence.{send-silent}
use reliable_udp.Transfer.Link.{
  Fate, packet_lost, ack_lost, through, Link, Start, answers, first_arrival, later_arrivals,
  packets_sent, acks_sent,
}
use reliable_udp.Transfer.Exchange.{exchange}
use reliable_udp.Transfer.Receive.Script.{Opening, Stream, opening_sends}
use reliable_udp.Transfer.Receive.Delivery.{Rest, rest_sends, recv_delivers}
use reliable_udp.Tests.Samples.{
  client, server, client_address, server_address, text, blank, text-IsReady, text-CanTake,
  peer_socket-IsValid,
}

abbrev ack_packet : ℕ → Bytes
ack_packet k = control_packet server flag_ack k

ack_Carries :
    Carries (take 20 (ack_packet 0)) flag_ack 0 × Carries (take 20 (ack_packet 1)) flag_ack 1
unfolding control_packet seal encode_header decode_header clear_checksum well_formed
    calculate_checksum add_words fold_carries
ack_Carries = ((refl, refl, refl), (refl, refl, refl))

-- The first acknowledgement is late.
abbrev attempts : List Attempt
attempts =
    accepted timed_out
    ∷ accepted (ready (datagram (ack_packet 0) server_address))
    ∷ accepted (ready (datagram (ack_packet 1) server_address))
    ∷ []

text_acks : Acks client (last client text) 0 0 attempts
unfolding payload_room address_eq
text_acks = Acks.lost (omega arith) (
    Acks.acked (ack_packet 0) server_address refl ack_Carries.0 (omega arith)
      (Acks.finished (ack_packet 1) server_address refl ack_Carries.1 refl))

send_delivers_example : send client (some text) 10 attempts ≡ record {
  outcome = returned (pos 10);
  state = client;
  sent = transcript client text text_acks;
}
send_delivers_example = send_delivers client text text-IsReady text_acks

abbrev silence : List Attempt
silence =
    accepted timed_out
    ∷ accepted timed_out
    ∷ accepted timed_out
    ∷ accepted timed_out
    ∷ accepted timed_out
    ∷ accepted timed_out
    ∷ []

send-ends_example : (send client (some text) 10 silence).outcome ≢ waiting
unfolding payload_room most_tries
send-ends_example = send-ends client (some text) 10 silence (omega arith)

abbrev waits : List Wait
waits =
    timed_out
    ∷ ready (datagram (packet client text 0) client_address)
    ∷ ready (datagram (packet client text 1) client_address)
    ∷ []

text_opening :
    Opening server (packet client text 0) 0 (datagram (packet client text 0) client_address ∷ [])
unfolding address_eq
text_opening = Opening.arrives client_address refl

text_rest : Rest client server text blank text-CanTake waits
unfolding payload_room address_eq
text_rest = inr (
  omega arith,
  Stream.lost (omega arith)
      (Stream.repeated client_address refl refl (Stream.final client_address refl refl)),
)

recv_delivers_example :
    recv server (some blank) 12 (datagram (packet client text 0) client_address ∷ []) waits
    ≡ record {
      outcome = returned (pos 10);
      state = record { socket = server; buffer = text ++ 0 ∷ 0 ∷ [] };
      sent =
          opening_sends server text_opening
          ++ rest_sends client server text blank text-CanTake text_rest;
    }
recv_delivers_example = recv_delivers client server text blank text-CanTake text_opening text_rest

payloads-message_example : payloads client text text-IsReady 0 (last client text + 1) ≡ text
payloads-message_example = payloads-message client text text-IsReady

recv-Kept_example :
    Ends
      (Kept 12)
      WellSent
      (recv server (some blank) 12 (datagram (packet client text 0) client_address ∷ []) waits)
recv-Kept_example =
    recv-Kept server (some blank) 12 (datagram (packet client text 0) client_address ∷ []) waits
      (peer_socket-IsValid _ _ _)

send-silent_example :
    send client (some text) 10 (accepted timed_out ∷ accepted timed_out ∷ accepted timed_out ∷ [])
    ≡ record {
      outcome = threw retries_exhausted;
      state = client;
      sent = packet_at client text 0 ∷ packet_at client text 0 ∷ packet_at client text 0 ∷ [];
    }
send-silent_example = send-silent client text text-IsReady []

-- The first packet is lost, then its acknowledgement.
abbrev fates : List Fate
fates = packet_lost ∷ ack_lost ∷ through ∷ through ∷ []

text-Start : Start client server (last client text) 0 0 fates
unfolding payload_room
text-Start =
    Start.miss (omega arith)
      (Start.unheard (omega arith) (omega arith) (Link.pass (omega arith) (Link.end refl)))

exchange_example :
    (send client (some text) 10 (answers server_address fates (acks_sent server 0 fates)) ≡ record {
      outcome = returned (pos 10);
      state = client;
      sent = packets_sent client text 0 fates;
    })
    × (recv server
          (some blank)
          12
          (first_arrival client_address fates (packets_sent client text 0 fates))
          (later_arrivals client_address fates (packets_sent client text 0 fates))
        ≡ record {
          outcome = returned (pos 10);
          state = record { socket = server; buffer = text ++ 0 ∷ 0 ∷ [] };
          sent = acks_sent server 0 fates;
        })
unfolding address_eq
exchange_example =
    exchange client server text blank client_address server_address fates text-CanTake refl refl
      text-Start

-- A message of three packets, of which the last one holds four bytes.
abbrev long_text : Bytes
long_text = text ++ text

long_text-IsReady : IsReady client long_text
long_text-IsReady = record {
  valid = peer_socket-IsValid _ _ _;
  connected = refl;
  size_fits = omega arith;
}

long_text-last : last client long_text ≡ 2
unfolding payload_room
long_text-last = refl

send-repeated_example :
    send client (some long_text) 20 (
      accepted (ready (datagram (ack_packet 0) server_address))
      ∷ accepted (ready (datagram (ack_packet 0) server_address))
      ∷ accepted (ready (datagram (ack_packet 1) server_address))
      ∷ [])
    ≡ record {
      outcome = returned (pos 16);
      state = client;
      sent =
          packet_at client long_text 0
          ∷ packet_at client long_text 1
          ∷ cut client long_text long_text-IsReady long_text-last
          ∷ [];
    }
unfolding payload_room address_eq
send-repeated_example =
    send-repeated client long_text long_text-IsReady long_text-last (ack_packet 0) (ack_packet 1)
      server_address [] refl ack_Carries.0 ack_Carries.1

-- The first of two packets comes, then a foreign one, and then nothing.
abbrev broken_off : List Wait
broken_off =
    (ready (datagram [] server_address) ∷ [])
    ++ (timed_out ∷ timed_out ∷ timed_out ∷ [])
    ++ timed_out ∷ []

first_is_valid : verdict_on server (take 20 (packet client text 0)) flag_psh ≡ valid
unfolding packet before message data_packet chunk_size is_last payload_room seal encode_header
    decode_header clear_checksum well_formed calculate_checksum add_words fold_carries
first_is_valid =
    (check_packet_validity-valid_iff server (take 20 (packet client text 0))).0.1 (refl, refl)

recv-ends_example :
    (recv server
      (some blank)
      12
      (datagram (packet client text 0) client_address ∷ [])
      broken_off).outcome
    ≢ waiting
unfolding address_eq
recv-ends_example =
    recv-ends server (some blank) 12 (datagram (packet client text 0) client_address ∷ [])
      (ready (datagram [] server_address) ∷ []) (timed_out ∷ []) (ground (arith, first_is_valid))

send-Fits_example : Ends (Counts 10) (Fits 20) (send client (some text) 10 attempts)
send-Fits_example =
    send-Fits client (some text) 10 attempts (peer_socket-IsValid _ _ _) (refl, omega arith)
