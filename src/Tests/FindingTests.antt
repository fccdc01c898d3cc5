-- ===== src/Tests/FindingTests.antt =====
-- Tests of what `recv` makes of packets that come out of place.
use reliable_udp.Prelude.{◌≡◌, [], ◌∷◌, arith, refl, some, pos}
use reliable_udp.Wire.Checksum.{Bytes}
use reliable_udp.Wire.Header.{flag_psh}
use reliable_udp.Network.{datagram, address_eq}
use reliable_udp.Run.{returned}
use reliable_udp.Transfer.Receive.{Receiving, recv}
use reliable_udp.Transfer.Receive.Script.{ack}
use reliable_udp.Transfer.Receive.Single.{single, recv-single}
use reliable_udp.Transfer.Receive.Opening.{packet_of}
use reliable_udp.Transfer.Receive.Cut.{recv-cut}
use reliable_udp.Tests.Samples.{server, client_address, blank, peer_socket-IsValid}

-- The last packet of an earlier message, sent again.
recv-single_example :
    recv server (some blank) 12 (datagram (single 41 (1 ∷ 2 ∷ 3 ∷ [])) client_address ∷ []) []
    ≡ record {
      outcome = returned (pos 3);
      state = record {
        socket = server;
        buffer = 1 ∷ 2 ∷ 3 ∷ 0 ∷ 0 ∷ 0 ∷ 0 ∷ 0 ∷ 0 ∷ 0 ∷ 0 ∷ 0 ∷ [];
      };
      sent = ack server 41 ∷ [];
    }
unfolding address_eq
recv-single_example =
    recv-single server 41 (1 ∷ 2 ∷ 3 ∷ []) blank client_address [] [] (peer_socket-IsValid _ _ _)
      refl (omega arith) (omega arith) (omega arith) (omega arith) refl

-- A buffer of three bytes for a packet of five, after which others would come.
recv-cut_example :
    recv server
      (some (0 ∷ 0 ∷ 0 ∷ []))
      3
      (datagram (packet_of flag_psh 0 (1 ∷ 2 ∷ 3 ∷ 4 ∷ 5 ∷ [])) client_address ∷ [])
      []
    ≡ record {
      outcome = returned (pos 5);
      state = record { socket = server; buffer = 1 ∷ 2 ∷ 3 ∷ [] };
      sent = ack server 0 ∷ [];
    }
unfolding address_eq
recv-cut_example =
    recv-cut server flag_psh 0 (1 ∷ 2 ∷ 3 ∷ 4 ∷ 5 ∷ []) (0 ∷ 0 ∷ 0 ∷ []) client_address [] []
      (peer_socket-IsValid _ _ _) refl (omega arith) refl refl (omega arith) (omega arith)
      (omega arith) refl

abbrev stray : Bytes
stray = single 7 (1 ∷ [])

-- Behind a first packet with the number 6.
abbrev behind_six : Receiving
behind_six = record {
  socket = server;
  buffer = blank;
  num_of_tries = 0;
  total_bytes = 8;
  prev_seq_num = 6;
}
