-- ===== src/Transfer/Exchange.antt =====
-- `send` and `recv` on the two ends of a link that loses and damages packets.
pub mod Sender
pub mod Receiver
use reliable_udp.Prelude.{
  ℕ, ◌+◌, ◌^◌, ◌≤◌, ◌<◌, ◌≡◌, Bool, true, false, some, List, [], ◌∷◌, ◌++◌, arith, take, take-all,
  drop, length, refl, ap, sym, ◌∙◌, signed32, inl, inr,
}
use reliable_udp.Wire.Checksum.{Bytes}
use reliable_udp.Wire.Header.{flag_ack, seal, encode_header}
use reliable_udp.Network.{Address, Sent, address_eq}
use reliable_udp.Run.{returned}
use reliable_udp.Socket.{Socket, control_packet, send_control_packet}
use reliable_udp.Validity.Control.{Carries, control_packet-Carries}
use reliable_udp.Transfer.Packets.{packet, last, room_bounds}
use reliable_udp.Transfer.Send.{send}
use reliable_udp.Transfer.Send.Script.{Acks, transcript, packet_at}
use reliable_udp.Transfer.Send.Delivery.{send_delivers}
use reliable_udp.Transfer.Receive.{recv}
use reliable_udp.Transfer.Receive.Script.{
  Opening, Stream, CanTake, ack, opening_sends, stream_sends,
}
use reliable_udp.Transfer.Receive.Delivery.{Rest, rest_sends, recv_delivers}
use reliable_udp.Transfer.Link.{
  Fate, Link, Start, answers, arrivals, first_arrival, later_arrivals, packets_sent, acks_sent,
}
use reliable_udp.Transfer.Exchange.Sender.{Start-Acks, Start-transcript}
use reliable_udp.Transfer.Exchange.Receiver.{
  Start-Opening, Start-opening_sends, Start-Rest, Start-rest_sends,
}

-- Over a link that loses and damages packets a message arrives once and whole. Sender and receiver are
-- connected and valid, and have equal room for data in a packet, and the message fits in the receiver's
-- buffer, which is shorter than 2 ^ 31 bytes; each side's answers are what the other side sends,
-- less what the link loses, and with packets of another form in place of those that it damages; and less
-- packets and acknowledgements in a row are lost or damaged than each side has tries, the acknowledgement
-- of the last packet never. Then `send` returns the message's length and `recv` too, the message is at
-- the start of the receiver's buffer, whose rest is as it was, both sockets are as they were, and the
-- sender has sent a packet for each fate, the receiver an acknowledgement for each packet that arrived
-- undamaged, and nothing for a damaged one.
pub exchange :
    (s q : Socket) (message old : Bytes) (source_s source_q : Address) (fates : List Fate)
    (c : CanTake s q message old)
    → address_eq source_s q.destination ≡ true
    → address_eq source_q s.destination ≡ true
    → Start s q (last s message) 0 0 fates
    → let packets = packets_sent s message 0 fates in
      let acks = acks_sent q 0 fates in
      (send s (some message) (length message) (answers source_q fates acks)
        ≡ record { outcome = returned (signed32 (length message)); state = s; sent = packets })
      × (recv q
            (some old)
            (length old)
            (first_arrival source_s fates packets)
            (later_arrivals source_s fates packets)
          ≡ record {
            outcome = returned (signed32 (length message));
            state = record { socket = q; buffer = message ++ drop (length message) old };
            sent = acks;
          })
exchange s q message old source_s source_q fates c from_s from_q l =
    let sends = Start-opening_sends s q message old c source_s from_s l in
    let rest = Start-rest_sends s q message old c source_s from_s l in
    let given = Start-transcript s q message old c source_q from_q l in
    (
      send_delivers s message c.sender (Start-Acks s q message old c source_q from_q l)
          ∙ ap
              (λ (out : List Sent). record {
                outcome = returned (signed32 (length message));
                state = s;
                sent = out;
              })
              given,
      recv_delivers s q message old c (Start-Opening s q message old c source_s from_s l)
            (Start-Rest s q message old c source_s from_s l)
          ∙ rw (sends, rest) refl,
    )
