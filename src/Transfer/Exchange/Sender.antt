-- ===== src/Transfer/Exchange/Sender.antt =====
-- What a link lets `send` see.
use reliable_udp.Prelude.{
  ℕ, ◌^◌, ◌≤◌, ◌<◌, ◌≡◌, Bool, true, List, ◌∷◌, arith, take, take-all, length, refl, ap, sym,
}
use reliable_udp.Wire.Checksum.{Bytes}
use reliable_udp.Wire.Header.{flag_ack, seal, encode_header}
use reliable_udp.Network.{Address, address_eq}
use reliable_udp.Socket.{Socket, control_packet, send_control_packet}
use reliable_udp.Validity.Control.{Carries, control_packet-Carries}
use reliable_udp.Transfer.Packets.{last, room_bounds}
use reliable_udp.Transfer.Send.Script.{Acks, transcript, packet_at}
use reliable_udp.Transfer.Receive.Script.{CanTake}
use reliable_udp.Transfer.Link.{Fate, Link, Start, answers, packets_sent, acks_sent}

module _ (s q : Socket) (message old : Bytes) (c : CanTake s q message old) (source_q : Address)
    (peer : address_eq source_q s.destination ≡ true) where
  abbrev pub n : ℕ
  n = last s message

  ack_length : (k : ℕ) → length (control_packet q flag_ack k) ≡ 12
  unfolding control_packet seal encode_header
  ack_length k = refl

  ack_arrives :
      (k : ℕ) → k ≤ n → Carries (take s.protocol_mtu (control_packet q flag_ack k)) flag_ack k
  ack_arrives k h =
      let size = ack_length k in
      let b = room_bounds s message c.sender in
      let fits = c.sender.size_fits in
      let low : k < 2 ^ 32 = grind arith in
      rw (take-all s.protocol_mtu (control_packet q flag_ack k) (omega arith))
        (control_packet-Carries q flag_ack k c.valid (omega arith) low)

  -- The link lets the sender see an acknowledgement of each packet.
  Link-Acks :
      {k t u : ℕ} {taken : Bool} {fates : List Fate}
      → Link s q n k t u taken fates
      → Acks s n k t (answers source_q fates (acks_sent q k fates))
  unfolding answers acks_sent send_control_packet
  Link-Acks (Link.miss left more l) = Acks.lost left (Link-Acks l)
  Link-Acks (Link.spoiled bytes bad left more l) = Acks.lost left (Link-Acks l)
  Link-Acks (Link.misheard bytes bad left more l) =
      Acks.damaged bytes source_q peer bad left (Link-Acks l)
  Link-Acks (Link.unheard left more l) = Acks.lost left (Link-Acks l)
  Link-Acks {k} (Link.pass more l) =
      Acks.acked (control_packet q flag_ack k) source_q peer (ack_arrives k (omega arith)) more
        (Link-Acks l)
  Link-Acks {k} (Link.end e) =
      Acks.finished (control_packet q flag_ack k) source_q peer (ack_arrives k (omega arith)) e

  Link-transcript :
      {k t u : ℕ} {taken : Bool} {fates : List Fate} (l : Link s q n k t u taken fates)
      → transcript s message (Link-Acks l) ≡ packets_sent s message k fates
  unfolding Link-Acks transcript packets_sent
  Link-transcript {k} (Link.miss left more l) = ap (◌∷◌ (packet_at s message k)) (Link-transcript l)
  Link-transcript {k} (Link.spoiled bytes bad left more l) =
      ap (◌∷◌ (packet_at s message k)) (Link-transcript l)
  Link-transcript {k} (Link.misheard bytes bad left more l) =
      ap (◌∷◌ (packet_at s message k)) (Link-transcript l)
  Link-transcript {k} (Link.unheard left more l) =
      ap (◌∷◌ (packet_at s message k)) (Link-transcript l)
  Link-transcript {k} (Link.pass more l) = ap (◌∷◌ (packet_at s message k)) (Link-transcript l)
  Link-transcript {k} (Link.end e) = refl

  pub Start-Acks :
      {t u : ℕ} {fates : List Fate}
      → Start s q n t u fates
      → Acks s n 0 t (answers source_q fates (acks_sent q 0 fates))
  unfolding answers acks_sent send_control_packet
  Start-Acks (Start.miss left l) = Acks.lost left (Start-Acks l)
  Start-Acks (Start.spoiled bytes bad left more l) = Acks.lost left (Start-Acks l)
  Start-Acks (Start.misheard bytes bad left more l) =
      Acks.damaged bytes source_q peer bad left (Link-Acks l)
  Start-Acks (Start.unheard left more l) = Acks.lost left (Link-Acks l)
  Start-Acks (Start.pass more l) =
      Acks.acked (control_packet q flag_ack 0) source_q peer (ack_arrives 0 (omega arith)) more
        (Link-Acks l)
  Start-Acks (Start.only e) =
      Acks.finished (control_packet q flag_ack 0) source_q peer (ack_arrives 0 (omega arith))
        (sym e)

  pub Start-transcript :
      {t u : ℕ} {fates : List Fate} (l : Start s q n t u fates)
      → transcript s message (Start-Acks l) ≡ packets_sent s message 0 fates
  unfolding Start-Acks transcript packets_sent
  Start-transcript (Start.miss left l) = ap (◌∷◌ (packet_at s message 0)) (Start-transcript l)
  Start-transcript (Start.spoiled bytes bad left more l) =
      ap (◌∷◌ (packet_at s message 0)) (Start-transcript l)
  Start-transcript (Start.misheard bytes bad left more l) =
      ap (◌∷◌ (packet_at s message 0)) (Link-transcript l)
  Start-transcript (Start.unheard left more l) =
      ap (◌∷◌ (packet_at s message 0)) (Link-transcript l)
  Start-transcript (Start.pass more l) = ap (◌∷◌ (packet_at s message 0)) (Link-transcript l)
  Start-transcript (Start.only e) = refl
