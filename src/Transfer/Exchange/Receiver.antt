-- ===== src/Transfer/Exchange/Receiver.antt =====
-- What a link lets `recv` see.
use reliable_udp.Prelude.{ℕ, ◌+◌, ◌≡◌, Bool, true, false, List, [], ◌∷◌, refl, ap, inl, inr}
use reliable_udp.Wire.Checksum.{Bytes}
use reliable_udp.Network.{Address, address_eq}
use reliable_udp.Socket.{Socket}
use reliable_udp.Transfer.Packets.{packet, last}
use reliable_udp.Transfer.Receive.Script.{
  Opening, Stream, CanTake, ack, opening_sends, stream_sends,
}
use reliable_udp.Transfer.Receive.Delivery.{Rest, rest_sends}
use reliable_udp.Transfer.Link.{
  Fate, Link, Start, arrivals, first_arrival, later_arrivals, packets_sent, acks_sent,
}

module _ (s q : Socket) (message old : Bytes) (c : CanTake s q message old) (source_s : Address)
    (peer : address_eq source_s q.destination ≡ true) where
  abbrev pub n' : ℕ
  n' = last s message

  -- The packet that the receiver waits for.
  abbrev pub awaited : ℕ → Bool → ℕ
  awaited k false = k
  awaited k true = k + 1

  Link-Stream :
      {k t u : ℕ} {taken : Bool} {fates : List Fate}
      → Link s q n' k t u taken fates
      → Stream q
          (packet s message)
          n'
          (awaited k taken)
          u
          (arrivals source_s fates (packets_sent s message k fates))
  unfolding arrivals packets_sent
  Link-Stream (Link.miss left more l) = Stream.lost more (Link-Stream l)
  Link-Stream (Link.spoiled bytes bad left more l) =
      Stream.damaged bytes source_s peer bad more (Link-Stream l)
  Link-Stream {taken = true} (Link.misheard bytes bad left more l) =
      Stream.repeated source_s peer refl (Link-Stream l)
  Link-Stream {taken = false} (Link.misheard bytes bad left more l) =
      Stream.next source_s peer more (Link-Stream l)
  Link-Stream {taken = true} (Link.unheard left more l) =
      Stream.repeated source_s peer refl (Link-Stream l)
  Link-Stream {taken = false} (Link.unheard left more l) =
      Stream.next source_s peer more (Link-Stream l)
  Link-Stream {taken = true} (Link.pass more l) = Stream.repeated source_s peer refl (Link-Stream l)
  Link-Stream {taken = false} (Link.pass more l) = Stream.next source_s peer more (Link-Stream l)
  Link-Stream (Link.end e) = Stream.final source_s peer e

  Link-stream_sends :
      {k t u : ℕ} {taken : Bool} {fates : List Fate} (l : Link s q n' k t u taken fates)
      → stream_sends q (Link-Stream l) ≡ acks_sent q k fates
  unfolding Link-Stream stream_sends acks_sent
  Link-stream_sends (Link.miss left more l) = Link-stream_sends l
  Link-stream_sends (Link.spoiled bytes bad left more l) = Link-stream_sends l
  Link-stream_sends {k} {taken = true} (Link.misheard bytes bad left more l) =
      ap (◌∷◌ (ack q k)) (Link-stream_sends l)
  Link-stream_sends {k} {taken = false} (Link.misheard bytes bad left more l) =
      ap (◌∷◌ (ack q k)) (Link-stream_sends l)
  Link-stream_sends {k} {taken = true} (Link.unheard left more l) =
      ap (◌∷◌ (ack q k)) (Link-stream_sends l)
  Link-stream_sends {k} {taken = false} (Link.unheard left more l) =
      ap (◌∷◌ (ack q k)) (Link-stream_sends l)
  Link-stream_sends {k} {taken = true} (Link.pass more l) = ap (◌∷◌ (ack q k)) (Link-stream_sends l)
  Link-stream_sends {k} {taken = false} (Link.pass more l) =
      ap (◌∷◌ (ack q k)) (Link-stream_sends l)
  Link-stream_sends (Link.end e) = refl

  pub Start-Opening :
      {t u : ℕ} {fates : List Fate}
      → Start s q n' t u fates
      → Opening q
          (packet s message 0)
          u
          (first_arrival source_s fates (packets_sent s message 0 fates))
  unfolding first_arrival packets_sent
  Start-Opening (Start.miss left l) = Start-Opening l
  Start-Opening (Start.spoiled bytes bad left more l) =
      Opening.damaged bytes source_s peer bad more (Start-Opening l)
  Start-Opening (Start.misheard bytes bad left more l) = Opening.arrives source_s peer
  Start-Opening (Start.unheard left more l) = Opening.arrives source_s peer
  Start-Opening (Start.pass more l) = Opening.arrives source_s peer
  Start-Opening (Start.only e) = Opening.arrives source_s peer

  pub Start-opening_sends :
      {t u : ℕ} {fates : List Fate} (l : Start s q n' t u fates)
      → opening_sends q (Start-Opening l) ≡ []
  unfolding Start-Opening opening_sends
  Start-opening_sends (Start.miss left l) = Start-opening_sends l
  Start-opening_sends (Start.spoiled bytes bad left more l) = Start-opening_sends l
  Start-opening_sends (Start.misheard bytes bad left more l) = refl
  Start-opening_sends (Start.unheard left more l) = refl
  Start-opening_sends (Start.pass more l) = refl
  Start-opening_sends (Start.only e) = refl

  pub Start-Rest :
      {t u : ℕ} {fates : List Fate}
      → Start s q n' t u fates
      → Rest s q message old c (later_arrivals source_s fates (packets_sent s message 0 fates))
  unfolding later_arrivals packets_sent
  Start-Rest (Start.miss left l) = Start-Rest l
  Start-Rest (Start.spoiled bytes bad left more l) = Start-Rest l
  Start-Rest (Start.misheard bytes bad left more l) = inr (more, Link-Stream l)
  Start-Rest (Start.unheard left more l) = inr (more, Link-Stream l)
  Start-Rest (Start.pass more l) = inr (more, Link-Stream l)
  Start-Rest (Start.only e) = inl e

  pub Start-rest_sends :
      {t u : ℕ} {fates : List Fate} (l : Start s q n' t u fates)
      → rest_sends s q message old c (Start-Rest l) ≡ acks_sent q 0 fates
  unfolding Start-Rest rest_sends acks_sent
  Start-rest_sends (Start.miss left l) = Start-rest_sends l
  Start-rest_sends (Start.spoiled bytes bad left more l) = Start-rest_sends l
  Start-rest_sends (Start.misheard bytes bad left more l) = ap (◌∷◌ (ack q 0)) (Link-stream_sends l)
  Start-rest_sends (Start.unheard left more l) = ap (◌∷◌ (ack q 0)) (Link-stream_sends l)
  Start-rest_sends (Start.pass more l) = ap (◌∷◌ (ack q 0)) (Link-stream_sends l)
  Start-rest_sends (Start.only e) = refl
