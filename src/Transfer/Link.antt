-- ===== src/Transfer/Link.antt =====
-- A link between a socket that sends a message and one that receives it: the network loses or damages
-- some of the transmissions, in either direction, and each side gets what the other one sends.
use reliable_udp.Prelude.{ℕ, ◌+◌, ◌<◌, ◌≡◌, Bool, true, false, take, List, [], ◌∷◌}
use reliable_udp.Wire.Checksum.{Bytes}
use reliable_udp.Network.{
  Address, Sent, Incoming, Wait, Attempt, datagram, timed_out, ready, accepted,
}
use reliable_udp.Socket.{Socket}
use reliable_udp.Validity.{well_formed}
use reliable_udp.Transfer.Send.Script.{packet_at}
use reliable_udp.Transfer.Receive.Script.{ack}

-- What becomes of a transmission: the packet is lost, or other bytes arrive in its place; it arrives, and
-- its acknowledgement is lost, or other bytes arrive in its place; or both arrive.
pub data Fate : Type 0 where
  packet_lost ack_lost through : Fate
  packet_damaged ack_damaged : Bytes → Fate

-- The answers to the sender, from what the receiver sends.
unfoldable pub answers : Address → List Fate → List Sent → List Attempt
answers source [] acks = []
answers source (packet_lost ∷ fates) acks = accepted timed_out ∷ answers source fates acks
answers source (packet_damaged bytes ∷ fates) acks = accepted timed_out ∷ answers source fates acks
answers source (ack_damaged bytes ∷ fates) [] = []
answers source (ack_damaged bytes ∷ fates) (a ∷ acks) =
    accepted (ready (datagram bytes source)) ∷ answers source fates acks
answers source (ack_lost ∷ fates) [] = []
answers source (ack_lost ∷ fates) (a ∷ acks) = accepted timed_out ∷ answers source fates acks
answers source (through ∷ fates) [] = []
answers source (through ∷ fates) (a ∷ acks) =
    accepted (ready (datagram a.packet source)) ∷ answers source fates acks

-- The answers to the receiver's second loop, from what the sender sends.
unfoldable pub arrivals : Address → List Fate → List Sent → List Wait
arrivals source [] packets = []
arrivals source (fate ∷ fates) [] = []
arrivals source (packet_lost ∷ fates) (p ∷ packets) = timed_out ∷ arrivals source fates packets
arrivals source (packet_damaged bytes ∷ fates) (p ∷ packets) =
    ready (datagram bytes source) ∷ arrivals source fates packets
arrivals source (ack_damaged bytes ∷ fates) (p ∷ packets) =
    ready (datagram p.packet source) ∷ arrivals source fates packets
arrivals source (ack_lost ∷ fates) (p ∷ packets) =
    ready (datagram p.packet source) ∷ arrivals source fates packets
arrivals source (through ∷ fates) (p ∷ packets) =
    ready (datagram p.packet source) ∷ arrivals source fates packets

-- The answer to the receiver's first loop, which waits without a timeout.
unfoldable pub first_arrival : Address → List Fate → List Sent → List Incoming
first_arrival source [] packets = []
first_arrival source (fate ∷ fates) [] = []
first_arrival source (packet_lost ∷ fates) (p ∷ packets) = first_arrival source fates packets
first_arrival source (packet_damaged bytes ∷ fates) (p ∷ packets) =
    datagram bytes source ∷ first_arrival source fates packets
first_arrival source (ack_damaged bytes ∷ fates) (p ∷ packets) = datagram p.packet source ∷ []
first_arrival source (ack_lost ∷ fates) (p ∷ packets) = datagram p.packet source ∷ []
first_arrival source (through ∷ fates) (p ∷ packets) = datagram p.packet source ∷ []

-- The answers behind it.
unfoldable pub later_arrivals : Address → List Fate → List Sent → List Wait
later_arrivals source [] packets = []
later_arrivals source (fate ∷ fates) [] = []
later_arrivals source (packet_lost ∷ fates) (p ∷ packets) = later_arrivals source fates packets
later_arrivals source (packet_damaged bytes ∷ fates) (p ∷ packets) =
    later_arrivals source fates packets
later_arrivals source (ack_damaged bytes ∷ fates) (p ∷ packets) = arrivals source fates packets
later_arrivals source (ack_lost ∷ fates) (p ∷ packets) = arrivals source fates packets
later_arrivals source (through ∷ fates) (p ∷ packets) = arrivals source fates packets

-- What the sender sends from packet `k` on: a packet for each fate, the next one after `through`.
unfoldable pub packets_sent : Socket → Bytes → ℕ → List Fate → List Sent
packets_sent s message k [] = []
packets_sent s message k (packet_lost ∷ fates) =
    packet_at s message k ∷ packets_sent s message k fates
packets_sent s message k (packet_damaged bytes ∷ fates) =
    packet_at s message k ∷ packets_sent s message k fates
packets_sent s message k (ack_damaged bytes ∷ fates) =
    packet_at s message k ∷ packets_sent s message k fates
packets_sent s message k (ack_lost ∷ fates) = packet_at s message k ∷ packets_sent s message k fates
packets_sent s message k (through ∷ fates) =
    packet_at s message k ∷ packets_sent s message (k + 1) fates

-- What the receiver sends: an acknowledgement for each packet that arrives.
unfoldable pub acks_sent : Socket → ℕ → List Fate → List Sent
acks_sent q k [] = []
acks_sent q k (packet_lost ∷ fates) = acks_sent q k fates
acks_sent q k (packet_damaged bytes ∷ fates) = acks_sent q k fates
acks_sent q k (ack_damaged bytes ∷ fates) = ack q k ∷ acks_sent q k fates
acks_sent q k (ack_lost ∷ fates) = ack q k ∷ acks_sent q k fates
acks_sent q k (through ∷ fates) = ack q k ∷ acks_sent q (k + 1) fates

-- The fates from packet `k` on, of the packets up to `n`, once the receiver has its first packet: less
-- of them in a row are losses, or packets that do not have the right form, than each side has tries left. `taken` says that the receiver has packet
-- `k` already. The acknowledgement of the last packet arrives, as nobody would repeat it.
pub data Link (s q : Socket) (n : ℕ) : ℕ → ℕ → ℕ → Bool → List Fate → Type 0 where
  miss :
      {k t u : ℕ} {taken : Bool} {fates : List Fate}
      → t + 1 < s.protocol_max_retries
      → u + 1 < q.protocol_max_retries
      → Link s q n k (t + 1) (u + 1) taken fates
      → Link s q n k t u taken (packet_lost ∷ fates)
  unheard :
      {k t u : ℕ} {taken : Bool} {fates : List Fate}
      → t + 1 < s.protocol_max_retries
      → k < n
      → Link s q n k (t + 1) 0 true fates
      → Link s q n k t u taken (ack_lost ∷ fates)
  spoiled :
      {k t u : ℕ} {taken : Bool} {fates : List Fate} (bytes : Bytes)
      → well_formed (take q.protocol_mtu bytes) ≡ false
      → t + 1 < s.protocol_max_retries
      → u + 1 < q.protocol_max_retries
      → Link s q n k (t + 1) (u + 1) taken fates
      → Link s q n k t u taken (packet_damaged bytes ∷ fates)
  misheard :
      {k t u : ℕ} {taken : Bool} {fates : List Fate} (bytes : Bytes)
      → well_formed (take s.protocol_mtu bytes) ≡ false
      → t + 1 < s.protocol_max_retries
      → k < n
      → Link s q n k (t + 1) 0 true fates
      → Link s q n k t u taken (ack_damaged bytes ∷ fates)
  pass :
      {k t u : ℕ} {taken : Bool} {fates : List Fate}
      → k < n
      → Link s q n (k + 1) 0 0 false fates
      → Link s q n k t u taken (through ∷ fates)
  end : {k t u : ℕ} → k ≡ n → Link s q n k t u false (through ∷ [])

-- The fates from the start on, after some tries of the sender and of the receiver, whose first loop waits
-- without a timeout.
pub data Start (s q : Socket) (n : ℕ) : ℕ → ℕ → List Fate → Type 0 where
  miss :
      {t u : ℕ} {fates : List Fate}
      → t + 1 < s.protocol_max_retries
      → Start s q n (t + 1) u fates
      → Start s q n t u (packet_lost ∷ fates)
  spoiled :
      {t u : ℕ} {fates : List Fate} (bytes : Bytes)
      → well_formed (take q.protocol_mtu bytes) ≡ false
      → t + 1 < s.protocol_max_retries
      → u + 1 < q.protocol_max_retries
      → Start s q n (t + 1) (u + 1) fates
      → Start s q n t u (packet_damaged bytes ∷ fates)
  unheard :
      {t u : ℕ} {fates : List Fate}
      → t + 1 < s.protocol_max_retries
      → 0 < n
      → Link s q n 0 (t + 1) 0 true fates
      → Start s q n t u (ack_lost ∷ fates)
  misheard :
      {t u : ℕ} {fates : List Fate} (bytes : Bytes)
      → well_formed (take s.protocol_mtu bytes) ≡ false
      → t + 1 < s.protocol_max_retries
      → 0 < n
      → Link s q n 0 (t + 1) 0 true fates
      → Start s q n t u (ack_damaged bytes ∷ fates)
  pass :
      {t u : ℕ} {fates : List Fate}
      → 0 < n
      → Link s q n 1 0 0 false fates
      → Start s q n t u (through ∷ fates)
  only : {t u : ℕ} → n ≡ 0 → Start s q n t u (through ∷ [])
