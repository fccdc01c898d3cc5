-- ===== src/Transfer/Receive/Script.antt =====
-- What a network that loses, damages and repeats packets, and carries foreign ones, lets `recv` see of
-- a message, and what `recv` answers.
use reliable_udp.Prelude.{
  ℕ, ◌+◌, ◌^◌, ◌≤◌, ◌<◌, ◌≡◌, true, false, some, none, List, [], ◌∷◌, take, length,
}
use reliable_udp.Wire.Checksum.{Bytes}
use reliable_udp.Wire.Header.{flag_ack, flag_fin}
use reliable_udp.Network.{Address, Sent, Incoming, Wait, datagram, timed_out, ready, address_eq}
use reliable_udp.Socket.{Socket, payload_room, send_control_packet}
use reliable_udp.Socket.Invariant.{IsValid}
use reliable_udp.Validity.{well_formed}
use reliable_udp.Transfer.Packets.{IsReady}

-- The answers to the first loop of `recv`: datagrams from other addresses and damaged packets, and then
-- the first packet.
pub data Opening (q : Socket) (first : Bytes) : ℕ → List Incoming → Type 0 where
  foreign :
      {t : ℕ} {ws : List Incoming} (bytes : Bytes) (source : Address)
      → address_eq source q.destination ≡ false
      → Opening q first t ws
      → Opening q first t (datagram bytes source ∷ ws)
  damaged :
      {t : ℕ} {ws : List Incoming} (bytes : Bytes) (source : Address)
      → address_eq source q.destination ≡ true
      → well_formed (take q.protocol_mtu bytes) ≡ false
      → t + 1 < q.protocol_max_retries
      → Opening q first (t + 1) ws
      → Opening q first t (datagram bytes source ∷ ws)
  arrives :
      {t : ℕ} {ws : List Incoming} (source : Address)
      → address_eq source q.destination ≡ true
      → Opening q first t (datagram first source ∷ ws)

-- The answers to the second loop while packet `k` is awaited, of the packets up to `n`: timeouts and
-- damaged packets while tries are left, datagrams from other addresses, and packets from the peer: the
-- last one again, or the awaited one.
pub data Stream (q : Socket) (packets : ℕ → Bytes) (n : ℕ) : ℕ → ℕ → List Wait → Type 0 where
  lost :
      {k t : ℕ} {ws : List Wait}
      → t + 1 < q.protocol_max_retries
      → Stream q packets n k (t + 1) ws
      → Stream q packets n k t (timed_out ∷ ws)
  foreign :
      {k t : ℕ} {ws : List Wait} (bytes : Bytes) (source : Address)
      → address_eq source q.destination ≡ false
      → Stream q packets n k t ws
      → Stream q packets n k t (ready (datagram bytes source) ∷ ws)
  damaged :
      {k t : ℕ} {ws : List Wait} (bytes : Bytes) (source : Address)
      → address_eq source q.destination ≡ true
      → well_formed (take q.protocol_mtu bytes) ≡ false
      → t + 1 < q.protocol_max_retries
      → Stream q packets n k (t + 1) ws
      → Stream q packets n k t (ready (datagram bytes source) ∷ ws)
  repeated :
      {j k t : ℕ} {ws : List Wait} (source : Address)
      → address_eq source q.destination ≡ true
      → j + 1 ≡ k
      → Stream q packets n k 0 ws
      → Stream q packets n k t (ready (datagram (packets j) source) ∷ ws)
  next :
      {k t : ℕ} {ws : List Wait} (source : Address)
      → address_eq source q.destination ≡ true
      → k < n
      → Stream q packets n (k + 1) 0 ws
      → Stream q packets n k t (ready (datagram (packets k) source) ∷ ws)
  final :
      {k t : ℕ} {ws : List Wait} (source : Address)
      → address_eq source q.destination ≡ true
      → k ≡ n
      → Stream q packets n k t (ready (datagram (packets k) source) ∷ ws)

abbrev pub ack : Socket → ℕ → Sent
ack q k = send_control_packet q flag_ack k none

abbrev pub reject : Socket → Address → Sent
reject q source = send_control_packet q flag_fin 0 (some source)

-- What `recv` hands to `sendto` meanwhile.
unfoldable pub opening_sends :
    (q : Socket) {first : Bytes} {t : ℕ} {ws : List Incoming} → Opening q first t ws → List Sent
opening_sends q (foreign bytes source other o) = reject q source ∷ opening_sends q o
opening_sends q (damaged bytes source peer bad left o) = opening_sends q o
opening_sends q (arrives source peer) = []

unfoldable pub stream_sends :
    (q : Socket) {packets : ℕ → Bytes} {n k t : ℕ} {ws : List Wait}
    → Stream q packets n k t ws
    → List Sent
stream_sends q (lost left a) = stream_sends q a
stream_sends q (foreign bytes source other a) = reject q source ∷ stream_sends q a
stream_sends q (damaged bytes source peer bad left a) = stream_sends q a
stream_sends q (repeated {j = j} source peer e a) = ack q j ∷ stream_sends q a
stream_sends q {k} (next source peer more a) = ack q k ∷ stream_sends q a
stream_sends q {k} (final source peer end) = ack q k ∷ []

-- A receiver that can take a message: a valid, connected socket that cuts messages as the sender does,
-- and a buffer with enough room.
pub record CanTake (s q : Socket) (message old : Bytes) : Type 0 where
  pub sender : IsReady s message
  pub valid : IsValid q
  pub connected : q.is_connected ≡ true
  pub one_room : payload_room q ≡ payload_room s
  pub enough : length message ≤ length old
  pub below : length old < 2 ^ 31
