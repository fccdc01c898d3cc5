-- ===== src/Transfer/Packets.antt =====
-- The data packets of a message: where each begins, what it holds, and that they make up the message.
use reliable_udp.Prelude.{
  ℕ, zero, suc, ◌+◌, ◌-◌, ◌*◌, ◌/◌, ◌%◌, ◌^◌, ◌≤◌, ◌<◌, ◌≡◌, true, false, [], ◌++◌, arith, take,
  drop, refl, ap, length, length-take, length-drop, take-append-drop, min, ◌==◌, sym, ◌∙◌,
  if◌then◌else◌, drop-all, drop-drop, take-length_take,
}
use reliable_udp.Wire.Checksum.{Bytes}
use reliable_udp.Wire.Header.{
  Header, seal, decode_header, flag_set, flag_syn, flag_psh, flag_last, header_size,
}
use reliable_udp.Wire.Header.Codec.{IsHeader, decode-seal, length-seal, drop-seal}
use reliable_udp.Socket.{Socket, payload_room}
use reliable_udp.Socket.Invariant.{IsValid, payload_room_lem}
use reliable_udp.Validity.{well_formed}
use reliable_udp.Validity.Form.{seal-well_formed}
use reliable_udp.Transfer.Send.{Sending, chunk_size, is_last, data_packet, message}

-- The part of a message that packet `k` holds, for packets of some room.
abbrev pub slice : ℕ → Bytes → ℕ → Bytes
slice room buffer k = take room (drop (k * room) buffer)

-- The parts from packet `k` on, of `n` packets.
abbrev pub slices : ℕ → Bytes → ℕ → ℕ → Bytes
slices room buffer k zero = []
slices room buffer k (suc n) = slice room buffer k ++ slices room buffer (k + 1) n

-- Enough packets hold all of the message.
pub slices_lem :
    (room : ℕ) (buffer : Bytes) (n k : ℕ)
    → length buffer ≤ (k + n) * room
    → slices room buffer k n ≡ drop (k * room) buffer
slices_lem room buffer zero k h = sym (drop-all (k * room) buffer (omega arith))
slices_lem room buffer (suc n) k h =
    let rest = drop (k * room) buffer in
    let next : k * room + room ≡ (k + 1) * room = omega arith in
    let tail : slices room buffer (k + 1) n ≡ drop room rest =
      slices_lem room buffer n (k + 1) (omega arith)
      ∙ ap (λ i. drop i buffer) (sym next)
      ∙ sym (drop-drop room (k * room) buffer) in
    rw tail (take-append-drop room rest)

-- The variables of `send` before packet `k`, after some tries, where each packet was acknowledged by
-- its own number.
unfoldable pub before : Socket → ℕ → ℕ → Sending
before s k tries = record {
  socket = s;
  i = k;
  num_of_tries = tries;
  total_packets = k;
  total_bytes = k * payload_room s;
  prev_seq_num = (k + 2 ^ 32 - 1) % 2 ^ 32;
}

-- Packet `k` of a message, as `send` builds it.
unfoldable pub packet : Socket → Bytes → ℕ → Bytes
packet s buffer k = data_packet (message s buffer (length buffer)) (before s k 0)

pub data_packet-before :
    (s : Socket) (buffer : Bytes) (k tries : ℕ)
    → data_packet (message s buffer (length buffer)) (before s k tries) ≡ packet s buffer k
unfolding packet before data_packet chunk_size is_last
data_packet-before s buffer k tries = refl

-- A message of a connected, valid socket.
pub record IsReady (s : Socket) (buffer : Bytes) : Type 0 where
  pub valid : IsValid s
  pub connected : s.is_connected ≡ true
  pub size_fits : length buffer < 2 ^ 32

-- The number of the last packet.
abbrev pub last : Socket → Bytes → ℕ
last s buffer = length buffer / payload_room s

module _ (s : Socket) (buffer : Bytes) (r : IsReady s buffer) where
  pub room_bounds :
      (8 ≤ payload_room s) × (payload_room s + 12 ≤ s.protocol_mtu) × (payload_room s < 2 ^ 16)
  room_bounds =
      let e = payload_room_lem s r.valid r.connected in
      let own = r.valid.mtu_min in
      let fits = r.valid.mtu_fits in let peers = r.valid.peers_mtu_min r.connected in omega arith

  pub expected_packets_lem : (message s buffer (length buffer)).expected_packets ≡ last s buffer + 1
  unfolding message
  expected_packets_lem = let b = room_bounds in let f = r.size_fits in grind arith

  pub length-slice :
      (k : ℕ)
      → length (slice (payload_room s) buffer k)
        ≡ min (payload_room s) (length buffer - k * payload_room s)
  length-slice k = omega (
    arith,
    length-take (payload_room s) (drop (k * payload_room s) buffer),
    length-drop (k * payload_room s) buffer,
  )

  -- What the receiver reads of a packet.
  pub record Holds (k : ℕ) : Type 0 where
    pub form : well_formed (packet s buffer k) ≡ true
    pub seq_num : (decode_header (packet s buffer k)).seq_num ≡ k
    pub flags :
        (decode_header (packet s buffer k)).flags
        ≡ (if k == last s buffer then flag_psh + flag_last else flag_psh)
    pub size : (decode_header (packet s buffer k)).length ≡ length (slice (payload_room s) buffer k)
    pub payload : drop header_size (packet s buffer k) ≡ slice (payload_room s) buffer k
    pub fits : length (packet s buffer k) ≡ header_size + length (slice (payload_room s) buffer k)

  pub chunk_size-before :
      (k t : ℕ)
      → chunk_size (message s buffer (length buffer)) (before s k t)
        ≡ length (slice (payload_room s) buffer k)
  unfolding chunk_size before message
  chunk_size-before k t = let b = room_bounds in omega (arith, length-slice k)

  body-before :
      (k : ℕ)
      → take (length (slice (payload_room s) buffer k)) (drop (k * payload_room s) buffer)
        ≡ slice (payload_room s) buffer k
  body-before k = take-length_take (payload_room s) (drop (k * payload_room s) buffer)

  pub is_last-before :
      (k t : ℕ) → is_last (message s buffer (length buffer)) (before s k t) ≡ (k == last s buffer)
  unfolding is_last before
  is_last-before k t = ground (arith, expected_packets_lem)

  -- The header of packet `k`, before it is sealed.
  abbrev packet_header : ℕ → Header
  packet_header k = record {
    seq_num = k;
    length = length (slice (payload_room s) buffer k);
    checksum = 0;
    flags = if k == last s buffer then flag_psh + flag_last else flag_psh;
  }

  packet_lem :
      (k : ℕ) → packet s buffer k ≡ seal (packet_header k) (slice (payload_room s) buffer k)
  unfolding packet data_packet before message
  packet_lem k = rw (chunk_size-before k 0, is_last-before k 0, body-before k)

  packet_header-IsHeader : (k : ℕ) → k ≤ last s buffer → IsHeader (packet_header k)
  packet_header-IsHeader k h =
      let b = room_bounds in
      let few : last s buffer < 2 ^ 32 = let f = r.size_fits in grind arith in
      let short = length-slice k in ground arith

  packet_header-no_syn : (k : ℕ) → flag_set (packet_header k).flags flag_syn ≡ false
  packet_header-no_syn k = ground arith

  -- Each packet of the message holds its number, its part of the data and its flags.
  pub packet-Holds : (k : ℕ) → k ≤ last s buffer → Holds k
  packet-Holds k h =
      let head = packet_header k in
      let body = slice (payload_room s) buffer k in
      let shape = packet_lem k in
      let decoded = ap decode_header shape ∙ decode-seal head body (packet_header-IsHeader k h) in
      record {
        form =
            ap well_formed shape
            ∙ seal-well_formed head body (packet_header-IsHeader k h) refl refl
                (packet_header-no_syn k);
        seq_num = ap (λ (x : Header). x.seq_num) decoded;
        flags = ap (λ (x : Header). x.flags) decoded;
        size = ap (λ (x : Header). x.length) decoded;
        payload = ap (drop header_size) shape ∙ drop-seal head body;
        fits = ap length shape ∙ length-seal head body;
      }

  -- The payloads of packet `k` and those behind it, of `n` packets, joined.
  pub payloads : ℕ → ℕ → Bytes
  payloads k zero = []
  payloads k (suc n) = drop header_size (packet s buffer k) ++ payloads (k + 1) n

  payloads-slices :
      (n k : ℕ) → k + n ≤ last s buffer + 1 → payloads k n ≡ slices (payload_room s) buffer k n
  unfolding payloads
  payloads-slices zero k h = refl
  payloads-slices (suc n) k h = rw ((packet-Holds k (omega arith)).payload) (
      ap (λ (b : Bytes). slice (payload_room s) buffer k ++ b)
        (payloads-slices n (k + 1) (omega arith)))

  -- The packets that `send` builds of a message on a connected, valid socket carry it: their payloads
  -- from the first packet to the last, joined, are the message.
  pub payloads-message : payloads 0 (last s buffer + 1) ≡ buffer
  payloads-message =
      let b = room_bounds in
      let enough : length buffer ≤ (0 + (last s buffer + 1)) * payload_room s = grind arith in
      let start : 0 * payload_room s ≡ 0 = omega arith in
      payloads-slices (last s buffer + 1) 0 (omega arith)
      ∙ slices_lem (payload_room s) buffer (last s buffer + 1) 0 enough
      ∙ ap (λ (n : ℕ). drop n buffer) start
