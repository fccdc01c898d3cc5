-- ===== src/Transfer/Send/Script.antt =====
-- What a network that loses and damages packets, and carries foreign ones, lets `send` see, and what `send`
-- sends.
use mathlib.Core.List.{Mem, mem-cons_self, mem-cons_of_mem}
use native.Mathlib.Decide.{ℕ_discrete}
use reliable_udp.Prelude.{ℕ, ◌+◌, ◌≤◌, ◌<◌, ◌≡◌, true, false, some, List, [], ◌∷◌, arith, take}
use reliable_udp.Wire.Checksum.{Bytes}
use reliable_udp.Wire.Header.{flag_ack, flag_fin}
use reliable_udp.Network.{Address, Sent, Attempt, datagram, timed_out, ready, accepted, address_eq}
use reliable_udp.Socket.{Socket, send_control_packet}
use reliable_udp.Validity.Control.{Carries}
use reliable_udp.Validity.{well_formed}
use reliable_udp.Transfer.Packets.{packet, last}

-- The answers to `send` from packet `k` on, after some tries: a timeout or a damaged packet
-- while tries are left, a datagram from another address, or the peer's acknowledgement of packet `k`.
pub data Acks (s : Socket) (n : ℕ) : ℕ → ℕ → List Attempt → Type 0 where
  lost :
      {k t : ℕ} {ws : List Attempt}
      → t + 1 < s.protocol_max_retries
      → Acks s n k (t + 1) ws
      → Acks s n k t (accepted timed_out ∷ ws)
  foreign :
      {k t : ℕ} {ws : List Attempt} (bytes : Bytes) (source : Address)
      → address_eq source s.destination ≡ false
      → Acks s n k t ws
      → Acks s n k t (accepted (ready (datagram bytes source)) ∷ ws)
  damaged :
      {k t : ℕ} {ws : List Attempt} (bytes : Bytes) (source : Address)
      → address_eq source s.destination ≡ true
      → well_formed (take s.protocol_mtu bytes) ≡ false
      → t + 1 < s.protocol_max_retries
      → Acks s n k (t + 1) ws
      → Acks s n k t (accepted (ready (datagram bytes source)) ∷ ws)
  acked :
      {k t : ℕ} {ws : List Attempt} (bytes : Bytes) (source : Address)
      → address_eq source s.destination ≡ true
      → Carries (take s.protocol_mtu bytes) flag_ack k
      → k < n
      → Acks s n (k + 1) 0 ws
      → Acks s n k t (accepted (ready (datagram bytes source)) ∷ ws)
  finished :
      {k t : ℕ} {ws : List Attempt} (bytes : Bytes) (source : Address)
      → address_eq source s.destination ≡ true
      → Carries (take s.protocol_mtu bytes) flag_ack k
      → k ≡ n
      → Acks s n k t (accepted (ready (datagram bytes source)) ∷ ws)

-- What is handed to `sendto` meanwhile: packet `k` again for each answer, and a FIN to each foreigner.
unfoldable pub transcript :
    (s : Socket) (buffer : Bytes) {n k t : ℕ} {ws : List Attempt} → Acks s n k t ws → List Sent
transcript s buffer {k} (lost few a) =
    record { packet = packet s buffer k; to = s.destination } ∷ transcript s buffer a
transcript s buffer {k} (foreign bytes source other a) =
    record { packet = packet s buffer k; to = s.destination }
    ∷ send_control_packet s flag_fin 0 (some source)
    ∷ transcript s buffer a
transcript s buffer {k} (damaged bytes source peer bad few a) =
    record { packet = packet s buffer k; to = s.destination } ∷ transcript s buffer a
transcript s buffer {k} (acked bytes source peer ack more a) =
    record { packet = packet s buffer k; to = s.destination } ∷ transcript s buffer a
transcript s buffer {k} (finished bytes source peer ack end) =
    record { packet = packet s buffer k; to = s.destination } ∷ []

module _ (s : Socket) (buffer : Bytes) where
  abbrev pub packet_at : ℕ → Sent
  packet_at k = record { packet = packet s buffer k; to = s.destination }

  -- What `send` gives to `sendto` where the packets are acknowledged holds each packet of the message,
  -- from the next one on.
  pub transcript-mem :
      {k t : ℕ} {ws : List Attempt} (a : Acks s (last s buffer) k t ws) (j : ℕ)
      → k ≤ j
      → j ≤ last s buffer
      → Mem (packet_at j) (transcript s buffer a)
  unfolding transcript
  transcript-mem {k} (lost few a) j lo hi = mem-cons_of_mem _ (transcript-mem a j lo hi)
  transcript-mem {k} (foreign bytes source other a) j lo hi =
      mem-cons_of_mem _ (mem-cons_of_mem _ (transcript-mem a j lo hi))
  transcript-mem {k} (damaged bytes source peer bad few a) j lo hi =
      mem-cons_of_mem _ (transcript-mem a j lo hi)
  transcript-mem {k} (acked bytes source peer ack more a) j lo hi = elim (ℕ_discrete j k) [
    | yes e ↦ rw e mem-cons_self
    | no ne ↦ mem-cons_of_mem _ (transcript-mem a j (omega arith) hi)
  ]
  transcript-mem {k} (finished bytes source peer ack end) j lo hi =
      let e : j ≡ k = omega arith in rw e mem-cons_self
