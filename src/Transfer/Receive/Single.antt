-- ===== src/Transfer/Receive/Single.antt =====
-- `recv` of a message that is one packet, with any sequence number.
use native.Mathlib.Nat.{zero-add}
use reliable_udp.Prelude.{
  ℕ, ◌+◌, ◌^◌, ◌≤◌, ◌<◌, ◌≡◌, ◌∙◌, true, some, List, [], ◌∷◌, ◌++◌, arith, drop, length, refl, ap,
  signed32,
}
use reliable_udp.Wire.Checksum.{Bytes}
use reliable_udp.Wire.Header.{flag_psh, flag_last}
use reliable_udp.Wire.Header.Codec.{length-seal, drop-seal}
use reliable_udp.Network.{Address, Incoming, Wait, datagram, address_eq}
use reliable_udp.Run.{returned}
use reliable_udp.Socket.{Socket}
use reliable_udp.Socket.Invariant.{IsValid}
use reliable_udp.Transfer.Receive.{
  copy_payload, after_first, recv_first, continue_recv, recv_buffer, recv,
}
use reliable_udp.Transfer.Receive.Script.{ack}
use reliable_udp.Transfer.Receive.Opening.{
  head_of, packet_of, packet_flags, packet_seq, packet_size, first_loop-packet,
}
use reliable_udp.Transfer.Receive.Storing.{
  copy_payload-store, store_lem, read_payload_lem, signed_gt-false,
}

-- A packet that is a whole message.
abbrev pub single : ℕ → Bytes → Bytes
single = packet_of (flag_psh + flag_last)

module _ (q : Socket) (seq : ℕ) (body old : Bytes) (v : IsValid q) (low : seq < 2 ^ 32)
    (fits : 12 + length body ≤ q.protocol_mtu) where
  copy-single :
      length body ≤ length old
      → copy_payload q.protocol_mtu (single seq body) (length body) old 0
        ≡ some (body ++ drop (length body) old)
  copy-single enough =
      copy_payload-store q.protocol_mtu (single seq body) body (length body) old 0 (
        read_payload_lem q.protocol_mtu (single seq body) body
          (drop-seal (head_of (flag_psh + flag_last) seq body) body)
          (length-seal (head_of (flag_psh + flag_last) seq body) body) fits)
      ∙ store_lem old body 0 (omega arith)
      ∙ ap (λ (n : ℕ). some (body ++ drop n old)) (zero-add (length body))

  after_first-single :
      (ws : List Wait)
      → length body ≤ length old
      → length old < 2 ^ 31
      → after_first (length old) q (single seq body) old (some (body ++ drop (length body) old)) ws
        ≡ record {
          outcome = returned (signed32 (length body));
          state = record { socket = q; buffer = body ++ drop (length body) old };
          sent = ack q seq ∷ [];
        }
  unfolding after_first
  after_first-single ws enough below =
      let flags =
        packet_flags q (flag_psh + flag_last) seq body v (omega arith) refl refl low fits in
      let within = signed_gt-false (length body) (length old) enough below in
      rw
        (
          packet_size q (flag_psh + flag_last) seq body v (omega arith) refl refl low fits,
          within,
          packet_seq q (flag_psh + flag_last) seq body v (omega arith) refl refl low fits,
        )
        (ground arith)

  recv_first-single :
      (ws : List Wait)
      → length body ≤ length old
      → length old < 2 ^ 31
      → recv_first (length old) q (single seq body) old ws ≡ record {
        outcome = returned (signed32 (length body));
        state = record { socket = q; buffer = body ++ drop (length body) old };
        sent = ack q seq ∷ [];
      }
  unfolding recv_first
  recv_first-single ws enough below =
      rw
        (
          packet_size q (flag_psh + flag_last) seq body v (omega arith) refl refl low fits,
          signed_gt-false (length body) (length old) enough below,
          copy-single enough,
        )
        (after_first-single ws enough below)

-- The last packet of a message that comes first is taken for a whole message, whatever its sequence
-- number: `recv` on a valid, connected socket, whose MTU the packet fits in, and with a buffer of less
-- than 2 ^ 31 bytes that its data fits in, returns the length of its data, puts it at the buffer's
-- start, and acknowledges its number.
pub recv-single :
    (q : Socket) (seq : ℕ) (body old : Bytes) (source : Address) (rest : List Incoming)
    (ws : List Wait)
    → IsValid q
    → q.is_connected ≡ true
    → seq < 2 ^ 32
    → 12 + length body ≤ q.protocol_mtu
    → length body ≤ length old
    → length old < 2 ^ 31
    → address_eq source q.destination ≡ true
    → recv q (some old) (length old) (datagram (single seq body) source ∷ rest) ws ≡ record {
      outcome = returned (signed32 (length body));
      state = record { socket = q; buffer = body ++ drop (length body) old };
      sent = ack q seq ∷ [];
    }
unfolding recv recv_buffer continue_recv
recv-single q seq body old source rest ws v connected low fits enough below peer = ground (
  arith,
  connected,
  first_loop-packet q (flag_psh + flag_last) seq body v (omega arith) refl refl low fits source rest
      peer,
  recv_first-single q seq body old v low fits ws enough below,
)
