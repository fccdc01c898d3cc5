-- ===== src/Transfer/Receive/Cut.antt =====
-- `recv` where the first packet holds more than the caller's buffer.
use reliable_udp.Prelude.{
  ℕ, ◌+◌, ◌-◌, ◌^◌, ◌≤◌, ◌<◌, ◌≡◌, ◌∙◌, true, false, some, List, [], ◌∷◌, ◌++◌, arith, take, drop,
  length, length-take, refl, ap, signed32, replicate, drop-append, append-nil, drop-all,
  take-append,
}
use reliable_udp.Wire.Checksum.{Bytes}
use reliable_udp.Wire.Header.Codec.{length-seal, drop-seal}
use reliable_udp.Network.{Address, Incoming, Wait, datagram, address_eq}
use reliable_udp.Run.{returned}
use reliable_udp.Socket.{Socket}
use reliable_udp.Socket.Invariant.{IsValid}
use reliable_udp.Transfer.Receive.{
  signed_gt, read_payload, store, copy_payload, after_first, recv_first, continue_recv, recv_buffer,
  recv,
}
use reliable_udp.Transfer.Receive.Script.{ack}
use reliable_udp.Transfer.Receive.Storing.{copy_payload-store, store_lem}
use reliable_udp.Transfer.Receive.Opening.{
  head_of, packet_of, packet_seq, packet_size, first_loop-packet,
}
use reliable_udp.Wire.Header.{flag_psh, flag_syn, flag_set}

signed_gt-true : (a b : ℕ) → b < a → a < 2 ^ 31 → signed_gt a b ≡ true
unfolding signed_gt
signed_gt-true a b h k = ground arith

store-whole :
    (old payload : Bytes) → length payload ≡ length old → store old 0 payload ≡ some payload
store-whole old payload same =
    store_lem old payload 0 (omega arith)
    ∙ rw (drop-all (0 + length payload) old (omega arith), append-nil payload) refl

module _ (q : Socket) (flags seq : ℕ) (body old : Bytes) (v : IsValid q) (narrow : flags < 2 ^ 8)
    (data' : flag_set flags flag_psh ≡ true) (plain : flag_set flags flag_syn ≡ false)
    (low : seq < 2 ^ 32) (fits : 12 + length body ≤ q.protocol_mtu)
    (more : length old < length body) where
  read_front :
      read_payload q.protocol_mtu (packet_of flags seq body) (length old)
      ≡ some (take (length old) body)
  unfolding read_payload
  read_front =
      let packet = packet_of flags seq body in
      let size = length-seal (head_of flags seq body) body in
      let zeros : Bytes = replicate (q.protocol_mtu - length packet) 0 in
      let behind : drop 12 (packet ++ zeros) ≡ body ++ zeros =
        drop-append 12 packet zeros (omega arith)
        ∙ ap (λ (b : Bytes). b ++ zeros) (drop-seal (head_of flags seq body) body) in
      rw (behind, take-append (length old) body zeros (omega arith)) (ground arith)

  copy_cut :
      copy_payload q.protocol_mtu (packet_of flags seq body) (length old) old 0
      ≡ some (take (length old) body)
  copy_cut =
      copy_payload-store q.protocol_mtu (packet_of flags seq body) (take (length old) body)
        (length old) old 0 read_front
      ∙ store-whole old (take (length old) body)
          (let l = length-take (length old) body in omega arith)

  after_first-cut :
      (ws : List Wait)
      → length body < 2 ^ 31
      → after_first (length old) q (packet_of flags seq body) old (some (take (length old) body)) ws
        ≡ record {
          outcome = returned (signed32 (length body));
          state = record { socket = q; buffer = take (length old) body };
          sent = ack q seq ∷ [];
        }
  unfolding after_first
  after_first-cut ws below =
      rw
        (
          packet_size q flags seq body v narrow data' plain low fits,
          signed_gt-true (length body) (length old) more below,
          packet_seq q flags seq body v narrow data' plain low fits,
        )
        refl

  recv_first-cut :
      (ws : List Wait)
      → length body < 2 ^ 31
      → recv_first (length old) q (packet_of flags seq body) old ws ≡ record {
        outcome = returned (signed32 (length body));
        state = record { socket = q; buffer = take (length old) body };
        sent = ack q seq ∷ [];
      }
  unfolding recv_first
  recv_first-cut ws below =
      rw
        (
          packet_size q flags seq body v narrow data' plain low fits,
          signed_gt-true (length body) (length old) more below,
          copy_cut,
        )
        (after_first-cut ws below)

-- A first data packet without SYN, the last of its message or not, that holds more than the caller's buffer fills it,
-- and ends the call whatever comes next: `recv` on a valid, connected socket, whose MTU the packet fits
-- in, returns the length of the packet's data, which is more than the buffer's, puts as much of it in the
-- buffer as that has room for, and acknowledges its number.
pub recv-cut :
    (q : Socket) (flags seq : ℕ) (body old : Bytes) (source : Address) (rest : List Incoming)
    (ws : List Wait)
    → IsValid q
    → q.is_connected ≡ true
    → flags < 2 ^ 8
    → flag_set flags flag_psh ≡ true
    → flag_set flags flag_syn ≡ false
    → seq < 2 ^ 32
    → 12 + length body ≤ q.protocol_mtu
    → length old < length body
    → address_eq source q.destination ≡ true
    → recv q (some old) (length old) (datagram (packet_of flags seq body) source ∷ rest) ws
      ≡ record {
        outcome = returned (signed32 (length body));
        state = record { socket = q; buffer = take (length old) body };
        sent = ack q seq ∷ [];
      }
unfolding recv recv_buffer continue_recv
recv-cut q flags seq body old source rest ws v connected narrow data' plain low fits more peer =
    let most = v.mtu_fits in
    ground (
      arith,
      connected,
      first_loop-packet q flags seq body v narrow data' plain low fits source rest peer,
      recv_first-cut q flags seq body old v narrow data' plain low fits more ws (omega arith),
    )
