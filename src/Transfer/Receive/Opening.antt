-- ===== src/Transfer/Receive/Opening.antt =====
-- The first loop of `recv` on a data packet with any sequence number and further flags.
use reliable_udp.Prelude.{
  ℕ, ◌+◌, ◌-◌, ◌^◌, ◌≤◌, ◌<◌, ◌≡◌, true, false, some, List, [], ◌∷◌, arith, take-all, length, refl,
}
use reliable_udp.Wire.Checksum.{Bytes}
use reliable_udp.Wire.Header.{Header, seal, decode_header, flag_psh, flag_syn, flag_set}
use reliable_udp.Wire.Header.Codec.{IsHeader, decode-seal, length-seal}
use reliable_udp.Network.{Address, Incoming, datagram, address_eq}
use reliable_udp.Run.{returned, proceed, done}
use reliable_udp.Run.Rules.{run_loop-done}
use reliable_udp.Socket.{Socket, check_packet_source}
use reliable_udp.Socket.Invariant.{IsValid}
use reliable_udp.Validity.{well_formed, valid, check_packet_validity}
use reliable_udp.Validity.Form.{seal-well_formed}
use reliable_udp.Validity.Flags.{check_packet_validity-valid_iff, check_packet_validity-valid}
use reliable_udp.Transfer.Receive.{first_head, first_round, first_loop}

-- A packet's header before it is sealed.
abbrev pub head_of : ℕ → ℕ → Bytes → Header
head_of flags seq body = record { seq_num = seq; length = length body; checksum = 0; flags = flags }

abbrev pub packet_of : ℕ → ℕ → Bytes → Bytes
packet_of flags seq body = seal (head_of flags seq body) body

module _ (q : Socket) (flags seq : ℕ) (body : Bytes) (v : IsValid q) (narrow : flags < 2 ^ 8)
    (data' : flag_set flags flag_psh ≡ true) (plain : flag_set flags flag_syn ≡ false)
    (low : seq < 2 ^ 32) (fits : 12 + length body ≤ q.protocol_mtu) where
  pub head_of-IsHeader : IsHeader (head_of flags seq body)
  head_of-IsHeader = let most = v.mtu_fits in omega arith

  packet_form : well_formed (packet_of flags seq body) ≡ true
  packet_form = seal-well_formed (head_of flags seq body) body head_of-IsHeader refl refl plain

  pub packet_flags : (decode_header (packet_of flags seq body)).flags ≡ flags
  packet_flags = rw (decode-seal (head_of flags seq body) body head_of-IsHeader) refl

  pub packet_seq : (decode_header (packet_of flags seq body)).seq_num ≡ seq
  packet_seq = rw (decode-seal (head_of flags seq body) body head_of-IsHeader) refl

  pub packet_size : length (packet_of flags seq body) - 12 ≡ length body
  packet_size = rw (length-seal (head_of flags seq body) body) (omega arith)

  packet_valid :
      check_packet_validity q (packet_of flags seq body) flag_psh
      ≡ record { verdict = valid; socket = q; sent = [] }
  packet_valid = check_packet_validity-valid q (packet_of flags seq body) flag_psh (
      (check_packet_validity-valid_iff q (packet_of flags seq body)).0.1
        (packet_form, rw packet_flags data'))

  first_round-packet :
      (t : ℕ) (source : Address)
      → address_eq source q.destination ≡ true
      → first_round
          (record { socket = q; num_of_tries = t })
          (datagram (packet_of flags seq body) source)
        ≡ done
            (record { outcome = returned (some (packet_of flags seq body)); state = q; sent = [] })
  unfolding first_round check_packet_source
  first_round-packet t source peer =
      let size = length-seal (head_of flags seq body) body in
      rw (peer, take-all q.protocol_mtu (packet_of flags seq body) (omega arith), packet_valid) refl

  first_head-open : first_head (record { socket = q; num_of_tries = 0 }) ≡ proceed []
  unfolding first_head
  first_head-open = let tries = v.max_retries_min in ground arith

  pub first_loop-packet :
      (source : Address) (rest : List Incoming)
      → address_eq source q.destination ≡ true
      → first_loop
          (record { socket = q; num_of_tries = 0 })
          (datagram (packet_of flags seq body) source ∷ rest)
        ≡ record { outcome = returned (some (packet_of flags seq body)); state = q; sent = [] }
  unfolding first_loop
  first_loop-packet source rest peer =
      run_loop-done _ _ _ _ _ rest first_head-open (first_round-packet 0 source peer)
