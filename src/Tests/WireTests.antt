-- ===== src/Tests/WireTests.antt =====
-- Tests of the packets on the wire.
use reliable_udp.Prelude.{◌≡◌, ◌%◌, ◌↔◌, true, false, [], ◌∷◌, ◌++◌, arith, refl}
use reliable_udp.Wire.Checksum.{Bytes, add_words, fold_carries, calculate_checksum}
use reliable_udp.Wire.Checksum.Fold.{SameSum, sum_words, checksum_eq_iff}
use reliable_udp.Wire.Header.{
  Header, encode_header, decode_header, clear_checksum, seal, flag_psh, flag_set,
}
use reliable_udp.Wire.Header.Codec.{decode-encode_header}
use reliable_udp.Validity.{well_formed, valid, fault, check_packet_validity}
use reliable_udp.Validity.Form.{well_formed_detects}
use reliable_udp.Validity.Flags.{
  Admits, Leaves, verdict_on, check_packet_validity-valid_iff, check_packet_validity-Leaves,
  check_packet_validity-fault_iff,
}
use reliable_udp.Tests.Samples.{server}

abbrev ffs : Bytes
ffs = 0xff ∷ 0xff ∷ 0xff ∷ 0xff ∷ 3 ∷ []

checksum_runs : calculate_checksum ffs ≡ 0xfffc
unfolding calculate_checksum add_words fold_carries
checksum_runs = refl

checksum_eq_iff_example :
    (calculate_checksum (1 ∷ 0 ∷ 0 ∷ 1 ∷ []) ≡ calculate_checksum (0 ∷ 1 ∷ 1 ∷ 0 ∷ []))
    ↔ SameSum (sum_words (1 ∷ 0 ∷ 0 ∷ 1 ∷ [])) (sum_words (0 ∷ 1 ∷ 1 ∷ 0 ∷ []))
checksum_eq_iff_example =
    checksum_eq_iff (1 ∷ 0 ∷ 0 ∷ 1 ∷ []) (0 ∷ 1 ∷ 1 ∷ 0 ∷ []) (omega arith) (omega arith)
      (omega arith) (omega arith)

abbrev some_header : Header
some_header = record { seq_num = 70000; length = 300; checksum = 0; flags = 4 }

decode-encode_header_example : decode_header (encode_header some_header ++ 7 ∷ []) ≡ some_header
decode-encode_header_example = decode-encode_header some_header (7 ∷ []) (omega arith)

-- One byte of a packet's payload changed.
abbrev sent_packet : Bytes
sent_packet = seal (record { seq_num = 0; length = 2; checksum = 0; flags = 4 }) (1 ∷ 2 ∷ [])

abbrev hit_packet : Bytes
hit_packet = encode_header (decode_header sent_packet) ++ 1 ∷ 3 ∷ []

well_formed_detects_example : well_formed hit_packet ≡ false
unfolding clear_checksum seal encode_header decode_header calculate_checksum fold_carries add_words
well_formed_detects_example =
    well_formed_detects sent_packet hit_packet (omega arith) (omega arith) (omega arith)
      (omega arith) (unfold well_formed in refl) refl (λ e. absurd (omega (arith, e.0)))

check_packet_validity-valid_iff_example :
    (verdict_on server sent_packet flag_psh ≡ valid)
    ↔ Admits sent_packet (λ f. flag_set f flag_psh ≡ true)
check_packet_validity-valid_iff_example = (check_packet_validity-valid_iff server sent_packet).0

check_packet_validity-Leaves_example :
    Leaves server sent_packet (check_packet_validity server sent_packet flag_psh)
check_packet_validity-Leaves_example = check_packet_validity-Leaves server sent_packet flag_psh

check_packet_validity-fault_iff_example :
    (verdict_on server sent_packet flag_psh ≡ fault)
    ↔ ((server.debug_mode ≡ true) × Admits sent_packet (λ f. f % 32 ≡ 0))
check_packet_validity-fault_iff_example =
    check_packet_validity-fault_iff server sent_packet flag_psh (omega arith) (omega arith)

abbrev bare_packet : Bytes
bare_packet = seal (record { seq_num = 0; length = 0; checksum = 0; flags = 0 }) []

-- A packet with no flag ends in undefined behaviour in the debug mode.
bare_packet-fault : verdict_on (record server { debug_mode = true }) bare_packet flag_psh ≡ fault
unfolding well_formed seal encode_header decode_header clear_checksum calculate_checksum
    fold_carries add_words
bare_packet-fault =
    (check_packet_validity-fault_iff (record server { debug_mode = true }) bare_packet flag_psh
        (omega arith) (omega arith)).1
      (refl, (refl, refl))
