-- ===== src/Validity.antt =====
-- `RUDP_Socket_p::_check_packet_validity` of src/rudp_lib.cpp.
pub mod Form
pub mod Control
pub mod Closing
pub mod Flags
use reliable_udp.Prelude.{
  ℕ, ◌+◌, ◌-◌, Bool, false, not, ◌&&◌, ◌||◌, none, List, [], ◌∷◌, ltb, ◌==◌, if◌then◌else◌, length,
}
use reliable_udp.Wire.Checksum.{Bytes, calculate_checksum}
use reliable_udp.Wire.Header.{
  SynPacket, decode_header, decode_syn, clear_checksum, flag_set, flag_syn, flag_ack, flag_psh,
  flag_last, flag_fin, header_size, syn_packet_size, minimal_mtu, minimal_timeout,
}
use reliable_udp.Network.{Sent}
use reliable_udp.Socket.{Socket, send_control_packet}

-- The return values 0, 1 and -1, and undefined behaviour.
pub data Verdict : Type 0 where
  invalid valid closed fault : Verdict

-- The verdict, the socket behind the call, and what it gave to `sendto`.
pub record Check : Type 0 where
  pub verdict : Verdict
  pub socket : Socket
  pub sent : List Sent

abbrev conclude : Socket → Verdict → Check
conclude s v = record { verdict = v; socket = s; sent = [] }

-- The tests on the settings in a SYN packet, whose length field is given.
unfoldable pub syn_acceptable : ℕ → SynPacket → Bool
syn_acceptable size syn =
    size == syn_packet_size
    && not (ltb syn.mtu minimal_mtu)
    && not (ltb syn.timeout minimal_timeout)
    && not (syn.max_retries == 0)
    && not (ltb 1 syn.debug_mode)

-- The length of the text that the debug mode prints for some flags: each name that is set, with ", "
-- behind it.
unfoldable pub flags_str : ℕ → ℕ
flags_str flags =
    (if flag_set flags flag_syn then 22 else 0)
    + (if flag_set flags flag_ack then 23 else 0)
    + (if flag_set flags flag_psh then 12 else 0)
    + (if flag_set flags flag_last then 13 else 0)
    + (if flag_set flags flag_fin then 15 else 0)

-- `pop_back` twice on a text of some length: undefined on an empty text.
abbrev can_pop_twice : ℕ → Bool
can_pop_twice size = not (ltb size 2)

-- The branch for flags that are not the expected ones.
mismatch : Socket → ℕ → ℕ → Check
mismatch s flags expected =
    if s.debug_mode
    then conclude s (
        if can_pop_twice (flags_str expected) && can_pop_twice (flags_str flags)
        then invalid
        else fault)
    else conclude s invalid

abbrev expects_fin : ℕ → Bool
expects_fin expected = expected == flag_fin || expected == flag_fin + flag_ack

-- The branch for a packet whose only flag is FIN.
fin_request : Socket → ℕ → Check
fin_request s expected =
    if not s.is_connected
    then conclude s (if flag_set expected flag_syn then closed else invalid)
    else if expects_fin expected
    then conclude s valid
    else record {
      verdict = closed;
      socket = record s { is_connected = false };
      sent = send_control_packet s (flag_fin + flag_ack) 0 none ∷ [];
    }

-- The part behind the tests on the packet's form, on the received and the expected flags.
pub check_flags : Socket → ℕ → ℕ → Check
check_flags s flags expected =
    if flags == flag_fin
    then fin_request s expected
    else if flag_set flags flag_fin && expects_fin expected
    then conclude (record s { is_connected = false }) closed
    else if not (expected == 0) && not (flags == expected)
    then if flag_set expected flag_psh && flag_set flags flag_psh
      then conclude s valid
      else mismatch s flags expected
    else conclude s valid

-- The tests on the packet's form: its size, its length field, its checksum, the settings of a SYN.
unfoldable pub well_formed : Bytes → Bool
well_formed packet =
    let header = decode_header packet in
    not (ltb (length packet) header_size)
    && header.length == length packet - header_size
    && header.checksum == calculate_checksum (clear_checksum packet)
    && (not (flag_set header.flags flag_syn) || syn_acceptable header.length (decode_syn packet))

unfoldable pub check_packet_validity : Socket → Bytes → ℕ → Check
check_packet_validity s packet expected =
    if well_formed packet
    then check_flags s (decode_header packet).flags expected
    else conclude s invalid
