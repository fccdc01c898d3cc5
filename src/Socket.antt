-- ===== src/Socket.antt =====
-- The class `RUDP_Socket_p` of src/include/RUDP_API_wrap.hpp and src/rudp_lib.cpp: its members, its
-- constructor, its getters and setters, and its control packets.
pub mod Invariant
use reliable_udp.Prelude.{
  ℕ, ◌+◌, ◌-◌, ◌%◌, ◌^◌, Bool, true, false, not, ◌&&◌, Option, none, some, List, [], ◌∷◌, ltb, ◌==◌,
  if◌then◌else◌, min,
}
use reliable_udp.Wire.Checksum.{Bytes}
use reliable_udp.Wire.Header.{
  SynPacket, seal, encode_syn, flag_set, flag_syn, flag_fin, header_size, syn_packet_size,
  minimal_mtu, minimal_timeout,
}
use reliable_udp.Network.{Address, Sent, address_eq}
use reliable_udp.Run.{
  Outcome, returned, threw, invalid_mtu, invalid_timeout, invalid_max_retries, socket_failed,
  bind_failed, already_connected, not_connected,
}

-- The members of `RUDP_Socket_p`.
pub record Socket : Type 0 where
  pub socket_handle : ℕ
  pub is_server : Bool
  pub is_connected : Bool
  pub debug_mode : Bool
  pub destination : Address
  pub protocol_mtu : ℕ
  pub protocol_timeout : ℕ
  pub protocol_max_retries : ℕ
  pub peers_mtu : ℕ

-- The arguments of the constructor.
pub record Config : Type 0 where
  pub is_server : Bool
  pub listen_port : ℕ
  pub mtu : ℕ
  pub timeout : ℕ
  pub max_retries : ℕ
  pub debug_mode : Bool

-- What the operating system answers to the constructor: a descriptor from `socket`, and whether
-- `bind` to a port and `setsockopt` succeed.
pub record Setup : Type 0 where
  pub socket : Option ℕ
  pub bind : ℕ → Bool
  pub setsockopt : Bool

-- The constructor's result, and the descriptor that is open when it ends. The destination is what the
-- memory held before.
pub record Built : Type 0 where
  pub outcome : Outcome Socket
  pub open_handle : Option ℕ

fresh : Config → Address → ℕ → Socket
fresh c memory handle = record {
  socket_handle = handle;
  is_server = c.is_server;
  is_connected = false;
  debug_mode = c.debug_mode;
  destination = memory;
  protocol_mtu = c.mtu;
  protocol_timeout = c.timeout;
  protocol_max_retries = c.max_retries;
  peers_mtu = 0;
}

-- The part of the constructor behind `socket`.
open_socket : Config → Setup → Address → Option ℕ → Built
unfolding fresh
open_socket c os memory none = record { outcome = threw socket_failed; open_handle = none }
open_socket c os memory (some handle) =
    if c.is_server && not (os.bind c.listen_port && os.setsockopt)
    then record { outcome = threw bind_failed; open_handle = some handle }
    else record { outcome = returned (fresh c memory handle); open_handle = some handle }

unfoldable pub construct : Config → Setup → Address → Built
unfolding open_socket
construct c os memory =
    if ltb c.mtu minimal_mtu
    then record { outcome = threw invalid_mtu; open_handle = none }
    else if ltb c.timeout minimal_timeout
    then record { outcome = threw invalid_timeout; open_handle = none }
    else if c.max_retries == 0
    then record { outcome = threw invalid_max_retries; open_handle = none }
    else open_socket c os memory os.socket

unfoldable pub get_mtu : Socket → ℕ
get_mtu s = s.protocol_mtu

unfoldable pub get_timeout : Socket → ℕ
get_timeout s = s.protocol_timeout

unfoldable pub get_max_retries : Socket → ℕ
get_max_retries s = s.protocol_max_retries

unfoldable pub get_peers_mtu : Socket → Outcome ℕ
get_peers_mtu s = if s.is_connected then returned s.peers_mtu else threw not_connected

-- A setter's outcome, and the socket behind it.
abbrev pub Setting : Type 0
Setting = Outcome (Unit {0}) × Socket

unfoldable pub set_debug_mode : Bool → Socket → Setting
set_debug_mode on s = (returned tt, record s { debug_mode = on })

unfoldable pub set_mtu : ℕ → Socket → Setting
set_mtu mtu s =
    if s.is_connected
    then (threw already_connected, s)
    else if ltb mtu minimal_mtu
    then (threw invalid_mtu, s)
    else (returned tt, record s { protocol_mtu = mtu })

unfoldable pub set_timeout : ℕ → Socket → Setting
set_timeout timeout s =
    if ltb timeout minimal_timeout
    then (threw invalid_timeout, s)
    else (returned tt, record s { protocol_timeout = timeout })

unfoldable pub set_max_retries : ℕ → Socket → Setting
set_max_retries max_retries s =
    if ltb max_retries 1
    then (threw invalid_max_retries, s)
    else (returned tt, record s { protocol_max_retries = max_retries })

unfoldable pub force_use_own_mtu : Socket → Setting
force_use_own_mtu s =
    if s.is_connected
    then (returned tt, record s { peers_mtu = s.protocol_mtu })
    else (threw not_connected, s)

-- `std::min(m_protocolMTU, m_peersMTU) - sizeof(RUDP_header)`, in 64 bits.
unfoldable pub payload_room : Socket → ℕ
payload_room s = (min s.protocol_mtu s.peers_mtu + 2 ^ 64 - header_size) % 2 ^ 64

abbrev pub bool_to_num : Bool → ℕ
bool_to_num true = 1
bool_to_num false = 0

-- The settings that a SYN packet carries.
unfoldable pub syn_settings : Socket → SynPacket
syn_settings s = record {
  mtu = s.protocol_mtu;
  timeout = s.protocol_timeout;
  max_retries = s.protocol_max_retries;
  debug_mode = bool_to_num s.debug_mode;
}

-- The bytes that `_send_control_packet` builds.
unfoldable pub control_packet : Socket → ℕ → ℕ → Bytes
unfolding syn_settings
control_packet s flags seq_num =
    if not (flag_set flags flag_syn)
    then seal (record { seq_num = seq_num; length = 0; checksum = 0; flags = flags }) []
    else seal (record { seq_num = seq_num; length = syn_packet_size; checksum = 0; flags = flags })
        (encode_syn (syn_settings s))

-- `_send_control_packet`; `none` is the null destination. A failing `sendto` is only printed.
unfoldable pub send_control_packet : Socket → ℕ → ℕ → Option Address → Sent
send_control_packet s flags seq_num none = record {
  packet = control_packet s flags seq_num;
  to = s.destination;
}
send_control_packet s flags seq_num (some address) = record {
  packet = control_packet s flags seq_num;
  to = address;
}

-- `_check_packet_source`: whether the source is another than the peer, and what is sent then.
unfoldable pub check_packet_source : Socket → Address → Bool × List Sent
check_packet_source s source =
    if address_eq source s.destination
    then (false, [])
    else (true, send_control_packet s flag_fin 0 (some source) ∷ [])
