-- ===== src/RudpSocket.antt =====
-- The class `RUDP_Socket` of src/rudp_lib_cpp_wrap.cpp. Its only member points to a `RUDP_Socket_p` that it
-- owns, from its constructor to its destructor, so an object is that socket here.
use Prim.Native.String.{String}
use reliable_udp.Prelude.{ℕ, Bool, Option, List, ℤ}
use reliable_udp.Wire.Checksum.{Bytes}
use reliable_udp.Network.{Address, Incoming, Wait, Attempt}
use reliable_udp.Run.{Run, Outcome}
use reliable_udp.Socket as Socket
use reliable_udp.Connection as Connection
use reliable_udp.Transfer.Send as Send
use reliable_udp.Transfer.Receive as Receive
use reliable_udp.Api as Api

abbrev pub Self : Type 0
Self = Socket.Socket

abbrev pub construct : Socket.Config → Socket.Setup → Address → Outcome Self
construct c os memory = (Socket.construct c os memory).outcome

abbrev pub destroy : Self → List Wait → Api.Freed
destroy self waits = Api.destroy self waits

abbrev pub connect : (String → Option ℕ) → Self → String → ℕ → List Wait → Run Self Bool
connect inet_pton self dest_ip dest_port waits =
    Connection.connect inet_pton self dest_ip dest_port waits

abbrev pub accept : Self → List Incoming → Run Self Bool
accept self incoming = Connection.accept self incoming

abbrev pub recv : Self → Option Bytes → ℕ → List Incoming → List Wait → Run Receive.Memory ℤ
recv self buffer buffer_size incoming waits = Receive.recv self buffer buffer_size incoming waits

abbrev pub send : Self → Option Bytes → ℕ → List Attempt → Run Self ℤ
send self buffer buffer_size attempts = Send.send self buffer buffer_size attempts

abbrev pub disconnect : Self → List Wait → Run Self Bool
disconnect self waits = Connection.disconnect self waits

abbrev pub get_mtu : Self → ℕ
get_mtu self = Socket.get_mtu self

abbrev pub get_timeout : Self → ℕ
get_timeout self = Socket.get_timeout self

abbrev pub get_max_retries : Self → ℕ
get_max_retries self = Socket.get_max_retries self

abbrev pub get_peers_mtu : Self → Outcome ℕ
get_peers_mtu self = Socket.get_peers_mtu self

abbrev pub is_debug_mode : Self → Bool
is_debug_mode self = self.debug_mode

abbrev pub is_connected : Self → Bool
is_connected self = self.is_connected

abbrev pub is_server : Self → Bool
is_server self = self.is_server

abbrev pub set_debug_mode : Bool → Self → Socket.Setting
set_debug_mode debug_mode self = Socket.set_debug_mode debug_mode self

abbrev pub set_mtu : ℕ → Self → Socket.Setting
set_mtu mtu self = Socket.set_mtu mtu self

abbrev pub set_timeout : ℕ → Self → Socket.Setting
set_timeout timeout self = Socket.set_timeout timeout self

abbrev pub set_max_retries : ℕ → Self → Socket.Setting
set_max_retries max_retries self = Socket.set_max_retries max_retries self

abbrev pub force_use_own_mtu : Self → Socket.Setting
force_use_own_mtu self = Socket.force_use_own_mtu self
