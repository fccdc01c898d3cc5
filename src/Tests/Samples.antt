-- ===== src/Tests/Samples.antt =====
-- A client and a server on one host, and a message of ten bytes for packets of eight.
use Prim.Native.String.{String}
use reliable_udp.Prelude.{Option, some, ℕ, Bool, true, false, [], ◌∷◌, arith, refl}
use reliable_udp.Wire.Checksum.{Bytes}
use reliable_udp.Network.{Address, af_inet}
use reliable_udp.Socket.{Config, Setup, Socket, payload_room}
use reliable_udp.Socket.Invariant.{IsValid}
use reliable_udp.Transfer.Packets.{IsReady}
use reliable_udp.Transfer.Receive.Script.{CanTake}

abbrev pub loopback : ℕ → Address
loopback port = record {
  sin_family = af_inet;
  sin_port = port;
  sin_addr = 0x7f00_0001;
  sin_zero = 0;
}

abbrev pub client_address : Address
client_address = loopback 40000

abbrev pub server_address : Address
server_address = loopback 8080

abbrev pub peer_socket : Bool → Bool → Address → Socket
peer_socket server connected destination = record {
  socket_handle = 3;
  is_server = server;
  is_connected = connected;
  debug_mode = false;
  destination = destination;
  protocol_mtu = 20;
  protocol_timeout = 100;
  protocol_max_retries = 3;
  peers_mtu = 20;
}

-- Connected to one another.
abbrev pub client : Socket
client = peer_socket false true server_address

abbrev pub server : Socket
server = peer_socket true true client_address

-- Not connected yet.
abbrev pub new_client : Socket
new_client = peer_socket false false client_address

abbrev pub new_server : Socket
new_server = peer_socket true false server_address

pub peer_socket-IsValid : (b c : Bool) (a : Address) → IsValid (peer_socket b c a)
peer_socket-IsValid b c a = omega arith

abbrev pub text : Bytes
text = 1 ∷ 2 ∷ 3 ∷ 4 ∷ 5 ∷ 6 ∷ 7 ∷ 8 ∷ 9 ∷ 10 ∷ []

abbrev pub blank : Bytes
blank = 0 ∷ 0 ∷ 0 ∷ 0 ∷ 0 ∷ 0 ∷ 0 ∷ 0 ∷ 0 ∷ 0 ∷ 0 ∷ 0 ∷ []

pub text-IsReady : IsReady client text
text-IsReady = record {
  valid = peer_socket-IsValid false true server_address;
  connected = refl;
  size_fits = omega arith;
}

pub text-CanTake : CanTake client server text blank
unfolding payload_room
text-CanTake = record {
  sender = text-IsReady;
  valid = peer_socket-IsValid true true client_address;
  connected = refl;
  one_room = refl;
  enough = omega arith;
  below = omega arith;
}

-- Every text is read as the local host's address.
abbrev pub local_host : String → Option ℕ
local_host ip = some 0x7f00_0001

abbrev pub config : Config
config = record {
  is_server = true;
  listen_port = 8080;
  mtu = 1458;
  timeout = 100;
  max_retries = 50;
  debug_mode = false;
}

abbrev pub setup : Setup
setup = record { socket = some 3; bind = λ port. true; setsockopt = true }
