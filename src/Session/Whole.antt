-- ===== src/Session/Whole.antt =====
-- A whole session of a client and a server: they connect, the client sends a message, and hangs up.
use Prim.Native.String.{String}
use reliable_udp.Prelude.{
  ℕ, suc, ◌+◌, ◌^◌, ◌<◌, ◌≤◌, ◌≡◌, true, false, Option, none, some, List, [], ◌∷◌, ◌++◌, arith,
  refl, replicate, length, drop, pos, signed32,
}
use reliable_udp.Wire.Checksum.{Bytes}
use reliable_udp.Wire.Header.{flag_syn, flag_ack, flag_fin}
use reliable_udp.Network.{Address, Incoming, Wait, datagram, timed_out, ready, address_eq}
use reliable_udp.Run.{returned}
use reliable_udp.Socket.{Socket, send_control_packet, payload_room}
use reliable_udp.Socket.Invariant.{IsValid}
use reliable_udp.Connection.{aim, connect, accept, forget, disconnect}
use reliable_udp.Connection.Handshake.{connected_by, accepted_by, handshake}
use reliable_udp.Transfer.Packets.{last}
use reliable_udp.Transfer.Send.{send}
use reliable_udp.Transfer.Receive.{recv}
use reliable_udp.Transfer.Receive.Script.{CanTake}
use reliable_udp.Transfer.Link.{
  Fate, Start, answers, first_arrival, later_arrivals, packets_sent, acks_sent,
}
use reliable_udp.Transfer.Exchange.{exchange}
use reliable_udp.Session.Farewell.{farewell}

-- A client and a server, neither connected, a text that is read as the server's address, and a message
-- that the server's buffer has room for.
pub record CanMeet (inet_pton : String → Option ℕ) (c s : Socket) (ip : String) (address : ℕ)
    (message old : Bytes) : Type 0 where
  pub client_valid : IsValid c
  pub server_valid : IsValid s
  pub client_role : c.is_server ≡ false
  pub client_idle : c.is_connected ≡ false
  pub server_role : s.is_server ≡ true
  pub server_idle : s.is_connected ≡ false
  pub known : inet_pton ip ≡ some address
  pub enough : length message ≤ length old
  pub below : length old < 2 ^ 31

-- The two sockets once they are connected.
abbrev pub client_of : Socket → Socket → ℕ → ℕ → Socket
client_of c s port address = connected_by (aim c port (some address)) s.protocol_mtu

abbrev pub server_of : Socket → Socket → Address → Socket
server_of c s client = accepted_by s c.protocol_mtu client

address_eq_refl : (a : Address) → address_eq a a ≡ true
unfolding address_eq
address_eq_refl a = ground arith

module _ (inet_pton : String → Option ℕ) (c s : Socket) (ip : String) (port address : ℕ)
    (message old : Bytes) (m : CanMeet inet_pton c s ip address message old) where
  client_of-IsValid : IsValid (client_of c s port address)
  unfolding aim
  client_of-IsValid = let a = m.client_valid in let b = m.server_valid.mtu_min in ground arith

  server_of-IsValid : (client : Address) → IsValid (server_of c s client)
  server_of-IsValid client =
      let a = m.server_valid in let b = m.client_valid.mtu_min in ground arith

  rooms :
      (client : Address)
      → payload_room (server_of c s client) ≡ payload_room (client_of c s port address)
  unfolding payload_room aim
  rooms client = ground arith

  takes :
      (client : Address) → CanTake (client_of c s port address) (server_of c s client) message old
  takes client = record {
    sender = record {
      valid = client_of-IsValid;
      connected = refl;
      size_fits = let a = m.enough in let b = m.below in omega arith;
    };
    valid = server_of-IsValid client;
    connected = refl;
    one_room = rooms client;
    enough = m.enough;
    below = m.below;
  }

-- A session of six calls, each on the socket that the one before left, on the two ends of a network that
-- loses and damages packets. A client calls `connect`, `send` with a message, and `disconnect`; the server
-- calls `accept`, `recv` for the message, and `recv` again. Both sockets are valid and not connected, the
-- client's address is one that `inet_pton` knows, and the message fits in the server's buffer, which is
-- shorter than 2 ^ 31 bytes. What each side
-- gets is what the other side sends: the first SYN and FIN that arrive do so as the first datagram, and
-- their answers come back after less timeouts than the client's retries; of the packets and the
-- acknowledgements, less are lost or damaged in a row than each side has tries, and never the last acknowledgement.
-- Then all six calls return: `connect`, `accept` and `disconnect` return true, `send` and the first
-- `recv` the message's length, the second `recv` 0; `recv` has sent an acknowledgement for each packet
-- that arrived undamaged and nothing for a damaged one; the message is at the start of the server's buffer,
-- whose rest is as it was; and in the end neither side is connected.
pub session :
    (inet_pton : String → Option ℕ) (c s : Socket) (ip : String) (port address : ℕ)
    (message old : Bytes) (client server : Address) (lost lost' : ℕ) (fates : List Fate)
    (waits waits' later : List Wait) (incoming incoming' : List Incoming)
    → CanMeet inet_pton c s ip address message old
    → address_eq server (client_of c s port address).destination ≡ true
    → lost < c.protocol_max_retries
    → lost' < c.protocol_max_retries
    → Start
        (client_of c s port address)
        (server_of c s client)
        (last (client_of c s port address) message)
        0
        0
        fates
    → let c' = client_of c s port address in
      let s' = server_of c s client in
      let syn = send_control_packet (aim c port (some address)) flag_syn 0 none in
      let syn_ack = send_control_packet s' (flag_syn + flag_ack) 0 none in
      let packets = packets_sent c' message 0 fates in
      let acks = acks_sent s' 0 fates in
      let fin = send_control_packet c' flag_fin 0 none in
      let fin_ack = send_control_packet s' (flag_fin + flag_ack) 0 none in
      let received = message ++ drop (length message) old in
      (connect inet_pton c ip port
          (replicate lost timed_out ++ ready (datagram syn_ack.packet server) ∷ waits)
        ≡ record { outcome = returned true; state = c'; sent = replicate (suc lost) syn })
      × (accept s (datagram syn.packet client ∷ incoming)
          ≡ record { outcome = returned true; state = s'; sent = syn_ack ∷ [] })
      × (send c' (some message) (length message) (answers server fates acks)
          ≡ record { outcome = returned (signed32 (length message)); state = c'; sent = packets })
      × (recv s'
            (some old)
            (length old)
            (first_arrival client fates packets)
            (later_arrivals client fates packets)
          ≡ record {
            outcome = returned (signed32 (length message));
            state = record { socket = s'; buffer = received };
            sent = acks;
          })
      × (disconnect c'
            (replicate lost' timed_out ++ ready (datagram fin_ack.packet server) ∷ waits')
          ≡ record { outcome = returned true; state = forget c'; sent = replicate (suc lost') fin })
      × (recv s' (some received) (length old) (datagram fin.packet client ∷ incoming') later
          ≡ record {
            outcome = returned (pos 0);
            state = record { socket = record s' { is_connected = false }; buffer = received };
            sent = fin_ack ∷ [];
          })
unfolding aim
session inet_pton c s ip port address message old client server lost lost' fates waits waits' later
      incoming incoming' m peer few few' l =
    let c' = client_of c s port address in
    let s' = server_of c s client in
    let opened =
      handshake inet_pton c s ip port address lost client server waits incoming m.client_valid
        m.server_valid m.client_role m.client_idle m.server_role m.server_idle m.known peer few in
    let moved =
      exchange c' s' message old client server fates
        (takes inet_pton c s ip port address message old m client) (address_eq_refl client) peer
        l in
    let closed =
      farewell c' s' client server (message ++ drop (length message) old) (length old) lost' waits'
        incoming' later (client_of-IsValid inet_pton c s ip port address message old m)
        (server_of-IsValid inet_pton c s ip port address message old m client) refl refl
        (address_eq_refl client) peer few' in
    (opened.0, opened.1, moved.0, moved.1, closed.0, closed.1)
