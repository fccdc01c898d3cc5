-- ===== src/Connection/Handshake.antt =====
-- The handshake of a client's `connect` and a server's `accept`.
use Prim.Native.String.{String}
use reliable_udp.Prelude.{
  ℕ, zero, suc, ◌+◌, ◌<◌, ◌≡◌, true, false, Option, none, some, List, [], ◌∷◌, ◌++◌, arith,
  take-all, refl, ap, ◌∙◌, replicate, length,
}
use reliable_udp.Wire.Checksum.{Bytes}
use reliable_udp.Wire.Header.{decode_syn, flag_syn, flag_ack}
use reliable_udp.Network.{Address, Sent, Incoming, Wait, datagram, timed_out, ready, address_eq}
use reliable_udp.Run.{returned, done, prepend}
use reliable_udp.Run.Rules.{run_loop-done, run_loop-again}
use reliable_udp.Socket.{
  Socket, send_control_packet, control_packet, check_packet_source, payload_room, syn_settings,
}
use reliable_udp.Socket.Invariant.{IsValid}
use reliable_udp.Validity.Flags.{check_packet_validity-valid_iff, check_packet_validity-valid}
use reliable_udp.Validity.Control.{Carries, control_packet-Carries, control_packet-settings}
use reliable_udp.Connection.Silence.{connect_head-open, connect_round-timed_out}
use reliable_udp.Connection.{
  establish, aim, connect_round, connect_loop, connect_to, connect, accept_head, accept_round,
  accept_loop, accept,
}

-- A peer's SYN packet, which announces its MTU.
pub record Announces (packet : Bytes) (flags mtu : ℕ) : Type 0 where
  pub carries : Carries packet flags 0
  pub mtu_known : (decode_syn packet).mtu ≡ mtu
  pub short : length packet ≡ 20

pub control_packet-Announces :
    (s : Socket)
    → IsValid s
    → Announces (control_packet s flag_syn 0) flag_syn s.protocol_mtu
      × Announces (control_packet s (flag_syn + flag_ack) 0) (flag_syn + flag_ack) s.protocol_mtu
unfolding syn_settings
control_packet-Announces s v =
    let first = control_packet-settings s flag_syn 0 v refl in
    let second = control_packet-settings s (flag_syn + flag_ack) 0 v refl in
    (
      record {
        carries = control_packet-Carries s flag_syn 0 v (omega arith) (omega arith);
        mtu_known = ap (λ p. p.mtu) first.0;
        short = first.1;
      },
      record {
        carries = control_packet-Carries s (flag_syn + flag_ack) 0 v (omega arith) (omega arith);
        mtu_known = ap (λ p. p.mtu) second.0;
        short = second.1;
      },
    )

-- The sockets that the handshake leaves.
abbrev pub accepted_by : Socket → ℕ → Address → Socket
accepted_by s mtu client = record s { is_connected = true; peers_mtu = mtu; destination = client }

abbrev pub connected_by : Socket → ℕ → Socket
connected_by c mtu = record c { is_connected = true; peers_mtu = mtu }

module _ (s : Socket) (packet : Bytes) (mtu : ℕ) (client : Address) (v : IsValid s)
    (a : Announces packet flag_syn mtu) where
  accept_round-syn :
      accept_round s (datagram packet client)
      ≡ done (record {
        outcome = returned true;
        state = accepted_by s mtu client;
        sent = send_control_packet (accepted_by s mtu client) (flag_syn + flag_ack) 0 none ∷ [];
      })
  unfolding accept_round establish
  accept_round-syn =
      let (form, flags, seq) = a.carries in
      let least = v.mtu_min in
      let short = a.short in
      let whole = take-all s.protocol_mtu packet (omega arith) in
      let ok = (check_packet_validity-valid_iff s packet).2.1 (form, flags) in
      rw (whole, check_packet_validity-valid s packet flag_syn ok, a.mtu_known) refl

  pub accept-syn :
      (rest : List Incoming)
      → s.is_server ≡ true
      → s.is_connected ≡ false
      → accept s (datagram packet client ∷ rest) ≡ record {
        outcome = returned true;
        state = accepted_by s mtu client;
        sent = send_control_packet (accepted_by s mtu client) (flag_syn + flag_ack) 0 none ∷ [];
      }
  unfolding accept accept_loop accept_head
  accept-syn rest listens idle = ground (
    arith,
    listens,
    idle,
    run_loop-done accept_head accept_round (λ s. s) s (datagram packet client) rest refl
        accept_round-syn,
  )

module _ (c : Socket) (packet : Bytes) (mtu : ℕ) (v : IsValid c)
    (a : Announces packet (flag_syn + flag_ack) mtu) where
  connect_round-syn_ack :
      (t : ℕ) (source : Address)
      → address_eq source c.destination ≡ true
      → connect_round (record { socket = c; num_of_tries = t }) (ready (datagram packet source))
        ≡ done (record { outcome = returned true; state = connected_by c mtu; sent = [] })
  unfolding connect_round establish check_packet_source
  connect_round-syn_ack t source peer =
      let (form, flags, seq) = a.carries in
      let least = v.mtu_min in
      let short = a.short in
      let whole = take-all c.protocol_mtu packet (omega arith) in
      let ok = (check_packet_validity-valid_iff c packet).3.1 (form, flags) in
      rw (peer, whole, check_packet_validity-valid c packet (flag_syn + flag_ack) ok, a.mtu_known)
        refl

  abbrev syn : Sent
  syn = send_control_packet c flag_syn 0 none

  connect_loop-syn_ack :
      (lost t : ℕ) (source : Address) (rest : List Wait)
      → t + lost < c.protocol_max_retries
      → address_eq source c.destination ≡ true
      → connect_loop
          (record { socket = c; num_of_tries = t })
          (replicate lost timed_out ++ ready (datagram packet source) ∷ rest)
        ≡ record {
          outcome = returned true;
          state = connected_by c mtu;
          sent = replicate (suc lost) syn;
        }
  unfolding connect_loop
  connect_loop-syn_ack zero t source rest few peer =
      run_loop-done _ _ _ (record { socket = c; num_of_tries = t }) _ rest
        (connect_head-open c t (omega arith)) (connect_round-syn_ack t source peer)
  connect_loop-syn_ack (suc lost) t source rest few peer =
      run_loop-again _ _ _ (record { socket = c; num_of_tries = t })
        (record { socket = c; num_of_tries = t + 1 }) timed_out _
        (connect_head-open c t (omega arith)) (connect_round-timed_out c t)
      ∙ ap (prepend (syn ∷ [])) (connect_loop-syn_ack lost (t + 1) source rest (omega arith) peer)

-- A client that calls `connect`, and a server that calls `accept`: the client is not connected and no
-- server, the server is not connected. Where the client's SYN packet reaches the server as the first
-- datagram, and the server's answer the client after less timeouts than the client's retries, both
-- calls return true; the client has sent a SYN for each timeout and one more, the server one SYN-ACK;
-- each is connected to the other with the other's MTU, and both have the same room for data.
pub handshake :
    (inet_pton : String → Option ℕ) (c s : Socket) (ip : String) (port address lost : ℕ)
    (client source : Address) (waits : List Wait) (incoming : List Incoming)
    → IsValid c
    → IsValid s
    → c.is_server ≡ false
    → c.is_connected ≡ false
    → s.is_server ≡ true
    → s.is_connected ≡ false
    → inet_pton ip ≡ some address
    → address_eq source (aim c port (some address)).destination ≡ true
    → lost < c.protocol_max_retries
    → let aimed = aim c port (some address) in
      let client' = connected_by aimed s.protocol_mtu in
      let server' = accepted_by s c.protocol_mtu client in
      let syn = send_control_packet aimed flag_syn 0 none in
      let syn_ack = send_control_packet server' (flag_syn + flag_ack) 0 none in
      (connect inet_pton c ip port
          (replicate lost timed_out ++ ready (datagram syn_ack.packet source) ∷ waits)
        ≡ record { outcome = returned true; state = client'; sent = replicate (suc lost) syn })
      × (accept s (datagram syn.packet client ∷ incoming)
          ≡ record { outcome = returned true; state = server'; sent = syn_ack ∷ [] })
      × (payload_room client' ≡ payload_room server')
unfolding connect connect_to aim send_control_packet payload_room
handshake inet_pton c s ip port address lost client source waits incoming vc vs not_server c_idle
      listens s_idle known peer few =
    let aimed = aim c port (some address) in
    let aimed_valid : IsValid aimed = ground arith in
    let server' = accepted_by s c.protocol_mtu client in
    let server_valid : IsValid server' = ground arith in
    let answer = (control_packet-Announces server' server_valid).1 in
    let request = (control_packet-Announces aimed aimed_valid).0 in
    (
      ground (
        arith,
        known,
        connect_loop-syn_ack aimed (control_packet server' (flag_syn + flag_ack) 0) s.protocol_mtu
            aimed_valid answer lost 0 source waits,
      ),
      accept-syn s (control_packet aimed flag_syn 0) c.protocol_mtu client vs request incoming
          listens s_idle,
      ground arith,
    )
