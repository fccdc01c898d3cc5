-- ===== src/Connection/Termination.antt =====
-- `connect`, `accept` and `disconnect` end.
use Prim.Native.String.{String}
use reliable_udp.Prelude.{
  ℕ, ◌+◌, ◌-◌, ◌≤◌, ◌<◌, ◌≡◌, ◌≢◌, Bool, Option, none, some, List, arith, take, refl, if◌then◌else◌,
  ◌&&◌, ◌==◌,
}
use reliable_udp.Wire.Checksum.{Bytes}
use reliable_udp.Wire.Header.{decode_header, flag_syn, flag_ack, flag_fin}
use reliable_udp.Network.{
  Address, Incoming, Wait, recv_error, datagram, poll_error, timed_out, ready, address_eq,
}
use reliable_udp.Run.{Round, waiting}
use reliable_udp.Run.Rules.{HeadEnds, RoundEnds, total_cost, run_loop_ends}
use reliable_udp.Socket.{Socket, check_packet_source}
use reliable_udp.Validity.{Check, valid, check_packet_validity, well_formed}
use reliable_udp.Validity.Flags.{check_packet_validity-valid_iff, check_packet_validity-Leaves}
use reliable_udp.Connection.{
  Tries, connect_head, connect_round, connect_loop, connect_to, connect, aim, accept_head,
  accept_switch, accept_round, accept_loop, accept, disconnect_head, disconnect_round,
  disconnect_loop, disconnect,
}

-- A datagram of another sender than the peer does not count as a try; all else does.
abbrev pub counts_in : Address → Incoming → ℕ
counts_in peer recv_error = 1
counts_in peer (datagram bytes source) = if address_eq source peer then 1 else 0

abbrev pub counts : Address → Wait → ℕ
counts peer poll_error = 1
counts peer timed_out = 1
counts peer (ready incoming) = counts_in peer incoming

-- What the loops over the tries leave alone: the destination and the number of tries.
abbrev pub Same : Address → ℕ → Socket → Type 0
Same peer max s = (s.destination ≡ peer) × (s.protocol_max_retries ≡ max)

abbrev pub tries_left : Tries → ℕ
tries_left t = t.socket.protocol_max_retries - t.num_of_tries

pub check-Same :
    (peer : Address) (max : ℕ) (s : Socket) (packet : Bytes) (expected : ℕ)
    → Same peer max s
    → Same peer max (check_packet_validity s packet expected).socket
check-Same peer max s packet expected h =
    ground (arith, check_packet_validity-Leaves s packet expected)

module _ (peer : Address) (max : ℕ) where
  connect_head-ends :
      (t : Tries) → Same peer max t.socket → HeadEnds (0 < tries_left t) (connect_head t)
  unfolding connect_head
  connect_head-ends t h = ground arith

  disconnect_head-ends :
      (t : Tries) → Same peer max t.socket → HeadEnds (0 < tries_left t) (disconnect_head t)
  unfolding disconnect_head
  disconnect_head-ends t h = ground arith

  abbrev RoundFalls : Tries → Wait → Round Tries Socket Bool → Type 0
  RoundFalls t w =
      RoundEnds (λ (t : Tries). Same peer max t.socket) tries_left (tries_left t) (counts peer w)

  connect_round-ends :
      (t : Tries) (w : Wait)
      → Same peer max t.socket
      → 0 < tries_left t
      → RoundFalls t w (connect_round t w)
  unfolding connect_round check_packet_source
  connect_round-ends t poll_error h left = λ e. cc
  connect_round-ends t timed_out h left = (h, omega arith)
  connect_round-ends t (ready recv_error) h left = λ e. cc
  connect_round-ends t (ready (datagram bytes source)) h left = ground (
    arith,
    check-Same peer max t.socket (take t.socket.protocol_mtu bytes) (flag_syn + flag_ack) h,
  )

  disconnect_round-ends :
      (t : Tries) (w : Wait)
      → Same peer max t.socket
      → 0 < tries_left t
      → RoundFalls t w (disconnect_round t w)
  unfolding disconnect_round check_packet_source
  disconnect_round-ends t poll_error h left = λ e. cc
  disconnect_round-ends t timed_out h left = (h, omega arith)
  disconnect_round-ends t (ready recv_error) h left = λ e. cc
  disconnect_round-ends t (ready (datagram bytes source)) h left = ground (
    arith,
    check-Same peer max t.socket (take t.socket.protocol_mtu bytes) (flag_fin + flag_ack) h,
  )

connect_loop-ends :
    (t : Tries) (ws : List Wait)
    → tries_left t ≤ total_cost (counts t.socket.destination) ws
    → (connect_loop t ws).outcome ≢ waiting
unfolding connect_loop
connect_loop-ends t ws h =
    let peer = t.socket.destination in
    let max = t.socket.protocol_max_retries in
    run_loop_ends _ _ _ (λ (t : Tries). Same peer max t.socket) tries_left (counts peer)
      (connect_head-ends peer max) (connect_round-ends peer max) ws t (refl, refl) h

disconnect_loop-ends :
    (t : Tries) (ws : List Wait)
    → tries_left t ≤ total_cost (counts t.socket.destination) ws
    → (disconnect_loop t ws).outcome ≢ waiting
unfolding disconnect_loop
disconnect_loop-ends t ws h =
    let peer = t.socket.destination in
    let max = t.socket.protocol_max_retries in
    run_loop_ends _ _ _ (λ (t : Tries). Same peer max t.socket) tries_left (counts peer)
      (disconnect_head-ends peer max) (disconnect_round-ends peer max) ws t (refl, refl) h

connect_to-ends :
    (s : Socket) (port : ℕ) (ip : Option ℕ) (ws : List Wait)
    → s.protocol_max_retries ≤ total_cost (counts (aim s port ip).destination) ws
    → (connect_to s port ip ws).outcome ≢ waiting
unfolding connect_to aim
connect_to-ends s port none ws h = λ e. cc
connect_to-ends s port (some ip) ws h = connect_loop-ends _ ws (omega arith)

-- `connect` ends, once the answers hold as many as its maximal number of retries that count as a try:
-- all but datagrams from other addresses than the one it connects to.
pub connect-ends :
    (inet_pton : String → Option ℕ) (s : Socket) (ip : String) (port : ℕ) (ws : List Wait)
    → s.protocol_max_retries ≤ total_cost (counts (aim s port (inet_pton ip)).destination) ws
    → (connect inet_pton s ip port ws).outcome ≢ waiting
unfolding connect
connect-ends inet_pton s ip port ws h = ground (arith, connect_to-ends s port (inet_pton ip) ws h)

-- `disconnect` ends, once the answers hold as many as its maximal number of retries that count as a
-- try: all but datagrams from other addresses than the peer's.
pub disconnect-ends :
    (s : Socket) (ws : List Wait)
    → s.protocol_max_retries ≤ total_cost (counts s.destination) ws
    → (disconnect s ws).outcome ≢ waiting
unfolding disconnect
disconnect-ends s ws h =
    ground (arith, disconnect_loop-ends (record { socket = s; num_of_tries = 0 }) ws (omega arith))

-- A failing `recvfrom`, or a well-formed SYN packet once it is cut to the socket's MTU.
abbrev pub concludes : ℕ → Incoming → ℕ
concludes mtu recv_error = 1
concludes mtu (datagram bytes source) =
    if well_formed (take mtu bytes) && (decode_header (take mtu bytes)).flags == flag_syn
    then 1
    else 0

check-mtu :
    (mtu : ℕ) (s : Socket) (packet : Bytes) (expected : ℕ)
    → s.protocol_mtu ≡ mtu
    → (check_packet_validity s packet expected).socket.protocol_mtu ≡ mtu
check-mtu mtu s packet expected h = ground (arith, check_packet_validity-Leaves s packet expected)

module _ (mtu : ℕ) where
  accept_switch-ends :
      (packet : Bytes) (source : Address) (c : Check) (cost : ℕ)
      → c.socket.protocol_mtu ≡ mtu
      → (c.verdict ≢ valid → cost ≡ 0)
      → RoundEnds
          (λ (s : Socket). s.protocol_mtu ≡ mtu)
          (λ s. 1)
          1
          cost
          (accept_switch packet source c)
  unfolding accept_switch
  accept_switch-ends packet source c cost h low = ground arith

  accept_round-ends :
      (s : Socket) (w : Incoming)
      → s.protocol_mtu ≡ mtu
      → 0 < 1
      → RoundEnds
          (λ (s : Socket). s.protocol_mtu ≡ mtu)
          (λ s. 1)
          1
          (concludes mtu w)
          (accept_round s w)
  unfolding accept_round
  accept_round-ends s recv_error h left = λ e. cc
  accept_round-ends s (datagram bytes source) h left =
      let packet = take s.protocol_mtu bytes in
      let c = check_packet_validity s packet flag_syn in
      let admits = (check_packet_validity-valid_iff s packet).2 in
      accept_switch-ends packet source c (concludes mtu (datagram bytes source))
        (check-mtu mtu s packet flag_syn h) (λ refused. ground (arith, admits.1))

  accept_loop-ends :
      (s : Socket) (ws : List Incoming)
      → s.protocol_mtu ≡ mtu
      → 1 ≤ total_cost (concludes mtu) ws
      → (accept_loop s ws).outcome ≢ waiting
  unfolding accept_loop accept_head
  accept_loop-ends s ws h enough =
      run_loop_ends _ _ _ (λ (s : Socket). s.protocol_mtu ≡ mtu) (λ s. 1) (concludes mtu)
        (λ s h. omega arith) accept_round-ends ws s h enough

-- `accept` ends, once a receive fails or a well-formed SYN packet arrives.
pub accept-ends :
    (s : Socket) (ws : List Incoming)
    → 1 ≤ total_cost (concludes s.protocol_mtu) ws
    → (accept s ws).outcome ≢ waiting
unfolding accept
accept-ends s ws h = ground (arith, accept_loop-ends s.protocol_mtu s ws refl h)
