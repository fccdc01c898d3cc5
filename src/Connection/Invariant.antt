-- ===== src/Connection/Invariant.antt =====
-- `connect`, `accept` and `disconnect` keep the socket valid, and send well-formed packets alone.
use Prim.Native.String.{String}
use reliable_udp.Prelude.{
  ℕ, ◌+◌, ◌^◌, ◌<◌, ◌≡◌, inl, true, Bool, Option, none, some, List, [], ◌∷◌, arith, take,
}
use reliable_udp.Wire.Checksum.{Bytes}
use reliable_udp.Wire.Header.{decode_syn, flag_syn, flag_ack, flag_fin}
use reliable_udp.Network.{
  Address, Incoming, Wait, recv_error, datagram, poll_error, timed_out, ready,
}
use reliable_udp.Run.{Run, Head, Round}
use reliable_udp.Run.Rules.{All, All-append, Ends, HeadKeeps, RoundKeeps, run_loop_inv}
use reliable_udp.Socket.{Socket, send_control_packet}
use reliable_udp.Socket.Invariant.{IsValid, Safe}
use reliable_udp.Validity.{Check, valid, fault, check_packet_validity}
use reliable_udp.Validity.Form.{IsAcceptable, well_formed-acceptable}
use reliable_udp.Validity.Flags.{check_packet_validity-valid_iff, check_packet_validity-fault}
use reliable_udp.Validity.Control.{
  WellSent, send_control_packet-WellSent, check_packet_source-WellSent, check_packet_validity-keeps,
}
use reliable_udp.Connection.{
  Tries, establish, connect_head, connect_switch, connect_round, connect_loop, connect_to, connect,
  aim, accept_head, accept_switch, accept_round, accept_loop, accept, disconnect_head,
  disconnect_switch, disconnect_round, disconnect_loop, disconnect,
}

-- A call ends safely, and every packet that it sent is well-formed.
abbrev pub Keeps : Run Socket Bool → Type 0
Keeps = Ends Safe WellSent

abbrev KeepsHead : Tries → Head Socket Bool → Type 0
KeepsHead t = HeadKeeps (λ (t : Tries). IsValid t.socket) Safe WellSent t.socket

abbrev KeepsRound : Round Tries Socket Bool → Type 0
KeepsRound = RoundKeeps (λ (t : Tries). IsValid t.socket) Safe WellSent

connect_head-keeps : (t : Tries) → IsValid t.socket → KeepsHead t (connect_head t)
unfolding connect_head
connect_head-keeps t v =
    ground
      (arith, send_control_packet-WellSent t.socket flag_syn 0 none v (omega arith) (omega arith))

-- The peer's settings are acceptable where its SYN packet was found valid.
syn_ack_settings :
    (s : Socket) (packet : Bytes)
    → (check_packet_validity s packet (flag_syn + flag_ack)).verdict ≡ valid
    → IsAcceptable (decode_syn packet)
syn_ack_settings s packet h =
    let (w, f) = (check_packet_validity-valid_iff s packet).3.0 h in
    well_formed-acceptable packet w (ground arith)

syn_settings :
    (s : Socket) (packet : Bytes)
    → (check_packet_validity s packet flag_syn).verdict ≡ valid
    → IsAcceptable (decode_syn packet)
syn_settings s packet h =
    let (w, f) = (check_packet_validity-valid_iff s packet).2.0 h in
    well_formed-acceptable packet w (ground arith)

establish-IsValid :
    (s : Socket) (packet : Bytes)
    → IsValid s
    → IsAcceptable (decode_syn packet)
    → IsValid (establish s packet)
unfolding establish
establish-IsValid s packet v a = ground arith

connect_switch-keeps :
    (n : ℕ) (packet : Bytes) (c : Check)
    → IsValid c.socket
    → All WellSent c.sent
    → (c.verdict ≡ fault → c.socket.debug_mode ≡ true)
    → (c.verdict ≡ valid → IsAcceptable (decode_syn packet))
    → KeepsRound (connect_switch n packet c)
unfolding connect_switch
connect_switch-keeps n packet c v a broken ok = ground (arith, establish-IsValid c.socket packet v)

connect_round-keeps : (t : Tries) (w : Wait) → IsValid t.socket → KeepsRound (connect_round t w)
unfolding connect_round
connect_round-keeps t poll_error v = ((v, inl (λ e. cc)), tt)
connect_round-keeps t timed_out v = (v, tt)
connect_round-keeps t (ready recv_error) v = ((v, inl (λ e. cc)), tt)
connect_round-keeps t (ready (datagram bytes source)) v =
    let packet = take t.socket.protocol_mtu bytes in
    let kept = check_packet_validity-keeps t.socket packet (flag_syn + flag_ack) v in
    let on_packet =
      connect_switch-keeps t.num_of_tries packet
        (check_packet_validity t.socket packet (flag_syn + flag_ack)) kept.0 kept.1
        (check_packet_validity-fault t.socket packet (flag_syn + flag_ack) (omega arith)
          (omega arith))
        (syn_ack_settings t.socket packet) in
    ground (arith, check_packet_source-WellSent t.socket source v, on_packet)

aim-IsValid : (s : Socket) (port : ℕ) (ip : Option ℕ) → IsValid s → IsValid (aim s port ip)
unfolding aim
aim-IsValid s port none v = ground arith
aim-IsValid s port (some ip) v = ground arith

connect_loop-Keeps : (t : Tries) (ws : List Wait) → IsValid t.socket → Keeps (connect_loop t ws)
unfolding connect_loop
connect_loop-Keeps t ws v =
    run_loop_inv _ _ _ (λ (t : Tries). IsValid t.socket) Safe WellSent connect_head-keeps
      connect_round-keeps ws t v

connect_to-Keeps :
    (s : Socket) (port : ℕ) (ip : Option ℕ) (ws : List Wait)
    → IsValid s
    → Keeps (connect_to s port ip ws)
unfolding connect_to
connect_to-Keeps s port none ws v = ((aim-IsValid s port none v, inl (λ e. cc)), tt)
connect_to-Keeps s port (some ip) ws v = connect_loop-Keeps _ ws (aim-IsValid s port (some ip) v)

-- However `connect` ends, on a valid socket and any answers of the operating system, it leaves a valid
-- socket, each packet that it sent has the right form, and it does nothing undefined but in the debug
-- mode.
pub connect-Keeps :
    (inet_pton : String → Option ℕ) (s : Socket) (ip : String) (port : ℕ) (ws : List Wait)
    → IsValid s
    → Keeps (connect inet_pton s ip port ws)
unfolding connect
connect-Keeps inet_pton s ip port ws v = ground (arith, connect_to-Keeps s port (inet_pton ip) ws v)

accept_switch-keeps :
    (packet : Bytes) (source : Address) (c : Check)
    → IsValid c.socket
    → All WellSent c.sent
    → (c.verdict ≡ fault → c.socket.debug_mode ≡ true)
    → (c.verdict ≡ valid → IsAcceptable (decode_syn packet))
    → RoundKeeps IsValid Safe WellSent (accept_switch packet source c)
unfolding accept_switch
accept_switch-keeps packet source c v a broken ok =
    let s = record (establish c.socket packet) { destination = source } in
    let replied =
      λ (s : Socket) (flags : ℕ) (to : Option Address) (v : IsValid s) (fits : flags < 2 ^ 8).
        All-append WellSent c.sent (send_control_packet s flags 0 to ∷ []) a
          (send_control_packet-WellSent s flags 0 to v fits (omega arith), tt) in
    ground (
      arith,
      establish-IsValid c.socket packet v,
      replied c.socket (flag_fin + flag_ack) (some source) v (omega arith),
      λ (v' : IsValid s). replied s (flag_syn + flag_ack) none v' (omega arith),
    )

accept_round-keeps :
    (s : Socket) (w : Incoming) → IsValid s → RoundKeeps IsValid Safe WellSent (accept_round s w)
unfolding accept_round
accept_round-keeps s recv_error v = ((v, inl (λ e. cc)), tt)
accept_round-keeps s (datagram bytes source) v =
    let packet = take s.protocol_mtu bytes in
    let kept = check_packet_validity-keeps s packet flag_syn v in
    accept_switch-keeps packet source (check_packet_validity s packet flag_syn) kept.0 kept.1
      (check_packet_validity-fault s packet flag_syn (omega arith) (omega arith))
      (syn_settings s packet)

accept_loop-Keeps : (s : Socket) (ws : List Incoming) → IsValid s → Keeps (accept_loop s ws)
unfolding accept_loop accept_head
accept_loop-Keeps s ws v =
    run_loop_inv _ _ _ IsValid Safe WellSent (λ s v. ((v, inl (λ e. cc)), tt)) accept_round-keeps ws
      s v

-- However `accept` ends, on a valid socket and any answers of the operating system, it leaves a valid
-- socket, each packet that it sent has the right form, and it does nothing undefined but in the debug
-- mode.
pub accept-Keeps : (s : Socket) (ws : List Incoming) → IsValid s → Keeps (accept s ws)
unfolding accept
accept-Keeps s ws v = ground (arith, accept_loop-Keeps s ws v)

disconnect_head-keeps : (t : Tries) → IsValid t.socket → KeepsHead t (disconnect_head t)
unfolding disconnect_head
disconnect_head-keeps t v =
    ground
      (arith, send_control_packet-WellSent t.socket flag_fin 0 none v (omega arith) (omega arith))

disconnect_switch-keeps :
    (n : ℕ) (c : Check)
    → IsValid c.socket
    → All WellSent c.sent
    → (c.verdict ≡ fault → c.socket.debug_mode ≡ true)
    → KeepsRound (disconnect_switch n c)
unfolding disconnect_switch
disconnect_switch-keeps n c v a broken = ground arith

disconnect_round-keeps :
    (t : Tries) (w : Wait) → IsValid t.socket → KeepsRound (disconnect_round t w)
unfolding disconnect_round
disconnect_round-keeps t poll_error v = ((v, inl (λ e. cc)), tt)
disconnect_round-keeps t timed_out v = (v, tt)
disconnect_round-keeps t (ready recv_error) v = ((v, inl (λ e. cc)), tt)
disconnect_round-keeps t (ready (datagram bytes source)) v =
    let packet = take t.socket.protocol_mtu bytes in
    let c = check_packet_validity t.socket packet (flag_fin + flag_ack) in
    let kept = check_packet_validity-keeps t.socket packet (flag_fin + flag_ack) v in
    ground (
      arith,
      check_packet_source-WellSent t.socket source v,
      disconnect_switch-keeps t.num_of_tries c kept.0 kept.1 (
          check_packet_validity-fault t.socket packet (flag_fin + flag_ack) (omega arith)
            (omega arith)),
    )

disconnect_loop-Keeps :
    (t : Tries) (ws : List Wait) → IsValid t.socket → Keeps (disconnect_loop t ws)
unfolding disconnect_loop
disconnect_loop-Keeps t ws v =
    run_loop_inv _ _ _ (λ (t : Tries). IsValid t.socket) Safe WellSent disconnect_head-keeps
      disconnect_round-keeps ws t v

-- However `disconnect` ends, on a valid socket and any answers of the operating system, it leaves a
-- valid socket, each packet that it sent has the right form, and it does nothing undefined but in the
-- debug mode.
pub disconnect-Keeps : (s : Socket) (ws : List Wait) → IsValid s → Keeps (disconnect s ws)
unfolding disconnect
disconnect-Keeps s ws v =
    ground (arith, disconnect_loop-Keeps (record { socket = s; num_of_tries = 0 }) ws v)
