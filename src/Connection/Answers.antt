-- ===== src/Connection/Answers.antt =====
-- What the returned value of `connect`, `accept` and `disconnect` says of the socket.
use Prim.Native.String.{String}
use reliable_udp.Prelude.{
  ℕ, ◌+◌, ◌≡◌, Bool, true, false, Option, none, some, List, [], ◌∷◌, arith, sym, take, ◌++◌,
}
use reliable_udp.Wire.Checksum.{Bytes}
use reliable_udp.Wire.Header.{flag_syn, flag_ack, flag_fin}
use reliable_udp.Network.{
  Address, Incoming, Wait, recv_error, datagram, poll_error, timed_out, ready, zero_address,
}
use reliable_udp.Run.{Outcome, returned, threw, waiting, undefined}
use reliable_udp.Run.Rules.{Anything, All-Anything, Ends, HeadKeeps, RoundKeeps, run_loop_inv}
use reliable_udp.Socket.{Socket, check_packet_source, send_control_packet}
use reliable_udp.Validity.{Check, check_packet_validity}
use reliable_udp.Validity.Flags.{check_packet_validity-Leaves}
use reliable_udp.Connection.{
  Tries, establish, aim, connect_head, connect_switch, connect_round, connect_loop, connect_to,
  connect, accept_head, accept_switch, accept_round, accept_loop, accept, forget, disconnect_head,
  disconnect_switch, disconnect_round, disconnect_loop, disconnect,
}

-- A statement on a returned value and the socket behind it.
abbrev Reports : (Bool → Socket → Type 0) → Outcome Bool → Socket → Type 0
Reports P (returned b) s = P b s
Reports P (threw e) s = Unit
Reports P waiting s = Unit
Reports P undefined s = Unit

says :
    (P : Bool → Socket → Type 0) (o : Outcome Bool) (s : Socket) (b : Bool)
    → Reports P o s
    → o ≡ returned b
    → P b s
says P (returned a) s b h e = let same : a ≡ b = cc in rw (sym same) h
says P (threw x) s b h e = absurd cc
says P waiting s b h e = absurd cc
says P undefined s b h e = absurd cc

-- `connect`: the socket is connected exactly where true is returned.
abbrev Connected : Bool → Socket → Type 0
Connected b s = s.is_connected ≡ b

abbrev IsIdle : Tries → Type 0
IsIdle t = t.socket.is_connected ≡ false

connect_head-says :
    (t : Tries) → IsIdle t → HeadKeeps IsIdle (Reports Connected) Anything t.socket (connect_head t)
unfolding connect_head
connect_head-says t h = ground arith

connect_switch-says :
    (n : ℕ) (packet : Bytes) (c : Check)
    → c.socket.is_connected ≡ false
    → RoundKeeps IsIdle (Reports Connected) Anything (connect_switch n packet c)
unfolding connect_switch establish
connect_switch-says n packet c h = ground (arith, All-Anything c.sent)

connect_round-says :
    (t : Tries) (w : Wait)
    → IsIdle t
    → RoundKeeps IsIdle (Reports Connected) Anything (connect_round t w)
unfolding connect_round
connect_round-says t poll_error h = (tt, tt)
connect_round-says t timed_out h = (h, tt)
connect_round-says t (ready recv_error) h = (tt, tt)
connect_round-says t (ready (datagram bytes source)) h =
    let packet = take t.socket.protocol_mtu bytes in
    let c = check_packet_validity t.socket packet (flag_syn + flag_ack) in
    let left = check_packet_validity-Leaves t.socket packet (flag_syn + flag_ack) in
    let idle : c.socket.is_connected ≡ false = ground arith in
    ground (
      arith,
      All-Anything (check_packet_source t.socket source).1,
      connect_switch-says t.num_of_tries packet c idle,
    )

connect_to-says :
    (s : Socket) (port : ℕ) (ip : Option ℕ) (ws : List Wait)
    → s.is_connected ≡ false
    → Ends (Reports Connected) Anything (connect_to s port ip ws)
unfolding connect_to connect_loop aim
connect_to-says s port none ws h = (tt, tt)
connect_to-says s port (some ip) ws h =
    run_loop_inv _ _ _ IsIdle (Reports Connected) Anything connect_head-says connect_round-says ws _
      h

connect-says :
    (inet_pton : String → Option ℕ) (s : Socket) (ip : String) (port : ℕ) (ws : List Wait)
    → Ends (Reports Connected) Anything (connect inet_pton s ip port ws)
unfolding connect
connect-says inet_pton s ip port ws = ground (arith, connect_to-says s port (inet_pton ip) ws)

-- Where `connect` returns, the socket is connected exactly if it returns true.
pub connect-answers :
    (inet_pton : String → Option ℕ) (s : Socket) (ip : String) (port : ℕ) (ws : List Wait)
    (b : Bool)
    → (connect inet_pton s ip port ws).outcome ≡ returned b
    → (connect inet_pton s ip port ws).state.is_connected ≡ b
connect-answers inet_pton s ip port ws b e =
    says Connected _ _ b (connect-says inet_pton s ip port ws).0 e

-- `accept`: true alone is returned, and the socket is connected.
abbrev Accepted : Bool → Socket → Type 0
Accepted b s = (b ≡ true) × (s.is_connected ≡ true)

accept_round-says :
    (s : Socket) (w : Incoming)
    → RoundKeeps (λ s. Unit {0}) (Reports Accepted) Anything (accept_round s w)
unfolding accept_round accept_switch establish
accept_round-says s recv_error = (tt, tt)
accept_round-says s (datagram bytes source) =
    let packet = take s.protocol_mtu bytes in
    let c = check_packet_validity s packet flag_syn in
    let answer = λ (s' : Socket) (flags : ℕ) (to : Option Address).
      All-Anything (c.sent ++ send_control_packet s' flags 0 to ∷ []) in
    ground (
      arith,
      All-Anything c.sent,
      answer c.socket (flag_fin + flag_ack) (some source),
      answer (record (establish c.socket packet) { destination = source }) (flag_syn + flag_ack)
          none,
    )

accept_loop-says :
    (s : Socket) (ws : List Incoming) → Ends (Reports Accepted) Anything (accept_loop s ws)
unfolding accept_loop accept_head
accept_loop-says s ws =
    run_loop_inv _ _ _ (λ s. Unit {0}) (Reports Accepted) Anything (λ s v. (tt, tt))
      (λ s w v. accept_round-says s w) ws s tt

accept-says : (s : Socket) (ws : List Incoming) → Ends (Reports Accepted) Anything (accept s ws)
unfolding accept
accept-says s ws = ground (arith, accept_loop-says s ws)

-- `accept` returns nothing but true, and then the socket is connected.
pub accept-answers :
    (s : Socket) (ws : List Incoming) (b : Bool)
    → (accept s ws).outcome ≡ returned b
    → (b ≡ true) × ((accept s ws).state.is_connected ≡ true)
accept-answers s ws b e = says Accepted _ _ b (accept-says s ws).0 e

-- `disconnect`: true alone is returned, and the peer is forgotten.
abbrev Forgotten : Bool → Socket → Type 0
Forgotten b s = (b ≡ true) × (s.is_connected ≡ false) × (s.destination ≡ zero_address)

abbrev AnyTries : Tries → Type 0
AnyTries t = Unit

disconnect_head-says :
    (t : Tries) → HeadKeeps AnyTries (Reports Forgotten) Anything t.socket (disconnect_head t)
unfolding disconnect_head forget
disconnect_head-says t = ground arith

disconnect_switch-says :
    (n : ℕ) (c : Check) → RoundKeeps AnyTries (Reports Forgotten) Anything (disconnect_switch n c)
unfolding disconnect_switch forget
disconnect_switch-says n c = ground (arith, All-Anything c.sent)

disconnect_round-says :
    (t : Tries) (w : Wait) → RoundKeeps AnyTries (Reports Forgotten) Anything (disconnect_round t w)
unfolding disconnect_round
disconnect_round-says t poll_error = (tt, tt)
disconnect_round-says t timed_out = (tt, tt)
disconnect_round-says t (ready recv_error) = (tt, tt)
disconnect_round-says t (ready (datagram bytes source)) =
    let packet = take t.socket.protocol_mtu bytes in
    let c = check_packet_validity t.socket packet (flag_fin + flag_ack) in
    ground (
      arith,
      All-Anything (check_packet_source t.socket source).1,
      disconnect_switch-says t.num_of_tries c,
    )

disconnect-says :
    (s : Socket) (ws : List Wait) → Ends (Reports Forgotten) Anything (disconnect s ws)
unfolding disconnect disconnect_loop
disconnect-says s ws = ground (
  arith,
  run_loop_inv disconnect_head disconnect_round (λ (t : Tries). t.socket) AnyTries
      (Reports Forgotten) Anything (λ t v. disconnect_head-says t)
      (λ t w v. disconnect_round-says t w) ws (record { socket = s; num_of_tries = 0 }) tt,
)

-- `disconnect` returns nothing but true, and then the socket is not connected and its destination is
-- cleared.
pub disconnect-answers :
    (s : Socket) (ws : List Wait) (b : Bool)
    → (disconnect s ws).outcome ≡ returned b
    → (b ≡ true)
      × ((disconnect s ws).state.is_connected ≡ false)
      × ((disconnect s ws).state.destination ≡ zero_address)
disconnect-answers s ws b e = says Forgotten _ _ b (disconnect-says s ws).0 e
