-- ===== src/Connection/Session.antt =====
-- `connect`, `accept` and `disconnect` as steps of the state machine of a connection.
use Prim.Native.String.{String}
use reliable_udp.Prelude.{
  ℕ, ◌+◌, ◌≡◌, ap, ltb, Bool, true, false, Option, none, some, List, [], ◌∷◌, ◌++◌, arith, refl,
  sym, take, if_holds,
}
use reliable_udp.Wire.Checksum.{Bytes}
use reliable_udp.Wire.Header.{flag_syn, flag_ack, flag_fin}
use reliable_udp.Network.{
  Address, Sent, Incoming, Wait, recv_error, datagram, poll_error, timed_out, ready,
}
use reliable_udp.Run.{Outcome}
use reliable_udp.Run.Rules.{Anything, All-Anything, Ends, HeadKeeps, RoundKeeps, run_loop_inv}
use reliable_udp.Socket.{Socket, check_packet_source, send_control_packet}
use reliable_udp.Validity.{Check, Verdict, valid, invalid, closed, fault, check_packet_validity}
use reliable_udp.Validity.Flags.{check_packet_validity-Leaves}
use reliable_udp.Connection.{
  Call, Tries, establish, aim, connect_head, connect_switch, connect_round, connect_loop,
  connect_to, connect, accept_head, accept_switch, accept_round, accept_loop, accept, forget,
  disconnect_head, disconnect_switch, disconnect_round, disconnect_loop, disconnect,
}
use reliable_udp.Session.Checks.{unchanged, Stands, check_packet_validity-Stands}
use reliable_udp.Session.Spec.{
  Method, Reply, idle, connecting, accepting, disconnecting, phase, bool_reply, Allowed, Follows,
}

-- A socket in some role, without a connection.
abbrev IsIdle : Bool → Socket → Type 0
IsIdle server s = (s.is_server ≡ server) × (s.is_connected ≡ false)

checked-IsIdle :
    (server : Bool) (s : Socket) (packet : Bytes) (expected : ℕ)
    → IsIdle server s
    → IsIdle server (check_packet_validity s packet expected).socket
checked-IsIdle server s packet expected h =
    ground (arith, check_packet_validity-Leaves s packet expected)

-- A run of a method is a step of the machine.
abbrev FollowsRun : Method → Socket → Call → Type 0
FollowsRun m s r = Follows m (bool_reply r.outcome) s r.state

-- What a call of `connect` on an idle client comes to.
abbrev Connects : Outcome Bool → Socket → Type 0
Connects o s = (s.is_server ≡ false) × Allowed false connecting (bool_reply o) idle (phase s)

abbrev IdleTries : Tries → Type 0
IdleTries t = IsIdle false t.socket

idle-phase : (s : Socket) → s.is_connected ≡ false → phase s ≡ idle
idle-phase s h = rw h refl

connect_head-Connects :
    (t : Tries) → IdleTries t → HeadKeeps IdleTries Connects Anything t.socket (connect_head t)
unfolding connect_head
connect_head-Connects t h = ground (arith, idle-phase t.socket h.1)

connect_switch-Connects :
    (n : ℕ) (packet : Bytes) (c : Check)
    → IsIdle false c.socket
    → RoundKeeps IdleTries Connects Anything (connect_switch n packet c)
unfolding connect_switch establish
connect_switch-Connects n packet c h = ground (arith, All-Anything c.sent, idle-phase c.socket h.1)

connect_round-Connects :
    (t : Tries) (w : Wait)
    → IdleTries t
    → RoundKeeps IdleTries Connects Anything (connect_round t w)
unfolding connect_round
connect_round-Connects t poll_error h = ((h.0, idle-phase t.socket h.1), tt)
connect_round-Connects t timed_out h = (h, tt)
connect_round-Connects t (ready recv_error) h = ((h.0, idle-phase t.socket h.1), tt)
connect_round-Connects t (ready (datagram bytes source)) h =
    let packet = take t.socket.protocol_mtu bytes in
    let c = check_packet_validity t.socket packet (flag_syn + flag_ack) in
    ground (
      arith,
      All-Anything (check_packet_source t.socket source).1,
      connect_switch-Connects t.num_of_tries packet c (checked-IsIdle false t.socket packet _ h),
    )

connect_to-Connects :
    (s : Socket) (port : ℕ) (ip : Option ℕ) (ws : List Wait)
    → IsIdle false s
    → Ends Connects Anything (connect_to s port ip ws)
unfolding connect_to connect_loop aim
connect_to-Connects s port none ws h = ((h.0, idle-phase (aim s port none) h.1), tt)
connect_to-Connects s port (some ip) ws h =
    run_loop_inv _ _ _ IdleTries Connects Anything connect_head-Connects connect_round-Connects ws _
      h

-- From what holds of the state behind a call, to the step of the machine.
Connects-Follows :
    (s : Socket) (r : Call)
    → IsIdle false s
    → Connects r.outcome r.state
    → FollowsRun connecting s r
Connects-Follows s r h k = rw (h.0, h.1) k

pub connect-Follows :
    (inet_pton : String → Option ℕ) (s : Socket) (ip : String) (port : ℕ) (ws : List Wait)
    → Follows connecting
        (bool_reply (connect inet_pton s ip port ws).outcome)
        s
        (connect inet_pton s ip port ws).state
unfolding connect
connect-Follows inet_pton s ip port ws =
    if_holds (FollowsRun connecting s) s.is_server _ _ (λ e. (refl, refl))
      (λ e.
        if_holds (FollowsRun connecting s) s.is_connected _ _ (λ c. (refl, refl))
          (λ c.
            let h : IsIdle false s = (e, c) in
            Connects-Follows s (connect_to s port (inet_pton ip) ws) h
              (connect_to-Connects s port (inet_pton ip) ws h).0))

-- What a call of `accept` on an idle server comes to.
abbrev Accepts : Outcome Bool → Socket → Type 0
Accepts o s = (s.is_server ≡ true) × Allowed true accepting (bool_reply o) idle (phase s)

accept_round-Accepts :
    (s : Socket) (w : Incoming)
    → IsIdle true s
    → RoundKeeps (IsIdle true) Accepts Anything (accept_round s w)
unfolding accept_round accept_switch establish
accept_round-Accepts s recv_error h = ((h.0, idle-phase s h.1), tt)
accept_round-Accepts s (datagram bytes source) h =
    let packet = take s.protocol_mtu bytes in
    let c = check_packet_validity s packet flag_syn in
    let kept = checked-IsIdle true s packet flag_syn h in
    let answer = λ (s' : Socket) (flags : ℕ) (to : Option Address).
      All-Anything (c.sent ++ send_control_packet s' flags 0 to ∷ []) in
    ground (
      arith,
      All-Anything c.sent,
      idle-phase c.socket kept.1,
      answer c.socket (flag_fin + flag_ack) (some source),
      answer (record (establish c.socket packet) { destination = source }) (flag_syn + flag_ack)
          none,
    )

accept_loop-Accepts :
    (s : Socket) (ws : List Incoming) → IsIdle true s → Ends Accepts Anything (accept_loop s ws)
unfolding accept_loop accept_head
accept_loop-Accepts s ws h =
    run_loop_inv _ _ _ (IsIdle true) Accepts Anything (λ s v. ((v.0, idle-phase s v.1), tt))
      accept_round-Accepts ws s h

Accepts-Follows :
    (s : Socket) (r : Call) → IsIdle true s → Accepts r.outcome r.state → FollowsRun accepting s r
Accepts-Follows s r h k = rw (h.0, h.1) k

pub accept-Follows :
    (s : Socket) (ws : List Incoming)
    → Follows accepting (bool_reply (accept s ws).outcome) s (accept s ws).state
unfolding accept
accept-Follows s ws =
    if_holds (FollowsRun accepting s) s.is_server _ _
      (λ e.
        if_holds (FollowsRun accepting s) s.is_connected _ _ (λ c. (refl, refl))
          (λ c.
            let h : IsIdle true s = (e, c) in
            Accepts-Follows s (accept_loop s ws) h (accept_loop-Accepts s ws h).0))
      (λ e. (refl, refl))

-- What a call of `disconnect` on a connected socket comes to.
abbrev Disconnects : Socket → Outcome Bool → Socket → Type 0
Disconnects s o s' = Follows disconnecting (bool_reply o) s s'

abbrev SameSocket : Socket → Tries → Type 0
SameSocket s t = t.socket ≡ s

module _ (s : Socket) (joined : s.is_connected ≡ true) where
  forget-Disconnects :
      (s' : Socket) → s'.is_server ≡ s.is_server → Follows disconnecting Reply.yes s (forget s')
  unfolding forget
  forget-Disconnects s' h = rw (h, joined) (refl, (tt, refl))

  disconnect_head-Disconnects :
      (t : Tries)
      → t.socket ≡ s
      → HeadKeeps (SameSocket s) (Disconnects s) Anything t.socket (disconnect_head t)
  unfolding disconnect_head
  disconnect_head-Disconnects t h =
      if_holds (HeadKeeps (SameSocket s) (Disconnects s) Anything t.socket)
        (ltb t.num_of_tries t.socket.protocol_max_retries) _ _
        (λ e. (unchanged s t.socket h, (tt, tt)))
        (λ e. (forget-Disconnects t.socket (ap (λ s. s.is_server) h), tt))

  disconnect_switch-Disconnects :
      (n : ℕ) (v : Verdict) (s' : Socket) (out : List Sent)
      → Stands s (record { verdict = v; socket = s'; sent = out })
      → RoundKeeps
          (SameSocket s)
          (Disconnects s)
          Anything
          (disconnect_switch n (record { verdict = v; socket = s'; sent = out }))
  unfolding disconnect_switch
  disconnect_switch-Disconnects n invalid s' out h = (h.0 (λ e. absurd cc), All-Anything out)
  disconnect_switch-Disconnects n closed s' out h =
      (forget-Disconnects s' (ground (arith, h.1)), All-Anything out)
  disconnect_switch-Disconnects n valid s' out h =
      (forget-Disconnects s' (ground (arith, h.1)), All-Anything out)
  disconnect_switch-Disconnects n fault s' out h =
      (unchanged s s' (h.0 (λ e. absurd cc)), All-Anything out)

  disconnect_round-Disconnects :
      (t : Tries) (w : Wait)
      → t.socket ≡ s
      → RoundKeeps (SameSocket s) (Disconnects s) Anything (disconnect_round t w)
  unfolding disconnect_round
  disconnect_round-Disconnects t poll_error h = (unchanged s t.socket h, tt)
  disconnect_round-Disconnects t timed_out h = (h, tt)
  disconnect_round-Disconnects t (ready recv_error) h = (unchanged s t.socket h, tt)
  disconnect_round-Disconnects t (ready (datagram bytes source)) h =
      let (foreign, reply) = check_packet_source t.socket source in
      let packet = take t.socket.protocol_mtu bytes in
      if_holds (RoundKeeps (SameSocket s) (Disconnects s) Anything) foreign _ _
        (λ e. (h, All-Anything reply))
        (λ e.
          disconnect_switch-Disconnects t.num_of_tries _ _ _
            (rw (sym h) (check_packet_validity-Stands t.socket packet (flag_fin + flag_ack))))

  disconnect_loop-Disconnects :
      (ws : List Wait)
      → Ends (Disconnects s) Anything (disconnect_loop (record { socket = s; num_of_tries = 0 }) ws)
  unfolding disconnect_loop
  disconnect_loop-Disconnects ws =
      run_loop_inv _ _ _ (SameSocket s) (Disconnects s) Anything disconnect_head-Disconnects
        disconnect_round-Disconnects ws _ refl

pub disconnect-Follows :
    (s : Socket) (ws : List Wait)
    → Follows disconnecting (bool_reply (disconnect s ws).outcome) s (disconnect s ws).state
unfolding disconnect
disconnect-Follows s ws =
    if_holds (FollowsRun disconnecting s) s.is_connected _ _
      (λ c. (disconnect_loop-Disconnects s c ws).0) (λ c. (refl, refl))
