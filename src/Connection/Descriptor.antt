-- ===== src/Connection/Descriptor.antt =====
-- `disconnect` keeps the descriptor and the debug mode.
use reliable_udp.Prelude.{ℕ, ◌+◌, ◌≡◌, Bool, List, arith, refl, take}
use reliable_udp.Wire.Header.{flag_fin, flag_ack}
use reliable_udp.Network.{Wait, recv_error, datagram, poll_error, timed_out, ready}
use reliable_udp.Run.{Outcome}
use reliable_udp.Run.Rules.{Anything, All-Anything, Ends, HeadKeeps, RoundKeeps, run_loop_inv}
use reliable_udp.Socket.{Socket, check_packet_source}
use reliable_udp.Validity.{Check, check_packet_validity}
use reliable_udp.Validity.Flags.{check_packet_validity-Leaves}
use reliable_udp.Connection.{
  Tries, forget, disconnect_head, disconnect_switch, disconnect_round, disconnect_loop, disconnect,
}

module _ (handle : ℕ) (debug : Bool) where
  abbrev Same : {A : Type 0} → Outcome A → Socket → Type 0
  Same o s = (s.socket_handle ≡ handle) × (s.debug_mode ≡ debug)

  abbrev SameTries : Tries → Type 0
  SameTries t = (t.socket.socket_handle ≡ handle) × (t.socket.debug_mode ≡ debug)

  disconnect_head-keeps :
      (t : Tries) → SameTries t → HeadKeeps SameTries Same Anything t.socket (disconnect_head t)
  unfolding disconnect_head forget
  disconnect_head-keeps t h = ground arith

  disconnect_switch-keeps :
      (n : ℕ) (c : Check)
      → (c.socket.socket_handle ≡ handle) × (c.socket.debug_mode ≡ debug)
      → RoundKeeps SameTries Same Anything (disconnect_switch n c)
  unfolding disconnect_switch forget
  disconnect_switch-keeps n c h = ground (arith, All-Anything c.sent)

  disconnect_round-keeps :
      (t : Tries) (w : Wait)
      → SameTries t
      → RoundKeeps SameTries Same Anything (disconnect_round t w)
  unfolding disconnect_round
  disconnect_round-keeps t poll_error h = (h, tt)
  disconnect_round-keeps t timed_out h = (h, tt)
  disconnect_round-keeps t (ready recv_error) h = (h, tt)
  disconnect_round-keeps t (ready (datagram bytes source)) h =
      let packet = take t.socket.protocol_mtu bytes in
      let c = check_packet_validity t.socket packet (flag_fin + flag_ack) in
      let left = check_packet_validity-Leaves t.socket packet (flag_fin + flag_ack) in
      let same : (c.socket.socket_handle ≡ handle) × (c.socket.debug_mode ≡ debug) = ground arith in
      ground (
        arith,
        All-Anything (check_packet_source t.socket source).1,
        disconnect_switch-keeps t.num_of_tries c same,
      )

  disconnect_loop-keeps :
      (t : Tries) (ws : List Wait) → SameTries t → Ends Same Anything (disconnect_loop t ws)
  unfolding disconnect_loop
  disconnect_loop-keeps t ws h =
      run_loop_inv _ _ _ SameTries Same Anything disconnect_head-keeps disconnect_round-keeps ws t h

pub disconnect-handle :
    (s : Socket) (ws : List Wait)
    → ((disconnect s ws).state.socket_handle ≡ s.socket_handle)
      × ((disconnect s ws).state.debug_mode ≡ s.debug_mode)
unfolding disconnect
disconnect-handle s ws = ground (
  arith,
  disconnect_loop-keeps s.socket_handle s.debug_mode (record { socket = s; num_of_tries = 0 }) ws
      (refl, refl),
)
