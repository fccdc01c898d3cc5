-- ===== src/Connection/Closing.antt =====
-- `disconnect` where the peer answers.
use reliable_udp.Prelude.{
  ℕ, zero, suc, ◌+◌, ◌<◌, ◌≡◌, true, none, List, [], ◌∷◌, ◌++◌, arith, refl, ap, ◌∙◌, replicate,
  take-all, length,
}
use reliable_udp.Wire.Checksum.{Bytes}
use reliable_udp.Wire.Header.{flag_ack, flag_fin}
use reliable_udp.Network.{Address, Wait, datagram, timed_out, ready, address_eq}
use reliable_udp.Run.{returned, done, prepend}
use reliable_udp.Run.Rules.{run_loop-done, run_loop-again}
use reliable_udp.Socket.{Socket, check_packet_source, send_control_packet}
use reliable_udp.Socket.Invariant.{IsValid}
use reliable_udp.Validity.Control.{Carries}
use reliable_udp.Validity.Closing.{check_packet_validity-fin_ack}
use reliable_udp.Connection.Silence.{disconnect_head-open, disconnect_round-timed_out}
use reliable_udp.Connection.{forget, disconnect_round, disconnect_loop, disconnect}

module _ (c : Socket) (packet : Bytes) (source : Address) (v : IsValid c)
    (a : Carries packet (flag_fin + flag_ack) 0) (short : length packet ≡ 12)
    (peer : address_eq source c.destination ≡ true) where
  disconnect_round-fin_ack :
      (t : ℕ)
      → disconnect_round (record { socket = c; num_of_tries = t }) (ready (datagram packet source))
        ≡ done (record { outcome = returned true; state = forget c; sent = [] })
  unfolding disconnect_round forget check_packet_source
  disconnect_round-fin_ack t =
      let least = v.mtu_min in
      let whole = take-all c.protocol_mtu packet (omega arith) in
      rw (peer, whole, check_packet_validity-fin_ack c packet a) refl

  disconnect_loop-fin_ack :
      (lost t : ℕ) (rest : List Wait)
      → t + lost < c.protocol_max_retries
      → disconnect_loop
          (record { socket = c; num_of_tries = t })
          (replicate lost timed_out ++ ready (datagram packet source) ∷ rest)
        ≡ record {
          outcome = returned true;
          state = forget c;
          sent = replicate (suc lost) (send_control_packet c flag_fin 0 none);
        }
  unfolding disconnect_loop
  disconnect_loop-fin_ack zero t rest few =
      run_loop-done _ _ _ (record { socket = c; num_of_tries = t }) _ rest
        (disconnect_head-open c t (omega arith)) (disconnect_round-fin_ack t)
  disconnect_loop-fin_ack (suc lost) t rest few =
      run_loop-again _ _ _ (record { socket = c; num_of_tries = t })
        (record { socket = c; num_of_tries = t + 1 }) timed_out _
        (disconnect_head-open c t (omega arith)) (disconnect_round-timed_out c t)
      ∙ ap (prepend (send_control_packet c flag_fin 0 none ∷ []))
          (disconnect_loop-fin_ack lost (t + 1) rest (omega arith))

  pub disconnect-fin_ack :
      (lost : ℕ) (rest : List Wait)
      → c.is_connected ≡ true
      → lost < c.protocol_max_retries
      → disconnect c (replicate lost timed_out ++ ready (datagram packet source) ∷ rest) ≡ record {
        outcome = returned true;
        state = forget c;
        sent = replicate (suc lost) (send_control_packet c flag_fin 0 none);
      }
  unfolding disconnect
  disconnect-fin_ack lost rest connected few =
      ground (arith, connected, disconnect_loop-fin_ack lost 0 rest (omega arith))
