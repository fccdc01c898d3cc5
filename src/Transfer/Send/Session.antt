-- ===== src/Transfer/Send/Session.antt =====
-- `send` as a step of the state machine of a connection.
use reliable_udp.Prelude.{
  ℕ, ◌≡◌, true, refl, arith, sym, ◌∙◌, ltb, ◌==◌, ◌+◌, Option, none, some, List, take, ℤ, if_holds,
}
use reliable_udp.Wire.Checksum.{Bytes}
use reliable_udp.Wire.Header.{flag_ack, header_size}
use reliable_udp.Network.{
  Sent, Attempt, Wait, recv_error, datagram, poll_error, timed_out, ready, send_error, accepted,
}
use reliable_udp.Run.{Round}
use reliable_udp.Run.Rules.{Anything, All-Anything, Ends, HeadKeeps, RoundKeeps, run_loop_inv}
use reliable_udp.Socket.{Socket, payload_room, check_packet_source}
use reliable_udp.Validity.{Verdict, valid, invalid, closed, fault}
use reliable_udp.Session.Spec.{sending, count_reply, Follows, TransferEnds}
use reliable_udp.Session.Checks.{
  Stands, check_packet_validity-Stands, unchanged, count-TransferEnds, closed-TransferEnds,
}
use reliable_udp.Transfer.Send.{
  Call, Message, Sending, chunk_size, acknowledge, send_head, send_switch, send_response, send_wait,
  send_round, send_loop, start_sending, message, send_buffer, send,
}

module _ (s : Socket) (joined : s.is_connected ≡ true) (m : Message) where
  abbrev SameSocket : Sending → Type 0
  SameSocket st = st.socket ≡ s

  abbrev StepRound : Round Sending Socket ℤ → Type 0
  StepRound = RoundKeeps SameSocket (TransferEnds s) Anything

  send_head-steps :
      (st : Sending)
      → st.socket ≡ s
      → HeadKeeps SameSocket (TransferEnds s) Anything st.socket (send_head m st)
  unfolding send_head
  send_head-steps st h =
      let Q = HeadKeeps SameSocket (TransferEnds s) Anything st.socket in
      if_holds Q (ltb st.i m.expected_packets) _ _
        (λ e.
          if_holds Q (ltb st.socket.protocol_mtu (header_size + chunk_size m st)) _ _
            (λ e. (unchanged s st.socket h, tt))
            (λ e.
              if_holds Q (st.num_of_tries == st.socket.protocol_max_retries) _ _
                (λ e. (unchanged s st.socket h, tt)) (λ e. (unchanged s st.socket h, (tt, tt)))))
        (λ e. (count-TransferEnds s st.socket joined _ h, tt))

  acknowledge-same : (st : Sending) (ack : ℕ) → (acknowledge m st ack).socket ≡ st.socket
  unfolding acknowledge
  acknowledge-same st ack = ground arith

  send_switch-steps :
      (st : Sending) (packet : Bytes) (v : Verdict) (s' : Socket) (out : List Sent)
      → Stands s (record { verdict = v; socket = s'; sent = out })
      → StepRound (send_switch m st packet (record { verdict = v; socket = s'; sent = out }))
  unfolding send_switch
  send_switch-steps st packet invalid s' out h = (h.0 (λ e. absurd cc), All-Anything out)
  send_switch-steps st packet closed s' out h =
      (closed-TransferEnds s s' joined h.1, All-Anything out)
  send_switch-steps st packet valid s' out h =
      (acknowledge-same (record st { socket = s' }) _ ∙ h.0 (λ e. absurd cc), All-Anything out)
  send_switch-steps st packet fault s' out h =
      (unchanged s s' (h.0 (λ e. absurd cc)), All-Anything out)

  send_wait-steps : (st : Sending) (w : Wait) → st.socket ≡ s → StepRound (send_wait m st w)
  unfolding send_wait send_response
  send_wait-steps st poll_error h = (unchanged s st.socket h, tt)
  send_wait-steps st timed_out h = (h, tt)
  send_wait-steps st (ready recv_error) h = (unchanged s st.socket h, tt)
  send_wait-steps st (ready (datagram bytes source)) h =
      let (foreign, reply) = check_packet_source st.socket source in
      let packet = take st.socket.protocol_mtu bytes in
      if_holds StepRound foreign _ _ (λ e. (h, All-Anything reply))
        (λ e.
          send_switch-steps st packet _ _ _
            (rw (sym h) (check_packet_validity-Stands st.socket packet flag_ack)))

  send_round-steps : (st : Sending) (w : Attempt) → st.socket ≡ s → StepRound (send_round m st w)
  unfolding send_round
  send_round-steps st send_error h = (unchanged s st.socket h, tt)
  send_round-steps st (accepted w) h = send_wait-steps st w h

  send_loop-steps :
      (st : Sending) (ws : List Attempt)
      → st.socket ≡ s
      → Ends (TransferEnds s) Anything (send_loop m st ws)
  unfolding send_loop
  send_loop-steps st ws h =
      run_loop_inv _ _ _ SameSocket (TransferEnds s) Anything send_head-steps send_round-steps ws st
        h

abbrev StepRun : Socket → Call → Type 0
StepRun s r = TransferEnds s r.outcome r.state

send_buffer-steps :
    (s : Socket) (buffer : Option Bytes) (size : ℕ) (ws : List Attempt)
    → s.is_connected ≡ true
    → StepRun s (send_buffer s buffer size ws)
unfolding send_buffer start_sending
send_buffer-steps s none size ws h = unchanged s s refl
send_buffer-steps s (some buffer) size ws h =
    if_holds (StepRun s) (payload_room s == 0) _ _ (λ e. unchanged s s refl)
      (λ e. (send_loop-steps s h (message s buffer size) (start_sending s) ws refl).0)

pub send-Follows :
    (s : Socket) (buffer : Option Bytes) (size : ℕ) (ws : List Attempt)
    → Follows sending (count_reply (send s buffer size ws).outcome) s (send s buffer size ws).state
unfolding send
send-Follows s buffer size ws =
    if_holds (StepRun s) s.is_connected _ _ (send_buffer-steps s buffer size ws)
      (λ e. unchanged s s refl)
