-- ===== src/Transfer/Receive/Session.antt =====
-- `recv` as a step of the state machine of a connection.
use reliable_udp.Prelude.{
  ℕ, ◌+◌, ◌^◌, ◌%◌, ◌≡◌, true, refl, sym, ◌==◌, not, Option, none, some, List, take, length, ◌-◌,
  ◌++◌, ℤ, pos, signed32, if_holds,
}
use reliable_udp.Wire.Checksum.{Bytes}
use reliable_udp.Wire.Header.{Header, flag_psh, flag_set, flag_last, header_size, decode_header}
use reliable_udp.Network.{Sent, Wait, Incoming, recv_error, datagram, poll_error, timed_out, ready}
use reliable_udp.Run.{Outcome, Round, returned, threw, waiting, undefined, done, again}
use reliable_udp.Run.Rules.{Anything, All-Anything, Ends, HeadKeeps, RoundKeeps, run_loop_inv}
use reliable_udp.Socket.{Socket, check_packet_source}
use reliable_udp.Validity.{Verdict, valid, invalid, closed, fault}
use reliable_udp.Connection.{Tries}
use reliable_udp.Session.Spec.{receiving, count_reply, Follows, TransferEnds}
use reliable_udp.Session.Checks.{
  Stands, check_packet_validity-Stands, unchanged, count-TransferEnds, closed-TransferEnds,
}
use reliable_udp.Transfer.Receive.{
  Call, Memory, Receiving, first_head, first_switch, first_round, first_loop, recv_head, signed_gt,
  copy_payload, place, fit, deliver, recv_packet, resend, recv_switch, recv_incoming, recv_round,
  recv_loop, after_first, recv_first, continue_recv, recv_buffer, recv,
}

module _ (s : Socket) (joined : s.is_connected ≡ true) where
  -- The first loop: with a packet, or without an answer, the socket is as it was.
  abbrev FirstEnds : Outcome (Option Bytes) → Socket → Type 0
  FirstEnds (returned none) s' = TransferEnds s (returned (pos 0)) s'
  FirstEnds (returned (some packet)) s' = s' ≡ s
  FirstEnds (threw e) s' = s' ≡ s
  FirstEnds waiting s' = s' ≡ s
  FirstEnds undefined s' = s' ≡ s

  abbrev SameTries : Tries → Type 0
  SameTries t = t.socket ≡ s

  first_head-steps :
      (t : Tries) → t.socket ≡ s → HeadKeeps SameTries FirstEnds Anything t.socket (first_head t)
  unfolding first_head
  first_head-steps t h =
      if_holds (HeadKeeps SameTries FirstEnds Anything t.socket)
        (t.num_of_tries == t.socket.protocol_max_retries) _ _ (λ e. (h, tt)) (λ e. (h, tt))

  first_switch-steps :
      (n : ℕ) (packet : Bytes) (v : Verdict) (s' : Socket) (out : List Sent)
      → Stands s (record { verdict = v; socket = s'; sent = out })
      → RoundKeeps SameTries FirstEnds Anything
          (first_switch n packet (record { verdict = v; socket = s'; sent = out }))
  unfolding first_switch
  first_switch-steps n packet invalid s' out h = (h.0 (λ e. absurd cc), All-Anything out)
  first_switch-steps n packet closed s' out h =
      (closed-TransferEnds s s' joined h.1, All-Anything out)
  first_switch-steps n packet valid s' out h = (h.0 (λ e. absurd cc), All-Anything out)
  first_switch-steps n packet fault s' out h = (h.0 (λ e. absurd cc), All-Anything out)

  first_round-steps :
      (t : Tries) (w : Incoming)
      → t.socket ≡ s
      → RoundKeeps SameTries FirstEnds Anything (first_round t w)
  unfolding first_round
  first_round-steps t recv_error h = (h, tt)
  first_round-steps t (datagram bytes source) h =
      let (foreign, reply) = check_packet_source t.socket source in
      let packet = take t.socket.protocol_mtu bytes in
      if_holds (RoundKeeps SameTries FirstEnds Anything) foreign _ _ (λ e. (h, All-Anything reply))
        (λ e.
          first_switch-steps t.num_of_tries packet _ _ _
            (rw (sym h) (check_packet_validity-Stands t.socket packet flag_psh)))

  first_loop-steps :
      (ws : List Incoming)
      → Ends FirstEnds Anything (first_loop (record { socket = s; num_of_tries = 0 }) ws)
  unfolding first_loop
  first_loop-steps ws =
      run_loop_inv _ _ _ SameTries FirstEnds Anything first_head-steps first_round-steps ws _ refl

  -- The second loop.
  abbrev CallEnds : Outcome ℤ → Memory → Type 0
  CallEnds o m = TransferEnds s o m.socket

  abbrev SameSocket : Receiving → Type 0
  SameSocket st = st.socket ≡ s

  abbrev StepRound : Round Receiving Memory ℤ → Type 0
  StepRound = RoundKeeps SameSocket CallEnds Anything

  recv_head-steps :
      (st : Receiving)
      → st.socket ≡ s
      → HeadKeeps SameSocket CallEnds Anything
          (record { socket = st.socket; buffer = st.buffer })
          (recv_head st)
  unfolding recv_head
  recv_head-steps st h =
      if_holds
        (HeadKeeps SameSocket CallEnds Anything (record { socket = st.socket; buffer = st.buffer }))
        (st.num_of_tries == st.socket.protocol_max_retries) _ _ (λ e. (unchanged s st.socket h, tt))
        (λ e. (unchanged s st.socket h, tt))

  deliver-steps :
      (size : ℕ) (st : Receiving) (header : Header) (copied : Option Bytes)
      → st.socket ≡ s
      → StepRound (deliver size st header copied)
  unfolding deliver
  deliver-steps size st header none h = (unchanged s st.socket h, tt)
  deliver-steps size st header (some b) h =
      let total = (st.total_bytes + header.length) % 2 ^ 32 in
      let counted = count-TransferEnds s st.socket joined (signed32 total) h in
      if_holds StepRound (flag_set header.flags flag_last) _ _ (λ e. (counted, (tt, tt)))
        (λ e.
          if_holds StepRound (signed_gt total size) _ _ (λ e. (counted, (tt, tt)))
            (λ e. (h, (tt, tt))))

  recv_packet-steps :
      (size : ℕ) (st : Receiving) (packet : Bytes)
      → st.socket ≡ s
      → StepRound (recv_packet size st packet)
  unfolding recv_packet
  recv_packet-steps size st packet h =
      let header = decode_header packet in
      if_holds StepRound (header.seq_num == st.prev_seq_num) _ _ (λ e. (h, (tt, tt)))
        (λ e.
          if_holds StepRound (not (header.seq_num == (st.prev_seq_num + 1) % 2 ^ 32)) _ _
            (λ e. (h, (tt, tt)))
            (λ e.
              deliver-steps size st header
                (copy_payload st.socket.protocol_mtu packet
                  (fit size (place st.socket header.seq_num) header.length) st.buffer
                  (place st.socket header.seq_num))
                h))

  resend-steps :
      (out : List Sent) (r : Round Receiving Memory ℤ) → StepRound r → StepRound (resend out r)
  resend-steps out (done r) k = (k.0, All-Anything (out ++ r.sent))
  resend-steps out (again more st) k = (k.0, All-Anything (out ++ more))

  recv_switch-steps :
      (size : ℕ) (st : Receiving) (packet : Bytes) (v : Verdict) (s' : Socket) (out : List Sent)
      → Stands s (record { verdict = v; socket = s'; sent = out })
      → StepRound (recv_switch size st packet (record { verdict = v; socket = s'; sent = out }))
  unfolding recv_switch
  recv_switch-steps size st packet invalid s' out h = (h.0 (λ e. absurd cc), All-Anything out)
  recv_switch-steps size st packet closed s' out h =
      (closed-TransferEnds s s' joined h.1, All-Anything out)
  recv_switch-steps size st packet valid s' out h =
      resend-steps out _
        (recv_packet-steps size (record st { socket = s' }) packet (h.0 (λ e. absurd cc)))
  recv_switch-steps size st packet fault s' out h =
      (unchanged s s' (h.0 (λ e. absurd cc)), All-Anything out)

  recv_round-steps :
      (size : ℕ) (st : Receiving) (w : Wait) → st.socket ≡ s → StepRound (recv_round size st w)
  unfolding recv_round recv_incoming
  recv_round-steps size st poll_error h = (unchanged s st.socket h, tt)
  recv_round-steps size st timed_out h = (h, tt)
  recv_round-steps size st (ready recv_error) h = (unchanged s st.socket h, tt)
  recv_round-steps size st (ready (datagram bytes source)) h =
      let (foreign, reply) = check_packet_source st.socket source in
      let packet = take st.socket.protocol_mtu bytes in
      if_holds StepRound foreign _ _ (λ e. (h, All-Anything reply))
        (λ e.
          recv_switch-steps size st packet _ _ _
            (rw (sym h) (check_packet_validity-Stands st.socket packet flag_psh)))

  recv_loop-steps :
      (size : ℕ) (st : Receiving) (ws : List Wait)
      → st.socket ≡ s
      → Ends CallEnds Anything (recv_loop size st ws)
  unfolding recv_loop
  recv_loop-steps size st ws h =
      run_loop_inv _ _ _ SameSocket CallEnds Anything recv_head-steps (recv_round-steps size) ws st
        h

  -- The whole call.
  abbrev StepRun : Call → Type 0
  StepRun r = TransferEnds s r.outcome r.state.socket

  after_first-steps :
      (size : ℕ) (s' : Socket) (packet buffer : Bytes) (copied : Option Bytes) (ws : List Wait)
      → s' ≡ s
      → StepRun (after_first size s' packet buffer copied ws)
  unfolding after_first
  after_first-steps size s' packet buffer none ws h = unchanged s s' h
  after_first-steps size s' packet buffer (some b) ws h =
      let total = length packet - header_size in
      let counted = count-TransferEnds s s' joined (signed32 total) h in
      if_holds StepRun (signed_gt total size) _ _ (λ e. counted)
        (λ e.
          if_holds StepRun (flag_set (decode_header packet).flags flag_last) _ _ (λ e. counted)
            (λ e. (recv_loop-steps size _ ws h).0))

  recv_first-steps :
      (size : ℕ) (s' : Socket) (packet buffer : Bytes) (ws : List Wait)
      → s' ≡ s
      → StepRun (recv_first size s' packet buffer ws)
  unfolding recv_first
  recv_first-steps size s' packet buffer ws h = after_first-steps size s' packet buffer _ ws h

  continue_recv-steps :
      (size : ℕ) (buffer : Bytes) (ws : List Wait) (o : Outcome (Option Bytes)) (s' : Socket)
      (out : List Sent)
      → FirstEnds o s'
      → StepRun (continue_recv size buffer ws (record { outcome = o; state = s'; sent = out }))
  unfolding continue_recv
  continue_recv-steps size buffer ws (returned none) s' out h = h
  continue_recv-steps size buffer ws (returned (some p)) s' out h =
      recv_first-steps size s' p buffer ws h
  continue_recv-steps size buffer ws (threw e) s' out h = unchanged s s' h
  continue_recv-steps size buffer ws waiting s' out h = unchanged s s' h
  continue_recv-steps size buffer ws undefined s' out h = unchanged s s' h

  recv_buffer-steps :
      (buffer : Option Bytes) (size : ℕ) (incoming : List Incoming) (ws : List Wait)
      → StepRun (recv_buffer s buffer size incoming ws)
  unfolding recv_buffer
  recv_buffer-steps none size incoming ws = unchanged s s refl
  recv_buffer-steps (some buffer) size incoming ws =
      continue_recv-steps size buffer ws _ _ _ (first_loop-steps incoming).0

pub recv-Follows :
    (s : Socket) (buffer : Option Bytes) (size : ℕ) (incoming : List Incoming) (ws : List Wait)
    → Follows receiving
        (count_reply (recv s buffer size incoming ws).outcome)
        s
        (recv s buffer size incoming ws).state.socket
unfolding recv
recv-Follows s buffer size incoming ws =
    if_holds (λ (r : Call). TransferEnds s r.outcome r.state.socket) s.is_connected _ _
      (λ h. recv_buffer-steps s h buffer size incoming ws) (λ e. unchanged s s refl)
